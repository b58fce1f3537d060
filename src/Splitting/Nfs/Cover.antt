-- ===== src/Splitting/Nfs/Cover.antt =====
-- The shares of a cut transfer.
use native.Mathlib.Nat.{suc-mul, add-zero}
use docker_sim.Prelude.{
  ℕ, zero, suc, ◌+◌, ◌-◌, ◌*◌, ◌^◌, ◌≤◌, ◌<◌, ◌≡◌, refl, ap, sym, ◌∙◌, some, ◌==◌, List, [], ◌∷◌,
  length, true, leb, if◌then◌else◌, word, word_small, sub_word_small, rounds_small, arith,
}
use docker_sim.Splitting.Message.{
  ok, Pointer, IoMessage, IsTransfer, IsTraced, add_request_to_trace_traced, sm_read_file,
}
use docker_sim.Splitting.Pieces.{no_zero}
use docker_sim.Splitting.MainMemory.Write.{later_blocks, later_blocks_bounds}
use docker_sim.Splitting.Nfs.{
  num_transfers, share, transfer, transfers, split_request, is_transfer, sm_nfs2_read_request,
  sm_nfs2_write_request,
}

-- The shares are consecutive from `a` up to `b`, none is empty, and none is above the limit.
abbrev pub SharesCover : ℕ → ℕ → ℕ → List (IoMessage × ℕ) → Type 0
SharesCover limit a b [] = a ≡ b
SharesCover limit a b ((s, n) ∷ ss) =
    (s.offset ≡ a) × (0 < n) × (n ≤ limit) × SharesCover limit (a + n) b ss

share_small :
    (size limit taken : ℕ)
    → taken ≤ size
    → size < 2 ^ 31
    → share size limit taken ≡ (if leb limit (size - taken) then limit else size - taken)
unfolding share
share_small size limit taken h k = rw (sub_word_small size taken h (omega arith))

-- The share of a round that is needed is not empty, and the later rounds are just enough.
share_step :
    (left limit size taken n : ℕ)
    → n ≡ (if leb limit (size - taken) then limit else size - taken)
    → 0 < limit
    → taken ≤ size
    → size ≤ taken + suc left * limit
    → taken + suc left * limit < size + limit
    → (0 < n)
      × (n ≤ limit)
      × (taken + n ≤ size)
      × (size ≤ taken + n + left * limit)
      × (taken + n + left * limit < size + limit)
share_step left limit size taken n e h below enough needed =
    let spread = suc-mul left limit in ground (arith, e, spread, below, enough, needed)

-- The copy for a share starts at its offset.
transfer_traced :
    (sm_io : IoMessage) (msg : Pointer) (number offset size : ℕ)
    → IsTraced sm_io
    → (s : IoMessage) × (transfer sm_io msg number offset size ≡ ok s) × (s.offset ≡ offset)
unfolding transfer
transfer_traced sm_io msg number offset size traced =
    let m : IoMessage = record sm_io {
      parent_request = some msg;
      offset = offset;
      byte_length =
          if sm_io.operation == sm_read_file
          then sm_nfs2_read_request
          else sm_nfs2_write_request + size;
    } in
    let (rs, numbered) = add_request_to_trace_traced number m traced in
    (record m { requests = some rs }, numbered, refl)

transfers-SharesCover :
    (left : ℕ) (sm_io : IoMessage) (msg : Pointer) (limit number start taken : ℕ)
    → IsTraced sm_io
    → 0 < limit
    → start + sm_io.size < 2 ^ 31
    → taken ≤ sm_io.size
    → sm_io.size ≤ taken + left * limit
    → taken + left * limit < sm_io.size + limit
    → (ss : List (IoMessage × ℕ)) × (transfers left sm_io msg limit number (start + taken) taken
        ≡ ok ss)
      × SharesCover limit (start + taken) (start + sm_io.size) ss
      × (length ss ≡ left)
unfolding transfers
transfers-SharesCover zero sm_io msg limit number start taken traced h w below enough needed =
    ([], refl, omega arith, refl)
transfers-SharesCover (suc left) sm_io msg limit number start taken traced h w below enough needed =
    let n = share sm_io.size limit taken in
    let exact = share_small sm_io.size limit taken below (omega arith) in
    let (some_bytes, fits, below', enough', needed') =
      share_step left limit sm_io.size taken n exact h below enough needed in
    let (s, made, at_offset) = transfer_traced sm_io msg number (start + taken) n traced in
    let (ss, others, covered, count) =
      transfers-SharesCover left sm_io msg limit (number + 1) start (taken + n) traced h w below'
        enough' needed' in
    let moved : word (start + taken + n) ≡ start + (taken + n) =
      word_small (start + taken + n) (omega arith) ∙ omega arith in
    let taken' : word (taken + n) ≡ taken + n = word_small (taken + n) (omega arith) in
    (
      (s, n) ∷ ss,
      rw (moved, taken', made, others),
      (at_offset, some_bytes, fits, rw (regroup start taken n) covered),
      ap suc count,
    )
  where
    regroup : (a b c : ℕ) → a + b + c ≡ a + (b + c)
    regroup a b c = omega arith

num_transfers-later_blocks : (size limit : ℕ) → num_transfers size limit ≡ later_blocks size limit
unfolding num_transfers
num_transfers-later_blocks size limit = refl

is_transfer-true : (sm_io : IoMessage) → IsTransfer sm_io → is_transfer sm_io.operation ≡ true
unfolding is_transfer
is_transfer-true sm_io t = ground arith

-- A read or write that has a trace is cut into as many subrequests as slots are registered. Their
-- shares are consecutive, none is empty or above the limit, and they cover exactly the bytes of the
-- request. The limit is not 0, and offsets stay below 2 ^ 31.
pub split_request-SharesCover :
    (limit : ℕ) (msg : Pointer) (sm_io : IoMessage)
    → IsTransfer sm_io
    → IsTraced sm_io
    → 0 < limit
    → sm_io.offset + sm_io.size < 2 ^ 31
    → (n : ℕ) × (ss : List (IoMessage × ℕ)) × (split_request limit msg sm_io ≡ ok (n, ss))
      × SharesCover limit sm_io.offset (sm_io.offset + sm_io.size) ss
      × (length ss ≡ n)
unfolding split_request num_transfers
split_request-SharesCover limit msg sm_io t traced h w =
    let n = num_transfers sm_io.size limit in
    let (enough, needed, few) = later_blocks_bounds sm_io.size limit h in
    let (ss, made, covered, count) =
      transfers-SharesCover n sm_io msg limit 0 sm_io.offset 0 traced h w (omega arith)
        (omega arith) (omega arith) in
    (
      n,
      ss,
      rw (
        is_transfer-true sm_io t,
        no_zero limit h,
        rounds_small n (omega arith),
        ap (λ o. transfers n sm_io msg limit 0 o 0) (sym (add-zero sm_io.offset)) ∙ made,
      ),
      rw (add-zero sm_io.offset) at covered,
      count,
    )
