-- ===== src/Splitting/Pfs/Cover.antt =====
-- The strides of a transfer, and the servers of a metadata operation.
use native.Mathlib.Nat.{suc-mul}
use docker_sim.Prelude.{
  ℕ, zero, suc, ◌+◌, ◌-◌, ◌*◌, ◌%◌, ◌^◌, ◌≤◌, ◌<◌, ◌≡◌, refl, ap, sym, ◌∙◌, inl, inr, some, List,
  [], ◌∷◌, length, All, pos, word, word_small, sub_word_small, arith, if-false,
}
use Prim.Native.Nat.{min}
use docker_sim.Splitting.Message.{
  ok, Pointer, IoMessage, IsTransfer, IsTraced, add_request_to_trace_traced, update_length_transfer,
}
use docker_sim.Splitting.Pieces.{Covers, Covers-cong, no_zero}
use docker_sim.Splitting.Pfs.{
  Pfs, Split, stride, stride_request, strides, split_request, split_transfer,
}

stride-min :
    (request_size stride_size : ℕ) → stride request_size stride_size ≡ min request_size stride_size
unfolding stride
stride-min request_size stride_size = ground arith

stride_request_transfer :
    (p : Pfs) (sm_io : IoMessage) (msg : Pointer) (i offset size : ℕ)
    → IsTransfer sm_io
    → IsTraced sm_io
    → 0 < p.num_servers
    → (s : IoMessage) × (stride_request p sm_io msg i offset size ≡ ok s)
      × (s.offset ≡ offset)
      × (s.size ≡ size)
unfolding stride_request
stride_request_transfer p sm_io msg i offset size t traced servers =
    let m : IoMessage = record sm_io {
      parent_request = some msg;
      offset = offset;
      size = size;
      connection_id = pos (i % p.num_servers);
      comm_id = pos (i % p.num_servers);
      nfs_connection_id = pos (i % p.num_servers);
    } in
    let (n, e) = update_length_transfer m t in
    let (rs, numbered) = add_request_to_trace_traced i (record m { byte_length = n }) traced in
    (
      record m { byte_length = n; requests = some rs },
      if-false _ _ (no_zero p.num_servers servers) ∙ rw e numbered,
      refl,
      refl,
    )

total :
    (offset request_size stride_size size left : ℕ)
    → size ≡ min request_size stride_size
    → offset + min request_size (suc left * stride_size)
      ≡ offset + size + min (request_size - size) (left * stride_size)
total offset request_size stride_size size left e = omega (arith, suc-mul left stride_size)

strides_step :
    (left : ℕ) (p : Pfs) (sm_io : IoMessage) (msg : Pointer) (i offset request_size : ℕ)
    (s : IoMessage) (ss : List IoMessage)
    → offset + request_size < 2 ^ 32
    → stride_request p sm_io msg i offset (stride request_size p.stride_size) ≡ ok s
    → strides left p sm_io msg
        (i + 1)
        (offset + stride request_size p.stride_size)
        (request_size - stride request_size p.stride_size)
      ≡ ok ss
    → strides (suc left) p sm_io msg i offset request_size ≡ ok (s ∷ ss)
unfolding strides
strides_step left p sm_io msg i offset request_size s ss w made others =
    let size = stride request_size p.stride_size in
    let exact = stride-min request_size p.stride_size in
    let moved : word (offset + size) ≡ offset + size = word_small (offset + size) (omega arith) in
    let left_over = sub_word_small request_size size (omega arith) (omega arith) in
    rw (moved, left_over, made, others)

strides-Covers :
    (left : ℕ) (p : Pfs) (sm_io : IoMessage) (msg : Pointer) (i offset request_size : ℕ)
    → IsTransfer sm_io
    → IsTraced sm_io
    → 0 < p.num_servers
    → offset + request_size < 2 ^ 32
    → (ss : List IoMessage) × (strides left p sm_io msg i offset request_size ≡ ok ss)
      × Covers offset (offset + min request_size (left * p.stride_size)) ss
      × All (λ s. s.size ≤ p.stride_size) ss
      × (length ss ≡ left)
unfolding strides
strides-Covers zero p sm_io msg i offset request_size t traced servers w =
    ([], refl, omega arith, tt, refl)
strides-Covers (suc left) p sm_io msg i offset request_size t traced servers w =
    let size = stride request_size p.stride_size in
    let exact = stride-min request_size p.stride_size in
    let (s, made, at_offset, of_size) =
      stride_request_transfer p sm_io msg i offset size t traced servers in
    let (ss, others, covered, fits, count) =
      strides-Covers left p sm_io msg (i + 1) (offset + size) (request_size - size) t traced servers
        (omega arith) in
    (
      s ∷ ss,
      strides_step left p sm_io msg i offset request_size s ss (omega arith) made others,
      (
        at_offset,
        Covers-cong ss (ap (λ n. offset + n) (sym of_size))
            (sym (total offset request_size p.stride_size size left exact)) covered,
      ),
      (rw (of_size, exact) (omega arith), fits),
      ap suc count,
    )

transfer_branch :
    (p : Pfs) (msg : Pointer) (sm_io : IoMessage)
    → IsTransfer sm_io
    → split_request p msg sm_io ≡ split_transfer p msg sm_io
unfolding split_request
transfer_branch p msg sm_io (inl e) = rw e
transfer_branch p msg sm_io (inr e) = rw e

-- A read or write becomes exactly four subrequests, whatever its size. They are consecutive, none
-- is above the stride size, and they cover the first four strides of the request's bytes: the
-- whole request only if it is no longer than that. The request has a trace, the stride size and
-- the number of servers are not 0, and ranges end below 2 ^ 32.
pub split_request-Covers :
    (p : Pfs) (msg : Pointer) (sm_io : IoMessage)
    → IsTransfer sm_io
    → IsTraced sm_io
    → 0 < p.stride_size
    → 0 < p.num_servers
    → sm_io.offset + sm_io.byte_length < 2 ^ 32
    → (split : Split) × (split_request p msg sm_io ≡ ok split)
      × Covers sm_io.offset
          (sm_io.offset + min sm_io.byte_length (4 * p.stride_size))
          split.sub_requests
      × All (λ s. s.size ≤ p.stride_size) split.sub_requests
      × (length split.sub_requests ≡ 4)
      × (split.registered ≡ 4)
      × (split.linked ≡ 4)
unfolding split_request split_transfer
split_request-Covers p msg sm_io t traced strides servers w =
    let small = word_small sm_io.byte_length (omega arith) in
    let (ss, made, covered, fits, count) =
      strides-Covers 4 p sm_io msg 0 sm_io.offset sm_io.byte_length t traced servers w in
    (
      record { registered = 4; linked = 4; sub_requests = ss },
      transfer_branch p msg sm_io t
          ∙ if-false _ _ (no_zero p.stride_size strides)
          ∙ rw (small, made),
      covered,
      fits,
      count,
      refl,
      refl,
    )
