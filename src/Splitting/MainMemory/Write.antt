-- ===== src/Splitting/MainMemory/Write.antt =====
-- A write is cut into pieces that cover it exactly, each in one block of the memory.
use native.Mathlib.Nat.{mod-lt, div-add-mod, add-mod_right, mul-mod_right, div-le_self}
use docker_sim.Prelude.{
  ℕ, zero, suc, ◌+◌, ◌-◌, ◌*◌, ◌/◌, ◌%◌, ◌^◌, ◌≤◌, ◌<◌, ◌≡◌, refl, ap, ◌∙◌, List, [], ◌∷◌, ◌++◌,
  length, All, ltb, leb, ◌==◌, if◌then◌else◌, word, word_small, sub_word_small, abs_word_small,
  rounds_small, arith, some, Bool-cases, inl, inr,
}
use docker_sim.Splitting.Message.{
  ok, Pointer, IoMessage, IsTraced, add_request_to_trace_traced, IsTransfer, update_length_transfer,
  sm_write_file,
}
use docker_sim.Splitting.Pieces.{Covers, InBlock, no_zero}
use docker_sim.Splitting.System.{add_request}
use docker_sim.Splitting.MainMemory.{
  MainMemory, sub_request, bytes_in_first_block, num_requested_blocks, current_size, write_blocks,
  split_write, split_request,
}

-- A subrequest of a transfer has the offset and the size that it is given.
pub sub_request_transfer :
    (sm_io : IoMessage) (msg : Pointer) (number offset size : ℕ)
    → IsTransfer sm_io
    → IsTraced sm_io
    → (s : IoMessage) × (sub_request sm_io msg number offset size ≡ ok s)
      × (s.offset ≡ offset)
      × (s.size ≡ size)
unfolding sub_request
sub_request_transfer sm_io msg number offset size t traced =
    let (rs, numbered) = add_request_to_trace_traced number sm_io traced in
    let m : IoMessage = record sm_io {
      requests = some rs;
      parent_request = some msg;
      offset = offset;
      size = size;
    } in
    let (n, e) = update_length_transfer m t in
    (record m { byte_length = n }, rw numbered e, refl, refl)

current_size_small :
    (end current block : ℕ)
    → current ≤ end
    → end < 2 ^ 31
    → current_size end current block ≡ (if leb block (end - current) then block else end - current)
unfolding current_size
current_size_small end current block h k = rw (sub_word_small end current h (omega arith))

-- The rounds left are just enough for the bytes left.
pub record Enough (left block current end : ℕ) : Type 0 where
  pub below : current ≤ end
  pub enough : end ≤ current + left * block
  pub needed : current + left * block < end + block
  pub aligned : current < end → current % block ≡ 0

abbrev pub step_size : ℕ → ℕ → ℕ → ℕ
step_size end current block = if leb block (end - current) then block else end - current

Enough-step :
    (left block current end : ℕ)
    → Enough (suc left) block current end
    → Enough left block (current + step_size end current block) end
Enough-step left block current end e = elim (Bool-cases (leb block (end - current))) [
  | inl fits ↦ rw fits (record {
    below = grind (arith, fits, e.below, e.enough, e.needed);
    enough = grind (arith, e.enough);
    needed = grind (arith, e.needed);
    aligned = λ h. rw add-mod_right (e.aligned (omega arith));
  })
  | inr last ↦ rw last (record {
    below = omega (arith, e.below);
    enough = ground (arith, e.below);
    needed = ground (arith, e.below, e.needed);
    aligned = λ h. absurd (omega (arith, e.below, h));
  })
]

step_size-InBlock :
    (left block current end : ℕ)
    → Enough (suc left) block current end
    → (0 < step_size end current block) × (current % block + step_size end current block ≤ block)
step_size-InBlock left block current end e =
    let more : current < end = grind (arith, e.needed) in
    let start : current % block ≡ 0 = e.aligned more in
    let positive : 0 < block = grind (arith, e.enough, more) in
    ground (arith, start, more, positive)

write_blocks-Covers :
    (left : ℕ) (sm_io : IoMessage) (msg : Pointer) (block end number current : ℕ)
    → IsTransfer sm_io
    → IsTraced sm_io
    → end < 2 ^ 31
    → Enough left block current end
    → (ss : List IoMessage) × (write_blocks left sm_io msg block end number current ≡ ok ss)
      × Covers current end ss
      × All (InBlock block) ss
      × (length ss ≡ left)
unfolding write_blocks
write_blocks-Covers zero sm_io msg block end number current t traced w e =
    ([], refl, omega (arith, e.below, e.enough), tt, refl)
write_blocks-Covers (suc left) sm_io msg block end number current t traced w e =
    let size = step_size end current block in
    let exact = current_size_small end current block e.below w in
    let rest = Enough-step left block current end e in
    let moved : word (current + size) ≡ current + size =
      word_small (current + size) (omega (arith, rest.below)) in
    let (s, made, at_current, of_size) =
      sub_request_transfer sm_io msg number current size t traced in
    let (ss, others, covered, inside, count) =
      write_blocks-Covers left sm_io msg block end (number + 1) (current + size) t traced w rest in
    (
      s ∷ ss,
      rw (exact, moved, made, others),
      (at_current, rw of_size covered),
      (rw (at_current, of_size) (step_size-InBlock left block current end e), inside),
      ap suc count,
    )

-- The first piece of a request ends where the request or the block ends.
abbrev pub first_size : ℕ → ℕ → ℕ → ℕ
first_size offset size block =
    if ltb size (block - offset % block) then size else block - offset % block

bytes_in_first_block_small :
    (offset size block : ℕ)
    → 0 < block
    → block < 2 ^ 31
    → bytes_in_first_block offset size block ≡ first_size offset size block
unfolding bytes_in_first_block
bytes_in_first_block_small offset size block h k =
    let inside = mod-lt offset h in
    rw (sub_word_small block (offset % block) (omega arith) (omega arith))

-- The rounds that are left after the first piece, `rest` bytes being left.
abbrev pub later_blocks : ℕ → ℕ → ℕ
later_blocks rest block = if (rest % block) == 0 then rest / block else rest / block + 1

pub le-mul_self : (b q : ℕ) → 0 < b → q ≤ b * q
le-mul_self zero q h = elim h [ ]
le-mul_self (suc b) q h = omega arith

pub later_blocks_bounds :
    (rest block : ℕ)
    → 0 < block
    → (rest ≤ later_blocks rest block * block)
      × (later_blocks rest block * block < rest + block)
      × (later_blocks rest block ≤ rest)
later_blocks_bounds rest block h =
    let split = div-add-mod rest block in
    let below = mod-lt rest h in
    let quotient = div-le_self rest block in
    elim (Bool-cases ((rest % block) == 0)) [
      | inl whole ↦ rw whole (ground (arith, whole, split, below, quotient))
      | inr part ↦ rw part (ground (arith, part, split, below, le-mul_self block (rest / block) h))
    ]

pub num_requested_blocks_small :
    (offset size block : ℕ)
    → 0 < block
    → block < 2 ^ 31
    → offset + size < 2 ^ 31
    → num_requested_blocks offset size block
      ≡ later_blocks (size - first_size offset size block) block + 1
unfolding num_requested_blocks
num_requested_blocks_small offset size block h k w =
    let rest = size - first_size offset size block in
    let fits : first_size offset size block ≤ size = ground arith in
    let bounds = later_blocks_bounds rest block h in
    rw
      (
        bytes_in_first_block_small offset size block h k,
        sub_word_small size (first_size offset size block) fits (omega arith),
        abs_word_small rest (omega arith),
      )
      (elim (Bool-cases ((rest % block) == 0)) [
        | inl whole ↦ rw whole (word_small (rest / block + 1) (ground (arith, bounds.2, whole)))
        | inr part ↦
            rw part (word_small (rest / block + 2) (ground (arith, bounds.2, part)) ∙ omega arith)
      ])

-- Where the first piece is not all, it ends at a block's end.
first_end :
    (offset size block : ℕ)
    → 0 < block
    → offset + first_size offset size block < offset + size
    → offset + first_size offset size block ≡ block * (offset / block + 1)
first_end offset size block h more = ground (arith, div-add-mod offset block, mod-lt offset h, more)

first_Enough :
    (offset size block : ℕ)
    → 0 < block
    → Enough
        (later_blocks (size - first_size offset size block) block)
        block
        (offset + first_size offset size block)
        (offset + size)
first_Enough offset size block h =
    let rest = size - first_size offset size block in
    let bounds = later_blocks_bounds rest block h in
    let fits : first_size offset size block ≤ size = ground arith in
    record {
      below = omega arith;
      enough = omega arith;
      needed = omega arith;
      aligned = λ more. rw (first_end offset size block h more, mul-mod_right);
    }

write_branch :
    (m : MainMemory) (msg : Pointer) (sm_io : IoMessage)
    → 0 < m.memory_block_size
    → sm_io.operation ≡ sm_write_file
    → split_request m msg sm_io ≡ split_write m msg sm_io
unfolding split_request
write_branch m msg sm_io h op = rw (no_zero m.memory_block_size h, op)

add-sub_one : (n : ℕ) → n + 1 - 1 ≡ n
add-sub_one n = omega arith

-- A write of some bytes is cut into subrequests that are consecutive, cover exactly the bytes of
-- the request, and lie each in one block of the memory; the system expects exactly as many
-- subrequests as were made. The request has a trace, the block is not empty, and offsets stay below
-- 2 ^ 31.
pub split_request-Covers_write :
    (m : MainMemory) (msg : Pointer) (sm_io : IoMessage)
    → 0 < m.memory_block_size
    → m.memory_block_size < 2 ^ 31
    → sm_io.operation ≡ sm_write_file
    → IsTraced sm_io
    → 0 < sm_io.size
    → sm_io.offset + sm_io.size < 2 ^ 31
    → (m' : MainMemory) × (ss : List IoMessage) × (split_request m msg sm_io ≡ ok m')
      × (m'.sub_requests ≡ m.sub_requests ++ ss)
      × Covers sm_io.offset (sm_io.offset + sm_io.size) ss
      × All (InBlock m.memory_block_size) ss
      × (m'.system ≡ add_request msg (length ss) m.system)
unfolding split_request split_write
split_request-Covers_write m msg sm_io h k op traced some_bytes w =
    let block = m.memory_block_size in
    let offset = sm_io.offset in
    let size = sm_io.size in
    let first = first_size offset size block in
    let later = later_blocks (size - first) block in
    let t : IsTransfer sm_io = inr op in
    let fits : first ≤ size = ground arith in
    let positive : 0 < first = ground (arith, some_bytes, mod-lt offset h) in
    let bounds = later_blocks_bounds (size - first) block h in
    let (s, made, at_offset, of_size) = sub_request_transfer sm_io msg 0 offset first t traced in
    let (ss, others, covered, inside, count) =
      write_blocks-Covers later sm_io msg block (offset + size) 1 (offset + first) t traced w
        (first_Enough offset size block h) in
    (
      record m {
        system = add_request msg (length (s ∷ ss)) m.system;
        sub_requests = m.sub_requests ++ s ∷ ss;
      },
      s ∷ ss,
      write_branch m msg sm_io h op
          ∙ rw
              (
                num_requested_blocks_small offset size block h k w,
                bytes_in_first_block_small offset size block h k,
                made,
                rounds_small (later + 1) (omega arith),
                add-sub_one later,
                word_small (offset + size) (omega arith),
                word_small (offset + first) (omega arith),
                others,
              )
              (ground (arith, count)),
      refl,
      (at_offset, rw of_size covered),
      (rw (at_offset, of_size) (ground (arith, some_bytes, mod-lt offset h)), inside),
      refl,
    )
