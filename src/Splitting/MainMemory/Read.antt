-- ===== src/Splitting/MainMemory/Read.antt =====
-- A read is cut into whole blocks, as many as hold its bytes and the blocks to read ahead.
use native.Mathlib.Nat.{
  mod-lt, div-add-mod, mul-mod_left, add-mod_right, mul_comm, add-mul, suc-mul,
}
use docker_sim.Prelude.{
  ℕ, zero, suc, ◌+◌, ◌-◌, ◌*◌, ◌/◌, ◌%◌, ◌^◌, ◌≤◌, ◌<◌, ◌≡◌, refl, ap, ◌∙◌, inl, List, [], ◌∷◌,
  ◌++◌, length, All, word, word_small, rounds_small, arith, ◌⊎◌, inr,
}
use docker_sim.Splitting.Message.{ok, Pointer, IoMessage, IsTraced, IsTransfer, sm_read_file}
use docker_sim.Splitting.Pieces.{Covers, no_zero}
use docker_sim.Splitting.System.{add_request}
use docker_sim.Splitting.MainMemory.{
  MainMemory, num_requested_blocks, read_blocks, split_read, split_request,
}
use docker_sim.Splitting.MainMemory.Write.{
  le-mul_self, sub_request_transfer, first_size, later_blocks, later_blocks_bounds,
  num_requested_blocks_small,
}

-- Whole blocks.
abbrev pub IsBlock : ℕ → IoMessage → Type 0
IsBlock block s = (s.size ≡ block) × (s.offset % block ≡ 0)

read_blocks-Covers :
    (left : ℕ) (sm_io : IoMessage) (msg : Pointer) (block number current : ℕ)
    → IsTransfer sm_io
    → IsTraced sm_io
    → current + left * block < 2 ^ 31
    → current % block ≡ 0
    → (ss : List IoMessage) × (read_blocks left sm_io msg block number current ≡ ok ss)
      × Covers current (current + left * block) ss
      × All (IsBlock block) ss
      × (length ss ≡ left)
unfolding read_blocks
read_blocks-Covers zero sm_io msg block number current t traced w aligned =
    ([], refl, omega arith, tt, refl)
read_blocks-Covers (suc left) sm_io msg block number current t traced w aligned =
    let moved : word (current + block) ≡ current + block =
      word_small (current + block) (grind (arith, w)) in
    let (s, made, at_current, of_size) =
      sub_request_transfer sm_io msg number current block t traced in
    let (ss, others, covered, whole, count) =
      read_blocks-Covers left sm_io msg block (number + 1) (current + block) t traced
        (grind (arith, w)) (add-mod_right current block ∙ aligned) in
    (
      s ∷ ss,
      rw (moved, made, others),
      (at_current, rw of_size (rw (regroup current left block) covered)),
      ((of_size, rw at_current aligned), whole),
      ap suc count,
    )
  where
    regroup : (c l b : ℕ) → c + suc l * b ≡ c + b + l * b
    regroup c l b = omega arith

-- The number of blocks that hold the bytes of a request.
pub blocks_needed : ℕ → ℕ → ℕ → ℕ
blocks_needed offset size block = later_blocks (size - first_size offset size block) block + 1

read_branch :
    (m : MainMemory) (msg : Pointer) (sm_io : IoMessage)
    → 0 < m.memory_block_size
    → sm_io.operation ≡ sm_read_file
    → split_request m msg sm_io ≡ split_read m msg sm_io
unfolding split_request
read_branch m msg sm_io h op = rw (no_zero m.memory_block_size h, op)

bounds_by_parts :
    (offset size block later quotient r first : ℕ)
    → quotient * block + r ≡ offset
    → 0 < size
    → first ≤ size
    → first + r ≤ block
    → (first ≡ size) ⊎ (first + r ≡ block)
    → size - first ≤ later * block
    → later * block < size - first + block
    → (offset + size ≤ quotient * block + (later + 1) * block)
      × (quotient * block + (later + 1) * block < offset + size + block)
bounds_by_parts offset size block zero quotient r first split some_bytes fits inside (inl all) e n =
    (omega arith, omega arith)
bounds_by_parts offset size block (suc l) quotient r first split some_bytes fits inside (inl all) e
      n =
    absurd (omega (arith, suc-mul l block))
bounds_by_parts offset size block later quotient r first split some_bytes fits inside (inr full) e
      n =
    let spread = add-mul later 1 block in (omega (arith, spread), omega (arith, spread))

first_size_cases :
    (offset size block : ℕ)
    → 0 < block
    → (first_size offset size block ≤ size)
      × (first_size offset size block + offset % block ≤ block)
      × ((first_size offset size block ≡ size)
          ⊎ (first_size offset size block + offset % block ≡ block))
first_size_cases offset size block h = let inside = mod-lt offset h in ground (arith, inside)

-- The blocks from that of the offset on reach the end of the request, and one block less do not.
pub blocks_needed_bounds :
    (offset size block : ℕ)
    → 0 < block
    → 0 < size
    → (offset + size ≤ offset / block * block + blocks_needed offset size block * block)
      × (offset / block * block + blocks_needed offset size block * block < offset + size + block)
unfolding blocks_needed
blocks_needed_bounds offset size block h some_bytes =
    let bounds = later_blocks_bounds (size - first_size offset size block) block h in
    let split = div-add-mod offset block in
    let swap = mul_comm block (offset / block) in
    let (fits, inside, ends) = first_size_cases offset size block h in
    bounds_by_parts offset size block (later_blocks (size - first_size offset size block) block)
      (offset / block) (offset % block) (first_size offset size block) (omega (arith, split, swap))
      some_bytes fits inside ends bounds.0 bounds.1

num_requested-needed :
    (offset size block : ℕ)
    → 0 < block
    → block < 2 ^ 31
    → offset + size < 2 ^ 31
    → num_requested_blocks offset size block ≡ blocks_needed offset size block
unfolding blocks_needed
num_requested-needed offset size block h k w = num_requested_blocks_small offset size block h k w

-- All that is said of a read of `needed` blocks that starts at block `first`.
pub record ReadsBlocks (m : MainMemory) (msg : Pointer) (sm_io : IoMessage) (needed : ℕ)
    (m' : MainMemory) (ss : List IoMessage) : Type 0 where
  pub result : split_request m msg sm_io ≡ ok m'
  pub appended : m'.sub_requests ≡ m.sub_requests ++ ss
  pub consecutive :
      Covers
        (sm_io.offset / m.memory_block_size * m.memory_block_size)
        (sm_io.offset / m.memory_block_size * m.memory_block_size
          + (needed + m.read_ahead_blocks) * m.memory_block_size)
        ss
  pub whole : All (IsBlock m.memory_block_size) ss
  pub registered : m'.system ≡ add_request msg (needed + m.read_ahead_blocks) m.system
  pub counted : length ss ≡ needed + m.read_ahead_blocks

few_blocks : (block n start : ℕ) → 0 < block → start + n * block < 2 ^ 31 → n < 2 ^ 31
few_blocks block n start h total = omega (arith, le-mul_self block n h, mul_comm block n)

reads_blocks :
    (m : MainMemory) (msg : Pointer) (sm_io : IoMessage) (needed : ℕ)
    → sm_io.operation ≡ sm_read_file
    → IsTraced sm_io
    → num_requested_blocks sm_io.offset sm_io.size m.memory_block_size ≡ needed
    → 0 < m.memory_block_size
    → sm_io.offset / m.memory_block_size * m.memory_block_size
        + (needed + m.read_ahead_blocks) * m.memory_block_size
      < 2 ^ 31
    → (m' : MainMemory) × (ss : List IoMessage) × ReadsBlocks m msg sm_io needed m' ss
unfolding split_read
reads_blocks m msg sm_io needed op traced exact h total =
    let block = m.memory_block_size in
    let start = sm_io.offset / block * block in
    let asked = needed + m.read_ahead_blocks in
    let (ss, made, covered, whole, count) =
      read_blocks-Covers asked sm_io msg block 0 start (inl op) traced total
        (mul-mod_left (sm_io.offset / block) block) in
    let few : asked < 2 ^ 31 = few_blocks block asked start h total in
    (
      record m { system = add_request msg asked m.system; sub_requests = m.sub_requests ++ ss },
      ss,
      record {
        result =
            read_branch m msg sm_io h op
            ∙ rw (
              exact,
              word_small asked (omega (arith, few)),
              rounds_small asked few,
              word_small start (omega (arith, total)),
              made,
            );
        appended = refl;
        consecutive = covered;
        whole = whole;
        registered = refl;
        counted = count;
      },
    )

-- A read of some bytes is cut into consecutive whole blocks, aligned to the block size, from the
-- block of the offset on. `needed` of them hold all the bytes of the request, with less than a
-- block to spare, and `readAheadBlocks` follow; the system expects as many subrequests as were
-- made. The request has a trace, the block is not empty, and offsets stay below 2 ^ 31.
pub split_request-ReadsBlocks :
    (m : MainMemory) (msg : Pointer) (sm_io : IoMessage)
    → 0 < m.memory_block_size
    → sm_io.operation ≡ sm_read_file
    → IsTraced sm_io
    → 0 < sm_io.size
    → sm_io.offset + sm_io.size + (m.read_ahead_blocks + 1) * m.memory_block_size < 2 ^ 31
    → (needed : ℕ) × (m' : MainMemory) × (ss : List IoMessage) × ReadsBlocks m msg sm_io needed m'
        ss
      × (sm_io.offset + sm_io.size
          ≤ sm_io.offset / m.memory_block_size * m.memory_block_size + needed * m.memory_block_size)
      × (sm_io.offset / m.memory_block_size * m.memory_block_size + needed * m.memory_block_size
          < sm_io.offset + sm_io.size + m.memory_block_size)
split_request-ReadsBlocks m msg sm_io h op traced some_bytes w =
    let block = m.memory_block_size in
    let needed = blocks_needed sm_io.offset sm_io.size block in
    let (reach, tight) = blocks_needed_bounds sm_io.offset sm_io.size block h some_bytes in
    let exact =
      num_requested-needed sm_io.offset sm_io.size block h (omega (arith, w)) (omega (arith, w)) in
    let (m', ss, reads) =
      reads_blocks m msg sm_io needed op traced exact h (omega (arith, tight, w)) in
    (needed, m', ss, reads, reach, tight)
