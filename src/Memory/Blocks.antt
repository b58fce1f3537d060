-- ===== src/Memory/Blocks.antt =====
-- The list of cached blocks of RAMMemory_BlockModel: search, reinsertion, insertion and eviction.
-- The block that was used last stands first. A pointer to a block of the list is its index.
pub mod Found
use docker_sim.Prelude.{
  ℕ, zero, suc, ◌+◌, ◌*◌, ◌/◌, Bool, true, false, ◌&&◌, not, Option, none, some, List, [], ◌∷◌,
  length, ltb, leb, ◌==◌, if◌then◌else◌, word, same_name,
}
use Prim.Native.String.{String}

pub data Error : Type 0 where
  block_size_too_big out_of_bounds empty_list end_of_simulation : Error

pub data Result {ℓ} (A : Type ℓ) : Type ℓ where
  ok : A → Result A
  throw : Error → Result A

infixl 5 ◌>>=◌
abbrev pub ◌>>=◌ {ℓ κ} : {A : Type ℓ} {B : Type κ} → Result A → (A → Result B) → Result B
ok a >>= f = f a
throw e >>= f = throw e

pub record MemoryBlock : Type 0 where
  pub file_name : String
  pub offset : ℕ
  pub block_size : ℕ
  pub is_pending : Bool

-- The test of the search: block `n` of the file, with blocks of `size` bytes.
unfoldable pub is_requested : ℕ → String → ℕ → MemoryBlock → Bool
is_requested size file n b = same_name file b.file_name && ((b.offset / size) == n)

unfoldable pub search_block : ℕ → String → ℕ → List MemoryBlock → Option ℕ
search_block size file n [] = none
search_block size file n (b ∷ bs) =
    if is_requested size file n b
    then some 0
    else elim (search_block size file n bs) [ none ↦ none | some i ↦ some (suc i) ]

-- `setIsPending` through a pointer.
unfoldable pub set_is_pending : Bool → ℕ → List MemoryBlock → List MemoryBlock
set_is_pending p i [] = []
set_is_pending p zero (b ∷ bs) = record b { is_pending = p } ∷ bs
set_is_pending p (suc i) (b ∷ bs) = b ∷ set_is_pending p i bs

-- The test of the reinsertion: the same file and offset.
unfoldable pub is_same : MemoryBlock → MemoryBlock → Bool
is_same block b = same_name block.file_name b.file_name && (block.offset == b.offset)

-- The first block that is the same, and the list without it.
unfoldable pub take_block : MemoryBlock → List MemoryBlock → Option (MemoryBlock × List MemoryBlock)
take_block block [] = none
take_block block (b ∷ bs) =
    let later = take_block block bs in
    if is_same block b
    then some (b, bs)
    else elim later [ none ↦ none | some (x, xs) ↦ some (x, b ∷ xs) ]

unfoldable pub re_insert_block : MemoryBlock → List MemoryBlock → List MemoryBlock
re_insert_block block bs = elim (take_block block bs) [ none ↦ bs | some (x, xs) ↦ x ∷ xs ]

unfoldable pub is_memory_full : ℕ → List MemoryBlock → Bool
is_memory_full total bs = leb total (length bs)

unfoldable pub none_idle : List MemoryBlock → Bool
none_idle [] = true
none_idle (b ∷ bs) = b.is_pending && none_idle bs

unfoldable pub all_blocks_pending : List MemoryBlock → Bool
unfolding none_idle
all_blocks_pending [] = false
all_blocks_pending (b ∷ bs) = none_idle (b ∷ bs)

-- `pop_back`, which an empty list does not allow.
unfoldable pub pop_back : List MemoryBlock → Result (List MemoryBlock)
pop_back [] = throw empty_list
pop_back (b ∷ []) = ok []
pop_back (b ∷ c ∷ bs) = do rest ← pop_back (c ∷ bs); ok (b ∷ rest)

unfoldable pub insert_block : ℕ → String → ℕ → ℕ → List MemoryBlock → Result (List MemoryBlock)
insert_block bytes file offset size bs =
    let block_number = offset / bytes in
    if ltb bytes size
    then throw block_size_too_big
    else if ltb (word ((block_number + 1) * bytes)) (word (offset + size))
    then throw out_of_bounds
    else ok (
        record {
          file_name = file;
          offset = word (block_number * bytes);
          block_size = bytes;
          is_pending = true;
        }
        ∷ bs)
