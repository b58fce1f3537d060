-- ===== src/Memory/BlockModel/Recency.antt =====
-- What one subrequest does to the cache of RAMMemory_BlockModel and to the writes it holds.
use docker_sim.Prelude.{
  ℕ, suc, ◌-◌, ◌/◌, ◌≤◌, ◌≡◌, sym, ap, ◌∙◌, ◌⊎◌, true, some, List, [], ◌∷◌, ◌++◌, length, get_elem?,
  ◌==◌, if◌then◌else◌, arith,
}
use docker_sim.Splitting.Message.{IoMessage, sm_read_file}
use docker_sim.Memory.Blocks.{MemoryBlock, set_is_pending}
use docker_sim.Memory.Blocks.Found.{
  Key, keys, without, take_keys, erase_block, FirstFound, set_is_pending-FirstFound,
  erase_block-set_is_pending, keys-erase_block, take_keys-all, FirstFound-key,
  get_elem?-set_is_pending,
}
use docker_sim.Memory.BlockModel.{
  BlockModel, block_bytes, search_memory_block, re_insert_at, is_pending_at, mark_at,
}
use docker_sim.Memory.BlockModel.Lru.{Sized, cached, re_insert_at-found}
use docker_sim.Memory.BlockModel.Flush.{flushed, Timed}

-- The blocks held once the block of `sm` has been used: it comes first, and the rest is cut to
-- the size of the cache.
abbrev pub recent : BlockModel → IoMessage → List Key
recent s sm =
    (sm.file_name, sm.offset / block_bytes s)
    ∷ take_keys (s.total_cache_blocks - 1)
        (without sm.file_name (sm.offset / block_bytes s) (cached s))

abbrev pub writes : IoMessage → List IoMessage
writes sm = if sm.operation == sm_read_file then [] else sm ∷ []

-- `sm` asks for a block that is in the cache and pending.
abbrev pub AsksPending : BlockModel → IoMessage → Type 0
AsksPending s sm =
    (i : ℕ) × (search_memory_block sm.file_name sm.offset s ≡ some i) × (is_pending_at i s ≡ true)

-- The cache after `sm`, and the writes: a block in the cache that is pending stays where it is, and
-- a write to it is dropped. `rest` is what the queue of subrequests keeps.
pub record Used (s : BlockModel) (sm : IoMessage) (rest : List IoMessage) (t : BlockModel)
    : Type 0 where
  pub content :
      (AsksPending s sm × (t.memory_block_list ≡ s.memory_block_list) × (flushed t ≡ flushed s))
      ⊎ ((keys (block_bytes s) t.memory_block_list ≡ recent s sm)
          × (flushed t ≡ flushed s ++ writes sm))
  pub bounded : length t.memory_block_list ≤ s.total_cache_blocks
  pub total : t.total_cache_blocks ≡ s.total_cache_blocks
  pub size : t.block_size_kb ≡ s.block_size_kb
  pub timed : Timed s → Timed t
  pub clock : t.past_end ≡ s.past_end
  pub left : t.sub_requests ≡ rest

-- A block found, used again.
pub touch :
    (sm : IoMessage) (s : BlockModel) (i : ℕ) (x : MemoryBlock)
    → Sized s
    → FirstFound (block_bytes s) sm.file_name (sm.offset / block_bytes s) i x s.memory_block_list
    → (keys (block_bytes s) (x ∷ erase_block i s.memory_block_list) ≡ recent s sm)
      × (length (x ∷ erase_block i s.memory_block_list) ≤ s.total_cache_blocks)
unfolding keys
touch sm s i x v f =
    let size = block_bytes s in
    let n = sm.offset / size in
    let bs = s.memory_block_list in
    let rest = erase_block i bs in
    let (e, l) = keys-erase_block size sm.file_name n i x bs f in
    let short : length rest ≤ s.total_cache_blocks - 1 =
      omega (arith, l, v.bounded, v.some_blocks) in
    (
      ap {A = Key} {B = List Key} (λ k. k ∷ keys size rest)
            (FirstFound-key size sm.file_name n i x bs f)
          ∙ ap {A = List Key} {B = List Key} (λ l. (sm.file_name, n) ∷ l)
              (sym (take_keys-all (s.total_cache_blocks - 1) size rest short)
                ∙ ap (take_keys (s.total_cache_blocks - 1)) e),
      omega (arith, l, v.bounded),
    )

-- A block marked and used again.
pub marked :
    (sm : IoMessage) (s : BlockModel) (i : ℕ) (x : MemoryBlock)
    → get_elem? s.memory_block_list i ≡ some x
    → FirstFound (block_bytes s) sm.file_name (sm.offset / block_bytes s) i x s.memory_block_list
    → re_insert_at i (mark_at i s) ≡ record s {
      memory_block_list = record x { is_pending = true } ∷ erase_block i s.memory_block_list;
      stale_steps = suc s.stale_steps;
    }
unfolding mark_at
marked sm s i x g f =
    re_insert_at-found (record s { memory_block_list = set_is_pending true i s.memory_block_list })
      (sm.offset / block_bytes s) i sm.file_name (record x { is_pending = true })
      (get_elem?-set_is_pending true i x s.memory_block_list g)
      (set_is_pending-FirstFound (block_bytes s) sm.file_name (sm.offset / block_bytes s) i x
        s.memory_block_list true f)
    ∙ ap {A = List MemoryBlock} {B = BlockModel}
        (λ bs. record s {
          memory_block_list = record x { is_pending = true } ∷ bs;
          stale_steps = suc s.stale_steps;
        })
        (erase_block-set_is_pending true i s.memory_block_list)
