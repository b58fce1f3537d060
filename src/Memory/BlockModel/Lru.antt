-- ===== src/Memory/BlockModel/Lru.antt =====
-- The order of last use in RAMMemory_BlockModel.
use docker_sim.Prelude.{
  ℕ, suc, ◌+◌, ◌-◌, ◌*◌, ◌/◌, ◌%◌, ◌^◌, ◌≤◌, ◌<◌, ◌≡◌, refl, sym, ap, ◌∙◌, inl, inr, true, none,
  some, List, ◌∷◌, length, get_elem?, leb, ge→ltb, if◌then◌else◌, word, word_small, arith,
  Bool-cases, if-true, if-false,
}
use Prim.Native.String.{String}
use native.Mathlib.Nat.{div-add-mod, add-mul, mul_comm, mul-div_cancel}
use docker_sim.Splitting.Message.{IoMessage}
use docker_sim.Memory.Blocks.{
  MemoryBlock, ok, ◌>>=◌, is_memory_full, pop_back, insert_block, re_insert_block,
}
use docker_sim.Memory.Blocks.Found.{
  Key, key, keys, take_keys, erase_block, FirstFound, re_insert_block-found, take_keys-all,
  pop_back-last,
}
use docker_sim.Memory.BlockModel.{BlockModel, block_bytes, cache_block, re_insert_at}

-- A subrequest that lies within one block of `bytes` bytes, below 2 ^ 32.
pub record Fits (bytes : ℕ) (sm : IoMessage) : Type 0 where
  pub positive : 0 < bytes
  pub within : (sm.offset % bytes) + sm.size ≤ bytes
  pub below : (sm.offset / bytes + 1) * bytes < 2 ^ 32

-- The block of such a subrequest starts and ends without a wrap-around, and holds it.
Fits-bounds :
    (bytes : ℕ) (sm : IoMessage)
    → Fits bytes sm
    → (word ((sm.offset / bytes) * bytes) ≡ (sm.offset / bytes) * bytes)
      × (word (sm.offset + sm.size) ≤ word ((sm.offset / bytes + 1) * bytes))
Fits-bounds bytes sm f =
    let n = sm.offset / bytes in
    let split : bytes * n + (sm.offset % bytes) ≡ sm.offset = div-add-mod sm.offset bytes in
    let next : (n + 1) * bytes ≡ n * bytes + 1 * bytes = add-mul n 1 bytes in
    let swap : n * bytes ≡ bytes * n = mul_comm n bytes in
    let end_word : word ((n + 1) * bytes) ≡ (n + 1) * bytes = word_small _ f.below in
    let last : sm.offset + sm.size ≤ (n + 1) * bytes = omega (arith, f.within, split, next, swap) in
    let last_word : word (sm.offset + sm.size) ≡ sm.offset + sm.size =
      word_small _ (omega (arith, last, f.below)) in
    (word_small _ (omega (arith, next, f.below)), omega (arith, end_word, last, last_word))

insert_block-Fits :
    (bytes : ℕ) (sm : IoMessage) (bs : List MemoryBlock)
    → Fits bytes sm
    → (b : MemoryBlock) × (insert_block bytes sm.file_name sm.offset sm.size bs ≡ ok (b ∷ bs))
      × (key bytes b ≡ (sm.file_name, sm.offset / bytes))
      × (b.is_pending ≡ true)
unfolding insert_block
insert_block-Fits bytes sm bs f =
    let n = sm.offset / bytes in
    let (start, bound) = Fits-bounds bytes sm f in
    let small : sm.size ≤ bytes = omega (arith, f.within) in
    (
      record {
        file_name = sm.file_name;
        offset = word (n * bytes);
        block_size = bytes;
        is_pending = true;
      },
      if-false _ _ (ge→ltb bytes sm.size small) ∙ if-false _ _ (ge→ltb _ _ bound),
      ap (λ o. (sm.file_name, o)) (ap (λ o. o / bytes) start ∙ mul-div_cancel n f.positive),
      refl,
    )

-- What the memory holds.
abbrev pub cached : BlockModel → List Key
cached s = keys (block_bytes s) s.memory_block_list

-- The cache is within its size, which is not zero.
pub record Sized (s : BlockModel) : Type 0 where
  pub some_blocks : 0 < s.total_cache_blocks
  pub bounded : length s.memory_block_list ≤ s.total_cache_blocks

-- Room for one more block, by eviction if need be.
make_room :
    (s : BlockModel)
    → Sized s
    → (bs : List MemoryBlock) × ((if is_memory_full s.total_cache_blocks s.memory_block_list
          then pop_back s.memory_block_list
          else ok s.memory_block_list)
        ≡ ok bs)
      × (keys (block_bytes s) bs ≡ take_keys (s.total_cache_blocks - 1) (cached s))
      × (length bs < s.total_cache_blocks)
unfolding is_memory_full
make_room s v = elim (Bool-cases (leb s.total_cache_blocks (length s.memory_block_list))) [
  | inl full ↦
      let exact : length s.memory_block_list ≡ suc (s.total_cache_blocks - 1) =
        ground (arith, full, v.bounded, v.some_blocks) in
      let (bs, e, k, l) =
        pop_back-last (block_bytes s) (s.total_cache_blocks - 1) s.memory_block_list exact in
      (bs, if-true _ _ full ∙ e, k, omega (arith, l, v.some_blocks))
  | inr free ↦
      let below : length s.memory_block_list < s.total_cache_blocks = ground (arith, free) in
      (
        s.memory_block_list,
        if-false _ _ free,
        sym (
            take_keys-all (s.total_cache_blocks - 1) (block_bytes s) s.memory_block_list
              (omega (arith, below))),
        below,
      )
]

pub cache_block-Fits :
    (sm : IoMessage) (s : BlockModel)
    → Sized s
    → Fits (block_bytes s) sm
    → (bs : List MemoryBlock) × (cache_block sm s ≡ ok (record s { memory_block_list = bs }))
      × (keys (block_bytes s) bs
          ≡ (sm.file_name, sm.offset / block_bytes s)
            ∷ take_keys (s.total_cache_blocks - 1) (cached s))
      × (length bs ≤ s.total_cache_blocks)
unfolding cache_block keys
cache_block-Fits sm s v f =
    let (left, e, k, l) = make_room s v in
    let (b, e', k', p) = insert_block-Fits (block_bytes s) sm left f in
    (
      b ∷ left,
      ap
            (λ r. r >>= (λ left.
              insert_block (block_bytes s) sm.file_name sm.offset sm.size left
              >>= (λ bs. ok (record s { memory_block_list = bs }))))
            e
          ∙ ap (λ r. r >>= (λ bs. ok (record s { memory_block_list = bs }))) e',
      ap {A = Key} {B = List Key} (λ h. h ∷ keys (block_bytes s) left) k'
          ∙ ap {A = List Key} {B = List Key} (λ l. (sm.file_name, sm.offset / block_bytes s) ∷ l) k,
      omega (arith, l),
    )

-- A block found and used again.
pub re_insert_at-found :
    (s : BlockModel) (n i : ℕ) (file : String) (x : MemoryBlock)
    → get_elem? s.memory_block_list i ≡ some x
    → FirstFound (block_bytes s) file n i x s.memory_block_list
    → re_insert_at i s ≡ record s {
      memory_block_list = x ∷ erase_block i s.memory_block_list;
      stale_steps = suc s.stale_steps;
    }
unfolding re_insert_at
re_insert_at-found s n i file x g f =
    ap
      (λ o. elim o [
        | none ↦ s
        | some b ↦ record s {
          memory_block_list = re_insert_block b s.memory_block_list;
          stale_steps = suc s.stale_steps;
        }
      ])
      g
    ∙ ap {A = List MemoryBlock} {B = BlockModel}
        (λ bs. record s { memory_block_list = bs; stale_steps = suc s.stale_steps })
        (re_insert_block-found (block_bytes s) file n i x s.memory_block_list f)
