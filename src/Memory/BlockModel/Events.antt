-- ===== src/Memory/BlockModel/Events.antt =====
-- RAMMemory_BlockModel over a sequence of events.
use docker_sim.Prelude.{
  ℕ, suc, ◌≤◌, ◌<◌, ◌≡◌, refl, sym, ap, subst, ◌*◌, ◌/◌, word, ◌∙◌, inl, inr, false, none, some,
  List, [], ◌∷◌, ◌++◌, All, length, Bool-cases, if-true, if-false, get_elem?,
}
use docker_sim.Splitting.Message.{IoMessage}
use docker_sim.Memory.Blocks.{MemoryBlock, ok, set_is_pending}
use docker_sim.Memory.Blocks.Found.{
  search_block_cases, erase_block, FirstFound, keys-erase_block, set_is_pending-FirstFound,
  erase_block-set_is_pending, get_elem?-set_is_pending,
}
use docker_sim.Memory.BlockModel.{
  BlockModel, block_bytes, search_memory_block, is_saturated, process_from, process_sub_requests,
  settle,
}
use docker_sim.Memory.BlockModel.Lru.{Fits, Sized, re_insert_at-found}
use docker_sim.Memory.BlockModel.Flush.{Timed}
use docker_sim.Memory.BlockModel.Process.{process_from-Used}

-- What every event keeps: the size of the cache, the timer of the writes that wait, subrequests
-- within one block, and a clock before its end.
pub record Inv (s : BlockModel) : Type 0 where
  pub sized : Sized s
  pub timed : Timed s
  pub fit : All (Fits (block_bytes s)) s.sub_requests
  pub clock : s.past_end ≡ false

-- The parameters of the memory stay.
pub record SameSizes (s t : BlockModel) : Type 0 where
  pub total : t.total_cache_blocks ≡ s.total_cache_blocks
  pub size : t.block_size_kb ≡ s.block_size_kb

process_from-Sized :
    (sms : List IoMessage) (s : BlockModel)
    → Sized s
    → All (Fits (block_bytes s)) sms
    → s.past_end ≡ false
    → (t : BlockModel) × (process_from sms s ≡ ok t)
      × SameSizes s t
      × (length t.memory_block_list ≤ s.total_cache_blocks)
      × (Timed s → Timed t)
      × (t.past_end ≡ false)
      × All (Fits (block_bytes s)) t.sub_requests
unfolding process_from
process_from-Sized [] s v f h = (
  record s { pending_message = none; sub_requests = [] },
  refl,
  record { total = refl; size = refl },
  v.bounded,
  λ k. k,
  h,
  tt,
)
process_from-Sized (sm ∷ rest) s v f h =
    elim (Bool-cases (is_saturated (search_memory_block sm.file_name sm.offset s) s)) [
      | inl full ↦
          let next = record s {
            pending_message = none;
            sub_requests = rest;
            sent = s.sent ++ sm ∷ [];
          } in
          let v' : Sized next = record { some_blocks = v.some_blocks; bounded = v.bounded } in
          let (t, e, a, b, c, d, q) = process_from-Sized rest next v' f.1 h in
          (t, if-true _ _ full ∙ e, record { total = a.total; size = a.size }, b, c, d, q)
      | inr room ↦
          let (t, e, a) = process_from-Used s sm rest v f.0 h room in
          (
            t,
            e,
            record { total = a.total; size = a.size },
            a.bounded,
            a.timed,
            a.clock ∙ h,
            subst (All (Fits (block_bytes s))) (sym a.left) f.1,
          )
    ]

-- The invariant after the memory has worked on its subrequests.
process_from-Inv :
    (s : BlockModel)
    → Inv s
    → (t : BlockModel) × (process_from s.sub_requests s ≡ ok t) × Inv t × SameSizes s t
process_from-Inv s v =
    let (t, e, a, b, c, d, q) = process_from-Sized s.sub_requests s v.sized v.fit v.clock in
    (
      t,
      e,
      record {
        sized = record {
          some_blocks = subst (λ n. 0 < n) (sym a.total) v.sized.some_blocks;
          bounded = subst (λ n. length t.memory_block_list ≤ n) (sym a.total) b;
        };
        timed = c v.timed;
        fit = subst (λ k. All (Fits (word (k * 1024))) t.sub_requests) (sym a.size) q;
        clock = d;
      },
      a,
    )

pub process_sub_requests-Inv :
    (s : BlockModel)
    → Inv s
    → (t : BlockModel) × (process_sub_requests s ≡ ok t) × Inv t × SameSizes s t
unfolding process_sub_requests
process_sub_requests-Inv s v = elim (Bool-cases s.latency_scheduled) [
  | inl b ↦ (s, if-true _ _ b, v, record { total = refl; size = refl })
  | inr b ↦ let (t, e, w, a) = process_from-Inv s v in (t, if-false _ _ b ∙ e, w, a)
]

-- A block that is settled keeps the length of the list.
settle-length :
    (i : ℕ) (x : MemoryBlock) (s : BlockModel) (n : ℕ) (sm : IoMessage)
    → get_elem? s.memory_block_list i ≡ some x
    → FirstFound (block_bytes s) sm.file_name n i x s.memory_block_list
    → (bs : List MemoryBlock) × (settle (some i) s
        ≡ record s { memory_block_list = bs; stale_steps = suc s.stale_steps })
      × (length bs ≡ length s.memory_block_list)
unfolding settle
settle-length i x s n sm g f =
    let x' : MemoryBlock = record x { is_pending = false } in
    let (k, l) = keys-erase_block (block_bytes s) sm.file_name n i x s.memory_block_list f in
    (
      x' ∷ erase_block i (set_is_pending false i s.memory_block_list),
      re_insert_at-found
          (record s { memory_block_list = set_is_pending false i s.memory_block_list }) n i
          sm.file_name x' (get_elem?-set_is_pending false i x s.memory_block_list g)
          (set_is_pending-FirstFound (block_bytes s) sm.file_name n i x s.memory_block_list false
            f),
      ap (λ bs. suc (length bs)) (erase_block-set_is_pending false i s.memory_block_list) ∙ l,
    )

pub settle-kept :
    (sm : IoMessage) (s : BlockModel)
    → (bs : List MemoryBlock) × (k : ℕ) × (settle (search_memory_block sm.file_name sm.offset s) s
        ≡ record s { memory_block_list = bs; stale_steps = k })
      × (length bs ≡ length s.memory_block_list)
unfolding search_memory_block settle
settle-kept sm s =
    elim (search_block_cases (block_bytes s) sm.file_name (sm.offset / block_bytes s)
      s.memory_block_list) [
        | inl (e, f) ↦ (s.memory_block_list, s.stale_steps, ap (λ o. settle o s) e, refl)
        | inr (i, x, e, g, f) ↦
            let (bs, q, l) = settle-length i x s (sm.offset / block_bytes s) sm g f in
            (bs, suc s.stale_steps, ap (λ o. settle o s) e ∙ q, l)
      ]
