-- ===== src/Memory/BlockModel/Process.antt =====
-- `processSubRequests` as a whole.
use docker_sim.Prelude.{
  ℕ, ◌/◌, ◌≡◌, ap, ◌∙◌, inl, inr, true, false, Option, none, List, [], ◌∷◌, ◌==◌, if◌then◌else◌,
  Bool-cases, if-true, if-false,
}
use docker_sim.Splitting.Message.{IoMessage, sm_read_file}
use docker_sim.Memory.Blocks.{
  Result, ok, throw, ◌>>=◌, search_block, is_memory_full, all_blocks_pending, pop_back, empty_list,
}
use docker_sim.Memory.Blocks.Found.{search_block_cases}
use docker_sim.Memory.BlockModel.{
  BlockModel, block_bytes, search_memory_block, answer, is_pending_at, read_block, write_block,
  store_block, use_memory, is_saturated, process_from, process_sub_requests, flush_memory,
  cache_block,
}
use docker_sim.Memory.BlockModel.Lru.{Fits, Sized}
use docker_sim.Memory.BlockModel.Recency.{Used}
use docker_sim.Memory.BlockModel.Use.{read_miss, read_hit, store_miss, store_hit, finish_write}

module _ (sm : IoMessage) (s : BlockModel) (v : Sized s) (fits : Fits (block_bytes s) sm) where
  abbrev found : Option ℕ
  found = search_memory_block sm.file_name sm.offset s

  read_Used :
      (sm.operation == sm_read_file) ≡ true
      → (t : BlockModel) × (read_block found sm s ≡ ok t) × Used s sm s.sub_requests t
  unfolding search_memory_block
  read_Used r =
      elim (search_block_cases (block_bytes s) sm.file_name (sm.offset / block_bytes s)
        s.memory_block_list) [
          | inl (e, f) ↦
              let (t, q, a) = read_miss sm s v f fits r in (t, ap (λ o. read_block o sm s) e ∙ q, a)
          | inr (i, x, e, g, f) ↦
              let (t, q, a) = read_hit sm s v i x e g f r in
              (t, ap (λ o. read_block o sm s) e ∙ q, a)
        ]

  store_Used :
      (sm.operation == sm_read_file) ≡ false
      → s.past_end ≡ false
      → (t : BlockModel) × (store_block found sm s ≡ ok t)
        × Used s sm s.sub_requests t
        × (t.past_end ≡ false)
  unfolding search_memory_block
  store_Used w h =
      elim (search_block_cases (block_bytes s) sm.file_name (sm.offset / block_bytes s)
        s.memory_block_list) [
          | inl (e, f) ↦
              let (t, q, a, k) = store_miss sm s v f fits w h in
              (t, ap (λ o. store_block o sm s) e ∙ q, a, k)
          | inr (i, x, e, g, f) ↦
              let (t, q, a, k) = store_hit sm s v i x e g f w h in
              (t, ap (λ o. store_block o sm s) e ∙ q, a, k)
        ]

  abbrev answered_write : BlockModel → Result BlockModel
  answered_write t = if s.no_flush_time then flush_memory (answer sm t) else ok (answer sm t)

  pub use_memory-Used :
      s.past_end ≡ false
      → (t : BlockModel) × (use_memory found sm s ≡ ok t) × Used s sm s.sub_requests t
  unfolding use_memory write_block
  use_memory-Used h = elim (Bool-cases (sm.operation == sm_read_file)) [
    | inl r ↦ let (t, q, a) = read_Used r in (t, if-true _ _ r ∙ q, a)
    | inr w ↦
        let (t, q, a, k) = store_Used w h in
        let (u, q', a') = finish_write sm s v t a k in
        (
          u,
          if-false _ _ w
              ∙ ap {A = Result BlockModel} {B = Result BlockModel} (λ o. o >>= answered_write) q
              ∙ q',
          a',
        )
  ]

-- The first subrequest has left the queue.
abbrev popped : BlockModel → List IoMessage → BlockModel
popped s rest = record s { pending_message = none; sub_requests = rest }

Used-popped :
    (s t : BlockModel) (sm : IoMessage) (rest : List IoMessage)
    → Used (popped s rest) sm rest t
    → Used s sm rest t
unfolding search_memory_block is_pending_at
Used-popped s t sm rest a = record {
  content = elim a.content [
    | inl ((i, e, p), b, w) ↦ inl ((i, e, p), b, w)
    | inr (k, w) ↦ inr (k, w)
  ];
  bounded = a.bounded;
  total = a.total;
  size = a.size;
  timed = a.timed;
  clock = a.clock;
  left = a.left;
}

pub process_from-Used :
    (s : BlockModel) (sm : IoMessage) (rest : List IoMessage)
    → Sized s
    → Fits (block_bytes s) sm
    → s.past_end ≡ false
    → is_saturated (search_memory_block sm.file_name sm.offset s) s ≡ false
    → (t : BlockModel) × (process_from (sm ∷ rest) s ≡ ok t) × Used s sm rest t
unfolding process_from search_memory_block
process_from-Used s sm rest v f h n =
    let v' : Sized (popped s rest) = record { some_blocks = v.some_blocks; bounded = v.bounded } in
    let (t, e, a) = use_memory-Used sm (popped s rest) v' f h in
    (t, if-false _ _ n ∙ e, Used-popped s t sm rest a)

-- When no latency runs, the simulated time is not at its end and the memory is not saturated, the
-- next subrequest is handled without an error, if it lies within one block. A block in the cache
-- that is pending stays where it is and a write to it is dropped. Otherwise the block comes first
-- in the cache and the others follow in their order, cut to the size of the cache, so that the one
-- used longest ago is evicted; a read leaves the messages that were sent or wait to be flushed as
-- they are, and a write comes last among them.
pub process_sub_requests-Used :
    (s : BlockModel) (sm : IoMessage) (rest : List IoMessage)
    → s.latency_scheduled ≡ false
    → s.sub_requests ≡ sm ∷ rest
    → Sized s
    → Fits (block_bytes s) sm
    → s.past_end ≡ false
    → is_saturated (search_memory_block sm.file_name sm.offset s) s ≡ false
    → (t : BlockModel) × (process_sub_requests s ≡ ok t) × Used s sm rest t
unfolding process_sub_requests
process_sub_requests-Used s sm rest l q v f h n =
    let (t, e, a) = process_from-Used s sm rest v f h n in
    (t, if-false _ _ l ∙ ap (λ o. process_from o s) q ∙ e, a)

-- A memory whose cache is smaller than one block fails on its first subrequest, a read or a write:
-- the cache counts as full, and a block is to leave the empty list.
pub process_sub_requests-no_room :
    (s : BlockModel) (sm : IoMessage) (rest : List IoMessage)
    → s.latency_scheduled ≡ false
    → s.sub_requests ≡ sm ∷ rest
    → s.memory_block_list ≡ []
    → s.total_cache_blocks ≡ 0
    → process_sub_requests s ≡ throw empty_list
unfolding process_sub_requests process_from search_memory_block search_block is_saturated use_memory
    is_memory_full all_blocks_pending read_block write_block store_block cache_block pop_back
process_sub_requests-no_room s sm rest l q b n = elim (Bool-cases (sm.operation == sm_read_file)) [
  | inl r ↦ simp (l, q, b, n, r)
  | inr w ↦ simp (l, q, b, n, w)
]
