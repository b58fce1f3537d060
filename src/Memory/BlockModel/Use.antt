-- ===== src/Memory/BlockModel/Use.antt =====
-- Each branch of `processSubRequests` that uses the memory.
use docker_sim.Prelude.{
  ℕ, suc, ◌-◌, ◌/◌, ◌≤◌, ◌≡◌, refl, sym, ap, subst, ◌∙◌, inl, inr, true, false, none, some, List,
  [], ◌∷◌, ◌++◌, length, get_elem?, ◌==◌, if◌then◌else◌, Bool-cases, if-true, if-false,
}
use mathlib.Core.List.{append-nil}
use docker_sim.Splitting.Message.{IoMessage, sm_read_file}
use docker_sim.Memory.Blocks.{MemoryBlock, Result, ok, ◌>>=◌}
use docker_sim.Memory.Blocks.Found.{
  Key, keys, without, take_keys, erase_block, FirstFound, NoneFound, keys-NoneFound,
}
use docker_sim.Memory.BlockModel.{
  BlockModel, block_bytes, search_memory_block, cache_block, is_pending_at, answer,
  insert_request_on_flush_queue, read_block, store_block, flush_memory,
}
use docker_sim.Memory.BlockModel.Lru.{Fits, Sized, cached, cache_block-Fits, re_insert_at-found}
use docker_sim.Memory.BlockModel.Flush.{
  SameCache, flushed, Timed, flush_memory-flushed, insert_request_on_flush_queue-flushed,
}
use docker_sim.Memory.BlockModel.Recency.{recent, writes, Used, touch, marked}

-- The search of the cache, and what it tells.
module _ (sm : IoMessage) (s : BlockModel) (v : Sized s) where
  abbrev n : ℕ
  n = sm.offset / block_bytes s

  -- A miss brings the block in.
  missed :
      NoneFound (block_bytes s) sm.file_name n s.memory_block_list
      → Fits (block_bytes s) sm
      → (bs : List MemoryBlock) × (cache_block sm s ≡ ok (record s { memory_block_list = bs }))
        × (keys (block_bytes s) bs ≡ recent s sm)
        × (length bs ≤ s.total_cache_blocks)
  missed f fits =
      let (bs, e, k, l) = cache_block-Fits sm s v fits in
      let same : without sm.file_name n (cached s) ≡ cached s =
        keys-NoneFound (block_bytes s) sm.file_name n s.memory_block_list f in
      (
        bs,
        e,
        k
            ∙ ap {A = List Key} {B = List Key}
                (λ l. (sm.file_name, n) ∷ take_keys (s.total_cache_blocks - 1) l) (sym same),
        l,
      )

  abbrev then_pend : BlockModel → Result BlockModel
  then_pend s' = ok (record s' { pending_message = some sm; latency_scheduled = true })

  pub read_miss :
      NoneFound (block_bytes s) sm.file_name n s.memory_block_list
      → Fits (block_bytes s) sm
      → (sm.operation == sm_read_file) ≡ true
      → (t : BlockModel) × (read_block none sm s ≡ ok t) × Used s sm s.sub_requests t
  unfolding read_block
  read_miss f fits r =
      let (bs, e, k, l) = missed f fits in
      let read : writes sm ≡ [] = if-true _ _ r in
      (
        record s { memory_block_list = bs; pending_message = some sm; latency_scheduled = true },
        ap {A = Result BlockModel} {B = Result BlockModel} (λ o. o >>= then_pend) e,
        record {
          content = inr (k, sym (append-nil (flushed s)) ∙ ap (λ w. flushed s ++ w) (sym read));
          bounded = l;
          total = refl;
          size = refl;
          timed = λ h. h;
          clock = refl;
          left = refl;
        },
      )

  pub read_hit :
      (i : ℕ) (x : MemoryBlock)
      → search_memory_block sm.file_name sm.offset s ≡ some i
      → get_elem? s.memory_block_list i ≡ some x
      → FirstFound (block_bytes s) sm.file_name n i x s.memory_block_list
      → (sm.operation == sm_read_file) ≡ true
      → (t : BlockModel) × (read_block (some i) sm s ≡ ok t) × Used s sm s.sub_requests t
  unfolding read_block answer
  read_hit i x e g f r = elim (Bool-cases (is_pending_at i s)) [
    | inl p ↦ (
      answer sm s,
      ap (λ u. ok (answer sm u)) (if-true _ _ p),
      record {
        content = inl ((i, e, p), refl, refl);
        bounded = v.bounded;
        total = refl;
        size = refl;
        timed = λ h. h;
        clock = refl;
        left = refl;
      },
    )
    | inr p ↦
        let (k, l) = touch sm s i x v f in
        let read : writes sm ≡ [] = if-true _ _ r in
        (
          answer sm (record s {
            memory_block_list = x ∷ erase_block i s.memory_block_list;
            stale_steps = suc s.stale_steps;
          }),
          ap (λ u. ok (answer sm u)) (if-false _ _ p ∙ re_insert_at-found s n i sm.file_name x g f),
          record {
            content = inr (k, sym (append-nil (flushed s)) ∙ ap (λ w. flushed s ++ w) (sym read));
            bounded = l;
            total = refl;
            size = refl;
            timed = λ h. h;
            clock = refl;
            left = refl;
          },
        )
  ]

  touch_marked :
      (i : ℕ) (x : MemoryBlock)
      → FirstFound (block_bytes s) sm.file_name n i x s.memory_block_list
      → (keys (block_bytes s) (record x { is_pending = true } ∷ erase_block i s.memory_block_list)
          ≡ recent s sm)
        × (length (record x { is_pending = true } ∷ erase_block i s.memory_block_list)
            ≤ s.total_cache_blocks)
  unfolding keys
  touch_marked i x f = touch sm s i x v f

  Used-SameCache :
      (t u : BlockModel)
      → Used s sm s.sub_requests t
      → SameCache t u
      → flushed u ≡ flushed t
      → (Timed t → Timed u)
      → Used s sm s.sub_requests u
  Used-SameCache t u a c q timed = record {
    content = elim a.content [
      | inl (p, b, w) ↦ inl (p, c.blocks ∙ b, q ∙ w)
      | inr (k, w) ↦ inr (ap (keys (block_bytes s)) c.blocks ∙ k, q ∙ w)
    ];
    bounded = subst (λ cs. length cs ≤ s.total_cache_blocks) (sym c.blocks) a.bounded;
    total = c.total ∙ a.total;
    size = c.size ∙ a.size;
    timed = λ h. timed (a.timed h);
    clock = c.clock ∙ a.clock;
    left = c.queue ∙ a.left;
  }

  pub store_miss :
      NoneFound (block_bytes s) sm.file_name n s.memory_block_list
      → Fits (block_bytes s) sm
      → (sm.operation == sm_read_file) ≡ false
      → s.past_end ≡ false
      → (t : BlockModel) × (store_block none sm s ≡ ok t)
        × Used s sm s.sub_requests t
        × (t.past_end ≡ false)
  unfolding store_block
  store_miss f fits w h =
      let (bs, e, k, l) = missed f fits in
      let held = record s { memory_block_list = bs } in
      let (t, e', c, q, timed) = insert_request_on_flush_queue-flushed sm held h in
      let write : writes sm ≡ sm ∷ [] = if-false _ _ w in
      (
        t,
        ap {A = Result BlockModel} {B = Result BlockModel}
              (λ o. o >>= insert_request_on_flush_queue sm) e
            ∙ e',
        record {
          content =
              inr
                (ap (keys (block_bytes s)) c.blocks ∙ k, q ∙ ap (λ w. flushed s ++ w) (sym write));
          bounded = subst (λ cs. length cs ≤ s.total_cache_blocks) (sym c.blocks) l;
          total = c.total;
          size = c.size;
          timed = λ h. timed;
          clock = c.clock;
          left = c.queue;
        },
        c.clock ∙ h,
      )

  pub store_hit :
      (i : ℕ) (x : MemoryBlock)
      → search_memory_block sm.file_name sm.offset s ≡ some i
      → get_elem? s.memory_block_list i ≡ some x
      → FirstFound (block_bytes s) sm.file_name n i x s.memory_block_list
      → (sm.operation == sm_read_file) ≡ false
      → s.past_end ≡ false
      → (t : BlockModel) × (store_block (some i) sm s ≡ ok t)
        × Used s sm s.sub_requests t
        × (t.past_end ≡ false)
  unfolding store_block
  store_hit i x e g f w h = elim (Bool-cases (is_pending_at i s)) [
    | inl p ↦ (
      s,
      if-true _ _ p,
      record {
        content = inl ((i, e, p), refl, refl);
        bounded = v.bounded;
        total = refl;
        size = refl;
        timed = λ h. h;
        clock = refl;
        left = refl;
      },
      h,
    )
    | inr p ↦
        let x' : MemoryBlock = record x { is_pending = true } in
        let (k, l) = touch_marked i x f in
        let held = record s {
          memory_block_list = x' ∷ erase_block i s.memory_block_list;
          stale_steps = suc s.stale_steps;
        } in
        let (t, e', c, q, timed) = insert_request_on_flush_queue-flushed sm held h in
        let write : writes sm ≡ sm ∷ [] = if-false _ _ w in
        (
          t,
          if-false _ _ p ∙ ap (insert_request_on_flush_queue sm) (marked sm s i x g f) ∙ e',
          record {
            content =
                inr (
                  ap (keys (block_bytes s)) c.blocks ∙ k,
                  q ∙ ap (λ w. flushed s ++ w) (sym write),
                );
            bounded = subst (λ cs. length cs ≤ s.total_cache_blocks) (sym c.blocks) l;
            total = c.total;
            size = c.size;
            timed = λ h. timed;
            clock = c.clock;
            left = c.queue;
          },
          c.clock ∙ h,
        )
  ]

  -- What follows the store: the answer, and a flush when there is no flush time.
  pub finish_write :
      (t : BlockModel)
      → Used s sm s.sub_requests t
      → t.past_end ≡ false
      → (u : BlockModel) × ((if s.no_flush_time
            then flush_memory (answer sm t)
            else ok (answer sm t))
          ≡ ok u)
        × Used s sm s.sub_requests u
  unfolding answer
  finish_write t a h = elim (Bool-cases s.no_flush_time) [
    | inl now ↦
        let (u, e, c, q, none_left) = flush_memory-flushed (answer sm t) h in
        (
          u,
          if-true _ _ now ∙ e,
          Used-SameCache t u a
              (record {
                blocks = c.blocks;
                total = c.total;
                size = c.size;
                clock = c.clock;
                queue = c.queue;
              })
              q (λ k. inl none_left),
        )
    | inr later ↦ (
      answer sm t,
      if-false _ _ later,
      Used-SameCache t (answer sm t) a
          (record { blocks = refl; total = refl; size = refl; clock = refl; queue = refl }) refl
          (λ k. k),
    )
  ]
