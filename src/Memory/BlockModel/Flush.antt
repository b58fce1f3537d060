-- ===== src/Memory/BlockModel/Flush.antt =====
-- The queue of writes to flush in RAMMemory_BlockModel.
use docker_sim.Prelude.{
  ◌≡◌, refl, sym, ◌∙◌, ◌⊎◌, inl, inr, true, false, List, [], ◌∷◌, ◌++◌, Bool-cases, if-true,
  if-false,
}
use mathlib.Core.List.{append-nil, append_assoc}
use docker_sim.Splitting.Message.{IoMessage}
use docker_sim.Memory.Blocks.{ok, is_memory_full}
use docker_sim.Memory.BlockModel.{BlockModel, flush_memory, insert_request_on_flush_queue}

-- The cache and the clock of two states agree.
pub record SameCache (s t : BlockModel) : Type 0 where
  pub blocks : t.memory_block_list ≡ s.memory_block_list
  pub total : t.total_cache_blocks ≡ s.total_cache_blocks
  pub size : t.block_size_kb ≡ s.block_size_kb
  pub clock : t.past_end ≡ s.past_end
  pub queue : t.sub_requests ≡ s.sub_requests

pub SameCache-trans : (s t u : BlockModel) → SameCache s t → SameCache t u → SameCache s u
SameCache-trans s t u a b = record {
  blocks = b.blocks ∙ a.blocks;
  total = b.total ∙ a.total;
  size = b.size ∙ a.size;
  clock = b.clock ∙ a.clock;
  queue = b.queue ∙ a.queue;
}

-- The messages that have left the memory, and then the writes that wait to.
abbrev pub flushed : BlockModel → List IoMessage
flushed s = s.sent ++ s.flush_queue

-- A waiting write has its timer.
abbrev pub Timed : BlockModel → Type 0
Timed s = (s.flush_queue ≡ []) ⊎ (s.flush_scheduled ≡ true)

pub flush_memory-flushed :
    (s : BlockModel)
    → s.past_end ≡ false
    → (t : BlockModel) × (flush_memory s ≡ ok t)
      × SameCache s t
      × (flushed t ≡ flushed s)
      × (t.flush_queue ≡ [])
unfolding flush_memory
flush_memory-flushed s h = (
  record s { sent = s.sent ++ s.flush_queue; flush_queue = [] },
  if-false _ _ h,
  record { blocks = refl; total = refl; size = refl; clock = refl; queue = refl },
  append-nil (s.sent ++ s.flush_queue),
  refl,
)

pub insert_request_on_flush_queue-flushed :
    (sm : IoMessage) (s : BlockModel)
    → s.past_end ≡ false
    → (t : BlockModel) × (insert_request_on_flush_queue sm s ≡ ok t)
      × SameCache s t
      × (flushed t ≡ flushed s ++ sm ∷ [])
      × Timed t
unfolding insert_request_on_flush_queue
insert_request_on_flush_queue-flushed sm s h =
    elim (Bool-cases (is_memory_full s.total_cache_blocks s.memory_block_list)) [
      | inl full ↦
          let queued = record s {
            flush_queue = s.flush_queue ++ sm ∷ [];
            flush_scheduled = false;
          } in
          let (t, e, c, f, q) = flush_memory-flushed queued h in
          (
            t,
            if-true _ _ full ∙ e,
            record {
              blocks = c.blocks;
              total = c.total;
              size = c.size;
              clock = c.clock;
              queue = c.queue;
            },
            f ∙ sym (append_assoc s.sent s.flush_queue (sm ∷ [])),
            inl q,
          )
      | inr free ↦ (
        record s { flush_queue = s.flush_queue ++ sm ∷ []; flush_scheduled = true },
        if-false _ _ free,
        record { blocks = refl; total = refl; size = refl; clock = refl; queue = refl },
        sym (append_assoc s.sent s.flush_queue (sm ∷ [])),
        inr refl,
      )
    ]
