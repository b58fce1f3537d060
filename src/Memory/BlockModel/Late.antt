-- ===== src/Memory/BlockModel/Late.antt =====
-- RAMMemory_BlockModel after the simulated time has reached 2999: a flush ends the simulation, and
-- all else is as before.
use docker_sim.Prelude.{
  ℕ, suc, get_elem?, ◌≡◌, refl, sym, ap, subst, ◌∙◌, ◌⊎◌, inl, inr, Bool, true, false, Option, none,
  some, List, [], ◌∷◌, ◌++◌, ◌==◌, if◌then◌else◌,
}
use docker_sim.Splitting.Message.{IoMessage, sm_read_file}
use docker_sim.Memory.Blocks.{
  MemoryBlock, Result, ok, throw, ◌>>=◌, end_of_simulation, re_insert_block, insert_block, pop_back,
  is_memory_full, set_is_pending,
}
use docker_sim.Memory.BlockModel.{
  BlockModel, block_bytes, search_memory_block, flush_memory, insert_request_on_flush_queue,
  re_insert_at, is_pending_at, cache_block, answer, read_block, mark_at, store_block, write_block,
  use_memory, is_saturated, process_from, process_sub_requests, flush_message, settle,
  process_response_message,
}

-- The same state, at a later time.
abbrev pub past : BlockModel → BlockModel
past s = record s { past_end = true }

abbrev pub later : Result BlockModel → Result BlockModel
later (ok t) = ok (past t)
later (throw e) = throw e

-- What comes at a later time, next to what came before.
abbrev pub Late : Result BlockModel → Result BlockModel → Type 0
Late r r' = (r ≡ throw end_of_simulation) ⊎ (r ≡ later r')

bind-Late :
    (r r' : Result BlockModel) (f : BlockModel → Result BlockModel)
    → Late r r'
    → ((t : BlockModel) → Late (f (past t)) (f t))
    → Late (r >>= f) (r' >>= f)
bind-Late r r' f (inl e) h = inl (ap (λ r. r >>= f) e)
bind-Late r (ok t) f (inr e) h = elim (h t) [
  | inl g ↦ inl (ap (λ r. r >>= f) e ∙ g)
  | inr g ↦ inr (ap (λ r. r >>= f) e ∙ g)
]
bind-Late r (throw x) f (inr e) h = inr (ap (λ r. r >>= f) e)

if-Late :
    (b : Bool) (x y x' y' : Result BlockModel)
    → Late x x'
    → Late y y'
    → Late (if b then x else y) (if b then x' else y')
if-Late true x y x' y' h k = h
if-Late false x y x' y' h k = k

flush_memory-Late : (s : BlockModel) → Late (flush_memory (past s)) (flush_memory s)
unfolding flush_memory
flush_memory-Late s = inl refl

insert_request-Late :
    (sm : IoMessage) (s : BlockModel)
    → Late (insert_request_on_flush_queue sm (past s)) (insert_request_on_flush_queue sm s)
unfolding insert_request_on_flush_queue
insert_request-Late sm s =
    let full = is_memory_full s.total_cache_blocks s.memory_block_list in
    let queued : BlockModel = record s { flush_queue = s.flush_queue ++ sm ∷ [] } in
    if-Late full (flush_memory (past (record queued { flush_scheduled = false })))
      (ok (past (record queued { flush_scheduled = true })))
      (flush_memory (record queued { flush_scheduled = false }))
      (ok (record queued { flush_scheduled = true }))
      (flush_memory-Late (record queued { flush_scheduled = false })) (inr refl)

-- A list of blocks takes the place of that of the cache.
abbrev held : BlockModel → Result (List MemoryBlock) → Result BlockModel
held s r = r >>= (λ bs. ok (record s { memory_block_list = bs }))

held-Late :
    (r : Result (List MemoryBlock)) (f : List MemoryBlock → Result (List MemoryBlock))
    (s : BlockModel)
    → Late (r >>= (λ bs. held (past s) (f bs))) (r >>= (λ bs. held s (f bs)))
held-Late (ok bs) f s = made (f bs) s
  where
    made : (r : Result (List MemoryBlock)) (s : BlockModel) → Late (held (past s) r) (held s r)
    made (ok bs) s = inr refl
    made (throw e) s = inr refl
held-Late (throw e) f s = inr refl

cache_block-Late :
    (sm : IoMessage) (s : BlockModel) → Late (cache_block sm (past s)) (cache_block sm s)
unfolding cache_block
cache_block-Late sm s =
    held-Late
      (if is_memory_full s.total_cache_blocks s.memory_block_list
        then pop_back s.memory_block_list
        else ok s.memory_block_list)
      (insert_block (block_bytes s) sm.file_name sm.offset sm.size) s

-- A block found, or none.
abbrev front : Option MemoryBlock → BlockModel → BlockModel
front o s = elim o [
  | none ↦ s
  | some b ↦ record s {
    memory_block_list = re_insert_block b s.memory_block_list;
    stale_steps = suc s.stale_steps;
  }
]

front-past : (o : Option MemoryBlock) (s : BlockModel) → front o (past s) ≡ past (front o s)
front-past none s = refl
front-past (some b) s = refl

re_insert_at-past : (i : ℕ) (s : BlockModel) → re_insert_at i (past s) ≡ past (re_insert_at i s)
unfolding re_insert_at
re_insert_at-past i s = front-past (get_elem? s.memory_block_list i) s

answer-past :
    (sm : IoMessage) (pending : Bool) (t : BlockModel) (u : BlockModel)
    → u ≡ past t
    → (s : BlockModel)
    → answer sm (if pending then past s else u) ≡ past (answer sm (if pending then s else t))
unfolding answer
answer-past sm true t u e s = refl
answer-past sm false t u e s = ap (answer sm) e

read_block-Late :
    (o : Option ℕ) (sm : IoMessage) (s : BlockModel)
    → Late (read_block o sm (past s)) (read_block o sm s)
unfolding read_block is_pending_at
read_block-Late none sm s =
    bind-Late (cache_block sm (past s)) (cache_block sm s)
      (λ t. ok (record t { pending_message = some sm; latency_scheduled = true }))
      (cache_block-Late sm s) (λ t. inr refl)
read_block-Late (some i) sm s = inr (
    ap ok (
      answer-past sm (is_pending_at i s) (re_insert_at i s) (re_insert_at i (past s))
        (re_insert_at-past i s) s))

store_block-Late :
    (o : Option ℕ) (sm : IoMessage) (s : BlockModel)
    → Late (store_block o sm (past s)) (store_block o sm s)
unfolding store_block is_pending_at mark_at
store_block-Late none sm s =
    bind-Late (cache_block sm (past s)) (cache_block sm s) (insert_request_on_flush_queue sm)
      (cache_block-Late sm s) (insert_request-Late sm)
store_block-Late (some i) sm s =
    let next : BlockModel = re_insert_at i (mark_at i s) in
    if-Late (is_pending_at i s) (ok (past s))
      (insert_request_on_flush_queue sm (re_insert_at i (past (mark_at i s)))) (ok s)
      (insert_request_on_flush_queue sm next) (inr refl)
      (subst
        (λ u. Late (insert_request_on_flush_queue sm u) (insert_request_on_flush_queue sm next))
        (sym (re_insert_at-past i (mark_at i s))) (insert_request-Late sm next))

write_block-Late :
    (o : Option ℕ) (sm : IoMessage) (s : BlockModel)
    → Late (write_block o sm (past s)) (write_block o sm s)
unfolding write_block answer
write_block-Late o sm s =
    bind-Late (store_block o sm (past s)) (store_block o sm s)
      (λ t. if s.no_flush_time then flush_memory (answer sm t) else ok (answer sm t))
      (store_block-Late o sm s)
      (λ t.
        if-Late s.no_flush_time (flush_memory (past (answer sm t))) (ok (past (answer sm t)))
          (flush_memory (answer sm t)) (ok (answer sm t)) (flush_memory-Late (answer sm t))
          (inr refl))

use_memory-Late :
    (o : Option ℕ) (sm : IoMessage) (s : BlockModel)
    → Late (use_memory o sm (past s)) (use_memory o sm s)
unfolding use_memory
use_memory-Late o sm s =
    if-Late (sm.operation == sm_read_file) (read_block o sm (past s)) (write_block o sm (past s))
      (read_block o sm s) (write_block o sm s) (read_block-Late o sm s) (write_block-Late o sm s)

is_saturated-past : (o : Option ℕ) (s : BlockModel) → is_saturated o (past s) ≡ is_saturated o s
unfolding is_saturated
is_saturated-past none s = refl
is_saturated-past (some i) s = refl

process_from-Late :
    (sms : List IoMessage) (s : BlockModel) → Late (process_from sms (past s)) (process_from sms s)
unfolding process_from search_memory_block
process_from-Late [] s = inr refl
process_from-Late (sm ∷ rest) s =
    let o : Option ℕ = search_memory_block sm.file_name sm.offset s in
    let popped : BlockModel = record s { pending_message = none; sub_requests = rest } in
    let after : BlockModel = record popped { sent = s.sent ++ sm ∷ [] } in
    subst
      (λ b.
        Late (if b then process_from rest (past after) else use_memory o sm (past popped))
          (process_from (sm ∷ rest) s))
      (sym (is_saturated-past o s))
      (if-Late (is_saturated o s) (process_from rest (past after)) (use_memory o sm (past popped))
        (process_from rest after) (use_memory o sm popped) (process_from-Late rest after)
        (use_memory-Late o sm popped))

pub process_sub_requests-Late :
    (s : BlockModel) → Late (process_sub_requests (past s)) (process_sub_requests s)
unfolding process_sub_requests
process_sub_requests-Late s =
    if-Late s.latency_scheduled (ok (past s)) (process_from s.sub_requests (past s)) (ok s)
      (process_from s.sub_requests s) (inr refl) (process_from-Late s.sub_requests s)

abbrev fired : List IoMessage → BlockModel → Result BlockModel
fired q s = elim q [ [] ↦ ok s | sm ∷ sms ↦ flush_memory s ]

fired-Late : (q : List IoMessage) (s : BlockModel) → Late (fired q (past s)) (fired q s)
fired-Late [] s = inr refl
fired-Late (sm ∷ sms) s = flush_memory-Late s

pub flush_message-Late : (s : BlockModel) → Late (flush_message (past s)) (flush_message s)
unfolding flush_message
flush_message-Late s = fired-Late s.flush_queue (record s { flush_scheduled = false })

settle-past : (o : Option ℕ) (s : BlockModel) → settle o (past s) ≡ past (settle o s)
unfolding settle
settle-past none s = refl
settle-past (some i) s =
    re_insert_at-past i
      (record s { memory_block_list = set_is_pending false i s.memory_block_list })

-- What follows the update of the cache.
abbrev arrived : Bool → IoMessage → List IoMessage → BlockModel → Result BlockModel
arrived completes sm answered u =
    let t = record u { answered = answered ++ sm ∷ [] } in
    if completes then process_sub_requests t else ok t

pub process_response-Late :
    (completes : Bool) (sm : IoMessage) (s : BlockModel)
    → Late
        (process_response_message completes sm (past s))
        (process_response_message completes sm s)
unfolding process_response_message search_memory_block
process_response-Late completes sm s =
    let o : Option ℕ = search_memory_block sm.file_name sm.offset s in
    let t : BlockModel = record (settle o s) { answered = s.answered ++ sm ∷ [] } in
    subst
      (λ u. Late (arrived completes sm s.answered u) (arrived completes sm s.answered (settle o s)))
      (sym (settle-past o s))
      (if-Late completes (process_sub_requests (past t)) (ok (past t)) (process_sub_requests t)
        (ok t) (process_sub_requests-Late t) (inr refl))
