-- ===== src/Memory/BlockModel/Run.antt =====
-- RAMMemory_BlockModel over every sequence of events.
use docker_sim.Prelude.{
  ℕ, ◌≤◌, ◌≡◌, refl, sym, ap, subst, ◌∙◌, ◌⊎◌, inl, inr, Bool, false, none, some, List, [], ◌∷◌,
  ◌++◌, All, All-append, List-cases, length, Bool-cases, if-true, if-false, word, ◌*◌,
  if◌then◌else◌,
}
use docker_sim.Splitting.Message.{IoMessage}
use docker_sim.Memory.Blocks.{Result, ok, throw, end_of_simulation, ◌>>=◌}
use docker_sim.Memory.BlockModel.{
  BlockModel, block_bytes, process_sub_requests, latency_message, search_message, flush_message,
  process_response_message, flush_memory,
}
use docker_sim.Memory.BlockModel.Lru.{Fits}
use docker_sim.Memory.BlockModel.Flush.{SameCache, Timed, flush_memory-flushed}
use docker_sim.Memory.BlockModel.Late.{
  past, later, Late, process_sub_requests-Late, flush_message-Late, process_response-Late,
}
use docker_sim.Memory.BlockModel.Events.{Inv, SameSizes, process_sub_requests-Inv, settle-kept}

-- A request that has been split, the end of its search, the two timers, and a response.
pub data Event : Type 0 where
  request : List IoMessage → Event
  search : IoMessage → Event
  latency flush : Event
  response : Bool → IoMessage → Event

unfoldable pub handle : Event → BlockModel → Result BlockModel
handle (request sms) s = ok (record s { sub_requests = s.sub_requests ++ sms })
handle (search sm) s = search_message sm s
handle latency s = latency_message s
handle flush s = flush_message s
handle (response completes sm) s = process_response_message completes sm s

unfoldable pub run : List Event → BlockModel → Result BlockModel
run [] s = ok s
run (e ∷ es) s = handle e s >>= run es

-- The subrequests of a request lie within one block.
abbrev pub Split : ℕ → Event → Type 0
Split size (request sms) = All (Fits size) sms
Split size (search sm) = Unit {0}
Split size latency = Unit {0}
Split size flush = Unit {0}
Split size (response completes sm) = Unit {0}

Inv-SameCache : (s t : BlockModel) → Inv s → SameCache s t → Timed t → Inv t
Inv-SameCache s t v c timed = record {
  sized = record {
    some_blocks = subst (λ n. 1 ≤ n) (sym c.total) v.sized.some_blocks;
    bounded =
        subst (λ n. length t.memory_block_list ≤ n) (sym c.total)
          (subst (λ bs. length bs ≤ s.total_cache_blocks) (sym c.blocks) v.sized.bounded);
  };
  timed = timed;
  fit =
      subst (λ k. All (Fits (word (k * 1024))) t.sub_requests) (sym c.size)
        (subst (All (Fits (block_bytes s))) (sym c.queue) v.fit);
  clock = c.clock ∙ v.clock;
}

abbrev flush_on : BlockModel → List IoMessage → Result BlockModel
flush_on s q = elim q [
  | [] ↦ ok (record s { flush_scheduled = false })
  | sm ∷ sms ↦ flush_memory (record s { flush_scheduled = false })
]

flush_message-Inv :
    (s : BlockModel) → Inv s → (t : BlockModel) × (flush_message s ≡ ok t) × Inv t × SameSizes s t
unfolding flush_message
flush_message-Inv s v = elim (List-cases s.flush_queue) [
  | inl e ↦ (
    record s { flush_scheduled = false },
    ap (flush_on s) e,
    Inv-SameCache s (record s { flush_scheduled = false }) v
        (record { blocks = refl; total = refl; size = refl; clock = refl; queue = refl }) (inl e),
    record { total = refl; size = refl },
  )
  | inr (sm, sms, e) ↦
      let (t, q, c, f, none_left) =
        flush_memory-flushed (record s { flush_scheduled = false }) v.clock in
      let same : SameCache s t = record {
        blocks = c.blocks;
        total = c.total;
        size = c.size;
        clock = c.clock;
        queue = c.queue;
      } in
      (
        t,
        ap (flush_on s) e ∙ q,
        Inv-SameCache s t v same (inl none_left),
        record { total = c.total; size = c.size },
      )
]

abbrev after_settle : Bool → IoMessage → BlockModel → BlockModel → Result BlockModel
after_settle completes sm s u =
    let arrived = record u { answered = s.answered ++ sm ∷ [] } in
    if completes then process_sub_requests arrived else ok arrived

response-Inv :
    (completes : Bool) (sm : IoMessage) (s : BlockModel)
    → Inv s
    → (t : BlockModel) × (process_response_message completes sm s ≡ ok t) × Inv t × SameSizes s t
unfolding process_response_message
response-Inv completes sm s v =
    let (bs, k, e, l) = settle-kept sm s in
    let arrived = record s {
      memory_block_list = bs;
      stale_steps = k;
      answered = s.answered ++ sm ∷ [];
    } in
    let w : Inv arrived = record {
      sized = record {
        some_blocks = v.sized.some_blocks;
        bounded = subst (λ n. n ≤ s.total_cache_blocks) (sym l) v.sized.bounded;
      };
      timed = v.timed;
      fit = v.fit;
      clock = v.clock;
    } in
    elim (Bool-cases completes) [
      | inl c ↦
          let (t, q, w', a) = process_sub_requests-Inv arrived w in
          (
            t,
            ap (after_settle completes sm s) e ∙ if-true _ _ c ∙ q,
            w',
            record { total = a.total; size = a.size },
          )
      | inr c ↦ (
        arrived,
        ap (after_settle completes sm s) e ∙ if-false _ _ c,
        w,
        record { total = refl; size = refl },
      )
    ]

-- A message is sent, and then the subrequests are worked on.
sent-Inv :
    (s : BlockModel) (b : Bool) (l : List IoMessage)
    → Inv s
    → (t : BlockModel) × (process_sub_requests (record s { latency_scheduled = b; sent = l })
        ≡ ok t)
      × Inv t
      × SameSizes s t
sent-Inv s b l v =
    let next = record s { latency_scheduled = b; sent = l } in
    let w : Inv next =
      Inv-SameCache s next v
        (record { blocks = refl; total = refl; size = refl; clock = refl; queue = refl }) v.timed in
    let (t, e, w', a) = process_sub_requests-Inv next w in
    (t, e, w', record { total = a.total; size = a.size })

handle-Inv :
    (e : Event) (s : BlockModel)
    → Split (block_bytes s) e
    → Inv s
    → (t : BlockModel) × (handle e s ≡ ok t) × Inv t × SameSizes s t
unfolding handle search_message latency_message
handle-Inv (request sms) s h v = (
  record s { sub_requests = s.sub_requests ++ sms },
  refl,
  record {
    sized = record { some_blocks = v.sized.some_blocks; bounded = v.sized.bounded };
    timed = v.timed;
    fit = All-append (Fits (block_bytes s)) s.sub_requests sms v.fit h;
    clock = v.clock;
  },
  record { total = refl; size = refl },
)
handle-Inv (search sm) s h v = sent-Inv s s.latency_scheduled (s.sent ++ sm ∷ []) v
handle-Inv latency s h v =
    sent-Inv s false (elim s.pending_message [ none ↦ s.sent | some sm ↦ s.sent ++ sm ∷ [] ]) v
handle-Inv flush s h v = flush_message-Inv s v
handle-Inv (response completes sm) s h v = response-Inv completes sm s v

run-before :
    (es : List Event) (s : BlockModel)
    → All (Split (block_bytes s)) es
    → Inv s
    → (t : BlockModel) × (run es s ≡ ok t) × Inv t × SameSizes s t
unfolding run
run-before [] s h v = (s, refl, v, record { total = refl; size = refl })
run-before (e ∷ es) s h v =
    let (t, q, w, a) = handle-Inv e s h.0 v in
    let (u, q', w', b) =
      run-before es t (subst (λ k. All (Split (word (k * 1024))) es) (sym a.size) h.1) w in
    (
      u,
      ap {A = Result BlockModel} {B = Result BlockModel} (λ r. r >>= run es) q ∙ q',
      w',
      record { total = b.total ∙ a.total; size = b.size ∙ a.size },
    )

handle-Late : (e : Event) (s : BlockModel) → Late (handle e (past s)) (handle e s)
unfolding handle search_message latency_message
handle-Late (request sms) s = inr refl
handle-Late (search sm) s = process_sub_requests-Late (record s { sent = s.sent ++ sm ∷ [] })
handle-Late latency s = process_sub_requests-Late (record s {
  latency_scheduled = false;
  sent = elim s.pending_message [ none ↦ s.sent | some sm ↦ s.sent ++ sm ∷ [] ];
})
handle-Late flush s = flush_message-Late s
handle-Late (response completes sm) s = process_response-Late completes sm s

-- The simulation has ended, or it is in a state of the invariant but for its clock.
abbrev pub EndedOr : Result BlockModel → Type 0
EndedOr r =
    (r ≡ throw end_of_simulation)
    ⊎ ((u : BlockModel) × (r ≡ ok u)
        × (length u.memory_block_list ≤ u.total_cache_blocks)
        × Timed u)

run-later :
    (es : List Event) (s : BlockModel)
    → All (Split (block_bytes s)) es
    → Inv s
    → EndedOr (run es (past s))
unfolding run
run-later [] s h v = inr (past s, refl, v.sized.bounded, v.timed)
run-later (e ∷ es) s h v =
    let (t, q, w, a) = handle-Inv e s h.0 v in
    let split = subst (λ k. All (Split (word (k * 1024))) es) (sym a.size) h.1 in
    elim (handle-Late e s) [
      | inl g ↦ inl (ap (λ r. r >>= run es) g)
      | inr g ↦
          subst EndedOr (sym (ap (λ r. r >>= run es) (g ∙ ap later q))) (run-later es t split w)
    ]

pub run-Inv :
    (es es' : List Event) (s : BlockModel)
    → All (Split (block_bytes s)) es
    → All (Split (block_bytes s)) es'
    → Inv s
    → (t : BlockModel) × (run es s ≡ ok t) × Inv t × EndedOr (run es' (past t))
run-Inv es es' s h h' v =
    let (t, q, w, a) = run-before es s h v in
    (t, q, w, run-later es' t (subst (λ k. All (Split (word (k * 1024))) es') (sym a.size) h') w)
