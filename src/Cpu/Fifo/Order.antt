-- ===== src/Cpu/Fifo/Order.antt =====
-- The order in which CPU_Scheduler_FIFO sends blocks to cores, for every sequence of messages.
use mathlib.Core.List.{append_assoc, append-nil}
use docker_sim.Prelude.{
  ℕ, ◌<◌, ◌≡◌, refl, ap, ◌∙◌, inl, inr, true, false, List, [], ◌∷◌, ◌++◌, length, length-set,
  length-append, set, ◌==◌, if◌then◌else◌, word, word-suc, sub_word-word, sub_word, arith,
  Bool-cases, List-cases, subst, sym, ◌⊎◌, All, All-append, leb_refl,
}
use docker_sim.Cpu.Common.{
  Accepted, Block, ok, sm_change_cpu_state, search_idle_cpu_cases, AllBusy, FirstIdle, AllBusy-set,
  FirstIdle-AllBusy, blocks_of, blocks, blocks-append, dispatched, dispatched-append, returned,
  returned-append, Sent, to_cpu, change_state, to_os, changed_cores, changed_cores-append,
  asked_states, asked_states-append,
}
use Prim.Native.String.{String}
use docker_sim.Cpu.Fifo.{
  Fifo, handle_message, speed_change, increment_speed, machine_state_idle, infinite_quantum,
}
use docker_sim.Cpu.Fifo.Inv.{
  Inv, rested, rested_eq, started, waiting, changed, finished, replaced, handle_change,
  handle_waiting, handle_started, handle_finished, handle_replaced,
}

-- The blocks that a message brings to the scheduler, and those it brings back.
abbrev pub arrival : Block → List ℕ
arrival sm = if sm.is_response then [] else blocks_of sm

abbrev pub response : Block → List ℕ
response sm = if sm.is_response then sm.id ∷ [] else []

-- The core that is asked to change its state.
abbrev pub answering : Block → List ℕ
answering sm = if sm.is_response then sm.next_module_index ∷ [] else []

-- The states that are asked for: a higher speed, and idle.
abbrev pub Raised : List String → Type 0
Raised = All (λ c. (c ≡ increment_speed) ⊎ (c ≡ machine_state_idle))

Raised-append :
    (xs ys : List Sent)
    → Raised (asked_states xs)
    → Raised (asked_states ys)
    → Raised (asked_states (xs ++ ys))
Raised-append xs ys a b = subst Raised (sym (asked_states-append xs ys)) (
    All-append (λ c. (c ≡ increment_speed) ⊎ (c ≡ machine_state_idle)) (asked_states xs)
      (asked_states ys) a b)

-- What a message that takes `s` to `s'` keeps.
pub record Step (s : Fifo) (sm : Block) (s' : Fifo) : Type 0 where
  pub inv : Inv s'
  pub cores : s'.num_cpus ≡ s.num_cpus
  pub order :
      dispatched s'.sent ++ blocks s'.requests_queue
      ≡ (dispatched s.sent ++ blocks s.requests_queue) ++ arrival sm
  pub answers : returned s'.sent ≡ returned s.sent ++ response sm
  pub changes : changed_cores s'.sent ≡ changed_cores s.sent ++ answering sm
  pub raised : Raised (asked_states s.sent) → Raised (asked_states s'.sent)

changed-Step :
    (s : Fifo) (sm : Block)
    → sm.is_response ≡ false
    → (sm.operation == sm_change_cpu_state) ≡ true
    → Inv s
    → Step s sm (changed s sm)
unfolding dispatched returned blocks blocks_of changed_cores asked_states
changed-Step s sm r c v = record {
  inv = record { cpus = v.cpus; drained = refl; counted = v.counted; busy = v.busy };
  cores = refl;
  order = simp (r, c, dispatched-append, append-nil);
  answers = simp (r, returned-append, append-nil);
  changes = simp (r, changed_cores-append, append-nil);
  raised = λ h. Raised-append s.sent (to_cpu 0 sm ∷ []) h tt;
}

waiting-Step :
    (s : Fifo) (sm : Block)
    → sm.is_response ≡ false
    → AllBusy s.is_cpu_idle
    → Inv s
    → Step s sm (waiting s sm)
unfolding dispatched returned blocks blocks_of changed_cores asked_states
waiting-Step s sm r b v = record {
  inv = record {
    cpus = v.cpus;
    drained = refl;
    counted = simp (v.counted, length-append, word-suc);
    busy = inr b;
  };
  cores = refl;
  order = simp (r, blocks-append, append-nil, append_assoc);
  answers = simp (r, append-nil);
  changes = simp (r, append-nil);
  raised = λ h. h;
}

no_waiting : (s : Fifo) (i : ℕ) → Inv s → FirstIdle i s.is_cpu_idle → s.requests_queue ≡ []
no_waiting s i v h = elim v.busy [
  | inl e ↦ e
  | inr b ↦ elim (FirstIdle-AllBusy i s.is_cpu_idle h b) [ ]
]

started-Step :
    (s : Fifo) (sm : Block) (i : ℕ)
    → sm.is_response ≡ false
    → FirstIdle i s.is_cpu_idle
    → Inv s
    → Step s sm (started s sm i)
unfolding dispatched returned blocks blocks_of changed_cores asked_states
started-Step s sm i r h v = record {
  inv = record {
    cpus = length-set s.is_cpu_idle i false ∙ v.cpus;
    drained = refl;
    counted = v.counted;
    busy = inl (no_waiting s i v h);
  };
  cores = refl;
  order = simp (r, no_waiting s i v h, dispatched-append, append-nil);
  answers = simp (r, returned-append, append-nil);
  changes = simp (r, changed_cores-append, append-nil);
  raised = λ h.
      Raised-append s.sent
        (to_cpu i (record sm { quantum = infinite_quantum; next_module_index = i }) ∷ []) h tt;
}

finished-Step :
    (s : Fifo) (sm : Block)
    → sm.is_response ≡ true
    → s.requests_queue ≡ []
    → Inv s
    → Step s sm (finished s sm)
unfolding dispatched returned blocks blocks_of changed_cores asked_states
finished-Step s sm r e v = record {
  inv = record {
    cpus = length-set s.is_cpu_idle sm.next_module_index true ∙ v.cpus;
    drained = refl;
    counted = v.counted;
    busy = inl e;
  };
  cores = refl;
  order = simp (r, e, dispatched-append, append-nil);
  answers = simp (r, returned-append, append-nil);
  changes = simp (r, changed_cores-append, append-nil);
  raised = λ h.
      let i = sm.next_module_index in
      let asked = change_state i machine_state_idle (i ∷ []) in
      Raised-append (s.sent ++ asked ∷ []) (to_os sm ∷ [])
        (Raised-append s.sent (asked ∷ []) h (inr refl, tt)) tt;
}

-- The core that a response frees is busy again, and no other was idle while a block waited.
busy_again :
    (s : Fifo) (i : ℕ) (b : Block) (rest : List Block)
    → s.requests_queue ≡ b ∷ rest
    → Inv s
    → AllBusy (set (set s.is_cpu_idle i true) i false)
busy_again s i b rest e v = elim v.busy [ inl n ↦ cc | inr k ↦ AllBusy-set s.is_cpu_idle i k ]

counted_rest :
    (s : Fifo) (b : Block) (rest : List Block)
    → s.requests_queue ≡ b ∷ rest
    → Inv s
    → sub_word s.queue_size 1 ≡ word (length rest)
counted_rest s b rest e v =
    ap (λ n. sub_word n 1) (v.counted ∙ ap (λ q. word (length q)) e)
    ∙ ap (λ n. sub_word (word n) 1) (omega arith)
    ∙ sub_word-word (length rest)

raises : (s : Fifo) → Inv s → speed_change s ≡ increment_speed
unfolding speed_change
raises s v = simp (v.counted, leb_refl)

replaced-Step :
    (s : Fifo) (sm b : Block) (rest : List Block)
    → sm.is_response ≡ true
    → s.requests_queue ≡ b ∷ rest
    → Inv s
    → Step s sm (replaced s sm b rest)
unfolding dispatched returned blocks blocks_of changed_cores asked_states
replaced-Step s sm b rest r e v = record {
  inv = record {
    cpus =
        length-set (set s.is_cpu_idle sm.next_module_index true) sm.next_module_index false
        ∙ length-set s.is_cpu_idle sm.next_module_index true
        ∙ v.cpus;
    drained = refl;
    counted = counted_rest s b rest e v;
    busy = inr (busy_again s sm.next_module_index b rest e v);
  };
  cores = refl;
  order = simp (r, e, dispatched-append, append-nil, append_assoc);
  answers = simp (r, returned-append, append-nil);
  changes = simp (r, changed_cores-append, append-nil);
  raised = λ h.
      let i = sm.next_module_index in
      let asked = change_state i (speed_change s) [] in
      let taken = to_cpu i (record b { next_module_index = i }) in
      Raised-append ((s.sent ++ asked ∷ []) ++ taken ∷ []) (to_os sm ∷ [])
        (Raised-append (s.sent ++ asked ∷ []) (taken ∷ [])
          (Raised-append s.sent (asked ∷ []) h (inl (raises s v), tt)) tt)
        tt;
}

next_request :
    (sm : Block) (s : Fifo)
    → sm.is_response ≡ false
    → Inv s
    → (s' : Fifo) × (handle_message sm (rested s) ≡ ok s') × Step s sm s'
next_request sm s r v = elim (Bool-cases (sm.operation == sm_change_cpu_state)) [
  | inl c ↦ (changed s sm, handle_change sm s r c, changed-Step s sm r c v)
  | inr c ↦ elim (search_idle_cpu_cases s.is_cpu_idle) [
    | inl (e, busy) ↦ (waiting s sm, handle_waiting sm s r c e, waiting-Step s sm r busy v)
    | inr (i, e, idle, below) ↦
        (started s sm i, handle_started sm s i r c e, started-Step s sm i r idle v)
  ]
]

next_response :
    (sm : Block) (s : Fifo)
    → sm.is_response ≡ true
    → sm.next_module_index < s.num_cpus
    → Inv s
    → (s' : Fifo) × (handle_message sm (rested s) ≡ ok s') × Step s sm s'
next_response sm s r h v = elim (List-cases s.requests_queue) [
  | inl e ↦ (finished s sm, handle_finished sm s r (ground arith) e, finished-Step s sm r e v)
  | inr (b, rest, e) ↦ (
    replaced s sm b rest,
    handle_replaced sm b s rest r (ground arith) e,
    replaced-Step s sm b rest r e v,
  )
]

pub step :
    (sm : Block) (s : Fifo)
    → Accepted s.num_cpus sm
    → Inv s
    → (s' : Fifo) × (handle_message sm s ≡ ok s') × Step s sm s'
step sm s h v =
    subst (λ t. (s' : Fifo) × (handle_message sm t ≡ ok s') × Step s sm s') (rested_eq s v.drained)
      (elim (Bool-cases sm.is_response) [
        | inl r ↦ next_response sm s r (h r) v
        | inr r ↦ next_request sm s r v
      ])
