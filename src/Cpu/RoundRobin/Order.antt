-- ===== src/Cpu/RoundRobin/Order.antt =====
-- What one message does to the order of the blocks in CPU_Scheduler_RR.
use docker_sim.Prelude.{
  ℕ, ◌≡◌, refl, ap, ◌∙◌, ◌⊎◌, inl, inr, true, false, List, Bool-cases, [], ◌∷◌, ◌++◌, set,
  length-set, if◌then◌else◌, if-true, if-false, arith, subst,
}
use mathlib.Core.List.{append_assoc, append-nil}
use docker_sim.Cpu.Common.{
  Accepted, Block, Sent, ok, search_idle_cpu_cases, AllBusy, FirstIdle, FirstIdle-AllBusy,
  AllBusy-set, blocks_of, blocks, blocks-append, dispatched, dispatched-append, returned,
  returned-append,
}
use docker_sim.Cpu.RoundRobin.{RoundRobin, handle_message, unfinished}
use docker_sim.Cpu.RoundRobin.Steps.{
  Inv, rested, rested_eq, started, waiting, resumed, waits, answered, handle_waiting,
  handle_started, handle_resumed,
}

-- The block that a message puts behind the others: a new one, or an unfinished one.
abbrev pub arrival : Block → List ℕ
arrival sm = if sm.is_response then if unfinished sm then blocks_of sm else [] else blocks_of sm

-- The finished block that a message brings back.
abbrev pub response : Block → List ℕ
response sm = if sm.is_response then if unfinished sm then [] else sm.id ∷ [] else []

pub record Step (s : RoundRobin) (sm : Block) (s' : RoundRobin) : Type 0 where
  pub inv : Inv s'
  pub cores : s'.num_cpus ≡ s.num_cpus
  pub order :
      dispatched s'.sent ++ blocks s'.requests_queue
      ≡ (dispatched s.sent ++ blocks s.requests_queue) ++ arrival sm
  pub answers : returned s'.sent ≡ returned s.sent ++ response sm

waiting-Step :
    (s : RoundRobin) (sm : Block)
    → sm.is_response ≡ false
    → AllBusy s.is_cpu_idle
    → Inv s
    → Step s sm (waiting s sm)
unfolding dispatched returned blocks blocks_of
waiting-Step s sm r b v = record {
  inv = record { cpus = v.cpus; drained = refl; busy = inr b };
  cores = refl;
  order = simp (r, blocks-append, append-nil, append_assoc);
  answers = simp (r, append-nil);
}

no_waiting : (s : RoundRobin) (i : ℕ) → Inv s → FirstIdle i s.is_cpu_idle → s.requests_queue ≡ []
no_waiting s i v h = elim v.busy [
  | inl e ↦ e
  | inr b ↦ elim (FirstIdle-AllBusy i s.is_cpu_idle h b) [ ]
]

started-Step :
    (s : RoundRobin) (sm : Block) (i : ℕ)
    → sm.is_response ≡ false
    → FirstIdle i s.is_cpu_idle
    → Inv s
    → Step s sm (started s sm i)
unfolding dispatched returned blocks blocks_of
started-Step s sm i r h v = record {
  inv = record {
    cpus = length-set s.is_cpu_idle i false ∙ v.cpus;
    drained = refl;
    busy = inl (no_waiting s i v h);
  };
  cores = refl;
  order = simp (r, no_waiting s i v h, dispatched-append, append-nil);
  answers = simp (r, returned-append, append-nil);
}

-- The order and the answers of `resumed` are those of its arguments.
resumed-order :
    (s : RoundRobin) (i : ℕ) (q : List Block) (l : List Sent)
    → dispatched (resumed s i q l).sent ++ blocks (resumed s i q l).requests_queue
      ≡ dispatched l ++ blocks q
unfolding dispatched blocks blocks_of
resumed-order s i [] l = refl
resumed-order s i (b ∷ rest) l = simp (dispatched-append, append-nil, append_assoc)

resumed-answers :
    (s : RoundRobin) (i : ℕ) (q : List Block) (l : List Sent)
    → returned (resumed s i q l).sent ≡ returned l
unfolding returned
resumed-answers s i [] l = refl
resumed-answers s i (b ∷ rest) l = simp (returned-append, append-nil)

-- A block waits only while all cores are busy: if none waited before, the core that is freed
-- takes the one there may be.
resumed-Inv :
    (s : RoundRobin) (i : ℕ) (q : List Block) (l : List Sent)
    → Inv s
    → (q ≡ []) ⊎ (((b : Block) × (q ≡ b ∷ [])) ⊎ AllBusy s.is_cpu_idle)
    → Inv (resumed s i q l)
resumed-Inv s i [] l v h = record {
  cpus = length-set s.is_cpu_idle i true ∙ v.cpus;
  drained = refl;
  busy = inl refl;
}
resumed-Inv s i (b ∷ rest) l v h = record {
  cpus = length-set (set s.is_cpu_idle i true) i false ∙ length-set s.is_cpu_idle i true ∙ v.cpus;
  drained = refl;
  busy = elim h [
    | inl e ↦ cc
    | inr (inl (c, e)) ↦ inl cc
    | inr (inr busy) ↦ inr (AllBusy-set s.is_cpu_idle i busy)
  ];
}

waits-busy :
    (s : RoundRobin) (sm : Block)
    → Inv s
    → (waits s sm ≡ []) ⊎ (((b : Block) × (waits s sm ≡ b ∷ [])) ⊎ AllBusy s.is_cpu_idle)
waits-busy s sm v = elim v.busy [
  | inr busy ↦ inr (inr busy)
  | inl e ↦ elim (Bool-cases (unfinished sm)) [
    | inl u ↦ inr (
        inl (
          record sm { is_response = false },
          if-true _ _ u ∙ ap (λ q. q ++ record sm { is_response = false } ∷ []) e,
        ))
    | inr u ↦ inl (if-false _ _ u ∙ e)
  ]
]

waits-order :
    (s : RoundRobin) (sm : Block)
    → sm.is_response ≡ true
    → dispatched (answered s sm) ++ blocks (waits s sm)
      ≡ (dispatched s.sent ++ blocks s.requests_queue) ++ arrival sm
unfolding dispatched blocks blocks_of
waits-order s sm r = elim (Bool-cases (unfinished sm)) [
  | inl u ↦ simp (r, u, blocks-append, append-nil, append_assoc)
  | inr u ↦ simp (r, u, dispatched-append, append-nil)
]

waits-answers :
    (s : RoundRobin) (sm : Block)
    → sm.is_response ≡ true
    → returned (answered s sm) ≡ returned s.sent ++ response sm
unfolding returned
waits-answers s sm r = elim (Bool-cases (unfinished sm)) [
  | inl u ↦ simp (r, u, append-nil)
  | inr u ↦ simp (r, u, returned-append)
]

resumed-cores :
    (s : RoundRobin) (i : ℕ) (q : List Block) (l : List Sent)
    → (resumed s i q l).num_cpus ≡ s.num_cpus
resumed-cores s i [] l = refl
resumed-cores s i (b ∷ rest) l = refl

resumed-Step :
    (s : RoundRobin) (sm : Block)
    → sm.is_response ≡ true
    → Inv s
    → Step s sm (resumed s sm.next_module_index (waits s sm) (answered s sm))
resumed-Step s sm r v =
    let i = sm.next_module_index in
    record {
      inv = resumed-Inv s i (waits s sm) (answered s sm) v (waits-busy s sm v);
      cores = resumed-cores s i (waits s sm) (answered s sm);
      order = resumed-order s i (waits s sm) (answered s sm) ∙ waits-order s sm r;
      answers = resumed-answers s i (waits s sm) (answered s sm) ∙ waits-answers s sm r;
    }

next_message :
    (sm : Block) (s : RoundRobin)
    → Accepted s.num_cpus sm
    → Inv s
    → (s' : RoundRobin) × (handle_message sm (rested s) ≡ ok s') × Step s sm s'
next_message sm s h v = elim (Bool-cases sm.is_response) [
  | inl r ↦
      let below = h r in
      (
        resumed s sm.next_module_index (waits s sm) (answered s sm),
        handle_resumed sm s r (ground arith),
        resumed-Step s sm r v,
      )
  | inr r ↦ elim (search_idle_cpu_cases s.is_cpu_idle) [
    | inl (e, busy) ↦ (waiting s sm, handle_waiting sm s r e, waiting-Step s sm r busy v)
    | inr (i, e, idle, below) ↦
        (started s sm i, handle_started sm s i r e, started-Step s sm i r idle v)
  ]
]

pub step :
    (sm : Block) (s : RoundRobin)
    → Accepted s.num_cpus sm
    → Inv s
    → (s' : RoundRobin) × (handle_message sm s ≡ ok s') × Step s sm s'
step sm s h v =
    subst (λ t. (s' : RoundRobin) × (handle_message sm t ≡ ok s') × Step s sm s')
      (rested_eq s v.drained) (next_message sm s h v)
