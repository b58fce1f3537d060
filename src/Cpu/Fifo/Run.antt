-- ===== src/Cpu/Fifo/Run.antt =====
-- CPU_Scheduler_FIFO over a sequence of messages, from `initialize`.
use mathlib.Core.List.{append_assoc, append-nil}
use docker_sim.Prelude.{
  ℕ, ◌≡◌, refl, sym, ap, subst, ◌∙◌, ◌⊎◌, inl, List, [], ◌∷◌, ◌++◌, All, length-replicate, true,
  word,
}
use docker_sim.Cpu.Common.{
  Accepted, Block, Result, ok, ◌>>=◌, AllBusy, blocks, dispatched, returned, changed_cores,
  asked_states,
}
use docker_sim.Cpu.Fifo.{Fifo, initialize, handle_message}
use docker_sim.Cpu.Fifo.Inv.{Inv}
use docker_sim.Cpu.Fifo.Order.{Step, step, arrival, response, answering, Raised}

unfoldable pub run : List Block → Fifo → Result Fifo
run [] s = ok s
run (sm ∷ sms) s = handle_message sm s >>= run sms

unfoldable pub arrivals : List Block → List ℕ
arrivals [] = []
arrivals (sm ∷ sms) = arrival sm ++ arrivals sms

unfoldable pub responses : List Block → List ℕ
responses [] = []
responses (sm ∷ sms) = response sm ++ responses sms

unfoldable pub cores_answering : List Block → List ℕ
cores_answering [] = []
cores_answering (sm ∷ sms) = answering sm ++ cores_answering sms

-- What a sequence of messages that takes `s` to `s'` keeps.
pub record Kept (s : Fifo) (sms : List Block) (s' : Fifo) : Type 0 where
  pub inv : Inv s'
  pub cores : s'.num_cpus ≡ s.num_cpus
  pub order :
      dispatched s'.sent ++ blocks s'.requests_queue
      ≡ (dispatched s.sent ++ blocks s.requests_queue) ++ arrivals sms
  pub answers : returned s'.sent ≡ returned s.sent ++ responses sms
  pub changes : changed_cores s'.sent ≡ changed_cores s.sent ++ cores_answering sms
  pub raised : Raised (asked_states s.sent) → Raised (asked_states s'.sent)

none_Kept : (s : Fifo) → Inv s → Kept s [] s
unfolding arrivals responses cores_answering
none_Kept s v = record {
  inv = v;
  cores = refl;
  order = sym (append-nil (dispatched s.sent ++ blocks s.requests_queue));
  answers = sym (append-nil (returned s.sent));
  changes = sym (append-nil (changed_cores s.sent));
  raised = λ h. h;
}

next_Kept :
    (s s' s'' : Fifo) (sm : Block) (sms : List Block)
    → Step s sm s'
    → Kept s' sms s''
    → Kept s (sm ∷ sms) s''
unfolding arrivals responses cores_answering
next_Kept s s' s'' sm sms a b = record {
  inv = b.inv;
  cores = b.cores ∙ a.cores;
  order =
      b.order
      ∙ ap (λ l. l ++ arrivals sms) a.order
      ∙ append_assoc (dispatched s.sent ++ blocks s.requests_queue) (arrival sm) (arrivals sms);
  answers =
      b.answers
      ∙ ap (λ l. l ++ responses sms) a.answers
      ∙ append_assoc (returned s.sent) (response sm) (responses sms);
  changes =
      b.changes
      ∙ ap (λ l. l ++ cores_answering sms) a.changes
      ∙ append_assoc (changed_cores s.sent) (answering sm) (cores_answering sms);
  raised = λ h. b.raised (a.raised h);
}

run-Kept :
    (sms : List Block) (s : Fifo)
    → All (Accepted s.num_cpus) sms
    → Inv s
    → (s' : Fifo) × (run sms s ≡ ok s') × Kept s sms s'
unfolding run
run-Kept [] s h v = (s, refl, none_Kept s v)
run-Kept (sm ∷ sms) s h v =
    let (s', e, k) = step sm s h.0 v in
    let (s'', e', k') =
      run-Kept sms s' (subst (λ n. All (Accepted n) sms) (sym k.cores) h.1) k.inv in
    (s'', ap (λ r. r >>= run sms) e ∙ e', next_Kept s s' s'' sm sms k k')

initialize-Inv : (num_cpus : ℕ) → Inv (initialize num_cpus)
unfolding initialize word
initialize-Inv num_cpus = record {
  cpus = length-replicate num_cpus true;
  drained = refl;
  counted = refl;
  busy = inl refl;
}

-- For every sequence of messages in which a response names a core, the scheduler handles all of
-- them without an error; the blocks it has sent to cores, then those that wait, are the blocks
-- that came, in the order they came in; each response went back to the operating system, in
-- order; and a block waits only while no core is idle.
pub in_order :
    (num_cpus : ℕ) (sms : List Block)
    → All (Accepted num_cpus) sms
    → (s : Fifo) × (run sms (initialize num_cpus) ≡ ok s)
      × (dispatched s.sent ++ blocks s.requests_queue ≡ arrivals sms)
      × (returned s.sent ≡ responses sms)
      × ((s.requests_queue ≡ []) ⊎ AllBusy s.is_cpu_idle)
unfolding initialize dispatched returned blocks
in_order num_cpus sms h =
    let (s, e, k) = run-Kept sms (initialize num_cpus) h (initialize-Inv num_cpus) in
    (s, e, k.order, k.answers, k.inv.busy)

-- Over every such sequence the scheduler asks for one change of state for each response, of the core
-- that the response names, and each is a change to a higher speed or to idle: although a lower speed
-- is one of its choices, it never asks for one, since its counter of waiting blocks is not below the
-- length of its queue.
pub run-speed_change :
    (num_cpus : ℕ) (sms : List Block)
    → All (Accepted num_cpus) sms
    → (s : Fifo) × (run sms (initialize num_cpus) ≡ ok s)
      × (changed_cores s.sent ≡ cores_answering sms)
      × Raised (asked_states s.sent)
unfolding initialize changed_cores asked_states
run-speed_change num_cpus sms h =
    let (s, e, k) = run-Kept sms (initialize num_cpus) h (initialize-Inv num_cpus) in
    (s, e, k.changes, k.raised tt)
