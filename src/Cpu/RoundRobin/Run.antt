-- ===== src/Cpu/RoundRobin/Run.antt =====
-- CPU_Scheduler_RR over a sequence of messages, from `initialize`.
use mathlib.Core.List.{append_assoc, append-nil}
use docker_sim.Prelude.{
  ℕ, ℤ, ◌≡◌, refl, sym, ap, subst, ◌∙◌, ◌⊎◌, inl, List, [], ◌∷◌, ◌++◌, All, length-replicate, true,
}
use docker_sim.Cpu.Common.{
  Accepted, Block, Result, ok, ◌>>=◌, AllBusy, blocks, dispatched, returned,
}
use docker_sim.Cpu.RoundRobin.{RoundRobin, initialize, handle_message}
use docker_sim.Cpu.RoundRobin.Steps.{Inv}
use docker_sim.Cpu.RoundRobin.Order.{Step, step, arrival, response}

unfoldable pub run : List Block → RoundRobin → Result RoundRobin
run [] s = ok s
run (sm ∷ sms) s = handle_message sm s >>= run sms

unfoldable pub arrivals : List Block → List ℕ
arrivals [] = []
arrivals (sm ∷ sms) = arrival sm ++ arrivals sms

unfoldable pub responses : List Block → List ℕ
responses [] = []
responses (sm ∷ sms) = response sm ++ responses sms

-- What a sequence of messages that takes `s` to `s'` keeps.
pub record Kept (s : RoundRobin) (sms : List Block) (s' : RoundRobin) : Type 0 where
  pub inv : Inv s'
  pub cores : s'.num_cpus ≡ s.num_cpus
  pub order :
      dispatched s'.sent ++ blocks s'.requests_queue
      ≡ (dispatched s.sent ++ blocks s.requests_queue) ++ arrivals sms
  pub answers : returned s'.sent ≡ returned s.sent ++ responses sms

none_Kept : (s : RoundRobin) → Inv s → Kept s [] s
unfolding arrivals responses
none_Kept s v = record {
  inv = v;
  cores = refl;
  order = sym (append-nil (dispatched s.sent ++ blocks s.requests_queue));
  answers = sym (append-nil (returned s.sent));
}

next_Kept :
    (s s' s'' : RoundRobin) (sm : Block) (sms : List Block)
    → Step s sm s'
    → Kept s' sms s''
    → Kept s (sm ∷ sms) s''
unfolding arrivals responses
next_Kept s s' s'' sm sms a b = record {
  inv = b.inv;
  cores = b.cores ∙ a.cores;
  order =
      b.order
      ∙ ap (λ l. l ++ arrivals sms) a.order
      ∙ append_assoc (dispatched s.sent ++ blocks s.requests_queue) (arrival sm) (arrivals sms);
  answers =
      b.answers
      ∙ ap (λ l. l ++ responses sms) a.answers
      ∙ append_assoc (returned s.sent) (response sm) (responses sms);
}

run-Kept :
    (sms : List Block) (s : RoundRobin)
    → All (Accepted s.num_cpus) sms
    → Inv s
    → (s' : RoundRobin) × (run sms s ≡ ok s') × Kept s sms s'
unfolding run
run-Kept [] s h v = (s, refl, none_Kept s v)
run-Kept (sm ∷ sms) s h v =
    let (s', e, k) = step sm s h.0 v in
    let (s'', e', k') =
      run-Kept sms s' (subst (λ n. All (Accepted n) sms) (sym k.cores) h.1) k.inv in
    (s'', ap (λ r. r >>= run sms) e ∙ e', next_Kept s s' s'' sm sms k k')

initialize-Inv : (num_cpus : ℕ) (quantum : ℤ) → Inv (initialize num_cpus quantum)
unfolding initialize
initialize-Inv num_cpus quantum = record {
  cpus = length-replicate num_cpus true;
  drained = refl;
  busy = inl refl;
}

-- For every sequence of messages in which a response names a core, the scheduler handles all of
-- them without an error; the blocks it has sent to cores, then those that wait, are the blocks
-- that came or came back unfinished, in that order, so that an unfinished block waits behind all
-- others; the finished ones went back to the operating system, in order; and a block waits only
-- while no core is idle.
pub taken_in_turn :
    (num_cpus : ℕ) (quantum : ℤ) (sms : List Block)
    → All (Accepted num_cpus) sms
    → (s : RoundRobin) × (run sms (initialize num_cpus quantum) ≡ ok s)
      × (dispatched s.sent ++ blocks s.requests_queue ≡ arrivals sms)
      × (returned s.sent ≡ responses sms)
      × ((s.requests_queue ≡ []) ⊎ AllBusy s.is_cpu_idle)
unfolding initialize dispatched returned blocks
taken_in_turn num_cpus quantum sms h =
    let (s, e, k) =
      run-Kept sms (initialize num_cpus quantum) h (initialize-Inv num_cpus quantum) in
    (s, e, k.order, k.answers, k.inv.busy)
