-- ===== src/Cpu/RoundRobin/Steps.antt =====
-- What CPU_Scheduler_RR does with one message between two events, and its invariant.
use docker_sim.Prelude.{
  ℕ, suc, if-true, if-false, Option, ◌≡◌, refl, sym, ap, ◌∙◌, ◌⊎◌, inl, inr, Bool, true, false,
  none, some, List, Bool-cases, [], ◌∷◌, ◌++◌, length, set, leb, if◌then◌else◌,
}
use docker_sim.Cpu.Common.{Block, Sent, to_cpu, to_os, Result, ok, ◌>>=◌, search_idle_cpu, AllBusy}
use docker_sim.Cpu.RoundRobin.{
  RoundRobin, handle_message, process_request_message, process_current_request_message,
  process_response_message, send, put_back, start_next, unfinished,
}

pub record Inv (s : RoundRobin) : Type 0 where
  pub cpus : length s.is_cpu_idle ≡ s.num_cpus
  pub drained : s.queue ≡ []
  pub busy : (s.requests_queue ≡ []) ⊎ AllBusy s.is_cpu_idle

abbrev pub rested : RoundRobin → RoundRobin
rested s = record s { queue = [] }

pub rested_eq : (s : RoundRobin) → s.queue ≡ [] → rested s ≡ s
rested_eq s e = λ i. record s { queue = sym e i }

-- The state after a block that waits, and after one that finds core `i` idle.
abbrev pub waiting : RoundRobin → Block → RoundRobin
waiting s sm = record s {
  requests_queue = s.requests_queue ++ record sm { quantum = s.quantum } ∷ [];
  queue = [];
}

abbrev pub started : RoundRobin → Block → ℕ → RoundRobin
started s sm i = record s {
  is_cpu_idle = set s.is_cpu_idle i false;
  queue = [];
  sent = s.sent ++ to_cpu i (record sm { quantum = s.quantum; next_module_index = i }) ∷ [];
}

-- After a response: what is left of the block's work waits in `waits`, the answers so far are in
-- `sent`, and the first block of `waits`, if any, takes core `i`.
abbrev pub resumed : RoundRobin → ℕ → List Block → List Sent → RoundRobin
resumed s i waits sent = elim waits [
  | [] ↦ record s {
    is_cpu_idle = set s.is_cpu_idle i true;
    requests_queue = [];
    queue = [];
    sent = sent;
  }
  | b ∷ rest ↦ record s {
    is_cpu_idle = set (set s.is_cpu_idle i true) i false;
    requests_queue = rest;
    queue = [];
    sent = sent ++ to_cpu i (record b { next_module_index = i }) ∷ [];
  }
]

abbrev pub waits : RoundRobin → Block → List Block
waits s sm =
    if unfinished sm
    then s.requests_queue ++ record sm { is_response = false } ∷ []
    else s.requests_queue

abbrev pub answered : RoundRobin → Block → List Sent
answered s sm =
    if unfinished sm then s.sent else s.sent ++ to_os (record sm { is_response = true }) ∷ []

-- The two operations from the result of the test they branch on.
abbrev request_on : Option ℕ → Block → RoundRobin → Result RoundRobin
request_on o sm s = elim o [ none ↦ ok (waiting s sm) | some i ↦ ok (started s sm i) ]

abbrev put_back_on : Bool → Block → RoundRobin → Result RoundRobin
put_back_on b sm s =
    let freed = record (rested s) { is_cpu_idle = set s.is_cpu_idle sm.next_module_index true } in
    let next = process_current_request_message 2 in
    (if b
      then ok (record freed {
        requests_queue = s.requests_queue ++ record sm { is_response = false } ∷ [];
      })
      else send next (to_os (record sm { is_response = true })) freed)
    >>= start_next next sm.next_module_index

abbrev resumed_on : Bool → RoundRobin → Block → Result RoundRobin
resumed_on b s sm = ok (
    resumed s sm.next_module_index
      (if b then s.requests_queue ++ record sm { is_response = false } ∷ [] else s.requests_queue)
      (if b then s.sent else s.sent ++ to_os (record sm { is_response = true }) ∷ []))

pub handle_waiting :
    (sm : Block) (s : RoundRobin)
    → sm.is_response ≡ false
    → search_idle_cpu s.is_cpu_idle ≡ none
    → handle_message sm (rested s) ≡ ok (waiting s sm)
unfolding handle_message process_request_message process_current_request_message send
handle_waiting sm s r e = if-false _ _ r ∙ ap (λ o. request_on o sm s) e

pub handle_started :
    (sm : Block) (s : RoundRobin) (i : ℕ)
    → sm.is_response ≡ false
    → search_idle_cpu s.is_cpu_idle ≡ some i
    → handle_message sm (rested s) ≡ ok (started s sm i)
unfolding handle_message process_request_message process_current_request_message send
handle_started sm s i r e = if-false _ _ r ∙ ap (λ o. request_on o sm s) e

resume :
    (fuel i : ℕ) (s : RoundRobin) (q : List Block) (l : List Sent)
    → start_next (process_current_request_message (suc fuel)) i (record s {
      is_cpu_idle = set s.is_cpu_idle i true;
      requests_queue = q;
      queue = [];
      sent = l;
    })
      ≡ ok (resumed s i q l)
unfolding start_next send process_current_request_message
resume fuel i s [] l = refl
resume fuel i s (b ∷ rest) l = refl

pub handle_resumed :
    (sm : Block) (s : RoundRobin)
    → sm.is_response ≡ true
    → leb s.num_cpus sm.next_module_index ≡ false
    → handle_message sm (rested s)
      ≡ ok (resumed s sm.next_module_index (waits s sm) (answered s sm))
unfolding handle_message process_current_request_message process_response_message put_back send
handle_resumed sm s r c = if-true _ _ r ∙ if-false _ _ c ∙ elim (Bool-cases (unfinished sm)) [
  | inl u ↦
      ap (λ b. put_back_on b sm s) u
      ∙ resume 1 sm.next_module_index s (s.requests_queue ++ record sm { is_response = false } ∷ [])
          s.sent
      ∙ sym (ap (λ b. resumed_on b s sm) u)
  | inr u ↦
      ap (λ b. put_back_on b sm s) u
      ∙ resume 1 sm.next_module_index s s.requests_queue
          (s.sent ++ to_os (record sm { is_response = true }) ∷ [])
      ∙ sym (ap (λ b. resumed_on b s sm) u)
]
