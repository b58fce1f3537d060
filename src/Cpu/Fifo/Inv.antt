-- ===== src/Cpu/Fifo/Inv.antt =====
-- One message at a time: what the scheduler does between two messages, its invariant, and the
-- order of the blocks.
use docker_sim.Prelude.{
  ℕ, ◌+◌, ◌≡◌, sym, ◌⊎◌, true, false, none, some, List, [], ◌∷◌, ◌++◌, length, set, leb, ◌==◌, word,
  sub_word, arith,
}
use docker_sim.Cpu.Common.{
  Block, to_cpu, change_state, to_os, ok, sm_change_cpu_state, search_idle_cpu, AllBusy,
}
use docker_sim.Cpu.Fifo.{
  Fifo, handle_message, process_request_message, process_current_request_message,
  process_response_message, send, start_next, speed_change, infinite_quantum, machine_state_idle,
}

pub record Inv (s : Fifo) : Type 0 where
  pub cpus : length s.is_cpu_idle ≡ s.num_cpus
  pub drained : s.queue ≡ []
  pub counted : s.queue_size ≡ word (length s.requests_queue)
  pub busy : (s.requests_queue ≡ []) ⊎ AllBusy s.is_cpu_idle

abbrev pub rested : Fifo → Fifo
rested s = record s { queue = [] }

pub rested_eq : (s : Fifo) → s.queue ≡ [] → rested s ≡ s
rested_eq s e = λ i. record s { queue = sym e i }

-- The state after a block that finds core `i` idle, after one that waits, and after a change of
-- state for the first core.
abbrev pub started : Fifo → Block → ℕ → Fifo
started s sm i = record s {
  is_cpu_idle = set s.is_cpu_idle i false;
  queue = [];
  sent = s.sent ++ to_cpu i (record sm { quantum = infinite_quantum; next_module_index = i }) ∷ [];
}

abbrev pub waiting : Fifo → Block → Fifo
waiting s sm = record s {
  requests_queue = s.requests_queue ++ record sm { quantum = infinite_quantum } ∷ [];
  queue_size = word (s.queue_size + 1);
  queue = [];
}

abbrev pub changed : Fifo → Block → Fifo
changed s sm = record s { queue = []; sent = s.sent ++ to_cpu 0 sm ∷ [] }

-- After a response with no block waiting, and with block `b` before `rest`.
abbrev pub finished : Fifo → Block → Fifo
finished s sm = record s {
  is_cpu_idle = set s.is_cpu_idle sm.next_module_index true;
  queue = [];
  sent =
      (s.sent
        ++ change_state sm.next_module_index machine_state_idle (sm.next_module_index ∷ []) ∷ [])
      ++ to_os sm ∷ [];
}

abbrev pub replaced : Fifo → Block → Block → List Block → Fifo
replaced s sm b rest = record s {
  is_cpu_idle = set (set s.is_cpu_idle sm.next_module_index true) sm.next_module_index false;
  requests_queue = rest;
  queue_size = sub_word s.queue_size 1;
  queue = [];
  sent =
      ((s.sent ++ change_state sm.next_module_index (speed_change s) [] ∷ [])
        ++ to_cpu sm.next_module_index (record b { next_module_index = sm.next_module_index }) ∷ [])
      ++ to_os sm ∷ [];
}

pub handle_change :
    (sm : Block) (s : Fifo)
    → sm.is_response ≡ false
    → (sm.operation == sm_change_cpu_state) ≡ true
    → handle_message sm (rested s) ≡ ok (changed s sm)
unfolding handle_message process_request_message process_current_request_message send
handle_change sm s r c = ground (arith, r, c)

pub handle_waiting :
    (sm : Block) (s : Fifo)
    → sm.is_response ≡ false
    → (sm.operation == sm_change_cpu_state) ≡ false
    → search_idle_cpu s.is_cpu_idle ≡ none
    → handle_message sm (rested s) ≡ ok (waiting s sm)
unfolding handle_message process_request_message process_current_request_message send
handle_waiting sm s r c e = simp (r, c, e)

pub handle_started :
    (sm : Block) (s : Fifo) (i : ℕ)
    → sm.is_response ≡ false
    → (sm.operation == sm_change_cpu_state) ≡ false
    → search_idle_cpu s.is_cpu_idle ≡ some i
    → handle_message sm (rested s) ≡ ok (started s sm i)
unfolding handle_message process_request_message process_current_request_message send
handle_started sm s i r c e = simp (r, c, e)

pub handle_finished :
    (sm : Block) (s : Fifo)
    → sm.is_response ≡ true
    → leb s.num_cpus sm.next_module_index ≡ false
    → s.requests_queue ≡ []
    → handle_message sm (rested s) ≡ ok (finished s sm)
unfolding handle_message process_request_message process_current_request_message
    process_response_message send
handle_finished sm s r c e = simp (r, c, e)

pub handle_replaced :
    (sm b : Block) (s : Fifo) (rest : List Block)
    → sm.is_response ≡ true
    → leb s.num_cpus sm.next_module_index ≡ false
    → s.requests_queue ≡ b ∷ rest
    → handle_message sm (rested s) ≡ ok (replaced s sm b rest)
unfolding handle_message process_request_message process_current_request_message
    process_response_message send start_next speed_change
handle_replaced sm b s rest r c e = simp (r, c, e)
