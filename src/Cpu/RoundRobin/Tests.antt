-- ===== src/Cpu/RoundRobin/Tests.antt =====
-- Runs of CPU_Scheduler_RR.
use docker_sim.Prelude.{ℕ, ◌≡◌, ◌⊎◌, ◌++◌, refl, [], ◌∷◌, List, true, false, pos, arith}
use docker_sim.Cpu.Common.{Block, ok, AllBusy, blocks, dispatched, returned, blocks_of}
use docker_sim.Cpu.RoundRobin.{RoundRobin, unfinished, initialize}
use docker_sim.Cpu.RoundRobin.Run.{run, arrivals, responses, taken_in_turn}

abbrev request : ℕ → Block
request n = record {
  id = n;
  operation = 5;
  quantum = pos 0;
  next_module_index = 0;
  is_response = false;
  remaining_mis = 10;
  cpu_time_left = false;
}

-- Two cores; three blocks come, and the second core answers with work left.
abbrev messages : List Block
messages =
    request 7
    ∷ request 8
    ∷ request 9
    ∷ record (request 8) { next_module_index = 1; is_response = true }
    ∷ []

turns_order : arrivals messages ≡ 7 ∷ 8 ∷ 9 ∷ 8 ∷ []
unfolding arrivals blocks_of unfinished
turns_order = refl

taken_in_turn_example :
    (s : RoundRobin) × (run messages (initialize 2 (pos 100)) ≡ ok s)
    × (dispatched s.sent ++ blocks s.requests_queue ≡ arrivals messages)
    × (returned s.sent ≡ responses messages)
    × ((s.requests_queue ≡ []) ⊎ AllBusy s.is_cpu_idle)
taken_in_turn_example =
    taken_in_turn 2 (pos 100) messages (λ h. cc, (λ h. cc, (λ h. cc, (λ h. omega arith, tt))))
