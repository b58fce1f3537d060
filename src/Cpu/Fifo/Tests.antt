-- ===== src/Cpu/Fifo/Tests.antt =====
-- Runs of CPU_Scheduler_FIFO.
use docker_sim.Prelude.{ℕ, ◌≡◌, ◌⊎◌, ◌++◌, refl, [], ◌∷◌, List, true, false, pos, arith}
use docker_sim.Cpu.Common.{
  Block, ok, AllBusy, blocks, dispatched, returned, blocks_of, changed_cores, asked_states,
}
use docker_sim.Cpu.Fifo.{Fifo, initialize}
use docker_sim.Cpu.Fifo.Order.{Raised}
use docker_sim.Cpu.Fifo.Run.{run, arrivals, responses, cores_answering, in_order, run-speed_change}

abbrev request : ℕ → Block
request n = record {
  id = n;
  operation = 5;
  quantum = pos 0;
  next_module_index = 0;
  is_response = false;
  remaining_mis = 10;
  cpu_time_left = false;
}

-- Two cores; three blocks come, and the second core answers.
abbrev messages : List Block
messages =
    request 7
    ∷ request 8
    ∷ request 9
    ∷ record (request 8) { next_module_index = 1; is_response = true }
    ∷ []

messages_order : arrivals messages ≡ 7 ∷ 8 ∷ 9 ∷ []
unfolding arrivals blocks_of
messages_order = refl

in_order_example :
    (s : Fifo) × (run messages (initialize 2) ≡ ok s)
    × (dispatched s.sent ++ blocks s.requests_queue ≡ arrivals messages)
    × (returned s.sent ≡ responses messages)
    × ((s.requests_queue ≡ []) ⊎ AllBusy s.is_cpu_idle)
in_order_example = in_order 2 messages (λ h. cc, (λ h. cc, (λ h. cc, (λ h. omega arith, tt))))

run-speed_change_example :
    (s : Fifo) × (run messages (initialize 2) ≡ ok s)
    × (changed_cores s.sent ≡ cores_answering messages)
    × Raised (asked_states s.sent)
run-speed_change_example =
    run-speed_change 2 messages (λ h. cc, (λ h. cc, (λ h. cc, (λ h. omega arith, tt))))
