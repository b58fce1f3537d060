-- ===== src/Cpu/RoundRobin.antt =====
-- CPU_Scheduler_RR (CPU_Schedulers/CPU_Scheduler_RR/CPU_Scheduler_RR.cc). `queue` is the queue of
-- icancloud_Base, from which every send goes on to take the next message; `sent` logs what is
-- sent, oldest first.
pub mod Steps
pub mod Order
pub mod Run
pub mod Tests
use docker_sim.Prelude.{
  ℕ, zero, suc, ◌+◌, Bool, true, false, ◌||◌, Option, none, some, List, [], ◌∷◌, ◌++◌, ℤ, length,
  set, replicate, ltb, leb, if◌then◌else◌,
}
use docker_sim.Cpu.Common.{
  Block, Sent, to_cpu, to_os, Result, ok, err, cpu_index_error, out_of_fuel, ◌>>=◌, search_idle_cpu,
}

pub record RoundRobin : Type 0 where
  pub num_cpus : ℕ
  pub quantum : ℤ
  pub is_cpu_idle : List Bool
  pub requests_queue : List Block
  pub queue : List Block
  pub sent : List Sent

unfoldable pub initialize : ℕ → ℤ → RoundRobin
initialize num_cpus quantum = record {
  num_cpus = num_cpus;
  quantum = quantum;
  is_cpu_idle = replicate num_cpus true;
  requests_queue = [];
  queue = [];
  sent = [];
}

-- The send, and then `processCurrentRequestMessage`, here `next`.
abbrev pub Next : Type 0
Next = RoundRobin → Result RoundRobin

unfoldable pub send : Next → Sent → RoundRobin → Result RoundRobin
send next out s = next (record s { sent = s.sent ++ out ∷ [] })

unfoldable pub process_request_message : Next → Block → RoundRobin → Result RoundRobin
unfolding send
process_request_message next sm s = elim (search_idle_cpu s.is_cpu_idle) [
  | none ↦
      ok (record s { requests_queue = s.requests_queue ++ record sm { quantum = s.quantum } ∷ [] })
  | some i ↦
      send next (to_cpu i (record sm { quantum = s.quantum; next_module_index = i }))
        (record s { is_cpu_idle = set s.is_cpu_idle i false })
]

-- `processCurrentRequestMessage` of icancloud_Base, on fuel.
unfoldable pub process_current_request_message : ℕ → RoundRobin → Result RoundRobin
process_current_request_message zero s = err out_of_fuel
process_current_request_message (suc fuel) s =
    let next = process_current_request_message fuel in
    elim s.queue [
      | [] ↦ ok s
      | sm ∷ rest ↦ process_request_message next sm (record s { queue = rest })
    ]

-- The computing block has not been completely executed.
unfoldable pub unfinished : Block → Bool
unfinished sm = ltb 0 sm.remaining_mis || sm.cpu_time_left

-- An unfinished block waits again, behind the others; a finished one goes back.
unfoldable pub put_back : Next → Block → RoundRobin → Result RoundRobin
unfolding send unfinished
put_back next sm s =
    if unfinished sm
    then ok
        (record s { requests_queue = s.requests_queue ++ record sm { is_response = false } ∷ [] })
    else send next (to_os (record sm { is_response = true })) s

-- The block that waits longest goes to the core that has become free.
unfoldable pub start_next : Next → ℕ → RoundRobin → Result RoundRobin
unfolding send
start_next next cpu_index s = elim s.requests_queue [
  | [] ↦ ok s
  | b ∷ rest ↦
      send next (to_cpu cpu_index (record b { next_module_index = cpu_index }))
        (record s { requests_queue = rest; is_cpu_idle = set s.is_cpu_idle cpu_index false })
]

unfoldable pub process_response_message : Next → Block → RoundRobin → Result RoundRobin
unfolding put_back start_next
process_response_message next sm s =
    let cpu_index = sm.next_module_index in
    let freed = record s { is_cpu_idle = set s.is_cpu_idle cpu_index true } in
    if leb s.num_cpus cpu_index
    then err cpu_index_error
    else put_back next sm freed >>= start_next next cpu_index

-- `handleMessage` of icancloud_Base, with fuel for the messages in its queue.
unfoldable pub handle_message : Block → RoundRobin → Result RoundRobin
unfolding process_request_message process_current_request_message process_response_message
handle_message sm s =
    let fuel = length s.queue + 2 in
    if sm.is_response
    then process_response_message (process_current_request_message fuel) sm s
    else process_current_request_message fuel (record s { queue = s.queue ++ sm ∷ [] })
