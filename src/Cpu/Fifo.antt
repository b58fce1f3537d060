-- ===== src/Cpu/Fifo.antt =====
-- CPU_Scheduler_FIFO (CPU_Schedulers/CPU_Scheduler_FIFO/CPU_Scheduler_FIFO.cc). `queue` is the
-- queue of icancloud_Base, from which every send goes on to take the next message; `sent` logs
-- what is sent, oldest first. Messages other than state changes are computing blocks, and a
-- scheduler has no latency message.
pub mod Inv
pub mod Order
pub mod Run
pub mod Tests
use docker_sim.Prelude.{
  ℕ, zero, suc, ◌+◌, Bool, true, false, Option, none, some, List, [], ◌∷◌, ◌++◌, ℤ, negsuc, length,
  set, replicate, ltb, leb, ◌==◌, if◌then◌else◌, word, sub_word,
}
use Prim.Native.String.{String}
use docker_sim.Cpu.Common.{
  Block, Sent, to_cpu, change_state, to_os, Result, ok, err, cpu_index_error, out_of_fuel, ◌>>=◌,
  sm_change_cpu_state, search_idle_cpu,
}

abbrev pub infinite_quantum : ℤ
infinite_quantum = negsuc 0

abbrev pub increment_speed : String
increment_speed = "increment_speed"

abbrev pub decrement_speed : String
decrement_speed = "decrement_speed"

abbrev pub machine_state_idle : String
machine_state_idle = "idle"

pub record Fifo : Type 0 where
  pub num_cpus : ℕ
  pub is_cpu_idle : List Bool
  pub requests_queue : List Block
  pub queue_size : ℕ
  pub queue : List Block
  pub sent : List Sent

unfoldable pub initialize : ℕ → Fifo
initialize num_cpus = record {
  num_cpus = num_cpus;
  is_cpu_idle = replicate num_cpus true;
  requests_queue = [];
  queue_size = 0;
  queue = [];
  sent = [];
}

-- `sendRequestMessage` and `sendResponseMessage`: the send, and then `processCurrentRequestMessage`,
-- here `next`.
abbrev pub Next : Type 0
Next = Fifo → Result Fifo

unfoldable pub send : Next → Sent → Fifo → Result Fifo
send next out s = next (record s { sent = s.sent ++ out ∷ [] })

unfoldable pub process_request_message : Next → Block → Fifo → Result Fifo
unfolding send
process_request_message next sm s =
    if sm.operation == sm_change_cpu_state
    then send next (to_cpu 0 sm) s
    else elim (search_idle_cpu s.is_cpu_idle) [
      | none ↦ ok (record s {
        requests_queue = s.requests_queue ++ record sm { quantum = infinite_quantum } ∷ [];
        queue_size = word (s.queue_size + 1);
      })
      | some i ↦
          send next (to_cpu i (record sm { quantum = infinite_quantum; next_module_index = i }))
            (record s { is_cpu_idle = set s.is_cpu_idle i false })
    ]

-- `processCurrentRequestMessage` of icancloud_Base, on fuel.
unfoldable pub process_current_request_message : ℕ → Fifo → Result Fifo
process_current_request_message zero s = err out_of_fuel
process_current_request_message (suc fuel) s =
    let next = process_current_request_message fuel in
    elim s.queue [
      | [] ↦ ok s
      | sm ∷ rest ↦ process_request_message next sm (record s { queue = rest })
    ]

unfoldable pub speed_change : Fifo → String
speed_change s =
    if leb (word (length s.requests_queue)) s.queue_size then increment_speed else decrement_speed

-- The block that waits longest goes to the core that has become free.
unfoldable pub start_next : Next → ℕ → Fifo → Result Fifo
unfolding send
start_next next cpu_index s = elim s.requests_queue [
  | [] ↦ ok s
  | b ∷ rest ↦ send next (to_cpu cpu_index (record b { next_module_index = cpu_index })) (record s {
    requests_queue = rest;
    queue_size = sub_word s.queue_size 1;
    is_cpu_idle = set s.is_cpu_idle cpu_index false;
  })
]

unfoldable pub process_response_message : Next → Block → Fifo → Result Fifo
unfolding send start_next speed_change
process_response_message next sm s =
    let cpu_index = sm.next_module_index in
    let freed = record s { is_cpu_idle = set s.is_cpu_idle cpu_index true } in
    if leb s.num_cpus cpu_index then err cpu_index_error else elim freed.requests_queue [
      | [] ↦ do
        s' ← send next (change_state cpu_index machine_state_idle (cpu_index ∷ [])) freed
        send next (to_os sm) s'
      | b ∷ rest ↦ do
        s' ← send next (change_state cpu_index (speed_change freed) []) freed
        s'' ← start_next next cpu_index s'
        send next (to_os sm) s''
    ]

-- `handleMessage` of icancloud_Base, with fuel for the messages in its queue.
unfoldable pub handle_message : Block → Fifo → Result Fifo
unfolding process_request_message process_current_request_message process_response_message
handle_message sm s =
    let fuel = length s.queue + 2 in
    if sm.is_response
    then process_response_message (process_current_request_message fuel) sm s
    else process_current_request_message fuel (record s { queue = s.queue ++ sm ∷ [] })
