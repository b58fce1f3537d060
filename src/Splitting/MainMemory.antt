-- ===== src/Splitting/MainMemory.antt =====
-- SMS_MainMemory (Base/Messages/SMS/SMS_MainMemory.cc): file requests cut along the blocks of the
-- memory. Offsets and sizes are 32-bit patterns; `int` counters are read back by `rounds`.
pub mod Write
pub mod Read
pub mod Tests
use docker_sim.Prelude.{
  ℕ, zero, suc, ◌+◌, ◌-◌, ◌*◌, ◌/◌, ◌%◌, Bool, true, false, Option, none, some, List, [], ◌∷◌, ◌++◌,
  ltb, leb, ◌==◌, if◌then◌else◌, word, sub_word, abs_word, rounds, length,
}
use docker_sim.Splitting.Message.{
  Result, ok, throw, division_by_zero, ◌>>=◌, Pointer, Store, IoMessage, add_request_to_trace,
  update_length, sm_read_file,
}
use docker_sim.Splitting.Request
use docker_sim.Splitting.Request.{Request}
use docker_sim.Splitting.System.{System, add_request, search_request}
use docker_sim.Prelude.Lists.{get_elem?}

pub record MainMemory : Type 0 where
  pub memory_size : ℕ
  pub read_ahead_blocks : ℕ
  pub memory_block_size : ℕ
  pub system : System
  pub sub_requests : List IoMessage

unfoldable pub new_main_memory : ℕ → ℕ → ℕ → MainMemory
new_main_memory memory_size read_ahead_blocks memory_block_size = record {
  memory_size = memory_size;
  read_ahead_blocks = read_ahead_blocks;
  memory_block_size = memory_block_size;
  system = record { request_vector = []; deleted = [] };
  sub_requests = [];
}

-- One subrequest: a copy of the request with its number, its parent, its offset and its size.
unfoldable pub sub_request : IoMessage → Pointer → ℕ → ℕ → ℕ → Result IoMessage
unfolding add_request_to_trace
sub_request sm_io msg number offset size = do
  m ← add_request_to_trace number sm_io
  update_length (record m { parent_request = some msg; offset = offset; size = size })

unfoldable pub bytes_in_first_block : ℕ → ℕ → ℕ → ℕ
bytes_in_first_block offset request_size block =
    if ltb request_size (sub_word block (offset % block))
    then request_size
    else sub_word block (offset % block)

unfoldable pub num_requested_blocks : ℕ → ℕ → ℕ → ℕ
unfolding bytes_in_first_block
num_requested_blocks offset request_size block =
    let rest = abs_word (sub_word request_size (bytes_in_first_block offset request_size block)) in
    if (rest % block) == 0 then word (rest / block + 1) else word (rest / block + 2)

-- The loop of a read: whole blocks from the offset `current` on.
unfoldable pub read_blocks : ℕ → IoMessage → Pointer → ℕ → ℕ → ℕ → Result (List IoMessage)
read_blocks zero sm_io msg block number current = ok []
read_blocks (suc left) sm_io msg block number current =
    let rest = read_blocks left sm_io msg block (number + 1) (word (current + block)) in
    do s ← sub_request sm_io msg number current block; ss ← rest; ok (s ∷ ss)

unfoldable pub current_size : ℕ → ℕ → ℕ → ℕ
current_size end current block =
    if leb block (sub_word end current) then block else sub_word end current

-- The loop of a write, from its second subrequest on; `end` is `offset + requestSize`.
unfoldable pub write_blocks : ℕ → IoMessage → Pointer → ℕ → ℕ → ℕ → ℕ → Result (List IoMessage)
write_blocks zero sm_io msg block end number current = ok []
write_blocks (suc left) sm_io msg block end number current =
    let rest =
      write_blocks left sm_io msg block end (number + 1)
        (word (current + current_size end current block)) in
    do
      s ← sub_request sm_io msg number current (current_size end current block)
      ss ← rest
      ok (s ∷ ss)

unfoldable pub split_read : MainMemory → Pointer → IoMessage → Result MainMemory
split_read m msg sm_io =
    let block = m.memory_block_size in
    let requested =
      word (num_requested_blocks sm_io.offset sm_io.size block + m.read_ahead_blocks) in
    do
      ss ← read_blocks (rounds requested) sm_io msg block 0 (word (sm_io.offset / block * block))
      ok (record m {
        system = add_request msg requested m.system;
        sub_requests = m.sub_requests ++ ss;
      })

unfoldable pub split_write : MainMemory → Pointer → IoMessage → Result MainMemory
split_write m msg sm_io =
    let block = m.memory_block_size in
    let requested = num_requested_blocks sm_io.offset sm_io.size block in
    let first = bytes_in_first_block sm_io.offset sm_io.size block in
    do
      s ← sub_request sm_io msg 0 sm_io.offset first
      ss ←
          write_blocks (rounds requested - 1) sm_io msg block (word (sm_io.offset + sm_io.size)) 1
            (word (sm_io.offset + first))
      ok (record m {
        system = add_request msg requested m.system;
        sub_requests = m.sub_requests ++ s ∷ ss;
      })

-- `splitRequest` of a file request. Both branches divide by the size of a block.
unfoldable pub split_request : MainMemory → Pointer → IoMessage → Result MainMemory
split_request m msg sm_io =
    if m.memory_block_size == 0
    then throw division_by_zero
    else if sm_io.operation == sm_read_file
    then split_read m msg sm_io
    else split_write m msg sm_io

-- The loop of `arrivesRequiredBlocks`: the first `needed` slots are full.
unfoldable pub slots_full : Store → ℕ → ℕ → Request → Result Bool
slots_full store zero sub_index r = ok true
slots_full store (suc needed) sub_index r =
    let later = slots_full store needed (sub_index + 1) r in
    do
      slot ← Request.get_sub_request store sub_index r
      elim slot [ none ↦ ok false | some p ↦ later ]

-- Both counts are read as `int`s, and no slot is needed where the difference is not positive.
unfoldable pub arrives_required_blocks : Store → Pointer → ℕ → MainMemory → Result Bool
arrives_required_blocks store request extra_blocks m =
    elim (search_request request m.system.request_vector) [
      | none ↦ ok false
      | some i ↦ elim (get_elem? m.system.request_vector i) [
        | none ↦ ok false
        | some r ↦ slots_full store (length r.sub_requests - extra_blocks) 0 r
      ]
    ]

unfoldable pub get_first_sub_request : MainMemory → Option IoMessage
get_first_sub_request m = elim m.sub_requests [ [] ↦ none | s ∷ ss ↦ some s ]

unfoldable pub pop_sub_request : MainMemory → Option IoMessage × MainMemory
pop_sub_request m = elim m.sub_requests [
  | [] ↦ (none, m)
  | s ∷ ss ↦ (some s, record m { sub_requests = ss })
]
