-- ===== src/Memory/BlockModel/Tests.antt =====
-- Runs of RAMMemory_BlockModel.
use docker_sim.Prelude.{
  same_name, ℕ, ◌≡◌, refl, Bool, true, false, none, some, List, [], ◌∷◌, pos, arith, word,
}
use docker_sim.Splitting.Message.{IoMessage, sm_read_file, sm_write_file}
use docker_sim.Memory.Blocks.{
  MemoryBlock, ok, throw, empty_list, search_block, is_requested, is_memory_full,
  all_blocks_pending,
}
use docker_sim.Memory.BlockModel.{
  BlockModel, search_memory_block, process_sub_requests, is_saturated,
}
use docker_sim.Memory.BlockModel.Recency.{Used}
use docker_sim.Memory.BlockModel.Process.{process_sub_requests-Used, process_sub_requests-no_room}
use docker_sim.Memory.BlockModel.Run.{Event, request, search, latency, flush, response}

abbrev sub : ℕ → ℕ → IoMessage
sub operation offset = record {
  file_name = "a";
  operation = operation;
  is_response = false;
  offset = offset;
  size = 100;
  byte_length = 1;
  connection_id = pos 0;
  comm_id = pos 0;
  nfs_connection_id = pos 0;
  parent_request = some 7;
  requests = some [];
}

-- Blocks of 1 KB.
abbrev memory : ℕ → List MemoryBlock → List IoMessage → BlockModel
memory total blocks subs = record {
  block_size_kb = 1;
  total_cache_blocks = total;
  no_flush_time = false;
  past_end = false;
  memory_block_list = blocks;
  flush_queue = [];
  flush_scheduled = false;
  latency_scheduled = false;
  pending_message = none;
  sub_requests = subs;
  sent = [];
  answered = [];
  stale_steps = 0;
}

abbrev block : ℕ → Bool → MemoryBlock
block offset is_pending = record {
  file_name = "a";
  offset = offset;
  block_size = 1024;
  is_pending = is_pending;
}

-- Two blocks are held, and a third is written: the last leaves.
abbrev two_blocks : BlockModel
two_blocks = memory 2 (block 0 true ∷ block 1024 false ∷ []) (sub sm_write_file 2048 ∷ [])

process_sub_requests-Used_example :
    (t : BlockModel) × (process_sub_requests two_blocks ≡ ok t)
    × Used two_blocks (sub sm_write_file 2048) [] t
unfolding search_memory_block search_block is_requested same_name is_saturated is_memory_full
    all_blocks_pending word
process_sub_requests-Used_example =
    process_sub_requests-Used two_blocks (sub sm_write_file 2048) [] refl refl
      (record { some_blocks = omega arith; bounded = omega arith })
      (record { positive = omega arith; within = omega arith; below = omega arith }) refl refl

process_sub_requests-no_room_example :
    process_sub_requests (memory 0 [] (sub sm_read_file 0 ∷ [])) ≡ throw empty_list
process_sub_requests-no_room_example =
    process_sub_requests-no_room (memory 0 [] (sub sm_read_file 0 ∷ [])) (sub sm_read_file 0) []
      refl refl refl refl

abbrev events : List Event
events =
    request (sub sm_write_file 0 ∷ sub sm_read_file 1024 ∷ [])
    ∷ search (sub sm_write_file 0)
    ∷ latency
    ∷ response true (sub sm_write_file 0)
    ∷ flush
    ∷ []

-- A write after the simulated time has reached its end.
abbrev last_events : List Event
last_events = request (sub sm_write_file 0 ∷ []) ∷ latency ∷ flush ∷ []
