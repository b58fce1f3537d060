-- ===== src/Memory/BlockModel.antt =====
-- RAMMemory_BlockModel (RAMMemory_BlockModel.cc): subrequests against the cache of blocks, and the
-- queue of writes to flush. `sub_requests` is the queue of its splitting system, `sent` and
-- `answered` log, oldest first, what goes to the I/O redirector and what is handed to
-- `arrivesSubRequest`: what that does with it is no part of the model, and so is its read of the
-- result of a message that the splitting system has deleted. A timer is whether its self message is
-- scheduled; `past_end` is whether the simulated time has reached 2999, and `no_flush_time` whether
-- the flush time is 0. No other request waits in the queue of icancloud_Base.
pub mod Lru
pub mod Recency
pub mod Use
pub mod Process
pub mod Events
pub mod Late
pub mod Run
pub mod Flush
pub mod Tests
use docker_sim.Prelude.{
  ℕ, zero, suc, ◌+◌, ◌*◌, ◌/◌, Bool, true, false, ◌&&◌, not, Option, none, some, List, [], ◌∷◌,
  ◌++◌, ltb, leb, ◌==◌, if◌then◌else◌, word, get_elem?,
}
use Prim.Native.String.{String}
use docker_sim.Splitting.Message.{IoMessage, sm_read_file}
use docker_sim.Memory.Blocks.{
  MemoryBlock, Result, ok, throw, ◌>>=◌, end_of_simulation, search_block, set_is_pending,
  re_insert_block, is_memory_full, all_blocks_pending, pop_back, insert_block,
}

pub record BlockModel : Type 0 where
  pub block_size_kb : ℕ
  pub total_cache_blocks : ℕ
  pub no_flush_time : Bool
  pub past_end : Bool
  pub memory_block_list : List MemoryBlock
  pub flush_queue : List IoMessage
  pub flush_scheduled : Bool
  pub latency_scheduled : Bool
  pub pending_message : Option IoMessage
  pub sub_requests : List IoMessage
  pub sent : List IoMessage
  pub answered : List IoMessage
  -- How often an iterator has been advanced from a block that had been erased.
  pub stale_steps : ℕ

-- `blockSize_KB*KB`.
abbrev pub block_bytes : BlockModel → ℕ
block_bytes s = word (s.block_size_kb * 1024)

unfoldable pub search_memory_block : String → ℕ → BlockModel → Option ℕ
search_memory_block file offset s =
    search_block (block_bytes s) file (offset / block_bytes s) s.memory_block_list

unfoldable pub flush_memory : BlockModel → Result BlockModel
flush_memory s =
    if s.past_end
    then throw end_of_simulation
    else ok (record s { sent = s.sent ++ s.flush_queue; flush_queue = [] })

unfoldable pub insert_request_on_flush_queue : IoMessage → BlockModel → Result BlockModel
insert_request_on_flush_queue sm s =
    let queued = record s { flush_queue = s.flush_queue ++ sm ∷ [] } in
    if is_memory_full s.total_cache_blocks s.memory_block_list
    then flush_memory (record queued { flush_scheduled = false })
    else ok (record queued { flush_scheduled = true })

-- The block at `i`, read through the pointer the search returned. It is found, erased and put in
-- front, and then the loop of `reInsertBlock` advances the iterator of the erased block once, which
-- reads freed memory; the loop ends at once whatever it reads.
unfoldable pub re_insert_at : ℕ → BlockModel → BlockModel
re_insert_at i s = elim (get_elem? s.memory_block_list i) [
  | none ↦ s
  | some b ↦ record s {
    memory_block_list = re_insert_block b s.memory_block_list;
    stale_steps = suc s.stale_steps;
  }
]

unfoldable pub is_pending_at : ℕ → BlockModel → Bool
is_pending_at i s = elim (get_elem? s.memory_block_list i) [ none ↦ false | some b ↦ b.is_pending ]

-- If the memory is full, a block leaves; the new one goes in front.
unfoldable pub cache_block : IoMessage → BlockModel → Result BlockModel
cache_block sm s = do
  left ←
      if is_memory_full s.total_cache_blocks s.memory_block_list
      then pop_back s.memory_block_list
      else ok s.memory_block_list
  bs ← insert_block (block_bytes s) sm.file_name sm.offset sm.size left
  ok (record s { memory_block_list = bs })

-- `arrivesSubRequest` of a message that is now a response, with the latency timer set.
unfoldable pub answer : IoMessage → BlockModel → BlockModel
answer sm s = record s {
  latency_scheduled = true;
  answered = s.answered ++ record sm { is_response = true } ∷ [];
}

unfoldable pub read_block : Option ℕ → IoMessage → BlockModel → Result BlockModel
read_block none sm s = do
  s' ← cache_block sm s
  ok (record s' { pending_message = some sm; latency_scheduled = true })
read_block (some i) sm s = ok (answer sm (if is_pending_at i s then s else re_insert_at i s))

unfoldable pub mark_at : ℕ → BlockModel → BlockModel
mark_at i s = record s { memory_block_list = set_is_pending true i s.memory_block_list }

-- A write to a block that is pending is dropped; another one waits for the flush.
unfoldable pub store_block : Option ℕ → IoMessage → BlockModel → Result BlockModel
store_block none sm s = do s' ← cache_block sm s; insert_request_on_flush_queue sm s'
store_block (some i) sm s =
    if is_pending_at i s
    then ok s
    else insert_request_on_flush_queue sm (re_insert_at i (mark_at i s))

unfoldable pub write_block : Option ℕ → IoMessage → BlockModel → Result BlockModel
write_block cached sm s = do
  s' ← store_block cached sm s
  if s.no_flush_time then flush_memory (answer sm s') else ok (answer sm s')

unfoldable pub use_memory : Option ℕ → IoMessage → BlockModel → Result BlockModel
use_memory cached sm s =
    if sm.operation == sm_read_file then read_block cached sm s else write_block cached sm s

unfoldable pub is_saturated : Option ℕ → BlockModel → Bool
is_saturated (some i) s = false
is_saturated none s =
    is_memory_full s.total_cache_blocks s.memory_block_list
    && all_blocks_pending s.memory_block_list

-- The loop that a saturated memory makes: the send goes on to the next subrequest.
unfoldable pub process_from : List IoMessage → BlockModel → Result BlockModel
process_from [] s = ok (record s { pending_message = none; sub_requests = [] })
process_from (sm ∷ rest) s =
    let cached = search_memory_block sm.file_name sm.offset s in
    let popped = record s { pending_message = none; sub_requests = rest } in
    let after = process_from rest (record popped { sent = s.sent ++ sm ∷ [] }) in
    if is_saturated cached s then after else use_memory cached sm popped

unfoldable pub process_sub_requests : BlockModel → Result BlockModel
process_sub_requests s = if s.latency_scheduled then ok s else process_from s.sub_requests s

-- The end of the search for a request: the request itself is sent, and the next subrequest follows.
unfoldable pub search_message : IoMessage → BlockModel → Result BlockModel
search_message sm s = process_sub_requests (record s { sent = s.sent ++ sm ∷ [] })

-- The latency message: what is pending is sent, and the next subrequest follows.
unfoldable pub latency_message : BlockModel → Result BlockModel
latency_message s = process_sub_requests (record s {
  latency_scheduled = false;
  sent = elim s.pending_message [ none ↦ s.sent | some sm ↦ s.sent ++ sm ∷ [] ];
})

unfoldable pub flush_message : BlockModel → Result BlockModel
flush_message s =
    let fired = record s { flush_scheduled = false } in
    elim s.flush_queue [ [] ↦ ok fired | sm ∷ sms ↦ flush_memory fired ]

-- The block that a response is for is no longer pending, and it has been used.
unfoldable pub settle : Option ℕ → BlockModel → BlockModel
settle none s = s
settle (some i) s =
    re_insert_at i (record s { memory_block_list = set_is_pending false i s.memory_block_list })

-- The response to a read or write; `completes` is whether its request is complete with it, so that
-- an answer is sent and the next subrequest follows.
unfoldable pub process_response_message : Bool → IoMessage → BlockModel → Result BlockModel
process_response_message completes sm s =
    let updated = settle (search_memory_block sm.file_name sm.offset s) s in
    let arrived = record updated { answered = s.answered ++ sm ∷ [] } in
    if completes then process_sub_requests arrived else ok arrived
