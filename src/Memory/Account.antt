-- ===== src/Memory/Account.antt =====
-- The account of the memory that applications take, in RAMmemory (RAMmemory/RAMmemory.cc) and in
-- RAMMemory_BlockModel (RAMMemory_BlockModel/RAMMemory_BlockModel.cc). Counters are 32-bit patterns.
pub mod Balance
pub mod Tests
use docker_sim.Prelude.{
  ℕ, ◌+◌, ◌-◌, ◌*◌, ◌/◌, ◌%◌, Bool, true, false, Option, none, some, ltb, leb, ◌==◌, if◌then◌else◌,
  word, ◌||◌,
}

pub record Account : Type 0 where
  pub block_size_kb : ℕ
  pub total_blocks : ℕ
  pub total_app_blocks : ℕ
  pub free_app_blocks : ℕ

-- The result of a memory message.
pub data Answer : Type 0 where
  icancloud_ok not_enough_memory : Answer

-- `initialize` of RAMmemory; `none` is the error of a wrong size.
unfoldable pub initialize : ℕ → ℕ → Option Account
initialize size_mb block_size_kb =
    if (block_size_kb == 0) || (size_mb == 0)
    then none
    else some (record {
      block_size_kb = block_size_kb;
      total_blocks = word (size_mb * 1000) / block_size_kb;
      total_app_blocks = 0;
      free_app_blocks = word (size_mb * 1000) / block_size_kb;
    })

-- `ceil` is applied to a quotient of two `unsigned int`s.
unfoldable pub required_blocks : ℕ → Account → ℕ
required_blocks mem_size a = mem_size / a.block_size_kb

unfoldable pub allocate : ℕ → Account → Answer × Account
allocate mem_size a =
    if leb (required_blocks mem_size a) a.free_app_blocks
    then (
      icancloud_ok,
      record a { free_app_blocks = a.free_app_blocks - required_blocks mem_size a },
    )
    else (not_enough_memory, a)

-- Release in RAMmemory, and in RAMMemory_BlockModel, which has no bound.
unfoldable pub release : ℕ → Account → Account
release mem_size a =
    let sum = word (a.free_app_blocks + required_blocks mem_size a) in
    record a { free_app_blocks = if ltb a.total_blocks sum then a.total_blocks else sum }

unfoldable pub release_unbounded : ℕ → Account → Account
release_unbounded mem_size a = record a {
  free_app_blocks = word (a.free_app_blocks + required_blocks mem_size a);
}

-- `changeDeviceState` to the state off.
unfoldable pub switch_off : Account → Account
switch_off a = record a { total_app_blocks = 0; free_app_blocks = a.total_blocks }
