-- ===== src/Splitting/MainMemory/Tests.antt =====
-- The theorems on the memory's requests at concrete requests.
use docker_sim.Prelude.{
  ℕ, ◌+◌, ◌*◌, ◌≤◌, ◌<◌, ◌≡◌, refl, false, none, some, List, [], length, All, negsuc, arith,
}
use docker_sim.Splitting.Message.{ok, IoMessage}
use docker_sim.Splitting.Pieces.{Covers, InBlock}
use docker_sim.Splitting.System.{add_request}
use docker_sim.Splitting.MainMemory.{MainMemory, split_request}
use docker_sim.Splitting.MainMemory.Write.{split_request-Covers_write}
use docker_sim.Splitting.MainMemory.Read.{ReadsBlocks, split_request-ReadsBlocks}

abbrev memory : MainMemory
memory = record {
  memory_size = 64;
  read_ahead_blocks = 2;
  memory_block_size = 4;
  system = record { request_vector = []; deleted = [] };
  sub_requests = [];
}

abbrev ten_bytes : ℕ → IoMessage
ten_bytes operation = record {
  file_name = "data";
  operation = operation;
  is_response = false;
  offset = 6;
  size = 10;
  byte_length = 1;
  connection_id = negsuc 0;
  comm_id = negsuc 0;
  nfs_connection_id = negsuc 0;
  parent_request = none;
  requests = some [];
}

split_request-Covers_write_example :
    (m' : MainMemory) × (ss : List IoMessage) × (split_request memory 5 (ten_bytes 13) ≡ ok m')
    × (m'.sub_requests ≡ ss)
    × Covers 6 16 ss
    × All (InBlock 4) ss
    × (m'.system ≡ add_request 5 (length ss) memory.system)
split_request-Covers_write_example =
    split_request-Covers_write memory 5 (ten_bytes 13) (omega arith) (omega arith) refl ([], refl)
      (omega arith) (omega arith)

split_request-ReadsBlocks_example :
    (needed : ℕ) × (m' : MainMemory) × (ss : List IoMessage) × ReadsBlocks memory 5
      (ten_bytes 12)
      needed
      m'
      ss
    × (16 ≤ 4 + needed * 4)
    × (4 + needed * 4 < 20)
split_request-ReadsBlocks_example =
    split_request-ReadsBlocks memory 5 (ten_bytes 12) (omega arith) refl ([], refl) (omega arith)
      (omega arith)
