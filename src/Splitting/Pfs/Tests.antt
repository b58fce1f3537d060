-- ===== src/Splitting/Pfs/Tests.antt =====
-- The theorem on parallel file systems at a concrete request: 10 bytes in strides of 3 lose none
-- of the first 12; with strides of 2 the last two bytes are not requested.
use docker_sim.Prelude.{◌≤◌, ◌≡◌, refl, inr, false, none, some, [], length, All, negsuc, arith}
use docker_sim.Splitting.Message.{ok, IoMessage}
use docker_sim.Splitting.Pieces.{Covers}
use docker_sim.Splitting.Pfs.{Pfs, Split, split_request}
use docker_sim.Splitting.Pfs.Cover.{split_request-Covers}

abbrev ten_bytes : IoMessage
ten_bytes = record {
  file_name = "data";
  operation = 13;
  is_response = false;
  offset = 100;
  size = 10;
  byte_length = 10;
  connection_id = negsuc 0;
  comm_id = negsuc 0;
  nfs_connection_id = negsuc 0;
  parent_request = none;
  requests = some [];
}

abbrev narrow : Pfs
narrow = record { stride_size = 2; num_servers = 3; current_comm_id = 0 }

split_request-Covers_example :
    (split : Split) × (split_request narrow 5 ten_bytes ≡ ok split)
    × Covers 100 108 split.sub_requests
    × All (λ s. s.size ≤ 2) split.sub_requests
    × (length split.sub_requests ≡ 4)
    × (split.registered ≡ 4)
    × (split.linked ≡ 4)
split_request-Covers_example =
    split_request-Covers narrow 5 ten_bytes (inr refl) ([], refl) (omega arith) (omega arith)
      (omega arith)
