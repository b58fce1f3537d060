-- ===== src/Splitting/Nfs/Tests.antt =====
-- The theorem on NFS requests at a concrete write.
use docker_sim.Prelude.{ℕ, ◌≡◌, refl, inr, false, none, some, List, [], length, negsuc, arith}
use docker_sim.Splitting.Message.{ok, IoMessage}
use docker_sim.Splitting.Nfs.{split_request}
use docker_sim.Splitting.Nfs.Cover.{SharesCover, split_request-SharesCover}

abbrev ten_bytes : IoMessage
ten_bytes = record {
  file_name = "data";
  operation = 13;
  is_response = false;
  offset = 100;
  size = 10;
  byte_length = 1;
  connection_id = negsuc 0;
  comm_id = negsuc 0;
  nfs_connection_id = negsuc 0;
  parent_request = none;
  requests = some [];
}

split_request-SharesCover_example :
    (n : ℕ) × (ss : List (IoMessage × ℕ)) × (split_request 4 5 ten_bytes ≡ ok (n, ss))
    × SharesCover 4 100 110 ss
    × (length ss ≡ n)
split_request-SharesCover_example =
    split_request-SharesCover 4 5 ten_bytes (inr refl) ([], refl) (omega arith) (omega arith)
