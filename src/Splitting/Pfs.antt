-- ===== src/Splitting/Pfs.antt =====
-- SMS_PFS (Base/Messages/SMS/SMS_PFS.cc): requests of a parallel file system, spread over its
-- servers. Metadata operations go to every server; a transfer is cut into strides.
pub mod Cover
pub mod Tests
use docker_sim.Prelude.{
  ℕ, zero, suc, ◌+◌, ◌*◌, ◌%◌, Bool, true, false, ◌||◌, Option, none, some, List, [], ◌∷◌, ◌++◌, ℤ,
  pos, leb, ◌==◌, if◌then◌else◌, word, sub_word,
}
use docker_sim.Splitting.Message.{
  Result, ok, throw, division_by_zero, ◌>>=◌, Pointer, IoMessage, add_request_to_trace,
  update_length, sm_read_file, sm_write_file, sm_create_file, sm_delete_file, sm_open_file,
}

pub record Pfs : Type 0 where
  pub stride_size : ℕ
  pub num_servers : ℕ
  pub current_comm_id : ℕ

-- The constructor: kilobytes to bytes.
unfoldable pub new_pfs : ℕ → ℕ → Pfs
new_pfs stride_size_kb num_servers = record {
  stride_size = word (stride_size_kb * 1024);
  num_servers = num_servers;
  current_comm_id = 0;
}

abbrev pub meta_data_kb : ℕ
meta_data_kb = 1

-- A copy for server `i`, with its parent, number and length.
unfoldable pub for_server : Pfs → IoMessage → Pointer → ℕ → ℕ → Result IoMessage
unfolding add_request_to_trace
for_server p sm_io msg i number = do
  m ← update_length (record sm_io {
    parent_request = some msg;
    connection_id = pos i;
    nfs_connection_id = pos p.current_comm_id;
  })
  add_request_to_trace number m

-- The request for the metadata of a file.
unfoldable pub meta_data : IoMessage → ℕ → IoMessage
meta_data sm_io operation = record sm_io {
  offset = 0;
  size = meta_data_kb * 1024;
  operation = operation;
}

-- An open reads the metadata on each server.
unfoldable pub opens : ℕ → Pfs → IoMessage → Pointer → ℕ → Result (List IoMessage)
opens zero p sm_io msg i = ok []
opens (suc left) p sm_io msg i =
    let rest = opens left p sm_io msg (i + 1) in
    do s ← for_server p (meta_data sm_io sm_read_file) msg i i; ss ← rest; ok (s ∷ ss)

-- A create creates the file and writes its metadata on each server.
unfoldable pub creates : ℕ → Pfs → IoMessage → Pointer → ℕ → Result (List IoMessage)
creates zero p sm_io msg i = ok []
creates (suc left) p sm_io msg i =
    let rest = creates left p sm_io msg (i + 1) in
    do
      c ← for_server p sm_io msg i i
      s ← for_server p (meta_data sm_io sm_write_file) msg i (word (i + p.num_servers))
      ss ← rest
      ok (c ∷ s ∷ ss)

unfoldable pub deletes : ℕ → Pfs → IoMessage → Pointer → ℕ → Result (List IoMessage)
deletes zero p sm_io msg i = ok []
deletes (suc left) p sm_io msg i =
    let rest = deletes left p sm_io msg (i + 1) in
    do s ← for_server p sm_io msg i i; ss ← rest; ok (s ∷ ss)

unfoldable pub stride : ℕ → ℕ → ℕ
stride request_size stride_size = if leb stride_size request_size then stride_size else request_size

-- One subrequest of a transfer. Its server is a remainder by the number of servers.
unfoldable pub stride_request : Pfs → IoMessage → Pointer → ℕ → ℕ → ℕ → Result IoMessage
unfolding add_request_to_trace
stride_request p sm_io msg i offset size = if p.num_servers == 0 then throw division_by_zero else do
  m ← update_length (record sm_io {
    parent_request = some msg;
    offset = offset;
    size = size;
    connection_id = pos (i % p.num_servers);
    comm_id = pos (i % p.num_servers);
    nfs_connection_id = pos (i % p.num_servers);
  })
  add_request_to_trace i m

unfoldable pub strides : ℕ → Pfs → IoMessage → Pointer → ℕ → ℕ → ℕ → Result (List IoMessage)
strides zero p sm_io msg i offset request_size = ok []
strides (suc left) p sm_io msg i offset request_size =
    let size = stride request_size p.stride_size in
    let rest =
      strides left p sm_io msg (i + 1) (word (offset + size)) (sub_word request_size size) in
    do s ← stride_request p sm_io msg i offset size; ss ← rest; ok (s ∷ ss)

-- What `splitRequest` does: the slots that it registers, the slots that it links, from the first
-- on, and the subrequests that it appends to its list.
pub record Split : Type 0 where
  pub registered : ℕ
  pub linked : ℕ
  pub sub_requests : List IoMessage

-- The number of subrequests of a transfer: computed from the size, and then overwritten.
abbrev pub number_of_sub_request : ℕ
number_of_sub_request = 4

unfoldable pub split_open : Pfs → Pointer → IoMessage → Result Split
split_open p msg sm_io = do
  ss ← opens p.num_servers p sm_io msg 0
  ok (record { registered = p.num_servers; linked = 0; sub_requests = ss })

unfoldable pub split_create : Pfs → Pointer → IoMessage → Result Split
split_create p msg sm_io = do
  ss ← creates p.num_servers p sm_io msg 0
  ok (record { registered = word (2 * p.num_servers); linked = 0; sub_requests = ss })

unfoldable pub split_delete : Pfs → Pointer → IoMessage → Result Split
split_delete p msg sm_io = do
  ss ← deletes p.num_servers p sm_io msg 0
  ok (record { registered = p.num_servers; linked = p.num_servers; sub_requests = ss })

-- The size of a transfer is its byte length, cut to 32 bits. The number of subrequests is divided by
-- the stride size before it is overwritten.
unfoldable pub split_transfer : Pfs → Pointer → IoMessage → Result Split
split_transfer p msg sm_io = if p.stride_size == 0 then throw division_by_zero else do
  ss ← strides number_of_sub_request p sm_io msg 0 sm_io.offset (word sm_io.byte_length)
  ok (record {
    registered = number_of_sub_request;
    linked = number_of_sub_request;
    sub_requests = ss;
  })

unfoldable pub split_request : Pfs → Pointer → IoMessage → Result Split
split_request p msg sm_io =
    if sm_io.operation == sm_open_file
    then split_open p msg sm_io
    else if sm_io.operation == sm_create_file
    then split_create p msg sm_io
    else if sm_io.operation == sm_delete_file
    then split_delete p msg sm_io
    else if sm_io.operation == sm_read_file || sm_io.operation == sm_write_file
    then split_transfer p msg sm_io
    else ok (record { registered = 0; linked = 0; sub_requests = [] })
