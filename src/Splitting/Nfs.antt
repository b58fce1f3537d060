-- ===== src/Splitting/Nfs.antt =====
-- SMS_NFS (Base/Messages/SMS/SMS_NFS.cc): transfers cut into requests of at most `requestSizeNFS`
-- bytes, which stand in the slots of the request; other operations are not cut. Sizes and the limit
-- are `int`s that are not negative; sums are computed on 32-bit patterns. A subrequest keeps the size field of the request; its share of the bytes is
-- in its offset and, for a write, in its length.
pub mod Cover
pub mod Tests
use docker_sim.Prelude.{
  ℕ, zero, suc, ◌+◌, ◌*◌, ◌/◌, ◌%◌, Bool, true, false, ◌||◌, Option, none, some, List, [], ◌∷◌,
  ◌++◌, leb, ◌==◌, if◌then◌else◌, word, sub_word, rounds,
}
use docker_sim.Splitting.Message.{
  Result, ok, throw, division_by_zero, ◌>>=◌, Pointer, IoMessage, add_request_to_trace,
  sm_read_file, sm_write_file, sm_create_file, sm_delete_file, sm_open_file, sm_close_file,
}

abbrev pub sm_nfs2_open_request : ℕ
sm_nfs2_open_request = 36

abbrev pub sm_nfs2_close_request : ℕ
sm_nfs2_close_request = 36

abbrev pub sm_nfs2_read_request : ℕ
sm_nfs2_read_request = 44

abbrev pub sm_nfs2_write_request : ℕ
sm_nfs2_write_request = 52

abbrev pub sm_nfs2_create_request : ℕ
sm_nfs2_create_request = 68

abbrev pub sm_nfs2_delete_request : ℕ
sm_nfs2_delete_request = 36

-- The constructor: kilobytes to bytes.
unfoldable pub request_size_nfs : ℕ → ℕ
request_size_nfs request_size_kb = word (request_size_kb * 1024)

unfoldable pub is_transfer : ℕ → Bool
is_transfer op = op == sm_read_file || op == sm_write_file

-- The number of subrequests of a transfer: the size divided by the limit, rounded up.
unfoldable pub num_transfers : ℕ → ℕ → ℕ
num_transfers request_size limit =
    if (request_size % limit) == 0 then request_size / limit else request_size / limit + 1

-- The share of one subrequest, from the bytes that the earlier ones took.
unfoldable pub share : ℕ → ℕ → ℕ → ℕ
share request_size limit current_size =
    if leb limit (sub_word request_size current_size)
    then limit
    else sub_word request_size current_size

-- The copy that is sent for a share of a transfer.
unfoldable pub transfer : IoMessage → Pointer → ℕ → ℕ → ℕ → Result IoMessage
unfolding add_request_to_trace
transfer sm_io msg number offset size = add_request_to_trace number (record sm_io {
  parent_request = some msg;
  offset = offset;
  byte_length =
      if sm_io.operation == sm_read_file
      then sm_nfs2_read_request
      else sm_nfs2_write_request + size;
})

-- The loop over the subrequests of a transfer: each with the share of the bytes that it stands for.
unfoldable pub transfers : ℕ → IoMessage → Pointer → ℕ → ℕ → ℕ → ℕ → Result (List (IoMessage × ℕ))
transfers zero sm_io msg limit number current_offset current_size = ok []
transfers (suc left) sm_io msg limit number current_offset current_size =
    let size = share sm_io.size limit current_size in
    let rest =
      transfers left sm_io msg limit (number + 1) (word (current_offset + size))
        (word (current_size + size)) in
    do s ← transfer sm_io msg number current_offset size; ss ← rest; ok ((s, size) ∷ ss)

unfoldable pub whole_length : ℕ → Option ℕ
whole_length op =
    if op == sm_create_file
    then some sm_nfs2_create_request
    else if op == sm_delete_file
    then some sm_nfs2_delete_request
    else if op == sm_open_file
    then some sm_nfs2_open_request
    else if op == sm_close_file
    then some sm_nfs2_close_request
    else none

-- The copy that is sent for an operation that is not cut.
unfoldable pub whole : IoMessage → Pointer → Result (List (IoMessage × ℕ))
unfolding whole_length add_request_to_trace
whole sm_io msg = elim (whole_length sm_io.operation) [
  | none ↦ ok []
  | some n ↦ do
    s ← add_request_to_trace 0 (record sm_io { parent_request = some msg; byte_length = n })
    ok ((s, 0) ∷ [])
]

-- `splitRequest`, which divides by the limit to cut a transfer: the number of slots that are registered, and the subrequests put in the slots
-- from the first on, each with its share of the bytes.
unfoldable pub split_request : ℕ → Pointer → IoMessage → Result (ℕ × List (IoMessage × ℕ))
unfolding is_transfer
split_request limit msg sm_io =
    if is_transfer sm_io.operation
    then if limit == 0
      then throw division_by_zero
      else transfers (rounds (num_transfers sm_io.size limit)) sm_io msg limit 0 sm_io.offset 0
        >>= (λ ss. ok (num_transfers sm_io.size limit, ss))
    else whole sm_io msg >>= (λ ss. ok (1, ss))
