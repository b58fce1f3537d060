-- ===== src/Splitting/Message.antt =====
-- Messages as the splitting systems see them (Base/Messages/icancloud_Message). A message is named
-- by its address; what stands there is read from a store, and an address that holds no
-- `icancloud_Message` makes `check_and_cast` throw.
use Prim.Native.String.{String}
use docker_sim.Prelude.{
  ℕ, ◌+◌, ◌≡◌, ◌⊎◌, inl, inr, Bool, ◌||◌, Option, none, some, List, [], ◌∷◌, ◌++◌, ℤ, ◌==◌,
  if◌then◌else◌,
}

pub data Error : Type 0 where
  index_out_of_bounds request_not_found bad_cast wrong_operation division_by_zero trace_is_empty :
      Error

pub data Result {ℓ} (A : Type ℓ) : Type ℓ where
  ok : A → Result A
  throw : Error → Result A

infixl 5 ◌>>=◌
abbrev pub ◌>>=◌ {ℓ κ} : {A : Type ℓ} {B : Type κ} → Result A → (A → Result B) → Result B
ok a >>= f = f a
throw e >>= f = throw e

abbrev pub Pointer : Type 0
Pointer = ℕ

-- A message in the store has a trace, whose last number is `current_request`.
pub record Message : Type 0 where
  pub is_response : Bool
  pub current_request : ℕ

abbrev pub Store : Type 0
Store = Pointer → Option Message

-- `check_and_cast<icancloud_Message *>`.
unfoldable pub check_and_cast : Store → Pointer → Result Message
check_and_cast store p = elim (store p) [ some m ↦ ok m | none ↦ throw bad_cast ]

-- Operations of a file request.
abbrev pub sm_open_file : ℕ
sm_open_file = 10

abbrev pub sm_close_file : ℕ
sm_close_file = 11

abbrev pub sm_read_file : ℕ
sm_read_file = 12

abbrev pub sm_write_file : ℕ
sm_write_file = 13

abbrev pub sm_create_file : ℕ
sm_create_file = 14

abbrev pub sm_delete_file : ℕ
sm_delete_file = 15

abbrev pub msg_initial_length : ℕ
msg_initial_length = 1

-- The fields of icancloud_App_IO_Message that the splitting systems read or set. `dup` copies all
-- of them. `requests` is the request sequence of the last module in the trace, `none` for an empty
-- trace.
pub record IoMessage : Type 0 where
  pub file_name : String
  pub operation : ℕ
  pub is_response : Bool
  pub offset : ℕ
  pub size : ℕ
  pub byte_length : ℕ
  pub connection_id : ℤ
  pub comm_id : ℤ
  pub nfs_connection_id : ℤ
  pub parent_request : Option Pointer
  pub requests : Option (List ℕ)

unfoldable pub add_request_to_trace : ℕ → IoMessage → Result IoMessage
add_request_to_trace request m = elim m.requests [
  | none ↦ throw trace_is_empty
  | some rs ↦ ok (record m { requests = some (rs ++ request ∷ []) })
]

-- The operations whose length is that of the header alone, whatever the direction.
unfoldable pub is_header_operation : ℕ → Bool
is_header_operation op =
    op == sm_open_file || (op == sm_close_file || (op == sm_create_file || op == sm_delete_file))

-- `updateLength`. The code of SM_SET_IOR, a request only, is `sm_set_ior`.
abbrev pub sm_set_ior : ℕ
sm_set_ior = 411

unfoldable pub update_length : IoMessage → Result IoMessage
unfolding is_header_operation
update_length m =
    if m.operation == sm_read_file
    then ok (record m {
      byte_length = if m.is_response then msg_initial_length + m.size else msg_initial_length;
    })
    else if m.operation == sm_write_file
    then ok (record m {
      byte_length = if m.is_response then msg_initial_length else msg_initial_length + m.size;
    })
    else if is_header_operation m.operation
    then ok (record m { byte_length = msg_initial_length })
    else if m.is_response
    then throw wrong_operation
    else if m.operation == sm_set_ior
    then ok (record m { byte_length = msg_initial_length })
    else throw wrong_operation

-- A read or a write.
abbrev pub IsTransfer : IoMessage → Type 0
IsTransfer m = (m.operation ≡ sm_read_file) ⊎ (m.operation ≡ sm_write_file)

-- The length of a transfer can be updated, and nothing but the length changes.
pub update_length_transfer :
    (m : IoMessage) → IsTransfer m → (n : ℕ) × (update_length m ≡ ok (record m { byte_length = n }))
unfolding update_length
update_length_transfer m (inl e) =
    (if m.is_response then msg_initial_length + m.size else msg_initial_length, rw e)
update_length_transfer m (inr e) =
    (if m.is_response then msg_initial_length else msg_initial_length + m.size, rw e)

-- A message that has a trace, as every message has that a module has sent.
abbrev pub IsTraced : IoMessage → Type 0
IsTraced m = (rs : List ℕ) × (m.requests ≡ some rs)

-- A number is added to a trace, and nothing else changes.
pub add_request_to_trace_traced :
    (request : ℕ) (m : IoMessage)
    → IsTraced m
    → (rs : List ℕ) × (add_request_to_trace request m ≡ ok (record m { requests = some rs }))
unfolding add_request_to_trace
add_request_to_trace_traced request m (rs, e) = (rs ++ request ∷ [], rw e)
