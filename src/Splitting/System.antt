-- ===== src/Splitting/System.antt =====
-- SplittingMessageSystem (Base/Messages/SMS/SplittingMessageSystem.cc): the requests in flight, by
-- the address of the parent request. `deleted` records each `delete` of a message, newest first.
pub mod Find
pub mod Arrival
pub mod Tests
use docker_sim.Prelude.{
  ℕ, zero, suc, Bool, true, false, Option, none, some, List, [], ◌∷◌, ◌++◌, length, get_elem?, set,
  ◌==◌, if◌then◌else◌,
}
use docker_sim.Splitting.Message.{
  Result, ok, throw, request_not_found, ◌>>=◌, Pointer, Store, Message, check_and_cast,
}
use docker_sim.Splitting.Request
use docker_sim.Splitting.Request.{Request, new_request}

pub record System : Type 0 where
  pub request_vector : List Request
  pub deleted : List Pointer

unfoldable pub is_parent : Pointer → Request → Bool
is_parent p r = elim r.parent_request [ none ↦ false | some q ↦ q == p ]

-- `searchRequest`: the index of the first request with this parent; `none` is NOT_FOUND.
unfoldable pub search_request : Pointer → List Request → Option ℕ
search_request p [] = none
search_request p (r ∷ rs) =
    if is_parent p r
    then some 0
    else elim (search_request p rs) [ none ↦ none | some i ↦ some (suc i) ]

-- `requestVector[index]` of the index found, or the error of a request that is not there.
unfoldable pub located : Pointer → System → Result (ℕ × Request)
located p s = elim (search_request p s.request_vector) [
  | none ↦ throw request_not_found
  | some i ↦ elim (get_elem? s.request_vector i) [
    | none ↦ throw request_not_found
    | some r ↦ ok (i, r)
  ]
]

unfoldable pub get_number_of_sub_request : Pointer → System → Result ℕ
get_number_of_sub_request p s = do (i, r) ← located p s; ok (Request.get_num_sub_request r)

unfoldable pub arrives_all_sub_request : Pointer → System → Result Bool
arrives_all_sub_request p s = do (i, r) ← located p s; ok (Request.arrives_all_sub_request r)

unfoldable pub add_request : Pointer → ℕ → System → System
add_request p num_sub_requests s = record s {
  request_vector = s.request_vector ++ new_request p num_sub_requests ∷ [];
}

-- `requestVector.erase (begin + index)`.
unfoldable pub erase_at : ℕ → List Request → List Request
erase_at i [] = []
erase_at zero (r ∷ rs) = rs
erase_at (suc i) (r ∷ rs) = r ∷ erase_at i rs

unfoldable pub remove_request : Pointer → System → Result System
remove_request p s = do
  (i, r) ← located p s
  ok (record {
    request_vector = erase_at i s.request_vector;
    deleted = (Request.clear_sub_requests r).0 ++ s.deleted;
  })

unfoldable pub set_sub_request : Pointer → Option Pointer → ℕ → System → Result System
set_sub_request p sub sub_req_index s = do
  (i, r) ← located p s
  r' ← Request.set_sub_request sub sub_req_index r
  ok (record s { request_vector = set s.request_vector i r' })

-- A request that is not there gives NULL here.
unfoldable pub pop_sub_request : Store → Pointer → ℕ → System → Result (Option Pointer × System)
pop_sub_request store p sub_request_index s = elim (located p s) [
  | throw e ↦ ok (none, s)
  | ok (i, r) ↦ do
    (sub, r') ← Request.pop_sub_request store sub_request_index r
    ok (sub, record s { request_vector = set s.request_vector i r' })
]

unfoldable pub pop_next_sub_request : Store → Pointer → System → Result (Option Pointer)
pop_next_sub_request store p s = elim (located p s) [
  | throw e ↦ ok none
  | ok (i, r) ↦ Request.pop_next_sub_request store r
]

-- The message is cast, put in the slot that its own trace names, and then deleted.
unfoldable pub arrives_sub_request : Store → Pointer → Pointer → System → Result System
arrives_sub_request store sub p s = do
  m ← check_and_cast store sub
  (i, r) ← located p s
  r' ← Request.arrives_sub_request sub m.current_request r
  ok (record { request_vector = set s.request_vector i r'; deleted = sub ∷ s.deleted })

unfoldable pub get_number_of_requests : System → ℕ
get_number_of_requests s = length s.request_vector
