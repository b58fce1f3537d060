-- ===== src/Management/Requests.antt =====
-- RequestsManagement (Management/DataCenterManagement/Base/RequestsManagement.cc): the queue of
-- requests, and the one that takes their place while a scheduler works.
pub mod Arrival
pub mod Index
pub mod Tests
use docker_sim.Prelude.{
  ℕ, zero, suc, ◌+◌, Bool, true, false, ◌||◌, Option, none, some, List, [], ◌∷◌, ◌++◌, length,
  get_elem?, ltb, ◌==◌, if◌then◌else◌,
}

-- What is read of an AbstractRequest, with its identity. `is_storage` tells whether its operation
-- is REQUEST_STORAGE or CONTAINER_REQUEST_STORAGE.
pub record CloudRequest : Type 0 where
  pub id : ℕ
  pub uid : ℕ
  pub is_storage : Bool
  pub times_enqueue : ℕ

pub record Requests : Type 0 where
  pub scheduler_queue_blocked : Bool
  pub requests_queue : List CloudRequest
  pub temporal_requests_queue : List CloudRequest
  pub executing_requests : List CloudRequest

abbrev pub initialize : Requests
initialize = record {
  scheduler_queue_blocked = false;
  requests_queue = [];
  temporal_requests_queue = [];
  executing_requests = [];
}

-- The loop moves the temporal requests, first to last.
unfoldable pub block_arrival_requests : Bool → Requests → Requests
block_arrival_requests true s = record s { scheduler_queue_blocked = true }
block_arrival_requests false s = record s {
  scheduler_queue_blocked = false;
  requests_queue = s.requests_queue ++ s.temporal_requests_queue;
  temporal_requests_queue = [];
}

unfoldable pub scheduler_block : Requests → Bool × Requests
unfolding block_arrival_requests
scheduler_block s =
    if s.scheduler_queue_blocked
    then (false, s)
    else (true, record (block_arrival_requests true s) { scheduler_queue_blocked = true })

unfoldable pub scheduler_unblock : Requests → Bool × Requests
unfolding block_arrival_requests
scheduler_unblock s =
    (true, block_arrival_requests false (record s { scheduler_queue_blocked = false }))

-- `user_request` has the same body.
unfoldable pub user_send_request : CloudRequest → Requests → Requests
user_send_request r s =
    if s.scheduler_queue_blocked
    then record s { temporal_requests_queue = s.temporal_requests_queue ++ r ∷ [] }
    else record s { requests_queue = s.requests_queue ++ r ∷ [] }

unfoldable pub insert_at : ℕ → CloudRequest → List CloudRequest → List CloudRequest
insert_at zero r rs = r ∷ rs
insert_at (suc i) r [] = r ∷ []
insert_at (suc i) r (x ∷ rs) = x ∷ insert_at i r rs

unfoldable pub erase_at : ℕ → List CloudRequest → List CloudRequest
erase_at i [] = []
erase_at zero (x ∷ rs) = rs
erase_at (suc i) (x ∷ rs) = x ∷ erase_at i rs

unfoldable pub reinsert_request : CloudRequest → ℕ → Requests → Requests
reinsert_request r index s =
    if ltb index (length s.requests_queue)
    then record s { requests_queue = insert_at index r s.requests_queue }
    else record s {
      requests_queue = s.requests_queue ++ record r { times_enqueue = r.times_enqueue + 1 } ∷ [];
    }

unfoldable pub of_user : ℕ → List CloudRequest → List CloudRequest
of_user uid [] = []
of_user uid (r ∷ rs) = let later = of_user uid rs in if r.uid == uid then r ∷ later else later

-- `found` is false from the start and nothing sets it.
unfoldable pub get_request_by_user_id : ℕ → Requests → List CloudRequest
get_request_by_user_id user_mod_id s =
    let found = false in
    let reqs = of_user user_mod_id s.requests_queue in if found then reqs else []

unfoldable pub get_request_by_index : ℕ → Requests → Option CloudRequest
get_request_by_index index s =
    if ltb index (length s.requests_queue) then get_elem? s.requests_queue index else none

unfoldable pub num_pending_requests : Requests → ℕ
num_pending_requests s = length s.requests_queue

-- `none` is the error of an index outside the queue.
unfoldable pub erase_request : ℕ → Requests → Option Requests
erase_request index s =
    if ltb index (length s.requests_queue)
    then some (record s { requests_queue = erase_at index s.requests_queue })
    else none

-- The erasure by comparison; `compare_req` is the virtual method of the request.
module _ (compare_req : CloudRequest → CloudRequest → Bool) where
  unfoldable pub erase_equal : CloudRequest → List CloudRequest → Option (List CloudRequest)
  erase_equal req [] = none
  erase_equal req (r ∷ rs) =
      let later = erase_equal req rs in
      if compare_req req r
      then some rs
      else elim later [ none ↦ none | some left ↦ some (r ∷ left) ]

  unfoldable pub erase_request_by : CloudRequest → Requests → Requests
  unfolding erase_equal
  erase_request_by req s = elim (erase_equal req s.requests_queue) [
    | none ↦ s
    | some left ↦ record s {
      requests_queue = left;
      executing_requests =
          if req.is_storage then s.executing_requests ++ req ∷ [] else s.executing_requests;
    }
  ]
