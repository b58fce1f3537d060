-- ===== src/Splitting/Request.antt =====
-- icancloud_Request (Base/Messages/SMS/icancloud_Request.cc): a parent request and a slot for each
-- of its subrequests. `none` is NULL. Counters are 32 bits wide.
use docker_sim.Prelude.{
  ℕ, ◌+◌, word, Bool, Option, none, some, List, [], ◌∷◌, ◌++◌, length, get_elem?, set, replicate,
  ◌==◌, if◌then◌else◌, ltb,
}
use docker_sim.Splitting.Message.{
  Result, ok, throw, index_out_of_bounds, ◌>>=◌, Pointer, Store, check_and_cast,
}

pub record Request : Type 0 where
  pub parent_request : Option Pointer
  pub sub_requests : List (Option Pointer)
  pub arrived_sub_requests : ℕ

unfoldable pub new_request : Pointer → ℕ → Request
new_request new_parent num_sub_req = record {
  parent_request = some new_parent;
  sub_requests = replicate num_sub_req none;
  arrived_sub_requests = 0;
}

unfoldable pub get_num_sub_request : Request → ℕ
get_num_sub_request r = length r.sub_requests

unfoldable pub set_sub_request : Option Pointer → ℕ → Request → Result Request
set_sub_request sub index r =
    if ltb index (length r.sub_requests)
    then ok (record r { sub_requests = set r.sub_requests index sub })
    else throw index_out_of_bounds

unfoldable pub add_sub_request : Option Pointer → Request → Request
add_sub_request sub r = record r { sub_requests = r.sub_requests ++ sub ∷ [] }

-- `subRequests[index]`, where the index is in bounds.
unfoldable pub slot_at : List (Option Pointer) → ℕ → Option Pointer
slot_at slots index = elim (get_elem? slots index) [ some slot ↦ slot | none ↦ none ]

unfoldable pub get_sub_request : Store → ℕ → Request → Result (Option Pointer)
get_sub_request store index r =
    if ltb index (length r.sub_requests)
    then elim (slot_at r.sub_requests index) [
      | none ↦ ok none
      | some p ↦ do _ ← check_and_cast store p; ok (some p)
    ]
    else throw index_out_of_bounds

unfoldable pub pop_sub_request : Store → ℕ → Request → Result (Option Pointer × Request)
pop_sub_request store index r =
    if ltb index (length r.sub_requests)
    then elim (slot_at r.sub_requests index) [
      | none ↦ ok (none, r)
      | some p ↦ do
        _ ← check_and_cast store p
        ok (some p, record r { sub_requests = set r.sub_requests index none })
    ]
    else throw index_out_of_bounds

-- The search of `popNextSubRequest`: it stops at a subrequest that is no response, and keeps the
-- last one that it has cast. Nothing is removed.
unfoldable pub next_from : Store → Option Pointer → List (Option Pointer) → Result (Option Pointer)
next_from store last [] = ok last
next_from store last (none ∷ slots) = next_from store last slots
next_from store last (some p ∷ slots) =
    let later = next_from store (some p) slots in
    do m ← check_and_cast store p; if m.is_response then later else ok (some p)

unfoldable pub pop_next_sub_request : Store → Request → Result (Option Pointer)
pop_next_sub_request store r = next_from store none r.sub_requests

unfoldable pub arrives_all_sub_request : Request → Bool
arrives_all_sub_request r = r.arrived_sub_requests == length r.sub_requests

-- An arrival fills an empty slot and clears a full one; it is counted in both cases.
unfoldable pub arrives_sub_request : Pointer → ℕ → Request → Result Request
unfolding slot_at
arrives_sub_request sub index r =
    if ltb index (length r.sub_requests)
    then ok (record r {
      sub_requests =
          set r.sub_requests index
            (elim (slot_at r.sub_requests index) [ none ↦ some sub | some _ ↦ none ]);
      arrived_sub_requests = word (r.arrived_sub_requests + 1);
    })
    else throw index_out_of_bounds

-- The messages in the slots, which `clearSubRequests` deletes.
unfoldable pub present : List (Option Pointer) → List Pointer
present [] = []
present (none ∷ slots) = present slots
present (some p ∷ slots) = p ∷ present slots

-- The request with its slots cleared, and the messages that are deleted, in order.
unfoldable pub clear_sub_requests : Request → List Pointer × Request
clear_sub_requests r =
    (present r.sub_requests, record r { sub_requests = replicate (length r.sub_requests) none })

unfoldable pub clear : Request → List Pointer × Request
clear r = elim r.parent_request [
  | none ↦ clear_sub_requests r
  | some p ↦ (
    p ∷ (clear_sub_requests r).0,
    record r { parent_request = none; sub_requests = replicate (length r.sub_requests) none },
  )
]
