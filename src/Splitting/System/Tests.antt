-- ===== src/Splitting/System/Tests.antt =====
-- Runs of the splitting system, and its theorems at concrete systems.
use docker_sim.Prelude.{◌≡◌, ◌≤◌, refl, none, some, [], ◌∷◌, true, ◌==◌, if◌then◌else◌, arith}
use docker_sim.Splitting.Message.{ok, Store}
use docker_sim.Splitting.Request
use docker_sim.Splitting.Request.{Request, new_request, slot_at}
use docker_sim.Splitting.System.{
  System, is_parent, search_request, located, add_request, remove_request, arrives_sub_request,
  arrives_all_sub_request, pop_next_sub_request,
}
use docker_sim.Splitting.System.Find.{find, remove_request-find, ParentsDiffer}
use docker_sim.Splitting.System.Arrival.{arrive_all, arrive_all-add_request, deleted_twice, count}

-- Messages 10 and 11 are responses to the subrequests 0 and 1 of message 5.
abbrev responses : Store
responses p =
    if p == 10
    then some (record { is_response = true; current_request = 0 })
    else if p == 11
    then some (record { is_response = true; current_request = 1 })
    else none

abbrev no_requests : System
no_requests = record { request_vector = []; deleted = [] }

abbrev two_slots : System
two_slots = record {
  request_vector =
      record { parent_request = some 5; sub_requests = none ∷ none ∷ []; arrived_sub_requests = 0 }
      ∷ [];
  deleted = [];
}

added : add_request 5 2 no_requests ≡ two_slots
unfolding add_request new_request
added = refl

nothing_to_send : pop_next_sub_request responses 5 two_slots ≡ ok none
unfolding pop_next_sub_request Request.pop_next_sub_request Request.next_from located search_request
    is_parent
nothing_to_send = refl

two_slots-ParentsDiffer : ParentsDiffer two_slots.request_vector
two_slots-ParentsDiffer = (λ p e. tt, tt)

remove_request-find_example :
    (s' : System) × (remove_request 5 two_slots ≡ ok s')
    × (s'.deleted ≡ [])
    × (find 5 s'.request_vector ≡ none)
unfolding find is_parent Request.present
remove_request-find_example =
    remove_request-find 5 5 two_slots
      (record {
        parent_request = some 5;
        sub_requests = none ∷ none ∷ [];
        arrived_sub_requests = 0;
      })
      two_slots-ParentsDiffer refl

arrive_all-add_request_example :
    (s' : System) × (arrive_all responses 5 (11 ∷ 10 ∷ []) (add_request 5 2 no_requests) ≡ ok s')
    × (arrives_all_sub_request 5 s' ≡ ok true)
arrive_all-add_request_example =
    arrive_all-add_request responses 5 2 (11 ∷ 10 ∷ []) no_requests (omega arith) tt (omega arith) (
      (record { is_response = true; current_request = 1 }, refl, omega arith),
      ((record { is_response = true; current_request = 0 }, refl, omega arith), tt),
    )

deleted_twice_example :
    (s' s'' : System) × (arrives_sub_request responses 11 5 two_slots ≡ ok s')
    × (remove_request 5 s' ≡ ok s'')
    × (2 ≤ count 11 s''.deleted)
unfolding find is_parent slot_at
deleted_twice_example =
    deleted_twice responses 11 5 two_slots (record { is_response = true; current_request = 1 })
      (record {
        parent_request = some 5;
        sub_requests = none ∷ none ∷ [];
        arrived_sub_requests = 0;
      })
      refl refl (omega arith) refl
