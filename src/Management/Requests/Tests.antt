-- ===== src/Management/Requests/Tests.antt =====
-- Runs of RequestsManagement.
use docker_sim.Prelude.{◌≡◌, refl, some, [], ◌∷◌, false, arith}
use docker_sim.Management.Requests.{
  CloudRequest, Requests, initialize, reinsert_request, get_request_by_index, erase_request,
  get_request_by_user_id,
}
use docker_sim.Management.Requests.Arrival.{
  send, block, unblock, run, sent, all_requests, Aside, arrival_order,
}
use docker_sim.Management.Requests.Index.{erase_request-reinsert_request}

abbrev first : CloudRequest
first = record { id = 1; uid = 9; is_storage = false; times_enqueue = 0 }

abbrev queued : Requests
queued = record initialize { requests_queue = first ∷ record first { id = 2 } ∷ [] }

arrival_order_example :
    (all_requests (run (send first ∷ block ∷ send first ∷ unblock ∷ []) initialize)
      ≡ sent (send first ∷ block ∷ send first ∷ unblock ∷ []))
    × Aside (run (send first ∷ block ∷ send first ∷ unblock ∷ []) initialize)
arrival_order_example = arrival_order (send first ∷ block ∷ send first ∷ unblock ∷ [])

erase_request-reinsert_request_example :
    (get_request_by_index 1 (reinsert_request (record first { id = 3 }) 1 queued)
      ≡ some (record first { id = 3 }))
    × (erase_request 1 (reinsert_request (record first { id = 3 }) 1 queued) ≡ some queued)
erase_request-reinsert_request_example =
    erase_request-reinsert_request (record first { id = 3 }) 1 queued (omega arith)

-- The requests of a user are never found.
user_9 : get_request_by_user_id 9 queued ≡ []
unfolding get_request_by_user_id
user_9 = refl
