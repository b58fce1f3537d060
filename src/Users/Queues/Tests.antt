-- ===== src/Users/Queues/Tests.antt =====
-- Moves between the queues of a user.
use docker_sim.Prelude.{
  ◌≡◌, refl, true, false, some, [], ◌∷◌, ok, err, no_return, null_pointer, arith,
}
use docker_sim.Users.JobQueue.{remove_job, erase_at}
use docker_sim.Users.Queues.{
  Queues, waiting, with_queue, queue, erase_job_from, erase_job_from_fq, search, search_from,
  get_job_by_mod_id, mod_loop, move_from_wq_to_rq, move_from_rq_to_fq,
}
use docker_sim.Users.Queues.Move.{move_from_rq_to_fq-Others, move_from_wq_to_rq-first}

abbrev some_jobs : Queues
some_jobs = record {
  waiting_queue = some 3 ∷ some 4 ∷ [];
  running_queue = some 1 ∷ some 2 ∷ some 5 ∷ [];
  finish_queue = some 9 ∷ [];
}

move_from_rq_to_fq-Others_example :
    (move_from_rq_to_fq 2 some_jobs
      ≡ ok (record some_jobs {
        running_queue = some 1 ∷ some 5 ∷ [];
        finish_queue = some 9 ∷ some 2 ∷ [];
      }))
    × (move_from_rq_to_fq 2 (record some_jobs { running_queue = some 1 ∷ [] })
        ≡ ok (record some_jobs { running_queue = some 1 ∷ [] }))
move_from_rq_to_fq-Others_example =
    move_from_rq_to_fq-Others 2 (some 1 ∷ []) (some 5 ∷ []) some_jobs ((1, refl, refl), tt)

move_from_wq_to_rq-first_example :
    (move_from_wq_to_rq 7 3 some_jobs
      ≡ ok (record some_jobs {
        waiting_queue = some 3 ∷ [];
        running_queue = some 1 ∷ some 2 ∷ some 5 ∷ some 4 ∷ [];
      }))
    × (move_from_wq_to_rq 7 3 (record some_jobs { waiting_queue = some 3 ∷ [] })
        ≡ ok (record some_jobs { waiting_queue = some 3 ∷ [] }))
    × (move_from_wq_to_rq 5 3 (record some_jobs { waiting_queue = some 4 ∷ [] }) ≡ err no_return)
    × (move_from_wq_to_rq 6 3 (record some_jobs { waiting_queue = [] })
        ≡ ok (record some_jobs { waiting_queue = [] }))
move_from_wq_to_rq-first_example =
    move_from_wq_to_rq-first 5 3 4 (some 4) [] some_jobs (ground arith)

-- A job that waits is erased; one that does not wait lets the loop run past the queue.
erased :
    erase_job_from waiting 4 some_jobs ≡ ok (true, record some_jobs { waiting_queue = some 3 ∷ [] })
unfolding erase_job_from search search_from queue with_queue remove_job erase_at
erased = refl

not_there : erase_job_from waiting 7 some_jobs ≡ err null_pointer
unfolding erase_job_from search search_from queue
not_there = refl

-- A finished job that is erased is reported as not found.
not_reported : erase_job_from_fq 9 some_jobs ≡ ok (false, record some_jobs { finish_queue = [] })
unfolding erase_job_from_fq search search_from queue with_queue remove_job erase_at
not_reported = refl

-- The last job is returned for an identifier that no job has.
last_returned : get_job_by_mod_id 7 some_jobs.running_queue ≡ ok (some 5)
unfolding get_job_by_mod_id mod_loop
last_returned = refl
