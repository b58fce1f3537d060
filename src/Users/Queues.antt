-- ===== src/Users/Queues.antt =====
-- queuesManager (Users/Base/queuesManager.{h,cc}): the waiting, running and finished queues of a
-- user, for its jobs and for its containers. The methods for the queues of a kind differ in the
-- queue they name, which is an argument here, unless their bodies differ.
pub mod Move
pub mod Tests
use docker_sim.Prelude.{
  ℕ, zero, suc, ◌+◌, Bool, true, false, ◌&&◌, not, Option, none, some, List, [], ◌∷◌, ◌++◌, ℤ, pos,
  negsuc, length, ◌==◌, ltb, Result, ok, err, ◌>>=◌, null_pointer, not_initialised, no_return,
  if◌then◌else◌,
}
use docker_sim.Users.JobQueue.{
  Job, JobQueue, insert_job, get_job, remove_job, move_job_from_to, move_to_q_dst,
}

pub data Which : Type 0 where
  waiting running finished : Which

pub record Queues : Type 0 where
  pub waiting_queue : JobQueue
  pub running_queue : JobQueue
  pub finish_queue : JobQueue

-- The queues of the jobs, and those of the containers.
pub record QueuesManager : Type 0 where
  pub jobs : Queues
  pub containers : Queues

unfoldable pub no_queues : Queues
no_queues = record { waiting_queue = []; running_queue = []; finish_queue = [] }

-- `initialize`, and the end of `finish`.
unfoldable pub cleared : QueuesManager
unfolding no_queues
cleared = record { jobs = no_queues; containers = no_queues }

unfoldable pub queue : Which → Queues → JobQueue
queue waiting s = s.waiting_queue
queue running s = s.running_queue
queue finished s = s.finish_queue

unfoldable pub with_queue : Which → JobQueue → Queues → Queues
with_queue waiting q s = record s { waiting_queue = q }
with_queue running q s = record s { running_queue = q }
with_queue finished q s = record s { finish_queue = q }

unfoldable pub add_parsed_job : Job → Queues → Queues
add_parsed_job job s = with_queue waiting (insert_job job (negsuc 0) s.waiting_queue) s

unfoldable pub get_size : Which → Queues → ℕ
get_size w s = length (queue w s)

unfoldable pub is_empty : Which → Queues → Bool
is_empty w s = length (queue w s) == 0

-- A loop `for (i = 0; size && !found; i++)` that looks for an identifier, on a queue with jobs: the
-- jobs from the position `i` on. Behind the last job `getJob` gives NULL, which has no identifier.
unfoldable pub search_from : ℕ → ℕ → JobQueue → Result ℕ
search_from i job_id [] = err null_pointer
search_from i job_id (none ∷ q) = err null_pointer
search_from i job_id (some x ∷ q) =
    let later = search_from (suc i) job_id q in if x == job_id then ok i else later

-- The loop does not begin on an empty queue.
unfoldable pub search : ℕ → JobQueue → Result (Option ℕ)
search job_id [] = ok none
search job_id (x ∷ q) = search_from 0 job_id (x ∷ q) >>= (λ i. ok (some i))

-- The waiting and the running queue.
unfoldable pub erase_job_from : Which → ℕ → Queues → Result (Bool × Queues)
erase_job_from w job_id s = search job_id (queue w s) >>= (λ found. elim found [
  | none ↦ ok (false, s)
  | some i ↦ remove_job (pos i) (queue w s) >>= (λ q. ok (true, with_queue w q s))
])

-- The loop is left before `found` is set.
unfoldable pub erase_job_from_fq : ℕ → Queues → Result (Bool × Queues)
erase_job_from_fq job_id s = search job_id s.finish_queue >>= (λ found. elim found [
  | none ↦ ok (false, s)
  | some i ↦ remove_job (pos i) s.finish_queue >>= (λ q. ok (false, with_queue finished q s))
])

unfoldable pub push_back : Which → Job → Queues → Queues
push_back w job s = with_queue w (insert_job job (negsuc 0) (queue w s)) s

unfoldable pub insert : Which → Job → ℤ → Queues → Queues
insert w job position s = with_queue w (insert_job job position (queue w s)) s

unfoldable pub move : Which → ℤ → ℤ → Queues → Result Queues
move w position_initial position_final s = do
  q ← move_job_from_to position_initial position_final (queue w s)
  ok (with_queue w q s)

-- Without jobs, what is returned is never set.
unfoldable pub get_job_by_id : ℕ → JobQueue → Result Job
get_job_by_id job_id q =
    search job_id q
    >>= (λ found. elim found [ none ↦ err not_initialised | some i ↦ get_job (pos i) q ])

unfoldable pub get_job_by_index : ℤ → JobQueue → Result Job
get_job_by_index (negsuc n) q = get_job (negsuc n) q
get_job_by_index (pos n) q = if ltb n (length q) then get_job (pos n) q else ok none

-- The job that the loop looked at last is returned, whether it was found or not.
unfoldable pub mod_loop : Job → ℕ → JobQueue → Result Job
mod_loop job mod_id [] = ok job
mod_loop job mod_id (none ∷ q) = err null_pointer
mod_loop job mod_id (some x ∷ q) =
    let later = mod_loop (some x) mod_id q in if x == mod_id then ok (some x) else later

unfoldable pub get_job_by_mod_id : ℕ → JobQueue → Result Job
get_job_by_mod_id mod_id q = mod_loop none mod_id q

unfoldable pub get_index : ℕ → JobQueue → Result ℤ
get_index job_id q =
    search job_id q >>= (λ found. elim found [ none ↦ ok (negsuc 0) | some i ↦ ok (pos i) ])

unfoldable pub get_job_of : Which → ℕ → Queues → Result Job
get_job_of w job_id s = get_job_by_id job_id (queue w s)

unfoldable pub get_job_at : Which → ℤ → Queues → Result Job
get_job_at w index s = get_job_by_index index (queue w s)

unfoldable pub get_job_of_mod : Which → ℕ → Queues → Result Job
get_job_of_mod w mod_id s = get_job_by_mod_id mod_id (queue w s)

unfoldable pub get_index_of : Which → ℕ → Queues → Result ℤ
get_index_of w job_id s = get_index job_id (queue w s)

-- The loops `while (index < size && !found)`: the index at their end.
unfoldable pub index_of : ℕ → ℕ → JobQueue → Result ℕ
index_of index job_id [] = ok index
index_of index job_id (none ∷ q) = err null_pointer
index_of index job_id (some x ∷ q) =
    let later = index_of (suc index) job_id q in if x == job_id then ok index else later

-- The loop `while (index < size && !found)` of `moveFromWQ_toRQ`, which advances only when it has
-- found the job, on a number of rounds: `no_return` when these are used up.
unfoldable pub index_loop : ℕ → ℕ → Bool → ℕ → JobQueue → Result ℕ
index_loop zero index found job_id q = err no_return
index_loop (suc rounds) index found job_id q =
    let past = index_loop rounds (suc index) true job_id q in
    let again = index_loop rounds index found job_id q in
    if ltb index (length q) && not found
    then get_job (pos index) q >>= (λ job. elim job [
      | none ↦ err null_pointer
      | some x ↦ if x == job_id then past else again
    ])
    else ok index

-- The end of a move: the job at the index goes behind the other queue.
unfoldable pub move_between : ℕ → JobQueue → JobQueue → Result (JobQueue × JobQueue)
move_between index src dst = move_to_q_dst (pos index) (pos (length dst)) src dst

-- With the rounds of the loop.
unfoldable pub move_from_wq_to_rq : ℕ → ℕ → Queues → Result Queues
move_from_wq_to_rq rounds job_id s = do
  index ← index_loop rounds 0 false job_id s.waiting_queue
  r ← move_between index s.waiting_queue s.running_queue
  ok (record s { waiting_queue = r.0; running_queue = r.1 })

unfoldable pub move_from_rq_to_fq : ℕ → Queues → Result Queues
move_from_rq_to_fq job_id s = do
  index ← index_of 0 job_id s.running_queue
  r ← move_between index s.running_queue s.finish_queue
  ok (record s { running_queue = r.0; finish_queue = r.1 })

unfoldable pub move_from_wq_to_fq : ℕ → Queues → Result Queues
move_from_wq_to_fq job_id s = do
  index ← index_of 0 job_id s.waiting_queue
  r ← move_between index s.waiting_queue s.finish_queue
  ok (record s { waiting_queue = r.0; finish_queue = r.1 })

-- The methods for the containers have the same bodies.
unfoldable pub on_containers : (Queues → Result Queues) → QueuesManager → Result QueuesManager
on_containers operation m = operation m.containers >>= (λ q. ok (record m { containers = q }))

unfoldable pub erase_job_from_container : Which → ℕ → Queues → Result (Bool × Queues)
erase_job_from_container = erase_job_from

unfoldable pub erase_job_from_cfq : ℕ → Queues → Result (Bool × Queues)
erase_job_from_cfq = erase_job_from_fq

unfoldable pub push_back_container : Which → Job → Queues → Queues
push_back_container = push_back

unfoldable pub insert_container : Which → Job → ℤ → Queues → Queues
insert_container = insert

unfoldable pub move_container : Which → ℤ → ℤ → Queues → Result Queues
move_container = move

unfoldable pub get_container_job_by_id : ℕ → JobQueue → Result Job
get_container_job_by_id = get_job_by_id

unfoldable pub get_container_job_by_index : ℤ → JobQueue → Result Job
get_container_job_by_index = get_job_by_index

unfoldable pub get_container_job_by_mod_id : ℕ → JobQueue → Result Job
get_container_job_by_mod_id = get_job_by_mod_id

unfoldable pub get_container_index : ℕ → JobQueue → Result ℤ
get_container_index = get_index

unfoldable pub move_from_cwq_to_crq : ℕ → ℕ → QueuesManager → Result QueuesManager
move_from_cwq_to_crq rounds job_id = on_containers (move_from_wq_to_rq rounds job_id)

unfoldable pub move_from_crq_to_cfq : ℕ → QueuesManager → Result QueuesManager
move_from_crq_to_cfq job_id = on_containers (move_from_rq_to_fq job_id)

unfoldable pub move_from_cwq_to_cfq : ℕ → QueuesManager → Result QueuesManager
move_from_cwq_to_cfq job_id = on_containers (move_from_wq_to_fq job_id)
