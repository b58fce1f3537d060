-- ===== src/Users/JobQueue.antt =====
-- JobQueue (Applications/Base/Management/JobQueue.cc). A job is its identifier, and the vector
-- holds pointers, so an entry may be NULL, `none`. Positions are `int`s; an iterator that leaves
-- the vector is `bad_iterator`. Two queues that take part in one operation are different objects.
pub mod Count
pub mod Laws
pub mod Tests
use docker_sim.Prelude.{
  ℕ, zero, suc, Bool, true, false, ◌||◌, Option, none, some, List, [], ◌∷◌, ◌++◌, ℤ, pos, negsuc,
  ◌==ℤ◌, Result, ok, err, ◌>>=◌, bad_iterator, null_pointer, not_initialised, length, get_elem?,
  ltb, leb, ◌==◌, if◌then◌else◌,
}

abbrev pub Job : Type 0
Job = Option ℕ

abbrev pub JobQueue : Type 0
JobQueue = List Job

-- `vector::insert` and `vector::erase` at a position.
unfoldable pub insert_at : ℕ → Job → JobQueue → JobQueue
insert_at zero job q = job ∷ q
insert_at (suc n) job [] = job ∷ []
insert_at (suc n) job (x ∷ q) = x ∷ insert_at n job q

unfoldable pub erase_at : ℕ → JobQueue → JobQueue
erase_at n [] = []
erase_at zero (x ∷ q) = q
erase_at (suc n) (x ∷ q) = x ∷ erase_at n q

-- Position -1 is the end; a position outside the queue leaves it as it is.
unfoldable pub insert_job : Job → ℤ → JobQueue → JobQueue
insert_job job (negsuc zero) q = q ++ job ∷ []
insert_job job (negsuc (suc n)) q = q
insert_job job (pos n) q = if leb n (length q) then insert_at n job q else q

unfoldable pub get_job : ℤ → JobQueue → Result Job
get_job (negsuc n) q = err bad_iterator
get_job (pos n) q = elim (get_elem? q n) [ some job ↦ ok job | none ↦ ok none ]

unfoldable pub remove_job : ℤ → JobQueue → Result JobQueue
remove_job (negsuc n) q = err bad_iterator
remove_job (pos n) q =
    if ltb n (length q) then ok (erase_at n q) else if n == length q then err bad_iterator else ok q

-- The job that is inserted is a variable that nothing sets.
unfoldable pub move_job_from_to : ℤ → ℤ → JobQueue → Result JobQueue
move_job_from_to init_pos dst_pos q = if init_pos ==ℤ dst_pos then ok q else err not_initialised

unfoldable pub in_queue : ℤ → JobQueue → Bool
in_queue (negsuc n) q = false
in_queue (pos n) q = ltb n (length q)

-- A job goes into the destination, and leaves the source; the pair is the source and the
-- destination. Without the move an error is printed.
unfoldable pub transfer : Job → ℤ → ℤ → JobQueue → JobQueue → Result (JobQueue × JobQueue)
transfer job position_q_src position_q_dst src dst = do
  left ← remove_job position_q_src src
  ok (left, insert_job job position_q_dst dst)

unfoldable pub move_to_q_dst : ℤ → ℤ → JobQueue → JobQueue → Result (JobQueue × JobQueue)
unfolding transfer
move_to_q_dst position_q_src position_q_dst this dst = get_job position_q_src this >>= (λ job.
    if in_queue position_q_src this || (position_q_dst ==ℤ negsuc 0)
    then transfer job position_q_src position_q_dst this dst
    else ok (this, dst))

-- The job is read from this queue, which is the destination. The pair is the source and this queue.
unfoldable pub move_from_q_src : ℤ → ℤ → JobQueue → JobQueue → Result (JobQueue × JobQueue)
unfolding transfer
move_from_q_src position_q_src position_q_dst src this = get_job position_q_src this >>= (λ job.
    if in_queue position_q_src this
    then transfer job position_q_src position_q_dst src this
    else ok (src, this))

-- The loop reads the identifier of each job, which NULL has not.
unfoldable pub index_from : ℕ → ℕ → JobQueue → Result ℤ
index_from i job_id [] = ok (negsuc 0)
index_from i job_id (none ∷ q) = err null_pointer
index_from i job_id (some x ∷ q) =
    let later = index_from (suc i) job_id q in if x == job_id then ok (pos i) else later

unfoldable pub get_index_of_job : ℕ → JobQueue → Result ℤ
unfolding index_from
get_index_of_job job_id q = index_from 0 job_id q
