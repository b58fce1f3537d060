-- ===== src/Users/JobQueue/Laws.antt =====
-- Moving jobs between queues, and finding them.
use docker_sim.Prelude.{
  ℕ, zero, suc, ◌+◌, ◌≡◌, refl, ap, ◌∙◌, ◌⊎◌, inl, inr, true, ◌||◌, none, some, List, [], ◌∷◌, map,
  ℤ, pos, negsuc, Result, ok, ◌>>=◌, ◌==ℤ◌, length, get_elem?, lt→ltb, ◌==◌, ==_iff, if◌then◌else◌,
  if-true, if-false, Bool-cases, arith,
}
use docker_sim.Users.JobQueue.{
  Job, JobQueue, erase_at, insert_job, get_job, in_queue, transfer, move_to_q_dst, move_from_q_src,
  index_from, get_index_of_job,
}
use docker_sim.Users.JobQueue.Count.{
  is_job, count, accepts, count-insert_job, count-erase_at, remove_job-found, get_elem?-bound,
}

pub get_job-found :
    (n : ℕ) (j : Job) (q : JobQueue) → get_elem? q n ≡ some j → get_job (pos n) q ≡ ok j
unfolding get_job
get_job-found n j q h = ap (λ o. elim o [ some job ↦ ok job | none ↦ ok none ]) h

pub in_queue-found :
    (n : ℕ) (j : Job) (q : JobQueue) → get_elem? q n ≡ some j → in_queue (pos n) q ≡ true
unfolding in_queue
in_queue-found n j q h = lt→ltb n (length q) (get_elem?-bound n j q h)

pub transfer-found :
    (job j : Job) (n : ℕ) (d : ℤ) (src dst : JobQueue)
    → get_elem? src n ≡ some j
    → transfer job (pos n) d src dst ≡ ok (erase_at n src, insert_job job d dst)
unfolding transfer
transfer-found job j n d src dst h =
    ap (λ r. r >>= (λ left. ok (left, insert_job job d dst))) (remove_job-found n j src h)

-- Where the jobs of two queues are after a move: all but those of `lost`, and those of `twice`
-- once more.
abbrev pub Moved : JobQueue → JobQueue → JobQueue → JobQueue → (ℕ → ℕ) → (ℕ → ℕ) → Type 0
Moved src dst src' dst' lost twice =
    (x : ℕ) → count x src' + count x dst' + lost x ≡ count x src + count x dst + twice x

-- Moving the job at a position of the queue to another queue never fails. No job is made; none is
-- lost if the other queue accepts the position, and otherwise the job moved is lost, and only it.
pub move_to_q_dst-Moved :
    (n : ℕ) (d : ℤ) (src dst : JobQueue) (j : Job)
    → get_elem? src n ≡ some j
    → (src' dst' : JobQueue) × (move_to_q_dst (pos n) d src dst ≡ ok (src', dst'))
      × Moved src dst src' dst' (λ x. if accepts d dst then 0 else is_job x j) (λ x. 0)
unfolding move_to_q_dst
move_to_q_dst-Moved n d src dst j h = (
  erase_at n src,
  insert_job j d dst,
  ap
        (λ r. r >>= (λ job.
          if in_queue (pos n) src || (d ==ℤ negsuc 0)
          then transfer job (pos n) d src dst
          else ok (src, dst)))
        (get_job-found n j src h)
      ∙ if-true _ _ (ap (λ b. b || (d ==ℤ negsuc 0)) (in_queue-found n j src h))
      ∙ transfer-found j j n d src dst h,
  λ x. ground (arith, count-erase_at x n j src h, count-insert_job x j d dst),
)

-- Moving from the position of another queue reads the job at that position of this queue: where
-- both have a job, the other queue loses its job, which comes nowhere, and this queue's own job
-- is put in once more, if this queue accepts the position.
pub move_from_q_src-Moved :
    (n : ℕ) (d : ℤ) (src this : JobQueue) (j k : Job)
    → get_elem? src n ≡ some j
    → get_elem? this n ≡ some k
    → (src' this' : JobQueue) × (move_from_q_src (pos n) d src this ≡ ok (src', this'))
      × Moved src this src' this' (λ x. is_job x j) (λ x. if accepts d this then is_job x k else 0)
unfolding move_from_q_src
move_from_q_src-Moved n d src this j k h g = (
  erase_at n src,
  insert_job k d this,
  ap
        (λ r. r >>= (λ job.
          if in_queue (pos n) this then transfer job (pos n) d src this else ok (src, this)))
        (get_job-found n k this g)
      ∙ if-true _ _ (in_queue-found n k this g)
      ∙ transfer-found k j n d src this h,
  λ x. ground (arith, count-erase_at x n j src h, count-insert_job x k d this),
)

-- The jobs of a queue without NULL, from position `i` on, by identifier.
abbrev pub AtFirst : ℕ → List ℕ → ℕ → Type 0
AtFirst job_id [] i = ⊥
AtFirst job_id (y ∷ ids) zero = y ≡ job_id
AtFirst job_id (y ∷ ids) (suc i) = (¬ (y ≡ job_id)) × AtFirst job_id ids i

abbrev pub Absent : ℕ → List ℕ → Type 0
Absent job_id [] = Unit {0}
Absent job_id (y ∷ ids) = (¬ (y ≡ job_id)) × Absent job_id ids

abbrev pub IndexIs : Result ℤ → ℕ → ℕ → List ℕ → Type 0
IndexIs r start job_id ids =
    ((r ≡ ok (negsuc 0)) × Absent job_id ids)
    ⊎ ((i : ℕ) × (r ≡ ok (pos (start + i))) × AtFirst job_id ids i)

index_from-IndexIs :
    (start job_id : ℕ) (ids : List ℕ)
    → IndexIs (index_from start job_id (map some ids)) start job_id ids
unfolding index_from
index_from-IndexIs start job_id [] = inl (refl, tt)
index_from-IndexIs start job_id (y ∷ ids) = elim (Bool-cases (y == job_id)) [
  | inl h ↦
      let here : start ≡ start + 0 = omega arith in
      inr (0, if-true _ _ h ∙ ap (λ m. ok (pos m)) here, (==_iff y job_id).0 h)
  | inr h ↦
      let differs : ¬ (y ≡ job_id) = ground (arith, h) in
      elim (index_from-IndexIs (suc start) job_id ids) [
        | inl (e, a) ↦ inl (if-false _ _ h ∙ e, (differs, a))
        | inr (i, e, a) ↦
            let next : suc start + i ≡ start + suc i = omega arith in
            inr (suc i, if-false _ _ h ∙ e ∙ ap (λ m. ok (pos m)) next, (differs, a))
      ]
]

-- In a queue without NULL the search gives the first position of the job, or -1 if the job is not
-- in the queue.
get_index_of_job-IndexIs :
    (job_id : ℕ) (ids : List ℕ) → IndexIs (get_index_of_job job_id (map some ids)) 0 job_id ids
unfolding get_index_of_job
get_index_of_job-IndexIs job_id ids = index_from-IndexIs 0 job_id ids
