-- ===== src/Users/Queues/Move.antt =====
-- Where a job goes when it is moved between the queues of a user.
use docker_sim.Prelude.{
  ℕ, zero, suc, ◌+◌, ◌≡◌, ◌≢◌, refl, ap, ◌∙◌, Bool, true, false, ◌||◌, ◌&&◌, none, some, [], ◌∷◌,
  ◌++◌, pos, negsuc, ◌==ℤ◌, length, get_elem?, get_elem?-append, ge→ltb, ltb, leb_refl, ◌==◌,
  ==_refl, All, Result, ok, err, ◌>>=◌, no_return, null_pointer, lt→ltb, if◌then◌else◌, if-true,
  if-false, arith,
}
use docker_sim.Users.JobQueue.{
  Job, JobQueue, insert_at, erase_at, insert_job, get_job, in_queue, transfer, move_to_q_dst,
}
use docker_sim.Users.JobQueue.Laws.{get_job-found, in_queue-found, transfer-found}
use docker_sim.Users.Queues.{
  Queues, index_of, index_loop, move_between, move_from_wq_to_rq, move_from_rq_to_fq,
}

-- No job of the queue is missing, or has the identifier.
abbrev pub Others : ℕ → JobQueue → Type 0
Others job_id = All (λ j. (x : ℕ) × (j ≡ some x) × ((x == job_id) ≡ false))

get_elem?-end : (q : JobQueue) → get_elem? q (length q) ≡ none
get_elem?-end [] = refl
get_elem?-end (x ∷ q) = get_elem?-end q

erase_at-append :
    (before later : JobQueue) (j : Job)
    → erase_at (length before) (before ++ j ∷ later) ≡ before ++ later
unfolding erase_at
erase_at-append [] later j = refl
erase_at-append (x ∷ before) later j = ap (λ q. x ∷ q) (erase_at-append before later j)

insert_at-end : (q : JobQueue) (j : Job) → insert_at (length q) j q ≡ q ++ j ∷ []
unfolding insert_at
insert_at-end [] j = refl
insert_at-end (x ∷ q) j = ap (λ q. x ∷ q) (insert_at-end q j)

insert_job-end : (q : JobQueue) (j : Job) → insert_job j (pos (length q)) q ≡ q ++ j ∷ []
unfolding insert_job
insert_job-end q j = if-true _ _ (leb_refl (length q)) ∙ insert_at-end q j

index_of-found :
    (i job_id : ℕ) (before later : JobQueue)
    → Others job_id before
    → index_of i job_id (before ++ some job_id ∷ later) ≡ ok (i + length before)
unfolding index_of
index_of-found i job_id [] later o = if-true _ _ (==_refl job_id) ∙ ap ok (omega arith)
index_of-found i job_id (j ∷ before) later o =
    let (x, e, ne) = o.0 in
    ap (λ j. index_of i job_id (j ∷ (before ++ some job_id ∷ later))) e
    ∙ if-false _ _ ne
    ∙ index_of-found (suc i) job_id before later o.1
    ∙ ap ok (omega arith)

index_of-none :
    (i job_id : ℕ) (q : JobQueue) → Others job_id q → index_of i job_id q ≡ ok (i + length q)
unfolding index_of
index_of-none i job_id [] o = ap ok (omega arith)
index_of-none i job_id (j ∷ q) o =
    let (x, e, ne) = o.0 in
    ap (λ j. index_of i job_id (j ∷ q)) e
    ∙ if-false _ _ ne
    ∙ index_of-none (suc i) job_id q o.1
    ∙ ap ok (omega arith)

-- The job at a position goes behind the other queue.
move_between-found :
    (before later dst : JobQueue) (j : Job)
    → move_between (length before) (before ++ j ∷ later) dst ≡ ok (before ++ later, dst ++ j ∷ [])
unfolding move_between move_to_q_dst transfer
move_between-found before later dst j =
    let src : JobQueue = before ++ j ∷ later in
    let n : ℕ = length before in
    let at = get_elem?-append before later j in
    ap
      (λ r. r >>= (λ job.
        if in_queue (pos n) src || (pos (length dst) ==ℤ negsuc 0)
        then transfer job (pos n) (pos (length dst)) src dst
        else ok (src, dst)))
      (get_job-found n j src at)
    ∙ if-true _ _ (ap (λ b. b || (pos (length dst) ==ℤ negsuc 0)) (in_queue-found n j src at))
    ∙ transfer-found j j n (pos (length dst)) src dst at
    ∙ ap (λ q. ok (q, insert_job j (pos (length dst)) dst)) (erase_at-append before later j)
    ∙ ap (λ q. ok (before ++ later, q)) (insert_job-end dst j)

-- No job stands at the end of a queue.
move_between-end : (src dst : JobQueue) → move_between (length src) src dst ≡ ok (src, dst)
unfolding move_between move_to_q_dst get_job in_queue ◌==ℤ◌
move_between-end src dst =
    let rest : Result Job → Result (JobQueue × JobQueue) = λ r. r >>= (λ job.
      if ltb (length src) (length src) || false
      then transfer job (pos (length src)) (pos (length dst)) src dst
      else ok (src, dst)) in
    ap (λ o. rest (elim o [ some job ↦ ok job | none ↦ ok none ])) (get_elem?-end src)
    ∙ if-false _ _ (ap (λ b. b || false) (ge→ltb (length src) (length src) (omega arith)))

-- The first job with the identifier goes from the running queue behind the finished ones, and both
-- queues keep their order otherwise; without such a job nothing changes. The running queue holds
-- jobs up to there.
pub move_from_rq_to_fq-Others :
    (job_id : ℕ) (before later : JobQueue) (s : Queues)
    → Others job_id before
    → (move_from_rq_to_fq job_id (record s { running_queue = before ++ some job_id ∷ later })
        ≡ ok (record s {
          running_queue = before ++ later;
          finish_queue = s.finish_queue ++ some job_id ∷ [];
        }))
      × (move_from_rq_to_fq job_id (record s { running_queue = before })
          ≡ ok (record s { running_queue = before }))
unfolding move_from_rq_to_fq
move_from_rq_to_fq-Others job_id before later s o =
    let end : Result (JobQueue × JobQueue) → Result Queues =
      λ r. r >>= (λ r. ok (record s { running_queue = r.0; finish_queue = r.1 })) in
    let at : JobQueue → Result ℕ → Result Queues =
      λ q r. r >>= (λ index. end (move_between index q s.finish_queue)) in
    (
      ap (at (before ++ some job_id ∷ later)) (index_of-found 0 job_id before later o)
          ∙ ap end (
              ap (λ n. move_between n (before ++ some job_id ∷ later) s.finish_queue) (omega arith)
              ∙ move_between-found before later s.finish_queue (some job_id)),
      ap (at before) (index_of-none 0 job_id before o)
          ∙ ap end (
              ap (λ n. move_between n before s.finish_queue) (omega arith)
              ∙ move_between-end before s.finish_queue),
    )

and_false : (b : Bool) → (b && false) ≡ false
and_false true = refl
and_false false = refl

-- A round of the loop of `moveFromWQ_toRQ`, at the first job that waits.
abbrev seen : ℕ → ℕ → JobQueue → Job → Result ℕ
seen rounds job_id q job = elim job [
  | none ↦ err null_pointer
  | some x ↦
      if x == job_id then index_loop rounds 1 true job_id q else index_loop rounds 0 false job_id q
]

index_loop-first :
    (rounds job_id : ℕ) (j : Job) (q : JobQueue)
    → index_loop (suc rounds) 0 false job_id (j ∷ q) ≡ seen rounds job_id (j ∷ q) j
unfolding index_loop get_job
index_loop-first rounds job_id j q =
    if-true _ _ (ap (λ b. b && true) (lt→ltb 0 (suc (length q)) (omega arith)))

-- It ends when it has found the first job, and goes on for ever otherwise.
index_loop-found :
    (rounds job_id : ℕ) (q : JobQueue)
    → index_loop (suc (suc rounds)) 0 false job_id (some job_id ∷ q) ≡ ok 1
unfolding index_loop
index_loop-found rounds job_id q =
    index_loop-first (suc rounds) job_id (some job_id) q
    ∙ if-true _ _ (==_refl job_id)
    ∙ if-false _ _ (and_false (ltb 1 (suc (length q))))

index_loop-other :
    (rounds job_id x : ℕ) (q : JobQueue)
    → (x == job_id) ≡ false
    → index_loop rounds 0 false job_id (some x ∷ q) ≡ err no_return
unfolding index_loop
index_loop-other zero job_id x q h = refl
index_loop-other (suc rounds) job_id x q h =
    index_loop-first rounds job_id (some x) q
    ∙ if-false _ _ h
    ∙ index_loop-other rounds job_id x q h

index_loop-empty : (rounds job_id : ℕ) → index_loop (suc rounds) 0 false job_id [] ≡ ok 0
unfolding index_loop
index_loop-empty rounds job_id = refl

-- `moveFromWQ_toRQ` never moves the job it is asked for. Asked for the first job that waits, it
-- moves the second one, and nothing if there is none, with two rounds of its loop or more; asked for
-- another job than the first one, no number of rounds is enough for it to return; on an empty queue
-- it changes nothing, with one round or more.
pub move_from_wq_to_rq-first :
    (rounds job_id x : ℕ) (y : Job) (later : JobQueue) (s : Queues)
    → x ≢ job_id
    → (move_from_wq_to_rq
          (suc (suc rounds))
          job_id
          (record s { waiting_queue = some job_id ∷ y ∷ later })
        ≡ ok (record s {
          waiting_queue = some job_id ∷ later;
          running_queue = s.running_queue ++ y ∷ [];
        }))
      × (move_from_wq_to_rq
            (suc (suc rounds))
            job_id
            (record s { waiting_queue = some job_id ∷ [] })
          ≡ ok (record s { waiting_queue = some job_id ∷ [] }))
      × (move_from_wq_to_rq rounds job_id (record s { waiting_queue = some x ∷ later })
          ≡ err no_return)
      × (move_from_wq_to_rq (suc rounds) job_id (record s { waiting_queue = [] })
          ≡ ok (record s { waiting_queue = [] }))
unfolding move_from_wq_to_rq
move_from_wq_to_rq-first rounds job_id x y later s other =
    let end : Result (JobQueue × JobQueue) → Result Queues =
      λ r. r >>= (λ r. ok (record s { waiting_queue = r.0; running_queue = r.1 })) in
    let at : JobQueue → Result ℕ → Result Queues =
      λ q r. r >>= (λ index. end (move_between index q s.running_queue)) in
    (
      ap (at (some job_id ∷ y ∷ later)) (index_loop-found rounds job_id (y ∷ later))
          ∙ ap end (move_between-found (some job_id ∷ []) later s.running_queue y),
      ap (at (some job_id ∷ [])) (index_loop-found rounds job_id [])
          ∙ ap end (move_between-end (some job_id ∷ []) s.running_queue),
      ap (at (some x ∷ later)) (index_loop-other rounds job_id x later (ground (arith, other))),
      ap (at []) (index_loop-empty rounds job_id) ∙ ap end (move_between-end [] s.running_queue),
    )
