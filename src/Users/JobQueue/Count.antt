-- ===== src/Users/JobQueue/Count.antt =====
-- How often a job stands in a queue, after an insertion and after a removal.
use docker_sim.Prelude.{
  ok, ℕ, zero, suc, ◌+◌, ◌<◌, ◌≡◌, sym, ap, ◌∙◌, Bool, true, false, none, some, [], ◌∷◌, ◌++◌, ℤ,
  pos, negsuc, length, get_elem?, leb, lt→ltb, ◌==◌, if◌then◌else◌, if-true, if-false, Bool-cases,
  inl, inr, arith,
}
use docker_sim.Users.JobQueue.{Job, JobQueue, insert_at, erase_at, insert_job, remove_job}

unfoldable pub is_job : ℕ → Job → ℕ
is_job x none = 0
is_job x (some y) = if y == x then 1 else 0

unfoldable pub count : ℕ → JobQueue → ℕ
count x [] = 0
count x (j ∷ q) = is_job x j + count x q

-- The positions at which a queue takes a job.
unfoldable pub accepts : ℤ → JobQueue → Bool
accepts (negsuc zero) q = true
accepts (negsuc (suc n)) q = false
accepts (pos n) q = leb n (length q)

count-append : (x : ℕ) (q : JobQueue) (j : Job) → count x (q ++ j ∷ []) ≡ count x q + is_job x j
unfolding count
count-append x [] j = omega arith
count-append x (k ∷ q) j = omega (arith, count-append x q j)

count-insert_at :
    (x n : ℕ) (j : Job) (q : JobQueue) → count x (insert_at n j q) ≡ count x q + is_job x j
unfolding count insert_at
count-insert_at x zero j q = omega arith
count-insert_at x (suc n) j [] = omega arith
count-insert_at x (suc n) j (k ∷ q) = omega (arith, count-insert_at x n j q)

pub count-insert_job :
    (x : ℕ) (j : Job) (d : ℤ) (q : JobQueue)
    → count x (insert_job j d q) ≡ count x q + (if accepts d q then is_job x j else 0)
unfolding insert_job accepts
count-insert_job x j (negsuc zero) q = count-append x q j
count-insert_job x j (negsuc (suc n)) q = omega arith
count-insert_job x j (pos n) q = elim (Bool-cases (leb n (length q))) [
  | inl h ↦
      ap (count x) (if-true _ _ h)
      ∙ count-insert_at x n j q
      ∙ ap (λ m. count x q + m) (sym (if-true _ _ h))
  | inr h ↦
      ap (count x) (if-false _ _ h)
      ∙ (let zero_more : count x q ≡ count x q + 0 = omega arith in zero_more)
      ∙ ap (λ m. count x q + m) (sym (if-false _ _ h))
]

pub count-erase_at :
    (x n : ℕ) (j : Job) (q : JobQueue)
    → get_elem? q n ≡ some j
    → count x (erase_at n q) + is_job x j ≡ count x q
unfolding count erase_at
count-erase_at x n j [] h = cc
count-erase_at x zero j (k ∷ q) h =
    let same : is_job x k ≡ is_job x j = ap (λ o. elim o [ none ↦ 0 | some i ↦ is_job x i ]) h in
    omega (arith, same)
count-erase_at x (suc n) j (k ∷ q) h = omega (arith, count-erase_at x n j q h)

pub get_elem?-bound : (n : ℕ) (j : Job) (q : JobQueue) → get_elem? q n ≡ some j → n < length q
get_elem?-bound n j [] h = cc
get_elem?-bound zero j (k ∷ q) h = omega arith
get_elem?-bound (suc n) j (k ∷ q) h = omega (arith, get_elem?-bound n j q h)

pub remove_job-found :
    (n : ℕ) (j : Job) (q : JobQueue)
    → get_elem? q n ≡ some j
    → remove_job (pos n) q ≡ ok (erase_at n q)
unfolding remove_job
remove_job-found n j q h = if-true _ _ (lt→ltb n (length q) (get_elem?-bound n j q h))
