-- ===== src/Users/JobQueue/Tests.antt =====
-- Runs of JobQueue.
use docker_sim.Prelude.{ok, ◌≡◌, refl, some, [], ◌∷◌, pos, negsuc, if◌then◌else◌}
use docker_sim.Users.JobQueue.{JobQueue, move_to_q_dst, move_from_q_src}
use docker_sim.Users.JobQueue.Count.{is_job, accepts}
use docker_sim.Users.JobQueue.Laws.{Moved, move_to_q_dst-Moved, move_from_q_src-Moved}

abbrev waiting : JobQueue
waiting = some 4 ∷ some 5 ∷ []

abbrev running : JobQueue
running = some 8 ∷ []

move_to_q_dst-Moved_example :
    (src' dst' : JobQueue) × (move_to_q_dst (pos 1) (pos 7) waiting running ≡ ok (src', dst'))
    × Moved waiting running src' dst'
        (λ x. if accepts (pos 7) running then 0 else is_job x (some 5))
        (λ x. 0)
move_to_q_dst-Moved_example = move_to_q_dst-Moved 1 (pos 7) waiting running (some 5) refl

move_from_q_src-Moved_example :
    (src' this' : JobQueue) × (move_from_q_src (pos 0) (negsuc 0) waiting running
      ≡ ok (src', this'))
    × Moved waiting running src' this'
        (λ x. is_job x (some 4))
        (λ x. if accepts (negsuc 0) running then is_job x (some 8) else 0)
move_from_q_src-Moved_example =
    move_from_q_src-Moved 0 (negsuc 0) waiting running (some 4) (some 8) refl refl
