-- ===== src/Management/Tenants/Tests.antt =====
-- Runs of the management of users.
use docker_sim.Prelude.{
  ℕ, ◌≤◌, ◌≡◌, refl, true, false, some, [], ◌∷◌, ℤ, pos, negsuc, ◌==ℤ◌, ok, err, ◌>>=◌,
  not_initialised, runtime_error, arith, Bool-cases, inl, inr,
}
use docker_sim.Management.Tenants.{
  User, ComputeResources, UserManagement, free_compute_resources, find_user, on_tenant, with_tenant,
  new_user, get_user_by_id, get_user_position_by_user_id, check_finalization,
  create_user_compute_entry, free_user_compute_entry,
}
use docker_sim.Management.Tenants.Entries.{free_user_compute_entry-create}
use docker_sim.Management.Tenants.End.{
  delete_users, times, user_ids, delete_users-check_finalization,
}

abbrev user : ℕ → ℕ → User
user id user_id = record { id = pos id; user_id = pos user_id }

abbrev entry : ComputeResources
entry = record { node_set = "A"; node = pos 0; cores = pos 2; job_id = pos 7 }

abbrev two_users : UserManagement
two_users = record {
  user_list =
      record { user = user 11 1; job_resources = [] }
      ∷ record { user = user 12 2; job_resources = entry ∷ [] }
      ∷ [];
  user_generator = some 3;
  no_more_users = true;
  simulation_per_time = false;
  calls = [];
}

free_user_compute_entry-create_example :
    create_user_compute_entry (pos 12) "B" (pos 1) (pos 4) (pos 8) two_users
      >>= free_user_compute_entry (pos 12) (pos 8)
    ≡ ok (record two_users { calls = free_compute_resources "B" (pos 1) (pos 4) ∷ [] })
unfolding ◌==ℤ◌
free_user_compute_entry-create_example =
    free_user_compute_entry-create (pos 12) (pos 1) (pos 4) (pos 8) "B" two_users (refl, tt)

covered : (j : ℤ) → times j (user_ids two_users.user_list) ≤ times j (pos 2 ∷ pos 1 ∷ [])
covered j = elim (Bool-cases (pos 1 ==ℤ j)) [
  | inl h ↦ elim (Bool-cases (pos 2 ==ℤ j)) [ inl k ↦ ground arith | inr k ↦ ground arith ]
  | inr h ↦ elim (Bool-cases (pos 2 ==ℤ j)) [ inl k ↦ ground arith | inr k ↦ ground arith ]
]

delete_users-check_finalization_example :
    check_finalization (delete_users (pos 2 ∷ pos 1 ∷ []) two_users) ≡ true
delete_users-check_finalization_example =
    delete_users-check_finalization (pos 2 ∷ pos 1 ∷ []) two_users refl covered

no_such_user :
    create_user_compute_entry (pos 13) "B" (pos 1) (pos 4) (pos 8) two_users ≡ err runtime_error
unfolding create_user_compute_entry with_tenant on_tenant ◌==ℤ◌
no_such_user = refl

refused : new_user (user 13 3) two_users ≡ (two_users, false)
unfolding new_user
refused = refl

-- The second user has the position 1.
no_position : get_user_position_by_user_id (pos 12) two_users ≡ negsuc 0
unfolding get_user_position_by_user_id
no_position = refl

unset : get_user_by_id (pos 13) two_users ≡ err not_initialised
unfolding get_user_by_id find_user ◌==ℤ◌
unset = refl
