-- ===== src/Management/Tenants.antt =====
-- The users of the data centre (Management/DataCenterManagement/Base/UserManagement). A user stands
-- in the list as what the list asks of it, the module's id and the user's id. The calls of users, of
-- the generator of users, of the kernel and of the virtual `freeComputeResources` are a log.
pub mod Entries
pub mod End
pub mod Tests
use Prim.Native.String.{String}
use docker_sim.Prelude.{
  ℕ, Bool, true, false, ◌&&◌, Option, none, some, List, [], ◌∷◌, ◌++◌, ℤ, pos, negsuc, ◌==ℤ◌,
  length, get_elem?, ◌==◌, Result, ok, err, ◌>>=◌, bad_iterator, not_initialised, runtime_error,
  if◌then◌else◌,
}

pub record User : Type 0 where
  -- `getId` and `getUserId`
  pub id : ℤ
  pub user_id : ℤ

pub record ComputeResources : Type 0 where
  pub node_set : String
  pub node : ℤ
  pub cores : ℤ
  pub job_id : ℤ

pub record Tenant : Type 0 where
  pub user : User
  pub job_resources : List ComputeResources

pub data Call : Type 0 where
  base_initialize base_finish call_finish schedule_delete_user_gen : Call
  start_user delete_user_object : User → Call
  free_compute_resources : String → ℤ → ℤ → Call

-- `user_generator` is the identifier of the generator's module, `none` before it is set.
pub record UserManagement : Type 0 where
  pub user_list : List Tenant
  pub user_generator : Option ℕ
  pub no_more_users : Bool
  pub simulation_per_time : Bool
  pub calls : List Call

unfoldable pub initialize : UserManagement → UserManagement
initialize s = record s {
  user_list = [];
  no_more_users = false;
  simulation_per_time = false;
  calls = s.calls ++ base_initialize ∷ [];
}

unfoldable pub finish : UserManagement → UserManagement
finish s = record s { user_list = []; calls = s.calls ++ base_finish ∷ [] }

unfoldable pub find_user : (User → Bool) → List Tenant → Option User
find_user test [] = none
find_user test (t ∷ ts) = if test t.user then some t.user else find_user test ts

unfoldable pub get_user_by_module_id : ℤ → UserManagement → Result User
get_user_by_module_id mod_id s = elim (find_user (λ u. mod_id ==ℤ u.id) s.user_list) [
  | some u ↦ ok u
  | none ↦ err runtime_error
]

unfoldable pub new_user : User → UserManagement → UserManagement × Bool
new_user user s = if s.no_more_users then (s, false) else (
  record s {
    user_list = s.user_list ++ record { user = user; job_resources = [] } ∷ [];
    calls = s.calls ++ start_user user ∷ [];
  },
  true,
)

-- `none` is NULL.
unfoldable pub get_user_by_user_id : ℤ → UserManagement → Option User
get_user_by_user_id uid s = find_user (λ u. u.user_id ==ℤ uid) s.user_list

unfoldable pub get_user_by_index : ℤ → UserManagement → Result User
get_user_by_index (negsuc n) s = err bad_iterator
get_user_by_index (pos n) s = elim (get_elem? s.user_list n) [
  | none ↦ err bad_iterator
  | some t ↦ ok t.user
]

-- The loop of `deleteUser`: the list that is left, and the calls.
unfoldable pub erase_user : ℤ → List Tenant → List Tenant × List Call
erase_user user_id [] = ([], [])
erase_user user_id (t ∷ ts) =
    let later = erase_user user_id ts in
    if t.user.user_id ==ℤ user_id
    then (ts, delete_user_object t.user ∷ [])
    else (t ∷ later.0, later.1)

unfoldable pub delete_user : ℤ → UserManagement → UserManagement
delete_user user_id s =
    let erased = erase_user user_id s.user_list in
    record s { user_list = erased.0; calls = s.calls ++ erased.1 }

unfoldable pub finalize_user_generator : ℕ → Bool → UserManagement → UserManagement
finalize_user_generator user_gen allow_to_execute s = record s {
  user_generator = some user_gen;
  no_more_users = true;
  simulation_per_time = allow_to_execute;
  calls = s.calls ++ call_finish ∷ schedule_delete_user_gen ∷ [];
}

unfoldable pub check_finalization : UserManagement → Bool
check_finalization s = s.no_more_users && length s.user_list == 0

-- The first user whose module has the id changes, and the calls are those of the change; there is
-- an exception when no user is found.
unfoldable pub on_tenant :
    ℤ → (Tenant → Tenant × List Call) → List Tenant → Result (List Tenant × List Call)
on_tenant uid change [] = err runtime_error
on_tenant uid change (t ∷ ts) =
    let later = on_tenant uid change ts >>= (λ r. ok (t ∷ r.0, r.1)) in
    if t.user.id ==ℤ uid then ok ((change t).0 ∷ ts, (change t).1) else later

unfoldable pub with_tenant :
    ℤ → (Tenant → Tenant × List Call) → UserManagement → Result UserManagement
with_tenant uid change s =
    on_tenant uid change s.user_list
    >>= (λ r. ok (record s { user_list = r.0; calls = s.calls ++ r.1 }))

-- The loop over the entries of the user: the first one of the job is freed and erased.
unfoldable pub free_entry : ℤ → List ComputeResources → List ComputeResources × List Call
free_entry job_id [] = ([], [])
free_entry job_id (e ∷ es) =
    let later = free_entry job_id es in
    if e.job_id ==ℤ job_id
    then (es, free_compute_resources e.node_set e.node e.cores ∷ [])
    else (e ∷ later.0, later.1)

unfoldable pub free_in : ℤ → Tenant → Tenant × List Call
free_in job_id t =
    let freed = free_entry job_id t.job_resources in (record t { job_resources = freed.0 }, freed.1)

unfoldable pub free_user_compute_entry : ℤ → ℤ → UserManagement → Result UserManagement
free_user_compute_entry uid job_id s = with_tenant uid (free_in job_id) s

unfoldable pub add_entry : ComputeResources → Tenant → Tenant × List Call
add_entry e t = (record t { job_resources = t.job_resources ++ e ∷ [] }, [])

unfoldable pub create_user_compute_entry :
    ℤ → String → ℤ → ℤ → ℤ → UserManagement → Result UserManagement
create_user_compute_entry uid node_set node cores job_id s =
    let resources : ComputeResources = record {
      node_set = node_set;
      node = node;
      cores = cores;
      job_id = job_id;
    } in
    with_tenant uid (add_entry resources) s

-- The loop finds the position of the user, and the method returns the -1 that it starts with.
unfoldable pub get_user_position_by_user_id : ℤ → UserManagement → ℤ
get_user_position_by_user_id uid s = negsuc 0

-- The variable that is returned is not set when no user is found.
unfoldable pub get_user_by_id : ℤ → UserManagement → Result User
get_user_by_id u_id s = elim (find_user (λ u. u.id ==ℤ u_id) s.user_list) [
  | some u ↦ ok u
  | none ↦ err not_initialised
]
