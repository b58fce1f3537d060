-- ===== src/Management/Tenants/Entries.antt =====
-- The entries of the machines that the jobs of a user take.
use Prim.Native.String.{String}
use docker_sim.Prelude.{
  ◌≡◌, ap, ◌∙◌, true, false, List, [], ◌∷◌, ◌++◌, ℤ, ◌==ℤ◌, ==ℤ_refl, subst, Result, ok, ◌>>=◌,
  if◌then◌else◌, if-true, if-false, Bool-cases, inl, inr, All,
}
use mathlib.Core.List.{append-nil}
use docker_sim.Management.Tenants.{
  ComputeResources, Tenant, Call, UserManagement, free_compute_resources, on_tenant, with_tenant,
  free_entry, free_in, free_user_compute_entry, add_entry, create_user_compute_entry,
}

-- The job has no entry.
abbrev pub IsNewJob : ℤ → Tenant → Type 0
IsNewJob job_id t = All (λ e. (e.job_id ==ℤ job_id) ≡ false) t.job_resources

-- A predicate holds of the first user whose module has the id, and there is one.
abbrev pub OfTenant : ℤ → (Tenant → Type 0) → List Tenant → Type 0
OfTenant uid P [] = ⊥
OfTenant uid P (t ∷ ts) = if t.user.id ==ℤ uid then P t else OfTenant uid P ts

free_entry-new :
    (job_id : ℤ) (e : ComputeResources) (es : List ComputeResources)
    → All (λ e. (e.job_id ==ℤ job_id) ≡ false) es
    → (e.job_id ==ℤ job_id) ≡ true
    → free_entry job_id (es ++ e ∷ []) ≡ (es, free_compute_resources e.node_set e.node e.cores ∷ [])
unfolding free_entry
free_entry-new job_id e [] h k = if-true _ _ k
free_entry-new job_id e (x ∷ es) h k =
    if-false _ _ h.0 ∙ ap (λ r. (x ∷ r.0, r.1)) (free_entry-new job_id e es h.1 k)

-- The entry is made in the list, and then freed in it.
on_tenant-new :
    (uid job_id : ℤ) (e : ComputeResources) (ts : List Tenant)
    → (e.job_id ==ℤ job_id) ≡ true
    → OfTenant uid (IsNewJob job_id) ts
    → (made : List Tenant) × (on_tenant uid (add_entry e) ts ≡ ok (made, []))
      × (on_tenant uid (free_in job_id) made
          ≡ ok (ts, free_compute_resources e.node_set e.node e.cores ∷ []))
unfolding on_tenant free_in add_entry
on_tenant-new uid job_id e [] k h = elim h [ ]
on_tenant-new uid job_id e (t ∷ ts) k h = elim (Bool-cases (t.user.id ==ℤ uid)) [
  | inl i ↦ (
    record t { job_resources = t.job_resources ++ e ∷ [] } ∷ ts,
    if-true _ _ i,
    if-true _ _ i
        ∙ ap (λ r. ok (record t { job_resources = r.0 } ∷ ts, r.1))
            (free_entry-new job_id e t.job_resources (subst (λ A. A) (if-true _ _ i) h) k),
  )
  | inr i ↦
      let later = on_tenant-new uid job_id e ts k (subst (λ A. A) (if-false _ _ i) h) in
      (
        t ∷ later.0,
        if-false _ _ i ∙ ap (λ r. r >>= (λ q. ok (t ∷ q.0, q.1))) later.1,
        if-false _ _ i ∙ ap (λ r. r >>= (λ q. ok (t ∷ q.0, q.1))) later.2,
      )
]

-- When the list has a user whose module has the id, and the first such user has no entry of the job,
-- then the entry that is created for the job and freed after that leaves all users as they were;
-- the machine's cores are given back once, with the node set, the node and the cores of the entry.
pub free_user_compute_entry-create :
    (uid node cores job_id : ℤ) (node_set : String) (s : UserManagement)
    → OfTenant uid (IsNewJob job_id) s.user_list
    → create_user_compute_entry uid node_set node cores job_id s
        >>= free_user_compute_entry uid job_id
      ≡ ok (record s { calls = s.calls ++ free_compute_resources node_set node cores ∷ [] })
unfolding create_user_compute_entry free_user_compute_entry with_tenant
free_user_compute_entry-create uid node cores job_id node_set s h =
    let e : ComputeResources = record {
      node_set = node_set;
      node = node;
      cores = cores;
      job_id = job_id;
    } in
    let made = on_tenant-new uid job_id e s.user_list (==ℤ_refl job_id) h in
    let state : List Tenant × List Call → UserManagement =
      λ r. record s { user_list = r.0; calls = s.calls ++ r.1 } in
    let free : UserManagement → Result UserManagement = λ t.
      on_tenant uid (free_in job_id) t.user_list
      >>= (λ r. ok (record t { user_list = r.0; calls = t.calls ++ r.1 })) in
    ap (λ r. r >>= (λ q. ok (state q)) >>= free) made.1
    ∙ ap
        (λ r. r >>= (λ q.
          ok (record (state (made.0, [])) { user_list = q.0; calls = (s.calls ++ []) ++ q.1 })))
        made.2
    ∙ ap (λ c. ok (record s { calls = c ++ free_compute_resources node_set node cores ∷ [] }))
        (append-nil s.calls)
