-- ===== src/Management/Allocation/Placed.antt =====
-- The machine of a new user, from its allocation to its removal.
use docker_sim.Prelude.{
  ℕ, suc, ◌+◌, ◌≡◌, refl, sym, ap, ◌∙◌, subst, true, none, some, List, [], ◌∷◌, ◌++◌, ℤ, pos,
  negsuc, ◌==ℤ◌, ==ℤ_refl, length, set, get_elem?-append, Result, ok, err, ◌>>=◌, bad_iterator,
  arith, if-true, if-false, Bool-cases, inl, inr,
}
use docker_sim.Management.Machines.{Machine}
use docker_sim.Management.Allocation.{
  Vmid, VmAllocation, UserVmAllocation, AllocationManagement, initialize_vmid, search_from,
  search_user_vm_allocation, push_vm, update_user, update_nodes, update_vm_management_structures,
  nodes_at, storage_nodes_in, user_at, get_storage_nodes_of_vm, delete_rounds, delete_nodes_in,
  erase_user_at, delete_vm_from_storage_nodes,
}
use docker_sim.Management.Allocation.Nodes.{nodes_at-names, update_nodes-names}

set-append {ℓ} :
    {A : Type ℓ} (before later : List A) (a b : A)
    → set (before ++ a ∷ later) (length before) b ≡ before ++ b ∷ later
set-append [] later a b = refl
set-append (x ∷ before) later a b = ap (◌∷◌ x) (set-append before later a b)

erase_user_at-last :
    (users : List UserVmAllocation) (a : UserVmAllocation)
    → erase_user_at (length users) (users ++ a ∷ []) ≡ users
unfolding erase_user_at
erase_user_at-last [] a = refl
erase_user_at-last (x ∷ users) a = ap (◌∷◌ x) (erase_user_at-last users a)

not_position : {n m : ℕ} → pos n ≡ negsuc m → ⊥
not_position h = subst (λ i. elim i [ pos n ↦ Unit | negsuc n ↦ ⊥ ]) h tt

search_from-last :
    (i : ℕ) (uid : ℤ) (users : List UserVmAllocation) (a : UserVmAllocation)
    → search_from i uid users ≡ negsuc 0
    → (uid ==ℤ a.user) ≡ true
    → search_from i uid (users ++ a ∷ []) ≡ pos (i + length users)
unfolding search_from
search_from-last i uid [] a h k =
    if-true _ _ k ∙ ap pos (let same : i ≡ i + 0 = omega arith in same)
search_from-last i uid (x ∷ users) a h k = elim (Bool-cases (uid ==ℤ x.user)) [
  | inl e ↦ elim (not_position (sym (if-true _ _ e) ∙ h)) [ ]
  | inr e ↦
      if-false _ _ e
      ∙ search_from-last (suc i) uid users a (sym (if-false _ _ e) ∙ h) k
      ∙ ap pos (let same : suc i + length users ≡ i + suc (length users) = omega arith in same)
]

-- The entry of a user with one machine.
abbrev placed : ℤ → List ℤ → ℤ → ℤ → UserVmAllocation
placed p ps vm_pid user_id = record {
  vm_resources_info =
      record { storage_node_position = p ∷ ps; vm = initialize_vmid user_id vm_pid } ∷ [];
  user = user_id;
}

update_user-new :
    (p : ℤ) (ps : List ℤ) (vm_pid user_id : ℤ) (s : AllocationManagement)
    → search_user_vm_allocation user_id s ≡ negsuc 0
    → update_user (p ∷ ps) vm_pid user_id s ≡ ok (s.user_vm_data ++ placed p ps vm_pid user_id ∷ [])
unfolding update_user push_vm
update_user-new p ps vm_pid user_id s h =
    let fresh : UserVmAllocation = record { vm_resources_info = []; user = user_id } in
    let vm_al : VmAllocation = record {
      storage_node_position = p ∷ ps;
      vm = initialize_vmid user_id vm_pid;
    } in
    let users : List UserVmAllocation = s.user_vm_data ++ fresh ∷ [] in
    let n : ℕ = length s.user_vm_data in
    ap (λ i. elim i [ pos n ↦ push_vm n vm_al s.user_vm_data | negsuc m ↦ push_vm n vm_al users ]) h
    ∙ ap
        (λ o. elim o [
          | none ↦ err bad_iterator
          | some a ↦
              ok (set users n (record a { vm_resources_info = a.vm_resources_info ++ vm_al ∷ [] }))
        ])
        (get_elem?-append s.user_vm_data [] fresh)
    ∙ ap ok (set-append s.user_vm_data [] fresh (placed p ps vm_pid user_id))

-- For a user without machines, and positions that are storage nodes, at least one, the allocation of
-- a machine succeeds; the storage nodes of the machine, which one round of the loop or more finds,
-- are then the nodes at the positions, and its removal returns these nodes and leaves the data of
-- the users as they were before the allocation, while the lists of machines of the storage nodes
-- stay as the allocation left them.
pub update_vm_management_structures-placed :
    (rounds : ℕ) (p : ℤ) (ps : List ℤ) (vm_pid user_id : ℤ) (s : AllocationManagement)
    (nodes : List Machine)
    → search_user_vm_allocation user_id s ≡ negsuc 0
    → nodes_at (p ∷ ps) s ≡ ok nodes
    → (t : AllocationManagement) × (update_vm_management_structures (p ∷ ps) vm_pid user_id s
        ≡ ok t)
      × (get_storage_nodes_of_vm (suc rounds) (search_user_vm_allocation user_id t) vm_pid t
          ≡ ok nodes)
      × (delete_vm_from_storage_nodes (search_user_vm_allocation user_id t) vm_pid t
          ≡ ok (record t { user_vm_data = s.user_vm_data }, nodes))
unfolding update_vm_management_structures get_storage_nodes_of_vm delete_vm_from_storage_nodes
    search_user_vm_allocation user_at storage_nodes_in delete_nodes_in delete_rounds initialize_vmid
update_vm_management_structures-placed rounds p ps vm_pid user_id s nodes new_user h =
    let ks : List ℤ = p ∷ ps in
    let entry : UserVmAllocation = placed p ps vm_pid user_id in
    let users : List UserVmAllocation = s.user_vm_data ++ entry ∷ [] in
    let n : ℕ = length s.user_vm_data in
    let vmid : Vmid = initialize_vmid user_id vm_pid in
    let updated = update_nodes-names ks vmid s nodes h in
    let t : AllocationManagement = record s {
      storage_nodes_occupation = updated.0;
      user_vm_data = users;
    } in
    let found : search_user_vm_allocation user_id t ≡ pos n =
      search_from-last 0 user_id s.user_vm_data entry new_user (==ℤ_refl user_id)
      ∙ ap pos (let same : 0 + n ≡ n = omega arith in same) in
    let at : nodes_at ks t ≡ ok nodes = nodes_at-names ks t s updated.2 ∙ h in
    let here : user_at (pos n) t ≡ ok entry =
      ap (λ o. elim o [ none ↦ err bad_iterator | some a ↦ ok a ])
        (get_elem?-append s.user_vm_data [] entry) in
    let same : (vm_pid ==ℤ vm_pid) ≡ true = ==ℤ_refl vm_pid in
    let done : Result (List Machine) → Result (AllocationManagement × List Machine) =
      λ r. r >>= (λ nodes. ok (record t { user_vm_data = erase_user_at n users }, nodes)) in
    (
      t,
      ap
            (λ r. r >>= (λ users. update_nodes ks vmid s.storage_nodes_occupation >>= (λ nodes.
              ok (record s { storage_nodes_occupation = nodes; user_vm_data = users }))))
            (update_user-new p ps vm_pid user_id s new_user)
          ∙ ap
              (λ r. r >>= (λ nodes.
                ok (record s { storage_nodes_occupation = nodes; user_vm_data = users })))
              updated.1,
      ap (λ i. get_storage_nodes_of_vm (suc rounds) i vm_pid t) found
          ∙ ap (λ r. r >>= (λ a. storage_nodes_in (suc rounds) vm_pid a.vm_resources_info t)) here
          ∙ if-true _ _ same
          ∙ at,
      ap (λ i. delete_vm_from_storage_nodes i vm_pid t) found
          ∙ ap (λ r. done (r >>= (λ a. delete_nodes_in vm_pid a.vm_resources_info t))) here
          ∙ ap done (if-true _ _ same ∙ at)
          ∙ ap (λ l. ok (record t { user_vm_data = l }, nodes))
              (erase_user_at-last s.user_vm_data entry),
    )
