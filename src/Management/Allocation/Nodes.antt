-- ===== src/Management/Allocation/Nodes.antt =====
-- The nodes at the positions of a machine, which do not change when machines are recorded there.
use docker_sim.Prelude.{
  ℕ, zero, suc, ◌≡◌, refl, sym, ap, ◌∙◌, subst, none, some, List, [], ◌∷◌, ◌++◌, map, ℤ, pos,
  negsuc, get_elem?, set, Result, ok, err, ◌>>=◌, bad_iterator, Result-cases, Option-cases, inl,
  inr,
}
use docker_sim.Management.Machines.{Machine}
use docker_sim.Management.Allocation.{
  Vmid, NodeAllocation, AllocationManagement, get_storage_node, push_vmid, update_nodes, nodes_at,
}

-- The machines of the storage nodes.
abbrev node_names : List NodeAllocation → List Machine
node_names nodes = map (λ a. a.storage_node) nodes

failed {ℓ} : {A : Type ℓ} {B : Type 0} {e : _} {a : A} → err e ≡ ok a → B
failed h = elim (subst (λ r. elim r [ err e ↦ Unit | ok a ↦ ⊥ ]) h tt) [ ]

node_names-set :
    (nodes : List NodeAllocation) (n : ℕ) (a : NodeAllocation) (vms : List Vmid)
    → get_elem? nodes n ≡ some a
    → node_names (set nodes n (record a { vms = vms })) ≡ node_names nodes
node_names-set [] n a vms h = refl
node_names-set (x ∷ nodes) zero a vms h =
    ap (λ o. elim o [ none ↦ x.storage_node | some b ↦ b.storage_node ] ∷ node_names nodes) (sym h)
node_names-set (x ∷ nodes) (suc n) a vms h =
    ap (◌∷◌ x.storage_node) (node_names-set nodes n a vms h)

-- The node at a position, from the machines of the nodes.
abbrev node_of : ℤ → List Machine → Result Machine
node_of (negsuc n) ms = err bad_iterator
node_of (pos n) ms = elim (get_elem? ms n) [ none ↦ err bad_iterator | some m ↦ ok m ]

node_of-names :
    (n : ℕ) (nodes : List NodeAllocation)
    → elim (get_elem? nodes n) [ none ↦ err bad_iterator | some a ↦ ok a.storage_node ]
      ≡ node_of (pos n) (node_names nodes)
node_of-names n [] = refl
node_of-names zero (x ∷ nodes) = refl
node_of-names (suc n) (x ∷ nodes) = node_of-names n nodes

get_storage_node-names :
    (k : ℤ) (s : AllocationManagement)
    → get_storage_node k s ≡ node_of k (node_names s.storage_nodes_occupation)
unfolding get_storage_node
get_storage_node-names (negsuc n) s = refl
get_storage_node-names (pos n) s = node_of-names n s.storage_nodes_occupation

pub nodes_at-names :
    (ks : List ℤ) (s t : AllocationManagement)
    → node_names s.storage_nodes_occupation ≡ node_names t.storage_nodes_occupation
    → nodes_at ks s ≡ nodes_at ks t
unfolding nodes_at
nodes_at-names [] s t h = refl
nodes_at-names (k ∷ ks) s t h =
    ap (λ r. r >>= (λ node. nodes_at ks s >>= (λ nodes. ok (node ∷ nodes))))
      (get_storage_node-names k s ∙ ap (node_of k) h ∙ sym (get_storage_node-names k t))
    ∙ ap (λ r. get_storage_node k t >>= (λ node. r >>= (λ nodes. ok (node ∷ nodes))))
        (nodes_at-names ks s t h)

-- The machine is recorded at a node that is there, and the nodes stay.
push_vmid-names :
    (k : ℤ) (v : Vmid) (s : AllocationManagement) (m : Machine)
    → get_storage_node k s ≡ ok m
    → (left : List NodeAllocation) × (push_vmid k v s.storage_nodes_occupation ≡ ok left)
      × (node_names left ≡ node_names s.storage_nodes_occupation)
unfolding get_storage_node push_vmid
push_vmid-names (negsuc n) v s m h = failed h
push_vmid-names (pos n) v s m h = elim (Option-cases (get_elem? s.storage_nodes_occupation n)) [
  | inl e ↦
      failed (sym (ap (λ o. elim o [ none ↦ err bad_iterator | some a ↦ ok a.storage_node ]) e) ∙ h)
  | inr (a, e) ↦
      let nodes = s.storage_nodes_occupation in
      (
        set nodes n (record a { vms = a.vms ++ v ∷ [] }),
        ap
            (λ o. elim o [
              | none ↦ err bad_iterator
              | some a ↦ ok (set nodes n (record a { vms = a.vms ++ v ∷ [] }))
            ])
            e,
        node_names-set nodes n a (a.vms ++ v ∷ []) e,
      )
]

pub update_nodes-names :
    (ks : List ℤ) (v : Vmid) (s : AllocationManagement) (ms : List Machine)
    → nodes_at ks s ≡ ok ms
    → (left : List NodeAllocation) × (update_nodes ks v s.storage_nodes_occupation ≡ ok left)
      × (node_names left ≡ node_names s.storage_nodes_occupation)
unfolding nodes_at update_nodes
update_nodes-names [] v s ms h = (s.storage_nodes_occupation, refl, refl)
update_nodes-names (k ∷ ks) v s ms h =
    let whole : Result Machine → Result (List Machine) =
      λ r. r >>= (λ node. nodes_at ks s >>= (λ nodes. ok (node ∷ nodes))) in
    elim (Result-cases (get_storage_node k s)) [
      | inr (e, g) ↦ failed (sym (ap whole g) ∙ h)
      | inl (m, g) ↦ elim (Result-cases (nodes_at ks s)) [
        | inr (e, f) ↦ failed (sym (ap whole g ∙ ap (λ r. r >>= (λ nodes. ok (m ∷ nodes))) f) ∙ h)
        | inl (ns, f) ↦
            let pushed = push_vmid-names k v s m g in
            let t : AllocationManagement = record s { storage_nodes_occupation = pushed.0 } in
            let later = update_nodes-names ks v t ns (nodes_at-names ks t s pushed.2 ∙ f) in
            (
              later.0,
              ap (λ r. r >>= (λ left. update_nodes ks v left)) pushed.1 ∙ later.1,
              later.2 ∙ pushed.2,
            )
      ]
    ]
