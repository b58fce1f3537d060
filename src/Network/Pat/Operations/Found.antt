-- ===== src/Network/Pat/Operations/Found.antt =====
-- The cells of users and machines: what is put in is found.
use docker_sim.Prelude.{
  ◌≡◌, inl, inr, sym, ap, ◌∙◌, true, none, some, List, [], ◌∷◌, ◌++◌, ℤ, Option, ◌==ℤ◌, ==ℤ_refl,
  if-true, if-false, Bool-cases, Option-cases, arith,
}
use docker_sim.Network.PortCell.{PortCell, new_port_cell, set_vm_id}
use docker_sim.Network.UserCell.{
  UserCell, new_user_cell, set_user_id, search_vm, find_vm, new_vm, find_vm-append,
}
use docker_sim.Network.Pat.{Pat}
use docker_sim.Network.Pat.Operations.{
  find_user, search_user, new_user, replace_user, user_or_new, vm_or_new,
}

pub find_user-append :
    (u_id : ℤ) (u : UserCell) (us : List UserCell)
    → find_user u_id us ≡ none
    → u.user ==ℤ u_id ≡ true
    → find_user u_id (us ++ u ∷ []) ≡ some u
unfolding find_user
find_user-append u_id u [] h k = if-true _ _ k
find_user-append u_id u (x ∷ us) h k = elim (Bool-cases (x.user ==ℤ u_id)) [
  | inl e ↦ let no : ⊥ = ground (arith, h, e) in elim no [ ]
  | inr e ↦ if-false _ _ e ∙ find_user-append u_id u us (sym (if-false _ _ e) ∙ h) k
]

pub find_user-id :
    (u_id : ℤ) (u : UserCell) (us : List UserCell)
    → find_user u_id us ≡ some u
    → u.user ==ℤ u_id ≡ true
unfolding find_user
find_user-id u_id u [] h = let no : ⊥ = ground (arith, h) in elim no [ ]
find_user-id u_id u (x ∷ us) h = ground (arith, h, find_user-id u_id u us)

pub find_user-replace_user :
    (u_id : ℤ) (u new : UserCell) (us : List UserCell)
    → find_user u_id us ≡ some u
    → new.user ==ℤ u_id ≡ true
    → find_user u_id (replace_user u_id new us) ≡ some new
unfolding find_user replace_user
find_user-replace_user u_id u new [] h k = let no : ⊥ = ground (arith, h) in elim no [ ]
find_user-replace_user u_id u new (x ∷ us) h k = elim (Bool-cases (x.user ==ℤ u_id)) [
  | inl e ↦ ap (find_user u_id) (if-true _ _ e) ∙ if-true _ _ k
  | inr e ↦
      ap (find_user u_id) (if-false _ _ e)
      ∙ if-false _ _ e
      ∙ find_user-replace_user u_id u new us (sym (if-false _ _ e) ∙ h) k
]

abbrev pub with_users : List UserCell → Pat → Pat
with_users us s = record s { user_vm_ports = us }

-- The user that is found or made: it is found, and the ports are as they were.
pub user_or_new-found :
    (u_id : ℤ) (s : Pat)
    → (us : List UserCell) × (u : UserCell) × (user_or_new u_id s ≡ (with_users us s, u))
      × (find_user u_id us ≡ some u)
unfolding user_or_new search_user new_user set_user_id
user_or_new-found u_id s =
    let result : Option UserCell → Pat × UserCell =
      λ o. elim o [ some u ↦ (s, u) | none ↦ (new_user u_id s, set_user_id u_id new_user_cell) ] in
    elim (Option-cases (find_user u_id s.user_vm_ports)) [
      | inl e ↦ (
        s.user_vm_ports ++ set_user_id u_id new_user_cell ∷ [],
        set_user_id u_id new_user_cell,
        ap result e,
        find_user-append u_id (set_user_id u_id new_user_cell) s.user_vm_ports e (==ℤ_refl u_id),
      )
      | inr (u, e) ↦ (s.user_vm_ports, u, ap result e, e)
    ]

pub vm_or_new-found :
    (p_id : ℤ) (u : UserCell)
    → (cs : List PortCell) × (c : PortCell) × (vm_or_new p_id u ≡ (record u { vm_ports = cs }, c))
      × (find_vm p_id cs ≡ some c)
unfolding vm_or_new search_vm new_vm set_vm_id
vm_or_new-found p_id u =
    let result : Option PortCell → UserCell × PortCell =
      λ o. elim o [ some c ↦ (u, c) | none ↦ (new_vm p_id u, set_vm_id p_id new_port_cell) ] in
    elim (Option-cases (find_vm p_id u.vm_ports)) [
      | inl e ↦ (
        u.vm_ports ++ set_vm_id p_id new_port_cell ∷ [],
        set_vm_id p_id new_port_cell,
        ap result e,
        find_vm-append p_id (set_vm_id p_id new_port_cell) u.vm_ports e (==ℤ_refl p_id),
      )
      | inr (c, e) ↦ (u.vm_ports, c, ap result e, e)
    ]
