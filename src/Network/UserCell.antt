-- ===== src/Network/UserCell.antt =====
-- User_VirtualPort_Cell
-- (Virtualization/Hypervisor/HypervisorManagers/H_NetworkManager/LocalNetManager/PAT): the cells of
-- the machines of one user. A pointer to a cell is used to change it in place: the first cell of
-- the machine is replaced.
use docker_sim.Prelude.{
  ℕ, ◌≡◌, ◌∙◌, ap, sym, true, Option, none, some, List, [], ◌∷◌, ◌++◌, ℤ, negsuc, ◌==ℤ◌, length,
  inl, inr, if◌then◌else◌, if-true, if-false, Bool-cases, arith,
}
use docker_sim.Network.PortCell.{PortCell, new_port_cell, set_vm_id}

pub record UserCell : Type 0 where
  pub user : ℤ
  pub vm_ports : List PortCell

abbrev pub new_user_cell : UserCell
new_user_cell = record { user = negsuc 0; vm_ports = [] }

unfoldable pub set_user_id : ℤ → UserCell → UserCell
set_user_id user_id u = record u { user = user_id }

unfoldable pub find_vm : ℤ → List PortCell → Option PortCell
find_vm vm_id [] = none
find_vm vm_id (c ∷ cs) = if c.vm_id ==ℤ vm_id then some c else find_vm vm_id cs

unfoldable pub search_vm : ℤ → UserCell → Option PortCell
search_vm vm_id u = find_vm vm_id u.vm_ports

unfoldable pub new_vm : ℤ → UserCell → UserCell
new_vm vm_id u = record u { vm_ports = u.vm_ports ++ set_vm_id vm_id new_port_cell ∷ [] }

unfoldable pub erase_cell : ℤ → List PortCell → List PortCell
erase_cell vm_id [] = []
erase_cell vm_id (c ∷ cs) = if c.vm_id ==ℤ vm_id then cs else c ∷ erase_cell vm_id cs

unfoldable pub erase_vm : ℤ → UserCell → UserCell
erase_vm vm_id u = record u { vm_ports = erase_cell vm_id u.vm_ports }

unfoldable pub get_vm_size : UserCell → ℕ
get_vm_size u = length u.vm_ports

-- The cell behind the pointer that the search gives.
unfoldable pub replace_vm : ℤ → PortCell → List PortCell → List PortCell
replace_vm vm_id new [] = []
replace_vm vm_id new (c ∷ cs) = if c.vm_id ==ℤ vm_id then new ∷ cs else c ∷ replace_vm vm_id new cs

-- A cell that is replaced is found, if the new one is of the machine.
pub find_vm-replace_vm :
    (vm_id : ℤ) (c new : PortCell) (cs : List PortCell)
    → find_vm vm_id cs ≡ some c
    → new.vm_id ==ℤ vm_id ≡ true
    → find_vm vm_id (replace_vm vm_id new cs) ≡ some new
unfolding find_vm replace_vm
find_vm-replace_vm vm_id c new [] h k = let no : ⊥ = ground (arith, h) in elim no [ ]
find_vm-replace_vm vm_id c new (x ∷ cs) h k = elim (Bool-cases (x.vm_id ==ℤ vm_id)) [
  | inl e ↦ ap (find_vm vm_id) (if-true _ _ e) ∙ if-true _ _ k
  | inr e ↦
      ap (find_vm vm_id) (if-false _ _ e)
      ∙ if-false _ _ e
      ∙ find_vm-replace_vm vm_id c new cs (sym (if-false _ _ e) ∙ h) k
]

pub find_vm-append :
    (vm_id : ℤ) (c : PortCell) (cs : List PortCell)
    → find_vm vm_id cs ≡ none
    → c.vm_id ==ℤ vm_id ≡ true
    → find_vm vm_id (cs ++ c ∷ []) ≡ some c
unfolding find_vm
find_vm-append vm_id c [] h k = if-true _ _ k
find_vm-append vm_id c (x ∷ cs) h k = elim (Bool-cases (x.vm_id ==ℤ vm_id)) [
  | inl e ↦ let no : ⊥ = ground (arith, h, e) in elim no [ ]
  | inr e ↦ if-false _ _ e ∙ find_vm-append vm_id c cs (sym (if-false _ _ e) ∙ h) k
]

pub find_vm-id :
    (vm_id : ℤ) (c : PortCell) (cs : List PortCell)
    → find_vm vm_id cs ≡ some c
    → c.vm_id ==ℤ vm_id ≡ true
unfolding find_vm
find_vm-id vm_id c [] h = let no : ⊥ = ground (arith, h) in elim no [ ]
find_vm-id vm_id c (x ∷ cs) h = ground (arith, h, find_vm-id vm_id c cs)
