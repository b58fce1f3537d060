-- ===== src/Network/PortTable/Rows.antt =====
-- The rows of a port table have distinct virtual ports.
use docker_sim.Prelude.{◌≡◌, ◌≢◌, refl, List, [], ◌∷◌, ℤ, ==ℤ_iff, arith, none}
use docker_sim.Network.PortTable.{
  PortTable, Ports, RealPorts, register_row, register_port, free_rows, free_vm_ports, find_row,
  find_owner, first_row,
}

-- No row has this virtual port.
abbrev pub IsNew : ℤ → List Ports → Type 0
IsNew v [] = Unit {0}
IsNew v (p ∷ ps) = (p.v_port ≢ v) × IsNew v ps

abbrev pub DistinctRows : List Ports → Type 0
DistinctRows [] = Unit {0}
DistinctRows (p ∷ ps) = IsNew p.v_port ps × DistinctRows ps

abbrev pub IsDistinct : PortTable → Type 0
IsDistinct t = DistinctRows t.virtual_ports

register_row-IsNew :
    (w v : ℤ) (r : RealPorts) (ps : List Ports) → v ≢ w → IsNew w ps → IsNew w (register_row v r ps)
unfolding register_row
register_row-IsNew w v r [] h k = (h, tt)
register_row-IsNew w v r (p ∷ ps) h k = ground (arith, register_row-IsNew w v r ps h k.1)

register_row-DistinctRows :
    (v : ℤ) (r : RealPorts) (ps : List Ports) → DistinctRows ps → DistinctRows (register_row v r ps)
unfolding register_row
register_row-DistinctRows v r [] h = (tt, tt)
register_row-DistinctRows v r (p ∷ ps) h = ground (
  arith,
  register_row-DistinctRows v r ps h.1,
  register_row-IsNew p.v_port v r ps,
  ==ℤ_iff p.v_port v,
)

free_rows-IsNew : (w vm user : ℤ) (ps : List Ports) → IsNew w ps → IsNew w (free_rows vm user ps)
unfolding free_rows
free_rows-IsNew w vm user [] h = tt
free_rows-IsNew w vm user (p ∷ ps) h = (h.0, free_rows-IsNew w vm user ps h.1)

free_rows-DistinctRows :
    (vm user : ℤ) (ps : List Ports) → DistinctRows ps → DistinctRows (free_rows vm user ps)
unfolding free_rows
free_rows-DistinctRows vm user [] h = tt
free_rows-DistinctRows vm user (p ∷ ps) h =
    (free_rows-IsNew p.v_port vm user ps h.0, free_rows-DistinctRows vm user ps h.1)

-- `registerPort` keeps the virtual ports of the rows distinct.
pub register_port-IsDistinct :
    (r_port v_port user vm_id operation : ℤ) (t : PortTable)
    → IsDistinct t
    → IsDistinct (register_port r_port v_port user vm_id operation t)
unfolding register_port
register_port-IsDistinct r_port v_port user vm_id operation t h =
    register_row-DistinctRows v_port _ t.virtual_ports h

-- So does `freeVMPorts`.
pub free_vm_ports-IsDistinct :
    (vm_id user : ℤ) (t : PortTable) → IsDistinct t → IsDistinct (free_vm_ports vm_id user t)
unfolding free_vm_ports
free_vm_ports-IsDistinct vm_id user t h = free_rows-DistinctRows vm_id user t.virtual_ports h

-- In a new row nothing is found.
pub find_row_new : (v vm user : ℤ) (ps : List Ports) → IsNew v ps → find_row v vm user ps ≡ none
unfolding find_row
find_row_new v vm user [] h = refl
find_row_new v vm user (p ∷ ps) h =
    ground (arith, find_row_new v vm user ps h.1, ==ℤ_iff p.v_port v)

-- With distinct rows the search in all rows is the search in the first.
pub find_row-first_row :
    (v vm user : ℤ) (ps : List Ports)
    → DistinctRows ps
    → find_row v vm user ps ≡ find_owner vm user (first_row v ps)
unfolding find_row first_row find_owner
find_row-first_row v vm user [] h = refl
find_row-first_row v vm user (p ∷ ps) h =
    ground
      (arith, find_row-first_row v vm user ps h.1, find_row_new v vm user ps, ==ℤ_iff p.v_port v)
