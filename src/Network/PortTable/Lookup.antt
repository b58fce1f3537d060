-- ===== src/Network/PortTable/Lookup.antt =====
-- What `getRealPort` and `getOpenRealPort` find after `registerPort` and `freeVMPorts`.
use docker_sim.Prelude.{
  ◌&&◌, ◌≡◌, refl, List, [], ◌∷◌, ◌++◌, ℤ, ◌==ℤ◌, ==ℤ_iff, Option, some, none, arith, if◌then◌else◌,
}
use docker_sim.Network.PortTable.{
  PortTable, Ports, RealPorts, is_owner, register_row, register_port, erase_owner, free_rows,
  free_vm_ports, find_row, find_owner, get_real_port, get_open_real_port, port_open, port_not_found,
}
use docker_sim.Network.PortTable.Rows.{DistinctRows, IsDistinct, find_row_new, find_row-first_row}

-- The first of two results that is there.
abbrev or_else : Option RealPorts → Option RealPorts → Option RealPorts
or_else (some r) o = some r
or_else none o = o

-- The real port of a result, as the loops report it.
abbrev pub port_of : Option RealPorts → ℤ
port_of (some r) = r.r_port
port_of none = port_not_found

find_owner-append :
    (vm user : ℤ) (rs : List RealPorts) (r : RealPorts)
    → find_owner vm user (rs ++ r ∷ [])
      ≡ or_else (find_owner vm user rs) (if is_owner vm user r then some r else none)
unfolding find_owner
find_owner-append vm user [] r = refl
find_owner-append vm user (x ∷ rs) r = ground (arith, find_owner-append vm user rs r)

find_row-register_row :
    (w v vm user : ℤ) (r : RealPorts) (ps : List Ports)
    → DistinctRows ps
    → find_row w vm user (register_row v r ps)
      ≡ or_else (find_row w vm user ps) (if (v ==ℤ w) && is_owner vm user r then some r else none)
unfolding find_row register_row find_owner
find_row-register_row w v vm user r [] h = ground arith
find_row-register_row w v vm user r (p ∷ ps) h = ground (
  arith,
  find_row-register_row w v vm user r ps h.1,
  find_owner-append vm user p.r_ports r,
  find_row_new w vm user ps,
  ==ℤ_iff p.v_port v,
  ==ℤ_iff p.v_port w,
  ==ℤ_iff v w,
)

-- After a port is registered, the search finds the older port of the same machine behind that
-- virtual port if there was one, otherwise the new port for its own virtual port, machine and
-- user, and what it found before for all others. The rows must have distinct virtual ports.
pub get_real_port-register_port :
    (r_port v user vm operation w vm' user' : ℤ) (t : PortTable)
    → IsDistinct t
    → get_real_port w vm' user' (register_port r_port v user vm operation t)
      ≡ elim (find_row w vm' user' t.virtual_ports) [
        | some r ↦ r.r_port
        | none ↦ if (v ==ℤ w) && ((vm ==ℤ vm') && (user ==ℤ user')) then r_port else port_not_found
      ]
unfolding get_real_port register_port is_owner
get_real_port-register_port r_port v user vm operation w vm' user' t h = ground (
  arith,
  find_row-register_row w v vm' user'
      (record { vm_id = vm; user = user; r_port = r_port; operation = operation }) t.virtual_ports
      h,
)

find_owner-erase_owner :
    (vm user vm' user' : ℤ) (rs : List RealPorts)
    → find_owner vm' user' (erase_owner vm user rs)
      ≡ (if (vm ==ℤ vm') && (user ==ℤ user') then none else find_owner vm' user' rs)
unfolding find_owner erase_owner is_owner
find_owner-erase_owner vm user vm' user' [] = ground arith
find_owner-erase_owner vm user vm' user' (r ∷ rs) = ground (
  arith,
  find_owner-erase_owner vm user vm' user' rs,
  ==ℤ_iff r.vm_id vm,
  ==ℤ_iff r.vm_id vm',
  ==ℤ_iff vm vm',
  ==ℤ_iff r.user user,
  ==ℤ_iff r.user user',
  ==ℤ_iff user user',
)

find_row-free_rows :
    (v vm user vm' user' : ℤ) (ps : List Ports)
    → find_row v vm' user' (free_rows vm user ps)
      ≡ (if (vm ==ℤ vm') && (user ==ℤ user') then none else find_row v vm' user' ps)
unfolding find_row free_rows
find_row-free_rows v vm user vm' user' [] = ground arith
find_row-free_rows v vm user vm' user' (p ∷ ps) = ground (
  arith,
  find_row-free_rows v vm user vm' user' ps,
  find_owner-erase_owner vm user vm' user' p.r_ports,
)

-- Freeing the ports of a machine makes every search for that machine and user fail, whatever the
-- virtual port, and leaves every search for another machine or user as it was.
pub get_real_port-free_vm_ports :
    (v vm user vm' user' : ℤ) (t : PortTable)
    → get_real_port v vm' user' (free_vm_ports vm user t)
      ≡ (if (vm ==ℤ vm') && (user ==ℤ user') then port_not_found else get_real_port v vm' user' t)
unfolding get_real_port free_vm_ports
get_real_port-free_vm_ports v vm user vm' user' t =
    ground (arith, find_row-free_rows v vm user vm' user' t.virtual_ports)

-- With distinct rows `getOpenRealPort` finds the entry that `getRealPort` finds, and reports its
-- port exactly if the entry is open.
get_open_real_port-find_row :
    (v user vm : ℤ) (t : PortTable)
    → IsDistinct t
    → get_open_real_port v user vm t ≡ elim (find_row v vm user t.virtual_ports) [
      | some r ↦ if r.operation ==ℤ port_open then get_real_port v vm user t else port_not_found
      | none ↦ port_not_found
    ]
unfolding get_open_real_port get_real_port
get_open_real_port-find_row v user vm t h =
    ground (arith, find_row-first_row v vm user t.virtual_ports h)
