-- ===== src/Network/PortTable.antt =====
-- PortTable (Management/NetworkManager/PortTable.{h,cc}): for one node, the real ports that its
-- virtual machines hold behind each virtual port. Every `new` block is stored in one place only,
-- so rows are values. `PORT_NOT_FOUND` is the integer -1, as in the source.
pub mod Lookup
pub mod Rows
pub mod Free
pub mod Tests
use docker_sim.Prelude.{
  ℕ, zero, suc, Bool, true, false, ◌&&◌, Option, none, some, List, [], ◌∷◌, ◌++◌, ℤ, pos, negsuc,
  ◌==ℤ◌, if◌then◌else◌,
}
use docker_sim.Network.VirtualIps.{Address}

-- Port status.
abbrev pub port_open : ℤ
port_open = pos 0

abbrev pub port_not_found : ℤ
port_not_found = negsuc 0

pub record RealPorts : Type 0 where
  pub vm_id : ℤ
  pub user : ℤ
  pub r_port : ℤ
  pub operation : ℤ

pub record Ports : Type 0 where
  pub v_port : ℤ
  pub r_ports : List RealPorts

pub record PortTable : Type 0 where
  pub ip_node : Address
  pub virtual_ports : List Ports

-- The constructor, and `initialize`, which names the node.
unfoldable pub new_port_table : PortTable
new_port_table = record { ip_node = none; virtual_ports = [] }

unfoldable pub initialize : PortTable → Address → PortTable
initialize t ip_node = record t { ip_node = ip_node }

unfoldable pub get_ip_node : PortTable → Address
get_ip_node t = t.ip_node

-- The test that all the loops over `rPorts` make.
unfoldable pub is_owner : ℤ → ℤ → RealPorts → Bool
is_owner vm_id user r = (r.vm_id ==ℤ vm_id) && (r.user ==ℤ user)

-- The loop of `registerPort`, and its `push_back` when no row has the virtual port.
unfoldable pub register_row : ℤ → RealPorts → List Ports → List Ports
register_row v_port real_port [] = record { v_port = v_port; r_ports = real_port ∷ [] } ∷ []
register_row v_port real_port (p ∷ ps) =
    if p.v_port ==ℤ v_port
    then record p { r_ports = p.r_ports ++ real_port ∷ [] } ∷ ps
    else p ∷ register_row v_port real_port ps

unfoldable pub register_port : ℤ → ℤ → ℤ → ℤ → ℤ → PortTable → PortTable
register_port r_port v_port user vm_id operation t = record t {
  virtual_ports =
      register_row v_port
        (record { vm_id = vm_id; user = user; r_port = r_port; operation = operation })
        t.virtual_ports;
}

-- The inner loop: the first real port of the machine in a row.
unfoldable pub find_owner : ℤ → ℤ → List RealPorts → Option RealPorts
find_owner vm_id user [] = none
find_owner vm_id user (r ∷ rs) = if is_owner vm_id user r then some r else find_owner vm_id user rs

-- The outer loop of `getRealPort`, which goes on to later rows when a row has no port of the
-- machine.
unfoldable pub find_row : ℤ → ℤ → ℤ → List Ports → Option RealPorts
find_row v_port vm_id user [] = none
find_row v_port vm_id user (p ∷ ps) =
    let later = find_row v_port vm_id user ps in
    if p.v_port ==ℤ v_port
    then elim (find_owner vm_id user p.r_ports) [ some r ↦ some r | none ↦ later ]
    else later

unfoldable pub get_real_port : ℤ → ℤ → ℤ → PortTable → ℤ
get_real_port v_port vm_id user t = elim (find_row v_port vm_id user t.virtual_ports) [
  | some r ↦ r.r_port
  | none ↦ port_not_found
]

-- `getOpenRealPort` looks at the first row of the virtual port only.
unfoldable pub first_row : ℤ → List Ports → List RealPorts
first_row v_port [] = []
first_row v_port (p ∷ ps) = if p.v_port ==ℤ v_port then p.r_ports else first_row v_port ps

unfoldable pub get_open_real_port : ℤ → ℤ → ℤ → PortTable → ℤ
get_open_real_port v_port user vm_id t =
    elim (find_owner vm_id user (first_row v_port t.virtual_ports)) [
      | some r ↦ if r.operation ==ℤ port_open then r.r_port else port_not_found
      | none ↦ port_not_found
    ]

-- The inner loop of `freeVMPorts`: every real port of the machine is erased.
unfoldable pub erase_owner : ℤ → ℤ → List RealPorts → List RealPorts
erase_owner vm_id user [] = []
erase_owner vm_id user (r ∷ rs) =
    if is_owner vm_id user r then erase_owner vm_id user rs else r ∷ erase_owner vm_id user rs

unfoldable pub free_rows : ℤ → ℤ → List Ports → List Ports
free_rows vm_id user [] = []
free_rows vm_id user (p ∷ ps) =
    record p { r_ports = erase_owner vm_id user p.r_ports } ∷ free_rows vm_id user ps

unfoldable pub free_vm_ports : ℤ → ℤ → PortTable → PortTable
free_vm_ports vm_id user t = record t { virtual_ports = free_rows vm_id user t.virtual_ports }

-- The inner loop of `freePort`: the first real port of the machine is erased, and reported.
unfoldable pub erase_first : ℤ → ℤ → List RealPorts → List RealPorts
erase_first vm_id user [] = []
erase_first vm_id user (r ∷ rs) =
    if is_owner vm_id user r then rs else r ∷ erase_first vm_id user rs

pub record FreeState : Type 0 where
  pub found : Bool
  pub real_port : ℤ

-- One pass of the inner loop, which its guard `!found` skips once a port has been freed.
unfoldable pub free_inner : ℤ → ℤ → FreeState → Ports → FreeState × Ports
free_inner vm_id user s p = if s.found then (s, p) else elim (find_owner vm_id user p.r_ports) [
  | some r ↦ (
    record { found = true; real_port = r.r_port },
    record p { r_ports = erase_first vm_id user p.r_ports },
  )
  | none ↦ (s, p)
]

-- The outer loop of `freePort` on fuel: the rows behind the index `i` and those from it on. The
-- branch that finds the virtual port does not advance `i`. `none`: the fuel ran out.
unfoldable pub free_loop :
    ℕ → ℤ → ℤ → ℤ → FreeState → List Ports → List Ports → Option (FreeState × List Ports)
free_loop zero vm_id user v_port s before rows = none
free_loop (suc fuel) vm_id user v_port s before [] = some (s, before)
free_loop (suc fuel) vm_id user v_port s before (p ∷ ps) =
    let stay =
      free_loop fuel vm_id user v_port (free_inner vm_id user s p).0 before
        ((free_inner vm_id user s p).1 ∷ ps) in
    let next = free_loop fuel vm_id user v_port s (before ++ p ∷ []) ps in
    if p.v_port ==ℤ v_port then stay else next

unfoldable pub free_port : ℕ → ℤ → ℤ → ℤ → PortTable → Option (ℤ × PortTable)
free_port fuel vm_id user v_port t =
    elim (free_loop fuel vm_id user v_port (record { found = false; real_port = negsuc 0 }) []
      t.virtual_ports) [
        | none ↦ none
        | some (s, rows) ↦
            some (if s.found then s.real_port else negsuc 0, record t { virtual_ports = rows })
      ]
