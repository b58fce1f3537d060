-- ===== src/Network/PortCell.antt =====
-- Vm_VirtualPort_Cell
-- (Virtualization/Hypervisor/HypervisorManagers/H_NetworkManager/LocalNetManager/PAT): the ports of
-- one machine. The loops of the class differ in the field they compare, which is a test here.
pub mod Loops
pub mod Laws
pub mod Tests
use docker_sim.Prelude.{
  ℕ, Bool, true, false, Option, none, some, List, [], ◌∷◌, ◌++◌, ℤ, pos, negsuc, ◌==ℤ◌,
  if◌then◌else◌, map,
}
use docker_sim.Network.VirtualIps.{Address}

pub record Port : Type 0 where
  pub r_port : ℤ
  pub v_port : ℤ
  pub connection_id : ℤ

pub record PortCell : Type 0 where
  pub vm_ip : Address
  pub vm_id : ℤ
  pub ports : List Port

abbrev pub new_port_cell : PortCell
new_port_cell = record { vm_ip = none; vm_id = negsuc 0; ports = [] }

unfoldable pub set_vm_id : ℤ → PortCell → PortCell
set_vm_id id c = record c { vm_id = id }

unfoldable pub set_vm_ip : Address → PortCell → PortCell
set_vm_ip ip c = record c { vm_ip = ip }

abbrev pub has_r_port : ℤ → Port → Bool
has_r_port real_port p = p.r_port ==ℤ real_port

abbrev pub has_v_port : ℤ → Port → Bool
has_v_port virtual_port p = p.v_port ==ℤ virtual_port

abbrev pub has_connection : ℤ → Port → Bool
has_connection conn_id p = p.connection_id ==ℤ conn_id

-- The loops: the first port that meets a test, the ports without it, and with it changed.
unfoldable pub first_port : (Port → Bool) → List Port → Option Port
first_port t [] = none
first_port t (p ∷ ps) = if t p then some p else first_port t ps

unfoldable pub erase_first : (Port → Bool) → List Port → List Port
erase_first t [] = []
erase_first t (p ∷ ps) = if t p then ps else p ∷ erase_first t ps

unfoldable pub connect_first : (Port → Bool) → ℤ → List Port → List Port
connect_first t conn_id [] = []
connect_first t conn_id (p ∷ ps) =
    if t p then record p { connection_id = conn_id } ∷ ps else p ∷ connect_first t conn_id ps

unfoldable pub set_port : ℤ → ℤ → PortCell → PortCell
set_port real_port virtual_port c = record c {
  ports =
      c.ports
      ++ record { r_port = real_port; v_port = virtual_port; connection_id = negsuc 0 } ∷ [];
}

unfoldable pub set_connection_id : ℤ → ℤ → PortCell → PortCell
set_connection_id real_port conn_id c = record c {
  ports = connect_first (has_r_port real_port) conn_id c.ports;
}

-- -1 stands for a port that is not there.
unfoldable pub get_virtual_port : ℤ → PortCell → ℤ
get_virtual_port real_port c = elim (first_port (has_r_port real_port) c.ports) [
  | none ↦ negsuc 0
  | some p ↦ p.v_port
]

unfoldable pub get_real_port : ℤ → PortCell → ℤ
get_real_port virtual_port c = elim (first_port (has_v_port virtual_port) c.ports) [
  | none ↦ negsuc 0
  | some p ↦ p.r_port
]

-- `none` is a value that is never set.
unfoldable pub get_connection_id : ℤ → PortCell → Option ℤ
get_connection_id virtual_port c = elim (first_port (has_v_port virtual_port) c.ports) [
  | none ↦ none
  | some p ↦ some p.connection_id
]

abbrev pub is_connected : Port → Bool
is_connected p = elim p.connection_id [ pos n ↦ true | negsuc n ↦ false ]

unfoldable pub connected : List Port → List Port
connected [] = []
connected (p ∷ ps) = if is_connected p then p ∷ connected ps else connected ps

unfoldable pub get_all_r_ports : PortCell → List ℤ
unfolding connected
get_all_r_ports c = map (λ p. p.r_port) (connected c.ports)

unfoldable pub get_all_connection_ids : PortCell → List ℤ
unfolding connected
get_all_connection_ids c = map (λ p. p.connection_id) (connected c.ports)

unfoldable pub delete_port_by_connection_id : ℤ → PortCell → PortCell
delete_port_by_connection_id conn_id c = record c {
  ports = erase_first (has_connection conn_id) c.ports;
}

unfoldable pub delete_port_by_r_port : ℤ → PortCell → PortCell
delete_port_by_r_port real_port c = record c { ports = erase_first (has_r_port real_port) c.ports }

unfoldable pub delete_port_by_v_port : ℤ → PortCell → PortCell
delete_port_by_v_port virtual_port c = record c {
  ports = erase_first (has_v_port virtual_port) c.ports;
}
