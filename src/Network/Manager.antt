-- ===== src/Network/Manager.antt =====
-- NetworkManager (Management/NetworkManager/NetworkManager.{h,cc}): the virtual addresses of the
-- machines of each user, and the port tables of the nodes. Every `new` block is stored in one
-- place only, so the blocks are values, and a change through a pointer is a change at a position.
pub mod Addresses
pub mod Nodes
use docker_sim.Prelude.{List, [], ◌∷◌, ◌++◌, none, ℤ, negsuc, length, ℕ}
use docker_sim.Network.VirtualIps.{Address, VirtualIps, new_virtual_ips}
use docker_sim.Network.PortTable.{PortTable}

-- VirtualIPCell: a virtual address, the node of its machine, and the machine.
pub record VirtualIpCell : Type 0 where
  pub virtual_ip : VirtualIps
  pub ip_node : Address
  pub vm_id : ℤ

unfoldable pub new_virtual_ip_cell : VirtualIpCell
new_virtual_ip_cell = record { virtual_ip = new_virtual_ips; ip_node = none; vm_id = negsuc 0 }

pub record IpsUserSet : Type 0 where
  pub user_id : ℤ
  pub holes_ip : List Address
  pub virtual_ip_cell : List VirtualIpCell
  pub last_ip : Address

pub record NetworkManager : Type 0 where
  pub ips_cloud : List IpsUserSet
  pub ip_basis : Address
  pub ports_per_node : List PortTable

-- `initialize`, which clears the state.
unfoldable pub new_manager : NetworkManager
new_manager = record { ips_cloud = []; ip_basis = none; ports_per_node = [] }

unfoldable pub create_new_user : ℤ → NetworkManager → NetworkManager
create_new_user new_user_id m = record m {
  ips_cloud =
      m.ips_cloud
      ++ record { user_id = new_user_id; holes_ip = []; virtual_ip_cell = []; last_ip = m.ip_basis }
        ∷ [];
}

unfoldable pub set_ip_basis : Address → NetworkManager → NetworkManager
set_ip_basis ip m = record m { ip_basis = ip }

unfoldable pub get_ip_basis : NetworkManager → Address
get_ip_basis m = m.ip_basis

unfoldable pub get_user_ip_size : NetworkManager → ℕ
get_user_ip_size m = length m.ips_cloud
