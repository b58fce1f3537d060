-- ===== src/Network/Local/Tests.antt =====
-- A machine listens on port 80, and another node connects to it.
use docker_sim.Prelude.{
  ◌≡◌, refl, true, false, if◌then◌else◌, some, [], ◌∷◌, ℕ, pos, negsuc, ◌==ℤ◌, ok, ◌==◌,
}
use docker_sim.Network.VirtualIps.{VirtualIps, ◌==ip◌, equal_ips, get_virtual_ip}
use docker_sim.Network.PortTable.{PortTable, find_row}
use docker_sim.Network.Manager.{NetworkManager}
use docker_sim.Network.Manager.Addresses.{search_node_ip, get_vm_id, find_vip, cells_of}
use docker_sim.Network.Manager.Nodes.{get_node_from_ports_table, search_loop, table_at}
use docker_sim.Network.Pat.{new_pat, get_new_port, next_free, mark}
use docker_sim.Network.Pat.Operations.{NetMessage}
use docker_sim.Network.Local.{
  Local, Net, manage_listen, manage_create_connection, readdressed, close_message,
}
use docker_sim.Network.Local.Connect.{asking, at_node, manage_listen-manage_create_connection}

abbrev ten : ℕ → ℕ → VirtualIps
ten m n = record { first = 10; second = 0; third = m; fourth = n }

abbrev named : ℕ → PortTable
named n = record { ip_node = some (ten 0 n); virtual_ports = [] }

-- User 1 has machine 7 at 10.0.9.1, on the node 10.0.0.5.
abbrev manager : NetworkManager
manager = record {
  ips_cloud =
      record {
        user_id = pos 1;
        holes_ip = [];
        virtual_ip_cell =
            record { virtual_ip = ten 9 1; ip_node = some (ten 0 5); vm_id = pos 7 } ∷ [];
        last_ip = some (ten 9 1);
      }
      ∷ [];
  ip_basis = some (ten 9 0);
  ports_per_node = named 1 ∷ named 5 ∷ named 9 ∷ [];
}

abbrev node_at : ℕ → Local
node_at n = record { ip_local_node = some (ten 0 n); pat = new_pat }

abbrev listening : NetMessage
listening = record (close_message (pos 1) (pos 7) (negsuc 0)) { local_port = pos 80 }

abbrev caller : NetMessage
caller = close_message (pos 1) (pos 8) (negsuc 0)

manage_listen-manage_create_connection_example :
    (n' : Net) × (manage_listen listening (at_node (node_at 5) manager)
      ≡ ok (record listening { local_port = pos 1024; virtual_local_port = pos 80 }, n'))
    × (manage_create_connection
          (asking listening (ten 9 1) caller)
          (at_node (node_at 9) n'.net_manager)
        ≡ ok (
          pos 0,
          readdressed
              (record (asking listening (ten 9 1) caller) { virtual_user = pos 1 })
              (some (ten 9 1))
              (some (ten 0 5))
              (some (ten 0 9))
              (pos 1024),
        ))
unfolding close_message get_new_port next_free mark new_pat get_node_from_ports_table search_loop
    table_at find_row search_node_ip get_vm_id find_vip cells_of get_virtual_ip ◌==ip◌ equal_ips
    ◌==ℤ◌
manage_listen-manage_create_connection_example =
    manage_listen-manage_create_connection listening caller (at_node (node_at 5) manager)
      (node_at 9) (ten 9 1) (ten 0 5) 1024 1
      (record new_pat { free_ports = λ i. if i == 1024 then true else false; port_ptr = 1025 })
      (named 5) refl refl refl refl tt refl refl refl
