-- ===== src/Network/Manager/Nodes/Tests.antt =====
-- Runs of the search for the table of a node.
use docker_sim.Prelude.{◌≡◌, refl, none, some, List, [], ◌∷◌, pos, ◌==ℤ◌, ok, ℕ, lt_int}
use docker_sim.Network.VirtualIps.{
  VirtualIps, ◌==ip◌, equal_ips, string_to_virtual_ip, printed_length, number_length, digits,
}
use docker_sim.Network.PortTable
use docker_sim.Network.PortTable.{new_port_table, find_row}
use docker_sim.Network.Manager.{NetworkManager}
use docker_sim.Network.Manager.Nodes.{
  Table, register_node, insert_table, is_major_ip, is_major, register_port, get_real_port,
  get_node_from_ports_table, search_loop, table_at,
}
use docker_sim.Network.Manager.Nodes.Lookup.{Located, get_node_from_ports_table-Located}
use docker_sim.Network.Manager.Nodes.Register.{register_port-get_real_port}

abbrev ten : ℕ → VirtualIps
ten n = record { first = 10; second = 0; third = 0; fourth = n }

abbrev named : ℕ → Table
named n = record { ip_node = some (ten n); virtual_ports = [] }

abbrev three_nodes : List Table
three_nodes = named 1 ∷ named 5 ∷ named 9 ∷ []

abbrev manager : NetworkManager
manager = record { ips_cloud = []; ip_basis = none; ports_per_node = three_nodes }

-- The new node is put in order.
put_in_order :
    register_node (some (ten 5)) (record manager { ports_per_node = named 1 ∷ named 9 ∷ [] })
    ≡ ok manager
unfolding register_node insert_table is_major_ip is_major string_to_virtual_ip lt_int printed_length
    number_length digits PortTable.initialize new_port_table
put_in_order = refl

get_node_from_ports_table-Located_example : Located (ten 9) three_nodes
unfolding printed_length number_length digits
get_node_from_ports_table-Located_example =
    get_node_from_ports_table-Located (ten 9) three_nodes
      ((ten 1, refl, refl), ((ten 5, refl, refl), ((ten 9, refl, refl), tt))) refl

-- Port 80 of machine 7 of user 1 at the second node.
register_port-get_real_port_example :
    (m' : NetworkManager) × (register_port
        (pos 1)
        (some (ten 5))
        (pos 7)
        (pos 5000)
        (pos 80)
        (pos 0)
        manager
      ≡ ok m')
    × (get_real_port (some (ten 5)) (pos 80) (pos 1) (pos 7) m' ≡ ok (pos 5000))
    × (m'.ips_cloud ≡ manager.ips_cloud)
unfolding find_row ◌==ℤ◌ get_node_from_ports_table search_loop table_at ◌==ip◌ equal_ips
register_port-get_real_port_example =
    register_port-get_real_port (pos 1) (pos 5000) (pos 80) (pos 7) (pos 0) (pos 80) (pos 1) (pos 7)
      (some (ten 5)) (some (ten 5)) manager 1 (named 5) refl refl tt
