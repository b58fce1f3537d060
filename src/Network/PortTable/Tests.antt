-- ===== src/Network/PortTable/Tests.antt =====
-- Runs of the port table, and its theorems at concrete tables.
use docker_sim.Prelude.{◌≡◌, refl, ◌==ℤ◌, [], ◌∷◌, pos, none, some, inl}
use docker_sim.Network.PortTable.{
  PortTable, register_port, get_real_port, free_vm_ports, free_port, new_port_table, register_row,
  is_owner, find_owner, find_row, port_not_found, initialize,
}
use docker_sim.Network.VirtualIps.{Address}
use docker_sim.Network.PortTable.Lookup.{get_real_port-register_port, get_real_port-free_vm_ports}
use docker_sim.Network.PortTable.Rows.{IsDistinct, register_port-IsDistinct}
use docker_sim.Network.PortTable.Free.{free_port-HasRow}

abbrev node : Address
node = some (record { first = 10; second = 0; third = 0; fourth = 1 })

-- Machine 7 of user 1 holds real port 5000 behind virtual port 80; machine 8 holds 5001.
abbrev two_machines : PortTable
two_machines = record {
  ip_node = node;
  virtual_ports =
      record {
        v_port = pos 80;
        r_ports =
            record { vm_id = pos 7; user = pos 1; r_port = pos 5000; operation = pos 0 }
            ∷ record { vm_id = pos 8; user = pos 1; r_port = pos 5001; operation = pos 2 }
            ∷ [];
      }
      ∷ [];
}

registered_twice :
    register_port
      (pos 5001)
      (pos 80)
      (pos 1)
      (pos 8)
      (pos 2)
      (register_port (pos 5000) (pos 80) (pos 1) (pos 7) (pos 0) (initialize new_port_table node))
    ≡ two_machines
unfolding register_port register_row new_port_table initialize ◌==ℤ◌
registered_twice = refl

two_machines-IsDistinct : IsDistinct two_machines
two_machines-IsDistinct = (tt, tt)

register_port-IsDistinct_example :
    IsDistinct (register_port (pos 6000) (pos 443) (pos 1) (pos 7) (pos 0) two_machines)
register_port-IsDistinct_example =
    register_port-IsDistinct (pos 6000) (pos 443) (pos 1) (pos 7) (pos 0) two_machines
      two_machines-IsDistinct

get_real_port-register_port_example :
    get_real_port
      (pos 443)
      (pos 7)
      (pos 1)
      (register_port (pos 6000) (pos 443) (pos 1) (pos 7) (pos 0) two_machines)
    ≡ pos 6000
unfolding find_row find_owner is_owner ◌==ℤ◌
get_real_port-register_port_example =
    get_real_port-register_port (pos 6000) (pos 443) (pos 1) (pos 7) (pos 0) (pos 443) (pos 7)
      (pos 1) two_machines two_machines-IsDistinct

get_real_port-free_vm_ports_example :
    get_real_port (pos 80) (pos 7) (pos 1) (free_vm_ports (pos 7) (pos 1) two_machines)
    ≡ port_not_found
unfolding ◌==ℤ◌
get_real_port-free_vm_ports_example =
    get_real_port-free_vm_ports (pos 80) (pos 7) (pos 1) (pos 7) (pos 1) two_machines

free_port-HasRow_example : free_port 1000 (pos 7) (pos 1) (pos 80) two_machines ≡ none
free_port-HasRow_example = free_port-HasRow 1000 (pos 7) (pos 1) (pos 80) two_machines (inl refl)
