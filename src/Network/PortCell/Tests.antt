-- ===== src/Network/PortCell/Tests.antt =====
-- Runs of Vm_VirtualPort_Cell.
use docker_sim.Prelude.{some, ◌≡◌, refl, [], ◌∷◌, pos, negsuc, ◌==ℤ◌}
use docker_sim.Network.PortCell.{Port, PortCell, get_virtual_port, get_real_port}
use docker_sim.Network.PortCell.Laws.{translations-inverse}

abbrev web : Port
web = record { r_port = pos 1024; v_port = pos 80; connection_id = negsuc 0 }

abbrev two_ports : PortCell
two_ports = record {
  vm_ip = some (record { first = 10; second = 0; third = 0; fourth = 1 });
  vm_id = pos 3;
  ports = web ∷ record web { r_port = pos 1025; v_port = pos 22 } ∷ [];
}

translations-inverse_example :
    (get_real_port (get_virtual_port (pos 1024) two_ports) two_ports ≡ pos 1024)
    × (get_virtual_port (get_real_port (pos 80) two_ports) two_ports ≡ pos 80)
unfolding ◌==ℤ◌
translations-inverse_example =
    translations-inverse two_ports 0 web refl (λ h. (refl, tt), (λ h. tt, tt))
      (λ h. (refl, tt), (λ h. tt, tt))
