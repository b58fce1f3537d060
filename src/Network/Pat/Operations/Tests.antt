-- ===== src/Network/Pat/Operations/Tests.antt =====
-- Runs of the port address translation.
use docker_sim.Prelude.{
  ◌≡◌, refl, true, false, none, [], ◌∷◌, ℤ, pos, negsuc, ◌==ℤ◌, if◌then◌else◌, ok, err,
  bad_iterator, arith, ◌==◌,
}
use docker_sim.Network.PortCell.{PortCell, Port, get_real_port, get_virtual_port}
use docker_sim.Network.UserCell.{UserCell, search_vm, find_vm}
use docker_sim.Network.Pat.{Pat, mark, get_new_port, next_free}
use docker_sim.Network.Pat.Clients.{Shared, take, give_back, run, start, Exclusive}
use docker_sim.Network.Pat.Handout.{run-Exclusive}
use docker_sim.Network.Pat.Operations.{
  NetMessage, existing, search_user, find_user, pat_create_listen, pat_send_message,
  pat_receive_message, pat_close_connection, user_or_new, vm_or_new,
}
use docker_sim.Network.Pat.Operations.Listen.{cell_for, from_machine, pat_create_listen-translates}
use docker_sim.Network.Pat.Operations.Close.{pat_close_connection-leaves}

-- Two ports are taken, the first one is given back and taken again.
run-Exclusive_example :
    (t : Shared) × (run (take ∷ take ∷ give_back 0 ∷ take ∷ []) start ≡ ok t) × Exclusive t
run-Exclusive_example = run-Exclusive (take ∷ take ∷ give_back 0 ∷ take ∷ []) (omega arith)

abbrev web : Port
web = record { r_port = pos 1024; v_port = pos 80; connection_id = pos 3 }

abbrev machine : PortCell
machine = record { vm_ip = none; vm_id = pos 7; ports = web ∷ [] }

abbrev user : UserCell
user = record { user = pos 1; vm_ports = machine ∷ [] }

-- Machine 7 of user 1 has a connection on port 1024, behind port 80.
abbrev one_port : Pat
one_port = record {
  free_ports = λ port. port == 1024;
  port_holes = [];
  port_ptr = 1025;
  user_vm_ports = user ∷ [];
}

abbrev with_ports : ℤ → ℤ → NetMessage
with_ports local_port destination_port = record {
  name = "";
  operation = 205;
  is_response = false;
  uid = pos 1;
  pid = pos 7;
  connection_id = pos 3;
  local_port = local_port;
  destination_port = destination_port;
  virtual_local_port = pos 0;
  virtual_destination_port = pos 0;
  destination_ip = none;
  local_ip = none;
  virtual_destination_ip = none;
  virtual_local_ip = none;
  virtual_user = negsuc 0;
  socket_closed = none;
}

pat_create_listen-translates_example :
    (s' : Pat) × (pat_create_listen (pos 1) (pos 7) (pos 443) one_port ≡ ok (pos 1025, s'))
    × ((m : NetMessage)
        → (pat_send_message (from_machine (pos 1) (pos 7) m) s'
            ≡ ok (record (from_machine (pos 1) (pos 7) m) {
              local_port =
                  if pos 443 ==ℤ m.local_port
                  then pos 1025
                  else get_real_port m.local_port (cell_for (pos 1) (pos 7) one_port);
              virtual_local_port = m.local_port;
            }))
          × (pat_receive_message (from_machine (pos 1) (pos 7) m) s'
              ≡ ok (record (from_machine (pos 1) (pos 7) m) {
                destination_port =
                    if pos 1025 ==ℤ m.destination_port
                    then pos 443
                    else get_virtual_port m.destination_port (cell_for (pos 1) (pos 7) one_port);
                virtual_destination_port = m.destination_port;
              })))
unfolding get_new_port next_free mark user_or_new search_user find_user vm_or_new search_vm find_vm
    ◌==ℤ◌
pat_create_listen-translates_example =
    pat_create_listen-translates (pos 1) (pos 7) (pos 443) one_port
      (record one_port {
        free_ports = λ i. if i == 1025 then true else (i == 1024);
        port_ptr = 1026;
      })
      1025 refl (record { no_real = (refl, tt); no_virtual = (refl, tt) })

pat_close_connection-leaves_example :
    pat_close_connection (with_ports (pos 80) (pos 0)) one_port ≡ err bad_iterator
unfolding existing search_user find_user search_vm find_vm ◌==ℤ◌
pat_close_connection-leaves_example =
    pat_close_connection-leaves (with_ports (pos 80) (pos 0)) one_port user machine [] [] web refl
      refl refl refl tt tt tt
