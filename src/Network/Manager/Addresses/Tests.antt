-- ===== src/Network/Manager/Addresses/Tests.antt =====
-- Runs of the allocation of addresses.
use docker_sim.Prelude.{
  ◌≡◌, refl, none, some, [], ◌∷◌, pos, ◌==ℤ◌, ok, err, buffer_overflow, All, List, ℕ, true,
  sub_word, arith,
}
use docker_sim.Network.VirtualIps.{
  VirtualIps, get_virtual_ip, ◌==ip◌, equal_ips, printed_length, number_length, digits,
}
use docker_sim.Network.VirtualIps.Order.{Octets-IsScanned, rank}
use docker_sim.Network.Manager.{IpsUserSet, NetworkManager}
use docker_sim.Network.Manager.Addresses.{
  allocate_virtual_ip, delete_virtual_ip_by_vip, delete_virtual_ip_by_vmid, find_vm, change_node_ip,
  check_vm_ip, search_vm_ip, delete_user, change_loop, change_cells, check_loop, check_cells,
  erase_user, cells_of,
}
use docker_sim.Network.Manager.Addresses.Run.{
  Event, create, allocate, State, start, run, Answered, Addressed, run-Answered,
}
use docker_sim.Network.Manager.Addresses.Holes.{difference, handed_out, delete_virtual_ip-allocate}

abbrev ten : ℕ → VirtualIps
ten n = record { first = 10; second = 0; third = 0; fourth = n }

abbrev events : List Event
events =
    create (pos 1)
    ∷ allocate (some (ten 200)) (pos 1) (pos 7)
    ∷ create (pos 2)
    ∷ allocate (some (ten 200)) (pos 2) (pos 8)
    ∷ allocate (some (ten 201)) (pos 1) (pos 9)
    ∷ []

run-Answered_example :
    (t : State) × (run events (start (ten 0)) ≡ ok t)
    × All (Answered t.manager) t.given
    × All (Addressed (ten 0)) t.manager.ips_cloud
unfolding rank
run-Answered_example =
    run-Answered (ten 0) events
      (record {
        first = omega arith;
        second = omega arith;
        third = omega arith;
        fourth = omega arith;
      })
      (omega arith)

-- User 1 has machine 7 at 10.0.0.1 and machine 9 at 10.0.0.2.
abbrev one_user : IpsUserSet
one_user = record {
  user_id = pos 1;
  holes_ip = [];
  virtual_ip_cell =
      record { virtual_ip = ten 1; ip_node = some (ten 200); vm_id = pos 7 }
      ∷ record { virtual_ip = ten 2; ip_node = some (ten 201); vm_id = pos 9 }
      ∷ [];
  last_ip = some (ten 2);
}

abbrev one_user_manager : NetworkManager
one_user_manager = record {
  ips_cloud = one_user ∷ [];
  ip_basis = some (ten 0);
  ports_per_node = [];
}

-- The machine that comes next gets 0.0.0.1.
delete_virtual_ip-allocate_example :
    (delete_virtual_ip_by_vip (some (ten 1)) (pos 1) one_user_manager ≡ ok one_user_manager)
    × (left allocated : NetworkManager) × (delete_virtual_ip_by_vmid
          (pos 7)
          (pos 1)
          one_user_manager
        ≡ ok left)
    × (allocate_virtual_ip (some (ten 200)) (pos 1) (pos 11) left
        ≡ handed_out (difference (ten 1) (ten 0)) (some (difference (ten 1) (ten 0)), allocated))
unfolding find_vm ◌==ℤ◌
delete_virtual_ip-allocate_example =
    delete_virtual_ip-allocate (ten 0) (some (ten 200)) (pos 1) (pos 7) (pos 11) one_user_manager []
      [] one_user (record { virtual_ip = ten 1; ip_node = some (ten 200); vm_id = pos 7 }) refl
      (Octets-IsScanned (ten 0) (record {
        first = omega arith;
        second = omega arith;
        third = omega arith;
        fourth = omega arith;
      }))
      refl tt refl refl refl

-- The hole of 11.0.0.0 to the basis 10.100.200.250 is 1.-100.-200.-250, which is too long.
too_long :
    handed_out
      (difference
        (record { first = 11; second = 0; third = 0; fourth = 0 })
        (record { first = 10; second = 100; third = 200; fourth = 250 }))
      true
    ≡ err buffer_overflow
unfolding printed_length number_length digits sub_word
too_long = refl

hole_of_one : (difference (ten 1) (ten 0)).fourth ≡ 1
unfolding sub_word
hole_of_one = refl

searched : search_vm_ip (pos 1) (pos 9) one_user_manager ≡ some (ten 2)
unfolding search_vm_ip cells_of find_vm get_virtual_ip ◌==ℤ◌
searched = refl

-- An address that no machine has: the address compared last comes back.
not_changed :
    change_node_ip (some (ten 77)) (pos 1) none one_user_manager ≡ (some (ten 2), one_user_manager)
unfolding change_node_ip change_loop change_cells get_virtual_ip ◌==ip◌ equal_ips ◌==ℤ◌
not_changed = refl

checked : check_vm_ip (some (ten 2)) (some (ten 201)) (pos 1) one_user_manager ≡ true
unfolding check_vm_ip check_loop check_cells get_virtual_ip ◌==ip◌ equal_ips ◌==ℤ◌
checked = refl

removed : (delete_user (pos 1) one_user_manager).ips_cloud ≡ []
unfolding delete_user erase_user ◌==ℤ◌
removed = refl
