-- ===== src/Management/Allocation/Tests.antt =====
-- Runs of the allocation of storage nodes.
use docker_sim.Prelude.{
  ℕ, zero, suc, ◌≡◌, refl, true, [], ◌∷◌, pos, negsuc, ◌==ℤ◌, ok, err, bad_iterator, no_return,
  null_pointer,
}
use docker_sim.Management.Machines.Tests.{machine, two_sets}
use docker_sim.Management.Machines.{get_set_total_memory_at, by_index, of_type}
use docker_sim.Management.DataCenter.{DataCenterApi, get_set_storage_size_at, map_of}
use docker_sim.Management.Allocation.{
  AllocationManagement, search_user_vm_allocation, search_from, initialize_vmid, get_storage_node,
  nodes_at, setup_storage_nodes, user_at, storage_nodes_in, delete_nodes_in, delete_rounds,
  get_vm_allocation, find_allocation, find_vm, update_vm_management_structures,
  get_storage_nodes_of_vm, delete_vm_from_storage_nodes,
}
use docker_sim.Management.Allocation.Setup.{add_nodes, all_machines, setup_storage_nodes-all}
use docker_sim.Management.Allocation.Placed.{update_vm_management_structures-placed}

abbrev center : DataCenterApi
center = record { nodes_map = []; storage_nodes_map = two_sets }

abbrev at_first : AllocationManagement
at_first = record {
  data_center = center;
  storage_nodes_occupation = [];
  user_vm_data = [];
  base_calls = [];
}

setup_storage_nodes-all_example :
    setup_storage_nodes at_first ≡ ok (add_nodes (all_machines two_sets) at_first)
setup_storage_nodes-all_example = setup_storage_nodes-all at_first

-- The nodes of two sets, and a user with two machines.
abbrev two_machines : AllocationManagement
two_machines = record (add_nodes (all_machines two_sets) at_first) {
  user_vm_data =
      record {
        vm_resources_info =
            record { storage_node_position = pos 0 ∷ []; vm = initialize_vmid (pos 5) (pos 50) }
            ∷ record { storage_node_position = pos 1 ∷ []; vm = initialize_vmid (pos 5) (pos 51) }
            ∷ [];
        user = pos 5;
      }
      ∷ [];
}

positions_found :
    nodes_at (pos 2 ∷ pos 0 ∷ []) two_machines
    ≡ ok (machine 3 "10.0.0.3" ∷ machine 1 "10.0.0.1" ∷ [])
unfolding nodes_at get_storage_node
positions_found = refl

user_without_machines : search_user_vm_allocation (pos 6) two_machines ≡ negsuc 0
unfolding search_user_vm_allocation search_from ◌==ℤ◌
user_without_machines = refl

update_vm_management_structures-placed_example :
    (t : AllocationManagement) × (update_vm_management_structures
        (pos 2 ∷ pos 0 ∷ [])
        (pos 60)
        (pos 6)
        two_machines
      ≡ ok t)
    × (get_storage_nodes_of_vm 3 (search_user_vm_allocation (pos 6) t) (pos 60) t
        ≡ ok (machine 3 "10.0.0.3" ∷ machine 1 "10.0.0.1" ∷ []))
    × (delete_vm_from_storage_nodes (search_user_vm_allocation (pos 6) t) (pos 60) t
        ≡ ok (
          record t { user_vm_data = two_machines.user_vm_data },
          machine 3 "10.0.0.3" ∷ machine 1 "10.0.0.1" ∷ [],
        ))
update_vm_management_structures-placed_example =
    update_vm_management_structures-placed 2 (pos 2) (pos 0 ∷ []) (pos 60) (pos 6) two_machines
      (machine 3 "10.0.0.3" ∷ machine 1 "10.0.0.1" ∷ []) user_without_machines positions_found

-- The second machine of a user is not found in any number of rounds, and cannot be removed.
second_sought :
    (rounds : ℕ) → get_storage_nodes_of_vm rounds (pos 0) (pos 51) two_machines ≡ err no_return
unfolding get_storage_nodes_of_vm user_at storage_nodes_in initialize_vmid ◌==ℤ◌
second_sought zero = refl
second_sought (suc rounds) = second_sought rounds

second_removed : delete_vm_from_storage_nodes (pos 0) (pos 51) two_machines ≡ err bad_iterator
unfolding delete_vm_from_storage_nodes user_at delete_nodes_in delete_rounds initialize_vmid ◌==ℤ◌
second_removed = refl

-- No machine has a pointer to the virtual machine.
without_pointer : get_vm_allocation (pos 5) (pos 51) two_machines ≡ err null_pointer
unfolding get_vm_allocation find_allocation find_vm initialize_vmid ◌==ℤ◌
without_pointer = refl

-- The storage that is asked for by index is the memory.
storage_is_memory : get_set_storage_size_at (pos 0) true center ≡ ok 16384
unfolding get_set_storage_size_at map_of get_set_total_memory_at by_index of_type
storage_is_memory = refl
