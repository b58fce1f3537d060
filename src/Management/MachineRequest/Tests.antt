-- ===== src/Management/MachineRequest/Tests.antt =====
-- Runs of requests for virtual machines.
use docker_sim.Prelude.{
  ◌≡◌, refl, none, some, [], ◌∷◌, pos, negsuc, ◌==◌, length, ok, err, bad_iterator,
}
use docker_sim.Management.MachineRequest.{
  SelectedType, RequestVm, get_vm, get_single_request_type, set_for_single_request, push_selection,
  set_new_selection, copy_selections, new_request_vm, new_request_of, dup, compare_req,
  decrease_selection_quantity, at_index, less_by_one,
}
use docker_sim.Management.MachineRequest.Copy.{copied, dup-without_connections}

abbrev small : SelectedType
small = record {
  name = "small";
  parameters = some (record {
    memory_total = 2048;
    storage_total = 1024;
    num_cores = 2;
    num_storage_devices = 1;
    num_net_if = 1;
  });
}

abbrev with_connection : RequestVm
with_connection = record {
  operation = pos 1;
  times_enqueue = pos 2;
  state = pos 0;
  user_id = pos 11;
  vm_id = pos 40;
  job_id = negsuc 0;
  ip = "10.0.0.1";
  vm_set = 7 ∷ 8 ∷ [];
  connections = 3 ∷ [];
  vms_to_be_selected = record { type = small; quantity = pos 0 } ∷ [];
}

dup-without_connections_example :
    (dup with_connection ≡ copied with_connection)
    × (compare_req with_connection (some (dup with_connection))
        ≡ (0 == length with_connection.connections))
dup-without_connections_example = dup-without_connections with_connection

-- The copy of a request for a single machine has lost the numbers of its type.
numbers_lost :
    (get_single_request_type (set_for_single_request small new_request_vm) ≡ ok small)
    × (get_single_request_type (dup (set_for_single_request small new_request_vm))
        ≡ ok (record small { parameters = none }))
unfolding get_single_request_type set_for_single_request push_selection dup copy_selections
    set_new_selection new_request_vm new_request_of
numbers_lost = (refl, refl)

-- The position behind the last machine is let through.
behind_the_last : get_vm (pos 2) with_connection ≡ err bad_iterator
unfolding get_vm
behind_the_last = refl

far_behind : get_vm (pos 3) with_connection ≡ ok none
unfolding get_vm
far_behind = refl

below_zero :
    decrease_selection_quantity 0 with_connection
    ≡ ok (record with_connection {
      vms_to_be_selected = record { type = small; quantity = negsuc 0 } ∷ [];
    })
unfolding decrease_selection_quantity at_index less_by_one
below_zero = refl
