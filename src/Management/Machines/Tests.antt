-- ===== src/Management/Machines/Tests.antt =====
-- Runs of the sets of machines.
use Prim.Native.String.{String}
use docker_sim.Prelude.{
  List, ℕ, ◌≡◌, refl, true, none, some, [], ◌∷◌, pos, ◌==ℤ◌, same_name, ok, err, ◌>>=◌,
  runtime_error,
}
use docker_sim.Management.Machines.{
  Machine, HeterogeneousSet, MachinesMap, by_name, by_index, is_set, is_set_from, set_identifier,
  of_type, get_set_index, get_machine_by_ip, ip_loop, find_machine, set_size, get_map_quantity,
  count_on, increase_instances, join_set, get_machine_by_id,
}
use docker_sim.Management.Machines.Names.{index_of_position, by_name-is_set}

abbrev pub machine : ℕ → String → Machine
machine n ip = record {
  id = pos n;
  ip = ip;
  is_on = true;
  num_cores = 4;
  memory_capacity = 16;
  storage_capacity = 100;
  num_network_if = 1;
  num_storage_devices = 1;
}

abbrev named : String → List Machine → HeterogeneousSet
named name machines = record {
  machines_set = machines;
  type = some (record {
    name = name;
    memory_total = 16384;
    storage_total = 104857600;
    num_cores = 4;
    num_storage_devices = 1;
    num_net_if = 1;
  });
}

abbrev pub two_sets : MachinesMap
two_sets =
    named "A" (machine 1 "10.0.0.1" ∷ [])
    ∷ named "B" (machine 2 "10.0.0.2" ∷ machine 3 "10.0.0.3" ∷ [])
    ∷ []

by_name-is_set_example :
    (by_name "B" (λ s. ok (count_on s)) two_sets
      ≡ is_set "B" two_sets >>= (λ p. by_index p (λ s. ok (count_on s)) two_sets))
    × (get_set_index "B" two_sets ≡ is_set "B" two_sets >>= index_of_position)
by_name-is_set_example = by_name-is_set "B" (λ s. ok (count_on s)) two_sets

position_of_b : is_set "B" two_sets ≡ ok (pos 1)
unfolding is_set is_set_from set_identifier of_type same_name
position_of_b = refl

joined :
    increase_instances (machine 4 "10.0.0.4" ∷ []) "A" two_sets >>= get_machine_by_id (pos 4)
    ≡ ok (machine 4 "10.0.0.4")
unfolding increase_instances is_set is_set_from set_identifier of_type same_name join_set
    get_machine_by_id find_machine ◌==ℤ◌
joined = refl

-- The search for an address ends with the first set, which has one machine.
not_found : get_machine_by_ip "10.0.0.2" two_sets ≡ ok none
unfolding get_machine_by_ip ip_loop find_machine same_name set_size get_map_quantity
not_found = refl

-- In a map with one set, of two machines, the search for an unknown address looks for a second set.
past_the_end :
    get_machine_by_ip "10.0.0.9" (named "B" (machine 2 "10.0.0.2" ∷ machine 3 "10.0.0.3" ∷ []) ∷ [])
    ≡ err runtime_error
unfolding get_machine_by_ip ip_loop find_machine same_name set_size get_map_quantity
past_the_end = refl
