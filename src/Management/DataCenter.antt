-- ===== src/Management/DataCenter.antt =====
-- The interface of the data centre to its machines (Management/DataCenterManagement/Base/
-- DataCenterAPI): a map of computing nodes and a map of storage nodes. The machines of the maps are
-- nodes, so that each `dynamic_cast` to a node gives the machine.
use Prim.Native.String.{String}
use docker_sim.Prelude.{
  ℕ, Bool, Option, none, some, List, [], ◌∷◌, ℤ, pos, negsuc, get_elem?, Result, ok, err, ◌>>=◌,
  bad_iterator, if◌then◌else◌,
}
use docker_sim.Management.Machines.{
  Machine, ElementType, MachinesMap, get_map_quantity, get_set_quantity, get_set_quantity_at,
  get_set_index, get_set_identifier, get_set_number_of_cpus, get_set_number_of_cpus_at,
  get_set_total_memory, get_set_total_memory_at, get_set_total_storage, is_machine_on,
  is_machine_on_at, count_on_machines, count_on_machines_at, count_off_machines,
  count_off_machines_at, get_machine_by_index, get_machine_by_index_at, get_on_machines,
  get_on_machines_at, get_off_machines, get_off_machines_at, get_machine_by_ip, set_element_type,
}

pub record DataCenterApi : Type 0 where
  pub nodes_map : MachinesMap
  pub storage_nodes_map : MachinesMap

-- The map that the argument `storage` of the methods chooses.
unfoldable pub map_of : Bool → DataCenterApi → MachinesMap
map_of storage c = if storage then c.storage_nodes_map else c.nodes_map

unfoldable pub get_different_types_size : Bool → DataCenterApi → ℕ
get_different_types_size storage c = get_map_quantity (map_of storage c)

unfoldable pub get_map_size : DataCenterApi → ℕ
get_map_size c = get_map_quantity c.nodes_map

unfoldable pub get_storage_map_size : DataCenterApi → ℕ
get_storage_map_size c = get_map_quantity c.storage_nodes_map

unfoldable pub get_set_position : String → Bool → DataCenterApi → Result ℤ
get_set_position set_id storage c = get_set_index set_id (map_of storage c)

unfoldable pub get_set_name : ℤ → Bool → DataCenterApi → Result String
get_set_name index storage c = get_set_identifier index (map_of storage c)

-- `getSetSize` has the same body for either order of its arguments.
unfoldable pub get_set_size : String → Bool → DataCenterApi → Result ℕ
get_set_size set_id storage c = get_set_quantity set_id (map_of storage c)

unfoldable pub get_set_size_at : ℤ → Bool → DataCenterApi → Result ℕ
get_set_size_at set_index storage c = get_set_quantity_at set_index (map_of storage c)

unfoldable pub get_set_num_cores : String → Bool → DataCenterApi → Result ℕ
get_set_num_cores set_id storage c = get_set_number_of_cpus set_id (map_of storage c)

unfoldable pub get_set_num_cores_at : ℤ → Bool → DataCenterApi → Result ℕ
get_set_num_cores_at node_index storage c = get_set_number_of_cpus_at node_index (map_of storage c)

unfoldable pub get_set_memory_size : String → Bool → DataCenterApi → Result ℕ
get_set_memory_size set_id storage c = get_set_total_memory set_id (map_of storage c)

unfoldable pub get_set_memory_size_at : ℤ → Bool → DataCenterApi → Result ℕ
get_set_memory_size_at node_index storage c = get_set_total_memory_at node_index (map_of storage c)

unfoldable pub get_set_storage_size : String → Bool → DataCenterApi → Result ℕ
get_set_storage_size set_id storage c = get_set_total_storage set_id (map_of storage c)

-- The memory, as in the source.
unfoldable pub get_set_storage_size_at : ℤ → Bool → DataCenterApi → Result ℕ
get_set_storage_size_at node_index storage c = get_set_total_memory_at node_index (map_of storage c)

-- The string that a Boolean is assigned to, as the codes of its characters: one character, of the
-- code 0 or 1.
unfoldable pub assigned : Bool → List ℕ
assigned on = if on then 1 ∷ [] else 0 ∷ []

unfoldable pub get_node_state : String → ℤ → Bool → DataCenterApi → Result (List ℕ)
get_node_state set_id node_index storage c =
    is_machine_on set_id node_index (map_of storage c) >>= (λ on. ok (assigned on))

unfoldable pub get_node_state_at : ℤ → ℤ → Bool → DataCenterApi → Result (List ℕ)
get_node_state_at set_index node_index storage c =
    is_machine_on_at set_index node_index (map_of storage c) >>= (λ on. ok (assigned on))

unfoldable pub count_on_nodes : String → Bool → DataCenterApi → Result ℕ
count_on_nodes set_id storage c = count_on_machines set_id (map_of storage c)

unfoldable pub count_on_nodes_at : ℤ → Bool → DataCenterApi → Result ℕ
count_on_nodes_at set_index storage c = count_on_machines_at set_index (map_of storage c)

unfoldable pub count_off_nodes : String → Bool → DataCenterApi → Result ℕ
count_off_nodes set_id storage c = count_off_machines set_id (map_of storage c)

unfoldable pub count_off_nodes_at : ℤ → Bool → DataCenterApi → Result ℕ
count_off_nodes_at set_index storage c = count_off_machines_at set_index (map_of storage c)

unfoldable pub get_node_by_index : String → ℤ → Bool → DataCenterApi → Result Machine
get_node_by_index set_id node_index storage c =
    get_machine_by_index set_id node_index (map_of storage c)

unfoldable pub get_node_by_index_at : ℤ → ℤ → Bool → DataCenterApi → Result Machine
get_node_by_index_at set_index node_index storage c =
    get_machine_by_index_at set_index node_index (map_of storage c)

unfoldable pub get_node_ip : String → ℤ → Bool → DataCenterApi → Result String
get_node_ip set_index node_index storage c =
    get_machine_by_index set_index node_index (map_of storage c) >>= (λ m. ok m.ip)

unfoldable pub get_on_nodes : String → Bool → DataCenterApi → Result (List Machine)
get_on_nodes set_id storage c = get_on_machines set_id (map_of storage c)

unfoldable pub get_on_nodes_at : ℤ → Bool → DataCenterApi → Result (List Machine)
get_on_nodes_at set_index storage c = get_on_machines_at set_index (map_of storage c)

unfoldable pub get_off_nodes : String → Bool → DataCenterApi → Result (List Machine)
get_off_nodes set_id storage c = get_off_machines set_id (map_of storage c)

unfoldable pub get_off_nodes_at : ℤ → Bool → DataCenterApi → Result (List Machine)
get_off_nodes_at set_index storage c = get_off_machines_at set_index (map_of storage c)

unfoldable pub get_node_by_ip : String → DataCenterApi → Result (Option Machine)
get_node_by_ip ip c =
    get_machine_by_ip ip c.storage_nodes_map
    >>= (λ found. elim found [ some m ↦ ok (some m) | none ↦ get_machine_by_ip ip c.nodes_map ])

-- The element type may be NULL.
unfoldable pub get_element_type : ℤ → Bool → DataCenterApi → Result (Option ElementType)
get_element_type (negsuc n) storage c = err bad_iterator
get_element_type (pos n) storage c = elim (get_elem? (map_of storage c) n) [
  | none ↦ err bad_iterator
  | some s ↦ ok s.type
]

unfoldable pub set_element_type_of :
    Option ElementType → ℕ → Bool → DataCenterApi → Result DataCenterApi
set_element_type_of element index storage c =
    set_element_type index element (map_of storage c) >>= (λ m.
      ok (if storage then record c { storage_nodes_map = m } else record c { nodes_map = m }))
