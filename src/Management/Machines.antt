-- ===== src/Management/Machines.antt =====
-- The sets of machines of the data centre (Management/MachinesStructure): ElementType,
-- HeterogeneousSet and MachinesMap. Every set and every type stands in one place only, so they are
-- values; a machine is what the sets ask of it. The sizes of an element type are patterns of ints.
pub mod Names
pub mod Tests
use Prim.Native.String.{String}
use docker_sim.Prelude.{
  ℕ, zero, suc, ◌+◌, ◌*◌, Bool, true, false, not, Option, none, some, List, [], ◌∷◌, ◌++◌, ℤ, pos,
  negsuc, ◌==ℤ◌, length, get_elem?, set, ltb, same_name, word, Result, ok, err, ◌>>=◌, bad_iterator,
  null_pointer, runtime_error, if◌then◌else◌,
}

pub record Machine : Type 0 where
  pub id : ℤ
  pub ip : String
  pub is_on : Bool
  pub num_cores : ℕ
  pub memory_capacity : ℕ
  pub storage_capacity : ℕ
  pub num_network_if : ℕ
  pub num_storage_devices : ℕ

pub record ElementType : Type 0 where
  pub name : String
  pub memory_total : ℕ
  pub storage_total : ℕ
  pub num_cores : ℕ
  pub num_storage_devices : ℕ
  pub num_net_if : ℕ

unfoldable pub set_type_parameters : ℕ → ℕ → ℕ → ℕ → String → ℕ → ElementType
set_type_parameters num_total_cores memory_size storage_size num_if_eth new_node_type
      num_storage_dev =
    record {
      name = new_node_type;
      memory_total = word (memory_size * 1024);
      storage_total = word (storage_size * 1024 * 1024);
      num_cores = num_total_cores;
      num_storage_devices = num_storage_dev;
      num_net_if = num_if_eth;
    }

-- `none` for a set without a type, which is NULL.
pub record HeterogeneousSet : Type 0 where
  pub machines_set : List Machine
  pub type : Option ElementType

unfoldable pub init_machine : Machine → HeterogeneousSet → HeterogeneousSet
init_machine machine s = record s { machines_set = s.machines_set ++ machine ∷ [] }

-- A field of the type.
unfoldable pub of_type {ℓ} : {A : Type ℓ} → (ElementType → A) → HeterogeneousSet → Result A
of_type field s = elim s.type [ none ↦ err null_pointer | some t ↦ ok (field t) ]

unfoldable pub set_identifier : HeterogeneousSet → Result String
set_identifier = of_type (λ t. t.name)

unfoldable pub machine_at : ℤ → HeterogeneousSet → Result Machine
machine_at (negsuc n) s = err bad_iterator
machine_at (pos n) s = elim (get_elem? s.machines_set n) [
  | none ↦ err bad_iterator
  | some machine ↦ ok machine
]

unfoldable pub select : (Machine → Bool) → List Machine → List Machine
select test [] = []
select test (m ∷ ms) = if test m then m ∷ select test ms else select test ms

unfoldable pub off_machines : HeterogeneousSet → List Machine
unfolding select
off_machines s = select (λ m. not m.is_on) s.machines_set

unfoldable pub on_machines : HeterogeneousSet → List Machine
unfolding select
on_machines s = select (λ m. m.is_on) s.machines_set

unfoldable pub is_on_at : ℤ → HeterogeneousSet → Result Bool
is_on_at index s = machine_at index s >>= (λ m. ok m.is_on)

unfoldable pub count_off : HeterogeneousSet → ℕ
count_off s = length (off_machines s)

unfoldable pub count_on : HeterogeneousSet → ℕ
count_on s = length (on_machines s)

unfoldable pub set_size : HeterogeneousSet → ℕ
set_size s = length s.machines_set

unfoldable pub erase_machine : ℤ → List Machine → Result (List Machine)
erase_machine p_id [] = err runtime_error
erase_machine p_id (m ∷ ms) =
    let later = erase_machine p_id ms >>= (λ left. ok (m ∷ left)) in
    if m.id ==ℤ p_id then ok ms else later

unfoldable pub delete_machine : ℤ → HeterogeneousSet → Result HeterogeneousSet
delete_machine p_id s =
    erase_machine p_id s.machines_set >>= (λ left. ok (record s { machines_set = left }))

abbrev pub MachinesMap : Type 0
MachinesMap = List HeterogeneousSet

unfoldable pub set_instances : HeterogeneousSet → MachinesMap → MachinesMap
set_instances new_machine_set m = m ++ new_machine_set ∷ []

-- The loop of the methods that take the identifier of a set, and their exception.
unfoldable pub by_name {ℓ} :
    {A : Type ℓ} → String → (HeterogeneousSet → Result A) → MachinesMap → Result A
by_name machine_set_id f [] = err runtime_error
by_name machine_set_id f (s ∷ m) =
    let later = by_name machine_set_id f m in
    set_identifier s >>= (λ name. if same_name name machine_set_id then f s else later)

-- The test of the methods that take the index of a set, and their exception.
unfoldable pub by_index {ℓ} :
    {A : Type ℓ} → ℤ → (HeterogeneousSet → Result A) → MachinesMap → Result A
by_index (negsuc n) f m = err runtime_error
by_index (pos n) f m = elim (get_elem? m n) [ none ↦ err runtime_error | some s ↦ f s ]

unfoldable pub get_set_id : ℤ → MachinesMap → Result String
get_set_id index = by_index index set_identifier

-- The loop of `isSet` from the position `i` on.
unfoldable pub is_set_from : ℕ → String → MachinesMap → Result ℤ
is_set_from i type_name [] = ok (negsuc 0)
is_set_from i type_name (s ∷ m) =
    let later = is_set_from (suc i) type_name m in
    set_identifier s >>= (λ name. if same_name name type_name then ok (pos i) else later)

unfoldable pub is_set : String → MachinesMap → Result ℤ
is_set type_name m = is_set_from 0 type_name m

-- The machines join the set at a position.
unfoldable pub join_set : ℕ → List Machine → MachinesMap → Result MachinesMap
join_set position machines m = elim (get_elem? m position) [
  | none ↦ err bad_iterator
  | some s ↦ ok (set m position (record s { machines_set = s.machines_set ++ machines }))
]

-- A set of a new type, for the first machine.
unfoldable pub new_set : List Machine → String → Result HeterogeneousSet
new_set [] type_name = err bad_iterator
new_set (m ∷ ms) type_name = ok (record {
  machines_set = [];
  type = some (
      set_type_parameters m.num_cores m.memory_capacity m.storage_capacity m.num_network_if
        type_name m.num_storage_devices);
})

unfoldable pub increase_instances : List Machine → String → MachinesMap → Result MachinesMap
increase_instances machines type_name m = is_set type_name m >>= (λ position. elim position [
  | pos n ↦ join_set n machines m
  | negsuc n ↦ new_set machines type_name >>= (λ s. join_set (length m) machines (m ++ s ∷ []))
])

-- The first set of the type; nothing happens without one.
unfoldable pub destroy_instance : String → ℤ → MachinesMap → Result MachinesMap
destroy_instance type_name id [] = ok []
destroy_instance type_name id (s ∷ m) =
    let here = delete_machine id s >>= (λ t. ok (t ∷ m)) in
    let later = destroy_instance type_name id m >>= (λ n. ok (s ∷ n)) in
    set_identifier s >>= (λ name. if same_name name type_name then here else later)

unfoldable pub get_map_quantity : MachinesMap → ℕ
get_map_quantity m = length m

-- The index starts at -1, so that it is the position less one.
unfoldable pub index_from : ℤ → String → MachinesMap → Result ℤ
index_from index machine_set_id [] = err runtime_error
index_from index machine_set_id (s ∷ m) =
    let next : ℤ = elim index [ negsuc n ↦ pos 0 | pos n ↦ pos (suc n) ] in
    let later = index_from next machine_set_id m in
    set_identifier s >>= (λ name. if same_name name machine_set_id then ok index else later)

unfoldable pub get_set_index : String → MachinesMap → Result ℤ
get_set_index machine_set_id m = index_from (negsuc 0) machine_set_id m

unfoldable pub get_set_quantity : String → MachinesMap → Result ℕ
get_set_quantity machine_set_id = by_name machine_set_id (λ s. ok (set_size s))

unfoldable pub get_set_quantity_at : ℤ → MachinesMap → Result ℕ
get_set_quantity_at machine_index = by_index machine_index (λ s. ok (set_size s))

unfoldable pub get_set_number_of_cpus : String → MachinesMap → Result ℕ
get_set_number_of_cpus machine_set_id = by_name machine_set_id (of_type (λ t. t.num_cores))

unfoldable pub get_set_number_of_cpus_at : ℤ → MachinesMap → Result ℕ
get_set_number_of_cpus_at machine_index = by_index machine_index (of_type (λ t. t.num_cores))

unfoldable pub get_set_total_memory : String → MachinesMap → Result ℕ
get_set_total_memory machine_set_id = by_name machine_set_id (of_type (λ t. t.memory_total))

unfoldable pub get_set_total_memory_at : ℤ → MachinesMap → Result ℕ
get_set_total_memory_at machine_index = by_index machine_index (of_type (λ t. t.memory_total))

unfoldable pub get_set_total_storage : String → MachinesMap → Result ℕ
get_set_total_storage machine_set_id = by_name machine_set_id (of_type (λ t. t.storage_total))

unfoldable pub get_set_identifier : ℤ → MachinesMap → Result String
get_set_identifier machine_index = by_index machine_index set_identifier

unfoldable pub is_machine_on : String → ℤ → MachinesMap → Result Bool
is_machine_on machine_set_id machine_index = by_name machine_set_id (is_on_at machine_index)

unfoldable pub is_machine_on_at : ℤ → ℤ → MachinesMap → Result Bool
is_machine_on_at machine_set_index machine_index =
    by_index machine_set_index (is_on_at machine_index)

unfoldable pub count_on_machines : String → MachinesMap → Result ℕ
count_on_machines machine_set_id = by_name machine_set_id (λ s. ok (count_on s))

unfoldable pub count_on_machines_at : ℤ → MachinesMap → Result ℕ
count_on_machines_at machine_set_index = by_index machine_set_index (λ s. ok (count_on s))

unfoldable pub count_off_machines : String → MachinesMap → Result ℕ
count_off_machines machine_set_id = by_name machine_set_id (λ s. ok (count_off s))

unfoldable pub count_off_machines_at : ℤ → MachinesMap → Result ℕ
count_off_machines_at machine_set_index = by_index machine_set_index (λ s. ok (count_off s))

unfoldable pub get_machine_by_index : String → ℤ → MachinesMap → Result Machine
get_machine_by_index machine_set_id machine_index =
    by_name machine_set_id (machine_at machine_index)

unfoldable pub get_machine_by_index_at : ℤ → ℤ → MachinesMap → Result Machine
get_machine_by_index_at machine_set_index machine_index =
    by_index machine_set_index (machine_at machine_index)

unfoldable pub get_off_machines : String → MachinesMap → Result (List Machine)
get_off_machines machine_set_id = by_name machine_set_id (λ s. ok (off_machines s))

unfoldable pub get_off_machines_at : ℤ → MachinesMap → Result (List Machine)
get_off_machines_at machine_set_index = by_index machine_set_index (λ s. ok (off_machines s))

unfoldable pub get_on_machines : String → MachinesMap → Result (List Machine)
get_on_machines machine_set_id = by_name machine_set_id (λ s. ok (on_machines s))

unfoldable pub get_on_machines_at : ℤ → MachinesMap → Result (List Machine)
get_on_machines_at machine_set_index = by_index machine_set_index (λ s. ok (on_machines s))

-- The inner loop of the searches for a machine.
unfoldable pub find_machine : (Machine → Bool) → List Machine → Option Machine
find_machine test [] = none
find_machine test (m ∷ ms) = if test m then some m else find_machine test ms

unfoldable pub get_machine_by_id : ℤ → MachinesMap → Result Machine
get_machine_by_id id [] = err runtime_error
get_machine_by_id id (s ∷ m) =
    let later = get_machine_by_id id m in
    elim (find_machine (λ c. c.id ==ℤ id) s.machines_set) [ some c ↦ ok c | none ↦ later ]

-- The outer loop of `getMachineByIP` at the position `i`, whose bound is the size of the map at
-- first and then that of the set looked at last. Behind the map the size of a set is an exception.
unfoldable pub ip_loop : ℕ → ℕ → String → MachinesMap → Result (Option Machine)
ip_loop i bound ip [] = if ltb i bound then err runtime_error else ok none
ip_loop i bound ip (s ∷ m) =
    let later = ip_loop (suc i) (set_size s) ip m in
    if ltb i bound
    then elim (find_machine (λ c. same_name c.ip ip) s.machines_set) [
      | some c ↦ ok (some c)
      | none ↦ later
    ]
    else ok none

unfoldable pub get_machine_by_ip : String → MachinesMap → Result (Option Machine)
get_machine_by_ip ip m = ip_loop 0 (get_map_quantity m) ip m

unfoldable pub set_element_type : ℕ → Option ElementType → MachinesMap → Result MachinesMap
set_element_type index element m = elim (get_elem? m index) [
  | none ↦ err bad_iterator
  | some s ↦ ok (set m index (record s { type = element }))
]
