-- ===== src/Management/Allocation.antt =====
-- The storage nodes of the machines of each user (Management/CloudManagement/Base/
-- AllocationManagement). The nodes are those of the data centre (DataCenter). The entries are
-- objects that the class makes, and each stands in one vector only, so that they are values.
pub mod Setup
pub mod Nodes
pub mod Placed
pub mod Tests
use Prim.Native.String.{String}
use docker_sim.Prelude.{
  ℕ, zero, suc, Bool, true, false, Option, none, some, List, [], ◌∷◌, ◌++◌, ℤ, pos, negsuc, ◌==ℤ◌,
  length, get_elem?, set, Result, ok, err, ◌>>=◌, bad_iterator, null_pointer, not_initialised,
  no_return, if◌then◌else◌,
}
use docker_sim.Management.Machines.{Machine}
use docker_sim.Management.DataCenter.{
  DataCenterApi, get_storage_map_size, get_set_size_at, get_node_by_index_at, get_node_by_index,
}

-- Of a virtual machine, the name of the set and the index of its node.
pub record VmNode : Type 0 where
  pub node_set_name : String
  pub node_name : ℤ

-- `none` for a machine that is NULL.
pub record Vmid : Type 0 where
  pub user : ℤ
  pub vm : Option VmNode
  pub vm_id : ℤ

unfoldable pub initialize_vmid : ℤ → ℤ → Vmid
initialize_vmid new_user vmid = record { user = new_user; vm = none; vm_id = vmid }

pub record NodeAllocation : Type 0 where
  pub storage_node : Machine
  pub vms : List Vmid

pub record VmAllocation : Type 0 where
  pub storage_node_position : List ℤ
  pub vm : Vmid

pub record UserVmAllocation : Type 0 where
  pub vm_resources_info : List VmAllocation
  pub user : ℤ

pub data BaseCall : Type 0 where
  dc_manager_initialize dc_manager_finish : BaseCall

pub record AllocationManagement : Type 0 where
  pub data_center : DataCenterApi
  pub storage_nodes_occupation : List NodeAllocation
  pub user_vm_data : List UserVmAllocation
  pub base_calls : List BaseCall

unfoldable pub initialize : AllocationManagement → AllocationManagement
initialize s = record s {
  storage_nodes_occupation = [];
  user_vm_data = [];
  base_calls = s.base_calls ++ dc_manager_initialize ∷ [];
}

unfoldable pub finish : AllocationManagement → AllocationManagement
finish s = record s {
  storage_nodes_occupation = [];
  user_vm_data = [];
  base_calls = s.base_calls ++ dc_manager_finish ∷ [];
}

unfoldable pub set_storage_node : Machine → AllocationManagement → AllocationManagement
set_storage_node st_node s = record s {
  storage_nodes_occupation =
      s.storage_nodes_occupation ++ record { storage_node = st_node; vms = [] } ∷ [];
}

-- The inner loop of `setupStorageNodes`, with the rounds that are left.
unfoldable pub setup_set : ℕ → ℕ → ℕ → AllocationManagement → Result AllocationManagement
setup_set zero i j s = ok s
setup_set (suc rounds) i j s =
    get_node_by_index_at (pos i) (pos j) true s.data_center
    >>= (λ node. setup_set rounds i (suc j) (set_storage_node node s))

-- The outer loop.
unfoldable pub setup_sets : ℕ → ℕ → AllocationManagement → Result AllocationManagement
setup_sets zero i s = ok s
setup_sets (suc rounds) i s =
    get_set_size_at (pos i) true s.data_center
    >>= (λ size. setup_set size i 0 s)
    >>= (λ t. setup_sets rounds (suc i) t)

unfoldable pub setup_storage_nodes : AllocationManagement → Result AllocationManagement
setup_storage_nodes s = setup_sets (get_storage_map_size s.data_center) 0 s

unfoldable pub get_storage_nodes_size : AllocationManagement → ℕ
get_storage_nodes_size s = length s.storage_nodes_occupation

unfoldable pub get_storage_node : ℤ → AllocationManagement → Result Machine
get_storage_node (negsuc n) s = err bad_iterator
get_storage_node (pos n) s = elim (get_elem? s.storage_nodes_occupation n) [
  | none ↦ err bad_iterator
  | some a ↦ ok a.storage_node
]

-- The loop of `searchUserVMAllocation` from the position `i` on.
unfoldable pub search_from : ℕ → ℤ → List UserVmAllocation → ℤ
search_from i uid [] = negsuc 0
search_from i uid (a ∷ rest) = if uid ==ℤ a.user then pos i else search_from (suc i) uid rest

unfoldable pub search_user_vm_allocation : ℤ → AllocationManagement → ℤ
search_user_vm_allocation uid s = search_from 0 uid s.user_vm_data

-- The entry of the machine goes to the user at the position.
unfoldable pub push_vm : ℕ → VmAllocation → List UserVmAllocation → Result (List UserVmAllocation)
push_vm position vm_al users = elim (get_elem? users position) [
  | none ↦ err bad_iterator
  | some a ↦
      ok (set users position (record a { vm_resources_info = a.vm_resources_info ++ vm_al ∷ [] }))
]

unfoldable pub update_user : List ℤ → ℤ → ℤ → AllocationManagement → Result (List UserVmAllocation)
update_user [] vm_pid user_id s = ok s.user_vm_data
update_user (p ∷ ps) vm_pid user_id s =
    let vm_al : VmAllocation = record {
      storage_node_position = p ∷ ps;
      vm = initialize_vmid user_id vm_pid;
    } in
    let fresh : UserVmAllocation = record { vm_resources_info = []; user = user_id } in
    elim (search_user_vm_allocation user_id s) [
      | pos n ↦ push_vm n vm_al s.user_vm_data
      | negsuc n ↦ push_vm (length s.user_vm_data) vm_al (s.user_vm_data ++ fresh ∷ [])
    ]

-- A round of the loop over the nodes selected.
unfoldable pub push_vmid : ℤ → Vmid → List NodeAllocation → Result (List NodeAllocation)
push_vmid (negsuc n) vmid nodes = err bad_iterator
push_vmid (pos n) vmid nodes = elim (get_elem? nodes n) [
  | none ↦ err bad_iterator
  | some a ↦ ok (set nodes n (record a { vms = a.vms ++ vmid ∷ [] }))
]

unfoldable pub update_nodes : List ℤ → Vmid → List NodeAllocation → Result (List NodeAllocation)
update_nodes [] vmid nodes = ok nodes
update_nodes (p ∷ selected) vmid nodes =
    push_vmid p vmid nodes >>= (λ left. update_nodes selected vmid left)

unfoldable pub update_vm_management_structures :
    List ℤ → ℤ → ℤ → AllocationManagement → Result AllocationManagement
update_vm_management_structures selected_nodes vm_pid user_id s =
    update_user selected_nodes vm_pid user_id s >>= (λ users.
      update_nodes selected_nodes (initialize_vmid user_id vm_pid) s.storage_nodes_occupation
      >>= (λ nodes. ok (record s { storage_nodes_occupation = nodes; user_vm_data = users })))

-- The nodes at the positions of a machine.
unfoldable pub nodes_at : List ℤ → AllocationManagement → Result (List Machine)
nodes_at [] s = ok []
nodes_at (k ∷ ks) s =
    get_storage_node k s >>= (λ node. nodes_at ks s >>= (λ nodes. ok (node ∷ nodes)))

-- The loop of `getStorageNodesOfVM`, on a number of rounds, `no_return` when these are used up: each
-- round looks at the first machine of the user, and the loop ends when that is the one asked for.
unfoldable pub storage_nodes_in :
    ℕ → ℤ → List VmAllocation → AllocationManagement → Result (List Machine)
storage_nodes_in zero p_id machines s = err no_return
storage_nodes_in (suc rounds) p_id [] s = ok []
storage_nodes_in (suc rounds) p_id (a ∷ rest) s =
    let again = storage_nodes_in rounds p_id (a ∷ rest) s in
    if a.vm.vm_id ==ℤ p_id then nodes_at a.storage_node_position s else again

unfoldable pub user_at : ℤ → AllocationManagement → Result UserVmAllocation
user_at (negsuc n) s = err bad_iterator
user_at (pos n) s = elim (get_elem? s.user_vm_data n) [ none ↦ err bad_iterator | some a ↦ ok a ]

-- With the rounds of the loop.
unfoldable pub get_storage_nodes_of_vm : ℕ → ℤ → ℤ → AllocationManagement → Result (List Machine)
get_storage_nodes_of_vm rounds user_idx p_id s =
    user_at user_idx s >>= (λ a. storage_nodes_in rounds p_id a.vm_resources_info s)

-- The loop of `deleteVMfromStorageNodes`, on the positions of the first machine: each round erases
-- the first of them, from an empty vector at last.
unfoldable pub delete_rounds : Bool → List ℤ → AllocationManagement → Result (List Machine)
delete_rounds found [] s = err bad_iterator
delete_rounds found (k ∷ ks) s = if found then nodes_at (k ∷ ks) s else delete_rounds found ks s

unfoldable pub delete_nodes_in :
    ℤ → List VmAllocation → AllocationManagement → Result (List Machine)
delete_nodes_in p_id [] s = ok []
delete_nodes_in p_id (a ∷ rest) s = delete_rounds (a.vm.vm_id ==ℤ p_id) a.storage_node_position s

unfoldable pub erase_user_at : ℕ → List UserVmAllocation → List UserVmAllocation
erase_user_at i [] = []
erase_user_at zero (a ∷ rest) = rest
erase_user_at (suc i) (a ∷ rest) = a ∷ erase_user_at i rest

unfoldable pub delete_vm_from_storage_nodes :
    ℤ → ℤ → AllocationManagement → Result (AllocationManagement × List Machine)
delete_vm_from_storage_nodes (negsuc n) p_id s = err bad_iterator
delete_vm_from_storage_nodes (pos n) p_id s =
    user_at (pos n) s
    >>= (λ a. delete_nodes_in p_id a.vm_resources_info s)
    >>= (λ nodes. ok (record s { user_vm_data = erase_user_at n s.user_vm_data }, nodes))

unfoldable pub find_vm : ℤ → List VmAllocation → Option Vmid
find_vm p_id [] = none
find_vm p_id (a ∷ rest) = if a.vm.vm_id ==ℤ p_id then some a.vm else find_vm p_id rest

-- The loop over the users: the first machine of the identifier among the users of the identifier.
unfoldable pub find_allocation : ℤ → ℤ → List UserVmAllocation → Option Vmid
find_allocation u_id p_id [] = none
find_allocation u_id p_id (a ∷ rest) =
    let later = find_allocation u_id p_id rest in
    if a.user ==ℤ u_id
    then elim (find_vm p_id a.vm_resources_info) [ some v ↦ some v | none ↦ later ]
    else later

-- The variable that is returned is not set when there is no such machine.
unfoldable pub get_vm_allocation : ℤ → ℤ → AllocationManagement → Result Machine
get_vm_allocation u_id p_id s = elim (find_allocation u_id p_id s.user_vm_data) [
  | none ↦ err not_initialised
  | some v ↦ elim v.vm [
    | none ↦ err null_pointer
    | some m ↦ get_node_by_index m.node_set_name m.node_name false s.data_center
  ]
]
