-- ===== src/Management/MachineRequest.antt =====
-- The requests for virtual machines (Base/Request): AbstractRequest and RequestVM. A virtual machine
-- and a connection are pointers, which are numbers. A quantity and a counter stay within the range
-- of an int.
pub mod Copy
pub mod Tests
use Prim.Native.String.{String}
use docker_sim.Prelude.{
  ℕ, zero, suc, Bool, true, false, ◌&&◌, Option, none, some, List, [], ◌∷◌, ◌++◌, ℤ, pos, negsuc,
  ◌==ℤ◌, ◌==◌, length, get_elem?, set, same_name, Result, ok, err, ◌>>=◌, bad_iterator,
}

-- The numbers of an element type.
pub record ElementParameters : Type 0 where
  pub memory_total : ℕ
  pub storage_total : ℕ
  pub num_cores : ℕ
  pub num_storage_devices : ℕ
  pub num_net_if : ℕ

-- An element type. The constructor sets none of the numbers, which is `none`.
pub record SelectedType : Type 0 where
  pub name : String
  pub parameters : Option ElementParameters

pub record UserVmType : Type 0 where
  pub type : SelectedType
  pub quantity : ℤ

-- `user_id`, `job_id` and `vm_id` are `getUid`, `getSPid` and `getPid`.
pub record RequestVm : Type 0 where
  pub operation : ℤ
  pub times_enqueue : ℤ
  pub state : ℤ
  pub user_id : ℤ
  pub vm_id : ℤ
  pub job_id : ℤ
  pub ip : String
  pub vm_set : List ℕ
  pub connections : List ℕ
  pub vms_to_be_selected : List UserVmType

unfoldable pub new_request_of : ℤ → ℤ → List ℕ → RequestVm
new_request_of user_id op new_vm_set = record {
  operation = op;
  times_enqueue = pos 0;
  state = pos 0;
  user_id = user_id;
  vm_id = negsuc 0;
  job_id = negsuc 0;
  ip = "";
  vm_set = new_vm_set;
  connections = [];
  vms_to_be_selected = [];
}

unfoldable pub new_request_vm : RequestVm
new_request_vm = new_request_of (negsuc 0) (negsuc 0) []

-- The position may be the size of the set. `none` is NULL.
unfoldable pub get_vm : ℤ → RequestVm → Result (Option ℕ)
get_vm (negsuc n) r = ok none
get_vm (pos n) r = elim (get_elem? r.vm_set n) [
  | some vm ↦ ok (some vm)
  | none ↦ elim (n == length r.vm_set) [ true ↦ err bad_iterator | false ↦ ok none ]
]

unfoldable pub remove {ℓ} : {A : Type ℓ} → ℕ → List A → List A
remove i [] = []
remove zero (x ∷ xs) = xs
remove (suc i) (x ∷ xs) = x ∷ remove i xs

unfoldable pub erase_vm : ℤ → RequestVm → RequestVm
erase_vm (negsuc n) r = r
erase_vm (pos n) r = record r { vm_set = remove n r.vm_set }

unfoldable pub set_vector_vm : List ℕ → RequestVm → RequestVm
set_vector_vm new_vm_set r = record r { vm_set = new_vm_set }

unfoldable pub set_connection : ℕ → RequestVm → RequestVm
set_connection c r = record r { connections = r.connections ++ c ∷ [] }

-- An element of a vector at an index.
unfoldable pub at_index {ℓ} : {A : Type ℓ} → ℤ → List A → Result A
at_index (negsuc n) xs = err bad_iterator
at_index (pos n) xs = elim (get_elem? xs n) [ none ↦ err bad_iterator | some x ↦ ok x ]

unfoldable pub get_connection : ℤ → RequestVm → Result ℕ
get_connection index r = at_index index r.connections

unfoldable pub erase_connection : ℕ → RequestVm → Result RequestVm
erase_connection i r =
    at_index (pos i) r.connections >>= (λ c. ok (record r { connections = remove i r.connections }))

unfoldable pub erase_connections : RequestVm → RequestVm
erase_connections r = record r { connections = [] }

-- A selection goes behind the others.
unfoldable pub push_selection : SelectedType → ℤ → RequestVm → RequestVm
push_selection el quantity r = record r {
  vms_to_be_selected = r.vms_to_be_selected ++ record { type = el; quantity = quantity } ∷ [];
}

-- A new element type, of which only the name is set.
unfoldable pub set_new_selection : String → ℤ → RequestVm → RequestVm
unfolding push_selection
set_new_selection type_name quantity r =
    push_selection (record { name = type_name; parameters = none }) quantity r

-- The element type itself.
unfoldable pub set_for_single_request : SelectedType → RequestVm → RequestVm
unfolding push_selection
set_for_single_request el r = push_selection el (pos 1) r

-- The first element type of the selection; there is none to read in an empty one.
unfoldable pub get_single_request_type : RequestVm → Result SelectedType
get_single_request_type r = elim r.vms_to_be_selected [ [] ↦ err bad_iterator | t ∷ ts ↦ ok t.type ]

unfoldable pub get_selection_type : ℤ → RequestVm → Result String
get_selection_type index r = at_index index r.vms_to_be_selected >>= (λ t. ok t.type.name)

unfoldable pub get_selection_quantity : ℤ → RequestVm → Result ℤ
get_selection_quantity index r = at_index index r.vms_to_be_selected >>= (λ t. ok t.quantity)

unfoldable pub less_by_one : ℤ → ℤ
less_by_one (pos zero) = negsuc 0
less_by_one (pos (suc n)) = pos n
less_by_one (negsuc n) = negsuc (suc n)

unfoldable pub decrease_selection_quantity : ℕ → RequestVm → Result RequestVm
decrease_selection_quantity index r = at_index (pos index) r.vms_to_be_selected >>= (λ t.
    ok (record r {
      vms_to_be_selected =
          set r.vms_to_be_selected index (record t { quantity = less_by_one t.quantity });
    }))

unfoldable pub erase_selection_type : ℕ → RequestVm → Result RequestVm
erase_selection_type index r =
    at_index (pos index) r.vms_to_be_selected
    >>= (λ t. ok (record r { vms_to_be_selected = remove index r.vms_to_be_selected }))

unfoldable pub clean_selection_type : RequestVm → RequestVm
clean_selection_type r = record r { vms_to_be_selected = [] }

-- The loop of `dup` over the types selected.
unfoldable pub copy_selections : List UserVmType → RequestVm → RequestVm
copy_selections [] r = r
copy_selections (t ∷ ts) r = copy_selections ts (set_new_selection t.type.name t.quantity r)

-- The loop over the connections reads a local vector, which is empty.
unfoldable pub dup : RequestVm → RequestVm
dup r =
    let fresh : RequestVm = record new_request_vm {
      times_enqueue = r.times_enqueue;
      state = r.state;
      operation = r.operation;
      job_id = r.job_id;
      user_id = r.user_id;
      vm_id = r.vm_id;
      ip = r.ip;
    } in
    let filled : RequestVm = elim r.vm_set [
      | [] ↦ fresh
      | vm ∷ vms ↦ set_vector_vm (vm ∷ vms) fresh
    ] in
    copy_selections r.vms_to_be_selected filled

-- `none` is a request of another class.
unfoldable pub compare_req : RequestVm → Option RequestVm → Bool
compare_req r none = false
compare_req r (some q) =
    q.operation ==ℤ r.operation
    && (q.user_id ==ℤ r.user_id
        && (q.vm_id ==ℤ r.vm_id
            && (r.job_id ==ℤ q.job_id
                && (r.times_enqueue ==ℤ q.times_enqueue
                    && (r.state ==ℤ q.state
                        && (length q.connections == length r.connections
                            && (same_name r.ip q.ip
                                && (length r.vm_set == length q.vm_set
                                    && length r.vms_to_be_selected
                                      == length q.vms_to_be_selected))))))))
