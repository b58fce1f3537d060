-- ===== src/Management/Allocation/Setup.antt =====
-- The storage nodes that the allocation is set up with.
use docker_sim.Prelude.{
  suc, ◌+◌, ◌≡◌, refl, sym, ap, ◌∙◌, true, none, some, List, [], ◌∷◌, ◌++◌, map, pos, length,
  length-append, get_elem?-append, Result, ok, err, ◌>>=◌, bad_iterator, arith,
}
use mathlib.Core.List.{append-nil, append_assoc}
use docker_sim.Management.Machines.{
  Machine, HeterogeneousSet, MachinesMap, machine_at, get_machine_by_index_at, get_set_quantity_at,
  set_size, get_map_quantity,
}
use docker_sim.Management.Machines.Names.{by_index-append}
use docker_sim.Management.DataCenter.{
  DataCenterApi, map_of, get_node_by_index_at, get_set_size_at, get_storage_map_size,
}
use docker_sim.Management.Allocation.{
  NodeAllocation, AllocationManagement, set_storage_node, setup_set, setup_sets,
  setup_storage_nodes,
}

-- The machines of a map, set after set.
abbrev pub all_machines : MachinesMap → List Machine
all_machines [] = []
all_machines (x ∷ m) = x.machines_set ++ all_machines m

abbrev pub unoccupied : Machine → NodeAllocation
unoccupied m = record { storage_node = m; vms = [] }

abbrev pub add_nodes : List Machine → AllocationManagement → AllocationManagement
add_nodes machines s = record s {
  storage_nodes_occupation = s.storage_nodes_occupation ++ map unoccupied machines;
}

abbrev with_nodes : AllocationManagement → List NodeAllocation → Result AllocationManagement
with_nodes s nodes = ok (record s { storage_nodes_occupation = nodes })

node_found :
    (before later : MachinesMap) (x : HeterogeneousSet) (first rest : List Machine) (m : Machine)
    (c : DataCenterApi)
    → c.storage_nodes_map ≡ before ++ x ∷ later
    → x.machines_set ≡ first ++ m ∷ rest
    → get_node_by_index_at (pos (length before)) (pos (length first)) true c ≡ ok m
unfolding get_node_by_index_at map_of get_machine_by_index_at machine_at
node_found before later x first rest m c d e =
    ap (get_machine_by_index_at (pos (length before)) (pos (length first))) d
    ∙ by_index-append (machine_at (pos (length first))) before later x
    ∙ ap (λ l. machine_at (pos (length first)) (record x { machines_set = l })) e
    ∙ ap (λ o. elim o [ none ↦ err bad_iterator | some m ↦ ok m ]) (get_elem?-append first rest m)

setup_set-adds :
    (before later : MachinesMap) (x : HeterogeneousSet) (first rest : List Machine)
    (s : AllocationManagement)
    → s.data_center.storage_nodes_map ≡ before ++ x ∷ later
    → x.machines_set ≡ first ++ rest
    → setup_set (length rest) (length before) (length first) s ≡ ok (add_nodes rest s)
unfolding setup_set set_storage_node
setup_set-adds before later x first [] s d e =
    sym (ap (with_nodes s) (append-nil s.storage_nodes_occupation))
setup_set-adds before later x first (m ∷ rest) s d e =
    ap
      (λ r. r >>= (λ node.
        setup_set (length rest) (length before) (suc (length first)) (set_storage_node node s)))
      (node_found before later x first rest m s.data_center d e)
    ∙ ap (λ j. setup_set (length rest) (length before) j (set_storage_node m s))
        (let one : suc (length first) ≡ length first + 1 = omega arith in
          one ∙ sym (length-append first (m ∷ [])))
    ∙ setup_set-adds before later x (first ++ m ∷ []) rest (set_storage_node m s) d
        (e ∙ sym (append_assoc first (m ∷ []) rest))
    ∙ ap (with_nodes s)
        (append_assoc s.storage_nodes_occupation (unoccupied m ∷ []) (map unoccupied rest))

size_found :
    (before later : MachinesMap) (x : HeterogeneousSet) (c : DataCenterApi)
    → c.storage_nodes_map ≡ before ++ x ∷ later
    → get_set_size_at (pos (length before)) true c ≡ ok (length x.machines_set)
unfolding get_set_size_at map_of get_set_quantity_at set_size
size_found before later x c d =
    ap (get_set_quantity_at (pos (length before))) d
    ∙ by_index-append (λ s. ok (set_size s)) before later x

map-append :
    (ms ns : List Machine) → map unoccupied (ms ++ ns) ≡ map unoccupied ms ++ map unoccupied ns
map-append [] ns = refl
map-append (m ∷ ms) ns = ap (◌∷◌ (unoccupied m)) (map-append ms ns)

setup_sets-adds :
    (before later : MachinesMap) (s : AllocationManagement)
    → s.data_center.storage_nodes_map ≡ before ++ later
    → setup_sets (length later) (length before) s ≡ ok (add_nodes (all_machines later) s)
unfolding setup_sets
setup_sets-adds before [] s d = sym (ap (with_nodes s) (append-nil s.storage_nodes_occupation))
setup_sets-adds before (x ∷ later) s d =
    let next : AllocationManagement → Result AllocationManagement =
      setup_sets (length later) (suc (length before)) in
    let added : AllocationManagement = add_nodes x.machines_set s in
    ap (λ r. r >>= (λ size. setup_set size (length before) 0 s) >>= next)
      (size_found before later x s.data_center d)
    ∙ ap (λ r. r >>= next) (setup_set-adds before later x [] x.machines_set s d refl)
    ∙ ap (λ i. setup_sets (length later) i added)
        (let one : suc (length before) ≡ length before + 1 = omega arith in
          one ∙ sym (length-append before (x ∷ [])))
    ∙ setup_sets-adds (before ++ x ∷ []) later added (d ∙ sym (append_assoc before (x ∷ []) later))
    ∙ ap (with_nodes s) (
        append_assoc s.storage_nodes_occupation (map unoccupied x.machines_set)
          (map unoccupied (all_machines later))
        ∙ ap (λ l. s.storage_nodes_occupation ++ l)
            (sym (map-append x.machines_set (all_machines later))))

-- Setting up the storage nodes does not fail: it adds every machine of the storage map behind the
-- nodes that are there, set after set and in the order of each set, with no machine of a user.
pub setup_storage_nodes-all :
    (s : AllocationManagement)
    → setup_storage_nodes s ≡ ok (add_nodes (all_machines s.data_center.storage_nodes_map) s)
unfolding setup_storage_nodes get_storage_map_size get_map_quantity
setup_storage_nodes-all s = setup_sets-adds [] s.data_center.storage_nodes_map s refl
