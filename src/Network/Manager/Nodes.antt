-- ===== src/Network/Manager/Nodes.antt =====
-- The operations of NetworkManager on the port tables of the nodes.
pub mod Lookup
pub mod Register
pub mod Tests
use docker_sim.Prelude.{
  ℕ, zero, suc, ◌+◌, ◌-◌, ◌/◌, Bool, true, false, ◌&&◌, not, Option, none, some, List, [], ◌∷◌, ℤ,
  length, get_elem?, set, ◌==◌, ltb, lt_int, Result, ok, err, ◌>>=◌, bad_iterator, not_initialised,
  no_return, runtime_error, if◌then◌else◌,
}
use docker_sim.Network.VirtualIps.{VirtualIps, Address, ◌==ip◌, string_to_virtual_ip}
use docker_sim.Network.PortTable
use docker_sim.Network.Manager.{NetworkManager}

abbrev pub Table : Type 0
Table = PortTable.PortTable

unfoldable pub is_major : VirtualIps → VirtualIps → Bool
is_major a b =
    not (lt_int a.first b.first)
    && (not (lt_int a.second b.second)
        && (not (lt_int a.third b.third) && not (lt_int a.fourth b.fourth)))

unfoldable pub is_major_ip : Address → Address → Result Bool
is_major_ip node_ip_a node_ip_b = do
  a ← string_to_virtual_ip node_ip_a
  b ← string_to_virtual_ip node_ip_b
  ok (is_major a b)

-- The loop of `registerNode`, and its `push_back` when no node is in front of the new one.
unfoldable pub insert_table : Table → List Table → Result (List Table)
insert_table t [] = ok (t ∷ [])
insert_table t (x ∷ xs) =
    let later = insert_table t xs >>= (λ ys. ok (x ∷ ys)) in
    is_major_ip t.ip_node x.ip_node >>= (λ major. if not major then ok (t ∷ x ∷ xs) else later)

unfoldable pub register_node : Address → NetworkManager → Result NetworkManager
register_node node_ip m = do
  ts ← insert_table (PortTable.initialize PortTable.new_port_table node_ip) m.ports_per_node
  ok (record m { ports_per_node = ts })

unfoldable pub table_at : ℕ → List Table → Result Table
table_at i ts = elim (get_elem? ts i) [ some t ↦ ok t | none ↦ err bad_iterator ]

-- The loop of `getNodeFromPortsTable`, which ends after as many rounds as there are tables: the
-- position of the table, or none. `element` is not set when the two indices meet. The higher index
-- is nowhere below the lower one.
unfoldable pub search_loop : ℕ → ℕ → ℕ → Address → List Table → Result (Option ℕ)
search_loop zero lower_index higher_index node_ip ts = ok none
search_loop (suc rounds) lower_index higher_index node_ip ts =
    let medium_index = (higher_index - lower_index) / 2 in
    let in_lower = search_loop rounds lower_index (higher_index - medium_index) node_ip ts in
    let in_higher = search_loop rounds (lower_index + medium_index) higher_index node_ip ts in
    if ltb 0 higher_index
    then if higher_index == lower_index
      then err not_initialised
      else table_at (medium_index + lower_index) ts >>= (λ t.
        if t.ip_node ==ip node_ip
        then ok (some (medium_index + lower_index))
        else is_major_ip t.ip_node node_ip >>= (λ major. if major then in_lower else in_higher))
    else ok none

-- The loop over all tables, which goes on when it has found one: `i` is the position of the first.
unfoldable pub last_match : Address → ℕ → List Table → Option ℕ
last_match node_ip i [] = none
last_match node_ip i (t ∷ ts) = elim (last_match node_ip (suc i) ts) [
  | some j ↦ some j
  | none ↦ if t.ip_node ==ip node_ip then some i else none
]

-- The position of the table of a node.
unfoldable pub get_node_from_ports_table : Address → List Table → Result ℕ
get_node_from_ports_table node_ip ts =
    if length ts == 1
    then ok 0
    else search_loop (length ts) 0 (length ts) node_ip ts >>= (λ found. elim found [
      | some i ↦ ok i
      | none ↦ elim (last_match node_ip 0 ts) [ some i ↦ ok i | none ↦ err runtime_error ]
    ])

-- An operation on the table of a node.
unfoldable pub at_node : Address → (Table → Result Table) → NetworkManager → Result NetworkManager
at_node node_ip operation m = do
  i ← get_node_from_ports_table node_ip m.ports_per_node
  t ← table_at i m.ports_per_node
  new ← operation t
  ok (record m { ports_per_node = set m.ports_per_node i new })

unfoldable pub register_port : ℤ → Address → ℤ → ℤ → ℤ → ℤ → NetworkManager → Result NetworkManager
register_port user ip_node vm_id real_port virtual_port operation m =
    at_node ip_node
      (λ t. ok (PortTable.register_port real_port virtual_port user vm_id operation t)) m

unfoldable pub get_real_port : Address → ℤ → ℤ → ℤ → NetworkManager → Result ℤ
get_real_port destination_ip virtual_port destination_user vm_id m = do
  i ← get_node_from_ports_table destination_ip m.ports_per_node
  t ← table_at i m.ports_per_node
  ok (PortTable.get_real_port virtual_port vm_id destination_user t)

unfoldable pub free_all_ports_of_vm : Address → ℤ → ℤ → NetworkManager → Result NetworkManager
free_all_ports_of_vm ip_node vm_id user m =
    at_node ip_node (λ t. ok (PortTable.free_vm_ports vm_id user t)) m

-- The port that is freed is dropped. The loop of `PortTable.free_port` is given fuel.
unfoldable pub free_port_of_vm : ℕ → Address → ℤ → ℤ → ℤ → NetworkManager → Result NetworkManager
free_port_of_vm fuel ip_node vm_id user virtual_port m =
    at_node ip_node
      (λ t. elim (PortTable.free_port fuel vm_id user virtual_port t) [
        | some r ↦ ok (r.1)
        | none ↦ err no_return
      ])
      m
