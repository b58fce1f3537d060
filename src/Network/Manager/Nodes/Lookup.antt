-- ===== src/Network/Manager/Nodes/Lookup.antt =====
-- `getNodeFromPortsTable`: where the search ends.
use docker_sim.Prelude.{
  ℕ, zero, suc, ◌+◌, ◌-◌, ◌/◌, ◌≤◌, ◌<◌, ◌≡◌, ◌≢◌, ◌⊎◌, inl, inr, refl, sym, ap, ◌∙◌, subst, Bool,
  true, false, Option, none, some, List, [], ◌∷◌, length, get_elem?, All, ◌==◌, ==_iff, lt→ltb,
  Result, ok, err, ◌>>=◌, bad_iterator, runtime_error, if◌then◌else◌, if-true, if-false, Bool-cases,
  arith,
}
use mathlib.Core.Bool.{true≢false}
use docker_sim.Network.VirtualIps.{VirtualIps, ◌==ip◌}
use docker_sim.Network.VirtualIps.Order.{IsScanned, string_to_virtual_ip-scanned, ==ip_iff}
use docker_sim.Network.Manager.Nodes.{
  Table, is_major, is_major_ip, table_at, search_loop, last_match, get_node_from_ports_table,
}

-- The node has been named, by an address that can be scanned.
abbrev pub IsNamed : Table → Type 0
IsNamed t = (a : VirtualIps) × (t.ip_node ≡ some a) × IsScanned a

-- The table of the node stands at the position.
abbrev pub IsAt : VirtualIps → List Table → ℕ → Type 0
IsAt node_ip ts i = (t : Table) × (get_elem? ts i ≡ some t) × (t.ip_node ≡ some node_ip)

get_elem?-All :
    (ts : List Table) (i : ℕ)
    → All IsNamed ts
    → i < length ts
    → (t : Table) × (get_elem? ts i ≡ some t) × IsNamed t
get_elem?-All [] i n h = let no : ⊥ = omega (arith, h) in elim no [ ]
get_elem?-All (t ∷ ts) zero n h = (t, refl, n.0)
get_elem?-All (t ∷ ts) (suc i) n h = get_elem?-All ts i n.1 (omega (arith, h))

pub table_at-found :
    (i : ℕ) (ts : List Table) (t : Table) → get_elem? ts i ≡ some t → table_at i ts ≡ ok t
unfolding table_at
table_at-found i ts t h = ap (λ o. elim o [ some t ↦ ok t | none ↦ err bad_iterator ]) h

is_major_ip-some :
    (t : Table) (a b : VirtualIps)
    → t.ip_node ≡ some a
    → IsScanned a
    → IsScanned b
    → is_major_ip t.ip_node (some b) ≡ ok (is_major a b)
unfolding is_major_ip
is_major_ip-some t a b h p q =
    simp (h, string_to_virtual_ip-scanned a p, string_to_virtual_ip-scanned b q)

-- What the binary search may give.
abbrev Outcome : VirtualIps → List Table → Result (Option ℕ) → Type 0
Outcome node_ip ts r = (r ≡ ok none) ⊎ ((i : ℕ) × (r ≡ ok (some i)) × IsAt node_ip ts i)

-- A round of the search, at the position of a table.
abbrev visit : VirtualIps → Table → ℕ → Result (Option ℕ) → Result (Option ℕ) → Result (Option ℕ)
visit node_ip t i in_lower in_higher =
    if t.ip_node ==ip some node_ip
    then ok (some i)
    else is_major_ip t.ip_node (some node_ip) >>= (λ major. if major then in_lower else in_higher)

either-Outcome :
    (node_ip : VirtualIps) (ts : List Table) (major : Bool) (in_lower in_higher : Result (Option ℕ))
    → Outcome node_ip ts in_lower
    → Outcome node_ip ts in_higher
    → Outcome node_ip ts (if major then in_lower else in_higher)
either-Outcome node_ip ts true in_lower in_higher l h = l
either-Outcome node_ip ts false in_lower in_higher l h = h

visit-Outcome :
    (node_ip : VirtualIps) (ts : List Table) (t : Table) (i : ℕ)
    (in_lower in_higher : Result (Option ℕ))
    → get_elem? ts i ≡ some t
    → IsNamed t
    → IsScanned node_ip
    → Outcome node_ip ts in_lower
    → Outcome node_ip ts in_higher
    → Outcome node_ip ts (visit node_ip t i in_lower in_higher)
visit-Outcome node_ip ts t i in_lower in_higher e (a, is, p) q l h =
    elim (Bool-cases (t.ip_node ==ip some node_ip)) [
      | inl same ↦ inr (i, if-true _ _ same, (t, e, (==ip_iff t.ip_node (some node_ip)).0 same))
      | inr other ↦
          subst (Outcome node_ip ts)
            (sym (if-false _ _ other ∙ simp (is_major_ip-some t a node_ip is p q)))
            (either-Outcome node_ip ts (is_major a node_ip) in_lower in_higher l h)
    ]

ne→== : (a b : ℕ) → a ≢ b → a == b ≡ false
ne→== a b h = ground (arith, h)

search_loop-Outcome :
    (rounds lower higher : ℕ) (node_ip : VirtualIps) (ts : List Table)
    → All IsNamed ts
    → IsScanned node_ip
    → lower < higher
    → higher ≤ length ts
    → Outcome node_ip ts (search_loop rounds lower higher (some node_ip) ts)
unfolding search_loop
search_loop-Outcome zero lower higher node_ip ts n q h k = inl refl
search_loop-Outcome (suc rounds) lower higher node_ip ts n q h k =
    let medium : ℕ = (higher - lower) / 2 in
    let in_lower =
      search_loop-Outcome rounds lower (higher - medium) node_ip ts n q (omega (arith, h))
        (omega (arith, k)) in
    let in_higher =
      search_loop-Outcome rounds (lower + medium) higher node_ip ts n q (omega (arith, h)) k in
    let (t, e, named) = get_elem?-All ts (medium + lower) n (omega (arith, h, k)) in
    subst (Outcome node_ip ts)
      (sym (
        if-true _ _ (lt→ltb 0 higher (omega (arith, h)))
        ∙ if-false _ _ (ne→== higher lower (omega (arith, h)))
        ∙ simp (table_at-found (medium + lower) ts t e)))
      (visit-Outcome node_ip ts t (medium + lower)
        (search_loop rounds lower (higher - medium) (some node_ip) ts)
        (search_loop rounds (lower + medium) higher (some node_ip) ts) e named q in_lower in_higher)

-- What the search through all tables gives, from the position `i` on.
abbrev Matched : VirtualIps → ℕ → List Table → Type 0
Matched node_ip i ts =
    ((last_match (some node_ip) i ts ≡ none) × All (λ t. t.ip_node ≢ some node_ip) ts)
    ⊎ ((j : ℕ) × (last_match (some node_ip) i ts ≡ some (i + j)) × IsAt node_ip ts j)

-- A round of the search through all tables.
abbrev pub keep : Bool → ℕ → Option ℕ → Option ℕ
keep same i (some j) = some j
keep same i none = if same then some i else none

later : (same : Bool) (i : ℕ) {o p : Option ℕ} → o ≡ p → keep same i o ≡ keep same i p
later same i e = ap (keep same i) e

last_match-Matched : (node_ip : VirtualIps) (i : ℕ) (ts : List Table) → Matched node_ip i ts
unfolding last_match
last_match-Matched node_ip i [] = inl (refl, tt)
last_match-Matched node_ip i (t ∷ ts) = elim (last_match-Matched node_ip (suc i) ts) [
  | inr (j, e, at) ↦
      inr (suc j, later (t.ip_node ==ip some node_ip) i e ∙ ap some (omega arith), at)
  | inl (e, none_of) ↦ elim (Bool-cases (t.ip_node ==ip some node_ip)) [
    | inl same ↦ inr (
      0,
      later (t.ip_node ==ip some node_ip) i e ∙ if-true _ _ same ∙ ap some (omega arith),
      (t, refl, (==ip_iff t.ip_node (some node_ip)).0 same),
    )
    | inr other ↦ inl (
      later (t.ip_node ==ip some node_ip) i e ∙ if-false _ _ other,
      (λ same. true≢false (sym ((==ip_iff t.ip_node (some node_ip)).1 same) ∙ other), none_of),
    )
  ]
]

-- The three ends of the search: the only table, whatever its node; a table of the node; none.
abbrev pub Located : VirtualIps → List Table → Type 0
Located node_ip ts =
    ((length ts ≡ 1) × (get_node_from_ports_table (some node_ip) ts ≡ ok 0))
    ⊎ (((i : ℕ) × (get_node_from_ports_table (some node_ip) ts ≡ ok i) × IsAt node_ip ts i)
        ⊎ ((get_node_from_ports_table (some node_ip) ts ≡ err runtime_error)
            × All (λ t. t.ip_node ≢ some node_ip) ts))

search_loop-all :
    (node_ip : VirtualIps) (ts : List Table)
    → All IsNamed ts
    → IsScanned node_ip
    → Outcome node_ip ts (search_loop (length ts) 0 (length ts) (some node_ip) ts)
unfolding search_loop
search_loop-all node_ip [] n q = inl refl
search_loop-all node_ip (t ∷ ts) n q =
    search_loop-Outcome (suc (length ts)) 0 (suc (length ts)) node_ip (t ∷ ts) n q (omega arith)
      (omega arith)

-- What follows the binary search.
abbrev pub then_all : Option ℕ → Result (Option ℕ) → Result ℕ
then_all all r = r >>= (λ found. elim found [
  | some i ↦ ok i
  | none ↦ elim all [ some i ↦ ok i | none ↦ err runtime_error ]
])

-- When all nodes are named, by addresses that fit the buffer of the scanning, as does the address
-- that is looked for, the search for a node never leaves the table and never ends on a
-- position that was not read. With one table it gives that one, whatever its node; otherwise it
-- gives the position of a table of the node if there is one, and the error if there is none.
pub get_node_from_ports_table-Located :
    (node_ip : VirtualIps) (ts : List Table)
    → All IsNamed ts
    → IsScanned node_ip
    → Located node_ip ts
unfolding get_node_from_ports_table
get_node_from_ports_table-Located node_ip ts n q = elim (Bool-cases (length ts == 1)) [
  | inl one ↦ inl ((==_iff (length ts) 1).0 one, if-true _ _ one)
  | inr more ↦ inr (elim (search_loop-all node_ip ts n q) [
    | inr (i, e, at) ↦
        inl (i, if-false _ _ more ∙ ap (then_all (last_match (some node_ip) 0 ts)) e, at)
    | inl e ↦ elim (last_match-Matched node_ip 0 ts) [
      | inl (none_found, none_of) ↦ inr (
        if-false _ _ more
            ∙ ap (then_all (last_match (some node_ip) 0 ts)) e
            ∙ ap (λ all. then_all all (ok none)) none_found,
        none_of,
      )
      | inr (j, found, at) ↦ inl (
        j,
        if-false _ _ more
            ∙ ap (then_all (last_match (some node_ip) 0 ts)) e
            ∙ ap (λ all. then_all all (ok none)) found
            ∙ ap ok (omega arith),
        at,
      )
    ]
  ])
]
