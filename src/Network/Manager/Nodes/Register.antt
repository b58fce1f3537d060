-- ===== src/Network/Manager/Nodes/Register.antt =====
-- Ports that are registered through the manager.
use docker_sim.Prelude.{
  ℕ, zero, suc, ◌+◌, ◌-◌, ◌/◌, ◌<◌, inl, inr, Bool-cases, ==_iff, if-true, if-false, ◌≡◌, ◌≢◌, refl,
  sym, ap, ◌∙◌, Option, none, some, List, [], ◌∷◌, ◌&&◌, ℤ, ◌==ℤ◌, length, get_elem?,
  get_elem?-set_self, get_elem?-set_other, get_elem?-bound, some_inj, set, ltb, ◌==◌, Result, ok,
  err, ◌>>=◌, not_initialised, bad_iterator, if◌then◌else◌,
}
use mathlib.Core.Bool.{true≢false}
use docker_sim.Network.VirtualIps.{Address, ◌==ip◌}
use docker_sim.Network.PortTable
use docker_sim.Network.PortTable.{find_row, port_not_found}
use docker_sim.Network.PortTable.Rows.{IsDistinct}
use docker_sim.Network.PortTable.Lookup.{get_real_port-register_port}
use docker_sim.Network.Manager.{NetworkManager}
use docker_sim.Network.Manager.Nodes.Lookup.{keep, then_all, table_at-found}
use docker_sim.Network.Manager.Nodes.{
  Table, is_major_ip, table_at, search_loop, last_match, get_node_from_ports_table, at_node,
  register_port, get_real_port,
}

-- Tables of the same nodes, in the same order.
abbrev SameNodes : List Table → List Table → Type 0
SameNodes [] [] = Unit
SameNodes (t ∷ ts) (u ∷ us) = (t.ip_node ≡ u.ip_node) × SameNodes ts us
SameNodes [] (u ∷ us) = ⊥
SameNodes (t ∷ ts) [] = ⊥

SameNodes-refl : (ts : List Table) → SameNodes ts ts
SameNodes-refl [] = tt
SameNodes-refl (t ∷ ts) = (refl, SameNodes-refl ts)

SameNodes-set :
    (ts : List Table) (i : ℕ) (t u : Table)
    → get_elem? ts i ≡ some t
    → t.ip_node ≡ u.ip_node
    → SameNodes ts (set ts i u)
SameNodes-set [] i t u h e = tt
SameNodes-set (x ∷ ts) zero t u h e = (ap (λ y. y.ip_node) (some_inj h) ∙ e, SameNodes-refl ts)
SameNodes-set (x ∷ ts) (suc i) t u h e = (refl, SameNodes-set ts i t u h e)

length-SameNodes : (ts us : List Table) → SameNodes ts us → length ts ≡ length us
length-SameNodes [] [] s = refl
length-SameNodes (t ∷ ts) (u ∷ us) s = ap suc (length-SameNodes ts us s.1)
length-SameNodes [] (u ∷ us) s = elim s [ ]
length-SameNodes (t ∷ ts) [] s = elim s [ ]

table_at-SameNodes :
    (f : Address → Result (Option ℕ)) (ts us : List Table) (i : ℕ)
    → SameNodes ts us
    → table_at i ts >>= (λ t. f t.ip_node) ≡ table_at i us >>= (λ t. f t.ip_node)
unfolding table_at
table_at-SameNodes f [] [] i s = refl
table_at-SameNodes f (t ∷ ts) (u ∷ us) zero s = ap f s.0
table_at-SameNodes f (t ∷ ts) (u ∷ us) (suc i) s = table_at-SameNodes f ts us i s.1
table_at-SameNodes f [] (u ∷ us) i s = elim s [ ]
table_at-SameNodes f (t ∷ ts) [] i s = elim s [ ]

last_match-SameNodes :
    (a : Address) (i : ℕ) (ts us : List Table)
    → SameNodes ts us
    → last_match a i ts ≡ last_match a i us
unfolding last_match
last_match-SameNodes a i [] [] s = refl
last_match-SameNodes a i (t ∷ ts) (u ∷ us) s =
    ap (λ o. keep (t.ip_node ==ip a) i o) (last_match-SameNodes a (suc i) ts us s.1)
    ∙ ap (λ ip. keep (ip ==ip a) i (last_match a (suc i) us)) s.0
last_match-SameNodes a i [] (u ∷ us) s = elim s [ ]
last_match-SameNodes a i (t ∷ ts) [] s = elim s [ ]

search_loop-SameNodes :
    (rounds lower higher : ℕ) (a : Address) (ts us : List Table)
    → SameNodes ts us
    → search_loop rounds lower higher a ts ≡ search_loop rounds lower higher a us
unfolding search_loop
search_loop-SameNodes zero lower higher a ts us s = refl
search_loop-SameNodes (suc rounds) lower higher a ts us s =
    let medium : ℕ = (higher - lower) / 2 in
    let l = search_loop-SameNodes rounds lower (higher - medium) a ts us s in
    let h = search_loop-SameNodes rounds (lower + medium) higher a ts us s in
    let visit : Result (Option ℕ) → Result (Option ℕ) → Address → Result (Option ℕ) =
      λ in_lower in_higher ip.
        if ip ==ip a
        then ok (some (medium + lower))
        else is_major_ip ip a >>= (λ major. if major then in_lower else in_higher) in
    let guarded : Result (Option ℕ) → Result (Option ℕ) =
      λ r. if ltb 0 higher then if higher == lower then err not_initialised else r else ok none in
    let in_lower = search_loop rounds lower (higher - medium) a in
    let in_higher = search_loop rounds (lower + medium) higher a in
    ap (λ r. guarded (table_at (medium + lower) ts >>= (λ t. visit r (in_higher ts) t.ip_node))) l
    ∙ ap (λ r. guarded (table_at (medium + lower) ts >>= (λ t. visit (in_lower us) r t.ip_node))) h
    ∙ ap guarded (table_at-SameNodes (visit (in_lower us) (in_higher us)) ts us (medium + lower) s)

get_node-SameNodes :
    (a : Address) (ts us : List Table)
    → SameNodes ts us
    → get_node_from_ports_table a ts ≡ get_node_from_ports_table a us
unfolding get_node_from_ports_table
get_node-SameNodes a ts us s =
    let result : ℕ → Option ℕ → Result (Option ℕ) → Result ℕ =
      λ n all r. if n == 1 then ok 0 else then_all all r in
    let n = length us in
    ap (λ n. result n (last_match a 0 ts) (search_loop n 0 n a ts)) (length-SameNodes ts us s)
    ∙ ap (λ all. result n all (search_loop n 0 n a ts)) (last_match-SameNodes a 0 ts us s)
    ∙ ap (result n (last_match a 0 us)) (search_loop-SameNodes n 0 n a ts us s)

-- What is found in the table at a position.
abbrev found_in : ℤ → ℤ → ℤ → Result Table → Result ℤ
found_in w vm user r = r >>= (λ t. ok (PortTable.get_real_port w vm user t))

table_at-other :
    (ts : List Table) (i j : ℕ) (u : Table) → j ≢ i → table_at j (set ts i u) ≡ table_at j ts
unfolding table_at
table_at-other ts i j u other =
    ap (λ o. elim o [ some t ↦ ok t | none ↦ err bad_iterator ])
      (get_elem?-set_other ts i j u other)

found_at :
    (w vm user : ℤ) (ts : List Table) (i : ℕ) (u : Table) (j : ℕ)
    → i < length ts
    → found_in w vm user (table_at j (set ts i u)) ≡ (
        if j == i
        then ok (PortTable.get_real_port w vm user u)
        else found_in w vm user (table_at j ts))
found_at w vm user ts i u j k = elim (Bool-cases (j == i)) [
  | inl e ↦
      ap (λ j. found_in w vm user (table_at j (set ts i u))) ((==_iff j i).0 e)
      ∙ ap (found_in w vm user) (table_at-found i (set ts i u) u (get_elem?-set_self ts i u k))
      ∙ sym (if-true _ _ e)
  | inr e ↦
      ap (found_in w vm user)
        (table_at-other ts i j u (λ same. true≢false (sym ((==_iff j i).1 same) ∙ e)))
      ∙ sym (if-false _ _ e)
]

-- The search at a node, and what it becomes when the table at a position is replaced.
abbrev at_nodes : ℤ → ℤ → ℤ → List Table → Result ℕ → Result ℤ
at_nodes w vm user ts r = r >>= (λ j. found_in w vm user (table_at j ts))

abbrev replaced : ℤ → ℤ → ℤ → List Table → ℕ → Table → Result ℕ → Result ℤ
replaced w vm user ts i u r =
    r
    >>= (λ j. if j == i then ok (PortTable.get_real_port w vm user u) else at_nodes w vm user ts r)

at_nodes-set :
    (w vm user : ℤ) (ts : List Table) (i : ℕ) (u : Table) (r : Result ℕ)
    → i < length ts
    → at_nodes w vm user (set ts i u) r ≡ replaced w vm user ts i u r
at_nodes-set w vm user ts i u (ok j) k = found_at w vm user ts i u j k
at_nodes-set w vm user ts i u (err e) k = refl

-- A node that the search finds, with its table: after a port is registered there, which succeeds,
-- the search for a port of any node goes on as before, unless it is in that table: there it finds
-- the older port of the same machine behind that virtual port if there was one, otherwise the new
-- port for its own virtual port, machine and user, and what it found before for all others. The
-- addresses stay. The rows of the table must have distinct virtual ports.
pub register_port-get_real_port :
    (user real_port virtual_port vm operation w user' vm' : ℤ) (a b : Address) (m : NetworkManager)
    (i : ℕ) (t : Table)
    → get_node_from_ports_table a m.ports_per_node ≡ ok i
    → get_elem? m.ports_per_node i ≡ some t
    → IsDistinct t
    → (m' : NetworkManager) × (register_port user a vm real_port virtual_port operation m ≡ ok m')
      × (get_real_port b w user' vm' m'
          ≡ get_node_from_ports_table b m.ports_per_node >>= (λ j.
            if j == i
            then ok (elim (find_row w vm' user' t.virtual_ports) [
              | some r ↦ r.r_port
              | none ↦
                  if (virtual_port ==ℤ w) && ((vm ==ℤ vm') && (user ==ℤ user'))
                  then real_port
                  else port_not_found
            ])
            else get_real_port b w user' vm' m))
      × (m'.ips_cloud ≡ m.ips_cloud)
unfolding register_port at_node get_real_port PortTable.register_port
register_port-get_real_port user real_port virtual_port vm operation w user' vm' a b m i t h e d =
    let ts = m.ports_per_node in
    let u = PortTable.register_port real_port virtual_port user vm operation t in
    let same = SameNodes-set ts i t u e refl in
    let node = get_node_from_ports_table b ts in
    (
      record m { ports_per_node = set ts i u },
      simp (h, table_at-found i ts t e),
      ap (at_nodes w vm' user' (set ts i u)) (sym (get_node-SameNodes b ts (set ts i u) same))
          ∙ at_nodes-set w vm' user' ts i u node (get_elem?-bound ts i t e)
          ∙ ap (λ p. node >>= (λ j. if j == i then ok p else at_nodes w vm' user' ts node))
              (get_real_port-register_port real_port virtual_port user vm operation w vm' user' t
                d),
      refl,
    )
