-- ===== src/Network/Manager/Addresses/Consecutive.antt =====
-- The addresses of a user without deletions: each one is the next one behind the basis.
use docker_sim.Prelude.{
  ℕ, suc, ◌+◌, ◌<◌, ◌≡◌, inl, inr, refl, ap, ◌∙◌, none, some, List, [], ◌∷◌, ◌++◌, ℤ, length,
  length-append, ok, if◌then◌else◌, if-true, if-false, Bool-cases, arith,
}
use docker_sim.Network.VirtualIps.{
  VirtualIps, Address, ◌==ip◌, equal_ips, set_virtual_ip, get_virtual_ip, inc_virtual_ip,
}
use docker_sim.Network.VirtualIps.Order.{
  Octets, Octets-IsScanned, string_to_virtual_ip-scanned, rank, inc_virtual_ip-Next, equal_ips_iff,
  ==ip_iff,
}
use docker_sim.Network.Manager.{VirtualIpCell, IpsUserSet, new_virtual_ip_cell}
use docker_sim.Network.Manager.Addresses.{after, new_vip, allocate_in, find_vip}

-- The rank of the last address there is.
abbrev pub last_rank : ℕ
last_rank = 4362470400

-- The ranks of the cells follow a number, one by one.
abbrev pub Numbered : ℕ → List VirtualIpCell → Type 0
Numbered r [] = Unit
Numbered r (c ∷ cs) = (rank c.virtual_ip ≡ suc r) × Numbered (suc r) cs

pub record Consecutive (basis : VirtualIps) (u : IpsUserSet) : Type 0 where
  pub no_holes : u.holes_ip ≡ []
  pub last : VirtualIps
  pub is_last : u.last_ip ≡ some last
  pub octets : Octets last
  pub counted : rank last ≡ rank basis + length u.virtual_ip_cell
  pub numbered : Numbered (rank basis) u.virtual_ip_cell

Numbered-append :
    (r : ℕ) (cs : List VirtualIpCell) (c : VirtualIpCell)
    → Numbered r cs
    → rank c.virtual_ip ≡ suc (r + length cs)
    → Numbered r (cs ++ c ∷ [])
Numbered-append r [] c n h = (omega (arith, h), tt)
Numbered-append r (x ∷ cs) c n h = (n.0, Numbered-append (suc r) cs c n.1 (omega (arith, h)))

pub find_vip-append :
    (a : Address) (cs : List VirtualIpCell) (c : VirtualIpCell)
    → find_vip a (cs ++ c ∷ []) ≡ elim (find_vip a cs) [
      | some x ↦ some x
      | none ↦ if a ==ip get_virtual_ip c.virtual_ip then some c else none
    ]
unfolding find_vip
find_vip-append a [] c = refl
find_vip-append a (x ∷ cs) c = ground (arith, find_vip-append a cs c)

-- An address of a higher rank than the cells is new.
find_vip-Numbered :
    (a : VirtualIps) (r : ℕ) (cs : List VirtualIpCell)
    → Numbered r cs
    → r + length cs < rank a
    → find_vip (some a) cs ≡ none
unfolding find_vip get_virtual_ip ◌==ip◌
find_vip-Numbered a r [] n h = refl
find_vip-Numbered a r (c ∷ cs) n h = elim (Bool-cases (equal_ips a c.virtual_ip)) [
  | inl e ↦
      let same : rank a ≡ rank c.virtual_ip = ap rank ((equal_ips_iff a c.virtual_ip).0 e) in
      let no : ⊥ = omega (arith, same, n.0, h) in elim no [ ]
  | inr e ↦ if-false _ _ e ∙ find_vip-Numbered a (suc r) cs n.1 (omega (arith, h))
]

-- With no hole, it makes no difference whether the last address is the basis.
new_vip-after :
    (basis : Address) (u : IpsUserSet) → u.holes_ip ≡ [] → new_vip basis u ≡ after u.last_ip u
unfolding new_vip
new_vip-after basis u h =
    ap
      (λ holes. elim holes [
        | hole ∷ holes ↦ ok (hole, record u { holes_ip = holes })
        | [] ↦ if basis ==ip u.last_ip then after basis u else after u.last_ip u
      ])
      h
    ∙ elim (Bool-cases (basis ==ip u.last_ip)) [
      | inl e ↦ if-true _ _ e ∙ ap (λ a. after a u) ((==ip_iff basis u.last_ip).0 e)
      | inr e ↦ if-false _ _ e
    ]

-- The cell that an allocation adds.
abbrev pub cell_at : VirtualIps → Address → ℤ → VirtualIpCell
cell_at a ip_node vm_id = record { virtual_ip = a; ip_node = ip_node; vm_id = vm_id }

abbrev pub extended : IpsUserSet → VirtualIps → Address → ℤ → IpsUserSet
extended u a ip_node vm_id = record u {
  last_ip = some a;
  virtual_ip_cell = u.virtual_ip_cell ++ cell_at a ip_node vm_id ∷ [];
}

after-last :
    (u : IpsUserSet) (last next : VirtualIps)
    → u.last_ip ≡ some last
    → Octets last
    → inc_virtual_ip last ≡ (some next, next)
    → after u.last_ip u ≡ ok (some next, record u { last_ip = some next })
unfolding after set_virtual_ip
after-last u last next h o k =
    simp (h, string_to_virtual_ip-scanned last (Octets-IsScanned last o), k)

allocate_in-next :
    (basis ip_node : Address) (vm_id : ℤ) (u : IpsUserSet) (last next : VirtualIps)
    → u.holes_ip ≡ []
    → u.last_ip ≡ some last
    → Octets last
    → inc_virtual_ip last ≡ (some next, next)
    → Octets next
    → allocate_in basis ip_node vm_id u ≡ ok (some next, extended u next ip_node vm_id)
unfolding allocate_in set_virtual_ip new_virtual_ip_cell
allocate_in-next basis ip_node vm_id u last next h k o e p = simp (
  new_vip-after basis u h,
  after-last u last next k o e,
  string_to_virtual_ip-scanned next (Octets-IsScanned next p),
)

-- An allocation succeeds while there are addresses: it gives the next address, for a new cell.
pub allocate_in-Consecutive :
    (basis : VirtualIps) (ip_node : Address) (vm_id : ℤ) (u : IpsUserSet)
    → Consecutive basis u
    → rank basis + length u.virtual_ip_cell < last_rank
    → (a : VirtualIps) × (allocate_in (some basis) ip_node vm_id u
        ≡ ok (some a, extended u a ip_node vm_id))
      × (find_vip (some a) u.virtual_ip_cell ≡ none)
      × Consecutive basis (extended u a ip_node vm_id)
allocate_in-Consecutive basis ip_node vm_id u i room = elim (inc_virtual_ip-Next i.last i.octets) [
  | inl (a, e, r, o) ↦ (
    a,
    allocate_in-next (some basis) ip_node vm_id u i.last a i.no_holes i.is_last i.octets e o,
    find_vip-Numbered a (rank basis) u.virtual_ip_cell i.numbered (omega (arith, r, i.counted)),
    record {
      no_holes = i.no_holes;
      last = a;
      is_last = refl;
      octets = o;
      counted =
          omega
            (arith, r, i.counted, length-append u.virtual_ip_cell (cell_at a ip_node vm_id ∷ []));
      numbered =
          Numbered-append (rank basis) u.virtual_ip_cell (cell_at a ip_node vm_id) i.numbered
            (omega (arith, r, i.counted));
    },
  )
  | inr (e, r) ↦ let no : ⊥ = omega (arith, r, i.counted, room) in elim no [ ]
]
