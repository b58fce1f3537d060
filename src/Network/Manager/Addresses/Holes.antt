-- ===== src/Network/Manager/Addresses/Holes.antt =====
-- What becomes of an address that is deleted.
use docker_sim.Prelude.{
  ◌≡◌, refl, sym, ap, ◌∙◌, Bool, true, false, some, List, [], ◌∷◌, ◌++◌, ℤ, ◌==ℤ◌, some_inj, All,
  Result, ok, err, ◌>>=◌, buffer_overflow, ltb, if◌then◌else◌, if-true, if-false, Bool-cases, arith,
  inl, inr, sub_word,
}
use docker_sim.Network.VirtualIps.{
  VirtualIps, Address, printed_length, generate_hole, set_virtual_ip, ◌==ip◌, string_to_virtual_ip,
}
use docker_sim.Network.VirtualIps.Order.{IsScanned, string_to_virtual_ip-scanned}
use docker_sim.Network.Manager.{VirtualIpCell, IpsUserSet, NetworkManager, new_virtual_ip_cell}
use docker_sim.Network.Manager.Addresses.{
  allocate_in, allocate_loop, allocate_virtual_ip, leave, vip_loop, vm_id_loop, delete_loop,
  delete_virtual_ip_by_vip, delete_virtual_ip_by_vmid, find_vm, new_vip, after,
}

-- The numbers of an address less those of the basis.
abbrev pub difference : VirtualIps → VirtualIps → VirtualIps
difference a basis = record {
  first = sub_word a.first basis.first;
  second = sub_word a.second basis.second;
  third = sub_word a.third basis.third;
  fourth = sub_word a.fourth basis.fourth;
}

abbrev pub NotOf : ℤ → List IpsUserSet → Type 0
NotOf user_id = All (λ u. u.user_id ==ℤ user_id ≡ false)

-- The set without a cell, whose hole is kept.
abbrev pub left_by : VirtualIps → VirtualIpCell → List VirtualIpCell → IpsUserSet → IpsUserSet
left_by basis c rest u = record u {
  virtual_ip_cell = rest;
  holes_ip = u.holes_ip ++ some (difference c.virtual_ip basis) ∷ [];
}

generate_hole-scanned :
    (basis a : VirtualIps)
    → IsScanned basis
    → generate_hole (some basis) a ≡ ok (some (difference a basis))
unfolding generate_hole
generate_hole-scanned basis a b =
    ap (λ r. r >>= (λ basis. ok (some (difference a basis)))) (string_to_virtual_ip-scanned basis b)

abbrev with_hole : Address → List VirtualIpCell → IpsUserSet → IpsUserSet
with_hole hole rest u = record u { virtual_ip_cell = rest; holes_ip = u.holes_ip ++ hole ∷ [] }

vm_id_loop-found :
    (basis : VirtualIps) (vm_id : ℤ) (before cs : List VirtualIpCell) (u : IpsUserSet)
    (c : VirtualIpCell)
    → IsScanned basis
    → find_vm vm_id cs ≡ some c
    → (rest : List VirtualIpCell) × (vm_id_loop (some basis) vm_id before cs u
        ≡ ok (true, left_by basis c rest u))
unfolding find_vm vm_id_loop leave
vm_id_loop-found basis vm_id before [] u c b h = let no : ⊥ = ground (arith, h) in elim no [ ]
vm_id_loop-found basis vm_id before (x ∷ cs) u c b h = elim (Bool-cases (x.vm_id ==ℤ vm_id)) [
  | inl k ↦
      let same : x ≡ c = some_inj (sym (if-true _ _ k) ∙ h) in
      (
        before ++ cs,
        if-true _ _ k
            ∙ ap (λ r. r >>= (λ h. ok (with_hole h (before ++ cs) u)) >>= (λ u. ok (true, u)))
                (generate_hole-scanned basis x.virtual_ip b)
            ∙ ap (λ y. ok (true, left_by basis y (before ++ cs) u)) same,
      )
  | inr k ↦
      let (rest, e) =
        vm_id_loop-found basis vm_id (before ++ x ∷ []) cs u c b (sym (if-false _ _ k) ∙ h) in
      (rest, if-false _ _ k ∙ e)
]

vip_loop-none :
    (basis a : Address) (cs : List VirtualIpCell) (u : IpsUserSet)
    → vip_loop basis a 0 [] cs u ≡ ok (false, u)
unfolding vip_loop
vip_loop-none basis a [] u = refl
vip_loop-none basis a (c ∷ cs) u = refl

delete_loop-none :
    (basis a : Address) (user_id : ℤ) (us : List IpsUserSet)
    → delete_loop (λ u. vip_loop basis a 0 [] u.virtual_ip_cell u) user_id us ≡ ok us
unfolding delete_loop
delete_loop-none basis a user_id [] = refl
delete_loop-none basis a user_id (u ∷ us) = elim (Bool-cases (u.user_id ==ℤ user_id)) [
  | inl h ↦
      if-true _ _ h
      ∙ simp (vip_loop-none basis a u.virtual_ip_cell u, delete_loop-none basis a user_id us)
  | inr h ↦ if-false _ _ h ∙ simp (delete_loop-none basis a user_id us)
]

delete_loop-at :
    (inner : IpsUserSet → Result (Bool × IpsUserSet)) (user_id : ℤ) (before later : List IpsUserSet)
    (u v : IpsUserSet)
    → NotOf user_id before
    → u.user_id ==ℤ user_id ≡ true
    → inner u ≡ ok (true, v)
    → delete_loop inner user_id (before ++ u ∷ later) ≡ ok (before ++ v ∷ later)
unfolding delete_loop
delete_loop-at inner user_id [] later u v n h e = if-true _ _ h ∙ simp (e)
delete_loop-at inner user_id (x ∷ before) later u v n h e =
    if-false _ _ n.0 ∙ simp (delete_loop-at inner user_id before later u v n.1 h e)

bind_assoc :
    {A B C : Type 0} (r : Result A) (f : A → Result B) (g : B → Result C)
    → r >>= f >>= g ≡ r >>= (λ a. f a >>= g)
bind_assoc (ok a) f g = refl
bind_assoc (err e) f g = refl

allocate_loop-at :
    (basis ip_node : Address) (user_id vm_id : ℤ) (before later : List IpsUserSet) (u : IpsUserSet)
    (r : Result (Address × IpsUserSet))
    → NotOf user_id before
    → u.user_id ==ℤ user_id ≡ true
    → allocate_in basis ip_node vm_id u ≡ r
    → allocate_loop basis ip_node user_id vm_id (before ++ u ∷ later)
      ≡ r >>= (λ r. ok (r.0, before ++ r.1 ∷ later))
unfolding allocate_loop
allocate_loop-at basis ip_node user_id vm_id [] later u r n h e =
    if-true _ _ h ∙ ap (λ r. r >>= (λ r. ok (r.0, r.1 ∷ later))) e
allocate_loop-at basis ip_node user_id vm_id (x ∷ before) later u r n h e =
    if-false _ _ n.0
    ∙ ap (λ r. r >>= (λ r. ok (r.0, x ∷ r.1)))
        (allocate_loop-at basis ip_node user_id vm_id before later u r n.1 h e)
    ∙ bind_assoc r (λ r. ok (r.0, before ++ r.1 ∷ later)) (λ r. ok (r.0, x ∷ r.1))

new_vip-hole :
    (basis hole : Address) (holes : List Address) (u : IpsUserSet)
    → u.holes_ip ≡ hole ∷ holes
    → new_vip basis u ≡ ok (hole, record u { holes_ip = holes })
unfolding new_vip
new_vip-hole basis hole holes u h =
    ap
      (λ hs. elim hs [
        | first ∷ rest ↦ ok (first, record u { holes_ip = rest })
        | [] ↦ if basis ==ip u.last_ip then after basis u else after u.last_ip u
      ])
      h

-- Allocation from a hole.
abbrev refilled : IpsUserSet → VirtualIps → Address → ℤ → IpsUserSet
refilled u a ip_node vm_id = record u {
  holes_ip = [];
  virtual_ip_cell =
      u.virtual_ip_cell ++ record { virtual_ip = a; ip_node = ip_node; vm_id = vm_id } ∷ [];
}

-- The hole is handed out, unless it is too long to be scanned.
abbrev pub handed_out {ℓ} : {A : Type ℓ} → VirtualIps → A → Result A
handed_out a r = if ltb (printed_length a) 16 then ok r else err buffer_overflow

bind_handed_out :
    {B : Type 0} (fits : Bool) (a : VirtualIps) (f : VirtualIps → B)
    → (if fits then ok a else err buffer_overflow) >>= (λ vip. ok (f vip))
      ≡ (if fits then ok (f a) else err buffer_overflow)
bind_handed_out true a f = refl
bind_handed_out false a f = refl

bind_chosen :
    {A B C : Type 0} (fits : Bool) (a : A) (f : A → B) (g : B → C)
    → (if fits then ok a else err buffer_overflow) >>= (λ r. ok (f r)) >>= (λ r. ok (g r))
      ≡ (if fits then ok (g (f a)) else err buffer_overflow)
bind_chosen true a f g = refl
bind_chosen false a f g = refl

allocate_in-hole :
    (basis ip_node : Address) (vm_id : ℤ) (a : VirtualIps) (u : IpsUserSet)
    → u.holes_ip ≡ some a ∷ []
    → allocate_in basis ip_node vm_id u ≡ handed_out a (some a, refilled u a ip_node vm_id)
unfolding allocate_in set_virtual_ip string_to_virtual_ip new_virtual_ip_cell
allocate_in-hole basis ip_node vm_id a u h = simp (new_vip-hole basis (some a) [] u h) (
    bind_handed_out (ltb (printed_length a) 16) a (λ vip. (
      some a,
      record u {
        holes_ip = [];
        virtual_ip_cell =
            u.virtual_ip_cell ++ record { virtual_ip = vip; ip_node = ip_node; vm_id = vm_id } ∷ [];
      },
    )))

-- Deleting an address by itself changes nothing. Deleting the address of a machine that the first
-- set of a user has, without holes, succeeds if the basis is short enough to be scanned. The next
-- allocation for the user then gives the difference of that address to the basis, in place of the
-- address, if the difference is printed in at most 15 characters, and overflows the buffer of the
-- scanning if it is longer.
pub delete_virtual_ip-allocate :
    (basis : VirtualIps) (ip_node : Address) (user_id vm_id new_vm_id : ℤ) (m : NetworkManager)
    (before later : List IpsUserSet) (u : IpsUserSet) (c : VirtualIpCell)
    → m.ip_basis ≡ some basis
    → IsScanned basis
    → m.ips_cloud ≡ before ++ u ∷ later
    → NotOf user_id before
    → u.user_id ==ℤ user_id ≡ true
    → u.holes_ip ≡ []
    → find_vm vm_id u.virtual_ip_cell ≡ some c
    → (delete_virtual_ip_by_vip (some c.virtual_ip) user_id m ≡ ok m)
      × (left allocated : NetworkManager) × (delete_virtual_ip_by_vmid vm_id user_id m ≡ ok left)
      × (allocate_virtual_ip ip_node user_id new_vm_id left
          ≡ handed_out
              (difference c.virtual_ip basis)
              (some (difference c.virtual_ip basis), allocated))
unfolding delete_virtual_ip_by_vip delete_virtual_ip_by_vmid allocate_virtual_ip
delete_virtual_ip-allocate basis ip_node user_id vm_id new_vm_id m before later u c b p is n h k f =
    let (rest, e) = vm_id_loop-found basis vm_id [] u.virtual_ip_cell u c p f in
    let v = left_by basis c rest u in
    let a = difference c.virtual_ip basis in
    let d =
      delete_loop-at (λ u. vm_id_loop (some basis) vm_id [] u.virtual_ip_cell u) user_id before
        later u v n h e in
    let end : Result (Address × List IpsUserSet) → Result (Address × NetworkManager) =
      λ r. r >>= (λ r. ok (r.0, record m { ips_cloud = r.1 })) in
    let given : Address × IpsUserSet = (some a, refilled v a ip_node new_vm_id) in
    let g =
      allocate_loop-at (some basis) ip_node user_id new_vm_id before later v (handed_out a given) n
        h (allocate_in-hole (some basis) ip_node new_vm_id a v (ap (λ hs. hs ++ some a ∷ []) k)) in
    (
      simp (delete_loop-none m.ip_basis (some c.virtual_ip) user_id m.ips_cloud),
      record m { ips_cloud = before ++ v ∷ later },
      record m { ips_cloud = before ++ refilled v a ip_node new_vm_id ∷ later },
      simp (b, is, d),
      ap (λ ip. end (allocate_loop ip ip_node user_id new_vm_id (before ++ v ∷ later))) b
          ∙ ap end g
          ∙ bind_chosen (ltb (printed_length a) 16) given (λ r. (r.0, before ++ r.1 ∷ later))
              (λ r. (r.0, record m { ips_cloud = r.1 })),
    )
