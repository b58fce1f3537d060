-- ===== src/Network/Manager/Addresses/Growth.antt =====
-- What one allocation adds to the sets of the users.
use docker_sim.Prelude.{
  ℕ, suc, ◌+◌, ◌≤◌, ◌<◌, ◌≡◌, ◌⊎◌, inl, inr, refl, sym, ap, ◌∙◌, true, false, none, some, List, [],
  ◌∷◌, ◌++◌, ℤ, ◌==ℤ◌, length, length-append, All, ok, ◌>>=◌, if-true, if-false, Bool-cases, arith,
}
use docker_sim.Network.VirtualIps.{VirtualIps, Address, get_virtual_ip}
use docker_sim.Network.VirtualIps.Order.{rank, ==ip_refl}
use docker_sim.Network.Manager.{VirtualIpCell, IpsUserSet}
use docker_sim.Network.Manager.Addresses.{allocate_loop, find_vip, cells_of}
use docker_sim.Network.Manager.Addresses.Consecutive.{
  Consecutive, last_rank, cell_at, extended, find_vip-append, allocate_in-Consecutive,
}

-- The search for an address of a user finds the cell.
abbrev pub Found : List IpsUserSet → ℤ × VirtualIpCell → Type 0
Found us (user_id, c) = find_vip (some c.virtual_ip) (cells_of user_id us) ≡ some c

abbrev pub Kept : VirtualIps → ℕ → IpsUserSet → Type 0
Kept basis n u = Consecutive basis u × (length u.virtual_ip_cell ≤ n)

-- What the search for an address found before, it finds after.
abbrev pub Grown : List IpsUserSet → List IpsUserSet → Type 0
Grown us us' =
    (user_id : ℤ) (a : Address) (c : VirtualIpCell)
    → find_vip a (cells_of user_id us) ≡ some c
    → find_vip a (cells_of user_id us') ≡ some c

-- What an allocation gives: the cells are those of before and a new one, unless there is no user.
abbrev pub Given : Address → ℤ → ℤ → List IpsUserSet → Address → List IpsUserSet → Type 0
Given ip_node user_id vm_id us r us' =
    ((r ≡ none) × (us' ≡ us))
    ⊎ ((a : VirtualIps) × (r ≡ some a) × Found us' (user_id, cell_at a ip_node vm_id))

pub Kept-suc :
    (basis : VirtualIps) (n : ℕ) (us : List IpsUserSet)
    → All (Kept basis n) us
    → All (Kept basis (suc n)) us
Kept-suc basis n [] k = k
Kept-suc basis n (u ∷ us) k = ((k.0.0, omega (arith, k.0.1)), Kept-suc basis n us k.1)

find_vip-extended :
    (u : IpsUserSet) (a : VirtualIps) (ip_node : Address) (vm_id : ℤ) (b : Address)
    (c : VirtualIpCell)
    → find_vip b u.virtual_ip_cell ≡ some c
    → find_vip b (u.virtual_ip_cell ++ cell_at a ip_node vm_id ∷ []) ≡ some c
find_vip-extended u a ip_node vm_id b c h =
    ground (arith, find_vip-append b u.virtual_ip_cell (cell_at a ip_node vm_id), h)

find_vip-new :
    (u : IpsUserSet) (a : VirtualIps) (ip_node : Address) (vm_id : ℤ)
    → find_vip (some a) u.virtual_ip_cell ≡ none
    → find_vip (some a) (u.virtual_ip_cell ++ cell_at a ip_node vm_id ∷ [])
      ≡ some (cell_at a ip_node vm_id)
unfolding get_virtual_ip
find_vip-new u a ip_node vm_id h = ground (
  arith,
  find_vip-append (some a) u.virtual_ip_cell (cell_at a ip_node vm_id),
  h,
  ==ip_refl (some a),
)

pub record Allocated (basis : VirtualIps) (n : ℕ) (ip_node : Address) (user_id vm_id : ℤ)
    (us : List IpsUserSet) : Type 0 where
  pub address : Address
  pub left : List IpsUserSet
  pub returns : allocate_loop (some basis) ip_node user_id vm_id us ≡ ok (address, left)
  pub kept : All (Kept basis (suc n)) left
  pub grown : Grown us left
  pub given : Given ip_node user_id vm_id us address left

extended-Grown :
    (u : IpsUserSet) (us : List IpsUserSet) (a : VirtualIps) (ip_node : Address) (vm_id : ℤ)
    → Grown (u ∷ us) (extended u a ip_node vm_id ∷ us)
unfolding cells_of
extended-Grown u us a ip_node vm_id user b c f = elim (Bool-cases (u.user_id ==ℤ user)) [
  | inl h ↦
      ap (find_vip b) (if-true _ _ h)
      ∙ find_vip-extended u a ip_node vm_id b c (sym (ap (find_vip b) (if-true _ _ h)) ∙ f)
  | inr h ↦ ap (find_vip b) (if-false _ _ h) ∙ sym (ap (find_vip b) (if-false _ _ h)) ∙ f
]

cons-Grown : (u : IpsUserSet) (us vs : List IpsUserSet) → Grown us vs → Grown (u ∷ us) (u ∷ vs)
unfolding cells_of
cons-Grown u us vs g user b c f = elim (Bool-cases (u.user_id ==ℤ user)) [
  | inl h ↦ ap (find_vip b) (if-true _ _ h) ∙ sym (ap (find_vip b) (if-true _ _ h)) ∙ f
  | inr h ↦
      ap (find_vip b) (if-false _ _ h) ∙ g user b c (sym (ap (find_vip b) (if-false _ _ h)) ∙ f)
]

cons-Given :
    (u : IpsUserSet) (us vs : List IpsUserSet) (ip_node r : Address) (user_id vm_id : ℤ)
    → u.user_id ==ℤ user_id ≡ false
    → Given ip_node user_id vm_id us r vs
    → Given ip_node user_id vm_id (u ∷ us) r (u ∷ vs)
unfolding cells_of
cons-Given u us vs ip_node r user_id vm_id h (inl (n, e)) = inl (n, ap (λ l. u ∷ l) e)
cons-Given u us vs ip_node r user_id vm_id h (inr (a, e, f)) =
    inr (a, e, ap (find_vip (some a)) (if-false _ _ h) ∙ f)

module _ (basis : VirtualIps) (n : ℕ) (room : rank basis + n < last_rank) (ip_node : Address)
    (user_id vm_id : ℤ) where
  allocate_here :
      (u : IpsUserSet) (us : List IpsUserSet)
      → Kept basis n u
      → All (Kept basis n) us
      → u.user_id ==ℤ user_id ≡ true
      → Allocated basis n ip_node user_id vm_id (u ∷ us)
  unfolding allocate_loop cells_of
  allocate_here u us k ks h =
      let (a, e, new, i) =
        allocate_in-Consecutive basis ip_node vm_id u k.0 (omega (arith, k.1, room)) in
      record {
        address = some a;
        left = extended u a ip_node vm_id ∷ us;
        returns = if-true _ _ h ∙ ap (λ r. r >>= (λ r. ok (r.0, r.1 ∷ us))) e;
        kept = (
          (i, omega (arith, k.1, length-append u.virtual_ip_cell (cell_at a ip_node vm_id ∷ []))),
          Kept-suc basis n us ks,
        );
        grown = extended-Grown u us a ip_node vm_id;
        given =
            inr (
              a,
              refl,
              ap (find_vip (some a)) (if-true _ _ h) ∙ find_vip-new u a ip_node vm_id new,
            );
      }

  pub allocate_loop-Allocated :
      (us : List IpsUserSet) → All (Kept basis n) us → Allocated basis n ip_node user_id vm_id us
  unfolding allocate_loop
  allocate_loop-Allocated [] k = record {
    address = none;
    left = [];
    returns = refl;
    kept = tt;
    grown = λ user b c f. f;
    given = inl (refl, refl);
  }
  allocate_loop-Allocated (u ∷ us) k = elim (Bool-cases (u.user_id ==ℤ user_id)) [
    | inl h ↦ allocate_here u us k.0 k.1 h
    | inr h ↦
        let r = allocate_loop-Allocated us k.1 in
        record {
          address = r.address;
          left = u ∷ r.left;
          returns = if-false _ _ h ∙ ap (λ r. r >>= (λ r. ok (r.0, u ∷ r.1))) r.returns;
          kept = ((k.0.0, omega (arith, k.0.1)), r.kept);
          grown = cons-Grown u us r.left r.grown;
          given = cons-Given u us r.left ip_node r.address user_id vm_id h r.given;
        }
  ]
