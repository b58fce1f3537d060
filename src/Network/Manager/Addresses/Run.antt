-- ===== src/Network/Manager/Addresses/Run.antt =====
-- Runs of new users and of allocations.
use docker_sim.Prelude.{
  ℕ, suc, ◌+◌, ◌≤◌, ◌<◌, ◌≡◌, inl, inr, refl, sym, ap, ◌∙◌, subst, none, some, List, [], ◌∷◌, ◌++◌,
  ℤ, negsuc, ◌==ℤ◌, length, All, All-append, Result, ok, ◌>>=◌, if-true, if-false, Bool-cases,
  arith,
}
use docker_sim.Network.VirtualIps.{VirtualIps, Address}
use docker_sim.Network.VirtualIps.Order.{Octets, rank}
use docker_sim.Network.Manager.{
  VirtualIpCell, IpsUserSet, NetworkManager, create_new_user, set_ip_basis, new_manager,
}
use docker_sim.Network.Manager.Addresses.{
  allocate_virtual_ip, find_vip, cells_of, search_node_ip, get_vm_id,
}
use docker_sim.Network.Manager.Addresses.Consecutive.{Numbered, last_rank, cell_at}
use docker_sim.Network.Manager.Addresses.Growth.{
  Found, Kept, Grown, Given, Kept-suc, allocate_loop-Allocated,
}

-- A user is created; a machine of a user, on a node, gets an address.
pub data Event : Type 0 where
  create : ℤ → Event
  allocate : Address → ℤ → ℤ → Event

-- The manager, and the addresses given so far, with their users, nodes and machines.
pub record State : Type 0 where
  pub manager : NetworkManager
  pub given : List (ℤ × VirtualIpCell)

unfoldable noted : Address → ℤ → ℤ → Address → List (ℤ × VirtualIpCell)
noted ip_node user_id vm_id none = []
noted ip_node user_id vm_id (some a) = (user_id, cell_at a ip_node vm_id) ∷ []

unfoldable pub handle : Event → State → Result State
unfolding noted
handle (create new_user_id) s = ok (record s { manager = create_new_user new_user_id s.manager })
handle (allocate ip_node user_id vm_id) s = do
  r ← allocate_virtual_ip ip_node user_id vm_id s.manager
  ok (record { manager = r.1; given = s.given ++ noted ip_node user_id vm_id r.0 })

unfoldable pub run : List Event → State → Result State
run [] s = ok s
run (e ∷ es) s = handle e s >>= run es

abbrev pub start : VirtualIps → State
start basis = record { manager = set_ip_basis (some basis) new_manager; given = [] }

record Inv (basis : VirtualIps) (n : ℕ) (s : State) : Type 0 where
  basis_is : s.manager.ip_basis ≡ some basis
  kept : All (Kept basis n) s.manager.ips_cloud
  found : All (Found s.manager.ips_cloud) s.given

Found-Grown :
    (us vs : List IpsUserSet) (given : List (ℤ × VirtualIpCell))
    → Grown us vs
    → All (Found us) given
    → All (Found vs) given
Found-Grown us vs [] g f = tt
Found-Grown us vs ((user, c) ∷ given) g f =
    (g user (some c.virtual_ip) c f.0, Found-Grown us vs given g f.1)

Found-noted :
    (ip_node r : Address) (user_id vm_id : ℤ) (us vs : List IpsUserSet)
    → Given ip_node user_id vm_id us r vs
    → All (Found vs) (noted ip_node user_id vm_id r)
unfolding noted
Found-noted ip_node r user_id vm_id us vs (inl (n, e)) =
    subst (λ r. All (Found vs) (noted ip_node user_id vm_id r)) (sym n) tt
Found-noted ip_node r user_id vm_id us vs (inr (a, e, f)) =
    subst (λ r. All (Found vs) (noted ip_node user_id vm_id r)) (sym e) (f, tt)

cells_of-append :
    (us : List IpsUserSet) (u : IpsUserSet) → u.virtual_ip_cell ≡ [] → Grown us (us ++ u ∷ [])
unfolding cells_of find_vip
cells_of-append [] u h user b c f = ground (arith, f)
cells_of-append (v ∷ us) u h user b c f = elim (Bool-cases (v.user_id ==ℤ user)) [
  | inl k ↦ ap (find_vip b) (if-true _ _ k) ∙ sym (ap (find_vip b) (if-true _ _ k)) ∙ f
  | inr k ↦
      ap (find_vip b) (if-false _ _ k)
      ∙ cells_of-append us u h user b c (sym (ap (find_vip b) (if-false _ _ k)) ∙ f)
]

handle-Inv :
    (basis : VirtualIps) (n : ℕ) (e : Event) (s : State)
    → Octets basis
    → rank basis + n < last_rank
    → Inv basis n s
    → (t : State) × (handle e s ≡ ok t) × Inv basis (suc n) t
unfolding handle create_new_user allocate_virtual_ip
handle-Inv basis n (create new_user_id) s o room i =
    let u : IpsUserSet = record {
      user_id = new_user_id;
      holes_ip = [];
      virtual_ip_cell = [];
      last_ip = s.manager.ip_basis;
    } in
    (
      record s { manager = create_new_user new_user_id s.manager },
      refl,
      record {
        basis_is = i.basis_is;
        kept =
            All-append (Kept basis (suc n)) s.manager.ips_cloud (u ∷ [])
              (Kept-suc basis n s.manager.ips_cloud i.kept)
              (
                (
                  record {
                    no_holes = refl;
                    last = basis;
                    is_last = i.basis_is;
                    octets = o;
                    counted = omega arith;
                    numbered = tt;
                  },
                  omega arith,
                ),
                tt,
              );
        found =
            Found-Grown s.manager.ips_cloud (s.manager.ips_cloud ++ u ∷ []) s.given
              (cells_of-append s.manager.ips_cloud u refl) i.found;
      },
    )
handle-Inv basis n (allocate ip_node user_id vm_id) s o room i =
    let r = allocate_loop-Allocated basis n room ip_node user_id vm_id s.manager.ips_cloud i.kept in
    (
      record {
        manager = record s.manager { ips_cloud = r.left };
        given = s.given ++ noted ip_node user_id vm_id r.address;
      },
      simp (i.basis_is, r.returns),
      record {
        basis_is = i.basis_is;
        kept = r.kept;
        found =
            All-append (Found r.left) s.given (noted ip_node user_id vm_id r.address)
              (Found-Grown s.manager.ips_cloud r.left s.given r.grown i.found)
              (Found-noted ip_node r.address user_id vm_id s.manager.ips_cloud r.left r.given);
      },
    )

run-Inv :
    (basis : VirtualIps) (n : ℕ) (es : List Event) (s : State)
    → Octets basis
    → rank basis + (n + length es) ≤ last_rank
    → Inv basis n s
    → (t : State) × (run es s ≡ ok t) × Inv basis (n + length es) t
unfolding run
run-Inv basis n [] s o room i = (s, refl, subst (λ k. Inv basis k s) (omega arith) i)
run-Inv basis n (e ∷ es) s o room i =
    let (t, h, j) = handle-Inv basis n e s o (omega (arith, room)) i in
    let (v, k, l) = run-Inv basis (suc n) es t o (omega (arith, room)) j in
    (v, ap (λ r. r >>= run es) h ∙ k, subst (λ k. Inv basis k v) (omega arith) l)

-- The searches answer with what was given.
abbrev pub Answered : NetworkManager → ℤ × VirtualIpCell → Type 0
Answered m (user_id, c) =
    (search_node_ip (some c.virtual_ip) user_id m ≡ c.ip_node)
    × (get_vm_id (some c.virtual_ip) user_id m ≡ c.vm_id)

Found-Answered :
    (m : NetworkManager) (given : List (ℤ × VirtualIpCell))
    → All (Found m.ips_cloud) given
    → All (Answered m) given
unfolding search_node_ip get_vm_id
Found-Answered m [] f = tt
Found-Answered m ((user, c) ∷ given) f = (
  (
    ap (λ o. elim o [ some c ↦ c.ip_node | none ↦ none ]) f.0,
    ap (λ o. elim o [ some c ↦ c.vm_id | none ↦ negsuc 0 ]) f.0,
  ),
  Found-Answered m given f.1,
)

abbrev pub Addressed : VirtualIps → IpsUserSet → Type 0
Addressed basis u = Numbered (rank basis) u.virtual_ip_cell

Kept-Addressed :
    (basis : VirtualIps) (n : ℕ) (us : List IpsUserSet)
    → All (Kept basis n) us
    → All (Addressed basis) us
Kept-Addressed basis n [] k = tt
Kept-Addressed basis n (u ∷ us) k = (k.0.0.numbered, Kept-Addressed basis n us k.1)

-- New users and allocations, in any order, from a manager with no users and a basis whose numbers
-- are at most 256, all succeed while the ranks suffice. Then the searches for every address that
-- was given find its node and its machine, and the addresses of each user are the ones behind the
-- basis, one by one.
pub run-Answered :
    (basis : VirtualIps) (es : List Event)
    → Octets basis
    → rank basis + length es ≤ last_rank
    → (t : State) × (run es (start basis) ≡ ok t)
      × All (Answered t.manager) t.given
      × All (Addressed basis) t.manager.ips_cloud
unfolding set_ip_basis new_manager
run-Answered basis es o room =
    let (t, h, i) =
      run-Inv basis 0 es (start basis) o (omega (arith, room))
        (record { basis_is = refl; kept = tt; found = tt }) in
    (
      t,
      h,
      Found-Answered t.manager t.given i.found,
      Kept-Addressed basis (0 + length es) t.manager.ips_cloud i.kept,
    )
