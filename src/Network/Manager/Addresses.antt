-- ===== src/Network/Manager/Addresses.antt =====
-- The operations of NetworkManager on the virtual addresses of the users.
pub mod Consecutive
pub mod Growth
pub mod Run
pub mod Holes
pub mod Tests
use docker_sim.Prelude.{
  ℕ, zero, suc, ◌+◌, Bool, true, false, ◌&&◌, Option, none, some, List, [], ◌∷◌, ◌++◌, ℤ, negsuc,
  ◌==ℤ◌, ltb, Result, ok, err, ◌>>=◌, if◌then◌else◌,
}
use docker_sim.Network.VirtualIps.{
  VirtualIps, Address, ◌==ip◌, string_to_virtual_ip, set_virtual_ip, get_virtual_ip, inc_virtual_ip,
  generate_hole,
}
use docker_sim.Network.Manager.{VirtualIpCell, IpsUserSet, NetworkManager, new_virtual_ip_cell}

-- The first user set of a user is erased.
unfoldable pub erase_user : ℤ → List IpsUserSet → List IpsUserSet
erase_user user_id [] = []
erase_user user_id (u ∷ us) = if u.user_id ==ℤ user_id then us else u ∷ erase_user user_id us

unfoldable pub delete_user : ℤ → NetworkManager → NetworkManager
delete_user user_id m = record m { ips_cloud = erase_user user_id m.ips_cloud }

-- The address behind one that is set.
unfoldable pub after : Address → IpsUserSet → Result (Address × IpsUserSet)
after from user = do
  vip ← set_virtual_ip from
  ok ((inc_virtual_ip vip).0, record user { last_ip = (inc_virtual_ip vip).0 })

-- `newVIP`: a hole, or the address behind the basis for the first machine, or the one behind the
-- last address.
unfoldable pub new_vip : Address → IpsUserSet → Result (Address × IpsUserSet)
new_vip ip_basis user = elim user.holes_ip [
  | hole ∷ holes ↦ ok (hole, record user { holes_ip = holes })
  | [] ↦ if ip_basis ==ip user.last_ip then after ip_basis user else after user.last_ip user
]

unfoldable pub allocate_in : Address → Address → ℤ → IpsUserSet → Result (Address × IpsUserSet)
allocate_in ip_basis ip_node vm_id user = do
  new ← new_vip ip_basis user
  vip ← set_virtual_ip (new.0)
  ok (
    new.0,
    record new.1 {
      virtual_ip_cell =
          new.1.virtual_ip_cell
          ++ record new_virtual_ip_cell { virtual_ip = vip; ip_node = ip_node; vm_id = vm_id } ∷ [];
    },
  )

-- The loop of `allocateVirtualIP`, which stops at the first set of the user; without one the
-- address is the empty string.
unfoldable pub allocate_loop :
    Address → Address → ℤ → ℤ → List IpsUserSet → Result (Address × List IpsUserSet)
allocate_loop ip_basis ip_node user_id vm_id [] = ok (none, [])
allocate_loop ip_basis ip_node user_id vm_id (u ∷ us) =
    let here = allocate_in ip_basis ip_node vm_id u >>= (λ r. ok (r.0, r.1 ∷ us)) in
    let there = allocate_loop ip_basis ip_node user_id vm_id us >>= (λ r. ok (r.0, u ∷ r.1)) in
    if u.user_id ==ℤ user_id then here else there

unfoldable pub allocate_virtual_ip :
    Address → ℤ → ℤ → NetworkManager → Result (Address × NetworkManager)
allocate_virtual_ip ip_node user_id vm_id m = do
  r ← allocate_loop m.ip_basis ip_node user_id vm_id m.ips_cloud
  ok (r.0, record m { ips_cloud = r.1 })

-- A cell leaves a user set, and its hole is kept.
unfoldable pub leave : Address → VirtualIpCell → List VirtualIpCell → IpsUserSet → Result IpsUserSet
leave ip_basis cell rest user = do
  hole ← generate_hole ip_basis cell.virtual_ip
  ok (record user { virtual_ip_cell = rest; holes_ip = user.holes_ip ++ hole ∷ [] })

-- The inner loop of `deleteVirtualIP_by_VIP` from the position `i` on, whose guard compares it with
-- the beginning of the cells, position 0; the cells before `i`, and those from it on.
unfoldable pub vip_loop :
    Address
    → Address
    → ℕ
    → List VirtualIpCell
    → List VirtualIpCell
    → IpsUserSet
    → Result (Bool × IpsUserSet)
vip_loop ip_basis virtual_ip i before [] user = ok (false, user)
vip_loop ip_basis virtual_ip i before (c ∷ cs) user =
    let found = leave ip_basis c (before ++ cs) user >>= (λ u. ok (true, u)) in
    let next = vip_loop ip_basis virtual_ip (suc i) (before ++ c ∷ []) cs user in
    if ltb i 0
    then (if virtual_ip ==ip get_virtual_ip c.virtual_ip then found else next)
    else ok (false, user)

-- The inner loop of `deleteVirtualIP_by_VMID`.
unfoldable pub vm_id_loop :
    Address → ℤ → List VirtualIpCell → List VirtualIpCell → IpsUserSet → Result (Bool × IpsUserSet)
vm_id_loop ip_basis vm_id before [] user = ok (false, user)
vm_id_loop ip_basis vm_id before (c ∷ cs) user =
    let found = leave ip_basis c (before ++ cs) user >>= (λ u. ok (true, u)) in
    let next = vm_id_loop ip_basis vm_id (before ++ c ∷ []) cs user in
    if c.vm_id ==ℤ vm_id then found else next

-- The outer loop of both: over all sets of the user, until one has had the cell.
unfoldable pub delete_loop :
    (IpsUserSet → Result (Bool × IpsUserSet)) → ℤ → List IpsUserSet → Result (List IpsUserSet)
delete_loop inner user_id [] = ok []
delete_loop inner user_id (u ∷ us) =
    let later = delete_loop inner user_id us in
    let here = inner u >>= (λ r. if r.0 then ok (r.1 ∷ us) else later >>= (λ vs. ok (r.1 ∷ vs))) in
    let there = later >>= (λ vs. ok (u ∷ vs)) in if u.user_id ==ℤ user_id then here else there

unfoldable pub delete_virtual_ip_by_vip : Address → ℤ → NetworkManager → Result NetworkManager
delete_virtual_ip_by_vip virtual_ip user_id m = do
  us ←
      delete_loop (λ u. vip_loop m.ip_basis virtual_ip 0 [] u.virtual_ip_cell u) user_id m.ips_cloud
  ok (record m { ips_cloud = us })

unfoldable pub delete_virtual_ip_by_vmid : ℤ → ℤ → NetworkManager → Result NetworkManager
delete_virtual_ip_by_vmid vm_id user_id m = do
  us ← delete_loop (λ u. vm_id_loop m.ip_basis vm_id [] u.virtual_ip_cell u) user_id m.ips_cloud
  ok (record m { ips_cloud = us })

-- The searches look at the first set of a user only.
unfoldable pub cells_of : ℤ → List IpsUserSet → List VirtualIpCell
cells_of user_id [] = []
cells_of user_id (u ∷ us) = if u.user_id ==ℤ user_id then u.virtual_ip_cell else cells_of user_id us

unfoldable pub find_vip : Address → List VirtualIpCell → Option VirtualIpCell
find_vip virtual_ip [] = none
find_vip virtual_ip (c ∷ cs) =
    if virtual_ip ==ip get_virtual_ip c.virtual_ip then some c else find_vip virtual_ip cs

unfoldable pub find_vm : ℤ → List VirtualIpCell → Option VirtualIpCell
find_vm vm_id [] = none
find_vm vm_id (c ∷ cs) = if c.vm_id ==ℤ vm_id then some c else find_vm vm_id cs

unfoldable pub search_node_ip : Address → ℤ → NetworkManager → Address
search_node_ip virtual_ip user_id m = elim (find_vip virtual_ip (cells_of user_id m.ips_cloud)) [
  | some c ↦ c.ip_node
  | none ↦ none
]

unfoldable pub search_vm_ip : ℤ → ℤ → NetworkManager → Address
search_vm_ip user_id vm_id m = elim (find_vm vm_id (cells_of user_id m.ips_cloud)) [
  | some c ↦ get_virtual_ip c.virtual_ip
  | none ↦ none
]

unfoldable pub get_vm_id : Address → ℤ → NetworkManager → ℤ
get_vm_id virtual_ip u_id m = elim (find_vip virtual_ip (cells_of u_id m.ips_cloud)) [
  | some c ↦ c.vm_id
  | none ↦ negsuc 0
]

-- The inner loop of `changeNodeIP`: the address it compared last, and the cells.
unfoldable pub change_cells :
    Address → Address → Address → List VirtualIpCell → Address × List VirtualIpCell
change_cells virtual_ip node_ip v_ip [] = (v_ip, [])
change_cells virtual_ip node_ip v_ip (c ∷ cs) =
    let rest = change_cells virtual_ip node_ip (get_virtual_ip c.virtual_ip) cs in
    if virtual_ip ==ip get_virtual_ip c.virtual_ip
    then (get_virtual_ip c.virtual_ip, record c { ip_node = node_ip } ∷ cs)
    else (rest.0, c ∷ rest.1)

unfoldable pub change_loop : Address → ℤ → Address → List IpsUserSet → Address × List IpsUserSet
change_loop virtual_ip user_id node_ip [] = (none, [])
change_loop virtual_ip user_id node_ip (u ∷ us) =
    let cells = change_cells virtual_ip node_ip none u.virtual_ip_cell in
    let rest = change_loop virtual_ip user_id node_ip us in
    if u.user_id ==ℤ user_id
    then (cells.0, record u { virtual_ip_cell = cells.1 } ∷ us)
    else (rest.0, u ∷ rest.1)

unfoldable pub change_node_ip : Address → ℤ → Address → NetworkManager → Address × NetworkManager
change_node_ip virtual_ip user_id node_ip m =
    let r = change_loop virtual_ip user_id node_ip m.ips_cloud in
    (r.0, record m { ips_cloud = r.1 })

unfoldable pub check_cells : Address → Address → List VirtualIpCell → Bool
check_cells virtual_ip node_ip [] = false
check_cells virtual_ip node_ip (c ∷ cs) =
    let rest = check_cells virtual_ip node_ip cs in
    if (virtual_ip ==ip get_virtual_ip c.virtual_ip) && (node_ip ==ip c.ip_node) then true else rest

-- The outer loop goes over all sets of the user.
unfoldable pub check_loop : Address → Address → ℤ → List IpsUserSet → Bool
check_loop virtual_ip node_ip user_id [] = false
check_loop virtual_ip node_ip user_id (u ∷ us) =
    let rest = check_loop virtual_ip node_ip user_id us in
    let here = check_cells virtual_ip node_ip u.virtual_ip_cell in
    if u.user_id ==ℤ user_id then (if here then true else rest) else rest

unfoldable pub check_vm_ip : Address → Address → ℤ → NetworkManager → Bool
check_vm_ip virtual_ip node_ip user_id m = check_loop virtual_ip node_ip user_id m.ips_cloud
