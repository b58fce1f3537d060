-- ===== src/Network/Pat/Operations.antt =====
-- The operations of PortAddressTranslation: the cells of its users, and the messages whose ports it
-- translates. An operation that changes a message gives the message back.
pub mod Found
pub mod Apart
pub mod Listen
pub mod Close
pub mod Tests
use Prim.Native.String.{String}
use docker_sim.Prelude.{
  ℕ, Bool, true, false, ◌&&◌, ◌||◌, not, Option, none, some, List, [], ◌∷◌, ◌++◌, ℤ, pos, negsuc,
  ◌==ℤ◌, ◌==◌, same_name, Result, ok, err, ◌>>=◌, bad_iterator, not_initialised, runtime_error,
  if◌then◌else◌,
}
use docker_sim.Network.VirtualIps.{Address, ◌==ip◌}
use docker_sim.Network.PortCell.{
  PortCell, new_port_cell, set_vm_id, set_vm_ip, set_port, set_connection_id, get_virtual_port,
  get_real_port, get_connection_id, delete_port_by_connection_id, get_all_r_ports,
  get_all_connection_ids,
}
use docker_sim.Network.UserCell.{
  UserCell, new_user_cell, set_user_id, search_vm, new_vm, erase_vm, get_vm_size, replace_vm,
}
use docker_sim.Network.Pat.{Pat, mark, get_new_port, free_port}

-- The fields of icancloud_App_NET_Message that the managers of the network read or set.
pub record NetMessage : Type 0 where
  pub name : String
  pub operation : ℕ
  pub is_response : Bool
  pub uid : ℤ
  pub pid : ℤ
  pub connection_id : ℤ
  pub local_port : ℤ
  pub destination_port : ℤ
  pub virtual_local_port : ℤ
  pub virtual_destination_port : ℤ
  pub destination_ip : Address
  pub local_ip : Address
  pub virtual_destination_ip : Address
  pub virtual_local_ip : Address
  pub virtual_user : ℤ
  -- The connection of the command that closes a socket.
  pub socket_closed : Option ℤ

unfoldable pub find_user : ℤ → List UserCell → Option UserCell
find_user u_id [] = none
find_user u_id (u ∷ us) = if u.user ==ℤ u_id then some u else find_user u_id us

unfoldable pub search_user : ℤ → Pat → Option UserCell
search_user u_id s = find_user u_id s.user_vm_ports

unfoldable pub erase_user : ℤ → List UserCell → List UserCell
erase_user u_id [] = []
erase_user u_id (u ∷ us) = if u.user ==ℤ u_id then us else u ∷ erase_user u_id us

unfoldable pub delete_user : ℤ → Pat → Pat
delete_user u_id s = record s { user_vm_ports = erase_user u_id s.user_vm_ports }

unfoldable pub new_user : ℤ → Pat → Pat
new_user u_id s = record s {
  user_vm_ports = s.user_vm_ports ++ set_user_id u_id new_user_cell ∷ [];
}

-- The cell behind the pointer that the search gives.
unfoldable pub replace_user : ℤ → UserCell → List UserCell → List UserCell
replace_user u_id new [] = []
replace_user u_id new (u ∷ us) = if u.user ==ℤ u_id then new ∷ us else u ∷ replace_user u_id new us

unfoldable pub put_user : ℤ → UserCell → Pat → Pat
put_user u_id u s = record s { user_vm_ports = replace_user u_id u s.user_vm_ports }

-- "Search the user into the structure", and create it if it does not exist.
unfoldable pub user_or_new : ℤ → Pat → Pat × UserCell
user_or_new u_id s = elim (search_user u_id s) [
  | some u ↦ (s, u)
  | none ↦ (new_user u_id s, set_user_id u_id new_user_cell)
]

-- "Search the vm", and create it if it does not exist.
unfoldable pub vm_or_new : ℤ → UserCell → UserCell × PortCell
vm_or_new p_id u = elim (search_vm p_id u) [
  | some c ↦ (u, c)
  | none ↦ (new_vm p_id u, set_vm_id p_id new_port_cell)
]

-- Both searches, with an exception when there is none.
unfoldable pub existing : ℤ → ℤ → Pat → Result (UserCell × PortCell)
existing u_id p_id s = elim (search_user u_id s) [
  | none ↦ err runtime_error
  | some u ↦ elim (search_vm p_id u) [ none ↦ err runtime_error | some c ↦ ok (u, c) ]
]

-- A change through the pointers to the user and to the machine.
unfoldable pub put_cell : ℤ → ℤ → UserCell → PortCell → Pat → Pat
put_cell u_id p_id u c s = put_user u_id (record u { vm_ports = replace_vm p_id c u.vm_ports }) s

unfoldable pub pat_initialize : Address → Pat → Pat
pat_initialize node_ip s =
    let cleared : Pat = elim (search_user (pos 0) s) [
      | some u ↦ delete_user (pos 0) s
      | none ↦ s
    ] in
    record cleared {
      user_vm_ports =
          cleared.user_vm_ports
          ++ record (set_user_id (pos 0) new_user_cell) {
            vm_ports = set_vm_ip node_ip (set_vm_id (pos 0) new_port_cell) ∷ [];
          }
            ∷ [];
    }

unfoldable pub pat_create_vm : ℤ → ℤ → Address → Pat → Result Pat
pat_create_vm user_id vm_id vm_ip s =
    let (t, u) = user_or_new user_id s in
    elim (search_vm vm_id u) [
      | none ↦ ok (
          put_cell user_id vm_id (new_vm vm_id u) (set_vm_ip vm_ip (set_vm_id vm_id new_port_cell))
            t)
      | some c ↦ if not (c.vm_ip ==ip vm_ip) then err runtime_error else ok t
    ]

unfoldable pub pat_create_listen : ℤ → ℤ → ℤ → Pat → Result (ℤ × Pat)
pat_create_listen u_id p_id virtual_port s =
    let (t, u) = user_or_new u_id s in
    let (v, c) = vm_or_new p_id u in
    get_new_port t
    >>= (λ r. ok (pos r.0, put_cell u_id p_id v (set_port (pos r.0) virtual_port c) r.1))

unfoldable pub pat_arrives_incoming_connection : NetMessage → Pat → Result (NetMessage × Pat)
pat_arrives_incoming_connection sm s = do
  at ← existing sm.uid sm.pid s
  let c = set_connection_id sm.local_port sm.connection_id at.1
  ok (
    record sm { local_port = get_real_port sm.local_port c; virtual_local_port = sm.local_port },
    put_cell sm.uid sm.pid at.0 c s,
  )

-- `freePorts[port] = STABLISHED` for an `int`.
unfoldable pub mark_stablished : ℤ → Pat → Result Pat
mark_stablished (negsuc n) s = err bad_iterator
mark_stablished (pos port) s = mark port true s

unfoldable pub pat_connection_stablished : NetMessage → Pat → Result (ℤ × Pat)
pat_connection_stablished sm s =
    let (t, u) = user_or_new sm.uid s in
    let (v, c) = vm_or_new sm.pid u in
    mark_stablished sm.local_port t >>= (λ marked. ok (
      sm.local_port,
      put_cell sm.uid sm.pid v
          (set_connection_id sm.local_port sm.connection_id
            (set_port sm.local_port sm.local_port c))
          marked,
    ))

unfoldable pub pat_receive_message : NetMessage → Pat → Result NetMessage
pat_receive_message sm s = do
  at ← existing sm.uid sm.pid s
  ok (record sm {
    destination_port = get_virtual_port sm.destination_port at.1;
    virtual_destination_port = sm.destination_port;
  })

unfoldable pub pat_send_message : NetMessage → Pat → Result NetMessage
pat_send_message sm s = do
  at ← existing sm.uid sm.pid s
  ok (record sm {
    local_port = get_real_port sm.local_port at.1;
    virtual_local_port = sm.local_port;
  })

-- `portHoles.push_back` of an `int`, behind `freePort` of the same one.
unfoldable pub free_and_push : ℤ → Pat → Result Pat
free_and_push (negsuc n) s = err bad_iterator
free_and_push (pos port) s = do
  t ← free_port (pos port) s
  ok (record t { port_holes = t.port_holes ++ port ∷ [] })

-- The end of `pat_closeConnection`, with the real port and the cell from which the port is deleted.
unfoldable pub close_port :
    NetMessage → Pat → UserCell → PortCell → ℤ → Result (ℤ × (NetMessage × Pat))
close_port sm s u c real_port = free_and_push real_port (put_cell sm.uid sm.pid u c s) >>= (λ t.
    ok (real_port, (record sm { local_port = real_port; virtual_local_port = sm.local_port }, t)))

-- The port is deleted before its real port is read.
unfoldable pub close_connection :
    NetMessage → Pat → UserCell → PortCell → ℤ → Result (ℤ × (NetMessage × Pat))
close_connection sm s u c conn_id =
    let left = delete_port_by_connection_id conn_id c in
    if not (conn_id ==ℤ sm.connection_id)
    then err runtime_error
    else close_port sm s u left (get_real_port sm.local_port left)

unfoldable pub pat_close_connection : NetMessage → Pat → Result (ℤ × (NetMessage × Pat))
pat_close_connection sm s = existing sm.uid sm.pid s >>= (λ at.
    elim (get_connection_id sm.local_port at.1) [
      | none ↦ err not_initialised
      | some conn_id ↦ close_connection sm s at.0 at.1 conn_id
    ])

-- The loop over the real ports of a machine.
unfoldable pub free_all : List ℤ → Pat → Result Pat
free_all [] s = ok s
free_all (port ∷ ports) s = free_port port s >>= (λ t. free_all ports t)

-- Only the ports with a connection are freed.
unfoldable pub pat_close_vm : ℤ → ℤ → Pat → Result (List ℤ × Pat)
pat_close_vm u_id p_id s = elim (search_user u_id s) [
  | none ↦ err runtime_error
  | some u ↦ elim (search_vm p_id u) [
    | none ↦ ok ([], s)
    | some c ↦ free_all (get_all_r_ports c) s >>= (λ t.
        let left = erase_vm p_id u in
        let erased = put_user u_id left t in
        ok (
          elim (get_all_r_ports c) [ [] ↦ [] | port ∷ ports ↦ get_all_connection_ids c ],
          if get_vm_size left == 0 then delete_user u_id erased else erased,
        ))
  ]
]

abbrev pub any_of : ℕ → List ℕ → Bool
any_of n [] = false
any_of n (m ∷ ms) = (n == m) || any_of n ms

abbrev pub sm_close_connection : ℕ
sm_close_connection = 205

-- Files, SM_SEND_DATA_NET, migration and MPI, in the order of the test.
abbrev pub data_operations : List ℕ
data_operations =
    10 ∷ 11 ∷ 12 ∷ 13 ∷ 14 ∷ 15 ∷ 202 ∷ 417 ∷ 418 ∷ 416 ∷ 100 ∷ 200 ∷ 301 ∷ 302 ∷ 400 ∷ 500 ∷ 600
    ∷ []

-- A listening request, and any other operation, leaves the message as it is.
unfoldable pub port_forwarding : NetMessage → Pat → Result (NetMessage × Pat)
port_forwarding sm s =
    let stablished = pat_connection_stablished sm s >>= (λ r. ok (sm, r.1)) in
    let sent = pat_send_message sm s >>= (λ m. ok (m, s)) in
    let closed = pat_close_connection sm s >>= (λ r. ok r.1) in
    let received = pat_receive_message sm s >>= (λ m. ok (m, s)) in
    if same_name sm.name "ESTABLISHED"
    then stablished
    else if same_name sm.name "PEER_CLOSED" || same_name sm.name "CLOSED"
    then ok (sm, s)
    else if sm.is_response
    then received
    else if (sm.operation == 201) || (sm.operation == 412)
    then ok (sm, s)
    else if any_of sm.operation data_operations
    then sent
    else if sm.operation == sm_close_connection
    then closed
    else ok (sm, s)
