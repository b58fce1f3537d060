-- ===== src/Network/Local/Connect.antt =====
-- A machine listens, and another node connects to it.
use docker_sim.Prelude.{
  ℕ, Option, ◌==◌, ==_refl, ◌≡◌, ap, ◌∙◌, ◌&&◌, true, none, some, ℤ, pos, ◌==ℤ◌, ==ℤ_refl,
  get_elem?, Result, ok, err, ◌>>=◌, runtime_error, if◌then◌else◌, if-true, if-false, negsuc,
}
use docker_sim.Network.VirtualIps.{VirtualIps, Address}
use docker_sim.Network.PortTable.{PortTable, RealPorts, find_row, port_not_found}
use docker_sim.Network.PortTable.Rows.{IsDistinct}
use docker_sim.Network.Manager.{NetworkManager}
use docker_sim.Network.Manager.Addresses.{search_node_ip, get_vm_id, find_vip, cells_of}
use docker_sim.Network.Manager.Nodes.{register_port, get_real_port, get_node_from_ports_table}
use docker_sim.Network.Manager.Nodes.Register.{register_port-get_real_port}
use docker_sim.Network.Pat.{Pat, get_new_port}
use docker_sim.Network.Pat.Operations.{NetMessage}
use docker_sim.Network.Pat.Operations.Listen.{pat_create_listen-cell}
use docker_sim.Network.Local.{
  Local, Net, listen, manage_listen, manage_create_connection, connect_to, readdressed, is_empty,
}

-- A message of the same user that asks for the virtual port of another one, at an address.
abbrev pub asking : NetMessage → VirtualIps → NetMessage → NetMessage
asking sm address caller = record caller {
  uid = sm.uid;
  destination_ip = some address;
  destination_port = sm.local_port;
}

abbrev pub at_node : Local → NetworkManager → Net
at_node l m = record { local = l; net_manager = m }

-- The searches for an address read the sets of the users only.
search_node_ip-users :
    (a : Address) (u : ℤ) (m m' : NetworkManager)
    → m'.ips_cloud ≡ m.ips_cloud
    → search_node_ip a u m' ≡ search_node_ip a u m
unfolding search_node_ip
search_node_ip-users a u m m' e =
    ap (λ us. elim (find_vip a (cells_of u us)) [ some c ↦ c.ip_node | none ↦ none ]) e

get_vm_id-users :
    (a : Address) (u : ℤ) (m m' : NetworkManager)
    → m'.ips_cloud ≡ m.ips_cloud
    → get_vm_id a u m' ≡ get_vm_id a u m
unfolding get_vm_id
get_vm_id-users a u m m' e =
    ap (λ us. elim (find_vip a (cells_of u us)) [ some c ↦ c.vm_id | none ↦ negsuc 0 ]) e

-- A machine listens on a virtual port, for which its node has no row, while a port is left there.
-- It gets that port, and when any node then asks for the virtual port at an address of the machine,
-- for the same user, it is told to connect, to the node of the machine and that port. The node is
-- found in the network manager, where its rows have distinct virtual ports, and the address there
-- is one of the machine.
pub manage_listen-manage_create_connection :
    (sm caller : NetMessage) (n : Net) (other : Local) (address ip : VirtualIps) (port i : ℕ)
    (t : Pat) (table : PortTable)
    → get_new_port n.local.pat ≡ ok (port, t)
    → n.local.ip_local_node ≡ some ip
    → get_node_from_ports_table n.local.ip_local_node n.net_manager.ports_per_node ≡ ok i
    → get_elem? n.net_manager.ports_per_node i ≡ some table
    → IsDistinct table
    → find_row sm.local_port sm.pid sm.uid table.virtual_ports ≡ none
    → search_node_ip (some address) sm.uid n.net_manager ≡ n.local.ip_local_node
    → get_vm_id (some address) sm.uid n.net_manager ≡ sm.pid
    → (n' : Net) × (manage_listen sm n
        ≡ ok (record sm { local_port = pos port; virtual_local_port = sm.local_port }, n'))
      × (manage_create_connection (asking sm address caller) (at_node other n'.net_manager)
          ≡ ok (
            pos 0,
            readdressed
                (record (asking sm address caller) { virtual_user = sm.uid })
                (some address)
                n.local.ip_local_node
                other.ip_local_node
                (pos port),
          ))
unfolding manage_listen manage_create_connection connect_to is_empty ◌==ℤ◌
manage_listen-manage_create_connection sm caller n other address ip port i t table g named found row
      distinct new at_ip at_vm =
    let node = n.local.ip_local_node in
    let (s', listens, _) =
      pat_create_listen-cell sm.uid sm.pid sm.local_port n.local.pat t port g in
    let (m', registers, finds, users) =
      register_port-get_real_port sm.uid (pos port) sm.local_port sm.pid listen sm.local_port sm.uid
        sm.pid node node n.net_manager i table found row distinct in
    let n' : Net = record { local = record n.local { pat = s' }; net_manager = m' } in
    let message = record sm { local_port = pos port; virtual_local_port = sm.local_port } in
    let all : (sm.local_port ==ℤ sm.local_port) && ((sm.pid ==ℤ sm.pid) && (sm.uid ==ℤ sm.uid))
        ≡ true =
      simp (==ℤ_refl) in
    let from_row : Option RealPorts → ℤ = λ o. elim o [
      | some r ↦ r.r_port
      | none ↦
          if (sm.local_port ==ℤ sm.local_port) && ((sm.pid ==ℤ sm.pid) && (sm.uid ==ℤ sm.uid))
          then pos port
          else port_not_found
    ] in
    let in_table : ℕ → Result ℤ = λ j.
      if j == i
      then ok (from_row (find_row sm.local_port sm.pid sm.uid table.virtual_ports))
      else get_real_port node sm.local_port sm.uid sm.pid n.net_manager in
    let real : get_real_port node sm.local_port sm.uid sm.pid m' ≡ ok (pos port) =
      finds
      ∙ ap (λ r. r >>= in_table) found
      ∙ if-true _ _ (==_refl i)
      ∙ ap (λ o. ok (from_row o)) new
      ∙ ap ok (if-true _ _ all) in
    let caller' = asking sm address caller in
    let there : Net = at_node other m' in
    let decide : ℤ → Result (ℤ × NetMessage) = λ real_port. ok (
      if real_port ==ℤ port_not_found
      then (negsuc 0, record caller' { virtual_user = sm.uid })
      else (
        pos 0,
        readdressed (record caller' { virtual_user = sm.uid }) (some address) node
            other.ip_local_node real_port,
      )) in
    (
      n',
      ap
            (λ r. r >>= (λ r.
              register_port sm.uid node sm.pid r.0 sm.local_port listen n.net_manager >>= (λ m. ok (
                record sm { local_port = r.0; virtual_local_port = sm.local_port },
                record { local = record n.local { pat = r.1 }; net_manager = m },
              ))))
            listens
          ∙ ap
              (λ r. r >>= (λ m.
                ok (message, record { local = record n.local { pat = s' }; net_manager = m })))
              registers,
      ap (λ d. if is_empty d then err runtime_error else connect_to caller' d there)
            (search_node_ip-users (some address) sm.uid n.net_manager m' users ∙ at_ip)
          ∙ if-false _ _ (ap is_empty named)
          ∙ ap (λ v. get_real_port node sm.local_port sm.uid v m' >>= decide)
              (get_vm_id-users (some address) sm.uid n.net_manager m' users ∙ at_vm)
          ∙ ap (λ r. r >>= decide) real,
    )
