-- ===== src/Network/Local.antt =====
-- LocalNetManager
-- (Virtualization/Hypervisor/HypervisorManagers/H_NetworkManager/LocalNetManager): the network
-- manager of a node, between the port address translation of the node and the network manager of
-- the data centre, which all nodes share. A message that is changed is given back.
pub mod Connect
pub mod Tests
use docker_sim.Prelude.{
  ℕ, Bool, true, false, ◌&&◌, not, Option, none, some, List, [], ◌∷◌, map, ℤ, pos, negsuc, ◌==ℤ◌,
  Result, ok, err, ◌>>=◌, runtime_error, if◌then◌else◌,
}
use docker_sim.Network.VirtualIps.{Address}
use docker_sim.Network.PortTable.{port_not_found}
use docker_sim.Network.Manager.{NetworkManager}
use docker_sim.Network.Manager.Addresses.{search_node_ip, get_vm_id, delete_virtual_ip_by_vmid}
use docker_sim.Network.Manager.Nodes.{
  register_port, get_real_port, free_all_ports_of_vm, free_port_of_vm,
}
use docker_sim.Network.Pat.{Pat, new_pat}
use docker_sim.Network.Pat.Operations.{
  NetMessage, pat_initialize, pat_create_vm, pat_create_listen, pat_connection_stablished,
  pat_close_connection, pat_close_vm, sm_close_connection,
}

pub record Local : Type 0 where
  pub ip_local_node : Address
  pub pat : Pat

-- A node, and the network manager it shares.
pub record Net : Type 0 where
  pub local : Local
  pub net_manager : NetworkManager

abbrev pub listen : ℤ
listen = pos 1

abbrev pub connect : ℤ
connect = pos 2

unfoldable pub new_local : Local
new_local = record { ip_local_node = none; pat = new_pat }

-- The network manager is found at run time.
unfoldable pub initialize_pat : Address → Local → Local
initialize_pat node_ip l = record { ip_local_node = node_ip; pat = pat_initialize node_ip l.pat }

unfoldable pub create_vm : NetMessage → Local → Result Local
create_vm sm l = do p ← pat_create_vm sm.uid sm.pid sm.local_ip l.pat; ok (record l { pat = p })

unfoldable pub manage_listen : NetMessage → Net → Result (NetMessage × Net)
manage_listen sm n = do
  r ← pat_create_listen sm.uid sm.pid sm.local_port n.local.pat
  m ← register_port sm.uid n.local.ip_local_node sm.pid r.0 sm.local_port listen n.net_manager
  ok (
    record sm { local_port = r.0; virtual_local_port = sm.local_port },
    record { local = record n.local { pat = r.1 }; net_manager = m },
  )

-- The decision, 0 to connect or -1 to wait, and the message.
unfoldable pub manage_create_storage_connection : NetMessage → Net → Result (ℤ × NetMessage)
manage_create_storage_connection sm n = do
  real_port ← get_real_port sm.destination_ip sm.destination_port sm.uid sm.pid n.net_manager
  let asked = record sm { virtual_user = sm.uid }
  ok (
      if real_port ==ℤ port_not_found then (negsuc 0, asked) else (
        pos 0,
        record asked {
          virtual_destination_port = sm.destination_port;
          destination_port = real_port;
          local_ip = n.local.ip_local_node;
          virtual_destination_ip = sm.destination_ip;
          virtual_local_ip = sm.local_ip;
        },
      ))

-- What both kinds of a connection and a message put in for the node and the real port.
unfoldable pub readdressed : NetMessage → Address → Address → Address → ℤ → NetMessage
readdressed sm virtual_destination_ip destination_ip ip_local_node real_port = record sm {
  virtual_destination_ip = virtual_destination_ip;
  virtual_local_ip = sm.local_ip;
  local_ip = ip_local_node;
  destination_ip = destination_ip;
  virtual_destination_port = sm.destination_port;
  destination_port = real_port;
}

unfoldable pub is_empty : Address → Bool
is_empty none = true
is_empty (some a) = false

-- The rest of `manage_createConnection`, from the node of the destination on.
unfoldable pub connect_to : NetMessage → Address → Net → Result (ℤ × NetMessage)
connect_to sm destination_ip n = do
  real_port ←
      get_real_port destination_ip sm.destination_port sm.uid
        (get_vm_id sm.destination_ip sm.uid n.net_manager) n.net_manager
  ok (
      if real_port ==ℤ port_not_found then (negsuc 0, record sm { virtual_user = sm.uid }) else (
        pos 0,
        readdressed (record sm { virtual_user = sm.uid }) sm.destination_ip destination_ip
            n.local.ip_local_node real_port,
      ))

unfoldable pub manage_create_connection : NetMessage → Net → Result (ℤ × NetMessage)
manage_create_connection sm n =
    let destination_ip = search_node_ip sm.destination_ip sm.uid n.net_manager in
    if is_empty destination_ip then err runtime_error else connect_to sm destination_ip n

-- The user and the machine of the port that is registered are exchanged in the source.
unfoldable pub connection_stablished : NetMessage → Net → Result (NetMessage × Net)
connection_stablished sm n = do
  let vm_id = sm.uid
  let u_id = sm.pid
  let turned = record sm {
    destination_ip = sm.virtual_destination_ip;
    virtual_destination_ip = sm.destination_ip;
    local_ip = sm.virtual_local_ip;
    virtual_local_ip = sm.local_ip;
  }
  r ← pat_connection_stablished turned n.local.pat
  m ← register_port u_id n.local.ip_local_node vm_id sm.local_port r.0 connect n.net_manager
  ok (
    record turned {
      local_port = r.0;
      virtual_local_port = sm.local_port;
      virtual_destination_port = sm.destination_port;
      destination_port = sm.virtual_destination_port;
    },
    record { local = record n.local { pat = r.1 }; net_manager = m },
  )

-- A new message, with the fields that are set.
unfoldable pub close_message : ℤ → ℤ → ℤ → NetMessage
close_message u_id p_id connection_id = record {
  name = "";
  operation = sm_close_connection;
  is_response = false;
  uid = u_id;
  pid = p_id;
  connection_id = connection_id;
  local_port = pos 0;
  destination_port = pos 0;
  virtual_local_port = pos 0;
  virtual_destination_port = pos 0;
  destination_ip = none;
  local_ip = none;
  virtual_destination_ip = none;
  virtual_local_ip = none;
  virtual_user = u_id;
  socket_closed = some connection_id;
}

unfoldable pub get_connections_ids : ℤ → ℤ → Local → Result (List ℤ × Local)
get_connections_ids u_id p_id l = do
  r ← pat_close_vm u_id p_id l.pat
  ok (r.0, record l { pat = r.1 })

unfoldable pub manage_close_connections : ℤ → ℤ → Net → Result (List NetMessage × Net)
manage_close_connections u_id p_id n = do
  deleted ← delete_virtual_ip_by_vmid p_id u_id n.net_manager
  freed ← free_all_ports_of_vm n.local.ip_local_node p_id u_id deleted
  r ← get_connections_ids u_id p_id n.local
  ok (map (close_message u_id p_id) r.0, record { local = r.1; net_manager = freed })

unfoldable pub manage_receive_message : NetMessage → NetMessage
manage_receive_message sm = record sm {
  destination_ip = sm.virtual_destination_ip;
  local_ip = sm.virtual_local_ip;
  virtual_destination_port = sm.destination_port;
  destination_port = sm.virtual_destination_port;
}

-- A message of MPI keeps its virtual user and has its virtual destination already.
unfoldable pub manage_send_message : Bool → NetMessage → Net → Result NetMessage
manage_send_message is_mpi sm n =
    let virtual_user : ℤ =
      if is_mpi && not (sm.virtual_user ==ℤ negsuc 0) then sm.virtual_user else sm.uid in
    let virtual_destination_ip = if is_mpi then sm.virtual_destination_ip else sm.destination_ip in
    let destination_ip = search_node_ip virtual_destination_ip sm.uid n.net_manager in
    get_real_port destination_ip sm.destination_port sm.uid sm.pid n.net_manager >>= (λ real_port.
      ok (
        readdressed (record sm { virtual_user = virtual_user }) virtual_destination_ip
          destination_ip n.local.ip_local_node real_port))

-- The user and the machine are exchanged in the call of the network manager, whose search for the
-- port is given fuel.
unfoldable pub manage_close_single_connection : ℕ → NetMessage → Net → Result (NetMessage × Net)
manage_close_single_connection fuel sm n = do
  r ← pat_close_connection sm n.local.pat
  m ← free_port_of_vm fuel n.local.ip_local_node sm.uid sm.pid ((r.1).0.local_port) n.net_manager
  ok (
    record (r.1).0 { socket_closed = some (r.1).0.connection_id },
    record { local = record n.local { pat = (r.1).1 }; net_manager = m },
  )
