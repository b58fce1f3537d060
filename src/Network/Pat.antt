-- ===== src/Network/Pat.antt =====
-- PortAddressTranslation
-- (Virtualization/Hypervisor/HypervisorManagers/H_NetworkManager/LocalNetManager/PAT): the real
-- ports of a node, which its machines hold behind virtual ports. This file has the ports.
pub mod Count
pub mod Clients
pub mod Take
pub mod Handout
pub mod Operations
use docker_sim.Prelude.{
  ℕ, zero, suc, ◌+◌, ◌-◌, Bool, true, false, ◌&&◌, List, [], ◌∷◌, ◌++◌, ℤ, pos, negsuc, ◌==◌, ltb,
  Result, ok, err, ◌>>=◌, bad_iterator, runtime_error, if◌then◌else◌,
}
use docker_sim.Network.UserCell.{UserCell}

abbrev pub registered_initial_port : ℕ
registered_initial_port = 1024

abbrev pub last_port : ℕ
last_port = 65535

-- `free_ports` has an entry for each port below `last_port`; despite its name an entry is true for
-- a port that is taken.
pub record Pat : Type 0 where
  pub free_ports : ℕ → Bool
  pub port_holes : List ℕ
  pub port_ptr : ℕ
  pub user_vm_ports : List UserCell

unfoldable pub new_pat : Pat
new_pat = record {
  free_ports = λ port. false;
  port_holes = [];
  port_ptr = registered_initial_port;
  user_vm_ports = [];
}

-- `freePorts[port] = b`.
unfoldable pub mark : ℕ → Bool → Pat → Result Pat
mark port b s =
    if ltb port last_port
    then ok (record s { free_ports = λ i. if i == port then b else s.free_ports i })
    else err bad_iterator

-- `while (freePorts[portPtr]) portPtr++`, with the entries of the array that are left.
unfoldable pub next_free : ℕ → ℕ → (ℕ → Bool) → Result ℕ
next_free zero port_ptr free_ports = err bad_iterator
next_free (suc left) port_ptr free_ports =
    let later = next_free left (port_ptr + 1) free_ports in
    if free_ports port_ptr then later else ok port_ptr

unfoldable pub get_new_port : Pat → Result (ℕ × Pat)
get_new_port s = elim s.port_holes [
  | port ∷ holes ↦ mark port true (record s { port_holes = holes }) >>= (λ t. ok (port, t))
  | [] ↦
      if s.port_ptr == last_port
      then err runtime_error
      else next_free (last_port - s.port_ptr) s.port_ptr s.free_ports
        >>= (λ port. mark port true (record s { port_ptr = port + 1 }) >>= (λ t. ok (port, t)))
]

unfoldable pub free_port : ℤ → Pat → Result Pat
free_port (negsuc n) s = err bad_iterator
free_port (pos port) s = do
  t ← mark port false s
  ok (record t { port_holes = t.port_holes ++ port ∷ [] })
