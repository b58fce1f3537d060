-- ===== src/Network/Pat/Operations/Listen.antt =====
-- `pat_createListen`, and the translation of the messages of the machine that listens.
use docker_sim.Prelude.{
  ℕ, ◌≡◌, sym, ap, ◌∙◌, true, none, some, List, ℤ, pos, Option, ◌==ℤ◌, Result, ok, err, ◌>>=◌,
  runtime_error, if◌then◌else◌,
}
use docker_sim.Network.PortCell.{PortCell, set_port, get_virtual_port, get_real_port}
use docker_sim.Network.PortCell.Laws.{Fresh, set_port-Fresh}
use docker_sim.Network.UserCell.{
  UserCell, search_vm, find_vm, replace_vm, find_vm-replace_vm, find_vm-id,
}
use docker_sim.Network.Pat.{Pat, get_new_port}
use docker_sim.Network.Pat.Operations.{
  NetMessage, find_user, search_user, put_user, user_or_new, vm_or_new, existing, put_cell,
  pat_create_listen, pat_send_message, pat_receive_message,
}
use docker_sim.Network.Pat.Operations.Found.{
  with_users, find_user-id, find_user-replace_user, user_or_new-found, vm_or_new-found,
}
use docker_sim.Network.Pat.Operations.Apart.{taken_with, get_new_port-users}

-- The cell of the machine, or the one that is made for it.
abbrev pub cell_for : ℤ → ℤ → Pat → PortCell
cell_for u_id p_id s = (vm_or_new p_id (user_or_new u_id s).1).1

abbrev pub from_machine : ℤ → ℤ → NetMessage → NetMessage
from_machine u_id p_id m = record m { uid = u_id; pid = p_id }

-- What the searches find after a cell is put in.
existing-put_cell :
    (u_id p_id : ℤ) (u : UserCell) (cs : List PortCell) (c new : PortCell) (s : Pat)
    → find_user u_id s.user_vm_ports ≡ some u
    → find_vm p_id cs ≡ some c
    → new.vm_id ==ℤ p_id ≡ true
    → existing u_id p_id (put_cell u_id p_id (record u { vm_ports = cs }) new s)
      ≡ ok (record u { vm_ports = replace_vm p_id new cs }, new)
unfolding existing put_cell search_user search_vm put_user
existing-put_cell u_id p_id u cs c new s h k e =
    let w : UserCell = record u { vm_ports = replace_vm p_id new cs } in
    let user_part : Option UserCell → Result (UserCell × PortCell) = λ o. elim o [
      | none ↦ err runtime_error
      | some u ↦ elim (find_vm p_id u.vm_ports) [ none ↦ err runtime_error | some c ↦ ok (u, c) ]
    ] in
    let cell_part : Option PortCell → Result (UserCell × PortCell) =
      λ o. elim o [ none ↦ err runtime_error | some c ↦ ok (w, c) ] in
    ap user_part
      (find_user-replace_user u_id u w s.user_vm_ports h (find_user-id u_id u s.user_vm_ports h))
    ∙ ap cell_part (find_vm-replace_vm p_id c new cs k e)

set_port-vm_id :
    (p_id virtual_port : ℤ) (port : ℕ) (c : PortCell)
    → c.vm_id ==ℤ p_id ≡ true
    → (set_port (pos port) virtual_port c).vm_id ==ℤ p_id ≡ true
unfolding set_port
set_port-vm_id p_id virtual_port port c h = h

-- When a port is left, the machine gets it, in its cell.
pub pat_create_listen-cell :
    (u_id p_id virtual_port : ℤ) (s t : Pat) (port : ℕ)
    → get_new_port s ≡ ok (port, t)
    → (s' : Pat) × (pat_create_listen u_id p_id virtual_port s ≡ ok (pos port, s'))
      × ((u : UserCell) × (existing u_id p_id s'
            ≡ ok (u, set_port (pos port) virtual_port (cell_for u_id p_id s))))
unfolding pat_create_listen
pat_create_listen-cell u_id p_id virtual_port s t port g =
    let (us, u, e, f) = user_or_new-found u_id s in
    let (cs, c, d, k) = vm_or_new-found p_id u in
    let same : cell_for u_id p_id s ≡ c = ap (λ x. (vm_or_new p_id x.1).1) e ∙ ap (λ x. x.1) d in
    let new : PortCell = set_port (pos port) virtual_port c in
    let put : UserCell × PortCell → ℕ × Pat → Result (ℤ × Pat) =
      λ y r. ok (pos r.0, put_cell u_id p_id y.0 (set_port (pos r.0) virtual_port y.1) r.1) in
    let w : UserCell = record u { vm_ports = replace_vm p_id new cs } in
    (
      put_cell u_id p_id (record u { vm_ports = cs }) new (with_users us t),
      ap (λ x. get_new_port x.0 >>= put (vm_or_new p_id x.1)) e
          ∙ ap (λ r. r >>= put (vm_or_new p_id u)) (get_new_port-users s us ∙ ap (taken_with us) g)
          ∙ ap (λ y. put y (port, with_users us t)) d,
      (
        w,
        existing-put_cell u_id p_id u cs c new (with_users us t) f k
              (set_port-vm_id p_id virtual_port port c (find_vm-id p_id c cs k))
            ∙ ap (λ x. ok (w, set_port (pos port) virtual_port x)) (sym same),
      ),
    )

-- When a port is left, and the machine has neither that real port nor the virtual port, it gets
-- the port behind the virtual port. A message that it sends from the virtual port then leaves by
-- the real port, one that comes in to the real port arrives at the virtual port, and its other
-- ports are translated as before.
pub pat_create_listen-translates :
    (u_id p_id virtual_port : ℤ) (s t : Pat) (port : ℕ)
    → get_new_port s ≡ ok (port, t)
    → Fresh (pos port) virtual_port (cell_for u_id p_id s)
    → (s' : Pat) × (pat_create_listen u_id p_id virtual_port s ≡ ok (pos port, s'))
      × ((m : NetMessage)
          → (pat_send_message (from_machine u_id p_id m) s'
              ≡ ok (record (from_machine u_id p_id m) {
                local_port =
                    if virtual_port ==ℤ m.local_port
                    then pos port
                    else get_real_port m.local_port (cell_for u_id p_id s);
                virtual_local_port = m.local_port;
              }))
            × (pat_receive_message (from_machine u_id p_id m) s'
                ≡ ok (record (from_machine u_id p_id m) {
                  destination_port =
                      if pos port ==ℤ m.destination_port
                      then virtual_port
                      else get_virtual_port m.destination_port (cell_for u_id p_id s);
                  virtual_destination_port = m.destination_port;
                })))
unfolding pat_send_message pat_receive_message
pat_create_listen-translates u_id p_id virtual_port s t port g fresh =
    let (s', e, (u, at)) = pat_create_listen-cell u_id p_id virtual_port s t port g in
    let sent : NetMessage → ℤ → Result NetMessage = λ m l.
      ok
        (record (from_machine u_id p_id m) { local_port = l; virtual_local_port = m.local_port }) in
    let received : NetMessage → ℤ → Result NetMessage = λ m l.
      ok (record (from_machine u_id p_id m) {
        destination_port = l;
        virtual_destination_port = m.destination_port;
      }) in
    let found = λ (m : NetMessage).
      set_port-Fresh (pos port) virtual_port m.destination_port m.local_port (cell_for u_id p_id s)
        fresh in
    (
      s',
      e,
      λ m. (
        ap (λ r. r >>= (λ at. sent m (get_real_port m.local_port at.1))) at
            ∙ ap (sent m) (found m).1,
        ap (λ r. r >>= (λ at. received m (get_virtual_port m.destination_port at.1))) at
            ∙ ap (received m) (found m).0,
      ),
    )
