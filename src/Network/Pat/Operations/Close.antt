-- ===== src/Network/Pat/Operations/Close.antt =====
-- `pat_closeConnection` of a connection that is there.
use docker_sim.Prelude.{
  ◌≡◌, refl, ap, ◌∙◌, Bool, true, false, not, none, some, List, [], ◌∷◌, ◌++◌, negsuc, ◌==ℤ◌,
  ==ℤ_refl, All, All-append, ok, err, ◌>>=◌, bad_iterator, not_initialised, if-true, if-false,
}
use docker_sim.Network.PortCell.{
  PortCell, Port, has_v_port, has_connection, first_port, erase_first, get_real_port,
  get_connection_id, delete_port_by_connection_id,
}
use docker_sim.Network.UserCell.{UserCell}
use docker_sim.Network.Pat.{Pat}
use docker_sim.Network.Pat.Operations.{
  NetMessage, existing, free_and_push, pat_close_connection, close_connection, close_port,
}

abbrev pub NoPort : (Port → Bool) → List Port → Type 0
NoPort t = All (λ q. t q ≡ false)

first_port-behind :
    (t : Port → Bool) (before later : List Port) (p : Port)
    → NoPort t before
    → t p ≡ true
    → first_port t (before ++ p ∷ later) ≡ some p
unfolding first_port
first_port-behind t [] later p n h = if-true _ _ h
first_port-behind t (q ∷ before) later p n h =
    if-false _ _ n.0 ∙ first_port-behind t before later p n.1 h

erase_first-behind :
    (t : Port → Bool) (before later : List Port) (p : Port)
    → NoPort t before
    → t p ≡ true
    → erase_first t (before ++ p ∷ later) ≡ before ++ later
unfolding erase_first
erase_first-behind t [] later p n h = if-true _ _ h
erase_first-behind t (q ∷ before) later p n h =
    if-false _ _ n.0 ∙ ap (λ qs. q ∷ qs) (erase_first-behind t before later p n.1 h)

first_port-NoPort : (t : Port → Bool) (ps : List Port) → NoPort t ps → first_port t ps ≡ none
unfolding first_port
first_port-NoPort t [] n = refl
first_port-NoPort t (q ∷ ps) n = if-false _ _ n.0 ∙ first_port-NoPort t ps n.1

-- A machine has one port with the virtual port of the message, and it is the first one with its
-- connection. Closing that connection always writes outside of the array of ports, since the port
-- is deleted before its real port is looked up.
pub pat_close_connection-leaves :
    (sm : NetMessage) (s : Pat) (u : UserCell) (c : PortCell) (before later : List Port) (p : Port)
    → existing sm.uid sm.pid s ≡ ok (u, c)
    → c.ports ≡ before ++ p ∷ later
    → p.v_port ≡ sm.local_port
    → p.connection_id ≡ sm.connection_id
    → NoPort (has_v_port sm.local_port) before
    → NoPort (has_v_port sm.local_port) later
    → NoPort (has_connection sm.connection_id) before
    → pat_close_connection sm s ≡ err bad_iterator
unfolding pat_close_connection close_connection close_port get_connection_id
    delete_port_by_connection_id get_real_port free_and_push
pat_close_connection-leaves sm s u c before later p at is v k no_v no_v' no_conn =
    let is_v : has_v_port sm.local_port p ≡ true =
      ap (λ x. x ==ℤ sm.local_port) v ∙ ==ℤ_refl sm.local_port in
    let is_conn : has_connection sm.connection_id p ≡ true =
      ap (λ x. x ==ℤ sm.connection_id) k ∙ ==ℤ_refl sm.connection_id in
    let found : first_port (has_v_port sm.local_port) c.ports ≡ some p =
      ap (first_port (has_v_port sm.local_port)) is
      ∙ first_port-behind (has_v_port sm.local_port) before later p no_v is_v in
    let erased : erase_first (has_connection sm.connection_id) c.ports ≡ before ++ later =
      ap (erase_first (has_connection sm.connection_id)) is
      ∙ erase_first-behind (has_connection sm.connection_id) before later p no_conn is_conn in
    let gone : first_port (has_v_port sm.local_port) (before ++ later) ≡ none =
      first_port-NoPort (has_v_port sm.local_port) (before ++ later)
        (All-append (λ q. has_v_port sm.local_port q ≡ false) before later no_v no_v') in
    let connected : get_connection_id sm.local_port c ≡ some sm.connection_id =
      ap (λ o. elim o [ none ↦ none | some p ↦ some p.connection_id ]) found ∙ ap some k in
    let left : PortCell = delete_port_by_connection_id sm.connection_id c in
    let none_left : get_real_port sm.local_port left ≡ negsuc 0 =
      ap (λ o. elim o [ none ↦ negsuc 0 | some p ↦ p.r_port ])
        (ap (first_port (has_v_port sm.local_port)) erased ∙ gone) in
    ap
      (λ r. r >>= (λ at. elim (get_connection_id sm.local_port at.1) [
        | none ↦ err not_initialised
        | some conn_id ↦ close_connection sm s at.0 at.1 conn_id
      ]))
      at
    ∙ ap
        (λ o. elim o [
          | none ↦ err not_initialised
          | some conn_id ↦ close_connection sm s u c conn_id
        ])
        connected
    ∙ if-false _ _ (ap not (==ℤ_refl sm.connection_id))
    ∙ ap (close_port sm s u left) none_left
