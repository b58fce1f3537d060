-- ===== src/Network/Pat/Operations/Apart.antt =====
-- The ports and the users of the table are apart.
use docker_sim.Prelude.{
  ℕ, ◌≡◌, inl, inr, refl, sym, ap, ◌∙◌, Bool, true, List, [], ◌∷◌, ltb, ◌==◌, Result, ok, err,
  ◌>>=◌, runtime_error, if◌then◌else◌, if-true, if-false, Bool-cases, ◌-◌, ◌+◌,
}
use docker_sim.Network.UserCell.{UserCell}
use docker_sim.Network.Pat.{Pat, mark, next_free, get_new_port, last_port}
use docker_sim.Network.Pat.Operations.Found.{with_users}

-- Taking a port has nothing to do with the users.
abbrev marked_with : List UserCell → Result Pat → Result Pat
marked_with us r = r >>= (λ t. ok (with_users us t))

abbrev pub taken_with : List UserCell → Result (ℕ × Pat) → Result (ℕ × Pat)
taken_with us r = r >>= (λ x. ok (x.0, with_users us x.1))

mark-users :
    (port : ℕ) (b : Bool) (s : Pat) (us : List UserCell)
    → mark port b (with_users us s) ≡ marked_with us (mark port b s)
unfolding mark
mark-users port b s us = elim (Bool-cases (ltb port last_port)) [
  | inl e ↦ if-true _ _ e ∙ sym (ap (marked_with us) (if-true _ _ e))
  | inr e ↦ if-false _ _ e ∙ sym (ap (marked_with us) (if-false _ _ e))
]

-- The ends of `getNewPort`.
abbrev taking : ℕ → Result Pat → Result (ℕ × Pat)
taking port r = r >>= (λ t. ok (port, t))

taking-users :
    (port : ℕ) (us : List UserCell) (r : Result Pat)
    → taking port (marked_with us r) ≡ taken_with us (taking port r)
taking-users port us (ok t) = refl
taking-users port us (err e) = refl

abbrev advance : Pat → Result ℕ → Result (ℕ × Pat)
advance s r = r >>= (λ port. taking port (mark port true (record s { port_ptr = port + 1 })))

advance-users :
    (s : Pat) (us : List UserCell) (r : Result ℕ)
    → advance (with_users us s) r ≡ taken_with us (advance s r)
advance-users s us (ok port) =
    ap (taking port) (mark-users port true (record s { port_ptr = port + 1 }) us)
    ∙ taking-users port us (mark port true (record s { port_ptr = port + 1 }))
advance-users s us (err e) = refl

abbrev taken_from : Pat → List ℕ → Result (ℕ × Pat)
taken_from s holes = elim holes [
  | port ∷ rest ↦ taking port (mark port true (record s { port_holes = rest }))
  | [] ↦
      if s.port_ptr == last_port
      then err runtime_error
      else advance s (next_free (last_port - s.port_ptr) s.port_ptr s.free_ports)
]

taken_from-users :
    (s : Pat) (us : List UserCell) (holes : List ℕ)
    → taken_from (with_users us s) holes ≡ taken_with us (taken_from s holes)
taken_from-users s us (port ∷ rest) =
    ap (taking port) (mark-users port true (record s { port_holes = rest }) us)
    ∙ taking-users port us (mark port true (record s { port_holes = rest }))
taken_from-users s us [] = elim (Bool-cases (s.port_ptr == last_port)) [
  | inl e ↦ if-true _ _ e ∙ sym (ap (taken_with us) (if-true _ _ e))
  | inr e ↦
      if-false _ _ e
      ∙ advance-users s us (next_free (last_port - s.port_ptr) s.port_ptr s.free_ports)
      ∙ sym (ap (taken_with us) (if-false _ _ e))
]

pub get_new_port-users :
    (s : Pat) (us : List UserCell) → get_new_port (with_users us s) ≡ taken_with us (get_new_port s)
unfolding get_new_port
get_new_port-users s us = taken_from-users s us s.port_holes
