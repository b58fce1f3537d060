-- ===== src/Network/PortCell/Laws.antt =====
-- The translation of ports in Vm_VirtualPort_Cell, after each operation.
use docker_sim.Prelude.{
  ℕ, ◌≡◌, refl, sym, ap, ◌∙◌, inl, inr, Bool, true, false, Option, none, some, List, [], ◌∷◌, ◌++◌,
  All, ℤ, negsuc, ◌==ℤ◌, ==ℤ_iff, ==ℤ_refl, if◌then◌else◌, if-true, if-false, Bool-cases, get_elem?,
  subst,
}
use docker_sim.Network.PortCell.{
  Port, PortCell, has_r_port, has_v_port, first_port, erase_first, set_port, get_virtual_port,
  get_real_port, delete_port_by_r_port, delete_port_by_v_port,
}
use docker_sim.Network.PortCell.Loops.{
  AtMostOne, first_port-append, first_port-none, first_port-erase_first, first_port-erase_other,
  first_port-member,
}

abbrev virtual : Option Port → ℤ
virtual o = elim o [ none ↦ negsuc 0 | some p ↦ p.v_port ]

abbrev real : Option Port → ℤ
real o = elim o [ none ↦ negsuc 0 | some p ↦ p.r_port ]

-- No port of the machine has this real or this virtual port.
pub record Fresh (real_port virtual_port : ℤ) (c : PortCell) : Type 0 where
  pub no_real : All (λ q. has_r_port real_port q ≡ false) c.ports
  pub no_virtual : All (λ q. has_v_port virtual_port q ≡ false) c.ports

kept :
    (b : Bool) (p : Port) (o : Option Port)
    → b ≡ false
    → elim o [ some q ↦ some q | none ↦ if b then some p else none ] ≡ o
kept b p none e = if-false _ _ e
kept b p (some q) e = refl

-- A port appended is found under its own number alone, if that is fresh.
found_after :
    (t : Port → Bool) (ps : List Port) (p : Port)
    → (t p ≡ true → All (λ q. t q ≡ false) ps)
    → first_port t (ps ++ p ∷ []) ≡ (if t p then some p else first_port t ps)
found_after t ps p fresh = elim (Bool-cases (t p)) [
  | inl e ↦
      first_port-append t ps p
      ∙ ap {A = Option Port} {B = Option Port}
          (λ o. elim o [ some q ↦ some q | none ↦ if t p then some p else none ])
          (first_port-none t ps (fresh e))
      ∙ if-true _ _ e
      ∙ sym (if-true _ _ e)
  | inr e ↦ first_port-append t ps p ∙ kept (t p) p (first_port t ps) e ∙ sym (if-false _ _ e)
]

-- The ports compared by one number, from the test of another that is equal.
no_such_real :
    (r r' : ℤ) (ps : List Port)
    → (r ==ℤ r') ≡ true
    → All (λ q. has_r_port r q ≡ false) ps
    → All (λ q. has_r_port r' q ≡ false) ps
no_such_real r r' ps e = subst (λ n. All (λ q. has_r_port n q ≡ false) ps) ((==ℤ_iff r r').0 e)

no_such_virtual :
    (v v' : ℤ) (ps : List Port)
    → (v ==ℤ v') ≡ true
    → All (λ q. has_v_port v q ≡ false) ps
    → All (λ q. has_v_port v' q ≡ false) ps
no_such_virtual v v' ps e = subst (λ n. All (λ q. has_v_port n q ≡ false) ps) ((==ℤ_iff v v').0 e)

choice :
    {A B : Type 0} (f : A → B) (b : Bool) (x y : A)
    → f (if b then x else y) ≡ (if b then f x else f y)
choice f true x y = refl
choice f false x y = refl

-- After a pair of fresh ports is set, the real port is translated to the virtual one and back, and
-- all other ports are translated as before.
pub set_port-Fresh :
    (real_port virtual_port r v : ℤ) (c : PortCell)
    → Fresh real_port virtual_port c
    → (get_virtual_port r (set_port real_port virtual_port c)
        ≡ (if real_port ==ℤ r then virtual_port else get_virtual_port r c))
      × (get_real_port v (set_port real_port virtual_port c)
          ≡ (if virtual_port ==ℤ v then real_port else get_real_port v c))
unfolding get_virtual_port get_real_port set_port
set_port-Fresh real_port virtual_port r v c f =
    let p : Port = record { r_port = real_port; v_port = virtual_port; connection_id = negsuc 0 } in
    (
      ap virtual (
            found_after (has_r_port r) c.ports p
              (λ e. no_such_real real_port r c.ports e f.no_real))
          ∙ choice virtual (real_port ==ℤ r) (some p) (first_port (has_r_port r) c.ports),
      ap real (
            found_after (has_v_port v) c.ports p
              (λ e. no_such_virtual virtual_port v c.ports e f.no_virtual))
          ∙ choice real (virtual_port ==ℤ v) (some p) (first_port (has_v_port v) c.ports),
    )

-- When a real port is listed at most once, deleting it makes its translation fail and leaves that
-- of the other real ports; and the same for a virtual port.
delete_port-AtMostOne :
    (real_port virtual_port r v : ℤ) (c : PortCell)
    → AtMostOne (has_r_port real_port) c.ports
    → AtMostOne (has_v_port virtual_port) c.ports
    → (get_virtual_port r (delete_port_by_r_port real_port c)
        ≡ (if real_port ==ℤ r then negsuc 0 else get_virtual_port r c))
      × (get_real_port v (delete_port_by_v_port virtual_port c)
          ≡ (if virtual_port ==ℤ v then negsuc 0 else get_real_port v c))
unfolding get_virtual_port get_real_port delete_port_by_r_port delete_port_by_v_port
delete_port-AtMostOne real_port virtual_port r v c once once' = (
  elim (Bool-cases (real_port ==ℤ r)) [
    | inl e ↦
        let same : real_port ≡ r = (==ℤ_iff real_port r).0 e in
        ap (λ n. virtual (first_port (has_r_port n) (erase_first (has_r_port real_port) c.ports)))
          (sym same)
        ∙ ap virtual (first_port-erase_first (has_r_port real_port) c.ports once)
        ∙ sym (if-true _ _ e)
    | inr e ↦
        ap virtual (
          first_port-erase_other (has_r_port real_port) (has_r_port r) c.ports
            (λ p h. ap (λ n. n ==ℤ r) ((==ℤ_iff p.r_port real_port).0 h) ∙ e))
        ∙ sym (if-false _ _ e)
  ],
  elim (Bool-cases (virtual_port ==ℤ v)) [
    | inl e ↦
        let same : virtual_port ≡ v = (==ℤ_iff virtual_port v).0 e in
        ap (λ n. real (first_port (has_v_port n) (erase_first (has_v_port virtual_port) c.ports)))
          (sym same)
        ∙ ap real (first_port-erase_first (has_v_port virtual_port) c.ports once')
        ∙ sym (if-true _ _ e)
    | inr e ↦
        ap real (
          first_port-erase_other (has_v_port virtual_port) (has_v_port v) c.ports
            (λ p h. ap (λ n. n ==ℤ v) ((==ℤ_iff p.v_port virtual_port).0 h) ∙ e))
        ∙ sym (if-false _ _ e)
  ],
)

-- For a port of the machine whose numbers are listed once, the two translations are inverse.
pub translations-inverse :
    (c : PortCell) (i : ℕ) (p : Port)
    → get_elem? c.ports i ≡ some p
    → AtMostOne (has_r_port p.r_port) c.ports
    → AtMostOne (has_v_port p.v_port) c.ports
    → (get_real_port (get_virtual_port p.r_port c) c ≡ p.r_port)
      × (get_virtual_port (get_real_port p.v_port c) c ≡ p.v_port)
unfolding get_virtual_port get_real_port
translations-inverse c i p h once once' =
    let there : virtual (first_port (has_r_port p.r_port) c.ports) ≡ p.v_port =
      ap virtual (first_port-member (has_r_port p.r_port) c.ports i p h (==ℤ_refl p.r_port) once) in
    let back : real (first_port (has_v_port p.v_port) c.ports) ≡ p.r_port =
      ap real (first_port-member (has_v_port p.v_port) c.ports i p h (==ℤ_refl p.v_port) once') in
    (
      ap (λ n. real (first_port (has_v_port n) c.ports)) there ∙ back,
      ap (λ n. virtual (first_port (has_r_port n) c.ports)) back ∙ there,
    )
