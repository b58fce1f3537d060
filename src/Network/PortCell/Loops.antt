-- ===== src/Network/PortCell/Loops.antt =====
-- The loops of Vm_VirtualPort_Cell against one another.
use mathlib.Core.Option.{some-injective}
use docker_sim.Prelude.{
  zero, suc, get_elem?, ℕ, ◌≡◌, refl, sym, ap, ◌∙◌, inl, inr, Bool, true, false, Option, none, some,
  List, [], ◌∷◌, ◌++◌, All, if◌then◌else◌, if-true, if-false, Bool-cases,
}
use docker_sim.Network.PortCell.{Port, first_port, erase_first}

-- At most one port meets the test.
abbrev pub AtMostOne : (Port → Bool) → List Port → Type 0
AtMostOne t [] = Unit {0}
AtMostOne t (p ∷ ps) = (t p ≡ true → All (λ q. t q ≡ false) ps) × AtMostOne t ps

pub first_port-append :
    (t : Port → Bool) (ps : List Port) (p : Port)
    → first_port t (ps ++ p ∷ [])
      ≡ elim (first_port t ps) [ some q ↦ some q | none ↦ if t p then some p else none ]
unfolding first_port
first_port-append t [] p = refl
first_port-append t (q ∷ ps) p = elim (Bool-cases (t q)) [
  | inl h ↦
      if-true _ _ h
      ∙ sym (
          ap {A = Option Port} {B = Option Port}
            (λ o. elim o [ some r ↦ some r | none ↦ if t p then some p else none ]) (if-true _ _ h))
  | inr h ↦
      if-false _ _ h
      ∙ first_port-append t ps p
      ∙ sym (
          ap {A = Option Port} {B = Option Port}
            (λ o. elim o [ some r ↦ some r | none ↦ if t p then some p else none ])
            (if-false _ _ h))
]

pub first_port-none :
    (t : Port → Bool) (ps : List Port) → All (λ q. t q ≡ false) ps → first_port t ps ≡ none
unfolding first_port
first_port-none t [] h = refl
first_port-none t (p ∷ ps) h = if-false _ _ h.0 ∙ first_port-none t ps h.1

pub first_port-erase_first :
    (t : Port → Bool) (ps : List Port) → AtMostOne t ps → first_port t (erase_first t ps) ≡ none
unfolding first_port erase_first
first_port-erase_first t [] h = refl
first_port-erase_first t (p ∷ ps) h = elim (Bool-cases (t p)) [
  | inl e ↦ ap (first_port t) (if-true _ _ e) ∙ first_port-none t ps (h.0 e)
  | inr e ↦ ap (first_port t) (if-false _ _ e) ∙ if-false _ _ e ∙ first_port-erase_first t ps h.1
]

-- A loop for ports that the erased one is not among finds what it found.
pub first_port-erase_other :
    (t u : Port → Bool) (ps : List Port)
    → ((p : Port) → t p ≡ true → u p ≡ false)
    → first_port u (erase_first t ps) ≡ first_port u ps
unfolding first_port erase_first
first_port-erase_other t u [] h = refl
first_port-erase_other t u (p ∷ ps) h = elim (Bool-cases (t p)) [
  | inl e ↦ ap (first_port u) (if-true _ _ e) ∙ sym (if-false _ _ (h p e))
  | inr e ↦
      ap (first_port u) (if-false _ _ e)
      ∙ ap (λ o. if u p then some p else o) (first_port-erase_other t u ps h)
]

pub first_port-member :
    (t : Port → Bool) (ps : List Port) (i : ℕ) (p : Port)
    → get_elem? ps i ≡ some p
    → t p ≡ true
    → AtMostOne t ps
    → first_port t ps ≡ some p
unfolding first_port
first_port-member t [] i p h e a = cc
first_port-member t (q ∷ ps) zero p h e a =
    let same : q ≡ p = some-injective q p h in if-true _ _ (ap t same ∙ e) ∙ h
first_port-member t (q ∷ ps) (suc i) p h e a = elim (Bool-cases (t q)) [
  | inl f ↦
      let none_left : first_port t ps ≡ none = first_port-none t ps (a.0 f) in
      let found : first_port t ps ≡ some p = first_port-member t ps i p h e a.1 in cc
  | inr f ↦ if-false _ _ f ∙ first_port-member t ps i p h e a.1
]
