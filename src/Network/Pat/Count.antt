-- ===== src/Network/Pat/Count.antt =====
-- How often a port stands in a list of ports.
use docker_sim.Prelude.{
  ℕ, zero, suc, ◌+◌, ◌<◌, ◌≡◌, ◌⊎◌, inl, inr, refl, ap, subst, some, List, [], ◌∷◌, ◌++◌, length,
  get_elem?, ◌==◌, ==_iff, ==_refl, if◌then◌else◌, if-true, if-false, Bool-cases, some_inj,
  no_element, arith,
}

-- How often a port stands in a list.
abbrev pub is_port : ℕ → ℕ → ℕ
is_port p q = if p == q then 1 else 0

unfoldable pub occurs : ℕ → List ℕ → ℕ
occurs p [] = 0
occurs p (q ∷ qs) = is_port p q + occurs p qs

unfoldable pub remove_at : ℕ → List ℕ → List ℕ
remove_at i [] = []
remove_at zero (q ∷ qs) = qs
remove_at (suc i) (q ∷ qs) = q ∷ remove_at i qs

pub occurs-append : (p : ℕ) (qs rs : List ℕ) → occurs p (qs ++ rs) ≡ occurs p qs + occurs p rs
unfolding occurs
occurs-append p [] rs = omega arith
occurs-append p (q ∷ qs) rs = omega (arith, occurs-append p qs rs)

pub occurs-one : (p q : ℕ) → occurs p (q ∷ []) ≡ is_port p q
unfolding occurs
occurs-one p q = omega arith

pub occurs-remove_at :
    (p i q : ℕ) (qs : List ℕ)
    → get_elem? qs i ≡ some q
    → occurs p qs ≡ occurs p (remove_at i qs) + is_port p q
unfolding occurs remove_at
occurs-remove_at p i q [] h = elim (no_element h) [ ]
occurs-remove_at p zero q (x ∷ qs) h =
    subst (λ y. is_port p x + occurs p qs ≡ occurs p qs + is_port p y) (some_inj h) (omega arith)
occurs-remove_at p (suc i) q (x ∷ qs) h = omega (arith, occurs-remove_at p i q qs h)

pub length-remove_at :
    (i q : ℕ) (qs : List ℕ) → get_elem? qs i ≡ some q → length qs ≡ suc (length (remove_at i qs))
unfolding remove_at
length-remove_at i q [] h = elim (no_element h) [ ]
length-remove_at zero q (x ∷ qs) h = refl
length-remove_at (suc i) q (x ∷ qs) h = ap suc (length-remove_at i q qs h)

pub is_port_self : (p : ℕ) → is_port p p ≡ 1
is_port_self p = if-true _ _ (==_refl p)

pub port_cases : (p q : ℕ) → ((p ≡ q) × (is_port p q ≡ 1)) ⊎ (is_port p q ≡ 0)
port_cases p q = elim (Bool-cases (p == q)) [
  | inl e ↦ inl ((==_iff p q).0 e, if-true _ _ e)
  | inr e ↦ inr (if-false _ _ e)
]

pub zero_or_more : (n : ℕ) → (n ≡ 0) ⊎ (0 < n)
zero_or_more n = ground arith
