-- ===== src/Network/Pat/Take.antt =====
-- Taking a port.
use docker_sim.Prelude.{
  ℕ, suc, ◌+◌, ◌-◌, ◌≤◌, ◌<◌, ◌≡◌, inl, inr, ap, ◌∙◌, Bool, true, false, List, [], ◌∷◌, ◌++◌,
  length, length-append, ltb, lt→ltb, ◌==◌, ok, err, ◌>>=◌, runtime_error, if◌then◌else◌, if-true,
  if-false, List-cases, arith,
}
use docker_sim.Network.Pat.{Pat, mark, next_free, get_new_port, registered_initial_port, last_port}
use docker_sim.Network.Pat.Count.{
  is_port, occurs, occurs-append, occurs-one, is_port_self, port_cases, zero_or_more,
}
use docker_sim.Network.Pat.Clients.{Shared, take, handle, uses, Inv}

-- The next number is free.
next_free-now :
    (left port_ptr : ℕ) (f : ℕ → Bool)
    → f port_ptr ≡ false
    → next_free (suc left) port_ptr f ≡ ok port_ptr
unfolding next_free
next_free-now left port_ptr f h = if-false _ _ h

-- A port that joins those held is marked.
marked-take :
    (p : ℕ) (held : List ℕ) (f : ℕ → Bool) (port : ℕ)
    → f p ≡ ltb 0 (occurs p held)
    → (if p == port then true else f p) ≡ ltb 0 (occurs p (held ++ port ∷ []))
marked-take p held f port h = ground (arith, h, occurs-append p held (port ∷ []), occurs-one p port)

-- The next number is not in use.
fresh : (n : ℕ) (s : Shared) → Inv n s → uses s.pat.port_ptr s ≡ 0
fresh n s i = elim (zero_or_more (uses s.pat.port_ptr s)) [
  | inl e ↦ e
  | inr h ↦ let no : ⊥ = omega (arith, (i.inside s.pat.port_ptr h).1) in elim no [ ]
]

next_once :
    (n : ℕ) (s : Shared)
    → Inv n s
    → (p : ℕ) {k : ℕ} → k ≡ uses p s + is_port p s.pat.port_ptr
    → k ≤ 1
next_once n s i p h = elim (port_cases p s.pat.port_ptr) [
  | inl (e, one) ↦ omega (arith, h, one, ap (λ q. uses q s) e ∙ fresh n s i)
  | inr none_of ↦ omega (arith, h, none_of, i.once p)
]

next_inside :
    (n : ℕ) (s : Shared)
    → Inv n s
    → (p : ℕ) → 0 < uses p s + is_port p s.pat.port_ptr
    → (registered_initial_port ≤ p) × (p < s.pat.port_ptr + 1)
next_inside n s i p h = elim (port_cases p s.pat.port_ptr) [
  | inl (e, one) ↦ (omega (arith, e, i.used), omega (arith, e))
  | inr none_of ↦
      let (low, high) = i.inside p (omega (arith, h, none_of)) in (low, omega (arith, high))
]

-- The table after a port is taken.
abbrev taken : Pat → ℕ → List ℕ → ℕ → Pat
taken s port holes port_ptr = record s {
  free_ports = λ i. if i == port then true else s.free_ports i;
  port_holes = holes;
  port_ptr = port_ptr;
}

get_new_port-hole :
    (s : Pat) (port : ℕ) (holes : List ℕ)
    → s.port_holes ≡ port ∷ holes
    → port < last_port
    → get_new_port s ≡ ok (port, taken s port holes s.port_ptr)
unfolding get_new_port mark
get_new_port-hole s port holes h k =
    ap
      (λ hs. elim hs [
        | p ∷ ps ↦ mark p true (record s { port_holes = ps }) >>= (λ t. ok (p, t))
        | [] ↦
            if s.port_ptr == last_port
            then err runtime_error
            else next_free (last_port - s.port_ptr) s.port_ptr s.free_ports
              >>= (λ p. mark p true (record s { port_ptr = p + 1 }) >>= (λ t. ok (p, t)))
      ])
      h
    ∙ ap (λ r. r >>= (λ t. ok (port, t))) (if-true _ _ (lt→ltb port last_port k))

get_new_port-next :
    (s : Pat)
    → s.port_holes ≡ []
    → s.port_ptr < last_port
    → s.free_ports s.port_ptr ≡ false
    → get_new_port s ≡ ok (s.port_ptr, taken s s.port_ptr s.port_holes (s.port_ptr + 1))
unfolding get_new_port mark
get_new_port-next s h k f =
    let left : ℕ = last_port - s.port_ptr - 1 in
    let n : last_port - s.port_ptr ≡ suc left = omega (arith, k) in
    let not_last : s.port_ptr == last_port ≡ false = ground (arith, k) in
    let found : next_free (last_port - s.port_ptr) s.port_ptr s.free_ports ≡ ok s.port_ptr =
      ap (λ l. next_free l s.port_ptr s.free_ports) n
      ∙ next_free-now left s.port_ptr s.free_ports f in
    ap
      (λ hs. elim hs [
        | p ∷ ps ↦ mark p true (record s { port_holes = ps }) >>= (λ t. ok (p, t))
        | [] ↦
            if s.port_ptr == last_port
            then err runtime_error
            else next_free (last_port - s.port_ptr) s.port_ptr s.free_ports
              >>= (λ p. mark p true (record s { port_ptr = p + 1 }) >>= (λ t. ok (p, t)))
      ])
      h
    ∙ if-false _ _ not_last
    ∙ ap (λ r. r >>= (λ p. mark p true (record s { port_ptr = p + 1 }) >>= (λ t. ok (p, t)))) found
    ∙ ap (λ r. r >>= (λ t. ok (s.port_ptr, t))) (if-true _ _ (lt→ltb s.port_ptr last_port k))

occurs-holes :
    (p : ℕ) (holes : List ℕ) (port : ℕ) (rest : List ℕ)
    → holes ≡ port ∷ rest
    → occurs p holes ≡ is_port p port + occurs p rest
unfolding occurs
occurs-holes p holes port rest e = ap (occurs p) e

take_hole-Inv :
    (n : ℕ) (s : Shared) (port : ℕ) (rest : List ℕ)
    → Inv n s
    → n < 64511
    → s.pat.port_holes ≡ port ∷ rest
    → (t : Shared) × (handle take s ≡ ok t) × Inv (suc n) t
unfolding handle
take_hole-Inv n s port rest i room e =
    let there : 0 < uses port s =
      omega (arith, occurs-holes port s.pat.port_holes port rest e, is_port_self port) in
    let counted : length s.pat.port_holes ≡ suc (length rest) = ap length e in
    let same : (p : ℕ) → occurs p (s.held ++ port ∷ []) + occurs p rest ≡ uses p s = λ p. omega (
      arith,
      occurs-append p s.held (port ∷ []),
      occurs-one p port,
      occurs-holes p s.pat.port_holes port rest e,
    ) in
    let t : Shared = record {
      pat = taken s.pat port rest s.pat.port_ptr;
      held = s.held ++ port ∷ [];
    } in
    (
      t,
      ap (λ r. r >>= (λ r. ok (record { pat = r.1; held = s.held ++ r.0 ∷ [] })))
          (get_new_port-hole s.pat port rest e
            (omega (arith, (i.inside port there).1, i.used, i.few, room))),
      record {
        once = λ p. omega (arith, same p, i.once p);
        inside = λ p h. i.inside p (omega (arith, same p, h));
        marked = λ p. marked-take p s.held s.pat.free_ports port (i.marked p);
        used = omega (arith, i.used, counted, length-append s.held (port ∷ []));
        few = omega (arith, i.few, counted, length-append s.held (port ∷ []));
      },
    )

take_next-Inv :
    (n : ℕ) (s : Shared)
    → Inv n s
    → n < 64511
    → s.pat.port_holes ≡ []
    → (t : Shared) × (handle take s ≡ ok t) × Inv (suc n) t
unfolding handle
take_next-Inv n s i room e =
    let port : ℕ = s.pat.port_ptr in
    let new : uses port s ≡ 0 = fresh n s i in
    let same : (p : ℕ)
        → occurs p (s.held ++ port ∷ []) + occurs p s.pat.port_holes ≡ uses p s + is_port p port =
      λ p. omega (arith, occurs-append p s.held (port ∷ []), occurs-one p port) in
    let t : Shared = record {
      pat = taken s.pat port s.pat.port_holes (port + 1);
      held = s.held ++ port ∷ [];
    } in
    (
      t,
      ap (λ r. r >>= (λ r. ok (record { pat = r.1; held = s.held ++ r.0 ∷ [] })))
          (get_new_port-next s.pat e (omega (arith, i.used, i.few, room))
            (i.marked port ∙ ground (arith, new))),
      record {
        once = λ p. next_once n s i p (omega (arith, same p));
        inside = λ p h. next_inside n s i p (omega (arith, same p, h));
        marked = λ p. marked-take p s.held s.pat.free_ports port (i.marked p);
        used = omega (arith, i.used, length-append s.held (port ∷ []));
        few = omega (arith, i.few, length-append s.held (port ∷ []));
      },
    )

pub take-Inv :
    (n : ℕ) (s : Shared)
    → Inv n s
    → n < 64511
    → (t : Shared) × (handle take s ≡ ok t) × Inv (suc n) t
take-Inv n s i room = elim (List-cases s.pat.port_holes) [
  | inl e ↦ take_next-Inv n s i room e
  | inr (port, rest, e) ↦ take_hole-Inv n s port rest i room e
]
