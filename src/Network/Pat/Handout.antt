-- ===== src/Network/Pat/Handout.antt =====
-- Ports that are taken and given back.
use docker_sim.Prelude.{
  ℕ, suc, ◌+◌, ◌≤◌, ◌<◌, ◌≡◌, inl, inr, refl, ap, ◌∙◌, subst, Bool, false, none, some, List, [],
  ◌∷◌, ◌++◌, pos, length, length-append, get_elem?, ltb, lt→ltb, ◌==◌, Result, ok, ◌>>=◌,
  if◌then◌else◌, if-true, Option-cases, arith,
}
use docker_sim.Network.Pat.{Pat, new_pat, mark, free_port, last_port}
use docker_sim.Network.Pat.Count.{
  is_port, occurs, remove_at, occurs-append, occurs-one, occurs-remove_at, length-remove_at,
  is_port_self,
}
use docker_sim.Network.Pat.Clients.{
  Shared, Event, take, give_back, handle, run, start, Exclusive, uses, Inv,
}
use docker_sim.Network.Pat.Take.{take-Inv}

free_port-ok :
    (s : Pat) (port : ℕ)
    → port < last_port
    → free_port (pos port) s
      ≡ ok (record s {
        free_ports = λ i. if i == port then false else s.free_ports i;
        port_holes = s.port_holes ++ port ∷ [];
      })
unfolding free_port mark
free_port-ok s port h =
    ap {A = Result Pat}
      (λ r. ◌>>=◌ {A = Pat} r (λ t. ok (record t { port_holes = t.port_holes ++ port ∷ [] })))
      (if-true _ _ (lt→ltb port last_port h))

-- A port that leaves those held, where it stood once, is unmarked.
marked-give :
    (p : ℕ) (held left : List ℕ) (f : ℕ → Bool) (port : ℕ)
    → f p ≡ ltb 0 (occurs p held)
    → occurs p held ≡ occurs p left + is_port p port
    → occurs p held ≤ 1
    → (if p == port then false else f p) ≡ ltb 0 (occurs p left)
marked-give p held left f port h k once = ground (arith, h, k, once)

give-Inv :
    (n : ℕ) (s : Shared) (i : ℕ)
    → Inv n s
    → n < 64511
    → (t : Shared) × (handle (give_back i) s ≡ ok t) × Inv (suc n) t
unfolding handle
give-Inv n s i v room = elim (Option-cases (get_elem? s.held i)) [
  | inl e ↦ (
    s,
    ap
        (λ o. elim o [
          | some port ↦
              free_port (pos port) s.pat
              >>= (λ t. ok (record { pat = t; held = remove_at i s.held }))
          | none ↦ ok s
        ])
        e,
    record {
      once = v.once;
      inside = v.inside;
      marked = v.marked;
      used = v.used;
      few = omega (arith, v.few);
    },
  )
  | inr (port, e) ↦
      let left : List ℕ = remove_at i s.held in
      let holes : List ℕ = s.pat.port_holes ++ port ∷ [] in
      let gone : (p : ℕ) → occurs p s.held ≡ occurs p left + is_port p port =
        λ p. occurs-remove_at p i port s.held e in
      let same : (p : ℕ) → occurs p left + occurs p holes ≡ uses p s = λ p.
        omega (arith, gone p, occurs-append p s.pat.port_holes (port ∷ []), occurs-one p port) in
      let there : 0 < uses port s = omega (arith, gone port, is_port_self port) in
      let fewer = length-remove_at i port s.held e in
      let more = length-append s.pat.port_holes (port ∷ []) in
      (
        record {
          pat = record s.pat {
            free_ports = λ i. if i == port then false else s.pat.free_ports i;
            port_holes = holes;
          };
          held = left;
        },
        ap
              (λ o. elim o [
                | some port ↦
                    free_port (pos port) s.pat
                    >>= (λ t. ok (record { pat = t; held = remove_at i s.held }))
                | none ↦ ok s
              ])
              e
            ∙ ap (λ r. r >>= (λ t. ok (record { pat = t; held = remove_at i s.held })))
                (free_port-ok s.pat port
                  (omega (arith, (v.inside port there).1, v.used, v.few, room))),
        record {
          once = λ p. omega (arith, same p, v.once p);
          inside = λ p h. v.inside p (omega (arith, same p, h));
          marked = λ p.
              marked-give p s.held left s.pat.free_ports port (v.marked p) (gone p)
                (omega (arith, v.once p));
          used = omega (arith, v.used, fewer, more);
          few = omega (arith, v.few, fewer, more);
        },
      )
]

handle-Inv :
    (n : ℕ) (e : Event) (s : Shared)
    → Inv n s
    → n < 64511
    → (t : Shared) × (handle e s ≡ ok t) × Inv (suc n) t
handle-Inv n take s v room = take-Inv n s v room
handle-Inv n (give_back i) s v room = give-Inv n s i v room

run-Inv :
    (n : ℕ) (es : List Event) (s : Shared)
    → Inv n s
    → n + length es ≤ 64511
    → (t : Shared) × (run es s ≡ ok t) × Inv (n + length es) t
unfolding run
run-Inv n [] s v room = (s, refl, subst (λ k. Inv k s) (omega arith) v)
run-Inv n (e ∷ es) s v room =
    let (t, h, w) = handle-Inv n e s v (omega (arith, room)) in
    let (u, k, x) = run-Inv (suc n) es t w (omega (arith, room)) in
    (u, ap (λ r. r >>= run es) h ∙ k, subst (λ k. Inv k u) (omega arith) x)

-- As long as at most 64511 ports are taken or given back, in any order, every taking succeeds.
-- After each run no port is held twice, every port held is at least 1024 and below 65535, and the
-- array marks the ports that are held and no other.
pub run-Exclusive :
    (es : List Event) → length es ≤ 64511 → (t : Shared) × (run es start ≡ ok t) × Exclusive t
unfolding new_pat occurs
run-Exclusive es room =
    let v : Inv 0 start = record {
      once = λ p. omega arith;
      inside = λ p h. let no : ⊥ = omega (arith, h) in elim no [ ];
      marked = λ p. refl;
      used = omega arith;
      few = omega arith;
    } in
    let (t, h, w) = run-Inv 0 es start v (omega (arith, room)) in
    (
      t,
      h,
      record {
        once = λ p. omega (arith, w.once p);
        inside = λ p k.
            let (low, high) = w.inside p (omega (arith, k)) in
            (low, omega (arith, high, w.used, w.few, room));
        marked = w.marked;
      },
    )
