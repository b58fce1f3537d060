-- ===== src/Splitting/System/Find.antt =====
-- The requests in flight as a table from parents to requests, and what each operation of the
-- splitting system does to it.
use docker_sim.Prelude.{
  ℕ, suc, ◌≡◌, refl, ◌⊎◌, inl, inr, Option, none, some, List, [], ◌∷◌, ◌++◌, get_elem?, set, true,
  false, ◌==◌, ==_iff, if◌then◌else◌, arith, Bool-cases,
}
use docker_sim.Splitting.Message.{ok, throw, request_not_found, Pointer}
use docker_sim.Splitting.Request
use docker_sim.Splitting.Request.{Request, new_request, set_sub_request}
use docker_sim.Splitting.System.{
  System, is_parent, search_request, located, erase_at, add_request, remove_request,
}

-- The first request of a parent.
unfoldable pub find : Pointer → List Request → Option Request
find p [] = none
find p (r ∷ rs) = if is_parent p r then some r else find p rs

-- The first request of a parent replaced, or removed.
pub replace : Pointer → Request → List Request → List Request
replace p r' [] = []
replace p r' (r ∷ rs) = if is_parent p r then r' ∷ rs else r ∷ replace p r' rs

pub remove : Pointer → List Request → List Request
remove p [] = []
remove p (r ∷ rs) = if is_parent p r then rs else r ∷ remove p rs

-- No request has this parent; no two requests have one parent.
abbrev pub IsFresh : Pointer → List Request → Type 0
IsFresh p [] = Unit {0}
IsFresh p (r ∷ rs) = (is_parent p r ≡ false) × IsFresh p rs

abbrev pub ParentsDiffer : List Request → Type 0
ParentsDiffer [] = Unit {0}
ParentsDiffer (r ∷ rs) = ((p : Pointer) → is_parent p r ≡ true → IsFresh p rs) × ParentsDiffer rs

-- A search that fails, and one that finds the request `r` at index `i`.
pub record Missed (p : Pointer) (rs : List Request) : Type 0 where
  pub no_index : search_request p rs ≡ none
  pub no_request : find p rs ≡ none

pub record Found (p : Pointer) (rs : List Request) (i : ℕ) (r : Request) : Type 0 where
  pub at_index : search_request p rs ≡ some i
  pub the_request : find p rs ≡ some r
  pub in_vector : get_elem? rs i ≡ some r
  pub replaced : (r' : Request) → set rs i r' ≡ replace p r' rs
  pub removed : erase_at i rs ≡ remove p rs

Found-suc :
    (p : Pointer) (x : Request) (rs : List Request) {i : ℕ} {r : Request}
    → is_parent p x ≡ false
    → Found p rs i r
    → Found p (x ∷ rs) (suc i) r
unfolding find replace remove search_request erase_at
Found-suc p x rs h f = record {
  at_index = rw (h, f.at_index);
  the_request = rw (h, f.the_request);
  in_vector = f.in_vector;
  replaced = λ r'. rw (h, f.replaced r');
  removed = rw (h, f.removed);
}

-- A search finds nothing, or an index at which the request of the parent stands.
pub search_cases :
    (p : Pointer) (rs : List Request) → Missed p rs ⊎ ((i : ℕ) × (r : Request) × Found p rs i r)
unfolding find replace remove search_request erase_at
search_cases p [] = inl (record { no_index = refl; no_request = refl })
search_cases p (x ∷ rs) = elim (Bool-cases (is_parent p x)) [
  | inl e ↦ inr (
    0,
    x,
    record {
      at_index = rw e;
      the_request = rw e;
      in_vector = refl;
      replaced = λ r'. rw e;
      removed = rw e;
    },
  )
  | inr e ↦ elim (search_cases p rs) [
    | inl m ↦ inl (record { no_index = rw (e, m.no_index); no_request = rw (e, m.no_request) })
    | inr (i, r, f) ↦ inr (suc i, r, Found-suc p x rs e f)
  ]
]

pub located-Missed :
    (p : Pointer) (s : System) → Missed p s.request_vector → located p s ≡ throw request_not_found
unfolding located
located-Missed p s m = rw (m.no_index, located)

pub located-Found :
    (p : Pointer) (s : System) (i : ℕ) (r : Request)
    → Found p s.request_vector i r
    → located p s ≡ ok (i, r)
unfolding located
located-Found p s i r f = ground (arith, f.at_index, f.in_vector)

pub find_fresh : (p : Pointer) (rs : List Request) → IsFresh p rs → find p rs ≡ none
unfolding find
find_fresh p [] h = refl
find_fresh p (r ∷ rs) h = ground (arith, find_fresh p rs h.1)

find-append :
    (q : Pointer) (rs : List Request) (r : Request)
    → find q (rs ++ r ∷ [])
      ≡ elim (find q rs) [ some x ↦ some x | none ↦ if is_parent q r then some r else none ]
unfolding find
find-append q [] r = refl
find-append q (x ∷ rs) r = ground (arith, find-append q rs r)

-- A new request is found by its parent unless the parent had one, and by nobody else.
pub find-add_request :
    (p q : Pointer) (n : ℕ) (s : System)
    → find q (add_request p n s).request_vector ≡ elim (find q s.request_vector) [
      | some r ↦ some r
      | none ↦ if p == q then some (new_request p n) else none
    ]
unfolding add_request new_request is_parent
find-add_request p q n s = ground (arith, find-append q s.request_vector (new_request p n))

-- A parent is one address.
is_parent_unique : (p q : Pointer) (r : Request) → is_parent p r ≡ true → is_parent q r ≡ (p == q)
unfolding is_parent
is_parent_unique p q r h = ground arith

find-remove :
    (p q : Pointer) (rs : List Request)
    → ParentsDiffer rs
    → find q (remove p rs) ≡ (if p == q then none else find q rs)
unfolding find remove
find-remove p q [] d = ground arith
find-remove p q (r ∷ rs) d = elim (Bool-cases (is_parent p r)) [
  | inl e ↦
      let other = is_parent_unique p q r e in
      elim (Bool-cases (p == q)) [
        | inl same ↦ rw (e, same) (find_fresh q rs (rw (← (==_iff p q).0 same) (d.0 p e)))
        | inr differ ↦ rw (e, differ, other, differ)
      ]
  | inr e ↦ elim (Bool-cases (p == q)) [
    | inl same ↦ rw (e, same) (ground (arith, find-remove p q rs d.1, (==_iff p q).0 same))
    | inr differ ↦ ground (arith, find-remove p q rs d.1)
  ]
]

-- Where the parents differ, `removeRequest` of a parent that has a request succeeds, deletes the
-- messages left in its slots, leaves the parent without a request and every other parent with its
-- own.
pub remove_request-find :
    (p q : Pointer) (s : System) (r : Request)
    → ParentsDiffer s.request_vector
    → find p s.request_vector ≡ some r
    → (s' : System) × (remove_request p s ≡ ok s')
      × (s'.deleted ≡ Request.present r.sub_requests ++ s.deleted)
      × (find q s'.request_vector ≡ (if p == q then none else find q s.request_vector))
unfolding remove_request Request.clear_sub_requests
remove_request-find p q s r d h = elim (search_cases p s.request_vector) [
  | inl m ↦ absurd (ground (arith, m.no_request))
  | inr (i, x, f) ↦
      let same : x ≡ r = ground (arith, f.the_request) in
      (
        record {
          request_vector = erase_at i s.request_vector;
          deleted = Request.present r.sub_requests ++ s.deleted;
        },
        rw (located-Found p s i x f, same),
        refl,
        rw f.removed (find-remove p q s.request_vector d),
      )
]

find-replace :
    (p q : Pointer) (r r' : Request) (rs : List Request)
    → find p rs ≡ some r
    → r'.parent_request ≡ r.parent_request
    → find q (replace p r' rs) ≡ (if p == q then some r' else find q rs)
unfolding find replace is_parent
find-replace p q r r' [] h k = ground arith
find-replace p q r r' (x ∷ rs) h k = ground (arith, find-replace p q r r' rs)

-- How an arrival changes the table.
pub replace-Found :
    (p : Pointer) (s : System) (i : ℕ) (r r' : Request)
    → Found p s.request_vector i r
    → r'.parent_request ≡ r.parent_request
    → (q : Pointer)
    → find q (set s.request_vector i r') ≡ (if p == q then some r' else find q s.request_vector)
replace-Found p s i r r' f k q =
    rw (f.replaced r') (find-replace p q r r' s.request_vector f.the_request k)

is_parent_sound : (p : Pointer) (r : Request) → is_parent p r ≡ true → r.parent_request ≡ some p
unfolding is_parent
is_parent_sound p r h = ground arith
