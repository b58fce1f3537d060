-- ===== src/Splitting/System/Arrival.antt =====
-- Arrivals of subrequests: the counting protocol, isolation, and what happens to the message.
use docker_sim.Prelude.{
  word, word_small, ℕ, zero, suc, ◌+◌, ◌^◌, ◌≤◌, ◌<◌, ◌≡◌, refl, ◌∙◌, inl, inr, Option, none, some,
  List, [], ◌∷◌, ◌++◌, length, set, length-set, length-replicate, lt→ltb, ◌==◌, ==_refl,
  if◌then◌else◌, All, arith,
}
use docker_sim.Splitting.Message.{Result, ok, ◌>>=◌, Pointer, Store, Message, check_and_cast}
use docker_sim.Splitting.Request
use docker_sim.Splitting.Request.{Request, new_request, slot_at, present}
use docker_sim.Splitting.System.{
  System, add_request, remove_request, arrives_sub_request, arrives_all_sub_request, erase_at,
}
use docker_sim.Splitting.System.Find.{
  find, IsFresh, find_fresh, find-add_request, search_cases, located-Found, replace-Found,
}

-- The request after an arrival at slot `index`.
abbrev pub after_arrival : Pointer → ℕ → Request → Request
after_arrival sub index r = record r {
  sub_requests =
      set r.sub_requests index
        (elim (slot_at r.sub_requests index) [ none ↦ some sub | some _ ↦ none ]);
  arrived_sub_requests = word (r.arrived_sub_requests + 1);
}

request_arrives :
    (sub : Pointer) (index : ℕ) (r : Request)
    → index < length r.sub_requests
    → Request.arrives_sub_request sub index r ≡ ok (after_arrival sub index r)
unfolding Request.arrives_sub_request
request_arrives sub index r h = rw (lt→ltb _ _ h)

-- A subrequest that names a slot of its parent's request is accepted: the request of the parent
-- is the one after the arrival, every other request is as it was, and the message is deleted.
arrives_sub_request-find :
    (store : Store) (sub p q : Pointer) (s : System) (m : Message) (r : Request)
    → store sub ≡ some m
    → find p s.request_vector ≡ some r
    → m.current_request < length r.sub_requests
    → (s' : System) × (arrives_sub_request store sub p s ≡ ok s')
      × (s'.deleted ≡ sub ∷ s.deleted)
      × (find q s'.request_vector ≡ (
          if p == q then some (after_arrival sub m.current_request r) else find q s.request_vector))
unfolding arrives_sub_request check_and_cast
arrives_sub_request-find store sub p q s m r hm hr h = elim (search_cases p s.request_vector) [
  | inl miss ↦ absurd (ground (arith, miss.no_request))
  | inr (i, x, f) ↦
      let same : x ≡ r = ground (arith, f.the_request) in
      (
        record {
          request_vector = set s.request_vector i (after_arrival sub m.current_request r);
          deleted = sub ∷ s.deleted;
        },
        ground (arith, same, located-Found p s i x f, request_arrives sub m.current_request r h),
        refl,
        replace-Found p s i x (after_arrival sub m.current_request r) f (ground arith) q,
      )
]

-- A list of arrivals for one parent.
unfoldable pub arrive_all : Store → Pointer → List Pointer → System → Result System
arrive_all store p [] s = ok s
arrive_all store p (sub ∷ subs) s = do
  s' ← arrives_sub_request store sub p s
  arrive_all store p subs s'

-- A message that names one of `n` slots.
abbrev pub Names : Store → ℕ → Pointer → Type 0
Names store n sub = (m : Message) × (store sub ≡ some m) × (m.current_request < n)

all_arrived :
    (p : Pointer) (s : System) (r : Request)
    → find p s.request_vector ≡ some r
    → arrives_all_sub_request p s ≡ ok (r.arrived_sub_requests == length r.sub_requests)
unfolding arrives_all_sub_request Request.arrives_all_sub_request
all_arrived p s r h = elim (search_cases p s.request_vector) [
  | inl miss ↦ absurd (ground (arith, miss.no_request))
  | inr (i, x, f) ↦
      let same : x ≡ r = ground (arith, f.the_request) in rw (located-Found p s i x f, same)
]

arrive_all_counts :
    (store : Store) (p : Pointer) (n : ℕ) (subs : List Pointer) (s : System) (r : Request)
    → n < 2 ^ 32
    → find p s.request_vector ≡ some r
    → length r.sub_requests ≡ n
    → r.arrived_sub_requests + length subs ≤ n
    → All (Names store n) subs
    → (s' : System) × (arrive_all store p subs s ≡ ok s')
      × (arrives_all_sub_request p s' ≡ ok ((r.arrived_sub_requests + length subs) == n))
unfolding arrive_all
arrive_all_counts store p n [] s r w hr hn hc names =
    (s, refl, rw (all_arrived p s r hr) (ground arith))
arrive_all_counts store p n (sub ∷ subs) s r w hr hn hc ((m, hm, hi), names) =
    let r' = after_arrival sub m.current_request r in
    let (s', done, _, found) = arrives_sub_request-find store sub p p s m r hm hr (rw hn hi) in
    let here : find p s'.request_vector ≡ some r' = ground (arith, found, ==_refl p) in
    let same_length : length r'.sub_requests ≡ n = length-set r.sub_requests _ _ ∙ hn in
    let one_more : r'.arrived_sub_requests ≡ r.arrived_sub_requests + 1 =
      word_small (r.arrived_sub_requests + 1) (omega arith) in
    let (s'', rest, complete) =
      arrive_all_counts store p n subs s' r' w here same_length (omega arith) names in
    (s'', rw done rest, rw (complete, one_more) (ground arith))

-- The protocol: after a request with `n` subrequests is added for a parent that has none, any
-- list of at most `n` messages that name slots of it is accepted, and all subrequests count as
-- arrived exactly if there were `n` messages.
pub arrive_all-add_request :
    (store : Store) (p : Pointer) (n : ℕ) (subs : List Pointer) (s : System)
    → n < 2 ^ 32
    → IsFresh p s.request_vector
    → length subs ≤ n
    → All (Names store n) subs
    → (s' : System) × (arrive_all store p subs (add_request p n s) ≡ ok s')
      × (arrives_all_sub_request p s' ≡ ok (length subs == n))
unfolding new_request
arrive_all-add_request store p n subs s w fresh h names =
    let added : find p (add_request p n s).request_vector ≡ some (new_request p n) =
      rw (find-add_request p p n s, find_fresh p s.request_vector fresh) (rw (==_refl p)) in
    let (s', done, complete) =
      arrive_all_counts store p n subs (add_request p n s) (new_request p n) w added
        (length-replicate n none) (omega arith) names in
    (s', done, rw complete (ground arith))

-- How often an address stands in a list.
abbrev pub count : Pointer → List Pointer → ℕ
count p [] = 0
count p (q ∷ qs) = if p == q then suc (count p qs) else count p qs

present_slot :
    (slots : List (Option Pointer)) (i : ℕ) (sub : Pointer)
    → i < length slots
    → 1 ≤ count sub (present (set slots i (some sub)))
unfolding present
present_slot [] i sub h = elim h [ ]
present_slot (slot ∷ slots) zero sub h = ground arith
present_slot (none ∷ slots) (suc i) sub h = present_slot slots i sub (omega arith)
present_slot (some q ∷ slots) (suc i) sub h = ground (arith, present_slot slots i sub)

count-append : (p : Pointer) (xs ys : List Pointer) → count p (xs ++ ys) ≡ count p xs + count p ys
count-append p [] ys = omega arith
count-append p (x ∷ xs) ys = ground (arith, count-append p xs ys)

-- When a message arrives at an empty slot, and the request is removed later, the message is
-- deleted twice: the arrival deletes it and leaves its address in the slot, and the removal
-- deletes what is in the slots.
pub deleted_twice :
    (store : Store) (sub p : Pointer) (s : System) (m : Message) (r : Request)
    → store sub ≡ some m
    → find p s.request_vector ≡ some r
    → m.current_request < length r.sub_requests
    → slot_at r.sub_requests m.current_request ≡ none
    → (s' s'' : System) × (arrives_sub_request store sub p s ≡ ok s')
      × (remove_request p s' ≡ ok s'')
      × (2 ≤ count sub s''.deleted)
unfolding Request.clear_sub_requests remove_request
deleted_twice store sub p s m r hm hr h empty =
    let r' = after_arrival sub m.current_request r in
    let (s', done, gone, found) = arrives_sub_request-find store sub p p s m r hm hr h in
    let here : find p s'.request_vector ≡ some r' = ground (arith, found, ==_refl p) in
    elim (search_cases p s'.request_vector) [
      | inl miss ↦ absurd (ground (arith, miss.no_request))
      | inr (i, x, f) ↦
          let same : x ≡ r' = ground (arith, f.the_request) in
          (
            s',
            record {
              request_vector = erase_at i s'.request_vector;
              deleted = present r'.sub_requests ++ s'.deleted;
            },
            done,
            ground (arith, located-Found p s' i x f),
            ground (
              arith,
              gone,
              count-append sub (present r'.sub_requests) s'.deleted,
              present_slot r.sub_requests m.current_request sub h,
              ==_refl sub,
            ),
          )
    ]
