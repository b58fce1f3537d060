-- ===== src/Management/Requests/Index.antt =====
-- Requests by position, and by user.
use docker_sim.Prelude.{
  ℕ, zero, suc, ◌<◌, ◌≡◌, refl, ap, ◌∙◌, true, Option, some, List, [], ◌∷◌, length, get_elem?, ltb,
  lt→ltb, if-true, arith,
}
use docker_sim.Management.Requests.{
  CloudRequest, Requests, insert_at, erase_at, reinsert_request, get_request_by_index,
  erase_request,
}

insert_at-laws :
    (i : ℕ) (r : CloudRequest) (rs : List CloudRequest)
    → i < length rs
    → (length (insert_at i r rs) ≡ suc (length rs))
      × (get_elem? (insert_at i r rs) i ≡ some r)
      × (erase_at i (insert_at i r rs) ≡ rs)
unfolding insert_at erase_at
insert_at-laws i r [] h = let no : ⊥ = omega (arith, h) in elim no [ ]
insert_at-laws zero r (x ∷ rs) h = (refl, refl, refl)
insert_at-laws (suc i) r (x ∷ rs) h =
    let (l, g, e) = insert_at-laws i r rs (omega (arith, h)) in (ap suc l, g, ap (◌∷◌ x) e)

-- A request that is put back at a position of the queue is found there, and erasing the position
-- gives the queue as it was.
pub erase_request-reinsert_request :
    (r : CloudRequest) (index : ℕ) (s : Requests)
    → index < length s.requests_queue
    → (get_request_by_index index (reinsert_request r index s) ≡ some r)
      × (erase_request index (reinsert_request r index s) ≡ some s)
unfolding get_request_by_index erase_request reinsert_request
erase_request-reinsert_request r index s h =
    let inside : ltb index (length s.requests_queue) ≡ true =
      lt→ltb index (length s.requests_queue) h in
    let (l, g, e) = insert_at-laws index r s.requests_queue h in
    let still : ltb index (length (insert_at index r s.requests_queue)) ≡ true =
      lt→ltb _ _ (omega (arith, l, h)) in
    (
      ap (get_request_by_index index) (if-true _ _ inside) ∙ if-true _ _ still ∙ g,
      ap (erase_request index) (if-true _ _ inside)
          ∙ if-true _ _ still
          ∙ ap {A = List CloudRequest} {B = Option Requests}
              (λ q. some (record s { requests_queue = q })) e,
    )
