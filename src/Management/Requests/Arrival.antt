-- ===== src/Management/Requests/Arrival.antt =====
-- The arrival of requests while a scheduler blocks the queue and afterwards.
use mathlib.Core.List.{append_assoc, append-nil}
use docker_sim.Prelude.{
  ◌≡◌, refl, sym, ap, ◌∙◌, ◌⊎◌, inl, inr, Bool, true, List, [], ◌∷◌, ◌++◌, if-true, if-false,
  Bool-cases, subst,
}
use docker_sim.Management.Requests.{
  CloudRequest, Requests, initialize, scheduler_block, scheduler_unblock, user_send_request,
  block_arrival_requests,
}

pub data Event : Type 0 where
  send : CloudRequest → Event
  block unblock : Event

unfoldable pub handle : Event → Requests → Requests
handle (send r) s = user_send_request r s
handle block s = (scheduler_block s).1
handle unblock s = (scheduler_unblock s).1

unfoldable pub run : List Event → Requests → Requests
run [] s = s
run (e ∷ es) s = run es (handle e s)

unfoldable pub sent : List Event → List CloudRequest
sent [] = []
sent (send r ∷ es) = r ∷ sent es
sent (block ∷ es) = sent es
sent (unblock ∷ es) = sent es

-- All requests in the order of service.
abbrev pub all_requests : Requests → List CloudRequest
all_requests s = s.requests_queue ++ s.temporal_requests_queue

-- Requests wait aside only while the queue is blocked.
abbrev pub Aside : Requests → Type 0
Aside s = (s.temporal_requests_queue ≡ []) ⊎ (s.scheduler_queue_blocked ≡ true)

-- The requests of `s`, and then `more`, are those of `t`.
abbrev Kept : Requests → List CloudRequest → Requests → Type 0
Kept s more t = (all_requests t ≡ all_requests s ++ more) × Aside t

send-Kept : (r : CloudRequest) (s : Requests) → Aside s → Kept s (r ∷ []) (user_send_request r s)
unfolding user_send_request
send-Kept r s a = elim (Bool-cases s.scheduler_queue_blocked) [
  | inl b ↦
      subst (Kept s (r ∷ [])) (sym (if-true _ _ b))
        (sym (append_assoc s.requests_queue s.temporal_requests_queue (r ∷ [])), inr b)
  | inr b ↦
      let empty : s.temporal_requests_queue ≡ [] = elim a [ inl e ↦ e | inr c ↦ cc ] in
      subst (Kept s (r ∷ [])) (sym (if-false _ _ b))
        (simp (empty, append-nil, append_assoc), inl empty)
]

block-Kept : (s : Requests) → Aside s → Kept s [] (scheduler_block s).1
unfolding scheduler_block block_arrival_requests
block-Kept s a = elim (Bool-cases s.scheduler_queue_blocked) [
  | inl b ↦
      subst {A = Bool × Requests} (λ p. Kept s [] p.1) (sym (if-true _ _ b))
        (sym (append-nil (all_requests s)), a)
  | inr b ↦
      subst {A = Bool × Requests} (λ p. Kept s [] p.1) (sym (if-false _ _ b))
        (sym (append-nil (all_requests s)), inr refl)
]

unblock-Kept : (s : Requests) → Kept s [] (scheduler_unblock s).1
unfolding scheduler_unblock block_arrival_requests
unblock-Kept s = (refl, inl refl)

handle-Kept :
    (e : Event) (es : List Event) (s : Requests)
    → Aside s
    → (all_requests (handle e s) ++ sent es ≡ all_requests s ++ sent (e ∷ es)) × Aside (handle e s)
unfolding handle sent
handle-Kept (send r) es s a =
    let (k, b) = send-Kept r s a in
    (ap (λ l. l ++ sent es) k ∙ append_assoc (all_requests s) (r ∷ []) (sent es), b)
handle-Kept block es s a =
    let (k, b) = block-Kept s a in (ap (λ l. l ++ sent es) (k ∙ append-nil (all_requests s)), b)
handle-Kept unblock es s a =
    let (k, b) = unblock-Kept s in (ap (λ l. l ++ sent es) (k ∙ append-nil (all_requests s)), b)

run-Kept :
    (es : List Event) (s : Requests)
    → Aside s
    → (all_requests (run es s) ≡ all_requests s ++ sent es) × Aside (run es s)
unfolding run sent
run-Kept [] s a = (sym (append-nil (all_requests s)), a)
run-Kept (e ∷ es) s a =
    let (k, b) = handle-Kept e es s a in let (k', b') = run-Kept es (handle e s) b in (k' ∙ k, b')

-- After any sequence of requests sent, blocks and unblocks, the queue and then the requests that
-- wait aside are the requests sent, in their order, and requests wait aside only while the queue is
-- blocked.
pub arrival_order :
    (es : List Event) → (all_requests (run es initialize) ≡ sent es) × Aside (run es initialize)
arrival_order es = run-Kept es initialize (inl refl)
