-- ===== src/Management/Tenants/End.antt =====
-- The end of the data centre: no user is admitted, and the users leave.
use docker_sim.Prelude.{
  ℕ, suc, ◌+◌, ◌-◌, ◌≤◌, ◌≡◌, refl, sym, ap, ◌∙◌, true, false, ◌&&◌, List, [], ◌∷◌, ℤ, ◌==ℤ◌,
  ==ℤ_refl, ==ℤ_iff, if◌then◌else◌, if-true, if-false, Bool-cases, inl, inr, ◌⊎◌, arith, length,
  ◌==◌,
}
use mathlib.Core.Bool.{true≢false}
use docker_sim.Management.Tenants.{
  Tenant, Call, UserManagement, erase_user, delete_user, check_finalization,
}

-- How often an identifier stands in a list.
abbrev pub times : ℤ → List ℤ → ℕ
times user_id [] = 0
times user_id (i ∷ is) = if i ==ℤ user_id then suc (times user_id is) else times user_id is

abbrev pub user_ids : List Tenant → List ℤ
user_ids [] = []
user_ids (t ∷ ts) = t.user.user_id ∷ user_ids ts

unfoldable pub delete_users : List ℤ → UserManagement → UserManagement
delete_users [] s = s
delete_users (i ∷ is) s = delete_users is (delete_user i s)

differ : {u i j : ℤ} → u ≡ j → i ≡ j → (u ==ℤ i) ≡ false → ⊥
differ {u} {i} h k n = true≢false (sym ((==ℤ_iff u i).1 (h ∙ sym k)) ∙ n)

one_too_many : {m n : ℕ} → m ≤ 0 → m ≡ suc n → ⊥
one_too_many h k = omega arith

times-same : (j i : ℤ) (is : List ℤ) → (i ==ℤ j) ≡ true → times j (i ∷ is) ≡ suc (times j is)
times-same j i is h = if-true _ _ h

times-other : (j i : ℤ) (is : List ℤ) → (i ==ℤ j) ≡ false → times j (i ∷ is) ≡ times j is
times-other j i is h = if-false _ _ h

times-cons : (j i : ℤ) (is : List ℤ) → times j (i ∷ is) ≡ times j (i ∷ []) + times j is
times-cons j i is = elim (Bool-cases (i ==ℤ j)) [
  | inl h ↦ omega (arith, times-same j i is h, times-same j i [] h)
  | inr h ↦ omega (arith, times-other j i is h, times-other j i [] h)
]

-- One user less has the identifier, and as many as before have another one.
times-erase_user :
    (i j : ℤ) (ts : List Tenant)
    → times j (user_ids (erase_user i ts).0) ≡ times j (user_ids ts) - times j (i ∷ [])
unfolding erase_user
times-erase_user i j [] = omega arith
times-erase_user i j (t ∷ ts) =
    let left : List Tenant × List Call → ℕ = λ r. times j (user_ids r.0) in
    let u : ℤ = t.user.user_id in
    let split = times-cons j u (user_ids ts) in
    elim (Bool-cases (u ==ℤ i)) [
      | inl h ↦
          let same : times j (u ∷ []) ≡ times j (i ∷ []) =
            ap (λ k. times j (k ∷ [])) ((==ℤ_iff u i).0 h) in
          ap left (if-true _ _ h) ∙ omega (arith, same, split)
      | inr h ↦
          let later = times-erase_user i j ts in
          let split_left = times-cons j u (user_ids (erase_user i ts).0) in
          let apart : (times j (u ∷ []) ≡ 0) ⊎ (times j (i ∷ []) ≡ 0) =
            elim (Bool-cases (u ==ℤ j)) [
              | inr k ↦ inl (times-other j u [] k)
              | inl k ↦ inr (elim (Bool-cases (i ==ℤ j)) [
                | inr l ↦ times-other j i [] l
                | inl l ↦ elim (differ ((==ℤ_iff u j).0 k) ((==ℤ_iff i j).0 l) h) [ ]
              ])
            ] in
          ap left (if-false _ _ h) ∙ elim apart [
            | inl z ↦ omega (arith, later, split, split_left, z)
            | inr z ↦ omega (arith, later, split, split_left, z)
          ]
    ]

empty-length : (ts : List Tenant) → ((j : ℤ) → times j (user_ids ts) ≤ 0) → (length ts == 0) ≡ true
empty-length [] covers = refl
empty-length (t ∷ ts) covers =
    let u : ℤ = t.user.user_id in
    elim (one_too_many (covers u) (times-same u u (user_ids ts) (==ℤ_refl u))) [ ]

-- When no user is admitted any more, and users are deleted by their identifiers, in any order, each
-- identifier at least as often as it stands in the list of users, then the data centre is found to
-- have ended.
pub delete_users-check_finalization :
    (ids : List ℤ) (s : UserManagement)
    → s.no_more_users ≡ true
    → ((j : ℤ) → times j (user_ids s.user_list) ≤ times j ids)
    → check_finalization (delete_users ids s) ≡ true
unfolding check_finalization delete_users delete_user
delete_users-check_finalization [] s final covers =
    ap (λ b. b && length s.user_list == 0) final ∙ empty-length s.user_list covers
delete_users-check_finalization (i ∷ is) s final covers =
    delete_users-check_finalization is (delete_user i s) final
      (λ j. omega (arith, covers j, times-erase_user i j s.user_list, times-cons j i is))
