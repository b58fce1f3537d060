-- ===== src/Management/Machines/Names.antt =====
-- The name of a set of machines, its position, and its index.
use Prim.Native.String.{String}
use docker_sim.Prelude.{
  ℕ, zero, suc, ◌+◌, ◌≡◌, refl, sym, ap, ◌∙◌, none, some, [], ◌∷◌, ◌++◌, ℤ, pos, negsuc,
  get_elem?-append, length-append, same_name, Result, ok, err, ◌>>=◌, runtime_error, Result-cases,
  inl, inr, if◌then◌else◌, if-true, if-false, Bool-cases, arith, length,
}
use mathlib.Core.List.{append_assoc}
use docker_sim.Management.Machines.{
  HeterogeneousSet, MachinesMap, set_identifier, by_name, by_index, is_set_from, is_set, index_from,
  get_set_index,
}

-- A round of the loops that look for a name.
abbrev chosen {ℓ} : {A : Type ℓ} → String → Result A → Result A → String → Result A
chosen machine_set_id here later name = if same_name name machine_set_id then here else later

pub by_index-append {ℓ} :
    {A : Type ℓ} (f : HeterogeneousSet → Result A) (before later : MachinesMap)
    (s : HeterogeneousSet)
    → by_index (pos (length before)) f (before ++ s ∷ later) ≡ f s
unfolding by_index
by_index-append f before later s =
    ap (λ o. elim o [ none ↦ err runtime_error | some s ↦ f s ]) (get_elem?-append before later s)

-- `by_name` behind some sets, and the position in the whole map.
by_name-behind {ℓ} :
    {A : Type ℓ} (name : String) (f : HeterogeneousSet → Result A) (before m : MachinesMap)
    → by_name name f m ≡ is_set_from (length before) name m >>= (λ p. by_index p f (before ++ m))
unfolding by_name is_set_from by_index
by_name-behind name f before [] = refl
by_name-behind {A = A} name f before (s ∷ m) =
    let whole : MachinesMap = before ++ s ∷ m in
    let n : ℕ = length before in
    let at : Result ℤ → Result A = λ r. r >>= (λ p. by_index p f whole) in
    let later : by_name name f m ≡ at (is_set_from (suc n) name m) =
      by_name-behind name f (before ++ s ∷ []) m
      ∙ ap (λ k. is_set_from k name m >>= (λ p. by_index p f ((before ++ s ∷ []) ++ m)))
          (length-append before (s ∷ []) ∙ (let one : n + 1 ≡ suc n = omega arith in one))
      ∙ ap (λ w. is_set_from (suc n) name m >>= (λ p. by_index p f w))
          (append_assoc before (s ∷ []) m) in
    let left : Result String → Result A = λ r. r >>= chosen name (f s) (by_name name f m) in
    let right : Result String → Result A =
      λ r. at (r >>= chosen name (ok (pos n)) (is_set_from (suc n) name m)) in
    elim (Result-cases (set_identifier s)) [
      | inr (e, h) ↦ ap left h ∙ sym (ap right h)
      | inl (id, h) ↦
          ap left h
          ∙ elim (Bool-cases (same_name id name)) [
            | inl k ↦
                if-true _ _ k ∙ sym (by_index-append f before m s) ∙ sym (ap at (if-true _ _ k))
            | inr k ↦ if-false _ _ k ∙ later ∙ sym (ap at (if-false _ _ k))
          ]
          ∙ sym (ap right h)
    ]

-- One less than a position.
abbrev pub less_one : ℕ → ℤ
less_one zero = negsuc 0
less_one (suc n) = pos n

abbrev pub index_of_position : ℤ → Result ℤ
index_of_position (pos n) = ok (less_one n)
index_of_position (negsuc n) = err runtime_error

next_less_one :
    (i : ℕ) → elim (less_one i) [ negsuc n ↦ pos 0 | pos n ↦ pos (suc n) ] ≡ less_one (suc i)
next_less_one zero = refl
next_less_one (suc i) = refl

index_from-is_set_from :
    (i : ℕ) (name : String) (m : MachinesMap)
    → index_from (less_one i) name m ≡ is_set_from i name m >>= index_of_position
unfolding index_from is_set_from
index_from-is_set_from i name [] = refl
index_from-is_set_from i name (s ∷ m) =
    let next : ℤ → ℤ = λ j. elim j [ negsuc n ↦ pos 0 | pos n ↦ pos (suc n) ] in
    let at : Result ℤ → Result ℤ = λ r. r >>= index_of_position in
    let left : Result String → Result ℤ =
      λ r. r >>= chosen name (ok (less_one i)) (index_from (next (less_one i)) name m) in
    let right : Result String → Result ℤ =
      λ r. at (r >>= chosen name (ok (pos i)) (is_set_from (suc i) name m)) in
    let later : index_from (next (less_one i)) name m ≡ at (is_set_from (suc i) name m) =
      ap (λ j. index_from j name m) (next_less_one i) ∙ index_from-is_set_from (suc i) name m in
    elim (Result-cases (set_identifier s)) [
      | inr (e, h) ↦ ap left h ∙ sym (ap right h)
      | inl (id, h) ↦
          ap left h
          ∙ elim (Bool-cases (same_name id name)) [
            | inl k ↦ if-true _ _ k ∙ sym (ap at (if-true _ _ k))
            | inr k ↦ if-false _ _ k ∙ later ∙ sym (ap at (if-false _ _ k))
          ]
          ∙ sym (ap right h)
    ]

-- For every query of a set, asking by the name of the set is asking by the position that `isSet`
-- gives for the name, errors included. `getSetIndex` gives one less than that position, and an
-- exception when there is no set of the name.
pub by_name-is_set {ℓ} :
    {A : Type ℓ} (name : String) (f : HeterogeneousSet → Result A) (m : MachinesMap)
    → (by_name name f m ≡ is_set name m >>= (λ p. by_index p f m))
      × (get_set_index name m ≡ is_set name m >>= index_of_position)
unfolding is_set get_set_index
by_name-is_set name f m = (by_name-behind name f [] m, index_from-is_set_from 0 name m)
