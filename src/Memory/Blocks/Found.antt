-- ===== src/Memory/Blocks/Found.antt =====
-- The search for a block and its reinsertion against the order of last use.
use docker_sim.Prelude.{
  same_name, ℕ, zero, suc, ◌/◌, ◌≤◌, ◌≡◌, refl, sym, ap, ◌∙◌, ◌⊎◌, inl, inr, Bool, true, false,
  ◌&&◌, Option, none, some, List, [], ◌∷◌, length, get_elem?, ◌==◌, if◌then◌else◌, arith,
  Bool-cases, ==_iff, ==_refl, if-true, if-false,
}
use Prim.Native.String.{String}
use Prim.Native.Nat.{Ordering}
use text.Mathlib.TextPositions.{compare_refl}
use text.Mathlib.TextEquality.{path_by_compare}
use docker_sim.Memory.Blocks.{
  MemoryBlock, ok, ◌>>=◌, is_requested, search_block, set_is_pending, is_same, take_block,
  re_insert_block, pop_back,
}

-- The blocks a list holds, by file and number, the one used last first.
abbrev pub Key : Type 0
Key = String × ℕ

abbrev pub key : ℕ → MemoryBlock → Key
key size b = (b.file_name, b.offset / size)

unfoldable pub keys : ℕ → List MemoryBlock → List Key
keys size [] = []
keys size (b ∷ bs) = key size b ∷ keys size bs

-- The same list without the first entry for block `n` of a file.
unfoldable pub without : String → ℕ → List Key → List Key
without file n [] = []
without file n (k ∷ ks) = if same_name file k.0 && (k.1 == n) then ks else k ∷ without file n ks

unfoldable pub take_keys : ℕ → List Key → List Key
take_keys zero ks = []
take_keys (suc n) [] = []
take_keys (suc n) (k ∷ ks) = k ∷ take_keys n ks

unfoldable pub erase_block : ℕ → List MemoryBlock → List MemoryBlock
erase_block i [] = []
erase_block zero (b ∷ bs) = bs
erase_block (suc i) (b ∷ bs) = b ∷ erase_block i bs

-- Block `i` is the first in the list that is block `n` of the file.
abbrev pub FirstFound : ℕ → String → ℕ → ℕ → MemoryBlock → List MemoryBlock → Type 0
FirstFound size file n i x [] = ⊥
FirstFound size file n zero x (b ∷ bs) = (is_requested size file n b ≡ true) × (b ≡ x)
FirstFound size file n (suc i) x (b ∷ bs) =
    (is_requested size file n b ≡ false) × FirstFound size file n i x bs

abbrev pub NoneFound : ℕ → String → ℕ → List MemoryBlock → Type 0
NoneFound size file n [] = Unit {0}
NoneFound size file n (b ∷ bs) = (is_requested size file n b ≡ false) × NoneFound size file n bs

pub search_block_cases :
    (size : ℕ) (file : String) (n : ℕ) (bs : List MemoryBlock)
    → ((search_block size file n bs ≡ none) × NoneFound size file n bs)
      ⊎ ((i : ℕ) × (x : MemoryBlock) × (search_block size file n bs ≡ some i)
          × (get_elem? bs i ≡ some x)
          × FirstFound size file n i x bs)
unfolding search_block
search_block_cases size file n [] = inl (refl, tt)
search_block_cases size file n (b ∷ bs) = elim (Bool-cases (is_requested size file n b)) [
  | inl h ↦ inr (0, b, if-true _ _ h, refl, (h, refl))
  | inr h ↦ elim (search_block_cases size file n bs) [
    | inl (e, f) ↦
        inl (if-false _ _ h ∙ ap (λ o. elim o [ none ↦ none | some i ↦ some (suc i) ]) e, (h, f))
    | inr (i, x, e, g, f) ↦ inr (
      suc i,
      x,
      if-false _ _ h ∙ ap (λ o. elim o [ none ↦ none | some i ↦ some (suc i) ]) e,
      g,
      (h, f),
    )
  ]
]

is_eq : (o : Ordering) → (elim o [ Ordering.eq ↦ true | _ ↦ false ]) ≡ true → o ≡ Ordering.eq
is_eq Ordering.lt h = cc
is_eq Ordering.eq h = refl
is_eq Ordering.gt h = cc

same_name_refl : (a : String) → same_name a a ≡ true
unfolding same_name
same_name_refl a = ap (λ o. elim o [ Ordering.eq ↦ true | _ ↦ false ]) (compare_refl a)

same_name-eq : (a b : String) → same_name a b ≡ true → a ≡ b
unfolding same_name
same_name-eq a b h = path_by_compare a b (is_eq _ h)

and_true : (a b : Bool) → (a && b) ≡ true → (a ≡ true) × (b ≡ true)
and_true true b h = (refl, h)
and_true false b h = cc

is_same_refl : (b : MemoryBlock) → is_same b b ≡ true
unfolding is_same
is_same_refl b = simp (same_name_refl, ==_refl)

is_same-same :
    (x b : MemoryBlock) → is_same x b ≡ true → (x.file_name ≡ b.file_name) × (x.offset ≡ b.offset)
unfolding is_same
is_same-same x b h =
    let (f, o) = and_true (same_name x.file_name b.file_name) (x.offset == b.offset) h in
    (same_name-eq x.file_name b.file_name f, (==_iff x.offset b.offset).0 o)

-- A block that is not requested is not the same as one that is.
requested_differs :
    (size : ℕ) (file : String) (n : ℕ) (x b : MemoryBlock)
    → is_requested size file n x ≡ true
    → is_requested size file n b ≡ false
    → is_same x b ≡ false
unfolding is_requested
requested_differs size file n x b h k = elim (Bool-cases (is_same x b)) [
  | inl e ↦
      let (f, o) = is_same-same x b e in
      let wrong : true ≡ false =
        sym h
        ∙ ap (λ name. same_name file name && ((x.offset / size) == n)) f
        ∙ ap (λ off. same_name file b.file_name && ((off / size) == n)) o
        ∙ k in
      cc
  | inr e ↦ e
]

pub FirstFound-requested :
    (size : ℕ) (file : String) (n i : ℕ) (x : MemoryBlock) (bs : List MemoryBlock)
    → FirstFound size file n i x bs
    → is_requested size file n x ≡ true
FirstFound-requested size file n i x [] h = elim h [ ]
FirstFound-requested size file n zero x (b ∷ bs) h = ap (is_requested size file n) (sym h.1) ∙ h.0
FirstFound-requested size file n (suc i) x (b ∷ bs) h = FirstFound-requested size file n i x bs h.1

take_block-found :
    (size : ℕ) (file : String) (n i : ℕ) (x : MemoryBlock) (bs : List MemoryBlock)
    → FirstFound size file n i x bs
    → take_block x bs ≡ some (x, erase_block i bs)
unfolding take_block erase_block
take_block-found size file n i x [] h = elim h [ ]
take_block-found size file n zero x (b ∷ bs) h =
    if-true _ _ (ap (is_same x) h.1 ∙ is_same_refl x) ∙ ap (λ c. some (c, bs)) h.1
take_block-found size file n (suc i) x (b ∷ bs) h =
    if-false _ _
      (requested_differs size file n x b (FirstFound-requested size file n i x bs h.1) h.0)
    ∙ ap (λ o. elim o [ none ↦ none | some (c, cs) ↦ some (c, b ∷ cs) ])
        (take_block-found size file n i x bs h.1)

pub re_insert_block-found :
    (size : ℕ) (file : String) (n i : ℕ) (x : MemoryBlock) (bs : List MemoryBlock)
    → FirstFound size file n i x bs
    → re_insert_block x bs ≡ x ∷ erase_block i bs
unfolding re_insert_block
re_insert_block-found size file n i x bs h =
    ap (λ o. elim o [ none ↦ bs | some (c, cs) ↦ c ∷ cs ]) (take_block-found size file n i x bs h)

-- Marking the block found leaves it the first found.
pub set_is_pending-FirstFound :
    (size : ℕ) (file : String) (n i : ℕ) (x : MemoryBlock) (bs : List MemoryBlock) (p : Bool)
    → FirstFound size file n i x bs
    → FirstFound size file n i (record x { is_pending = p }) (set_is_pending p i bs)
unfolding set_is_pending is_requested
set_is_pending-FirstFound size file n i x [] p h = h
set_is_pending-FirstFound size file n zero x (b ∷ bs) p h =
    (h.0, ap {A = MemoryBlock} {B = MemoryBlock} (λ c. record c { is_pending = p }) h.1)
set_is_pending-FirstFound size file n (suc i) x (b ∷ bs) p h =
    (h.0, set_is_pending-FirstFound size file n i x bs p h.1)

pub erase_block-set_is_pending :
    (p : Bool) (i : ℕ) (bs : List MemoryBlock)
    → erase_block i (set_is_pending p i bs) ≡ erase_block i bs
unfolding erase_block set_is_pending
erase_block-set_is_pending p i [] = refl
erase_block-set_is_pending p zero (b ∷ bs) = refl
erase_block-set_is_pending p (suc i) (b ∷ bs) = ap (◌∷◌ b) (erase_block-set_is_pending p i bs)

pub keys-erase_block :
    (size : ℕ) (file : String) (n i : ℕ) (x : MemoryBlock) (bs : List MemoryBlock)
    → FirstFound size file n i x bs
    → (keys size (erase_block i bs) ≡ without file n (keys size bs))
      × (suc (length (erase_block i bs)) ≡ length bs)
unfolding keys without erase_block is_requested
keys-erase_block size file n i x [] h = elim h [ ]
keys-erase_block size file n zero x (b ∷ bs) h = (sym (if-true _ _ h.0), refl)
keys-erase_block size file n (suc i) x (b ∷ bs) h =
    let (e, l) = keys-erase_block size file n i x bs h.1 in
    (ap (◌∷◌ (key size b)) e ∙ sym (if-false _ _ h.0), ap suc l)

pub keys-NoneFound :
    (size : ℕ) (file : String) (n : ℕ) (bs : List MemoryBlock)
    → NoneFound size file n bs
    → without file n (keys size bs) ≡ keys size bs
unfolding keys without is_requested
keys-NoneFound size file n [] h = refl
keys-NoneFound size file n (b ∷ bs) h =
    if-false _ _ h.0 ∙ ap (◌∷◌ (key size b)) (keys-NoneFound size file n bs h.1)

pub take_keys-all :
    (n size : ℕ) (bs : List MemoryBlock) → length bs ≤ n → take_keys n (keys size bs) ≡ keys size bs
unfolding take_keys keys
take_keys-all zero size [] h = refl
take_keys-all (suc n) size [] h = refl
take_keys-all zero size (b ∷ bs) h = let no : ⊥ = omega (arith, h) in elim no [ ]
take_keys-all (suc n) size (b ∷ bs) h =
    ap (◌∷◌ (key size b)) (take_keys-all n size bs (omega (arith, h)))

-- An eviction drops the block used longest ago.
pub pop_back-last :
    (size n : ℕ) (bs : List MemoryBlock)
    → length bs ≡ suc n
    → (bs' : List MemoryBlock) × (pop_back bs ≡ ok bs')
      × (keys size bs' ≡ take_keys n (keys size bs))
      × (length bs' ≡ n)
unfolding pop_back keys take_keys
pop_back-last size n [] h = let no : ⊥ = omega (arith, h) in elim no [ ]
pop_back-last size zero (b ∷ []) h = ([], refl, refl, refl)
pop_back-last size (suc n) (b ∷ []) h = let no : ⊥ = omega (arith, h) in elim no [ ]
pop_back-last size zero (b ∷ c ∷ bs) h = let no : ⊥ = omega (arith, h) in elim no [ ]
pop_back-last size (suc n) (b ∷ c ∷ bs) h =
    let le : length (c ∷ bs) ≡ suc n = omega (arith, h) in
    let (bs', e, k, l) = pop_back-last size n (c ∷ bs) le in
    (b ∷ bs', ap (λ r. r >>= (λ rest. ok (b ∷ rest))) e, ap (◌∷◌ (key size b)) k, ap suc l)

pub FirstFound-key :
    (size : ℕ) (file : String) (n i : ℕ) (x : MemoryBlock) (bs : List MemoryBlock)
    → FirstFound size file n i x bs
    → key size x ≡ (file, n)
unfolding is_requested
FirstFound-key size file n i x bs h =
    let (f, o) = and_true _ _ (FirstFound-requested size file n i x bs h) in
    let name : file ≡ x.file_name = same_name-eq file x.file_name f in
    let number : x.offset / size ≡ n = (==_iff (x.offset / size) n).0 o in
    ap (λ a. (a, x.offset / size)) (sym name) ∙ ap (λ m. (file, m)) number

pub get_elem?-set_is_pending :
    (p : Bool) (i : ℕ) (x : MemoryBlock) (bs : List MemoryBlock)
    → get_elem? bs i ≡ some x
    → get_elem? (set_is_pending p i bs) i ≡ some (record x { is_pending = p })
unfolding set_is_pending
get_elem?-set_is_pending p i x [] h = cc
get_elem?-set_is_pending p zero x (b ∷ bs) h =
    ap {A = Option MemoryBlock} {B = Option MemoryBlock}
      (λ o. elim o [ none ↦ none | some c ↦ some (record c { is_pending = p }) ]) h
get_elem?-set_is_pending p (suc i) x (b ∷ bs) h = get_elem?-set_is_pending p i x bs h
