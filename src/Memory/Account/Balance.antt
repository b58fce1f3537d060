-- ===== src/Memory/Account/Balance.antt =====
-- The account against the allocations that are alive.
use docker_sim.Prelude.{
  ℕ, ◌+◌, ◌-◌, ◌*◌, ◌/◌, ◌^◌, ◌≤◌, ◌<◌, ◌≡◌, refl, sym, ap, ◌∙◌, ◌⊎◌, inl, inr, false, none, some,
  List, [], ◌∷◌, ◌++◌, ltb, leb, ◌==◌, if-true, if-false, Bool-cases, word, word_small, word-lt,
  ge→ltb, subst, ◌||◌, arith,
}
use native.Mathlib.Nat.{div-le_self}
use mathlib.Core.Option.{none-ne-some, some-injective}
use docker_sim.Memory.Account.{
  Account, icancloud_ok, not_enough_memory, initialize, required_blocks, allocate, release,
  switch_off,
}

-- The blocks of the allocations of these sizes.
unfoldable pub blocks : List ℕ → Account → ℕ
blocks [] a = 0
blocks (m ∷ ms) a = required_blocks m a + blocks ms a

-- The states that a memory reaches, with the sizes of the allocations that are alive: a message of
-- release gives back one of them, and switching off ends all.
pub data Reachable (size_mb block_size_kb : ℕ) : Account → List ℕ → Type 0 where
  start :
      {a : Account}
      → initialize size_mb block_size_kb ≡ some a
      → Reachable size_mb block_size_kb a []
  granted :
      {a b : Account} {ms : List ℕ} (m : ℕ)
      → Reachable size_mb block_size_kb a ms
      → allocate m a ≡ (icancloud_ok, b)
      → Reachable size_mb block_size_kb b (m ∷ ms)
  refused :
      {a b : Account} {ms : List ℕ} (m : ℕ)
      → Reachable size_mb block_size_kb a ms
      → allocate m a ≡ (not_enough_memory, b)
      → Reachable size_mb block_size_kb b ms
  released :
      {a : Account} (xs ys : List ℕ) (m : ℕ)
      → Reachable size_mb block_size_kb a (xs ++ m ∷ ys)
      → Reachable size_mb block_size_kb (release m a) (xs ++ ys)
  off :
      {a : Account} {ms : List ℕ}
      → Reachable size_mb block_size_kb a ms
      → Reachable size_mb block_size_kb (switch_off a) []

pub record Balanced (a : Account) (ms : List ℕ) : Type 0 where
  pub balance : a.free_app_blocks + blocks ms a ≡ a.total_blocks
  pub small : a.total_blocks < 2 ^ 32

blocks-middle :
    (xs ys : List ℕ) (m : ℕ) (a : Account)
    → blocks (xs ++ m ∷ ys) a ≡ blocks (xs ++ ys) a + required_blocks m a
unfolding blocks
blocks-middle [] ys m a = omega arith
blocks-middle (x ∷ xs) ys m a = omega (arith, blocks-middle xs ys m a)

-- The blocks of a list depend on the size of a block alone.
blocks-same :
    (ms : List ℕ) (a b : Account) → a.block_size_kb ≡ b.block_size_kb → blocks ms a ≡ blocks ms b
unfolding blocks required_blocks
blocks-same [] a b h = refl
blocks-same (m ∷ ms) a b h =
    ap (λ k. m / k + blocks ms a) h ∙ ap (λ n. m / b.block_size_kb + n) (blocks-same ms a b h)

-- A granted allocation takes its blocks, a refused one changes nothing and asks for more than
-- there are.
pub allocate-cases :
    (m : ℕ) (a : Account)
    → ((allocate m a
          ≡ (icancloud_ok, record a { free_app_blocks = a.free_app_blocks - required_blocks m a }))
        × (required_blocks m a ≤ a.free_app_blocks))
      ⊎ ((allocate m a ≡ (not_enough_memory, a)) × (a.free_app_blocks < required_blocks m a))
unfolding allocate
allocate-cases m a = elim (Bool-cases (leb (required_blocks m a) a.free_app_blocks)) [
  | inl h ↦ inl (if-true _ _ h, ground (arith, h))
  | inr h ↦ inr (if-false _ _ h, ground (arith, h))
]

start-Balanced :
    (size_mb block_size_kb : ℕ) (a : Account)
    → initialize size_mb block_size_kb ≡ some a
    → Balanced a []
unfolding initialize blocks
start-Balanced size_mb block_size_kb a h =
    elim (Bool-cases ((block_size_kb == 0) || (size_mb == 0))) [
      | inl wrong ↦
          let no : none ≡ some a = sym (if-true _ _ wrong) ∙ h in elim (none-ne-some a no) [ ]
      | inr right ↦
          subst (λ c. Balanced c []) (some-injective _ a (sym (if-false _ _ right) ∙ h))
            (record {
              balance = omega arith;
              small = omega (
                arith,
                div-le_self (word (size_mb * 1000)) block_size_kb,
                word-lt (size_mb * 1000),
              );
            })
    ]

release-Balanced :
    (xs ys : List ℕ) (m : ℕ) (a : Account)
    → Balanced a (xs ++ m ∷ ys)
    → Balanced (release m a) (xs ++ ys)
unfolding release
release-Balanced xs ys m a v =
    let sum : a.free_app_blocks + required_blocks m a + blocks (xs ++ ys) a ≡ a.total_blocks =
      omega (arith, blocks-middle xs ys m a, v.balance) in
    let exact : word (a.free_app_blocks + required_blocks m a)
        ≡ a.free_app_blocks + required_blocks m a =
      word_small _ (omega (arith, sum, v.small)) in
    let under : ltb a.total_blocks (word (a.free_app_blocks + required_blocks m a)) ≡ false =
      ge→ltb _ _ (omega (arith, exact, sum)) in
    let same : blocks (xs ++ ys) (release m a) ≡ blocks (xs ++ ys) a =
      blocks-same (xs ++ ys) (release m a) a refl in
    record {
      balance =
          ap (λ n. n + blocks (xs ++ ys) (release m a)) (if-false _ _ under ∙ exact)
          ∙ ap (λ n. a.free_app_blocks + required_blocks m a + n) same
          ∙ sum;
      small = v.small;
    }

required_blocks-same :
    (m : ℕ) (a : Account) (n : ℕ)
    → required_blocks m (record a { free_app_blocks = n }) ≡ required_blocks m a
unfolding required_blocks
required_blocks-same m a n = refl

granted-Balanced :
    (m : ℕ) (a b : Account) (ms : List ℕ)
    → Balanced a ms
    → allocate m a ≡ (icancloud_ok, b)
    → Balanced b (m ∷ ms)
unfolding blocks
granted-Balanced m a b ms v h = elim (allocate-cases m a) [
  | inl (e, le) ↦
      let next = record a { free_app_blocks = a.free_app_blocks - required_blocks m a } in
      let same : blocks ms next ≡ blocks ms a = blocks-same ms next a refl in
      let one : required_blocks m next ≡ required_blocks m a = required_blocks-same m a _ in
      subst (λ c. Balanced c (m ∷ ms)) (ap (λ p. p.1) (sym e ∙ h))
        (record { balance = omega (arith, le, v.balance, same, one); small = v.small })
  | inr (e, lt) ↦ let no : not_enough_memory ≡ icancloud_ok = ap (λ p. p.0) (sym e ∙ h) in cc
]

refused_same : (m : ℕ) (a b : Account) → allocate m a ≡ (not_enough_memory, b) → a ≡ b
refused_same m a b h = elim (allocate-cases m a) [
  | inl (e, le) ↦ let no : icancloud_ok ≡ not_enough_memory = ap (λ p. p.0) (sym e ∙ h) in cc
  | inr (e, lt) ↦ ap (λ p. p.1) (sym e ∙ h)
]

-- In every state that a memory reaches, when each release gives back an allocation that is alive,
-- the free blocks and those of the allocations that are alive add up to the blocks of the memory,
-- which are fewer than 2 ^ 32.
pub Reachable-Balanced :
    (size_mb block_size_kb : ℕ) (a : Account) (ms : List ℕ)
    → Reachable size_mb block_size_kb a ms
    → Balanced a ms
unfolding blocks switch_off
Reachable-Balanced size_mb block_size_kb a ms (start h) = start-Balanced size_mb block_size_kb a h
Reachable-Balanced size_mb block_size_kb b (_ ∷ _) (granted {a} {ms = ms} m r h) =
    granted-Balanced m a b ms (Reachable-Balanced size_mb block_size_kb a ms r) h
Reachable-Balanced size_mb block_size_kb b ms (refused {a} m r h) =
    subst (λ c. Balanced c ms) (refused_same m a b h)
      (Reachable-Balanced size_mb block_size_kb a ms r)
Reachable-Balanced size_mb block_size_kb _ _ (released {a} xs ys m r) =
    release-Balanced xs ys m a (Reachable-Balanced size_mb block_size_kb a (xs ++ m ∷ ys) r)
Reachable-Balanced size_mb block_size_kb _ _ (off {a} {ms} r) =
    let v = Reachable-Balanced size_mb block_size_kb a ms r in
    record { balance = omega arith; small = v.small }
