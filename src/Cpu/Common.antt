-- ===== src/Cpu/Common.antt =====
-- What the two CPU schedulers share: computing blocks, the state of the cores, the log of what is
-- sent, and the order in which blocks are sent to cores.
use docker_sim.Prelude.{
  ℕ, zero, suc, ◌<◌, ◌≡◌, refl, ap, sym, ◌∙◌, ◌==◌, if◌then◌else◌, ◌⊎◌, inl, inr, Bool, true, false,
  Option, none, some, List, [], ◌∷◌, ◌++◌, ℤ, length, set, arith,
}
use Prim.Native.String.{String}
use mathlib.Core.List.{append_assoc}

-- A computing block (icancloud_App_CPU_Message), with its identity. `cpu_time_left` tells whether
-- its floating-point CPU time is above 0.0000001.
pub record Block : Type 0 where
  pub id : ℕ
  pub operation : ℕ
  pub quantum : ℤ
  pub next_module_index : ℕ
  pub is_response : Bool
  pub remaining_mis : ℕ
  pub cpu_time_left : Bool

-- What a scheduler sends: a block to a core, a change of state to a core, or a response.
pub data Sent : Type 0 where
  to_cpu : ℕ → Block → Sent
  change_state : ℕ → String → List ℕ → Sent
  to_os : Block → Sent

pub data Error : Type 0 where
  cpu_index_error out_of_fuel : Error

pub data Result {ℓ} (A : Type ℓ) : Type ℓ where
  ok : A → Result A
  err : Error → Result A

infixl 5 ◌>>=◌
abbrev pub ◌>>=◌ {ℓ κ} : {A : Type ℓ} {B : Type κ} → Result A → (A → Result B) → Result B
ok a >>= f = f a
err e >>= f = err e

abbrev pub sm_change_cpu_state : ℕ
sm_change_cpu_state = 71

-- `searchIdleCPU`: the first core that is idle; `none` is NOT_FOUND.
unfoldable pub search_idle_cpu : List Bool → Option ℕ
search_idle_cpu [] = none
search_idle_cpu (true ∷ cpus) = some 0
search_idle_cpu (false ∷ cpus) = elim (search_idle_cpu cpus) [ none ↦ none | some i ↦ some (suc i) ]

-- No core is idle.
abbrev pub AllBusy : List Bool → Type 0
AllBusy [] = Unit {0}
AllBusy (c ∷ cs) = (c ≡ false) × AllBusy cs

-- `i` is the first idle core.
abbrev pub FirstIdle : ℕ → List Bool → Type 0
FirstIdle i [] = ⊥
FirstIdle zero (c ∷ cs) = c ≡ true
FirstIdle (suc i) (c ∷ cs) = (c ≡ false) × FirstIdle i cs

-- The search finds the first idle core, or all are busy.
pub search_idle_cpu_cases :
    (cpus : List Bool)
    → ((search_idle_cpu cpus ≡ none) × AllBusy cpus)
      ⊎ ((i : ℕ) × (search_idle_cpu cpus ≡ some i) × FirstIdle i cpus × (i < length cpus))
unfolding search_idle_cpu
search_idle_cpu_cases [] = inl (refl, tt)
search_idle_cpu_cases (true ∷ cpus) = inr (0, refl, refl, omega arith)
search_idle_cpu_cases (false ∷ cpus) = elim (search_idle_cpu_cases cpus) [
  | inl (e, busy) ↦ inl (rw e, (refl, busy))
  | inr (i, e, idle, below) ↦ inr (suc i, rw e, (refl, idle), omega (arith, below))
]

-- A core that takes a block when all others are busy leaves all busy.
pub AllBusy-set :
    (cpus : List Bool) (i : ℕ) → AllBusy cpus → AllBusy (set (set cpus i true) i false)
AllBusy-set [] i h = tt
AllBusy-set (c ∷ cs) zero h = (refl, h.1)
AllBusy-set (c ∷ cs) (suc i) h = (h.0, AllBusy-set cs i h.1)

-- The computing blocks sent to cores, in order, by identity; a change of state is none.
unfoldable pub blocks_of : Block → List ℕ
blocks_of b = if b.operation == sm_change_cpu_state then [] else b.id ∷ []

-- The computing blocks of a queue, in order.
unfoldable pub blocks : List Block → List ℕ
blocks [] = []
blocks (b ∷ bs) = blocks_of b ++ blocks bs

pub blocks-append : (xs ys : List Block) → blocks (xs ++ ys) ≡ blocks xs ++ blocks ys
unfolding blocks
blocks-append [] ys = refl
blocks-append (x ∷ xs) ys =
    ap (◌++◌ (blocks_of x)) (blocks-append xs ys)
    ∙ sym (append_assoc (blocks_of x) (blocks xs) (blocks ys))

unfoldable pub dispatched : List Sent → List ℕ
dispatched [] = []
dispatched (to_cpu i b ∷ s) = blocks_of b ++ dispatched s
dispatched (change_state i c l ∷ s) = dispatched s
dispatched (to_os b ∷ s) = dispatched s

pub dispatched-append : (xs ys : List Sent) → dispatched (xs ++ ys) ≡ dispatched xs ++ dispatched ys
unfolding dispatched
dispatched-append [] ys = refl
dispatched-append (to_cpu i b ∷ xs) ys =
    ap (◌++◌ (blocks_of b)) (dispatched-append xs ys)
    ∙ sym (append_assoc (blocks_of b) (dispatched xs) (dispatched ys))
dispatched-append (change_state i c l ∷ xs) ys = dispatched-append xs ys
dispatched-append (to_os b ∷ xs) ys = dispatched-append xs ys

-- The blocks sent back to the operating system, in order.
unfoldable pub returned : List Sent → List ℕ
returned [] = []
returned (to_cpu i b ∷ s) = returned s
returned (change_state i c l ∷ s) = returned s
returned (to_os b ∷ s) = b.id ∷ returned s

pub returned-append : (xs ys : List Sent) → returned (xs ++ ys) ≡ returned xs ++ returned ys
unfolding returned
returned-append [] ys = refl
returned-append (to_cpu i b ∷ xs) ys = returned-append xs ys
returned-append (change_state i c l ∷ xs) ys = returned-append xs ys
returned-append (to_os b ∷ xs) ys = ap (◌∷◌ b.id) (returned-append xs ys)

-- The cores that the scheduler asks to change their state, and the states it asks for, in order.
unfoldable pub changed_cores : List Sent → List ℕ
changed_cores [] = []
changed_cores (to_cpu i b ∷ s) = changed_cores s
changed_cores (change_state i c l ∷ s) = i ∷ changed_cores s
changed_cores (to_os b ∷ s) = changed_cores s

pub changed_cores-append :
    (xs ys : List Sent) → changed_cores (xs ++ ys) ≡ changed_cores xs ++ changed_cores ys
unfolding changed_cores
changed_cores-append [] ys = refl
changed_cores-append (to_cpu i b ∷ xs) ys = changed_cores-append xs ys
changed_cores-append (change_state i c l ∷ xs) ys = ap (◌∷◌ i) (changed_cores-append xs ys)
changed_cores-append (to_os b ∷ xs) ys = changed_cores-append xs ys

unfoldable pub asked_states : List Sent → List String
asked_states [] = []
asked_states (to_cpu i b ∷ s) = asked_states s
asked_states (change_state i c l ∷ s) = c ∷ asked_states s
asked_states (to_os b ∷ s) = asked_states s

pub asked_states-append :
    (xs ys : List Sent) → asked_states (xs ++ ys) ≡ asked_states xs ++ asked_states ys
unfolding asked_states
asked_states-append [] ys = refl
asked_states-append (to_cpu i b ∷ xs) ys = asked_states-append xs ys
asked_states-append (change_state i c l ∷ xs) ys = ap (◌∷◌ c) (asked_states-append xs ys)
asked_states-append (to_os b ∷ xs) ys = asked_states-append xs ys

-- A state in which an idle core is first found is not one in which all are busy.
pub FirstIdle-AllBusy : (i : ℕ) (cpus : List Bool) → FirstIdle i cpus → AllBusy cpus → ⊥
FirstIdle-AllBusy i [] h k = h
FirstIdle-AllBusy zero (c ∷ cs) h k = cc
FirstIdle-AllBusy (suc i) (c ∷ cs) h k = FirstIdle-AllBusy i cs h.1 k.1

-- A message the scheduler accepts: a response names a core.
abbrev pub Accepted : ℕ → Block → Type 0
Accepted num_cpus sm = sm.is_response ≡ true → sm.next_module_index < num_cpus
