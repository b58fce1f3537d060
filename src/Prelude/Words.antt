-- ===== src/Prelude/Words.antt =====
-- 32-bit arithmetic. An `unsigned int` and the bit pattern of an `int` are numbers below 2 ^ 32;
-- where an `int` meets an `unsigned int`, C++ computes with the patterns.
use Prim.Native.Nat.{ℕ, ◌+◌, ◌-◌, ◌%◌, ◌^◌, ◌<◌, ◌≤◌}
use mathlib.Core.Path.{◌≡◌}
use mathlib.Core.Bool.{Bool}
use native.Mathlib.Omega.{arith}
use native.Mathlib.Nat.{mod-add-mod}
use docker_sim.Prelude.Tests.{ltb, if◌then◌else◌}

unfoldable pub word : ℕ → ℕ
word n = n % 2 ^ 32

-- a - b on patterns.
unfoldable pub sub_word : ℕ → ℕ → ℕ
sub_word a b = (a + 2 ^ 32 - b) % 2 ^ 32

-- `abs` of a pattern that is read as an `int`.
unfoldable pub abs_word : ℕ → ℕ
abs_word a = if ltb a (2 ^ 31) then a else 2 ^ 32 - a

-- The rounds of a loop `for (i = 0; i < n; i++)` on `int`s, from the pattern of `n`.
unfoldable pub rounds : ℕ → ℕ
rounds n = if ltb n (2 ^ 31) then n else 0

-- `a < b` of patterns that are read as `int`s: the order of the patterns shifted by 2 ^ 31.
unfoldable pub lt_int : ℕ → ℕ → Bool
lt_int a b = ltb ((a + 2 ^ 31) % 2 ^ 32) ((b + 2 ^ 31) % 2 ^ 32)

pub lt_int_small : (a b : ℕ) → a < 2 ^ 31 → b < 2 ^ 31 → lt_int a b ≡ ltb a b
unfolding lt_int
lt_int_small a b h k = ground arith

pub word_small : (n : ℕ) → n < 2 ^ 32 → word n ≡ n
unfolding word
word_small n h = omega arith

pub sub_word_small : (a b : ℕ) → b ≤ a → a < 2 ^ 32 → sub_word a b ≡ a - b
unfolding sub_word
sub_word_small a b h k = omega arith

pub abs_word_small : (a : ℕ) → a < 2 ^ 31 → abs_word a ≡ a
unfolding abs_word
abs_word_small a h = ground arith

pub rounds_small : (n : ℕ) → n < 2 ^ 31 → rounds n ≡ n
unfolding rounds
rounds_small n h = ground arith

pub word-lt : (n : ℕ) → word n < 2 ^ 32
unfolding word
word-lt n = omega arith

-- A counter that is kept modulo 2 ^ 32 follows the number it counts.
pub word-suc : (n : ℕ) → word (word n + 1) ≡ word (n + 1)
unfolding word
word-suc n = mod-add-mod n (2 ^ 32) 1

pub sub_word-word : (n : ℕ) → sub_word (word (n + 1)) 1 ≡ word n
unfolding word sub_word
sub_word-word n = omega (arith)
