-- ===== src/Splitting/Pieces.antt =====
-- What it means that subrequests cover a range of bytes. Shared by the strategies.
use docker_sim.Prelude.{ℕ, arith, ◌+◌, ◌%◌, ◌≤◌, ◌<◌, ◌≡◌, ◌==◌, false, List, [], ◌∷◌}
use docker_sim.Splitting.Message.{IoMessage}

-- The subrequests are consecutive, and cover exactly the bytes from `a` up to `b`.
abbrev pub Covers : ℕ → ℕ → List IoMessage → Type 0
Covers a b [] = a ≡ b
Covers a b (s ∷ ss) = (s.offset ≡ a) × Covers (a + s.size) b ss

-- A subrequest that has bytes, and lies in one block of the given size.
abbrev pub InBlock : ℕ → IoMessage → Type 0
InBlock block s = (0 < s.size) × (s.offset % block + s.size ≤ block)

pub Covers-cong :
    {a a' b b' : ℕ} (ss : List IoMessage) → a ≡ a' → b ≡ b' → Covers a b ss → Covers a' b' ss
Covers-cong ss p q h = rw (← p, ← q) h

-- A divisor that passes the test for zero.
pub no_zero : (n : ℕ) → 0 < n → (n == 0) ≡ false
no_zero n h = ground arith
