-- ===== src/Memory/Account/Tests.antt =====
-- Runs of the account of application memory.
use docker_sim.Prelude.{refl, [], ◌∷◌, word}
use docker_sim.Memory.Account.{Account, initialize, required_blocks, allocate, release}
use docker_sim.Memory.Account.Balance.{
  Reachable, start, granted, released, Balanced, Reachable-Balanced,
}

-- A memory of 1 MB in blocks of 4 KB.
abbrev fresh : Account
fresh = record {
  block_size_kb = 4;
  total_blocks = 250;
  total_app_blocks = 0;
  free_app_blocks = 250;
}

abbrev taken : Account
taken = record fresh { free_app_blocks = 225 }

one_granted : Reachable 1 4 taken (100 ∷ [])
unfolding initialize allocate required_blocks word
one_granted = granted {a = fresh} 100 (start refl) refl

Reachable-Balanced_example : Balanced (release 100 taken) []
Reachable-Balanced_example =
    Reachable-Balanced 1 4 (release 100 taken) [] (released [] [] 100 one_granted)
