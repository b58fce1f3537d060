-- ===== src/Network/PortTable/Free.antt =====
-- `freePort`: its outer loop does not advance past a row with the virtual port.
use docker_sim.Prelude.{
  ℕ, zero, suc, ◌<◌, ◌≡◌, refl, ◌⊎◌, List, [], ◌∷◌, ◌++◌, ℤ, negsuc, ==ℤ_iff, some, none, false,
  arith, length,
}
use docker_sim.Network.PortTable.{PortTable, Ports, FreeState, free_inner, free_loop, free_port}
use docker_sim.Network.PortTable.Rows.{IsNew}
use mathlib.Core.List.{append_assoc, append-nil}

-- Some row has this virtual port.
abbrev pub HasRow : ℤ → List Ports → Type 0
HasRow v [] = ⊥
HasRow v (p ∷ ps) = (p.v_port ≡ v) ⊎ HasRow v ps

free_inner-v_port :
    (vm user : ℤ) (s : FreeState) (p : Ports) → (free_inner vm user s p).1.v_port ≡ p.v_port
unfolding free_inner
free_inner-v_port vm user s p = ground arith

free_loop-HasRow :
    (fuel : ℕ) (vm user v : ℤ) (s : FreeState) (before rows : List Ports)
    → HasRow v rows
    → free_loop fuel vm user v s before rows ≡ none
unfolding free_loop
free_loop-HasRow zero vm user v s before rows h = refl
free_loop-HasRow (suc fuel) vm user v s before [] h = absurd h
free_loop-HasRow (suc fuel) vm user v s before (p ∷ ps) h = ground (
  arith,
  free_loop-HasRow fuel vm user v (free_inner vm user s p).0 before
      ((free_inner vm user s p).1 ∷ ps),
  free_loop-HasRow fuel vm user v s (before ++ p ∷ []) ps,
  free_inner-v_port vm user s p,
  ==ℤ_iff p.v_port v,
)

-- If some row has the virtual port, `freePort` never returns, however long it runs.
pub free_port-HasRow :
    (fuel : ℕ) (vm user v : ℤ) (t : PortTable)
    → HasRow v t.virtual_ports
    → free_port fuel vm user v t ≡ none
unfolding free_port
free_port-HasRow fuel vm user v t h = ground (
  arith,
  free_loop-HasRow fuel vm user v (record { found = false; real_port = negsuc 0 }) []
      t.virtual_ports h,
)

free_loop-IsNew :
    (fuel : ℕ) (vm user v : ℤ) (s : FreeState) (before rows : List Ports)
    → length rows < fuel
    → IsNew v rows
    → free_loop fuel vm user v s before rows ≡ some (s, before ++ rows)
unfolding free_loop
free_loop-IsNew zero vm user v s before rows l h = elim l [ ]
free_loop-IsNew (suc fuel) vm user v s before [] l h = ground (arith, append-nil before)
free_loop-IsNew (suc fuel) vm user v s before (p ∷ ps) l h = ground (
  arith,
  free_loop-IsNew fuel vm user v s (before ++ p ∷ []) ps,
  append_assoc before (p ∷ []) ps,
  ==ℤ_iff p.v_port v,
)

-- If no row has the virtual port, `freePort` returns -1 after one round for each row, and the
-- table is as it was.
free_port-IsNew :
    (fuel : ℕ) (vm user v : ℤ) (t : PortTable)
    → length t.virtual_ports < fuel
    → IsNew v t.virtual_ports
    → free_port fuel vm user v t ≡ some (negsuc 0, t)
unfolding free_port
free_port-IsNew fuel vm user v t l h = ground (
  arith,
  free_loop-IsNew fuel vm user v (record { found = false; real_port = negsuc 0 }) [] t.virtual_ports
      l h,
)
