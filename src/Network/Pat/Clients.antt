-- ===== src/Network/Pat/Clients.antt =====
-- The clients of the ports, which take some and give some back.
use docker_sim.Prelude.{
  ℕ, ◌+◌, ◌≤◌, ◌<◌, ◌≡◌, none, some, List, [], ◌∷◌, ◌++◌, pos, length, get_elem?, ltb, Result, ok,
  ◌>>=◌,
}
use docker_sim.Network.Pat.{
  Pat, new_pat, get_new_port, free_port, registered_initial_port, last_port,
}
use docker_sim.Network.Pat.Count.{occurs, remove_at}

-- The table, and the ports that are held by its clients.
pub record Shared : Type 0 where
  pub pat : Pat
  pub held : List ℕ

pub data Event : Type 0 where
  take : Event
  give_back : ℕ → Event

-- A port is taken, or the one at a position of the ports held is given back.
unfoldable pub handle : Event → Shared → Result Shared
unfolding remove_at
handle take s = do r ← get_new_port s.pat; ok (record { pat = r.1; held = s.held ++ r.0 ∷ [] })
handle (give_back i) s = elim (get_elem? s.held i) [
  | some port ↦
      free_port (pos port) s.pat >>= (λ t. ok (record { pat = t; held = remove_at i s.held }))
  | none ↦ ok s
]

unfoldable pub run : List Event → Shared → Result Shared
run [] s = ok s
run (e ∷ es) s = handle e s >>= run es

abbrev pub start : Shared
start = record { pat = new_pat; held = [] }

-- No port is held twice, every port held is one that may be given, and the array marks exactly the
-- ports that are held.
pub record Exclusive (s : Shared) : Type 0 where
  pub once : (p : ℕ) → occurs p s.held ≤ 1
  pub inside : (p : ℕ) → 0 < occurs p s.held → (registered_initial_port ≤ p) × (p < last_port)
  pub marked : (p : ℕ) → s.pat.free_ports p ≡ ltb 0 (occurs p s.held)

abbrev pub uses : ℕ → Shared → ℕ
uses p s = occurs p s.held + occurs p s.pat.port_holes

pub record Inv (n : ℕ) (s : Shared) : Type 0 where
  pub once : (p : ℕ) → uses p s ≤ 1
  pub inside : (p : ℕ) → 0 < uses p s → (registered_initial_port ≤ p) × (p < s.pat.port_ptr)
  pub marked : (p : ℕ) → s.pat.free_ports p ≡ ltb 0 (occurs p s.held)
  pub used : registered_initial_port + (length s.held + length s.pat.port_holes) ≡ s.pat.port_ptr
  pub few : length s.held + length s.pat.port_holes ≤ n
