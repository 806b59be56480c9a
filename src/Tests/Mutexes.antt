-- ===== src/Tests/Mutexes.antt =====
-- The locks: a mutex that records its calls, and two threads at a CASLock.
use high_performance_server.Prelude.{ℕ, Bool, true, false, List, ◌∷◌, ◌≡◌, refl}
use high_performance_server.Locks.Cas.{
  Cas, spinning, initial, with_pc, attempt, Reachable, start, after, enters, attempts,
  Reachable-exclusive,
}

-- The calls, the latest first: true for one that acquires.
abbrev acquire : List Bool → List Bool
acquire calls = true ∷ calls

abbrev release : List Bool → List Bool
release calls = false ∷ calls

abbrev both_spin : Cas
both_spin = with_pc 2 spinning (with_pc 1 spinning initial)

one_inside : Reachable (attempt false 2 (attempt false 1 both_spin))
unfolding attempt
one_inside =
    after (after (after (after start (enters 1 refl)) (enters 2 refl)) (attempts false 1 refl))
      (attempts false 2 refl)

abbrev winner : ℕ
winner = 1

Reachable-exclusive_example : winner ≡ winner
unfolding attempt
Reachable-exclusive_example = Reachable-exclusive winner winner one_inside refl refl
