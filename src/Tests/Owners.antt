-- ===== src/Tests/Owners.antt =====
-- Two threads and a small mutex.
use high_performance_server.Prelude.{
  ℕ, ◌==◌, ◌≡◌, ◌↔◌, refl, arith, true, Option, none, some, if◌then◌else◌,
}
use high_performance_server.Locks.{scoped}
use high_performance_server.Locks.Mutexes.{
  Pthread, PthreadLaws, Shared, put_scoped, enters, Reach, start, after, lock, unlock,
}
use high_performance_server.Locks.Mutexes.Holding.{locked-exclusive}

abbrev take : ℕ → Option ℕ → Option (ℕ × Option ℕ)
take t none = some (0, some t)
take t (some w) = none

abbrev give : ℕ → Option ℕ → ℕ × Option ℕ
give t none = (1, none)
give t (some w) = if w == t then (0, none) else (1, some w)

abbrev small_mutex : Pthread
small_mutex = record { Lock = Option ℕ; lock = take; unlock = give; owner = λ l. l }

take_gives : (t e : ℕ) (l l' : Option ℕ) → take t l ≡ some (e, l') → (l ≡ none) × (l' ≡ some t)
take_gives t e none l' h = (refl, cc)
take_gives t e (some w) l' h = cc

give_owner : (t : ℕ) (l : Option ℕ) → l ≡ some t → (give t l).1 ≡ none
give_owner t none e = refl
give_owner t (some w) e = ground arith

small_mutex-PthreadLaws : PthreadLaws small_mutex
small_mutex-PthreadLaws = record { lock_gives = take_gives; unlock_owner = give_owner }

abbrev nobody : Shared small_mutex
nobody = record { mutex = none; scopes = λ u. none }

-- The scoped locks 10 and 11 belong to the thread 1, all others to the thread 2.
abbrev by : ℕ → ℕ
by k = if k == 10 then 1 else if k == 11 then 1 else 2

abbrev first_in : Shared small_mutex
first_in = put_scoped small_mutex 10 (scoped (λ _. some 1) (unlock small_mutex 1) none) nobody

first_in-Reach : Reach small_mutex by first_in
unfolding lock scoped
first_in-Reach = after 10 (start nobody (λ u. refl) refl) (enters (some 1) refl refl)

locked-exclusive_example :
    (first_in.mutex ≡ some 1) × ((first_in.scopes 11 ≡ some true) ↔ ◌≡◌ {A = ℕ} 11 10)
unfolding scoped
locked-exclusive_example =
    locked-exclusive small_mutex small_mutex-PthreadLaws by first_in 11 10 first_in-Reach refl
