-- ===== src/Tests/Sharing.antt =====
-- RWMutex over a small lock for readers and writers.
use high_performance_server.Prelude.{
  ℕ, suc, ◌==◌, ◌<◌, ◌≡◌, refl, sym, ap, true, false, List, [], ◌∷◌, Option, none, some,
  if◌then◌else◌, arith, ◌⊎◌,
}
use high_performance_server.Locks.{scoped, write_scoped, destroy}
use high_performance_server.Locks.RwMutex.{
  Rwlock, RwlockLaws, bump, outside, reading, writing, Shared, put_scope, left, Step, reads, writes,
  Reach, start, after, rdlock, wrlock, unlock, reader_unlocks,
}
use high_performance_server.Locks.RwMutex.Leaks.{Idles, writing-exclusive, left_writing-stuck}
use high_performance_server.Locks.RwMutex.Holding.{Unheld}

-- Held by a writer, or by readers.
data Held : Type 0 where
  owned : ℕ → Held
  shared : List ℕ → Held

abbrev count : ℕ → List ℕ → ℕ
count u [] = 0
count u (t ∷ ts) = let rest = count u ts in if u == t then suc rest else rest

abbrev remove_one : ℕ → List ℕ → List ℕ
remove_one t [] = []
remove_one t (u ∷ us) = let rest = remove_one t us in if u == t then us else u ∷ rest

abbrev owner_of : Held → Option ℕ
owner_of (owned w) = some w
owner_of (shared ts) = none

abbrev readers_of : Held → ℕ → ℕ
readers_of (owned w) u = 0
readers_of (shared ts) u = count u ts

abbrev read_lock : ℕ → Held → Option (ℕ × Held)
read_lock t (owned w) = if w == t then some (35, owned w) else none
read_lock t (shared ts) = some (0, shared (t ∷ ts))

abbrev write_lock : ℕ → Held → Option (ℕ × Held)
write_lock t (owned w) = if w == t then some (35, owned w) else none
write_lock t (shared []) = some (0, owned t)
write_lock t (shared (u ∷ us)) = none

abbrev release : ℕ → Held → ℕ × Held
release t (owned w) = if w == t then (0, shared []) else (1, owned w)
release t (shared ts) = (0, shared (remove_one t ts))

abbrev small : Rwlock
small = record {
  Lock = Held;
  rdlock = read_lock;
  wrlock = write_lock;
  unlock = release;
  writer = owner_of;
  readers = readers_of;
}

read_gives :
    (t : ℕ) (l l' : Held)
    → read_lock t l ≡ some (0, l')
    → (owner_of l ≡ none)
      × (owner_of l' ≡ none)
      × ((u : ℕ) → readers_of l' u ≡ bump t (readers_of l) u)
read_gives t (owned w) l' h = ground arith
read_gives t (shared ts) l' h =
    let e : shared (t ∷ ts) ≡ l' = cc in
    (refl, ap owner_of (sym e), λ u. ap (λ l. readers_of l u) (sym e))

read_fails :
    (t e : ℕ) (l l' : Held) → read_lock t l ≡ some (suc e, l') → (l' ≡ l) × (owner_of l ≡ some t)
read_fails t e (owned w) l' h = ground arith
read_fails t e (shared ts) l' h = cc

write_gives :
    (t : ℕ) (l l' : Held)
    → write_lock t l ≡ some (0, l')
    → (owner_of l ≡ none)
      × (owner_of l' ≡ some t)
      × ((u : ℕ) → readers_of l u ≡ 0)
      × ((u : ℕ) → readers_of l' u ≡ 0)
write_gives t (owned w) l' h = ground arith
write_gives t (shared []) l' h =
    let e : owned t ≡ l' = cc in
    (refl, ap owner_of (sym e), λ u. refl, λ u. ap (λ l. readers_of l u) (sym e))
write_gives t (shared (u ∷ us)) l' h = cc

write_fails :
    (t e : ℕ) (l l' : Held) → write_lock t l ≡ some (suc e, l') → (l' ≡ l) × (owner_of l ≡ some t)
write_fails t e (owned w) l' h = ground arith
write_fails t e (shared []) l' h = cc
write_fails t e (shared (u ∷ us)) l' h = cc

release_writer :
    (t : ℕ) (l : Held)
    → owner_of l ≡ some t
    → (owner_of (release t l).1 ≡ none) × ((u : ℕ) → readers_of (release t l).1 u ≡ readers_of l u)
release_writer t (owned w) h = let e : (w == t) ≡ true = ground arith in rw e (refl, λ u. refl)
release_writer t (shared ts) h = cc

remove_one-count :
    (t : ℕ) (ts : List ℕ) (u : ℕ)
    → 0 < count t ts
    → bump t (λ v. count v (remove_one t ts)) u ≡ count u ts
remove_one-count t [] u h = absurd (omega arith)
remove_one-count t (v ∷ ts) u h = ground (arith, remove_one-count t ts u)

release_reader :
    (t : ℕ) (l : Held)
    → owner_of l ≡ none
    → 0 < readers_of l t
    → (owner_of (release t l).1 ≡ none)
      × ((u : ℕ) → bump t (readers_of (release t l).1) u ≡ readers_of l u)
release_reader t (owned w) h k = cc
release_reader t (shared ts) h k = (refl, λ u. remove_one-count t ts u k)

small_laws : RwlockLaws small
small_laws = record {
  rdlock_gives = read_gives;
  rdlock_fails = read_fails;
  wrlock_gives = write_gives;
  wrlock_fails = write_fails;
  unlock_writer = release_writer;
  unlock_reader = release_reader;
}

abbrev idle : Shared small
idle = record { lock = shared []; scopes = λ u. outside }

abbrev two_reads : Shared small
two_reads = put_scope small 2 (reading true) (shared (2 ∷ [])) idle

-- The thread 2 has unlocked its ReadLock before the thread 1 writes.
abbrev two_waits : Shared small
two_waits = put_scope small 2 (reading false) (shared []) two_reads

abbrev one_writes : Shared small
one_writes = put_scope small 1 (writing false true) (owned 1) two_waits

one_writes-Reach : Reach small one_writes
unfolding wrlock rdlock unlock write_scoped scoped
one_writes-Reach =
    after 1
      (after 2
        (after 2 (start idle (λ u. refl) refl (λ u. refl)) (reads (shared (2 ∷ [])) refl refl))
        (reader_unlocks true refl))
      (writes (owned 1) refl refl)

writing-exclusive_example : (owner_of one_writes.lock ≡ some 1) × Unheld (one_writes.scopes 2)
writing-exclusive_example =
    writing-exclusive small small_laws 1 2 false one_writes-Reach refl (omega arith)

-- The thread 2 calls unlock() once more.
abbrev two_unlocks : Shared small
two_unlocks = put_scope small 2 (reading false) (owned 1) (left small 1 false one_writes)

unlocks_again : Step small 2 (left small 1 false one_writes) two_unlocks
unfolding destroy
unlocks_again = reader_unlocks false refl

left_writing-stuck_example :
    ◌≡◌ {A = ℕ} 2 1 ⊎ Idles small small_laws 2 (left small 1 false one_writes) two_unlocks
left_writing-stuck_example =
    left_writing-stuck small small_laws 1 2 two_unlocks one_writes-Reach refl unlocks_again
