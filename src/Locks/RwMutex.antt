-- ===== src/Locks/RwMutex.antt =====
-- ddg/mutex.cc and ddg/mutex.h, RWMutex with ReadScopedLockImpl and WriteScopedLockImpl, for any number of
-- threads. The functions of pthread are the argument `Rwlock`.
pub mod Holding
pub mod Leaks
use high_performance_server.Prelude.{
  ℕ, suc, ◌+◌, ◌==◌, ◌≡◌, ◌≢◌, ◌<◌, Bool, true, false, Option, none, some, if◌then◌else◌,
}
use high_performance_server.Locks.{
  Scoped, scoped, write_scoped, scoped_lock, scoped_unlock, destroy,
}

-- pthread_rwlock_rdlock, pthread_rwlock_wrlock and pthread_rwlock_unlock, called by a thread: what they return, and the
-- lock that they leave. `none` is a call that blocks in this state of the lock. `writer` is the thread that
-- holds the lock for writing, `readers` how often a thread holds it for reading.
pub record Rwlock : Type 1 where
  pub Lock : Type 0
  pub rdlock : ℕ → Lock → Option (ℕ × Lock)
  pub wrlock : ℕ → Lock → Option (ℕ × Lock)
  pub unlock : ℕ → Lock → ℕ × Lock
  pub writer : Lock → Option ℕ
  pub readers : Lock → ℕ → ℕ

abbrev pub bump : ℕ → (ℕ → ℕ) → ℕ → ℕ
bump t held u = if u == t then suc (held u) else held u

-- As POSIX has it: a lock for reading is given where there is no writer, a lock for writing where there is neither
-- writer nor reader; a call fails (EDEADLK) only where the thread is the writer itself, and changes
-- nothing. The limit of the number of readers (EAGAIN) is not met.
pub record RwlockLaws (r : Rwlock) : Type 0 where
  pub rdlock_gives :
      (t : ℕ) (l l' : r.Lock)
      → r.rdlock t l ≡ some (0, l')
      → (r.writer l ≡ none)
        × (r.writer l' ≡ none)
        × ((u : ℕ) → r.readers l' u ≡ bump t (r.readers l) u)
  pub rdlock_fails :
      (t e : ℕ) (l l' : r.Lock) → r.rdlock t l ≡ some (suc e, l') → (l' ≡ l) × (r.writer l ≡ some t)
  pub wrlock_gives :
      (t : ℕ) (l l' : r.Lock)
      → r.wrlock t l ≡ some (0, l')
      → (r.writer l ≡ none)
        × (r.writer l' ≡ some t)
        × ((u : ℕ) → r.readers l u ≡ 0)
        × ((u : ℕ) → r.readers l' u ≡ 0)
  pub wrlock_fails :
      (t e : ℕ) (l l' : r.Lock) → r.wrlock t l ≡ some (suc e, l') → (l' ≡ l) × (r.writer l ≡ some t)
  pub unlock_writer :
      (t : ℕ) (l : r.Lock)
      → r.writer l ≡ some t
      → (r.writer (r.unlock t l).1 ≡ none)
        × ((u : ℕ) → r.readers (r.unlock t l).1 u ≡ r.readers l u)
  pub unlock_reader :
      (t : ℕ) (l : r.Lock)
      → r.writer l ≡ none
      → 0 < r.readers l t
      → (r.writer (r.unlock t l).1 ≡ none)
        × ((u : ℕ) → bump t (r.readers (r.unlock t l).1) u ≡ r.readers l u)

-- `if (ret) { std::logic_error(…); }`: the exception is made and not thrown.
abbrev pub returned : {L : Type 0} → Option (ℕ × L) → Option L
returned none = none
returned (some (ret, l)) = some l

-- Of one lock, a thread is in no scope or in one; `islocked` is the member of the scoped lock, and `holds` says that the
-- writer's constructor or its lock() has been called after the last unlock() that had an effect.
pub data Scope : Type 0 where
  outside : Scope
  reading : (islocked : Bool) → Scope
  writing : (islocked holds : Bool) → Scope

module _ (r : Rwlock) where
  -- RWMutex::rdlock, RWMutex::wrlock and RWMutex::unlock.
  unfoldable pub rdlock : ℕ → r.Lock → Option r.Lock
  rdlock t l = returned (r.rdlock t l)

  unfoldable pub wrlock : ℕ → r.Lock → Option r.Lock
  wrlock t l = returned (r.wrlock t l)

  unfoldable pub unlock : ℕ → r.Lock → r.Lock
  unlock t l = (r.unlock t l).1

  pub record Shared : Type 0 where
    pub lock : r.Lock
    pub scopes : ℕ → Scope

  abbrev pub put_scope : ℕ → Scope → r.Lock → Shared → Shared
  put_scope t scope l s = record { lock = l; scopes = λ u. if u == t then scope else s.scopes u }

  -- The scoped lock of a call of the lock's function that has left `l`.
  abbrev pub read_scope : ℕ → r.Lock → r.Lock → Scoped r.Lock
  read_scope t l' l = scoped (λ _. l') (unlock t) l

  abbrev pub write_scope : ℕ → r.Lock → r.Lock → Scoped r.Lock
  write_scope t l' l = write_scoped (λ _. l') (unlock t) l

  -- The end of a scope: the destructor of its scoped lock.
  abbrev pub end_scope : ℕ → Bool → r.Lock → r.Lock
  end_scope t islocked l = destroy (λ l. l) (unlock t) (record { mutex = l; islocked = islocked })

  abbrev pub left : ℕ → Bool → Shared → Shared
  left t islocked s = put_scope t outside (end_scope t islocked s.lock) s

  -- The scoped lock of a thread in its scope.
  abbrev pub scoped_at : Bool → Shared → Scoped r.Lock
  scoped_at islocked s = record { mutex = s.lock; islocked = islocked }

  -- lock() of a scoped lock, where a call of the lock's function leaves `l`, and unlock().
  abbrev pub relocked : ℕ → Bool → r.Lock → Shared → Scoped r.Lock
  relocked t islocked l s = scoped_lock (λ _. l) (unlock t) (scoped_at islocked s)

  abbrev pub unlocked : ℕ → Bool → Shared → Scoped r.Lock
  unlocked t islocked s = scoped_unlock (λ l. l) (unlock t) (scoped_at islocked s)

  abbrev pub put_reading : ℕ → Scoped r.Lock → Shared → Shared
  put_reading t c s = put_scope t (reading c.islocked) c.mutex s

  abbrev pub put_writing : ℕ → Scoped r.Lock → Bool → Shared → Shared
  put_writing t c holds s = put_scope t (writing c.islocked holds) c.mutex s

  -- A step of the thread `t`. One that cannot have the lock waits, and takes no step.
  pub data Step (t : ℕ) (s : Shared) : Shared → Type 0 where
    reads :
        (l : r.Lock)
        → s.scopes t ≡ outside
        → rdlock t s.lock ≡ some l
        → Step t s (put_reading t (read_scope t l s.lock) s)
    writes :
        (l : r.Lock)
        → s.scopes t ≡ outside
        → wrlock t s.lock ≡ some l
        → Step t s (put_writing t (write_scope t l s.lock) true s)
    reader_locks :
        (l : r.Lock)
        → s.scopes t ≡ reading false
        → rdlock t s.lock ≡ some l
        → Step t s (put_reading t (relocked t false l s) s)
    reader_locks_again :
        s.scopes t ≡ reading true → Step t s (put_reading t (relocked t true s.lock s) s)
    reader_unlocks :
        (b : Bool) → s.scopes t ≡ reading b → Step t s (put_reading t (unlocked t b s) s)
    writer_locks :
        (h : Bool) (l : r.Lock)
        → s.scopes t ≡ writing false h
        → wrlock t s.lock ≡ some l
        → Step t s (put_writing t (relocked t false l s) true s)
    writer_locks_again :
        (h : Bool)
        → s.scopes t ≡ writing true h
        → Step t s (put_writing t (relocked t true s.lock s) h s)
    writer_unlocks :
        (b h : Bool)
        → s.scopes t ≡ writing b h
        → Step t s (put_writing t (unlocked t b s) (if b then false else h) s)
    reader_leaves : (b : Bool) → s.scopes t ≡ reading b → Step t s (left t b s)
    writer_leaves : (b h : Bool) → s.scopes t ≡ writing b h → Step t s (left t b s)

  -- A state that threads reach from one where all are outside and none holds the lock.
  pub data Reach : Shared → Type 0 where
    start :
        (s : Shared)
        → ((u : ℕ) → s.scopes u ≡ outside)
        → r.writer s.lock ≡ none
        → ((u : ℕ) → r.readers s.lock u ≡ 0)
        → Reach s
    after : {s s' : Shared} (t : ℕ) → Reach s → Step t s s' → Reach s'
