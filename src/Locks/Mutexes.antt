-- ===== src/Locks/Mutexes.antt =====
-- ddg/mutex.cc and ddg/mutex.h, Mutex and SpinLock with ScopedLockImpl, for any number of threads. The functions
-- of pthread are the argument `Pthread`.
pub mod Holding
use high_performance_server.Prelude.{
  ℕ, suc, ◌==◌, ◌≡◌, ◌≢◌, Bool, true, false, Option, none, some, if◌then◌else◌,
}
use high_performance_server.Locks.{Scoped, scoped, scoped_lock, scoped_unlock, destroy}
use high_performance_server.Locks.RwMutex.{returned}

-- pthread_mutex_lock and pthread_mutex_unlock, or pthread_spin_lock and pthread_spin_unlock, called by a thread: what
-- they return, and the lock that they leave. `none` is a call that blocks in this state of the lock.
pub record Pthread : Type 1 where
  pub Lock : Type 0
  pub lock : ℕ → Lock → Option (ℕ × Lock)
  pub unlock : ℕ → Lock → ℕ × Lock
  pub owner : Lock → Option ℕ

-- As POSIX has it for a mutex of the default type, which the constructor makes (mutex.cc:32), and for a spin
-- lock: a call that returns has succeeded, and the lock is given where nobody has it, so that a thread that
-- has the lock already waits for ever.
pub record PthreadLaws (p : Pthread) : Type 0 where
  pub lock_gives :
      (t e : ℕ) (l l' : p.Lock)
      → p.lock t l ≡ some (e, l')
      → (p.owner l ≡ none) × (p.owner l' ≡ some t)
  pub unlock_owner : (t : ℕ) (l : p.Lock) → p.owner l ≡ some t → p.owner (p.unlock t l).1 ≡ none

module _ (p : Pthread) where
  -- Mutex::lock and Mutex::unlock, or those of SpinLock.
  unfoldable pub lock : ℕ → p.Lock → Option p.Lock
  lock t l = returned (p.lock t l)

  unfoldable pub unlock : ℕ → p.Lock → p.Lock
  unlock t l = (p.unlock t l).1

  -- The mutex, and its scoped locks by their addresses: none where there is no scoped lock, or its `m_islocked`.
  pub record Shared : Type 0 where
    pub mutex : p.Lock
    pub scopes : ℕ → Option Bool

  abbrev pub put_scope : ℕ → Option Bool → p.Lock → Shared → Shared
  put_scope k scope l s = record { mutex = l; scopes = λ j. if j == k then scope else s.scopes j }

  abbrev pub put_scoped : ℕ → Scoped p.Lock → Shared → Shared
  put_scoped k c s = put_scope k (some c.islocked) c.mutex s

  abbrev pub scoped_at : Bool → Shared → Scoped p.Lock
  scoped_at b s = record { mutex = s.mutex; islocked = b }

  -- A step of a thread with the scoped lock at `k`: it is made, locked, unlocked, or destroyed. `by` is the thread that a
  -- scoped lock belongs to; a thread can have several. One that cannot have the lock waits, and takes no step.
  pub data Step (by : ℕ → ℕ) (k : ℕ) (s : Shared) : Shared → Type 0 where
    enters :
        (l : p.Lock)
        → s.scopes k ≡ none
        → lock (by k) s.mutex ≡ some l
        → Step by k s (put_scoped k (scoped (λ _. l) (unlock (by k)) s.mutex) s)
    locks :
        (l : p.Lock)
        → s.scopes k ≡ some false
        → lock (by k) s.mutex ≡ some l
        → Step by k s (put_scoped k (scoped_lock (λ _. l) (unlock (by k)) (scoped_at false s)) s)
    locks_again :
        s.scopes k ≡ some true
        → Step by k s (put_scoped k (scoped_lock (λ l. l) (unlock (by k)) (scoped_at true s)) s)
    unlocks :
        (b : Bool)
        → s.scopes k ≡ some b
        → Step by k s (put_scoped k (scoped_unlock (λ l. l) (unlock (by k)) (scoped_at b s)) s)
    leaves :
        (b : Bool)
        → s.scopes k ≡ some b
        → Step by k s (put_scope k none (destroy (λ l. l) (unlock (by k)) (scoped_at b s)) s)

  -- A state that threads reach from one where there is no scoped lock and nobody has the lock.
  pub data Reach (by : ℕ → ℕ) : Shared → Type 0 where
    start : (s : Shared) → ((k : ℕ) → s.scopes k ≡ none) → p.owner s.mutex ≡ none → Reach by s
    after : {s s' : Shared} (k : ℕ) → Reach by s → Step by k s s' → Reach by s'
