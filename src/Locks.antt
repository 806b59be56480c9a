-- ===== src/Locks.antt =====
-- ddg/mutex.h, the scoped locks: of a mutex of any type, whose own operations are arguments.
pub mod Scopes
pub mod Cas
pub mod RwMutex
pub mod Semphore
pub mod Mutexes
use high_performance_server.Prelude.{Bool, true, false, List, [], ◌∷◌, if◌then◌else◌}

pub record Scoped (M : Type 0) : Type 0 where
  pub mutex : M
  pub islocked : Bool

-- A call of the scoped lock while it lives.
pub data Use : Type 0 where
  lock unlock : Use

-- `acquire` is the mutex's lock, rdlock or wrlock, `release` its unlock.
module _ {M : Type 0} (acquire release : M → M) where
  -- ScopedLockImpl(mutex) and ReadScopedLockImpl(mutex).
  unfoldable pub scoped : M → Scoped M
  scoped m = record { mutex = acquire m; islocked = true }

  -- WriteScopedLockImpl(mutex).
  unfoldable pub write_scoped : M → Scoped M
  write_scoped m = record { mutex = acquire m; islocked = false }

  -- lock() and unlock(), which the three classes share.
  abbrev pub scoped_lock : Scoped M → Scoped M
  scoped_lock s = if s.islocked then s else record { mutex = acquire s.mutex; islocked = true }

  abbrev pub scoped_unlock : Scoped M → Scoped M
  scoped_unlock s = if s.islocked then record { mutex = release s.mutex; islocked = false } else s

  abbrev pub use_scoped : List Use → Scoped M → Scoped M
  use_scoped [] s = s
  use_scoped (lock ∷ uses) s = use_scoped uses (scoped_lock s)
  use_scoped (unlock ∷ uses) s = use_scoped uses (scoped_unlock s)

  -- The destructor, and the mutex that is left.
  unfoldable pub destroy : Scoped M → M
  destroy s = (scoped_unlock s).mutex
