-- ===== src/Locks/Scopes.antt =====
-- What a scoped lock leaves of its mutex.
use high_performance_server.Prelude.{ℕ, zero, suc, true, false, List, [], ◌∷◌, ◌≡◌, refl, All}
use high_performance_server.Locks.{Use, lock, unlock, scoped, write_scoped, use_scoped, destroy}

module _ {M : Type 0} (acquire release : M → M) where
  -- The mutex after `n` times that it is acquired and then released.
  abbrev pub rounds : ℕ → M → M
  rounds zero m = m
  rounds (suc n) m = rounds n (release (acquire m))

  -- What is left of a mutex whose scoped lock is in the state, after some uses and the destructor.
  pub used_lem :
      (uses : List Use) (m : M)
      → ((n : ℕ) × (destroy acquire release
              (use_scoped acquire release uses (record { mutex = acquire m; islocked = true }))
            ≡ rounds (suc n) m))
        × ((n : ℕ) × (destroy acquire release
                (use_scoped acquire release uses (record { mutex = m; islocked = false }))
              ≡ rounds n m))
  unfolding destroy
  used_lem [] m = ((0, refl), (0, refl))
  used_lem (lock ∷ uses) m = let ((n, e), r) = used_lem uses m in ((n, e), (suc n, e))
  used_lem (unlock ∷ uses) m =
      let (k, e) = (used_lem uses (release (acquire m))).1 in ((k, e), (used_lem uses m).1)

  -- Whatever calls of lock() and unlock() are made on a ScopedLockImpl or a ReadScopedLockImpl while it
  -- lives, from its constructor to the end of its destructor the mutex is acquired and released in turn,
  -- at least once, the last time released.
  pub scoped_lem :
      (uses : List Use) (m : M)
      → (n : ℕ) × (destroy acquire release
            (use_scoped acquire release uses (scoped acquire release m))
          ≡ rounds (suc n) m)
  unfolding scoped
  scoped_lem uses m = (used_lem uses m).0

  unlocked_lem :
      (uses : List Use) (m : M)
      → All (λ u. u ≡ unlock) uses
      → destroy acquire release
          (use_scoped acquire release uses (record { mutex = m; islocked = false }))
        ≡ m
  unfolding destroy
  unlocked_lem [] m h = refl
  unlocked_lem (lock ∷ uses) m h = cc
  unlocked_lem (unlock ∷ uses) m h = unlocked_lem uses m h.1

  -- A WriteScopedLockImpl on which lock() is not called acquires the mutex and never releases it,
  -- neither by calls of unlock() nor in its destructor.
  pub write_scoped_leaks :
      (uses : List Use) (m : M)
      → All (λ u. u ≡ unlock) uses
      → destroy acquire release (use_scoped acquire release uses (write_scoped acquire release m))
        ≡ acquire m
  unfolding write_scoped
  write_scoped_leaks uses m h = unlocked_lem uses (acquire m) h
