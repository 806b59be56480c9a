-- ===== src/Locks/Semphore.antt =====
-- ddg/mutex.cc, Semphore. The functions of POSIX semaphores are the argument `Calls`.
use high_performance_server.Prelude.{
  ℕ, suc, ◌+◌, ◌==◌, ◌≡◌, Option, some, if◌then◌else◌, Result, ok, fail, thrown,
}
use high_performance_server.Locks.RwMutex.{returned}

-- sem_init, sem_wait and sem_post: what they return, and the semaphore that they leave. `none` is a call that
-- blocks.
pub record Calls : Type 1 where
  pub Sem : Type 0
  pub init : ℕ → ℕ × Sem
  pub wait : Sem → Option (ℕ × Sem)
  pub post : Sem → ℕ × Sem
  pub value : Sem → ℕ

-- As POSIX has it: a call that fails changes nothing.
pub record CallsLaws (c : Calls) : Type 0 where
  pub init_gives : (n : ℕ) (s : c.Sem) → c.init n ≡ (0, s) → c.value s ≡ n
  pub wait_gives : (s s' : c.Sem) → c.wait s ≡ some (0, s') → c.value s ≡ c.value s' + 1
  pub wait_fails : (e : ℕ) (s s' : c.Sem) → c.wait s ≡ some (suc e, s') → c.value s' ≡ c.value s
  pub post_gives : (s s' : c.Sem) → c.post s ≡ (0, s') → c.value s' ≡ c.value s + 1
  pub post_fails : (e : ℕ) (s s' : c.Sem) → c.post s ≡ (suc e, s') → c.value s' ≡ c.value s

module _ (c : Calls) where
  -- Semphore(count).
  unfoldable pub make : ℕ → Result c.Sem
  make count = let (ret, s) = c.init count in if ret == 0 then ok s else fail thrown

  -- wait() and post() make an exception where the call fails, and do not throw it.
  unfoldable pub wait : c.Sem → Option c.Sem
  wait s = returned (c.wait s)

  unfoldable pub post : c.Sem → c.Sem
  post s = (c.post s).1
