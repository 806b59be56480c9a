-- ===== src/Threads/Releasing.antt =====
-- How often the handle of a thread is released.
use high_performance_server.Prelude.{ℕ, ◌+◌, ◌==◌, List, [], ◌∷◌, if◌then◌else◌, ◌≡◌, ◌≢◌, ◌⊎◌, All}
use high_performance_server.Threads.{Call, pthread_join, pthread_detach, Owned}

-- The calls that have succeeded.
abbrev pub successes : List (Call × ℕ) → ℕ
successes [] = 0
successes ((c, ret) ∷ cs) = (if ret == 0 then 1 else 0) + successes cs

abbrev pub handle_of : Call × ℕ → ℕ
handle_of (pthread_join h, ret) = h
handle_of (pthread_detach h, ret) = h

-- The handle is still held and nothing has released it, or it is given up and has been released once.
abbrev Held : ℕ → Owned → Type 0
Held h o =
    All (λ c. handle_of c ≡ h) o.calls
    × ((o.thread.handle ≡ h) × (successes o.calls ≡ 0)
        ⊎ (o.thread.handle ≡ 0) × (successes o.calls ≡ 1))

-- The calls are all on one handle, and one of them has succeeded; or none, where the last, of the destructor, has
-- returned `last` and failed.
abbrev pub Once : ℕ → ℕ → Owned → Type 0
Once h last o =
    All (λ c. handle_of c ≡ h) o.calls
    × ((successes o.calls ≡ 1) ⊎ (last ≢ 0) × (successes o.calls ≡ 0))

-- Joining and detaching leave the thread's id, callback and name.
abbrev pub Keeps : Owned → Owned → Type 0
Keeps o o' =
    (o'.thread.id ≡ o.thread.id) × (o'.thread.cb ≡ o.thread.cb) × (o'.thread.name ≡ o.thread.name)
