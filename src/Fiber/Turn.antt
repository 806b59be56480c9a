-- ===== src/Fiber/Turn.antt =====
-- One turn of a fiber.
use high_performance_server.Prelude.{
  ℕ, ◌≡◌, ◌≢◌, Bool, true, false, some, is_some, if◌then◌else◌, ok, arith,
}
use high_performance_server.Fiber.States.{State, hold, exec, term, ready, except, eq_state}
use high_performance_server.Fiber.{
  World, Fiber, get_state, set_state, set_this, update, finish, Slice, yields_ready, yields_hold,
  leaves, returns, throws, resume, run_slice, run_callback, entry_of, main_func,
}

-- The state that a turn leaves; a null callback throws when it is called.
abbrev pub end_state : Slice → Bool → State
end_state yields_ready cb = ready
end_state yields_hold cb = hold
end_state leaves cb = exec
end_state returns cb = if cb then term else except
end_state throws cb = except

-- The world after a turn of `a` that leaves the fiber as `f`.
abbrev left_as : ℕ → ℕ → Fiber → World → World
left_as a m f w =
    let w1 = set_state (set_this (some a) w) a exec in
    set_this (some m) (record w1 { fibers = update w1.fibers a f })

-- A fiber of MainFunc that is not running and has not ended, on a thread with a scheduler fiber, takes its turn: no
-- assertion fails, control is back at the scheduler's fiber, the fiber is left in the state that its way of
-- leaving says, and no other fiber has changed.
pub resume_lem :
    (a m : ℕ) (s : Slice) (w : World)
    → eq_state (get_state w a) exec ≡ false
    → (w.fibers a).entry ≡ main_func
    → w.t_scheduler_fiber ≡ some m
    → (w' : World) × (resume a s w ≡ ok w')
      × (w'.t_fiber ≡ some m)
      × (get_state w' a ≡ end_state s (is_some (w.fibers a).cb))
      × ((b : ℕ) → b ≢ a → w'.fibers b ≡ w.fibers b)
unfolding resume run_slice run_callback entry_of
resume_lem a m yields_ready w e en h = (
  left_as a m (record (w.fibers a) { state = ready }) w,
  ground arith,
  ground arith,
  ground arith,
  λ b n. ground arith,
)
resume_lem a m yields_hold w e en h = (
  left_as a m (record (w.fibers a) { state = hold }) w,
  ground arith,
  ground arith,
  ground arith,
  λ b n. ground arith,
)
resume_lem a m leaves w e en h = (
  set_this (some m) (set_state (set_this (some a) w) a exec),
  ground arith,
  ground arith,
  ground arith,
  λ b n. ground arith,
)
resume_lem a m returns w e en h = (
  set_this (some m) (finish a true (set_state (set_this (some a) w) a exec)),
  ground arith,
  ground arith,
  ground arith,
  λ b n. ground arith,
)
resume_lem a m throws w e en h = (
  set_this (some m) (finish a false (set_state (set_this (some a) w) a exec)),
  ground arith,
  ground arith,
  ground arith,
  λ b n. ground arith,
)
