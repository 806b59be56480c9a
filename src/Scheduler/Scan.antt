-- ===== src/Scheduler/Scan.antt =====
-- ddg/scheduler.cc, Scheduler::run: the walk over the queue that picks a task, under the lock.
use high_performance_server.Prelude.{
  ℕ, ◌==◌, Bool, true, false, not, ◌&&◌, ◌||◌, List, [], ◌∷◌, Option, none, some, if◌then◌else◌,
  Result, ok, fail, undefined, ◌>>=◌,
}
use high_performance_server.Fiber.States.{
  State, unknow, uninit, init, hold, exec, term, ready, except,
}
use high_performance_server.Fiber.{World, get_state, set_state}
use high_performance_server.Scheduler.Queue.{Task}

-- What the body of the loop does with one task: leave it to another thread, wake its fiber, leave
-- it since its fiber runs, erase it, or take it.
pub data Action : Type 0 where
  pinned busy drops takes : Action
  wakes : ℕ → Action

-- The `switch` on the fiber's state.
abbrev pub on_state : ℕ → State → Action
on_state f init = wakes f
on_state f hold = wakes f
on_state f exec = busy
on_state f ready = takes
on_state f unknow = drops
on_state f uninit = drops
on_state f term = drops
on_state f except = drops

abbrev pub is_pinned : ℕ → Task → Bool
is_pinned self t = not (t.thread == 0) && t.thread == self

unfoldable pub action : ℕ → World → Task → Action
action self w t =
    if is_pinned self t
    then pinned
    else elim t.fiber [ none ↦ takes | some f ↦ on_state f (get_state w f) ]

-- What the walk leaves: tickle_me, the task that was taken, the queue and the fibers.
pub record Scan : Type 0 where
  pub tickle_me : Bool
  pub taken : Option Task
  pub queue : List Task
  pub world : World

abbrev pub keep : Task → Bool → Scan → Result Scan
keep t tickle s = ok (record s { queue = t ∷ s.queue; tickle_me = tickle || s.tickle_me })

-- The flag says that an `erase(it++)` has moved the iterator and the `for` will move it once more:
-- the task under it is passed over, and at the end of the list the step is undefined.
unfoldable pub scan : ℕ → Bool → World → List Task → Result Scan
unfolding action
scan self true w [] = fail undefined
scan self true w (t ∷ ts) = scan self false w ts >>= keep t false
scan self false w [] = ok (record { tickle_me = false; taken = none; queue = []; world = w })
scan self false w (t ∷ ts) = elim (action self w t) [
  | pinned ↦ scan self false w ts >>= keep t true
  | busy ↦ scan self false w ts >>= keep t false
  | wakes f ↦ scan self false (set_state w f ready) ts >>= keep t false
  | drops ↦ scan self true w ts
  | takes ↦ ok (record { tickle_me = true; taken = some t; queue = ts; world = w })
]
