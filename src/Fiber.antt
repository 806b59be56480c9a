-- ===== src/Fiber.antt =====
-- ddg/fiber.h and ddg/fiber.cc: fibers on an explicit store, with the thread's t_fiber,
-- t_threadFiber and t_scheduler_fiber. A pointer is an address; what a callback does between two
-- switches is an argument (`Slice`).
pub mod States
pub mod IdSet
pub mod Turn
use high_performance_server.Prelude.{
  ℕ, ◌+◌, ◌-◌, ◌%◌, ◌^◌, ◌==◌, Bool, true, false, not, ◌&&◌, ◌||◌, List, [], ◌∷◌, Option, none,
  some, is_some, if◌then◌else◌, Result, ok, fail, assertion, undefined, ◌>>=◌,
}
use States.{State, uninit, init, hold, exec, term, ready, except, eq_state}
use IdSet.{Ids, take_id}

-- Where a fiber goes on when it is switched in: in MainFunc or in CallerMainFunc, as makecontext has set
-- it; on its thread's own stack; or, after the last switch of these two, at their `DDG_ASSERT_MSG(false, …)`.
pub data Entry : Type 0 where
  main_func caller_main_func thread_stack never_reach : Entry

pub record Fiber : Type 0 where
  pub id : ℕ
  pub stacksize : ℕ
  pub state : State
  pub stack : Bool
  pub cb : Option ℕ
  pub entry : Entry

pub record World : Type 0 where
  pub fibers : ℕ → Fiber
  pub next : ℕ
  pub ids : Ids
  pub count : ℕ
  pub t_fiber : Option ℕ
  pub t_thread_fiber : Option ℕ
  pub t_scheduler_fiber : Option ℕ
  pub default_stack : ℕ

abbrev pub update : (ℕ → Fiber) → ℕ → Fiber → ℕ → Fiber
update fs a f b = if b == a then f else fs b

abbrev pub get_state : World → ℕ → State
get_state w a = (w.fibers a).state

abbrev pub set_state : World → ℕ → State → World
set_state w a s = record w { fibers = update w.fibers a (record (w.fibers a) { state = s }) }

abbrev pub set_this : Option ℕ → World → World
set_this f w = record w { t_fiber = f }

abbrev pub word : ℕ
word = 2 ^ 64

abbrev pub count_incr : World → World
count_incr w = record w { count = (w.count + 1) % word }

abbrev pub count_desc : World → World
count_desc w = record w { count = (w.count + word - 1) % word }

abbrev pub allocate : World → Fiber → World
allocate w f = record w { fibers = update w.fibers w.next f; next = w.next + 1 }

-- Fiber(): the fiber of the thread's own stack.
unfoldable pub main_fiber : World → ℕ × World
main_fiber w =
    let f : Fiber = record {
      id = 0;
      stacksize = 0;
      state = exec;
      stack = false;
      cb = none;
      entry = thread_stack;
    } in
    (w.next, count_incr (set_this (some w.next) (allocate w f)))

-- Fiber(cb, stacksize, use_caller).
unfoldable pub new_fiber : Option ℕ → ℕ → Bool → World → Result (ℕ × World)
new_fiber cb stacksize use_caller w = take_id w.ids >>= λ (i, ids).
    let f : Fiber = record {
      id = i;
      stacksize = if stacksize == 0 then w.default_stack else stacksize;
      state = init;
      stack = true;
      cb = cb;
      entry = if use_caller then caller_main_func else main_func;
    } in
    ok (w.next, count_incr (allocate (record w { ids = ids }) f))

abbrev pub is_done : State → Bool
is_done s = eq_state s term || eq_state s except

abbrev pub is_idle : State → Bool
is_idle s = is_done s || eq_state s init

-- ~Fiber.
unfoldable pub destroy : ℕ → World → Result World
destroy a w =
    let w' = count_desc w in
    if (w.fibers a).stack
    then (if is_idle (get_state w a) then ok w' else fail assertion)
    else if not (is_some (w.fibers a).cb) && eq_state (get_state w a) exec
    then ok (elim w.t_fiber [ none ↦ w' | some c ↦ if c == a then set_this none w' else w' ])
    else fail assertion

unfoldable pub reset : ℕ → Option ℕ → World → Result World
reset a cb w =
    if (w.fibers a).stack && is_idle (get_state w a)
    then ok (record w {
      fibers = update w.fibers a (record (w.fibers a) { cb = cb; entry = main_func; state = init });
    })
    else fail assertion

-- The pointer that a switch dereferences; null is undefined behaviour.
abbrev pub deref : Option ℕ → Result ℕ
deref none = fail undefined
deref (some a) = ok a

unfoldable pub swap_in : ℕ → World → Result World
swap_in a w =
    if eq_state (get_state w a) exec
    then fail assertion
    else deref w.t_scheduler_fiber >>= λ m. ok (set_state (set_this (some a) w) a exec)

unfoldable pub swap_out : ℕ → World → Result World
swap_out a w = deref w.t_scheduler_fiber >>= λ m. ok (set_this (some m) w)

unfoldable pub call : ℕ → World → Result World
call a w = deref w.t_thread_fiber >>= λ m. ok (set_state (set_this (some a) w) a exec)

unfoldable pub back : ℕ → World → Result World
back a w = deref w.t_thread_fiber >>= λ m. ok (set_this (some m) w)

-- Fiber::GetThis: the running fiber, or the thread's own, made now.
unfoldable pub get_this : World → ℕ × World
unfolding main_fiber
get_this w = elim w.t_fiber [
  | some a ↦ (a, w)
  | none ↦ let (a, w') = main_fiber w in (a, record w' { t_thread_fiber = some a })
]

unfoldable pub yield_to : State → World → Result World
unfolding get_this swap_out
yield_to s w =
    let (a, w') = get_this w in
    if eq_state (get_state w' a) exec then swap_out a (set_state w' a s) else fail assertion

unfoldable pub yield_to_ready : World → Result World
unfolding yield_to
yield_to_ready w = yield_to ready w

unfoldable pub yield_to_hold : World → Result World
unfolding yield_to
yield_to_hold w = yield_to hold w

-- The callback has ended: `returned` says that it threw nothing. A null callback throws. The switch that
-- follows is the last: what comes after it is an assertion that fails.
abbrev pub finished_as : Bool → Fiber → Fiber
finished_as returned f =
    if returned && is_some f.cb
    then record f { cb = none; state = term; entry = never_reach }
    else record f { state = except; entry = never_reach }

abbrev pub finish : ℕ → Bool → World → World
finish a returned w = record w { fibers = update w.fibers a (finished_as returned (w.fibers a)) }

unfoldable pub main_func_end : Bool → World → Result World
unfolding get_this swap_out
main_func_end returned w = let (a, w') = get_this w in swap_out a (finish a returned w')

unfoldable pub caller_main_func_end : Bool → World → Result World
unfolding get_this back
caller_main_func_end returned w = let (a, w') = get_this w in back a (finish a returned w')

-- How a fiber's turn ends: by a yield, by a bare swapOut (as IOManager::idle does), or at the
-- end of its callback.
pub data Slice : Type 0 where
  yields_ready yields_hold leaves returns throws : Slice

-- The end of the callback of a fiber that goes on at an entry. A thread's own stack has no such callback.
abbrev pub ends_as : Entry → Bool → World → Result World
ends_as main_func returned w = main_func_end returned w
ends_as caller_main_func returned w = caller_main_func_end returned w
ends_as thread_stack returned w = fail undefined
ends_as never_reach returned w = fail assertion

-- A fiber that is switched in goes on at its entry.
abbrev pub enter : Entry → World → Result World
enter never_reach w = fail assertion
enter _ w = ok w

-- The entry of the running fiber.
unfoldable pub entry_of : World → Entry
entry_of w = elim w.t_fiber [ none ↦ thread_stack | some a ↦ (w.fibers a).entry ]

unfoldable pub run_callback : Slice → World → Result World
unfolding yield_to_ready yield_to_hold main_func_end caller_main_func_end get_this swap_out entry_of
run_callback yields_ready w = yield_to_ready w
run_callback yields_hold w = yield_to_hold w
run_callback leaves w = let (a, w') = get_this w in swap_out a w'
run_callback returns w = ends_as (entry_of w) true w
run_callback throws w = ends_as (entry_of w) false w

-- From the switch in to the switch back.
unfoldable pub run_slice : Slice → World → Result World
unfolding run_callback entry_of
run_slice s w = enter (entry_of w) w >>= run_callback s

-- One turn: the scheduler switches the fiber in, and it runs until it switches back.
unfoldable pub resume : ℕ → Slice → World → Result World
unfolding swap_in run_slice
resume a s w = swap_in a w >>= run_slice s
