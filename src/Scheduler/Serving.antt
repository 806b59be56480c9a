-- ===== src/Scheduler/Serving.antt =====
-- How a thread's loop works through its queue.
pub mod Leaving
pub mod Rounds
use high_performance_server.Prelude.{
  ℕ, zero, suc, ◌+◌, Bool, true, false, List, [], ◌∷◌, ◌++◌, Option, none, some, is_some, get_elem?,
  ◌≡◌, ◌≢◌, refl, sym, ap, ◌∙◌, subst, arith, All, Result, ok, >>=-eq-ok, ok_injective, ◌>>=◌,
  Bool-cases, inl, inr,
}
use mathlib.Core.List.{append-nil, append_assoc}
use high_performance_server.Fiber.States.{
  State, init, hold, exec, ready, eq_state, unknow, uninit, term, except,
}
use high_performance_server.Fiber.{
  World, get_state, set_state, Slice, yields_ready, yields_hold, leaves, returns, throws, resume,
  main_func, run_slice, run_callback, entry_of, enter,
}
use high_performance_server.Fiber.Turn.{end_state, resume_lem}
use high_performance_server.Scheduler.Queue.{
  Task, Scheduler, has_work, schedule_task, schedule_task_lem,
}
use high_performance_server.Scheduler.Scan.{
  Scan, wakes, takes, on_state, action, is_pinned, keep, scan,
}
use high_performance_server.Scheduler.Run.{schedule_each}

-- The fiber can be woken by a walk over the queue.
abbrev pub sleeps : State → Bool
sleeps init = true
sleeps hold = true
sleeps _ = false

abbrev pub is_ready : State → Bool
is_ready st = eq_state st ready

-- The tasks are not pinned to the thread, and hold the fibers of the list, whose states pass the test.
abbrev pub Hold : ℕ → (State → Bool) → World → List Task → List ℕ → Type 0
Hold self test w [] [] = Unit
Hold self test w (t ∷ ts) (f ∷ fs) =
    ((is_pinned self t ≡ false) × (t.fiber ≡ some f) × (test (get_state w f) ≡ true))
    × Hold self test w ts fs
Hold self test w _ _ = ⊥

abbrev pub Distinct : List ℕ → Type 0
Distinct [] = Unit
Distinct (f ∷ fs) = All (λ g. g ≢ f) fs × Distinct fs

-- The fibers of the list are the same in both worlds.
abbrev pub Alike : World → World → List ℕ → Type 0
Alike w w' = All (λ f. w'.fibers f ≡ w.fibers f)

pub Hold-Alike :
    (self : ℕ) (test : State → Bool) (w w' : World) (ts : List Task) (fs : List ℕ)
    → Alike w w' fs
    → Hold self test w ts fs
    → Hold self test w' ts fs
Hold-Alike self test w w' [] [] a h = tt
Hold-Alike self test w w' (t ∷ ts) (f ∷ fs) (e, a) ((p, q, r), h) =
    ((p, q, ap (λ x. test x.state) e ∙ r), Hold-Alike self test w w' ts fs a h)
Hold-Alike self test w w' [] (f ∷ fs) a h = h
Hold-Alike self test w w' (t ∷ ts) [] a h = h

pub Alike-others :
    (w w' : World) (f : ℕ) (fs : List ℕ)
    → ((b : ℕ) → b ≢ f → w'.fibers b ≡ w.fibers b)
    → All (λ g. g ≢ f) fs
    → Alike w w' fs
Alike-others w w' f [] h d = tt
Alike-others w w' f (g ∷ fs) h (n, d) = (h g n, Alike-others w w' f fs h d)

set_state-other :
    (w : World) (f b : ℕ) (st : State) → b ≢ f → (set_state w f st).fibers b ≡ w.fibers b
set_state-other w f b st n = ground arith

on_state-sleeps : (f : ℕ) (st : State) → sleeps st ≡ true → on_state f st ≡ wakes f
on_state-sleeps f init h = refl
on_state-sleeps f hold h = refl
on_state-sleeps f unknow h = cc
on_state-sleeps f uninit h = cc
on_state-sleeps f exec h = cc
on_state-sleeps f term h = cc
on_state-sleeps f ready h = cc
on_state-sleeps f except h = cc

on_state-ready : (f : ℕ) (st : State) → is_ready st ≡ true → on_state f st ≡ takes
on_state-ready f ready h = refl
on_state-ready f init h = cc
on_state-ready f hold h = cc
on_state-ready f unknow h = cc
on_state-ready f uninit h = cc
on_state-ready f exec h = cc
on_state-ready f term h = cc
on_state-ready f except h = cc

action_lem :
    (self : ℕ) (w : World) (t : Task) (f : ℕ)
    → is_pinned self t ≡ false
    → t.fiber ≡ some f
    → action self w t ≡ on_state f (get_state w f)
unfolding action
action_lem self w t f p q = ground arith

-- The fibers are fibers of MainFunc whose last switch is to come.
abbrev pub Enter : World → List ℕ → Type 0
Enter w = All (λ f. (w.fibers f).entry ≡ main_func)

pub Enter-same :
    (w w' : World) (fs : List ℕ)
    → ((b : ℕ) → (w'.fibers b).entry ≡ (w.fibers b).entry)
    → Enter w fs
    → Enter w' fs
Enter-same w w' [] h n = tt
Enter-same w w' (f ∷ fs) h (n, ns) = (h f ∙ n, Enter-same w w' fs h ns)

pub Enter-Alike : (w w' : World) (fs : List ℕ) → Alike w w' fs → Enter w fs → Enter w' fs
Enter-Alike w w' [] a n = tt
Enter-Alike w w' (f ∷ fs) (e, a) (n, ns) = (ap (λ x. x.entry) e ∙ n, Enter-Alike w w' fs a ns)

-- What a walk over a queue of sleeping fibers leaves.
pub record Woken (self : ℕ) (w : World) (q : List Task) (fs : List ℕ) (c : Scan) : Type 0 where
  pub idle : c.taken ≡ none
  pub same : c.queue ≡ q
  pub ready : Hold self is_ready c.world q fs
  pub others : (b : ℕ) → All (λ f. b ≢ f) fs → c.world.fibers b ≡ w.fibers b
  pub callbacks : (b : ℕ) → (c.world.fibers b).cb ≡ (w.fibers b).cb
  pub entries : (b : ℕ) → (c.world.fibers b).entry ≡ (w.fibers b).entry
  pub thread : c.world.t_scheduler_fiber ≡ w.t_scheduler_fiber

pub All-flip : (f : ℕ) (fs : List ℕ) → All (λ g. g ≢ f) fs → All (λ g. f ≢ g) fs
All-flip f [] d = tt
All-flip f (g ∷ fs) (n, d) = ((λ e. n (sym e)), All-flip f fs d)

set_state-cb :
    (w : World) (f b : ℕ) (st : State) → ((set_state w f st).fibers b).cb ≡ (w.fibers b).cb
set_state-cb w f b st = ground arith

set_state-entry :
    (w : World) (f b : ℕ) (st : State) → ((set_state w f st).fibers b).entry ≡ (w.fibers b).entry
set_state-entry w f b st = ground arith

set_state_self : (w : World) (f : ℕ) (st : State) → get_state (set_state w f st) f ≡ st
set_state_self w f st = ground arith

-- A walk over unpinned tasks whose fibers all sleep, none of them twice, wakes all of them and takes none.
pub scan-Woken :
    (self : ℕ) (w : World) (q : List Task) (fs : List ℕ)
    → Hold self sleeps w q fs
    → Distinct fs
    → (c : Scan) × (scan self false w q ≡ ok c) × Woken self w q fs c
unfolding scan
scan-Woken self w [] [] h d = (
  _,
  refl,
  record {
    idle = refl;
    same = refl;
    ready = tt;
    others = λ b n. refl;
    callbacks = λ b. refl;
    entries = λ b. refl;
    thread = refl;
  },
)
scan-Woken self w (t ∷ q) (f ∷ fs) ((p, e, r), h) (n, d) =
    let w1 = set_state w f ready in
    let a : action self w t ≡ wakes f = action_lem self w t f p e ∙ on_state-sleeps f _ r in
    let u = Alike-others w w1 f fs (λ b k. set_state-other w f b ready k) n in
    let (c, z, v) = scan-Woken self w1 q fs (Hold-Alike self sleeps w w1 q fs u h) d in
    let k : c.world.fibers f ≡ w1.fibers f = v.others f (All-flip f fs n) in
    (
      record c { queue = t ∷ c.queue; tickle_me = c.tickle_me },
      rw (a, scan) (rw z refl),
      record {
        idle = v.idle;
        same = ap (◌∷◌ t) v.same;
        ready = (
          (p, e, ap (λ x. is_ready x.state) k ∙ ap is_ready (set_state_self w f ready)),
          v.ready,
        );
        others = λ b m. v.others b m.1 ∙ set_state-other w f b ready m.0;
        callbacks = λ b. v.callbacks b ∙ set_state-cb w f b ready;
        entries = λ b. v.entries b ∙ set_state-entry w f b ready;
        thread = v.thread;
      },
    )
scan-Woken self w [] (f ∷ fs) h d = elim h [ ]
scan-Woken self w (t ∷ q) [] h d = elim h [ ]

-- A walk over a queue whose first task is ready takes it.
pub scan-takes :
    (self : ℕ) (w : World) (t : Task) (f : ℕ) (q : List Task)
    → is_pinned self t ≡ false
    → t.fiber ≡ some f
    → is_ready (get_state w f) ≡ true
    → scan self false w (t ∷ q)
      ≡ ok (record { tickle_me = true; taken = some t; queue = q; world = w })
unfolding scan
scan-takes self w t f q p e r =
    rw (action_lem self w t f p e ∙ on_state-ready f (get_state w f) r, scan) refl

-- Turns only put tasks behind the queue.
pub schedule_task-behind :
    (t : Task) (s : Scheduler)
    → (more : List Task) × ((schedule_task t s).fibers ≡ s.fibers ++ more)
schedule_task-behind t s = elim (Bool-cases (has_work t)) [
  | inl e ↦ (t ∷ [], ap (λ (s : Scheduler). s.fibers) ((schedule_task_lem t s).0 e))
  | inr e ↦ (
    [],
    ap (λ (s : Scheduler). s.fibers) ((schedule_task_lem t s).1 e) ∙ sym (append-nil s.fibers),
  )
]

pub schedule_each-behind :
    (ts : List Task) (s : Scheduler)
    → (more : List Task) × ((schedule_each ts s).fibers ≡ s.fibers ++ more)
unfolding schedule_each
schedule_each-behind [] s = ([], sym (append-nil s.fibers))
schedule_each-behind (t ∷ ts) s =
    let (a, e) = schedule_task-behind t s in
    let (b, k) = schedule_each-behind ts (schedule_task t s) in
    (a ++ b, k ∙ ap (λ (q : List Task). q ++ b) e ∙ append_assoc s.fibers a b)

-- A turn leaves the thread its scheduler fiber.
pub resume-thread :
    (a m : ℕ) (s : Slice) (w w' : World)
    → (w.fibers a).entry ≡ main_func
    → eq_state (get_state w a) exec ≡ false
    → w.t_scheduler_fiber ≡ some m
    → resume a s w ≡ ok w'
    → w'.t_scheduler_fiber ≡ some m
unfolding resume run_slice run_callback entry_of
resume-thread a m yields_ready w w' n x h e = ground arith
resume-thread a m yields_hold w w' n x h e = ground arith
resume-thread a m leaves w w' n x h e = ground arith
resume-thread a m returns w w' n x h e = ground arith
resume-thread a m throws w w' n x h e = ground arith
