-- ===== src/Scheduler/Threads/Stopped.antt =====
-- Scheduler::isStoped, while several threads are in the loop.
use high_performance_server.Prelude.{
  ℕ, zero, suc, ◌<◌, ◌==◌, true, false, ◌&&◌, List, [], ◌∷◌, ◌++◌, ◌≡◌, inl, inr, sym, ap, ◌∙◌,
  arith, Bool-cases,
}
use high_performance_server.Fiber.{get_state, word}
use high_performance_server.Fiber.States.{ready}
use high_performance_server.Scheduler.Queue.{
  Task, Scheduler, has_work, is_stoped, schedule_task, schedule_task_lem,
}
use high_performance_server.Scheduler.Run.{active_desc, settle}
use high_performance_server.Scheduler.Threads.{
  Pc, looking, idling, ended, waiting, holding, starting, running, left, settling, System,
  counted_down, settled, Step, counts_down, settles, Reach,
}
use high_performance_server.Scheduler.Threads.Tally.{active_bit, tally}
use high_performance_server.Scheduler.Threads.Counts.{Reach-Counted}

tally-zero : (b : Pc → ℕ) (p : ℕ → Pc) (n i : ℕ) → i < n → tally b p n ≡ 0 → b (p i) ≡ 0
unfolding tally
tally-zero b p zero i h e = elim h [ ]
tally-zero b p (suc n) i h e = elim (Bool-cases (n == i)) [
  | inl k ↦ let k' : n ≡ i = ground arith in omega (arith, e, ap (λ j. b (p j)) k')
  | inr k ↦ tally-zero b p n i (ground arith) (omega (arith, e))
]

is_stoped_lem : (r : Scheduler) → is_stoped r ≡ true → (r.fibers ≡ []) × (r.active ≡ 0)
unfolding is_stoped
is_stoped_lem r h = (ground arith, ground arith)

-- The thread is not counted as active.
abbrev pub IsUncounted : Pc → Type 0
IsUncounted looking = Unit
IsUncounted idling = Unit
IsUncounted ended = Unit
IsUncounted (waiting f) = Unit
IsUncounted (settling f t) = Unit
IsUncounted (holding t) = ⊥
IsUncounted (starting f t) = ⊥
IsUncounted (running f t) = ⊥
IsUncounted (left f t) = ⊥

active_bit-IsUncounted : (x : Pc) → active_bit x ≡ 0 → IsUncounted x
active_bit-IsUncounted looking e = tt
active_bit-IsUncounted idling e = tt
active_bit-IsUncounted ended e = tt
active_bit-IsUncounted (waiting f) e = tt
active_bit-IsUncounted (settling f t) e = tt
active_bit-IsUncounted (holding t) e = absurd (omega (arith, e))
active_bit-IsUncounted (starting f t) e = absurd (omega (arith, e))
active_bit-IsUncounted (running f t) e = absurd (omega (arith, e))
active_bit-IsUncounted (left f t) e = absurd (omega (arith, e))

-- However fewer than 2 ^ 64 threads interleave, while isStoped() holds the queue is empty, and each thread is
-- looking at the queue, idle, in its idle fiber's turn, or out of the loop, or it has counted itself down
-- after a turn and is about to deal with the task's fiber (it may then still hold a task that it puts back).
pub is_stoped-quiet :
    (may : System → Task → Type 0) (n : ℕ) (s : System) (i : ℕ)
    → n < word
    → Reach may n s
    → is_stoped s.scheduler ≡ true
    → i < n
    → (s.scheduler.fibers ≡ []) × IsUncounted (s.pcs i)
is_stoped-quiet may n s i m r h l =
    let (e, a) = is_stoped_lem s.scheduler h in
    let (c, _) = Reach-Counted n m r in
    (e, active_bit-IsUncounted (s.pcs i) (tally-zero active_bit s.pcs n i l (sym c ∙ a)))

-- Where the one thread that has a task is back from its fiber, which has yielded to READY, the queue
-- is empty and both flags are set, the thread's next step counts it down, and isStoped() then holds;
-- the step after that puts the task back, and isStoped() no longer holds.
pub is_stoped-early :
    (may : System → Task → Type 0) (n i f : ℕ) (t : Task) (s : System)
    → i < n
    → s.pcs i ≡ left f t
    → get_state s.world f ≡ ready
    → has_work t ≡ true
    → s.scheduler.fibers ≡ []
    → s.scheduler.active ≡ 1
    → s.scheduler.auto_stop && s.scheduler.stopping ≡ true
    → (let s1 = counted_down i (settling f t) s in
        let s2 = settled i f t s1 in
        (Step may n s s1 × (is_stoped s1.scheduler ≡ true))
        × Step may n s1 s2
        × (s2.scheduler.fibers ≡ t ∷ [])
        × (is_stoped s2.scheduler ≡ false))
unfolding counted_down settled is_stoped
is_stoped-early may n i f t s l p e w q a g =
    let r = active_desc s.scheduler in
    let v = (schedule_task_lem t r).0 w in
    let c : (settle f t r s.world).0 ≡ schedule_task t r = ground arith in
    let k : (settle f t r s.world).0.fibers ≡ t ∷ [] =
      ap (λ (r : Scheduler). r.fibers) (c ∙ v) ∙ ap (λ (q : List Task). q ++ t ∷ []) q in
    ((counts_down i f t l p, ground arith), settles i f t l (ground arith), k, ground arith)
