-- ===== src/Scheduler/Threads/Counts.antt =====
-- The counters of Scheduler::run, while several threads are in the loop.
use high_performance_server.Prelude.{
  ℕ, zero, suc, ◌+◌, ◌≤◌, ◌<◌, Bool, true, false, List, Option, none, some, ◌≡◌, refl, sym, ap, ◌∙◌,
  arith,
}
use high_performance_server.Fiber.{World, word}
use high_performance_server.Scheduler.Queue.{Task, Scheduler, tickle_if, with_fibers}
use high_performance_server.Scheduler.Run.{
  active_incr, active_desc, idle_incr, idle_desc, settle, settle_idle,
}
use high_performance_server.Scheduler.Turns.{schedule_task-SameMembers, settle-SameMembers}
use high_performance_server.Scheduler.Threads.{
  Pc, looking, idling, ended, holding, starting, running, left, settling, waiting, System, walked,
  counted_down, settled, woken, Step, walks, drops, starts, switches_in, switches_back, counts_down,
  settles, waits, wakes, ends, schedules, stops, Reach, entered, stepped,
}
use high_performance_server.Scheduler.Threads.Tally.{
  active_bit, waiting_bit, tally, Counted, tally_le, Counted-put, Counted-up, Counted-down,
  Counted-wait, Counted-wake,
}

tickle_if-active : (r : Scheduler) (b : Bool) → (tickle_if (r, b)).active ≡ r.active
tickle_if-active r true = refl
tickle_if-active r false = refl

tickle_if-idle : (r : Scheduler) (b : Bool) → (tickle_if (r, b)).idle ≡ r.idle
tickle_if-idle r true = refl
tickle_if-idle r false = refl

module _ (n i : ℕ) (s : System) where
  walked-Counted :
      (b : Bool) (o : Option Task) (q : List Task) (w : World)
      → i < n
      → n < word
      → s.pcs i ≡ looking
      → Counted n s.scheduler s.pcs
      → (let t = walked i (record { tickle_me = b; taken = o; queue = q; world = w }) s in
          Counted n t.scheduler t.pcs)
  unfolding walked
  walked-Counted b (some t) q w l m k c =
      let r = active_incr (with_fibers s.scheduler q) in
      Counted-up n s.scheduler (tickle_if (r, b)) s.pcs i (holding t) l m k (refl, refl)
        (tickle_if-active r b) (tickle_if-idle r b) c
  walked-Counted b none q w l m k c =
      let r = with_fibers s.scheduler q in
      Counted-put n s.scheduler (tickle_if (r, b)) s.pcs i idling l (sym (ap active_bit k))
        (sym (ap waiting_bit k)) (tickle_if-active r b) (tickle_if-idle r b) c

  settled-Counted :
      (f : ℕ) (t : Task)
      → i < n
      → s.pcs i ≡ settling f t
      → Counted n s.scheduler s.pcs
      → Counted n (settled i f t s).scheduler (settled i f t s).pcs
  unfolding settled
  settled-Counted f t l k c =
      let v = settle-SameMembers f t s.scheduler s.world in
      Counted-put n s.scheduler (settle f t s.scheduler s.world).0 s.pcs i looking l
        (sym (ap active_bit k)) (sym (ap waiting_bit k)) v.active v.idle c

  woken-Counted :
      (f : ℕ) (w : World)
      → i < n
      → n < word
      → s.pcs i ≡ waiting f
      → Counted n s.scheduler s.pcs
      → Counted n (woken i f w s).scheduler (woken i f w s).pcs
  unfolding woken
  woken-Counted f w l m k c =
      let r = idle_desc s.scheduler in
      let e : (settle_idle f r w).scheduler ≡ r = ground arith in
      Counted-wake n s.scheduler (settle_idle f r w).scheduler s.pcs i looking f l m k (refl, refl)
        (ap (λ (r : Scheduler). r.active) e) (ap (λ (r : Scheduler). r.idle) e) c

  counted_down-Counted :
      (x : Pc)
      → i < n
      → n < word
      → active_bit (s.pcs i) ≡ 1
      → waiting_bit (s.pcs i) ≡ 0
      → (active_bit x ≡ 0) × (waiting_bit x ≡ 0)
      → Counted n s.scheduler s.pcs
      → Counted n (counted_down i x s).scheduler (counted_down i x s).pcs
  unfolding counted_down
  counted_down-Counted x l m k j e c =
      Counted-down n s.scheduler (active_desc s.scheduler) s.pcs i x l m k j e refl refl c

Step-Counted :
    {may : System → Task → Type 0} (n : ℕ) {s t : System}
    → n < word
    → Step may n s t
    → Counted n s.scheduler s.pcs
    → Counted n t.scheduler t.pcs
Step-Counted n {s} m (walks i k l e _) c =
    walked-Counted n i s k.tickle_me k.taken k.queue k.world l m e c
Step-Counted n {s} m (drops i t l e _) c =
    counted_down-Counted n i s looking l m (ap active_bit e) (ap waiting_bit e) (refl, refl) c
Step-Counted n {s} m (starts i f t t' w l e _ _) c =
    Counted-put n s.scheduler s.scheduler s.pcs i (starting f t') l (sym (ap active_bit e))
      (sym (ap waiting_bit e)) refl refl c
Step-Counted n {s} m (switches_in i _ f t w l e _) c =
    Counted-put n s.scheduler s.scheduler s.pcs i (running f t) l (sym (ap active_bit e))
      (sym (ap waiting_bit e)) refl refl c
Step-Counted n {s} m (switches_back i _ f t _ w l e _) c =
    Counted-put n s.scheduler s.scheduler s.pcs i (left f t) l (sym (ap active_bit e))
      (sym (ap waiting_bit e)) refl refl c
Step-Counted n {s} m (counts_down i f t l e) c =
    counted_down-Counted n i s (settling f t) l m (ap active_bit e) (ap waiting_bit e) (refl, refl)
      c
Step-Counted n {s} m (settles i f t l e) c = settled-Counted n i s f t l e c
Step-Counted n {s} m (waits i _ f w l e _ _) c =
    Counted-wait n s.scheduler (idle_incr s.scheduler) s.pcs i (waiting f) l m e (refl, refl) refl
      refl c
Step-Counted n {s} m (wakes i _ f _ w l e _) c = woken-Counted n i s f w l m e c
Step-Counted n {s} m (ends i l e _) c =
    Counted-put n s.scheduler s.scheduler s.pcs i ended l (sym (ap active_bit e))
      (sym (ap waiting_bit e)) refl refl c
Step-Counted n {s} m (schedules t _) (c, d) =
    let v = schedule_task-SameMembers t s.scheduler in (v.active ∙ c, v.idle ∙ d)
Step-Counted n {s} m (stops b) c = c

tally-looking :
    (p : ℕ → Pc) (n : ℕ)
    → ((i : ℕ) → p i ≡ looking)
    → (tally active_bit p n ≡ 0) × (tally waiting_bit p n ≡ 0)
unfolding tally
tally-looking p zero h = (refl, refl)
tally-looking p (suc n) h =
    let (a, b) = tally-looking p n h in
    (omega (arith, a, ap active_bit (h n)), omega (arith, b, ap waiting_bit (h n)))

pub Reach-Counted :
    {may : System → Task → Type 0} (n : ℕ) {s : System}
    → n < word
    → Reach may n s
    → Counted n s.scheduler s.pcs
Reach-Counted n m (entered s h _ a b) =
    let (c, d) = tally-looking s.pcs n h in (a ∙ sym c, b ∙ sym d)
Reach-Counted n m (stepped r k) = Step-Counted n m k (Reach-Counted n m r)

-- However the steps of fewer than 2 ^ 64 threads in the loop interleave with each other, with tasks
-- that are scheduled and with stops, m_activeThreadCount is the number of the threads that have
-- a task and have not yet counted themselves down, m_idleThreadCount the number of those that are
-- in their idle fibers, and the two together are at most the number of threads.
pub Reach-counts :
    (may : System → Task → Type 0) (n : ℕ) (s : System)
    → n < word
    → Reach may n s
    → (s.scheduler.active ≡ tally active_bit s.pcs n)
      × (s.scheduler.idle ≡ tally waiting_bit s.pcs n)
      × (s.scheduler.active + s.scheduler.idle ≤ n)
Reach-counts may n s m r =
    let (c, d) = Reach-Counted n m r in (c, d, omega (arith, c, d, tally_le s.pcs n))
