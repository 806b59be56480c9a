-- ===== src/Scheduler/Threads/Exclusive.antt =====
-- Which thread runs which fiber, in the loop of Scheduler::run.
use high_performance_server.Prelude.{
  ℕ, zero, suc, ◌+◌, ◌≤◌, ◌<◌, ◌==◌, Bool, true, false, List, Option, none, some, ◌≡◌, ◌≢◌, ◌⊎◌,
  refl, sym, ap, ◌∙◌, subst, arith, Bool-cases, inl, inr, ok,
}
use high_performance_server.Fiber.{World, set_state}
use high_performance_server.Fiber.States.{ready}
use high_performance_server.Scheduler.Queue.{Task, Scheduler, tickle_if, schedule_task, with_fibers}
use high_performance_server.Scheduler.Scan.{scan}
use high_performance_server.Scheduler.Run.{
  settle, settle_idle, fiber_of, active_incr, active_desc, idle_incr, idle_desc,
}
use high_performance_server.Scheduler.Picking.{scan-Walked}
use high_performance_server.Scheduler.Threads.{
  Pc, looking, idling, ended, holding, starting, running, left, settling, waiting, System, set_pc,
  with_scheduler, with_world, walked, counted_down, settled, woken, Step, walks, drops, starts,
  switches_in, switches_back, counts_down, settles, waits, wakes, ends, schedules, stops, Reach,
  entered, stepped,
}
use high_performance_server.Scheduler.Threads.Tally.{tally, put}
use high_performance_server.Scheduler.Threads.Addresses.{
  swap_in-next, run_slice-next, settle-next, settle_idle-next, scan-next, fiber_of-new,
}
use high_performance_server.Scheduler.Threads.Owners.{
  holds, holds_at, queued, in_hand, occurrences, queued-Removes, queued-schedule_task, runs, Owns,
  Owns-in_hand, tally_two_le, occurrences-put,
}

-- A task that may be scheduled from outside the loop: its fiber, if it has one, has been made, and no
-- task in the queue or in a thread's hands holds it.
abbrev pub IsUnheld : ℕ → System → Task → Type 0
IsUnheld n s t = (f : ℕ) → t.fiber ≡ some f → (f < s.world.next) × (occurrences n f s ≡ 0)

record Held (n : ℕ) (s : System) : Type 0 where
  once : (f : ℕ) → occurrences n f s ≤ 1
  made : (f : ℕ) → s.world.next ≤ f → occurrences n f s ≡ 0
  owns : (i : ℕ) → Owns (s.pcs i)

Owns-put :
    (p : ℕ → Pc) (i : ℕ) (x : Pc) → ((j : ℕ) → Owns (p j)) → Owns x → (j : ℕ) → Owns (put i x p j)
Owns-put p i x h o j = elim (Bool-cases (j == i)) [ inl e ↦ rw e o | inr e ↦ rw e (h j) ]

-- A step of the thread `i` that puts no fiber into one more place.
module _ (n i : ℕ) (x : Pc) (s : System) (r : Scheduler) (w : World) where
  Held-put :
      i < n
      → ((f : ℕ)
          → queued f r.fibers + in_hand f x ≤ queued f s.scheduler.fibers + in_hand f (s.pcs i))
      → Owns x
      → w.next ≡ s.world.next
      → Held n s
      → Held n (set_pc i x (with_world w (with_scheduler r s)))
  Held-put l m o e h =
      let le = λ (f : ℕ).
        occurrences-put n f i x s.scheduler.fibers r.fibers s.pcs 0 l (omega (arith, m f)) in
      record {
        once = λ f. omega (arith, le f, h.once f);
        made = λ f k. omega (arith, le f, h.made f (rw (sym e) k));
        owns = Owns-put s.pcs i x h.owns o;
      }

tickle_if-fibers : (r : Scheduler) (b : Bool) → (tickle_if (r, b)).fibers ≡ r.fibers
tickle_if-fibers r true = refl
tickle_if-fibers r false = refl

in_hand_at : (s : System) (i f : ℕ) {x : Pc} → s.pcs i ≡ x → in_hand f (s.pcs i) ≡ in_hand f x
in_hand_at s i f e = ap (in_hand f) e

Owns-at : (n : ℕ) (s : System) (i : ℕ) {x : Pc} → Held n s → s.pcs i ≡ x → Owns x
Owns-at n s i h e = subst Owns e (h.owns i)

queued-settle :
    (g f : ℕ) (t : Task) (s : Scheduler) (w : World)
    → queued g (settle f t s w).0.fibers ≤ queued g s.fibers + holds g t
queued-settle g f t s w = ground (arith, queued-schedule_task g t s)

module _ (n i : ℕ) (s : System) where
  walked-Held :
      (b : Bool) (o : Option Task) (q : List Task) (w : World)
      → i < n
      → s.pcs i ≡ looking
      → scan i false s.world s.scheduler.fibers
        ≡ ok (record { tickle_me = b; taken = o; queue = q; world = w })
      → Held n s
      → Held n (walked i (record { tickle_me = b; taken = o; queue = q; world = w }) s)
  unfolding walked
  walked-Held b (some t) q w l k e h =
      let v = scan-Walked i false s.world s.scheduler.fibers _ e in
      let r = active_incr (with_fibers s.scheduler q) in
      Held-put n i (holding t) s (tickle_if (r, b)) w l
        (λ f. omega (arith, ap (queued f) (tickle_if-fibers r b), queued-Removes f v.removes)) tt
        (scan-next i false s.world s.scheduler.fibers _ e) h
  walked-Held b none q w l k e h =
      let v = scan-Walked i false s.world s.scheduler.fibers _ e in
      let r = with_fibers s.scheduler q in
      Held-put n i idling s (tickle_if (r, b)) w l
        (λ f. omega (arith, ap (queued f) (tickle_if-fibers r b), queued-Removes f v.removes)) tt
        (scan-next i false s.world s.scheduler.fibers _ e) h

  settled-Held :
      (f : ℕ) (t : Task) → i < n → s.pcs i ≡ settling f t → Held n s → Held n (settled i f t s)
  unfolding settled
  settled-Held f t l k h =
      Held-put n i looking s (settle f t s.scheduler s.world).0 (settle f t s.scheduler s.world).1 l
        (λ g. omega (arith, in_hand_at s i g k, queued-settle g f t s.scheduler s.world)) tt
        (settle-next f t s.scheduler s.world) h

  woken-Held :
      (f : ℕ) (w : World)
      → i < n
      → s.pcs i ≡ waiting f
      → w.next ≡ s.world.next
      → Held n s
      → Held n (woken i f w s)
  unfolding woken
  woken-Held f w l k e h =
      let r = idle_desc s.scheduler in
      let a : (settle_idle f r w).scheduler ≡ r = ground arith in
      let v : Held n (
          set_pc i looking (
            with_world (settle_idle f r w).world
              (with_scheduler (settle_idle f r w).scheduler s))) =
        Held-put n i looking s (settle_idle f r w).scheduler (settle_idle f r w).world l
          (λ g. omega (arith, ap (λ (r : Scheduler). queued g r.fibers) a)) tt
          (settle_idle-next f r w ∙ e) h in
      record { once = v.once; made = v.made; owns = v.owns }

-- Nothing of what the threads hold changes.
Held-pc :
    (n i : ℕ) (x : Pc) (s : System) (r : Scheduler) (w : World) {y : Pc}
    → i < n
    → s.pcs i ≡ y
    → ((f : ℕ) → in_hand f x ≤ in_hand f y)
    → (Owns y → Owns x)
    → r.fibers ≡ s.scheduler.fibers
    → w.next ≡ s.world.next
    → Held n s
    → Held n (set_pc i x (with_world w (with_scheduler r s)))
Held-pc n i x s r w l k m o e a h =
    Held-put n i x s r w l (λ f. omega (arith, in_hand_at s i f k, ap (queued f) e, m f))
      (o (Owns-at n s i h k)) a h

holds_cases : (f : ℕ) (t : Task) → (holds f t ≡ 0) ⊎ (holds f t ≡ 1) × (t.fiber ≡ some f)
holds_cases f t = ground arith

-- One more task is held, whose fiber was in no place.
Held-fresh :
    (n : ℕ) (s s' : System) (t : Task)
    → ((f : ℕ) → occurrences n f s' ≤ occurrences n f s + holds f t)
    → ((f : ℕ) → t.fiber ≡ some f → (f < s'.world.next) × (occurrences n f s ≡ 0))
    → s.world.next ≤ s'.world.next
    → ((i : ℕ) → Owns (s'.pcs i))
    → Held n s
    → Held n s'
Held-fresh n s s' t le u m o h = record {
  once = λ f. elim (holds_cases f t) [
    | inl e ↦ omega (arith, le f, e, h.once f)
    | inr (e, k) ↦ omega (arith, le f, e, (u f k).1)
  ];
  made = λ f l. elim (holds_cases f t) [
    | inl e ↦ let z = h.made f (omega (arith, l, m)) in omega (arith, le f, e, z)
    | inr (e, k) ↦ absurd (let v = (u f k).0 in omega (arith, l, v))
  ];
  owns = o;
}

-- A new fiber, for a callback.
Held-new :
    (n i f : ℕ) (t t' : Task) (s : System) (w : World)
    → i < n
    → s.pcs i ≡ holding t
    → t.fiber ≡ none
    → t'.fiber ≡ some f
    → f ≡ s.world.next
    → w.next ≡ s.world.next + 1
    → Held n s
    → Held n (set_pc i (starting f t') (with_world w s))
Held-new n i f t t' s w l k a b e c h =
    Held-fresh n s (set_pc i (starting f t') (with_world w s)) t'
      (λ g.
        occurrences-put n g i (starting f t') s.scheduler.fibers s.scheduler.fibers s.pcs
          (holds g t') l (omega arith))
      (λ g d. let q : f ≡ g = cc in (omega (arith, q, e, c), h.made g (omega (arith, q, e))))
      (omega (arith, c)) (Owns-put s.pcs i (starting f t') h.owns b) h

Held-starts :
    (n i f : ℕ) (t t' : Task) (s : System) (w : World)
    → i < n
    → s.pcs i ≡ holding t
    → fiber_of t s.world ≡ ok (f, t', w)
    → Held n s
    → Held n (set_pc i (starting f t') (with_world (set_state w f ready) s))
Held-starts n i f t t' s w l k e h =
    let (b, o) = fiber_of-new t t' f s.world w e in
    let w' = set_state w f ready in
    elim o [
      | inl (a, c) ↦
          Held-pc n i (starting f t') s s.scheduler w' l k (λ g. omega (arith, ap (holds_at g) a))
            (λ _. b) refl c h
      | inr (a, d, c) ↦ Held-new n i f t t' s w' l k a b d c h
    ]

counted_down-Held :
    (n i : ℕ) (x : Pc) (s : System) {y : Pc}
    → i < n
    → s.pcs i ≡ y
    → ((f : ℕ) → in_hand f x ≤ in_hand f y)
    → (Owns y → Owns x)
    → Held n s
    → Held n (counted_down i x s)
unfolding counted_down
counted_down-Held n i x s l k m o h =
    Held-pc n i x s (active_desc s.scheduler) s.world l k m o refl refl h

Held-schedules :
    (n : ℕ) (t : Task) (s : System)
    → IsUnheld n s t
    → Held n s
    → Held n (with_scheduler (schedule_task t s.scheduler) s)
Held-schedules n t s u h =
    Held-fresh n s (with_scheduler (schedule_task t s.scheduler) s) t
      (λ g. omega (arith, queued-schedule_task g t s.scheduler)) u (omega arith) h.owns h

Step-Held : (n : ℕ) {s t : System} → Step (IsUnheld n) n s t → Held n s → Held n t
Step-Held n {s} (walks i c l e k) h = walked-Held n i s c.tickle_me c.taken c.queue c.world l e k h
Step-Held n {s} (drops i t l e _) h =
    counted_down-Held n i looking s l e (λ f. omega arith) (λ _. tt) h
Step-Held n {s} (starts i f t t' w l e _ k) h = Held-starts n i f t t' s w l e k h
Step-Held n {s} (switches_in i m f t w l e k) h =
    Held-pc n i (running f t) s s.scheduler w l e (λ g. omega arith) (λ o. o) refl
      (swap_in-next f m s.world w k) h
Step-Held n {s} (switches_back i m f t slice w l e k) h =
    Held-pc n i (left f t) s s.scheduler w l e (λ g. omega arith) (λ o. o) refl
      (run_slice-next slice m f s.world w k) h
Step-Held n {s} (counts_down i f t l e) h =
    counted_down-Held n i (settling f t) s l e (λ f. omega arith) (λ o. o) h
Step-Held n {s} (settles i f t l e) h = settled-Held n i s f t l e h
Step-Held n {s} (waits i m f w l e _ k) h =
    Held-pc n i (waiting f) s (idle_incr s.scheduler) w l e (λ g. omega arith) (λ _. tt) refl
      (swap_in-next f m s.world w k) h
Step-Held n {s} (wakes i m f slice w l e k) h =
    woken-Held n i s f w l e (run_slice-next slice m f s.world w k) h
Step-Held n {s} (ends i l e _) h =
    Held-pc n i ended s s.scheduler s.world l e (λ g. omega arith) (λ _. tt) refl refl h
Step-Held n (schedules t u) h = Held-schedules n t _ u h
Step-Held n (stops b) h = record { once = h.once; made = h.made; owns = h.owns }

looking-none : (n f : ℕ) (p : ℕ → Pc) → ((i : ℕ) → p i ≡ looking) → tally (in_hand f) p n ≡ 0
unfolding tally
looking-none zero f p h = refl
looking-none (suc n) f p h = omega (arith, looking-none n f p h, ap (in_hand f) (h n))

Reach-Held : (n : ℕ) {s : System} → Reach (IsUnheld n) n s → Held n s
unfolding queued
Reach-Held n (entered s h q _ _) =
    let e = λ (f : ℕ). looking-none n f s.pcs h in
    let d = λ (f : ℕ). ap (queued f) q in
    record {
      once = λ f. omega (arith, e f, d f);
      made = λ f _. omega (arith, e f, d f);
      owns = λ i. subst Owns (sym (h i)) tt;
    }
Reach-Held n (stepped r k) = Step-Held n k (Reach-Held n r)

-- Where the tasks that are scheduled from outside the loop hold a fiber that has been made and that
-- no task in the queue or in a thread's hands holds, two threads never run the same fiber, from the
-- setting of READY before swapIn to what the loop does with it after the switch back, however
-- their steps interleave.
pub runs-exclusive :
    (n : ℕ) (s : System) (i j f g : ℕ)
    → Reach (IsUnheld n) n s
    → i < n
    → j < n
    → i ≢ j
    → runs (s.pcs i) ≡ some f
    → runs (s.pcs j) ≡ some g
    → f ≢ g
runs-exclusive n s i j f g r l m d a b e =
    let h = Reach-Held n r in
    let a' = Owns-in_hand (s.pcs i) f (h.owns i) a in
    let b' = Owns-in_hand (s.pcs j) f (h.owns j) (b ∙ ap some (sym e)) in
    omega (arith, a', b', h.once f, tally_two_le (in_hand f) s.pcs n i j l m d)
