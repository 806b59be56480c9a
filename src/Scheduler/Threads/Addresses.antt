-- ===== src/Scheduler/Threads/Addresses.antt =====
-- Which steps of the loop make a new fiber.
use high_performance_server.Prelude.{
  ℕ, ◌+◌, Bool, true, false, List, [], ◌∷◌, Option, none, some, ◌≡◌, ◌⊎◌, refl, sym, ap, ◌∙◌, arith,
  Result, ok, ◌>>=◌, >>=-eq-ok, ok_injective, inl, inr, Option-cases,
}
use high_performance_server.Fiber.States.{ready}
use high_performance_server.Fiber.{
  World, set_state, swap_in, run_slice, Slice, yields_ready, yields_hold, leaves, returns, throws,
  new_fiber, yield_to_ready, yield_to_hold, yield_to, swap_out, main_func_end, get_this,
}
use high_performance_server.Fiber.IdSet.{take_id}
use high_performance_server.Scheduler.Queue.{Task, Scheduler}
use high_performance_server.Scheduler.Scan.{
  Action, pinned, busy, drops, takes, wakes, action, Scan, keep, scan,
}
use high_performance_server.Scheduler.Run.{settle, settle_idle, fiber_of}
use high_performance_server.Scheduler.Threads.{on_thread}

pub swap_in-next : (a m : ℕ) (w w' : World) → swap_in a (on_thread m m w) ≡ ok w' → w'.next ≡ w.next
unfolding swap_in
swap_in-next a m w w' h = ground arith

pub run_slice-next :
    (slice : Slice) (m f : ℕ) (w w' : World)
    → run_slice slice (on_thread m f w) ≡ ok w'
    → w'.next ≡ w.next
unfolding run_slice yield_to_ready yield_to_hold yield_to main_func_end get_this swap_out
run_slice-next yields_ready m f w w' h = ground arith
run_slice-next yields_hold m f w w' h = ground arith
run_slice-next leaves m f w w' h = ground arith
run_slice-next returns m f w w' h = ground arith
run_slice-next throws m f w w' h = ground arith

pub settle-next : (f : ℕ) (t : Task) (s : Scheduler) (w : World) → (settle f t s w).1.next ≡ w.next
settle-next f t s w = ground arith

pub settle_idle-next : (f : ℕ) (s : Scheduler) (w : World) → (settle_idle f s w).world.next ≡ w.next
settle_idle-next f s w = ground arith

keep-world :
    (t : Task) (b : Bool) (m : Result Scan) (w : World) {c : Scan}
    → ((d : Scan) → m ≡ ok d → d.world.next ≡ w.next)
    → m >>= keep t b ≡ ok c
    → c.world.next ≡ w.next
keep-world t b m w ih h =
    let (d, e, k) = >>=-eq-ok m (keep t b) h in
    ap (λ (c : Scan). c.world.next) (sym (ok_injective k)) ∙ ih d e

scan-next_at :
    (self : ℕ) (w : World) (t : Task) (ts : List Task) (a : Action) {c : Scan}
    → ((skip : Bool) (w' : World) (d : Scan) → scan self skip w' ts ≡ ok d → d.world.next ≡ w'.next)
    → action self w t ≡ a
    → scan self false w (t ∷ ts) ≡ ok c
    → c.world.next ≡ w.next
unfolding scan
scan-next_at self w t ts pinned ih e h =
    keep-world t true (scan self false w ts) w (ih false w) (rw (e, scan) at h)
scan-next_at self w t ts busy ih e h =
    keep-world t false (scan self false w ts) w (ih false w) (rw (e, scan) at h)
scan-next_at self w t ts (wakes f) ih e h =
    let w' = set_state w f ready in
    keep-world t false (scan self false w' ts) w (ih false w') (rw (e, scan) at h)
scan-next_at self w t ts drops ih e h = ih true w _ (rw (e, scan) at h)
scan-next_at self w t ts takes ih e h =
    ap (λ (c : Scan). c.world.next) (sym (ok_injective (rw (e, scan) at h)))

pub scan-next :
    (self : ℕ) (skip : Bool) (w : World) (q : List Task) (c : Scan)
    → scan self skip w q ≡ ok c
    → c.world.next ≡ w.next
scan-next self true w [] c h = unfold scan in cc
scan-next self true w (t ∷ ts) c h =
    let k : scan self false w ts >>= keep t false ≡ ok c = unfold scan in h in
    keep-world t false (scan self false w ts) w (scan-next self false w ts) k
scan-next self false w [] c h =
    unfold scan in ap (λ (c : Scan). c.world.next) (sym (ok_injective h))
scan-next self false w (t ∷ ts) c h =
    scan-next_at self w t ts (action self w t) (λ skip w' d. scan-next self skip w' ts d) refl h

new_fiber-next :
    (cb : Option ℕ) (w w' : World) (f : ℕ)
    → new_fiber cb 0 false w ≡ ok (f, w')
    → (f ≡ w.next) × (w'.next ≡ w.next + 1)
unfolding new_fiber
new_fiber-next cb w w' f h =
    let ((i, ids), h1, h2) = >>=-eq-ok (take_id w.ids) _ h in
    let k = ok_injective h2 in (ground arith, ground arith)

-- The task that a thread runs holds its fiber; a fiber that is made for it is new.
pub fiber_of-new :
    (t t' : Task) (f : ℕ) (w w' : World)
    → fiber_of t w ≡ ok (f, t', w')
    → (t'.fiber ≡ some f)
      × ((t'.fiber ≡ t.fiber) × (w'.next ≡ w.next)
          ⊎ (t.fiber ≡ none) × (f ≡ w.next) × (w'.next ≡ w.next + 1))
fiber_of-new t t' f w w' h = elim (Option-cases t.fiber) [
  | inr (g, e) ↦ ground arith
  | inl e ↦
      let ((g, w1), h1, h2) = >>=-eq-ok (new_fiber t.cb 0 false w) _ (rw e at h) in
      let (a, b) = new_fiber-next t.cb w w1 g h1 in let k = ok_injective h2 in ground arith
]
