-- ===== src/IoManager/Refining/Registering.antt =====
-- addEvent against the specification, and all the operations.
use high_performance_server.Prelude.{
  ℕ, ◌*◌, ◌/◌, ◌≤◌, ltb, ◌==◌, true, false, ◌&&◌, Option, none, some, is_some, length, get_elem?,
  if◌then◌else◌, ◌≡◌, refl, sym, ap, ◌∙◌, arith, Bool-cases, inl, inr,
}
use high_performance_server.IoManager.Events.{Event, has, with_event, FdContext, CtlCall, edge}
use high_performance_server.IoManager.{
  Manager, Caller, put, called, add_event, add_to, add_op, grown, context_resize, pending_incr,
}
use high_performance_server.IoManager.Valid.{Valid, Valid-IsSlot, resize-length}
use high_performance_server.IoManager.Keeps.{called-Valid}
use high_performance_server.IoManager.Adding.{
  waiting, armed, grown_lem, register_lem, slot_lem, added-Valid,
}
use high_performance_server.IoManager.Waiters.{
  view, eq_event, Op, adds, deletes, cancels, cancels_all, Allowed, perform,
}
use high_performance_server.IoManager.Waiters.Slots.{waiter_of-armed, put-waiters, resize-waiters}
use high_performance_server.IoManager.Refining.{Refines, is_some-waiter_of, waiter-at, length-put}
use high_performance_server.IoManager.Refining.Cancelling.{
  del_event-Refines, cancel_event-Refines, cancel_all-Refines,
}

grown-view :
    (i : ℕ) (m : Manager)
    → 2 ≤ length m.contexts
    → ((j : ℕ) (f : Event) → (view (grown i m)).waiters j f ≡ (view m).waiters j f)
      × (length m.contexts ≤ length (grown i m).contexts)
      × ((grown i m).schedulers ≡ m.schedulers)
unfolding context_resize
grown-view i m two = elim (Bool-cases (ltb i (length m.contexts))) [
  | inl h ↦ rw h ((λ j f. refl), omega arith, refl)
  | inr h ↦
      let n : length m.contexts ≤ 3 * i / 2 = ground arith in
      rw h (
        (λ j f. resize-waiters (3 * i / 2) m.contexts j f n),
        omega (arith, n, resize-length 0 (3 * i / 2) m.contexts),
        refl,
      )
]

free-at :
    (m : Manager) (i : ℕ) (e : Event) (c : FdContext)
    → (view m).waiters i e ≡ none
    → get_elem? m.contexts i ≡ some c
    → has e c.events ≡ false
free-at m i e c h g =
    sym (is_some-waiter_of c e) ∙ ap is_some (sym (waiter-at m i e (some c) g) ∙ h)

add_event-Refines :
    (ret : CtlCall → ℕ) (who : Caller) (i : ℕ) (e : Event) (cb : Option ℕ) (m : Manager)
    → Valid m
    → 2 ≤ length m.contexts
    → Allowed (adds who i e cb) (view m)
    → Refines ret (adds who i e cb) m (add_event ret who i e cb m)
unfolding add_event add_to
add_event-Refines ret who i e cb m v two (w, n, x) =
    let (c, g, h, u) = grown_lem i e m two v (λ c g. free-at m i e c x g) in
    let (s, l, q) = grown-view i m two in
    let m0 = grown i m in
    let k : CtlCall = record {
      op = add_op c.events;
      fd = i;
      mask = edge (with_event e c.events);
    } in
    let m1 = called k m0 in
    let m2 = put i (armed who cb e c) (pending_incr m1) in
    rw (slot_lem i m0 c g) (elim (Bool-cases (ret k == 0)) [
      | inl z ↦ rw z (
          rw (register_lem who i e cb c m1 w n (Valid-IsSlot i m0 u g).0 h) (
            true,
            m2,
            k,
            refl,
            added-Valid who i e cb c k m0 w n g h u,
            omega (arith, l, length-put m0 i (armed who cb e c)),
            sym (rw z refl),
            (
              λ j f.
                  put-waiters i e (some (waiting who cb)) m0.contexts c (armed who cb e c) g
                    (λ f. waiter_of-armed who cb e f c n) j f
                  ∙ ap (λ o. if j == i && eq_event f e then some (waiting who cb) else o) (s j f),
              q,
            ),
          ))
      | inr z ↦ rw z (false, m1, k, refl, called-Valid k m0 u, l, sym (rw z refl), (s, q))
    ])

-- On a manager in order, whose table has at least two slots, addEvent, delEvent, cancelEvent and cancelAll return and
-- leave it in order, if addEvent is called by one who can wait, for an event that nobody waits for. Seen as the
-- table of who waits for which event, and the schedulers' queues, they do what is specified if there is
-- something to do and the call of epoll_ctl succeeds, and nothing otherwise; and they return whether they
-- have.
pub perform-Refines :
    (ret : CtlCall → ℕ) (op : Op) (m : Manager)
    → Valid m
    → 2 ≤ length m.contexts
    → Allowed op (view m)
    → Refines ret op m (perform ret op m)
perform-Refines ret (adds who i e cb) m v two a = add_event-Refines ret who i e cb m v two a
perform-Refines ret (deletes i e) m v two a = del_event-Refines ret i e m v
perform-Refines ret (cancels i e) m v two a = cancel_event-Refines ret i e m v
perform-Refines ret (cancels_all i) m v two a = cancel_all-Refines ret i m v
