-- ===== src/IoManager/Refining/Cancelling.antt =====
-- delEvent, cancelEvent and cancelAll against the specification.
use high_performance_server.Prelude.{
  ℕ, ◌≤◌, ◌==◌, ==_iff, true, false, ◌&&◌, Option, none, some, length, get_elem?,
  get_elem?-set-some, if◌then◌else◌, ◌≡◌, refl, sym, ap, ◌∙◌, arith, ok, Bool-cases, inl, inr,
}
use high_performance_server.IoManager.Events.{
  Event, Events, nothing, read, write, has, without, any, update_scheduler, FdContext, CtlCall,
  edge, op_as_mask, ctl_del,
}
use high_performance_server.IoManager.{
  Manager, put, called, del_op, pending_desc, trigger_if, del_event, cancel_event, cancel_all,
}
use high_performance_server.IoManager.Valid.{Valid, Valid-IsSlot}
use high_performance_server.IoManager.Triggering.{
  cleared, wake, context_of, triggered, trigger_lem, triggered-Valid,
}
use high_performance_server.IoManager.Keeps.{cleared-events, called-Valid, put-cleared-Valid}
use high_performance_server.IoManager.RoundTrips.{delete_lem}
use high_performance_server.IoManager.Waiters.{
  Waiters, view, eq_event, updated, handed, woken, deletes, cancels, cancels_all, spec, applies,
  Same,
}
use high_performance_server.IoManager.Waiters.Slots.{waiter_of-cleared, put-waiters}
use high_performance_server.IoManager.Refining.{
  Refines, waiter-at, test_in, tested, applies-has, length-put,
}

pub del_event-Refines :
    (ret : CtlCall → ℕ) (i : ℕ) (e : Event) (m : Manager)
    → Valid m
    → Refines ret (deletes i e) m (del_event ret i e m)
unfolding del_event
del_event-Refines ret i e m v =
    tested ret (deletes i e) i (has e) m _ _ v (applies-has m i e) λ c g h.
      let k : CtlCall = record {
        op = del_op (without e c.events);
        fd = i;
        mask = edge (without e c.events);
      } in
      let m1 = called k m in
      (
        put i (cleared e c) (pending_desc m1),
        delete_lem e i c m1 h,
        put-cleared-Valid i e c m1 (called-Valid k m v) g h,
        length-put m i (cleared e c),
        (put-waiters i e none m.contexts c (cleared e c) g (λ f. waiter_of-cleared e f c), refl),
      )

woken-at :
    (m : Manager) (i : ℕ) (e : Event) (c : FdContext) (s : ℕ)
    → get_elem? m.contexts i ≡ some c
    → has e c.events ≡ true
    → (context_of e c).scheduler ≡ some s
    → update_scheduler m.schedulers s (wake (context_of e c) (m.schedulers s))
      ≡ woken ((view m).waiters i e) m.schedulers
woken-at m i e c s g h q =
    let x : (view m).waiters i e ≡ some (context_of e c) = waiter-at m i e (some c) g ∙ rw h refl in
    ap (λ o. handed o (context_of e c) m.schedulers) (sym q)
    ∙ ap (λ o. woken o m.schedulers) (sym x)

pub cancel_event-Refines :
    (ret : CtlCall → ℕ) (i : ℕ) (e : Event) (m : Manager)
    → Valid m
    → Refines ret (cancels i e) m (cancel_event ret i e m)
unfolding cancel_event
cancel_event-Refines ret i e m v =
    tested ret (cancels i e) i (has e) m _ _ v (applies-has m i e) λ c g h.
      let op = del_op (without e c.events) in
      let k : CtlCall = record { op = op; fd = i; mask = op_as_mask op } in
      let m1 = called k m in
      let (s, q, r) = trigger_lem i e c m1 (Valid-IsSlot i m v g).0 h in
      (
        triggered i e c s m1,
        rw r refl,
        triggered-Valid i e c s m1 (called-Valid k m v) g h,
        length-put m i (cleared e c),
        (
          put-waiters i e none m.contexts c (cleared e c) g (λ f. waiter_of-cleared e f c),
          woken-at m i e c s g h q,
        ),
      )

without-unset : (e : Event) (es : Events) → has e es ≡ false → es ≡ without e es
without-unset nothing es h = refl
without-unset read es h = ground arith
without-unset write es h = ground arith

eq_event-eq : (f e : Event) → eq_event f e ≡ true → f ≡ e
eq_event-eq nothing nothing h = refl
eq_event-eq nothing read h = cc
eq_event-eq nothing write h = cc
eq_event-eq read nothing h = cc
eq_event-eq read read h = refl
eq_event-eq read write h = cc
eq_event-eq write nothing h = cc
eq_event-eq write read h = cc
eq_event-eq write write h = refl

-- Where nobody waits, nothing is to be removed.
updated-none :
    (w : Waiters) (i : ℕ) (e : Event)
    → w i e ≡ none
    → (j : ℕ) (f : Event) → w j f ≡ updated i e none w j f
updated-none w i e h j f = elim (Bool-cases (j == i)) [
  | inl p ↦ elim (Bool-cases (eq_event f e)) [
    | inl q ↦
        rw (p, q)
          (ap (λ (k : ℕ). w k f) ((==_iff j i).0 p) ∙ ap (λ f. w i f) (eq_event-eq f e q) ∙ h)
    | inr q ↦ rw (p, q) refl
  ]
  | inr p ↦ rw p refl
]

-- `if (events & event) …` on a slot in order.
trigger_if-view :
    (i : ℕ) (e : Event) (c : FdContext) (m : Manager)
    → Valid m
    → get_elem? m.contexts i ≡ some c
    → (c' : FdContext) × (m' : Manager) × (trigger_if (has e c.events) i e (c, m) ≡ ok (c', m'))
      × Valid m'
      × (length m.contexts ≤ length m'.contexts)
      × (get_elem? m'.contexts i ≡ some c')
      × (c'.events ≡ without e c.events)
      × Same (view m') (spec (cancels i e) (view m))
trigger_if-view i e c m v g = elim (Bool-cases (has e c.events)) [
  | inl h ↦
      let (s, q, r) = trigger_lem i e c m (Valid-IsSlot i m v g).0 h in
      rw h (
        cleared e c,
        triggered i e c s m,
        r,
        triggered-Valid i e c s m v g h,
        length-put m i (cleared e c),
        get_elem?-set-some m.contexts i (cleared e c) g,
        cleared-events e c,
        (
          put-waiters i e none m.contexts c (cleared e c) g (λ f. waiter_of-cleared e f c),
          woken-at m i e c s g h q,
        ),
      )
  | inr h ↦
      let x : (view m).waiters i e ≡ none = waiter-at m i e (some c) g ∙ rw h refl in
      rw h (
        c,
        m,
        refl,
        v,
        omega arith,
        g,
        without-unset e c.events h,
        (updated-none (view m).waiters i e x, ap (λ o. woken o m.schedulers) (sym x)),
      )
]

other_event : (w : Waiters) (i : ℕ) → updated i read none w i write ≡ w i write
other_event w i = ground arith

updated-same :
    (v w : Waiters) (i : ℕ) (e : Event)
    → ((j : ℕ) (f : Event) → v j f ≡ w j f)
    → (j : ℕ) (f : Event) → updated i e none v j f ≡ updated i e none w j f
updated-same v w i e h j f = ap (λ o. if j == i && eq_event f e then none else o) (h j f)

applies-any :
    (m : Manager) (i : ℕ) (o : Option FdContext)
    → get_elem? m.contexts i ≡ o
    → applies (cancels_all i) (view m) ≡ test_in any o
applies-any m i none g = rw (applies-has m i read none g, applies-has m i write none g) refl
applies-any m i (some c) g =
    rw (applies-has m i read (some c) g, applies-has m i write (some c) g) refl

pub cancel_all-Refines :
    (ret : CtlCall → ℕ) (i : ℕ) (m : Manager)
    → Valid m
    → Refines ret (cancels_all i) m (cancel_all ret i m)
unfolding cancel_all
cancel_all-Refines ret i m v = tested ret (cancels_all i) i any m _ _ v (applies-any m i) λ c g h.
    let k : CtlCall = record { op = ctl_del; fd = i; mask = op_as_mask ctl_del } in
    let (c1, m1, r1, v1, l1, g1, e1, s1) =
      trigger_if-view i read c (called k m) (called-Valid k m v) g in
    let (c2, m2, r2, v2, l2, g2, e2, s2) = trigger_if-view i write c1 m1 v1 g1 in
    let n : any c2.events ≡ false = ground arith in
    let w : (view m1).waiters i write ≡ (view m).waiters i write =
      s1.0 i write ∙ other_event (view m).waiters i in
    (
      m2,
      rw r1 (rw r2 (rw n refl)),
      v2,
      omega (arith, l1, l2),
      (
        λ j f.
            s2.0 j f
            ∙ updated-same (view m1).waiters (updated i read none (view m).waiters) i write s1.0 j
                f,
        s2.1
            ∙ ap (λ o. woken o m1.schedulers) w
            ∙ ap (λ ss. woken ((view m).waiters i write) ss) s1.1,
      ),
    )
