-- ===== src/Threads/Starting.antt =====
-- ddg/thread.cc, the start of a thread: the constructor, which waits, and Thread::run on the new thread, which posts,
-- as their steps interleave.
use high_performance_server.Prelude.{
  ℕ, zero, suc, ◌<◌, ◌==◌, ◌≡◌, refl, subst, Bool-cases, Option, none, some, Text, ok, Option-cases,
  inl, inr, arith,
}
use high_performance_server.Locks.Semphore.{Calls, CallsLaws, make, wait, post}
use high_performance_server.Threads.{Thread, Locals, new_thread, run}

-- The constructor: before the end of `m_sem.wait()`, and after it.
pub data Maker : Type 0 where
  waiting back : Maker

-- The new thread: before its first line, before `m_sem.post()`, and after it.
pub data Worker : Type 0 where
  fresh known posted : Worker

module _ (c : Calls) (self tid : ℕ) where
  pub record Start : Type 0 where
    pub thread : Thread
    pub locals : Locals
    pub sem : c.Sem
    pub maker : Maker
    pub worker : Worker

  pub data Step : Start → Start → Type 0 where
    runs :
        (s : Start)
        → s.worker ≡ fresh
        → Step s (record s {
          thread = (run self tid s.thread s.locals).0;
          locals = (run self tid s.thread s.locals).1;
          worker = known;
        })
    posts :
        (s : Start) → s.worker ≡ known → Step s (record s { sem = post c s.sem; worker = posted })
    returns :
        (s : Start) (sem : c.Sem)
        → s.maker ≡ waiting
        → wait c s.sem ≡ some sem
        → Step s (record s { sem = sem; maker = back })

  -- Reachable from pthread_create's return; the member m_sem is made with a count of 0.
  pub data Reach (name : Text) (cb : Option ℕ) (handle : ℕ) (locals : Locals) : Start → Type 0 where
    start :
        (sem : c.Sem)
        → make c 0 ≡ ok sem
        → Reach name cb handle locals (record {
          thread = new_thread name cb handle;
          locals = locals;
          sem = sem;
          maker = waiting;
          worker = fresh;
        })
    after :
        {s s' : Start} → Reach name cb handle locals s → Step s s' → Reach name cb handle locals s'

-- What `run` has done before it posts.
pub record Started (c : Calls) (self tid : ℕ) (s : Start c self tid) : Type 0 where
  pub has_id : s.thread.id ≡ some tid
  pub taken : s.thread.cb ≡ none
  pub points : s.locals.t_thread ≡ some self
  pub named : s.locals.t_thread_name ≡ s.thread.name

module _ (c : Calls) (laws : CallsLaws c) (self tid : ℕ) where
  -- By where the new thread is.
  abbrev Ordered : Worker → Start c self tid → Type 0
  Ordered fresh s = (s.maker ≡ waiting) × (c.value s.sem ≡ 0)
  Ordered known s = (s.maker ≡ waiting) × (c.value s.sem ≡ 0) × Started c self tid s
  Ordered posted s = Started c self tid s

  Ordered-at : (s : Start c self tid) (v w : Worker) → v ≡ w → Ordered v s → Ordered w s
  Ordered-at s v w e o = subst (λ v. Ordered v s) e o

  made : (sem : c.Sem) → make c 0 ≡ ok sem → c.init 0 ≡ (0, sem)
  unfolding make
  made sem h = elim (Bool-cases ((c.init 0).0 == 0)) [
    | inl e ↦ ground (arith, h)
    | inr e ↦ ground (arith, h)
  ]

  module _ (name : Text) (cb : Option ℕ) (handle : ℕ) (locals : Locals)
      (uninterrupted : (e : ℕ) (s s' : c.Sem) → ¬ (c.wait s ≡ some (suc e, s'))) where
    wait-pos : (s s' : c.Sem) → wait c s ≡ some s' → 0 < c.value s
    unfolding wait
    wait-pos s s' h = elim (Option-cases (c.wait s)) [
      | inl e ↦ cc
      | inr ((zero, k), e) ↦ omega (arith, laws.wait_gives s k e)
      | inr ((suc n, k), e) ↦ absurd (uninterrupted n s k e)
    ]

    returned_Ordered :
        (s : Start c self tid) (sem : c.Sem) (w : Worker)
        → wait c s.sem ≡ some sem
        → Ordered w s
        → Ordered w (record s { sem = sem; maker = back })
    returned_Ordered s sem fresh h o = absurd (omega (arith, wait-pos s.sem sem h, o.1))
    returned_Ordered s sem known h o = absurd (omega (arith, wait-pos s.sem sem h, o.1))
    returned_Ordered s sem posted h o = record {
      has_id = o.has_id;
      taken = o.taken;
      points = o.points;
      named = o.named;
    }

    Step-Ordered :
        {s s' : Start c self tid} → Step c self tid s s' → Ordered s.worker s → Ordered s'.worker s'
    unfolding run
    Step-Ordered (runs s h) o =
        let (m, v) = Ordered-at s s.worker fresh h o in
        (m, v, record { has_id = refl; taken = refl; points = refl; named = refl })
    Step-Ordered (posts s h) o =
        let (m, v, d) = Ordered-at s s.worker known h o in
        record { has_id = d.has_id; taken = d.taken; points = d.points; named = d.named }
    Step-Ordered (returns s sem h k) o = returned_Ordered s sem s.worker k o

    Reach-Ordered :
        {s : Start c self tid} → Reach c self tid name cb handle locals s → Ordered s.worker s
    Reach-Ordered (start sem h) = (refl, laws.init_gives 0 sem (made sem h))
    Reach-Ordered (after reach step) = Step-Ordered step (Reach-Ordered reach)

    back-Started_at :
        (s : Start c self tid) (w : Worker) → s.maker ≡ back → Ordered w s → Started c self tid s
    back-Started_at s fresh h o = let n = o.0 in absurd (cc)
    back-Started_at s known h o = o.2
    back-Started_at s posted h o = o

    -- However the constructor and the new thread interleave, when the constructor has returned the thread knows
    -- its id, its callback has been taken out, and the new thread's t_thread and t_thread_name are set, if
    -- sem_wait does not fail.
    pub back-Started :
        {s : Start c self tid}
        → Reach c self tid name cb handle locals s
        → s.maker ≡ back
        → Started c self tid s
    back-Started {s} reach h = back-Started_at s s.worker h (Reach-Ordered reach)

module _ (c : Calls) (self tid : ℕ) (name : Text) (cb : Option ℕ) (handle : ℕ)
    (locals : Locals) where
  -- Where sem_wait fails at once, as it does when a signal interrupts it, the failure is dropped: the constructor can
  -- return before the new thread has done anything, the thread without an id and with its callback still in
  -- it.
  pub interrupted-back :
      (sem sem' : c.Sem) (e : ℕ)
      → make c 0 ≡ ok sem
      → c.wait sem ≡ some (suc e, sem')
      → (s : Start c self tid) × Reach c self tid name cb handle locals s
        × (s.maker ≡ back)
        × (s.worker ≡ fresh)
        × (s.thread.id ≡ none)
        × (s.thread.cb ≡ cb)
  unfolding wait
  interrupted-back sem sem' e h k =
      let s : Start c self tid = record {
        thread = new_thread name cb handle;
        locals = locals;
        sem = sem;
        maker = waiting;
        worker = fresh;
      } in
      (
        record s { sem = sem'; maker = back },
        after (start sem h) (returns s sem' refl (rw k refl)),
        refl,
        refl,
        refl,
        refl,
      )
