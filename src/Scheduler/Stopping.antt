-- ===== src/Scheduler/Stopping.antt =====
-- What `stop` leaves.
use high_performance_server.Prelude.{
  ℕ, ◌<◌, Bool, true, false, List, [], Option, none, some, if◌then◌else◌, ◌≡◌, ◌⊎◌, refl, arith,
  Result, ok, fail, unfinished, ap, sym, ◌∙◌, ◌>>=◌, >>=-eq-ok, ok_injective, fail-ne-ok, subst,
  inl, inr, Bool-cases, All, ◌++◌, ◌∷◌, ◌==◌, ==_iff,
}
use mathlib.Core.List.{append-nil, append_assoc}
use high_performance_server.Fiber.States.{exec}
use high_performance_server.Fiber.{
  World, set_state, new_fiber, call, caller_main_func_end, word, enter, entry_of,
}
use high_performance_server.Scheduler.Queue.{Scheduler, tickle}
use high_performance_server.Scheduler.Run.{Turn, Loop, run_start, run_loop}
use high_performance_server.Scheduler.Turns.{SameMembers, run_loop-SameMembers}
use high_performance_server.Scheduler.Lifecycle.{
  finished, call_root, join_each, join_all, stop_root, wrong_thread, stop_running, root_done, stop,
}

finished-scheduler : (l : Loop) (r : Scheduler × World) → finished l ≡ ok r → r.0 ≡ l.scheduler
finished-scheduler l r h = elim (Bool-cases l.running) [
  | inl e ↦ ground arith
  | inr e ↦
      let end = caller_main_func_end true l.world in
      let k = λ (w : World). let p : Scheduler × World = (l.scheduler, w) in ok p in
      let (w, _, q) =
        >>=-eq-ok end k (subst (λ b. (if b then fail unfinished else end >>= k) ≡ ok r) e h) in
      ap (λ (r : Scheduler × World). r.0) (sym (ok_injective q))
]

run_start-scheduler :
    (self cb : ℕ) (s : Scheduler) (w : World) (l : Loop)
    → run_start self cb s w ≡ ok l
    → l.scheduler ≡ s
unfolding run_start
run_start-scheduler self cb s w l h =
    let (p, _, q) = >>=-eq-ok (new_fiber (some cb) 0 false _) _ h in
    ap (λ (l : Loop). l.scheduler) (sym (ok_injective q))

call_root-SameMembers :
    (self cb : ℕ) (turns : List Turn) (f : ℕ) (s : Scheduler) (w : World) (r : Scheduler × World)
    → s.active < word
    → s.idle < word
    → call_root self cb turns f s w ≡ ok r
    → SameMembers s r.0
unfolding call_root
call_root-SameMembers self cb turns f s w r ha hi h =
    let (w1, _, h1) = >>=-eq-ok (call f w) _ h in
    let (w2, _, h0) = >>=-eq-ok (enter (entry_of w1) w1) _ h1 in
    let (l, h2, h3) = >>=-eq-ok (run_start self cb s w2) _ h0 in
    let (l', h4, h5) = >>=-eq-ok (run_loop self turns l) _ h3 in
    let e = run_start-scheduler self cb s w2 l h2 in
    let v = run_loop-SameMembers self turns l l' (rw e ha) (rw e hi) h4 in
    subst (λ (t : Scheduler). SameMembers s t) (sym (finished-scheduler l' r h5))
      (subst (λ (t : Scheduler). SameMembers t l'.scheduler) e v)

-- What a stop that was not early leaves: each of the threads `ts` has been joined after those of `js`, once and in
-- their order.
pub record Joined (ret : ℕ → ℕ) (ts js : List ℕ) (s' : Scheduler) : Type 0 where
  pub auto : s'.auto_stop ≡ true
  pub stops : s'.stopping ≡ true
  pub none_left : s'.threads ≡ []
  pub all_joined : s'.joined ≡ js ++ ts
  pub succeeded : All (λ t. ret t ≡ 0) ts

join_each_lem :
    (ret : ℕ → ℕ) (ts : List ℕ) (s s' : Scheduler)
    → join_each ret ts s ≡ ok s'
    → (s'.auto_stop ≡ s.auto_stop)
      × (s'.stopping ≡ s.stopping)
      × (s'.threads ≡ s.threads)
      × (s'.joined ≡ s.joined ++ ts)
      × All (λ t. ret t ≡ 0) ts
unfolding join_each
join_each_lem ret [] s s' h =
    let e : s ≡ s' = ok_injective h in
    (
      ap (λ (s : Scheduler). s.auto_stop) (sym e),
      ap (λ (s : Scheduler). s.stopping) (sym e),
      ap (λ (s : Scheduler). s.threads) (sym e),
      ap (λ (s : Scheduler). s.joined) (sym e) ∙ sym (append-nil s.joined),
      tt,
    )
join_each_lem ret (t ∷ ts) s s' h = elim (Bool-cases (ret t == 0)) [
  | inl e ↦
      let (a, b, c, d, k) =
        join_each_lem ret ts (record s { joined = s.joined ++ t ∷ [] }) s'
          (rw (e, join_each) at h) in
      (a, b, c, d ∙ append_assoc s.joined (t ∷ []) ts, ((==_iff (ret t) 0).0 e, k))
  | inr e ↦ absurd (fail-ne-ok (rw (e, join_each) at h))
]

join_all-Joined :
    (ret : ℕ → ℕ) (s : Scheduler) (w : World) (r : Scheduler × World)
    → s.auto_stop ≡ true
    → s.stopping ≡ true
    → join_all ret (s, w) ≡ ok r
    → Joined ret s.threads s.joined r.0
unfolding join_all
join_all-Joined ret s w r a b h =
    let (s', e, k) = >>=-eq-ok (join_each ret s.threads (record s { threads = [] })) _ h in
    let (x, y, z, j, v) = join_each_lem ret s.threads (record s { threads = [] }) s' e in
    subst (λ (r : Scheduler × World). Joined ret s.threads s.joined r.0) (ok_injective k)
      (record { auto = x ∙ a; stops = y ∙ b; none_left = z; all_joined = j; succeeded = v })

-- The threads, and those that were joined before, are all that `Joined` reads of the first.
Joined-SameMembers :
    (ret : ℕ → ℕ) (s s' t : Scheduler)
    → SameMembers s s'
    → Joined ret s'.threads s'.joined t
    → Joined ret s.threads s.joined t
Joined-SameMembers ret s s' t v j = record {
  auto = j.auto;
  stops = j.stops;
  none_left = j.none_left;
  all_joined =
      j.all_joined ∙ ap (λ l. l ++ s'.threads) v.joined ∙ ap (λ l. s.joined ++ l) v.threads;
  succeeded = subst (All (λ t. ret t ≡ 0)) v.threads j.succeeded;
}

module _ (ret : ℕ → ℕ) (stoped : Scheduler → Bool) (self cb : ℕ) (turns : List Turn) where
  after_call-Joined :
      (f : ℕ) (s : Scheduler) (w : World) (r : Scheduler × World)
      → s.active < word
      → s.idle < word
      → s.auto_stop ≡ true
      → s.stopping ≡ true
      → (call_root self cb turns f s w >>= join_all ret) ≡ ok r
      → Joined ret s.threads s.joined r.0
  after_call-Joined f s w r ha hi a b h =
      let ((s', w'), h1, h2) = >>=-eq-ok (call_root self cb turns f s w) (join_all ret) h in
      let v = call_root-SameMembers self cb turns f s w (s', w') ha hi h1 in
      Joined-SameMembers ret s s' r.0 v
        (join_all-Joined ret s' w' r (v.auto_stop ∙ a) (v.stopping ∙ b) h2)

  stop_root-Joined :
      (root : Option ℕ) (s : Scheduler) (w : World) (r : Scheduler × World)
      → s.active < word
      → s.idle < word
      → s.auto_stop ≡ true
      → s.stopping ≡ true
      → stop_root ret stoped self cb turns root s w ≡ ok r
      → Joined ret s.threads s.joined r.0
  unfolding stop_root
  stop_root-Joined none s w r ha hi a b h = join_all-Joined ret s w r a b h
  stop_root-Joined (some f) s w r ha hi a b h = elim (Bool-cases (stoped (tickle s))) [
    | inl e ↦ join_all-Joined ret (tickle s) (set_state w f exec) r a b (rw (e, stop_root) at h)
    | inr e ↦
        after_call-Joined f (tickle s) (set_state w f exec) r ha hi a b (rw (e, stop_root) at h)
  ]

module _ (ret : ℕ → ℕ) (stoped : Scheduler → Bool) (is_this : Bool) (self cb : ℕ)
    (turns : List Turn) where
  stop_running-Joined :
      (s : Scheduler) (w : World) (r : Scheduler × World)
      → s.active < word
      → s.idle < word
      → s.auto_stop ≡ true
      → stop_running ret stoped is_this self cb turns s w ≡ ok r
      → (wrong_thread is_this s ≡ false) × Joined ret s.threads s.joined r.0
  unfolding stop_running
  stop_running-Joined s w r ha hi a h = elim (Bool-cases (wrong_thread is_this s)) [
    | inl e ↦ absurd (fail-ne-ok (rw (e, stop_running) at h))
    | inr e ↦ (
      e,
      stop_root-Joined ret stoped self cb turns s.root_fiber _ w r ha hi a refl
          (rw (e, stop_running) at h),
    )
  ]

  abbrev Ended : Scheduler → Scheduler → Type 0
  Ended s t =
      (t.auto_stop ≡ true)
      × ((stoped t ≡ true) × (t.threads ≡ s.threads) × (t.joined ≡ s.joined)
          ⊎ (wrong_thread is_this s ≡ false) × Joined ret s.threads s.joined t)

  early_stop :
      (s t : Scheduler) (w : World) (r : Scheduler × World)
      → stoped t ≡ true
      → t.auto_stop ≡ true
      → t.threads ≡ s.threads
      → t.joined ≡ s.joined
      → ◌≡◌ {A = Result (Scheduler × World)} (ok (t, w)) (ok r)
      → Ended s r.0
  early_stop s t w r e a k j h =
      subst (λ (r : Scheduler × World). Ended s r.0) (ok_injective h) (a, inl (e, k, j))

  late_stop :
      (s : Scheduler) (b : Bool) (w : World) (r : Scheduler × World)
      → s.active < word
      → s.idle < word
      → stop_running ret stoped is_this self cb turns
          (record s { auto_stop = true; stopping = b })
          w
        ≡ ok r
      → Ended s r.0
  late_stop s b w r ha hi h =
      let v = stop_running-Joined (record s { auto_stop = true; stopping = b }) w r ha hi refl h in
      (v.1.auto, inr v)

  -- When `stop` returns, the scheduler is to stop by itself. Either it was found stopped at once,
  -- with its threads left as they were and none joined, or `stop` was called on a thread that may call it,
  -- `m_stopping` is set, and no thread is left: pthread_join has been called on each thread that there was, once and
  -- in their order, and has succeeded. This holds whatever the fibers do while the root fiber runs and whatever
  -- pthread_join returns, the counts of threads being 64-bit words.
  pub stop_lem :
      (s : Scheduler) (w : World) (r : Scheduler × World)
      → s.active < word
      → s.idle < word
      → stop ret stoped is_this self cb turns s w ≡ ok r
      → (r.0.auto_stop ≡ true)
        × ((stoped r.0 ≡ true) × (r.0.threads ≡ s.threads) × (r.0.joined ≡ s.joined)
            ⊎ (wrong_thread is_this s ≡ false) × Joined ret s.threads s.joined r.0)
  unfolding stop
  stop_lem s w r ha hi h =
      let s1 = record s { auto_stop = true } in
      let s2 = record s1 { stopping = true } in
      elim (Bool-cases (stoped s1)) [
        | inl e ↦ early_stop s s1 w r e refl refl refl (rw (e, stop) at h)
        | inr e ↦ elim (Bool-cases (root_done s w)) [
          | inl d ↦ elim (Bool-cases (stoped s2)) [
            | inl k ↦ early_stop s s2 w r k refl refl refl (rw (e, d, k, stop) at h)
            | inr k ↦ late_stop s true w r ha hi (rw (e, d, k, stop) at h)
          ]
          | inr d ↦ late_stop s s.stopping w r ha hi (rw (e, d, stop) at h)
        ]
      ]
