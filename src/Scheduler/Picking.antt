-- ===== src/Scheduler/Picking.antt =====
-- What the walk over the queue takes, erases, keeps and wakes.
use high_performance_server.Prelude.{
  ℕ, Bool, true, false, ◌||◌, List, [], ◌∷◌, Option, none, some, ◌≡◌, refl, sym, subst, ◌⊎◌, ◌∙◌,
  arith, Result, ok, fail, ◌>>=◌, ok_injective, inl,
}
use high_performance_server.Fiber.States.{State, unknow, uninit, init, hold, term, ready, except}
use high_performance_server.Fiber.{World, get_state, set_state}
use high_performance_server.Scheduler.Queue.{Task}
use high_performance_server.Scheduler.Scan.{
  Action, pinned, busy, drops, takes, wakes, is_pinned, action, Scan, keep, scan,
}

-- The states for which the walk erases a task.
abbrev pub is_dead : State → Bool
is_dead unknow = true
is_dead uninit = true
is_dead term = true
is_dead except = true
is_dead _ = false

abbrev pub can_wake : State → Bool
can_wake init = true
can_wake hold = true
can_wake _ = false

-- A task whose fiber is dead.
abbrev pub IsDead : (ℕ → Bool) → Task → Type 0
IsDead dead t = (f : ℕ) × (t.fiber ≡ some f) × (dead f ≡ true)

-- `Removes dead q r o`: `r` is `q` in its order without the task `o` and without some tasks whose
-- fibers are dead.
pub data Removes (dead : ℕ → Bool) : List Task → List Task → Option Task → Type 0 where
  finish : Removes dead [] [] none
  keeps :
      (t : Task) {q r : List Task} {o : Option Task}
      → Removes dead q r o
      → Removes dead (t ∷ q) (t ∷ r) o
  erases :
      (t : Task) {q r : List Task} {o : Option Task}
      → IsDead dead t
      → Removes dead q r o
      → Removes dead (t ∷ q) r o
  takes_out : (t : Task) (q : List Task) → Removes dead (t ∷ q) q (some t)

-- What the walk knows of a task by its action.
action_takes :
    (self : ℕ) (w : World) (t : Task)
    → action self w t ≡ takes
    → (is_pinned self t ≡ false) × ((f : ℕ) → t.fiber ≡ some f → get_state w f ≡ ready)
unfolding action
action_takes self w t h = (ground arith, λ f e. ground arith)

pub action_drops :
    (self : ℕ) (w : World) (t : Task)
    → action self w t ≡ drops
    → (f : ℕ) × (t.fiber ≡ some f) × (is_dead (get_state w f) ≡ true)
unfolding action
action_drops self w t h = ground arith

action_wakes :
    (self : ℕ) (w : World) (t : Task) (f : ℕ)
    → action self w t ≡ wakes f
    → (t.fiber ≡ some f) × (can_wake (get_state w f) ≡ true)
unfolding action
action_wakes self w t f h = ground arith

-- The state of a fiber as the walk leaves it: unchanged, or READY where it was INIT or HOLD.
abbrev pub WokenOr : State → State → Type 0
WokenOr before after = (after ≡ before) ⊎ ((can_wake before ≡ true) × (after ≡ ready))

-- What the walk has done, from the fibers `w` and the queue `q`.
pub record Walked (self : ℕ) (w : World) (q : List Task) (c : Scan) : Type 0 where
  pub removes : Removes (λ f. is_dead (get_state w f)) q c.queue c.taken
  pub taken :
      (t : Task)
      → c.taken ≡ some t
      → (is_pinned self t ≡ false) × ((f : ℕ) → t.fiber ≡ some f → get_state c.world f ≡ ready)
  pub woken : (f : ℕ) → WokenOr (get_state w f) (get_state c.world f)

WokenOr-trans : (a b c : State) → WokenOr a b → WokenOr b c → WokenOr a c
WokenOr-trans a b c h k = ground arith

wake-WokenOr :
    (w : World) (f g : ℕ)
    → can_wake (get_state w f) ≡ true
    → WokenOr (get_state w g) (get_state (set_state w f ready) g)
wake-WokenOr w f g h = ground arith

keep-eq-ok :
    (t : Task) (b : Bool) (m : Result Scan) {c : Scan}
    → m >>= keep t b ≡ ok c
    → (d : Scan) × (m ≡ ok d) × (record d { queue = t ∷ d.queue; tickle_me = b || d.tickle_me } ≡ c)
keep-eq-ok t b (ok d) h = (d, refl, cc)
keep-eq-ok t b (fail e) h = cc

Removes-map :
    {p d : ℕ → Bool} {q r : List Task} {o : Option Task}
    → ((f : ℕ) → p f ≡ true → d f ≡ true)
    → Removes p q r o
    → Removes d q r o
Removes-map h finish = finish
Removes-map h (keeps t m) = keeps t (Removes-map h m)
Removes-map h (erases t (f, e, x) m) = erases t (f, e, h f x) (Removes-map h m)
Removes-map h (takes_out t q) = takes_out t q

woken-is_dead : (a b : State) → WokenOr a b → is_dead b ≡ true → is_dead a ≡ true
woken-is_dead a b h e = ground arith

-- A task that stays, after `w` has become `w'`.
keep-Walked :
    (self : ℕ) (w w' : World) (t : Task) (ts : List Task) (b : Bool) (m : Result Scan) {c : Scan}
    → ((f : ℕ) → WokenOr (get_state w f) (get_state w' f))
    → ((d : Scan) → m ≡ ok d → Walked self w' ts d)
    → m >>= keep t b ≡ ok c
    → Walked self w (t ∷ ts) c
keep-Walked self w w' t ts b m step ih h =
    let (d, e, k) = keep-eq-ok t b m h in
    let v = ih d e in
    subst (Walked self w (t ∷ ts)) k (record {
      removes = keeps t (Removes-map (λ f. woken-is_dead _ _ (step f)) v.removes);
      taken = v.taken;
      woken = λ f. WokenOr-trans _ _ _ (step f) (v.woken f);
    })

unchanged : (w : World) (f : ℕ) → WokenOr (get_state w f) (get_state w f)
unchanged w f = inl refl

scan-Walked_at :
    (self : ℕ) (w : World) (t : Task) (ts : List Task) (a : Action) {c : Scan}
    → ((skip : Bool) (w' : World) (d : Scan) → scan self skip w' ts ≡ ok d → Walked self w' ts d)
    → action self w t ≡ a
    → scan self false w (t ∷ ts) ≡ ok c
    → Walked self w (t ∷ ts) c
unfolding scan
scan-Walked_at self w t ts pinned ih e h =
    keep-Walked self w w t ts true (scan self false w ts) (unchanged w) (ih false w)
      (rw (e, scan) at h)
scan-Walked_at self w t ts busy ih e h =
    keep-Walked self w w t ts false (scan self false w ts) (unchanged w) (ih false w)
      (rw (e, scan) at h)
scan-Walked_at self w t ts (wakes f) ih e h =
    let w' = set_state w f ready in
    keep-Walked self w w' t ts false (scan self false w' ts)
      (λ g. wake-WokenOr w f g (action_wakes self w t f e).1) (ih false w') (rw (e, scan) at h)
scan-Walked_at self w t ts drops ih e h =
    let v = ih true w _ (rw (e, scan) at h) in
    record {
      removes = erases t (action_drops self w t e) v.removes;
      taken = v.taken;
      woken = v.woken;
    }
scan-Walked_at self w t ts takes ih e h =
    subst (Walked self w (t ∷ ts)) (ok_injective (rw (e, scan) at h)) (record {
      removes = takes_out t ts;
      taken = λ u k.
          let k' : t ≡ u = cc in
          subst
            (λ u. (is_pinned self u ≡ false) × ((f : ℕ) → u.fiber ≡ some f → get_state w f ≡ ready))
            k' (action_takes self w t e);
      woken = unchanged w;
    })

scan_end :
    (self : ℕ) (w : World)
    → scan self false w [] ≡ ok (record { tickle_me = false; taken = none; queue = []; world = w })
unfolding scan
scan_end self w = refl

-- A walk that ends leaves the queue in its order, without the task that it takes and without some
-- tasks whose fibers are dead (ended or never made); a task that it takes is not pinned to the
-- walking thread, and its fiber, if it has one, is READY; and a fiber's state changes at most from
-- INIT or HOLD to READY.
pub scan-Walked :
    (self : ℕ) (skip : Bool) (w : World) (q : List Task) (c : Scan)
    → scan self skip w q ≡ ok c
    → Walked self w q c
scan-Walked self true w [] c h = unfold scan in cc
scan-Walked self true w (t ∷ ts) c h =
    keep-Walked self w w t ts false (scan self false w ts) (unchanged w)
      (λ d. scan-Walked self false w ts d) (unfold scan in h)
scan-Walked self false w [] c h =
    subst (Walked self w []) (ok_injective (sym (scan_end self w) ∙ h))
      (record { removes = finish; taken = λ u k. cc; woken = unchanged w })
scan-Walked self false w (t ∷ ts) c h =
    scan-Walked_at self w t ts (action self w t) (λ skip w' d. scan-Walked self skip w' ts d) refl h
