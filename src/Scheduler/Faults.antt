-- ===== src/Scheduler/Faults.antt =====
-- The walk over the queue: tasks whose fibers are dead, and pinned tasks.
use high_performance_server.Prelude.{
  ℕ, Bool, true, false, not, List, [], ◌∷◌, ◌++◌, none, some, is_empty, ◌≡◌, refl, ◌⊎◌, arith, All,
  Result, ok, fail, undefined, ◌>>=◌, inl, inr,
}
use high_performance_server.Fiber.{World, get_state, set_state}
use high_performance_server.Fiber.States.{ready, exec}
use high_performance_server.Scheduler.Queue.{Task}
use high_performance_server.Scheduler.Picking.{is_dead, IsDead, action_drops}
use high_performance_server.Scheduler.Scan.{
  Action, pinned, busy, drops, takes, wakes, is_pinned, action, Scan, keep, scan,
}

-- The fiber of the task, if it has one, is not dead.
abbrev pub IsLive : World → Task → Type 0
IsLive w t = (f : ℕ) → t.fiber ≡ some f → is_dead (get_state w f) ≡ false

pub All-IsLive-wake :
    (w : World) (f : ℕ) (q : List Task) → All (IsLive w) q → All (IsLive (set_state w f ready)) q
All-IsLive-wake w f [] h = tt
All-IsLive-wake w f (t ∷ q) h =
    ((λ g e. let k = h.0 g e in ground arith), All-IsLive-wake w f q h.1)

keep_total :
    (t : Task) (b : Bool) (m : Result Scan)
    → (c : Scan) × (m ≡ ok c)
    → (c : Scan) × (m >>= keep t b ≡ ok c)
keep_total t b m (c, e) = rw e (_, refl)

pub action-ne-drops : (self : ℕ) (w : World) (t : Task) → IsLive w t → ¬ (action self w t ≡ drops)
action-ne-drops self w t h e = let (f, k, d) = action_drops self w t e in let live = h f k in cc

scan_total_at :
    (self : ℕ) (w : World) (t : Task) (ts : List Task) (a : Action)
    → IsLive w t
    → All (IsLive w) ts
    → ((w' : World) → All (IsLive w') ts → (c : Scan) × (scan self false w' ts ≡ ok c))
    → action self w t ≡ a
    → (c : Scan) × (scan self false w (t ∷ ts) ≡ ok c)
unfolding scan
scan_total_at self w t ts pinned live h ih e = rw (e, scan) (keep_total t true _ (ih w h))
scan_total_at self w t ts busy live h ih e = rw (e, scan) (keep_total t false _ (ih w h))
scan_total_at self w t ts (wakes f) live h ih e =
    rw (e, scan) (keep_total t false _ (ih (set_state w f ready) (All-IsLive-wake w f ts h)))
scan_total_at self w t ts drops live h ih e = absurd (action-ne-drops self w t live e)
scan_total_at self w t ts takes live h ih e = rw (e, scan) (_, refl)

-- The walk returns whenever no task of the queue has a dead fiber.
pub scan_total :
    (self : ℕ) (w : World) (q : List Task)
    → All (IsLive w) q
    → (c : Scan) × (scan self false w q ≡ ok c)
unfolding scan
scan_total self w [] h = (_, refl)
scan_total self w (t ∷ ts) h =
    scan_total_at self w t ts (action self w t) h.0 h.1 (λ w'. scan_total self w' ts) refl

-- The task stays where it is: it is pinned to the walking thread, or its fiber runs.
abbrev pub Stays : ℕ → World → Task → Type 0
Stays self w t = (is_pinned self t ≡ true) ⊎ ((f : ℕ) × (t.fiber ≡ some f) × (get_state w f ≡ exec))

action-Stays :
    (self : ℕ) (w : World) (t : Task)
    → Stays self w t
    → (action self w t ≡ pinned) ⊎ (action self w t ≡ busy)
unfolding action
action-Stays self w t h = ground arith

action_dead :
    (self : ℕ) (w : World) (t : Task) (f : ℕ)
    → is_pinned self t ≡ false
    → t.fiber ≡ some f
    → is_dead (get_state w f) ≡ true
    → action self w t ≡ drops
unfolding action
action_dead self w t f p e d = ground arith

action_pinned :
    (self : ℕ) (w : World) (t : Task) → is_pinned self t ≡ true → action self w t ≡ pinned
unfolding action
action_pinned self w t p = ground arith

-- If the walk reaches the last task and its fiber is dead, the iterator is moved past the end of
-- the list: the behaviour is undefined. That is so when every task before it stays.
pub scan_dead_last :
    (self : ℕ) (w : World) (q : List Task) (t : Task)
    → All (Stays self w) q
    → is_pinned self t ≡ false
    → IsDead (λ f. is_dead (get_state w f)) t
    → scan self false w (q ++ t ∷ []) ≡ fail undefined
unfolding scan
scan_dead_last self w [] t h p (f, e, d) = rw (action_dead self w t f p e d, scan) refl
scan_dead_last self w (u ∷ q) t h p d = elim (action-Stays self w u h.0) [
  | inl k ↦ rw (k, scan) (rw (scan_dead_last self w q t h.1 p d) refl)
  | inr k ↦ rw (k, scan) (rw (scan_dead_last self w q t h.1 p d) refl)
]

-- A task that is pinned to a thread is never served by that thread: a walk over tasks that are all
-- pinned to the walking thread takes none, keeps all of them, and only asks for a tickle.
pub scan_pinned :
    (self : ℕ) (w : World) (q : List Task)
    → All (λ t. is_pinned self t ≡ true) q
    → scan self false w q
      ≡ ok (record { tickle_me = not (is_empty q); taken = none; queue = q; world = w })
unfolding scan
scan_pinned self w [] h = refl
scan_pinned self w (t ∷ q) h =
    rw (action_pinned self w t h.0, scan) (rw (scan_pinned self w q h.1) refl)
