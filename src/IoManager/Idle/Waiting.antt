-- ===== src/IoManager/Idle/Waiting.antt =====
-- What IOManager::idle keeps, what it waits for, and when it ends.
use high_performance_server.Prelude.{
  ℕ, ◌^◌, ◌≤◌, ◌<◌, ◌==◌, Bool, true, false, not, List, [], ◌∷◌, Option, some, if◌then◌else◌,
  Result, ok, fail, assertion, ok_injective, ◌≡◌, ◌⊎◌, refl, subst, All, arith, Bool-cases, inl,
  inr, get_elem?,
}
use high_performance_server.Scheduler.Queue.{is_stoped as base_is_stoped}
use high_performance_server.IoManager.Events.{CtlCall, Schedulers, FdContext}
use high_performance_server.IoManager.{
  Manager, is_stoped, is_stoped_at, no_timer, wait_for, handle_event,
}
use high_performance_server.IoManager.Valid.{Valid, context_resize-Valid}
use high_performance_server.IoManager.Polling.{Leaves, IsExpected, handle_event-Leaves}
use high_performance_server.IoManager.Idle.{
  Ready, on_pipe, on_slot, Wait, interrupted, failed, reported, Round, wait_events,
  schedule_expired, handle_ready, idle_round, idle, make,
}

-- getNextTimer's answers that fit an int, or that say that there is no timer.
abbrev pub IsTimeout : ℕ → Type 0
IsTimeout next = (next < 2 ^ 31) ⊎ (next ≡ no_timer)

wait_for_le : (next : ℕ) → IsTimeout next → wait_for next ≤ 3000
unfolding wait_for
wait_for_le next h = ground arith

-- Each wait in epoll is at most three seconds, however often it is interrupted, if the next timer is due
-- in less than 2 ^ 31 milliseconds or if there is none.
pub wait_events_le :
    (next : ℕ) (ws : List Wait)
    → IsTimeout next
    → All (λ timeout. timeout ≤ 3000) (wait_events next ws).0
unfolding wait_events
wait_events_le next [] h = tt
wait_events_le next (interrupted ∷ ws) h =
    let l = wait_for_le next h in (l, wait_events_le (wait_for next) ws (inl (omega (arith, l))))
wait_events_le next (failed ∷ ws) h = (wait_for_le next h, tt)
wait_events_le next (reported evs ∷ ws) h = (wait_for_le next h, tt)

schedule_expired-Valid :
    (self : ℕ) (cbs : List (Option ℕ)) (m : Manager) → Valid m → Valid (schedule_expired self cbs m)
unfolding schedule_expired
schedule_expired-Valid self [] m v = v
schedule_expired-Valid self (cb ∷ cbs) m v = record { slots = v.slots; counted = v.counted }

-- Each event for a descriptor is one that it waits for when its turn comes.
abbrev pub AllReady : (CtlCall → ℕ) → List Ready → Manager → Type 0
AllReady ret [] m = Unit
AllReady ret (on_pipe ∷ evs) m = AllReady ret evs m
AllReady ret (on_slot i ev ∷ evs) m =
    (c : FdContext) × (get_elem? m.contexts i ≡ some c)
    × IsExpected ev c.events
    × ((m' : Manager) → handle_event ret i ev m ≡ ok m' → AllReady ret evs m')

handle_ready-Leaves :
    (ret : CtlCall → ℕ) (evs : List Ready) (m : Manager)
    → Valid m
    → AllReady ret evs m
    → Leaves (handle_ready ret evs m)
unfolding handle_ready
handle_ready-Leaves ret [] m v x = (m, refl, v)
handle_ready-Leaves ret (on_pipe ∷ evs) m v x = handle_ready-Leaves ret evs m v x
handle_ready-Leaves ret (on_slot i ev ∷ evs) m v (c, g, x, rest) =
    let (m1, r, u) = handle_event-Leaves ret i ev m c v g x in
    rw r (handle_ready-Leaves ret evs m1 u (rest m1 r))

-- No timer, no event that waits, and a scheduler that has stopped.
abbrev pub IsOver : ℕ → Manager → Type 0
IsOver self m = (m.pending ≡ 0) × (base_is_stoped (m.schedulers self) ≡ true)

is_stoped_at-IsOver :
    (self next : ℕ) (m : Manager) → is_stoped_at next m (m.schedulers self) ≡ true → IsOver self m
unfolding is_stoped_at is_stoped
is_stoped_at-IsOver self next m h = (ground arith, ground arith)

-- What a round is expected to meet: epoll_wait is not interrupted for ever, and reports what is waited for.
abbrev pub MeetsReady : (CtlCall → ℕ) → ℕ → Round → Manager → Type 0
MeetsReady ret self round m =
    (evs : List Ready) × ((wait_events round.next_timer round.waits).1 ≡ ok evs)
    × AllReady ret evs (schedule_expired self round.expired m)

abbrev pub Ended : ℕ → Bool → Manager → Type 0
Ended self running m = (running ≡ true) ⊎ IsOver self m

idle_round_lem :
    (ret : CtlCall → ℕ) (self : ℕ) (round : Round) (m : Manager)
    → Valid m
    → MeetsReady ret self round m
    → (b : Bool) × (m' : Manager) × (idle_round ret self round m ≡ ok (b, m'))
      × Valid m'
      × Ended self b m'
unfolding idle_round
idle_round_lem ret self round m v (evs, e, x) =
    elim (Bool-cases (is_stoped_at round.next_timer m (m.schedulers self))) [
      | inl s ↦ (
        false,
        m,
        rw (s, idle_round) refl,
        v,
        inr (is_stoped_at-IsOver self round.next_timer m s),
      )
      | inr s ↦
          let m1 = schedule_expired self round.expired m in
          let (m', r, u) =
            handle_ready-Leaves ret evs m1 (schedule_expired-Valid self round.expired m v) x in
          (true, m', rw (s, idle_round) (rw e (rw r refl)), u, inl refl)
    ]

module _ (ret : CtlCall → ℕ) (others : Manager → Manager) (self : ℕ) where
  abbrev pub AllMeet : List Round → Manager → Type 0
  AllMeet [] m = Unit
  AllMeet (round ∷ rounds) m =
      MeetsReady ret self round m
      × ((m' : Manager) → idle_round ret self round m ≡ ok (true, m') → AllMeet rounds (others m'))

  idle_next :
      (round : Round) (rounds : List Round) (m : Manager) (b : Bool) (m' : Manager)
      → idle_round ret self round m ≡ ok (b, m')
      → Valid m'
      → Ended self b m'
      → ((b ≡ true)
          → (c : Bool) × (n : Manager) × (idle ret others self rounds (others m') ≡ ok (c, n))
            × Valid n
            × Ended self c n)
      → (c : Bool) × (n : Manager) × (idle ret others self (round ∷ rounds) m ≡ ok (c, n))
        × Valid n
        × Ended self c n
  unfolding idle
  idle_next round rounds m false m' e v x k = (false, m', rw e refl, v, x)
  idle_next round rounds m true m' e v x k = let (c, n, r, u, z) = k refl in (c, n, rw e r, u, z)

  idle-Valid :
      (rounds : List Round) (m : Manager)
      → ((n : Manager) → Valid n → Valid (others n))
      → Valid m
      → AllMeet rounds m
      → (b : Bool) × (n : Manager) × (idle ret others self rounds m ≡ ok (b, n))
        × Valid n
        × ((b ≡ true) ⊎ (n.pending ≡ 0) × (base_is_stoped (n.schedulers self) ≡ true))
  unfolding idle
  idle-Valid [] m o v x = (true, m, refl, v, inl refl)
  idle-Valid (round ∷ rounds) m o v (x, rest) =
      let (b, m', e, u, z) = idle_round_lem ret self round m v x in
      idle_next round rounds m b m' e u z (λ k.
        idle-Valid rounds (others m') o (o m' u)
          (rest m' (subst (λ b. idle_round ret self round m ≡ ok (b, m')) k e)))

if_failed :
    {A : Type 0} (b : Bool) (r : Result A) (v : A)
    → (if b then fail assertion else r) ≡ ok v
    → r ≡ ok v
if_failed true r v h = cc
if_failed false r v h = h

-- The constructor leaves a manager in order, with 32 slots.
make-Valid :
    (created : Bool) (piped set_nonblock added : ℕ) (schedulers : Schedulers) (m : Manager)
    → make created piped set_nonblock added schedulers ≡ ok m
    → Valid m
unfolding make
make-Valid created piped set_nonblock added schedulers m h =
    let h1 = if_failed (not created) _ m h in
    let h2 = if_failed (not (piped == 0)) _ m h1 in
    let h3 = if_failed (not (set_nonblock == 0)) _ m h2 in
    let h4 = if_failed (not (added == 0)) _ m h3 in
    let none_yet : Manager = record {
      contexts = [];
      pending = 0;
      schedulers = schedulers;
      ctl = [];
    } in
    let v : Valid none_yet = record { slots = tt; counted = refl } in
    subst Valid (ok_injective h4) (context_resize-Valid 32 none_yet (omega arith) v)

-- The manager that the constructor leaves, if no call of the system fails in it, stays in order in its
-- idle loop, however many rounds this makes, and the loop does not fail, if the rest of the program keeps the
-- manager in order between two rounds, each round meets events that are waited for, and epoll_wait is not
-- interrupted for ever; and where the loop has ended, no event waits and the scheduler has stopped.
pub make-idle :
    (ret : CtlCall → ℕ) (others : Manager → Manager) (self : ℕ) (rounds : List Round)
    (created : Bool) (piped set_nonblock added : ℕ) (schedulers : Schedulers) (m : Manager)
    → make created piped set_nonblock added schedulers ≡ ok m
    → ((n : Manager) → Valid n → Valid (others n))
    → AllMeet ret others self rounds m
    → (b : Bool) × (n : Manager) × (idle ret others self rounds m ≡ ok (b, n))
      × Valid n
      × ((b ≡ true) ⊎ (n.pending ≡ 0) × (base_is_stoped (n.schedulers self) ≡ true))
make-idle ret others self rounds created piped set_nonblock added schedulers m h o x =
    idle-Valid ret others self rounds m o
      (make-Valid created piped set_nonblock added schedulers m h) x
