-- ===== src/Scheduler/Threads/Owners.antt =====
-- How often a fiber stands in the queue and in the hands of the threads in Scheduler::run.
use high_performance_server.Prelude.{
  ℕ, zero, suc, ◌+◌, ◌≤◌, ◌<◌, ◌==◌, Bool, List, [], ◌∷◌, ◌++◌, Option, none, some, if◌then◌else◌,
  ◌≡◌, ◌≢◌, ap, arith, Bool-cases, inl, inr,
}
use high_performance_server.Scheduler.Queue.{
  Task, Scheduler, has_work, schedule_task, schedule_task_lem,
}
use high_performance_server.Scheduler.Picking.{Removes, finish, keeps, erases, takes_out}
use high_performance_server.Scheduler.Threads.{
  Pc, holding, starting, running, left, settling, System,
}
use high_performance_server.Scheduler.Threads.Tally.{tally, put, tally-put_in}

abbrev pub holds_at : ℕ → Option ℕ → ℕ
holds_at f none = 0
holds_at f (some g) = if g == f then 1 else 0

abbrev pub holds : ℕ → Task → ℕ
holds f t = holds_at f t.fiber

-- The tasks of the queue that hold the fiber.
unfoldable pub queued : ℕ → List Task → ℕ
queued f [] = 0
queued f (t ∷ q) = holds f t + queued f q

abbrev pub in_hand : ℕ → Pc → ℕ
in_hand f (holding t) = holds f t
in_hand f (starting g t) = holds f t
in_hand f (running g t) = holds f t
in_hand f (left g t) = holds f t
in_hand f (settling g t) = holds f t
in_hand f _ = 0

-- The tasks that hold the fiber, in the queue or in the hands of the threads below `n`.
abbrev pub occurrences : ℕ → ℕ → System → ℕ
occurrences n f s = queued f s.scheduler.fibers + tally (in_hand f) s.pcs n

abbrev pub taken_holds : ℕ → Option Task → ℕ
taken_holds f none = 0
taken_holds f (some t) = holds f t

pub queued-Removes :
    {dead : ℕ → Bool} (f : ℕ) {q r : List Task} {o : Option Task}
    → Removes dead q r o
    → queued f r + taken_holds f o ≤ queued f q
unfolding queued
queued-Removes f finish = omega arith
queued-Removes f (keeps t m) = omega (arith, queued-Removes f m)
queued-Removes f (erases t _ m) = omega (arith, queued-Removes f m)
queued-Removes f (takes_out t q) = omega arith

queued-concat : (f : ℕ) (q : List Task) (t : Task) → queued f (q ++ t ∷ []) ≡ queued f q + holds f t
unfolding queued
queued-concat f [] t = omega arith
queued-concat f (u ∷ q) t = omega (arith, queued-concat f q t)

pub queued-schedule_task :
    (f : ℕ) (t : Task) (s : Scheduler)
    → queued f (schedule_task t s).fibers ≤ queued f s.fibers + holds f t
queued-schedule_task f t s = elim (Bool-cases (has_work t)) [
  | inl e ↦ rw ((schedule_task_lem t s).0 e) (omega (arith, queued-concat f s.fibers t))
  | inr e ↦ rw ((schedule_task_lem t s).1 e) (omega arith)
]

-- The fiber of a task, for the one that is run.
abbrev pub runs : Pc → Option ℕ
runs (starting f t) = some f
runs (running f t) = some f
runs (left f t) = some f
runs (settling f t) = some f
runs _ = none

-- A thread that runs a fiber has the task that holds it.
abbrev pub Owns : Pc → Type 0
Owns (starting f t) = t.fiber ≡ some f
Owns (running f t) = t.fiber ≡ some f
Owns (left f t) = t.fiber ≡ some f
Owns (settling f t) = t.fiber ≡ some f
Owns _ = Unit

pub Owns-in_hand : (x : Pc) (f : ℕ) → Owns x → runs x ≡ some f → in_hand f x ≡ 1
Owns-in_hand x f h e = ground arith

tally_in_le : (b : Pc → ℕ) (p : ℕ → Pc) (n i : ℕ) → i < n → b (p i) ≤ tally b p n
unfolding tally
tally_in_le b p zero i h = elim h [ ]
tally_in_le b p (suc n) i h = elim (Bool-cases (n == i)) [
  | inl k ↦ let k' : n ≡ i = ground arith in omega (arith, ap (λ j. b (p j)) k')
  | inr k ↦ let l : i < n = ground arith in omega (arith, tally_in_le b p n i l)
]

pub tally_two_le :
    (b : Pc → ℕ) (p : ℕ → Pc) (n i j : ℕ) → i < n → j < n → i ≢ j → b (p i) + b (p j) ≤ tally b p n
unfolding tally
tally_two_le b p zero i j h k d = elim h [ ]
tally_two_le b p (suc n) i j h k d = elim (Bool-cases (n == i)) [
  | inl e ↦
      let e' : n ≡ i = ground arith in
      let l : j < n = omega (arith, e', d, k) in
      omega (arith, ap (λ j. b (p j)) e', tally_in_le b p n j l)
  | inr e ↦ elim (Bool-cases (n == j)) [
    | inl a ↦
        let a' : n ≡ j = ground arith in
        let l : i < n = omega (arith, a', d, h) in
        omega (arith, ap (λ j. b (p j)) a', tally_in_le b p n i l)
    | inr a ↦
        let l : i < n = ground arith in
        let m : j < n = ground arith in omega (arith, tally_two_le b p n i j l m d)
  ]
]

-- What a step of the thread `i` does to the sum, by what it does to the queue and to its own hands.
pub occurrences-put :
    (n f i : ℕ) (x : Pc) (q r : List Task) (p : ℕ → Pc) (k : ℕ)
    → i < n
    → queued f r + in_hand f x ≤ queued f q + in_hand f (p i) + k
    → queued f r + tally (in_hand f) (put i x p) n ≤ queued f q + tally (in_hand f) p n + k
occurrences-put n f i x q r p k h m = omega (arith, tally-put_in (in_hand f) p i x n h, m)
