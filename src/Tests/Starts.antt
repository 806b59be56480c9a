-- ===== src/Tests/Starts.antt =====
-- The start of a thread over semaphores that are numbers.
use high_performance_server.Prelude.{ℕ, zero, suc, ◌+◌, ◌≡◌, refl, arith, Option, none, some, codes}
use high_performance_server.Locks.Semphore.{Calls, CallsLaws, make, wait, post}
use high_performance_server.Threads.{Locals, run, new_thread}
use high_performance_server.Threads.Starting.{
  Start, Started, Reach, start, after, runs, posts, returns, waiting, back, fresh, posted,
  back-Started, interrupted-back,
}

abbrev sem_wait : ℕ → Option (ℕ × ℕ)
sem_wait zero = none
sem_wait (suc n) = some (0, n)

abbrev plain : Calls
plain = record {
  Sem = ℕ;
  init = λ n. (0, n);
  wait = sem_wait;
  post = λ n. (0, suc n);
  value = λ n. n;
}

gives : (s s' : ℕ) → sem_wait s ≡ some (0, s') → s ≡ s' + 1
gives zero s' h = cc
gives (suc n) s' h = ground arith

never_fails : (e s s' : ℕ) → ¬ (sem_wait s ≡ some (suc e, s'))
never_fails e zero s' h = cc
never_fails e (suc n) s' h = cc

plain_laws : CallsLaws plain
plain_laws = record {
  init_gives = λ n s h. ground arith;
  wait_gives = gives;
  wait_fails = λ e s s' h. absurd (never_fails e s s' h);
  post_gives = λ s s' h. ground arith;
  post_fails = λ e s s' h. cc;
}

abbrev unnamed : Locals
unnamed = record { t_thread = none; t_thread_name = codes "UNKNOW" }

abbrev at_first : Start plain 7 42
at_first = record {
  thread = new_thread (codes "io") (some 5) 9;
  locals = unnamed;
  sem = 0;
  maker = waiting;
  worker = fresh;
}

abbrev at_last : Start plain 7 42
at_last = record {
  thread = record (new_thread (codes "io") (some 5) 9) { id = some 42; cb = none };
  locals = record { t_thread = some 7; t_thread_name = codes "io" };
  sem = 0;
  maker = back;
  worker = posted;
}

at_last-Reach : Reach plain 7 42 (codes "io") (some 5) 9 unnamed at_last
unfolding make wait post run
at_last-Reach =
    after (after (after (start 0 refl) (runs at_first refl)) (posts _ refl)) (returns _ 0 refl refl)

back-Started_example : Started plain 7 42 at_last
back-Started_example =
    back-Started plain plain_laws 7 42 (codes "io") (some 5) 9 unnamed never_fails at_last-Reach
      refl

-- A semaphore whose first wait is interrupted.
abbrev signalled : Calls
signalled = record plain { wait = λ n. some (4, n) }

interrupted-back_example :
    (s : Start signalled 7 42) × Reach signalled 7 42 (codes "io") (some 5) 9 unnamed s
    × (s.maker ≡ back)
    × (s.worker ≡ fresh)
    × (s.thread.id ≡ none)
    × (s.thread.cb ≡ some 5)
unfolding make
interrupted-back_example =
    interrupted-back signalled 7 42 (codes "io") (some 5) 9 unnamed 0 0 3 refl refl
