-- ===== src/Threads.antt =====
-- ddg/thread.h and ddg/thread.cc: a thread that is made, joined, detached and destroyed by its owner. What
-- a call of pthread returns is an argument of the call, and the calls are recorded with it, the latest first.
pub mod Releasing
pub mod Starting
use high_performance_server.Prelude.{
  ℕ, zero, suc, ◌==◌, Bool, true, false, List, [], ◌∷◌, Option, none, some, Text, codes, is_empty,
  if◌then◌else◌, Result, ok, fail, thrown, ◌>>=◌,
}

-- m_id (none for -1), m_thread (0 for none), m_cb and m_name.
pub record Thread : Type 0 where
  pub id : Option ℕ
  pub handle : ℕ
  pub cb : Option ℕ
  pub name : Text

-- The thread-local t_thread and t_thread_name.
pub record Locals : Type 0 where
  pub t_thread : Option ℕ
  pub t_thread_name : Text

pub data Call : Type 0 where
  pthread_join pthread_detach : ℕ → Call

-- A thread, and the calls that release its handle.
pub record Owned : Type 0 where
  pub thread : Thread
  pub calls : List (Call × ℕ)

abbrev pub unknow_name : Text
unknow_name = codes "UNKNOW"

-- `Thread::run` on the new thread up to `m_sem.post()`: the thread's id and name are known, and the
-- callback is taken out. The result has what the callback to call is.
unfoldable pub run : ℕ → ℕ → Thread → Locals → Thread × Locals × Option ℕ
run self tid t locals = (
  record t { id = some tid; cb = none },
  record { t_thread = some self; t_thread_name = t.name },
  t.cb,
)

-- The members when the constructor calls pthread_create, and the handle that this sets.
abbrev pub new_thread : Text → Option ℕ → ℕ → Thread
new_thread name cb handle = record {
  id = none;
  handle = handle;
  cb = cb;
  name = if is_empty name then unknow_name else name;
}

-- The constructor, given what pthread_create returns, the handle that it sets, and the id of the new thread;
-- sem_wait does not fail, so that `m_sem.wait()` returns when `run` has come to its post.
unfoldable pub make : ℕ → ℕ → ℕ → ℕ → Text → Option ℕ → Locals → Result (Owned × Locals × Option ℕ)
unfolding run
make created handle self tid name cb locals =
    let t = new_thread name cb handle in
    if created == 0
    then (let (t', locals', taken) = run self tid t locals in
        ok (record { thread = t'; calls = [] }, locals', taken))
    else fail thrown

abbrev pub called : Call → ℕ → Owned → Owned
called c ret o = record o { calls = (c, ret) ∷ o.calls }

abbrev pub released : Owned → Owned
released o = record o { thread = record o.thread { handle = 0 } }

-- A call that releases the handle, and returns `ret`: the flag is false where it fails, and an exception is thrown.
abbrev pub give_up : ℕ → Call → Owned → Bool × Owned
give_up ret c o = if ret == 0 then (true, released (called c ret o)) else (false, called c ret o)

-- join: the flag is false where it throws.
unfoldable pub join : ℕ → Owned → Bool × Owned
join ret o =
    if o.thread.handle == 0 then (true, o) else give_up ret (pthread_join o.thread.handle) o

unfoldable pub detach : ℕ → Owned → Bool × Owned
detach ret o =
    if o.thread.handle == 0 then (true, o) else give_up ret (pthread_detach o.thread.handle) o

-- The destructor.
unfoldable pub destroy : ℕ → Owned → Owned
destroy ret o = if o.thread.handle == 0 then o else called (pthread_detach o.thread.handle) ret o

-- SetName, with the thread that t_thread points to.
unfoldable pub set_name : Text → Option Thread → Locals → Option Thread × Locals
set_name name t locals = if is_empty name then (t, locals) else (
  elim t [ none ↦ none | some u ↦ some (record u { name = name }) ],
  record locals { t_thread_name = name },
)

-- What an owner does before it destroys the thread, with what pthread returns this time; the owner can catch what is
-- thrown and go on.
pub data Use : Type 0 where
  joins detaches : (ret : ℕ) → Use

unfoldable pub use_each : List Use → Owned → Owned
unfolding join detach
use_each [] o = o
use_each (joins ret ∷ us) o = use_each us (join ret o).1
use_each (detaches ret ∷ us) o = use_each us (detach ret o).1
