-- ===== src/Tests/Descriptors.antt =====
-- The IO manager: three descriptors, the second waiting to read and the third to read and to write.
use high_performance_server.Prelude.{ℕ, true, false, [], ◌∷◌, some, none, refl, arith}
use high_performance_server.Scheduler.Queue.{Scheduler}
use high_performance_server.IoManager.Events.{
  write, Mask, CtlCall, EventContext, no_context, FdContext,
}
use high_performance_server.IoManager.{Manager, Caller, new_context}
use high_performance_server.IoManager.Valid.{Valid}
use high_performance_server.IoManager.Waiters.{cancels_all, perform}
use high_performance_server.IoManager.Refining.{Refines}
use high_performance_server.IoManager.Refining.Registering.{perform-Refines}
use high_performance_server.IoManager.RoundTrips.{Setting}

abbrev pub worker : Scheduler
worker = record {
  fibers = [];
  active = 0;
  idle = 1;
  stopping = false;
  auto_stop = false;
  root_thread = 0;
  root_fiber = none;
  thread_count = 1;
  thread_ids = 8 ∷ [];
  threads = 8 ∷ [];
  joined = [];
  tickles = 0;
}

abbrev held : EventContext
held = record { scheduler = some 0; fiber = none; cb = some 7 }

abbrev pub reader : FdContext
reader = record {
  read_context = held;
  write_context = no_context;
  fd = 1;
  events = record { reads = true; writes = false };
}

abbrev both : FdContext
both = record {
  read_context = held;
  write_context = record { scheduler = some 0; fiber = some 2; cb = none };
  fd = 2;
  events = record { reads = true; writes = true };
}

abbrev pub table : Manager
table = record {
  contexts = new_context 0 ∷ reader ∷ both ∷ [];
  pending = 3;
  schedulers = λ s. worker;
  ctl = [];
}

pub table-Valid : Valid table
table-Valid = record { slots = ((refl, refl), ((refl, refl), ((refl, refl), tt))); counted = refl }

abbrev pub accept : CtlCall → ℕ
accept k = 0

abbrev caller : Caller
caller = record { scheduler = some 0; fiber = 3; is_exec = true }

abbrev pub input : Mask
input = record {
  epollin = true;
  epollpri = false;
  epollout = false;
  epollhup = false;
  epollet = false;
}

abbrev hangup : Mask
hangup = record {
  epollin = false;
  epollpri = false;
  epollout = true;
  epollhup = true;
  epollet = false;
}

abbrev writer : Manager
writer = record {
  contexts =
      record {
        read_context = no_context;
        write_context = held;
        fd = 0;
        events = record { reads = false; writes = true };
      }
      ∷ [];
  pending = 1;
  schedulers = λ s. worker;
  ctl = [];
}

setting : Setting accept caller none write 1 reader table
setting = record {
  accepts = λ k. refl;
  can = (refl, refl);
  event = λ e. cc;
  inside = omega arith;
  here = refl;
  free = refl;
  valid = table-Valid;
}

perform-Refines_example :
    Refines accept (cancels_all 2) table (perform accept (cancels_all 2) table)
perform-Refines_example = perform-Refines accept (cancels_all 2) table table-Valid (omega arith) tt
