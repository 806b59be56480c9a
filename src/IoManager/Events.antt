-- ===== src/IoManager/Events.antt =====
-- ddg/iomanager.h: events, the epoll masks that stand for them, and the context of a descriptor.
use high_performance_server.Prelude.{
  ℕ, ◌==◌, Bool, true, false, not, ◌||◌, Option, none, is_some, if◌then◌else◌, Result, ok, fail,
  assertion, ◌>>=◌,
}
use high_performance_server.Fiber.{deref}
use high_performance_server.Scheduler.Queue.{Scheduler, schedule_cb, schedule_fiber}

-- IOManager::Event: NONE, READ (EPOLLIN) and WRITE (EPOLLOUT).
pub data Event : Type 0 where
  nothing read write : Event

-- FdContext::events, a set of READ and WRITE, by its two bits.
pub record Events : Type 0 where
  pub reads : Bool
  pub writes : Bool

abbrev pub no_events : Events
no_events = record { reads = false; writes = false }

-- `events & event`.
abbrev pub has : Event → Events → Bool
has nothing es = false
has read es = es.reads
has write es = es.writes

-- `events | event`.
abbrev pub with_event : Event → Events → Events
with_event nothing es = es
with_event read es = record es { reads = true }
with_event write es = record es { writes = true }

-- `events & ~event`.
abbrev pub without : Event → Events → Events
without nothing es = es
without read es = record es { reads = false }
without write es = record es { writes = false }

-- `events` as a condition.
abbrev pub any : Events → Bool
any es = es.reads || es.writes

-- The bits of epoll_event::events that the code uses or may set: EPOLLIN 1, EPOLLPRI 2, EPOLLOUT 4,
-- EPOLLHUP 16, EPOLLET 2 ^ 31.
pub record Mask : Type 0 where
  pub epollin : Bool
  pub epollpri : Bool
  pub epollout : Bool
  pub epollhup : Bool
  pub epollet : Bool

-- `EPOLLET | events`.
abbrev pub edge : Events → Mask
edge es = record {
  epollin = es.reads;
  epollpri = false;
  epollout = es.writes;
  epollhup = false;
  epollet = true;
}

pub data CtlOp : Type 0 where
  ctl_add ctl_del ctl_mod : CtlOp

-- `ev.events = op`: EPOLL_CTL_ADD is 1, EPOLL_CTL_DEL is 2, EPOLL_CTL_MOD is 3.
abbrev pub op_as_mask : CtlOp → Mask
op_as_mask op = record {
  epollin = elim op [ ctl_add ↦ true | ctl_del ↦ false | ctl_mod ↦ true ];
  epollpri = elim op [ ctl_add ↦ false | ctl_del ↦ true | ctl_mod ↦ true ];
  epollout = false;
  epollhup = false;
  epollet = false;
}

-- A call of epoll_ctl on the manager's epoll descriptor.
pub record CtlCall : Type 0 where
  pub op : CtlOp
  pub fd : ℕ
  pub mask : Mask

-- A pointer to a scheduler is a number; `none` is null.
pub record EventContext : Type 0 where
  pub scheduler : Option ℕ
  pub fiber : Option ℕ
  pub cb : Option ℕ

abbrev pub no_context : EventContext
no_context = record { scheduler = none; fiber = none; cb = none }

pub record FdContext : Type 0 where
  pub read_context : EventContext
  pub write_context : EventContext
  pub fd : ℕ
  pub events : Events

unfoldable pub get_context : Event → FdContext → Result EventContext
get_context read c = ok c.read_context
get_context write c = ok c.write_context
get_context nothing c = fail assertion

-- A write through the reference that getContext returns.
abbrev pub put_context : Event → FdContext → EventContext → FdContext
put_context read c x = record c { read_context = x }
put_context write c x = record c { write_context = x }
put_context nothing c x = c

-- FdContext::resetContext.
unfoldable pub reset_context : Event → FdContext → FdContext
reset_context e c = put_context e c no_context

abbrev pub Schedulers : Type 0
Schedulers = ℕ → Scheduler

abbrev pub update_scheduler : Schedulers → ℕ → Scheduler → Schedulers
update_scheduler ss s v t = if t == s then v else ss t

-- FdContext::triggerEvent. A callback or fiber is swapped out of the context into its task.
unfoldable pub trigger_event : Event → FdContext → Schedulers → Result (FdContext × Schedulers)
unfolding get_context schedule_cb schedule_fiber
trigger_event e c ss =
    if not (has e c.events)
    then fail assertion
    else (let c' = record c { events = without e c.events } in
        get_context e c' >>= λ x. deref x.scheduler >>= λ s.
        if is_some x.cb
        then ok (
          put_context e c' (record x { cb = none; scheduler = none }),
          update_scheduler ss s (schedule_cb x.cb 0 (ss s)),
        )
        else ok (
          put_context e c' (record x { fiber = none; scheduler = none }),
          update_scheduler ss s (schedule_fiber x.fiber 0 (ss s)),
        ))
