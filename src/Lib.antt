-- ===== src/Lib.antt =====
-- Verification of the server's core: fibers, the scheduler, the IO manager, the log, the configuration,
-- threads and the locks, as the files under ddg/ define them.
--
-- How the parts interact. A scheduler (ddg/scheduler.cc) keeps a queue of tasks, each a fiber or a
-- callback, and runs a loop on every thread that picks a task, switches its fiber in (ddg/fiber.cc) and
-- looks at the state in which the fiber switches back. The IO manager (ddg/iomanager.cc) is a scheduler
-- whose idle fiber waits in epoll; it keeps for every descriptor what waits for it and puts that on a
-- scheduler's queue when the event comes. All of them write to the log (ddg/log.cc), whose loggers the
-- configuration (ddg/config.h, ddg/config.cc) can set up; ddg/mutex.h has the locks.
--
-- Files, and what they model.
--   Prelude             names, lists, texts, and `Result`: a value, or how a call fails. DDG_ASSERT is
--                       `assertion`, an exception is `thrown`, a null dereference `undefined`.
--   Fiber               ddg/fiber.h, ddg/fiber.cc. `World` is the store of fibers with t_fiber,
--                       t_threadFiber and t_scheduler_fiber; swap_in is swapIn, yield_to_ready is
--                       YieldToReady, main_func_end is what follows the callback in MainFunc. `resume`
--                       is a turn: from swapIn to the switch back; a fiber that has ended and is
--                       switched in again fails the assertion behind its last switch. Fiber/States has the states,
--                       Fiber/IdSet safeFiberIdIncr.
--   Scheduler           Queue: ddg/scheduler.h, the tasks and `schedule`. Scan: the `for` of
--                       Scheduler::run under the lock. Run: the rest of run, `iterate` is one round of
--                       its `while`. Lifecycle: constructor, start, stop. Threads: several threads in
--                       the loop, a step for what one of them does between two accesses to what they
--                       share. Picking, Faults, Progress, Turns, Serving, Stopping and the files in Threads
--                       and in Serving prove.
--   IoManager           ddg/iomanager.h, ddg/iomanager.cc: Events has FdContext and triggerEvent, IoManager
--                       addEvent, delEvent, cancelEvent, cancelAll and what idle does with an event
--                       (`handle_event`), IoManager/Idle the constructor and the loop of idle. Waiters is the specification of the operations. Valid, Triggering,
--                       Keeps, Adding, Polling, RoundTrips, Refining and the files in it and in Waiters,
--                       Idle/Waiting and Serving, which joins triggerEvent and the scheduler's loop,
--                       prove.
--   Log                 ddg/log.h, ddg/log.cc: Levels (LogLevel), Pattern (initPattern), Formatter, Logger
--                       (appenders and loggers on a store), Files (FileLogAppender with its stream),
--                       Manager (LoggerManager), Defines (LogDefine, LogAppenderDefine), Casts (their
--                       casts to and from YAML), Configuring (the listener of
--                       LoggerManager::init), Dump (toYamlString). Lexing, Pieces, Parsing, Printing,
--                       Routing, Readiness, Names, Naming, Dumping, Rereading, Reloading and the files in
--                       Casts, in Configuring and in Files prove.
--   Config              ddg/config.h, ddg/config.cc: Vars (ConfigVar), Registry (Config), Variables
--                       (ConfigVarBase: a registry of variables of several types). Listeners, Listing,
--                       Loading and the files in Variables prove.
--   Lexical             ddg/lexicalcast.h: the casts of containers. What they rely on in yaml-cpp is in
--                       Lexical/Laws. Sequences, Sets, Maps prove.
--   Locks               ddg/mutex.h, ddg/mutex.cc: the scoped locks, Cas (CASLock), RwMutex (RWMutex and its
--                       scoped locks, for any number of threads), Mutexes (the same of Mutex and SpinLock),
--                       Semphore. Scopes, RwMutex/Holding, RwMutex/Leaks and Mutexes/Holding prove.
--   Threads             ddg/thread.h, ddg/thread.cc, with the start of a thread in Starting. Releasing and
--                       Starting prove.
--   Utils               ddg/utils.cc: backtraces and clocks. Lines proves.
--   Tests               runs on small inputs.
--
-- Conventions. A pointer is an address, a number; 0 is an address as any other, and null is `none`. An
-- unsigned member of 64 bits is a number with its wrap-around written out. What code outside the
-- repository does is an argument: what epoll_ctl returns for each call, what a node of a YAML document is
-- printed as, what yaml-cpp and the cast of an element do (the records `Yaml` and `Cast`), what
-- strftime prints, the mutex of a scoped lock, the functions of pthread and of POSIX semaphores (the records
-- `Rwlock`, `Pthread` and `Calls`), what backtrace and gettimeofday give.
--
-- Fuel and turns. What a callback does while its fiber runs is not code of the library: a `Turn` gives the
-- tasks that it schedules and the way in which it switches back, and `run_loop` makes a round for each
-- turn of a list, so that a theorem about all lists holds for a loop of any length. `stop` calls the loop
-- with such a list, and is `unfinished` if the loop has not come to its `break` by then. `lex`, the loop of
-- initPattern, gets the length of the pattern as fuel, which is enough (lex-IsTotal in Log/Lexing). `log`
-- counts the calls that a chain of roots makes. The search for a free fiber id has a round for each id.
--
-- Not modelled. Interleavings are modelled for the loop of the scheduler, for the locks, and for the
-- start of a thread. In the loop an operation under a lock is one step and so is a fiber's turn but for what it
-- schedules; a yield sets the state and switches in one step. The locks of the loggers, the configuration and
-- the IO manager do not appear there. Machine contexts and stacks. The timers that ddg/iomanager.cc includes are
-- not in the repository. ddg/env.cc is empty. The other methods that only
-- print are left out, as are what the listener of LoggerManager::init itself logs, and the destructor of the IO
-- manager. A thread has one scoped lock of an RWMutex at a time.
pub mod Prelude
pub mod Fiber
pub mod Scheduler
pub mod IoManager
pub mod Log
pub mod Config
pub mod Lexical
pub mod Locks
pub mod Threads
pub mod Utils
pub mod Tests
