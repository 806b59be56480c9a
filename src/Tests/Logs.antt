-- ===== src/Tests/Logs.antt =====
-- The log: a pattern, and a root logger that writes to the standard output with a child logger below it.
use high_performance_server.Prelude.{
  ℕ, ◌==◌, true, false, List, [], ◌∷◌, map, some, none, Text, codes, if◌then◌else◌, ok, ◌≡◌, refl,
  arith, inl, inr, Bool-cases,
}
use high_performance_server.Log.Levels.{debug, info, warn}
use high_performance_server.Log.Pattern.{message_item, init_pattern}
use high_performance_server.Log.Pieces.{
  letter_m, letter_p, letter_d, Piece, text, plain, braced, piece_item,
}
use high_performance_server.Log.Parsing.{init_pattern-print}
use high_performance_server.Log.Formatter.{Event, Formatter}
use high_performance_server.Log.Logger.{stdout, Logger, Store, log, add_appender, set_level}
use high_performance_server.Log.Routing.{Ready, outputs, own, inherited, log_lem}
use high_performance_server.Log.Readiness.{done, more, added, leveled, Steps-Ready}
use high_performance_server.Log.Manager.{Manager}
use high_performance_server.Log.Naming.{Kept}

abbrev pieces : List Piece
pieces =
    braced letter_d (codes "%H")
    ∷ text (codes " [")
    ∷ plain letter_p
    ∷ text (codes "] ")
    ∷ plain letter_m
    ∷ []

init_pattern-print_example :
    init_pattern (codes "%d{%H} [%p] %m") ≡ (map piece_item pieces, ok true)
init_pattern-print_example =
    init_pattern-print pieces (refl, (refl, refl, refl, (refl, (refl, refl, refl, (refl, tt)))))

abbrev pub date : Text → ℕ → Text
date pattern time = pattern

abbrev pub event : Event
event = record {
  logger_name = codes "db";
  level = info;
  file = codes "main.cc";
  line = 12;
  elapse = 0;
  thread_id = 8;
  fiber_id = 0;
  time = 0;
  content = codes "hello";
}

abbrev pub bare : Formatter
bare = record { pattern = codes "%m"; items = message_item ∷ []; error = false }

abbrev root_logger : Logger
root_logger = record {
  name = codes "root";
  level = debug;
  appenders = 0 ∷ [];
  formatter = bare;
  root = none;
}

abbrev child_logger : Logger
child_logger = record {
  name = codes "db";
  level = info;
  appenders = [];
  formatter = bare;
  root = some 0;
}

abbrev two_loggers : Store
two_loggers = record {
  loggers = λ p. if p == 0 then root_logger else child_logger;
  appenders = λ a. record { sink = stdout; level = debug; formatter = some bare };
}

pub two_loggers-Ready : Ready two_loggers
two_loggers-Ready p = elim (Bool-cases (p == 0)) [ inl e ↦ rw e (refl, tt) | inr e ↦ rw e tt ]

log_lem_example :
    log 2 date two_loggers 1 info event ≡ ok (outputs date info event two_loggers (0 ∷ []))
log_lem_example =
    log_lem 2 date two_loggers 1 info event two_loggers-Ready (inherited refl refl (own refl))
      (omega arith)

Steps-Ready_example : Ready (set_level warn 1 (add_appender 3 1 two_loggers))
Steps-Ready_example = Steps-Ready (more (more done (added 3 1)) (leveled warn 1)) two_loggers-Ready

abbrev pub manager : Manager
manager = record {
  store = two_loggers;
  root = 0;
  loggers = (codes "db", 1) ∷ (codes "root", 0) ∷ [];
  next = 2;
}

manager-Kept : Kept manager
manager-Kept = record {
  kept = ((refl, omega arith), ((refl, omega arith), tt));
  root_used = omega arith;
}
