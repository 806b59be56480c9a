-- ===== src/Tests/Dumps.antt =====
-- toYamlString over the small document format: two loggers, and an appender on a file.
use high_performance_server.Prelude.{inr, some, Text, codes, ok, ◌≡◌, refl}
use high_performance_server.Log.Levels.{warn}
use high_performance_server.Log.Logger.{file, Store, add_appender, set_level}
use high_performance_server.Log.Pattern.{init_pattern, lex, scan_name, items_of}
use high_performance_server.Log.Manager.{Manager}
use high_performance_server.Log.Casts.{inherit, log_from_string}
use high_performance_server.Log.Dump.{logger_to_yaml}
use high_performance_server.Log.Dumping.{Prints}
use high_performance_server.Log.Reloading.{reread_logger, logger_to_yaml-reread}
use high_performance_server.Tests.Documents.{print, read, toy, Same, toy_laws}
use high_performance_server.Tests.Records.{toy_fields}
use high_performance_server.Tests.Logs.{bare, manager}

abbrev toy_prints : Prints toy
toy_prints = record { emits = λ n. (print n, refl); loads = λ n t e. (read t, refl) }

abbrev used : Manager
used = record manager { store = set_level warn 1 (add_appender 3 1 manager.store) }

abbrev on_file : Store
on_file = record manager.store {
  appenders = λ a. record { sink = file (codes "net.log"); level = warn; formatter = some bare };
}

logger_to_yaml-reread_example :
    (t : Text) × (logger_to_yaml toy on_file 0 ≡ ok t)
    × ((u : Text)
        → Same t u
        → log_from_string toy u ≡ ok (inherit (reread_logger on_file (on_file.loggers 0))))
unfolding init_pattern lex scan_name items_of
logger_to_yaml-reread_example =
    logger_to_yaml-reread toy Same toy_laws toy_fields on_file 0
      (record { has_name = refl; level_named = tt; valid = inr refl; appenders_named = (tt, tt) })
      refl (refl, tt)
