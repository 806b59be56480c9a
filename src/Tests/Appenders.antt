-- ===== src/Tests/Appenders.antt =====
-- A file appender that is reopened, that writes, and that has failed.
use high_performance_server.Prelude.{true, false, List, [], ◌∷◌, some, ok, codes, ◌≡◌, refl, ◌>>=◌}
use high_performance_server.Log.Levels.{info, debug, warn}
use high_performance_server.Log.Files.{
  FileAppender, Act, logs, reopens, reopen, act_all, appender_of,
}
use high_performance_server.Log.Files.Stuck.{act_all-broken}
use high_performance_server.Log.Files.Written.{outputs, texts, written, act_all-written}
use high_performance_server.Tests.Logs.{date, event, bare}

abbrev to_disk : FileAppender
to_disk = record {
  filename = codes "a";
  level = info;
  formatter = some bare;
  stream = record { is_open = true; failed = false };
  text = codes "old";
}

abbrev full_disk : FileAppender
full_disk = record to_disk { stream = record { is_open = true; failed = true } }

abbrev tries : List Act
tries = logs true info event ∷ reopens true ∷ logs true warn event ∷ []

act_all-broken_example :
    (act_all date tries full_disk ≡ ok full_disk) × (reopen true full_disk ≡ (true, full_disk))
act_all-broken_example = act_all-broken date tries full_disk bare true refl refl

act_all-written_example :
    act_all date (logs true debug event ∷ logs true warn event ∷ []) to_disk ≡ (
      outputs date ((debug, event) ∷ (warn, event) ∷ []) (appender_of to_disk) >>= λ out.
      ok (written (texts out) to_disk))
act_all-written_example = act_all-written date ((debug, event) ∷ (warn, event) ∷ []) to_disk refl
