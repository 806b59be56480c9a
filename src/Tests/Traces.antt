-- ===== src/Tests/Traces.antt =====
-- Backtraces, and a clock that succeeds.
use high_performance_server.Prelude.{
  ◌∷◌, [], ◌≡◌, arith, refl, List, Text, codes, some, ok, fail, thrown,
}
use high_performance_server.Utils.{
  TimeOfDay, lines, backtrace_to_string, get_current_milli_second, get_current_micro_second,
}
use high_performance_server.Utils.Lines.{printed, backtrace_to_string_lem}

abbrev frames : List Text
frames = codes "f" ∷ codes "main" ∷ codes "start" ∷ []

backtrace_to_string_lem_example :
    backtrace_to_string 1000 (some frames) 3 1 (codes "  ") ≡ printed (codes "  ") frames 1
backtrace_to_string_lem_example =
    backtrace_to_string_lem 1000 (codes "  ") frames 1 (omega arith) (omega arith) (omega arith)

-- The last line is the prefix alone.
two_frames : printed (codes "  ") frames 1 ≡ ok (codes "  main\n  start\n  \n")
unfolding lines
two_frames = refl

abbrev noon : TimeOfDay
noon = record { ret = 0; sec = 1000; usec = 2500 }

noon_read :
    (get_current_milli_second noon ≡ ok 1000002) × (get_current_micro_second noon ≡ fail thrown)
unfolding get_current_milli_second get_current_micro_second
noon_read = (refl, refl)
