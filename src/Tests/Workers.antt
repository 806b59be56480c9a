-- ===== src/Tests/Workers.antt =====
-- A thread that is joined twice, where the first pthread_join fails.
use high_performance_server.Prelude.{List, [], ◌∷◌, none, codes}
use high_performance_server.Threads.{Locals, Use, joins, detaches}

-- The first join fails, and the second does not.
abbrev twice : List Use
twice = joins 3 ∷ joins 0 ∷ detaches 0 ∷ []

abbrev outside : Locals
outside = record { t_thread = none; t_thread_name = codes "UNKNOW" }
