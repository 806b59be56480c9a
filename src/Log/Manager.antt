-- ===== src/Log/Manager.antt =====
-- ddg/log.cc, LoggerManager: the loggers by their names. Addresses are given in ascending order, and
-- `m_loggers` is an association list with one entry for a name.
use high_performance_server.Prelude.{
  ℕ, ◌+◌, List, [], ◌∷◌, Option, none, some, Text, codes, same, if◌then◌else◌, Result, ok, ◌>>=◌,
}
use high_performance_server.Log.Levels.{debug}
use high_performance_server.Log.Logger.{
  stdout, Appender, Store, write, put_logger, new_logger, set_root, add_appender, set_level,
  appender_set_level,
}

pub record Manager : Type 0 where
  pub store : Store
  pub root : ℕ
  pub loggers : List (Text × ℕ)
  pub next : ℕ

abbrev pub find : Text → List (Text × ℕ) → Option ℕ
find name [] = none
find name ((key, p) ∷ rest) = if same key name then some p else find name rest

abbrev pub erase : Text → List (Text × ℕ) → List (Text × ℕ)
erase name [] = []
erase name ((key, p) ∷ rest) = if same key name then erase name rest else (key, p) ∷ erase name rest

-- The root logger, at address 0, with an appender on the standard output, at address 0 too; `s` is
-- the store as it is allocated.
unfoldable pub new_manager : Store → Result Manager
new_manager s = new_logger (codes "root") >>= λ l.
    let appender : Appender = record { sink = stdout; level = debug; formatter = none } in
    let made = put_logger (record s { appenders = write s.appenders 0 appender }) 0 l in
    let ready = add_appender 0 0 (set_level debug 0 (appender_set_level debug 0 made)) in
    ok (record { store = ready; root = 0; loggers = ((ready.loggers 0).name, 0) ∷ []; next = 1 })

-- The logger that getLogger makes for a name.
unfoldable pub insert_logger : Text → Manager → Result (ℕ × Manager)
insert_logger name m = new_logger name >>= λ l. ok (
  m.next,
  record m {
    store = set_root (some m.root) m.next (put_logger m.store m.next l);
    loggers = (name, m.next) ∷ m.loggers;
    next = m.next + 1;
  },
)

unfoldable pub get_logger : Text → Manager → Result (ℕ × Manager)
get_logger name m = elim (find name m.loggers) [ none ↦ insert_logger name m | some p ↦ ok (p, m) ]

abbrev pub erase_found : Option ℕ → Text → Manager → Manager
erase_found none name m = m
erase_found (some p) name m = record m { loggers = erase name m.loggers }

unfoldable pub del_logger : Text → Manager → Manager
del_logger name m = erase_found (find name m.loggers) name m
