-- ===== src/Log/Logger.antt =====
-- ddg/log.h and ddg/log.cc: appenders and loggers on a store, and where an event goes. What is
-- printed is a list of outputs. A formatter is a value: no code changes one that is shared.
use high_performance_server.Prelude.{
  ℕ, zero, suc, leb, ◌==◌, Bool, List, [], ◌∷◌, ◌++◌, Option, none, some, Text, codes, is_empty,
  if◌then◌else◌, Result, ok, fail, undefined, unfinished, ◌>>=◌,
}
use high_performance_server.Log.Levels.{Level, debug, rank}
use high_performance_server.Log.Formatter.{Event, Formatter, make, format}

-- StdoutLogAppender, or FileLogAppender on a file.
pub data Sink : Type 0 where
  stdout : Sink
  file : Text → Sink

pub record Appender : Type 0 where
  pub sink : Sink
  pub level : Level
  pub formatter : Option Formatter

-- `appenders` are the pointers to a logger's appenders, which loggers can share.
pub record Logger : Type 0 where
  pub name : Text
  pub level : Level
  pub appenders : List ℕ
  pub formatter : Formatter
  pub root : Option ℕ

-- The loggers and the appenders by their addresses.
pub record Store : Type 0 where
  pub loggers : ℕ → Logger
  pub appenders : ℕ → Appender

pub record Output : Type 0 where
  pub sink : Sink
  pub text : Text

abbrev pub write {ℓ} : {A : Type ℓ} → (ℕ → A) → ℕ → A → ℕ → A
write m p v q = if q == p then v else m q

abbrev pub put_logger : Store → ℕ → Logger → Store
put_logger s p l = record s { loggers = write s.loggers p l }

abbrev pub default_pattern : Text
default_pattern = codes "%d{%Y-%m-%d %H:%M:%S}%T%t%T%F%T[%p]%T<%f:%l>%T%m%n"

-- Logger(name).
unfoldable pub new_logger : Text → Result Logger
new_logger name = make default_pattern >>= λ f.
    ok (record { name = name; level = debug; appenders = []; formatter = f; root = none })

unfoldable pub set_root : Option ℕ → ℕ → Store → Store
set_root r p s = put_logger s p (record (s.loggers p) { root = r })

-- LogAppender::setFormatter, of a formatter or null, and setLevel, of the appender at an address.
abbrev pub appender_set_formatter : Option Formatter → ℕ → Store → Store
appender_set_formatter f a s = record s {
  appenders = write s.appenders a (record (s.appenders a) { formatter = f });
}

abbrev pub appender_set_level : Level → ℕ → Store → Store
appender_set_level v a s = record s {
  appenders = write s.appenders a (record (s.appenders a) { level = v });
}

abbrev pub set_formatter_each : Option Formatter → List ℕ → Store → Store
set_formatter_each f [] s = s
set_formatter_each f (a ∷ rest) s = set_formatter_each f rest (appender_set_formatter f a s)

-- setFormatter(LogFormatter::ptr).
unfoldable pub set_formatter : Option Formatter → ℕ → Store → Store
set_formatter f p s = set_formatter_each f (s.loggers p).appenders s

-- setFormatter(pattern): the new formatter is made and tested, and m_formatter is passed on.
unfoldable pub set_formatter_pattern : Text → ℕ → Store → Result Store
set_formatter_pattern pattern p s = make pattern >>= λ f.
    ok (if f.error then s else set_formatter (some (s.loggers p).formatter) p s)

abbrev pub if_missing : Option Formatter → Store → Store → Store
if_missing none set s = set
if_missing (some f) set s = s

unfoldable pub add_appender : ℕ → ℕ → Store → Store
add_appender a p s =
    let l = s.loggers p in
    let ready =
      if_missing (s.appenders a).formatter (appender_set_formatter (some l.formatter) a s) s in
    put_logger ready p (record l { appenders = l.appenders ++ a ∷ [] })

abbrev pub remove_all : ℕ → List ℕ → List ℕ
remove_all a [] = []
remove_all a (b ∷ rest) = if b == a then remove_all a rest else b ∷ remove_all a rest

unfoldable pub del_appender : ℕ → ℕ → Store → Store
del_appender a p s =
    let l = s.loggers p in put_logger s p (record l { appenders = remove_all a l.appenders })

unfoldable pub clear_appender : ℕ → Store → Store
clear_appender p s = put_logger s p (record (s.loggers p) { appenders = [] })

unfoldable pub set_level : Level → ℕ → Store → Store
set_level v p s = put_logger s p (record (s.loggers p) { level = v })

abbrev pub at_least : Level → Level → Bool
at_least level least = leb (rank least) (rank level)

-- StdoutLogAppender::log and FileLogAppender::log; a null formatter is dereferenced.
unfoldable pub append_event : (Text → ℕ → Text) → Level → Event → Appender → Result (List Output)
append_event date level event a =
    if at_least level a.level
    then elim a.formatter [
      | none ↦ fail undefined
      | some f ↦ ok (record { sink = a.sink; text = format date f level event } ∷ [])
    ]
    else ok []

unfoldable pub append_all :
    (Text → ℕ → Text) → Level → Event → Store → List ℕ → Result (List Output)
append_all date level event s [] = ok []
append_all date level event s (a ∷ rest) = append_event date level event (s.appenders a) >>= λ out.
    append_all date level event s rest >>= λ more. ok (out ++ more)

-- Logger::log of the logger at an address. The calls of `m_root->log` are counted down.
unfoldable pub log : ℕ → (Text → ℕ → Text) → Store → ℕ → Level → Event → Result (List Output)
log zero date s p level event = fail unfinished
log (suc calls) date s p level event =
    let l = s.loggers p in
    let of_root : Result (List Output) = elim l.root [
      | none ↦ fail undefined
      | some r ↦ log calls date s r level event
    ] in
    if at_least level l.level
    then (if is_empty l.appenders then of_root else append_all date level event s l.appenders)
    else ok []

-- DDG_LOG_LEVEL and ~LogEventWrap: the event is made and logged if the logger's level allows it.
unfoldable pub log_level : ℕ → (Text → ℕ → Text) → Store → ℕ → Level → Event → Result (List Output)
log_level calls date s p level event =
    if at_least level (s.loggers p).level
    then log calls date s p level (record event { level = level })
    else ok []
