-- ===== src/Log/Configuring.antt =====
-- ddg/log.cc, LoggerManager::init: the listener of the variable "logs". It gets the old and the new set of
-- definitions, each in ascending order of the names. What it logs is left out.
pub mod Appending
pub mod Applying
pub mod Returning
pub mod Refiling
pub mod Changes
use high_performance_server.Prelude.{
  ℕ, ◌+◌, Bool, true, false, not, ◌&&◌, List, [], ◌∷◌, Option, none, some, Text, is_empty,
  if◌then◌else◌, Result, ok, fail, undefined, ◌>>=◌,
}
use high_performance_server.Log.Levels.{Level, debug, cast}
use high_performance_server.Log.Formatter.{make}
use high_performance_server.Log.Logger.{
  Sink, stdout, file, Appender, Store, write, appender_set_level, appender_set_formatter, set_level,
  set_formatter_pattern, clear_appender, add_appender,
}
use high_performance_server.Log.Manager.{Manager, get_logger, del_logger}
use high_performance_server.Log.Defines.{
  AppenderType, file_log_appender, stdout_log_appender, unknow_appender, AppenderDefine, LogDefine,
  eq_define, less_define,
}

-- The manager, and the address of the appender that is made next.
pub record Site : Type 0 where
  pub manager : Manager
  pub next_appender : ℕ

abbrev pub with_store : Store → Site → Site
with_store s site = record site { manager = record site.manager { store = s } }

-- The `switch` on the type; a null appender is dereferenced after it.
abbrev pub sink_of : AppenderDefine → Result Sink
sink_of a = elim a.type [
  | stdout_log_appender ↦ ok stdout
  | file_log_appender ↦ ok (file a.file)
  | unknow_appender ↦ fail undefined
]

abbrev pub format_appender : Text → ℕ → Store → Result Store
format_appender pattern at s =
    if is_empty pattern
    then ok s
    else make pattern >>= λ f. ok (appender_set_formatter (some f) at s)

-- One appender of a definition, for the logger at `p`.
unfoldable pub apply_appender : AppenderDefine → ℕ → Site → Result Site
apply_appender a p site = sink_of a >>= λ sink.
    let made : Appender = record { sink = sink; level = debug; formatter = none } in
    let at = site.next_appender in
    let s = site.manager.store in
    let s1 = appender_set_level a.level at (record s { appenders = write s.appenders at made }) in
    format_appender a.formatter at s1 >>= λ s2.
    ok (record (with_store (add_appender at p s2) site) { next_appender = at + 1 })

unfoldable pub apply_appenders : List AppenderDefine → ℕ → Site → Result Site
unfolding apply_appender
apply_appenders [] p site = ok site
apply_appenders (a ∷ rest) p site = apply_appender a p site >>= apply_appenders rest p

abbrev pub format_logger : Text → ℕ → Store → Result Store
format_logger pattern p s = if is_empty pattern then ok s else set_formatter_pattern pattern p s

-- What is done for a definition that is new or has changed.
unfoldable pub apply_define : LogDefine → Site → Result Site
unfolding apply_appenders
apply_define d site = get_logger d.name site.manager >>= λ (p, m).
    format_logger d.formatter p (set_level d.level p m.store) >>= λ s.
    apply_appenders d.appenders p
      (record site { manager = record m { store = clear_appender p s } })

-- std::set::find: an element that is neither less nor greater.
abbrev pub find_define : LogDefine → List LogDefine → Option LogDefine
find_define d [] = none
find_define d (e ∷ es) =
    if not (less_define e d) && not (less_define d e) then some e else find_define d es

unfoldable pub apply_changed : List LogDefine → LogDefine → Site → Result Site
unfolding apply_define eq_define
apply_changed old d site = elim (find_define d old) [
  | none ↦ apply_define d site
  | some e ↦ elim (eq_define d e) [ true ↦ ok site | false ↦ apply_define d site ]
]

unfoldable pub apply_all : List LogDefine → List LogDefine → Site → Result Site
unfolding apply_changed
apply_all old [] site = ok site
apply_all old (d ∷ ds) site = apply_changed old d site >>= apply_all old ds

-- What is done for a definition that is gone. The locks that setLevel and clearAppender take are not modelled: their
-- WriteLocks are not released (mutex.h:126).
unfoldable pub remove_define : LogDefine → Site → Result Site
remove_define d site = get_logger d.name site.manager >>= λ (p, m).
    let s = clear_appender p (set_level (cast 100) p m.store) in
    ok (record site { manager = del_logger d.name (record m { store = s }) })

unfoldable pub remove_gone : List LogDefine → LogDefine → Site → Result Site
unfolding remove_define
remove_gone new d site = elim (find_define d new) [ some e ↦ ok site | none ↦ remove_define d site ]

unfoldable pub remove_all_gone : List LogDefine → List LogDefine → Site → Result Site
unfolding remove_gone
remove_all_gone new [] site = ok site
remove_all_gone new (d ∷ ds) site = remove_gone new d site >>= remove_all_gone new ds

unfoldable pub on_change : List LogDefine → List LogDefine → Site → Result Site
unfolding apply_all remove_all_gone
on_change old new site = apply_all old new site >>= remove_all_gone new old
