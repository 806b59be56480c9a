-- ===== src/Log/Routing.antt =====
-- Where an event goes.
use high_performance_server.Prelude.{
  ℕ, zero, suc, Bool, true, false, ◌&&◌, List, [], ◌∷◌, ◌++◌, Option, none, some, is_some, Text,
  is_empty, if◌then◌else◌, Result, ok, fail, undefined, ◌≡◌, refl, ap, ◌∙◌, arith, All, ◌<◌,
}
use high_performance_server.Log.Levels.{Level}
use high_performance_server.Log.Formatter.{Event, Formatter, format}
use high_performance_server.Log.Logger.{
  Appender, Logger, Output, Store, clear_appender, at_least, append_event, append_all, log,
}
use high_performance_server.Log.Names.{write_self}

abbrev pub has_formatter : Store → ℕ → Bool
has_formatter s a = is_some (s.appenders a).formatter

-- Every appender in the list has a formatter.
abbrev pub IsReady : Store → List ℕ → Type 0
IsReady s = All (λ a. has_formatter s a ≡ true)

-- Every appender of every logger has one.
abbrev pub Ready : Store → Type 0
Ready s = (p : ℕ) → IsReady s (s.loggers p).appenders

-- The events of a level that an appender drops and the texts it writes.
abbrev pub output : (Text → ℕ → Text) → Level → Event → Appender → Option Formatter → List Output
output date level event a none = []
output date level event a (some f) =
    if at_least level a.level
    then record { sink = a.sink; text = format date f level event } ∷ []
    else []

abbrev pub outputs : (Text → ℕ → Text) → Level → Event → Store → List ℕ → List Output
outputs date level event s [] = []
outputs date level event s (a ∷ rest) =
    output date level event (s.appenders a) (s.appenders a).formatter
    ++ outputs date level event s rest

append_event_lem :
    (date : Text → ℕ → Text) (level : Level) (event : Event) (a : Appender) (f : Option Formatter)
    → a.formatter ≡ f
    → is_some f ≡ true
    → append_event date level event a ≡ ok (output date level event a f)
unfolding append_event
append_event_lem date level event a none e h = cc
append_event_lem date level event a (some f) e h = ground arith

append_all_lem :
    (date : Text → ℕ → Text) (level : Level) (event : Event) (s : Store) (l : List ℕ)
    → IsReady s l
    → append_all date level event s l ≡ ok (outputs date level event s l)
unfolding append_all
append_all_lem date level event s [] h = refl
append_all_lem date level event s (a ∷ rest) h =
    rw
      (
        append_event_lem date level event (s.appenders a) (s.appenders a).formatter refl h.0,
        append_all_lem date level event s rest h.1,
      )
      refl

-- The logger that handles what is logged with the logger at an address: itself if it has an
-- appender, else the one that handles for its root.
pub data Handler (s : Store) : ℕ → Type 0 where
  own : {p : ℕ} → is_empty (s.loggers p).appenders ≡ false → Handler s p
  inherited :
      {p r : ℕ}
      → is_empty (s.loggers p).appenders ≡ true
      → (s.loggers p).root ≡ some r
      → Handler s r
      → Handler s p

abbrev pub handler : {s : Store} {p : ℕ} → Handler s p → ℕ
handler {p = p} (own e) = p
handler (inherited e r h) = handler h

-- The level passes every logger on the way.
abbrev pub passes : {s : Store} {p : ℕ} → Level → Handler s p → Bool
passes {s = s} {p = p} level (own e) = at_least level (s.loggers p).level
passes {s = s} {p = p} level (inherited e r h) =
    at_least level (s.loggers p).level && passes level h

abbrev pub depth : {s : Store} {p : ℕ} → Handler s p → ℕ
depth (own e) = 0
depth (inherited e r h) = suc (depth h)

log_own :
    (calls : ℕ) (date : Text → ℕ → Text) (s : Store) (p : ℕ) (level : Level) (event : Event)
    → is_empty (s.loggers p).appenders ≡ false
    → log (suc calls) date s p level event ≡ (
        if at_least level (s.loggers p).level
        then append_all date level event s (s.loggers p).appenders
        else ok [])
unfolding log
log_own calls date s p level event e = rw e refl

pub log_inherited :
    (calls : ℕ) (date : Text → ℕ → Text) (s : Store) (p r : ℕ) (level : Level) (event : Event)
    → is_empty (s.loggers p).appenders ≡ true
    → (s.loggers p).root ≡ some r
    → log (suc calls) date s p level event
      ≡ (if at_least level (s.loggers p).level then log calls date s r level event else ok [])
unfolding log
log_inherited calls date s p r level event e q = rw (e, q) refl

if-ok :
    (b : Bool) (m : Result (List Output)) (out : List Output)
    → m ≡ ok out
    → (if b then m else ok []) ≡ ok (if b then out else [])
if-ok true m out h = h
if-ok false m out h = refl

if-and :
    (b c : Bool) (out : List Output)
    → (if b then (if c then out else []) else []) ≡ (if b && c then out else [])
if-and true c out = refl
if-and false c out = refl

-- On a store whose appenders have formatters, a log call returns when its calls suffice for the
-- loggers on the way to the handler: the handler's appenders write the event, each unless the
-- level is below its own, in their order, if the level passes every logger on the way; nothing is
-- written otherwise.
pub log_lem :
    (calls : ℕ) (date : Text → ℕ → Text) (s : Store) (p : ℕ) (level : Level) (event : Event)
    → Ready s
    → (h : Handler s p) → depth h < calls
    → log calls date s p level event
      ≡ ok (
          if passes level h
          then outputs date level event s (s.loggers (handler h)).appenders
          else [])
log_lem zero date s p level event ready h d = absurd (omega arith)
log_lem (suc calls) date s p level event ready (own e) d =
    log_own calls date s p level event e
    ∙ if-ok (at_least level (s.loggers p).level) _ _
        (append_all_lem date level event s (s.loggers p).appenders (ready p))
log_lem (suc calls) date s p level event ready (inherited {r = r} e q h) d =
    log_inherited calls date s p r level event e q
    ∙ if-ok (at_least level (s.loggers p).level) _ _
        (log_lem calls date s r level event ready h (omega arith))
    ∙ ap ok (if-and (at_least level (s.loggers p).level) (passes level h) _)

log_null :
    (calls : ℕ) (date : Text → ℕ → Text) (s : Store) (p : ℕ) (level : Level) (event : Event)
    → (l : Logger) → s.loggers p ≡ l
    → is_empty l.appenders ≡ true
    → l.root ≡ none
    → at_least level l.level ≡ true
    → log (suc calls) date s p level event ≡ fail undefined
unfolding log
log_null calls date s p level event l q e r h = rw (q, e, r, h) refl

-- A logger without appenders and without a root dereferences a null pointer for every level that
-- it does not drop: the root logger itself, once its appenders are cleared.
pub log_rootless :
    (calls : ℕ) (date : Text → ℕ → Text) (s : Store) (p : ℕ) (level : Level) (event : Event)
    → (s.loggers p).root ≡ none
    → at_least level (s.loggers p).level ≡ true
    → log (suc calls) date (clear_appender p s) p level event ≡ fail undefined
unfolding clear_appender
log_rootless calls date s p level event r h =
    log_null calls date (clear_appender p s) p level event (record (s.loggers p) { appenders = [] })
      (write_self s.loggers p _) refl r h
