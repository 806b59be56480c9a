-- ===== src/Log/Readiness.antt =====
-- The operations on a store of loggers as steps, and the formatters of the appenders.
use high_performance_server.Prelude.{
  ℕ, ◌==◌, true, false, List, [], ◌∷◌, ◌++◌, Option, some, is_some, Text, ok, >>=-eq-ok,
  ok_injective, ◌≡◌, refl, ap, sym, subst, arith, Bool-cases, inl, inr, member, Option-cases,
}
use high_performance_server.Log.Levels.{Level, Level}
use high_performance_server.Log.Formatter.{Formatter, make}
use high_performance_server.Log.Pieces.{Piece, print, IsWellFormed}
use high_performance_server.Log.Parsing.{init_pattern-print}
use high_performance_server.Log.Logger.{
  Appender, Logger, Store, write, put_logger, appender_set_formatter, appender_set_level,
  set_formatter_each, set_formatter, set_formatter_pattern, add_appender, remove_all, del_appender,
  clear_appender, set_level, set_root, new_logger,
}
use high_performance_server.Log.Routing.{has_formatter, IsReady, Ready}

-- One operation on the store; no formatter that is given to an operation is null. A new logger or appender has an address that no logger refers to.
pub data Step : Store → Store → Type 0 where
  new_at :
      {s : Store} (name : Text) (p : ℕ) (l : Logger)
      → new_logger name ≡ ok l
      → Step s (put_logger s p l)
  appender_at :
      {s : Store} (a : ℕ) (v : Appender)
      → ((p : ℕ) → member a (s.loggers p).appenders ≡ false)
      → Step s (record s { appenders = write s.appenders a v })
  rooted : {s : Store} (r : Option ℕ) (p : ℕ) → Step s (set_root r p s)
  leveled : {s : Store} (v : Level) (p : ℕ) → Step s (set_level v p s)
  added : {s : Store} (a p : ℕ) → Step s (add_appender a p s)
  deleted : {s : Store} (a p : ℕ) → Step s (del_appender a p s)
  cleared : {s : Store} (p : ℕ) → Step s (clear_appender p s)
  formatted : {s : Store} (f : Formatter) (p : ℕ) → Step s (set_formatter (some f) p s)
  patterned :
      {s t : Store} (pattern : Text) (p : ℕ) → set_formatter_pattern pattern p s ≡ ok t → Step s t
  appender_formatted :
      {s : Store} (f : Formatter) (a : ℕ) → Step s (appender_set_formatter (some f) a s)
  appender_leveled : {s : Store} (v : Level) (a : ℕ) → Step s (appender_set_level v a s)

pub data Steps : Store → Store → Type 0 where
  done : {s : Store} → Steps s s
  more : {s t u : Store} → Steps s t → Step t u → Steps s u

-- No appender loses its formatter.
Grows : Store → Store → Type 0
Grows s t = (a : ℕ) → has_formatter s a ≡ true → has_formatter t a ≡ true

IsReady-Grows : (s t : Store) (l : List ℕ) → Grows s t → IsReady s l → IsReady t l
unfolding Grows
IsReady-Grows s t [] g h = tt
IsReady-Grows s t (a ∷ l) g h = (g a h.0, IsReady-Grows s t l g h.1)

IsReady-append : (s : Store) (l m : List ℕ) → IsReady s l → IsReady s m → IsReady s (l ++ m)
IsReady-append s [] m h k = k
IsReady-append s (a ∷ l) m h k = (h.0, IsReady-append s l m h.1 k)

IsReady-remove_all : (s : Store) (a : ℕ) (l : List ℕ) → IsReady s l → IsReady s (remove_all a l)
IsReady-remove_all s a [] h = tt
IsReady-remove_all s a (b ∷ l) h = elim (Bool-cases (b == a)) [
  | inl e ↦ rw e (IsReady-remove_all s a l h.1)
  | inr e ↦ rw e (h.0, IsReady-remove_all s a l h.1)
]

put_logger-Ready :
    (s : Store) (p : ℕ) (l : Logger) → Ready s → IsReady s l.appenders → Ready (put_logger s p l)
put_logger-Ready s p l ready h q = elim (Bool-cases (q == p)) [
  | inl e ↦ rw e h
  | inr e ↦ rw e (ready q)
]

Ready-Grows :
    (s : Store) (m : ℕ → Appender)
    → Ready s
    → Grows s (record s { appenders = m })
    → Ready (record s { appenders = m })
Ready-Grows s m ready g p =
    IsReady-Grows s (record s { appenders = m }) (s.loggers p).appenders g (ready p)

set_formatter-has :
    (f : Formatter) (a : ℕ) (s : Store)
    → has_formatter (appender_set_formatter (some f) a s) a ≡ true
set_formatter-has f a s = ground arith

appender_set_formatter-Grows :
    (f : Formatter) (a : ℕ) (s : Store) → Grows s (appender_set_formatter (some f) a s)
unfolding Grows
appender_set_formatter-Grows f a s b h = ground arith

appender_set_level-Grows : (v : Level) (a : ℕ) (s : Store) → Grows s (appender_set_level v a s)
unfolding Grows
appender_set_level-Grows v a s b h = ground arith

set_formatter_each-Ready :
    (f : Formatter) (l : List ℕ) (s : Store) → Ready s → Ready (set_formatter_each (some f) l s)
set_formatter_each-Ready f [] s h = h
set_formatter_each-Ready f (a ∷ l) s h =
    set_formatter_each-Ready f l (appender_set_formatter (some f) a s)
      (Ready-Grows s _ h (appender_set_formatter-Grows f a s))

set_formatter-Ready :
    (f : Formatter) (p : ℕ) (s : Store) → Ready s → Ready (set_formatter (some f) p s)
unfolding set_formatter
set_formatter-Ready f p s h = set_formatter_each-Ready f (s.loggers p).appenders s h

add_appender-Ready : (a p : ℕ) (s : Store) → Ready s → Ready (add_appender a p s)
unfolding add_appender
add_appender-Ready a p s h = elim (Option-cases (s.appenders a).formatter) [
  | inl e ↦
      let f = (s.loggers p).formatter in
      let ready = Ready-Grows s _ h (appender_set_formatter-Grows f a s) in
      rw e (
        put_logger-Ready (appender_set_formatter (some f) a s) p _ ready (
          IsReady-append (appender_set_formatter (some f) a s) (s.loggers p).appenders (a ∷ [])
            (ready p) (set_formatter-has f a s, tt)))
  | inr (f, e) ↦ rw e (
      put_logger-Ready s p _ h
        (IsReady-append s (s.loggers p).appenders (a ∷ []) (h p) (ap is_some e, tt)))
]

write-IsReady :
    (a : ℕ) (v : Appender) (s : Store) (l : List ℕ)
    → member a l ≡ false
    → IsReady s l
    → IsReady (record s { appenders = write s.appenders a v }) l
unfolding member
write-IsReady a v s [] m h = tt
write-IsReady a v s (b ∷ l) m h = (ground arith, write-IsReady a v s l (ground arith) h.1)

new_logger-appenders : (name : Text) (l : Logger) → new_logger name ≡ ok l → l.appenders ≡ []
unfolding new_logger
new_logger-appenders name l h =
    let (f, e, q) = >>=-eq-ok (make _) _ h in
    sym (ap (λ (m : Logger). m.appenders) (ok_injective q))

set_formatter_pattern-Ready :
    (pattern : Text) (p : ℕ) (s t : Store)
    → set_formatter_pattern pattern p s ≡ ok t
    → Ready s
    → Ready t
unfolding set_formatter_pattern
set_formatter_pattern-Ready pattern p s t h ready =
    let (f, e, q) = >>=-eq-ok (make pattern) _ h in
    subst Ready (ok_injective q) (elim (Bool-cases f.error) [
      | inl b ↦ rw b ready
      | inr b ↦ rw b (set_formatter-Ready (s.loggers p).formatter p s ready)
    ])

Step-Ready : (s t : Store) → Step s t → Ready s → Ready t
unfolding set_root set_level del_appender clear_appender
Step-Ready s t (new_at name p l e) h =
    put_logger-Ready s p l h (rw (new_logger-appenders name l e) tt)
Step-Ready s t (appender_at a v m) h = λ q. write-IsReady a v s (s.loggers q).appenders (m q) (h q)
Step-Ready s t (rooted r p) h = put_logger-Ready s p _ h (h p)
Step-Ready s t (leveled v p) h = put_logger-Ready s p _ h (h p)
Step-Ready s t (added a p) h = add_appender-Ready a p s h
Step-Ready s t (deleted a p) h =
    put_logger-Ready s p _ h (IsReady-remove_all s a (s.loggers p).appenders (h p))
Step-Ready s t (cleared p) h = put_logger-Ready s p _ h tt
Step-Ready s t (formatted f p) h = set_formatter-Ready f p s h
Step-Ready s t (patterned pattern p e) h = set_formatter_pattern-Ready pattern p s t e h
Step-Ready s t (appender_formatted f a) h = Ready-Grows s _ h (appender_set_formatter-Grows f a s)
Step-Ready s t (appender_leveled v a) h = Ready-Grows s _ h (appender_set_level-Grows v a s)

-- From a store where every appender of every logger has a formatter, any sequence of operations
-- (loggers and appenders made at new addresses, setRoot, setLevel, addAppender, delAppender,
-- clearAppender, both setFormatter, and the appenders' own setters, none of them given a null formatter) leads to
-- one where they have.
pub Steps-Ready : {s t : Store} → Steps s t → Ready s → Ready t
Steps-Ready done h = h
Steps-Ready (more steps step) h = Step-Ready _ _ step (Steps-Ready steps h)

-- Logger::setFormatter(pattern) with a pattern that is valid gives the appenders the formatter that
-- the logger has, whatever the pattern is.
pub set_formatter_pattern_ignored :
    (ps : List Piece) (p : ℕ) (s : Store)
    → IsWellFormed ps
    → set_formatter_pattern (print ps) p s ≡ ok (set_formatter (some (s.loggers p).formatter) p s)
unfolding set_formatter_pattern make
set_formatter_pattern_ignored ps p s w = rw (init_pattern-print ps w) refl
