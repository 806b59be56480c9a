-- ===== src/Log/Configuring/Returning.antt =====
-- ddg/log.cc, the listener of LoggerManager::init: when it returns.
use high_performance_server.Prelude.{
  ℕ, true, List, [], ◌∷◌, Text, is_empty, Result, ok, fail, ◌>>=◌, ◌≡◌, ◌⊎◌, refl, All, Bool-cases,
  Option-cases, inl, inr,
}
use high_performance_server.Log.Formatter.{Formatter, make}
use high_performance_server.Log.Logger.{Sink, Store, set_level, set_formatter_pattern, new_logger}
use high_performance_server.Log.Manager.{Manager, find, get_logger, insert_logger}
use high_performance_server.Log.Naming.{new_logger-New}
use high_performance_server.Log.Defines.{AppenderDefine, LogDefine, eq_define}
use high_performance_server.Log.Configuring.{
  Site, sink_of, format_appender, apply_appender, apply_appenders, format_logger, apply_define,
  find_define, apply_changed, apply_all, remove_define, remove_gone, remove_all_gone, on_change,
}

-- A pattern that is empty, or of which a formatter can be made.
abbrev pub IsUsable : Text → Type 0
IsUsable pattern = (is_empty pattern ≡ true) ⊎ ((f : Formatter) × (make pattern ≡ ok f))

abbrev pub IsKnownType : AppenderDefine → Type 0
IsKnownType a = (sink : Sink) × (sink_of a ≡ ok sink)

abbrev pub IsApplicable : LogDefine → Type 0
IsApplicable d = IsUsable d.formatter × All (λ a. IsKnownType a × IsUsable a.formatter) d.appenders

abbrev pub Returns : {A : Type 0} → Result A → Type 0
Returns {A} r = (v : A) × (r ≡ ok v)

bind-Returns :
    {A B : Type 0} (r : Result A) (f : A → Result B)
    → Returns r
    → ((a : A) → Returns (f a))
    → Returns (r >>= f)
bind-Returns (ok a) f h k = k a
bind-Returns (fail e) f (a, h) k = cc

get_logger-Returns : (name : Text) (m : Manager) → Returns (get_logger name m)
unfolding get_logger insert_logger
get_logger-Returns name m = elim (Option-cases (find name m.loggers)) [
  | inr (p, e) ↦ ((p, m), rw (e, get_logger) refl)
  | inl e ↦
      let (l, v) = new_logger-New name in
      rw (e, get_logger, insert_logger)
        (bind-Returns (new_logger name) _ (l, v.is_made) (λ l. (_, refl)))
]

format_appender-Returns :
    (pattern : Text) (at : ℕ) (s : Store)
    → IsUsable pattern
    → Returns (format_appender pattern at s)
format_appender-Returns pattern at s h = elim (Bool-cases (is_empty pattern)) [
  | inl e ↦ (s, rw e refl)
  | inr e ↦ elim h [
    | inl k ↦ absurd (cc)
    | inr made ↦ rw e (bind-Returns (make pattern) _ made (λ f. (_, refl)))
  ]
]

format_logger-Returns :
    (pattern : Text) (p : ℕ) (s : Store) → IsUsable pattern → Returns (format_logger pattern p s)
unfolding set_formatter_pattern
format_logger-Returns pattern p s h = elim (Bool-cases (is_empty pattern)) [
  | inl e ↦ (s, rw e refl)
  | inr e ↦ elim h [
    | inl k ↦ absurd (cc)
    | inr made ↦ rw e (bind-Returns (make pattern) _ made (λ f. (_, refl)))
  ]
]

apply_appenders-Returns :
    (defines : List AppenderDefine) (p : ℕ) (site : Site)
    → All (λ a. IsKnownType a × IsUsable a.formatter) defines
    → Returns (apply_appenders defines p site)
unfolding apply_appenders apply_appender
apply_appenders-Returns [] p site h = (site, refl)
apply_appenders-Returns (a ∷ rest) p site ((k, u), h) =
    bind-Returns (apply_appender a p site) (apply_appenders rest p)
      (bind-Returns (sink_of a) _ k (λ sink.
        bind-Returns (format_appender a.formatter site.next_appender _) _
          (format_appender-Returns a.formatter site.next_appender _ u) (λ s. (_, refl))))
      (λ after. apply_appenders-Returns rest p after h)

pub apply_define-Returns :
    (d : LogDefine) (site : Site) → IsApplicable d → Returns (apply_define d site)
unfolding apply_define
apply_define-Returns d site (u, h) =
    bind-Returns (get_logger d.name site.manager) _ (get_logger-Returns d.name site.manager)
      (λ (p, m).
        bind-Returns (format_logger d.formatter p (set_level d.level p m.store)) _
          (format_logger-Returns d.formatter p _ u)
          (λ s. apply_appenders-Returns d.appenders p _ h))

apply_changed-Returns :
    (old : List LogDefine) (d : LogDefine) (site : Site)
    → IsApplicable d
    → Returns (apply_changed old d site)
unfolding apply_changed
apply_changed-Returns old d site h = elim (Option-cases (find_define d old)) [
  | inl e ↦ rw (e, apply_changed) (apply_define-Returns d site h)
  | inr (x, e) ↦ elim (Bool-cases (eq_define d x)) [
    | inl q ↦ rw (e, q, apply_changed) (site, refl)
    | inr q ↦ rw (e, q, apply_changed) (apply_define-Returns d site h)
  ]
]

remove_gone-Returns :
    (new : List LogDefine) (d : LogDefine) (site : Site) → Returns (remove_gone new d site)
unfolding remove_gone remove_define
remove_gone-Returns new d site = elim (Option-cases (find_define d new)) [
  | inl e ↦
      rw (e, remove_gone, remove_define)
        (bind-Returns (get_logger d.name site.manager) _ (get_logger-Returns d.name site.manager)
          (λ (p, m). (_, refl)))
  | inr (x, e) ↦ rw (e, remove_gone) (site, refl)
]

apply_all-Returns :
    (old new : List LogDefine) (site : Site)
    → All IsApplicable new
    → Returns (apply_all old new site)
unfolding apply_all
apply_all-Returns old [] site h = (site, refl)
apply_all-Returns old (d ∷ ds) site (k, h) =
    bind-Returns (apply_changed old d site) _ (apply_changed-Returns old d site k)
      (λ after. apply_all-Returns old ds after h)

remove_all_gone-Returns :
    (new old : List LogDefine) (site : Site) → Returns (remove_all_gone new old site)
unfolding remove_all_gone
remove_all_gone-Returns new [] site = (site, refl)
remove_all_gone-Returns new (d ∷ ds) site =
    bind-Returns (remove_gone new d site) _ (remove_gone-Returns new d site)
      (λ after. remove_all_gone-Returns new ds after)

pub on_change-Returns :
    (old new : List LogDefine) (site : Site)
    → All IsApplicable new
    → Returns (on_change old new site)
unfolding on_change
on_change-Returns old new site h =
    bind-Returns (apply_all old new site) _ (apply_all-Returns old new site h)
      (λ after. remove_all_gone-Returns new old after)
