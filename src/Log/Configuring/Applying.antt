-- ===== src/Log/Configuring/Applying.antt =====
-- ddg/log.cc, the listener of LoggerManager::init: what a definition makes of a logger.
use high_performance_server.Prelude.{
  ℕ, Bool, true, false, List, [], ◌∷◌, ◌++◌, Option, some, Text, same, is_empty, if◌then◌else◌, ok,
  >>=-eq-ok, ok_injective, ◌≡◌, refl, sym, ap, ◌∙◌, subst, arith, Bool-cases, Option-cases, inl,
  inr,
}
use high_performance_server.Log.Formatter.{Formatter, make}
use high_performance_server.Log.Logger.{
  Logger, Store, new_logger, appender_set_formatter, set_level, set_formatter_pattern,
  set_formatter, set_formatter_each, clear_appender,
}
use high_performance_server.Log.Manager.{Manager, get_logger, insert_logger, find}
use high_performance_server.Log.Names.{find-same, find-other, same_refl}
use high_performance_server.Log.Defines.{LogDefine}
use high_performance_server.Log.Configuring.{Site, format_logger, apply_define}
use high_performance_server.Log.Configuring.Returning.{IsApplicable, apply_define-Returns}
use high_performance_server.Log.Configuring.Appending.{AllFit, apply_appenders_lem}

set_formatter_each-loggers :
    (f : Option Formatter) (l : List ℕ) (s : Store) → (set_formatter_each f l s).loggers ≡ s.loggers
set_formatter_each-loggers f [] s = refl
set_formatter_each-loggers f (a ∷ l) s =
    set_formatter_each-loggers f l (appender_set_formatter f a s)

set_formatter_if :
    (b : Bool) (f : Option Formatter) (l : List ℕ) (s : Store)
    → (if b then s else set_formatter_each f l s).loggers ≡ s.loggers
set_formatter_if true f l s = refl
set_formatter_if false f l s = set_formatter_each-loggers f l s

format_logger-loggers :
    (pattern : Text) (p : ℕ) (s t : Store)
    → format_logger pattern p s ≡ ok t
    → t.loggers ≡ s.loggers
unfolding set_formatter_pattern set_formatter
format_logger-loggers pattern p s t h = elim (Bool-cases (is_empty pattern)) [
  | inl e ↦ ap (λ (t : Store). t.loggers) (sym (ok_injective (rw e at h)))
  | inr e ↦
      let (f, h1, h2) = >>=-eq-ok (make pattern) _ (rw e at h) in
      let k = ap (λ (t : Store). t.loggers) (sym (ok_injective h2)) in
      k ∙ set_formatter_if f.error (some (s.loggers p).formatter) (s.loggers p).appenders s
]

pub get_logger_finds :
    (name : Text) (m n : Manager) (p : ℕ)
    → get_logger name m ≡ ok (p, n)
    → (find name n.loggers ≡ some p)
      × ((other : Text) → same name other ≡ false → find other n.loggers ≡ find other m.loggers)
unfolding get_logger insert_logger
get_logger_finds name m n p h = elim (Option-cases (find name m.loggers)) [
  | inr (q, e) ↦
      let k : ◌≡◌ {A = ℕ × Manager} (q, m) (p, n) = ok_injective (rw (e, get_logger) at h) in
      let a : q ≡ p = ap (λ (x : ℕ × Manager). x.0) k in
      let b : m ≡ n = ap (λ (x : ℕ × Manager). x.1) k in
      subst
        (λ (n : Manager).
          (find name n.loggers ≡ some p)
          × ((other : Text)
              → same name other ≡ false
              → find other n.loggers ≡ find other m.loggers))
        b (e ∙ ap some a, λ other d. refl)
  | inl e ↦
      let (l, _, h2) = >>=-eq-ok (new_logger name) _ (rw (e, get_logger, insert_logger) at h) in
      let k = ok_injective h2 in
      let a : m.next ≡ p = ap (λ (x : ℕ × Manager). x.0) k in
      let b : (name, m.next) ∷ m.loggers ≡ n.loggers = ap (λ (x : ℕ × Manager). x.1.loggers) k in
      (
        ap (find name) (sym b) ∙ find-same name name m.next m.loggers (same_refl name) ∙ ap some a,
        λ other d. ap (find other) (sym b) ∙ find-other other name m.next m.loggers d,
      )
]

-- A definition that has been applied: its name stands for a logger with its level and, in its order,
-- with an appender as each of its appenders says.
abbrev pub Applied : LogDefine → Manager → Type 0
Applied d m =
    (p : ℕ) × (find d.name m.loggers ≡ some p)
    × ((m.store.loggers p).level ≡ d.level)
    × AllFit m.store (m.store.loggers p).formatter (m.store.loggers p).appenders d.appenders

pub apply_define-Applied :
    (d : LogDefine) (site after : Site)
    → apply_define d site ≡ ok after
    → Applied d after.manager
      × ((other : Text)
          → same d.name other ≡ false
          → find other after.manager.loggers ≡ find other site.manager.loggers)
unfolding apply_define set_level clear_appender
apply_define-Applied d site after h =
    let ((p, m), h1, h2) = >>=-eq-ok (get_logger d.name site.manager) _ h in
    let (s, h3, h4) = >>=-eq-ok (format_logger d.formatter p (set_level d.level p m.store)) _ h2 in
    let e = format_logger-loggers d.formatter p (set_level d.level p m.store) s h3 in
    let ready : Site = record site { manager = record m { store = clear_appender p s } } in
    let (ids, g) = apply_appenders_lem d.appenders p ready after h4 in
    let (f, o) = get_logger_finds d.name site.manager m p h1 in
    let (n1, _, _) = g.names in
    let l = after.manager.store.loggers p in
    let r = ready.manager.store.loggers p in
    let level : r.level ≡ d.level = ground (arith, ap (λ (m : ℕ → Logger). m p) e) in
    let none_yet : r.appenders ≡ [] = ground arith in
    let formatter : l.formatter ≡ r.formatter = ap (λ (k : Logger). k.formatter) g.logger in
    let all : l.appenders ≡ ids =
      ap (λ (k : Logger). k.appenders) g.logger ∙ ap (λ k. k ++ ids) none_yet in
    (
      (
        p,
        ap (find d.name) n1 ∙ f,
        ap (λ (k : Logger). k.level) g.logger ∙ level,
        subst (λ k. AllFit after.manager.store k l.appenders d.appenders) (sym formatter)
            (subst (λ k. AllFit after.manager.store r.formatter k d.appenders) (sym all) g.fits),
      ),
      λ other k. ap (find other) n1 ∙ o other k,
    )

-- Where the pattern of a definition and those of its appenders are empty or have a formatter, and the
-- type of each appender is known, the listener applies it and returns: its name stands for a logger with its
-- level and with an appender for each of its appenders, in their order, each with the output, the
-- level and the formatter that the definition says (the logger's formatter where it says none); and every
-- other name stands for what it stood for.
pub apply_define_lem :
    (d : LogDefine) (site : Site)
    → IsApplicable d
    → (after : Site) × (apply_define d site ≡ ok after)
      × Applied d after.manager
      × ((other : Text)
          → same d.name other ≡ false
          → find other after.manager.loggers ≡ find other site.manager.loggers)
apply_define_lem d site h =
    let (after, e) = apply_define-Returns d site h in
    let (a, o) = apply_define-Applied d site after e in (after, e, a, o)
