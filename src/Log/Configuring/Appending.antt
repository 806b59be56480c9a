-- ===== src/Log/Configuring/Appending.antt =====
-- ddg/log.cc, the listener of LoggerManager::init: the appenders that a definition gives to a logger.
use high_performance_server.Prelude.{
  ℕ, ◌+◌, ◌<◌, ◌≤◌, true, false, List, [], ◌∷◌, ◌++◌, none, some, is_empty, if◌then◌else◌, Result,
  ok, ◌>>=◌, >>=-eq-ok, ok_injective, ◌≡◌, ◌≢◌, refl, sym, ap, ◌∙◌, subst, arith, Bool-cases, inl,
  inr,
}
use mathlib.Core.List.{append-nil, append_assoc}
use high_performance_server.Log.Levels.{debug}
use high_performance_server.Log.Formatter.{Formatter, make}
use high_performance_server.Log.Logger.{
  Sink, Appender, Logger, Store, write, appender_set_level, appender_set_formatter, add_appender,
}
use high_performance_server.Log.Manager.{Manager}
use high_performance_server.Log.Defines.{AppenderDefine}
use high_performance_server.Log.Configuring.{Site, sink_of, apply_appender, apply_appenders}

-- The formatter that an appender gets: its own, or its logger's.
abbrev pub formatter_of : AppenderDefine → Formatter → Result Formatter
formatter_of a f = if is_empty a.formatter then ok f else make a.formatter

-- An appender that is as its definition says, in a logger with the formatter `f`.
abbrev pub Fits : AppenderDefine → Formatter → Appender → Type 0
Fits a f v =
    (sink_of a ≡ ok v.sink)
    × (v.level ≡ a.level)
    × ((g : Formatter) × (formatter_of a f ≡ ok g) × (v.formatter ≡ some g))

-- The store `t` is `s` with one more appender of the logger at `p`, made at `at`.
pub record Added (a : AppenderDefine) (p at : ℕ) (s t : Store) : Type 0 where
  pub logger : t.loggers p ≡ record (s.loggers p) { appenders = (s.loggers p).appenders ++ at ∷ [] }
  pub others : (q : ℕ) → q ≢ p → t.loggers q ≡ s.loggers q
  pub fits : Fits a (s.loggers p).formatter (t.appenders at)
  pub kept : (b : ℕ) → b ≢ at → t.appenders b ≡ s.appenders b

module _ (a : AppenderDefine) (p at : ℕ) (s : Store) (sink : Sink) (e : sink_of a ≡ ok sink) where
  abbrev made : Store
  made = appender_set_level a.level at (record s {
    appenders = write s.appenders at (record { sink = sink; level = debug; formatter = none });
  })

  add_own :
      (g : Formatter)
      → is_empty a.formatter ≡ false
      → make a.formatter ≡ ok g
      → Added a p at s (add_appender at p (appender_set_formatter (some g) at made))
  unfolding add_appender
  add_own g n f = record {
    logger = ground arith;
    others = λ q d. ground arith;
    fits = (ground arith, ground arith, (g, ground arith, ground arith));
    kept = λ b d. ground arith;
  }

  add_plain : is_empty a.formatter ≡ true → Added a p at s (add_appender at p made)
  unfolding add_appender
  add_plain n = record {
    logger = ground arith;
    others = λ q d. ground arith;
    fits = (ground arith, ground arith, ((s.loggers p).formatter, ground arith, ground arith));
    kept = λ b d. ground arith;
  }

-- The names, the root and the addresses of loggers are as before.
abbrev pub SameNames : Manager → Manager → Type 0
SameNames m n = (n.loggers ≡ m.loggers) × (n.root ≡ m.root) × (n.next ≡ m.next)

apply_appender_lem :
    (a : AppenderDefine) (p : ℕ) (site after : Site)
    → apply_appender a p site ≡ ok after
    → Added a p site.next_appender site.manager.store after.manager.store
      × SameNames site.manager after.manager
      × (after.next_appender ≡ site.next_appender + 1)
unfolding apply_appender
apply_appender_lem a p site after h =
    let (sink, e, h1) = >>=-eq-ok (sink_of a) _ h in
    let at = site.next_appender in
    let s = site.manager.store in
    let s1 = made a p at s sink e in
    elim (Bool-cases (is_empty a.formatter)) [
      | inl n ↦
          let k = ok_injective (rw n at h1) in
          (
            subst (λ (r : Site). Added a p at s r.manager.store) k (add_plain a p at s sink e n),
            subst (λ (r : Site). SameNames site.manager r.manager) k (refl, refl, refl),
            sym (ap (λ (r : Site). r.next_appender) k),
          )
      | inr n ↦
          let (s2, h2, h3) =
            >>=-eq-ok (make a.formatter >>= λ f. ok (appender_set_formatter (some f) at s1)) _
              (rw n at h1) in
          let (g, h4, h5) = >>=-eq-ok (make a.formatter) _ h2 in
          let k = ok_injective h3 in
          let j = ok_injective h5 in
          (
            subst (λ (r : Site). Added a p at s r.manager.store) k
                (subst (λ (t : Store). Added a p at s (add_appender at p t)) j
                  (add_own a p at s sink e g n h4)),
            subst (λ (r : Site). SameNames site.manager r.manager) k (refl, refl, refl),
            sym (ap (λ (r : Site). r.next_appender) k),
          )
    ]

abbrev pub AllFit : Store → Formatter → List ℕ → List AppenderDefine → Type 0
AllFit s f [] [] = Unit
AllFit s f (b ∷ bs) (a ∷ rest) = Fits a f (s.appenders b) × AllFit s f bs rest
AllFit s f _ _ = ⊥

-- The logger at `p` has the appenders `ids` more, which are new.
pub record Grown (defines : List AppenderDefine) (p : ℕ) (site after : Site) (ids : List ℕ)
    : Type 0 where
  pub logger : after.manager.store.loggers p ≡ record (site.manager.store.loggers p) {
    appenders = (site.manager.store.loggers p).appenders ++ ids;
  }
  pub others : (q : ℕ) → q ≢ p → after.manager.store.loggers q ≡ site.manager.store.loggers q
  pub fits : AllFit after.manager.store (site.manager.store.loggers p).formatter ids defines
  pub kept :
      (b : ℕ)
      → b < site.next_appender
      → after.manager.store.appenders b ≡ site.manager.store.appenders b
  pub names : SameNames site.manager after.manager
  pub later : site.next_appender ≤ after.next_appender

Fits-same : (a : AppenderDefine) (f : Formatter) {v w : Appender} → v ≡ w → Fits a f w → Fits a f v
Fits-same a f e h = subst (Fits a f) (sym e) h

pub apply_appenders_lem :
    (defines : List AppenderDefine) (p : ℕ) (site after : Site)
    → apply_appenders defines p site ≡ ok after
    → (ids : List ℕ) × Grown defines p site after ids
unfolding apply_appenders
apply_appenders_lem [] p site after h = (
  [],
  subst (λ (r : Site). Grown [] p site r []) (ok_injective h)
      (record {
        logger =
            ap (λ l. record (site.manager.store.loggers p) { appenders = l })
              (sym (append-nil (site.manager.store.loggers p).appenders));
        others = λ q d. refl;
        fits = tt;
        kept = λ b l. refl;
        names = (refl, refl, refl);
        later = omega arith;
      }),
)
apply_appenders_lem (a ∷ rest) p site after h =
    let (site1, h1, h2) = >>=-eq-ok (apply_appender a p site) (apply_appenders rest p) h in
    let (v, (n1, n2, n3), e) = apply_appender_lem a p site site1 h1 in
    let (ids, g) = apply_appenders_lem rest p site1 after h2 in
    let at = site.next_appender in
    let l = site.manager.store.loggers p in
    let (m1, m2, m3) = g.names in
    (
      at ∷ ids,
      record {
        logger =
            g.logger
            ∙ ap (λ (k : Logger). record k { appenders = k.appenders ++ ids }) v.logger
            ∙ ap (λ k. record l { appenders = k }) (append_assoc l.appenders (at ∷ []) ids);
        others = λ q d. g.others q d ∙ v.others q d;
        fits = (
          Fits-same a l.formatter (g.kept at (omega (arith, e))) v.fits,
          subst (λ (k : Logger). AllFit after.manager.store k.formatter ids rest) v.logger g.fits,
        );
        kept = λ b k. g.kept b (omega (arith, k, e)) ∙ v.kept b (omega (arith, k));
        names = (m1 ∙ n1, m2 ∙ n2, m3 ∙ n3);
        later = omega (arith, g.later, e);
      },
    )
