-- ===== src/Log/Reloading.antt =====
-- toYamlString of a logger, read by the cast of LogDefine.
use high_performance_server.Prelude.{
  ℕ, false, true, List, [], ◌∷◌, map, Option, none, some, Text, codes, is_empty, is_some, Result,
  ok, ◌>>=◌, ◌≡◌, refl, ap, ◌∙◌, All,
}
use high_performance_server.Lexical.{Yaml}
use high_performance_server.Lexical.Laws.{YamlLaws, FieldLaws, Emits, assigned, pushed_at, Becomes}
use high_performance_server.Log.Formatter.{Formatter}
use high_performance_server.Log.Logger.{Appender, Logger, Store}
use high_performance_server.Log.Routing.{IsReady}
use high_performance_server.Log.Defines.{AppenderDefine, LogDefine}
use high_performance_server.Log.Casts.{inherit, appender_from_string, log_from_string}
use high_performance_server.Log.Casts.Appenders.{IsNamed}
use high_performance_server.Log.Casts.RoundTrip.{
  IsReadable, log_fields, Reads, log_from_string_lem, log_fields_distinct,
}
use high_performance_server.Log.Dump.{appender_to_yaml, push_each, logger_fields, logger_to_yaml}
use high_performance_server.Log.Rereading.{reread, appender_to_yaml-Becomes}

abbrev pub pattern_of : Option Formatter → Text
pattern_of none = []
pattern_of (some f) = f.pattern

abbrev pub reread_each : Store → List ℕ → List AppenderDefine
reread_each s l = map (λ a. reread (s.appenders a) (pattern_of (s.appenders a).formatter)) l

-- The definition that is read from what a logger prints.
abbrev pub reread_logger : Store → Logger → LogDefine
reread_logger s l = record {
  name = l.name;
  level = l.level;
  formatter = l.formatter.pattern;
  appenders = reread_each s l.appenders;
}

module _ (y : Yaml) (Same : Text → Text → Type 0) (laws : YamlLaws y Same)
    (fields : FieldLaws y Same) where
  reread_at :
      (a : Appender) (f : Option Formatter)
      → a.formatter ≡ f
      → is_some f ≡ true
      → IsNamed a.level
      → Becomes y Same (appender_to_yaml y) (appender_from_string y) a (reread a (pattern_of f))
  reread_at a none e h k = cc
  reread_at a (some f) e h k = appender_to_yaml-Becomes y Same laws fields a f e k

  push_each_lem :
      (s : Store) (l : List ℕ) (node : y.Node)
      → IsReady s l
      → All (λ a. IsNamed a.level) (reread_each s l)
      → (ns : List y.Node) × (ts : List Text) × (push_each y s l node
          ≡ ok (pushed_at y (codes "appenders") ns node))
        × Emits y ns ts
        × Reads y Same laws fields ts (reread_each s l)
  unfolding push_each
  push_each_lem s [] node h k = ([], [], refl, tt, tt)
  push_each_lem s (a ∷ rest) node (h, hs) (k, ks) =
      let (t, e, (n, l), r) = reread_at (s.appenders a) (s.appenders a).formatter refl h k in
      let (u, p, q) = laws.reload t n l in
      let (ns, ts, w, m, d) = push_each_lem s rest (y.push_at (codes "appenders") n node) hs ks in
      (n ∷ ns, u ∷ ts, rw (e, l) w, (p, m), (λ v z. r v (laws.same_trans t u v q z), d))

  -- Where yaml-cpp prints sequences and maps as documents from which it loads the same sequences and maps,
  -- what toYamlString prints of a logger with a name, a valid pattern, levels that have names, and
  -- appenders that have formatters, is read as a definition with its name, its level, its pattern and
  -- its appenders in their order: each with its own file, level and pattern (the logger's level where its
  -- own is UNKNOW, the logger's pattern where its own is empty), but all of them of the type
  -- StdoutLogAppender.
  pub logger_to_yaml-reread :
      (s : Store) (i : ℕ)
      → IsReadable (reread_logger s (s.loggers i))
      → is_empty (s.loggers i).formatter.pattern ≡ false
      → IsReady s (s.loggers i).appenders
      → (t : Text) × (logger_to_yaml y s i ≡ ok t)
        × ((u : Text)
            → Same t u
            → log_from_string y u ≡ ok (inherit (reread_logger s (s.loggers i))))
  unfolding logger_to_yaml
  logger_to_yaml-reread s i h full ready =
      let d = reread_logger s (s.loggers i) in
      let (ns, ts, w, m, r) =
        push_each_lem s (s.loggers i).appenders (assigned y (log_fields d) y.null) ready
          h.appenders_named in
      let (t, e, f) =
        fields.reload_fields (log_fields d) (codes "appenders") ns ts
          (log_fields_distinct y Same laws fields d) m in
      let start : logger_fields y (s.loggers i) ≡ assigned y (log_fields d) y.null = rw full refl in
      (
        t,
        ap (λ n. push_each y s (s.loggers i).appenders n >>= y.emit) start
            ∙ ap (λ (r : Result y.Node). r >>= y.emit) w
            ∙ e,
        λ u z.
            let (n, tail, l, p, q) = f u z in
            log_from_string_lem y Same laws fields d u n tail ts h l p q r,
      )
