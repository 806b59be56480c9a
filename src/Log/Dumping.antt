-- ===== src/Log/Dumping.antt =====
-- When toYamlString comes to its end.
use high_performance_server.Prelude.{
  true, List, [], ◌∷◌, Option, none, some, is_some, Text, codes, ok, ℕ, ◌≡◌, refl,
}
use high_performance_server.Lexical.{Yaml}
use high_performance_server.Log.Formatter.{Formatter}
use high_performance_server.Log.Logger.{Appender, Store}
use high_performance_server.Log.Routing.{IsReady, Ready}
use high_performance_server.Log.Readiness.{Steps, Steps-Ready}
use high_performance_server.Log.Manager.{Manager}
use high_performance_server.Log.Dump.{
  appender_fields, appender_to_yaml, logger_fields, push_each, logger_to_yaml, push_loggers,
  manager_to_yaml,
}

-- Every node is printed, as a text that can be loaded.
pub record Prints (y : Yaml) : Type 0 where
  pub emits : (n : y.Node) → (t : Text) × (y.emit n ≡ ok t)
  pub loads : (n : y.Node) (t : Text) → y.emit n ≡ ok t → (c : y.Node) × (y.load t ≡ ok c)

module _ (y : Yaml) (p : Prints y) where
  appender_to_yaml_at :
      (a : Appender) (f : Option Formatter)
      → a.formatter ≡ f
      → is_some f ≡ true
      → (n : y.Node) × (t : Text) × (appender_to_yaml y a ≡ ok t) × (y.emit n ≡ ok t)
  unfolding appender_to_yaml
  appender_to_yaml_at a none e h = cc
  appender_to_yaml_at a (some f) e h =
      let (t, q) = p.emits (appender_fields y a f) in (appender_fields y a f, t, rw e q, q)

  push_each_total :
      (s : Store) (l : List ℕ) (node : y.Node)
      → IsReady s l
      → (n : y.Node) × (push_each y s l node ≡ ok n)
  unfolding push_each
  push_each_total s [] node h = (node, refl)
  push_each_total s (a ∷ l) node h =
      let (n, t, e, q) = appender_to_yaml_at (s.appenders a) (s.appenders a).formatter refl h.0 in
      let (c, r) = p.loads n t q in
      let (m, k) = push_each_total s l (y.push_at (codes "appenders") c node) h.1 in
      (m, rw (e, r) k)

  logger_to_yaml_total :
      (s : Store) (i : ℕ)
      → IsReady s (s.loggers i).appenders
      → (n : y.Node) × (t : Text) × (logger_to_yaml y s i ≡ ok t) × (y.emit n ≡ ok t)
  unfolding logger_to_yaml
  logger_to_yaml_total s i h =
      let (n, e) = push_each_total s (s.loggers i).appenders (logger_fields y (s.loggers i)) h in
      let (t, q) = p.emits n in (n, t, rw e q, q)

  push_loggers_total :
      (s : Store) (l : List (Text × ℕ)) (node : y.Node)
      → Ready s
      → (n : y.Node) × (push_loggers y s l node ≡ ok n)
  unfolding push_loggers
  push_loggers_total s [] node h = (node, refl)
  push_loggers_total s ((name, i) ∷ l) node h =
      let (n, t, e, q) = logger_to_yaml_total s i (h i) in
      let (c, r) = p.loads n t q in
      let (m, k) = push_loggers_total s l (y.push_back node c) h in (m, rw (e, r) k)

  -- Where yaml-cpp prints every node, as a text that it can load, the manager's toYamlString returns a text
  -- after any sequence of operations on a store where every appender of every logger has a formatter: no
  -- null formatter is dereferenced.
  pub manager_to_yaml_total :
      {s : Store} (m : Manager)
      → Steps s m.store
      → Ready s
      → (t : Text) × (manager_to_yaml y m ≡ ok t)
  unfolding manager_to_yaml
  manager_to_yaml_total m steps h =
      let (n, e) = push_loggers_total m.store m.loggers y.null (Steps-Ready steps h) in
      let (t, q) = p.emits n in (t, rw e q)
