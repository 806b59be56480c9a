-- ===== src/Log/Dump.antt =====
-- ddg/log.cc, toYamlString of appenders, of loggers and of the manager. YAML::Node, YAML::Load and `ss << node`
-- are the argument `Yaml`.
use high_performance_server.Prelude.{
  ℕ, not, List, [], ◌∷◌, none, some, Text, codes, Result, ok, fail, undefined, ◌>>=◌,
}
use high_performance_server.Lexical.{Yaml}
use high_performance_server.Log.Levels.{to_string}
use high_performance_server.Log.Formatter.{Formatter}
use high_performance_server.Log.Logger.{Sink, stdout, file, Appender, Logger, Store}
use high_performance_server.Log.Manager.{Manager}
use high_performance_server.Log.Defines.{stdout_log_appender, type_to_string, is_unknow}
use high_performance_server.Log.Casts.{set_text, set_if}

module _ (y : Yaml) where
  -- `node["file"]`, of a FileLogAppender alone.
  abbrev pub set_file : Sink → y.Node → y.Node
  set_file stdout node = node
  set_file (file f) node = set_text y (codes "file") f node

  -- Both classes name the type StdoutLogAppender.
  abbrev pub appender_fields : Appender → Formatter → y.Node
  appender_fields a f =
      let n1 = set_text y (codes "level") (to_string a.level) y.null in
      let n2 = set_text y (codes "type") (type_to_string stdout_log_appender) n1 in
      set_file a.sink (set_text y (codes "formatter") f.pattern n2)

  -- StdoutLogAppender::toYamlString and FileLogAppender::toYamlString; a null formatter is dereferenced.
  unfoldable pub appender_to_yaml : Appender → Result Text
  appender_to_yaml a = elim a.formatter [
    | none ↦ fail undefined
    | some f ↦ y.emit (appender_fields a f)
  ]

  -- `for (auto& i : m_appenders)`.
  unfoldable pub push_each : Store → List ℕ → y.Node → Result y.Node
  push_each s [] node = ok node
  push_each s (a ∷ rest) node = appender_to_yaml (s.appenders a) >>= λ t.
      y.load t >>= λ child. push_each s rest (y.push_at (codes "appenders") child node)

  -- Of Logger::toYamlString, what stands before the loop.
  abbrev pub logger_fields : Logger → y.Node
  logger_fields l =
      let n1 = set_text y (codes "name") l.name y.null in
      let n2 = set_if y (not (is_unknow l.level)) (codes "level") (to_string l.level) n1 in
      set_text y (codes "formatter") l.formatter.pattern n2

  -- Logger::toYamlString of the logger at an address.
  unfoldable pub logger_to_yaml : Store → ℕ → Result Text
  logger_to_yaml s p = push_each s (s.loggers p).appenders (logger_fields (s.loggers p)) >>= y.emit

  unfoldable pub push_loggers : Store → List (Text × ℕ) → y.Node → Result y.Node
  push_loggers s [] node = ok node
  push_loggers s ((name, p) ∷ rest) node =
      logger_to_yaml s p >>= λ t. y.load t >>= λ child. push_loggers s rest (y.push_back node child)

  -- LoggerManager::toYamlString.
  unfoldable pub manager_to_yaml : Manager → Result Text
  manager_to_yaml m = push_loggers m.store m.loggers y.null >>= y.emit
