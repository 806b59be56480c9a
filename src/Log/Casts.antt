-- ===== src/Log/Casts.antt =====
-- ddg/log.h: the casts of LogAppenderDefine and LogDefine to a text of YAML and back. What they log is left
-- out.
pub mod Appenders
pub mod RoundTrip
use high_performance_server.Prelude.{
  Bool, not, ◌&&◌, List, [], ◌∷◌, ◌++◌, map, Text, codes, same, is_empty, if◌then◌else◌, Result, ok,
  fail, thrown, ◌>>=◌,
}
use high_performance_server.Lexical.{Yaml}
use high_performance_server.Log.Levels.{unknow, to_string, from_string}
use high_performance_server.Log.Pattern.{init_pattern}
use high_performance_server.Log.Defines.{
  unknow_appender, type_from_string, type_to_string, AppenderDefine, LogDefine, eq_type, is_unknow,
}

-- LogFormatter::checkValid.
abbrev pub check_valid : Text → Result Bool
check_valid pattern = (init_pattern pattern).1

abbrev pub no_appender : AppenderDefine
no_appender = record { type = unknow_appender; level = unknow; formatter = []; file = [] }

abbrev pub no_define : LogDefine
no_define = record { name = []; level = unknow; formatter = []; appenders = [] }

-- What an appender takes from its logger's definition.
abbrev pub inherit_appender : LogDefine → AppenderDefine → AppenderDefine
inherit_appender d a =
    let a1 =
      if not (is_empty d.formatter) && is_empty a.formatter
      then record a { formatter = d.formatter }
      else a in
    if not (is_unknow d.level) && is_unknow a1.level then record a1 { level = d.level } else a1

unfoldable pub inherit : LogDefine → LogDefine
inherit d = record d { appenders = map (inherit_appender d) d.appenders }

unfoldable pub read_appender_entry : Text → Text → AppenderDefine → AppenderDefine
read_appender_entry key value a =
    if same key (codes "type")
    then record a { type = type_from_string value }
    else if same key (codes "level")
    then record a { level = from_string value }
    else if same key (codes "file")
    then record a { file = value }
    else if same key (codes "formatter")
    then record a { formatter = value }
    else a

module _ (y : Yaml) where
  abbrev pub set_text : Text → Text → y.Node → y.Node
  set_text key value node = y.set_key key (y.of_text value) node

  abbrev pub set_if : Bool → Text → Text → y.Node → y.Node
  set_if b key value node = if b then set_text key value node else node

  -- The node of a LogAppenderDefine.
  unfoldable pub appender_node : AppenderDefine → y.Node
  appender_node a =
      let n1 = set_if (not (is_unknow a.level)) (codes "level") (to_string a.level) y.null in
      let n2 = set_if (not (is_empty a.formatter)) (codes "formatter") a.formatter n1 in
      let n3 = set_if (not (is_empty a.file)) (codes "file") a.file n2 in
      set_if (not (eq_type a.type unknow_appender)) (codes "type") (type_to_string a.type) n3

  unfoldable pub appender_to_string : AppenderDefine → Result Text
  unfolding appender_node
  appender_to_string a = y.emit (appender_node a)

  unfoldable pub read_appender_entries : List (y.Node × y.Node) → AppenderDefine → AppenderDefine
  unfolding read_appender_entry
  read_appender_entries [] a = a
  read_appender_entries ((key, value) ∷ es) a =
      read_appender_entries es (read_appender_entry (y.scalar key) (y.scalar value) a)

  unfoldable pub appender_from_string : Text → Result AppenderDefine
  unfolding read_appender_entries
  appender_from_string t =
      y.load t >>= λ node. ok (read_appender_entries (y.entries node) no_appender)

  unfoldable pub push_appenders : List AppenderDefine → y.Node → Result y.Node
  push_appenders [] node = ok node
  push_appenders (a ∷ rest) node = appender_to_string a >>= λ t.
      y.load t >>= λ child. push_appenders rest (y.push_at (codes "appenders") child node)

  -- `node["formatter"]` of a LogDefine.
  abbrev pub set_formatter_text : Text → y.Node → Result y.Node
  set_formatter_text formatter node =
      if is_empty formatter
      then ok node
      else check_valid formatter >>= λ valid.
          ok (set_text (codes "formatter") (if valid then formatter else []) node)

  unfoldable pub log_to_string : LogDefine → Result Text
  unfolding push_appenders
  log_to_string d =
      let n1 = set_text (codes "name") d.name y.null in
      let n2 = set_if (not (is_unknow d.level)) (codes "level") (to_string d.level) n1 in
      set_formatter_text d.formatter n2 >>= λ n3. push_appenders d.appenders n3 >>= y.emit

  unfoldable pub read_appenders : List y.Node → List AppenderDefine → Result (List AppenderDefine)
  read_appenders [] found = ok found
  read_appenders (e ∷ es) found =
      y.emit e >>= λ t. appender_from_string t >>= λ a. read_appenders es (found ++ a ∷ [])

  -- The loop's body for an entry of the document `node`.
  unfoldable pub read_log_entry : y.Node → Text → Text → LogDefine → Result LogDefine
  unfolding read_appenders
  read_log_entry node key value d =
      if same key (codes "name")
      then (if is_empty value then fail thrown else ok (record d { name = value }))
      else if same key (codes "level")
      then ok (record d { level = from_string value })
      else if same key (codes "formatter")
      then (check_valid value >>= λ valid.
          ok (record d { formatter = if valid then value else [] }))
      else if same key (codes "appenders")
      then (read_appenders (y.elements (y.get key node)) d.appenders >>= λ found.
          ok (record d { appenders = found }))
      else ok d

  unfoldable pub read_log_entries : y.Node → List (y.Node × y.Node) → LogDefine → Result LogDefine
  unfolding read_log_entry
  read_log_entries node [] d = ok d
  read_log_entries node ((key, value) ∷ es) d =
      read_log_entry node (y.scalar key) (y.scalar value) d >>= read_log_entries node es

  unfoldable pub log_from_string : Text → Result LogDefine
  unfolding read_log_entries inherit
  log_from_string t =
      y.load t >>= λ node. read_log_entries node (y.entries node) no_define >>= λ d. ok (inherit d)
