-- ===== src/Log/Rereading.antt =====
-- toYamlString of an appender, read by the cast of LogAppenderDefine.
use high_performance_server.Prelude.{
  true, [], ◌∷◌, map, some, Text, codes, same, ok, ◌≡◌, refl, ap, ◌∙◌, subst,
}
use high_performance_server.Lexical.{Yaml}
use high_performance_server.Lexical.Laws.{
  YamlLaws, FieldLaws, Fields, assigned, HasFields, Becomes, AreDistinct,
}
use high_performance_server.Log.Levels.{to_string}
use high_performance_server.Log.Formatter.{Formatter}
use high_performance_server.Log.Logger.{Sink, stdout, file, Appender}
use high_performance_server.Log.Defines.{
  stdout_log_appender, type_to_string, type_from_string, AppenderDefine,
}
use high_performance_server.Log.Casts.{no_appender, read_appender_entry, appender_from_string}
use high_performance_server.Log.Casts.Appenders.{
  IsNamed, from-to_level, read_fields, read_appender_entries_lem,
}
use high_performance_server.Log.Dump.{appender_fields, appender_to_yaml}

abbrev pub file_of : Sink → Text
file_of stdout = []
file_of (file f) = f

-- The definition that is read from what an appender with a formatter of the pattern prints.
abbrev pub reread : Appender → Text → AppenderDefine
reread a pattern = record {
  type = stdout_log_appender;
  level = a.level;
  formatter = pattern;
  file = file_of a.sink;
}

abbrev file_fields : Sink → Fields
file_fields stdout = []
file_fields (file f) = (true, codes "file", f) ∷ []

abbrev printed_fields : Appender → Formatter → Fields
printed_fields a f =
    (true, codes "level", to_string a.level)
    ∷ (true, codes "type", type_to_string stdout_log_appender)
    ∷ (true, codes "formatter", f.pattern)
    ∷ file_fields a.sink

read_printed :
    (a : Appender) (f : Formatter) (sink : Sink)
    → a.sink ≡ sink
    → IsNamed a.level
    → read_fields (printed_fields a f) no_appender ≡ reread a f.pattern
unfolding read_appender_entry same type_to_string type_from_string
read_printed a f stdout e h = rw (e, from-to_level a.level h) refl
read_printed a f (file t) e h = rw (e, from-to_level a.level h) refl

distinct :
    (a : Appender) (f : Formatter) (sink : Sink)
    → a.sink ≡ sink
    → AreDistinct (codes "appenders" ∷ map (λ (b, k, v). k) (printed_fields a f))
unfolding same
distinct a f stdout e =
    rw e ((refl, (refl, (refl, tt))), ((refl, (refl, tt)), ((refl, tt), (tt, tt))))
distinct a f (file t) e = rw e (
  (refl, (refl, (refl, (refl, tt)))),
  ((refl, (refl, (refl, tt))), ((refl, (refl, tt)), ((refl, tt), (tt, tt)))),
)

module _ (y : Yaml) (Same : Text → Text → Type 0) (laws : YamlLaws y Same)
    (fields : FieldLaws y Same) where
  printed_node :
      (a : Appender) (f : Formatter) (sink : Sink)
      → a.sink ≡ sink
      → appender_fields y a f ≡ assigned y (printed_fields a f) y.null
  printed_node a f stdout e = rw e refl
  printed_node a f (file t) e = rw e refl

  printed_lem :
      (a : Appender) (f : Formatter)
      → a.formatter ≡ some f
      → appender_to_yaml y a ≡ y.emit (assigned y (printed_fields a f) y.null)
  unfolding appender_to_yaml
  printed_lem a f e = rw e (ap y.emit (printed_node a f a.sink refl))

  -- Where yaml-cpp prints a map as a document from which it loads the same map, what toYamlString prints of
  -- an appender with a formatter, and with a level that has a name, is read as a definition with its level,
  -- its formatter's pattern and its file, and with the type StdoutLogAppender, also for an appender on a
  -- file.
  pub appender_to_yaml-Becomes :
      (a : Appender) (f : Formatter)
      → a.formatter ≡ some f
      → IsNamed a.level
      → Becomes y Same (appender_to_yaml y) (appender_from_string y) a (reread a f.pattern)
  unfolding appender_from_string
  appender_to_yaml-Becomes a f e h =
      let fs = printed_fields a f in
      let (t, q, again) =
        fields.reload_fields fs (codes "appenders") [] [] (distinct a f a.sink refl) tt in
      let (n, tail, l, _, _) = again t (laws.same_refl t) in
      (
        t,
        printed_lem a f e ∙ q,
        (n, l),
        λ u s.
            let (n, tail, l, p, r) = again u s in
            let p' = subst (HasFields y (y.entries n) fs) r p in
            rw l (
              ap ok (
                read_appender_entries_lem y (y.entries n) fs no_appender p'
                ∙ read_printed a f a.sink refl h)),
      )
