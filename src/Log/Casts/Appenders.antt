-- ===== src/Log/Casts/Appenders.antt =====
-- ddg/log.h: the casts of LogAppenderDefine, there and back.
use high_performance_server.Prelude.{
  true, false, not, List, [], ◌∷◌, map, Text, codes, same, is_empty, if◌then◌else◌, ok, ◌≡◌, refl,
  ap, ◌∙◌, subst,
}
use high_performance_server.Lexical.{Yaml}
use high_performance_server.Lexical.Laws.{
  YamlLaws, FieldLaws, Fields, HasFields, Becomes, AreDistinct,
}
use high_performance_server.Log.Levels.{
  Level, debug, info, warn, error, fatal, unknow, cast, to_string, from_string,
  from_string-to_string,
}
use high_performance_server.Log.Defines.{
  AppenderType, file_log_appender, stdout_log_appender, unknow_appender, type_from_string,
  type_to_string, AppenderDefine, eq_type, is_unknow,
}
use high_performance_server.Log.Casts.{
  no_appender, read_appender_entry, appender_node, appender_to_string, read_appender_entries,
  appender_from_string,
}

-- The level has a name.
abbrev pub IsNamed : Level → Type 0
IsNamed (cast n) = ⊥
IsNamed _ = Unit

abbrev appender_fields : AppenderDefine → Fields
appender_fields a =
    (not (is_unknow a.level), codes "level", to_string a.level)
    ∷ (not (is_empty a.formatter), codes "formatter", a.formatter)
    ∷ (not (is_empty a.file), codes "file", a.file)
    ∷ (not (eq_type a.type unknow_appender), codes "type", type_to_string a.type)
    ∷ []

-- What the fields that are set make of a definition.
abbrev pub read_fields : Fields → AppenderDefine → AppenderDefine
read_fields [] a = a
read_fields ((b, k, v) ∷ fs) a = read_fields fs (if b then read_appender_entry k v a else a)

pub from-to_level : (l : Level) → IsNamed l → from_string (to_string l) ≡ l
from-to_level (cast n) h = elim h [ ]
from-to_level debug h = from_string-to_string debug (to_string debug) refl
from-to_level info h = from_string-to_string info (to_string info) refl
from-to_level warn h = from_string-to_string warn (to_string warn) refl
from-to_level error h = from_string-to_string error (to_string error) refl
from-to_level fatal h = from_string-to_string fatal (to_string fatal) refl
from-to_level unknow h = from_string-to_string unknow (to_string unknow) refl

type_from-to : (t : AppenderType) → type_from_string (type_to_string t) ≡ t
unfolding type_from_string type_to_string same
type_from-to file_log_appender = refl
type_from-to stdout_log_appender = refl
type_from-to unknow_appender = refl

-- A field that is not set would have set what is there already.
level_field :
    (l : Level)
    → IsNamed l
    → (if not (is_unknow l)
        then read_appender_entry (codes "level") (to_string l) no_appender
        else no_appender)
      ≡ record no_appender { level = l }
unfolding read_appender_entry same
level_field (cast n) h = elim h [ ]
level_field unknow h = refl
level_field debug h = ap (λ l. record no_appender { level = l }) (from-to_level debug h)
level_field info h = ap (λ l. record no_appender { level = l }) (from-to_level info h)
level_field warn h = ap (λ l. record no_appender { level = l }) (from-to_level warn h)
level_field error h = ap (λ l. record no_appender { level = l }) (from-to_level error h)
level_field fatal h = ap (λ l. record no_appender { level = l }) (from-to_level fatal h)

module _ (l : Level) where
  abbrev with_level : AppenderDefine
  with_level = record no_appender { level = l }

  formatter_field :
      (t : Text)
      → (if not (is_empty t)
          then read_appender_entry (codes "formatter") t with_level
          else with_level)
        ≡ record with_level { formatter = t }
  unfolding read_appender_entry same
  formatter_field [] = refl
  formatter_field (c ∷ t) = refl

  file_field :
      (t u : Text)
      → (let a = record with_level { formatter = t } in
          (if not (is_empty u) then read_appender_entry (codes "file") u a else a)
          ≡ record a { file = u })
  unfolding read_appender_entry same
  file_field t [] = refl
  file_field t (c ∷ u) = refl

  type_field :
      (t u : Text) (k : AppenderType)
      → (let a = record with_level { formatter = t; file = u } in
          (if not (eq_type k unknow_appender)
            then read_appender_entry (codes "type") (type_to_string k) a
            else a)
          ≡ record a { type = k })
  unfolding read_appender_entry same
  type_field t u file_log_appender =
      ap (λ k. record with_level { type = k; formatter = t; file = u })
        (type_from-to file_log_appender)
  type_field t u stdout_log_appender =
      ap (λ k. record with_level { type = k; formatter = t; file = u })
        (type_from-to stdout_log_appender)
  type_field t u unknow_appender = refl

read_fields_lem :
    (a : AppenderDefine) → IsNamed a.level → read_fields (appender_fields a) no_appender ≡ a
read_fields_lem a h =
    rw
      (
        level_field a.level h,
        formatter_field a.level a.formatter,
        file_field a.level a.formatter a.file,
        type_field a.level a.formatter a.file a.type,
      )
      refl

module _ (y : Yaml) where
  pub read_appender_entries_lem :
      (es : List (y.Node × y.Node)) (fs : Fields) (a : AppenderDefine)
      → HasFields y es fs []
      → read_appender_entries y es a ≡ read_fields fs a
  unfolding read_appender_entries
  read_appender_entries_lem es [] a h = ap (λ es. read_appender_entries y es a) h
  read_appender_entries_lem es ((false, k, v) ∷ fs) a h = read_appender_entries_lem es fs a h
  read_appender_entries_lem [] ((true, k, v) ∷ fs) a h = elim h [ ]
  read_appender_entries_lem ((key, value) ∷ es) ((true, k, v) ∷ fs) a (p, q, h) =
      rw (p, q) (read_appender_entries_lem es fs (read_appender_entry k v a) h)

module _ (y : Yaml) (Same : Text → Text → Type 0) (laws : YamlLaws y Same)
    (fields : FieldLaws y Same) where
  -- Where yaml-cpp prints a map as a document from which it loads the same map, a LogAppenderDefine whose
  -- level has a name is written as a text from which it comes back.
  pub appender-Becomes :
      (a : AppenderDefine)
      → IsNamed a.level
      → Becomes y Same (appender_to_string y) (appender_from_string y) a a
  unfolding appender_to_string appender_node appender_from_string same
  appender-Becomes a h =
      let fs = appender_fields a in
      let distinct : AreDistinct (codes "appenders" ∷ map (λ (b, k, v). k) fs) = (
        (refl, (refl, (refl, (refl, tt)))),
        ((refl, (refl, (refl, tt))), ((refl, (refl, tt)), ((refl, tt), (tt, tt)))),
      ) in
      let (t, e, f) = fields.reload_fields fs (codes "appenders") [] [] distinct tt in
      let (n, tail, l, _, _) = f t (laws.same_refl t) in
      (
        t,
        e,
        (n, l),
        λ u s.
            let (n, tail, l, p, q) = f u s in
            let p' = subst (HasFields y (y.entries n) fs) q p in
            rw l (
              ap ok (
                read_appender_entries_lem y (y.entries n) fs no_appender p' ∙ read_fields_lem a h)),
      )
