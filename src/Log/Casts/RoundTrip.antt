-- ===== src/Log/Casts/RoundTrip.antt =====
-- ddg/log.h: the casts of LogDefine, there and back.
use high_performance_server.Prelude.{
  Bool, true, false, not, List, [], ◌∷◌, ◌++◌, map, Text, codes, same, is_empty, Result, ok, fail,
  ◌>>=◌, >>=-eq-ok, ok_injective, ◌≡◌, ◌⊎◌, refl, sym, ap, ◌∙◌, arith, All, inl, inr,
}
use mathlib.Core.List.{append-nil, append_assoc}
use high_performance_server.Lexical.{Yaml}
use high_performance_server.Lexical.Laws.{
  YamlLaws, FieldLaws, Fields, Emits, assigned, pushed_at, HasFields, HasItems, HasTail, Becomes,
  AreDistinct,
}
use high_performance_server.Log.Levels.{
  Level, debug, info, warn, error, fatal, unknow, cast, to_string,
}
use high_performance_server.Log.Defines.{AppenderDefine, LogDefine, is_unknow}
use high_performance_server.Log.Casts.{
  check_valid, no_define, inherit, inherit_appender, appender_from_string, set_if, push_appenders,
  set_formatter_text, log_to_string, read_appenders, read_log_entry, read_log_entries,
  log_from_string,
}
use high_performance_server.Log.Casts.Appenders.{IsNamed, from-to_level, appender-Becomes}

-- A definition that the cast accepts: a name, levels that have names, and a pattern without an error.
pub record IsReadable (d : LogDefine) : Type 0 where
  pub has_name : is_empty d.name ≡ false
  pub level_named : IsNamed d.level
  pub valid : (is_empty d.formatter ≡ true) ⊎ (check_valid d.formatter ≡ ok true)
  pub appenders_named : All (λ a. IsNamed a.level) d.appenders

inherit_appender_idem :
    (d : LogDefine) (a : AppenderDefine)
    → inherit_appender d (inherit_appender d a) ≡ inherit_appender d a
inherit_appender_idem d a = ground arith

inherit_each_idem :
    (d : LogDefine) (l : List AppenderDefine)
    → map (inherit_appender d) (map (inherit_appender d) l) ≡ map (inherit_appender d) l
inherit_each_idem d [] = refl
inherit_each_idem d (a ∷ l) =
    ap (λ x. x ∷ map (inherit_appender d) (map (inherit_appender d) l)) (inherit_appender_idem d a)
    ∙ ap (◌∷◌ (inherit_appender d a)) (inherit_each_idem d l)

inherit-inherit : (d : LogDefine) → inherit (inherit d) ≡ inherit d
unfolding inherit
inherit-inherit d = ap (λ l. record d { appenders = l }) (inherit_each_idem d d.appenders)

abbrev pub log_fields : LogDefine → Fields
log_fields d =
    (true, codes "name", d.name)
    ∷ (not (is_unknow d.level), codes "level", to_string d.level)
    ∷ (not (is_empty d.formatter), codes "formatter", d.formatter)
    ∷ []

bind_each :
    {A B : Type 0} (r : Result A) (f : A → Result B) (g : A → Result A) (h : A → Result B)
    → ((a : A) → f a ≡ g a >>= h)
    → r >>= f ≡ r >>= g >>= h
bind_each (ok a) f g h k = k a
bind_each (fail e) f g h k = refl

module _ (y : Yaml) (node : y.Node) where
  abbrev read_fields : Fields → LogDefine → Result LogDefine
  read_fields [] d = ok d
  read_fields ((true, k, v) ∷ fs) d = read_log_entry y node k v d >>= read_fields fs
  read_fields ((false, k, v) ∷ fs) d = read_fields fs d

  read_log_entries_lem :
      (es : List (y.Node × y.Node)) (fs : Fields) (tail : List (y.Node × y.Node)) (d : LogDefine)
      → HasFields y es fs tail
      → read_log_entries y node es d ≡ read_fields fs d >>= read_log_entries y node tail
  unfolding read_log_entries
  read_log_entries_lem es [] tail d h = ap (λ es. read_log_entries y node es d) h
  read_log_entries_lem es ((false, k, v) ∷ fs) tail d h = read_log_entries_lem es fs tail d h
  read_log_entries_lem [] ((true, k, v) ∷ fs) tail d h = elim h [ ]
  read_log_entries_lem ((key, value) ∷ es) ((true, k, v) ∷ fs) tail d (p, q, h) =
      rw (p, q)
        (bind_each (read_log_entry y node k v d) (read_log_entries y node es) (read_fields fs)
          (read_log_entries y node tail) (λ d. read_log_entries_lem es fs tail d h))

  name_field :
      (s : Text)
      → is_empty s ≡ false
      → read_log_entry y node (codes "name") s no_define ≡ ok (record no_define { name = s })
  unfolding read_log_entry same
  name_field s h = rw h refl

  level_field :
      (l : Level) (s : Text)
      → IsNamed l
      → read_fields
          ((not (is_unknow l), codes "level", to_string l) ∷ [])
          (record no_define { name = s })
        ≡ ok (record no_define { name = s; level = l })
  unfolding read_log_entry same
  level_field (cast n) s h = elim h [ ]
  level_field unknow s h = refl
  level_field debug s h =
      ap (λ l. ok (record no_define { name = s; level = l })) (from-to_level debug h)
  level_field info s h =
      ap (λ l. ok (record no_define { name = s; level = l })) (from-to_level info h)
  level_field warn s h =
      ap (λ l. ok (record no_define { name = s; level = l })) (from-to_level warn h)
  level_field error s h =
      ap (λ l. ok (record no_define { name = s; level = l })) (from-to_level error h)
  level_field fatal s h =
      ap (λ l. ok (record no_define { name = s; level = l })) (from-to_level fatal h)

  formatter_field :
      (t s : Text) (l : Level)
      → (is_empty t ≡ true) ⊎ (check_valid t ≡ ok true)
      → read_fields
          ((not (is_empty t), codes "formatter", t) ∷ [])
          (record no_define { name = s; level = l })
        ≡ ok (record no_define { name = s; level = l; formatter = t })
  unfolding read_log_entry same
  formatter_field [] s l h = refl
  formatter_field (c ∷ t) s l (inr e) = rw e refl
  formatter_field (c ∷ t) s l (inl e) = cc

  read_fields_cons :
      (b : Bool) (k v : Text) (fs : Fields) (d e : LogDefine)
      → read_fields ((b, k, v) ∷ []) d ≡ ok e
      → read_fields ((b, k, v) ∷ fs) d ≡ read_fields fs e
  read_fields_cons false k v fs d e h = ap (λ (r : Result LogDefine). r >>= read_fields fs) h
  read_fields_cons true k v fs d e h =
      let (a, h1, h2) = >>=-eq-ok (read_log_entry y node k v d) (read_fields []) h in
      ap (λ (r : Result LogDefine). r >>= read_fields fs) h1 ∙ ap (read_fields fs) (ok_injective h2)

  read_fields_lem :
      (d : LogDefine)
      → IsReadable d
      → read_fields (log_fields d) no_define ≡ ok (record d { appenders = [] })
  read_fields_lem d h = rw (name_field d.name h.has_name) (
      read_fields_cons _ _ _ _ _ _ (level_field d.level d.name h.level_named)
      ∙ formatter_field d.formatter d.name d.level h.valid)

module _ (y : Yaml) (Same : Text → Text → Type 0) (laws : YamlLaws y Same)
    (fields : FieldLaws y Same) where
  abbrev pub Reads : List Text → List AppenderDefine → Type 0
  Reads [] [] = Unit
  Reads (t ∷ ts) (a ∷ rest) =
      ((u : Text) → Same t u → appender_from_string y u ≡ ok a) × Reads ts rest
  Reads _ _ = ⊥

  push_appenders_lem :
      (defines : List AppenderDefine) (node : y.Node)
      → All (λ a. IsNamed a.level) defines
      → (ns : List y.Node) × (ts : List Text) × (push_appenders y defines node
          ≡ ok (pushed_at y (codes "appenders") ns node))
        × Emits y ns ts
        × Reads ts defines
  unfolding push_appenders
  push_appenders_lem [] node h = ([], [], refl, tt, tt)
  push_appenders_lem (a ∷ rest) node (k, h) =
      let (t, e, (n, l), r) = appender-Becomes y Same laws fields a k in
      let (u, p, s) = laws.reload t n l in
      let (ns, ts, w, m, d) = push_appenders_lem rest (y.push_at (codes "appenders") n node) h in
      (n ∷ ns, u ∷ ts, rw (e, l) w, (p, m), (λ v q. r v (laws.same_trans t u v s q), d))

  read_appenders_lem :
      (es : List y.Node) (ts : List Text) (defines found : List AppenderDefine)
      → HasItems y Same es ts
      → Reads ts defines
      → read_appenders y es found ≡ ok (found ++ defines)
  unfolding read_appenders
  read_appenders_lem [] [] [] found h r = ap ok (sym (append-nil found))
  read_appenders_lem (e ∷ es) (t ∷ ts) (a ∷ rest) found ((u, p, s), h) (r, rs) =
      rw (p, r u s)
        (read_appenders_lem es ts rest (found ++ a ∷ []) h rs
          ∙ ap ok (append_assoc found (a ∷ []) rest))
  read_appenders_lem [] (t ∷ ts) defines found h r = elim h [ ]
  read_appenders_lem (e ∷ es) [] defines found h r = elim h [ ]
  read_appenders_lem es [] (a ∷ rest) found h r = elim r [ ]
  read_appenders_lem es (t ∷ ts) [] found h r = elim r [ ]

  set_formatter_text_lem :
      (t : Text) (node : y.Node)
      → (is_empty t ≡ true) ⊎ (check_valid t ≡ ok true)
      → set_formatter_text y t node ≡ ok (set_if y (not (is_empty t)) (codes "formatter") t node)
  set_formatter_text_lem [] node h = refl
  set_formatter_text_lem (c ∷ t) node (inr e) = rw e refl
  set_formatter_text_lem (c ∷ t) node (inl e) = cc

  read_tail :
      (node : y.Node) (tail : List (y.Node × y.Node)) (ts : List Text) (l : List AppenderDefine)
      (d : LogDefine)
      → HasTail y Same node tail (codes "appenders") ts
      → Reads ts l
      → read_log_entries y node tail (record d { appenders = [] }) ≡ ok (record d { appenders = l })
  unfolding read_log_entries read_log_entry same
  read_tail node tail [] [] d h r =
      ap (λ es. read_log_entries y node es (record d { appenders = [] })) h
  read_tail node tail [] (a ∷ l) d h r = elim r [ ]
  read_tail node tail (t ∷ ts) l d (name, value, e, k, m) r =
      ap (λ es. read_log_entries y node es (record d { appenders = [] })) e
      ∙ rw (k, read_appenders_lem (y.elements (y.get (codes "appenders") node)) (t ∷ ts) l [] m r)
          refl

  pub log_from_string_lem :
      (d : LogDefine) (u : Text) (n : y.Node) (tail : List (y.Node × y.Node)) (ts : List Text)
      → IsReadable d
      → y.load u ≡ ok n
      → HasFields y (y.entries n) (log_fields d) tail
      → HasTail y Same n tail (codes "appenders") ts
      → Reads ts d.appenders
      → log_from_string y u ≡ ok (inherit d)
  unfolding log_from_string
  log_from_string_lem d u n tail ts h l p q r =
      rw
        (
          l,
          read_log_entries_lem y n (y.entries n) (log_fields d) tail no_define p,
          read_fields_lem y n d h,
          read_tail n tail ts d.appenders d q r,
        )
        refl

  pub log_fields_distinct :
      (d : LogDefine) → AreDistinct (codes "appenders" ∷ map (λ (b, k, v). k) (log_fields d))
  unfolding same
  log_fields_distinct d = ((refl, (refl, (refl, tt))), ((refl, (refl, tt)), ((refl, tt), (tt, tt))))

  log_round_trip :
      (d : LogDefine)
      → IsReadable d
      → Becomes y Same (log_to_string y) (log_from_string y) d (inherit d)
  unfolding log_to_string
  log_round_trip d h =
      let fs = log_fields d in
      let (ns, ts, w, m, r) =
        push_appenders_lem d.appenders (assigned y fs y.null) h.appenders_named in
      let (t, e, f) = fields.reload_fields fs (codes "appenders") ns ts (log_fields_distinct d) m in
      let (n, tail, l, _, _) = f t (laws.same_refl t) in
      (
        t,
        rw (set_formatter_text_lem d.formatter _ h.valid, w) e,
        (n, l),
        λ u s. let (n, tail, l, p, q) = f u s in log_from_string_lem d u n tail ts h l p q r,
      )

  -- Where yaml-cpp prints sequences and maps as documents from which it loads the same sequences and
  -- maps, a LogDefine with a name, with levels that have names, and with a pattern that is empty or valid, is
  -- written as a text from which it comes back, its appenders with the formatter and the level of the
  -- logger where they had none; a definition that has come back so takes nothing more from its logger.
  pub log-Becomes :
      (d : LogDefine)
      → IsReadable d
      → Becomes y Same (log_to_string y) (log_from_string y) d (inherit d)
        × (inherit (inherit d) ≡ inherit d)
  log-Becomes d h = (log_round_trip d h, inherit-inherit d)
