-- ===== src/Log/Configuring/Refiling.antt =====
-- ddg/log.cc: LogAppenderDefine::operator== and the listener of LoggerManager::init, where only the files of
-- appenders change.
use high_performance_server.Prelude.{
  true, false, List, [], ◌∷◌, ◌++◌, map, some, Text, same, same_iff, ok, ◌≡◌, refl, sym, subst, All,
  arith,
}
use mathlib.Core.List.{append_assoc}
use high_performance_server.Lexical.Sets.{Before, IsSorted, All-middle}
use high_performance_server.Log.Defines.{
  AppenderType, AppenderDefine, LogDefine, eq_type, eq_appender, eq_appenders, eq_define, text_less,
  less_define,
}
use high_performance_server.Log.Configuring.{
  Site, find_define, apply_changed, apply_all, remove_gone, remove_all_gone, on_change,
}

-- A definition with other files for its appenders.
abbrev pub refile_appender : (AppenderDefine → Text) → AppenderDefine → AppenderDefine
refile_appender g a = record a { file = g a }

abbrev pub refile : (AppenderDefine → Text) → LogDefine → LogDefine
refile g d = record d { appenders = map (refile_appender g) d.appenders }

same_self : (s : Text) → same s s ≡ true
same_self s = (same_iff s s).1 refl

eq_type_self : (t : AppenderType) → eq_type t t ≡ true
eq_type_self t = ground arith

eq_appender_refiled :
    (g : AppenderDefine → Text) (a : AppenderDefine) → eq_appender (refile_appender g a) a ≡ true
unfolding eq_appender
eq_appender_refiled g a =
    ground (arith, eq_type_self a.type, same_self a.formatter, same_self a.file)

eq_appenders_refiled :
    (g : AppenderDefine → Text) (l : List AppenderDefine)
    → eq_appenders (map (refile_appender g) l) l ≡ true
eq_appenders_refiled g [] = refl
eq_appenders_refiled g (a ∷ l) = ground (arith, eq_appender_refiled g a, eq_appenders_refiled g l)

eq_define_refiled : (g : AppenderDefine → Text) (d : LogDefine) → eq_define (refile g d) d ≡ true
unfolding eq_define
eq_define_refiled g d =
    ground (arith, eq_appenders_refiled g d.appenders, same_self d.name, same_self d.formatter)

text_less_self : (s : Text) → text_less s s ≡ false
unfolding text_less
text_less_self [] = refl
text_less_self (a ∷ s) = ground (arith, text_less_self s)

module _ (r : LogDefine → LogDefine) (k : (d : LogDefine) → (r d).name ≡ d.name) where
  find_define_at :
      (pre post : List LogDefine) (d : LogDefine)
      → All (λ e. Before less_define e d) pre
      → find_define (r d) (pre ++ d ∷ post) ≡ some d
  find_define_at [] post d h = ground (arith, k d, text_less_self d.name)
  find_define_at (e ∷ pre) post d ((p, q), h) = ground (arith, k d, p, find_define_at pre post d h)

  find_define_of :
      (pre post : List LogDefine) (d : LogDefine)
      → All (λ e. Before less_define e d) pre
      → find_define d (map r (pre ++ d ∷ post)) ≡ some (r d)
  find_define_of [] post d h = ground (arith, k d, text_less_self d.name)
  find_define_of (e ∷ pre) post d ((p, q), h) = ground (arith, k e, p, find_define_of pre post d h)

module _ (g : AppenderDefine → Text) where
  apply_changed_refiled :
      (old : List LogDefine) (d : LogDefine) (site : Site)
      → find_define (refile g d) old ≡ some d
      → apply_changed old (refile g d) site ≡ ok site
  unfolding apply_changed
  apply_changed_refiled old d site e = rw (e, eq_define_refiled g d, apply_changed) refl

  apply_all_refiled :
      (rest pre : List LogDefine) (site : Site)
      → IsSorted less_define (pre ++ rest)
      → apply_all (pre ++ rest) (map (refile g) rest) site ≡ ok site
  unfolding apply_all
  apply_all_refiled [] pre site h = refl
  apply_all_refiled (d ∷ rest) pre site h =
      let e = append_assoc pre (d ∷ []) rest in
      let f =
        find_define_at (refile g) (λ d. refl) pre rest d (All-middle less_define pre rest d h) in
      let ih : apply_all (pre ++ d ∷ rest) (map (refile g) rest) site ≡ ok site =
        subst (λ old. apply_all old (map (refile g) rest) site ≡ ok site) e
          (apply_all_refiled rest (pre ++ d ∷ []) site (subst (IsSorted less_define) (sym e) h)) in
      rw (apply_changed_refiled (pre ++ d ∷ rest) d site f) ih

  remove_gone_refiled :
      (new : List LogDefine) (d e : LogDefine) (site : Site)
      → find_define d new ≡ some e
      → remove_gone new d site ≡ ok site
  unfolding remove_gone
  remove_gone_refiled new d e site f = rw (f, remove_gone) refl

  remove_all_gone_refiled :
      (rest pre : List LogDefine) (site : Site)
      → IsSorted less_define (pre ++ rest)
      → remove_all_gone (map (refile g) (pre ++ rest)) rest site ≡ ok site
  unfolding remove_all_gone
  remove_all_gone_refiled [] pre site h = refl
  remove_all_gone_refiled (d ∷ rest) pre site h =
      let e = append_assoc pre (d ∷ []) rest in
      let f =
        find_define_of (refile g) (λ d. refl) pre rest d (All-middle less_define pre rest d h) in
      let ih : remove_all_gone (map (refile g) (pre ++ d ∷ rest)) rest site ≡ ok site =
        subst (λ old. remove_all_gone (map (refile g) old) rest site ≡ ok site) e
          (remove_all_gone_refiled rest (pre ++ d ∷ []) site
            (subst (IsSorted less_define) (sym e) h)) in
      rw (remove_gone_refiled (map (refile g) (pre ++ d ∷ rest)) d (refile g d) site f) ih

-- Where the new definitions are the old ones, in the order of a std::set, with any other files for their
-- appenders, the listener changes nothing: the new files are not used.
pub on_change-refile :
    (g : AppenderDefine → Text) (old : List LogDefine) (site : Site)
    → IsSorted less_define old
    → on_change old (map (refile g) old) site ≡ ok site
unfolding on_change
on_change-refile g old site h =
    rw (apply_all_refiled g old [] site h) (remove_all_gone_refiled g old [] site h)
