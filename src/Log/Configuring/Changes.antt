-- ===== src/Log/Configuring/Changes.antt =====
-- ddg/log.cc, the listener of LoggerManager::init: which names the manager knows after a change.
use high_performance_server.Prelude.{
  Bool, true, false, not, ◌&&◌, ◌||◌, List, [], ◌∷◌, none, some, is_some, Text, same, same_iff, ok,
  >>=-eq-ok, ok_injective, ◌≡◌, sym, ap, ◌∙◌, arith, Bool-cases, Option-cases, inl, inr, All,
}
use high_performance_server.Log.Logger.{clear_appender, set_level}
use high_performance_server.Log.Levels.{cast}
use high_performance_server.Log.Manager.{find, get_logger, del_logger}
use high_performance_server.Log.Naming.{del_logger_lem}
use high_performance_server.Log.Defines.{LogDefine, eq_define}
use high_performance_server.Log.Configuring.{
  Site, find_define, apply_define, apply_changed, apply_all, remove_define, remove_gone,
  remove_all_gone, on_change,
}
use high_performance_server.Log.Configuring.Returning.{IsApplicable, on_change-Returns}
use high_performance_server.Log.Configuring.Applying.{get_logger_finds, apply_define-Applied}

abbrev pub is_known : Text → Site → Bool
is_known name site = is_some (find name site.manager.loggers)

-- Whether the definition is new, or differs from the old one of its name.
abbrev pub is_changed : List LogDefine → LogDefine → Bool
is_changed old d = elim (find_define d old) [ none ↦ true | some e ↦ not (eq_define d e) ]

abbrev pub names_changed : List LogDefine → List LogDefine → Text → Bool
names_changed old [] name = false
names_changed old (d ∷ ds) name = is_changed old d && same d.name name || names_changed old ds name

abbrev pub names_gone : List LogDefine → List LogDefine → Text → Bool
names_gone new [] name = false
names_gone new (d ∷ ds) name =
    not (is_some (find_define d new)) && same d.name name || names_gone new ds name

apply_define-is_known :
    (d : LogDefine) (site after : Site) (name : Text)
    → apply_define d site ≡ ok after
    → is_known name after ≡ is_known name site || same d.name name
apply_define-is_known d site after name h =
    let ((p, f, _, _), o) = apply_define-Applied d site after h in
    elim (Bool-cases (same d.name name)) [
      | inl e ↦
          let n = (same_iff d.name name).0 e in
          let k : is_known name after ≡ true = ap (λ n. is_known n after) (sym n) ∙ ap is_some f in
          ground (arith, k)
      | inr e ↦ ground (arith, ap is_some (o name e))
    ]

remove_define-is_known :
    (d : LogDefine) (site after : Site) (name : Text)
    → remove_define d site ≡ ok after
    → is_known name after ≡ is_known name site && not (same d.name name)
unfolding remove_define
remove_define-is_known d site after name h =
    let ((p, m), h1, h2) = >>=-eq-ok (get_logger d.name site.manager) _ h in
    let (_, o) = get_logger_finds d.name site.manager m p h1 in
    let s = clear_appender p (set_level (cast 100) p m.store) in
    let (gone, others) = del_logger_lem d.name (record m { store = s }) in
    let k = ap (λ (r : Site). is_some (find name r.manager.loggers)) (sym (ok_injective h2)) in
    elim (Bool-cases (same d.name name)) [
      | inl e ↦
          let n = (same_iff d.name name).0 e in
          let z : is_known name after ≡ false =
            k
            ∙ ap (λ n. is_some (find n (del_logger d.name (record m { store = s })).loggers))
                (sym n)
            ∙ ap is_some gone in
          ground (arith, z)
      | inr e ↦
          let z : is_known name after ≡ is_known name site =
            k ∙ ap is_some (others name e ∙ o name e) in
          ground (arith, z)
    ]

apply_changed-is_known :
    (old : List LogDefine) (d : LogDefine) (site after : Site) (name : Text)
    → apply_changed old d site ≡ ok after
    → is_known name after ≡ is_known name site || is_changed old d && same d.name name
unfolding apply_changed
apply_changed-is_known old d site after name h = elim (Option-cases (find_define d old)) [
  | inl e ↦ ground (arith, apply_define-is_known d site after name (rw (e, apply_changed) at h))
  | inr (x, e) ↦ elim (Bool-cases (eq_define d x)) [
    | inl q ↦
        let k = ap (is_known name) (sym (ok_injective (rw (e, q, apply_changed) at h))) in
        ground (arith, k)
    | inr q ↦
        ground (arith, apply_define-is_known d site after name (rw (e, q, apply_changed) at h))
  ]
]

remove_gone-is_known :
    (new : List LogDefine) (d : LogDefine) (site after : Site) (name : Text)
    → remove_gone new d site ≡ ok after
    → is_known name after
      ≡ is_known name site && not (not (is_some (find_define d new)) && same d.name name)
unfolding remove_gone
remove_gone-is_known new d site after name h = elim (Option-cases (find_define d new)) [
  | inl e ↦ ground (arith, remove_define-is_known d site after name (rw (e, remove_gone) at h))
  | inr (x, e) ↦
      let k = ap (is_known name) (sym (ok_injective (rw (e, remove_gone) at h))) in
      ground (arith, k)
]

apply_all-is_known :
    (old new : List LogDefine) (site after : Site) (name : Text)
    → apply_all old new site ≡ ok after
    → is_known name after ≡ is_known name site || names_changed old new name
unfolding apply_all
apply_all-is_known old [] site after name h =
    ground (arith, ap (is_known name) (sym (ok_injective h)))
apply_all-is_known old (d ∷ ds) site after name h =
    let (site1, h1, h2) = >>=-eq-ok (apply_changed old d site) (apply_all old ds) h in
    ground (
      arith,
      apply_changed-is_known old d site site1 name h1,
      apply_all-is_known old ds site1 after name h2,
    )

remove_all_gone-is_known :
    (new old : List LogDefine) (site after : Site) (name : Text)
    → remove_all_gone new old site ≡ ok after
    → is_known name after ≡ is_known name site && not (names_gone new old name)
unfolding remove_all_gone
remove_all_gone-is_known new [] site after name h =
    ground (arith, ap (is_known name) (sym (ok_injective h)))
remove_all_gone-is_known new (d ∷ ds) site after name h =
    let (site1, h1, h2) = >>=-eq-ok (remove_gone new d site) (remove_all_gone new ds) h in
    ground (
      arith,
      remove_gone-is_known new d site site1 name h1,
      remove_all_gone-is_known new ds site1 after name h2,
    )

on_change-is_known :
    (old new : List LogDefine) (site after : Site) (name : Text)
    → on_change old new site ≡ ok after
    → is_known name after
      ≡ (is_known name site || names_changed old new name) && not (names_gone new old name)
unfolding on_change
on_change-is_known old new site after name h =
    let (site1, h1, h2) = >>=-eq-ok (apply_all old new site) (remove_all_gone new old) h in
    remove_all_gone-is_known new old site1 after name h2
    ∙ ap (λ b. b && not (names_gone new old name)) (apply_all-is_known old new site site1 name h1)

-- Where every new definition can be applied, the listener returns. Seen as the set of the names that it
-- knows, the manager then goes from its set to this set and the names of the new and the changed
-- definitions, less the names of those that are gone.
pub on_change_lem :
    (old new : List LogDefine) (site : Site)
    → All IsApplicable new
    → (after : Site) × (on_change old new site ≡ ok after)
      × ((name : Text)
          → is_known name after
            ≡ (is_known name site || names_changed old new name) && not (names_gone new old name))
on_change_lem old new site h =
    let (after, e) = on_change-Returns old new site h in
    (after, e, λ name. on_change-is_known old new site after name e)
