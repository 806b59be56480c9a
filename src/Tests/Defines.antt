-- ===== src/Tests/Defines.antt =====
-- The definitions of loggers: one that is kept, one that is new and one that is gone.
use high_performance_server.Prelude.{
  false, not, ◌&&◌, ◌||◌, [], ◌∷◌, map, Text, codes, same, ok, ◌≡◌, refl, inl,
}
use high_performance_server.Log.Levels.{info, warn, unknow}
use high_performance_server.Log.Manager.{find}
use high_performance_server.Log.Defines.{
  file_log_appender, stdout_log_appender, AppenderDefine, LogDefine, text_less,
}
use high_performance_server.Log.Configuring.{Site, apply_define, on_change}
use high_performance_server.Log.Configuring.Applying.{Applied, apply_define_lem}
use high_performance_server.Log.Configuring.Changes.{
  is_known, names_changed, names_gone, on_change_lem,
}
use high_performance_server.Log.Configuring.Refiling.{refile, on_change-refile}
use high_performance_server.Tests.Logs.{manager}

abbrev to_file : AppenderDefine
to_file = record { type = file_log_appender; level = warn; formatter = []; file = codes "/tmp/a" }

abbrev to_stdout : AppenderDefine
to_stdout = record { type = stdout_log_appender; level = info; formatter = []; file = [] }

abbrev pub net : LogDefine
net = record {
  name = codes "net";
  level = info;
  formatter = [];
  appenders = to_file ∷ to_stdout ∷ [];
}

abbrev disk : LogDefine
disk = record { name = codes "disk"; level = unknow; formatter = []; appenders = [] }

abbrev site : Site
site = record { manager = manager; next_appender = 5 }

apply_define_lem_example :
    (after : Site) × (apply_define net site ≡ ok after)
    × Applied net after.manager
    × ((other : Text)
        → same net.name other ≡ false
        → find other after.manager.loggers ≡ find other site.manager.loggers)
apply_define_lem_example =
    apply_define_lem net site (inl refl, (((_, refl), inl refl), (((_, refl), inl refl), tt)))

on_change_lem_example :
    (after : Site) × (on_change (disk ∷ []) (net ∷ []) site ≡ ok after)
    × ((name : Text)
        → is_known name after
          ≡ (is_known name site || names_changed (disk ∷ []) (net ∷ []) name)
            && not (names_gone (net ∷ []) (disk ∷ []) name))
on_change_lem_example =
    on_change_lem (disk ∷ []) (net ∷ []) site
      ((inl refl, (((_, refl), inl refl), (((_, refl), inl refl), tt))), tt)

abbrev elsewhere : AppenderDefine → Text
elsewhere a = codes "/tmp/b"

on_change-refile_example :
    on_change (disk ∷ net ∷ []) (map (refile elsewhere) (disk ∷ net ∷ [])) site ≡ ok site
unfolding text_less
on_change-refile_example =
    on_change-refile elsewhere (disk ∷ net ∷ []) site (((refl, refl), tt), (tt, tt))

abbrev root_define : LogDefine
root_define = record net { name = codes "root" }
