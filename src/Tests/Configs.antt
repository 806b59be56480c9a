-- ===== src/Tests/Configs.antt =====
-- The configuration: a variable with one listener, and a document with a nested map.
use high_performance_server.Prelude.{
  ℕ, List, [], ◌∷◌, Option, some, none, Text, codes, same, ◌≡◌, arith,
}
use high_performance_server.Config.Vars.{ConfigVar}
use high_performance_server.Config.Listeners.{IsBounded}
use high_performance_server.Config.Registry.{
  Node, scalar, mapping, no_entries, entry, list_all_member, find, load_from_yaml,
}
use high_performance_server.Config.Loading.{mapped, assigned, load_from_yaml_lem}

abbrev port : ConfigVar ℕ ℕ
port = record {
  name = codes "port";
  description = [];
  val = 80;
  func_id = 3;
  cbs = (0, 11) ∷ (3, 12) ∷ [];
}

port-IsBounded : IsBounded port
port-IsBounded k h = ground arith

abbrev port_with_five : ConfigVar ℕ ℕ
port_with_five = record port { func_id = 5; cbs = (5, 14) ∷ port.cbs }

abbrev digit : Text → Option ℕ
digit (c ∷ []) = some c
digit _ = none

-- logs: { level: info }, Port: 1
abbrev document : Node
document = mapping (
    entry (codes "logs") (mapping (entry (codes "level") (scalar (codes "info")) no_entries))
      (entry (codes "Port") (scalar (codes "1")) no_entries))

abbrev registry : List (Text × Text)
registry = (codes "logs.level", codes "debug") ∷ (codes "port", codes "80") ∷ []

load_from_yaml_lem_example :
    find (codes "logs.level") (load_from_yaml (λ n. []) (λ s v. s) document registry)
    ≡ mapped
        (assigned (λ n. []) (λ s v. s) (codes "logs.level") (list_all_member [] document))
        (some (codes "debug"))
unfolding same
load_from_yaml_lem_example =
    load_from_yaml_lem (λ n. []) (λ s v. s) document registry (codes "logs.level")
