-- ===== src/Config/Registry.antt =====
-- ddg/config.h and ddg/config.cc, Config: the variables by their names. A variable of any type
-- stands for itself; `cast` tells whether `dynamic_pointer_cast` to the type of a Lookup succeeds.
use high_performance_server.Prelude.{
  Bool, true, ◌&&◌, List, [], ◌∷◌, ◌++◌, Option, none, some, Text, codes, same, if◌then◌else◌,
  Result, ok, fail, thrown, is_some, member, is_empty, Text,
}
use high_performance_server.Config.Vars.{lower}

abbrev pub valid_set : Text
valid_set = codes "abcdefghijklmnopqrstuvwxyz._0123456789"

-- `name.find_first_not_of(kValidSet) == npos`.
unfoldable pub is_valid : Text → Bool
is_valid [] = true
is_valid (c ∷ s) = member c valid_set && is_valid s

-- The values of a YAML document: a scalar, a map from keys to nodes in its order, or another kind.
mutual
  pub data Node : Type 0 where
    scalar : Text → Node
    mapping : Entries → Node
    other : Text → Node

  pub data Entries : Type 0 where
    no_entries : Entries
    entry : Text → Node → Entries → Entries

abbrev pub child : Text → Text → Text
child prefix key = if is_empty prefix then key else prefix ++ b'.' ∷ key

-- ListAllMember: what it adds to `output`.
unfoldable mutual
  pub list_all_member : Text → Node → List (Text × Node)
  list_all_member prefix (scalar s) = if is_valid prefix then (prefix, scalar s) ∷ [] else []
  list_all_member prefix (mapping es) =
      let children = list_entries prefix es in
      if is_valid prefix then (prefix, mapping es) ∷ children else []
  list_all_member prefix (other s) = if is_valid prefix then (prefix, other s) ∷ [] else []

  pub list_entries : Text → Entries → List (Text × Node)
  list_entries prefix no_entries = []
  list_entries prefix (entry key node es) =
      list_all_member (child prefix key) node ++ list_entries prefix es

module _ {V : Type 0} where
  -- GetDatas().find, and LookupBase.
  abbrev pub find : Text → List (Text × V) → Option V
  find name [] = none
  find name ((key, v) ∷ rest) = if same key name then some v else find name rest

  -- unordered_map::insert: a name that is there keeps its variable.
  abbrev pub insert : Text → V → List (Text × V) → List (Text × V)
  insert name v datas = if is_some (find name datas) then datas else (name, v) ∷ datas

  -- Lookup(name, default_value, description); `elem` is the variable that is made.
  unfoldable pub register : Text → V → List (Text × V) → Result (V × List (Text × V))
  register name elem datas =
      if is_valid name then ok (elem, insert name elem datas) else fail thrown

  abbrev pub lookup_found :
      Option V → (V → Bool) → Text → V → List (Text × V) → Result (V × List (Text × V))
  lookup_found none cast name elem datas = register name elem datas
  lookup_found (some v) cast name elem datas =
      if cast v then ok (v, datas) else register name elem datas

  unfoldable pub lookup_or_make :
      (V → Bool) → Text → V → List (Text × V) → Result (V × List (Text × V))
  lookup_or_make cast name elem datas = lookup_found (find name datas) cast name elem datas

  abbrev pub cast_to : (V → Bool) → Option V → Option V
  cast_to cast none = none
  cast_to cast (some v) = if cast v then some v else none

  -- Lookup(name).
  unfoldable pub lookup : (V → Bool) → Text → List (Text × V) → Option V
  lookup cast name datas = cast_to cast (find name datas)

-- `render` is the stream output of a node; `assign` is the fromString of a variable.
module _ {V : Type 0} (render : Node → Text) (assign : Text → V → V) where
  abbrev pub text_of : Node → Text
  text_of (scalar s) = s
  text_of node = render node

  -- The variable of a name that is found takes a text.
  abbrev pub assign_at : Text → Text → List (Text × V) → List (Text × V)
  assign_at name s [] = []
  assign_at name s ((key, v) ∷ rest) =
      if same key name then (key, assign s v) ∷ rest else (key, v) ∷ assign_at name s rest

  abbrev pub load_node : Text × Node → List (Text × V) → List (Text × V)
  load_node (key, node) datas =
      if is_empty key then datas else assign_at (lower key) (text_of node) datas

  abbrev pub load_all : List (Text × Node) → List (Text × V) → List (Text × V)
  load_all [] datas = datas
  load_all (i ∷ rest) datas = load_all rest (load_node i datas)

  unfoldable pub load_from_yaml : Node → List (Text × V) → List (Text × V)
  load_from_yaml root datas = load_all (list_all_member [] root) datas
