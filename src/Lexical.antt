-- ===== src/Lexical.antt =====
-- ddg/lexicalcast.h: the casts between texts and containers. The classes YAML::Node and YAML::Load of
-- yaml-cpp are the argument `Yaml`; the casts of an element are the argument `Cast`.
pub mod Laws
pub mod Sequences
pub mod Sets
pub mod Maps
use high_performance_server.Prelude.{
  ℕ, zero, suc, ◌+◌, Bool, true, false, ◌||◌, List, [], ◌∷◌, ◌++◌, Text, if◌then◌else◌, Result, ok,
  ◌>>=◌,
}
use high_performance_server.Config.Registry.{insert}

-- Of yaml-cpp: `load` is YAML::Load, `emit` is `ss << node`, `sequence` an empty node of this type, `null`
-- a node that is made without a type, `at i` is `node[i]`, `entries` what an iterator goes through,
-- `of_text` the node that a text is turned into, `set_key` is `node[key] = value`, and `push_at` is
-- `node[key].push_back(value)`; `get key` is `node[key]`, and `elements` the nodes that an iterator of a
-- sequence goes through. Load and << can throw.
pub record Yaml : Type 1 where
  pub Node : Type 0
  pub load : Text → Result Node
  pub emit : Node → Result Text
  pub null : Node
  pub sequence : Node
  pub push_back : Node → Node → Node
  pub force_insert : Text → Node → Node → Node
  pub size : Node → ℕ
  pub at : ℕ → Node → Node
  pub entries : Node → List (Node × Node)
  pub scalar : Node → Text
  pub of_text : Text → Node
  pub set_key : Text → Node → Node → Node
  pub push_at : Text → Node → Node → Node
  pub get : Text → Node → Node
  pub elements : Node → List Node

-- LexicalCast<T, std::string> and LexicalCast<std::string, T>.
pub record Cast (T : Type 0) : Type 0 where
  pub to : T → Result Text
  pub from : Text → Result T

module _ {T : Type 0} where
  -- std::set, as its elements in their order; `less` is `operator<`.
  unfoldable pub set_insert : (T → T → Bool) → T → List T → List T
  set_insert less x [] = x ∷ []
  set_insert less x (e ∷ st) =
      let rest = e ∷ set_insert less x st in
      if less x e then x ∷ e ∷ st else if less e x then rest else e ∷ st

  -- std::unordered_set, as its elements in the order of its iteration; `equal` is `operator==`.
  abbrev pub has : (T → T → Bool) → T → List T → Bool
  has equal x [] = false
  has equal x (e ∷ st) = equal e x || has equal x st

  abbrev pub hash_insert : (T → T → Bool) → T → List T → List T
  hash_insert equal x st = if has equal x st then st else x ∷ st

module _ (y : Yaml) {T : Type 0} (c : Cast T) where
  -- `for (auto& i : v) node.push_back(YAML::Load(LexicalCast<T, std::string>()(i)))`.
  unfoldable pub write_elements : List T → y.Node → Result y.Node
  write_elements [] node = ok node
  write_elements (x ∷ xs) node =
      c.to x >>= λ t. y.load t >>= λ child. write_elements xs (y.push_back node child)

  unfoldable pub sequence_to_string : List T → Result Text
  unfolding write_elements
  sequence_to_string xs = write_elements xs y.sequence >>= y.emit

  -- The loop from `i` on, with the rounds that are left; `add` puts an element into the container.
  unfoldable pub read_elements : {C : Type 0} → (T → C → C) → ℕ → ℕ → y.Node → C → Result C
  read_elements add zero i node acc = ok acc
  read_elements add (suc rounds) i node acc = y.emit (y.at i node) >>= λ t.
      c.from t >>= λ x. read_elements add rounds (i + 1) node (add x acc)

  unfoldable pub sequence_from_string : {C : Type 0} → (T → C → C) → C → Text → Result C
  unfolding read_elements
  sequence_from_string add empty t =
      y.load t >>= λ node. read_elements add (y.size node) 0 node empty

  unfoldable pub vector_to_string : List T → Result Text
  unfolding sequence_to_string
  vector_to_string v = sequence_to_string v

  -- `push_back` puts an element at the end.
  unfoldable pub vector_from_string : Text → Result (List T)
  unfolding sequence_from_string
  vector_from_string = sequence_from_string (λ x v. v ++ x ∷ []) []

  unfoldable pub list_to_string : List T → Result Text
  unfolding sequence_to_string
  list_to_string lis = sequence_to_string lis

  unfoldable pub list_from_string : Text → Result (List T)
  unfolding sequence_from_string
  list_from_string = sequence_from_string (λ x lis. lis ++ x ∷ []) []

  unfoldable pub set_to_string : List T → Result Text
  unfolding sequence_to_string
  set_to_string st = sequence_to_string st

  unfoldable pub set_from_string : (T → T → Bool) → Text → Result (List T)
  unfolding sequence_from_string set_insert
  set_from_string less = sequence_from_string (set_insert less) []

  unfoldable pub unordered_set_to_string : List T → Result Text
  unfolding sequence_to_string
  unordered_set_to_string st = sequence_to_string st

  unfoldable pub unordered_set_from_string : (T → T → Bool) → Text → Result (List T)
  unfolding sequence_from_string
  unordered_set_from_string equal = sequence_from_string (hash_insert equal) []

  -- `for (auto& i : v) node.force_insert(i.first, YAML::Load(...(i.second)))`.
  unfoldable pub write_entries : List (Text × T) → y.Node → Result y.Node
  write_entries [] node = ok node
  write_entries ((key, x) ∷ m) node =
      c.to x >>= λ t. y.load t >>= λ child. write_entries m (y.force_insert key child node)

  unfoldable pub map_to_string : List (Text × T) → Result Text
  unfolding write_entries
  map_to_string m = write_entries m y.sequence >>= y.emit

  unfoldable pub unordered_map_to_string : List (Text × T) → Result Text
  unfolding write_entries
  unordered_map_to_string m = write_entries m y.sequence >>= y.emit

  -- The loop over the entries of a node.
  unfoldable pub read_entries : List (y.Node × y.Node) → List (Text × T) → Result (List (Text × T))
  read_entries [] m = ok m
  read_entries ((key, value) ∷ es) m =
      y.emit value >>= λ t. c.from t >>= λ x. read_entries es (insert (y.scalar key) x m)

  unfoldable pub unordered_map_from_string : Text → Result (List (Text × T))
  unfolding read_entries
  unordered_map_from_string t = y.load t >>= λ node. read_entries (y.entries node) []
