-- ===== src/Config/Vars.antt =====
-- ddg/config.h, ConfigVar<T>. `m_cbs` is the list of its entries in the order of its iteration; a
-- callback stands for itself, and a call of it, which returns, is recorded with the two values that it
-- gets.
use high_performance_server.Prelude.{
  ℕ, zero, suc, ◌+◌, ◌*◌, ◌/◌, ◌%◌, ◌^◌, ltb, leb, ◌==◌, Bool, true, false, List, [], ◌∷◌, map,
  Option, none, some, Text, if◌then◌else◌, Result, ok, fail, thrown, is_some,
}

pub record ConfigVar (A C : Type 0) : Type 0 where
  pub name : Text
  pub description : Text
  pub val : A
  pub func_id : ℕ
  pub cbs : List (ℕ × C)

abbrev pub word : ℕ
word = 2 ^ 64

-- `::tolower` in the C locale, of one character and of all.
abbrev pub to_lower : ℕ → ℕ
to_lower c = if leb b'A' c then (if leb c b'Z' then c + 32 else c) else c

abbrev pub lower : Text → Text
lower s = map to_lower s

abbrev pub func_id_threshold : ℕ
func_id_threshold = 256

-- A call of a callback.
pub record Call (A C : Type 0) : Type 0 where
  pub callback : C
  pub before : A
  pub after : A

module _ {C : Type 0} where
  abbrev pub get : ℕ → List (ℕ × C) → Option C
  get key [] = none
  get key ((i, cb) ∷ rest) = if i == key then some cb else get key rest

  -- unordered_map::insert: a key that is there keeps its callback.
  abbrev pub insert : ℕ → C → List (ℕ × C) → List (ℕ × C)
  insert key cb cbs = if is_some (get key cbs) then cbs else (key, cb) ∷ cbs

  -- The loop of addListener from `i` on, in which `rounds` are left: the first free id.
  unfoldable pub search_free : ℕ → ℕ → List (ℕ × C) → Option ℕ
  search_free zero i cbs = none
  search_free (suc rounds) i cbs =
      let rest = search_free rounds (i + 1) cbs in if is_some (get i cbs) then rest else some i

module _ {A C : Type 0} where
  unfoldable pub make : Text → A → Text → ConfigVar A C
  make name value description = record {
    name = lower name;
    description = description;
    val = value;
    func_id = 0;
    cbs = [];
  }

  abbrev pub listened : Option ℕ → C → ConfigVar A C → ℕ × ConfigVar A C
  listened (some i) cb v = (i, record v { cbs = insert i cb v.cbs })
  listened none cb v =
      let id = (v.func_id + 1) % word in (id, record v { func_id = id; cbs = insert id cb v.cbs })

  -- addListener(cb): `i` runs from 0 to s_func_id.
  unfoldable pub add_listener : C → ConfigVar A C → ℕ × ConfigVar A C
  add_listener cb v = listened (search_free (v.func_id + 1) 0 v.cbs) cb v

  abbrev pub func_id_growth_valid : ℕ → ConfigVar A C → Bool
  func_id_growth_valid id v =
      if ltb v.func_id func_id_threshold
      then ltb id ((v.func_id * 2) % word)
      else ltb id (((v.func_id + 3 * func_id_threshold) % word / 4 + v.func_id) % word)

  -- addListener(key, cb).
  unfoldable pub add_listener_at : ℕ → C → ConfigVar A C → Result (ConfigVar A C)
  add_listener_at key cb v =
      if func_id_growth_valid key v
      then ok (record v {
        func_id = if ltb v.func_id key then key else v.func_id;
        cbs = insert key cb v.cbs;
      })
      else fail thrown

  unfoldable pub clear_listener : ConfigVar A C → ConfigVar A C
  clear_listener v = record v { cbs = [] }

  unfoldable pub get_listener : ℕ → ConfigVar A C → Option C
  get_listener key v = get key v.cbs

  abbrev pub calls : A → A → List (ℕ × C) → List (Call A C)
  calls a b [] = []
  calls a b ((i, cb) ∷ rest) = record { callback = cb; before = a; after = b } ∷ calls a b rest

-- `same` is the type's `==`; `from` is the conversion of a text, `none` when it throws.
module _ {A C : Type 0} (same : A → A → Bool) (from : Text → Option A) where
  unfoldable pub set_value : A → ConfigVar A C → List (Call A C) × ConfigVar A C
  set_value b v = if same v.val b then ([], v) else (calls v.val b v.cbs, record v { val = b })

  abbrev pub assign : Option A → ConfigVar A C → Bool × List (Call A C) × ConfigVar A C
  assign none v = (false, [], v)
  assign (some b) v = let (called, w) = set_value b v in (true, called, w)

  unfoldable pub from_string : Text → ConfigVar A C → Bool × List (Call A C) × ConfigVar A C
  from_string s v = assign (from s) v
