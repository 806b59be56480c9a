-- ===== src/Config/Variables.antt =====
-- ddg/config.h and ddg/config.cc: the variables of all types in one registry. A variable is a ConfigVar with
-- the type that it has, and `dynamic_pointer_cast` compares this type.
pub mod Keeping
pub mod Typed
use high_performance_server.Prelude.{
  Bool, true, false, List, [], ◌∷◌, Option, none, some, Text, Result, ok, ◌≡◌, subst, if◌then◌else◌,
}
use high_performance_server.Config.Vars.{
  ConfigVar, make as new_var, set_value, from_string as var_from_string, add_listener,
  clear_listener,
}
use high_performance_server.Config.Registry.{Node, find, lookup_or_make, assign_at, load_from_yaml}

-- The types of variables, and what is done with their values: `==`, and FromStr and ToStr, which are `none` when they
-- throw.
pub record Types : Type 1 where
  pub Name : Type 0
  pub Val : Name → Type 0
  pub decide : (k j : Name) → Dec (k ≡ j)
  pub same : (k : Name) → Val k → Val k → Bool
  pub from : (k : Name) → Text → Option (Val k)
  pub to : (k : Name) → Val k → Option Text

-- ConfigVar::toString, and `<<`.
abbrev text_or_empty : Option Text → Text
text_or_empty none = []
text_or_empty (some s) = s

unfoldable pub to_string : {A C : Type 0} → (A → Option Text) → ConfigVar A C → Text
to_string to v = text_or_empty (to v.val)

-- What Visit does with each variable: the callback may change it, and what else it changes.
unfoldable pub visit : {V S : Type 0} → (V → S → V × S) → List (Text × V) → S → List (Text × V) × S
visit cb [] s = ([], s)
visit cb ((name, v) ∷ datas) s =
    let (w, s1) = cb v s in let (rest, s2) = visit cb datas s1 in ((name, w) ∷ rest, s2)

module _ (types : Types) (C : Type 0) where
  -- What a ConfigVarBase::ptr points to.
  pub record Variable : Type 0 where
    pub kind : types.Name
    pub var : ConfigVar (types.Val kind) C

  abbrev pub Datas : Type 0
  Datas = List (Text × Variable)

  -- `dynamic_pointer_cast<ConfigVar<T>>` gives a pointer.
  unfoldable pub is_kind : types.Name → Variable → Bool
  is_kind k v = elim (types.decide k v.kind) [ yes e ↦ true | no n ↦ false ]

  -- `elem` of Lookup.
  abbrev pub new_elem : (k : types.Name) → Text → types.Val k → Text → Variable
  new_elem k name value description = record { kind = k; var = new_var name value description }

  -- A method of a ConfigVar<T>, called where the variable has this type.
  abbrev pub at_decided :
      (k : types.Name)
      → (ConfigVar (types.Val k) C → ConfigVar (types.Val k) C)
      → (v : Variable) → Dec (k ≡ v.kind)
      → Variable
  at_decided k f v (yes e) = record {
    kind = v.kind;
    var = subst (λ j. ConfigVar (types.Val j) C → ConfigVar (types.Val j) C) e f v.var;
  }
  at_decided k f v (no n) = v

  unfoldable pub at_kind :
      (k : types.Name)
      → (ConfigVar (types.Val k) C → ConfigVar (types.Val k) C)
      → Variable
      → Variable
  at_kind k f v = at_decided k f v (types.decide k v.kind)

  -- The virtual fromString, of whatever type the variable is.
  unfoldable pub from_string : Text → Variable → Variable
  from_string s v = record {
    kind = v.kind;
    var = (var_from_string (types.same v.kind) (types.from v.kind) s v.var).2;
  }

  -- What a program does with the registry: the two Lookups, the second followed by a call through the pointer that
  -- it gives, and LoadFromYaml.
  pub data Op : Type 0 where
    look : (k : types.Name) → Text → types.Val k → Text → Op
    set_val : (k : types.Name) → Text → types.Val k → Op
    listen : (k : types.Name) → Text → C → Op
    clear : types.Name → Text → Op
    load : Node → Op

  -- The registry after a Lookup; one that throws leaves it.
  abbrev pub after_look : Datas → Result (Variable × Datas) → Datas
  after_look datas (ok (v, after)) = after
  after_look datas _ = datas

  -- The variable of a name, changed.
  abbrev pub update : (Variable → Variable) → Text → Datas → Datas
  update f name datas = assign_at (λ n. []) (λ s v. f v) name [] datas

  -- `render` is the stream output of a node.
  unfoldable pub perform : (Node → Text) → Op → Datas → Datas
  perform render (look k name value description) datas =
      after_look datas (lookup_or_make (is_kind k) name (new_elem k name value description) datas)
  perform render (set_val k name b) datas =
      update (at_kind k (λ v. (set_value (types.same k) (types.from k) b v).1)) name datas
  perform render (listen k name cb) datas =
      update (at_kind k (λ v. (add_listener cb v).1)) name datas
  perform render (clear k name) datas = update (at_kind k clear_listener) name datas
  perform render (load root) datas = load_from_yaml render from_string root datas

  unfoldable pub perform_all : (Node → Text) → List Op → Datas → Datas
  perform_all render [] datas = datas
  perform_all render (o ∷ os) datas = perform_all render os (perform render o datas)
