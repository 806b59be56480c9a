-- ===== src/Config/Loading.antt =====
-- What Lookup registers, and what LoadFromYaml assigns.
use high_performance_server.Prelude.{
  Bool, true, false, not, ◌&&◌, List, [], ◌∷◌, Option, none, some, Text, same, same_iff,
  if◌then◌else◌, ok, ◌≡◌, refl, ap, ◌∙◌, sym, Bool-cases, Option-cases, inl, inr, is_empty, subst,
}
use high_performance_server.Config.Vars.{lower}
use high_performance_server.Config.Registry.{
  is_valid, Node, list_all_member, find, insert, register, lookup, lookup_or_make, text_of,
  assign_at, load_node, load_all, load_from_yaml,
}

module _ {V : Type 0} where
  pub find-insert_new :
      (name : Text) (v : V) (datas : List (Text × V))
      → find name datas ≡ none
      → find name (insert name v datas) ≡ some v
  find-insert_new name v datas e = rw (e, (same_iff name name).1 refl) refl

  pub find-insert_old :
      (name : Text) (v old : V) (datas : List (Text × V))
      → find name datas ≡ some old
      → insert name v datas ≡ datas
  find-insert_old name v old datas e = rw e refl

  pub find-insert_other :
      (name other : Text) (v : V) (datas : List (Text × V))
      → same name other ≡ false
      → find other (insert name v datas) ≡ find other datas
  find-insert_other name other v datas h = elim (Option-cases (find name datas)) [
    | inl e ↦ rw (e, h) refl
    | inr (old, e) ↦ rw e refl
  ]

  pub register_valid :
      (name : Text) (elem : V) (datas : List (Text × V))
      → is_valid name ≡ true
      → register name elem datas ≡ ok (elem, insert name elem datas)
  unfolding register
  register_valid name elem datas h = rw h refl

  pub lookup_missing :
      (cast : V → Bool) (name : Text) (elem : V) (datas : List (Text × V))
      → find name datas ≡ none
      → lookup_or_make cast name elem datas ≡ register name elem datas
  unfolding lookup_or_make
  lookup_missing cast name elem datas e = rw e refl

  pub lookup_mismatch :
      (cast : V → Bool) (name : Text) (elem v : V) (datas : List (Text × V))
      → find name datas ≡ some v
      → cast v ≡ false
      → lookup_or_make cast name elem datas ≡ register name elem datas
  unfolding lookup_or_make
  lookup_mismatch cast name elem v datas e c = rw (e, c) refl

  pub lookup_or_make_found :
      (cast : V → Bool) (name : Text) (elem v : V) (datas : List (Text × V))
      → find name datas ≡ some v
      → cast v ≡ true
      → lookup_or_make cast name elem datas ≡ ok (v, datas)
  unfolding lookup_or_make
  lookup_or_make_found cast name elem v datas e c = rw (e, c) refl

  pub lookup_found_cast :
      (cast : V → Bool) (name : Text) (v : V) (datas : List (Text × V))
      → find name datas ≡ some v
      → cast v ≡ true
      → lookup cast name datas ≡ some v
  unfolding lookup
  lookup_found_cast cast name v datas e c = rw (e, c) refl

  -- Lookup with a default of a name that is new and valid registers the variable that it makes: it
  -- gives this variable, which has the type of the Lookup, and so does every later Lookup of the name,
  -- with whatever default or without one; no other name is touched.
  pub lookup_or_make_new :
      (cast : V → Bool) (name : Text) (elem : V) (datas : List (Text × V))
      → find name datas ≡ none
      → is_valid name ≡ true
      → cast elem ≡ true
      → (after : List (Text × V)) × (lookup_or_make cast name elem datas ≡ ok (elem, after))
        × ((default : V) → lookup_or_make cast name default after ≡ ok (elem, after))
        × (lookup cast name after ≡ some elem)
        × ((other : Text) → same name other ≡ false → find other after ≡ find other datas)
  lookup_or_make_new cast name elem datas e h c =
      let after = insert name elem datas in
      let f = find-insert_new name elem datas e in
      (
        after,
        lookup_missing cast name elem datas e ∙ register_valid name elem datas h,
        λ default. lookup_or_make_found cast name default elem after f c,
        lookup_found_cast cast name elem after f c,
        λ other n. find-insert_other name other elem datas n,
      )

  -- Lookup with a default of a valid name whose variable has another type gives the new variable
  -- and does not register it.
  pub lookup_or_make_mismatch :
      (cast : V → Bool) (name : Text) (elem v : V) (datas : List (Text × V))
      → find name datas ≡ some v
      → cast v ≡ false
      → is_valid name ≡ true
      → lookup_or_make cast name elem datas ≡ ok (elem, datas)
  lookup_or_make_mismatch cast name elem v datas e c h =
      lookup_mismatch cast name elem v datas e c
      ∙ register_valid name elem datas h
      ∙ ap (λ d. ok (elem, d)) (find-insert_old name elem v datas e)

  -- A variable after what is done to it, if there is one.
  abbrev pub mapped : (V → V) → Option V → Option V
  mapped f none = none
  mapped f (some v) = some (f v)

  pub mapped-same : (f : V → V) (o : Option V) → ((v : V) → f v ≡ v) → mapped f o ≡ o
  mapped-same f none h = refl
  mapped-same f (some v) h = ap some (h v)

  mapped-ext : (f g : V → V) (o : Option V) → ((v : V) → f v ≡ g v) → mapped f o ≡ mapped g o
  mapped-ext f g none h = refl
  mapped-ext f g (some v) h = ap some (h v)

  mapped-mapped : (f g : V → V) (o : Option V) → mapped f (mapped g o) ≡ mapped (λ v. f (g v)) o
  mapped-mapped f g none = refl
  mapped-mapped f g (some v) = refl

module _ {V : Type 0} (render : Node → Text) (assign : Text → V → V) where
  pub find-assign_at_self :
      (name s : Text) (datas : List (Text × V))
      → find name (assign_at render assign name s datas) ≡ mapped (assign s) (find name datas)
  find-assign_at_self name s [] = refl
  find-assign_at_self name s ((key, v) ∷ rest) = elim (Bool-cases (same key name)) [
    | inl e ↦ rw e (rw e refl)
    | inr e ↦ rw e (rw e (find-assign_at_self name s rest))
  ]

  pub find-assign_at_other :
      (name other s : Text) (datas : List (Text × V))
      → same name other ≡ false
      → find other (assign_at render assign name s datas) ≡ find other datas
  find-assign_at_other name other s [] h = refl
  find-assign_at_other name other s ((key, v) ∷ rest) h = elim (Bool-cases (same key name)) [
    | inl e ↦
        let c = subst (λ k. same k other ≡ false) (sym ((same_iff key name).0 e)) h in
        rw (e, c) refl
    | inr e ↦ elim (Bool-cases (same key other)) [
      | inl c ↦ rw (e, c) refl
      | inr c ↦ rw (e, c) (find-assign_at_other name other s rest h)
    ]
  ]

  -- A node whose key, in lower case, is the name assigns its text.
  abbrev pub assigned_by : Text → Text × Node → V → V
  assigned_by name (key, node) v =
      if not (is_empty key) && same (lower key) name
      then assign (text_of render assign node) v
      else v

  abbrev pub assigned : Text → List (Text × Node) → V → V
  assigned name [] v = v
  assigned name (i ∷ rest) v = assigned name rest (assigned_by name i v)

  find-load_node :
      (key : Text) (node : Node) (datas : List (Text × V)) (name : Text)
      → find name (load_node render assign (key, node) datas)
        ≡ mapped (assigned_by name (key, node)) (find name datas)
  find-load_node key node datas name =
      let s = text_of render assign node in
      let by = assigned_by name (key, node) in
      elim (Bool-cases (is_empty key)) [
        | inl e ↦ rw e (sym (mapped-same by (find name datas) (λ v. rw e refl)))
        | inr e ↦ elim (Bool-cases (same (lower key) name)) [
          | inl c ↦
              rw e (
                subst
                  (λ (n : Text).
                    find n (assign_at render assign (lower key) s datas)
                    ≡ mapped (assign s) (find n datas))
                  ((same_iff (lower key) name).0 c) (find-assign_at_self (lower key) s datas))
              ∙ mapped-ext (assign s) by (find name datas) (λ v. rw (e, c) refl)
          | inr c ↦
              rw e (find-assign_at_other (lower key) name s datas c)
              ∙ sym (mapped-same by (find name datas) (λ v. rw (e, c) refl))
        ]
      ]

  load_all_lem :
      (nodes : List (Text × Node)) (datas : List (Text × V)) (name : Text)
      → find name (load_all render assign nodes datas)
        ≡ mapped (assigned name nodes) (find name datas)
  load_all_lem [] datas name = sym (mapped-same _ (find name datas) (λ v. refl))
  load_all_lem ((key, node) ∷ rest) datas name =
      load_all_lem rest (load_node render assign (key, node) datas) name
      ∙ ap (mapped (assigned name rest)) (find-load_node key node datas name)
      ∙ mapped-mapped (assigned name rest) (assigned_by name (key, node)) (find name datas)

  -- LoadFromYaml assigns to the variable of each name the texts of the listed nodes whose keys are
  -- the name in lower case, in their order, and nothing else: it makes no variable.
  pub load_from_yaml_lem :
      (root : Node) (datas : List (Text × V)) (name : Text)
      → find name (load_from_yaml render assign root datas)
        ≡ mapped (assigned name (list_all_member [] root)) (find name datas)
  unfolding load_from_yaml
  load_from_yaml_lem root datas name = load_all_lem (list_all_member [] root) datas name
