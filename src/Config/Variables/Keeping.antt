-- ===== src/Config/Variables/Keeping.antt =====
-- What an operation does with the variable of a name.
use high_performance_server.Prelude.{
  ◌+◌, Bool, true, false, not, ◌&&◌, List, [], ◌∷◌, Option, none, some, Text, same, same_iff, fail,
  thrown, ◌≡◌, refl, sym, ap, ◌∙◌, subst, Bool-cases, Option-cases, inl, inr, ◌⊎◌, is_empty,
}
use mathlib.Core.Path.{subst_refl, path_j}
use high_performance_server.Config.Vars.{
  ConfigVar, lower, make as new_var, set_value, from_string as var_from_string, search_free,
  add_listener, clear_listener,
}
use high_performance_server.Config.Registry.{
  is_valid, Node, list_all_member, find, insert, register, lookup_or_make, text_of,
}
use high_performance_server.Config.Listing.{is_valid-lower}
use high_performance_server.Config.Loading.{
  find-insert_new, find-insert_other, register_valid, lookup_missing, lookup_mismatch,
  lookup_or_make_found, lookup_or_make_mismatch, mapped, mapped-same, find-assign_at_self,
  find-assign_at_other, assigned, assigned_by, load_from_yaml_lem,
}
use high_performance_server.Config.Variables.{
  Types, Variable, Datas, is_kind, new_elem, at_decided, at_kind, from_string, Op, look, set_val,
  listen, clear, load, after_look, update, perform,
}

module _ {A C : Type 0} (same : A → A → Bool) (from : Text → Option A) where
  set_value-name : (b : A) (v : ConfigVar A C) → (set_value same from b v).1.name ≡ v.name
  unfolding set_value
  set_value-name b v = elim (Bool-cases (same v.val b)) [ inl e ↦ rw e refl | inr e ↦ rw e refl ]

  from_string-name :
      (s : Text) (v : ConfigVar A C) → (var_from_string same from s v).2.name ≡ v.name
  unfolding var_from_string
  from_string-name s v = elim (Option-cases (from s)) [
    | inl e ↦ rw e refl
    | inr (b, e) ↦ rw e (set_value-name b v)
  ]

add_listener-name :
    {A C : Type 0} (cb : C) (v : ConfigVar A C) → (add_listener cb v).1.name ≡ v.name
unfolding add_listener
add_listener-name cb v = elim (Option-cases (search_free (v.func_id + 1) 0 v.cbs)) [
  | inl e ↦ rw e refl
  | inr (i, e) ↦ rw e refl
]

clear_listener-name : {A C : Type 0} (v : ConfigVar A C) → (clear_listener v).name ≡ v.name
unfolding clear_listener
clear_listener-name v = refl

register_invalid :
    {V : Type 0} (name : Text) (elem : V) (datas : List (Text × V))
    → is_valid name ≡ false
    → register name elem datas ≡ fail thrown
unfolding register
register_invalid name elem datas h = rw h refl

module _ (types : Types) (C : Type 0) where
  -- The type and the name of a variable are those of another.
  abbrev pub Kept : Variable types C → Variable types C → Type 0
  Kept v w = (w.kind ≡ v.kind) × (w.var.name ≡ v.var.name)

  abbrev pub Keeper : (Variable types C → Variable types C) → Type 0
  Keeper f = (v : Variable types C) → Kept v (f v)

  abbrev Method : types.Name → Type 0
  Method j = ConfigVar (types.Val j) C → ConfigVar (types.Val j) C

  Method-name :
      (k j : types.Name) (e : k ≡ j) (f : Method k)
      → ((x : ConfigVar (types.Val k) C) → (f x).name ≡ x.name)
      → (x : ConfigVar (types.Val j) C) → (subst Method e f x).name ≡ x.name
  Method-name k j e f h =
      path_j (λ j e. (x : ConfigVar (types.Val j) C) → (subst Method e f x).name ≡ x.name)
        (λ x. ap (λ (g : Method k). (g x).name) (subst_refl Method f) ∙ h x) e

  at_decided-Kept :
      (k : types.Name) (f : Method k) (v : Variable types C)
      → ((x : ConfigVar (types.Val k) C) → (f x).name ≡ x.name)
      → (d : Dec (k ≡ v.kind)) → Kept v (at_decided types C k f v d)
  at_decided-Kept k f v h (yes e) = (refl, Method-name k v.kind e f h v.var)
  at_decided-Kept k f v h (no n) = (refl, refl)

  at_kind-Keeper :
      (k : types.Name) (f : Method k)
      → ((x : ConfigVar (types.Val k) C) → (f x).name ≡ x.name)
      → Keeper (at_kind types C k f)
  unfolding at_kind
  at_kind-Keeper k f h v = at_decided-Kept k f v h (types.decide k v.kind)

  from_string-Keeper : (s : Text) → Keeper (from_string types C s)
  unfolding from_string
  from_string-Keeper s v = (refl, from_string-name (types.same v.kind) (types.from v.kind) s v.var)

  -- What a name is after an operation: what it was, with its type and name kept, or what a Lookup has made.
  abbrev pub Changed : Text → Option (Variable types C) → Option (Variable types C) → Type 0
  Changed name before after =
      ((f : Variable types C → Variable types C) × (after ≡ mapped f before) × Keeper f)
      ⊎ ((v : Variable types C) × (before ≡ none)
          × (after ≡ some v)
          × (is_valid name ≡ true)
          × (v.var.name ≡ name))

  unchanged :
      (name : Text) (before after : Option (Variable types C))
      → after ≡ before
      → Changed name before after
  unchanged name before after e =
      inl (λ v. v, e ∙ sym (mapped-same (λ v. v) before (λ v. refl)), λ v. (refl, refl))

  update-Changed :
      (f : Variable types C → Variable types C) (n name : Text) (datas : Datas types C)
      → Keeper f
      → Changed name (find name datas) (find name (update types C f n datas))
  update-Changed f n name datas h = elim (Bool-cases (same n name)) [
    | inl e ↦ inl (
      f,
      subst (λ (m : Text). find m (update types C f n datas) ≡ mapped f (find m datas))
          ((same_iff n name).0 e) (find-assign_at_self (λ n. []) (λ s v. f v) n [] datas),
      h,
    )
    | inr e ↦
        unchanged name (find name datas) (find name (update types C f n datas))
          (find-assign_at_other (λ n. []) (λ s v. f v) n name [] datas e)
  ]

  assigned-Keeper :
      (render : Node → Text) (name : Text) (nodes : List (Text × Node))
      → Keeper (assigned render (from_string types C) name nodes)
  assigned-Keeper render name [] v = (refl, refl)
  assigned-Keeper render name ((key, node) ∷ rest) v =
      let by = assigned_by render (from_string types C) name (key, node) v in
      let (k, n) = assigned-Keeper render name rest by in
      let (k1, n1) : Kept v by = elim (Bool-cases (not (is_empty key) && same (lower key) name)) [
        | inl e ↦ rw e (from_string-Keeper (text_of render (from_string types C) node) v)
        | inr e ↦ rw e (refl, refl)
      ] in
      (k ∙ k1, n ∙ n1)

  -- A Lookup with a default leaves the registry, or registers under a new, valid name.
  look_cases :
      (cast : Variable types C → Bool) (n : Text) (elem : Variable types C) (datas : Datas types C)
      → (after_look types C datas (lookup_or_make cast n elem datas) ≡ datas)
        ⊎ ((find n datas ≡ none)
            × (is_valid n ≡ true)
            × (after_look types C datas (lookup_or_make cast n elem datas) ≡ insert n elem datas))
  look_cases cast n elem datas =
      let after = after_look types C datas in
      elim (Option-cases (find n datas)) [
        | inl e ↦ elim (Bool-cases (is_valid n)) [
          | inl h ↦
              inr (
                e,
                h,
                ap after (lookup_missing cast n elem datas e ∙ register_valid n elem datas h),
              )
          | inr h ↦
              inl (ap after (lookup_missing cast n elem datas e ∙ register_invalid n elem datas h))
        ]
        | inr (v, e) ↦ elim (Bool-cases (cast v)) [
          | inl c ↦ inl (ap after (lookup_or_make_found cast n elem v datas e c))
          | inr c ↦ elim (Bool-cases (is_valid n)) [
            | inl h ↦ inl (ap after (lookup_or_make_mismatch cast n elem v datas e c h))
            | inr h ↦ inl (
                ap after
                  (lookup_mismatch cast n elem v datas e c ∙ register_invalid n elem datas h))
          ]
        ]
      ]

  new_elem-name :
      (k : types.Name) (n : Text) (value : types.Val k) (description : Text)
      → is_valid n ≡ true
      → (new_elem types C k n value description).var.name ≡ n
  unfolding new_var
  new_elem-name k n value description h = is_valid-lower n h

  look-Changed :
      (k : types.Name) (n : Text) (value : types.Val k) (description : Text) (name : Text)
      (datas : Datas types C)
      → Changed name (find name datas) (
          find name (
            after_look types C datas (
              lookup_or_make (is_kind types C k) n (new_elem types C k n value description) datas)))
  look-Changed k n value description name datas =
      let elem = new_elem types C k n value description in
      let after = after_look types C datas (lookup_or_make (is_kind types C k) n elem datas) in
      elim (look_cases (is_kind types C k) n elem datas) [
        | inl e ↦ unchanged name (find name datas) (find name after) (ap (find name) e)
        | inr (e, h, r) ↦ elim (Bool-cases (same n name)) [
          | inl q ↦
              let p : n ≡ name = (same_iff n name).0 q in
              inr (
                elem,
                subst (λ (m : Text). find m datas ≡ none) p e,
                ap (find name) r
                    ∙ subst (λ (m : Text). find m (insert n elem datas) ≡ some elem) p
                        (find-insert_new n elem datas e),
                subst (λ (m : Text). is_valid m ≡ true) p h,
                new_elem-name k n value description h ∙ p,
              )
          | inr q ↦
              unchanged name (find name datas) (find name after)
                (ap (find name) r ∙ find-insert_other n name elem datas q)
        ]
      ]

  pub perform-Changed :
      (render : Node → Text) (o : Op types C) (datas : Datas types C) (name : Text)
      → Changed name (find name datas) (find name (perform types C render o datas))
  unfolding perform
  perform-Changed render (look k n value description) datas name =
      look-Changed k n value description name datas
  perform-Changed render (set_val k n b) datas name =
      update-Changed _ n name datas
        (at_kind-Keeper k _ (set_value-name (types.same k) (types.from k) b))
  perform-Changed render (listen k n cb) datas name =
      update-Changed _ n name datas (at_kind-Keeper k _ (add_listener-name cb))
  perform-Changed render (clear k n) datas name =
      update-Changed _ n name datas (at_kind-Keeper k _ clear_listener-name)
  perform-Changed render (load root) datas name = inl (
    assigned render (from_string types C) name (list_all_member [] root),
    load_from_yaml_lem render (from_string types C) root datas name,
    assigned-Keeper render name (list_all_member [] root),
  )
