-- ===== src/Config/Variables/Typed.antt =====
-- What stays of a variable whatever is done with the registry: its type and its name.
use high_performance_server.Prelude.{
  Bool, true, false, List, [], ◌∷◌, none, some, Text, ok, if◌then◌else◌, ◌≡◌, refl, sym, ap, ◌∙◌,
  Bool-cases, Option-cases, inl, inr,
}
use high_performance_server.Config.Registry.{is_valid, Node, find, lookup, lookup_or_make}
use high_performance_server.Config.Loading.{lookup_or_make_found, lookup_or_make_mismatch, mapped}
use high_performance_server.Config.Variables.{
  Types, Variable, Datas, is_kind, Op, perform, perform_all,
}
use high_performance_server.Config.Variables.Keeping.{Kept, perform-Changed}

module _ (types : Types) (C : Type 0) where
  perform_all-Kept :
      (render : Node → Text) (os : List (Op types C)) (datas : Datas types C) (name : Text)
      (v : Variable types C)
      → find name datas ≡ some v
      → (w : Variable types C) × (find name (perform_all types C render os datas) ≡ some w)
        × Kept types C v w
  unfolding perform_all
  perform_all-Kept render [] datas name v e = (v, e, (refl, refl))
  perform_all-Kept render (o ∷ os) datas name v e =
      elim (perform-Changed types C render o datas name) [
        | inl (f, r, h) ↦
            let (w, q, (k, n)) =
              perform_all-Kept render os (perform types C render o datas) name (f v)
                (r ∙ ap (mapped f) e) in
            (w, q, (k ∙ (h v).0, n ∙ (h v).1))
        | inr (w, b, _, _, _) ↦ cc
      ]

  is_kind-Kept :
      (k : types.Name) (v w : Variable types C)
      → w.kind ≡ v.kind
      → is_kind types C k w ≡ is_kind types C k v
  unfolding is_kind
  is_kind-Kept k v w e = ap (λ j. elim (types.decide k j) [ yes e ↦ true | no n ↦ false ]) e

  lookup-some :
      (cast : Variable types C → Bool) (name : Text) (v : Variable types C) (datas : Datas types C)
      → find name datas ≡ some v
      → lookup cast name datas ≡ (if cast v then some v else none)
  unfolding lookup
  lookup-some cast name v datas e = rw e refl

  lookup_or_make-some :
      (cast : Variable types C → Bool) (name : Text) (elem v : Variable types C)
      (datas : Datas types C)
      → find name datas ≡ some v
      → is_valid name ≡ true
      → lookup_or_make cast name elem datas ≡ ok (if cast v then v else elem, datas)
  lookup_or_make-some cast name elem v datas e h = elim (Bool-cases (cast v)) [
    | inl c ↦ lookup_or_make_found cast name elem v datas e c ∙ rw c refl
    | inr c ↦ lookup_or_make_mismatch cast name elem v datas e c h ∙ rw c refl
  ]

  -- A name that is registered keeps the type of its variable, whatever Lookups, assignments, listeners and documents
  -- follow: then a Lookup gives the variable exactly where it asks for this type, and otherwise no variable
  -- or, with a default, the new one, which it does not register.
  pub perform_all-typed :
      (render : Node → Text) (os : List (Op types C)) (datas : Datas types C) (name : Text)
      (v : Variable types C) (k : types.Name) (elem : Variable types C)
      → find name datas ≡ some v
      → is_valid name ≡ true
      → (w : Variable types C) × (find name (perform_all types C render os datas) ≡ some w)
        × (w.kind ≡ v.kind)
        × (lookup (is_kind types C k) name (perform_all types C render os datas)
            ≡ (if is_kind types C k v then some w else none))
        × (lookup_or_make (is_kind types C k) name elem (perform_all types C render os datas)
            ≡ ok (if is_kind types C k v then w else elem, perform_all types C render os datas))
  perform_all-typed render os datas name v k elem e h =
      let (w, q, (p, n)) = perform_all-Kept render os datas name v e in
      let after = perform_all types C render os datas in
      let same = is_kind-Kept k v w p in
      (
        w,
        q,
        p,
        lookup-some (is_kind types C k) name w after q ∙ ap (λ b. if b then some w else none) same,
        lookup_or_make-some (is_kind types C k) name elem w after q h
            ∙ ap (λ b. ok (if b then w else elem, after)) same,
      )

  abbrev Named : Datas types C → Type 0
  Named datas =
      (name : Text) (v : Variable types C)
      → find name datas ≡ some v
      → (v.var.name ≡ name) × (is_valid name ≡ true)

  perform-Named :
      (render : Node → Text) (o : Op types C) (datas : Datas types C)
      → Named datas
      → Named (perform types C render o datas)
  perform-Named render o datas h name w e = elim (perform-Changed types C render o datas name) [
    | inl (f, r, k) ↦ elim (Option-cases (find name datas)) [
      | inl b ↦ let x = sym e ∙ r ∙ ap (mapped f) b in cc
      | inr (v, b) ↦
          let (n, y) = h name v b in
          let z : w ≡ f v = (let x = sym e ∙ r ∙ ap (mapped f) b in cc) in
          (ap (λ (x : Variable types C). x.var.name) z ∙ (k v).1 ∙ n, y)
    ]
    | inr (v, b, a, y, n) ↦
        let z : w ≡ v = (let x = sym e ∙ a in cc) in
        (ap (λ (x : Variable types C). x.var.name) z ∙ n, y)
  ]

  perform_all-Named :
      (render : Node → Text) (os : List (Op types C)) (datas : Datas types C)
      → Named datas
      → Named (perform_all types C render os datas)
  unfolding perform_all
  perform_all-Named render [] datas h = h
  perform_all-Named render (o ∷ os) datas h =
      perform_all-Named render os (perform types C render o datas) (perform-Named render o datas h)

  -- Every variable that operations on an empty registry have registered has the name under which it is found, which
  -- consists of valid characters.
  pub perform_all-names :
      (render : Node → Text) (os : List (Op types C)) (name : Text) (v : Variable types C)
      → find name (perform_all types C render os []) ≡ some v
      → (v.var.name ≡ name) × (is_valid name ≡ true)
  perform_all-names render os name v e = perform_all-Named render os [] (λ n w x. cc) name v e
