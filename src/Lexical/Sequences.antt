-- ===== src/Lexical/Sequences.antt =====
-- ddg/lexicalcast.h: sequences to text and back.
use high_performance_server.Prelude.{
  ℕ, zero, suc, ◌+◌, List, [], ◌∷◌, ◌++◌, Text, length, Result, ok, fail, ◌>>=◌, ◌≡◌, refl, sym, ap,
  ◌∙◌,
}
use mathlib.Core.List.{append-nil, append_assoc}
use high_performance_server.Lexical.{
  Yaml, Cast, write_elements, sequence_to_string, read_elements, sequence_from_string,
  vector_to_string, vector_from_string, list_to_string, list_from_string,
}
use high_performance_server.Lexical.Laws.{Emits, pushed, HasElements, YamlLaws, Becomes, IsFaithful}

-- The elements of a container that is filled in the order of a sequence.
abbrev pub add_all : {T C : Type 0} → (T → C → C) → List T → C → C
add_all add [] acc = acc
add_all add (x ∷ xs) acc = add_all add xs (add x acc)

add_all_append : {T : Type 0} (xs acc : List T) → add_all (λ x v. v ++ x ∷ []) xs acc ≡ acc ++ xs
add_all_append [] acc = sym (append-nil acc)
add_all_append (x ∷ xs) acc = add_all_append xs (acc ++ x ∷ []) ∙ append_assoc acc (x ∷ []) xs

module _ (y : Yaml) (Same : Text → Text → Type 0) (laws : YamlLaws y Same) {T : Type 0}
    (c : Cast T) where
  abbrev Reads : List Text → List T → Type 0
  Reads [] [] = Unit
  Reads (t ∷ ts) (x ∷ xs) = ((u : Text) → Same t u → c.from u ≡ ok x) × Reads ts xs
  Reads _ _ = ⊥

  write_elements_lem :
      IsFaithful y Same c
      → (xs : List T) (node : y.Node)
      → (ns : List y.Node) × (ts : List Text) × (write_elements y c xs node ≡ ok (pushed y ns node))
        × Emits y ns ts
        × Reads ts xs
  unfolding write_elements
  write_elements_lem h [] node = ([], [], refl, tt, tt)
  write_elements_lem h (x ∷ xs) node =
      let (t, e, (n, l), r) = h x in
      let (u, k, s) = laws.reload t n l in
      let (ns, ts, w, m, d) = write_elements_lem h xs (y.push_back node n) in
      (n ∷ ns, u ∷ ts, rw (e, l) w, (k, m), (λ v p. r v (laws.same_trans t u v s p), d))

  read_elements_lem :
      {C : Type 0} (add : T → C → C) (ts : List Text) (xs : List T) (i : ℕ) (node : y.Node)
      (acc : C)
      → Reads ts xs
      → HasElements y Same node i ts
      → read_elements y c add (length ts) i node acc ≡ ok (add_all add xs acc)
  unfolding read_elements
  read_elements_lem add [] [] i node acc r h = refl
  read_elements_lem add (t ∷ ts) (x ∷ xs) i node acc (r, rs) ((u, e, s), h) =
      rw (e, r u s) (read_elements_lem add ts xs (i + 1) node (add x acc) rs h)
  read_elements_lem add [] (x ∷ xs) i node acc r h = elim r [ ]
  read_elements_lem add (t ∷ ts) [] i node acc r h = elim r [ ]

  pub sequence-Becomes :
      {C : Type 0} (add : T → C → C) (empty : C)
      → IsFaithful y Same c
      → (xs : List T)
      → Becomes y Same
          (sequence_to_string y c)
          (sequence_from_string y c add empty)
          xs
          (add_all add xs empty)
  unfolding sequence_to_string sequence_from_string
  sequence-Becomes add empty h xs =
      let (ns, ts, w, m, d) = write_elements_lem h xs y.sequence in
      let (t, e, f) = laws.reload_sequence ns ts m in
      let (n, l, _, _) = f t (laws.same_refl t) in
      (
        t,
        rw w e,
        (n, l),
        λ u s. let (n, l, z, b) = f u s in rw (l, z) (read_elements_lem add ts xs 0 n empty d b),
      )

  -- Where yaml-cpp prints what it has loaded, or what is built of that, as the same document, and each
  -- element comes back from its text, a std::vector and a std::list are written as texts from which they
  -- come back: the same elements, in the same order, from each text of the same document.
  pub vector-Becomes :
      IsFaithful y Same c
      → (xs : List T)
      → Becomes y Same (vector_to_string y c) (vector_from_string y c) xs xs
        × Becomes y Same (list_to_string y c) (list_from_string y c) xs xs
  unfolding vector_to_string vector_from_string list_to_string list_from_string
  vector-Becomes h xs =
      let (t, e, n, f) = sequence-Becomes (λ x v. v ++ x ∷ []) [] h xs in
      let b : Becomes y Same (sequence_to_string y c) (vector_from_string y c) xs xs =
        (t, e, n, λ u s. f u s ∙ ap ok (add_all_append xs [])) in
      (b, b)

add_all-append :
    {T C : Type 0} (add : T → C → C) (xs : List T) (x : T) (acc : C)
    → add_all add (xs ++ x ∷ []) acc ≡ add x (add_all add xs acc)
add_all-append add [] x acc = refl
add_all-append add (z ∷ xs) x acc = add_all-append add xs x (add z acc)

bind_same :
    {A B D : Type 0} (r : Result A) (f : A → Result D) (g : A → Result B) (h : B → Result D)
    → ((a : A) → f a ≡ g a >>= h)
    → r >>= f ≡ r >>= g >>= h
bind_same (fail e) f g h k = refl
bind_same (ok a) f g h k = k a

module _ (y : Yaml) {T C : Type 0} (c : Cast T) (add : T → C → C) where
  read_elements-add_all :
      (rounds i : ℕ) (node : y.Node) (v : List T) (acc : C)
      → read_elements y c add rounds i node (add_all add v acc)
        ≡ read_elements y c (λ x v. v ++ x ∷ []) rounds i node v >>= λ v. ok (add_all add v acc)
  unfolding read_elements
  read_elements-add_all zero i node v acc = refl
  read_elements-add_all (suc rounds) i node v acc = bind_same (y.emit (y.at i node)) _ _ _ (λ t.
      bind_same (c.from t) _ _ _ (λ x.
        ap (read_elements y c add rounds (i + 1) node) (sym (add_all-append add v x acc))
        ∙ read_elements-add_all rounds (i + 1) node (v ++ x ∷ []) acc))

  pub sequence_from_string-vector :
      (empty : C) (t : Text)
      → sequence_from_string y c add empty t
        ≡ vector_from_string y c t >>= λ v. ok (add_all add v empty)
  unfolding sequence_from_string vector_from_string
  sequence_from_string-vector empty t =
      bind_same (y.load t) _ _ _ (λ node. read_elements-add_all (y.size node) 0 node [] empty)
