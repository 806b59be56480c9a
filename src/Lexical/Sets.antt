-- ===== src/Lexical/Sets.antt =====
-- ddg/lexicalcast.h: std::set and std::unordered_set to text and back.
use high_performance_server.Prelude.{
  Bool, true, false, List, [], ◌∷◌, ◌++◌, Text, ok, ◌>>=◌, >>=-eq-ok, ok_injective, ◌≡◌, refl, sym,
  ap, ◌∙◌, subst, All, Bool-cases, inl, inr,
}
use mathlib.Core.List.{append-nil, append_assoc}
use high_performance_server.Lexical.{
  Yaml, Cast, vector_from_string, set_insert, set_to_string, set_from_string, hash_insert,
  list_from_string, unordered_set_from_string,
}
use high_performance_server.Lexical.Laws.{YamlLaws, Becomes, IsFaithful}
use high_performance_server.Lexical.Sequences.{
  add_all, sequence-Becomes, sequence_from_string-vector,
}

module _ {T : Type 0} (less : T → T → Bool) where
  abbrev pub Before : T → T → Type 0
  Before a b = (less a b ≡ true) × (less b a ≡ false)

  -- Each element stands before all that follow it.
  abbrev pub IsSorted : List T → Type 0
  IsSorted [] = Unit
  IsSorted (x ∷ xs) = All (Before x) xs × IsSorted xs

  -- What std::set wants of its comparison, as far as it is used.
  abbrev pub IsOrder : Type 0
  IsOrder =
      ((a b : T) → less a b ≡ true → less b a ≡ false)
      × ((a b c : T) → less a b ≡ true → less b c ≡ true → less a c ≡ true)

  All-Before :
      (order : IsOrder) (a b : T) (xs : List T)
      → less a b ≡ true
      → All (Before b) xs
      → All (Before a) xs
  All-Before order a b [] e h = tt
  All-Before order a b (x ∷ xs) e ((k, _), h) =
      let l = order.1 a b x e k in ((l, order.0 a x l), All-Before order a b xs e h)

  set_insert-All :
      (a x : T) (st : List T)
      → Before a x
      → All (Before a) st
      → All (Before a) (set_insert less x st)
  unfolding set_insert
  set_insert-All a x [] b h = (b, tt)
  set_insert-All a x (e ∷ st) b (k, h) = elim (Bool-cases (less x e)) [
    | inl p ↦ rw p (b, (k, h))
    | inr p ↦ elim (Bool-cases (less e x)) [
      | inl q ↦ rw (p, q) (k, set_insert-All a x st b h)
      | inr q ↦ rw (p, q) (k, h)
    ]
  ]

  set_insert-IsSorted :
      (order : IsOrder) (x : T) (st : List T) → IsSorted st → IsSorted (set_insert less x st)
  unfolding set_insert
  set_insert-IsSorted order x [] h = (tt, tt)
  set_insert-IsSorted order x (e ∷ st) (h, k) = elim (Bool-cases (less x e)) [
    | inl p ↦ rw p (((p, order.0 x e p), All-Before order x e st p h), (h, k))
    | inr p ↦ elim (Bool-cases (less e x)) [
      | inl q ↦ rw (p, q) (set_insert-All e x st (q, p) h, set_insert-IsSorted order x st k)
      | inr q ↦ rw (p, q) (h, k)
    ]
  ]

  add_all-IsSorted :
      (order : IsOrder) (xs st : List T) → IsSorted st → IsSorted (add_all (set_insert less) xs st)
  add_all-IsSorted order [] st h = h
  add_all-IsSorted order (x ∷ xs) st h =
      add_all-IsSorted order xs (set_insert less x st) (set_insert-IsSorted order x st h)

  set_insert_last :
      (x : T) (st : List T) → All (λ e. Before e x) st → set_insert less x st ≡ st ++ x ∷ []
  unfolding set_insert
  set_insert_last x [] h = refl
  set_insert_last x (e ∷ st) ((p, q), h) = rw (q, p) (ap (◌∷◌ e) (set_insert_last x st h))

  All-at : (e : T) (acc xs : List T) (x : T) → All (Before e) (acc ++ x ∷ xs) → Before e x
  All-at e [] xs x (h, _) = h
  All-at e (a ∷ acc) xs x (_, h) = All-at e acc xs x h

  pub All-middle : (acc xs : List T) (x : T) → IsSorted (acc ++ x ∷ xs) → All (λ e. Before e x) acc
  All-middle [] xs x h = tt
  All-middle (e ∷ acc) xs x (h, k) = (All-at e acc xs x h, All-middle acc xs x k)

  add_all_sorted :
      (xs acc : List T) → IsSorted (acc ++ xs) → add_all (set_insert less) xs acc ≡ acc ++ xs
  add_all_sorted [] acc h = sym (append-nil acc)
  add_all_sorted (x ∷ xs) acc h =
      let e = append_assoc acc (x ∷ []) xs in
      ap (add_all (set_insert less) xs) (set_insert_last x acc (All-middle acc xs x h))
      ∙ add_all_sorted xs (acc ++ x ∷ []) (subst IsSorted (sym e) h)
      ∙ e

-- Whatever text is read, a std::set holds its elements in ascending order and none of them twice,
-- `operator<` being a strict order.
pub set_from_string-IsSorted :
    (y : Yaml) {T : Type 0} (c : Cast T) (less : T → T → Bool)
    → IsOrder less
    → (t : Text) (st : List T) → set_from_string y c less t ≡ ok st
    → IsSorted less st
unfolding set_from_string
set_from_string-IsSorted y c less order t st h =
    let (v, _, k) =
      >>=-eq-ok (vector_from_string y c t) _
        (sym (sequence_from_string-vector y c (set_insert less) [] t) ∙ h) in
    subst (IsSorted less) (ok_injective k) (add_all-IsSorted less order v [] tt)

-- Reading a std::set, a std::unordered_set or a std::list from a text is reading a std::vector from it and
-- inserting the elements one by one in their order; it fails exactly where that does, and in the same
-- way.
pub set_from_string-vector :
    (y : Yaml) {T : Type 0} (c : Cast T) (less equal : T → T → Bool) (t : Text)
    → (set_from_string y c less t
        ≡ vector_from_string y c t >>= λ v. ok (add_all (set_insert less) v []))
      × (unordered_set_from_string y c equal t
          ≡ vector_from_string y c t >>= λ v. ok (add_all (hash_insert equal) v []))
      × (list_from_string y c t ≡ vector_from_string y c t)
unfolding set_from_string unordered_set_from_string list_from_string vector_from_string
set_from_string-vector y c less equal t = (
  sequence_from_string-vector y c (set_insert less) [] t,
  sequence_from_string-vector y c (hash_insert equal) [] t,
  refl,
)

-- Under the conditions of a vector's round trip, a std::set, its elements in ascending order and none
-- twice, is written as a text from which it comes back.
pub set-Becomes :
    (y : Yaml) (Same : Text → Text → Type 0)
    → YamlLaws y Same
    → {T : Type 0} (c : Cast T) (less : T → T → Bool) → IsFaithful y Same c
    → (st : List T) → IsSorted less st
    → Becomes y Same (set_to_string y c) (set_from_string y c less) st st
unfolding set_to_string set_from_string
set-Becomes y Same laws c less h st sorted =
    let (t, e, n, f) = sequence-Becomes y Same laws c (set_insert less) [] h st in
    (t, e, n, λ u s. f u s ∙ ap ok (add_all_sorted less st [] sorted))
