-- ===== src/Lexical/Maps.antt =====
-- ddg/lexicalcast.h: maps to text and back.
use high_performance_server.Prelude.{
  Bool, true, false, List, [], ◌∷◌, Option, none, some, Text, same, same_iff, ok, ◌≡◌, refl, sym,
  ap, ◌∙◌, Bool-cases, Option-cases, inl, inr, if◌then◌else◌,
}
use high_performance_server.Config.Registry.{find, insert}
use high_performance_server.Lexical.{
  Yaml, Cast, write_entries, unordered_map_to_string, read_entries, unordered_map_from_string,
}
use high_performance_server.Lexical.Laws.{
  EmitsValues, inserted, HasEntries, YamlLaws, Becomes, IsFaithful,
}

-- The entries of a map that is filled in the order of a list: the first of a key stays.
abbrev pub insert_all : {T : Type 0} → List (Text × T) → List (Text × T) → List (Text × T)
insert_all [] m = m
insert_all ((key, x) ∷ es) m = insert_all es (insert key x m)

abbrev pub or_else : {T : Type 0} → Option T → Option T → Option T
or_else (some x) o = some x
or_else none o = o

or_else-none : {T : Type 0} (o : Option T) → or_else o none ≡ o
or_else-none none = refl
or_else-none (some x) = refl

or_else_assoc :
    {T : Type 0} (o : Option T) (b : Bool) (x : T) (p : Option T)
    → or_else (or_else o (if b then some x else none)) p ≡ or_else o (if b then some x else p)
or_else_assoc none true x p = refl
or_else_assoc none false x p = refl
or_else_assoc (some z) b x p = refl

find-insert :
    {T : Type 0} (key k : Text) (x : T) (m : List (Text × T))
    → find k (insert key x m) ≡ or_else (find k m) (if same key k then some x else none)
find-insert key k x m = elim (Bool-cases (same key k)) [
  | inl e ↦
      let q = (same_iff key k).0 e in
      let p : find key m ≡ find k m = ap (λ k. find k m) q in
      elim (Option-cases (find key m)) [
        | inl n ↦ let n' : find k m ≡ none = sym p ∙ n in rw (n, e, n') refl
        | inr (v, j) ↦ let j' : find k m ≡ some v = sym p ∙ j in rw (j, e, j') refl
      ]
  | inr e ↦ elim (Option-cases (find key m)) [
    | inl n ↦ rw (n, e) (sym (or_else-none (find k m)))
    | inr (v, j) ↦ rw (j, e) (sym (or_else-none (find k m)))
  ]
]

find-insert_all :
    {T : Type 0} (k : Text) (es m : List (Text × T))
    → find k (insert_all es m) ≡ or_else (find k m) (find k es)
find-insert_all k [] m = sym (or_else-none (find k m))
find-insert_all k ((key, x) ∷ es) m =
    find-insert_all k es (insert key x m)
    ∙ ap (λ o. or_else o (find k es)) (find-insert key k x m)
    ∙ or_else_assoc (find k m) (same key k) x (find k es)

module _ (y : Yaml) (Same : Text → Text → Type 0) (laws : YamlLaws y Same) {T : Type 0}
    (c : Cast T) where
  abbrev Reads : List (Text × Text) → List (Text × T) → Type 0
  Reads [] [] = Unit
  Reads ((k, t) ∷ ts) ((key, x) ∷ xs) =
      (k ≡ key) × ((u : Text) → Same t u → c.from u ≡ ok x) × Reads ts xs
  Reads _ _ = ⊥

  write_entries_lem :
      IsFaithful y Same c
      → (m : List (Text × T)) (node : y.Node)
      → (ns : List (Text × y.Node)) × (ts : List (Text × Text)) × (write_entries y c m node
          ≡ ok (inserted y ns node))
        × EmitsValues y ns ts
        × Reads ts m
  unfolding write_entries
  write_entries_lem h [] node = ([], [], refl, tt, tt)
  write_entries_lem h ((key, x) ∷ m) node =
      let (t, e, (n, l), r) = h x in
      let (u, k, s) = laws.reload t n l in
      let (ns, ts, w, b, d) = write_entries_lem h m (y.force_insert key n node) in
      (
        (key, n) ∷ ns,
        (key, u) ∷ ts,
        rw (e, l) w,
        (refl, k, b),
        (refl, (λ v p. r v (laws.same_trans t u v s p)), d),
      )

  read_entries_lem :
      (es : List (y.Node × y.Node)) (ts : List (Text × Text)) (m acc : List (Text × T))
      → Reads ts m
      → HasEntries y Same es ts
      → read_entries y c es acc ≡ ok (insert_all m acc)
  unfolding read_entries
  read_entries_lem [] [] [] acc r h = refl
  read_entries_lem ((key, value) ∷ es) ((k, t) ∷ ts) ((j, x) ∷ m) acc (p, r, rs) (q, (u, e, s), h) =
      rw (e, r u s, q, p) (read_entries_lem es ts m (insert j x acc) rs h)
  read_entries_lem [] [] (x ∷ m) acc r h = elim r [ ]
  read_entries_lem es ((k, t) ∷ ts) [] acc r h = elim r [ ]
  read_entries_lem [] (t ∷ ts) m acc r h = elim h [ ]
  read_entries_lem (e ∷ es) [] m acc r h = elim h [ ]

  -- Under the conditions of a vector's round trip, a std::unordered_map is written as a text from which a
  -- map comes back that has the same value for each key, and no value for any other.
  pub unordered_map-Becomes :
      IsFaithful y Same c
      → (m : List (Text × T))
      → (m' : List (Text × T)) × Becomes y Same
          (unordered_map_to_string y c)
          (unordered_map_from_string y c)
          m
          m'
        × ((key : Text) → find key m' ≡ find key m)
  unfolding unordered_map_to_string unordered_map_from_string
  unordered_map-Becomes h m =
      let (ns, ts, w, b, d) = write_entries_lem h m y.sequence in
      let (t, e, f) = laws.reload_entries ns ts b in
      let (n, l, _) = f t (laws.same_refl t) in
      (
        insert_all m [],
        (
          t,
          rw w e,
          (n, l),
          λ u s. let (n, l, p) = f u s in rw l (read_entries_lem (y.entries n) ts m [] d p),
        ),
        λ key. find-insert_all key m [],
      )
