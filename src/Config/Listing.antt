-- ===== src/Config/Listing.antt =====
-- What ListAllMember lists.
use high_performance_server.Prelude.{
  ℕ, ◌==◌, Bool, true, false, ◌&&◌, List, [], ◌∷◌, ◌++◌, Text, if◌then◌else◌, ◌≡◌, refl, ap, ◌∙◌,
  arith, All, Bool-cases, inl, inr, member,
}
use high_performance_server.Config.Vars.{to_lower, lower}
use high_performance_server.Config.Registry.{
  valid_set, is_valid, Node, scalar, mapping, other, Entries, no_entries, entry, child,
  list_all_member, list_entries,
}

module _ {A : Type 0} where
  pub data In (a : A) : List A → Type 0 where
    here : {l : List A} → In a (a ∷ l)
    there : {b : A} {l : List A} → In a l → In a (b ∷ l)

  In-left : (a : A) (l m : List A) → In a l → In a (l ++ m)
  In-left a [] m i = elim i [ ]
  In-left a (b ∷ l) m here = here
  In-left a (b ∷ l) m (there i) = there (In-left a l m i)

  In-right : (a : A) (l m : List A) → In a m → In a (l ++ m)
  In-right a [] m i = i
  In-right a (b ∷ l) m i = there (In-right a l m i)

  All-append {κ} : (P : A → Type κ) (l m : List A) → All P l → All P m → All P (l ++ m)
  All-append P [] m h k = k
  All-append P (a ∷ l) m h k = (h.0, All-append P l m h.1 k)

-- A node below another one: the way to it through the maps, with the key that names it.
mutual
  pub data Below : Text → Node → Text → Node → Type 0 where
    itself : {prefix : Text} {node : Node} → is_valid prefix ≡ true → Below prefix node prefix node
    through :
        {prefix key : Text} {es : Entries} {node : Node}
        → is_valid prefix ≡ true
        → Among prefix es key node
        → Below prefix (mapping es) key node

  pub data Among : Text → Entries → Text → Node → Type 0 where
    first :
        {prefix k key : Text} {n node : Node} {es : Entries}
        → Below (child prefix k) n key node
        → Among prefix (entry k n es) key node
    next :
        {prefix k key : Text} {n node : Node} {es : Entries}
        → Among prefix es key node
        → Among prefix (entry k n es) key node

list_itself :
    (prefix : Text) (node : Node)
    → is_valid prefix ≡ true
    → In (prefix, node) (list_all_member prefix node)
unfolding list_all_member
list_itself prefix (scalar s) h = rw h here
list_itself prefix (mapping es) h = rw h here
list_itself prefix (other s) h = rw h here

list_children :
    (prefix : Text) (es : Entries) (i : Text × Node)
    → is_valid prefix ≡ true
    → In i (list_entries prefix es)
    → In i (list_all_member prefix (mapping es))
unfolding list_all_member
list_children prefix es i h j = rw h (there j)

mutual
  unfolding list_all_member

  Below-In :
      (prefix : Text) (node : Node) (key : Text) (found : Node)
      → Below prefix node key found
      → In (key, found) (list_all_member prefix node)
  Below-In prefix node key found (itself h) = list_itself prefix node h
  Below-In prefix (mapping es) key found (through h a) =
      list_children prefix es (key, found) h (Among-In prefix es key found a)

  Among-In :
      (prefix : Text) (es : Entries) (key : Text) (found : Node)
      → Among prefix es key found
      → In (key, found) (list_entries prefix es)
  Among-In prefix no_entries key found a = elim a [ ]
  Among-In prefix (entry k n es) key found (first b) =
      In-left (key, found) (list_all_member (child prefix k) n) (list_entries prefix es)
        (Below-In (child prefix k) n key found b)
  Among-In prefix (entry k n es) key found (next a) =
      In-right (key, found) (list_all_member (child prefix k) n) (list_entries prefix es)
        (Among-In prefix es key found a)

-- Every node that can be reached through maps on a way whose prefixes are all valid is listed,
-- under its dotted key.
pub list_all_member-Below :
    (prefix : Text) (node : Node) (key : Text) (found : Node)
    → Below prefix node key found
    → In (key, found) (list_all_member prefix node)
list_all_member-Below prefix node key found b = Below-In prefix node key found b

&&-true : (a b : Bool) → (a && b) ≡ true → (a ≡ true) × (b ≡ true)
&&-true true b h = (refl, h)
&&-true false b h = cc

abbrev all_lower : Text → Bool
all_lower [] = true
all_lower (c ∷ s) = to_lower c == c && all_lower s

member-lower : (c : ℕ) (s : Text) → all_lower s ≡ true → member c s ≡ true → to_lower c ≡ c
unfolding member
member-lower c [] h m = cc
member-lower c (d ∷ s) h m = elim (Bool-cases (c == d)) [
  | inl e ↦ ground arith
  | inr e ↦ member-lower c s (ground arith) (ground arith)
]

pub is_valid-lower : (s : Text) → is_valid s ≡ true → lower s ≡ s
unfolding is_valid
is_valid-lower [] h = refl
is_valid-lower (c ∷ s) h =
    let (m, r) = &&-true (member c valid_set) (is_valid s) h in
    ap (λ (d : ℕ). d ∷ lower s) (member-lower c valid_set refl m) ∙ ap (◌∷◌ c) (is_valid-lower s r)

abbrev pub IsLowerKey : Text × Node → Type 0
IsLowerKey (key, node) = (is_valid key ≡ true) × (lower key ≡ key)

list_if :
    (prefix : Text) (node : Node) (l : List (Text × Node))
    → All IsLowerKey l
    → All IsLowerKey (if is_valid prefix then (prefix, node) ∷ l else [])
list_if prefix node l h = elim (Bool-cases (is_valid prefix)) [
  | inl e ↦ rw e ((e, is_valid-lower prefix e), h)
  | inr e ↦ rw e tt
]

mutual
  unfolding list_all_member

  member-IsLowerKey : (prefix : Text) (node : Node) → All IsLowerKey (list_all_member prefix node)
  member-IsLowerKey prefix (scalar s) = list_if prefix (scalar s) [] tt
  member-IsLowerKey prefix (mapping es) =
      list_if prefix (mapping es) (list_entries prefix es) (entries-IsLowerKey prefix es)
  member-IsLowerKey prefix (other s) = list_if prefix (other s) [] tt

  entries-IsLowerKey : (prefix : Text) (es : Entries) → All IsLowerKey (list_entries prefix es)
  entries-IsLowerKey prefix no_entries = tt
  entries-IsLowerKey prefix (entry k n es) =
      All-append IsLowerKey (list_all_member (child prefix k) n) (list_entries prefix es)
        (member-IsLowerKey (child prefix k) n) (entries-IsLowerKey prefix es)

-- Every key that is listed consists of valid characters and is its own lower case: the conversion
-- that LoadFromYaml makes of the keys has no effect, and a key with a capital letter is not loaded.
pub list_all_member-IsLowerKey :
    (prefix : Text) (node : Node) → All IsLowerKey (list_all_member prefix node)
list_all_member-IsLowerKey prefix node = member-IsLowerKey prefix node
