-- ===== src/Lexical/Laws.antt =====
-- What ddg/lexicalcast.h relies on in yaml-cpp: a node that is printed and loaded again is the same
-- document. `Same` tells when two texts are one document.
use high_performance_server.Prelude.{
  Bool, true, false, map, same, All, if◌then◌else◌, ℕ, ◌+◌, List, [], ◌∷◌, Text, length, Result, ok,
  ◌≡◌,
}
use high_performance_server.Lexical.{Yaml, Cast}

module _ (y : Yaml) where
  -- The texts that nodes are printed as.
  abbrev pub Emits : List y.Node → List Text → Type 0
  Emits [] [] = Unit
  Emits (n ∷ ns) (t ∷ ts) = (y.emit n ≡ ok t) × Emits ns ts
  Emits _ _ = ⊥

  abbrev pub pushed : List y.Node → y.Node → y.Node
  pushed [] node = node
  pushed (n ∷ ns) node = pushed ns (y.push_back node n)

  abbrev pub inserted : List (Text × y.Node) → y.Node → y.Node
  inserted [] node = node
  inserted ((key, n) ∷ ns) node = inserted ns (y.force_insert key n node)

  abbrev pub EmitsValues : List (Text × y.Node) → List (Text × Text) → Type 0
  EmitsValues [] [] = Unit
  EmitsValues ((key, n) ∷ ns) ((k, t) ∷ ts) = (key ≡ k) × (y.emit n ≡ ok t) × EmitsValues ns ts
  EmitsValues _ _ = ⊥

module _ (y : Yaml) (Same : Text → Text → Type 0) where
  -- The elements of a node from `i` on, up to what `Same` allows.
  abbrev pub HasElements : y.Node → ℕ → List Text → Type 0
  HasElements node i [] = Unit
  HasElements node i (t ∷ ts) =
      ((u : Text) × (y.emit (y.at i node) ≡ ok u) × Same t u) × HasElements node (i + 1) ts

  abbrev pub HasEntries : List (y.Node × y.Node) → List (Text × Text) → Type 0
  HasEntries [] [] = Unit
  HasEntries ((key, value) ∷ es) ((k, t) ∷ ts) =
      (y.scalar key ≡ k) × ((u : Text) × (y.emit value ≡ ok u) × Same t u) × HasEntries es ts
  HasEntries _ _ = ⊥

  pub record YamlLaws : Type 0 where
    pub same_refl : (t : Text) → Same t t
    pub same_trans : (s t u : Text) → Same s t → Same t u → Same s u
    -- A document that is loaded is printed as the same document.
    pub reload :
        (t : Text) (n : y.Node) → y.load t ≡ ok n → (u : Text) × (y.emit n ≡ ok u) × Same t u
    -- So is a sequence that is made by push_back, and what is loaded has the same elements.
    pub reload_sequence :
        (ns : List y.Node) (ts : List Text)
        → Emits y ns ts
        → (t : Text) × (y.emit (pushed y ns y.sequence) ≡ ok t)
          × ((u : Text)
              → Same t u
              → (n : y.Node) × (y.load u ≡ ok n) × (y.size n ≡ length ts) × HasElements n 0 ts)
    -- And a node that is made by force_insert has the same entries in the same order.
    pub reload_entries :
        (ns : List (Text × y.Node)) (ts : List (Text × Text))
        → EmitsValues y ns ts
        → (t : Text) × (y.emit (inserted y ns y.sequence) ≡ ok t)
          × ((u : Text) → Same t u → (n : y.Node) × (y.load u ≡ ok n) × HasEntries (y.entries n) ts)

  -- `x` becomes a text that YAML::Load reads, and each text of the same document becomes `z`.
  abbrev pub Becomes : {A B : Type 0} → (A → Result Text) → (Text → Result B) → A → B → Type 0
  Becomes to from x z =
      (t : Text) × (to x ≡ ok t)
      × ((n : y.Node) × (y.load t ≡ ok n))
      × ((u : Text) → Same t u → from u ≡ ok z)

  abbrev pub IsFaithful : {T : Type 0} → Cast T → Type 0
  IsFaithful {T} c = (x : T) → Becomes c.to c.from x x

-- Fields of a map: whether it is set, its key and its text.
abbrev pub Fields : Type 0
Fields = List (Bool × Text × Text)

abbrev pub AreDistinct : List Text → Type 0
AreDistinct [] = Unit
AreDistinct (k ∷ ks) = All (λ j. same k j ≡ false) ks × AreDistinct ks

module _ (y : Yaml) where
  abbrev pub assigned : Fields → y.Node → y.Node
  assigned [] node = node
  assigned ((b, k, v) ∷ fs) node = assigned fs (if b then y.set_key k (y.of_text v) node else node)

  abbrev pub pushed_at : Text → List y.Node → y.Node → y.Node
  pushed_at key [] node = node
  pushed_at key (n ∷ ns) node = pushed_at key ns (y.push_at key n node)

  -- The entries of a map are the fields that are set, in their order, and then `tail`.
  abbrev pub HasFields : List (y.Node × y.Node) → Fields → List (y.Node × y.Node) → Type 0
  HasFields es [] tail = es ≡ tail
  HasFields es ((false, k, v) ∷ fs) tail = HasFields es fs tail
  HasFields [] ((true, k, v) ∷ fs) tail = ⊥
  HasFields ((key, value) ∷ es) ((true, k, v) ∷ fs) tail =
      (y.scalar key ≡ k) × (y.scalar value ≡ v) × HasFields es fs tail

module _ (y : Yaml) (Same : Text → Text → Type 0) where
  abbrev pub HasItems : List y.Node → List Text → Type 0
  HasItems [] [] = Unit
  HasItems (n ∷ ns) (t ∷ ts) = ((u : Text) × (y.emit n ≡ ok u) × Same t u) × HasItems ns ts
  HasItems _ _ = ⊥

  -- The one entry, with a sequence, that is there if the sequence has an element.
  abbrev pub HasTail : y.Node → List (y.Node × y.Node) → Text → List Text → Type 0
  HasTail node tail key [] = tail ≡ []
  HasTail node tail key (t ∷ ts) =
      (name : y.Node) × (value : y.Node) × (tail ≡ (name, value) ∷ [])
      × (y.scalar name ≡ key)
      × HasItems (y.elements (y.get key node)) (t ∷ ts)

  -- A map that is made of texts under distinct keys and a sequence under one more key is printed as a
  -- document that has them.
  pub record FieldLaws : Type 0 where
    pub reload_fields :
        (fs : Fields) (key : Text) (ns : List y.Node) (ts : List Text)
        → AreDistinct (key ∷ map (λ (b, k, v). k) fs)
        → Emits y ns ts
        → (t : Text) × (y.emit (pushed_at y key ns (assigned y fs y.null)) ≡ ok t)
          × ((u : Text)
              → Same t u
              → (n : y.Node) × (tail : List (y.Node × y.Node)) × (y.load u ≡ ok n)
                × HasFields y (y.entries n) fs tail
                × HasTail n tail key ts)
