-- ===== src/Log/Names.antt =====
-- Names and addresses: what is found under a name, and what is read at an address.
use high_performance_server.Prelude.{
  ℕ, ◌<◌, true, false, List, [], ◌∷◌, none, some, Text, same, same_iff, ◌≡◌, refl, ◌∙◌, sym, subst,
  arith, Bool-cases, inl, inr,
}
use high_performance_server.Log.Logger.{write}
use high_performance_server.Log.Manager.{find, erase}

pub some_injective {ℓ} : {A : Type ℓ} {a b : A} → some a ≡ some b → a ≡ b
some_injective h = cc

pub find-same :
    (name key : Text) (q : ℕ) (l : List (Text × ℕ))
    → same key name ≡ true
    → find name ((key, q) ∷ l) ≡ some q
find-same name key q l h = rw h refl

pub find-other :
    (name key : Text) (q : ℕ) (l : List (Text × ℕ))
    → same key name ≡ false
    → find name ((key, q) ∷ l) ≡ find name l
find-other name key q l h = rw h refl

pub write-ne {ℓ} : {A : Type ℓ} (m : ℕ → A) (p q : ℕ) (v : A) → q < p → write m p v q ≡ m q
write-ne m p q v h = ground arith

pub write_self {ℓ} : {A : Type ℓ} (m : ℕ → A) (p : ℕ) (v : A) → write m p v p ≡ v
write_self m p v = ground arith

pub same_refl : (s : Text) → same s s ≡ true
same_refl s = (same_iff s s).1 refl

pub find-erase : (name : Text) (l : List (Text × ℕ)) → find name (erase name l) ≡ none
find-erase name [] = refl
find-erase name ((key, p) ∷ l) = elim (Bool-cases (same key name)) [
  | inl b ↦ rw b (find-erase name l)
  | inr b ↦ rw b (find-other name key p (erase name l) b ∙ find-erase name l)
]

pub find-erase_other :
    (name other : Text) (l : List (Text × ℕ))
    → same name other ≡ false
    → find other (erase name l) ≡ find other l
find-erase_other name other [] h = refl
find-erase_other name other ((key, p) ∷ l) h = elim (Bool-cases (same key name)) [
  | inl b ↦
      let c = subst (λ k. same k other ≡ false) (sym ((same_iff key name).0 b)) h in
      rw (b, c) (find-erase_other name other l h)
  | inr b ↦ elim (Bool-cases (same key other)) [
    | inl c ↦ rw (b, c) refl
    | inr c ↦ rw (b, c) (find-erase_other name other l h)
  ]
]
