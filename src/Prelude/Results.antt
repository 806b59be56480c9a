-- ===== src/Prelude/Results.antt =====
-- The outcome of a call that may not return: a failed `DDG_ASSERT` (it ends in `assert`, which
-- aborts), an exception, undefined behaviour such as a null dereference, or a call that has not come
-- back when the turns that the model was given are spent (`unfinished`).
use mathlib.Core.Path.{◌≡◌, refl}

pub data Failure : Type 0 where
  assertion thrown undefined unfinished : Failure

pub data Result {μ} (V : Type μ) : Type μ where
  fail : Failure → Result V
  ok : V → Result V

infixl 5 ◌>>=◌
abbrev pub ◌>>=◌ {μ ν} : {A : Type μ} {B : Type ν} → Result A → (A → Result B) → Result B
fail why >>= next = fail why
ok v >>= next = next v

-- What a call that has returned has gone through.
pub >>=-eq-ok {μ ν} :
    {A : Type μ} {B : Type ν} (first : Result A) (next : A → Result B) {w : B}
    → first >>= next ≡ ok w
    → (v : A) × (first ≡ ok v) × (next v ≡ ok w)
>>=-eq-ok (fail why) next returned = cc
>>=-eq-ok (ok v) next returned = (v, refl, returned)

pub ok_injective {ℓ} : {A : Type ℓ} {a b : A} → ok a ≡ ok b → a ≡ b
ok_injective h = cc

pub fail-ne-ok {ℓ} : {A : Type ℓ} {e : Failure} {a : A} → ¬ (fail e ≡ ok a)
fail-ne-ok h = cc
