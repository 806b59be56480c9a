-- ===== src/Log/Lexing.antt =====
-- The fuel of initPattern's loop over the pattern.
use high_performance_server.Prelude.{
  ℕ, zero, suc, ◌≤◌, ◌==◌, Bool, true, false, not, ◌||◌, List, [], ◌∷◌, ◌++◌, some, length, Text,
  if◌then◌else◌, ◌≡◌, refl, arith,
}
use high_performance_server.Log.Pattern.{
  percent, Token, scan_braces, scan_name, starts_with, flush, error_token, Lexed, before, lex,
}

scan_braces-rest : (str fmt r : Text) → length (scan_braces str fmt r).rest ≤ length r
scan_braces-rest str fmt [] = omega arith
scan_braces-rest str fmt (c ∷ r) = ground (arith, scan_braces-rest str (fmt ++ c ∷ []) r)

scan_name-rest : (acc r : Text) → length (scan_name acc r).rest ≤ length r
unfolding scan_name
scan_name-rest acc [] = omega arith
scan_name-rest acc (c ∷ r) =
    ground (arith, scan_braces-rest acc [] r, scan_name-rest (acc ++ c ∷ []) r)

-- The fuel has not run out.
abbrev pub IsTotal : Lexed → Type 0
IsTotal l = (v : List Token × Bool) × (l ≡ some v)

before-IsTotal : (ts : List Token) (e : Bool) (l : Lexed) → IsTotal l → IsTotal (before ts e l)
before-IsTotal ts e l ((us, f), h) = ((ts ++ us, e || f), rw h refl)

if_IsTotal : (b : Bool) (l m : Lexed) → IsTotal l → IsTotal m → IsTotal (if b then l else m)
if_IsTotal true l m h k = h
if_IsTotal false l m h k = k

-- The loop over the pattern ends: with the pattern's length for fuel, it never runs out.
pub lex-IsTotal : (fuel : ℕ) (r nstr : Text) → length r ≤ fuel → IsTotal (lex fuel r nstr)
unfolding lex
lex-IsTotal fuel [] nstr h = (_, refl)
lex-IsTotal zero (c ∷ r) nstr h = absurd (omega arith)
lex-IsTotal (suc fuel) (c ∷ r) nstr h =
    if_IsTotal (not (c == percent) || starts_with percent r) _ _
      (lex-IsTotal fuel r (nstr ++ c ∷ []) (omega arith))
      (if_IsTotal (scan_name [] r).closed _ _
        (before-IsTotal
          (flush nstr
            ++ record { str = (scan_name [] r).str; fmt = (scan_name [] r).fmt; directive = true }
              ∷ [])
          false _ (lex-IsTotal fuel (scan_name [] r).rest [] (omega (arith, scan_name-rest [] r))))
        (before-IsTotal (error_token ∷ []) true _ (lex-IsTotal fuel r nstr (omega arith))))
