-- ===== src/Log/Printing.antt =====
-- What a formatter prints, from the pieces of its pattern.
use mathlib.Core.List.{append_assoc}
use high_performance_server.Prelude.{
  ℕ, zero, suc, ◌+◌, ◌-◌, ◌/◌, ◌%◌, ◌*◌, ◌<◌, ltb, true, false, List, [], ◌∷◌, ◌++◌, map, Text, ok,
  ◌≡◌, refl, ap, ◌∙◌, arith, Bool-cases, inl, inr,
}
use high_performance_server.Log.Levels.{Level}
use high_performance_server.Log.Pattern.{Item}
use high_performance_server.Log.Pieces.{Piece, print, piece_item, IsWellFormed}
use high_performance_server.Log.Parsing.{init_pattern-print}
use high_performance_server.Log.Formatter.{
  digits_onto, decimal, Event, Formatter, make, patterned, set_pattern, format, format_item,
  format_items,
}

-- What the digits of a text stand for, behind the number `n`.
abbrev pub number_from : ℕ → Text → ℕ
number_from n [] = n
number_from n (c ∷ s) = number_from (10 * n + (c - b'0')) s

digits_onto-number :
    (rounds n : ℕ) (tail : Text)
    → n < rounds
    → number_from 0 (digits_onto rounds n tail) ≡ number_from n tail
unfolding digits_onto
digits_onto-number zero n tail h = absurd (omega arith)
digits_onto-number (suc rounds) n tail h = elim (Bool-cases (ltb n 10)) [
  | inl e ↦
      let k : 10 * 0 + (n + b'0' - b'0') ≡ n = omega arith in
      rw e (ap (λ (m : ℕ). number_from m tail) k)
  | inr e ↦
      let k : 10 * (n / 10) + (n % 10 + b'0' - b'0') ≡ n = omega arith in
      rw e (
        digits_onto-number rounds (n / 10) ((n % 10 + b'0') ∷ tail) (ground arith)
        ∙ ap (λ (m : ℕ). number_from m tail) k)
]

-- A number is printed as decimal digits that read as the number.
pub decimal-number : (n : ℕ) → number_from 0 (decimal n) ≡ n
unfolding decimal
decimal-number n = digits_onto-number (n + 1) n [] (omega arith)

-- What the items of the pieces print, in their order.
abbrev pub printed : (Text → ℕ → Text) → Level → Event → List Piece → Text
printed date level event [] = []
printed date level event (p ∷ ps) =
    format_item date level event (piece_item p) ++ printed date level event ps

format_items-pieces :
    (date : Text → ℕ → Text) (level : Level) (event : Event) (ps : List Piece)
    → format_items date level event (map piece_item ps) ≡ printed date level event ps
unfolding format_items
format_items-pieces date level event [] = refl
format_items-pieces date level event (p ∷ ps) = rw (format_items-pieces date level event ps) refl

-- The formatter of a well-formed pattern can be made, and prints what the items of the pattern's
-- pieces print, in their order.
pub format-print :
    (date : Text → ℕ → Text) (level : Level) (event : Event) (ps : List Piece)
    → IsWellFormed ps
    → (f : Formatter) × (make (print ps) ≡ ok f)
      × (f.pattern ≡ print ps)
      × (format date f level event ≡ printed date level event ps)
unfolding make format
format-print date level event ps w = (
  record { pattern = print ps; items = map piece_item ps; error = false },
  rw (init_pattern-print ps w) refl,
  refl,
  format_items-pieces date level event ps,
)

format_items-append :
    (date : Text → ℕ → Text) (level : Level) (event : Event) (is js : List Item)
    → format_items date level event (is ++ js)
      ≡ format_items date level event is ++ format_items date level event js
unfolding format_items
format_items-append date level event [] js = refl
format_items-append date level event (i ∷ is) js =
    rw (format_items-append date level event is js, append_assoc) refl

set_pattern_lem :
    (f : Formatter) (ps : List Piece)
    → IsWellFormed ps
    → set_pattern (print ps) f
      ≡ (record f { items = f.items ++ map piece_item ps; error = false }, ok true)
unfolding set_pattern
set_pattern_lem f ps w = ap (patterned f) (init_pattern-print ps w)

-- setPattern does not replace the pattern: the formatter prints what it printed before and then
-- the new pattern, and getPattern still gives the old one.
pub set_pattern_appends :
    (date : Text → ℕ → Text) (level : Level) (event : Event) (f : Formatter) (ps : List Piece)
    → IsWellFormed ps
    → ((set_pattern (print ps) f).1 ≡ ok true)
      × ((set_pattern (print ps) f).0.pattern ≡ f.pattern)
      × (format date (set_pattern (print ps) f).0 level event
          ≡ format date f level event ++ printed date level event ps)
unfolding format
set_pattern_appends date level event f ps w = rw (set_pattern_lem f ps w) (
  refl,
  refl,
  format_items-append date level event f.items (map piece_item ps)
      ∙ ap (◌++◌ (format_items date level event f.items)) (format_items-pieces date level event ps),
)
