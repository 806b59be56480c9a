-- ===== src/Log/Parsing.antt =====
-- What initPattern makes of a pattern that is put together from pieces.
use mathlib.Core.List.{append-nil, append_assoc}
use high_performance_server.Prelude.{
  ℕ, zero, suc, ◌≤◌, ◌==◌, true, false, List, [], ◌∷◌, ◌++◌, map, some, is_empty, length,
  length-append, Text, ok, ◌≡◌, ◌⊎◌, refl, ap, ◌∙◌, arith, inl, inr,
}
use high_performance_server.Log.Pattern.{
  percent, Token, scan_braces, scan_name, ends_name, literal, flush, Lexed, before, lex,
  string_item, directive_item, item_of, items_of, init_pattern,
}
use high_performance_server.Log.Pieces.{
  Letter, letter_m, char_of, item_for, Piece, text, plain, braced, print, piece_item, token_of,
  lacks, ends_directive, starts_text, IsWellFormed,
}

record IsName (c : ℕ) : Type 0 where
  not_percent : (c == percent) ≡ false
  continues : ends_name c ≡ false
  no_brace : (c == b'{') ≡ false

char_of-IsName : (k : Letter) → IsName (char_of k)
char_of-IsName letter_m = record { not_percent = refl; continues = refl; no_brace = refl }
char_of-IsName _ = record { not_percent = refl; continues = refl; no_brace = refl }

directive_item-char_of : (k : Letter) → directive_item (char_of k) ≡ some (item_for k)
directive_item-char_of letter_m = refl
directive_item-char_of _ = refl

lacks-cons : (b c : ℕ) (s : Text) → lacks b (c ∷ s) ≡ true → ((c == b) ≡ false) × (lacks b s ≡ true)
lacks-cons b c s h = ground arith

-- What is read of a directive's name up to what ends it.
scan_name_end :
    (acc r : Text)
    → ends_directive r ≡ true
    → scan_name acc r ≡ record { str = acc; fmt = []; closed = true; rest = r }
unfolding scan_name
scan_name_end acc [] h = refl
scan_name_end acc (c ∷ r) h = rw h refl

scan_name_more :
    (acc : Text) (c : ℕ) (r : Text) → IsName c → scan_name acc (c ∷ r) ≡ scan_name (acc ++ c ∷ []) r
unfolding scan_name
scan_name_more acc c r h = rw (h.continues, h.no_brace) refl

scan_braces_lem :
    (str acc fmt r : Text)
    → lacks b'}' fmt ≡ true
    → scan_braces str acc (fmt ++ b'}' ∷ r)
      ≡ record { str = str; fmt = acc ++ fmt; closed = true; rest = r }
scan_braces_lem str acc [] r h = rw append-nil refl
scan_braces_lem str acc (c ∷ fmt) r h =
    let (n, rest) = lacks-cons b'}' c fmt h in
    rw n (scan_braces_lem str (acc ++ c ∷ []) fmt r rest ∙ rw (append_assoc acc (c ∷ []) fmt) refl)

lex_char :
    (fuel c : ℕ) (r nstr : Text)
    → (c == percent) ≡ false
    → lex (suc fuel) (c ∷ r) nstr ≡ lex fuel r (nstr ++ c ∷ [])
unfolding lex
lex_char fuel c r nstr h = rw h refl

lex_text :
    (s r nstr : Text) (fuel : ℕ)
    → lacks percent s ≡ true
    → length (s ++ r) ≤ fuel
    → (rounds : ℕ) × (length r ≤ rounds) × (lex fuel (s ++ r) nstr ≡ lex rounds r (nstr ++ s))
lex_text [] r nstr fuel h l = (fuel, l, rw append-nil refl)
lex_text (c ∷ s) r nstr zero h l = absurd (omega arith)
lex_text (c ∷ s) r nstr (suc fuel) h l =
    let (n, rest) = lacks-cons percent c s h in
    let (rounds, l', e) = lex_text s r (nstr ++ c ∷ []) fuel rest (omega arith) in
    (
      rounds,
      l',
      lex_char fuel c (s ++ r) nstr n ∙ e ∙ ap (lex rounds r) (append_assoc nstr (c ∷ []) s),
    )

lex_directive :
    (k : Letter) (r nstr : Text) (fuel : ℕ) (str fmt rest : Text)
    → scan_name (char_of k ∷ []) r ≡ record { str = str; fmt = fmt; closed = true; rest = rest }
    → lex (suc fuel) (percent ∷ char_of k ∷ r) nstr
      ≡ before
          (flush nstr ++ record { str = str; fmt = fmt; directive = true } ∷ [])
          false
          (lex fuel rest [])
unfolding lex
lex_directive k r nstr fuel str fmt rest e =
    let v = char_of-IsName k in rw (v.not_percent, scan_name_more [] (char_of k) r v, e) refl

lex_end : (fuel : ℕ) (nstr : Text) → lex fuel [] nstr ≡ some (flush nstr, false)
unfolding lex
lex_end zero nstr = refl
lex_end (suc fuel) nstr = refl

flush_text : (s : Text) → is_empty s ≡ false → flush s ≡ literal s ∷ []
flush_text [] h = cc
flush_text (c ∷ s) h = refl

scan_name_brace : (acc r : Text) → scan_name acc (b'{' ∷ r) ≡ scan_braces acc [] r
unfolding scan_name
scan_name_brace acc r = refl

before_lem :
    (nstr : Text) (t : Token) (ts : List Token) (l : Lexed)
    → l ≡ some (ts, false)
    → before (flush nstr ++ t ∷ []) false l ≡ some (flush nstr ++ t ∷ ts, false)
before_lem nstr t ts l h = rw h (rw append_assoc refl)

-- What the loop makes of a pattern, with a text in hand when no text follows.
lex-print :
    (ps : List Piece) (nstr : Text) (fuel : ℕ)
    → IsWellFormed ps
    → (nstr ≡ []) ⊎ (starts_text ps ≡ false)
    → length (print ps) ≤ fuel
    → lex fuel (print ps) nstr ≡ some (flush nstr ++ map token_of ps, false)
lex-print [] nstr fuel w n l = rw append-nil (lex_end fuel nstr)
lex-print (text s ∷ ps) nstr fuel w (inr n) l = cc
lex-print (text s ∷ ps) nstr fuel w (inl n) l =
    let (rounds, l', q) = lex_text s (print ps) nstr fuel w.1 l in
    let ih = lex-print ps (nstr ++ s) rounds w.3 (inr w.2) l' in
    q ∙ ih ∙ rw n (rw (flush_text s w.0) refl)
lex-print (plain k ∷ ps) nstr zero w n l = absurd (omega arith)
lex-print (plain k ∷ ps) nstr (suc fuel) w n l =
    lex_directive k (print ps) nstr fuel (char_of k ∷ []) [] (print ps)
      (scan_name_end (char_of k ∷ []) (print ps) w.0)
    ∙ before_lem nstr _ _ _ (lex-print ps [] fuel w.1 (inl refl) (omega arith))
lex-print (braced k fmt ∷ ps) nstr zero w n l = absurd (omega arith)
lex-print (braced k fmt ∷ ps) nstr (suc fuel) w n l =
    let r = fmt ++ b'}' ∷ print ps in
    lex_directive k (b'{' ∷ r) nstr fuel (char_of k ∷ []) fmt (print ps)
      (scan_name_brace (char_of k ∷ []) r ∙ scan_braces_lem (char_of k ∷ []) [] fmt (print ps) w.0)
    ∙ before_lem nstr _ _ _
        (lex-print ps [] fuel w.1 (inl refl) (omega (arith, length-append fmt (b'}' ∷ print ps))))

item_of-token_of : (p : Piece) → item_of (token_of p) ≡ (piece_item p, false)
item_of-token_of (text s) = refl
item_of-token_of (plain k) = rw (directive_item-char_of k) refl
item_of-token_of (braced k fmt) = rw (directive_item-char_of k) refl

items_of-token_of : (ps : List Piece) → items_of (map token_of ps) ≡ (map piece_item ps, false)
unfolding items_of
items_of-token_of [] = refl
items_of-token_of (p ∷ ps) = rw (item_of-token_of p, items_of-token_of ps) refl

-- A well-formed pattern is accepted, and makes one item for each of its pieces, in their order:
-- the text itself, or the item of the directive's letter. What stands in the braces of a
-- directive has no effect: a date is always given its default format.
pub init_pattern-print :
    (ps : List Piece) → IsWellFormed ps → init_pattern (print ps) ≡ (map piece_item ps, ok true)
unfolding init_pattern items_of
init_pattern-print ps w =
    rw (lex-print ps [] (length (print ps)) w (inl refl) (omega arith))
      (rw (items_of-token_of ps) refl)

lex-percent :
    (fuel : ℕ) (r : Text)
    → lex (suc fuel) (percent ∷ percent ∷ r) [] ≡ lex fuel (percent ∷ r) (percent ∷ [])
unfolding lex
lex-percent fuel r = refl

-- `%%` does not stand for a percent sign alone: the second sign is read again, as the start of a
-- directive, so that `%%x` gives a percent sign and then the item of the letter `x`.
pub init_pattern-percent :
    (k : Letter) (ps : List Piece)
    → IsWellFormed (plain k ∷ ps)
    → init_pattern (percent ∷ print (plain k ∷ ps))
      ≡ (string_item (percent ∷ []) ∷ item_for k ∷ map piece_item ps, ok true)
unfolding init_pattern items_of
init_pattern-percent k ps w =
    let q = print (plain k ∷ ps) in
    let e =
      lex-percent (length q) (char_of k ∷ print ps)
      ∙ lex-print (plain k ∷ ps) (percent ∷ []) (length q) w (inr refl) (omega arith) in
    rw e (rw (items_of-token_of ps, directive_item-char_of k) refl)
