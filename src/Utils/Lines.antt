-- ===== src/Utils/Lines.antt =====
-- What a backtrace is printed as, and what the clocks give.
use high_performance_server.Prelude.{
  ℕ, zero, suc, ◌+◌, ◌-◌, ◌%◌, ◌<◌, ◌≤◌, ltb, leb, true, false, List, [], ◌∷◌, ◌++◌, some, length,
  get_elem?, set, length-append, Text, if◌then◌else◌, Bool-cases, inl, inr, ◌==◌, ==_iff, Result,
  ok, ◌>>=◌, fail, thrown, ◌≡◌, refl, sym, ap, ◌∙◌, arith,
}
use mathlib.Core.List.{append-nil, append_assoc}
use high_performance_server.Fiber.{word}
use high_performance_server.Utils.{
  blanks, string_at, assign_at, resized, fill, newline, lines, backtrace_to_string,
}

get_elem?-at :
    (pre : List Text) (t : Text) (rest : List Text)
    → get_elem? (pre ++ t ∷ rest) (length pre) ≡ some t
get_elem?-at [] t rest = refl
get_elem?-at (x ∷ pre) t rest = get_elem?-at pre t rest

set-at :
    (done : List Text) (s t : Text) (rest : List Text)
    → set (done ++ s ∷ rest) (length done) t ≡ done ++ t ∷ rest
set-at [] s t rest = refl
set-at (x ∷ done) s t rest = ap (◌∷◌ x) (set-at done s t rest)

fill_lem :
    (rest pre done strings bt : List Text) (skip j : ℕ)
    → strings ≡ pre ++ rest
    → bt ≡ done ++ blanks (suc (length rest))
    → j ≡ length pre
    → j ≡ length done + skip
    → fill (some strings) skip (length rest) j bt ≡ ok (done ++ (rest ++ [] ∷ []))
unfolding fill
fill_lem [] pre done strings bt skip j s b h k = ap ok b
fill_lem (t ∷ rest) pre done strings bt skip j s b h k =
    let g : get_elem? strings j ≡ some t =
      ap (λ (n : ℕ). get_elem? strings n) h
      ∙ ap (λ (ts : List Text). get_elem? ts (length pre)) s
      ∙ get_elem?-at pre t rest in
    let i : j - skip ≡ length done = omega (arith, k) in
    let n =
      ap (λ (ts : List Text). length ts) b ∙ length-append done ([] ∷ blanks (suc (length rest))) in
    let l : ltb (length done) (length bt) ≡ true = ground (arith, n) in
    let w : set bt (length done) t ≡ (done ++ t ∷ []) ++ blanks (suc (length rest)) =
      ap (λ ts. set ts (length done) t) b
      ∙ set-at done [] t (blanks (suc (length rest)))
      ∙ sym (append_assoc done (t ∷ []) (blanks (suc (length rest)))) in
    let got : string_at (some strings) j ≡ ok t = rw (g, string_at) refl in
    let put : assign_at bt (j - skip) t ≡ ok (set bt (length done) t) = rw (i, l) refl in
    let next : List Text → Result (List Text) = fill (some strings) skip (length rest) (j + 1) in
    ap (λ (r : Result Text). r >>= λ u. assign_at bt (j - skip) u >>= next) got
    ∙ ap (λ (r : Result (List Text)). r >>= next) put
    ∙ (fill_lem rest (pre ++ t ∷ []) (done ++ t ∷ []) strings (set bt (length done) t) skip (j + 1)
          (s ∙ sym (append_assoc pre (t ∷ []) rest)) w
          (omega (arith, h, length-append pre (t ∷ [])))
          (omega (arith, k, length-append done (t ∷ [])))
        ∙ ap ok (append_assoc done (t ∷ []) (rest ++ [] ∷ [])))

lines-append :
    (prefix : Text) (a b : List Text) → lines prefix (a ++ b) ≡ lines prefix a ++ lines prefix b
unfolding lines
lines-append prefix [] b = refl
lines-append prefix (t ∷ a) b =
    ap (λ (u : Text). prefix ++ t ++ newline ∷ u) (lines-append prefix a b)
    ∙ sym (append_assoc (prefix ++ t) (newline ∷ lines prefix a) (lines prefix b))

abbrev pub drop : ℕ → List Text → List Text
drop zero ts = ts
drop (suc n) [] = []
drop (suc n) (t ∷ ts) = drop n ts

-- The lines of a backtrace, and one more with the prefix alone. With one more to skip than there is, nothing is
-- printed, and with more than that the size is out of the vector's range.
abbrev pub printed : Text → List Text → ℕ → Result Text
printed prefix ts skip =
    if leb skip (length ts)
    then ok (lines prefix (drop skip ts) ++ (prefix ++ newline ∷ []))
    else if skip == length ts + 1
    then ok []
    else fail thrown

resized_lem : (limit n m : ℕ) → n ≡ m → m ≤ limit → resized limit n ≡ ok (blanks m)
resized_lem limit n m e h =
    let l : leb n limit ≡ true = ground arith in rw l (ap (λ (k : ℕ). ok (blanks k)) e)

-- The strings to be left out, and the others.
split :
    (skip : ℕ) (ts : List Text)
    → skip ≤ length ts
    → (pre : List Text) × (ts ≡ pre ++ drop skip ts) × (length pre ≡ skip)
split zero ts h = ([], refl, refl)
split (suc skip) [] h = absurd (omega arith)
split (suc skip) (t ∷ ts) h =
    let (pre, e, l) = split skip ts (omega arith) in (t ∷ pre, ap (◌∷◌ t) e, ap suc l)

module _ (limit : ℕ) (prefix : Text) (ts : List Text) (skip : ℕ) where
  deep :
      length ts + 1 < word
      → length ts < limit
      → skip ≤ length ts
      → backtrace_to_string limit (some ts) (length ts) skip prefix
        ≡ ok (lines prefix (drop skip ts) ++ (prefix ++ newline ∷ []))
  unfolding backtrace_to_string lines
  deep h k l =
      let (pre, e, p) = split skip ts l in
      let rest = drop skip ts in
      let n : length ts ≡ skip + length rest =
        omega (arith, ap (λ (us : List Text). length us) e, length-append pre rest, p) in
      let size : (length ts + word - skip + 1) % word ≡ suc (length rest) = omega (arith, n, h) in
      let rounds : length ts - skip ≡ length rest = omega (arith, n) in
      let filled =
        fill_lem rest pre [] ts (blanks (suc (length rest))) skip skip e refl (omega (arith, p))
          (omega arith) in
      let shown : List Text → Result Text = λ bt. ok (lines prefix bt) in
      ap (λ (r : Result (List Text)). r >>= fill (some ts) skip (length ts - skip) skip >>= shown)
        (resized_lem limit _ (suc (length rest)) size (omega (arith, n, k)))
      ∙ ap (λ (r : ℕ). fill (some ts) skip r skip (blanks (suc (length rest))) >>= shown) rounds
      ∙ ap (λ (r : Result (List Text)). r >>= shown) filled
      ∙ ap ok (
          lines-append prefix rest ([] ∷ [])
          ∙ ap (λ (t : Text). lines prefix rest ++ (t ++ newline ∷ [])) (append-nil prefix))

  empty : skip ≡ length ts + 1 → backtrace_to_string limit (some ts) (length ts) skip prefix ≡ ok []
  unfolding backtrace_to_string
  empty e =
      let size : (length ts + word - skip + 1) % word ≡ 0 = omega (arith, e) in
      let rounds : length ts - skip ≡ 0 = omega (arith, e) in
      let shown : List Text → Result Text = λ bt. ok (lines prefix bt) in
      ap (λ (r : Result (List Text)). r >>= fill (some ts) skip (length ts - skip) skip >>= shown)
        (resized_lem limit _ 0 size (omega arith))
      ∙ ap (λ (r : ℕ). fill (some ts) skip r skip [] >>= shown) rounds

  refused :
      length ts + 1 < skip
      → limit + skip < word
      → backtrace_to_string limit (some ts) (length ts) skip prefix ≡ fail thrown
  unfolding backtrace_to_string
  refused h k =
      let m : (length ts + word - skip + 1) % word ≡ length ts + word - skip + 1 =
        omega (arith, h, k) in
      let size : leb ((length ts + word - skip + 1) % word) limit ≡ false = ground (arith, m) in
      rw size refl

  -- Where backtrace_symbols gives a string for each address, and the vector can hold them and one more,
  -- BacktraceToString prints the strings from `skip` on, each behind the prefix on a line, and one more line with
  -- the prefix alone. Where `skip` is one more than the number of addresses it prints nothing; where it is
  -- greater, the vector's resize throws.
  pub backtrace_to_string_lem :
      length ts + 1 < word
      → length ts < limit
      → limit + skip < word
      → backtrace_to_string limit (some ts) (length ts) skip prefix ≡ printed prefix ts skip
  backtrace_to_string_lem h k l = elim (Bool-cases (leb skip (length ts))) [
    | inl e ↦ rw e (deep h k (ground arith))
    | inr e ↦ elim (Bool-cases (skip == length ts + 1)) [
      | inl d ↦ rw (e, d) (empty ((==_iff _ _).0 d))
      | inr d ↦ rw (e, d) (refused (ground arith) l)
    ]
  ]
