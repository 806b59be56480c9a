-- ===== src/Utils.antt =====
-- ddg/utils.cc: backtraces and clocks. What backtrace, backtrace_symbols and gettimeofday give is an
-- argument.
pub mod Lines
use high_performance_server.Prelude.{
  ℕ, zero, suc, ◌+◌, ◌-◌, ◌*◌, ◌/◌, ◌%◌, ltb, leb, ◌==◌, List, [], ◌∷◌, ◌++◌, Option, none, some,
  length, get_elem?, set, Text, if◌then◌else◌, Result, ok, fail, thrown, undefined, ◌>>=◌,
}
use high_performance_server.Fiber.{word}

abbrev pub blanks : ℕ → List Text
blanks zero = []
blanks (suc n) = [] ∷ blanks n

-- `bt.resize(n)` of an empty vector. A size above `limit` is refused with an exception.
abbrev pub resized : ℕ → ℕ → Result (List Text)
resized limit n = if leb n limit then ok (blanks n) else fail thrown

-- `strings[j]`; backtrace_symbols gives a null pointer where it fails.
abbrev pub string_at : Option (List Text) → ℕ → Result Text
string_at none j = fail undefined
string_at (some strings) j = elim (get_elem? strings j) [ none ↦ fail undefined | some t ↦ ok t ]

-- `bt[k] = t`.
abbrev pub assign_at : List Text → ℕ → Text → Result (List Text)
assign_at bt k t = if ltb k (length bt) then ok (set bt k t) else fail undefined

-- `for (j = skip; j < nptrs; j++)`, from `j` on, with the rounds that are left.
unfoldable pub fill : Option (List Text) → ℕ → ℕ → ℕ → List Text → Result (List Text)
fill strings skip zero j bt = ok bt
fill strings skip (suc rounds) j bt =
    string_at strings j >>= λ t. assign_at bt (j - skip) t >>= fill strings skip rounds (j + 1)

-- BackTrace: backtrace gives `nptrs` addresses. The size is computed on words of 64 bits.
unfoldable pub back_trace : ℕ → Option (List Text) → ℕ → ℕ → Result (List Text)
unfolding fill
back_trace limit strings nptrs skip =
    resized limit ((nptrs + word - skip + 1) % word) >>= fill strings skip (nptrs - skip) skip

abbrev pub newline : ℕ
newline = 10

unfoldable pub lines : Text → List Text → Text
lines prefix [] = []
lines prefix (t ∷ bt) = prefix ++ t ++ newline ∷ lines prefix bt

unfoldable pub backtrace_to_string : ℕ → Option (List Text) → ℕ → ℕ → Text → Result Text
unfolding back_trace lines
backtrace_to_string limit strings nptrs skip prefix =
    back_trace limit strings nptrs skip >>= λ bt. ok (lines prefix bt)

-- What gettimeofday returns, and the seconds and microseconds that it sets where it returns 0.
pub record TimeOfDay : Type 0 where
  pub ret : ℕ
  pub sec : ℕ
  pub usec : ℕ

-- The test is `!ret`. Where gettimeofday has failed, `tv` has no value.
unfoldable pub get_current_micro_second : TimeOfDay → Result ℕ
get_current_micro_second t = if t.ret == 0 then fail thrown else fail undefined

unfoldable pub get_current_milli_second : TimeOfDay → Result ℕ
get_current_milli_second t =
    if t.ret == 0 then ok ((t.sec * 1000 + t.usec / 1000) % word) else fail thrown
