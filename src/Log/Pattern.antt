-- ===== src/Log/Pattern.antt =====
-- ddg/log.cc, LogFormatter::initPattern: a pattern is cut into texts and directives, and each
-- directive becomes an item.
use high_performance_server.Prelude.{
  ℕ, zero, suc, leb, ◌==◌, Bool, true, false, not, ◌&&◌, ◌||◌, List, [], ◌∷◌, ◌++◌, Option, none,
  some, length, Text, codes, if◌then◌else◌, Result, ok, fail, thrown, unfinished,
}

abbrev pub percent : ℕ
percent = b'%'

abbrev pub is_alpha : ℕ → Bool
is_alpha c = leb b'a' c && leb c b'z' || leb b'A' c && leb c b'Z'

-- An entry of `vec`: str, fmt, and whether the type is 1.
pub record Token : Type 0 where
  pub str : Text
  pub fmt : Text
  pub directive : Bool

-- What the inner `while` leaves: str, fmt, whether fmt_status is 0, and the pattern from `n` on.
pub record Directive : Type 0 where
  pub str : Text
  pub fmt : Text
  pub closed : Bool
  pub rest : Text

-- fmt_status 1: `fmt` holds what follows the brace.
abbrev pub scan_braces : Text → Text → Text → Directive
scan_braces str fmt [] = record { str = str; fmt = []; closed = false; rest = [] }
scan_braces str fmt (c ∷ r) =
    if c == b'}'
    then record { str = str; fmt = fmt; closed = true; rest = r }
    else scan_braces str (fmt ++ c ∷ []) r

abbrev pub ends_name : ℕ → Bool
ends_name c = not (is_alpha c) && not (c == b'{') && not (c == b'}')

-- fmt_status 0: `acc` is the pattern between `i` and `n`.
unfoldable pub scan_name : Text → Text → Directive
scan_name acc [] = record { str = acc; fmt = []; closed = true; rest = [] }
scan_name acc (c ∷ r) =
    let longer = scan_name (acc ++ c ∷ []) r in
    if ends_name c
    then record { str = acc; fmt = []; closed = true; rest = c ∷ r }
    else if c == b'{'
    then scan_braces acc [] r
    else longer

abbrev pub starts_with : ℕ → Text → Bool
starts_with c [] = false
starts_with c (d ∷ r) = d == c

abbrev pub literal : Text → Token
literal s = record { str = s; fmt = []; directive = false }

-- `if (!nstr.empty()) vec.push_back(…)`.
abbrev pub flush : Text → List Token
flush [] = []
flush (c ∷ s) = literal (c ∷ s) ∷ []

abbrev pub error_token : Token
error_token = literal (codes "<<pattern_error>>")

-- Tokens in front of the rest, and the error flag; `none` means that the fuel ran out.
abbrev pub Lexed : Type 0
Lexed = Option (List Token × Bool)

abbrev pub before : List Token → Bool → Lexed → Lexed
before ts error none = none
before ts error (some (us, e)) = some (ts ++ us, error || e)

-- The `for`, from the pattern's suffix at `i`; `nstr` is the text that is not yet in `vec`.
unfoldable pub lex : ℕ → Text → Text → Lexed
lex fuel [] nstr = some (flush nstr, false)
lex zero (c ∷ r) nstr = none
lex (suc fuel) (c ∷ r) nstr =
    let more = lex fuel r (nstr ++ c ∷ []) in
    let d = scan_name [] r in
    let after = lex fuel d.rest [] in
    let again = lex fuel r nstr in
    if not (c == percent) || starts_with percent r
    then more
    else if d.closed
    then before (flush nstr ++ record { str = d.str; fmt = d.fmt; directive = true } ∷ []) false
        after
    else before (error_token ∷ []) true again

-- The items; a DateTimeFormatItem holds its format.
pub data Item : Type 0 where
  string_item : Text → Item
  date_time_item : Text → Item
  message_item level_item elapse_item name_item thread_id_item : Item
  new_line_item filename_item line_item tab_item fiber_id_item : Item

abbrev pub default_date : Text
default_date = codes "%Y-%m-%d %H:%M:%S"

-- s_format_items: no factory reads its argument.
abbrev pub directive_item : ℕ → Option Item
directive_item c =
    if c == b'm'
    then some message_item
    else if c == b'p'
    then some level_item
    else if c == b'r'
    then some elapse_item
    else if c == b'c'
    then some name_item
    else if c == b't'
    then some thread_id_item
    else if c == b'n'
    then some new_line_item
    else if c == b'd'
    then some (date_time_item default_date)
    else if c == b'f'
    then some filename_item
    else if c == b'l'
    then some line_item
    else if c == b'T'
    then some tab_item
    else if c == b'F'
    then some fiber_id_item
    else if c == b'N'
    then some thread_id_item
    else none

abbrev pub find_item : Text → Option Item
find_item (c ∷ []) = directive_item c
find_item _ = none

-- The item of a token, and whether it sets `error`.
abbrev pub item_of : Token → Item × Bool
item_of t = if not t.directive then (string_item t.str, false) else elim (find_item t.str) [
  | some item ↦ (item, false)
  | none ↦ (string_item (codes "<<error_format %" ++ t.str ++ codes ">>"), true)
]

unfoldable pub items_of : List Token → List Item × Bool
items_of [] = ([], false)
items_of (t ∷ ts) = let (items, e) = items_of ts in ((item_of t).0 ∷ items, (item_of t).1 || e)

abbrev finish : Lexed → List Item × Result Bool
finish none = ([], fail unfinished)
finish (some (ts, error)) =
    let (items, e) = items_of ts in (items, if error || e then fail thrown else ok true)

-- LogFormatter::initPattern: what it pushes on `items`, and how it ends.
unfoldable pub init_pattern : Text → List Item × Result Bool
init_pattern pattern = finish (lex (length pattern) pattern [])
