-- ===== src/Log/Pieces.antt =====
-- Patterns that are put together from texts and directives, and the items that they stand for.
use high_performance_server.Prelude.{
  ℕ, ◌==◌, Bool, true, false, not, ◌&&◌, List, [], ◌∷◌, ◌++◌, is_empty, Text, ◌≡◌,
}
use high_performance_server.Log.Pattern.{
  percent, Token, ends_name, literal, Item, string_item, date_time_item, message_item, level_item,
  elapse_item, name_item, thread_id_item, new_line_item, filename_item, line_item, tab_item,
  fiber_id_item, default_date,
}

-- The letters of s_format_items.
pub data Letter : Type 0 where
  letter_m letter_p letter_r letter_c letter_t letter_n : Letter
  letter_d letter_f letter_l letter_tab letter_fiber letter_thread_name : Letter

abbrev pub char_of : Letter → ℕ
char_of letter_m = b'm'
char_of letter_p = b'p'
char_of letter_r = b'r'
char_of letter_c = b'c'
char_of letter_t = b't'
char_of letter_n = b'n'
char_of letter_d = b'd'
char_of letter_f = b'f'
char_of letter_l = b'l'
char_of letter_tab = b'T'
char_of letter_fiber = b'F'
char_of letter_thread_name = b'N'

abbrev pub item_for : Letter → Item
item_for letter_m = message_item
item_for letter_p = level_item
item_for letter_r = elapse_item
item_for letter_c = name_item
item_for letter_t = thread_id_item
item_for letter_n = new_line_item
item_for letter_d = date_time_item default_date
item_for letter_f = filename_item
item_for letter_l = line_item
item_for letter_tab = tab_item
item_for letter_fiber = fiber_id_item
item_for letter_thread_name = thread_id_item

-- A text, a directive `%x`, or a directive `%x{…}`.
pub data Piece : Type 0 where
  text : Text → Piece
  plain : Letter → Piece
  braced : Letter → Text → Piece

abbrev pub print : List Piece → Text
print [] = []
print (text s ∷ ps) = s ++ print ps
print (plain k ∷ ps) = percent ∷ char_of k ∷ print ps
print (braced k fmt ∷ ps) = percent ∷ char_of k ∷ b'{' ∷ (fmt ++ b'}' ∷ print ps)

abbrev pub piece_item : Piece → Item
piece_item (text s) = string_item s
piece_item (plain k) = item_for k
piece_item (braced k fmt) = item_for k

abbrev pub token_of : Piece → Token
token_of (text s) = literal s
token_of (plain k) = record { str = char_of k ∷ []; fmt = []; directive = true }
token_of (braced k fmt) = record { str = char_of k ∷ []; fmt = fmt; directive = true }

abbrev pub lacks : ℕ → Text → Bool
lacks c [] = true
lacks c (d ∷ s) = not (d == c) && lacks c s

-- The text ends a directive's name: it is empty, or its first byte is no letter and no brace.
abbrev pub ends_directive : Text → Bool
ends_directive [] = true
ends_directive (c ∷ s) = ends_name c

abbrev pub starts_text : List Piece → Bool
starts_text (text s ∷ ps) = true
starts_text _ = false

-- Texts are not empty, hold no `%` and do not follow one another; `%x` is followed by what ends
-- its name; the format in braces holds no `}`.
abbrev pub IsWellFormed : List Piece → Type 0
IsWellFormed [] = Unit {0}
IsWellFormed (text s ∷ ps) =
    (is_empty s ≡ false) × (lacks percent s ≡ true) × (starts_text ps ≡ false) × IsWellFormed ps
IsWellFormed (plain k ∷ ps) = (ends_directive (print ps) ≡ true) × IsWellFormed ps
IsWellFormed (braced k fmt ∷ ps) = (lacks b'}' fmt ≡ true) × IsWellFormed ps
