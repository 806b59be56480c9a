-- ===== src/Log/Levels.antt =====
-- ddg/log.h and ddg/log.cc, LogLevel: the levels, their order and their names.
use high_performance_server.Prelude.{
  ℕ, ◌-◌, leb, ◌&&◌, map, Text, codes, same, if◌then◌else◌, ◌≡◌, refl,
}

-- LogLevel::Level; `cast n` is another number cast to it, as the 100 of a removed logger.
pub data Level : Type 0 where
  debug info warn error fatal unknow : Level
  cast : ℕ → Level

-- The enumerator's value.
abbrev pub rank : Level → ℕ
rank debug = 1
rank info = 2
rank warn = 3
rank error = 4
rank fatal = 5
rank unknow = 6
rank (cast n) = n

unfoldable pub to_string : Level → Text
to_string debug = codes "DEBUG"
to_string info = codes "INFO"
to_string warn = codes "WARN"
to_string error = codes "ERROR"
to_string fatal = codes "FATAL"
to_string _ = codes "UNKNOW"

-- ::toupper and ::tolower on a byte, in the C locale.
abbrev pub to_upper : ℕ → ℕ
to_upper c = if leb b'a' c && leb c b'z' then c - 32 else c

unfoldable pub from_string : Text → Level
unfolding same
from_string level =
    let name = map to_upper level in
    if same (codes "DEBUG") name
    then debug
    else if same (codes "INFO") name
    then info
    else if same (codes "WARN") name
    then warn
    else if same (codes "ERROR") name
    then error
    else if same (codes "FATAL") name
    then fatal
    else unknow

-- A text that differs from another in the case of its letters only.
abbrev pub SameLetters : Text → Text → Type 0
SameLetters s t = map to_upper s ≡ map to_upper t

-- Reading a level back from its name, in any case of the letters, gives the level; a number cast
-- to the type is read back as UNKNOW.
pub from_string-to_string :
    (l : Level) (t : Text)
    → SameLetters t (to_string l)
    → from_string t ≡ (elim l [ cast n ↦ unknow | other ↦ other ])
unfolding from_string to_string
from_string-to_string debug t h = rw h refl
from_string-to_string info t h = rw h refl
from_string-to_string warn t h = rw h refl
from_string-to_string error t h = rw h refl
from_string-to_string fatal t h = rw h refl
from_string-to_string unknow t h = rw h refl
from_string-to_string (cast n) t h = rw h refl
