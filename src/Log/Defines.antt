-- ===== src/Log/Defines.antt =====
-- ddg/log.h and ddg/log.cc: LogAppenderDefine and LogDefine, what the configuration says of a logger, and how
-- they compare.
use high_performance_server.Prelude.{
  ltb, Bool, true, false, ◌&&◌, ◌||◌, ◌==◌, List, [], ◌∷◌, Text, codes, same, if◌then◌else◌,
}
use high_performance_server.Log.Levels.{Level, unknow, rank}

-- LogAppender::Type.
pub data AppenderType : Type 0 where
  file_log_appender stdout_log_appender unknow_appender : AppenderType

unfoldable pub type_from_string : Text → AppenderType
unfolding same
type_from_string name =
    if same (codes "FileLogAppender") name
    then file_log_appender
    else if same (codes "StdoutLogAppender") name
    then stdout_log_appender
    else unknow_appender

unfoldable pub type_to_string : AppenderType → Text
type_to_string file_log_appender = codes "FileLogAppender"
type_to_string stdout_log_appender = codes "StdoutLogAppender"
type_to_string unknow_appender = codes "UnknowAppender"

pub record AppenderDefine : Type 0 where
  pub type : AppenderType
  pub level : Level
  pub formatter : Text
  pub file : Text

pub record LogDefine : Type 0 where
  pub name : Text
  pub level : Level
  pub formatter : Text
  pub appenders : List AppenderDefine

abbrev pub eq_type : AppenderType → AppenderType → Bool
eq_type file_log_appender file_log_appender = true
eq_type stdout_log_appender stdout_log_appender = true
eq_type unknow_appender unknow_appender = true
eq_type _ _ = false

-- Levels are compared as numbers.
abbrev pub eq_level : Level → Level → Bool
eq_level a b = rank a == rank b

-- LogAppenderDefine::operator==, which compares `oth.file` with itself.
unfoldable pub eq_appender : AppenderDefine → AppenderDefine → Bool
eq_appender a oth =
    eq_type a.type oth.type
    && eq_level a.level oth.level
    && same a.formatter oth.formatter
    && same oth.file oth.file

abbrev pub eq_appenders : List AppenderDefine → List AppenderDefine → Bool
eq_appenders [] [] = true
eq_appenders (a ∷ as1) (b ∷ bs) = eq_appender a b && eq_appenders as1 bs
eq_appenders _ _ = false

unfoldable pub eq_define : LogDefine → LogDefine → Bool
unfolding eq_appender
eq_define d oth =
    eq_appenders d.appenders oth.appenders
    && same d.name oth.name
    && eq_level d.level oth.level
    && same d.formatter oth.formatter

-- `operator<` of std::string.
unfoldable pub text_less : Text → Text → Bool
text_less [] [] = false
text_less [] (b ∷ t) = true
text_less (a ∷ s) [] = false
text_less (a ∷ s) (b ∷ t) = ltb a b || a == b && text_less s t

abbrev pub less_define : LogDefine → LogDefine → Bool
less_define d oth = text_less d.name oth.name

abbrev pub is_unknow : Level → Bool
is_unknow l = eq_level l unknow
