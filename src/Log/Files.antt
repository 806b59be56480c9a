-- ===== src/Log/Files.antt =====
-- ddg/log.cc, FileLogAppender with its std::ofstream, and the text of the file. Whether the file can be opened
-- and a text written is an argument of each call; a text is written whole or not at all.
pub mod Stuck
pub mod Written
use high_performance_server.Prelude.{
  ℕ, Bool, true, false, not, List, [], ◌∷◌, ◌++◌, Option, none, some, Text, if◌then◌else◌, Result,
  ok, fail, undefined, ◌>>=◌,
}
use high_performance_server.Log.Levels.{Level, debug}
use high_performance_server.Log.Formatter.{Event, Formatter, format}
use high_performance_server.Log.Logger.{at_least, Appender, file}

-- Of a std::ofstream: is_open() and fail().
pub record Stream : Type 0 where
  pub is_open : Bool
  pub failed : Bool

-- `text` is what the file holds.
pub record FileAppender : Type 0 where
  pub filename : Text
  pub level : Level
  pub formatter : Option Formatter
  pub stream : Stream
  pub text : Text

-- std::ofstream::open for writing, which empties the file; it fails where the stream is open already.
unfoldable pub open_stream : Bool → FileAppender → FileAppender
open_stream opens a =
    if a.stream.is_open
    then record a { stream = record { is_open = true; failed = true } }
    else if opens
    then record a { stream = record { is_open = true; failed = false }; text = [] }
    else record a { stream = record { is_open = false; failed = true } }

-- `m_filestream << s`; a stream that has failed writes nothing.
unfoldable pub write_text : Bool → Text → FileAppender → FileAppender
write_text fits s a =
    if a.stream.failed
    then a
    else if fits
    then record a { text = a.text ++ s }
    else record a { stream = record { is_open = a.stream.is_open; failed = true } }

-- FileLogAppender(file); `text` is what the file holds before.
unfoldable pub make_file : Bool → Text → Text → FileAppender
unfolding open_stream
make_file opens filename text = open_stream opens (record {
  filename = filename;
  level = debug;
  formatter = none;
  stream = record { is_open = false; failed = false };
  text = text;
})

-- FileLogAppender::log.
unfoldable pub log_file :
    (Text → ℕ → Text) → Bool → Level → Event → FileAppender → Result FileAppender
unfolding write_text
log_file date fits level event a =
    if at_least level a.level
    then elim a.formatter [
      | none ↦ fail undefined
      | some f ↦ ok (write_text fits (format date f level event) a)
    ]
    else ok a

abbrev pub closed : FileAppender → FileAppender
closed a = record a { stream = record { is_open = false; failed = a.stream.failed } }

-- FileLogAppender::reopen, and what it returns.
unfoldable pub reopen : Bool → FileAppender → Bool × FileAppender
unfolding open_stream
reopen opens a =
    let a1 = if a.stream.failed then a else closed a in
    let a2 = open_stream opens a1 in (a2.stream.failed, a2)

-- What is done with an appender.
pub data Act : Type 0 where
  logs : (fits : Bool) → Level → Event → Act
  reopens : (opens : Bool) → Act

unfoldable pub act : (Text → ℕ → Text) → Act → FileAppender → Result FileAppender
unfolding log_file reopen
act date (logs fits level event) a = log_file date fits level event a
act date (reopens opens) a = ok (reopen opens a).1

unfoldable pub act_all : (Text → ℕ → Text) → List Act → FileAppender → Result FileAppender
unfolding act
act_all date [] a = ok a
act_all date (x ∷ xs) a = act date x a >>= act_all date xs

-- The appender as a logger has it.
abbrev pub appender_of : FileAppender → Appender
appender_of a = record { sink = file a.filename; level = a.level; formatter = a.formatter }
