-- ===== src/Log/Formatter.antt =====
-- ddg/log.cc, LogFormatter: what its items print, and the change of its pattern. `date format time`
-- is what localtime_r and strftime print, an argument.
use high_performance_server.Prelude.{
  ℕ, zero, suc, ◌+◌, ◌/◌, ◌%◌, ltb, Bool, not, List, [], ◌∷◌, ◌++◌, Text, if◌then◌else◌, Result, ok,
  fail, ◌>>=◌,
}
use high_performance_server.Log.Levels.{Level, to_string}
use high_performance_server.Log.Pattern.{
  Item, string_item, date_time_item, message_item, level_item, elapse_item, name_item,
  thread_id_item, new_line_item, filename_item, line_item, tab_item, fiber_id_item, init_pattern,
}

-- `std::ostream << n`, in decimal: the digits of `n`, the last first, before `tail`.
unfoldable pub digits_onto : ℕ → ℕ → Text → Text
digits_onto zero n tail = tail
digits_onto (suc rounds) n tail =
    let more = digits_onto rounds (n / 10) ((n % 10 + b'0') ∷ tail) in
    if ltb n 10 then (n + b'0') ∷ tail else more

unfoldable pub decimal : ℕ → Text
unfolding digits_onto
decimal n = digits_onto (n + 1) n []

-- LogEvent, with the name of its logger.
pub record Event : Type 0 where
  pub logger_name : Text
  pub level : Level
  pub file : Text
  pub line : ℕ
  pub elapse : ℕ
  pub thread_id : ℕ
  pub fiber_id : ℕ
  pub time : ℕ
  pub content : Text

-- FormatItem::format of each class.
unfoldable pub format_item : (Text → ℕ → Text) → Level → Event → Item → Text
unfolding decimal to_string
format_item date level event (string_item s) = s
format_item date level event (date_time_item format) = date format event.time
format_item date level event message_item = event.content
format_item date level event level_item = to_string level
format_item date level event elapse_item = decimal event.elapse
format_item date level event name_item = event.logger_name
format_item date level event thread_id_item = decimal event.thread_id
format_item date level event new_line_item = b'\n' ∷ []
format_item date level event filename_item = event.file
format_item date level event line_item = decimal event.line
format_item date level event tab_item = b'\t' ∷ []
format_item date level event fiber_id_item = decimal event.fiber_id

-- LogFormatter: m_pattern, m_items, m_error.
pub record Formatter : Type 0 where
  pub pattern : Text
  pub items : List Item
  pub error : Bool

unfoldable pub make : Text → Result Formatter
make pattern =
    let (items, r) = init_pattern pattern in
    r >>= λ b. ok (record { pattern = pattern; items = items; error = not b })

-- The formatter after initPattern has pushed `items` on m_items; when it has thrown, m_error is not
-- assigned.
abbrev pub patterned : Formatter → List Item × Result Bool → Formatter × Result Bool
patterned f (items, ok b) = (record f { items = f.items ++ items; error = not b }, ok b)
patterned f (items, fail e) = (record f { items = f.items ++ items }, fail e)

unfoldable pub set_pattern : Text → Formatter → Formatter × Result Bool
set_pattern pattern f = patterned f (init_pattern pattern)

unfoldable pub format_items : (Text → ℕ → Text) → Level → Event → List Item → Text
format_items date level event [] = []
format_items date level event (i ∷ is) =
    format_item date level event i ++ format_items date level event is

unfoldable pub format : (Text → ℕ → Text) → Formatter → Level → Event → Text
unfolding format_items
format date f level event = format_items date level event f.items
