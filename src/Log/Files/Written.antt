-- ===== src/Log/Files/Written.antt =====
-- What a file appender writes, and the outputs of a logger's appender.
use high_performance_server.Prelude.{
  ℕ, true, false, List, [], ◌∷◌, ◌++◌, Option, none, some, Text, if◌then◌else◌, Result, ok, fail,
  undefined, ◌>>=◌, ◌≡◌, refl, sym, ap, ◌∙◌, Bool-cases, inl, inr,
}
use mathlib.Core.List.{append-nil, append_assoc}
use high_performance_server.Log.Levels.{Level}
use high_performance_server.Log.Formatter.{Event, Formatter, format}
use high_performance_server.Log.Logger.{Appender, Output, file, at_least, append_event}
use high_performance_server.Log.Files.{
  FileAppender, write_text, log_file, Act, logs, act, act_all, appender_of,
}

-- The outputs of the events, one after the other, of the appender as a logger has it.
abbrev pub outputs : (Text → ℕ → Text) → List (Level × Event) → Appender → Result (List Output)
outputs date [] a = ok []
outputs date ((level, event) ∷ es) a =
    append_event date level event a >>= λ out. outputs date es a >>= λ more. ok (out ++ more)

abbrev pub texts : List Output → Text
texts [] = []
texts (o ∷ os) = o.text ++ texts os

abbrev pub all_fit : List (Level × Event) → List Act
all_fit [] = []
all_fit ((level, event) ∷ es) = logs true level event ∷ all_fit es

abbrev pub written : Text → FileAppender → FileAppender
written s a = record a { text = a.text ++ s }

written_append : (a : FileAppender) (s t : Text) → written t (written s a) ≡ written (s ++ t) a
written_append a s t = λ i. record a { text = append_assoc a.text s t i }

write_text-written :
    (s : Text) (a : FileAppender) → a.stream.failed ≡ false → write_text true s a ≡ written s a
unfolding write_text
write_text-written s a h = ap (λ b. if b then a else written s a) h

written_nil : (a : FileAppender) → written [] a ≡ a
written_nil a = λ i. record a { text = append-nil a.text i }

-- The text of one event, given the appender's formatter.
format-written :
    (date : Text → ℕ → Text) (level : Level) (event : Event) (a : FileAppender)
    (o : Option Formatter)
    → a.stream.failed ≡ false
    → elim o [ none ↦ fail undefined | some f ↦ ok (write_text true (format date f level event) a) ]
      ≡ (elim o [
        | none ↦ fail undefined
        | some f ↦ ok (record { sink = file a.filename; text = format date f level event } ∷ [])
      ]
          >>= λ out. ok (written (texts out) a))
format-written date level event a none h = refl
format-written date level event a (some f) h =
    let s = format date f level event in
    ap ok (write_text-written s a h) ∙ ap (λ t. ok (written t a)) (sym (append-nil s))

log_file-written :
    (date : Text → ℕ → Text) (level : Level) (event : Event) (a : FileAppender)
    → a.stream.failed ≡ false
    → log_file date true level event a
      ≡ (append_event date level event (appender_of a) >>= λ out. ok (written (texts out) a))
unfolding log_file append_event
log_file-written date level event a h = elim (Bool-cases (at_least level a.level)) [
  | inl k ↦ rw k (format-written date level event a a.formatter h)
  | inr k ↦ rw k (ap ok (sym (written_nil a)))
]

texts-concat : (xs ys : List Output) → texts (xs ++ ys) ≡ texts xs ++ texts ys
texts-concat [] ys = refl
texts-concat (x ∷ xs) ys =
    ap (◌++◌ x.text) (texts-concat xs ys) ∙ sym (append_assoc x.text (texts xs) (texts ys))

-- Two events after another.
written-bind :
    (r : Result (List Output)) (out : List Output) (a : FileAppender)
    → (r >>= λ more. ok (written (texts more) (written (texts out) a)))
      ≡ ((r >>= λ more. ok (out ++ more)) >>= λ all. ok (written (texts all) a))
written-bind (fail why) out a = refl
written-bind (ok more) out a =
    ap ok (written_append a (texts out) (texts more))
    ∙ ap (λ t. ok (written t a)) (sym (texts-concat out more))

-- An event, and those that follow.
after_event :
    (date : Text → ℕ → Text) (es : List (Level × Event)) (a : FileAppender)
    → ((out : List Output)
        → act_all date (all_fit es) (written (texts out) a) ≡ (
            outputs date es (appender_of a) >>= λ more.
            ok (written (texts more) (written (texts out) a))))
    → (r : Result (List Output))
    → ((r >>= λ out. ok (written (texts out) a)) >>= act_all date (all_fit es)) ≡ (
        (r >>= λ out. outputs date es (appender_of a) >>= λ more. ok (out ++ more)) >>= λ all.
        ok (written (texts all) a))
after_event date es a rest (fail why) = refl
after_event date es a rest (ok out) =
    rest out ∙ written-bind (outputs date es (appender_of a)) out a

-- While every write succeeds, a file appender whose stream works writes to its file exactly the texts of the outputs that
-- the events have for the appender as a logger has it, in their order, behind what the file holds; and it fails
-- where those fail.
pub act_all-written :
    (date : Text → ℕ → Text) (es : List (Level × Event)) (a : FileAppender)
    → a.stream.failed ≡ false
    → act_all date (all_fit es) a
      ≡ (outputs date es (appender_of a) >>= λ out. ok (written (texts out) a))
unfolding act_all act
act_all-written date [] a h = ap ok (sym (written_nil a))
act_all-written date ((level, event) ∷ es) a h =
    ap (λ r. r >>= act_all date (all_fit es)) (log_file-written date level event a h)
    ∙ after_event date es a (λ out. act_all-written date es (written (texts out) a) h)
        (append_event date level event (appender_of a))
