-- ===== src/Log/Files/Stuck.antt =====
-- A file appender whose stream has failed.
use high_performance_server.Prelude.{
  ℕ, Bool, true, false, not, List, [], ◌∷◌, ◌++◌, none, some, Text, if◌then◌else◌, ok, fail,
  undefined, ◌>>=◌, ◌≡◌, refl, sym, ap, ◌∙◌, Bool-cases, inl, inr, arith,
}
use high_performance_server.Log.Levels.{Level}
use high_performance_server.Log.Formatter.{Event, Formatter, format}
use high_performance_server.Log.Logger.{at_least}
use high_performance_server.Log.Files.{
  FileAppender, open_stream, write_text, log_file, reopen, closed, Act, logs, reopens, act, act_all,
}

-- The stream has failed while the file was open.
abbrev pub is_broken : FileAppender → Bool
is_broken a = if a.stream.is_open then a.stream.failed else false

-- Where the stream works, reopening returns the opposite of whether the file could be opened. If it could be,
-- what was written to it is gone; else it is left as it was, and the stream has failed and is not open.
pub reopen_lem :
    (opens : Bool) (a : FileAppender)
    → a.stream.failed ≡ false
    → ((reopen opens a).0 ≡ not opens)
      × ((reopen opens a).1.text ≡ (if opens then [] else a.text))
      × ((reopen opens a).1.stream ≡ record { is_open = opens; failed = not opens })
unfolding reopen open_stream
reopen_lem true a h = rw h (refl, refl, refl)
reopen_lem false a h = rw h (refl, refl, refl)

is_broken-both :
    (a : FileAppender) → is_broken a ≡ true → (a.stream.is_open ≡ true) × (a.stream.failed ≡ true)
is_broken-both a h = ground arith

broken_again :
    (a : FileAppender)
    → is_broken a ≡ true
    → record a { stream = record { is_open = true; failed = true } } ≡ a
broken_again a h =
    let (p, q) = is_broken-both a h in
    λ i. record a { stream = record { is_open = sym p i; failed = sym q i } }

open_stream-broken :
    (opens : Bool) (a : FileAppender) → is_broken a ≡ true → open_stream opens a ≡ a
unfolding open_stream
open_stream-broken opens a h =
    ap
      (λ b.
        if b
        then record a { stream = record { is_open = true; failed = true } }
        else if opens
        then record a { stream = record { is_open = true; failed = false }; text = [] }
        else record a { stream = record { is_open = false; failed = true } })
      (is_broken-both a h).0
    ∙ broken_again a h

reopen-broken : (opens : Bool) (a : FileAppender) → is_broken a ≡ true → reopen opens a ≡ (true, a)
unfolding reopen
reopen-broken opens a h =
    let (p, q) = is_broken-both a h in
    ap (λ b. let a2 = open_stream opens (if b then a else closed a) in (a2.stream.failed, a2)) q
    ∙ ap (λ (a2 : FileAppender). (a2.stream.failed, a2)) (open_stream-broken opens a h)
    ∙ ap (λ b. (b, a)) q

write_text-broken :
    (fits : Bool) (s : Text) (a : FileAppender) → is_broken a ≡ true → write_text fits s a ≡ a
unfolding write_text
write_text-broken fits s a h =
    ap
      (λ b.
        if b
        then a
        else if fits
        then record a { text = a.text ++ s }
        else record a { stream = record { is_open = a.stream.is_open; failed = true } })
      (is_broken-both a h).1

log_file-broken :
    (date : Text → ℕ → Text) (fits : Bool) (level : Level) (event : Event) (a : FileAppender)
    (f : Formatter)
    → a.formatter ≡ some f
    → is_broken a ≡ true
    → log_file date fits level event a ≡ ok a
unfolding log_file
log_file-broken date fits level event a f e h = elim (Bool-cases (at_least level a.level)) [
  | inl k ↦ rw k (
      ap
        (λ o. elim o [
          | none ↦ fail undefined
          | some f ↦ ok (write_text fits (format date f level event) a)
        ])
        e
      ∙ ap ok (write_text-broken fits (format date f level event) a h))
  | inr k ↦ rw k refl
]

act-broken :
    (date : Text → ℕ → Text) (x : Act) (a : FileAppender) (f : Formatter)
    → a.formatter ≡ some f
    → is_broken a ≡ true
    → act date x a ≡ ok a
unfolding act
act-broken date (logs fits level event) a f e h = log_file-broken date fits level event a f e h
act-broken date (reopens opens) a f e h =
    ap (λ (r : Bool × FileAppender). ok r.1) (reopen-broken opens a h)

-- Once a write has failed, an appender with a formatter is dead: whatever is logged and however often it is
-- reopened, every call returns, nothing is written, and reopening reports the failure, since it does not close a
-- stream that has failed and a stream that is open cannot be opened.
pub act_all-broken :
    (date : Text → ℕ → Text) (xs : List Act) (a : FileAppender) (f : Formatter) (opens : Bool)
    → a.formatter ≡ some f
    → is_broken a ≡ true
    → (act_all date xs a ≡ ok a) × (reopen opens a ≡ (true, a))
unfolding act_all
act_all-broken date [] a f opens e h = (refl, reopen-broken opens a h)
act_all-broken date (x ∷ xs) a f opens e h =
    let (k, r) = act_all-broken date xs a f opens e h in
    (ap (λ y. y >>= act_all date xs) (act-broken date x a f e h) ∙ k, r)
