-- ===== src/Tests/Records.antt =====
-- The maps of the small document format, and the casts of the definitions of loggers over it.
use high_performance_server.Prelude.{
  true, false, List, [], ◌∷◌, ◌++◌, map, Text, same, same_iff, ok, ◌≡◌, refl, sym, ap, ◌∙◌, subst,
  All, ok_injective, inl, inr, Bool-cases,
}
use mathlib.Core.List.{append-nil, append_assoc}
use high_performance_server.Lexical.Laws.{
  Fields, Emits, assigned, pushed_at, HasFields, HasItems, HasTail, FieldLaws, Becomes,
}
use high_performance_server.Log.Casts.{inherit, log_to_string, log_from_string}
use high_performance_server.Log.Casts.RoundTrip.{log-Becomes}
use high_performance_server.Tests.Documents.{
  Node, raw, items, pairs, print, read, texts_of, value_at, push_under, toy, Same, toy_laws,
  read-print_items, read-print_pairs,
}
use high_performance_server.Tests.Defines.{net}

abbrev chosen : Fields → List (Text × Text)
chosen [] = []
chosen ((true, k, v) ∷ fs) = (k, v) ∷ chosen fs
chosen ((false, k, v) ∷ fs) = chosen fs

assigned_pairs :
    (fs : Fields) (acc : List (Text × Text))
    → assigned toy fs (pairs acc) ≡ pairs (acc ++ chosen fs)
assigned_pairs [] acc = ap pairs (sym (append-nil acc))
assigned_pairs ((true, k, v) ∷ fs) acc =
    assigned_pairs fs (acc ++ (k, v) ∷ []) ∙ ap pairs (append_assoc acc ((k, v) ∷ []) (chosen fs))
assigned_pairs ((false, k, v) ∷ fs) acc = assigned_pairs fs acc

-- No key of the list is `k`.
abbrev IsAbsent : Text → List (Text × Text) → Type 0
IsAbsent k [] = Unit
IsAbsent k ((j, v) ∷ es) = (same j k ≡ false) × IsAbsent k es

push_under_new :
    (k t : Text) (es : List (Text × Text))
    → IsAbsent k es
    → push_under k t es ≡ es ++ (k, print (items (t ∷ []))) ∷ []
push_under_new k t [] h = refl
push_under_new k t ((j, v) ∷ es) (e, h) = rw e (ap (◌∷◌ (j, v)) (push_under_new k t es h))

push_under_old :
    (k t v : Text) (es : List (Text × Text))
    → IsAbsent k es
    → push_under k t (es ++ (k, v) ∷ [])
      ≡ es ++ (k, print (items (texts_of (read v) ++ t ∷ []))) ∷ []
push_under_old k t v [] h = rw ((same_iff k k).1 refl) refl
push_under_old k t v ((j, w) ∷ es) (e, h) = rw e (ap (◌∷◌ (j, w)) (push_under_old k t v es h))

value_at_last :
    (k v : Text) (es : List (Text × Text)) → IsAbsent k es → value_at k (es ++ (k, v) ∷ []) ≡ v
value_at_last k v [] h = rw ((same_iff k k).1 refl) refl
value_at_last k v ((j, w) ∷ es) (e, h) = rw e (value_at_last k v es h)

pushed_more :
    (k : Text) (ns : List Node) (ts acc : List Text) (es : List (Text × Text))
    → IsAbsent k es
    → Emits toy ns ts
    → pushed_at toy k ns (pairs (es ++ (k, print (items acc)) ∷ []))
      ≡ pairs (es ++ (k, print (items (acc ++ ts))) ∷ [])
pushed_more k [] [] acc es h m =
    ap (λ x. pairs (es ++ (k, print (items x)) ∷ [])) (sym (append-nil acc))
pushed_more k (n ∷ ns) (t ∷ ts) acc es h (e, m) =
    let p : print n ≡ t = ok_injective e in
    let q = ap texts_of (read-print_items acc) in
    ap (λ x. pushed_at toy k ns (pairs x))
      (push_under_old k (print n) (print (items acc)) es h
        ∙ ap (λ x. es ++ (k, print (items (x ++ print n ∷ []))) ∷ []) q)
    ∙ pushed_more k ns ts (acc ++ print n ∷ []) es h m
    ∙ ap (λ x. pairs (es ++ (k, print (items x)) ∷ []))
        (append_assoc acc (print n ∷ []) ts ∙ ap (λ x. acc ++ x ∷ ts) p)
pushed_more k [] (t ∷ ts) acc es h m = elim m [ ]
pushed_more k (n ∷ ns) [] acc es h m = elim m [ ]

abbrev tail_pairs : Text → List Text → List (Text × Text)
tail_pairs k [] = []
tail_pairs k (t ∷ ts) = (k, print (items (t ∷ ts))) ∷ []

pushed_pairs :
    (k : Text) (ns : List Node) (ts : List Text) (es : List (Text × Text))
    → IsAbsent k es
    → Emits toy ns ts
    → pushed_at toy k ns (pairs es) ≡ pairs (es ++ tail_pairs k ts)
pushed_pairs k [] [] es h m = ap pairs (sym (append-nil es))
pushed_pairs k (n ∷ ns) (t ∷ ts) es h (e, m) =
    let p : print n ≡ t = ok_injective e in
    ap (λ x. pushed_at toy k ns (pairs x)) (push_under_new k (print n) es h)
    ∙ pushed_more k ns ts (print n ∷ []) es h m
    ∙ ap (λ x. pairs (es ++ (k, print (items (x ∷ ts))) ∷ [])) p
pushed_pairs k [] (t ∷ ts) es h m = elim m [ ]
pushed_pairs k (n ∷ ns) [] es h m = elim m [ ]

same_other : (j k : Text) → same k j ≡ false → same j k ≡ false
same_other j k h = elim (Bool-cases (same j k)) [
  | inl e ↦
      let q = (same_iff j k).0 e in
      let c : same k j ≡ true = (same_iff k j).1 (sym q) in absurd (cc)
  | inr e ↦ e
]

chosen-IsAbsent :
    (k : Text) (fs : Fields)
    → All (λ j. same k j ≡ false) (map (λ (b, j, v). j) fs)
    → IsAbsent k (chosen fs)
chosen-IsAbsent k [] h = tt
chosen-IsAbsent k ((true, j, v) ∷ fs) (e, h) = (same_other j k e, chosen-IsAbsent k fs h)
chosen-IsAbsent k ((false, j, v) ∷ fs) (e, h) = chosen-IsAbsent k fs h

chosen-HasFields :
    (fs : Fields) (tail : List (Text × Text))
    → HasFields toy (toy.entries (pairs (chosen fs ++ tail))) fs (toy.entries (pairs tail))
chosen-HasFields [] tail = refl
chosen-HasFields ((true, k, v) ∷ fs) tail = (refl, refl, chosen-HasFields fs tail)
chosen-HasFields ((false, k, v) ∷ fs) tail = chosen-HasFields fs tail

raw-HasItems : (ts : List Text) → HasItems toy Same (map raw ts) ts
raw-HasItems [] = tt
raw-HasItems (t ∷ ts) = ((t, refl, refl), raw-HasItems ts)

tail_pairs-HasTail :
    (k : Text) (es : List (Text × Text)) (ts : List Text)
    → IsAbsent k es
    → HasTail toy Same (pairs (es ++ tail_pairs k ts)) (toy.entries (pairs (tail_pairs k ts))) k ts
tail_pairs-HasTail k es [] h = refl
tail_pairs-HasTail k es (t ∷ ts) h =
    let v = print (items (t ∷ ts)) in
    let e : read (value_at k (es ++ (k, v) ∷ [])) ≡ items (t ∷ ts) =
      ap read (value_at_last k v es h) ∙ read-print_items (t ∷ ts) in
    (
      raw k,
      raw v,
      refl,
      refl,
      subst (λ n. HasItems toy Same (map raw (texts_of n)) (t ∷ ts)) (sym e)
          (raw-HasItems (t ∷ ts)),
    )

pub toy_fields : FieldLaws toy Same
toy_fields = record {
  reload_fields = λ fs k ns ts distinct m.
      let es = chosen fs in
      let a = chosen-IsAbsent k fs distinct.0 in
      let node = pairs (es ++ tail_pairs k ts) in
      let e : pushed_at toy k ns (assigned toy fs toy.null) ≡ node =
        ap (pushed_at toy k ns) (assigned_pairs fs []) ∙ pushed_pairs k ns ts es a m in
      (
        print node,
        ap (λ n. ok (print n)) e,
        λ u s. (
          node,
          toy.entries (pairs (tail_pairs k ts)),
          ap ok (sym s ∙ read-print_pairs (es ++ tail_pairs k ts)),
          chosen-HasFields fs (tail_pairs k ts),
          tail_pairs-HasTail k es ts a,
        ),
      );
}

log-Becomes_example :
    Becomes toy Same (log_to_string toy) (log_from_string toy) net (inherit net)
    × (inherit (inherit net) ≡ inherit net)
log-Becomes_example = log-Becomes toy Same toy_laws toy_fields net (record {
  has_name = refl;
  level_named = tt;
  valid = inl refl;
  appenders_named = (tt, (tt, tt));
})
