-- ===== src/Tests/Documents.antt =====
-- A small document format in place of yaml-cpp: a text that starts with 0 is a sequence of texts, one that
-- starts with 1 a list of keys and values, and any other a scalar.
use high_performance_server.Prelude.{
  same, if◌then◌else◌, ℕ, zero, suc, ◌+◌, List, [], ◌∷◌, ◌++◌, map, length, length-append, Text,
  Result, ok, fail, thrown, ◌≡◌, refl, sym, ap, ◌∙◌, subst, ok_injective, arith,
}
use mathlib.Core.List.{append-nil, append_assoc}
use high_performance_server.Lexical.{Yaml, Cast}
use high_performance_server.Lexical.Laws.{
  Emits, pushed, HasElements, inserted, EmitsValues, HasEntries, YamlLaws, IsFaithful,
}

pub data Node : Type 0 where
  raw : Text → Node
  items : List Text → Node
  pairs : List (Text × Text) → Node

-- The texts, each one more than its code points and with 0 behind it.
abbrev encode : List Text → Text
encode [] = []
encode (t ∷ ts) = map suc t ++ 0 ∷ encode ts

abbrev to_first : ℕ → List Text → List Text
to_first c [] = (c ∷ []) ∷ []
to_first c (t ∷ ts) = (c ∷ t) ∷ ts

abbrev decode : Text → List Text
decode [] = []
decode (zero ∷ r) = [] ∷ decode r
decode (suc c ∷ r) = to_first c (decode r)

abbrev flat : List (Text × Text) → List Text
flat [] = []
flat ((k, v) ∷ es) = k ∷ v ∷ flat es

abbrev unflat : List Text → List (Text × Text)
unflat [] = []
unflat (k ∷ []) = []
unflat (k ∷ v ∷ ts) = (k, v) ∷ unflat ts

abbrev pub print : Node → Text
print (raw t) = t
print (items ts) = 0 ∷ encode ts
print (pairs es) = 1 ∷ encode (flat es)

abbrev pub read : Text → Node
read [] = raw []
read (zero ∷ r) = items (decode r)
read (suc zero ∷ r) = pairs (unflat (decode r))
read (suc (suc c) ∷ r) = raw (suc (suc c) ∷ r)

abbrev pub texts_of : Node → List Text
texts_of (items ts) = ts
texts_of _ = []

abbrev pub pairs_of : Node → List (Text × Text)
pairs_of (pairs es) = es
pairs_of _ = []

abbrev pub nth : ℕ → List Text → Text
nth i [] = []
nth zero (t ∷ ts) = t
nth (suc i) (t ∷ ts) = nth i ts

abbrev pub scalar_of : Node → Text
scalar_of (raw t) = t
scalar_of _ = []

abbrev pub value_at : Text → List (Text × Text) → Text
value_at k [] = []
value_at k ((j, v) ∷ es) = if same j k then v else value_at k es

-- A text more in the sequence under the key, which is made if it is not there.
abbrev pub push_under : Text → Text → List (Text × Text) → List (Text × Text)
push_under k t [] = (k, print (items (t ∷ []))) ∷ []
push_under k t ((j, v) ∷ es) =
    if same j k
    then (j, print (items (texts_of (read v) ++ t ∷ []))) ∷ es
    else (j, v) ∷ push_under k t es

abbrev pub toy : Yaml
toy = record {
  Node = Node;
  load = λ t. ok (read t);
  emit = λ n. ok (print n);
  null = pairs [];
  sequence = items [];
  push_back = λ n c. items (texts_of n ++ print c ∷ []);
  force_insert = λ k c n. pairs (pairs_of n ++ (k, print c) ∷ []);
  size = λ n. length (texts_of n);
  at = λ i n. raw (nth i (texts_of n));
  entries = λ n. map (λ (k, v). (raw k, raw v)) (pairs_of n);
  scalar = scalar_of;
  of_text = raw;
  set_key = λ k c n. pairs (pairs_of n ++ (k, print c) ∷ []);
  push_at = λ k c n. pairs (push_under k (print c) (pairs_of n));
  get = λ k n. read (value_at k (pairs_of n));
  elements = λ n. map raw (texts_of n);
}

decode_text : (t : Text) (r : Text) → decode (map suc t ++ 0 ∷ r) ≡ t ∷ decode r
decode_text [] r = refl
decode_text (c ∷ t) r = ap (to_first c) (decode_text t r)

decode-encode : (ts : List Text) → decode (encode ts) ≡ ts
decode-encode [] = refl
decode-encode (t ∷ ts) = decode_text t (encode ts) ∙ ap (◌∷◌ t) (decode-encode ts)

unflat-flat : (es : List (Text × Text)) → unflat (flat es) ≡ es
unflat-flat [] = refl
unflat-flat ((k, v) ∷ es) = ap (◌∷◌ (k, v)) (unflat-flat es)

abbrev pub Same : Text → Text → Type 0
Same s t = read s ≡ read t

pub read-print_items : (ts : List Text) → read (print (items ts)) ≡ items ts
read-print_items ts = ap items (decode-encode ts)

pub read-print_pairs : (es : List (Text × Text)) → read (print (pairs es)) ≡ pairs es
read-print_pairs es =
    ap (λ ts. pairs (unflat ts)) (decode-encode (flat es)) ∙ ap pairs (unflat-flat es)

read-print-read : (t : Text) → read t ≡ read (print (read t))
read-print-read [] = refl
read-print-read (zero ∷ r) = sym (ap items (decode-encode (decode r)))
read-print-read (suc zero ∷ r) = sym (read-print_pairs (unflat (decode r)))
read-print-read (suc (suc c) ∷ r) = refl

pushed_items :
    (ns : List Node) (ts acc : List Text)
    → Emits toy ns ts
    → pushed toy ns (items acc) ≡ items (acc ++ ts)
pushed_items [] [] acc h = ap items (sym (append-nil acc))
pushed_items (n ∷ ns) (t ∷ ts) acc (e, h) =
    let k : print n ≡ t = ok_injective e in
    pushed_items ns ts (acc ++ print n ∷ []) h
    ∙ ap items (append_assoc acc (print n ∷ []) ts ∙ ap (λ x. acc ++ x ∷ ts) k)
pushed_items [] (t ∷ ts) acc h = elim h [ ]
pushed_items (n ∷ ns) [] acc h = elim h [ ]

inserted_pairs :
    (ns : List (Text × Node)) (ts acc : List (Text × Text))
    → EmitsValues toy ns ts
    → inserted toy ns (pairs acc) ≡ pairs (acc ++ ts)
inserted_pairs [] [] acc h = ap pairs (sym (append-nil acc))
inserted_pairs ((k, n) ∷ ns) ((j, t) ∷ ts) acc (q, e, h) =
    let p : (k, print n) ≡ (j, t) = ground arith in
    inserted_pairs ns ts (acc ++ (k, print n) ∷ []) h
    ∙ ap pairs (append_assoc acc ((k, print n) ∷ []) ts ∙ ap (λ x. acc ++ x ∷ ts) p)
inserted_pairs [] (t ∷ ts) acc h = elim h [ ]
inserted_pairs (n ∷ ns) [] acc h = elim h [ ]

nth-length : (pre : List Text) (t : Text) (ts : List Text) → nth (length pre) (pre ++ t ∷ ts) ≡ t
nth-length [] t ts = refl
nth-length (x ∷ pre) t ts = nth-length pre t ts

items-HasElements :
    (pre ts : List Text) (i : ℕ) → i ≡ length pre → HasElements toy Same (items (pre ++ ts)) i ts
items-HasElements pre [] i e = tt
items-HasElements pre (t ∷ ts) i e =
    let k : nth i (pre ++ t ∷ ts) ≡ t = ap (λ i. nth i (pre ++ t ∷ ts)) e ∙ nth-length pre t ts in
    let l : i + 1 ≡ length (pre ++ t ∷ []) = omega (arith, e, length-append pre (t ∷ [])) in
    (
      (nth i (pre ++ t ∷ ts), refl, ap read (sym k)),
      subst (λ xs. HasElements toy Same (items xs) (i + 1) ts) (append_assoc pre (t ∷ []) ts)
          (items-HasElements (pre ++ t ∷ []) ts (i + 1) l),
    )

pairs-HasEntries : (es : List (Text × Text)) → HasEntries toy Same (toy.entries (pairs es)) es
pairs-HasEntries [] = tt
pairs-HasEntries ((k, v) ∷ es) = (refl, (v, refl, refl), pairs-HasEntries es)

sequence_again :
    (ts : List Text) (u : Text)
    → read (print (items ts)) ≡ read u
    → (n : Node) × (toy.load u ≡ ok n) × (toy.size n ≡ length ts) × HasElements toy Same n 0 ts
sequence_again ts u s =
    let e : read u ≡ items ts = sym s ∙ read-print_items ts in
    (items ts, ap ok e, refl, items-HasElements [] ts 0 refl)

entries_again :
    (es : List (Text × Text)) (u : Text)
    → read (print (pairs es)) ≡ read u
    → (n : Node) × (toy.load u ≡ ok n) × HasEntries toy Same (toy.entries n) es
entries_again es u s = (pairs es, ap ok (sym s ∙ read-print_pairs es), pairs-HasEntries es)

toy_entries :
    (ns : List (Text × Node)) (ts : List (Text × Text))
    → EmitsValues toy ns ts
    → (t : Text) × (toy.emit (inserted toy ns toy.sequence) ≡ ok t)
      × ((u : Text)
          → Same t u
          → (n : Node) × (toy.load u ≡ ok n) × HasEntries toy Same (toy.entries n) ts)
toy_entries [] [] h = (print (items []), refl, λ u s. (items [], ap ok (sym s), tt))
toy_entries ((k, n) ∷ ns) ((j, t) ∷ ts) (q, e, h) =
    let p : (k, print n) ≡ (j, t) = ground arith in
    let a : inserted toy ((k, n) ∷ ns) toy.sequence ≡ pairs ((j, t) ∷ ts) =
      inserted_pairs ns ts ((k, print n) ∷ []) h ∙ ap (λ x. pairs (x ∷ ts)) p in
    (print (pairs ((j, t) ∷ ts)), ap (λ n. ok (print n)) a, entries_again ((j, t) ∷ ts))
toy_entries [] (t ∷ ts) h = elim h [ ]
toy_entries (n ∷ ns) [] h = elim h [ ]

pub toy_laws : YamlLaws toy Same
toy_laws = record {
  same_refl = λ t. refl;
  same_trans = λ s t u p q. p ∙ q;
  reload = λ t n h.
      let e : read t ≡ n = ok_injective h in
      (print n, refl, read-print-read t ∙ ap (λ n. read (print n)) e);
  reload_sequence = λ ns ts m.
      (print (items ts), ap (λ n. ok (print n)) (pushed_items ns ts [] m), sequence_again ts);
  reload_entries = toy_entries;
}

-- A number as a text of one code point, which is at least 2.
abbrev number_of : Text → Result ℕ
number_of (suc (suc n) ∷ []) = ok n
number_of _ = fail thrown

abbrev pub numbers : Cast ℕ
numbers = record { to = λ n. ok (suc (suc n) ∷ []); from = number_of }

number_again : (n : ℕ) (u : Text) → Same (suc (suc n) ∷ []) u → number_of u ≡ ok n
number_again n [] s = cc
number_again n (zero ∷ u) s = cc
number_again n (suc zero ∷ u) s = cc
number_again n (suc (suc m) ∷ u) s =
    let e : suc (suc n) ∷ [] ≡ suc (suc m) ∷ u = ap scalar_of s in ap number_of (sym e)

pub numbers-IsFaithful : IsFaithful toy Same numbers
numbers-IsFaithful n = (suc (suc n) ∷ [], refl, (raw (suc (suc n) ∷ []), refl), number_again n)
