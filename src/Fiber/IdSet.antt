-- ===== src/Fiber/IdSet.antt =====
-- ddg/fiber.cc, Fiber::safeFiberIdIncr: fiber ids, counted up and then searched for.
use high_performance_server.Prelude.{
  ℕ, zero, suc, ◌+◌, ◌-◌, ◌^◌, ◌≤◌, ◌<◌, leb, false, List, [], ◌∷◌, Option, none, some, member,
  if◌then◌else◌, Result, ok, fail, assertion, ◌≡◌, refl, sym, subst, All, arith, Bool-cases, inl,
  inr,
}

abbrev pub max_fiber_id : ℕ
max_fiber_id = 2 ^ 64 - 2

-- s_fiber_id and s_fiber_id_set.
pub record Ids : Type 0 where
  pub last : ℕ
  pub used : List ℕ

-- `for (i = 0; i <= kMaxFiberId; i++)`, with the rounds that are left.
unfoldable pub search_free : ℕ → ℕ → List ℕ → Option ℕ
search_free zero i used = none
search_free (suc rounds) i used =
    let rest = search_free rounds (i + 1) used in if member i used then rest else some i

abbrev use_id : List ℕ → Option ℕ → ℕ → Result (ℕ × Ids)
use_id used none last = fail assertion
use_id used (some i) last = ok (i, record { last = last; used = i ∷ used })

unfoldable pub take_id : Ids → Result (ℕ × Ids)
take_id s =
    if leb s.last (max_fiber_id - 1)
    then ok (s.last + 1, record { last = s.last + 1; used = (s.last + 1) ∷ s.used })
    else use_id s.used (search_free (max_fiber_id + 1) 0 s.used) s.last

-- No id in use is above the counter.
abbrev pub IsBounded : Ids → Type 0
IsBounded s = All (λ i. i ≤ s.last) s.used

search_free-member :
    (rounds i : ℕ) (used : List ℕ) (j : ℕ)
    → search_free rounds i used ≡ some j
    → (member j used ≡ false) × (j < i + rounds)
unfolding search_free
search_free-member zero i used j h = cc
search_free-member (suc rounds) i used j h =
    ground (arith, search_free-member rounds (i + 1) used j)

All-le : (m n : ℕ) (xs : List ℕ) → m ≤ n → All (λ i. i ≤ m) xs → All (λ i. i ≤ n) xs
All-le m n [] h b = tt
All-le m n (x ∷ xs) h b = (omega arith, All-le m n xs h b.1)

above-member : (m i : ℕ) (xs : List ℕ) → m < i → All (λ j. j ≤ m) xs → member i xs ≡ false
unfolding member
above-member m i [] h b = refl
above-member m i (x ∷ xs) h b = ground (arith, above-member m i xs h b.1)

use_id-fresh :
    (s : Ids) (o : Option ℕ) {i : ℕ} {s' : Ids}
    → ((j : ℕ) → o ≡ some j → (member j s.used ≡ false) × (j ≤ s.last))
    → IsBounded s
    → use_id s.used o s.last ≡ ok (i, s')
    → (member i s.used ≡ false) × (s'.used ≡ i ∷ s.used) × IsBounded s'
use_id-fresh s none found b h = cc
use_id-fresh s (some j) {i} {s'} found b h =
    let e : ◌≡◌ {A = ℕ × Ids} (j, record { last = s.last; used = j ∷ s.used }) (i, s') = cc in
    (
      subst (λ p. member p.0 s.used ≡ false) e (found j refl).0,
      sym (subst (λ p. p.0 ∷ s.used ≡ p.1.used) e refl),
      subst (λ p. IsBounded p.1) e ((found j refl).1, b),
    )

-- While no id in use is above the counter, a new fiber gets an id that no fiber has had, it is
-- recorded, and the bound is kept: by counting up, and by the search when the counter is spent.
pub take_id-fresh :
    (s : Ids) {i : ℕ} {s' : Ids}
    → IsBounded s
    → take_id s ≡ ok (i, s')
    → (member i s.used ≡ false) × (s'.used ≡ i ∷ s.used) × IsBounded s'
unfolding take_id
take_id-fresh s {i} {s'} b h = elim (Bool-cases (leb s.last (max_fiber_id - 1))) [
  | inl low ↦
      use_id-fresh (record s { last = s.last + 1 }) (some (s.last + 1))
        (λ j e.
          let le : s.last + 1 ≡ j = cc in
          (
            subst (λ j. member j s.used ≡ false) le
                (above-member s.last (s.last + 1) s.used (omega arith) b),
            omega arith,
          ))
        (All-le s.last (s.last + 1) s.used (omega arith) b) (rw low at h)
  | inr spent ↦
      use_id-fresh s (search_free (max_fiber_id + 1) 0 s.used)
        (λ j e. let f = search_free-member (max_fiber_id + 1) 0 s.used j e in (f.0, ground arith)) b
        (rw spent at h)
]
