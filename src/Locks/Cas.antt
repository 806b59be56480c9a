-- ===== src/Locks/Cas.antt =====
-- ddg/mutex.h and ddg/mutex.cc, CASLock, for any number of threads: the atomic flag, where each thread
-- is, and the steps that they take in any order.
use high_performance_server.Prelude.{
  ℕ, ◌==◌, ==_iff, Bool, true, false, not, ◌&&◌, if◌then◌else◌, ◌≡◌, refl, ap, ◌∙◌, sym, ◌⊎◌, inl,
  inr, Bool-cases, subst,
}

-- A thread is outside, in the loop of lock(), or after it.
pub data Pc : Type 0 where
  outside spinning inside : Pc

pub record Cas : Type 0 where
  pub flag : Bool
  pub pcs : ℕ → Pc

abbrev pub with_pc : ℕ → Pc → Cas → Cas
with_pc i pc s = record s { pcs = λ k. if k == i then pc else s.pcs k }

-- CASLock(): the flag is false.
abbrev pub initial : Cas
initial = record { flag = false; pcs = λ i. outside }

-- `compare_exchange_weak(expect, true)` with `expect` false: it succeeds if the flag is false and
-- it does not fail spuriously; the loop ends when it succeeds.
unfoldable pub attempt : Bool → ℕ → Cas → Cas
attempt spurious i s =
    if not s.flag && not spurious then with_pc i inside (record s { flag = true }) else s

unfoldable pub release : ℕ → Cas → Cas
release i s = with_pc i outside (record s { flag = false })

-- Only a thread that is inside unlocks, as the scoped lock does.
pub data Step : Cas → Cas → Type 0 where
  enters : {s : Cas} (i : ℕ) → s.pcs i ≡ outside → Step s (with_pc i spinning s)
  attempts :
      {s : Cas} (spurious : Bool) (i : ℕ) → s.pcs i ≡ spinning → Step s (attempt spurious i s)
  leaves : {s : Cas} (i : ℕ) → s.pcs i ≡ inside → Step s (release i s)

pub data Reachable : Cas → Type 0 where
  start : Reachable initial
  after : {s t : Cas} → Reachable s → Step s t → Reachable t

abbrev pub is_inside : Pc → Bool
is_inside inside = true
is_inside _ = false

true-ne-false : ¬ (true ≡ false)
true-ne-false h = cc

-- Nobody is inside and the flag is false, or one thread is and the flag is true.
abbrev Held : Cas → Type 0
Held s =
    ((s.flag ≡ false) × ((k : ℕ) → is_inside (s.pcs k) ≡ false))
    ⊎ ((o : ℕ) × (s.flag ≡ true) × ((k : ℕ) → is_inside (s.pcs k) ≡ (k == o)))

with_pc-quiet :
    (i : ℕ) (s : Cas) (k : ℕ)
    → s.pcs i ≡ outside
    → is_inside ((with_pc i spinning s).pcs k) ≡ is_inside (s.pcs k)
with_pc-quiet i s k h = elim (Bool-cases (k == i)) [
  | inl q ↦
      let e = subst (λ (j : ℕ). s.pcs j ≡ outside) (sym ((==_iff k i).0 q)) h in
      rw q (sym (ap is_inside e))
  | inr q ↦ rw q refl
]

enters-Held : (i : ℕ) (s : Cas) → s.pcs i ≡ outside → Held s → Held (with_pc i spinning s)
enters-Held i s e (inl (f, h)) = inl (f, λ k. with_pc-quiet i s k e ∙ h k)
enters-Held i s e (inr (o, f, h)) = inr (o, f, λ k. with_pc-quiet i s k e ∙ h k)

attempt-Held : (spurious : Bool) (i : ℕ) (s : Cas) → Held s → Held (attempt spurious i s)
unfolding attempt
attempt-Held true i s (inl (f, h)) = rw f (inl (refl, h))
attempt-Held false i s (inl (f, h)) =
    rw f (inr (i, refl, λ k. elim (Bool-cases (k == i)) [ inl q ↦ rw q refl | inr q ↦ rw q (h k) ]))
attempt-Held spurious i s (inr (o, f, h)) = rw f (inr (o, refl, h))

release-Held : (i : ℕ) (s : Cas) → s.pcs i ≡ inside → Held s → Held (release i s)
unfolding release
release-Held i s e (inl (f, h)) = absurd (true-ne-false (sym (ap is_inside e) ∙ h i))
release-Held i s e (inr (o, f, h)) =
    let owner : (i == o) ≡ true = sym (h i) ∙ ap is_inside e in
    inl (
      refl,
      λ k. elim (Bool-cases (k == i)) [
        | inl q ↦ rw q refl
        | inr q ↦ rw q (h k ∙ subst (λ (j : ℕ). (k == j) ≡ false) ((==_iff i o).0 owner) q)
      ],
    )

Step-Held : (s t : Cas) → Step s t → Held s → Held t
Step-Held s t (enters i e) h = enters-Held i s e h
Step-Held s t (attempts spurious i e) h = attempt-Held spurious i s h
Step-Held s t (leaves i e) h = release-Held i s e h

Reachable-Held : {s : Cas} → Reachable s → Held s
Reachable-Held start = inl (refl, λ k. refl)
Reachable-Held (after r step) = Step-Held _ _ step (Reachable-Held r)

Held-exclusive :
    (s : Cas) (i j : ℕ) → Held s → is_inside (s.pcs i) ≡ true → is_inside (s.pcs j) ≡ true → i ≡ j
Held-exclusive s i j (inl (f, h)) p q = absurd (true-ne-false (sym p ∙ h i))
Held-exclusive s i j (inr (o, f, h)) p q =
    (==_iff i o).0 (sym (h i) ∙ p) ∙ sym ((==_iff j o).0 (sym (h j) ∙ q))

Held-flag : (s : Cas) → Held s → (s.flag ≡ true) → (i : ℕ) × (is_inside (s.pcs i) ≡ true)
Held-flag s (inl (f, h)) e = absurd (true-ne-false (sym e ∙ f))
Held-flag s (inr (o, f, h)) e = (o, h o ∙ (==_iff o o).1 refl)

-- In every state that the threads reach, in whatever order they step and whatever spurious
-- failures there are, at most one thread is past lock() and has not unlocked.
pub Reachable-exclusive :
    {s : Cas} (i j : ℕ)
    → Reachable s
    → is_inside (s.pcs i) ≡ true
    → is_inside (s.pcs j) ≡ true
    → i ≡ j
Reachable-exclusive {s} i j r = Held-exclusive s i j (Reachable-Held r)

-- While the flag is set, a thread is past lock() and has not unlocked.
pub Reachable-flag :
    {s : Cas} → Reachable s → s.flag ≡ true → (i : ℕ) × (is_inside (s.pcs i) ≡ true)
Reachable-flag {s} r = Held-flag s (Reachable-Held r)
