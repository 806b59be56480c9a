-- ===== src/Scheduler/Threads/Tally.antt =====
-- Sums over the threads in Scheduler::run: what a change of one place does to them.
use high_performance_server.Prelude.{
  ℕ, zero, suc, ◌+◌, ◌-◌, ◌%◌, ◌≤◌, ◌<◌, ◌==◌, if◌then◌else◌, ◌≡◌, inl, inr, refl, sym, ap, ◌∙◌,
  arith, Bool-cases,
}
use high_performance_server.Fiber.{word}
use high_performance_server.Scheduler.Queue.{Scheduler}
use high_performance_server.Scheduler.Threads.{
  Pc, looking, idling, holding, starting, running, left, waiting,
}

-- One for a thread that has a task and has not yet counted itself down.
abbrev pub active_bit : Pc → ℕ
active_bit (holding t) = 1
active_bit (starting f t) = 1
active_bit (running f t) = 1
active_bit (left f t) = 1
active_bit _ = 0

abbrev pub waiting_bit : Pc → ℕ
waiting_bit (waiting f) = 1
waiting_bit _ = 0

bits_le : (x : Pc) → active_bit x + waiting_bit x ≤ 1
bits_le x = ground arith

-- The number of the threads below `n` where `b` is one.
unfoldable pub tally : (Pc → ℕ) → (ℕ → Pc) → ℕ → ℕ
tally b p zero = 0
tally b p (suc n) = tally b p n + b (p n)

abbrev pub put : ℕ → Pc → (ℕ → Pc) → ℕ → Pc
put i x p k = if k == i then x else p k

module _ (b : Pc → ℕ) (p : ℕ → Pc) (i : ℕ) (x : Pc) where
  tally-put_out : (n : ℕ) → n ≤ i → tally b (put i x p) n ≡ tally b p n
  unfolding tally
  tally-put_out zero h = refl
  tally-put_out (suc n) h = ground (arith, tally-put_out n (omega arith))

  pub tally-put_in : (n : ℕ) → i < n → tally b (put i x p) n + b (p i) ≡ tally b p n + b x
  unfolding tally
  tally-put_in zero h = elim h [ ]
  tally-put_in (suc n) h = elim (Bool-cases (n == i)) [
    | inl e ↦
        let k : n ≡ i = ground arith in
        ground (arith, tally-put_out n (omega (arith, k)), ap (λ j. b (p j)) k)
    | inr e ↦ let k : i < n = ground arith in ground (arith, tally-put_in n k)
  ]

  module _ (n k : ℕ) where
    tally-put_same : i < n → b x ≡ b (p i) → k ≡ tally b p n → k ≡ tally b (put i x p) n
    tally-put_same h e c = omega (arith, tally-put_in n h, e, c)

    tally-put_down :
        i < n
        → n < word
        → tally b p n ≤ n
        → b (p i) ≡ 1
        → b x ≡ 0
        → k ≡ tally b p n
        → (k + word - 1) % word ≡ tally b (put i x p) n
    tally-put_down h l m e f c =
        let u : tally b (put i x p) n + 1 ≡ k = omega (arith, tally-put_in n h, e, f, c) in
        omega (arith, u, c, m, l)

    tally-put_up :
        i < n
        → n < word
        → tally b (put i x p) n ≤ n
        → b (p i) ≡ 0
        → b x ≡ 1
        → k ≡ tally b p n
        → (k + 1) % word ≡ tally b (put i x p) n
    tally-put_up h l m e f c =
        let u : tally b (put i x p) n ≡ k + 1 = omega (arith, tally-put_in n h, e, f, c) in
        omega (arith, u, c, m, l)

pub tally_le : (p : ℕ → Pc) (n : ℕ) → tally active_bit p n + tally waiting_bit p n ≤ n
unfolding tally
tally_le p zero = omega arith
tally_le p (suc n) =
    let h : active_bit (p n) + waiting_bit (p n) ≤ 1 = bits_le (p n) in
    omega (arith, tally_le p n, h)

-- Each counter is the number of the threads that it is about.
abbrev pub Counted : ℕ → Scheduler → (ℕ → Pc) → Type 0
Counted n r p = (r.active ≡ tally active_bit p n) × (r.idle ≡ tally waiting_bit p n)

module _ (n : ℕ) (s r : Scheduler) (p : ℕ → Pc) (i : ℕ) (x : Pc) where
  pub Counted-put :
      i < n
      → active_bit x ≡ active_bit (p i)
      → waiting_bit x ≡ waiting_bit (p i)
      → r.active ≡ s.active
      → r.idle ≡ s.idle
      → Counted n s p
      → Counted n r (put i x p)
  Counted-put l a b e f (c, d) = (
    tally-put_same active_bit p i x n r.active l a (e ∙ c),
    tally-put_same waiting_bit p i x n r.idle l b (f ∙ d),
  )

  pub Counted-up :
      i < n
      → n < word
      → p i ≡ looking
      → (active_bit x ≡ 1) × (waiting_bit x ≡ 0)
      → r.active ≡ (s.active + 1) % word
      → r.idle ≡ s.idle
      → Counted n s p
      → Counted n r (put i x p)
  Counted-up l m k (a, b) e f (c, d) =
      let u : tally active_bit (put i x p) n ≤ n = omega (arith, tally_le (put i x p) n) in
      (
        e ∙ tally-put_up active_bit p i x n s.active l m u (ap active_bit k) a c,
        tally-put_same waiting_bit p i x n r.idle l (b ∙ sym (ap waiting_bit k)) (f ∙ d),
      )

  pub Counted-down :
      i < n
      → n < word
      → active_bit (p i) ≡ 1
      → waiting_bit (p i) ≡ 0
      → (active_bit x ≡ 0) × (waiting_bit x ≡ 0)
      → r.active ≡ (s.active + word - 1) % word
      → r.idle ≡ s.idle
      → Counted n s p
      → Counted n r (put i x p)
  Counted-down l m k j (a, b) e f (c, d) =
      let u : tally active_bit p n ≤ n = omega (arith, tally_le p n) in
      (
        e ∙ tally-put_down active_bit p i x n s.active l m u k a c,
        tally-put_same waiting_bit p i x n r.idle l (b ∙ sym j) (f ∙ d),
      )

  pub Counted-wait :
      i < n
      → n < word
      → p i ≡ idling
      → (active_bit x ≡ 0) × (waiting_bit x ≡ 1)
      → r.active ≡ s.active
      → r.idle ≡ (s.idle + 1) % word
      → Counted n s p
      → Counted n r (put i x p)
  Counted-wait l m k (a, b) e f (c, d) =
      let u : tally waiting_bit (put i x p) n ≤ n = omega (arith, tally_le (put i x p) n) in
      (
        tally-put_same active_bit p i x n r.active l (a ∙ sym (ap active_bit k)) (e ∙ c),
        f ∙ tally-put_up waiting_bit p i x n s.idle l m u (ap waiting_bit k) b d,
      )

  pub Counted-wake :
      (f : ℕ)
      → i < n
      → n < word
      → p i ≡ waiting f
      → (active_bit x ≡ 0) × (waiting_bit x ≡ 0)
      → r.active ≡ s.active
      → r.idle ≡ (s.idle + word - 1) % word
      → Counted n s p
      → Counted n r (put i x p)
  Counted-wake f l m k (a, b) e g (c, d) =
      let u : tally waiting_bit p n ≤ n = omega (arith, tally_le p n) in
      (
        tally-put_same active_bit p i x n r.active l (a ∙ sym (ap active_bit k)) (e ∙ c),
        g ∙ tally-put_down waiting_bit p i x n s.idle l m u (ap waiting_bit k) b d,
      )
