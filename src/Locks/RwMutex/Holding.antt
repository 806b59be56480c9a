-- ===== src/Locks/RwMutex/Holding.antt =====
-- Who holds the lock of an RWMutex that threads use through the scoped locks.
use high_performance_server.Prelude.{
  ℕ, zero, suc, ◌==◌, ==_iff, ◌≡◌, ◌≢◌, ◌⊎◌, refl, sym, ap, ◌∙◌, subst, true, false, none, some,
  Bool-cases, Option-cases, inl, inr, arith, if◌then◌else◌,
}
use high_performance_server.Locks.{scoped, write_scoped, destroy}
use high_performance_server.Locks.RwMutex.{
  Rwlock, RwlockLaws, bump, Scope, outside, reading, writing, rdlock, wrlock, unlock, Shared,
  put_scope, Step, reads, writes, reader_locks, reader_locks_again, reader_unlocks, writer_locks,
  writer_locks_again, writer_unlocks, reader_leaves, writer_leaves, Reach, start, after,
}

-- How often a thread holds the lock for reading in its scope, when nobody holds it for writing.
abbrev pub Fits : ℕ → Scope → Type 0
Fits n outside = n ≡ 0
Fits n (reading b) = n ≡ (if b then 1 else 0)
Fits n (writing b h) = (n ≡ 0) × (b ≡ false) × (h ≡ false)

-- In its scope, if it has one, the thread does not hold the lock.
abbrev pub Unheld : Scope → Type 0
Unheld outside = Unit
Unheld (reading b) = b ≡ false
Unheld (writing b h) = (b ≡ false) × (h ≡ false)

-- The scoped lock is locked, by its own account.
abbrev pub Locked : Scope → Type 0
Locked outside = ⊥
Locked (reading b) = b ≡ true
Locked (writing b h) = b ≡ true

Unheld-Fits : (c : Scope) → Unheld c → Fits 0 c
Unheld-Fits outside h = refl
Unheld-Fits (reading b) h = ap (λ b. if b then 1 else 0) (sym h)
Unheld-Fits (writing b h) (e, k) = (refl, e, k)

Fits-Unheld : (n : ℕ) (c : Scope) → n ≡ 0 → Fits n c → Unheld c
Fits-Unheld n outside e f = tt
Fits-Unheld n (reading false) e f = refl
Fits-Unheld n (reading true) e f = absurd (omega (arith, e, f))
Fits-Unheld n (writing b h) e (_, x, y) = (x, y)

Unheld-zero : (n : ℕ) (c : Scope) → Unheld c → Fits n c → n ≡ 0
Unheld-zero n outside u f = f
Unheld-zero n (reading b) u f = f ∙ ap (λ b. if b then 1 else 0) u
Unheld-zero n (writing b h) u (f, _, _) = f

not-Locked : (c : Scope) → Unheld c → ¬ (Locked c)
not-Locked outside u k = k
not-Locked (reading b) u k = cc
not-Locked (writing b h) (u, _) k = cc

Locked-one : (n : ℕ) (c : Scope) → Locked c → Fits n c → n ≡ 1
Locked-one n outside k f = absurd k
Locked-one n (reading b) k f = f ∙ ap (λ b. if b then 1 else 0) k
Locked-one n (writing b h) k (_, f, _) = cc

pub ne_iff : (t u : ℕ) → (u == t) ≡ false → u ≢ t
ne_iff t u d p = let y = (==_iff u t).1 p in cc

module _ (r : Rwlock) (laws : RwlockLaws r) where
  abbrev pub Free : Shared r → Type 0
  Free s = (r.writer s.lock ≡ none) × ((u : ℕ) → Fits (r.readers s.lock u) (s.scopes u))

  abbrev pub Owned : Shared r → Type 0
  Owned s =
      (w : ℕ) × (r.writer s.lock ≡ some w)
      × ((u : ℕ) → r.readers s.lock u ≡ 0)
      × ((u : ℕ) → u ≢ w → Unheld (s.scopes u))

  -- The two ways in which a call of the lock returns.
  pub rdlock-cases :
      (t : ℕ) (l l' : r.Lock)
      → rdlock r t l ≡ some l'
      → (r.rdlock t l ≡ some (0, l')) ⊎ ((l' ≡ l) × (r.writer l ≡ some t))
  unfolding rdlock
  rdlock-cases t l l' h = elim (Option-cases (r.rdlock t l)) [
    | inl e ↦ cc
    | inr ((zero, k), e) ↦ inl (cc)
    | inr ((suc n, k), e) ↦
        let (p, q) = laws.rdlock_fails t n l k e in let d : k ≡ l' = cc in inr (sym d ∙ p, q)
  ]

  pub wrlock-cases :
      (t : ℕ) (l l' : r.Lock)
      → wrlock r t l ≡ some l'
      → (r.wrlock t l ≡ some (0, l')) ⊎ ((l' ≡ l) × (r.writer l ≡ some t))
  unfolding wrlock
  wrlock-cases t l l' h = elim (Option-cases (r.wrlock t l)) [
    | inl e ↦ cc
    | inr ((zero, k), e) ↦ inl (cc)
    | inr ((suc n, k), e) ↦
        let (p, q) = laws.wrlock_fails t n l k e in let d : k ≡ l' = cc in inr (sym d ∙ p, q)
  ]

  bump_self : (t n : ℕ) (held : ℕ → ℕ) → n ≡ bump t held t → n ≡ suc (held t)
  bump_self t n held h = ground arith

  bump_other : (t u n : ℕ) (held : ℕ → ℕ) → u ≢ t → n ≡ bump t held u → n ≡ held u
  bump_other t u n held d h = ground arith

  -- A thread's scope changes, with what the lock has then become.
  put_Free :
      (s : Shared r) (t : ℕ) (c : Scope) (l : r.Lock)
      → Free s
      → r.writer l ≡ none
      → Fits (r.readers l t) c
      → ((u : ℕ) → u ≢ t → r.readers l u ≡ r.readers s.lock u)
      → Free (put_scope r t c l s)
  put_Free s t c l (e, f) n g k = (
    n,
    λ u. elim (Bool-cases (u == t)) [
      | inl d ↦ let p = (==_iff u t).0 d in rw d (subst (λ v. Fits (r.readers l v) c) (sym p) g)
      | inr d ↦ rw d (subst (λ m. Fits m (s.scopes u)) (sym (k u (ne_iff t u d))) (f u))
    ],
  )

  put_Owned :
      (s : Shared r) (t w : ℕ) (c : Scope) (l : r.Lock)
      → r.writer l ≡ some w
      → ((u : ℕ) → r.readers l u ≡ 0)
      → ((u : ℕ) → u ≢ w → u ≢ t → Unheld (s.scopes u))
      → (t ≢ w → Unheld c)
      → Owned (put_scope r t c l s)
  put_Owned s t w c l e z q k = (
    w,
    e,
    z,
    λ u n. elim (Bool-cases (u == t)) [
      | inl d ↦ rw d (k (λ p. n ((==_iff u t).0 d ∙ p)))
      | inr d ↦ rw d (q u n (ne_iff t u d))
    ],
  )

  readers_left : (s : Shared r) (t : ℕ) → Free s → Unheld (s.scopes t) → r.readers s.lock t ≡ 0
  readers_left s t f h = Unheld-zero (r.readers s.lock t) (s.scopes t) h (f.1 t)

  -- A thread that gets the lock for reading.
  get_read :
      (s : Shared r) (t : ℕ) (l : r.Lock)
      → Free s ⊎ Owned s
      → Unheld (s.scopes t)
      → rdlock r t s.lock ≡ some l
      → Free (put_scope r t (reading true) l s) ⊎ Owned (put_scope r t (reading true) l s)
  get_read s t l (inl f) h k = elim (rdlock-cases t s.lock l k) [
    | inl g ↦
        let (a, b, c) = laws.rdlock_gives t s.lock l g in
        let z : r.readers s.lock t ≡ 0 = readers_left s t f h in
        inl (
          put_Free s t (reading true) l f b
            (bump_self t (r.readers l t) (r.readers s.lock) (c t) ∙ ap suc z)
            (λ u d. bump_other t u (r.readers l u) (r.readers s.lock) d (c u)))
    | inr (e, g) ↦ let n = f.0 in absurd (cc)
  ]
  get_read s t l (inr (w, e, z, q)) h k = elim (rdlock-cases t s.lock l k) [
    | inl g ↦ let (a, b, c) = laws.rdlock_gives t s.lock l g in absurd (cc)
    | inr (d, g) ↦
        let p : t ≡ w = cc in
        inr (
          put_Owned s t w (reading true) l (ap r.writer d ∙ e)
            (λ u. ap (λ l. r.readers l u) d ∙ z u) (λ u n _. q u n) (λ n. absurd (n p)))
  ]

  -- A thread that gets the lock for writing, in whatever scope.
  get_write :
      (s : Shared r) (t : ℕ) (c : Scope) (l : r.Lock)
      → Free s ⊎ Owned s
      → wrlock r t s.lock ≡ some l
      → Owned (put_scope r t c l s)
  get_write s t c l (inl f) k = elim (wrlock-cases t s.lock l k) [
    | inl g ↦
        let (a, b, z, z') = laws.wrlock_gives t s.lock l g in
        put_Owned s t t c l b z'
          (λ u n _. Fits-Unheld (r.readers s.lock u) (s.scopes u) (z u) (f.1 u))
          (λ n. absurd (n refl))
    | inr (e, g) ↦ let n = f.0 in absurd (cc)
  ]
  get_write s t c l (inr (w, e, z, q)) k = elim (wrlock-cases t s.lock l k) [
    | inl g ↦ let (a, b, x, y) = laws.wrlock_gives t s.lock l g in absurd (cc)
    | inr (d, g) ↦
        let p : t ≡ w = cc in
        put_Owned s t w c l (ap r.writer d ∙ e) (λ u. ap (λ l. r.readers l u) d ∙ z u)
          (λ u n _. q u n) (λ n. absurd (n p))
  ]

  -- A thread that gives the lock back, and is then in a scope where it does not hold it.
  give_back :
      (s : Shared r) (t : ℕ) (c : Scope)
      → Free s ⊎ Owned s
      → Locked (s.scopes t)
      → Unheld c
      → Free (put_scope r t c (unlock r t s.lock) s)
  unfolding unlock
  give_back s t c (inl f) k h =
      let one = Locked-one (r.readers s.lock t) (s.scopes t) k (f.1 t) in
      let l = (r.unlock t s.lock).1 in
      let (a, b) = laws.unlock_reader t s.lock f.0 (omega (arith, one)) in
      let z = bump_self t (r.readers s.lock t) (r.readers l) (sym (b t)) in
      let is_zero : 0 ≡ r.readers l t = omega (arith, z, one) in
      put_Free s t c l f a (subst (λ n. Fits n c) is_zero (Unheld-Fits c h))
        (λ u d. sym (bump_other t u (r.readers s.lock u) (r.readers l) d (sym (b u))))
  give_back s t c (inr (w, e, z, q)) k h = elim (Bool-cases (t == w)) [
    | inr d ↦ absurd (not-Locked (s.scopes t) (q t (ne_iff w t d)) k)
    | inl d ↦
        let p = (==_iff t w).0 d in
        let l = (r.unlock t s.lock).1 in
        let (a, b) = laws.unlock_writer t s.lock (e ∙ ap some (sym p)) in
        (
          a,
          λ u. elim (Bool-cases (u == t)) [
            | inl x ↦ rw x (subst (λ n. Fits n c) (sym (b u ∙ z u)) (Unheld-Fits c h))
            | inr x ↦ rw x (
                subst (λ n. Fits n (s.scopes u)) (sym (b u ∙ z u))
                  (Unheld-Fits (s.scopes u) (q u (λ y. ne_iff t u x (y ∙ sym p)))))
          ],
        )
  ]

  -- A thread whose scope changes in a way that does not matter for the lock.
  keep_lock :
      (s : Shared r) (t : ℕ) (c : Scope)
      → Free s ⊎ Owned s
      → ((n : ℕ) → Fits n (s.scopes t) → Fits n c)
      → (Unheld (s.scopes t) → Unheld c)
      → Free (put_scope r t c s.lock s) ⊎ Owned (put_scope r t c s.lock s)
  keep_lock s t c (inl f) g k = inl (put_Free s t c s.lock f f.0 (g _ (f.1 t)) (λ u n. refl))
  keep_lock s t c (inr (w, e, z, q)) g k =
      inr (put_Owned s t w c s.lock e z (λ u n _. q u n) (λ n. k (q t n)))

  -- The same scope again.
  keep_scope :
      (s : Shared r) (t : ℕ) (c : Scope)
      → Free s ⊎ Owned s
      → s.scopes t ≡ c
      → Free (put_scope r t c s.lock s) ⊎ Owned (put_scope r t c s.lock s)
  keep_scope s t c x e = keep_lock s t c x (λ n. subst (λ c. Fits n c) e) (subst Unheld e)

  Step-Held : (t : ℕ) {s s' : Shared r} → Step r t s s' → Free s ⊎ Owned s → Free s' ⊎ Owned s'
  unfolding scoped write_scoped destroy
  Step-Held t {s} (reads l h k) x = get_read s t l x (subst Unheld (sym h) tt) k
  Step-Held t {s} (writes l h k) x = inr (get_write s t (writing false true) l x k)
  Step-Held t {s} (reader_locks l h k) x = get_read s t l x (subst Unheld (sym h) refl) k
  Step-Held t {s} (reader_locks_again h) x = keep_scope s t (reading true) x h
  Step-Held t {s} (reader_unlocks true h) x =
      inl (give_back s t (reading false) x (subst Locked (sym h) refl) refl)
  Step-Held t {s} (reader_unlocks false h) x = keep_scope s t (reading false) x h
  Step-Held t {s} (writer_locks b l h k) x = inr (get_write s t (writing true true) l x k)
  Step-Held t {s} (writer_locks_again b h) x = keep_scope s t (writing true b) x h
  Step-Held t {s} (writer_unlocks true b h) x =
      inl (give_back s t (writing false false) x (subst Locked (sym h) refl) (refl, refl))
  Step-Held t {s} (writer_unlocks false b h) x = keep_scope s t (writing false b) x h
  Step-Held t {s} (reader_leaves true h) x =
      inl (give_back s t outside x (subst Locked (sym h) refl) tt)
  Step-Held t {s} (reader_leaves false h) x =
      keep_lock s t outside x (λ n. subst (λ c. Fits n c) h) (λ u. tt)
  Step-Held t {s} (writer_leaves true b h) x =
      inl (give_back s t outside x (subst Locked (sym h) refl) tt)
  Step-Held t {s} (writer_leaves false b h) x =
      keep_lock s t outside x (λ n f. (subst (λ c. Fits n c) h f).0) (λ u. tt)

  pub Reach-Held : {s : Shared r} → Reach r s → Free s ⊎ Owned s
  Reach-Held (start s h n z) =
      inl (n, λ u. subst (λ c. Fits (r.readers s.lock u) c) (sym (h u)) (z u))
  Reach-Held (after t reach step) = Step-Held t step (Reach-Held reach)
