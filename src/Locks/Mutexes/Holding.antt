-- ===== src/Locks/Mutexes/Holding.antt =====
-- Who holds a Mutex or a SpinLock that threads use through scoped locks.
use high_performance_server.Prelude.{
  ℕ, ◌==◌, ==_iff, ◌≡◌, ◌≢◌, ◌↔◌, ◌⊎◌, sym, ap, ◌∙◌, subst, Bool, true, false, Option, none, some,
  none, some, Bool-cases, Option-cases, inl, inr, if◌then◌else◌,
}
use high_performance_server.Locks.{scoped, scoped_unlock, destroy}
use high_performance_server.Locks.Mutexes.{
  Pthread, PthreadLaws, lock, unlock, Shared, put_scope, Step, enters, locks, locks_again, unlocks,
  leaves, Reach, start, after,
}

module _ (p : Pthread) (laws : PthreadLaws p) (by : ℕ → ℕ) where
  -- The thread of a scoped lock that is locked has the lock, and there is one such scoped lock at most.
  abbrev Held : Shared p → Type 0
  Held s =
      ((k : ℕ) → s.scopes k ≡ some true → p.owner s.mutex ≡ some (by k))
      × ((j k : ℕ) → s.scopes j ≡ some true → s.scopes k ≡ some true → j ≡ k)

  lock-given :
      (t : ℕ) (l l' : p.Lock) → lock p t l ≡ some l' → (p.owner l ≡ none) × (p.owner l' ≡ some t)
  unfolding lock
  lock-given t l l' e = elim (Option-cases (p.lock t l)) [
    | inl x ↦ cc
    | inr ((n, m), x) ↦
        let q : m ≡ l' = cc in let (a, b) = laws.lock_gives t n l m x in (a, ap p.owner (sym q) ∙ b)
  ]

  -- A scope that is changed at an address, at this one and at others.
  put_at :
      (s : Shared p) (k j : ℕ) (c : Option Bool) (l : p.Lock)
      → (put_scope p k c l s).scopes j ≡ some true
      → ((j ≡ k) × (c ≡ some true)) ⊎ ((j ≢ k) × (s.scopes j ≡ some true))
  put_at s k j c l e = elim (Bool-cases (j == k)) [
    | inl d ↦ inl ((==_iff j k).0 d, subst (λ b. (if b then c else s.scopes j) ≡ some true) d e)
    | inr d ↦ inr (
      (λ q. let y = (==_iff j k).1 q in cc),
      subst (λ b. (if b then c else s.scopes j) ≡ some true) d e,
    )
  ]

  -- A scoped lock that gets the lock.
  put_locked :
      (s : Shared p) (k : ℕ) (l : p.Lock)
      → Held s
      → p.owner s.mutex ≡ none
      → p.owner l ≡ some (by k)
      → Held (put_scope p k (some true) l s)
  put_locked s k l (h, u) n e = (
    λ j x. elim (put_at s k j (some true) l x) [
      | inl (q, _) ↦ e ∙ ap (λ j. some (by j)) (sym q)
      | inr (_, y) ↦ let z = h j y in cc
    ],
    λ i j x y. elim (put_at s k i (some true) l x) [
      | inr (_, v) ↦ let z = h i v in cc
      | inl (q, _) ↦ elim (put_at s k j (some true) l y) [
        | inl (r, _) ↦ q ∙ sym r
        | inr (_, v) ↦ let z = h j v in cc
      ]
    ],
  )

  -- A scoped lock that is locked, and gives the lock back.
  put_released :
      (s : Shared p) (k : ℕ) (c : Option Bool) (l : p.Lock)
      → Held s
      → c ≢ some true
      → s.scopes k ≡ some true
      → Held (put_scope p k c l s)
  put_released s k c l (h, u) n o = (
    λ j x. elim (put_at s k j c l x) [
      | inl (_, e) ↦ absurd (n e)
      | inr (d, y) ↦ absurd (d (u j k y o))
    ],
    λ i j x y. elim (put_at s k i c l x) [
      | inl (_, e) ↦ absurd (n e)
      | inr (d, v) ↦ absurd (d (u i k v o))
    ],
  )

  -- A scoped lock that stays locked or unlocked, or whose scope ends unlocked.
  put_kept :
      (s : Shared p) (k : ℕ) (c : Option Bool)
      → Held s
      → (c ≡ some true → s.scopes k ≡ some true)
      → Held (put_scope p k c s.mutex s)
  put_kept s k c (h, u) n =
      let was : (j : ℕ)
          → (put_scope p k c s.mutex s).scopes j ≡ some true
          → s.scopes j ≡ some true =
        λ j x. elim (put_at s k j c s.mutex x) [
          | inl (q, e) ↦ ap s.scopes q ∙ n e
          | inr (_, y) ↦ y
        ] in
      (λ j x. h j (was j x), λ i j x y. u i j (was i x) (was j y))

  unlocks-Held :
      (s : Shared p) (k : ℕ) (b : Bool) (c : Bool → Option Bool)
      → Held s
      → s.scopes k ≡ some b
      → c false ≢ some true
      → (let r =
            scoped_unlock (λ l. l) (unlock p (by k)) (record { mutex = s.mutex; islocked = b }) in
          Held (put_scope p k (c r.islocked) r.mutex s))
  unlocks-Held s k true c h e n = put_released s k (c false) (unlock p (by k) s.mutex) h n e
  unlocks-Held s k false c h e n = put_kept s k (c false) h (λ x. absurd (n x))

  Step-Held : (k : ℕ) {s s' : Shared p} → Held s → Step p by k s s' → Held s'
  unfolding scoped destroy
  Step-Held k {s} h (enters l e x) =
      let (a, b) = lock-given (by k) s.mutex l x in put_locked s k l h a b
  Step-Held k {s} h (locks l e x) =
      let (a, b) = lock-given (by k) s.mutex l x in put_locked s k l h a b
  Step-Held k {s} h (locks_again e) = put_kept s k (some true) h (λ x. e)
  Step-Held k {s} h (unlocks b e) = unlocks-Held s k b some h e (λ x. cc)
  Step-Held k {s} h (leaves b e) = unlocks-Held s k b (λ c. none) h e (λ x. cc)

  Reach-Held : {s : Shared p} → Reach p by s → Held s
  Reach-Held (start s a e) = (λ k x. let y = a k in cc, λ j k x y. let z = a j in cc)
  Reach-Held (after k v x) = Step-Held k (Reach-Held v) x

  -- However threads make, lock, unlock and destroy scoped locks of one Mutex or SpinLock, a thread several of them if it
  -- does: where a scoped lock is locked, its thread has the lock, and no other scoped lock is locked.
  pub locked-exclusive :
      (s : Shared p) (j k : ℕ)
      → Reach p by s
      → s.scopes k ≡ some true
      → (p.owner s.mutex ≡ some (by k)) × ((s.scopes j ≡ some true) ↔ (j ≡ k))
  locked-exclusive s j k v e =
      let (h, u) = Reach-Held v in (h k e, (λ x. u j k x e, λ q. ap s.scopes q ∙ e))

  -- When the scoped lock that is locked is unlocked, nobody has the lock.
  pub unlocks-free :
      (s : Shared p) (k : ℕ)
      → Reach p by s
      → s.scopes k ≡ some true
      → p.owner
          (scoped_unlock
            (λ l. l)
            (unlock p (by k))
            (record { mutex = s.mutex; islocked = true })).mutex
        ≡ none
  unfolding unlock
  unlocks-free s k v e = laws.unlock_owner (by k) s.mutex ((Reach-Held v).0 k e)
