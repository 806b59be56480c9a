-- ===== src/Locks/RwMutex/Leaks.antt =====
-- What threads that use the scoped locks of an RWMutex can do.
use high_performance_server.Prelude.{
  ℕ, ◌==◌, ==_iff, ◌≡◌, ◌≢◌, ◌⊎◌, refl, sym, ap, ◌∙◌, subst, Bool, true, false, some, Bool-cases,
  inl, inr,
}
use high_performance_server.Locks.{destroy}
use high_performance_server.Locks.RwMutex.{
  Rwlock, RwlockLaws, Scope, outside, reading, writing, rdlock, wrlock, Shared, put_scope, left,
  Step, reads, writes, reader_locks, reader_locks_again, reader_unlocks, writer_locks,
  writer_locks_again, writer_unlocks, reader_leaves, writer_leaves, Reach,
}
use high_performance_server.Locks.RwMutex.Holding.{
  Unheld, Fits, Free, Owned, rdlock-cases, wrlock-cases, ne_iff, Reach-Held,
}

module _ (r : Rwlock) (laws : RwlockLaws r) where
  Unheld-holds : (b : Bool) (c : Scope) → c ≡ writing b true → ¬ (Unheld c)
  Unheld-holds b c e u = let (x, y) = subst Unheld e u in cc

  Fits-holds : (n : ℕ) (b : Bool) (c : Scope) → c ≡ writing b true → ¬ (Fits n c)
  Fits-holds n b c e f = let (x, y, z) = subst (Fits n) e f in cc

  -- A thread whose WriteScopedLockImpl holds the lock is its owner.
  holds_Owned :
      (s : Shared r) (t : ℕ) (b : Bool)
      → Free r laws s ⊎ Owned r laws s
      → s.scopes t ≡ writing b true
      → (o : Owned r laws s) × (t ≡ o.0)
  holds_Owned s t b (inl f) h = absurd (Fits-holds (r.readers s.lock t) b (s.scopes t) h (f.1 t))
  holds_Owned s t b (inr (w, e, z, q)) h = elim (Bool-cases (t == w)) [
    | inl d ↦ ((w, e, z, q), (==_iff t w).0 d)
    | inr d ↦ absurd (Unheld-holds b (s.scopes t) h (q t (ne_iff w t d)))
  ]

  -- However the steps of the threads interleave, their calls of lock() and unlock() in a scope included: while the
  -- WriteScopedLockImpl of a thread holds the lock, its constructor or its lock() having been called after the last
  -- unlock() that had an effect, the thread owns the lock, and every other thread is outside, has
  -- unlocked its ReadScopedLockImpl, or has a WriteScopedLockImpl that does not hold the lock. (A thread is in one scope of the
  -- lock at a time.)
  pub writing-exclusive :
      {s : Shared r} (t u : ℕ) (b : Bool)
      → Reach r s
      → s.scopes t ≡ writing b true
      → u ≢ t
      → (r.writer s.lock ≡ some t) × Unheld (s.scopes u)
  writing-exclusive {s} t u b reach h n =
      let ((w, e, _, q), d) = holds_Owned s t b (Reach-Held r laws reach) h in
      (e ∙ ap some (sym d), q u (λ k. n (k ∙ sym d)))

  -- What a thread that does not own the lock can do while another does.
  abbrev pub Idles : ℕ → Shared r → Shared r → Type 0
  Idles u s s' = (s.scopes u ≢ outside) × (s'.lock ≡ s.lock) × Unheld (s'.scopes u)

  put-Unheld :
      (s : Shared r) (u : ℕ) (c : Scope) (l : r.Lock)
      → Unheld c
      → Unheld ((put_scope r u c l s).scopes u)
  put-Unheld s u c l h = rw ((==_iff u u).1 refl) h

  rdlock-owned : (t u : ℕ) (l l' : r.Lock) → r.writer l ≡ some t → rdlock r u l ≡ some l' → u ≡ t
  rdlock-owned t u l l' w k = elim (rdlock-cases r laws u l l' k) [
    | inl g ↦ let (n, _, _) = laws.rdlock_gives u l l' g in absurd (cc)
    | inr (_, e) ↦ cc
  ]

  wrlock-owned : (t u : ℕ) (l l' : r.Lock) → r.writer l ≡ some t → wrlock r u l ≡ some l' → u ≡ t
  wrlock-owned t u l l' w k = elim (wrlock-cases r laws u l l' k) [
    | inl g ↦ let (n, _, _, _) = laws.wrlock_gives u l l' g in absurd (cc)
    | inr (_, e) ↦ cc
  ]

  -- A step of a thread other than the owner.
  other_step :
      (s : Shared r) (t u : ℕ) (s' : Shared r)
      → r.writer s.lock ≡ some t
      → Unheld (s.scopes u)
      → Step r u s s'
      → (u ≡ t) ⊎ Idles u s s'
  unfolding destroy
  other_step s t u s' w q (reads l h k) = inl (rdlock-owned t u s.lock l w k)
  other_step s t u s' w q (writes l h k) = inl (wrlock-owned t u s.lock l w k)
  other_step s t u s' w q (reader_locks l h k) = inl (rdlock-owned t u s.lock l w k)
  other_step s t u s' w q (writer_locks b l h k) = inl (wrlock-owned t u s.lock l w k)
  other_step s t u s' w q (reader_locks_again h) = let x = subst Unheld h q in absurd (cc)
  other_step s t u s' w q (reader_unlocks true h) = let x = subst Unheld h q in absurd (cc)
  other_step s t u s' w q (reader_unlocks false h) =
      inr ((λ e. cc), refl, put-Unheld s u (reading false) s.lock refl)
  other_step s t u s' w q (writer_locks_again b h) = let (x, _) = subst Unheld h q in absurd (cc)
  other_step s t u s' w q (writer_unlocks true b h) = let (x, _) = subst Unheld h q in absurd (cc)
  other_step s t u s' w q (writer_unlocks false b h) =
      inr ((λ e. cc), refl, put-Unheld s u (writing false b) s.lock (subst Unheld h q))
  other_step s t u s' w q (reader_leaves true h) = let x = subst Unheld h q in absurd (cc)
  other_step s t u s' w q (reader_leaves false h) =
      inr ((λ e. cc), refl, put-Unheld s u outside s.lock tt)
  other_step s t u s' w q (writer_leaves true b h) = let (x, _) = subst Unheld h q in absurd (cc)
  other_step s t u s' w q (writer_leaves false b h) =
      inr ((λ e. cc), refl, put-Unheld s u outside s.lock tt)

  -- Where a thread has left the scope of a WriteScopedLockImpl that its constructor has locked, no other thread gets the
  -- lock until this thread takes a step of its own: a thread that is outside waits, and one that is in a scope can only
  -- take steps that leave the lock as it is and the thread without it. (A thread is in one scope of the lock at a
  -- time.)
  pub left_writing-stuck :
      {s : Shared r} (t u : ℕ) (s' : Shared r)
      → Reach r s
      → s.scopes t ≡ writing false true
      → Step r u (left r t false s) s'
      → (u ≡ t) ⊎ Idles u (left r t false s) s'
  unfolding destroy
  left_writing-stuck {s} t u s' reach h step =
      let ((w, e, z, q), d) = holds_Owned s t false (Reach-Held r laws reach) h in
      elim (Bool-cases (u == t)) [
        | inl x ↦ inl ((==_iff u t).0 x)
        | inr x ↦
            other_step (left r t false s) t u s' (e ∙ ap some (sym d))
              (rw x (q u (λ k. ne_iff t u x (k ∙ sym d)))) step
      ]
