-- ===== src/Config/Listeners.antt =====
-- The ids of a variable's listeners, and what an assignment calls.
use high_performance_server.Prelude.{
  ℕ, zero, suc, ◌+◌, ◌%◌, ◌≤◌, ◌<◌, ltb, ◌==◌, Bool, true, false, List, [], ◌∷◌, map, Option, none,
  some, Text, if◌then◌else◌, ok, fail, thrown, is_some, ◌≡◌, refl, ap, ◌∙◌, sym, arith, Bool-cases,
  ==_iff, subst, ok_injective, fail-ne-ok, Option-cases, inl, inr, ◌⊎◌,
}
use high_performance_server.Config.Vars.{
  ConfigVar, word, get, insert, search_free, listened, add_listener, func_id_growth_valid,
  add_listener_at, get_listener, calls, set_value, from_string,
}

module _ {C : Type 0} where
  get-insert_self :
      (key : ℕ) (cb : C) (cbs : List (ℕ × C))
      → get key cbs ≡ none
      → get key (insert key cb cbs) ≡ some cb
  get-insert_self key cb cbs h = rw h (ground arith)

  -- The callback of a key that is inserted.
  abbrev pub kept_or : C → Option C → C
  kept_or cb none = cb
  kept_or cb (some old) = old

  get-insert_old :
      (key : ℕ) (cb old : C) (cbs : List (ℕ × C))
      → get key cbs ≡ some old
      → get key (insert key cb cbs) ≡ some old
  get-insert_old key cb old cbs e = rw e e

  get-insert_kept :
      (key : ℕ) (cb : C) (cbs : List (ℕ × C))
      → get key (insert key cb cbs) ≡ some (kept_or cb (get key cbs))
  get-insert_kept key cb cbs = elim (Option-cases (get key cbs)) [
    | inl e ↦ get-insert_self key cb cbs e ∙ ap (λ o. some (kept_or cb o)) (sym e)
    | inr (old, e) ↦ get-insert_old key cb old cbs e ∙ ap (λ o. some (kept_or cb o)) (sym e)
  ]

  get-insert_other :
      (key other : ℕ) (cb : C) (cbs : List (ℕ × C))
      → (key == other) ≡ false
      → get other (insert key cb cbs) ≡ get other cbs
  get-insert_other key other cb cbs h = elim (Option-cases (get key cbs)) [
    | inl e ↦ rw (e, h) refl
    | inr (b, e) ↦ rw e refl
  ]

  -- The ids from `i` up to `n` are taken.
  abbrev pub Taken : List (ℕ × C) → ℕ → ℕ → Type 0
  Taken cbs i n = (k : ℕ) → i ≤ k → k < n → is_some (get k cbs) ≡ true

  Taken-more :
      (cbs : List (ℕ × C)) (i n : ℕ) (b : C)
      → get i cbs ≡ some b
      → Taken cbs (i + 1) n
      → Taken cbs i n
  Taken-more cbs i n b e h k l m = elim (Bool-cases (i == k)) [
    | inl q ↦ subst (λ (j : ℕ). is_some (get j cbs) ≡ true) ((==_iff i k).0 q) (ap is_some e)
    | inr q ↦ h k (ground arith) m
  ]

  -- The least free id from `i` on.
  Least : List (ℕ × C) → ℕ → ℕ → ℕ → Type 0
  Least cbs i n id = (get id cbs ≡ none) × (id < n) × Taken cbs i id

  search_free_lem :
      (rounds i : ℕ) (cbs : List (ℕ × C))
      → ((id : ℕ) × (search_free rounds i cbs ≡ some id) × Least cbs i (i + rounds) id)
        ⊎ ((search_free rounds i cbs ≡ none) × Taken cbs i (i + rounds))
  unfolding search_free Least
  search_free_lem zero i cbs = inr (refl, λ k h l. absurd (omega arith))
  search_free_lem (suc rounds) i cbs = elim (Option-cases (get i cbs)) [
    | inl e ↦ inl (i, rw e refl, (e, omega arith, λ k h l. absurd (omega arith)))
    | inr (b, e) ↦ elim (search_free_lem rounds (i + 1) cbs) [
      | inl (id, q, (f, m, t)) ↦
          inl (id, rw (e, q) refl, (f, omega (arith, m), Taken-more cbs i id b e t))
      | inr (q, t) ↦ inr (
        rw (e, q) refl,
        Taken-more cbs i (i + suc rounds) b e (λ k h l. t k h (omega (arith, l))),
      )
    ]
  ]

  -- The keys are at most s_func_id.
  abbrev pub IsBounded : {A : Type 0} → ConfigVar A C → Type 0
  IsBounded v = (k : ℕ) → v.func_id < k → get k v.cbs ≡ none

module _ {A C : Type 0} where
  -- addListener gives the callback the least id that no listener has, if the ids in use are at most
  -- s_func_id and that is not the greatest number of its type; it keeps this bound and leaves the
  -- other listeners.
  pub add_listener_lem :
      (cb : C) (v : ConfigVar A C)
      → IsBounded v
      → v.func_id + 1 < word
      → (id : ℕ) × (w : ConfigVar A C) × (add_listener cb v ≡ (id, w))
        × (get id v.cbs ≡ none)
        × Taken v.cbs 0 id
        × (get_listener id w ≡ some cb)
        × ((k : ℕ) → (id == k) ≡ false → get_listener k w ≡ get_listener k v)
        × IsBounded w
        × (w.val ≡ v.val)
  unfolding add_listener get_listener Least
  add_listener_lem cb v b h = elim (search_free_lem (v.func_id + 1) 0 v.cbs) [
    | inl (id, q, (f, m, t)) ↦ (
      id,
      record v { cbs = insert id cb v.cbs },
      ap (λ (o : Option ℕ). listened o cb v) q,
      f,
      t,
      get-insert_self id cb v.cbs f,
      λ k n. get-insert_other id k cb v.cbs n,
      λ k l. get-insert_other id k cb v.cbs (ground (arith, m)) ∙ b k l,
      refl,
    )
    | inr (q, t) ↦
        let id = v.func_id + 1 in
        let f = b id (omega arith) in
        let n : (v.func_id + 1) % word ≡ id = omega arith in
        (
          id,
          record v { func_id = id; cbs = insert id cb v.cbs },
          ap (λ (o : Option ℕ). listened o cb v) q
              ∙ ap (λ (i : ℕ). (i, record v { func_id = i; cbs = insert i cb v.cbs })) n,
          f,
          λ k l m. t k l (omega (arith, m)),
          get-insert_self id cb v.cbs f,
          λ k n. get-insert_other id k cb v.cbs n,
          λ k l. get-insert_other id k cb v.cbs (ground (arith, l)) ∙ b k (omega (arith, l)),
          refl,
        )
  ]

  -- addListener(key, cb) throws on a variable that has no greater id than 0, for every key: on a
  -- new one, and on one with a single listener from addListener(cb).
  pub add_listener_at_refused :
      (key : ℕ) (cb : C) (v : ConfigVar A C)
      → v.func_id ≡ 0
      → add_listener_at key cb v ≡ fail thrown
  unfolding add_listener_at
  add_listener_at_refused key cb v h = rw h (ground arith)

  insert-IsBounded :
      (key : ℕ) (cb : C) (v : ConfigVar A C) (k : ℕ)
      → IsBounded v
      → (if ltb v.func_id key then key else v.func_id) < k
      → get k (insert key cb v.cbs) ≡ none
  insert-IsBounded key cb v k b l =
      get-insert_other key k cb v.cbs (ground arith) ∙ b k (ground arith)

  added_at : (key : ℕ) (cb : C) (v : ConfigVar A C) → ConfigVar A C
  added_at key cb v = record v {
    func_id = if ltb v.func_id key then key else v.func_id;
    cbs = insert key cb v.cbs;
  }

  add_listener_at_valid :
      (key : ℕ) (cb : C) (v : ConfigVar A C)
      → func_id_growth_valid key v ≡ true
      → add_listener_at key cb v ≡ ok (added_at key cb v)
  unfolding add_listener_at added_at
  add_listener_at_valid key cb v g = rw g refl

  add_listener_at_invalid :
      (key : ℕ) (cb : C) (v : ConfigVar A C)
      → func_id_growth_valid key v ≡ false
      → add_listener_at key cb v ≡ fail thrown
  unfolding add_listener_at
  add_listener_at_invalid key cb v g = rw g refl

  -- addListener(key, cb) that does not throw keeps the ids in use at most s_func_id, and the key
  -- then has the callback that it had before, or the new one if it had none.
  pub add_listener_at_lem :
      (key : ℕ) (cb : C) (v w : ConfigVar A C)
      → IsBounded v
      → add_listener_at key cb v ≡ ok w
      → IsBounded w × (get_listener key w ≡ some (kept_or cb (get_listener key v)))
  unfolding get_listener added_at
  add_listener_at_lem key cb v w b h = elim (Bool-cases (func_id_growth_valid key v)) [
    | inr g ↦ absurd (fail-ne-ok (sym (add_listener_at_invalid key cb v g) ∙ h))
    | inl g ↦
        subst
          (λ (u : ConfigVar A C). IsBounded u × (get key u.cbs ≡ some (kept_or cb (get key v.cbs))))
          (ok_injective (sym (add_listener_at_valid key cb v g) ∙ h))
          (λ k l. insert-IsBounded key cb v k b l, get-insert_kept key cb v.cbs)
  ]

calls-map :
    {A C : Type 0} (a b : A) (cbs : List (ℕ × C))
    → calls a b cbs ≡ map (λ (l : ℕ × C). record { callback = l.1; before = a; after = b }) cbs
calls-map a b [] = refl
calls-map a b (l ∷ cbs) = rw (calls-map a b cbs) refl

module _ {A C : Type 0} (same : A → A → Bool) (from : Text → Option A) where
  -- fromString with a text that is converted to a value that differs from the variable's calls every
  -- listener once, in the order of the listeners, with the old value and the new one, sets the value, and
  -- returns true.
  pub from_string_lem :
      (s : Text) (b : A) (v : ConfigVar A C)
      → from s ≡ some b
      → same v.val b ≡ false
      → from_string same from s v ≡ (
        true,
        map (λ (l : ℕ × C). record { callback = l.1; before = v.val; after = b }) v.cbs,
        record v { val = b },
      )
  unfolding from_string set_value
  from_string_lem s b v e h = rw (e, h, calls-map v.val b v.cbs) refl

  -- fromString with a text whose conversion throws returns false, calls nobody and changes nothing.
  pub from_string_refused :
      (s : Text) (v : ConfigVar A C) → from s ≡ none → from_string same from s v ≡ (false, [], v)
  unfolding from_string
  from_string_refused s v e = rw e refl
