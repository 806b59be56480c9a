-- ===== src/IoManager/Valid.antt =====
-- The invariant of the manager: which contexts are armed, and what m_pendingEventCount counts.
use high_performance_server.Prelude.{
  ℕ, zero, suc, ◌+◌, ◌%◌, ◌≤◌, ◌<◌, Bool, true, not, ◌&&◌, List, [], ◌∷◌, some, is_some, length,
  get_elem?, set, if◌then◌else◌, ◌≡◌, refl, ap, ◌∙◌, arith,
}
use high_performance_server.Fiber.{word}
use high_performance_server.IoManager.Events.{EventContext, FdContext}
use high_performance_server.IoManager.{Manager, is_free, new_context, resize_from, context_resize}

-- A context that an event waits in: a scheduler, and a fiber or a callback, not both.
abbrev pub is_armed : EventContext → Bool
is_armed x =
    is_some x.scheduler && (if is_some x.cb then not (is_some x.fiber) else is_some x.fiber)

abbrev pub context_ok : Bool → EventContext → Bool
context_ok b x = if b then is_armed x else is_free x

abbrev pub slot_ok : FdContext → Bool
slot_ok c = context_ok c.events.reads c.read_context && context_ok c.events.writes c.write_context

-- The slot of the descriptor `i`.
abbrev pub IsSlot : ℕ → FdContext → Type 0
IsSlot i c = (slot_ok c ≡ true) × (c.fd ≡ i)

abbrev pub AllFrom : ℕ → List FdContext → Type 0
AllFrom i [] = Unit {0}
AllFrom i (c ∷ cs) = IsSlot i c × AllFrom (i + 1) cs

abbrev bit : Bool → ℕ
bit b = if b then 1 else 0

-- The number of events that a descriptor, and all of them, wait for.
abbrev pub waits : FdContext → ℕ
waits c = bit c.events.reads + bit c.events.writes

abbrev pub total : List FdContext → ℕ
total [] = 0
total (c ∷ cs) = waits c + total cs

-- A context is armed exactly when its event is registered, slot `i` is that of descriptor `i`, and
-- m_pendingEventCount is the number of registered events.
pub record Valid (m : Manager) : Type 0 where
  pub slots : AllFrom 0 m.contexts
  pub counted : m.pending ≡ total m.contexts % word

pub AllFrom-get :
    (i j : ℕ) (cs : List FdContext) {c : FdContext}
    → AllFrom i cs
    → get_elem? cs j ≡ some c
    → IsSlot (i + j) c
AllFrom-get i j [] v h = cc
AllFrom-get i zero (d ∷ cs) v h = ground arith
AllFrom-get i (suc j) (d ∷ cs) {c} v h =
    let u = AllFrom-get (i + 1) j cs v.1 h in (u.0, omega arith)

pub AllFrom-set :
    (i j : ℕ) (cs : List FdContext) (c : FdContext)
    → AllFrom i cs
    → IsSlot (i + j) c
    → AllFrom i (set cs j c)
AllFrom-set i j [] c v h = tt
AllFrom-set i zero (d ∷ cs) c v h = ((h.0, omega arith), v.1)
AllFrom-set i (suc j) (d ∷ cs) c v h = (v.0, AllFrom-set (i + 1) j cs c v.1 (h.0, omega arith))

pub total-set :
    (j : ℕ) (cs : List FdContext) (c c' : FdContext)
    → get_elem? cs j ≡ some c
    → total (set cs j c') + waits c ≡ total cs + waits c'
total-set j [] c c' h = cc
total-set zero (d ∷ cs) c c' h = let e : d ≡ c = cc in omega (arith, ap waits e)
total-set (suc j) (d ∷ cs) c c' h = omega (arith, total-set j cs c c' h)

resize-AllFrom : (i n : ℕ) (cs : List FdContext) → AllFrom i cs → AllFrom i (resize_from i n cs)
resize-AllFrom i zero cs v = tt
resize-AllFrom i (suc n) [] v = ((refl, refl), resize-AllFrom (i + 1) n [] tt)
resize-AllFrom i (suc n) (c ∷ cs) v = (v.0, resize-AllFrom (i + 1) n cs v.1)

resize-total :
    (i n : ℕ) (cs : List FdContext) → length cs ≤ n → total (resize_from i n cs) ≡ total cs
resize-total i zero [] h = refl
resize-total i zero (c ∷ cs) h = absurd (omega arith)
resize-total i (suc n) [] h = omega (arith, resize-total (i + 1) n [] (omega arith))
resize-total i (suc n) (c ∷ cs) h = omega (arith, resize-total (i + 1) n cs (omega arith))

pub resize-length : (i n : ℕ) (cs : List FdContext) → length (resize_from i n cs) ≡ n
resize-length i zero cs = refl
resize-length i (suc n) [] = ap suc (resize-length (i + 1) n [])
resize-length i (suc n) (c ∷ cs) = ap suc (resize-length (i + 1) n cs)

pub resize-get_old :
    (i n j : ℕ) (cs : List FdContext)
    → j < n
    → j < length cs
    → get_elem? (resize_from i n cs) j ≡ get_elem? cs j
resize-get_old i zero j cs h k = absurd (omega arith)
resize-get_old i (suc n) j [] h k = absurd (omega arith)
resize-get_old i (suc n) zero (c ∷ cs) h k = refl
resize-get_old i (suc n) (suc j) (c ∷ cs) h k =
    resize-get_old (i + 1) n j cs (omega arith) (omega arith)

pub resize-get_new :
    (i n j : ℕ) (cs : List FdContext)
    → j < n
    → length cs ≤ j
    → get_elem? (resize_from i n cs) j ≡ some (new_context (i + j))
resize-get_new i zero j cs h k = absurd (omega arith)
resize-get_new i (suc n) zero [] h k =
    let e : i ≡ i + 0 = omega arith in ap (λ (k : ℕ). some (new_context k)) e
resize-get_new i (suc n) zero (c ∷ cs) h k = absurd (omega arith)
resize-get_new i (suc n) (suc j) [] h k =
    let e : i + 1 + j ≡ i + suc j = omega arith in
    resize-get_new (i + 1) n j [] (omega arith) (omega arith)
    ∙ ap (λ (k : ℕ). some (new_context k)) e
resize-get_new i (suc n) (suc j) (c ∷ cs) h k =
    let e : i + 1 + j ≡ i + suc j = omega arith in
    resize-get_new (i + 1) n j cs (omega arith) (omega arith)
    ∙ ap (λ (k : ℕ). some (new_context k)) e

pub Valid-IsSlot :
    (i : ℕ) (m : Manager) {c : FdContext} → Valid m → get_elem? m.contexts i ≡ some c → IsSlot i c
Valid-IsSlot i m v h = let u = AllFrom-get 0 i m.contexts v.slots h in (u.0, omega arith)

-- Growing the table keeps the invariant.
pub context_resize-Valid :
    (n : ℕ) (m : Manager) → length m.contexts ≤ n → Valid m → Valid (context_resize n m)
unfolding context_resize
context_resize-Valid n m h v = record {
  slots = resize-AllFrom 0 n m.contexts v.slots;
  counted = rw (resize-total 0 n m.contexts h) v.counted;
}

-- A slot that is replaced by a valid one, the count following the events.
pub put-Valid :
    (i : ℕ) (m m' : Manager) (c c' : FdContext)
    → Valid m
    → get_elem? m.contexts i ≡ some c
    → IsSlot i c'
    → m'.contexts ≡ set m.contexts i c'
    → (m'.pending + waits c) % word ≡ (m.pending + waits c') % word
    → m'.pending < word
    → Valid m'
put-Valid i m m' c c' v h s e p b = record {
  slots = rw e (AllFrom-set 0 i m.contexts c' v.slots (s.0, omega arith));
  counted = omega (arith, v.counted, ap total e, total-set i m.contexts c c' h);
}
