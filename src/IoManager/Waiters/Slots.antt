-- ===== src/IoManager/Waiters/Slots.antt =====
-- Who waits in a slot, and how this changes with the slot and with the size of the table.
use high_performance_server.Prelude.{
  ℕ, zero, suc, [], ◌∷◌, ◌+◌, ◌≤◌, ltb, ◌==◌, ==_iff, List, Option, none, some, length, get_elem?,
  get_elem?-set_ne, get_elem?-set-some, set, if◌then◌else◌, ◌≡◌, ◌≢◌, refl, sym, ap, ◌∙◌, arith,
  Bool-cases, inl, inr,
}
use high_performance_server.IoManager.Events.{Event, nothing, read, write, FdContext, EventContext}
use high_performance_server.IoManager.{Caller, new_context, resize_from}
use high_performance_server.IoManager.Valid.{resize-length, resize-get_old, resize-get_new}
use high_performance_server.IoManager.Triggering.{cleared}
use high_performance_server.IoManager.Adding.{waiting, armed}
use high_performance_server.IoManager.Waiters.{waiter_of, waiter_in, eq_event, updated}

pub waiter_of-cleared :
    (e f : Event) (c : FdContext)
    → waiter_of (cleared e c) f ≡ (if eq_event f e then none else waiter_of c f)
waiter_of-cleared nothing nothing c = refl
waiter_of-cleared nothing read c = refl
waiter_of-cleared nothing write c = refl
waiter_of-cleared read nothing c = refl
waiter_of-cleared read read c = refl
waiter_of-cleared read write c = refl
waiter_of-cleared write nothing c = refl
waiter_of-cleared write read c = refl
waiter_of-cleared write write c = refl

pub waiter_of-armed :
    (who : Caller) (cb : Option ℕ) (e f : Event) (c : FdContext)
    → e ≢ nothing
    → waiter_of (armed who cb e c) f
      ≡ (if eq_event f e then some (waiting who cb) else waiter_of c f)
waiter_of-armed who cb nothing f c n = absurd (n refl)
waiter_of-armed who cb read nothing c n = refl
waiter_of-armed who cb read read c n = refl
waiter_of-armed who cb read write c n = refl
waiter_of-armed who cb write nothing c n = refl
waiter_of-armed who cb write read c n = refl
waiter_of-armed who cb write write c n = refl

-- A slot that is replaced by one that differs in one event.
pub put-waiters :
    (i : ℕ) (e : Event) (x : Option EventContext) (cs : List FdContext) (c c' : FdContext)
    → get_elem? cs i ≡ some c
    → ((f : Event) → waiter_of c' f ≡ (if eq_event f e then x else waiter_of c f))
    → (j : ℕ) (f : Event)
    → waiter_in (get_elem? (set cs i c') j) f
      ≡ updated i e x (λ j f. waiter_in (get_elem? cs j) f) j f
put-waiters i e x cs c c' g h j f = elim (Bool-cases (j == i)) [
  | inl d ↦
      let p : j ≡ i = (==_iff j i).0 d in
      let k = ap (λ (n : ℕ). get_elem? (set cs i c') n) p ∙ get_elem?-set-some cs i c' g in
      let l = ap (λ (n : ℕ). get_elem? cs n) p ∙ g in
      rw d (
        ap (λ o. waiter_in o f) k
        ∙ h f
        ∙ ap (λ o. if eq_event f e then x else waiter_in o f) (sym l))
  | inr d ↦
      let n : i ≢ j = λ q. let y = (==_iff j i).1 (sym q) in cc in
      rw d (ap (λ o. waiter_in o f) (get_elem?-set_ne cs c' n))
]

waiter_of-new : (i : ℕ) (f : Event) → waiter_of (new_context i) f ≡ none
waiter_of-new i nothing = refl
waiter_of-new i read = refl
waiter_of-new i write = refl

get_elem?-beyond : {A : Type 0} (xs : List A) (i : ℕ) → length xs ≤ i → get_elem? xs i ≡ none
get_elem?-beyond [] i h = refl
get_elem?-beyond (x ∷ xs) zero h = absurd (omega arith)
get_elem?-beyond (x ∷ xs) (suc i) h = get_elem?-beyond xs i (omega arith)

-- Nobody waits in the slots that contextResize adds.
pub resize-waiters :
    (n : ℕ) (cs : List FdContext) (j : ℕ) (f : Event)
    → length cs ≤ n
    → waiter_in (get_elem? (resize_from 0 n cs) j) f ≡ waiter_in (get_elem? cs j) f
resize-waiters n cs j f h = elim (Bool-cases (ltb j (length cs))) [
  | inl a ↦ ap (λ o. waiter_in o f) (resize-get_old 0 n j cs (ground arith) (ground arith))
  | inr a ↦ elim (Bool-cases (ltb j n)) [
    | inl b ↦
        ap (λ o. waiter_in o f) (resize-get_new 0 n j cs (ground arith) (ground arith))
        ∙ waiter_of-new (0 + j) f
        ∙ sym (ap (λ o. waiter_in o f) (get_elem?-beyond cs j (ground arith)))
    | inr b ↦
        ap (λ o. waiter_in o f)
          (get_elem?-beyond (resize_from 0 n cs) j (ground (arith, resize-length 0 n cs))
            ∙ sym (get_elem?-beyond cs j (ground arith)))
  ]
]
