-- ===== src/Log/Naming.antt =====
-- The loggers that names stand for.
use high_performance_server.Prelude.{
  ℕ, suc, ◌+◌, ◌<◌, true, false, List, [], ◌∷◌, Option, none, some, Text, same, same_iff, is_empty,
  if◌then◌else◌, ok, ◌≡◌, refl, ap, ◌∙◌, sym, subst, arith, All, Bool-cases, Option-cases, inl, inr,
}
use high_performance_server.Log.Levels.{Level, debug}
use high_performance_server.Log.Pattern.{init_pattern, lex, scan_name, items_of}
use high_performance_server.Log.Formatter.{Event, make}
use high_performance_server.Log.Logger.{
  Logger, Store, put_logger, new_logger, set_root, at_least, log,
}
use high_performance_server.Log.Routing.{log_inherited}
use high_performance_server.Log.Manager.{Manager, find, insert_logger, get_logger, del_logger}
use high_performance_server.Log.Names.{
  some_injective, find-same, find-other, write-ne, write_self, same_refl, find-erase,
  find-erase_other,
}

pub record New (name : Text) (l : Logger) : Type 0 where
  pub is_made : new_logger name ≡ ok l
  pub is_named : l.name ≡ name
  pub is_debug : l.level ≡ debug
  pub is_bare : is_empty l.appenders ≡ true

pub new_logger-New : (name : Text) → (l : Logger) × New name l
unfolding new_logger make init_pattern lex scan_name items_of
new_logger-New name =
    (_, record { is_made = refl; is_named = refl; is_debug = refl; is_bare = refl })

-- A logger has the name that it is kept under, and an address that is in use, as the root has.
abbrev pub IsKept : Store → ℕ → Text × ℕ → Type 0
IsKept s next (name, p) = ((s.loggers p).name ≡ name) × (p < next)

pub record Kept (m : Manager) : Type 0 where
  pub kept : All (IsKept m.store m.next) m.loggers
  pub root_used : m.root < m.next

find-IsKept :
    (s : Store) (next : ℕ) (name : Text) (l : List (Text × ℕ)) (p : ℕ)
    → All (IsKept s next) l
    → find name l ≡ some p
    → IsKept s next (name, p)
find-IsKept s next name [] p h e = cc
find-IsKept s next name ((key, q) ∷ l) p h e = elim (Bool-cases (same key name)) [
  | inl b ↦
      let at : q ≡ p = some_injective (sym (find-same name key q l b) ∙ e) in
      let k = (same_iff key name).0 b in subst (λ r. IsKept s next (name, r)) at (h.0.0 ∙ k, h.0.1)
  | inr b ↦ find-IsKept s next name l p h.1 (sym (find-other name key q l b) ∙ e)
]

put_logger-IsKept :
    (s : Store) (next : ℕ) (l : Logger) (loggers : List (Text × ℕ))
    → All (IsKept s next) loggers
    → All (IsKept (put_logger s next l) next) loggers
put_logger-IsKept s next l [] h = tt
put_logger-IsKept s next l ((name, p) ∷ rest) h =
    ((rw (write-ne s.loggers next p l h.0.1) h.0.0, h.0.1), put_logger-IsKept s next l rest h.1)

IsKept-next :
    (s : Store) (next : ℕ) (loggers : List (Text × ℕ))
    → All (IsKept s next) loggers
    → All (IsKept s (next + 1)) loggers
IsKept-next s next [] h = tt
IsKept-next s next ((name, p) ∷ rest) h = ((h.0.0, omega arith), IsKept-next s next rest h.1)

set_root-put_logger :
    (s : Store) (p : ℕ) (l : Logger) (r : Option ℕ)
    → (set_root r p (put_logger s p l)).loggers p ≡ record l { root = r }
unfolding set_root
set_root-put_logger s p l r =
    write_self (put_logger s p l).loggers p _
    ∙ ap (λ (k : Logger). record k { root = r }) (write_self s.loggers p l)

-- The manager with the logger `l` for a new name.
inserted : Text → Logger → Manager → Manager
inserted name l m = record m {
  store = set_root (some m.root) m.next (put_logger m.store m.next l);
  loggers = (name, m.next) ∷ m.loggers;
  next = m.next + 1;
}

get_logger_found :
    (name : Text) (m : Manager) (p : ℕ)
    → find name m.loggers ≡ some p
    → get_logger name m ≡ ok (p, m)
unfolding get_logger
get_logger_found name m p e = rw (get_logger, e) refl

get_logger_new :
    (name : Text) (m : Manager)
    → find name m.loggers ≡ none
    → get_logger name m ≡ ok (m.next, inserted name (new_logger-New name).0 m)
unfolding get_logger inserted insert_logger set_root
get_logger_new name m e = rw (get_logger, e) (rw (new_logger-New name).1.is_made refl)

inserted-Kept :
    (name : Text) (l : Logger) (m : Manager) → l.name ≡ name → Kept m → Kept (inserted name l m)
unfolding inserted set_root
inserted-Kept name l m e k =
    let s = put_logger m.store m.next l in
    let t = set_root (some m.root) m.next s in
    let rest =
      put_logger-IsKept s m.next (record (s.loggers m.next) { root = some m.root }) m.loggers
        (put_logger-IsKept m.store m.next l m.loggers k.kept) in
    record {
      kept = (
        (
          ap (λ (r : Logger). r.name) (set_root-put_logger m.store m.next l (some m.root)) ∙ e,
          omega arith,
        ),
        IsKept-next t m.next m.loggers rest,
      );
      root_used = omega (arith, k.root_used);
    }

-- getLogger on a manager whose loggers have the names that they are kept under gives a logger of
-- the name that is asked for, keeps the property, gives the same logger the next time, and leaves
-- the other names as they were.
pub get_logger-Kept :
    (name : Text) (m : Manager)
    → Kept m
    → (p : ℕ) × (n : Manager) × (get_logger name m ≡ ok (p, n))
      × Kept n
      × ((n.store.loggers p).name ≡ name)
      × (get_logger name n ≡ ok (p, n))
      × ((other : Text) → same name other ≡ false → find other n.loggers ≡ find other m.loggers)
unfolding inserted
get_logger-Kept name m k = elim (Option-cases (find name m.loggers)) [
  | inr (p, e) ↦ (
    p,
    m,
    get_logger_found name m p e,
    k,
    (find-IsKept m.store m.next name m.loggers p k.kept e).0,
    get_logger_found name m p e,
    λ other h. refl,
  )
  | inl e ↦
      let (l, v) = new_logger-New name in
      (
        m.next,
        inserted name l m,
        get_logger_new name m e,
        inserted-Kept name l m v.is_named k,
        ap (λ (r : Logger). r.name) (set_root-put_logger m.store m.next l (some m.root))
            ∙ v.is_named,
        get_logger_found name (inserted name l m) m.next
            (find-same name name m.next m.loggers (same_refl name)),
        λ other h. find-other other name m.next m.loggers h,
      )
]

-- After delLogger the name stands for no logger, so that getLogger makes a new one, and the other
-- names stand for what they stood for.
pub del_logger_lem :
    (name : Text) (m : Manager)
    → (find name (del_logger name m).loggers ≡ none)
      × ((other : Text)
          → same name other ≡ false
          → find other (del_logger name m).loggers ≡ find other m.loggers)
unfolding del_logger
del_logger_lem name m = elim (Option-cases (find name m.loggers)) [
  | inl e ↦ rw e (e, λ other h. refl)
  | inr (p, e) ↦
      rw e (find-erase name m.loggers, λ other h. find-erase_other name other m.loggers h)
]

-- A logger that getLogger makes hands what is logged with it, from the level DEBUG on, to the
-- manager's root logger, which is left as it was, as all appenders are; it drops what is below.
pub get_logger-inherits :
    (name : Text) (m : Manager)
    → Kept m
    → find name m.loggers ≡ none
    → (p : ℕ) × (n : Manager) × (get_logger name m ≡ ok (p, n))
      × (n.store.loggers m.root ≡ m.store.loggers m.root)
      × (n.store.appenders ≡ m.store.appenders)
      × ((calls : ℕ) (date : Text → ℕ → Text) (level : Level) (event : Event)
          → log (suc calls) date n.store p level event
            ≡ (if at_least level debug then log calls date n.store m.root level event else ok []))
unfolding inserted set_root
get_logger-inherits name m k e =
    let (l, v) = new_logger-New name in
    let s = put_logger m.store m.next l in
    let q = set_root-put_logger m.store m.next l (some m.root) in
    (
      m.next,
      inserted name l m,
      get_logger_new name m e,
      write-ne s.loggers m.next m.root _ k.root_used
          ∙ write-ne m.store.loggers m.next m.root l k.root_used,
      refl,
      λ calls date level event.
          log_inherited calls date (inserted name l m).store m.next m.root level event
            (ap (λ (r : Logger). is_empty r.appenders) q ∙ v.is_bare)
            (ap (λ (r : Logger). r.root) q)
          ∙ ap
              (λ (d : Level).
                if at_least level d
                then log calls date (inserted name l m).store m.root level event
                else ok [])
              (ap (λ (r : Logger). r.level) q ∙ v.is_debug),
    )
