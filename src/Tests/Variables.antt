-- ===== src/Tests/Variables.antt =====
-- A registry with a variable of a number and what is done with it.
use high_performance_server.Prelude.{
  ℕ, Bool, true, false, List, [], ◌∷◌, Option, some, none, Text, codes, same, member, ◌≡◌, refl, ok,
  ◌==◌,
}
use high_performance_server.Config.Vars.{
  make as new_var, from_string as var_from_string, set_value, add_listener, search_free,
  clear_listener,
}
use high_performance_server.Config.Registry.{
  Node, scalar, mapping, no_entries, entry, find, is_valid, lookup, lookup_or_make, register,
  list_all_member, load_from_yaml,
}
use high_performance_server.Config.Variables.{
  Types, Variable, Datas, is_kind, new_elem, Op, look, set_val, listen, clear, load, perform,
  perform_all, at_kind, from_string,
}
use high_performance_server.Config.Variables.Typed.{perform_all-typed, perform_all-names}

abbrev ValOf : Bool → Type 0
ValOf true = Text
ValOf false = ℕ

abbrev decide_kind : (k j : Bool) → Dec (k ≡ j)
decide_kind true true = yes refl
decide_kind true false = no (λ e. cc)
decide_kind false true = no (λ e. cc)
decide_kind false false = yes refl

abbrev same_val : (k : Bool) → ValOf k → ValOf k → Bool
same_val true a b = same a b
same_val false a b = a == b

abbrev first_of : Text → Option ℕ
first_of (c ∷ []) = some c
first_of _ = none

abbrev val_from : (k : Bool) → Text → Option (ValOf k)
val_from true s = some s
val_from false s = first_of s

abbrev val_to : (k : Bool) → ValOf k → Option Text
val_to true s = some s
val_to false n = some (n ∷ [])

-- Texts, and numbers that are written as one character.
abbrev texts_and_numbers : Types
texts_and_numbers = record {
  Name = Bool;
  Val = ValOf;
  decide = decide_kind;
  same = same_val;
  from = val_from;
  to = val_to;
}

abbrev host : Variable texts_and_numbers ℕ
host = new_elem texts_and_numbers ℕ true (codes "host") (codes "a") []

abbrev hosts : Datas texts_and_numbers ℕ
hosts = (codes "host", host) ∷ []

abbrev some_ops : List (Op texts_and_numbers ℕ)
some_ops =
    look false (codes "port") 80 []
    ∷ look false (codes "host") 80 []
    ∷ set_val false (codes "port") 81
    ∷ listen false (codes "port") 5
    ∷ load (mapping (entry (codes "port") (scalar (codes "8")) no_entries))
    ∷ clear true (codes "port")
    ∷ []

abbrev rendered : Node → Text
rendered n = []

perform_all-typed_example :
    (w : Variable texts_and_numbers ℕ) × (find
        (codes "host")
        (perform_all texts_and_numbers ℕ rendered some_ops hosts)
      ≡ some w)
    × (w.kind ≡ true)
    × (lookup
          (is_kind texts_and_numbers ℕ false)
          (codes "host")
          (perform_all texts_and_numbers ℕ rendered some_ops hosts)
        ≡ none)
    × (lookup_or_make
          (is_kind texts_and_numbers ℕ false)
          (codes "host")
          host
          (perform_all texts_and_numbers ℕ rendered some_ops hosts)
        ≡ ok (host, perform_all texts_and_numbers ℕ rendered some_ops hosts))
unfolding is_kind same is_valid member
perform_all-typed_example =
    perform_all-typed texts_and_numbers ℕ rendered some_ops hosts (codes "host") host false host
      refl refl

abbrev port_after : Variable texts_and_numbers ℕ
port_after = record {
  kind = false;
  var = record {
    name = codes "port";
    description = [];
    val = b'8';
    func_id = 0;
    cbs = (0, 5) ∷ [];
  };
}

perform_all-names_example : (port_after.var.name ≡ codes "port") × (is_valid (codes "port") ≡ true)
unfolding perform_all perform load_from_yaml list_all_member is_valid member lookup_or_make register
    same at_kind from_string var_from_string set_value add_listener search_free new_var is_kind
    clear_listener
perform_all-names_example =
    perform_all-names texts_and_numbers ℕ rendered some_ops (codes "port") port_after refl
