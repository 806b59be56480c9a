-- ===== src/Tests/Casts.antt =====
-- The casts of containers of numbers, over a small document format.
use high_performance_server.Prelude.{ℕ, Bool, ltb, ◌==◌, List, [], ◌∷◌, Text, ◌≡◌, arith, codes}
use high_performance_server.Config.Registry.{find}
use high_performance_server.Lexical.{
  vector_to_string, vector_from_string, list_to_string, list_from_string, unordered_map_to_string,
  unordered_map_from_string,
}
use high_performance_server.Lexical.Laws.{Becomes}
use high_performance_server.Lexical.Sequences.{vector-Becomes}
use high_performance_server.Lexical.Sets.{IsOrder}
use high_performance_server.Lexical.Maps.{unordered_map-Becomes}
use high_performance_server.Tests.Documents.{
  toy, Same, toy_laws, numbers, numbers-IsFaithful, print, items,
}

abbrev three : List ℕ
three = 5 ∷ 7 ∷ 9 ∷ []

vector-Becomes_example :
    Becomes toy Same (vector_to_string toy numbers) (vector_from_string toy numbers) three three
    × Becomes toy Same (list_to_string toy numbers) (list_from_string toy numbers) three three
vector-Becomes_example = vector-Becomes toy Same toy_laws numbers numbers-IsFaithful three

ltb-IsOrder : IsOrder ltb
ltb-IsOrder = (λ a b e. ground arith, λ a b c e k. ground arith)

abbrev written : Text
written = print (items ((9 ∷ []) ∷ (7 ∷ []) ∷ (9 ∷ []) ∷ []))

abbrev same_number : ℕ → ℕ → Bool
same_number a b = a == b

abbrev ports : List (Text × ℕ)
ports = (codes "http", 80) ∷ (codes "ssh", 22) ∷ []

unordered_map-Becomes_example :
    (m : List (Text × ℕ)) × Becomes toy Same
      (unordered_map_to_string toy numbers)
      (unordered_map_from_string toy numbers)
      ports
      m
    × ((key : Text) → find key m ≡ find key ports)
unordered_map-Becomes_example =
    unordered_map-Becomes toy Same toy_laws numbers numbers-IsFaithful ports
