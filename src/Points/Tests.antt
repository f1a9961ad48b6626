-- ===== src/Points/Tests.antt =====
-- Concrete points, and the theorems at concrete inputs.
use siridb_server.Base.{ℕ, ◌≡◌, refl, Bool, List, [], ◌∷◌, ◌++◌, arith}
use siridb_server.Points.{Point, add_point, sink, sort_while_merge, simple_sort}
use siridb_server.Points.Order.{Ascending, tally}
use siridb_server.Points.Insert.{add_point_lem, simple_sort_lem}
use siridb_server.Points.Merge.{sum_of, sort_while_merge_lem}

abbrev at : ℕ → ℕ → Point ℕ
at t v = record { ts = t; val = v }

abbrev early : List (Point ℕ)
early = at 10 1 ∷ at 20 2 ∷ []

abbrev late : List (Point ℕ)
late = at 30 3 ∷ []

add_in_the_middle : add_point (early ++ late) (at 20 9) ≡ at 10 1 ∷ at 20 2 ∷ at 20 9 ∷ at 30 3 ∷ []
unfolding add_point sink
add_in_the_middle = refl

add_point_lem_example : add_point (early ++ late) (at 20 9) ≡ early ++ (at 20 9 ∷ late)
add_point_lem_example = add_point_lem early late (at 20 9) (omega arith) (omega arith)

simple_sort_lem_example :
    Ascending (simple_sort (at 30 3 ∷ at 10 1 ∷ at 20 2 ∷ []))
    × ((q : Point ℕ → Bool)
        → tally q (simple_sort (at 30 3 ∷ at 10 1 ∷ at 20 2 ∷ []))
          ≡ tally q (at 30 3 ∷ at 10 1 ∷ at 20 2 ∷ []))
simple_sort_lem_example = simple_sort_lem (at 30 3 ∷ at 10 1 ∷ at 20 2 ∷ [])

-- Three series, each listed from its last point.
abbrev three_series : List (List (Point ℕ))
three_series = (at 40 4 ∷ at 10 1 ∷ []) ∷ (at 30 3 ∷ []) ∷ (at 50 5 ∷ at 20 2 ∷ []) ∷ []

sort_while_merge_lem_example :
    Ascending (sort_while_merge 5 three_series [])
    × ((q : Point ℕ → Bool)
        → tally q (sort_while_merge 5 three_series []) ≡ sum_of (tally q) three_series)
sort_while_merge_lem_example = sort_while_merge_lem three_series (omega arith)
