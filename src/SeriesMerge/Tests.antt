-- ===== src/SeriesMerge/Tests.antt =====
-- Concrete series, and the theorem at concrete inputs.
use siridb_server.Base.{ℕ, ◌+◌, ◌≡◌, ◌≢◌, refl, ap, sym, ◌∙◌, Bool, true, List, [], ◌∷◌, arith}
use siridb_server.Points.{Point, shrink, swap_remove}
use siridb_server.Points.Order.{Ascending, bit, tally}
use siridb_server.Points.Merge.{sum_of}
use siridb_server.SeriesMerge.{
  Sign, minus_one, zero_sign, plus_one, merge_and_sort, highest_and_merge, highest_loop, choose,
  find_highest, scan_highest, points_merge, scan_series, Series, Via, int64, str, mixed_types,
  merged, tp_int, tp_string,
}
use siridb_server.SeriesMerge.Gather.{opposite, IsOrder, SortedBy, merge_and_sort_lem}

abbrev at : ℕ → ℕ → Point ℕ
at t v = record { ts = t; val = v }

-- Three series, each listed from its last point.
abbrev series : List (List (Point ℕ))
series = (at 40 4 ∷ at 10 1 ∷ []) ∷ (at 30 3 ∷ []) ∷ (at 50 5 ∷ at 20 2 ∷ []) ∷ []

highest_in_order : highest_and_merge 5 series ≡ at 10 1 ∷ at 20 2 ∷ at 30 3 ∷ at 40 4 ∷ at 50 5 ∷ []
unfolding highest_and_merge highest_loop choose find_highest scan_highest shrink swap_remove
highest_in_order = refl

-- A point with time-stamp 0 is taken before its turn.
highest_out_of_order :
    highest_and_merge 3 ((at 9 1 ∷ at 8 2 ∷ []) ∷ (at 0 3 ∷ []) ∷ [])
    ≡ at 8 2 ∷ at 0 3 ∷ at 9 1 ∷ []
unfolding highest_and_merge highest_loop choose find_highest scan_highest shrink swap_remove
highest_out_of_order = refl

-- A `qsort`: insertion by the comparison.
module _ {V : Type 0} where
  abbrev placed : Sign → Point V → Point V → List (Point V) → List (Point V) → List (Point V)
  placed plus_one p x xs rest = x ∷ rest
  placed zero_sign p x xs rest = p ∷ x ∷ xs
  placed minus_one p x xs rest = p ∷ x ∷ xs

  abbrev place_by : (Point V → Point V → Sign) → Point V → List (Point V) → List (Point V)
  place_by cmp p [] = p ∷ []
  place_by cmp p (x ∷ xs) = placed (cmp p x) p x xs (place_by cmp p xs)

  abbrev sort_by : (Point V → Point V → Sign) → List (Point V) → List (Point V)
  sort_by cmp [] = []
  sort_by cmp (p ∷ points) = place_by cmp p (sort_by cmp points)

  module _ (cmp : Point V → Point V → Sign) (order : IsOrder cmp) where
    turned : (p x : Point V) → cmp p x ≡ plus_one → cmp x p ≢ plus_one
    turned p x e k = absurd (differ (sym k ∙ order.0 x p ∙ ap opposite e))
      where
        differ : plus_one ≢ minus_one
        differ k = absurd (ground arith)

    ahead : (p x : Point V) (s : Sign) → s ≢ plus_one → cmp p x ≡ s → cmp p x ≢ plus_one
    ahead p x s h e k = h (sym e ∙ k)

    place_behind :
        (x p : Point V) (xs : List (Point V))
        → cmp x p ≢ plus_one
        → SortedBy cmp (x ∷ xs)
        → SortedBy cmp (x ∷ place_by cmp p xs)
    place_behind x p [] h s = (h, tt)
    place_behind x p (y ∷ ys) h s = go (cmp p y) refl (λ k. place_behind y p ys k s.1)
      where
        go :
            (c : Sign)
            → cmp p y ≡ c
            → (cmp y p ≢ plus_one → SortedBy cmp (y ∷ place_by cmp p ys))
            → SortedBy cmp (x ∷ placed c p y ys (place_by cmp p ys))
        go plus_one e rest = (s.0, rest (turned p y e))
        go zero_sign e rest = (h, (ahead p y zero_sign (λ k. absurd (ground arith)) e, s.1))
        go minus_one e rest = (h, (ahead p y minus_one (λ k. absurd (ground arith)) e, s.1))

    place_by-SortedBy :
        (p : Point V) (xs : List (Point V)) → SortedBy cmp xs → SortedBy cmp (place_by cmp p xs)
    place_by-SortedBy p [] s = tt
    place_by-SortedBy p (x ∷ xs) s = go (cmp p x) refl
      where
        go : (c : Sign) → cmp p x ≡ c → SortedBy cmp (placed c p x xs (place_by cmp p xs))
        go plus_one e = place_behind x p xs (turned p x e) s
        go zero_sign e = (ahead p x zero_sign (λ k. absurd (ground arith)) e, s)
        go minus_one e = (ahead p x minus_one (λ k. absurd (ground arith)) e, s)

    sort_by-SortedBy : (points : List (Point V)) → SortedBy cmp (sort_by cmp points)
    sort_by-SortedBy [] = tt
    sort_by-SortedBy (p ∷ points) =
        place_by-SortedBy p (sort_by cmp points) (sort_by-SortedBy points)

  place_by-tally :
      (cmp : Point V → Point V → Sign) (p : Point V) (xs : List (Point V)) (q : Point V → Bool)
      → tally q (place_by cmp p xs) ≡ bit (q p) + tally q xs
  place_by-tally cmp p [] q = refl
  place_by-tally cmp p (x ∷ xs) q = go (cmp p x) (place_by-tally cmp p xs q)
    where
      go :
          (c : Sign)
          → tally q (place_by cmp p xs) ≡ bit (q p) + tally q xs
          → tally q (placed c p x xs (place_by cmp p xs)) ≡ bit (q p) + tally q (x ∷ xs)
      go plus_one rest = omega (arith, rest)
      go zero_sign rest = refl
      go minus_one rest = refl

  sort_by-tally :
      (cmp : Point V → Point V → Sign) (points : List (Point V)) (q : Point V → Bool)
      → tally q (sort_by cmp points) ≡ tally q points
  sort_by-tally cmp [] q = refl
  sort_by-tally cmp (p ∷ points) q =
      omega (arith, place_by-tally cmp p (sort_by cmp points) q, sort_by-tally cmp points q)

merge_and_sort_lem_example :
    Ascending (merge_and_sort sort_by 5 series)
    × ((q : Point ℕ → Bool) → tally q (merge_and_sort sort_by 5 series) ≡ sum_of (tally q) series)
merge_and_sort_lem_example =
    merge_and_sort_lem sort_by series (λ cmp points order. sort_by-SortedBy cmp order points)
      (λ cmp points q order. sort_by-tally cmp points q) (omega arith)

abbrev numbers : Series (Via ℕ ℕ)
numbers = record { tp = tp_int; data_points = record { ts = 1; val = int64 5 } ∷ [] }

abbrev words : Series (Via ℕ ℕ)
words = record { tp = tp_string; data_points = record { ts = 2; val = str 6 } ∷ [] }

abbrev no_points : Series (Via ℕ ℕ)
no_points = record { tp = tp_string; data_points = [] }

merges :
    (points_merge (λ i. i) (λ cmp l. l) true (numbers ∷ words ∷ []) ≡ mixed_types)
    × (points_merge (λ i. i) (λ cmp l. l) true (no_points ∷ numbers ∷ no_points ∷ [])
        ≡ merged numbers)
unfolding points_merge scan_series
merges = (refl, refl)
