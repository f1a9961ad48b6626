-- ===== src/SeriesMerge/Gather.antt =====
-- `POINTS_merge_and_sort` takes every point and puts them in order.
use siridb_server.Base.{
  ℕ, zero, suc, ◌+◌, ◌≤◌, ◌<◌, ◌≡◌, ◌≢◌, refl, ap, subst, Bool, true, false, List, [], ◌∷◌, arith,
  All, ltb, ◌==◌, if◌then◌else◌, length, get_or, Bool-cases, inl, inr,
}
use siridb_server.Points.{Point, shrink}
use siridb_server.Points.Order.{Ascending, Descending, tally}
use siridb_server.Points.Insert.{simple_sort_lem}
use siridb_server.Points.Merge.{
  sum_of, Filled, Filled-cons, Filled-nonempty, shrink-sum_of, shrink-Filled, get_or-Filled,
}
use siridb_server.SeriesMerge.{
  Sign, minus_one, zero_sign, plus_one, gather, points_compare, merge_and_sort,
}

abbrev pub opposite : Sign → Sign
opposite minus_one = plus_one
opposite zero_sign = zero_sign
opposite plus_one = minus_one

module _ {V : Type 0} where
  gather-suc :
      (n i : ℕ) (plist : List (List (Point V))) (out down : List (Point V)) (p : Point V)
      → let at = if ltb i (length plist) then i else 0 in
        get_or plist at [] ≡ p ∷ down
        → gather n (at + 1) (shrink plist at down) (p ∷ out) ≡ gather (suc n) i plist out
  unfolding gather
  gather-suc n i plist out down p f = rw (f, gather) refl

  gather-tally :
      (q : Point V → Bool) (n i : ℕ) (plist : List (List (Point V))) (out : List (Point V))
      → All Filled plist
      → sum_of length plist ≡ n
      → tally q (gather n i plist out) ≡ sum_of (tally q) plist + tally q out
  unfolding gather
  gather-tally q zero i [] out f t = omega arith
  gather-tally q zero i (s ∷ rest) out f t = absurd (omega (arith, f.0.0))
  gather-tally q (suc n) i plist out f t =
      let at = if ltb i (length plist) then i else 0 in
      let some_left = Filled-nonempty n plist t in
      let inside : at < length plist = ground arith in
      let filled = get_or-Filled plist at inside f in
      let (p, down, c) = Filled-cons _ filled in
      let d : Descending (p ∷ down) = subst Descending c (filled.1) in
      let rest =
        gather-tally q n (at + 1) (shrink plist at down) (p ∷ out)
          (shrink-Filled plist at down f d.1)
          (omega (arith, shrink-sum_of length plist at down refl inside, ap length c)) in
      subst (λ l. tally q l ≡ sum_of (tally q) plist + tally q out)
        (gather-suc n i plist out down p c)
        (omega (arith, rest, shrink-sum_of (tally q) plist at down refl inside, ap (tally q) c))

  -- What `qsort` asks of a comparison: a total order.
  abbrev pub IsOrder : (Point V → Point V → Sign) → Type 0
  IsOrder cmp =
      ((a b : Point V) → cmp a b ≡ opposite (cmp b a))
      × ((a b c : Point V) → cmp a b ≢ plus_one → cmp b c ≢ plus_one → cmp a c ≢ plus_one)

  -- No point is greater than the next, as the comparison says.
  abbrev pub SortedBy : (Point V → Point V → Sign) → List (Point V) → Type 0
  SortedBy cmp [] = Unit
  SortedBy cmp (p ∷ []) = Unit
  SortedBy cmp (p ∷ r ∷ rest) = (cmp p r ≢ plus_one) × SortedBy cmp (r ∷ rest)

  compare_above : (a b : Point V) → b.ts < a.ts → points_compare a b ≡ plus_one
  compare_above a b h =
      let not_below : ltb a.ts b.ts ≡ false = ground arith in
      let above : ltb b.ts a.ts ≡ true = ground arith in rw (not_below, above) refl

  compare_le : (a b : Point V) → points_compare a b ≢ plus_one → a.ts ≤ b.ts
  compare_le a b h = elim (Bool-cases (ltb b.ts a.ts)) [
    | inl above ↦ absurd (h (compare_above a b (ground arith)))
    | inr e ↦ ground arith
  ]

  le_compare : (a b : Point V) → a.ts ≤ b.ts → points_compare a b ≢ plus_one
  le_compare a b h e =
      let not_above : ltb b.ts a.ts ≡ false = ground arith in
      elim (Bool-cases (ltb a.ts b.ts)) [
        | inl below ↦ absurd (ground (arith, rw (below) at e))
        | inr other ↦ absurd (ground (arith, rw (other, not_above) at e))
      ]

  points_compare-opposite : (a b : Point V) → points_compare a b ≡ opposite (points_compare b a)
  points_compare-opposite a b = elim (Bool-cases (ltb a.ts b.ts)) [
    | inl below ↦ let e : ltb b.ts a.ts ≡ false = ground arith in rw (below, e) refl
    | inr other ↦ elim (Bool-cases (ltb b.ts a.ts)) [
      | inl above ↦ rw (other, above) refl
      | inr same ↦ rw (other, same) refl
    ]
  ]

  points_compare-IsOrder : IsOrder points_compare
  points_compare-IsOrder = (
    points_compare-opposite,
    λ a b c h k. le_compare a c (omega (arith, compare_le a b h, compare_le b c k)),
  )

  SortedBy-Ascending : (points : List (Point V)) → SortedBy points_compare points → Ascending points
  SortedBy-Ascending [] h = tt
  SortedBy-Ascending (p ∷ []) h = (tt, tt)
  SortedBy-Ascending (p ∷ r ∷ rest) h = (compare_le p r h.0, SortedBy-Ascending (r ∷ rest) h.1)

  -- Where `qsort`, given a comparison that is a total order, sorts by it and keeps how many points pass any
  -- test: series that all have points, each in order, are merged into points in the order of their
  -- time-stamps, and as many pass any test as in the series together.
  pub merge_and_sort_lem :
      (qsort : (Point V → Point V → Sign) → List (Point V) → List (Point V))
      (plist : List (List (Point V)))
      → ((cmp : Point V → Point V → Sign) (points : List (Point V))
          → IsOrder cmp
          → SortedBy cmp (qsort cmp points))
      → ((cmp : Point V → Point V → Sign) (points : List (Point V)) (q : Point V → Bool)
          → IsOrder cmp
          → tally q (qsort cmp points) ≡ tally q points)
      → All Filled plist
      → let merged = merge_and_sort qsort (sum_of length plist) plist in
        Ascending merged × ((q : Point V → Bool) → tally q merged ≡ sum_of (tally q) plist)
  unfolding merge_and_sort
  merge_and_sort_lem qsort plist sorts keeps f =
      let n = sum_of length plist in
      let points = gather n 0 plist [] in
      let order = points_compare-IsOrder in
      elim (Bool-cases (n == length plist)) [
        | inl e ↦
            let (up, all) = simple_sort_lem points in
            rw (e, merge_and_sort)
              (up, λ q. omega (arith, all q, gather-tally q n 0 plist [] f refl))
        | inr e ↦
            rw (e, merge_and_sort)
              (
                SortedBy-Ascending (qsort points_compare points)
                    (sorts points_compare points order),
                λ q. omega (
                  arith,
                  keeps points_compare points q order,
                  gather-tally q n 0 plist [] f refl,
                ),
              )
      ]
