-- ===== src/Points/Insert.antt =====
-- Points are added in their place, and the insertion sort sorts.
use mathlib.Core.List.{reverse, reverse-append, reverse-reverse, reverse-cons, append_assoc}
use siridb_server.Base.{
  ℕ, ◌+◌, ◌≤◌, ◌<◌, ◌≡◌, refl, Bool, false, List, [], ◌∷◌, ◌++◌, arith, All, ltb, length, inl, inr,
  Bool-cases,
}
use siridb_server.Points.{Point, sink, add_point, sort_step, sort_loop, simple_sort}
use siridb_server.Points.Order.{
  Ascending, Below, Descending, bit, tally, reverse-Ascending, reverse-tally, reverse-All,
}

module _ {V : Type 0} where
  sink-append :
      (p : Point V) (ys xs : List (Point V))
      → All (λ y. p.ts < y.ts) ys
      → All (λ x. x.ts ≤ p.ts) xs
      → sink p (ys ++ xs) ≡ ys ++ (p ∷ xs)
  unfolding sink
  sink-append p [] [] a b = refl
  sink-append p [] (x ∷ xs) a b = ground arith
  sink-append p (y ∷ ys) xs a b = ground (arith, sink-append p ys xs a.1 b)

  -- A point goes behind every point that is not later, and before every later one.
  pub add_point_lem :
      (before after : List (Point V)) (p : Point V)
      → All (λ x. x.ts ≤ p.ts) before
      → All (λ y. p.ts < y.ts) after
      → add_point (before ++ after) p ≡ before ++ (p ∷ after)
  unfolding add_point
  add_point_lem before after p b a =
      rw
        (
          reverse-append before after,
          sink-append p (reverse after) (reverse before) (reverse-All _ after a)
              (reverse-All _ before b),
          reverse-append (reverse after) (p ∷ reverse before),
          reverse-reverse after,
          reverse-cons p (reverse before),
          reverse-reverse before,
          append_assoc before (p ∷ []) after,
        )
        refl

  sink-Below :
      (t : ℕ) (p : Point V) (down : List (Point V))
      → Below t down
      → p.ts ≤ t
      → Below t (sink p down)
  unfolding sink
  sink-Below t p [] b h = h
  sink-Below t p (x ∷ down) b h = ground arith

  sink-Descending :
      (p : Point V) (down : List (Point V)) → Descending down → Descending (sink p down)
  unfolding sink
  sink-Descending p [] d = (tt, tt)
  sink-Descending p (x ∷ down) d = elim (Bool-cases (ltb p.ts x.ts)) [
    | inl e ↦ rw e (sink-Below x.ts p down d.0 (ground arith), sink-Descending p down d.1)
    | inr e ↦ rw e (ground arith, d)
  ]

  sink-tally :
      (q : Point V → Bool) (p : Point V) (down : List (Point V))
      → tally q (sink p down) ≡ bit (q p) + tally q down
  unfolding sink
  sink-tally q p [] = refl
  sink-tally q p (x ∷ down) = ground (arith, sink-tally q p down)

  sort_step-Descending :
      (p : Point V) (down : List (Point V)) → Descending down → Descending (sort_step p down)
  unfolding sort_step
  sort_step-Descending p [] d = (tt, tt)
  sort_step-Descending p (x ∷ down) d = elim (Bool-cases (ltb p.ts x.ts)) [
    | inl e ↦ rw e (sink-Below x.ts p down d.0 (ground arith), sink-Descending p down d.1)
    | inr e ↦ rw e (ground arith, d)
  ]

  sort_step-tally :
      (q : Point V → Bool) (p : Point V) (down : List (Point V))
      → tally q (sort_step p down) ≡ bit (q p) + tally q down
  unfolding sort_step
  sort_step-tally q p [] = refl
  sort_step-tally q p (x ∷ down) = ground (arith, sink-tally q p down)

  sort_loop-Descending :
      (down rest : List (Point V)) → Descending down → Descending (sort_loop down rest)
  unfolding sort_loop
  sort_loop-Descending down [] d = d
  sort_loop-Descending down (p ∷ rest) d =
      sort_loop-Descending (sort_step p down) rest (sort_step-Descending p down d)

  sort_loop-tally :
      (q : Point V → Bool) (down rest : List (Point V))
      → tally q (sort_loop down rest) ≡ tally q down + tally q rest
  unfolding sort_loop
  sort_loop-tally q down [] = omega arith
  sort_loop-tally q down (p ∷ rest) =
      omega (arith, sort_loop-tally q (sort_step p down) rest, sort_step-tally q p down)

  many : (p r : Point V) (rest : List (Point V)) → ltb (length (p ∷ r ∷ rest)) 2 ≡ false
  many p r rest = ground arith

  -- The insertion sort puts the points in the order of their time-stamps, and whatever the test,
  -- as many points pass it as before: none is lost, doubled or changed.
  pub simple_sort_lem :
      (points : List (Point V))
      → Ascending (simple_sort points)
        × ((q : Point V → Bool) → tally q (simple_sort points) ≡ tally q points)
  unfolding simple_sort
  simple_sort_lem [] = (tt, λ q. refl)
  simple_sort_lem (p ∷ []) = ((tt, tt), λ q. refl)
  simple_sort_lem (p ∷ r ∷ rest) = rw (many p r rest) (
    reverse-Ascending (sort_loop [] (p ∷ r ∷ rest)) (sort_loop-Descending [] (p ∷ r ∷ rest) tt),
    λ q.
        omega (
          arith,
          reverse-tally q (sort_loop [] (p ∷ r ∷ rest)),
          sort_loop-tally q [] (p ∷ r ∷ rest),
        ),
  )
