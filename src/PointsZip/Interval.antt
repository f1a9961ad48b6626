-- ===== src/PointsZip/Interval.antt =====
-- The interval of a series whose points come in equal steps.
use siridb_server.Base.{
  ℕ, zero, suc, ◌+◌, ◌-◌, ◌*◌, ◌/◌, ◌^◌, ◌≤◌, ◌<◌, ◌≡◌, refl, ap, ◌∙◌, false, List, [], ◌∷◌, arith,
  if◌then◌else◌, length, get_or, replicate, ltb, length-replicate,
}
use siridb_server.Points.{Point}
use siridb_server.PointsZip.{insert_interval, intervals, at_place, steady_or_zero, get_interval}

-- Each point is `x` later than the one before it.
abbrev pub InSteps : ℕ → List (Point ℕ) → Type 0
InSteps x [] = Unit
InSteps x (p ∷ []) = p.ts < 2 ^ 64
InSteps x (p ∷ q ∷ rest) = (p.ts + x ≡ q.ts) × (p.ts < 2 ^ 64) × InSteps x (q ∷ rest)

InSteps-bound : (x : ℕ) (p : Point ℕ) (rest : List (Point ℕ)) → InSteps x (p ∷ rest) → p.ts < 2 ^ 64
InSteps-bound x p [] s = s
InSteps-bound x p (q ∷ rest) s = s.1

insert_interval-replicate : (x n : ℕ) → insert_interval x (replicate n x) ≡ replicate (suc n) x
unfolding insert_interval
insert_interval-replicate x zero = refl
insert_interval-replicate x (suc n) = ground arith

replicate-suc : (n k x : ℕ) → n ≡ suc k → replicate n x ≡ x ∷ replicate k x
replicate-suc n k x e = ap (λ m. replicate m x) e

intervals-steps :
    (x n k : ℕ) (points : List (Point ℕ))
    → InSteps x points
    → n < length points
    → intervals n points (replicate k x) ≡ replicate (n + k) x
unfolding intervals
intervals-steps x zero k points s h = ap (λ m. replicate m x) (omega arith)
intervals-steps x (suc n) k [] s h = absurd (omega arith)
intervals-steps x (suc n) k (p ∷ []) s h = absurd (omega arith)
intervals-steps x (suc n) k (p ∷ q ∷ rest) s h =
    ap (λ y. intervals n (q ∷ rest) (insert_interval y (replicate k x)))
      (omega (arith, s.0, InSteps-bound x q rest s.2))
    ∙ ap (intervals n (q ∷ rest)) (insert_interval-replicate x k)
    ∙ intervals-steps x n (suc k) (q ∷ rest) s.2 (omega arith)
    ∙ ap (λ m. replicate m x) (omega arith)

get_or-replicate : (n i x : ℕ) → i < n → get_or (replicate n x) i 0 ≡ x
get_or-replicate zero i x h = absurd (omega arith)
get_or-replicate (suc n) zero x h = refl
get_or-replicate (suc n) (suc i) x h = get_or-replicate n i x (omega arith)

at_place-replicate : (n i x : ℕ) → i < n → at_place (replicate n x) i ≡ x
at_place-replicate n i x h =
    get_or-replicate n (length (replicate n x) - 1 - i) x (omega (arith, length-replicate n x))

steady_or_zero-same : (x : ℕ) → x + x / 10 < 2 ^ 64 → steady_or_zero x x x ≡ x
steady_or_zero-same x h = ground arith

quartiles :
    (n x : ℕ)
    → 7 ≤ n
    → x + x / 10 < 2 ^ 64
    → steady_or_zero
        (at_place (replicate n x) (n / 4))
        (at_place (replicate n x) (n / 2))
        (at_place (replicate n x) (n / 2 * 2 - n / 4))
      ≡ x
quartiles n x h b =
    rw
      (
        at_place-replicate n (n / 4) x (omega arith),
        at_place-replicate n (n / 2) x (omega arith),
        at_place-replicate n (n / 2 * 2 - n / 4) x (omega arith),
      )
      (steady_or_zero-same x b)

-- A series of at least 8 points that come in equal steps of `x` has the interval `x`, when `x` and a
-- tenth of it together fit in 64 bits.
pub get_interval-InSteps :
    (x : ℕ) (points : List (Point ℕ))
    → InSteps x points
    → 8 ≤ length points
    → x + x / 10 < 2 ^ 64
    → get_interval points ≡ x
unfolding get_interval
get_interval-InSteps x points s h b =
    let n = if ltb 63 (length points - 1) then 63 else length points - 1 in
    let few : ltb (length points) 8 ≡ false = ground arith in
    let same : intervals n points [] ≡ replicate n x =
      intervals-steps x n 0 points s (ground arith) ∙ ap (λ m. replicate m x) (omega arith) in
    rw few (
      ap
        (λ arr.
          steady_or_zero (at_place arr (n / 4)) (at_place arr (n / 2))
            (at_place arr (n / 2 * 2 - n / 4)))
        same
      ∙ quartiles n x (ground arith) b)
