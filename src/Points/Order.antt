-- ===== src/Points/Order.antt =====
-- Points in order of their time-stamps, and how many of them satisfy a test.
use mathlib.Core.List.{reverse, reverse_aux}
use siridb_server.Base.{ℕ, ◌+◌, ◌≤◌, ◌≡◌, Bool, true, false, List, [], ◌∷◌, arith, All}
use siridb_server.Points.{Point}

abbrev pub bit : Bool → ℕ
bit true = 1
bit false = 0

module _ {V : Type 0} where
  -- The first time-stamp, if there is one, is at least `t`.
  abbrev pub Above : ℕ → List (Point V) → Type 0
  Above t [] = Unit
  Above t (p ∷ ps) = t ≤ p.ts

  -- The time-stamps do not fall.
  abbrev pub Ascending : List (Point V) → Type 0
  Ascending [] = Unit
  Ascending (p ∷ ps) = Above p.ts ps × Ascending ps

  -- The first time-stamp, if there is one, is at most `t`.
  abbrev pub Below : ℕ → List (Point V) → Type 0
  Below t [] = Unit
  Below t (p ∷ ps) = p.ts ≤ t

  -- The time-stamps do not rise.
  abbrev pub Descending : List (Point V) → Type 0
  Descending [] = Unit
  Descending (p ∷ ps) = Below p.ts ps × Descending ps

  -- How many points pass the test.
  abbrev pub tally : (Point V → Bool) → List (Point V) → ℕ
  tally q [] = 0
  tally q (p ∷ ps) = bit (q p) + tally q ps

  abbrev pub Joined : List (Point V) → List (Point V) → Type 0
  Joined [] acc = Unit
  Joined (p ∷ down) acc = Above p.ts acc

  Joined-Below : (p : Point V) (down acc : List (Point V)) → Below p.ts down → Joined down (p ∷ acc)
  Joined-Below p [] acc h = tt
  Joined-Below p (r ∷ down) acc h = h

  pub reverse_aux-Ascending :
      (down acc : List (Point V))
      → Descending down
      → Ascending acc
      → Joined down acc
      → Ascending (reverse_aux down acc)
  reverse_aux-Ascending [] acc d a j = a
  reverse_aux-Ascending (p ∷ down) acc d a j =
      reverse_aux-Ascending down (p ∷ acc) d.1 (j, a) (Joined-Below p down acc d.0)

  pub reverse-Ascending : (down : List (Point V)) → Descending down → Ascending (reverse down)
  reverse-Ascending [] d = reverse_aux-Ascending [] [] d tt tt
  reverse-Ascending (p ∷ down) d = reverse_aux-Ascending (p ∷ down) [] d tt tt

  reverse_aux-tally :
      (q : Point V → Bool) (down acc : List (Point V))
      → tally q (reverse_aux down acc) ≡ tally q down + tally q acc
  reverse_aux-tally q [] acc = omega arith
  reverse_aux-tally q (p ∷ down) acc = omega (arith, reverse_aux-tally q down (p ∷ acc))

  pub reverse-tally :
      (q : Point V → Bool) (down : List (Point V)) → tally q (reverse down) ≡ tally q down
  reverse-tally q down = omega (arith, reverse_aux-tally q down [])

  reverse_aux-All :
      (P : Point V → Type 0) (down acc : List (Point V))
      → All P down
      → All P acc
      → All P (reverse_aux down acc)
  reverse_aux-All P [] acc h k = k
  reverse_aux-All P (p ∷ down) acc h k = reverse_aux-All P down (p ∷ acc) h.1 (h.0, k)

  pub reverse-All :
      (P : Point V → Type 0) (down : List (Point V)) → All P down → All P (reverse down)
  reverse-All P down h = reverse_aux-All P down [] h tt
