-- ===== src/Points/Merge/Remove.antt =====
-- What writes into `plist`, and the removal of a series, do to its entries and to sums over them.
use siridb_server.Base.{
  ℕ, zero, suc, ◌+◌, ◌-◌, ◌≤◌, ◌<◌, ◌≡◌, List, [], ◌∷◌, arith, All, sym, ap, length, get_or, set,
  take,
}
use siridb_server.Points.{Point, last_or, swap_remove}

module _ {V : Type 0} where
  -- A count over all series, such as that of their points, or of those that pass a test.
  abbrev pub sum_of : (List (Point V) → ℕ) → List (List (Point V)) → ℕ
  sum_of f [] = 0
  sum_of f (s ∷ rest) = f s + sum_of f rest

  pub set-sum_of :
      (f : List (Point V) → ℕ) (plist : List (List (Point V))) (m : ℕ) (s : List (Point V))
      → m < length plist
      → sum_of f (set plist m s) + f (get_or plist m []) ≡ sum_of f plist + f s
  set-sum_of f [] m s h = absurd (omega arith)
  set-sum_of f (r ∷ rest) zero s h = omega arith
  set-sum_of f (r ∷ rest) (suc m) s h = omega (arith, set-sum_of f rest m s (omega arith))

  pub get_or-sum_of :
      (f : List (Point V) → ℕ) (plist : List (List (Point V))) (m : ℕ)
      → m < length plist
      → f (get_or plist m []) ≤ sum_of f plist
  get_or-sum_of f [] m h = absurd (omega arith)
  get_or-sum_of f (r ∷ rest) zero h = omega arith
  get_or-sum_of f (r ∷ rest) (suc m) h = omega (arith, get_or-sum_of f rest m (omega arith))

  pub set-All :
      (P : List (Point V) → Type 0) (plist : List (List (Point V))) (m : ℕ) (s : List (Point V))
      → All P plist
      → P s
      → All P (set plist m s)
  set-All P [] m s a h = a
  set-All P (r ∷ rest) zero s a h = (h, a.1)
  set-All P (r ∷ rest) (suc m) s a h = (a.0, set-All P rest m s a.1 h)

  pub get_or-All :
      (P : List (Point V) → Type 0) (plist : List (List (Point V))) (m : ℕ)
      → m < length plist
      → All P plist
      → P (get_or plist m [])
  get_or-All P [] m h a = absurd (omega arith)
  get_or-All P (r ∷ rest) zero h a = a.0
  get_or-All P (r ∷ rest) (suc m) h a = get_or-All P rest m (omega arith) a.1

  last_or-All :
      (P : List (Point V) → Type 0) (d : List (Point V)) (plist : List (List (Point V)))
      → P d
      → All P plist
      → P (last_or d plist)
  last_or-All P d [] h a = h
  last_or-All P d (r ∷ rest) h a = last_or-All P r rest a.0 a.1

  take-All :
      (P : List (Point V) → Type 0) (n : ℕ) (plist : List (List (Point V)))
      → All P plist
      → All P (take n plist)
  take-All P zero plist a = tt
  take-All P (suc n) [] a = tt
  take-All P (suc n) (s ∷ rest) a = (a.0, take-All P n rest a.1)

  take-sum_of :
      (f : List (Point V) → ℕ) (s : List (Point V)) (rest : List (List (Point V)))
      → sum_of f (take (length rest) (s ∷ rest)) + f (last_or s rest) ≡ sum_of f (s ∷ rest)
  take-sum_of f s [] = omega arith
  take-sum_of f s (r ∷ rest) = omega (arith, take-sum_of f r rest)

  removed-sum_of :
      (f : List (Point V) → ℕ) (s : List (Point V)) (rest : List (List (Point V))) (m : ℕ)
      → m < length (s ∷ rest)
      → sum_of f (take (length rest) (set (s ∷ rest) m (last_or s rest)))
          + f (get_or (s ∷ rest) m [])
        ≡ sum_of f (s ∷ rest)
  removed-sum_of f s [] zero h = omega arith
  removed-sum_of f s [] (suc m) h = absurd (omega arith)
  removed-sum_of f s (r ∷ rest) zero h = omega (arith, take-sum_of f r rest)
  removed-sum_of f s (r ∷ rest) (suc m) h = omega (arith, removed-sum_of f r rest m (omega arith))

  swap_remove-cons :
      (s : List (Point V)) (rest : List (List (Point V))) (m : ℕ)
      → take (length rest) (set (s ∷ rest) m (last_or s rest)) ≡ swap_remove (s ∷ rest) m
  unfolding swap_remove
  swap_remove-cons s rest m = ap (λ n. take n (set (s ∷ rest) m (last_or s rest))) (omega arith)

  -- The series at `m` is replaced by the last one and counts no longer.
  pub swap_remove-sum_of :
      (f : List (Point V) → ℕ) (plist : List (List (Point V))) (m : ℕ)
      → m < length plist
      → sum_of f (swap_remove plist m) + f (get_or plist m []) ≡ sum_of f plist
  swap_remove-sum_of f [] m h = absurd (omega arith)
  swap_remove-sum_of f (s ∷ rest) m h =
      rw (sym (swap_remove-cons s rest m)) (removed-sum_of f s rest m h)

  pub swap_remove-All :
      (P : List (Point V) → Type 0) (plist : List (List (Point V))) (m : ℕ)
      → All P plist
      → All P (swap_remove plist m)
  unfolding swap_remove
  swap_remove-All P [] m a = take-All P (length {A = List (Point V)} [] - 1) [] tt
  swap_remove-All P (s ∷ rest) m a =
      take-All P _ _ (set-All P (s ∷ rest) m _ a (last_or-All P s rest a.0 a.1))
