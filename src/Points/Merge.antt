-- ===== src/Points/Merge.antt =====
-- `POINTS_sort_while_merge` merges ordered series into one, and takes every point.
mod Highest
mod Remove
use siridb_server.Base.{
  ℕ, zero, suc, ◌+◌, ◌-◌, ◌≤◌, ◌<◌, ◌≡◌, refl, Bool, true, false, List, [], ◌∷◌, arith, All, ◌∙◌,
  sym, ap, subst, ltb, if◌then◌else◌, length, inl, inr, Bool-cases, get_or, set, take,
}
use siridb_server.Points.{
  Point, last_ts, highest_from, highest, last_or, swap_remove, shrink, sort_while_merge,
}
use siridb_server.Points.Order.{Above, Ascending, Below, Descending, bit, tally}
use Highest.{AtMost, highest_lem}
use Remove.{set-sum_of, get_or-sum_of, set-All, get_or-All, swap_remove-sum_of, swap_remove-All}
pub use Remove.{sum_of}

module _ {V : Type 0} where
  -- A series that still has points, in order (the last point is first here).
  abbrev pub Filled : List (Point V) → Type 0
  Filled s = (0 < length s) × Descending s

  pub shrink-sum_of :
      (f : List (Point V) → ℕ) (plist : List (List (Point V))) (m : ℕ) (down : List (Point V))
      → f [] ≡ 0
      → m < length plist
      → sum_of f (shrink plist m down) + f (get_or plist m []) ≡ sum_of f plist + f down
  unfolding shrink
  shrink-sum_of f plist m [] z h = omega (arith, swap_remove-sum_of f plist m h, z)
  shrink-sum_of f plist m (p ∷ down) z h = set-sum_of f plist m (p ∷ down) h

  pub shrink-Filled :
      (plist : List (List (Point V))) (m : ℕ) (down : List (Point V))
      → All Filled plist
      → Descending down
      → All Filled (shrink plist m down)
  unfolding shrink
  shrink-Filled plist m [] a d = swap_remove-All Filled plist m a
  shrink-Filled plist m (p ∷ down) a d = set-All Filled plist m (p ∷ down) a (omega arith, d)

  shrink-AtMost :
      (t : ℕ) (plist : List (List (Point V))) (m : ℕ) (down : List (Point V))
      → AtMost t plist
      → Below t down
      → AtMost t (shrink plist m down)
  unfolding shrink
  shrink-AtMost t plist m [] a b = swap_remove-All (λ s. last_ts s ≤ t) plist m a
  shrink-AtMost t plist m (p ∷ down) a b = set-All (λ s. last_ts s ≤ t) plist m (p ∷ down) a b

  -- Every series that is left ends before the merged points begin.
  abbrev Ends : List (List (Point V)) → List (Point V) → Type 0
  Ends plist [] = Unit
  Ends plist (p ∷ out) = AtMost p.ts plist

  Ends-Above :
      (plist : List (List (Point V))) (m : ℕ) (out : List (Point V))
      → m < length plist
      → Ends plist out
      → Above (last_ts (get_or plist m [])) out
  Ends-Above plist m [] h e = tt
  Ends-Above plist m (p ∷ out) h e = get_or-All (λ s. last_ts s ≤ p.ts) plist m h e

  pub Filled-cons :
      (s : List (Point V)) → Filled s → (p : Point V) × (down : List (Point V)) × (s ≡ p ∷ down)
  Filled-cons [] f = absurd (omega (arith, f.0))
  Filled-cons (p ∷ down) f = (p, down, refl)

  pub get_or-Filled :
      (plist : List (List (Point V))) (m : ℕ)
      → m < length plist
      → All Filled plist
      → Filled (get_or plist m [])
  get_or-Filled plist m h f = get_or-All Filled plist m h f

  sort_while_merge-suc :
      (n : ℕ) (plist : List (List (Point V))) (out down : List (Point V)) (p : Point V)
      → get_or plist (highest plist) [] ≡ p ∷ down
      → sort_while_merge n (shrink plist (highest plist) down) (p ∷ out)
        ≡ sort_while_merge (suc n) plist out
  unfolding sort_while_merge
  sort_while_merge-suc n plist out down p e = rw (e, sort_while_merge) refl

  pub Filled-nonempty :
      (n : ℕ) (plist : List (List (Point V))) → sum_of length plist ≡ suc n → 0 < length plist
  Filled-nonempty n [] e = absurd (omega arith)
  Filled-nonempty n (s ∷ rest) e = omega arith

  -- The output in order, and complete.
  abbrev pub IsMerge : List (List (Point V)) → List (Point V) → List (Point V) → Type 0
  IsMerge plist out merged =
      Ascending merged
      × ((q : Point V → Bool) → tally q merged ≡ sum_of (tally q) plist + tally q out)

  sort_while_merge-IsMerge :
      (n : ℕ) (plist : List (List (Point V))) (out : List (Point V))
      → All Filled plist
      → sum_of length plist ≡ n
      → Ends plist out
      → Ascending out
      → IsMerge plist out (sort_while_merge n plist out)
  unfolding sort_while_merge
  sort_while_merge-IsMerge zero [] out f t e a = (a, λ q. omega arith)
  sort_while_merge-IsMerge zero (s ∷ rest) out f t e a = absurd (omega (arith, f.0.0))
  sort_while_merge-IsMerge (suc n) plist out f t e a =
      let (h, k, m) = highest_lem plist (Filled-nonempty n plist t) in
      let (p, down, c) = Filled-cons _ (get_or-All Filled plist (highest plist) h f) in
      let d : Descending (p ∷ down) =
        subst Descending c ((get_or-All Filled plist (highest plist) h f).1) in
      let (up, all) =
        sort_while_merge-IsMerge n (shrink plist (highest plist) down) (p ∷ out)
          (shrink-Filled plist (highest plist) down f d.1)
          (omega (arith, shrink-sum_of length plist (highest plist) down refl h, ap length c))
          (shrink-AtMost p.ts plist (highest plist) down (subst (λ s. AtMost (last_ts s) plist) c m)
            d.0)
          (subst (λ s. Above (last_ts s) out) c (Ends-Above plist (highest plist) out h e), a) in
      subst (IsMerge plist out) (sort_while_merge-suc n plist out down p c) (
        up,
        λ q. omega (
          arith,
          all q,
          shrink-sum_of (tally q) plist (highest plist) down refl h,
          ap (tally q) c,
        ),
      )

  -- Series that all have points, each in the order of its time-stamps (listed from the last point
  -- here), and a buffer for as many points as they have together: the merge fills the buffer with
  -- points in the order of their time-stamps, and as many pass any test as in the series together.
  pub sort_while_merge_lem :
      (plist : List (List (Point V)))
      → All Filled plist
      → let merged = sort_while_merge (sum_of length plist) plist [] in
        Ascending merged × ((q : Point V → Bool) → tally q merged ≡ sum_of (tally q) plist)
  sort_while_merge_lem plist f =
      let (up, all) = sort_while_merge-IsMerge (sum_of length plist) plist [] f refl tt tt in
      (up, λ q. omega (arith, all q))
