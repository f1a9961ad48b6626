-- ===== src/Points.antt =====
-- src/siri/db/points.c: the points of a series, and the merge of several series.
-- `data` is the list of the first `len` points. Most functions walk it from the end, so they are
-- given on the points last first (`down`). A point's value is only moved, so its type is a
-- parameter. The calls of `usleep` have no effect here.
pub mod Order
pub mod Insert
pub mod Merge
mod Tests
use mathlib.Core.List.{reverse}
use siridb_server.Base.{
  ℕ, zero, suc, ◌+◌, ◌-◌, ◌%◌, Bool, true, false, Option, none, some, List, [], ◌∷◌, ◌++◌, ltb, leb,
  ◌==◌, if◌then◌else◌, length, get_or, set, take, drop,
}

-- `siridb_point_t`
pub record Point (V : Type 0) : Type 0 where
  pub ts : ℕ
  pub val : V

module _ {V : Type 0} where
  -- The loop of `siridb_points_add_point`, over the points last first: shift what is later.
  unfoldable pub sink : Point V → List (Point V) → List (Point V)
  sink p [] = p ∷ []
  sink p (prev ∷ down) =
      let rest = sink p down in if ltb p.ts prev.ts then prev ∷ rest else p ∷ prev ∷ down

  -- `siridb_points_add_point`
  unfoldable pub add_point : List (Point V) → Point V → List (Point V)
  add_point points p = reverse (sink p (reverse points))

  -- `siridb_points_tail`: the last `n` points (the strings that it frees are not modelled).
  unfoldable pub points_tail : List (Point V) → ℕ → List (Point V)
  points_tail points n = if ltb n (length points) then drop (length points - n) points else points

  -- `siridb_points_head`: the first `n` points (likewise).
  unfoldable pub points_head : List (Point V) → ℕ → List (Point V)
  points_head points n = if ltb n (length points) then take n points else points

  -- One round of `POINTS_simple_sort`: `pb` against the sorted points before it, last first.
  unfoldable pub sort_step : Point V → List (Point V) → List (Point V)
  sort_step pb [] = pb ∷ []
  sort_step pb (pa ∷ down) = if ltb pb.ts pa.ts then pa ∷ sink pb down else pb ∷ pa ∷ down

  sort_loop : List (Point V) → List (Point V) → List (Point V)
  sort_loop down [] = down
  sort_loop down (p ∷ rest) = sort_loop (sort_step p down) rest

  -- `POINTS_simple_sort`
  unfoldable pub simple_sort : List (Point V) → List (Point V)
  unfolding sort_loop
  simple_sort points = if ltb (length points) 2 then points else reverse (sort_loop [] points)

  -- A series that is being merged is the list of its points last first: its head is `data[len]`.
  -- The time-stamp of `data[len]`.
  abbrev pub last_ts : List (Point V) → ℕ
  last_ts [] = 0
  last_ts (p ∷ down) = p.ts

  -- `for (i = 1, tpts = m + 1; i < plist->len; i++, tpts++) if (tpts … > m …) m = tpts`: the index
  -- of `m`, from place `i` on with `m` at `best`.
  unfoldable pub highest_from : ℕ → ℕ → ℕ → List (List (Point V)) → ℕ
  highest_from best ts i [] = best
  highest_from best ts i (s ∷ rest) =
      if ltb ts (last_ts s)
      then highest_from i (last_ts s) (i + 1) rest
      else highest_from best ts (i + 1) rest

  unfoldable pub highest : List (List (Point V)) → ℕ
  highest [] = 0
  highest (s ∷ rest) = highest_from 0 (last_ts s) 1 rest

  -- The last entry of `plist->data`.
  abbrev pub last_or : List (Point V) → List (List (Point V)) → List (Point V)
  last_or d [] = d
  last_or d (s ∷ rest) = last_or s rest

  -- `if (--plist->len) *m = plist->data[plist->len]`
  unfoldable pub swap_remove : List (List (Point V)) → ℕ → List (List (Point V))
  swap_remove plist m = take (length plist - 1) (set plist m (last_or [] plist))

  -- The list of series after the last point of the one at `m` was taken.
  unfoldable pub shrink : List (List (Point V)) → ℕ → List (Point V) → List (List (Point V))
  shrink plist m [] = swap_remove plist m
  shrink plist m (p ∷ down) = set plist m (p ∷ down)

  -- `POINTS_sort_while_merge` with `n` points to go: what is in `points->data` from `n` on.
  unfoldable pub sort_while_merge : ℕ → List (List (Point V)) → List (Point V) → List (Point V)
  sort_while_merge zero plist out = out
  sort_while_merge (suc n) plist out = elim (get_or plist (highest plist) []) [
    | [] ↦ out
    | p ∷ down ↦ sort_while_merge n (shrink plist (highest plist) down) (p ∷ out)
  ]
