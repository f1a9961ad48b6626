-- ===== src/SeriesMerge.antt =====
-- src/siri/db/points.c: `siridb_points_merge` with the three merges that it chooses from.
-- `sort_while_merge` is in Points. A series is merged from its last point, so that the list of its
-- points is reversed for that. `qsort` of the C library and the cast of an integer to a double are
-- parameters; `mem` says whether the output is allocated.
pub mod Gather
mod Tests
use mathlib.Core.List.{reverse}
use siridb_server.Base.{
  ℕ, zero, suc, ◌+◌, ◌-◌, ◌%◌, Bool, true, false, ◌&&◌, ◌||◌, not, Option, none, some, List, [],
  ◌∷◌, ◌++◌, ltb, ◌==◌, if◌then◌else◌, length, get_or, take, map,
}
use siridb_server.Points.{Point, simple_sort, last_ts, last_or, shrink, sort_while_merge}

-- `POINTS_MAX_QSORT`
abbrev pub points_max_qsort : ℕ
points_max_qsort = 250000

-- What a comparison returns: -1, 0 or 1.
pub data Sign : Type 0 where
  minus_one zero_sign plus_one : Sign

module _ {V : Type 0} where
  -- The loops of `POINTS_merge_and_sort` with `n` points to go: the last points of the series in turn,
  -- from the series at `i` on. A series that is exhausted is replaced by the last one, which has
  -- its turn in the next round.
  unfoldable pub gather : ℕ → ℕ → List (List (Point V)) → List (Point V) → List (Point V)
  gather zero i plist out = out
  gather (suc n) i plist out =
      let at = if ltb i (length plist) then i else 0 in
      elim (get_or plist at []) [
        | [] ↦ out
        | p ∷ down ↦ gather n (at + 1) (shrink plist at down) (p ∷ out)
      ]

  -- `POINTS_compare`
  abbrev pub points_compare : Point V → Point V → Sign
  points_compare a b =
      if ltb a.ts b.ts then minus_one else (if ltb b.ts a.ts then plus_one else zero_sign)

  -- `POINTS_merge_and_sort`; `qsort` takes the comparison.
  unfoldable pub merge_and_sort :
      ((Point V → Point V → Sign) → List (Point V) → List (Point V))
      → ℕ
      → List (List (Point V))
      → List (Point V)
  merge_and_sort qsort n plist =
      let points = gather n 0 plist [] in
      if n == length plist then simple_sort points else qsort points_compare points

-- `POINTS_highest_and_merge` between two points: the place `m` in `plist` (none for NULL), the
-- counter `l`, and the time-stamp `highest`.
pub record Cursor : Type 0 where
  pub m : Option ℕ
  pub l : ℕ
  pub highest_ts : ℕ

-- `for (; l < plist->len; l++, tpts++) if (… == highest) { m = tpts; break; }`, with `k` rounds to go.
unfoldable pub find_highest : {V : Type 0} → ℕ → ℕ → Cursor → List (List (Point V)) → Cursor
find_highest zero tpts c plist = record c { m = none }
find_highest (suc k) tpts c plist =
    let rest = find_highest k (tpts + 1) (record c { l = c.l + 1 }) plist in
    if last_ts (get_or plist tpts []) == c.highest_ts then record c { m = some tpts } else rest

-- `for (i = 1, tpts = m + 1; i < plist->len; i++, tpts++) if (… > …) { m = tpts; l = i; highest = … }`
unfoldable pub scan_highest : {V : Type 0} → ℕ → ℕ → ℕ → Cursor → List (List (Point V)) → Cursor
scan_highest best ts i c [] = record c { m = some best }
scan_highest best ts i c (s ∷ rest) =
    if ltb ts (last_ts s)
    then scan_highest i (last_ts s) (i + 1) (record c { l = i; highest_ts = last_ts s }) rest
    else scan_highest best ts (i + 1) c rest

-- `if (m == NULL) { m = plist->data; … }`
abbrev pub rescan : {V : Type 0} → Cursor → List (List (Point V)) → Cursor
rescan c [] = c
rescan c (s ∷ rest) = scan_highest 0 (last_ts s) 1 c rest

-- The series to take the next point from.
unfoldable pub choose : {V : Type 0} → Cursor → List (List (Point V)) → ℕ × Cursor
choose c plist =
    let found : Cursor = elim c.m [
      | none ↦ c
      | some at ↦ find_highest (length plist - c.l) at c plist
    ] in
    let next : Cursor = elim found.m [ some at ↦ found | none ↦ rescan found plist ] in
    (elim next.m [ some at ↦ at | none ↦ 0 ], next)

-- `if ((*m)->len--) { m++; l++; }`
abbrev pub advance : {V : Type 0} → ℕ → Cursor → List (Point V) → Cursor
advance at c [] = record c { m = some at }
advance at c (p ∷ down) = record c { m = some (at + 1); l = c.l + 1 }

module _ {V : Type 0} where
  -- `POINTS_highest_and_merge` with `n` points to go.
  unfoldable pub highest_loop : ℕ → Cursor → List (List (Point V)) → List (Point V) → List (Point V)
  highest_loop zero c plist out = out
  highest_loop (suc n) c plist out =
      let (at, c') = choose c plist in
      elim (get_or plist at []) [
        | [] ↦ out
        | p ∷ down ↦ highest_loop n (advance at c' down) (shrink plist at down) (p ∷ out)
      ]

  unfoldable pub highest_and_merge : ℕ → List (List (Point V)) → List (Point V)
  highest_and_merge n plist = highest_loop n (record { m = none; l = 0; highest_ts = 0 }) plist []

-- `points_tp`
pub data PointsTp : Type 0 where
  tp_int tp_double tp_string : PointsTp

-- `qp_via_t`: an integer, a double (of a type `R`) or a string (of a type `S`).
pub data Via (R S : Type 0) : Type 0 where
  int64 : ℕ → Via R S
  real : R → Via R S
  str : S → Via R S

-- `siridb_points_t`
pub record Series (V : Type 0) : Type 0 where
  pub tp : PointsTp
  pub data_points : List (Point V)

abbrev pub same_tp : PointsTp → PointsTp → Bool
same_tp tp_int tp_int = true
same_tp tp_double tp_double = true
same_tp tp_string tp_string = true
same_tp a b = false

abbrev pub is_string : PointsTp → Bool
is_string t = same_tp t tp_string

abbrev pub is_int : PointsTp → Bool
is_int t = same_tp t tp_int

-- What the first loop of `siridb_points_merge` leaves: one empty series that is returned, the error, or
-- the series with points, their number, whether types differ, and the type of the last one.
pub data Scan (V : Type 0) : Type 0 where
  all_empty : Series V → Scan V
  cannot_merge : Scan V
  ready : List (Series V) → ℕ → Bool → PointsTp → Scan V

module _ {V : Type 0} where
  abbrev pub last_series : Series V → List (Series V) → Series V
  last_series d [] = d
  last_series d (s ∷ rest) = last_series s rest

  -- `plist->data[i] = plist->data[plist->len]` after `--plist->len`, on the entries behind `i`.
  abbrev pub fill_gap : List (Series V) → List (Series V)
  fill_gap [] = []
  fill_gap (s ∷ rest) = last_series s rest ∷ take (length rest) (s ∷ rest)

  -- The loop, with `done` the entries below `i` (last first) and `prev` the type of `tpts`.
  unfoldable pub scan_series :
      ℕ → List (Series V) → List (Series V) → ℕ → Bool → Option PointsTp → Scan V
  scan_series zero done todo n mixed prev = cannot_merge
  scan_series (suc fuel) done [] n mixed prev =
      ready (reverse done) n mixed (elim prev [ some tp ↦ tp | none ↦ tp_int ])
  scan_series (suc fuel) done (s ∷ rest) n mixed prev =
      let differs : Bool = elim prev [ none ↦ false | some tp ↦ not (same_tp tp s.tp) ] in
      let strings = is_string s.tp || (elim prev [ none ↦ false | some tp ↦ is_string tp ]) in
      let filled = scan_series fuel done (fill_gap rest) n mixed prev in
      let next =
        scan_series fuel (s ∷ done) rest (n + length s.data_points) (mixed || differs)
          (some s.tp) in
      if length s.data_points == 0
      then (if length done + length rest == 0 then all_empty s else filled)
      else (if differs && strings then cannot_merge else next)

-- The result: the points, or one of the two errors.
pub data MergeRc (V : Type 0) : Type 0 where
  merged : Series V → MergeRc V
  mixed_types no_memory : MergeRc V

module _ {R S : Type 0} (to_double : ℕ → R)
    (qsort : (Point (Via R S) → Point (Via R S) → Sign)
      → List (Point (Via R S))
      → List (Point (Via R S))) where
  -- `val.real = (double) val.int64`
  abbrev pub promote_value : Via R S → Via R S
  promote_value (int64 i) = real (to_double i)
  promote_value (real r) = real r
  promote_value (str s) = str s

  -- The points of a series that is merged into one of doubles.
  abbrev pub promote : Bool → Series (Via R S) → List (Point (Via R S))
  promote int2double s =
      if int2double && is_int s.tp
      then map (λ (p : Point (Via R S)). record p { val = promote_value p.val }) s.data_points
      else s.data_points

  -- The choice of a merge.
  abbrev pub merge_points : ℕ → List (List (Point (Via R S))) → List (Point (Via R S))
  merge_points n plist =
      if ltb (length plist) 4
      then sort_while_merge n plist []
      else (if n == length plist || ltb n points_max_qsort
          then merge_and_sort qsort n plist
          else highest_and_merge n plist)

  -- The rest of `siridb_points_merge`, on the series that have points.
  abbrev pub merge_ready : Bool → List (Series (Via R S)) → ℕ → Bool → PointsTp → MergeRc (Via R S)
  merge_ready mem (s ∷ []) n mixed tp = merged s
  merge_ready mem plist n mixed tp =
      if mem
      then merged (record {
        tp = (if mixed then tp_double else tp);
        data_points = merge_points n (map (λ s. reverse (promote mixed s)) plist);
      })
      else no_memory

  -- `siridb_points_merge`
  unfoldable pub points_merge : Bool → List (Series (Via R S)) → MergeRc (Via R S)
  points_merge mem plist = elim (scan_series (suc (length plist)) [] plist 0 false none) [
    | all_empty s ↦ merged s
    | cannot_merge ↦ mixed_types
    | ready series n mixed tp ↦ merge_ready mem series n mixed tp
  ]
