-- ===== src/Median.antt =====
-- src/siri/db/median.c: the n-th of values in order, and the two in the middle, by parting the values at a pivot;
-- with the aggregates median, median_high and median_low of src/siri/db/aggregate.c.
-- A value is anything with a `key`, by which values are compared: 64-bit words with their sign for int64_t, and
-- doubles that are numbers. The two halves are written over the arrays that are read, always behind the place
-- that is read, so that they are lists here.
pub mod Parts
pub mod Find
pub mod Real
pub mod Middle
pub mod Aggregates
mod Tests
use siridb_server.Base.{
  ℕ, zero, suc, ◌+◌, ◌-◌, ◌*◌, ◌/◌, ◌%◌, ◌^◌, Bool, true, false, not, ◌&&◌, ◌||◌, Option, none,
  some, List, [], ◌∷◌, ◌++◌, ltb, leb, length, get_elem?, ◌==◌, if◌then◌else◌,
}

-- `arr_l`, `arr_r`, and whether `equal` is `arr_l`.
pub record Halves (A : Type 0) : Type 0 where
  pub left : List A
  pub right : List A
  pub to_left : Bool

-- What `siridb_median_find_n` and `siridb_median_real` give: -1, a value, or a read behind the values.
pub data Found (A : Type 0) : Type 0 where
  no_memory : Found A
  found : A → Found A
  out_of_range : Found A

-- What an aggregate gives: -1 with a message, a value, or a point whose value is not set.
pub data Aggr (A : Type 0) : Type 0 where
  aggr_error : Aggr A
  aggr_value : A → Aggr A
  aggr_unset : Aggr A

abbrev pub pred_word : ℕ → ℕ
pred_word n = (n + 2 ^ 64 - 1) % 2 ^ 64

module _ {A : Type 0} where
  abbrev pub new_parts : Halves A
  new_parts = record { left = []; right = []; to_left = true }

  -- A value beside the pivot: equal values go to both sides in turn.
  abbrev pub part_step : (A → ℕ) → A → A → Halves A → Halves A
  part_step key pivot v p =
      if key v == key pivot
      then (if p.to_left
          then record { left = p.left ++ v ∷ []; right = p.right; to_left = false }
          else record { left = p.left; right = p.right ++ v ∷ []; to_left = true })
      else (if ltb (key pivot) (key v)
          then record { left = p.left; right = p.right ++ v ∷ []; to_left = p.to_left }
          else record { left = p.left ++ v ∷ []; right = p.right; to_left = p.to_left })

  -- The loop over the values from the place `i` on, without the pivot, which stands at `npivot`.
  abbrev pub part_loop : (A → ℕ) → A → ℕ → ℕ → List A → Halves A → Halves A
  part_loop key pivot npivot i [] p = p
  part_loop key pivot npivot i (v ∷ l) p =
      part_loop key pivot npivot (suc i) l (if i == npivot then p else part_step key pivot v p)

  abbrev pub parts : (A → ℕ) → A → List A → Halves A
  parts key pivot seq = part_loop key pivot (length seq / 2) 0 seq new_parts

  -- `find_n_int64`
  unfoldable pub find_n : (A → ℕ) → ℕ → List A → ℕ → Option A
  find_n key zero seq n = none
  find_n key (suc f) seq n = elim (get_elem? seq (length seq / 2)) [
    | none ↦ none
    | some pivot ↦
        let p = parts key pivot seq in
        let size_l = length p.left in
        let rest =
          find_n key f (if ltb n size_l then p.left else p.right)
            (if ltb n size_l then n else n - size_l - 1) in
        if size_l == n then some pivot else rest
  ]

  -- For doubles that are numbers, with the key of a double.
  abbrev find_n_double : (A → ℕ) → ℕ → List A → ℕ → Option A
  find_n_double = find_n

  abbrev pub or_out : Option A → Found A
  or_out none = out_of_range
  or_out (some v) = found v

  -- `siridb_median_find_n`. Its own loop over the points is that of the first round.
  abbrev pub median_find_n : (A → ℕ) → Bool → List A → ℕ → Found A
  median_find_n key mem seq n = if mem then or_out (find_n key (length seq) seq n) else no_memory

  abbrev pub found_both : Option A → Option A → Option (A × A)
  found_both none b = none
  found_both (some a) none = none
  found_both (some a) (some b) = some (a, b)

  abbrev pub is_found : Option A → Bool
  is_found none = false
  is_found (some b) = true

  -- `a` and `b` behind a round with the pivot at the place `size_l`, and whether the next is on the left.
  abbrev pub next_a : ℕ → ℕ → A → Option A → Option A
  next_a size_l n pivot a = if size_l == pred_word n then some pivot else a

  abbrev pub next_b : ℕ → ℕ → A → Option A → Option A
  next_b size_l n pivot b =
      if size_l == pred_word n then b else (if size_l == n then some pivot else b)

  abbrev pub goes_left : ℕ → ℕ → Option A → Bool
  goes_left size_l n b = (not (is_found b) && ltb n size_l) || ltb (pred_word n) size_l

  abbrev pub or_rest : Option (A × A) → Option (A × A) → Option (A × A)
  or_rest none rest = rest
  or_rest (some ab) rest = some ab

  -- `find_median_real_int64`: `a` and `b` as far as they are found.
  unfoldable pub find_median_real : (A → ℕ) → ℕ → List A → ℕ → Option A → Option A → Option (A × A)
  find_median_real key zero seq n a b = none
  find_median_real key (suc f) seq n a b = elim (get_elem? seq (length seq / 2)) [
    | none ↦ none
    | some pivot ↦
        let p = parts key pivot seq in
        let size_l = length p.left in
        let a' = next_a size_l n pivot a in
        let b' = next_b size_l n pivot b in
        let to_left = goes_left size_l n b' in
        or_rest (found_both a' b') (
          find_median_real key f (if to_left then p.left else p.right)
            (if to_left then n else n - size_l - 1) a' b')
  ]

  abbrev find_median_real_double : (A → ℕ) → ℕ → List A → ℕ → Option A → Option A → Option (A × A)
  find_median_real_double = find_median_real

module _ {D : Type 0} where
  -- Where `aggr_median` does not look at the code that is returned, and where an aggregate does.
  abbrev pub aggr_set : Found D → Aggr D
  aggr_set no_memory = aggr_unset
  aggr_set (found x) = aggr_value x
  aggr_set out_of_range = aggr_unset

  abbrev pub aggr_checked : Found D → Aggr D
  aggr_checked no_memory = aggr_error
  aggr_checked (found x) = aggr_value x
  aggr_checked out_of_range = aggr_unset

module _ {A D : Type 0} where
  abbrev pub or_out_mean : (A → A → D) → Option (A × A) → Found D
  or_out_mean mean none = out_of_range
  or_out_mean mean (some (a, b)) = found (mean a b)

  -- `siridb_median_real` for a percentage of 0.5, where `mean` is the mean of two values as a double. In the
  -- first round, over the points, only one of the two can be found. `points->len * percentage` is half the length.
  abbrev pub median_real : (A → ℕ) → (A → A → D) → Bool → List A → Found D
  median_real key mean mem seq =
      if mem
      then or_out_mean mean (find_median_real key (length seq) seq (length seq / 2) none none)
      else no_memory

  abbrev pub found_map : (A → D) → Found A → Found D
  found_map f no_memory = no_memory
  found_map f (found x) = found (f x)
  found_map f out_of_range = out_of_range

  -- `aggr_median`
  abbrev pub aggr_median : (A → ℕ) → (A → D) → (A → A → D) → Bool → List A → Aggr D
  aggr_median key double mean mem [] = aggr_unset
  aggr_median key double mean mem (v ∷ []) = aggr_value (double v)
  aggr_median key double mean mem (v ∷ w ∷ l) =
      let seq = v ∷ w ∷ l in
      if length seq % 2 == 1
      then aggr_set (found_map double (median_find_n key mem seq (length seq / 2)))
      else aggr_checked (median_real key mean mem seq)

module _ {A : Type 0} where
  -- `aggr_median_high`
  abbrev pub aggr_median_high : (A → ℕ) → Bool → List A → Aggr A
  aggr_median_high key mem [] = aggr_unset
  aggr_median_high key mem (v ∷ []) = aggr_value v
  aggr_median_high key mem (v ∷ w ∷ l) =
      aggr_checked (median_find_n key mem (v ∷ w ∷ l) (length (v ∷ w ∷ l) / 2))

  -- `aggr_median_low`
  abbrev pub aggr_median_low : (A → ℕ) → Bool → List A → Aggr A
  aggr_median_low key mem [] = aggr_unset
  aggr_median_low key mem (v ∷ []) = aggr_value v
  aggr_median_low key mem (v ∷ w ∷ l) =
      aggr_checked (median_find_n key mem (v ∷ w ∷ l) ((length (v ∷ w ∷ l) - 1) / 2))
