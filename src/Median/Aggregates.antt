-- ===== src/Median/Aggregates.antt =====
-- `aggr_median`, `aggr_median_high` and `aggr_median_low`.
use siridb_server.Base.{
  ℕ, ◌-◌, ◌/◌, ◌%◌, ◌^◌, ◌<◌, ◌≡◌, ◌≢◌, refl, ap, true, List, [], ◌∷◌, arith, length, ◌==◌, ◌⊎◌,
  inl, inr, Bool-cases,
}
use siridb_server.Median.{
  Aggr, aggr_value, aggr_set, aggr_checked, found_map, aggr_median, aggr_median_high,
  aggr_median_low,
}
use siridb_server.Median.Find.{Rank, median_find_n_lem}
use siridb_server.Median.Middle.{median_real_lem}

module _ {A D : Type 0} where
  -- The value in the middle of an odd number, or the mean of the two in the middle.
  abbrev pub IsMedian : (A → ℕ) → (A → D) → (A → A → D) → List A → Aggr D → Type 0
  IsMedian key double mean seq r =
      ((v : A) × (length seq % 2 ≡ 1)
        × (r ≡ aggr_value (double v))
        × Rank key (length seq / 2) seq v)
      ⊎ ((a : A) × (b : A) × (length seq % 2 ≡ 0)
          × (r ≡ aggr_value (mean a b))
          × Rank key (length seq / 2 - 1) seq a
          × Rank key (length seq / 2) seq b)

  -- With memory, the aggregate median of at least one value and less than 2 ^ 64 is the value in the middle of
  -- them in order, as a double, or, for an even number, the mean of the two in the middle.
  pub aggr_median_lem :
      (key : A → ℕ) (double : A → D) (mean : A → A → D) (seq : List A)
      → seq ≢ []
      → length seq < 2 ^ 64
      → IsMedian key double mean seq (aggr_median key double mean true seq)
  aggr_median_lem key double mean [] h bound = absurd (h refl)
  aggr_median_lem key double mean (v ∷ []) h bound =
      inl (v, omega arith, refl, (ground arith, ground arith))
  aggr_median_lem key double mean (v ∷ w ∷ l) h bound =
      let seq = v ∷ w ∷ l in
      elim (Bool-cases (length seq % 2 == 1)) [
        | inl odd ↦
            let (x, e, rank) = median_find_n_lem key seq (length seq / 2) (omega arith) in
            inl (x, ground arith, rw odd (ap (λ r. aggr_set (found_map double r)) e), rank)
        | inr even ↦
            let (a, b, e, rank_a, rank_b) = median_real_lem key mean seq (omega arith) bound in
            inr (a, b, ground arith, rw even (ap aggr_checked e), rank_a, rank_b)
      ]

module _ {A : Type 0} where
  aggr_median_high_lem :
      (key : A → ℕ) (seq : List A)
      → seq ≢ []
      → (v : A) × (aggr_median_high key true seq ≡ aggr_value v) × Rank key (length seq / 2) seq v
  aggr_median_high_lem key [] h = absurd (h refl)
  aggr_median_high_lem key (v ∷ []) h = (v, refl, (ground arith, ground arith))
  aggr_median_high_lem key (v ∷ w ∷ l) h =
      let seq = v ∷ w ∷ l in
      let (x, e, rank) = median_find_n_lem key seq (length seq / 2) (omega arith) in
      (x, ap aggr_checked e, rank)

  aggr_median_low_lem :
      (key : A → ℕ) (seq : List A)
      → seq ≢ []
      → (v : A) × (aggr_median_low key true seq ≡ aggr_value v)
        × Rank key ((length seq - 1) / 2) seq v
  aggr_median_low_lem key [] h = absurd (h refl)
  aggr_median_low_lem key (v ∷ []) h = (v, refl, (ground arith, ground arith))
  aggr_median_low_lem key (v ∷ w ∷ l) h =
      let seq = v ∷ w ∷ l in
      let (x, e, rank) = median_find_n_lem key seq ((length seq - 1) / 2) (omega arith) in
      (x, ap aggr_checked e, rank)

  -- With memory, of at least one value: the aggregate median_high gives the value at the place `len / 2` of them
  -- in order, and median_low that at `(len - 1) / 2`.
  pub aggr_median_high-aggr_median_low :
      (key : A → ℕ) (seq : List A)
      → seq ≢ []
      → ((v : A) × (aggr_median_high key true seq ≡ aggr_value v) × Rank key (length seq / 2) seq v)
        × ((v : A) × (aggr_median_low key true seq ≡ aggr_value v)
            × Rank key ((length seq - 1) / 2) seq v)
  aggr_median_high-aggr_median_low key seq h =
      (aggr_median_high_lem key seq h, aggr_median_low_lem key seq h)
