-- ===== src/Median/Tests.antt =====
-- The median of a few values, and the theorems applied.
use siridb_server.Base.{ℕ, ◌+◌, ◌-◌, ◌/◌, ◌≡◌, refl, true, false, List, [], ◌∷◌, arith, length}
use siridb_server.Cexpr.{signed}
use siridb_server.Median.{
  find_n, median_find_n, found, find_median_real, aggr_value, aggr_error, aggr_unset, aggr_median,
  aggr_median_high, aggr_median_low,
}
use siridb_server.Median.Find.{Rank}
use siridb_server.Median.Aggregates.{IsMedian, aggr_median_lem, aggr_median_high-aggr_median_low}

-- 3, 1, 2, 2 and -1 as words of 64 bits, and the same without -1.
abbrev five : List ℕ
five = 3 ∷ 1 ∷ 2 ∷ 2 ∷ 18446744073709551615 ∷ []

abbrev four : List ℕ
four = 3 ∷ 1 ∷ 2 ∷ 2 ∷ []

-- The mean, twice, so that it is a whole number.
abbrev sum_of_two : ℕ → ℕ → ℕ
sum_of_two a b = a + b

middle_of_five : median_find_n signed true five 2 ≡ found 2
unfolding find_n
middle_of_five = refl

least_of_five : median_find_n signed true five 0 ≡ found 18446744073709551615
unfolding find_n
least_of_five = refl

median_of_four : aggr_median signed (λ v. v) sum_of_two true four ≡ aggr_value 4
unfolding find_median_real
median_of_four = refl

-- Without memory the median of an even number is an error, that of an odd number is a point that is not set.
no_memory_for_four : aggr_median signed (λ v. v) sum_of_two false four ≡ aggr_error
no_memory_for_four = refl

no_memory_for_five : aggr_median signed (λ v. v) sum_of_two false five ≡ aggr_unset
no_memory_for_five = refl

aggr_median_lem_example :
    IsMedian signed (λ v. v) sum_of_two five (aggr_median signed (λ v. v) sum_of_two true five)
aggr_median_lem_example =
    aggr_median_lem signed (λ v. v) sum_of_two five (λ e. absurd (ground arith)) (omega arith)

aggr_median_high-aggr_median_low_example :
    ((v : ℕ) × (aggr_median_high signed true four ≡ aggr_value v)
      × Rank signed (length four / 2) four v)
    × ((v : ℕ) × (aggr_median_low signed true four ≡ aggr_value v)
        × Rank signed ((length four - 1) / 2) four v)
aggr_median_high-aggr_median_low_example =
    aggr_median_high-aggr_median_low signed four (λ e. absurd (ground arith))
