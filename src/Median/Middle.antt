-- ===== src/Median/Middle.antt =====
-- `siridb_median_real`: the two values in the middle.
use siridb_server.Base.{
  ℕ, zero, suc, ◌+◌, ◌-◌, ◌/◌, ◌^◌, ◌≤◌, ◌<◌, ◌≡◌, ◌≢◌, refl, ap, sym, subst, ◌∙◌, true, false,
  Option, none, some, List, arith, ltb, length, get_elem?, ◌==◌, inl, inr, Bool-cases,
}
use siridb_server.Median.{
  parts, pred_word, goes_left, next_a, find_median_real, found, or_out_mean, median_real,
}
use siridb_server.Median.Find.{
  Rank, get_elem?-some, halves_length, pivot-Rank, left-Rank, right-Rank,
}
use siridb_server.Median.Real.{
  round_left, round_right, a_hit, a_miss, b_hit, b_miss, find_b, find_a,
}

module _ {A : Type 0} where
  -- The values at the places `n - 1` and `n`.
  abbrev Neighbours : (A → ℕ) → ℕ → List A → Option (A × A) → Type 0
  Neighbours key n seq r =
      (a : A) × (b : A) × (r ≡ some (a, b)) × Rank key (n - 1) seq a × Rank key n seq b

  -- A round in which neither was found before, by where the pivot stands.
  module _ (key : A → ℕ) (f : ℕ) (seq : List A) (n : ℕ) (pivot : A)
      (e : get_elem? seq (length seq / 2) ≡ some pivot) (lo : 1 ≤ n) (hi : n < length seq)
      (enough : length seq ≤ suc f) (bound : length seq < 2 ^ 64) where
    abbrev lefts : List A
    lefts = (parts key pivot seq).left

    abbrev rights : List A
    rights = (parts key pivot seq).right

    abbrev Goal : Type 0
    Goal = Neighbours key n seq (find_median_real key (suc f) seq n none none)

    last : pred_word n ≡ n - 1
    last = omega (arith, lo, hi, bound)

    miss_a : length lefts ≢ n - 1 → next_a (length lefts) n pivot none ≡ none
    miss_a away = a_miss (length lefts) n pivot none (λ k. away (k ∙ last))

    pivot_is_a : length lefts ≡ n - 1 → Goal
    pivot_is_a at =
        let sizes = halves_length key pivot seq e in
        let right : goes_left {A = A} (length lefts) n none ≡ false = ground (arith, last, at) in
        let (b, found_b, rank) =
          find_b key f rights pivot (omega (arith, sizes, hi, at, lo))
            (omega (arith, sizes, enough)) (omega (arith, sizes, bound)) in
        (
          pivot,
          b,
          round_right key f seq n none none pivot e (some pivot) none
                (a_hit (length lefts) n pivot none lo (omega (arith, hi, bound)) at)
                (b_miss (length lefts) n pivot none (λ k. absurd (omega (arith, k, at, lo)))) refl
                right
              ∙ ap (λ m. find_median_real key f rights m (some pivot) none)
                  {x = n - length lefts - 1} (omega (arith, at, lo))
              ∙ found_b,
          subst (λ m. Rank key m seq pivot) at (pivot-Rank key pivot seq e),
          subst (λ m. Rank key m seq b) {x = 0 + length lefts + 1} (omega (arith, at, lo))
              (right-Rank key pivot seq e 0 b rank),
        )

    pivot_is_b : length lefts ≡ n → Goal
    pivot_is_b at =
        let sizes = halves_length key pivot seq e in
        let away : length lefts ≢ n - 1 = λ k. absurd (omega (arith, k, at, lo)) in
        let left : goes_left (length lefts) n (some pivot) ≡ true = ground (arith, last, at, lo) in
        let (a, found_a, rank) =
          find_a key f lefts n pivot (sym at) lo (omega (arith, sizes, enough))
            (omega (arith, sizes, bound)) in
        (
          a,
          pivot,
          round_left key f seq n none none pivot e none (some pivot) (miss_a away)
                (b_hit (length lefts) n pivot none (λ k. away (k ∙ last)) at) refl left
              ∙ found_a,
          left-Rank key pivot seq e (n - 1) a rank,
          subst (λ m. Rank key m seq pivot) at (pivot-Rank key pivot seq e),
        )

    both_left :
        n < length lefts → Neighbours key n lefts (find_median_real key f lefts n none none) → Goal
    both_left more (a, b, found_ab, rank_a, rank_b) =
        let left : goes_left {A = A} (length lefts) n none ≡ true = ground (arith, more) in
        (
          a,
          b,
          round_left key f seq n none none pivot e none none
                (miss_a (λ k. absurd (omega (arith, k, more))))
                (b_miss (length lefts) n pivot none (λ k. absurd (omega (arith, k, more)))) refl
                left
              ∙ found_ab,
          left-Rank key pivot seq e (n - 1) a rank_a,
          left-Rank key pivot seq e n b rank_b,
        )

    both_right :
        length lefts < n - 1
        → Neighbours key
            (n - length lefts - 1)
            rights
            (find_median_real key f rights (n - length lefts - 1) none none)
        → Goal
    both_right below (a, b, found_ab, rank_a, rank_b) =
        let right : goes_left {A = A} (length lefts) n none ≡ false = ground (arith, last, below) in
        let m = n - length lefts - 1 in
        (
          a,
          b,
          round_right key f seq n none none pivot e none none
                (miss_a (λ k. absurd (omega (arith, k, below))))
                (b_miss (length lefts) n pivot none (λ k. absurd (omega (arith, k, below)))) refl
                right
              ∙ found_ab,
          subst (λ k. Rank key k seq a) {x = m - 1 + length lefts + 1} (omega (arith, below))
              (right-Rank key pivot seq e (m - 1) a rank_a),
          subst (λ k. Rank key k seq b) {x = m + length lefts + 1} (omega (arith, below))
              (right-Rank key pivot seq e m b rank_b),
        )

  -- Neither is found.
  find_median_real_lem :
      (key : A → ℕ) (f : ℕ) (seq : List A) (n : ℕ)
      → 1 ≤ n
      → n < length seq
      → length seq ≤ f
      → length seq < 2 ^ 64
      → Neighbours key n seq (find_median_real key f seq n none none)
  find_median_real_lem key zero seq n lo hi enough bound = absurd (omega (arith, hi, enough))
  find_median_real_lem key (suc f) seq n lo hi enough bound =
      let (pivot, e) = get_elem?-some seq (length seq / 2) (omega (arith, hi)) in
      let sizes = halves_length key pivot seq e in
      let l = (parts key pivot seq).left in
      let r = (parts key pivot seq).right in
      elim (Bool-cases (length l == n - 1)) [
        | inl here ↦ pivot_is_a key f seq n pivot e lo hi enough bound (ground arith)
        | inr away ↦ elim (Bool-cases (length l == n)) [
          | inl here ↦ pivot_is_b key f seq n pivot e lo hi enough bound (ground arith)
          | inr other ↦ elim (Bool-cases (ltb n (length l))) [
            | inl more ↦ both_left key f seq n pivot e lo hi enough bound (ground arith) (
                find_median_real_lem key f l n lo (ground arith) (omega (arith, sizes, enough))
                  (omega (arith, sizes, bound)))
            | inr less ↦
                let below : length l < n - 1 = ground arith in
                both_right key f seq n pivot e lo hi enough bound below (
                  find_median_real_lem key f r (n - length l - 1) (omega (arith, below))
                    (omega (arith, sizes, hi, below)) (omega (arith, sizes, enough))
                    (omega (arith, sizes, bound)))
          ]
        ]
      ]

module _ {A D : Type 0} where
  -- `siridb_median_real` with memory, of two values or more and less than 2 ^ 64: the mean of the values at the
  -- places `n - 1` and `n`, where `n` is half of how many there are.
  pub median_real_lem :
      (key : A → ℕ) (mean : A → A → D) (seq : List A)
      → 2 ≤ length seq
      → length seq < 2 ^ 64
      → (a : A) × (b : A) × (median_real key mean true seq ≡ found (mean a b))
        × Rank key (length seq / 2 - 1) seq a
        × Rank key (length seq / 2) seq b
  median_real_lem key mean seq two bound =
      let (a, b, e, rank_a, rank_b) =
        find_median_real_lem key (length seq) seq (length seq / 2) (omega (arith, two))
          (omega (arith, two)) (omega arith) bound in
      (a, b, ap (or_out_mean mean) e, rank_a, rank_b)
