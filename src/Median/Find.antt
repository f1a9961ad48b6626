-- ===== src/Median/Find.antt =====
-- `siridb_median_find_n`: the value that stands at the place `n` when the values are in order.
use siridb_server.Base.{
  ℕ, zero, suc, ◌+◌, ◌-◌, ◌/◌, ◌≤◌, ◌<◌, ◌≡◌, refl, subst, ◌∙◌, Bool, true, false, some, List, [],
  ◌∷◌, arith, ltb, leb, All, length, get_elem?, ◌==◌, if◌then◌else◌, inl, inr, Bool-cases,
}
use siridb_server.Points.Order.{bit}
use siridb_server.Median.{parts, find_n, found, median_find_n}
use siridb_server.Median.Parts.{
  passing, passing_most, passing-All, passing_none, parts-Parted, parts-both,
}

module _ {A : Type 0} where
  -- At most `n` values are smaller than `v`, and more than `n` are not greater: where the values are in order,
  -- `v` stands at the place `n`, counted from 0.
  abbrev pub Rank : (A → ℕ) → ℕ → List A → A → Type 0
  Rank key n l v =
      (passing (λ x. ltb (key x) (key v)) l ≤ n) × (n < passing (λ x. leb (key x) (key v)) l)

  All-imp : (P Q : A → Type 0) (l : List A) → ((v : A) → P v → Q v) → All P l → All Q l
  All-imp P Q [] f h = tt
  All-imp P Q (v ∷ l) f h = (f v h.0, All-imp P Q l f h.1)

  passing-true : (l : List A) → passing (λ v. true) l ≡ length l
  passing-true [] = refl
  passing-true (v ∷ l) = omega (arith, passing-true l)

  pub get_elem?-some : (l : List A) (i : ℕ) → i < length l → (v : A) × (get_elem? l i ≡ some v)
  get_elem?-some [] i h = absurd (omega arith)
  get_elem?-some (v ∷ l) zero h = (v, refl)
  get_elem?-some (v ∷ l) (suc i) h = get_elem?-some l i (omega (arith, h))

  -- One round, with the value in the middle as the pivot.
  module _ (key : A → ℕ) (pivot : A) (seq : List A)
      (at_pivot : get_elem? seq (length seq / 2) ≡ some pivot) where
    abbrev lefts : List A
    lefts = (parts key pivot seq).left

    abbrev rights : List A
    rights = (parts key pivot seq).right

    pub halves_length : length lefts + length rights + 1 ≡ length seq
    halves_length = omega (
      arith,
      parts-both key pivot seq (λ v. true) at_pivot,
      passing-true lefts,
      passing-true rights,
      passing-true seq,
    )

    abbrev lows : A → List A → ℕ
    lows v l = passing (λ x. ltb (key x) (key v)) l

    abbrev ups : A → List A → ℕ
    ups v l = passing (λ x. leb (key x) (key v)) l

    -- Where the key of `v` stands on one side of that of the pivot, the other side is known.
    rights_low : (v : A) → key v ≤ key pivot → lows v rights ≡ 0
    rights_low v h =
        passing_none (λ x. ltb (key x) (key v)) rights
          (All-imp (λ x. key pivot ≤ key x) (λ x. ltb (key x) (key v) ≡ false) rights
            (λ x k. ground (arith, h)) (parts-Parted key pivot seq).1)

    rights_up : (v : A) → key v < key pivot → ups v rights ≡ 0
    rights_up v h =
        passing_none (λ x. leb (key x) (key v)) rights
          (All-imp (λ x. key pivot ≤ key x) (λ x. leb (key x) (key v) ≡ false) rights
            (λ x k. ground (arith, h)) (parts-Parted key pivot seq).1)

    lefts_up : (v : A) → key pivot ≤ key v → ups v lefts ≡ length lefts
    lefts_up v h =
        passing-All (λ x. leb (key x) (key v)) lefts
          (All-imp (λ x. key x ≤ key pivot) (λ x. leb (key x) (key v) ≡ true) lefts
            (λ x k. ground (arith, h)) (parts-Parted key pivot seq).0)

    lefts_low : (v : A) → key pivot < key v → lows v lefts ≡ length lefts
    lefts_low v h =
        passing-All (λ x. ltb (key x) (key v)) lefts
          (All-imp (λ x. key x ≤ key pivot) (λ x. ltb (key x) (key v) ≡ true) lefts
            (λ x k. ground (arith, h)) (parts-Parted key pivot seq).0)

    all_lows : (v : A) → bit (ltb (key pivot) (key v)) + lows v lefts + lows v rights ≡ lows v seq
    all_lows v = parts-both key pivot seq (λ x. ltb (key x) (key v)) at_pivot

    all_ups : (v : A) → bit (leb (key pivot) (key v)) + ups v lefts + ups v rights ≡ ups v seq
    all_ups v = parts-both key pivot seq (λ x. leb (key x) (key v)) at_pivot

    pub pivot-Rank : Rank key (length lefts) seq pivot
    pivot-Rank =
        let none_low : bit (ltb (key pivot) (key pivot)) ≡ 0 = ground arith in
        let one_up : bit (leb (key pivot) (key pivot)) ≡ 1 = ground arith in
        let most = passing_most (λ x. ltb (key x) (key pivot)) lefts in
        (
          omega (arith, all_lows pivot, rights_low pivot (omega arith), none_low, most),
          omega (arith, all_ups pivot, lefts_up pivot (omega arith), one_up),
        )

    pub left-Rank : (m : ℕ) (v : A) → Rank key m lefts v → Rank key m seq v
    left-Rank m v (low, up) = elim (Bool-cases (ltb (key pivot) (key v))) [
      | inl above ↦
          let all_low = lefts_low v (ground arith) in
          let most = passing_most (λ x. leb (key x) (key v)) lefts in
          absurd (omega (arith, low, up, all_low, most))
      | inr low_v ↦
          let none_low : bit (ltb (key pivot) (key v)) ≡ 0 = ground arith in
          (
            omega (arith, all_lows v, rights_low v (ground arith), none_low, low),
            omega (arith, all_ups v, up),
          )
    ]

    pub right-Rank : (m : ℕ) (v : A) → Rank key m rights v → Rank key (m + length lefts + 1) seq v
    right-Rank m v (low, up) = elim (Bool-cases (ltb (key v) (key pivot))) [
      | inl below ↦ let no_up = rights_up v (ground arith) in absurd (omega (arith, up, no_up))
      | inr high_v ↦
          let one_up : bit (leb (key pivot) (key v)) ≡ 1 = ground arith in
          let at_most : bit (ltb (key pivot) (key v)) ≤ 1 = bit_most (ltb (key pivot) (key v)) in
          let most = passing_most (λ x. ltb (key x) (key v)) lefts in
          (
            omega (arith, all_lows v, at_most, most, low),
            omega (arith, all_ups v, lefts_up v (ground arith), one_up, up),
          )
    ]
      where
        bit_most : (b : Bool) → bit b ≤ 1
        bit_most true = omega arith
        bit_most false = omega arith

  -- One round of `find_n_int64`.
  find_n_round :
      (key : A → ℕ) (f : ℕ) (seq : List A) (n : ℕ) (pivot : A)
      → get_elem? seq (length seq / 2) ≡ some pivot
      → find_n key (suc f) seq n ≡ (
          if length (parts key pivot seq).left == n
          then some pivot
          else find_n key f
              (if ltb n (length (parts key pivot seq).left)
                then (parts key pivot seq).left
                else (parts key pivot seq).right)
              (if ltb n (length (parts key pivot seq).left)
                then n
                else n - length (parts key pivot seq).left - 1))
  unfolding find_n
  find_n_round key f seq n pivot e = rw (e, find_n) refl

  pub find_n_lem :
      (key : A → ℕ) (f : ℕ) (seq : List A) (n : ℕ)
      → n < length seq
      → length seq ≤ f
      → (v : A) × (find_n key f seq n ≡ some v) × Rank key n seq v
  find_n_lem key zero seq n h enough = absurd (omega (arith, h, enough))
  find_n_lem key (suc f) seq n h enough =
      let (pivot, e) = get_elem?-some seq (length seq / 2) (omega (arith, h)) in
      let sizes = halves_length key pivot seq e in
      let l = (parts key pivot seq).left in
      let r = (parts key pivot seq).right in
      let round = find_n_round key f seq n pivot e in
      elim (Bool-cases (length l == n)) [
        | inl here ↦
            let at : length l ≡ n = ground arith in
            (
              pivot,
              round ∙ rw here refl,
              subst (λ m. Rank key m seq pivot) at (pivot-Rank key pivot seq e),
            )
        | inr away ↦ elim (Bool-cases (ltb n (length l))) [
          | inl low ↦
              let (v, found_v, rank) =
                find_n_lem key f l n (ground arith) (omega (arith, sizes, enough)) in
              (v, round ∙ rw (away, low) found_v, left-Rank key pivot seq e n v rank)
          | inr high ↦
              let (v, found_v, rank) =
                find_n_lem key f r (n - length l - 1) (ground (arith, sizes, h))
                  (omega (arith, sizes, enough)) in
              (
                v,
                round ∙ rw (away, high) found_v,
                subst (λ m. Rank key m seq v) {x = n - length l - 1 + length l + 1} (ground arith)
                    (right-Rank key pivot seq e (n - length l - 1) v rank),
              )
        ]
      ]

  -- `siridb_median_find_n` with memory and a place that is there: the value that it gives has that place.
  pub median_find_n_lem :
      (key : A → ℕ) (seq : List A) (n : ℕ)
      → n < length seq
      → (v : A) × (median_find_n key true seq n ≡ found v) × Rank key n seq v
  median_find_n_lem key seq n h =
      let (v, e, rank) = find_n_lem key (length seq) seq n h (omega arith) in (v, rw e refl, rank)
