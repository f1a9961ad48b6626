-- ===== src/Median/Real.antt =====
-- `find_median_real_int64` where one of the two values is found.
use siridb_server.Base.{
  ℕ, zero, suc, ◌+◌, ◌-◌, ◌/◌, ◌^◌, ◌≤◌, ◌<◌, ◌≡◌, ◌≢◌, refl, subst, ◌∙◌, true, false, Option, none,
  some, List, arith, length, get_elem?, ◌==◌, if◌then◌else◌, inl, inr, Bool-cases,
}
use siridb_server.Median.{
  parts, pred_word, found_both, next_a, next_b, goes_left, or_rest, find_median_real,
}
use siridb_server.Median.Find.{
  Rank, get_elem?-some, halves_length, pivot-Rank, left-Rank, right-Rank,
}

module _ {A : Type 0} where
  -- One round, with what it has found and where it goes on.
  module _ (key : A → ℕ) (f : ℕ) (seq : List A) (n : ℕ) (a b : Option A) (pivot : A)
      (e : get_elem? seq (length seq / 2) ≡ some pivot) where
    abbrev lefts : List A
    lefts = (parts key pivot seq).left

    abbrev rights : List A
    rights = (parts key pivot seq).right

    round_eq :
        find_median_real key (suc f) seq n a b
        ≡ or_rest (found_both (next_a (length lefts) n pivot a) (next_b (length lefts) n pivot b)) (
            find_median_real key f
              (if goes_left (length lefts) n (next_b (length lefts) n pivot b)
                then lefts
                else rights)
              (if goes_left (length lefts) n (next_b (length lefts) n pivot b)
                then n
                else n - length lefts - 1)
              (next_a (length lefts) n pivot a)
              (next_b (length lefts) n pivot b))
    unfolding find_median_real
    round_eq = rw (e, find_median_real) refl

    pub round_ends :
        (x y : A)
        → next_a (length lefts) n pivot a ≡ some x
        → next_b (length lefts) n pivot b ≡ some y
        → find_median_real key (suc f) seq n a b ≡ some (x, y)
    round_ends x y ea eb = round_eq ∙ rw (ea, eb) refl

    pub round_left :
        (a₂ b₂ : Option A)
        → next_a (length lefts) n pivot a ≡ a₂
        → next_b (length lefts) n pivot b ≡ b₂
        → found_both a₂ b₂ ≡ none
        → goes_left (length lefts) n b₂ ≡ true
        → find_median_real key (suc f) seq n a b ≡ find_median_real key f lefts n a₂ b₂
    round_left a₂ b₂ ea eb open_yet left = round_eq ∙ rw (ea, eb, open_yet, left) refl

    pub round_right :
        (a₂ b₂ : Option A)
        → next_a (length lefts) n pivot a ≡ a₂
        → next_b (length lefts) n pivot b ≡ b₂
        → found_both a₂ b₂ ≡ none
        → goes_left (length lefts) n b₂ ≡ false
        → find_median_real key (suc f) seq n a b
          ≡ find_median_real key f rights (n - length lefts - 1) a₂ b₂
    round_right a₂ b₂ ea eb open_yet right = round_eq ∙ rw (ea, eb, open_yet, right) refl

  pub a_hit :
      (s n : ℕ) (pivot : A) (a : Option A)
      → 1 ≤ n
      → n < 2 ^ 64
      → s ≡ n - 1
      → next_a s n pivot a ≡ some pivot
  a_hit s n pivot a lo hi h = let hit : (s == pred_word n) ≡ true = ground arith in rw hit refl

  pub a_miss : (s n : ℕ) (pivot : A) (a : Option A) → s ≢ pred_word n → next_a s n pivot a ≡ a
  a_miss s n pivot a h = let miss : (s == pred_word n) ≡ false = ground arith in rw miss refl

  pub b_hit :
      (s n : ℕ) (pivot : A) (b : Option A)
      → s ≢ pred_word n
      → s ≡ n
      → next_b s n pivot b ≡ some pivot
  b_hit s n pivot b h e =
      let miss : (s == pred_word n) ≡ false = ground arith in
      let hit : (s == n) ≡ true = ground arith in rw (miss, hit) refl

  pub b_miss : (s n : ℕ) (pivot : A) (b : Option A) → s ≢ n → next_b s n pivot b ≡ b
  b_miss s n pivot b h = elim (Bool-cases (s == pred_word n)) [
    | inl e ↦ rw e refl
    | inr e ↦ let miss : (s == n) ≡ false = ground arith in rw (e, miss) refl
  ]

  -- `a` is found; `b` is the first of what is left.
  pub find_b :
      (key : A → ℕ) (f : ℕ) (seq : List A) (a : A)
      → 0 < length seq
      → length seq ≤ f
      → length seq < 2 ^ 64
      → (b : A) × (find_median_real key f seq 0 (some a) none ≡ some (a, b)) × Rank key 0 seq b
  find_b key zero seq a h enough bound = absurd (omega (arith, h, enough))
  find_b key (suc f) seq a h enough bound =
      let (pivot, e) = get_elem?-some seq (length seq / 2) (omega (arith, h)) in
      let sizes = halves_length key pivot seq e in
      let l = (parts key pivot seq).left in
      let far : length l ≢ pred_word 0 = λ k. absurd (omega (arith, k, sizes, bound)) in
      let ea = a_miss (length l) 0 pivot (some a) far in
      elim (Bool-cases (length l == 0)) [
        | inl here ↦
            let at : length l ≡ 0 = ground arith in
            (
              pivot,
              round_ends key f seq 0 (some a) none pivot e a pivot ea
                  (b_hit (length l) 0 pivot none far at),
              subst (λ m. Rank key m seq pivot) at (pivot-Rank key pivot seq e),
            )
        | inr more ↦
            let (b, found_b, rank) =
              find_b key f l a (ground arith) (omega (arith, sizes, enough))
                (omega (arith, sizes, bound)) in
            (
              b,
              round_left key f seq 0 (some a) none pivot e (some a) none ea
                    (b_miss (length l) 0 pivot none (ground arith)) refl (ground arith)
                  ∙ found_b,
              left-Rank key pivot seq e 0 b rank,
            )
      ]

  -- `b` is found; `a` is the last of what is left.
  pub find_a :
      (key : A → ℕ) (f : ℕ) (seq : List A) (n : ℕ) (b : A)
      → n ≡ length seq
      → 1 ≤ n
      → length seq ≤ f
      → length seq < 2 ^ 64
      → (a : A) × (find_median_real key f seq n none (some b) ≡ some (a, b))
        × Rank key (n - 1) seq a
  find_a key zero seq n b whole h enough bound = absurd (omega (arith, whole, h, enough))
  find_a key (suc f) seq n b whole h enough bound =
      let (pivot, e) = get_elem?-some seq (length seq / 2) (omega (arith, whole, h)) in
      let sizes = halves_length key pivot seq e in
      let l = (parts key pivot seq).left in
      let r = (parts key pivot seq).right in
      let eb = b_miss (length l) n pivot (some b) (λ k. absurd (omega (arith, k, sizes, whole))) in
      elim (Bool-cases (length l == n - 1)) [
        | inl here ↦
            let at : length l ≡ n - 1 = ground arith in
            (
              pivot,
              round_ends key f seq n none (some b) pivot e pivot b
                  (a_hit (length l) n pivot none h (omega (arith, whole, bound)) at) eb,
              subst (λ m. Rank key m seq pivot) at (pivot-Rank key pivot seq e),
            )
        | inr below ↦
            let away : length l ≢ n - 1 = ground arith in
            let last : pred_word n ≡ n - 1 = omega (arith, h, whole, bound) in
            let smaller : length l < n - 1 = omega (arith, away, sizes, whole) in
            let right : goes_left (length l) n (some b) ≡ false = ground (arith, last, smaller) in
            let ea = a_miss (length l) n pivot none (λ k. away (k ∙ last)) in
            let (a, found_a, rank) =
              find_a key f r (n - length l - 1) b (omega (arith, sizes, whole))
                (omega (arith, smaller)) (omega (arith, sizes, enough))
                (omega (arith, sizes, bound)) in
            (
              a,
              round_right key f seq n none (some b) pivot e none (some b) ea eb refl right
                  ∙ found_a,
              subst (λ m. Rank key m seq a) {x = n - length l - 1 - 1 + length l + 1}
                  (omega (arith, smaller))
                  (right-Rank key pivot seq e (n - length l - 1 - 1) a rank),
            )
      ]
