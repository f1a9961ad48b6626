-- ===== src/Median/Parts.antt =====
-- The two halves beside a pivot: what is on which side, and that nothing is lost.
use siridb_server.Base.{
  ℕ, zero, suc, ◌+◌, ◌/◌, ◌≤◌, ◌<◌, ◌≡◌, refl, ap, ◌∙◌, Bool, true, false, some, List, [], ◌∷◌,
  ◌++◌, arith, ltb, All, All-append, length, get_elem?, ◌==◌, if◌then◌else◌, inl, inr, Bool-cases,
}
use siridb_server.Points.Order.{bit}
use siridb_server.Median.{Halves, new_parts, part_step, part_loop, parts}

module _ {A : Type 0} where
  -- How many values pass a test.
  abbrev pub passing : (A → Bool) → List A → ℕ
  passing q [] = 0
  passing q (v ∷ l) = bit (q v) + passing q l

  pub passing-append :
      (q : A → Bool) (l m : List A) → passing q (l ++ m) ≡ passing q l + passing q m
  passing-append q [] m = omega arith
  passing-append q (v ∷ l) m = omega (arith, passing-append q l m)

  pub passing_most : (q : A → Bool) (l : List A) → passing q l ≤ length l
  passing_most q [] = omega arith
  passing_most q (v ∷ l) = ground (arith, passing_most q l)

  pub passing-All : (q : A → Bool) (l : List A) → All (λ v. q v ≡ true) l → passing q l ≡ length l
  passing-All q [] h = refl
  passing-All q (v ∷ l) h = ground (arith, h.0, passing-All q l h.1)

  pub passing_none : (q : A → Bool) (l : List A) → All (λ v. q v ≡ false) l → passing q l ≡ 0
  passing_none q [] h = refl
  passing_none q (v ∷ l) h = ground (arith, h.0, passing_none q l h.1)

  -- How many of both halves pass a test.
  abbrev both : (A → Bool) → Halves A → ℕ
  both q p = passing q p.left + passing q p.right

  abbrev Parted : (A → ℕ) → A → Halves A → Type 0
  Parted key pivot p = All (λ v. key v ≤ key pivot) p.left × All (λ v. key pivot ≤ key v) p.right

  part_step-both :
      (key : A → ℕ) (pivot v : A) (p : Halves A) (q : A → Bool)
      → both q (part_step key pivot v p) ≡ bit (q v) + both q p
  part_step-both key pivot v p q = elim (Bool-cases (key v == key pivot)) [
    | inl e ↦ elim (Bool-cases p.to_left) [
      | inl l ↦ rw (e, l) (omega (arith, passing-append q p.left (v ∷ [])))
      | inr r ↦ rw (e, r) (omega (arith, passing-append q p.right (v ∷ [])))
    ]
    | inr e ↦ elim (Bool-cases (ltb (key pivot) (key v))) [
      | inl l ↦ rw (e, l) (omega (arith, passing-append q p.right (v ∷ [])))
      | inr r ↦ rw (e, r) (omega (arith, passing-append q p.left (v ∷ [])))
    ]
  ]

  part_step-Parted :
      (key : A → ℕ) (pivot v : A) (p : Halves A)
      → Parted key pivot p
      → Parted key pivot (part_step key pivot v p)
  part_step-Parted key pivot v p (below, above) = elim (Bool-cases (key v == key pivot)) [
    | inl e ↦ elim (Bool-cases p.to_left) [
      | inl l ↦
          rw (e, l)
            (All-append (λ v. key v ≤ key pivot) p.left (v ∷ []) below (ground arith, tt), above)
      | inr r ↦
          rw (e, r)
            (below, All-append (λ v. key pivot ≤ key v) p.right (v ∷ []) above (ground arith, tt))
    ]
    | inr e ↦ elim (Bool-cases (ltb (key pivot) (key v))) [
      | inl l ↦
          rw (e, l)
            (below, All-append (λ v. key pivot ≤ key v) p.right (v ∷ []) above (ground arith, tt))
      | inr r ↦
          rw (e, r)
            (All-append (λ v. key v ≤ key pivot) p.left (v ∷ []) below (ground arith, tt), above)
    ]
  ]

  part_loop-Parted :
      (key : A → ℕ) (pivot : A) (npivot i : ℕ) (l : List A) (p : Halves A)
      → Parted key pivot p
      → Parted key pivot (part_loop key pivot npivot i l p)
  part_loop-Parted key pivot npivot i [] p h = h
  part_loop-Parted key pivot npivot i (v ∷ l) p h =
      part_loop-Parted key pivot npivot (suc i) l
        (if i == npivot then p else part_step key pivot v p) (either (i == npivot))
    where
      either : (b : Bool) → Parted key pivot (if b then p else part_step key pivot v p)
      either true = h
      either false = part_step-Parted key pivot v p h

  skipped-both :
      (key : A → ℕ) (pivot v : A) (p : Halves A) (q : A → Bool) (b : Bool)
      → b ≡ false
      → both q (if b then p else part_step key pivot v p) ≡ bit (q v) + both q p
  skipped-both key pivot v p q false e = part_step-both key pivot v p q
  skipped-both key pivot v p q true e = absurd (ground arith)

  -- Behind the pivot nothing is left out.
  part_loop-behind :
      (key : A → ℕ) (pivot : A) (npivot i : ℕ) (l : List A) (p : Halves A) (q : A → Bool)
      → npivot < i
      → both q (part_loop key pivot npivot i l p) ≡ passing q l + both q p
  part_loop-behind key pivot npivot i [] p q h = omega arith
  part_loop-behind key pivot npivot i (v ∷ l) p q h =
      let other : (i == npivot) ≡ false = ground arith in
      let next = if i == npivot then p else part_step key pivot v p in
      part_loop-behind key pivot npivot (suc i) l next q (omega (arith, h))
      ∙ ap (λ m. passing q l + m) (skipped-both key pivot v p q (i == npivot) other)
      ∙ omega arith

  -- The pivot is left out, `k` places on.
  part_loop-both :
      (key : A → ℕ) (pivot : A) (npivot i k : ℕ) (l : List A) (p : Halves A) (q : A → Bool)
      → npivot ≡ i + k
      → get_elem? l k ≡ some pivot
      → bit (q pivot) + both q (part_loop key pivot npivot i l p) ≡ passing q l + both q p
  part_loop-both key pivot npivot i k [] p q h e = absurd (ground arith)
  part_loop-both key pivot npivot i zero (v ∷ l) p q h e =
      let next = if i == npivot then p else part_step key pivot v p in
      ap (λ m. bit (q pivot) + m)
        (part_loop-behind key pivot npivot (suc i) l next q (omega (arith, h))
          ∙ ap (λ b. passing q l + both q (if b then p else part_step key pivot v p)) (at_pivot h))
      ∙ omega (arith, same_bit e)
    where
      at_pivot : npivot ≡ i + 0 → (i == npivot) ≡ true
      at_pivot h = ground arith

      same_bit : some v ≡ some pivot → bit (q v) ≡ bit (q pivot)
      same_bit e = cc e
  part_loop-both key pivot npivot i (suc k) (v ∷ l) p q h e =
      let other : (i == npivot) ≡ false = ground (arith, h) in
      let next = if i == npivot then p else part_step key pivot v p in
      part_loop-both key pivot npivot (suc i) k l next q (omega (arith, h)) e
      ∙ ap (λ m. passing q l + m) (skipped-both key pivot v p q (i == npivot) other)
      ∙ omega arith

  pub parts-Parted :
      (key : A → ℕ) (pivot : A) (seq : List A) → Parted key pivot (parts key pivot seq)
  parts-Parted key pivot seq = part_loop-Parted key pivot (length seq / 2) 0 seq new_parts (tt, tt)

  pub parts-both :
      (key : A → ℕ) (pivot : A) (seq : List A) (q : A → Bool)
      → get_elem? seq (length seq / 2) ≡ some pivot
      → bit (q pivot) + passing q (parts key pivot seq).left + passing q (parts key pivot seq).right
        ≡ passing q seq
  parts-both key pivot seq q e = omega (
    arith,
    part_loop-both key pivot (length seq / 2) 0 (length seq / 2) seq new_parts q (omega arith) e,
  )
