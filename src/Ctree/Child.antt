-- ===== src/Ctree/Child.antt =====
-- The children of a node: places that are read, written, and moved to a larger array.
use siridb_server.Base.{
  ℕ, zero, suc, ◌+◌, ◌-◌, ◌*◌, ◌/◌, ◌≤◌, ◌<◌, ◌≡◌, ◌≢◌, refl, ap, sym, subst, ◌∙◌, true, false,
  ◌||◌, Option, none, some, arith, ltb, leb, ◌⊎◌, inl, inr, Bool-cases,
}
use siridb_server.Ctree.{
  block_sz, Node, Nodes, nil, free, used, slot, cons_slot, put_slot, free_before, free_behind,
  child,
}

module _ {A : Type 0} where
  abbrev pub slots : Nodes A → ℕ
  slots nil = 0
  slots (free ns) = suc (slots ns)
  slots (used c ns) = suc (slots ns)

  slots-cons_slot : (v : Option (Node A)) (ns : Nodes A) → slots (cons_slot v ns) ≡ suc (slots ns)
  slots-cons_slot none ns = refl
  slots-cons_slot (some c) ns = refl

  pub slots-put_slot :
      (ns : Nodes A) (i : ℕ) (v : Option (Node A)) → slots (put_slot ns i v) ≡ slots ns
  slots-put_slot nil i v = refl
  slots-put_slot (free ns) zero v = slots-cons_slot v ns
  slots-put_slot (free ns) (suc i) v = ap suc (slots-put_slot ns i v)
  slots-put_slot (used c ns) zero v = slots-cons_slot v ns
  slots-put_slot (used c ns) (suc i) v = ap suc (slots-put_slot ns i v)

  pub slot-cons_zero : (v : Option (Node A)) (ns : Nodes A) → slot (cons_slot v ns) 0 ≡ v
  slot-cons_zero none ns = refl
  slot-cons_zero (some c) ns = refl

  slot-cons_suc :
      (v : Option (Node A)) (ns : Nodes A) (i : ℕ) → slot (cons_slot v ns) (suc i) ≡ slot ns i
  slot-cons_suc none ns i = refl
  slot-cons_suc (some c) ns i = refl

  pub slot-put_self :
      (ns : Nodes A) (i : ℕ) (v : Option (Node A)) → i < slots ns → slot (put_slot ns i v) i ≡ v
  slot-put_self nil i v h = absurd (omega arith)
  slot-put_self (free ns) zero v h = slot-cons_zero v ns
  slot-put_self (free ns) (suc i) v h = slot-put_self ns i v (omega arith)
  slot-put_self (used c ns) zero v h = slot-cons_zero v ns
  slot-put_self (used c ns) (suc i) v h = slot-put_self ns i v (omega arith)

  pub slot-put_ne :
      (ns : Nodes A) (i j : ℕ) (v : Option (Node A)) → i ≢ j → slot (put_slot ns i v) j ≡ slot ns j
  slot-put_ne nil i j v h = refl
  slot-put_ne (free ns) zero zero v h = absurd (h refl)
  slot-put_ne (free ns) zero (suc j) v h = slot-cons_suc v ns j
  slot-put_ne (free ns) (suc i) zero v h = refl
  slot-put_ne (free ns) (suc i) (suc j) v h = slot-put_ne ns i j v (λ e. h (ap suc e))
  slot-put_ne (used c ns) zero zero v h = absurd (h refl)
  slot-put_ne (used c ns) zero (suc j) v h = slot-cons_suc v ns j
  slot-put_ne (used c ns) (suc i) zero v h = refl
  slot-put_ne (used c ns) (suc i) (suc j) v h = slot-put_ne ns i j v (λ e. h (ap suc e))

  pub slots-free_before : (k : ℕ) (ns : Nodes A) → slots (free_before k ns) ≡ k + slots ns
  slots-free_before zero ns = omega arith
  slots-free_before (suc k) ns = omega (arith, slots-free_before k ns)

  pub slots-free_behind : (k : ℕ) (ns : Nodes A) → slots (free_behind k ns) ≡ k + slots ns
  slots-free_behind k nil = slots-free_before k nil
  slots-free_behind k (free ns) = omega (arith, slots-free_behind k ns)
  slots-free_behind k (used c ns) = omega (arith, slots-free_behind k ns)

  pub slot-before : (k i : ℕ) (ns : Nodes A) → i < k → slot (free_before k ns) i ≡ none
  slot-before zero i ns h = absurd (omega arith)
  slot-before (suc k) zero ns h = refl
  slot-before (suc k) (suc i) ns h = slot-before k i ns (omega arith)

  pub slot-moved : (k i : ℕ) (ns : Nodes A) → slot (free_before k ns) (k + i) ≡ slot ns i
  slot-moved zero i ns = ap (slot ns) {x = 0 + i} (omega arith)
  slot-moved (suc k) i ns =
      subst (λ j. slot (free_before (suc k) ns) j ≡ slot ns i) {x = suc (k + i)} (omega arith)
        (slot-moved k i ns)

  pub slot-beyond : (ns : Nodes A) (i : ℕ) → slots ns ≤ i → slot ns i ≡ none
  slot-beyond nil i h = refl
  slot-beyond (free ns) zero h = absurd (omega arith)
  slot-beyond (free ns) (suc i) h = slot-beyond ns i (omega arith)
  slot-beyond (used c ns) zero h = absurd (omega arith)
  slot-beyond (used c ns) (suc i) h = slot-beyond ns i (omega arith)

  pub slot-all_free : (k i : ℕ) → slot {A = A} (free_before k nil) i ≡ none
  slot-all_free zero i = refl
  slot-all_free (suc k) zero = refl
  slot-all_free (suc k) (suc i) = slot-all_free k i

  pub slot-behind : (k i : ℕ) (ns : Nodes A) → slot (free_behind k ns) i ≡ slot ns i
  slot-behind k i nil = slot-all_free k i
  slot-behind k zero (free ns) = refl
  slot-behind k (suc i) (free ns) = slot-behind k i ns
  slot-behind k zero (used c ns) = refl
  slot-behind k (suc i) (used c ns) = slot-behind k i ns

  -- The array is not there, or has `n` blocks.
  abbrev pub HasShape : ℕ → Nodes A → Type 0
  HasShape n ns = (slots ns ≡ 0) ⊎ (slots ns ≡ block_sz * n)

  -- `k` has a place.
  abbrev pub InRange : ℕ → ℕ → Nodes A → ℕ → Type 0
  InRange o n ns k = (o ≤ k / block_sz) × (k / block_sz < o + n) × (slots ns ≡ block_sz * n)

  pub child-here :
      (o n : ℕ) (ns : Nodes A) (k : ℕ)
      → o ≤ k / block_sz
      → k / block_sz < o + n
      → child o n ns k ≡ slot ns (k - o * block_sz)
  child-here o n ns k lo hi =
      let in_range : (ltb (k / block_sz) o || leb (o + n) (k / block_sz)) ≡ false = ground arith in
      rw in_range refl

  pub child-out :
      (o n : ℕ) (ns : Nodes A) (k : ℕ)
      → (k / block_sz < o) ⊎ (o + n ≤ k / block_sz)
      → child o n ns k ≡ none
  child-out o n ns k out =
      let out_of_range : (ltb (k / block_sz) o || leb (o + n) (k / block_sz)) ≡ true =
        ground arith in
      rw out_of_range refl

  -- Where the places are all there, the test of the range makes no difference behind the first.
  pub child-slot :
      (o n : ℕ) (ns : Nodes A) (k : ℕ)
      → slots ns ≡ block_sz * n
      → o ≤ k / block_sz
      → child o n ns k ≡ slot ns (k - o * block_sz)
  child-slot o n ns k s lo = elim (Bool-cases (leb (o + n) (k / block_sz))) [
    | inl out ↦
        child-out o n ns k (inr (ground arith))
        ∙ sym (slot-beyond ns (k - o * block_sz) (ground arith))
    | inr within ↦ child-here o n ns k lo (ground arith)
  ]

  pub child-put_self :
      (o n : ℕ) (ns : Nodes A) (k : ℕ) (v : Option (Node A))
      → InRange o n ns k
      → child o n (put_slot ns (k - o * block_sz) v) k ≡ v
  child-put_self o n ns k v (lo, hi, s) =
      child-here o n (put_slot ns (k - o * block_sz) v) k lo hi
      ∙ slot-put_self ns (k - o * block_sz) v (omega (arith, s))

  pub child-put_ne :
      (o n : ℕ) (ns : Nodes A) (k j : ℕ) (v : Option (Node A))
      → o ≤ k / block_sz
      → j ≢ k
      → child o n (put_slot ns (k - o * block_sz) v) j ≡ child o n ns j
  child-put_ne o n ns k j v lo h =
      elim (Bool-cases (ltb (j / block_sz) o || leb (o + n) (j / block_sz))) [
        | inl out ↦ rw out refl
        | inr within ↦
            let at : o ≤ j / block_sz = ground arith in
            rw within (
              slot-put_ne ns (k - o * block_sz) (j - o * block_sz) v
                (λ e. h (omega (arith, e, lo, at))))
      ]
