-- ===== src/Ctree/Resize.antt =====
-- `CT_node_resize`: there is a place for the character, and the children are the same.
use siridb_server.Base.{
  ℕ, zero, suc, ◌+◌, ◌-◌, ◌*◌, ◌/◌, ◌≤◌, ◌<◌, ◌≡◌, refl, ap, sym, ◌∙◌, true, false, ◌||◌, none,
  arith, ltb, leb, inl, inr, Bool-cases,
}
use siridb_server.Ctree.{
  block_sz, Node, Nodes, node, nil, free, used, Resized, is_null, slot, free_before, free_behind,
  child, node_resize,
}
use siridb_server.Ctree.Child.{
  slots, slots-free_before, slots-free_behind, slot-before, slot-moved, slot-behind, slot-all_free,
  HasShape, InRange, child-out, child-slot,
}

module _ {A : Type 0} where
  -- The number of children.
  abbrev pub children : Nodes A → ℕ
  children nil = 0
  children (free ns) = children ns
  children (used c ns) = suc (children ns)

  -- Arrays have their length and counters are right, in the whole tree.
  abbrev mutual
    pub IsValid : Node A → Type 0
    IsValid (node key v s o n ns) = (s ≡ children ns) × HasShape n ns × AllValid ns

    pub AllValid : Nodes A → Type 0
    AllValid nil = Unit
    AllValid (free ns) = AllValid ns
    AllValid (used c ns) = IsValid c × AllValid ns

  children-before : (k : ℕ) (ns : Nodes A) → children (free_before k ns) ≡ children ns
  children-before zero ns = refl
  children-before (suc k) ns = children-before k ns

  children-behind : (k : ℕ) (ns : Nodes A) → children (free_behind k ns) ≡ children ns
  children-behind k nil = children-before k nil
  children-behind k (free ns) = children-behind k ns
  children-behind k (used c ns) = ap suc (children-behind k ns)

  pub before-AllValid : (k : ℕ) (ns : Nodes A) → AllValid ns → AllValid (free_before k ns)
  before-AllValid zero ns v = v
  before-AllValid (suc k) ns v = before-AllValid k ns v

  behind-AllValid : (k : ℕ) (ns : Nodes A) → AllValid ns → AllValid (free_behind k ns)
  behind-AllValid k nil v = before-AllValid k nil tt
  behind-AllValid k (free ns) v = behind-AllValid k ns v
  behind-AllValid k (used c ns) v = (v.0, behind-AllValid k ns v.1)

  -- The array has a place for `c`, and the children that it had.
  pub record Grown (o n : ℕ) (ns : Nodes A) (c : ℕ) (r : Resized A) : Type 0 where
    pub in_range : InRange r.1 r.2 r.3 c
    pub same : (k : ℕ) → child r.1 r.2 r.3 k ≡ child o n ns k
    pub counted : children r.3 ≡ children ns
    pub valid : AllValid ns → AllValid r.3

  pub no_child :
      (o n : ℕ) (ns : Nodes A) (k : ℕ) → ((i : ℕ) → slot ns i ≡ none) → child o n ns k ≡ none
  no_child o n ns k none_there =
      elim (Bool-cases (ltb (k / block_sz) o || leb (o + n) (k / block_sz))) [
        | inl out ↦ rw out refl
        | inr within ↦ rw within (none_there (k - o * block_sz))
      ]

  null-Grown : (o n c : ℕ) → Grown o n nil c (true, c / block_sz, 1, free_before block_sz nil)
  null-Grown o n c = record {
    in_range = (omega arith, omega arith, refl);
    same = λ k.
        no_child (c / block_sz) 1 (free_before block_sz nil) k (slot-all_free block_sz)
        ∙ sym (no_child o n nil k (λ i. refl));
    counted = refl;
    valid = λ v. tt;
  }

  moved :
      (o n : ℕ) (ns : Nodes A) (k pos : ℕ)
      → slots ns ≡ block_sz * n
      → pos < o
      → pos ≤ k / block_sz
      → slot (free_before (block_sz * (o - pos)) ns) (k - pos * block_sz) ≡ child o n ns k
  moved o n ns k pos s lt lo = elim (Bool-cases (ltb (k / block_sz) o)) [
    | inl out ↦
        slot-before (block_sz * (o - pos)) (k - pos * block_sz) ns (ground arith)
        ∙ sym (child-out o n ns k (inl (ground arith)))
    | inr at ↦
        let at' : o ≤ k / block_sz = ground arith in
        ap (slot (free_before (block_sz * (o - pos)) ns)) {x = k - pos * block_sz}
          {y = block_sz * (o - pos) + (k - o * block_sz)} (omega arith)
        ∙ slot-moved (block_sz * (o - pos)) (k - o * block_sz) ns
        ∙ sym (child-slot o n ns k s at')
  ]

  before-Grown :
      (o n : ℕ) (ns : Nodes A) (c : ℕ)
      → slots ns ≡ block_sz * n
      → c / block_sz < o
      → Grown o n ns c (
        true,
        c / block_sz,
        n + (o - c / block_sz),
        free_before (block_sz * (o - c / block_sz)) ns,
      )
  before-Grown o n ns c s lt =
      let pos = c / block_sz in
      let diff = block_sz * (o - pos) in
      let shape : slots (free_before diff ns) ≡ block_sz * (n + (o - pos)) =
        omega (arith, s, slots-free_before diff ns) in
      record {
        in_range = (omega arith, omega (arith, lt), shape);
        same = λ k. elim (Bool-cases (ltb (k / block_sz) pos)) [
          | inl out ↦
              child-out pos (n + (o - pos)) (free_before diff ns) k (inl (ground arith))
              ∙ sym (child-out o n ns k (inl (ground (arith, lt))))
          | inr lo ↦
              child-slot pos (n + (o - pos)) (free_before diff ns) k shape (ground arith)
              ∙ moved o n ns k pos s lt (ground arith)
        ];
        counted = children-before diff ns;
        valid = before-AllValid diff ns;
      }

  behind-Grown :
      (o n : ℕ) (ns : Nodes A) (c : ℕ)
      → slots ns ≡ block_sz * n
      → o + n ≤ c / block_sz
      → Grown o n ns c (
        true,
        o,
        n + (c / block_sz - o - n + 1),
        free_behind (block_sz * (c / block_sz - o - n + 1)) ns,
      )
  behind-Grown o n ns c s le =
      let more = c / block_sz - o - n + 1 in
      let diff = block_sz * more in
      let shape : slots (free_behind diff ns) ≡ block_sz * (n + more) =
        omega (arith, s, slots-free_behind diff ns) in
      record {
        in_range = (omega (arith, le), omega (arith, le), shape);
        same = λ k. elim (Bool-cases (ltb (k / block_sz) o)) [
          | inl out ↦
              child-out o (n + more) (free_behind diff ns) k (inl (ground arith))
              ∙ sym (child-out o n ns k (inl (ground arith)))
          | inr lo ↦
              let at : o ≤ k / block_sz = ground arith in
              child-slot o (n + more) (free_behind diff ns) k shape at
              ∙ slot-behind diff (k - o * block_sz) ns
              ∙ sym (child-slot o n ns k s at)
        ];
        counted = children-behind diff ns;
        valid = behind-AllValid diff ns;
      }

  kept-Grown :
      (o n : ℕ) (ns : Nodes A) (c : ℕ)
      → slots ns ≡ block_sz * n
      → o ≤ c / block_sz
      → c / block_sz < o + n
      → Grown o n ns c (true, o, n, ns)
  kept-Grown o n ns c s lo hi = record {
    in_range = (lo, hi, s);
    same = λ k. refl;
    counted = refl;
    valid = λ v. v;
  }

  resize_full :
      (o n : ℕ) (ns : Nodes A) (c : ℕ)
      → is_null ns ≡ false
      → slots ns ≡ block_sz * n
      → Grown o n ns c (node_resize true o n ns (c / block_sz))
  resize_full o n ns c there s = elim (Bool-cases (ltb (c / block_sz) o)) [
    | inl low ↦ rw (there, low) (before-Grown o n ns c s (ground arith))
    | inr lo ↦ elim (Bool-cases (leb (o + n) (c / block_sz))) [
      | inl high ↦ rw (there, lo, high) (behind-Grown o n ns c s (ground arith))
      | inr hi ↦ rw (there, lo, hi) (kept-Grown o n ns c s (ground arith) (ground arith))
    ]
  ]

  -- `CT_node_resize` of an array of the right length, where memory is given.
  pub node_resize_lem :
      (o n : ℕ) (ns : Nodes A) (c : ℕ)
      → HasShape n ns
      → Grown o n ns c (node_resize true o n ns (c / block_sz))
  node_resize_lem o n nil c shape = null-Grown o n c
  node_resize_lem o n (free ns) c (inl none_there) = absurd (ground arith)
  node_resize_lem o n (free ns) c (inr s) = resize_full o n (free ns) c refl s
  node_resize_lem o n (used ch ns) c (inl none_there) = absurd (ground arith)
  node_resize_lem o n (used ch ns) c (inr s) = resize_full o n (used ch ns) c refl s

  pub node_resize-done : (o n : ℕ) (ns : Nodes A) (pos : ℕ) → (node_resize true o n ns pos).0 ≡ true
  node_resize-done o n ns pos = elim (Bool-cases (is_null ns)) [
    | inl none_there ↦ rw none_there refl
    | inr there ↦ elim (Bool-cases (ltb pos o)) [
      | inl low ↦ rw (there, low) refl
      | inr lo ↦ elim (Bool-cases (leb (o + n) pos)) [
        | inl high ↦ rw (there, lo, high) refl
        | inr hi ↦ rw (there, lo, hi) refl
      ]
    ]
  ]
