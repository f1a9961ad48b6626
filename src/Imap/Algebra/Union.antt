-- ===== src/Imap/Algebra/Union.antt =====
-- `imap_union_ref` against the finite maps that two maps stand for.
use siridb_server.Base.{
  ℕ, zero, suc, ◌+◌, ◌%◌, ◌<◌, ◌≡◌, ◌≢◌, refl, ap, ap₂, sym, subst, ◌∙◌, inl, inr, false, Option,
  none, some, List, arith, Bool-cases, ℕ_discrete,
}
use siridb_server.Imap.Tree.{
  Node, Nodes, node, nil, cons, empty_node, size, key, value, nodes, index, is_null,
}
use siridb_server.Imap.Tree.Arrays
use siridb_server.Imap.Tree.Arrays.{count, AllValid, index-IsValid}
use siridb_server.Imap.Tree.Find.{child, found}
use siridb_server.Imap.Tree.Pop.{found-null}
use siridb_server.Imap.Algebra.{
  Release, Visit, Meet, ensure_node, each_child, each_root, visit_children, union_item, merge_below,
}

module _ {A : Type 0} where
  -- The first item that is there.
  abbrev pub or_else : Option A → Option A → Option A
  or_else none y = y
  or_else (some x) y = some x

  pub ensure_node-child : (n : Node A) (i : ℕ) → ensure_node n i ≡ child n i
  unfolding child
  ensure_node-child (node s k d ns) i = ground arith

  -- What holds of every visit holds of the child that the loop leaves.
  pub each_child-index :
      (Q : Node A → Type 0) (visit : Visit A) (s i : ℕ) (ns : Nodes A) (n : Node A) (j : ℕ)
      → j < count ns
      → ((t : ℕ) → Q (visit t (index ns j) (ensure_node n (i + j))).1)
      → Q (index (each_child visit s i ns n).1 j)
  unfolding each_child
  each_child-index Q visit s i nil n j h q = elim h [ ]
  each_child-index Q visit s i (cons d ds) n zero h q =
      subst (λ k. Q (visit s d (ensure_node n k)).1) (omega arith) (q s)
  each_child-index Q visit s i (cons d ds) n (suc j) h q =
      each_child-index Q visit (visit s d (ensure_node n i)).0 (i + 1) ds n j (omega arith)
        (λ t. subst (λ k. Q (visit t (index ds j) (ensure_node n k)).1) (omega arith) (q t))

  pub each_root-index :
      (Q : Node A → Type 0) (visit : Visit A) (s : ℕ) (ds ns : Nodes A) (j : ℕ)
      → j < count ds
      → count ds ≡ count ns
      → ((t : ℕ) → Q (visit t (index ds j) (index ns j)).1)
      → Q (index (each_root visit s ds ns).1 j)
  unfolding each_root
  each_root-index Q visit s nil ns j h e q = elim h [ ]
  each_root-index Q visit s (cons d ds) nil j h e q = absurd (omega arith)
  each_root-index Q visit s (cons d ds) (cons n ns) zero h e q = q s
  each_root-index Q visit s (cons d ds) (cons n ns) (suc j) h e q =
      each_root-index Q visit (visit s d n).0 ds ns j (omega arith) (omega arith) q

  child-full :
      (s k j : ℕ) (x : Option A) (ns : Nodes A) → k ≡ 32 → child (node s k x ns) j ≡ index ns j
  unfolding child
  child-full s k j x ns e = ground arith

  child-single :
      (s k j : ℕ) (x : Option A) (ns : Nodes A)
      → k ≢ 32
      → k ≡ j
      → child (node s k x ns) j ≡ index ns 0
  unfolding child
  child-single s k j x ns h e = ground arith

  pub child-absent :
      (s k j : ℕ) (x : Option A) (ns : Nodes A)
      → k ≢ 32
      → k ≢ j
      → child (node s k x ns) j ≡ empty_node
  unfolding child
  child-absent s k j x ns h e = ground arith

  -- The array of a valid node has its length, if it is there.
  pub count-full :
      (s k : ℕ) (x : Option A) (ns : Nodes A)
      → Arrays.IsValid (node s k x ns)
      → is_null ns ≡ false
      → (k ≡ 32 → count ns ≡ 32) × (k ≢ 32 → (k < 32) × (count ns ≡ 1))
  count-full s k x nil v h = absurd (ground arith)
  count-full s k x (cons c ns) v h = (λ e. ground arith, λ ne. (ground arith, ground arith))

  -- The child `j` after the loop over the children of a valid node: visited, or absent as before.
  pub visit_children-child :
      (Q : Node A → Type 0) (visit : Visit A) (d n : Node A) (j : ℕ)
      → j < 32
      → Arrays.IsValid d
      → is_null (nodes d) ≡ false
      → ((t : ℕ) → Q (visit t (child d j) (child n j)).1)
      → (key d ≢ 32 → key d ≢ j → Q empty_node)
      → Q (child (visit_children visit d n).0 j)
  visit_children-child Q visit (node s k x ns) n j h v full q absent =
      let counts = count-full s k x ns v full in
      elim (ℕ_discrete k 32) [
        | yes e ↦ subst Q (sym (child-full _ k j x _ e)) (
            each_child-index Q visit s (k % 32) ns n j (omega (arith, counts.0 e)) (λ t.
              subst Q
                (ap₂ (λ a b. (visit t a b).1) (child-full s k j x ns e)
                  (sym (ensure_node-child n j) ∙ ap (ensure_node n) (omega arith)))
                (q t)))
        | no ne ↦ elim (ℕ_discrete k j) [
          | yes e ↦ subst Q (sym (child-single _ k j x _ ne e)) (
              each_child-index Q visit s (k % 32) ns n 0 (omega (arith, (counts.1 ne).1)) (λ t.
                subst Q
                  (ap₂ (λ a b. (visit t a b).1) (child-single s k j x ns ne e)
                    (sym (ensure_node-child n j) ∙ ap (ensure_node n) (omega arith)))
                  (q t)))
          | no ne' ↦ subst Q (sym (child-absent _ k j x _ ne ne')) (absent ne ne')
        ]
      ]

  -- The item of a node does not matter below it.
  found-same :
      (depth s s' k i : ℕ) (x y : Option A) (ns : Nodes A)
      → found depth (node s k x ns) i ≡ found depth (node s' k y ns) i
  unfolding child
  found-same depth s s' k i x y ns = refl

  pub union_item-value :
      (w t : ℕ) (d : Node A) (o : Option A) → value (union_item w t d o).1 ≡ or_else (value d) o
  union_item-value w t (node s k none ds) none = refl
  union_item-value w t (node s k (some x) ds) none = refl
  union_item-value w t (node s k none ds) (some y) = refl
  union_item-value w t (node s k (some x) ds) (some y) = refl

  pub union_item-found :
      (depth w t : ℕ) (d : Node A) (o : Option A) (i : ℕ)
      → found depth (union_item w t d o).1 i ≡ found depth d i
  union_item-found depth w t d none i = refl
  union_item-found depth w t (node s k none ds) (some y) i = found-same depth s s k i _ _ ds
  union_item-found depth w t (node s k (some x) ds) (some y) i = refl

  pub union_item-IsValid :
      (w t : ℕ) (d : Node A) (o : Option A)
      → Arrays.IsValid d
      → Arrays.IsValid (union_item w t d o).1
  union_item-IsValid w t d none v = v
  union_item-IsValid w t (node s k none ds) (some y) v = v
  union_item-IsValid w t (node s k (some x) ds) (some y) v = v

  found-taken :
      (depth i : ℕ) (x : Option A) (n : Node A)
      → found depth (node (size n) (key n) x (nodes n)) i ≡ found depth n i
  found-taken depth i x (node s k y ns) = found-same depth s s k i x y ns

  -- A function on two nodes with children that unites what is below them.
  abbrev pub Unites : ℕ → Meet A → Type 0
  Unites depth meet =
      (d n : Node A)
      → Arrays.IsValid d
      → is_null (nodes d) ≡ false
      → (value (meet d n).0 ≡ value d)
        × ((i : ℕ) → found depth (meet d n).0 i ≡ or_else (found depth d i) (found depth n i))

  pub or_else-none : (o : Option A) → or_else o none ≡ o
  or_else-none none = refl
  or_else-none (some x) = refl

  pub merge_below-Unites :
      (depth w t : ℕ) (meet : Meet A) (d n : Node A) (e : List (Release A))
      → Unites depth meet
      → Arrays.IsValid d
      → (value (merge_below meet w (t, d, e) n).1 ≡ value d)
        × ((i : ℕ)
            → found depth (merge_below meet w (t, d, e) n).1 i
              ≡ or_else (found depth d i) (found depth n i))
  merge_below-Unites depth w t meet d n e u v = elim (Bool-cases (is_null (nodes n))) [
    | inl none_n ↦ rw none_n (refl, λ i. rw (found-null depth n i none_n) (sym (or_else-none _)))
    | inr some_n ↦ elim (Bool-cases (is_null (nodes d))) [
      | inl none_d ↦
          rw (some_n, none_d)
            (refl, λ i. rw (found-null depth d i none_d) (found-taken depth i (value d) n))
      | inr some_d ↦ rw (some_n, some_d) (u d n v some_d)
    ]
  ]
