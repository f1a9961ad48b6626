-- ===== src/Imap/Algebra/UnionNode.antt =====
-- `IMAP_union_ref` and `imap_union_ref` against the finite maps that nodes and maps stand for.
use siridb_server.Base.{
  ℕ, zero, suc, ◌-◌, ◌/◌, ◌%◌, ◌^◌, ◌<◌, ◌≡◌, ◌≢◌, refl, ap, sym, ◌∙◌, inl, inr, false, Option,
  none, some, ◌==◌, arith, Bool-cases, ◌⊎◌,
}
use siridb_server.Imap.{Imap, levels, imap_get}
use siridb_server.Imap.Tree.{
  Node, Nodes, node, nil, cons, empty_node, key, value, nodes, index, is_null, node_get, node_grow,
}
use siridb_server.Imap.Tree.Arrays
use siridb_server.Imap.Tree.Arrays.{index-IsValid, items-index-le}
use siridb_server.Imap.Tree.Find.{child, found, node_get-found, child-IsValid, node_get-none}
use siridb_server.Imap.Tree.Place.{child-grow, node_grow-IsValid}
use siridb_server.Imap.Valid.{IsValid}
use siridb_server.Imap.Algebra.{
  Visit, Meet, visit_children, make_room, union_item, union_visit, union_node, imap_union_ref,
}
use siridb_server.Imap.Algebra.Union.{
  or_else, Unites, union_item-value, union_item-found, union_item-IsValid, merge_below-Unites,
  visit_children-child, each_root-index, child-absent, count-full, or_else-none,
}

module _ {A : Type 0} where
  union_visit-get :
      (depth w t : ℕ) (meet : Meet A) (d n : Node A) (i : ℕ)
      → Unites depth meet
      → Arrays.IsValid d
      → node_get (suc depth) (union_visit meet w t d n).1 i
        ≡ or_else (node_get (suc depth) d i) (node_get (suc depth) n i)
  union_visit-get depth w t meet d n i u v =
      let item = union_item w t d (value n) in
      let (same, met) =
        merge_below-Unites depth w item.0 meet item.1 n item.2 u
          (union_item-IsValid w t d (value n) v) in
      rw
        (
          node_get-found depth (union_visit meet w t d n).1 i,
          node_get-found depth d i,
          node_get-found depth n i,
        )
        (elim (Bool-cases (i / 32 == 0)) [
          | inl e ↦ rw e (same ∙ union_item-value w t d (value n))
          | inr ne ↦ rw ne (
              met (i / 32 - 1)
              ∙ ap (λ o. or_else o (found depth n (i / 32 - 1)))
                  (union_item-found depth w t d (value n) (i / 32 - 1)))
        ])

  make_room-cases :
      (d n : Node A)
      → Arrays.IsValid d
      → is_null (nodes d) ≡ false
      → (make_room d n ≡ d) ⊎ ((key d < 32) × (make_room d n ≡ node_grow d))
  make_room-cases (node s k x nil) n v h = absurd (ground arith)
  make_room-cases (node s k x (cons c ns)) n v h = ground arith

  make_room-child :
      (d n : Node A) (j : ℕ)
      → j < 32
      → Arrays.IsValid d
      → is_null (nodes d) ≡ false
      → child (make_room d n) j ≡ child d j
  make_room-child (node s k x ns) n j hj v h = elim (make_room-cases (node s k x ns) n v h) [
    | inl e ↦ rw e refl
    | inr grown ↦ rw (grown.1) (child-grow s k j x ns grown.0 hj)
  ]

  make_room-key : (d n : Node A) → key (make_room d n) ≢ 32 → key n ≡ key (make_room d n)
  unfolding node_grow
  make_room-key (node s k x ns) n h = ground arith

  grown-there :
      (s k : ℕ) (x : Option A) (ns : Nodes A) → is_null (nodes (node_grow (node s k x ns))) ≡ false
  unfolding node_grow
  grown-there s zero x ns = refl
  grown-there s (suc k) x ns = refl

  make_room-IsValid :
      (d n : Node A)
      → Arrays.IsValid d
      → is_null (nodes d) ≡ false
      → Arrays.IsValid (make_room d n)
        × (is_null (nodes (make_room d n)) ≡ false)
        × (value (make_room d n) ≡ value d)
  make_room-IsValid (node s k x ns) n v h = elim (make_room-cases (node s k x ns) n v h) [
    | inl e ↦ rw e (v, h, refl)
    | inr (small, e) ↦ rw e (
      (node_grow-IsValid s k x ns small
          (((count-full s k x ns v h).1 (λ big. absurd (omega arith))).1) v).0,
      grown-there s k x ns,
      unfold node_grow in refl,
    )
  ]

  visit_children-value :
      (visit : Visit A) (d n : Node A) → value (visit_children visit d n).0 ≡ value d
  visit_children-value visit (node s k x ns) n = refl

  or_else-same : (o : Option A) → o ≡ or_else o o
  or_else-same none = refl
  or_else-same (some x) = refl

  -- Both children are absent where the loop has not been.
  absent_both :
      (depth : ℕ) (r n : Node A) (j i : ℕ)
      → key n ≡ key r
      → key r ≢ 32
      → key r ≢ j
      → node_get (suc depth) (empty_node {A = A}) i
        ≡ or_else (node_get (suc depth) (child r j) i) (node_get (suc depth) (child n j) i)
  absent_both depth (node s k x ds) (node t l y ns) j i e h h' =
      rw
        (
          child-absent s k j x ds h h',
          child-absent t l j y ns (λ f. h (sym e ∙ f)) (λ f. h' (sym e ∙ f)),
        )
        (or_else-same _)

  pub union_node-Unites : (depth : ℕ) → Unites depth (union_node {A = A} depth)
  unfolding union_node
  union_node-Unites zero d n v h = (refl, λ i. unfold node_get in refl)
  union_node-Unites (suc depth) d n v h =
      let (rv, rh, same) = make_room-IsValid d n v h in
      (
        visit_children-value _ (make_room d n) n ∙ same,
        λ i.
            visit_children-child
              (λ c.
                node_get (suc depth) c i ≡ or_else (found (suc depth) d i) (found (suc depth) n i))
              (union_visit (union_node depth) (2 ^ 32)) (make_room d n) n (i % 32) (omega arith) rv
              rh
              (λ t.
                union_visit-get depth (2 ^ 32) t (union_node depth) (child (make_room d n) (i % 32))
                  (child n (i % 32)) i (union_node-Unites depth)
                  (child-IsValid (make_room d n) (i % 32) rv)
                ∙ ap (λ c. or_else (node_get (suc depth) c i) (found (suc depth) n i))
                    (make_room-child d n (i % 32) (omega arith) v h))
              (λ ne ne'.
                absent_both depth (make_room d n) n (i % 32) i (make_room-key d n ne) ne ne'
                ∙ ap (λ c. or_else (node_get (suc depth) c i) (found (suc depth) n i))
                    (make_room-child d n (i % 32) (omega arith) v h)),
      )

  empty-imap_get : (m : Imap A) (i : ℕ) → IsValid m → m.len ≡ 0 → imap_get m i ≡ none
  unfolding imap_get
  empty-imap_get m i v h =
      node_get-none (suc levels) (index m.roots (i % 32)) i
        (omega (arith, items-index-le m.roots (i % 32), v.len_counts))

  -- The union of two valid maps: at every id it holds the item of `dest`, or where `dest` has none,
  -- that of the other map.
  pub imap_union_ref_lem :
      (dest imap : Imap A) (i : ℕ)
      → IsValid dest
      → IsValid imap
      → imap_get (imap_union_ref dest imap).0 i ≡ or_else (imap_get dest i) (imap_get imap i)
  unfolding imap_union_ref imap_get
  imap_union_ref_lem dest imap i vd vi = elim (Bool-cases (imap.len == 0)) [
    | inl e ↦
        rw (e, imap_union_ref, empty-imap_get imap i vi (ground arith))
          (sym (or_else-none (imap_get dest i)))
    | inr ne ↦
        rw (ne, imap_union_ref)
          (each_root-index
            (λ c. node_get (suc levels) c i ≡ or_else (imap_get dest i) (imap_get imap i))
            (union_visit (union_node levels) (2 ^ 64)) dest.len dest.roots imap.roots (i % 32)
            (omega (arith, vd.roots_there)) (vd.roots_there ∙ sym vi.roots_there)
            (λ t.
              union_visit-get levels (2 ^ 64) t (union_node levels) (index dest.roots (i % 32))
                (index imap.roots (i % 32)) i (union_node-Unites levels)
                (index-IsValid dest.roots (i % 32) vd.nodes_valid)))
  ]
