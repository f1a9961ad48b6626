-- ===== src/Imap/Tree/Pop.antt =====
-- `IMAP_pop`: contents, counters, result.
use siridb_server.Base.{
  ℕ, zero, suc, ◌+◌, ◌-◌, ◌/◌, ◌%◌, ◌^◌, ◌<◌, ◌≡◌, refl, ap, sym, ◌∙◌, inl, inr, true, false, ◌||◌,
  Option, none, some, ◌==◌, if◌then◌else◌, arith, Bool-cases, ℕ_discrete,
}
use siridb_server.Imap.Tree.{
  Node, node, nil, cons, value, nodes, with_value, is_none, is_null, get_node, drop_child,
  unsafe_node, node_get, node_pop,
}
use siridb_server.Imap.Tree.Arrays.{IsValid, total, items}
use siridb_server.Imap.Tree.Find.{child, found, node_get-found, node_get-none, child-IsValid}
use siridb_server.Imap.Tree.Child.{items-node, total-child-le, with_value-get, with_value-IsValid}
use siridb_server.Imap.Tree.Drop.{get_node-cases, get_node-IsPlaced, drop_child_lem}

module _ {A : Type 0} where
  pub found-null :
      (depth : ℕ) (n : Node A) (i : ℕ) → is_null (nodes n) ≡ true → found depth n i ≡ none
  found-null depth (node s k d nil) i h =
      node_get-none depth (child (node s k d nil) (i % 32)) i (unfold child in ground arith)
  found-null depth (node s k d (cons c cs)) i h = cc

  -- `IMAP_pop` returns what the children hold at the id.
  pub node_pop-result : (depth : ℕ) (n : Node A) (i : ℕ) → (node_pop depth n i).0 ≡ found depth n i
  unfolding node_pop
  node_pop-result zero n i = unfold node_get in refl
  node_pop-result (suc depth) n i = elim (get_node-cases n (i % 32)) [
    | inl (e, absent) ↦
        rw (e, node_pop) (sym (node_get-none (suc depth) (child n (i % 32)) i (rw absent refl)))
    | inr (e, _) ↦
        let c = child n (i % 32) in
        rw (e, node_pop)
          (ground (
            arith,
            node_get-found depth c i,
            node_pop-result depth c (i / 32 - 1),
            found-null depth c (i / 32 - 1),
          ))
  ]

  pub without_value-items :
      (n : Node A) → is_none (value n) ≡ false → items (with_value n none) + 1 ≡ items n
  without_value-items (node s k d ns) h = ground arith

  -- The pop of a child that gave an item, seen from the node above.
  pop_step :
      (n c : Node A) (i : ℕ)
      → IsValid n
      → IsValid c
      → get_node n (i % 32) ≡ some (child n (i % 32))
      → child n (i % 32) ≡ unsafe_node n (i % 32)
      → items c + 1 ≡ items (child n (i % 32))
      → total (nodes n) < 2 ^ 32
      → let n' = drop_child n (i % 32) c in
        IsValid n'
        × (total (nodes n') + 1 ≡ total (nodes n))
        × ((depth j : ℕ)
            → found depth n' j ≡ (if i % 32 == j % 32 then node_get depth c j else found depth n j))
  pop_step n c i v vc e same less small =
      let e' : items (child n (i % 32)) ≡ items (unsafe_node n (i % 32)) = ap items same in
      drop_child_lem n c i (get_node-IsPlaced n (i % 32) v (omega (arith, e', less)) e) v vc
        (omega (arith, e', less)) small

  drop_child-value : (n c : Node A) (i : ℕ) → value (drop_child n i c) ≡ value n
  drop_child-value (node s k d ns) c i = refl

  pub node_pop-value : (depth : ℕ) (n : Node A) (i : ℕ) → value (node_pop depth n i).1 ≡ value n
  unfolding node_pop
  node_pop-value zero n i = refl
  node_pop-value (suc depth) n i = elim (get_node-cases n (i % 32)) [
    | inl (e, _) ↦ rw (e, node_pop)
    | inr (e, _) ↦
        let c = child n (i % 32) in
        rw (e, node_pop)
          (ground (
            arith,
            drop_child-value n (with_value c none) (i % 32),
            drop_child-value n (node_pop depth c (i / 32 - 1)).1 (i % 32),
          ))
  ]

  -- What a pop does: counters, and contents.
  abbrev pub Popped : ℕ → Node A → ℕ → Option A × Node A → Type 0
  Popped depth n i (r, n') =
      IsValid n'
      × (total (nodes n') + (if is_none r then 0 else 1) ≡ total (nodes n))
      × ((j : ℕ) → found depth n' j ≡ (if i == j then none else found depth n j))

  nothing-Popped :
      (depth : ℕ) (n : Node A) (i : ℕ)
      → IsValid n
      → found depth n i ≡ none
      → Popped depth n i (none, n)
  nothing-Popped depth n i v e = (
    v,
    omega arith,
    λ j. elim (ℕ_discrete i j) [
      | yes same ↦ let e' = ap (found depth n) same in ground arith
      | no ne ↦ ground arith
    ],
  )

  -- `IMAP_pop` removes the id from what the children hold, and counts it off where it was there.
  pub node_pop-Popped :
      (depth : ℕ) (n : Node A) (i : ℕ)
      → IsValid n
      → total (nodes n) < 2 ^ 32
      → Popped depth n i (node_pop depth n i)
  unfolding node_pop
  node_pop-Popped zero n i v small = nothing-Popped 0 n i v (unfold node_get in refl)
  node_pop-Popped (suc depth) n i v small = elim (get_node-cases n (i % 32)) [
    | inl (e, absent) ↦
        rw (e, node_pop)
          (nothing-Popped (suc depth) n i v
            (node_get-none (suc depth) (child n (i % 32)) i (rw absent refl)))
    | inr (e, same) ↦
        let c = child n (i % 32) in
        let vc = child-IsValid n (i % 32) v in
        let deeper = node_pop depth c (i / 32 - 1) in
        elim (Bool-cases (i / 32 == 0)) [
          | inl leaf ↦ elim (Bool-cases (is_none (value c))) [
            | inl none_here ↦
                rw (e, leaf, none_here, node_pop)
                  (nothing-Popped (suc depth) n i v (ground (arith, node_get-found depth c i)))
            | inr here ↦
                let (vn, tn, fn) =
                  pop_step n (with_value c none) i v (with_value-IsValid c none vc) e same
                    (without_value-items c here) small in
                rw (e, leaf, here, node_pop)
                  (
                    vn,
                    ground arith,
                    λ j. fn (suc depth) j ∙ ground (arith, with_value-get depth j c none),
                  )
          ]
          | inr deep ↦ elim (Bool-cases (is_null (nodes c) || is_none deeper.0)) [
            | inl none_there ↦
                rw (e, deep, none_there, node_pop)
                  (nothing-Popped (suc depth) n i v (
                    ground (
                      arith,
                      node_get-found depth c i,
                      node_pop-result depth c (i / 32 - 1),
                      found-null depth c (i / 32 - 1),
                    )))
            | inr there ↦
                let some_there : is_none deeper.0 ≡ false = ground arith in
                let (vd, td, fd) =
                  node_pop-Popped depth c (i / 32 - 1) vc
                    (omega (arith, items-node c, ap items same, total-child-le n (i % 32))) in
                let kept = node_pop-value depth c (i / 32 - 1) in
                let (vn, tn, fn) =
                  pop_step n deeper.1 i v vd e same
                    (ground (arith, items-node c, items-node deeper.1, kept, td, some_there))
                    small in
                rw (e, deep, there, node_pop)
                  (
                    vn,
                    ground (arith, some_there, tn),
                    λ j.
                        fn (suc depth) j
                        ∙ ground (
                          arith,
                          node_get-found depth deeper.1 j,
                          node_get-found depth c j,
                          fd (j / 32 - 1),
                          kept,
                        ),
                  )
          ]
        ]
  ]

  -- A pop that returns NULL has changed nothing.
  pub node_pop-none :
      (depth : ℕ) (n : Node A) (i : ℕ) → (node_pop depth n i).0 ≡ none → (node_pop depth n i).1 ≡ n
  unfolding node_pop
  node_pop-none zero n i = λ h. refl
  node_pop-none (suc depth) n i = elim (get_node-cases n (i % 32)) [
    | inl (e, _) ↦ rw (e, node_pop) (λ h. refl)
    | inr (e, _) ↦ rw (e, node_pop) (λ h. ground arith)
  ]
