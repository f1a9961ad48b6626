-- ===== src/Imap/Tree/Add.antt =====
-- `IMAP_add`: contents, counters, code.
use siridb_server.Base.{
  ℕ, zero, suc, ◌+◌, ◌-◌, ◌/◌, ◌%◌, ◌^◌, ◌≤◌, ◌<◌, ◌≡◌, ◌≢◌, refl, ap, ◌∙◌, ◌⊎◌, inl, inr, Bool,
  true, Option, none, some, ◌==◌, if◌then◌else◌, arith, Bool-cases,
}
use siridb_server.Imap.Tree.{
  Node, value, nodes, with_value, is_none, ensure_place, unsafe_node, node_add, add_ok, add_exists,
  add_no_mem, AddRc, add_grown,
}
use siridb_server.Imap.Tree.Arrays.{IsValid, total}
use siridb_server.Imap.Tree.Find.{found, node_get-found}
use siridb_server.Imap.Tree.Place.{ensure_place-IsValid}
use siridb_server.Imap.Tree.Child.{
  ensure_place-found, ensure_place-value, set_child-value, found-set_child, with_value-get,
  items-node, total-child-le, set_child-IsValid, with_value-items, with_value-IsValid,
}
use siridb_server.Imap.Tree.SetCount.{reach, ensure_place-mem}

pub add_grown-le : (rc : AddRc) → add_grown rc ≤ 1
add_grown-le add_ok = omega arith
add_grown-le add_exists = omega arith
add_grown-le add_no_mem = omega arith

module _ {A : Type 0} where
  abbrev pub add_found : AddRc → ℕ → ℕ → A → Option A → Option A
  add_found add_ok i j x old = if i == j then some x else old
  add_found add_exists i j x old = old
  add_found add_no_mem i j x old = old

  abbrev pub add_code : Option A → AddRc
  add_code none = add_ok
  add_code (some y) = add_exists

  pub node_add-value :
      (depth : ℕ) (mem : ℕ → Bool) (n : Node A) (i : ℕ) (x : A)
      → value (node_add depth mem n i x).1 ≡ value n
  unfolding node_add
  node_add-value zero mem n i x = refl
  node_add-value (suc depth) mem n i x =
      let n' = (ensure_place (mem depth) n (i % 32)).1 in
      let c = unsafe_node n' (i % 32) in
      let deeper = node_add depth mem c (i / 32 - 1) x in
      ground (
        arith,
        ensure_place-value (mem depth) n (i % 32),
        set_child-value n' (with_value c (some x)) (i % 32) 1,
        set_child-value n' deeper.1 (i % 32) (add_grown deeper.0),
      )

  -- `IMAP_add` changes what the children hold at its id alone, and only when it returns 0.
  pub node_add-found :
      (depth : ℕ) (mem : ℕ → Bool) (n : Node A) (i j : ℕ) (x : A)
      → IsValid n
      → let (rc, n') = node_add depth mem n i x in
        found depth n' j ≡ add_found rc i j x (found depth n j)
  unfolding node_add
  node_add-found zero mem n i j x v = refl
  node_add-found (suc depth) mem n i j x v =
      let made = ensure_place (mem depth) n (i % 32) in
      let c = unsafe_node made.1 (i % 32) in
      let deeper = node_add depth mem c (i / 32 - 1) x in
      let before = ensure_place-found (mem depth) n i (suc depth) j v in
      elim (Bool-cases made.0) [
        | inr no_mem ↦ rw (no_mem, node_add) before.0
        | inl ok ↦
            let (p, vc, same) = before.1 ok in
            elim (Bool-cases (i / 32 == 0)) [
              | inl leaf ↦
                  rw (ok, leaf, node_add)
                    (ground (
                      arith,
                      found-set_child (suc depth) made.1 (with_value c (some x)) i j 1 p,
                      with_value-get depth j c (some x),
                      same,
                      before.0,
                    ))
              | inr deep ↦
                  rw (ok, deep, node_add)
                    (ground (
                      arith,
                      found-set_child (suc depth) made.1 deeper.1 i j (add_grown deeper.0) p,
                      node_add-found depth mem c (i / 32 - 1) (j / 32 - 1) x vc,
                      node_add-value depth mem c (i / 32 - 1) x,
                      node_get-found depth deeper.1 j,
                      node_get-found depth c j,
                      same,
                      before.0,
                    ))
            ]
      ]

  -- It keeps the counters right, and the node's counter grows by one exactly on success.
  pub node_add-IsValid :
      (depth : ℕ) (mem : ℕ → Bool) (n : Node A) (i : ℕ) (x : A)
      → IsValid n
      → total (nodes n) + 1 < 2 ^ 32
      → let (rc, n') = node_add depth mem n i x in
        IsValid n' × (total (nodes n') ≡ total (nodes n) + add_grown rc)
  unfolding node_add
  node_add-IsValid zero mem n i x v small = (v, omega arith)
  node_add-IsValid (suc depth) mem n i x v small =
      let made = ensure_place (mem depth) n (i % 32) in
      let c = unsafe_node made.1 (i % 32) in
      let deeper = node_add depth mem c (i / 32 - 1) x in
      let (vm, tm, _) = ensure_place-IsValid (mem depth) n (i % 32) (omega arith) v in
      elim (Bool-cases made.0) [
        | inr no_mem ↦ rw (no_mem, node_add) (vm, omega (arith, tm))
        | inl ok ↦
            let (p, vc, _) = (ensure_place-found (mem depth) n i depth i v).1 ok in
            elim (Bool-cases (i / 32 == 0)) [
              | inl leaf ↦ elim (Bool-cases (is_none (value c))) [
                | inl fresh ↦
                    let r =
                      set_child-IsValid made.1 (with_value c (some x)) (i % 32) 1 (omega arith) p vm
                        (with_value-IsValid c (some x) vc) (ground (arith, with_value-items c x))
                        (omega (arith, tm)) in
                    rw (ok, leaf, fresh, node_add) (r.0, r.1 ∙ ap (λ t. t + 1) tm)
                | inr old ↦ rw (ok, leaf, old, node_add) (vm, omega (arith, tm))
              ]
              | inr deep ↦
                  let (vd, td) =
                    node_add-IsValid depth mem c (i / 32 - 1) x vc
                      (omega (arith, items-node c, total-child-le made.1 (i % 32), tm)) in
                  let r =
                    set_child-IsValid made.1 deeper.1 (i % 32) (add_grown deeper.0) (omega arith) p
                      vm vd
                      (ground (
                        arith,
                        items-node deeper.1,
                        items-node c,
                        td,
                        node_add-value depth mem c (i / 32 - 1) x,
                      ))
                      (omega (arith, tm, add_grown-le deeper.0)) in
                  rw (ok, deep, node_add) (r.0, r.1 ∙ ap (λ t. t + add_grown deeper.0) tm)
            ]
      ]

  -- It fails for memory, or says whether the id was there before.
  pub node_add-code :
      (depth : ℕ) (mem : ℕ → Bool) (n : Node A) (i : ℕ) (x : A)
      → IsValid n
      → let rc = (node_add depth mem n i x).0 in
        (rc ≡ add_no_mem) ⊎ (rc ≡ add_code (found depth n i))
  unfolding node_add
  node_add-code zero mem n i x v = inl refl
  node_add-code (suc depth) mem n i x v =
      let made = ensure_place (mem depth) n (i % 32) in
      let c = unsafe_node made.1 (i % 32) in
      let before = ensure_place-found (mem depth) n i (suc depth) i v in
      elim (Bool-cases made.0) [
        | inr no_mem ↦ rw (no_mem, node_add) (inl refl)
        | inl ok ↦
            let (p, vc, same) = before.1 ok in
            elim (Bool-cases (i / 32 == 0)) [
              | inl leaf ↦
                  rw (ok, leaf, node_add) (ground (arith, node_get-found depth c i, same refl))
              | inr deep ↦
                  rw (ok, deep, node_add)
                    (ground (
                      arith,
                      node_add-code depth mem c (i / 32 - 1) x vc,
                      node_get-found depth c i,
                      same refl,
                    ))
            ]
      ]

  -- With memory, and levels for the id, it does not fail for memory.
  pub node_add-succeeds :
      (depth : ℕ) (mem : ℕ → Bool) (n : Node A) (i : ℕ) (x : A)
      → ((d : ℕ) → mem d ≡ true)
      → i < reach depth
      → (node_add depth mem n i x).0 ≢ add_no_mem
  unfolding node_add
  node_add-succeeds zero mem n i x m h = elim h [ ]
  node_add-succeeds (suc depth) mem n i x m h =
      let c = unsafe_node (ensure_place true n (i % 32)).1 (i % 32) in
      rw (m depth, ensure_place-mem n (i % 32), node_add)
        (elim (Bool-cases (i / 32 == 0)) [
          | inl leaf ↦ rw leaf (ground arith)
          | inr deep ↦ rw deep (node_add-succeeds depth mem c (i / 32 - 1) x m (ground arith))
        ])
