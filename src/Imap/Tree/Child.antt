-- ===== src/Imap/Tree/Child.antt =====
-- A node after one of its children was replaced.
use siridb_server.Base.{
  ℕ, suc, ◌+◌, ◌/◌, ◌%◌, ◌^◌, ◌≤◌, ◌<◌, ◌≡◌, refl, ap, sym, subst, ◌∙◌, ◌⊎◌, Bool, true, Option,
  some, ◌==◌, if◌then◌else◌, arith, ℕ_discrete,
}
use siridb_server.Imap.Tree.{
  Node, node, nil, cons, node_sz, value, nodes, with_value, put, is_none, place, node_grow,
  ensure_place, set_child, unsafe_node, node_get,
}
use siridb_server.Imap.Tree.Arrays.{
  count, IsValid, total, items, index-put_self, index-put_ne, items-index-le, put-AllValid,
  total-put, count-put,
}
use siridb_server.Imap.Tree.Find.{child-IsValid, child, node_get-suc, found}
use siridb_server.Imap.Tree.Place.{
  IsPlaced, ensure_place-IsPlaced, ensure_place-get, ensure_place-IsValid,
}

module _ {A : Type 0} where
  pub unsafe_node-child : (n : Node A) (i : ℕ) → IsPlaced n i → unsafe_node n i ≡ child n i
  unfolding child
  unsafe_node-child (node s k d ns) i p = ground arith

  -- Writing one child changes that child.
  pub child-set_child :
      (n c : Node A) (i j g : ℕ)
      → i < 32
      → IsPlaced n i
      → child (set_child n i c g) j ≡ (if i == j then c else child n j)
  unfolding child
  child-set_child (node s k d ns) c i j g hi p = elim (ℕ_discrete i j) [
    | yes e ↦ ground (arith, index-put_self ns (place k i) c)
    | no ne ↦ ground (arith, index-put_ne ns i j c ne)
  ]

  pub with_value-get :
      (depth i : ℕ) (n : Node A) (d : Option A)
      → node_get (suc depth) (with_value n d) i
        ≡ (if i / node_sz == 0 then d else node_get (suc depth) n i)
  with_value-get depth i (node s k e nil) d =
      ground (arith, node_get-suc depth (node s k e nil) i, node_get-suc depth (node s k d nil) i)
  with_value-get depth i (node s k e (cons c cs)) d = ground (
    arith,
    node_get-suc depth (node s k e (cons c cs)) i,
    node_get-suc depth (node s k d (cons c cs)) i,
  )

  pub found-set_child :
      (depth : ℕ) (n c : Node A) (i j g : ℕ)
      → IsPlaced n (i % 32)
      → found depth (set_child n (i % 32) c g) j
        ≡ (if i % 32 == j % 32 then node_get depth c j else found depth n j)
  found-set_child depth n c i j g p = ground (arith, child-set_child n c (i % 32) (j % 32) g)

  -- A place was made, and the child there is the one that was.
  pub ensure_place-found :
      (mem : Bool) (n : Node A) (i depth j : ℕ)
      → IsValid n
      → (found depth (ensure_place mem n (i % 32)).1 j ≡ found depth n j)
        × ((ensure_place mem n (i % 32)).0 ≡ true
            → IsPlaced (ensure_place mem n (i % 32)).1 (i % 32)
              × IsValid (unsafe_node (ensure_place mem n (i % 32)).1 (i % 32))
              × (i % 32 ≡ j % 32
                  → node_get depth (unsafe_node (ensure_place mem n (i % 32)).1 (i % 32)) j
                    ≡ found depth n j))
  ensure_place-found mem n i depth j v =
      let n' = (ensure_place mem n (i % 32)).1 in
      let kept = ensure_place-get mem n (i % 32) depth (j % 32) j (omega arith) (omega arith) v in
      (
        kept,
        λ ok.
            let p = ensure_place-IsPlaced mem n (i % 32) (omega arith) v ok in
            let e = unsafe_node-child n' (i % 32) p in
            (
              p,
              subst IsValid (sym e) (
                  child-IsValid n' (i % 32)
                    (ensure_place-IsValid mem n (i % 32) (omega arith) v).0),
              λ same. ap (λ c. node_get depth c j) (e ∙ ap (child n') same) ∙ kept,
            ),
      )

  pub ensure_place-value :
      (mem : Bool) (n : Node A) (i : ℕ) → value (ensure_place mem n i).1 ≡ value n
  unfolding ensure_place node_grow
  ensure_place-value mem (node s k d ns) i = ground arith

  pub set_child-value : (n c : Node A) (i g : ℕ) → value (set_child n i c g) ≡ value n
  set_child-value (node s k d ns) c i g = refl

  pub items-node : (n : Node A) → items n ≡ (if is_none (value n) then 0 else 1) + total (nodes n)
  items-node (node s k d ns) = refl

  pub total-child-le : (n : Node A) (i : ℕ) → items (unsafe_node n i) ≤ total (nodes n)
  total-child-le (node s k d ns) i = items-index-le ns (place k i)

  -- The counter of a node follows the items of the child that was replaced.
  pub set_child-IsValid :
      (n c : Node A) (i g : ℕ)
      → i < 32
      → IsPlaced n i
      → IsValid n
      → IsValid c
      → items c ≡ items (unsafe_node n i) + g
      → total (nodes n) + g < 2 ^ 32
      → IsValid (set_child n i c g) × (total (nodes (set_child n i c g)) ≡ total (nodes n) + g)
  set_child-IsValid (node s k d ns) c i g hi p v vc e small =
      let there : place k i < count ns = ground arith in
      let more : total (put ns (place k i) c) ≡ total ns + g =
        omega (arith, total-put ns (place k i) c there) in
      let len = count-put ns (place k i) c in
      (
        (
          (let h : (s + g) % 2 ^ 32 ≡ total (put ns (place k i) c) = omega (arith, v.0) in h),
          subst (λ m. (m ≡ 0) ⊎ ((k < 32) × (m ≡ 1)) ⊎ ((k ≡ 32) × (m ≡ 32))) (sym len) v.1,
          put-AllValid ns (place k i) c v.2 vc,
        ),
        more,
      )

  pub with_value-items :
      (n : Node A) (x : A)
      → items (with_value n (some x)) ≡ items n + (if is_none (value n) then 1 else 0)
  with_value-items (node s k d ns) x = ground arith

  pub with_value-IsValid : (n : Node A) (d : Option A) → IsValid n → IsValid (with_value n d)
  with_value-IsValid (node s k e ns) d v = v
