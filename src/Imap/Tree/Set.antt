-- ===== src/Imap/Tree/Set.antt =====
-- `IMAP_set`: what the children of a node hold afterwards.
use siridb_server.Base.{
  ℕ, zero, suc, ◌-◌, ◌/◌, ◌%◌, ◌≡◌, refl, inl, inr, Bool, Option, some, ◌==◌, if◌then◌else◌, arith,
  Bool-cases,
}
use siridb_server.Imap.Tree.{
  Node, value, with_value, ensure_place, unsafe_node, node_set, added, overwritten, set_no_mem,
  SetRc, set_grown,
}
use siridb_server.Imap.Tree.Arrays.{IsValid}
use siridb_server.Imap.Tree.Find.{found, node_get-found}
use siridb_server.Imap.Tree.Child.{
  with_value-get, found-set_child, ensure_place-found, ensure_place-value, set_child-value,
}

module _ {A : Type 0} where
  abbrev pub set_found : SetRc → ℕ → ℕ → A → Option A → Option A
  set_found set_no_mem i j x old = old
  set_found added i j x old = if i == j then some x else old
  set_found overwritten i j x old = if i == j then some x else old

  pub node_set-value :
      (depth : ℕ) (mem : ℕ → Bool) (n : Node A) (i : ℕ) (x : A)
      → value (node_set depth mem n i x).1 ≡ value n
  unfolding node_set
  node_set-value zero mem n i x = refl
  node_set-value (suc depth) mem n i x =
      let n' = (ensure_place (mem depth) n (i % 32)).1 in
      let c = unsafe_node n' (i % 32) in
      ground (
        arith,
        ensure_place-value (mem depth) n (i % 32),
        set_child-value n' (with_value c (some x)) (i % 32) 1,
        set_child-value n' (with_value c (some x)) (i % 32) 0,
        set_child-value n' (node_set depth mem c (i / 32 - 1) x).1 (i % 32)
            (set_grown (node_set depth mem c (i / 32 - 1) x).0),
      )

  -- `IMAP_set` changes what the children hold at its id alone, and nothing when it fails.
  pub node_set-found :
      (depth : ℕ) (mem : ℕ → Bool) (n : Node A) (i j : ℕ) (x : A)
      → IsValid n
      → let (rc, n') = node_set depth mem n i x in
        found depth n' j ≡ set_found rc i j x (found depth n j)
  unfolding node_set
  node_set-found zero mem n i j x v = refl
  node_set-found (suc depth) mem n i j x v =
      let made = ensure_place (mem depth) n (i % 32) in
      let c = unsafe_node made.1 (i % 32) in
      let deeper = node_set depth mem c (i / 32 - 1) x in
      let before = ensure_place-found (mem depth) n i (suc depth) j v in
      elim (Bool-cases made.0) [
        | inr no_mem ↦ rw (no_mem, node_set) before.0
        | inl ok ↦
            let (p, vc, same) = before.1 ok in
            elim (Bool-cases (i / 32 == 0)) [
              | inl leaf ↦
                  rw (ok, leaf, node_set)
                    (ground (
                      arith,
                      found-set_child (suc depth) made.1 (with_value c (some x)) i j 1 p,
                      found-set_child (suc depth) made.1 (with_value c (some x)) i j 0 p,
                      with_value-get depth j c (some x),
                      same,
                      before.0,
                    ))
              | inr deep ↦
                  rw (ok, deep, node_set)
                    (ground (
                      arith,
                      found-set_child (suc depth) made.1 deeper.1 i j (set_grown deeper.0) p,
                      node_set-found depth mem c (i / 32 - 1) (j / 32 - 1) x vc,
                      node_set-value depth mem c (i / 32 - 1) x,
                      node_get-found depth deeper.1 j,
                      node_get-found depth c j,
                      same,
                      before.0,
                    ))
            ]
      ]
