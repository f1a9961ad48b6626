-- ===== src/Imap/Set.antt =====
-- `imap_set` against the finite map that a map stands for.
use siridb_server.Base.{
  ℕ, suc, ◌+◌, ◌-◌, ◌/◌, ◌%◌, ◌^◌, ◌<◌, ◌≡◌, ◌≢◌, ap, ◌∙◌, ◌⊎◌, inl, inr, Bool, true, some, ◌==◌,
  arith, Bool-cases,
}
use siridb_server.Imap.{Imap, levels, imap_set, imap_get, root_set}
use siridb_server.Imap.Tree.{Node, index, set_no_mem, set_grown, node_get, node_set}
use siridb_server.Imap.Tree.Arrays.{
  AllValid, count, total, items, index-IsValid, put-AllValid, total-put, count-put, index-put_self,
  index-put_ne, items-index-le, zeros-AllValid, count-zeros, total-zeros,
}
use siridb_server.Imap.Tree.Arrays
use siridb_server.Imap.Tree.Child.{items-node, with_value-get, with_value-items, with_value-IsValid}
use siridb_server.Imap.Tree.Set.{set_found, node_set-found, node_set-value}
use siridb_server.Imap.Tree.SetCount.{
  set_code, node_set-code, node_set-IsValid, node_set-succeeds, set_grown-le,
}
use siridb_server.Imap.Valid.{IsValid, index-put_root, root-IsValid, imap_get-node}

module _ {A : Type 0} where
  -- What a root node holds after `imap_set`.
  root_set-get :
      (mem : ℕ → Bool) (n : Node A) (i j : ℕ) (x : A)
      → Arrays.IsValid n
      → i % 32 ≡ j % 32
      → node_get (suc levels) (root_set mem n i x).1 j
        ≡ set_found (root_set mem n i x).0 i j x (node_get (suc levels) n j)
  unfolding root_set
  root_set-get mem n i j x v same = elim (Bool-cases (i / 32 == 0)) [
    | inl leaf ↦ rw (leaf, root_set) (ground (arith, with_value-get levels j n (some x)))
    | inr deep ↦
        rw (deep, root_set)
          (ground (
            arith,
            imap_get-node (node_set levels mem n (i / 32 - 1) x).1 j,
            imap_get-node n j,
            node_set-value levels mem n (i / 32 - 1) x,
            node_set-found levels mem n (i / 32 - 1) (j / 32 - 1) x v,
          ))
  ]

  root_set-IsValid :
      (mem : ℕ → Bool) (n : Node A) (i : ℕ) (x : A)
      → Arrays.IsValid n
      → items n + 1 < 2 ^ 32
      → Arrays.IsValid (root_set mem n i x).1
        × (items (root_set mem n i x).1 ≡ items n + set_grown (root_set mem n i x).0)
  unfolding root_set
  root_set-IsValid mem n i x v small = elim (Bool-cases (i / 32 == 0)) [
    | inl leaf ↦
        rw (leaf, root_set) (with_value-IsValid n (some x) v, ground (arith, with_value-items n x))
    | inr deep ↦
        let (vn, tn) =
          node_set-IsValid levels mem n (i / 32 - 1) x v (omega (arith, items-node n)) in
        rw (deep, root_set)
          (
            vn,
            ground (
              arith,
              items-node n,
              items-node (node_set levels mem n (i / 32 - 1) x).1,
              node_set-value levels mem n (i / 32 - 1) x,
              tn,
            ),
          )
  ]

  root_set-code :
      (mem : ℕ → Bool) (n : Node A) (i : ℕ) (x : A)
      → Arrays.IsValid n
      → ((root_set mem n i x).0 ≡ set_no_mem)
        ⊎ ((root_set mem n i x).0 ≡ set_code (node_get (suc levels) n i))
  unfolding root_set
  root_set-code mem n i x v =
      ground (arith, imap_get-node n i, node_set-code levels mem n (i / 32 - 1) x v)

  root_set-succeeds :
      (mem : ℕ → Bool) (n : Node A) (i : ℕ) (x : A)
      → ((d : ℕ) → mem d ≡ true)
      → i < 2 ^ 64
      → (root_set mem n i x).0 ≢ set_no_mem
  unfolding root_set
  root_set-succeeds mem n i x h small = elim (Bool-cases (i / 32 == 0)) [
    | inl leaf ↦ rw (leaf, root_set) (ground arith)
    | inr deep ↦ rw (deep, root_set) (node_set-succeeds levels mem n (i / 32 - 1) x h (omega arith))
  ]

  -- `imap_set` on a valid map with less than 2 ^ 32 - 1 items and any 64-bit id: it fails only when
  -- memory runs out, and else returns 1 for a fresh id and 0 for one that is overwritten. Unless it
  -- failed, the id then maps to the new item; every other id, and every id after a failure, maps to
  -- what it did. The map stays valid, and its length grows by one exactly when the code is 1.
  pub imap_set_lem :
      (mem : ℕ → Bool) (vmem : Bool) (m : Imap A) (i : ℕ) (x : A)
      → IsValid m
      → m.len + 1 < 2 ^ 32
      → i < 2 ^ 64
      → let (rc, m') = imap_set mem vmem m i x in
        ((rc ≡ set_no_mem) ⊎ (rc ≡ set_code (imap_get m i)))
        × (((d : ℕ) → mem d ≡ true) → rc ≢ set_no_mem)
        × ((j : ℕ) → imap_get m' j ≡ set_found rc i j x (imap_get m j))
        × IsValid m'
        × (m'.len ≡ m.len + set_grown rc)
  unfolding imap_set imap_get
  imap_set_lem mem vmem m i x v small wide =
      let n = index m.roots (i % 32) in
      let vn = index-IsValid m.roots (i % 32) v.nodes_valid in
      let r = root_set mem n i x in
      let few = items-index-le m.roots (i % 32) in
      let (vr, tr) = root_set-IsValid mem n i x vn (omega (arith, few, v.len_counts)) in
      let len : (m.len + set_grown r.0) % 2 ^ 64 ≡ m.len + set_grown r.0 =
        omega (arith, set_grown-le r.0) in
      let valid = root-IsValid m r.1 i (m.len + set_grown r.0) v vr (omega (arith, tr)) in
      (
        root_set-code mem n i x vn,
        (λ h. root_set-succeeds mem n i x h wide),
        (λ j. ground (
          arith,
          ap (λ k. node_get (suc levels) k j) (index-put_root m.roots r.1 i j v.roots_there),
          root_set-get mem n i j x vn,
        )),
        record { roots_there = valid.0; nodes_valid = valid.1; len_counts = len ∙ valid.2 },
        len,
      )
