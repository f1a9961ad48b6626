-- ===== src/Imap/Add.antt =====
-- `imap_add` against the finite map that a map stands for.
use siridb_server.Base.{
  ℕ, suc, ◌+◌, ◌-◌, ◌/◌, ◌%◌, ◌^◌, ◌<◌, ◌≡◌, ◌≢◌, ap, ◌∙◌, ◌⊎◌, inl, inr, Bool, true, some, ◌==◌,
  arith, Bool-cases,
}
use siridb_server.Imap.{Imap, levels, add_len, imap_add, imap_get, root_add}
use siridb_server.Imap.Tree.{
  Node, value, index, is_none, AddRc, add_ok, add_exists, add_no_mem, add_grown, node_get, node_add,
}
use siridb_server.Imap.Tree.Arrays.{
  AllValid, count, total, items, index-IsValid, put-AllValid, total-put, count-put, index-put_self,
  index-put_ne, items-index-le, zeros-AllValid, count-zeros, total-zeros,
}
use siridb_server.Imap.Tree.Arrays
use siridb_server.Imap.Tree.Child.{items-node, with_value-get, with_value-items, with_value-IsValid}
use siridb_server.Imap.Tree.Add.{
  add_found, add_code, node_add-found, node_add-code, node_add-IsValid, node_add-value,
  node_add-succeeds,
}
use siridb_server.Imap.Valid.{IsValid, index-put_root, root-IsValid, imap_get-node}

add_len-eq : (rc : AddRc) (len : ℕ) → len + 1 < 2 ^ 32 → add_len rc len ≡ len + add_grown rc
add_len-eq add_ok len h = omega arith
add_len-eq add_exists len h = omega arith
add_len-eq add_no_mem len h = omega arith

module _ {A : Type 0} where
  -- What a root node holds after `imap_add`.
  root_add-get :
      (mem : ℕ → Bool) (n : Node A) (i j : ℕ) (x : A)
      → Arrays.IsValid n
      → i % 32 ≡ j % 32
      → node_get (suc levels) (root_add mem n i x).1 j
        ≡ add_found (root_add mem n i x).0 i j x (node_get (suc levels) n j)
  unfolding root_add
  root_add-get mem n i j x v same = elim (Bool-cases (i / 32 == 0)) [
    | inl leaf ↦ rw (leaf, root_add) (ground (arith, with_value-get levels j n (some x)))
    | inr deep ↦
        rw (deep, root_add)
          (ground (
            arith,
            imap_get-node (node_add levels mem n (i / 32 - 1) x).1 j,
            imap_get-node n j,
            node_add-value levels mem n (i / 32 - 1) x,
            node_add-found levels mem n (i / 32 - 1) (j / 32 - 1) x v,
          ))
  ]

  root_add-IsValid :
      (mem : ℕ → Bool) (n : Node A) (i : ℕ) (x : A)
      → Arrays.IsValid n
      → items n + 1 < 2 ^ 32
      → Arrays.IsValid (root_add mem n i x).1
        × (items (root_add mem n i x).1 ≡ items n + add_grown (root_add mem n i x).0)
  unfolding root_add
  root_add-IsValid mem n i x v small = elim (Bool-cases (i / 32 == 0)) [
    | inl leaf ↦ elim (Bool-cases (is_none (value n))) [
      | inl fresh ↦
          rw (leaf, fresh, root_add)
            (with_value-IsValid n (some x) v, ground (arith, with_value-items n x))
      | inr old ↦ rw (leaf, old, root_add) (v, omega arith)
    ]
    | inr deep ↦
        let (vn, tn) =
          node_add-IsValid levels mem n (i / 32 - 1) x v (omega (arith, items-node n)) in
        rw (deep, root_add)
          (
            vn,
            ground (
              arith,
              items-node n,
              items-node (node_add levels mem n (i / 32 - 1) x).1,
              node_add-value levels mem n (i / 32 - 1) x,
              tn,
            ),
          )
  ]

  root_add-code :
      (mem : ℕ → Bool) (n : Node A) (i : ℕ) (x : A)
      → Arrays.IsValid n
      → ((root_add mem n i x).0 ≡ add_no_mem)
        ⊎ ((root_add mem n i x).0 ≡ add_code (node_get (suc levels) n i))
  unfolding root_add
  root_add-code mem n i x v =
      ground (arith, imap_get-node n i, node_add-code levels mem n (i / 32 - 1) x v)

  root_add-succeeds :
      (mem : ℕ → Bool) (n : Node A) (i : ℕ) (x : A)
      → ((d : ℕ) → mem d ≡ true)
      → i < 2 ^ 64
      → (root_add mem n i x).0 ≢ add_no_mem
  unfolding root_add
  root_add-succeeds mem n i x h small = elim (Bool-cases (i / 32 == 0)) [
    | inl leaf ↦ rw (leaf, root_add) (ground arith)
    | inr deep ↦ rw (deep, root_add) (node_add-succeeds levels mem n (i / 32 - 1) x h (omega arith))
  ]

  -- `imap_add` on a valid map with less than 2 ^ 32 - 1 items and any 64-bit id: it returns -1 only
  -- when memory runs out, and else 0 for a fresh id and -2 for one that is there. Only after a 0 the
  -- map changed, and then at that id alone. It stays valid, and its length grows by one exactly
  -- when the code is 0.
  pub imap_add_lem :
      (mem : ℕ → Bool) (vmem : Bool) (m : Imap A) (i : ℕ) (x : A)
      → IsValid m
      → m.len + 1 < 2 ^ 32
      → i < 2 ^ 64
      → let (rc, m') = imap_add mem vmem m i x in
        ((rc ≡ add_no_mem) ⊎ (rc ≡ add_code (imap_get m i)))
        × (((d : ℕ) → mem d ≡ true) → rc ≢ add_no_mem)
        × ((j : ℕ) → imap_get m' j ≡ add_found rc i j x (imap_get m j))
        × IsValid m'
        × (m'.len ≡ m.len + add_grown rc)
  unfolding imap_add imap_get
  imap_add_lem mem vmem m i x v small wide =
      let n = index m.roots (i % 32) in
      let vn = index-IsValid m.roots (i % 32) v.nodes_valid in
      let r = root_add mem n i x in
      let few = items-index-le m.roots (i % 32) in
      let (vr, tr) = root_add-IsValid mem n i x vn (omega (arith, few, v.len_counts)) in
      let len = add_len-eq r.0 m.len small in
      let valid = root-IsValid m r.1 i (m.len + add_grown r.0) v vr (omega (arith, tr)) in
      (
        root_add-code mem n i x vn,
        (λ h. root_add-succeeds mem n i x h wide),
        (λ j. ground (
          arith,
          ap (λ k. node_get (suc levels) k j) (index-put_root m.roots r.1 i j v.roots_there),
          root_add-get mem n i j x vn,
        )),
        record { roots_there = valid.0; nodes_valid = valid.1; len_counts = len ∙ valid.2 },
        len,
      )
