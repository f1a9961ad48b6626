-- ===== src/Imap/Pop.antt =====
-- `imap_pop` against the finite map that a map stands for.
use siridb_server.Base.{
  ℕ, suc, ◌+◌, ◌-◌, ◌/◌, ◌%◌, ◌^◌, ◌<◌, ◌≡◌, refl, ap, sym, subst, inl, inr, true, none, some, ◌==◌,
  if◌then◌else◌, arith, Bool-cases,
}
use siridb_server.Imap.{Imap, levels, imap_new, imap_get, imap_pop, root_pop}
use siridb_server.Imap.Tree.{
  Node, nodes, with_value, index, zeros, is_none, is_null, node_get, node_pop,
}
use siridb_server.Imap.Tree.Arrays.{
  AllValid, count, total, items, index-IsValid, put-AllValid, total-put, count-put, index-put_self,
  index-put_ne, index-zeros, items-index-le, zeros-AllValid, count-zeros, total-zeros,
}
use siridb_server.Imap.Tree.Arrays
use siridb_server.Imap.Tree.Find.{node_get-none}
use mathlib.Core.Option.{some-injective}
use siridb_server.Imap.Tree.Child.{items-node, with_value-get, with_value-IsValid}
use siridb_server.Imap.Tree.Pop.{
  node_pop-result, node_pop-Popped, node_pop-value, found-null, without_value-items,
}
use siridb_server.Imap.Valid.{IsValid, index-put_root, root-IsValid, imap_get-node}

module _ {A : Type 0} where
  root_pop-result : (n : Node A) (i : ℕ) → (root_pop n i).0 ≡ node_get (suc levels) n i
  unfolding root_pop
  root_pop-result n i = ground (
    arith,
    imap_get-node n i,
    node_pop-result levels n (i / 32 - 1),
    found-null levels n (i / 32 - 1),
  )

  root_pop-get :
      (n : Node A) (i j : ℕ)
      → Arrays.IsValid n
      → items n < 2 ^ 32
      → i % 32 ≡ j % 32
      → node_get (suc levels) (root_pop n i).1 j
        ≡ (if i == j then none else node_get (suc levels) n j)
  unfolding root_pop
  root_pop-get n i j v small same = elim (Bool-cases (i / 32 == 0)) [
    | inl leaf ↦ rw (leaf, root_pop) (ground (arith, with_value-get levels j n none))
    | inr deep ↦ elim (Bool-cases (is_null (nodes n))) [
      | inl null ↦
          rw (deep, null, root_pop)
            (ground (arith, imap_get-node n j, found-null levels n (j / 32 - 1)))
      | inr there ↦
          let (vn, tn, fn) =
            node_pop-Popped levels n (i / 32 - 1) v (omega (arith, items-node n)) in
          rw (deep, there, root_pop)
            (ground (
              arith,
              imap_get-node (node_pop levels n (i / 32 - 1)).1 j,
              imap_get-node n j,
              node_pop-value levels n (i / 32 - 1),
              fn (j / 32 - 1),
            ))
    ]
  ]

  root_pop-IsValid :
      (n : Node A) (i : ℕ)
      → Arrays.IsValid n
      → items n < 2 ^ 32
      → Arrays.IsValid (root_pop n i).1
        × (items (root_pop n i).1 + (if is_none (root_pop n i).0 then 0 else 1) ≡ items n)
  unfolding root_pop
  root_pop-IsValid n i v small = elim (Bool-cases (i / 32 == 0)) [
    | inl leaf ↦
        rw (leaf, root_pop)
          (
            with_value-IsValid n none v,
            ground (arith, without_value-items n, items-node n, items-node (with_value n none)),
          )
    | inr deep ↦ elim (Bool-cases (is_null (nodes n))) [
      | inl null ↦ rw (deep, null, root_pop) (v, omega arith)
      | inr there ↦
          let (vn, tn, fn) =
            node_pop-Popped levels n (i / 32 - 1) v (omega (arith, items-node n)) in
          rw (deep, there, root_pop)
            (
              vn,
              ground (
                arith,
                tn,
                items-node n,
                items-node (node_pop levels n (i / 32 - 1)).1,
                node_pop-value levels n (i / 32 - 1),
              ),
            )
    ]
  ]

  -- `imap_pop` on a valid map with less than 2 ^ 32 items returns what the id maps to (NULL where
  -- there is nothing). Afterwards the id maps to nothing and every other id to what it did; the map
  -- stays valid, and its length falls by one exactly when there was an item.
  pub imap_pop_lem :
      (m : Imap A) (i : ℕ)
      → IsValid m
      → m.len < 2 ^ 32
      → let (r, m') = imap_pop m i in
        (r ≡ imap_get m i)
        × ((j : ℕ) → imap_get m' j ≡ (if i == j then none else imap_get m j))
        × IsValid m'
        × (m'.len + (if is_none r then 0 else 1) ≡ m.len)
  unfolding imap_pop imap_get
  imap_pop_lem m i v small =
      let n = index m.roots (i % 32) in
      let vn = index-IsValid m.roots (i % 32) v.nodes_valid in
      let r = root_pop n i in
      let few = items-index-le m.roots (i % 32) in
      let few' : items n < 2 ^ 32 = omega (arith, few, v.len_counts) in
      let (vr, tr) = root_pop-IsValid n i vn few' in
      let len' : ℕ = (if is_none r.0 then m.len else (m.len + 2 ^ 64 - 1) % 2 ^ 64) in
      let len : len' + (if is_none r.0 then 0 else 1) ≡ m.len =
        ground (arith, tr, few, v.len_counts) in
      let valid = root-IsValid m r.1 i len' v vr (omega (arith, tr, len)) in
      (
        root_pop-result n i,
        (λ j. ground (
          arith,
          ap (λ k. node_get (suc levels) k j) (index-put_root m.roots r.1 i j v.roots_there),
          root_pop-get n i j vn few',
        )),
        record { roots_there = valid.0; nodes_valid = valid.1; len_counts = valid.2 },
        len,
      )

  imap_get-zeros : (j : ℕ) → node_get (suc levels) (index (zeros {A = A} 32) (j % 32)) j ≡ none
  imap_get-zeros j =
      node_get-none (suc levels) (index (zeros {A = A} 32) (j % 32)) j
        (rw (index-zeros {A = A} 32 (j % 32)) refl)

  -- A new map is valid and empty.
  pub imap_new_lem :
      (m : Imap A)
      → imap_new true ≡ some m
      → IsValid m × (m.len ≡ 0) × ((j : ℕ) → imap_get m j ≡ none)
  unfolding imap_new imap_get
  imap_new_lem m e =
      let e' : record { len = 0; vec = none; roots = zeros 32 } ≡ m = some-injective _ _ e in
      subst (λ m. IsValid m × (m.len ≡ 0) × ((j : ℕ) → imap_get m j ≡ none)) e'
        (
          record {
            roots_there = refl;
            nodes_valid = zeros-AllValid A 32;
            len_counts = sym (total-zeros A 32);
          },
          refl,
          imap_get-zeros,
        )
