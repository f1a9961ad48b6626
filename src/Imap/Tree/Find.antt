-- ===== src/Imap/Tree/Find.antt =====
-- What a node's children hold at an id, before and after `IMAP_set`, `IMAP_add` and `IMAP_pop`.
use siridb_server.Base.{
  ℕ, zero, suc, ◌-◌, ◌/◌, ◌%◌, ◌≡◌, refl, inl, inr, Option, none, some, ◌==◌, if◌then◌else◌, arith,
  Bool-cases,
}
use siridb_server.Imap.Tree.{
  Node, node, nil, cons, node_sz, empty_node, value, nodes, index, is_null, get_node, node_get,
}
use siridb_server.Imap.Tree.Arrays.{IsValid, items, index-IsValid, items-index-le}

module _ {A : Type 0} where
  -- The item at id `i` of a node's children: the loop of `imap_get` behind `--id`.
  abbrev pub below : ℕ → Node A → ℕ → Option A
  below depth n i =
      if is_null (nodes n)
      then none
      else (elim (get_node n (i % node_sz)) [ none ↦ none | some c ↦ node_get depth c i ])

  -- The child at index `i`, where an absent one is empty: `IMAP_ensure_node`.
  unfoldable pub child : Node A → ℕ → Node A
  child (node s k d ns) i =
      if k == node_sz then index ns i else (if k == i then index ns 0 else empty_node)

  node_get-empty : (depth i : ℕ) → node_get depth (empty_node {A = A}) i ≡ none
  unfolding node_get
  node_get-empty zero i = refl
  node_get-empty (suc depth) i = ground arith

  -- Reading through `child` needs no test for NULL.
  pub below-child :
      (depth : ℕ) (n : Node A) (i : ℕ) → below depth n i ≡ node_get depth (child n (i % node_sz)) i
  unfolding child
  below-child depth (node s k d nil) i = ground (arith, node_get-empty depth i)
  below-child depth (node s k d (cons c cs)) i = ground (arith, node_get-empty depth i)

  pub node_get-suc :
      (depth : ℕ) (n : Node A) (i : ℕ)
      → node_get (suc depth) n i
        ≡ (if i / node_sz == 0 then value n else below depth n (i / node_sz - 1))
  unfolding node_get
  node_get-suc depth n i = ground arith

  -- A node without items below it gives nothing.
  pub node_get-none : (depth : ℕ) (n : Node A) (i : ℕ) → items n ≡ 0 → node_get depth n i ≡ none
  node_get-none zero n i h = unfold node_get in refl
  node_get-none (suc depth) (node s k d ns) i h = ground (
    arith,
    node_get-suc depth (node s k d ns) i,
    below-child depth (node s k d ns) (i / node_sz - 1),
    node_get-none depth (child (node s k d ns) ((i / node_sz - 1) % node_sz)) (i / node_sz - 1) (
        unfold child in
        ground (arith, items-index-le ns ((i / node_sz - 1) % node_sz), items-index-le ns 0)),
  )

  -- The item at id `i` among a node's children.
  abbrev pub found : ℕ → Node A → ℕ → Option A
  found depth n i = node_get depth (child n (i % node_sz)) i

  pub node_get-found :
      (depth : ℕ) (n : Node A) (i : ℕ)
      → node_get (suc depth) n i
        ≡ (if i / node_sz == 0 then value n else found depth n (i / node_sz - 1))
  node_get-found depth n i =
      ground (arith, node_get-suc depth n i, below-child depth n (i / node_sz - 1))

  pub child-IsValid : (n : Node A) (i : ℕ) → IsValid n → IsValid (child n i)
  unfolding child
  child-IsValid (node s k d ns) i v = elim (Bool-cases (k == 32)) [
    | inl e ↦ rw (e, child) (index-IsValid ns i v.2)
    | inr ne ↦ elim (Bool-cases (k == i)) [
      | inl e ↦ rw (ne, e, child) (index-IsValid ns 0 v.2)
      | inr ne' ↦ rw (ne, ne', child) (refl, inl refl, tt)
    ]
  ]
