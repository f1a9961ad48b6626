-- ===== src/Ctree/Pop.antt =====
-- `ct_pop` of src/ctree/ctree.c: a name is removed, and a node that is left with a single child and no item is
-- merged with the child.
pub mod Merge
pub mod Dec
pub mod Remove
pub mod Walk
pub mod Tree
use siridb_server.Base.{
  ℕ, zero, suc, ◌+◌, ◌-◌, ◌*◌, ◌%◌, ◌^◌, Bool, true, false, ◌&&◌, Option, none, some, List, [], ◌∷◌,
  ◌++◌, ◌==◌, if◌then◌else◌,
}
use siridb_server.Ctree.{
  block_sz, Node, Nodes, node, nil, free, used, Ct, key_of, put_slot, child, child_of,
}

module _ {A : Type 0} where
  -- The first child that there is, and its place.
  abbrev pub first_child : ℕ → Nodes A → Option (ℕ × Node A)
  first_child i nil = none
  first_child i (free ns) = first_child (suc i) ns
  first_child i (used ch ns) = some (i, ch)

  -- `CT_merge_node`, where `realloc` gives memory or not. It is called with a child only.
  abbrev pub merged : List ℕ → ℕ → Node A → Node A
  merged key k (node key' v s o n ns) = node (key ++ k ∷ key') v s o n ns

  abbrev pub merge_first : Node A → Option (ℕ × Node A) → Node A
  merge_first nd none = nd
  merge_first (node key v s o n ns) (some (i, ch)) = merged key (i + o * block_sz) ch

  abbrev pub merge_node : Bool → Node A → Node A
  merge_node false nd = nd
  merge_node true (node key v s o n ns) = merge_first (node key v s o n ns) (first_child 0 ns)

  abbrev pub has_item : Option A → Bool
  has_item none = false
  has_item (some x) = true

  -- `CT_dec_node` of a node that is not the root.
  abbrev pub dec_node : Bool → Node A → Node A
  dec_node m (node key v s o n ns) =
      if s - 1 == 0
      then node key v 0 o n nil
      else (if s - 1 == 1
          then elim v [
            | none ↦ merge_node m (node key none (s - 1) o n ns)
            | some x ↦ node key (some x) (s - 1) o n ns
          ]
          else node key v (s - 1) o n ns)

  -- `CT_pop` where the name ends: the item, and the node, which is NULL when it is freed.
  abbrev pub pop_here : Bool → Node A → Option A × Option (Node A)
  pop_here m (node key v s o n ns) = if s == 0 then (v, none) else (
    v,
    some (if s == 1 then merge_node m (node key none s o n ns) else node key none s o n ns),
  )

  abbrev pub pop_child : Bool → Node A → ℕ → Option A × Option (Node A) → Option A × Option (Node A)
  pop_child m (node key v s o n ns) c (x, none) =
      (x, some (dec_node m (node key v s o n (put_slot ns (c - o * block_sz) none))))
  pop_child m (node key v s o n ns) c (x, some ch) =
      (x, some (node key v s o n (put_slot ns (c - o * block_sz) (some ch))))

  -- `CT_pop`, at the place `rest` of the key of the node.
  unfoldable pub pop_from : Bool → List ℕ → List ℕ → Node A → Option A × Option (Node A)
  pop_from m [] [] nd = pop_here m nd
  pop_from m [] (r ∷ rs) nd = (none, some nd)
  pop_from m (c ∷ cs) (r ∷ rs) nd =
      let found = pop_from m cs rs nd in if c == r then found else (none, some nd)
  pop_from m (c ∷ cs) [] nd = elim (child_of nd c) [
    | none ↦ (none, some nd)
    | some ch ↦ pop_child m nd c (pop_from m cs (key_of ch) ch)
  ]

  abbrev pub with_popped : Ct A → ℕ → Option A × Option (Node A) → Option A × Ct A
  with_popped t c (x, p) = (
    x,
    record t {
      len = if has_item x then (t.len + 2 ^ 32 - 1) % 2 ^ 32 else t.len;
      nodes = put_slot t.nodes (c - t.offset * block_sz) p;
    },
  )

  -- `ct_pop`
  unfoldable pub ct_pop : Bool → Ct A → List ℕ → Option A × Ct A
  ct_pop m t [] = (none, t)
  ct_pop m t (c ∷ cs) = elim (child t.offset t.n t.nodes c) [
    | none ↦ (none, t)
    | some nd ↦ with_popped t c (pop_from m cs (key_of nd) nd)
  ]
