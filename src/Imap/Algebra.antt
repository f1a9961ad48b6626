-- ===== src/Imap/Algebra.antt =====
-- src/imap/imap.c: the union, intersection, difference and symmetric difference of two maps.
-- The source map is destroyed, so that a function returns `dest` and the releases it makes, in order:
-- `decref` where `vec_object_decref` is called (a reference is left), `callback` where `decref_cb` is.
-- Both maps hold the same item at an id that both have (asserted in the code). `depth` levels are
-- walked at most. A failed allocation aborts the process, so that memory is always given here.
pub mod Union
pub mod UnionNode
use siridb_server.Base.{
  ℕ, zero, suc, ◌+◌, ◌-◌, ◌*◌, ◌%◌, ◌^◌, Bool, true, false, Option, none, some, List, [], ◌∷◌, ◌++◌,
  not, ◌&&◌, ◌||◌, ◌==◌, if◌then◌else◌,
}
use siridb_server.Imap.Tree.{
  Node, Nodes, node, nil, cons, node_sz, empty_node, size, key, value, nodes, with_value, index,
  is_null, is_none, get_node, node_grow,
}
use siridb_server.Imap.{Imap, levels}

pub data Release (A : Type 0) : Type 0 where
  decref callback : A → Release A

-- The counter of `dest`, the child of `dest`, the releases. The counter wraps at `w`: it is the
-- `uint32_t` of a node or the `size_t` of a map.
abbrev pub Step : Type 0 → Type 0
Step A = ℕ × Node A × List (Release A)

-- What the body of a loop does with a child of `dest` and its counterpart in the source.
abbrev pub Visit : Type 0 → Type 0
Visit A = ℕ → Node A → Node A → Step A

-- The recursive function on two nodes that both have children.
abbrev pub Meet : Type 0 → Type 0
Meet A = Node A → Node A → Node A × List (Release A)

module _ {A : Type 0} where
  -- `IMAP_ensure_node`
  abbrev pub ensure_node : Node A → ℕ → Node A
  ensure_node n i = elim (get_node n i) [ some c ↦ c | none ↦ empty_node ]

  -- `IMAP_node_free_cb`
  abbrev mutual
    pub free_node : Node A → List (Release A)
    free_node (node s k none ns) = free_nodes ns
    free_node (node s k (some x) ns) = callback x ∷ free_nodes ns

    pub free_nodes : Nodes A → List (Release A)
    free_nodes nil = []
    free_nodes (cons n ns) = free_node n ++ free_nodes ns

  -- `for (i = …; i < m; i++)` over the children of `dest`.
  unfoldable pub each_child : Visit A → ℕ → ℕ → Nodes A → Node A → ℕ × Nodes A × List (Release A)
  each_child visit s i nil n = (s, nil, [])
  each_child visit s i (cons d ds) n =
      let (s1, d1, e1) = visit s d (ensure_node n i) in
      let (s2, ds2, e2) = each_child visit s1 (i + 1) ds n in (s2, cons d1 ds2, e1 ++ e2)

  -- The same over the root nodes of two maps.
  unfoldable pub each_root : Visit A → ℕ → Nodes A → Nodes A → ℕ × Nodes A × List (Release A)
  each_root visit s nil ns = (s, nil, [])
  each_root visit s (cons d ds) nil = (s, cons d ds, [])
  each_root visit s (cons d ds) (cons n ns) =
      let (s1, d1, e1) = visit s d n in
      let (s2, ds2, e2) = each_root visit s1 ds ns in (s2, cons d1 ds2, e1 ++ e2)

  -- A node after the loop over its children.
  abbrev pub visit_children : Visit A → Node A → Node A → Node A × List (Release A)
  visit_children visit (node s k x ns) n =
      let (s', ns', e) = each_child visit s (k % 32) ns n in (node s' k x ns', e)

  -- `if (!dest->size) { IMAP_node_free(dest); dest->nodes = NULL; }`
  abbrev pub free_empty : Node A → Node A
  free_empty (node s k x ns) = node s k x (if s == 0 then nil else ns)

  -- `if (dest->key != IMAP_NODE_SZ && node->key != dest->key && IMAP_node_grow(dest)) abort();`
  abbrev pub make_room : Node A → Node A → Node A
  make_room d n = if key d == node_sz || key n == key d then d else node_grow d

  -- `dest->size += dest_nd->size - tmp` and `dest->size -= tmp - dest_nd->size`.
  abbrev pub recount : ℕ → ℕ → Node A → Node A → ℕ
  recount w s d d' = (s + size d' + (w - size d % w)) % w

  -- The children of the source become those of `dest`.
  abbrev pub take_over : ℕ → ℕ → Node A → Node A → ℕ × Node A
  take_over w s d n = ((s + size n) % w, node (size n) (key n) (value d) (nodes n))

  -- The item of a child, in each of the four.
  abbrev pub union_item : ℕ → ℕ → Node A → Option A → Step A
  union_item w s d none = (s, d, [])
  union_item w s (node t k none ds) (some x) = ((s + 1) % w, node t k (some x) ds, [])
  union_item w s (node t k (some y) ds) (some x) = (s, node t k (some y) ds, decref x ∷ [])

  abbrev pub intersection_item : ℕ → ℕ → Node A → Option A → Step A
  intersection_item w s d (some x) = (s, d, callback x ∷ [])
  intersection_item w s (node t k none ds) none = (s, node t k none ds, [])
  intersection_item w s (node t k (some y) ds) none =
      ((s + w - 1) % w, node t k none ds, callback y ∷ [])

  abbrev pub difference_item : ℕ → ℕ → Node A → Option A → Step A
  difference_item w s d none = (s, d, [])
  difference_item w s (node t k none ds) (some x) = (s, node t k none ds, callback x ∷ [])
  difference_item w s (node t k (some y) ds) (some x) =
      ((s + w - 1) % w, node t k none ds, decref y ∷ callback x ∷ [])

  abbrev pub symmetric_item : ℕ → ℕ → Node A → Option A → Step A
  symmetric_item w s d none = (s, d, [])
  symmetric_item w s (node t k none ds) (some x) = ((s + 1) % w, node t k (some x) ds, [])
  symmetric_item w s (node t k (some y) ds) (some x) =
      ((s + w - 1) % w, node t k none ds, decref y ∷ callback x ∷ [])

  -- The nodes below a child in the union and the symmetric difference, …
  abbrev pub merge_below : Meet A → ℕ → Step A → Node A → Step A
  merge_below meet w (s, d, e) n =
      let (d', e') = meet d n in
      let (s', taken) = take_over w s d n in
      if is_null (nodes n)
      then (s, d, e)
      else (if is_null (nodes d) then (s', taken, e) else (recount w s d d', d', e ++ e'))

  -- … in the difference, …
  abbrev pub difference_below : Meet A → ℕ → Step A → Node A → Step A
  difference_below meet w (s, d, e) n =
      let (d', e') = meet d n in
      if is_null (nodes n)
      then (s, d, e)
      else (if is_null (nodes d)
          then (s, d, e ++ free_nodes (nodes n))
          else (recount w s d d', d', e ++ e'))

  -- … and in the intersection.
  abbrev pub intersection_below : Meet A → ℕ → Step A → Node A → Step A
  intersection_below meet w (s, d, e) n =
      let (d', e') = meet d n in
      if is_null (nodes n)
      then (if is_null (nodes d) then (s, d, e) else (
        (s + (w - size d % w)) % w,
        node 0 (key d) (value d) nil,
        e ++ free_nodes (nodes d),
      ))
      else (if is_null (nodes d)
          then (s, d, e ++ free_nodes (nodes n))
          else (recount w s d d', d', e ++ e'))

  -- The bodies of the loops.
  abbrev pub union_visit : Meet A → ℕ → Visit A
  union_visit meet w s d n = merge_below meet w (union_item w s d (value n)) n

  abbrev pub intersection_visit : Meet A → ℕ → Visit A
  intersection_visit meet w s d n = intersection_below meet w (intersection_item w s d (value n)) n

  abbrev pub difference_visit : Meet A → ℕ → Visit A
  difference_visit meet w s d n = difference_below meet w (difference_item w s d (value n)) n

  abbrev pub symmetric_visit : Meet A → ℕ → Visit A
  symmetric_visit meet w s d n = merge_below meet w (symmetric_item w s d (value n)) n

  -- `IMAP_union_ref`
  unfoldable pub union_node : ℕ → Meet A
  union_node zero d n = (d, [])
  union_node (suc depth) d n =
      visit_children (union_visit (union_node depth) (2 ^ 32)) (make_room d n) n

  -- `IMAP_intersection_ref`
  unfoldable pub intersection_node : ℕ → Meet A
  intersection_node zero d n = (d, [])
  intersection_node (suc depth) d n =
      let (d', e) = visit_children (intersection_visit (intersection_node depth) (2 ^ 32)) d n in
      (free_empty d', e)

  -- `IMAP_difference_ref`. A child that has become empty has freed its array by then.
  unfoldable pub difference_node : ℕ → Meet A
  difference_node zero d n = (d, [])
  difference_node (suc depth) d n =
      let (d', e) = visit_children (difference_visit (difference_node depth) (2 ^ 32)) d n in
      (free_empty d', e)

  -- `IMAP_symmetric_difference_ref`
  unfoldable pub symmetric_node : ℕ → Meet A
  symmetric_node zero d n = (d, [])
  symmetric_node (suc depth) d n =
      let (d', e) =
        visit_children (symmetric_visit (symmetric_node depth) (2 ^ 32)) (make_room d n) n in
      (free_empty d', e)

  -- A map after the loop over the roots; its vector was freed before.
  abbrev pub visit_roots : Visit A → Imap A → Imap A → Imap A × List (Release A)
  visit_roots visit dest imap =
      let (len, roots, e) = each_root visit dest.len dest.roots imap.roots in
      (record { len = len; vec = none; roots = roots }, e)

  abbrev pub without_vec : Imap A → Imap A
  without_vec dest = record dest { vec = none }

  -- `imap_union_ref`
  unfoldable pub imap_union_ref : Imap A → Imap A → Imap A × List (Release A)
  imap_union_ref dest imap =
      if imap.len == 0
      then (without_vec dest, [])
      else visit_roots (union_visit (union_node levels) (2 ^ 64)) dest imap

  -- `imap_intersection_ref`
  unfoldable pub imap_intersection_ref : Imap A → Imap A → Imap A × List (Release A)
  imap_intersection_ref dest imap =
      visit_roots (intersection_visit (intersection_node levels) (2 ^ 64)) dest imap

  -- `imap_difference_ref`
  unfoldable pub imap_difference_ref : Imap A → Imap A → Imap A × List (Release A)
  imap_difference_ref dest imap =
      if imap.len == 0
      then (without_vec dest, [])
      else visit_roots (difference_visit (difference_node levels) (2 ^ 64)) dest imap

  -- `imap_symmetric_difference_ref`
  unfoldable pub imap_symmetric_difference_ref : Imap A → Imap A → Imap A × List (Release A)
  imap_symmetric_difference_ref dest imap =
      if imap.len == 0
      then (without_vec dest, [])
      else visit_roots (symmetric_visit (symmetric_node levels) (2 ^ 64)) dest imap
