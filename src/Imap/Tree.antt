-- ===== src/Imap/Tree.antt =====
-- src/imap/imap.c, the `IMAP_*` functions: a node of the tree and the array of its children.
-- A node keeps one child (its index in `key`) or all 32 (then `key` is 32). `size` counts the items
-- below it, as a `uint32_t`. Children are owned, so an array is a list and NULL is the empty one.
pub mod Arrays
pub mod Find
pub mod Place
pub mod Child
pub mod Set
pub mod SetCount
pub mod Add
pub mod Drop
pub mod Pop
pub mod Values
pub mod Kept
use siridb_server.Base.{
  ℕ, zero, suc, ◌+◌, ◌-◌, ◌/◌, ◌%◌, ◌^◌, Bool, true, false, ◌||◌, Option, none, some, ◌==◌,
  if◌then◌else◌,
}

-- `IMAP_NODE_SZ`
abbrev pub node_sz : ℕ
node_sz = 32

-- `imap_node_t`: size, key, data, nodes.
mutual
  pub data Node (A : Type 0) : Type 0 where
    node : ℕ → ℕ → Option A → Nodes A → Node A

  pub data Nodes (A : Type 0) : Type 0 where
    nil : Nodes A
    cons : Node A → Nodes A → Nodes A

-- The codes of `imap_set` (1, 0, -1) and of `imap_add` (0, -2, -1).
pub data SetRc : Type 0 where
  added overwritten set_no_mem : SetRc

pub data AddRc : Type 0 where
  add_ok add_exists add_no_mem : AddRc

-- The place in `nodes` that `IMAP_unsafe_node` gives.
abbrev pub place : ℕ → ℕ → ℕ
place k i = if k == node_sz then i else 0

abbrev pub set_grown : SetRc → ℕ
set_grown added = 1
set_grown overwritten = 0
set_grown set_no_mem = 0

abbrev pub add_grown : AddRc → ℕ
add_grown add_ok = 1
add_grown add_exists = 0
add_grown add_no_mem = 0

module _ {A : Type 0} where
  -- `IMAP_empty_node`, and a node of `calloc`.
  abbrev pub empty_node : Node A
  empty_node = node 0 0 none nil

  abbrev pub size : Node A → ℕ
  size (node s k d ns) = s

  abbrev pub key : Node A → ℕ
  key (node s k d ns) = k

  abbrev pub value : Node A → Option A
  value (node s k d ns) = d

  abbrev pub nodes : Node A → Nodes A
  nodes (node s k d ns) = ns

  abbrev pub with_value : Node A → Option A → Node A
  with_value (node s k d ns) d' = node s k d' ns

  -- `nodes + i`
  abbrev pub index : Nodes A → ℕ → Node A
  index nil i = empty_node
  index (cons n ns) zero = n
  index (cons n ns) (suc i) = index ns i

  abbrev pub put : Nodes A → ℕ → Node A → Nodes A
  put nil i c = nil
  put (cons n ns) zero c = cons c ns
  put (cons n ns) (suc i) c = cons n (put ns i c)

  -- `calloc(n, sizeof(imap_node_t))`
  abbrev pub zeros : ℕ → Nodes A
  zeros zero = nil
  zeros (suc n) = cons empty_node (zeros n)

  abbrev pub is_null : Nodes A → Bool
  is_null nil = true
  is_null (cons n ns) = false

  abbrev pub is_none : Option A → Bool
  is_none none = true
  is_none (some x) = false

  -- `IMAP_get_node`
  abbrev pub get_node : Node A → ℕ → Option (Node A)
  get_node (node s k d ns) i =
      if k == node_sz then some (index ns i) else (if k == i then some (index ns 0) else none)

  -- `IMAP_node_grow`, where memory is given.
  unfoldable pub node_grow : Node A → Node A
  node_grow (node s k d ns) = node s node_sz d (put (zeros node_sz) k (index ns 0))

  -- The start of `IMAP_set` and of `IMAP_add`: give the node a place for child `i`.
  unfoldable pub ensure_place : Bool → Node A → ℕ → Bool × Node A
  unfolding node_grow
  ensure_place mem (node s k d ns) i =
      if s == 0
      then (if mem then (true, node s i d (cons empty_node nil)) else (false, node s k d nil))
      else (if k == i || k == node_sz
          then (true, node s k d ns)
          else (if mem then (true, node_grow (node s k d ns)) else (false, node s k d ns)))

  -- The node after its child `i` became `c`, with `grown` more items below (`node->size += …`).
  abbrev pub set_child : Node A → ℕ → Node A → ℕ → Node A
  set_child (node s k d ns) i c grown = node ((s + grown) % 2 ^ 32) k d (put ns (place k i) c)

  -- `IMAP_unsafe_node`
  abbrev pub unsafe_node : Node A → ℕ → Node A
  unsafe_node (node s k d ns) i = index ns (place k i)

  -- `IMAP_set` on `depth` levels. `mem d` says whether the allocation made with `d` levels to go
  -- succeeds: a level makes one at most.
  unfoldable pub node_set : ℕ → (ℕ → Bool) → Node A → ℕ → A → SetRc × Node A
  node_set zero mem n id x = (set_no_mem, n)
  node_set (suc depth) mem n id x =
      let (placed, n') = ensure_place (mem depth) n (id % node_sz) in
      let child = unsafe_node n' (id % node_sz) in
      let deeper = node_set depth mem child (id / node_sz - 1) x in
      if placed
      then (if id / node_sz == 0
          then (let rc = if is_none (value child) then added else overwritten in
              (rc, set_child n' (id % node_sz) (with_value child (some x)) (set_grown rc)))
          else (deeper.0, set_child n' (id % node_sz) deeper.1 (set_grown deeper.0)))
      else (set_no_mem, n')

  -- `IMAP_add`
  unfoldable pub node_add : ℕ → (ℕ → Bool) → Node A → ℕ → A → AddRc × Node A
  node_add zero mem n id x = (add_no_mem, n)
  node_add (suc depth) mem n id x =
      let (placed, n') = ensure_place (mem depth) n (id % node_sz) in
      let child = unsafe_node n' (id % node_sz) in
      let deeper = node_add depth mem child (id / node_sz - 1) x in
      if placed
      then (if id / node_sz == 0
          then (if is_none (value child)
              then (add_ok, set_child n' (id % node_sz) (with_value child (some x)) 1)
              else (add_exists, n'))
          else (deeper.0, set_child n' (id % node_sz) deeper.1 (add_grown deeper.0)))
      else (add_no_mem, n')

  -- The loop of `imap_get` from `id /= IMAP_NODE_SZ` on, for `depth` levels.
  unfoldable pub node_get : ℕ → Node A → ℕ → Option A
  node_get zero n id = none
  node_get (suc depth) n id =
      let next = get_node n ((id / node_sz - 1) % node_sz) in
      let deeper : Option A = elim next [
        | none ↦ none
        | some c ↦ node_get depth c (id / node_sz - 1)
      ] in
      if id / node_sz == 0 then value n else (if is_null (nodes n) then none else deeper)

  -- The item below a node has gone: `--node->size`, and the array is freed with the last one.
  abbrev pub drop_child : Node A → ℕ → Node A → Node A
  drop_child (node s k d ns) i c =
      let s' = (s + 2 ^ 32 - 1) % 2 ^ 32 in
      node s' k d (if s' == 0 then nil else put ns (place k i) c)

  -- `IMAP_pop`. A call that returns NULL has changed nothing.
  unfoldable pub node_pop : ℕ → Node A → ℕ → Option A × Node A
  node_pop zero n id = (none, n)
  node_pop (suc depth) n id = elim (get_node n (id % node_sz)) [
    | none ↦ (none, n)
    | some c ↦
        let deeper = node_pop depth c (id / node_sz - 1) in
        if id / node_sz == 0
        then (if is_none (value c)
            then (none, n)
            else (value c, drop_child n (id % node_sz) (with_value c none)))
        else (if is_null (nodes c) || is_none deeper.0
            then (none, n)
            else (deeper.0, drop_child n (id % node_sz) deeper.1))
  ]
