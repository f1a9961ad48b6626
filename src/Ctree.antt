-- ===== src/Ctree.antt =====
-- src/ctree/ctree.c, include/ctree/ctree.h: the tree of names, in which series, groups and tags are found.
-- A name is the list of its characters without the final zero; a character is a number from 1 to 255.
-- A node has a part of the name, an item or NULL, the number of its children, and an array of 32 * `n`
-- places for them, from the character 32 * `offset` on. Arrays are owned, and NULL is the empty one.
-- `offset` and `n` stay below 9, and `size` below 256, so that no uint8_t wraps; `len` is a uint32_t that may.
pub mod Child
pub mod Resize
pub mod Count
pub mod Find
pub mod Split
pub mod Part
pub mod Write
pub mod Add
pub mod Tree
pub mod Pop
pub mod Getn
pub mod Names
pub mod Listed
pub mod Items
pub mod Values
pub mod Replay
mod Tests
use siridb_server.Base.{
  ℕ, zero, suc, ◌+◌, ◌-◌, ◌*◌, ◌/◌, ◌%◌, ◌^◌, Bool, true, false, not, ◌&&◌, ◌||◌, Option, none,
  some, List, [], ◌∷◌, ◌++◌, ltb, leb, ◌==◌, if◌then◌else◌,
}

-- BLOCKSZ
abbrev pub block_sz : ℕ
block_sz = 32

-- `ct_node_s`: key, data, size, offset, n, nodes.
mutual
  pub data Node (A : Type 0) : Type 0 where
    node : List ℕ → Option A → ℕ → ℕ → ℕ → Nodes A → Node A

  pub data Nodes (A : Type 0) : Type 0 where
    nil : Nodes A
    free : Nodes A → Nodes A
    used : Node A → Nodes A → Nodes A

-- CT_ERR, CT_OK and CT_EXISTS.
pub data CtRc : Type 0 where
  ct_err ct_ok ct_exists : CtRc

-- Whether memory is given for a new array of `CT_add`, for the rest of a node that is split, for an array
-- in `CT_node_resize`, and for a new leaf.
pub record Mem : Type 0 where
  pub new_nodes : Bool
  pub rest : Bool
  pub resize : Bool
  pub leaf : Bool

-- `ct_s`
pub record Ct (A : Type 0) : Type 0 where
  pub len : ℕ
  pub offset : ℕ
  pub n : ℕ
  pub nodes : Nodes A

-- What `CT_node_resize` does: whether it succeeds, and `offset`, `n` and `nodes` afterwards.
abbrev pub Resized : Type 0 → Type 0
Resized A = Bool × ℕ × ℕ × Nodes A

module _ {A : Type 0} where
  abbrev pub key_of : Node A → List ℕ
  key_of (node key v s o n ns) = key

  abbrev pub is_null : Nodes A → Bool
  is_null nil = true
  is_null (free ns) = false
  is_null (used c ns) = false

  -- `(*nodes)[i]`
  abbrev pub slot : Nodes A → ℕ → Option (Node A)
  slot nil i = none
  slot (free ns) zero = none
  slot (free ns) (suc i) = slot ns i
  slot (used c ns) zero = some c
  slot (used c ns) (suc i) = slot ns i

  abbrev pub cons_slot : Option (Node A) → Nodes A → Nodes A
  cons_slot none ns = free ns
  cons_slot (some c) ns = used c ns

  abbrev pub put_slot : Nodes A → ℕ → Option (Node A) → Nodes A
  put_slot nil i v = nil
  put_slot (free ns) zero v = cons_slot v ns
  put_slot (free ns) (suc i) v = free (put_slot ns i v)
  put_slot (used c ns) zero v = cons_slot v ns
  put_slot (used c ns) (suc i) v = used c (put_slot ns i v)

  -- Free places before and behind the others.
  abbrev pub free_before : ℕ → Nodes A → Nodes A
  free_before zero ns = ns
  free_before (suc k) ns = free (free_before k ns)

  abbrev pub free_behind : ℕ → Nodes A → Nodes A
  free_behind k nil = free_before k nil
  free_behind k (free ns) = free (free_behind k ns)
  free_behind k (used c ns) = used c (free_behind k ns)

  -- The child for the character `k`: nothing where `k` is out of range.
  abbrev pub child : ℕ → ℕ → Nodes A → ℕ → Option (Node A)
  child o n ns k =
      if ltb (k / block_sz) o || leb (o + n) (k / block_sz)
      then none
      else slot ns (k - o * block_sz)

  abbrev pub child_of : Node A → ℕ → Option (Node A)
  child_of (node key v s o n ns) k = child o n ns k

  -- `CT_node_resize`
  abbrev pub node_resize : Bool → ℕ → ℕ → Nodes A → ℕ → Resized A
  node_resize mem o n ns pos =
      if is_null ns
      then (if mem then (true, pos, 1, free_before block_sz nil) else (false, o, n, ns))
      else (if ltb pos o
          then (if mem
              then (true, pos, n + (o - pos), free_before (block_sz * (o - pos)) ns)
              else (false, o, n, ns))
          else (if leb (o + n) pos
              then (if mem
                  then (
                    true,
                    o,
                    n + (pos - o - n + 1),
                    free_behind (block_sz * (pos - o - n + 1)) ns,
                  )
                  else (false, o, n, ns))
              else (true, o, n, ns)))

  -- `CT_node_new`, where memory is given.
  abbrev pub node_new : List ℕ → Option A → Node A
  node_new key v = node key v 0 255 0 nil

  -- `CT_add`, where the name ends or parts from the key of the node, at the character `r`: `pre` is the key
  -- before it, `rs` the key behind it, and `cs` what is left of the name.
  abbrev pub split_end : List ℕ → A → ℕ → Node A → Node A
  split_end pre x r rest =
      node pre (some x) 1 (r / block_sz) 1
        (put_slot (free_before block_sz nil) (r % block_sz) (some rest))

  abbrev pub split_new : Mem → Node A → List ℕ → A → ℕ → List ℕ → Resized A → CtRc × Node A
  split_new m (node key v s o n ns) pre x c cs (false, o', n', ns') =
      (ct_err, node key v s o' n' ns')
  split_new m (node key v s o n ns) pre x c cs (true, o', n', ns') =
      if m.leaf
      then (
        ct_ok,
        node pre none 2 o' n' (put_slot ns' (c - o' * block_sz) (some (node_new cs (some x)))),
      )
      else (ct_err, node key v s o' n' ns')

  abbrev pub split : Mem → Node A → List ℕ → A → ℕ → Node A → List ℕ → CtRc × Node A
  split m nd pre x r rest [] = (ct_ok, split_end pre x r rest)
  split m nd pre x r rest (c ∷ cs) = split_new m nd pre x c cs (
      node_resize m.resize (r / block_sz) 1
        (put_slot (free_before block_sz nil) (r % block_sz) (some rest)) (c / block_sz))

  abbrev pub rest_of : List ℕ → Node A → Node A
  rest_of rs (node key v s o n ns) = node rs v s o n ns

  abbrev pub split_at : Mem → Node A → List ℕ → ℕ → List ℕ → List ℕ → A → CtRc × Node A
  split_at m nd pre r rs cs x =
      if m.new_nodes && m.rest then split m nd pre x r (rest_of rs nd) cs else (ct_err, nd)

  -- The end of the name is the node.
  abbrev pub add_here : A → Node A → CtRc × Node A
  add_here x (node key (some y) s o n ns) = (ct_exists, node key (some y) s o n ns)
  add_here x (node key none s o n ns) = (ct_ok, node key (some x) s o n ns)

  -- The child of a node is changed, or there is a new one.
  abbrev pub in_child : Node A → ℕ → Resized A → CtRc × Node A → CtRc × Node A
  in_child (node key v s o n ns) c (done, o', n', ns') (rc, ch) =
      (rc, node key v s o' n' (put_slot ns' (c - o' * block_sz) (some ch)))

  abbrev pub new_child : Mem → Node A → ℕ → List ℕ → A → Resized A → CtRc × Node A
  new_child m (node key v s o n ns) c cs x (done, o', n', ns') =
      if m.leaf
      then (
        ct_ok,
        node key v (if is_null ns then 1 else s + 1) o' n'
            (put_slot ns' (c - o' * block_sz) (some (node_new cs (some x)))),
      )
      else (ct_err, node key v s o' n' ns')

  abbrev pub resize_for : Mem → Node A → ℕ → Resized A
  resize_for m (node key v s o n ns) c = node_resize m.resize o n ns (c / block_sz)

  -- `CT_add`, at the place `rest` of the key of the node, behind `pre`.
  unfoldable pub add_from : Mem → A → List ℕ → List ℕ → List ℕ → Node A → CtRc × Node A
  add_from m x [] pre [] nd = add_here x nd
  add_from m x [] pre (r ∷ rs) nd = split_at m nd pre r rs [] x
  add_from m x (c ∷ cs) pre (r ∷ rs) nd =
      if c == r then add_from m x cs (pre ++ r ∷ []) rs nd else split_at m nd pre r rs (c ∷ cs) x
  add_from m x (c ∷ cs) pre [] nd =
      let r = resize_for m nd c in
      let place = slot r.3 (c - r.1 * block_sz) in
      if r.0
      then (elim place [
        | none ↦ new_child m nd c cs x r
        | some ch ↦ in_child nd c r (add_from m x cs [] (key_of ch) ch)
      ])
      else (ct_err, nd)

  -- `ct_new`, where memory is given.
  abbrev pub ct_new : Ct A
  ct_new = record { len = 0; offset = 255; n = 0; nodes = nil }

  abbrev pub with_child : Ct A → ℕ → Resized A → CtRc × Node A → CtRc × Ct A
  with_child t c (done, o, n, ns) (rc, ch) = (
    rc,
    record {
      len = elim rc [ ct_err ↦ t.len | ct_ok ↦ (t.len + 1) % 2 ^ 32 | ct_exists ↦ t.len ];
      offset = o;
      n = n;
      nodes = put_slot ns (c - o * block_sz) (some ch);
    },
  )

  -- `ct_add`
  unfoldable pub ct_add : Mem → Ct A → List ℕ → A → CtRc × Ct A
  ct_add m t [] x = (ct_exists, t)
  ct_add m t (c ∷ cs) x =
      let r = node_resize m.resize t.offset t.n t.nodes (c / block_sz) in
      let grown = record t { offset = r.1; n = r.2; nodes = r.3 } in
      if r.0
      then (elim (slot r.3 (c - r.1 * block_sz)) [
        | some nd ↦ with_child t c r (add_from m x cs [] (key_of nd) nd)
        | none ↦ if m.leaf then with_child t c r (ct_ok, node_new cs (some x)) else (ct_err, grown)
      ])
      else (ct_err, t)

  -- The loop of `ct_getaddr`, at the place `rest` of the key of the node; `strncmp` goes from character to
  -- character.
  unfoldable pub get_from : List ℕ → List ℕ → Node A → Option A
  get_from [] [] (node key v s o n ns) = v
  get_from [] (r ∷ rs) nd = none
  get_from (c ∷ cs) (r ∷ rs) nd = if c == r then get_from cs rs nd else none
  get_from (c ∷ cs) [] nd = elim (child_of nd c) [
    | none ↦ none
    | some ch ↦ get_from cs (key_of ch) ch
  ]

  abbrev pub get_child : Option (Node A) → List ℕ → Option A
  get_child none cs = none
  get_child (some nd) cs = get_from cs (key_of nd) nd

  -- `ct_get`
  unfoldable pub ct_get : Ct A → List ℕ → Option A
  ct_get t [] = none
  ct_get t (c ∷ cs) = get_child (child t.offset t.n t.nodes c) cs
