-- ===== src/Imap.antt =====
-- src/imap/imap.c, the functions on a whole map: 32 root nodes, the number of items, and a vector of
-- all items that is kept once it was asked for (`imap_vec`). Stored pointers are never NULL. `mem`
-- answers the allocations of `IMAP_set` and `IMAP_add`, a level at a time, and `vmem` those of vec.c.
pub mod Tree
pub mod Valid
pub mod Set
pub mod Add
pub mod Pop
pub mod Cache
pub mod Caching
pub mod Algebra
pub mod Walk
mod Tests
use siridb_server.Base.{
  ℕ, zero, suc, ◌+◌, ◌-◌, ◌/◌, ◌%◌, ◌^◌, Bool, true, false, Option, none, some, List, [], ◌∷◌, ◌==◌,
  if◌then◌else◌,
}
use siridb_server.Vec.{Vec, vec_new, vec_copy, vec_append, vec_append_safe}
use siridb_server.Imap.Tree.{
  Node, Nodes, node, nil, cons, node_sz, value, with_value, index, put, zeros, is_none, is_null,
  SetRc, added, overwritten, set_no_mem, AddRc, add_ok, add_exists, add_no_mem, set_grown, node_set,
  node_add, node_get, node_pop, nodes,
}

pub record Imap (A : Type 0) : Type 0 where
  pub len : ℕ
  pub vec : Option (Vec A)
  pub roots : Nodes A

-- The levels below a root that a 64-bit id can need: 32 ^ 13 = 2 ^ 65.
abbrev pub levels : ℕ
levels = 13

-- `imap->len` after `imap_add`: a failure returns before it changes.
abbrev pub add_len : AddRc → ℕ → ℕ
add_len add_ok len = (len + 1) % 2 ^ 64
add_len add_exists len = len
add_len add_no_mem len = len

module _ {A : Type 0} where
  -- `imap_new`
  pub imap_new : Bool → Option (Imap A)
  imap_new mem = if mem then some (record { len = 0; vec = none; roots = zeros node_sz }) else none

  -- `vec_append_safe(&imap->vec, data)`, and the vector is freed where that fails.
  abbrev pub cache_append : Bool → Option (Vec A) → A → Option (Vec A)
  cache_append vmem none x = none
  cache_append vmem (some v) x =
      let (done, v') = vec_append_safe vmem v x in if done then some v' else none

  -- `imap->vec` after `imap_set`: kept only if an item was added.
  abbrev pub set_cache : Bool → SetRc → Option (Vec A) → A → Option (Vec A)
  set_cache vmem added c x = cache_append vmem c x
  set_cache vmem overwritten c x = none
  set_cache vmem set_no_mem c x = none

  -- The root node after `imap_set`, and the code.
  pub root_set : (ℕ → Bool) → Node A → ℕ → A → SetRc × Node A
  root_set mem n id x =
      if id / node_sz == 0
      then ((if is_none (value n) then added else overwritten), with_value n (some x))
      else node_set levels mem n (id / node_sz - 1) x

  -- `imap_set`
  pub imap_set : (ℕ → Bool) → Bool → Imap A → ℕ → A → SetRc × Imap A
  imap_set mem vmem m id x =
      let (rc, n) = root_set mem (index m.roots (id % node_sz)) id x in
      (
        rc,
        record {
          len = (m.len + set_grown rc) % 2 ^ 64;
          vec = set_cache vmem rc m.vec x;
          roots = put m.roots (id % node_sz) n;
        },
      )

  -- The root node after `imap_add`, and the code.
  pub root_add : (ℕ → Bool) → Node A → ℕ → A → AddRc × Node A
  root_add mem n id x =
      if id / node_sz == 0
      then (if is_none (value n) then (add_ok, with_value n (some x)) else (add_exists, n))
      else node_add levels mem n (id / node_sz - 1) x

  -- `imap->vec` after `imap_add`.
  abbrev pub add_cache : Bool → AddRc → Option (Vec A) → A → Option (Vec A)
  add_cache vmem add_ok c x = cache_append vmem c x
  add_cache vmem add_exists c x = c
  add_cache vmem add_no_mem c x = c

  -- `imap_add`
  pub imap_add : (ℕ → Bool) → Bool → Imap A → ℕ → A → AddRc × Imap A
  imap_add mem vmem m id x =
      let (rc, n) = root_add mem (index m.roots (id % node_sz)) id x in
      (
        rc,
        record {
          len = add_len rc m.len;
          vec = add_cache vmem rc m.vec x;
          roots = put m.roots (id % node_sz) n;
        },
      )

  -- `imap_get`
  pub imap_get : Imap A → ℕ → Option A
  imap_get m id = node_get (suc levels) (index m.roots (id % node_sz)) id

  -- The root node after `imap_pop`, and the item.
  pub root_pop : Node A → ℕ → Option A × Node A
  root_pop n id =
      if id / node_sz == 0
      then (value n, with_value n none)
      else (if is_null (nodes n) then (none, n) else node_pop levels n (id / node_sz - 1))

  -- `imap_pop`
  pub imap_pop : Imap A → ℕ → Option A × Imap A
  imap_pop m id =
      let (r, n) = root_pop (index m.roots (id % node_sz)) id in
      (
        r,
        record {
          len = (if is_none r then m.len else (m.len + 2 ^ 64 - 1) % 2 ^ 64);
          vec = (if is_none r then m.vec else none);
          roots = put m.roots (id % node_sz) n;
        },
      )

  -- `IMAP_2vec` over an array of nodes, and the loop of `imap_vec` over the roots.
  abbrev mutual
    pub push_node : Node A → Vec A → Vec A
    push_node (node s k none ns) v = push_nodes ns v
    push_node (node s k (some x) ns) v = push_nodes ns (vec_append v x)

    pub push_nodes : Nodes A → Vec A → Vec A
    push_nodes nil v = v
    push_nodes (cons n ns) v = push_nodes ns (push_node n v)

  -- The vector that `imap_vec` makes where none is kept.
  pub fill_vec : Bool → Imap A → Option (Vec A)
  fill_vec vmem m = elim (vec_new {A = A} vmem m.len) [
    | none ↦ none
    | some v ↦ some (if m.len == 0 then v else push_nodes m.roots v)
  ]

  -- `imap_vec`: the vector, which the map keeps.
  pub imap_vec : Bool → Imap A → Option (Vec A) × Imap A
  imap_vec vmem m =
      let v : Option (Vec A) = elim m.vec [ some v ↦ some v | none ↦ fill_vec vmem m ] in
      (v, record m { vec = v })

  -- `imap_vec_pop`
  pub imap_vec_pop : Bool → Imap A → Option (Vec A) × Imap A
  imap_vec_pop vmem m = let (v, m') = imap_vec vmem m in (v, record m' { vec = none })

  -- `imap_2vec`
  pub imap_2vec : Bool → Bool → Imap A → Option (Vec A) × Imap A
  imap_2vec vmem cmem m =
      let (v, m') = imap_vec vmem m in (elim v [ none ↦ none | some w ↦ vec_copy cmem w ], m')
