-- ===== src/Imap/Tests.antt =====
-- Concrete maps, and the theorems at concrete inputs.

use mathlib.Core.List.Perm
use siridb_server.Base.{
  ℕ, ◌+◌, ◌≡◌, ◌≢◌, refl, ◌⊎◌, Bool, true, none, some, [], ◌∷◌, arith, ◌==◌, if◌then◌else◌,
}
use siridb_server.Imap.{
  Imap, imap_new, imap_set, imap_add, imap_get, imap_pop, imap_vec, root_set, root_add, root_pop,
}
use siridb_server.Imap.Tree.{
  node, nil, cons, put, overwritten, add_no_mem, set_no_mem, add_exists, zeros, ensure_place,
  node_set, node_add, node_get, node_pop, node_grow, set_grown, add_grown, is_none,
}
use siridb_server.Imap.Tree.SetCount.{set_code}
use siridb_server.Imap.Tree.Set.{set_found}
use siridb_server.Imap.Tree.Add.{add_code, add_found}
use siridb_server.Imap.Tree.Arrays.{zeros-AllValid, put-AllValid}
use siridb_server.Imap.Valid.{IsValid}
use siridb_server.Imap.Set.{imap_set_lem}
use siridb_server.Imap.Add.{imap_add_lem}
use siridb_server.Imap.Pop.{imap_pop_lem}
use siridb_server.Imap.Cache.{Caches, imap_vec_lem}
use siridb_server.Imap.Caching.{imap_set-Caches}
use siridb_server.Imap.Tree.Values.{values}
use siridb_server.Imap.Algebra.{
  imap_union_ref, imap_intersection_ref, imap_difference_ref, imap_symmetric_difference_ref,
  union_node, intersection_node, difference_node, symmetric_node, each_child, each_root, decref,
  callback,
}
use siridb_server.Imap.Algebra.Union.{or_else}
use siridb_server.Imap.Algebra.UnionNode.{imap_union_ref_lem}
use siridb_server.Imap.Walk.{imap_walk, call_all, imap_walk_lem}

abbrev plenty : ℕ → Bool
plenty d = true

abbrev empty : Imap ℕ
empty = record { len = 0; vec = none; roots = zeros 32 }

imap_new-empty : imap_new true ≡ some empty
unfolding imap_new
imap_new-empty = refl

-- One item at id 37, below root 5, and the vector of it.
abbrev one_item : Imap ℕ
one_item = record {
  len = 1;
  vec = some (record { size = 1; items = 70 ∷ [] });
  roots = put (zeros 32) 5 (node 1 0 none (cons (node 0 0 (some 70) nil) nil));
}

imap_set-one_item : (imap_set plenty true empty 37 70).1 ≡ record one_item { vec = none }
unfolding imap_set root_set node_set ensure_place
imap_set-one_item = refl

runs :
    (imap_get (imap_set plenty true one_item 1061 80).1 37 ≡ some 70)
    × (imap_get (imap_set plenty true one_item 1061 80).1 1061 ≡ some 80)
    × ((imap_set plenty true one_item 37 71).0 ≡ overwritten)
    × ((imap_add plenty true one_item 37 71).0 ≡ add_exists)
    × ((imap_pop one_item 37).0 ≡ some 70)
    × (imap_get (imap_pop one_item 37).1 37 ≡ none)
unfolding imap_set imap_get imap_add imap_pop root_set root_add root_pop node_set node_add node_get
    node_pop ensure_place node_grow
runs = (refl, refl, refl, refl, refl, refl)

one_item-IsValid : IsValid one_item
one_item-IsValid = record {
  roots_there = refl;
  nodes_valid =
      put-AllValid {A = ℕ} (zeros 32) 5 (node 1 0 none (cons (node 0 0 (some 70) nil) nil))
        (zeros-AllValid ℕ 32) (omega arith);
  len_counts = refl;
}

one_item-Caches : Caches one_item.vec one_item.roots
one_item-Caches = (Perm.rfl, refl, omega arith)

imap_set_lem_example :
    let (rc, m') = imap_set plenty true one_item 0xffff_ffff_ffff_ffff 9 in
    ((rc ≡ set_no_mem) ⊎ (rc ≡ set_code (imap_get one_item 0xffff_ffff_ffff_ffff)))
    × (((d : ℕ) → plenty d ≡ true) → rc ≢ set_no_mem)
    × ((j : ℕ) → imap_get m' j ≡ set_found rc 0xffff_ffff_ffff_ffff j 9 (imap_get one_item j))
    × IsValid m'
    × (m'.len ≡ 1 + set_grown rc)
imap_set_lem_example =
    imap_set_lem plenty true one_item 0xffff_ffff_ffff_ffff 9 one_item-IsValid (omega arith)
      (omega arith)

imap_add_lem_example :
    let (rc, m') = imap_add plenty true one_item 37 9 in
    ((rc ≡ add_no_mem) ⊎ (rc ≡ add_code (imap_get one_item 37)))
    × (((d : ℕ) → plenty d ≡ true) → rc ≢ add_no_mem)
    × ((j : ℕ) → imap_get m' j ≡ add_found rc 37 j 9 (imap_get one_item j))
    × IsValid m'
    × (m'.len ≡ 1 + add_grown rc)
imap_add_lem_example =
    imap_add_lem plenty true one_item 37 9 one_item-IsValid (omega arith) (omega arith)

imap_pop_lem_example :
    let (r, m') = imap_pop one_item 37 in
    (r ≡ imap_get one_item 37)
    × ((j : ℕ) → imap_get m' j ≡ (if 37 == j then none else imap_get one_item j))
    × IsValid m'
    × (m'.len + (if is_none r then 0 else 1) ≡ 1)
imap_pop_lem_example = imap_pop_lem one_item 37 one_item-IsValid (omega arith)

imap_vec_lem_example :
    let (r, m') = imap_vec true (record one_item { vec = none }) in
    Caches r one_item.roots
    × (◌≡◌ {A = Bool} true true → r ≢ none)
    × (m'.vec ≡ r)
    × (m'.roots ≡ one_item.roots)
    × (m'.len ≡ 1)
imap_vec_lem_example =
    imap_vec_lem true (record one_item { vec = none })
      (record { roots_there = refl; nodes_valid = one_item-IsValid.nodes_valid; len_counts = refl })
      tt

imap_set-Caches_example : let m' = (imap_set plenty true one_item 4 5).1 in Caches m'.vec m'.roots
imap_set-Caches_example =
    imap_set-Caches plenty true one_item 4 5 one_item-IsValid (omega arith) (omega arith)
      one_item-Caches

-- One item at id 69, beside that of `one_item` below root 5.
abbrev other_item : Imap ℕ
other_item = record {
  len = 1;
  vec = none;
  roots = put (zeros 32) 5 (node 1 1 none (cons (node 0 0 (some 90) nil) nil));
}

other_item-IsValid : IsValid other_item
other_item-IsValid = record {
  roots_there = refl;
  nodes_valid =
      put-AllValid {A = ℕ} (zeros 32) 5 (node 1 1 none (cons (node 0 0 (some 90) nil) nil))
        (zeros-AllValid ℕ 32) (omega arith);
  len_counts = refl;
}

sets_of_both :
    ((imap_union_ref one_item other_item).0.len ≡ 2)
    × (imap_get (imap_union_ref one_item other_item).0 69 ≡ some 90)
    × ((imap_intersection_ref one_item one_item).1 ≡ callback 70 ∷ [])
    × ((imap_intersection_ref one_item other_item).0.len ≡ 0)
    × ((imap_difference_ref one_item other_item).0.len ≡ 1)
    × ((imap_difference_ref one_item one_item).0.roots ≡ zeros 32)
    × ((imap_symmetric_difference_ref one_item other_item).0.len ≡ 2)
    × ((imap_symmetric_difference_ref one_item one_item).1 ≡ decref 70 ∷ callback 70 ∷ [])
unfolding imap_union_ref imap_intersection_ref imap_difference_ref imap_symmetric_difference_ref
    union_node intersection_node difference_node symmetric_node each_child each_root imap_get
    node_get node_grow
sets_of_both = (refl, refl, refl, refl, refl, refl, refl, refl)

imap_union_ref_lem_example :
    imap_get (imap_union_ref one_item other_item).0 69
    ≡ or_else (imap_get one_item 69) (imap_get other_item 69)
imap_union_ref_lem_example =
    imap_union_ref_lem one_item other_item 69 one_item-IsValid other_item-IsValid

abbrev add_up : ℕ → ℕ → ℕ × ℕ
add_up x st = (1, st + x)

imap_walk_lem_example : imap_walk add_up one_item 5 ≡ call_all add_up (values one_item.roots) (0, 5)
imap_walk_lem_example = imap_walk_lem add_up one_item 5 one_item-IsValid
