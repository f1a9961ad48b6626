-- ===== src/Ctree/Tests.antt =====
-- The tree of names on small trees, and the theorems applied.
use siridb_server.Base.{
  ℕ, ◌≡◌, ◌≢◌, refl, true, false, ◌&&◌, none, some, List, [], ◌∷◌, ◌==◌, if◌then◌else◌, arith, inl,
  inr, ◌⊎◌,
}
use siridb_server.Ctree.{
  block_sz, Node, node, nil, free_before, put_slot, node_new, Mem, ct_ok, ct_err, ct_exists, Ct,
  ct_new, add_from, ct_add, get_from, ct_get,
}
use siridb_server.Ctree.Add.{enough}
use siridb_server.Ctree.Tree.{IsTree, Added, ct_add_lem}
use siridb_server.Ctree.Names.{all_names, items_at, item_list}
use siridb_server.Ctree.Items.{walk_stop, ct_items, call_names, ct_items_lem}
use siridb_server.Ctree.Values.{ct_values, ct_valuesn}
use siridb_server.Ctree.Replay.{Op, op_add, op_pop, tree_run, map_run, ct_run_lem}
use siridb_server.Ctree.Getn.{ct_getn, ct_getn_lem}
use siridb_server.Ctree.Pop.{pop_from, ct_pop}
use siridb_server.Ctree.Pop.Tree.{Taken, ct_pop_lem}

-- The names "ab" and "acd".
abbrev inner : Node ℕ
inner = node [] none 2 3 1 (
    put_slot (put_slot (free_before block_sz nil) 2 (some (node_new [] (some 7)))) 3
      (some (node_new (100 ∷ []) (some 9))))

abbrev two_names : Ct ℕ
two_names = record {
  len = 2;
  offset = 3;
  n = 1;
  nodes = put_slot (free_before block_sz nil) 1 (some inner);
}

two_names-IsTree : IsTree two_names
two_names-IsTree =
    (inr refl, ((refl, inr refl, ((refl, inl refl, tt), ((refl, inl refl, tt), tt))), tt))

finds_both :
    (ct_get two_names (97 ∷ 98 ∷ []) ≡ some 7) × (ct_get two_names (97 ∷ 99 ∷ 100 ∷ []) ≡ some 9)
unfolding ct_get get_from
finds_both = (refl, refl)

finds_no_part : ct_get two_names (97 ∷ 99 ∷ []) ≡ none
unfolding ct_get get_from
finds_no_part = refl

-- "ab" is added, then "acd".
adds_both :
    (ct_add
      (enough true true)
      (ct_add (enough true true) ct_new (97 ∷ 98 ∷ []) 7).1
      (97 ∷ 99 ∷ 100 ∷ [])
      9)
    ≡ (ct_ok, two_names)
unfolding ct_add add_from
adds_both = refl

adds_once : (ct_add (enough true true) two_names (97 ∷ 98 ∷ []) 8).0 ≡ ct_exists
unfolding ct_add add_from
adds_once = refl

adds_no_empty_name : ct_add (enough true true) two_names [] 8 ≡ (ct_exists, two_names)
unfolding ct_add
adds_no_empty_name = refl

-- "ab" is removed: the node of 'a' is merged with that of "cd".
pops_and_merges : ct_pop true two_names (97 ∷ 98 ∷ []) ≡ (
  some 7,
  record {
    len = 1;
    offset = 3;
    n = 1;
    nodes = put_slot (free_before block_sz nil) 1 (some (node_new (99 ∷ 100 ∷ []) (some 9)));
  },
)
unfolding ct_pop pop_from
pops_and_merges = refl

-- The names "abc" and "abcd". Where there is no memory for the leaf of "ax", "abcd" is lost.
abbrev chain : Ct ℕ
chain = record {
  len = 2;
  offset = 3;
  n = 1;
  nodes = put_slot (free_before block_sz nil) 1 (
      some (
        node (98 ∷ 99 ∷ []) (some 1) 1 3 1
          (put_slot (free_before block_sz nil) 4 (some (node_new [] (some 2))))));
}

-- A callback that gathers names, and stops at the item 9.
abbrev gather : List ℕ → ℕ → List (List ℕ) → ℕ × List (List ℕ)
gather name x st = (if x == 9 then 1 else 0, name ∷ st)

walks_in_order :
    ct_items true (λ k. true) gather two_names []
    ≡ (walk_stop, (97 ∷ 99 ∷ 100 ∷ []) ∷ (97 ∷ 98 ∷ []) ∷ [])
walks_in_order = refl

sums_results : ct_values (λ x st. (x, x ∷ st)) two_names [] ≡ (16, 9 ∷ 7 ∷ [])
sums_results = refl

stops_at_zero : ct_valuesn (λ x st. (1, x ∷ st)) two_names 1 [] ≡ (0, 7 ∷ [])
stops_at_zero = refl

abbrev no_leaf : Mem
no_leaf = record { new_nodes = true; rest = true; resize = true; leaf = false }

failed_split_fails : (ct_add no_leaf chain (97 ∷ 120 ∷ []) 3).0 ≡ ct_err
unfolding ct_add add_from
failed_split_fails = refl

failed_split_loses_name :
    (ct_get chain (97 ∷ 98 ∷ 99 ∷ 100 ∷ []) ≡ some 2)
    × (ct_get (ct_add no_leaf chain (97 ∷ 120 ∷ []) 3).1 (97 ∷ 98 ∷ 99 ∷ 100 ∷ []) ≡ none)
unfolding ct_add add_from ct_get get_from
failed_split_loses_name = (refl, refl)

failed_split_invents_name :
    (ct_get chain (97 ∷ 98 ∷ 99 ∷ 98 ∷ 99 ∷ []) ≡ none)
    × (ct_get (ct_add no_leaf chain (97 ∷ 120 ∷ []) 3).1 (97 ∷ 98 ∷ 99 ∷ 98 ∷ 99 ∷ []) ≡ some 1)
unfolding ct_add add_from ct_get get_from
failed_split_invents_name = (refl, refl)

ct_add_lem_example :
    Added 5 (97 ∷ 120 ∷ []) two_names (ct_add (enough true true) two_names (97 ∷ 120 ∷ []) 5)
    × (((true && true) ≡ false)
        ⊎ ((ct_add (enough true true) two_names (97 ∷ 120 ∷ []) 5).0 ≢ ct_err))
ct_add_lem_example =
    ct_add_lem true true two_names (97 ∷ 120 ∷ []) 5 (λ e. absurd (ground arith)) two_names-IsTree

ct_pop_lem_example : Taken (97 ∷ 98 ∷ []) two_names (ct_pop true two_names (97 ∷ 98 ∷ []))
ct_pop_lem_example = ct_pop_lem true two_names (97 ∷ 98 ∷ []) two_names-IsTree

ct_getn_lem_example : ct_getn two_names (97 ∷ 99 ∷ 100 ∷ []) ≡ ct_get two_names (97 ∷ 99 ∷ 100 ∷ [])
ct_getn_lem_example = ct_getn_lem two_names (97 ∷ 99 ∷ 100 ∷ [])

ct_items_lem_example :
    (ct_items true (λ k. true) gather two_names [] ≡ call_names gather (all_names two_names) [])
    × ((q : List ℕ) → items_at q (all_names two_names) ≡ item_list (ct_get two_names q))
ct_items_lem_example = ct_items_lem gather two_names [] two_names-IsTree

abbrev ops : List (Op ℕ)
ops =
    op_add (97 ∷ 98 ∷ []) 7
    ∷ op_add (97 ∷ 99 ∷ []) 9
    ∷ op_pop (97 ∷ 98 ∷ [])
    ∷ op_pop (97 ∷ 98 ∷ [])
    ∷ []

ct_run_lem_example : tree_run ct_new ops ≡ map_run (λ q. none) ops
ct_run_lem_example = ct_run_lem ops
