-- ===== src/Cexpr/Groups.antt =====
-- A condition without parentheses holds when all conditions of a group, between two `or`, hold.
use siridb_server.Base.{
  ℕ, ◌≡◌, refl, ap, sym, ◌∙◌, Bool, true, false, ◌||◌, ◌&&◌, some, List, [], ◌∷◌, arith,
}
use siridb_server.Cexpr.{
  via_cexpr, via_cond, Cexpr, Builder, Token, condition, Built, new_cexpr, set_node, push_and_at,
  push_or_at, walk_token, walk_tokens, bind_built, push_curly, pop_curly, cexpr_from_node, run_via,
  run_both, cexpr_run,
}
use siridb_server.Cexpr.Heap.{leaf, single, run-Rep}
use siridb_server.Cexpr.State.{under_root, State, State-run}
use siridb_server.Cexpr.Precedence.{
  half, full, and_done, or_done, walk-and, walk-or, State-and, State-or,
}
use siridb_server.Cexpr.Spec.{
  groups, any_group, tokens_behind, with_first, last_true, one_group, alone_group, first_true-onto,
  first_true-groups, with_first-onto, with_first-or,
}

module _ {C : Type 0} where
  -- The rest of a condition is built to what the groups say.
  walk-groups :
      (cb : C → Bool) (rest : List (Bool × C)) (t : Builder C) (p : ℕ) (x : C) (d k : Bool)
      → State cb t p x d k
      → (u : Builder C) × (q : ℕ) × (z : C) × (d' : Bool) × (k' : Bool) × (walk_tokens true
            (tokens_behind rest)
            t
            p
          ≡ some (u, q))
        × State cb u q z d' k'
        × ((d' || (k' && cb z)) ≡ (d || with_first cb k (groups x rest)))
  unfolding walk_tokens
  walk-groups cb [] t p x d k s = (t, p, x, d, k, refl, s, one_group d k (cb x))
  walk-groups cb ((false, y) ∷ rest) t p x d k s =
      let (u, q, z, d', k', e, s', v) =
        walk-groups cb rest (and_done t p s.is_or s.a x y) t.count y d (k && cb x)
          (State-and cb t p x y d k s) in
      (
        u,
        q,
        z,
        d',
        k',
        walk-and t p s.is_or s.a x y (tokens_behind rest) s.here ∙ e,
        s',
        v ∙ ap (λ b. d || b) (sym (with_first-onto cb k x (groups y rest))),
      )
  walk-groups cb ((true, y) ∷ rest) t p x d k s =
      let (u, q, z, d', k', e, s', v) =
        walk-groups cb rest (or_done t s.root y) t.count y (d || (k && cb x)) true
          (State-or cb t p x y d k s) in
      (
        u,
        q,
        z,
        d',
        k',
        walk-or t p s.root s.is_or s.a x y (tokens_behind rest) s.here s.listed ∙ e,
        s',
        v ∙ with_first-or cb d k x y rest,
      )

  -- After the first condition.
  abbrev first_built : C → Builder C
  first_built c = record {
    nodes =
        set_node 1 (half false (via_cond c))
          (set_node 1 new_cexpr (set_node 0 (half false (via_cexpr 1)) (λ id. new_cexpr)));
    count = 2;
    list = 0 ∷ [];
  }

  first_tokens :
      (c : C) (tokens : List (Token C))
      → cexpr_from_node true (condition c ∷ tokens)
        ≡ bind_built (walk_tokens true tokens (first_built c) 1) (λ u q. pop_curly u u.list)
  unfolding cexpr_from_node push_curly walk_tokens walk_token
  first_tokens c tokens = refl

  -- The first two conditions.
  abbrev two_built : Bool → C → C → (ℕ → Cexpr C) → Builder C
  two_built is_or c y nodes = record {
    nodes = set_node 1 (full is_or (via_cond c) (via_cond y)) nodes;
    count = 2;
    list = 0 ∷ [];
  }

  two-State :
      (cb : C → Bool) (c y : C)
      → State cb (two_built false c y (first_built c).nodes) 1 y false (cb c)
        × State cb
            (two_built true c y (set_node 1 (half true (via_cond c)) (first_built c).nodes))
            1
            y
            (cb c)
            true
  two-State cb c y = (
    record {
      frames = under_root ∷ [];
      is_or = false;
      first = leaf c;
      root = 0;
      a = via_cond c;
      newest = refl;
      listed = refl;
      way = (0, via_cexpr 1, refl, omega arith, refl, refl);
      here = refl;
      rep = refl;
      value = λ z. refl;
      small = λ z. omega arith;
    },
    record {
      frames = under_root ∷ [];
      is_or = true;
      first = leaf c;
      root = 0;
      a = via_cond c;
      newest = refl;
      listed = refl;
      way = (0, via_cexpr 1, refl, omega arith, refl, refl);
      here = refl;
      rep = refl;
      value = λ z. refl;
      small = λ z. omega arith;
    },
  )

  -- The outer curly is closed.
  close_outer :
      (cb : C → Bool) (v : Bool) (r : Built C) (u : Builder C) (q : ℕ) (z : C) (d k : Bool)
      → r ≡ some (u, q)
      → State cb u q z d k
      → (d || (k && cb z)) ≡ v
      → (t : Builder C) × (root : ℕ) × (bind_built r (λ u q. pop_curly u u.list) ≡ some (t, root))
        × (cexpr_run t.count cb t.nodes root ≡ some v)
  unfolding pop_curly
  close_outer cb v r u q z d k e s value = (
    record u { list = [] },
    s.root,
    ap (λ b. bind_built b (λ u q. pop_curly u u.list)) e ∙ ap (pop_curly u) s.listed,
    State-run cb u q z d k s ∙ ap some value,
  )

  -- A condition without parentheses: given memory, `cexpr_from_node` builds an expression of it, and
  -- `cexpr_run` says of the expression that it holds exactly when all conditions of some group hold, where
  -- the groups are what stands between two `or`. The number of nodes is enough as fuel.
  pub cexpr_from_node_lem :
      (cb : C → Bool) (c : C) (rest : List (Bool × C))
      → (t : Builder C) × (root : ℕ) × (cexpr_from_node true (condition c ∷ tokens_behind rest)
          ≡ some (t, root))
        × (cexpr_run t.count cb t.nodes root ≡ some (any_group cb (groups c rest)))
  unfolding walk_tokens walk_token push_and_at push_or_at cexpr_run run_via run_both pop_curly
  cexpr_from_node_lem cb c [] = (
    record (first_built c) { list = [] },
    0,
    first_tokens c [],
    run-Rep 2 cb (first_built c).nodes 2 (via_cexpr 0) (single (single (leaf c))) (omega arith)
          (0, via_cexpr 1, refl, omega arith, refl, (1, via_cond c, refl, omega arith, refl, refl))
        ∙ ap some (sym (last_true (cb c))),
  )
  cexpr_from_node_lem cb c ((false, y) ∷ rest) =
      let (u, q, z, d, k, e, s, v) =
        walk-groups cb rest (two_built false c y (first_built c).nodes) 1 y false (cb c)
          (two-State cb c y).0 in
      let (t, root, e', ran) =
        close_outer cb (any_group cb (groups c ((false, y) ∷ rest))) _ u q z d k e s (
          v
          ∙ sym (with_first-onto cb true c (groups y rest))
          ∙ first_true-onto cb c (groups y rest)) in
      (t, root, first_tokens c _ ∙ e', ran)
  cexpr_from_node_lem cb c ((true, y) ∷ rest) =
      let (u, q, z, d, k, e, s, v) =
        walk-groups cb rest
          (two_built true c y (set_node 1 (half true (via_cond c)) (first_built c).nodes)) 1 y
          (cb c) true (two-State cb c y).1 in
      let (t, root, e', ran) =
        close_outer cb (any_group cb (groups c ((true, y) ∷ rest))) _ u q z d k e s (
          v
          ∙ ap (λ b. cb c || b) (first_true-groups cb y rest)
          ∙ alone_group (cb c) (any_group cb (groups y rest))) in
      (t, root, first_tokens c _ ∙ e', ran)
