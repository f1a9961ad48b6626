-- ===== src/Ctree/Values.antt =====
-- `ct_values` and `ct_valuesn` of src/ctree/ctree.c: a callback is called with each item, in the order of the names.
-- The callback's int and the sums are 32-bit words, as in `imap_walk`.

use siridb_server.Base.{
  ℕ, suc, ◌+◌, ◌*◌, ◌%◌, ◌^◌, ◌<◌, ◌≡◌, ◌≢◌, refl, ap, sym, ◌∙◌, false, Option, none, some, List,
  [], ◌∷◌, ◌++◌, ◌==◌, if◌then◌else◌, inl, inr, Bool-cases, arith,
}
use siridb_server.Imap.Walk.{
  call, call_n, call_all, call_while, call_all-append, call_while-stop, call_while-append,
}
use siridb_server.Ctree.{block_sz, Node, Nodes, node, nil, free, used, Ct}
use siridb_server.Ctree.Names.{cons_all, prefixed, own, names, names_in, all_names}

module _ {S : Type 0} where
  abbrev sum_with : ℕ → ℕ × S → ℕ × S
  sum_with rc (r, st) = ((rc + r) % 2 ^ 32, st)

module _ {A S : Type 0} where
  -- `rc += (*cb)(node->data, args)`
  abbrev own_value : (A → S → ℕ × S) → Option A → S → ℕ × S
  own_value cb none st = (0, st)
  own_value cb (some x) st = call cb x (0, st)

  -- `CT_values`, and its loop over the array.
  abbrev mutual
    pub values_node : (A → S → ℕ × S) → Node A → S → ℕ × S
    values_node cb (node key v s o n ns) st = values_in cb ns (own_value cb v st)

    pub values_in : (A → S → ℕ × S) → Nodes A → ℕ × S → ℕ × S
    values_in cb nil acc = acc
    values_in cb (free ns) acc = values_in cb ns acc
    values_in cb (used ch ns) acc = values_in cb ns (sum_with acc.0 (values_node cb ch acc.1))

  -- `ct_values`
  abbrev pub ct_values : (A → S → ℕ × S) → Ct A → S → ℕ × S
  ct_values cb t st = values_in cb t.nodes (0, st)

  -- `*n -= (*cb)(node->data, args)`
  abbrev own_valuen : (A → S → ℕ × S) → Option A → ℕ × S → ℕ × S
  own_valuen cb none acc = acc
  own_valuen cb (some x) acc = call_n cb x acc

  -- `CT_valuesn`, and its loop over the array, which ends once `*n` is 0.
  abbrev mutual
    pub valuesn_node : (A → S → ℕ × S) → Node A → ℕ × S → ℕ × S
    valuesn_node cb (node key v s o n ns) acc = valuesn_in cb ns (own_valuen cb v acc)

    pub valuesn_in : (A → S → ℕ × S) → Nodes A → ℕ × S → ℕ × S
    valuesn_in cb nil acc = acc
    valuesn_in cb (free ns) acc = valuesn_in cb ns acc
    valuesn_in cb (used ch ns) acc =
        let rest = valuesn_in cb ns (valuesn_node cb ch acc) in if acc.0 == 0 then acc else rest

  -- `ct_valuesn`: `*n` afterwards, and the state.
  abbrev pub ct_valuesn : (A → S → ℕ × S) → Ct A → ℕ → S → ℕ × S
  ct_valuesn cb t n st = valuesn_in cb t.nodes (n, st)

  -- `CT_free`, and its loop over the array; `ct_free`. What is modelled is the callback.
  abbrev own_free : (A → S → S) → Option A → S → S
  own_free cb none st = st
  own_free cb (some x) st = cb x st

  abbrev mutual
    ct_free_node : (A → S → S) → Node A → S → S
    ct_free_node cb (node key v s o n ns) st = own_free cb v (ct_free_in cb ns st)

    ct_free_in : (A → S → S) → Nodes A → S → S
    ct_free_in cb nil st = st
    ct_free_in cb (free ns) st = ct_free_in cb ns st
    ct_free_in cb (used ch ns) st = ct_free_in cb ns (ct_free_node cb ch st)

  abbrev ct_free : (A → S → S) → Ct A → S → S
  ct_free cb t st = ct_free_in cb t.nodes st

module _ {A : Type 0} where
  -- The items beside names.
  abbrev pub items_of : List (List ℕ × A) → List A
  items_of [] = []
  items_of ((p, x) ∷ l) = x ∷ items_of l

  items_of-append : (l m : List (List ℕ × A)) → items_of (l ++ m) ≡ items_of l ++ items_of m
  items_of-append [] m = refl
  items_of-append ((p, x) ∷ l) m = ap (λ k. x ∷ k) (items_of-append l m)

  items_of-cons_all : (k : ℕ) (l : List (List ℕ × A)) → items_of (cons_all k l) ≡ items_of l
  items_of-cons_all k [] = refl
  items_of-cons_all k ((p, x) ∷ l) = ap (λ k. x ∷ k) (items_of-cons_all k l)

  items_of-prefixed :
      (key : List ℕ) (l : List (List ℕ × A)) → items_of (prefixed key l) ≡ items_of l
  items_of-prefixed [] l = refl
  items_of-prefixed (r ∷ rs) l = items_of-cons_all r (prefixed rs l) ∙ items_of-prefixed rs l

  node_items :
      (key : List ℕ) (v : Option A) (s o n : ℕ) (ns : Nodes A)
      → items_of (names (node key v s o n ns))
        ≡ items_of (own v) ++ items_of (names_in (o * block_sz) ns)
  node_items key v s o n ns =
      items_of-prefixed key (own v ++ names_in (o * block_sz) ns)
      ∙ items_of-append (own v) (names_in (o * block_sz) ns)

  used_items :
      (k : ℕ) (ch : Node A) (ns : Nodes A)
      → items_of (names_in k (used ch ns)) ≡ items_of (names ch) ++ items_of (names_in (suc k) ns)
  used_items k ch ns =
      items_of-append (cons_all k (names ch)) (names_in (suc k) ns)
      ∙ ap (λ l. l ++ items_of (names_in (suc k) ns)) (items_of-cons_all k (names ch))

module _ {A S : Type 0} where
  -- A sum that goes on from `a` and one that starts anew.
  call_all-sum :
      (cb : A → S → ℕ × S) (xs : List A) (a b : ℕ) (st : S)
      → call_all cb xs ((a + b) % 2 ^ 32, st) ≡ sum_with a (call_all cb xs (b, st))
  call_all-sum cb [] a b st = refl
  call_all-sum cb (x ∷ xs) a b st =
      let r = (cb x st).0 in
      ap (λ k. call_all cb xs (k, (cb x st).1)) {x = ((a + b) % 2 ^ 32 + r) % 2 ^ 32}
        {y = (a + (b + r) % 2 ^ 32) % 2 ^ 32} (omega arith)
      ∙ call_all-sum cb xs a ((b + r) % 2 ^ 32) (cb x st).1

  own_value-lem :
      (cb : A → S → ℕ × S) (v : Option A) (st : S)
      → own_value cb v st ≡ call_all cb (items_of (own v)) (0, st)
  own_value-lem cb none st = refl
  own_value-lem cb (some x) st = refl

  own_value-bound : (cb : A → S → ℕ × S) (v : Option A) (st : S) → (own_value cb v st).0 < 2 ^ 32
  own_value-bound cb none st = omega arith
  own_value-bound cb (some x) st = omega arith

  mutual
    node_values :
        (cb : A → S → ℕ × S) (nd : Node A) (st : S)
        → values_node cb nd st ≡ call_all cb (items_of (names nd)) (0, st)
    node_values cb (node key v s o n ns) st =
        in_values cb (o * block_sz) ns (own_value cb v st) (own_value-bound cb v st)
        ∙ ap (call_all cb (items_of (names_in (o * block_sz) ns))) (own_value-lem cb v st)
        ∙ sym
            (call_all-append cb (items_of (own v)) (items_of (names_in (o * block_sz) ns)) (0, st))
        ∙ sym (ap (λ l. call_all cb l (0, st)) (node_items key v s o n ns))

    in_values :
        (cb : A → S → ℕ × S) (k : ℕ) (ns : Nodes A) (acc : ℕ × S)
        → acc.0 < 2 ^ 32
        → values_in cb ns acc ≡ call_all cb (items_of (names_in k ns)) acc
    in_values cb k nil acc h = refl
    in_values cb k (free ns) acc h = in_values cb (suc k) ns acc h
    in_values cb k (used ch ns) (rc, st) h =
        let xs = items_of (names ch) in
        in_values cb (suc k) ns (sum_with rc (values_node cb ch st)) (omega arith)
        ∙ ap (λ r. call_all cb (items_of (names_in (suc k) ns)) (sum_with rc r))
            (node_values cb ch st)
        ∙ ap (call_all cb (items_of (names_in (suc k) ns))) (
            sym (call_all-sum cb xs rc 0 st)
            ∙ ap (λ a. call_all cb xs (a, st)) {x = (rc + 0) % 2 ^ 32} {y = rc} (omega (arith, h)))
        ∙ sym (call_all-append cb xs (items_of (names_in (suc k) ns)) (rc, st))
        ∙ sym (ap (λ l. call_all cb l (rc, st)) (used_items k ch ns))

  -- `ct_values` calls the callback with the items of the names in order, and returns the sum of the results.
  pub ct_values_lem :
      (cb : A → S → ℕ × S) (t : Ct A) (st : S)
      → ct_values cb t st ≡ call_all cb (items_of (all_names t)) (0, st)
  ct_values_lem cb t st = in_values cb (t.offset * block_sz) t.nodes (0, st) (omega arith)

  while_step :
      (cb : A → S → ℕ × S) (v : Option A) (acc : ℕ × S)
      → acc.0 ≢ 0
      → own_valuen cb v acc ≡ call_while cb (items_of (own v)) acc
  while_step cb none acc h = refl
  while_step cb (some x) acc h = let more : (acc.0 == 0) ≡ false = ground arith in rw more refl

  mutual
    node_valuesn :
        (cb : A → S → ℕ × S) (nd : Node A) (acc : ℕ × S)
        → acc.0 ≢ 0
        → valuesn_node cb nd acc ≡ call_while cb (items_of (names nd)) acc
    node_valuesn cb (node key v s o n ns) acc h =
        in_valuesn cb (o * block_sz) ns (own_valuen cb v acc)
        ∙ ap (call_while cb (items_of (names_in (o * block_sz) ns))) (while_step cb v acc h)
        ∙ sym (call_while-append cb (items_of (own v)) (items_of (names_in (o * block_sz) ns)) acc)
        ∙ sym (ap (λ l. call_while cb l acc) (node_items key v s o n ns))

    in_valuesn :
        (cb : A → S → ℕ × S) (k : ℕ) (ns : Nodes A) (acc : ℕ × S)
        → valuesn_in cb ns acc ≡ call_while cb (items_of (names_in k ns)) acc
    in_valuesn cb k nil acc = refl
    in_valuesn cb k (free ns) acc = in_valuesn cb (suc k) ns acc
    in_valuesn cb k (used ch ns) acc = elim (Bool-cases (acc.0 == 0)) [
      | inl e ↦
          rw e (sym (call_while-stop cb (items_of (names_in k (used ch ns))) acc (ground arith)))
      | inr e ↦ rw e (
          in_valuesn cb (suc k) ns (valuesn_node cb ch acc)
          ∙ ap (call_while cb (items_of (names_in (suc k) ns)))
              (node_valuesn cb ch acc (ground arith))
          ∙ sym (call_while-append cb (items_of (names ch)) (items_of (names_in (suc k) ns)) acc)
          ∙ sym (ap (λ l. call_while cb l acc) (used_items k ch ns)))
    ]

  -- `ct_valuesn` calls the callback with the items of the names in order for as long as the counter is not 0.
  pub ct_valuesn_lem :
      (cb : A → S → ℕ × S) (t : Ct A) (n : ℕ) (st : S)
      → ct_valuesn cb t n st ≡ call_while cb (items_of (all_names t)) (n, st)
  ct_valuesn_lem cb t n st = in_valuesn cb (t.offset * block_sz) t.nodes (n, st)
