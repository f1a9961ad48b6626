-- ===== src/Imap/Walk.antt =====
-- src/imap/imap.c: `imap_walk` and `imap_walkn`, with a callback that changes a state of type `S`.
-- The callback's int and the sum of them are 32-bit words; `imap_walkn` subtracts it, with its sign, from a size_t.

use siridb_server.Base.{
  ℕ, ◌+◌, ◌-◌, ◌%◌, ◌^◌, ◌≡◌, refl, ap, sym, ltb, ◌∙◌, inl, inr, none, some, List, [], ◌∷◌, ◌++◌,
  ◌==◌, if◌then◌else◌, arith, Bool-cases,
}
use siridb_server.Imap.{Imap}
use siridb_server.Imap.Tree.{Node, Nodes, node, nil, cons}
use siridb_server.Imap.Tree.Values.{own, values, values-total_zero}
use siridb_server.Imap.Valid.{IsValid}

-- An int as a size_t: the sign is extended.
abbrev pub int_to_size : ℕ → ℕ
int_to_size r = if ltb (r % 2 ^ 32) (2 ^ 31) then r % 2 ^ 32 else r % 2 ^ 32 + 2 ^ 64 - 2 ^ 32

module _ {A S : Type 0} where
  -- `*rc += (*cb)(nd->data, data)`
  abbrev pub call : (A → S → ℕ × S) → A → ℕ × S → ℕ × S
  call cb x (rc, st) = let (r, st') = cb x st in ((rc + r) % 2 ^ 32, st')

  -- `IMAP_walk` over an array of nodes.
  abbrev mutual
    pub walk_node : (A → S → ℕ × S) → Node A → ℕ × S → ℕ × S
    walk_node cb (node s k none ns) acc = walk_nodes cb ns acc
    walk_node cb (node s k (some x) ns) acc = walk_nodes cb ns (call cb x acc)

    pub walk_nodes : (A → S → ℕ × S) → Nodes A → ℕ × S → ℕ × S
    walk_nodes cb nil acc = acc
    walk_nodes cb (cons n ns) acc = walk_nodes cb ns (walk_node cb n acc)

  -- `imap_walk`
  unfoldable pub imap_walk : (A → S → ℕ × S) → Imap A → S → ℕ × S
  imap_walk cb m st = if m.len == 0 then (0, st) else walk_nodes cb m.roots (0, st)

  -- `*n -= (*cb)(nd->data, data)`
  abbrev pub call_n : (A → S → ℕ × S) → A → ℕ × S → ℕ × S
  call_n cb x (n, st) = let (r, st') = cb x st in ((n + 2 ^ 64 - int_to_size r) % 2 ^ 64, st')

  -- `IMAP_walkn` over an array of nodes: nothing more happens once `*n` is 0.
  abbrev mutual
    pub walkn_node : (A → S → ℕ × S) → Node A → ℕ × S → ℕ × S
    walkn_node cb (node s k none ns) acc = walkn_nodes cb ns acc
    walkn_node cb (node s k (some x) ns) acc =
        let next = call_n cb x acc in
        let deeper = walkn_nodes cb ns next in
        if acc.0 == 0 then acc else (if next.0 == 0 then next else deeper)

    pub walkn_nodes : (A → S → ℕ × S) → Nodes A → ℕ × S → ℕ × S
    walkn_nodes cb nil acc = acc
    walkn_nodes cb (cons n ns) acc =
        let rest = walkn_nodes cb ns (walkn_node cb n acc) in if acc.0 == 0 then acc else rest

  -- `imap_walkn`: `*n` afterwards, and the state.
  unfoldable pub imap_walkn : (A → S → ℕ × S) → Imap A → ℕ → S → ℕ × S
  imap_walkn cb m n st = if m.len == 0 then (n, st) else walkn_nodes cb m.roots (n, st)

  -- The same on a list of items.
  abbrev pub call_all : (A → S → ℕ × S) → List A → ℕ × S → ℕ × S
  call_all cb [] acc = acc
  call_all cb (x ∷ xs) acc = call_all cb xs (call cb x acc)

  abbrev pub call_while : (A → S → ℕ × S) → List A → ℕ × S → ℕ × S
  call_while cb [] acc = acc
  call_while cb (x ∷ xs) acc =
      let rest = call_while cb xs (call_n cb x acc) in if acc.0 == 0 then acc else rest

  pub call_all-append :
      (cb : A → S → ℕ × S) (xs ys : List A) (acc : ℕ × S)
      → call_all cb (xs ++ ys) acc ≡ call_all cb ys (call_all cb xs acc)
  call_all-append cb [] ys acc = refl
  call_all-append cb (x ∷ xs) ys acc = call_all-append cb xs ys (call cb x acc)

  mutual
    walk_node-eq :
        (cb : A → S → ℕ × S) (n : Node A) (acc : ℕ × S)
        → walk_node cb n acc ≡ call_all cb (own n) acc
    walk_node-eq cb (node s k none ns) acc = walk_nodes-eq cb ns acc
    walk_node-eq cb (node s k (some x) ns) acc = walk_nodes-eq cb ns (call cb x acc)

    walk_nodes-eq :
        (cb : A → S → ℕ × S) (ns : Nodes A) (acc : ℕ × S)
        → walk_nodes cb ns acc ≡ call_all cb (values ns) acc
    walk_nodes-eq cb nil acc = refl
    walk_nodes-eq cb (cons n ns) acc =
        ap (walk_nodes cb ns) (walk_node-eq cb n acc)
        ∙ walk_nodes-eq cb ns (call_all cb (own n) acc)
        ∙ sym (call_all-append cb (own n) (values ns) acc)

  -- `imap_walk` of a valid map calls the callback once for each item, in the order of the
  -- roots and of the arrays below them, and returns the sum of the results.
  pub imap_walk_lem :
      (cb : A → S → ℕ × S) (m : Imap A) (st : S)
      → IsValid m
      → imap_walk cb m st ≡ call_all cb (values m.roots) (0, st)
  unfolding imap_walk
  imap_walk_lem cb m st v = elim (Bool-cases (m.len == 0)) [
    | inl e ↦
        let gone : m.len ≡ 0 = ground arith in
        rw (e, imap_walk, values-total_zero m.roots (omega (arith, v.len_counts, gone))) refl
    | inr ne ↦ rw (ne, imap_walk) (walk_nodes-eq cb m.roots (0, st))
  ]

  pub call_while-stop :
      (cb : A → S → ℕ × S) (xs : List A) (acc : ℕ × S) → acc.0 ≡ 0 → call_while cb xs acc ≡ acc
  call_while-stop cb [] acc h = refl
  call_while-stop cb (x ∷ xs) acc h = ground arith

  pub call_while-append :
      (cb : A → S → ℕ × S) (xs ys : List A) (acc : ℕ × S)
      → call_while cb (xs ++ ys) acc ≡ call_while cb ys (call_while cb xs acc)
  call_while-append cb [] ys acc = refl
  call_while-append cb (x ∷ xs) ys acc = elim (Bool-cases (acc.0 == 0)) [
    | inl e ↦ rw e (sym (call_while-stop cb ys acc (ground arith)))
    | inr ne ↦ rw ne (call_while-append cb xs ys (call_n cb x acc))
  ]

  walkn_item :
      (cb : A → S → ℕ × S) (xs : List A) (next deeper acc : ℕ × S)
      → deeper ≡ call_while cb xs next
      → (if acc.0 == 0 then acc else (if next.0 == 0 then next else deeper))
        ≡ (if acc.0 == 0 then acc else call_while cb xs next)
  walkn_item cb xs next deeper acc e = elim (Bool-cases (acc.0 == 0)) [
    | inl z ↦ rw z refl
    | inr z ↦ rw z (elim (Bool-cases (next.0 == 0)) [
      | inl z' ↦ rw z' (sym (call_while-stop cb xs next (ground arith)))
      | inr z' ↦ rw z' e
    ])
  ]

  walkn_rest :
      (cb : A → S → ℕ × S) (xs ys : List A) (rest acc : ℕ × S)
      → rest ≡ call_while cb (xs ++ ys) acc
      → (if acc.0 == 0 then acc else rest) ≡ call_while cb (xs ++ ys) acc
  walkn_rest cb xs ys rest acc e = elim (Bool-cases (acc.0 == 0)) [
    | inl z ↦ rw z (sym (call_while-stop cb (xs ++ ys) acc (ground arith)))
    | inr z ↦ rw z e
  ]

  mutual
    walkn_node-eq :
        (cb : A → S → ℕ × S) (n : Node A) (acc : ℕ × S)
        → walkn_node cb n acc ≡ call_while cb (own n) acc
    walkn_node-eq cb (node s k none ns) acc = walkn_nodes-eq cb ns acc
    walkn_node-eq cb (node s k (some x) ns) acc =
        walkn_item cb (values ns) (call_n cb x acc) (walkn_nodes cb ns (call_n cb x acc)) acc
          (walkn_nodes-eq cb ns (call_n cb x acc))

    walkn_nodes-eq :
        (cb : A → S → ℕ × S) (ns : Nodes A) (acc : ℕ × S)
        → walkn_nodes cb ns acc ≡ call_while cb (values ns) acc
    walkn_nodes-eq cb nil acc = refl
    walkn_nodes-eq cb (cons n ns) acc =
        walkn_rest cb (own n) (values ns) (walkn_nodes cb ns (walkn_node cb n acc)) acc (
          ap (walkn_nodes cb ns) (walkn_node-eq cb n acc)
          ∙ walkn_nodes-eq cb ns (call_while cb (own n) acc)
          ∙ sym (call_while-append cb (own n) (values ns) acc))
