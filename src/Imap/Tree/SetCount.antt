-- ===== src/Imap/Tree/SetCount.antt =====
-- `IMAP_set`: the counters, the code that it returns, and that the levels suffice.
use siridb_server.Base.{
  ℕ, zero, suc, ◌+◌, ◌-◌, ◌*◌, ◌/◌, ◌%◌, ◌^◌, ◌≤◌, ◌<◌, ◌≡◌, ◌≢◌, refl, ap, ◌∙◌, ◌⊎◌, inl, inr,
  Bool, true, Option, none, some, ◌==◌, if◌then◌else◌, arith, Bool-cases,
}
use siridb_server.Imap.Tree.{
  Node, node, value, nodes, with_value, is_none, ensure_place, unsafe_node, node_set, added,
  overwritten, set_no_mem, SetRc, set_grown,
}
use siridb_server.Imap.Tree.Arrays.{IsValid, total}
use siridb_server.Imap.Tree.Find.{found, node_get-found}
use siridb_server.Imap.Tree.Place.{ensure_place-IsValid}
use siridb_server.Imap.Tree.Child.{
  ensure_place-found, items-node, total-child-le, set_child-IsValid, with_value-items,
  with_value-IsValid,
}
use siridb_server.Imap.Tree.Set.{node_set-value}

pub set_grown-le : (rc : SetRc) → set_grown rc ≤ 1
set_grown-le added = omega arith
set_grown-le overwritten = omega arith
set_grown-le set_no_mem = omega arith

-- The ids that fit in so many levels below a node.
abbrev pub reach : ℕ → ℕ
reach zero = 0
reach (suc depth) = 32 * (reach depth + 1)

module _ {A : Type 0} where
  -- The code for a fresh id and for one that is there.
  abbrev pub set_code : Option A → SetRc
  set_code none = added
  set_code (some y) = overwritten

  set_code-eq : (o : Option A) → (if is_none o then added else overwritten) ≡ set_code o
  set_code-eq none = refl
  set_code-eq (some y) = refl

  -- `IMAP_set` keeps the counters right, and the node's counter grows by what the code says.
  pub node_set-IsValid :
      (depth : ℕ) (mem : ℕ → Bool) (n : Node A) (i : ℕ) (x : A)
      → IsValid n
      → total (nodes n) + 1 < 2 ^ 32
      → let (rc, n') = node_set depth mem n i x in
        IsValid n' × (total (nodes n') ≡ total (nodes n) + set_grown rc)
  unfolding node_set
  node_set-IsValid zero mem n i x v small = (v, omega arith)
  node_set-IsValid (suc depth) mem n i x v small =
      let made = ensure_place (mem depth) n (i % 32) in
      let c = unsafe_node made.1 (i % 32) in
      let deeper = node_set depth mem c (i / 32 - 1) x in
      let (vm, tm, _) = ensure_place-IsValid (mem depth) n (i % 32) (omega arith) v in
      elim (Bool-cases made.0) [
        | inr no_mem ↦ rw (no_mem, node_set) (vm, omega (arith, tm))
        | inl ok ↦
            let (p, vc, _) = (ensure_place-found (mem depth) n i depth i v).1 ok in
            elim (Bool-cases (i / 32 == 0)) [
              | inl leaf ↦
                  let rc = if is_none (value c) then added else overwritten in
                  let r =
                    set_child-IsValid made.1 (with_value c (some x)) (i % 32) (set_grown rc)
                      (omega arith) p vm (with_value-IsValid c (some x) vc)
                      (ground (arith, with_value-items c x)) (omega (arith, tm, set_grown-le rc)) in
                  rw (ok, leaf, node_set) (r.0, r.1 ∙ ap (λ t. t + set_grown rc) tm)
              | inr deep ↦
                  let (vd, td) =
                    node_set-IsValid depth mem c (i / 32 - 1) x vc
                      (omega (arith, items-node c, total-child-le made.1 (i % 32), tm)) in
                  let r =
                    set_child-IsValid made.1 deeper.1 (i % 32) (set_grown deeper.0) (omega arith) p
                      vm vd
                      (ground (
                        arith,
                        items-node deeper.1,
                        items-node c,
                        td,
                        node_set-value depth mem c (i / 32 - 1) x,
                      ))
                      (omega (arith, tm, set_grown-le deeper.0)) in
                  rw (ok, deep, node_set) (r.0, r.1 ∙ ap (λ t. t + set_grown deeper.0) tm)
            ]
      ]

  -- `IMAP_set` fails, or says whether the id was there before.
  pub node_set-code :
      (depth : ℕ) (mem : ℕ → Bool) (n : Node A) (i : ℕ) (x : A)
      → IsValid n
      → let rc = (node_set depth mem n i x).0 in
        (rc ≡ set_no_mem) ⊎ (rc ≡ set_code (found depth n i))
  unfolding node_set
  node_set-code zero mem n i x v = inl refl
  node_set-code (suc depth) mem n i x v =
      let made = ensure_place (mem depth) n (i % 32) in
      let c = unsafe_node made.1 (i % 32) in
      let before = ensure_place-found (mem depth) n i (suc depth) i v in
      elim (Bool-cases made.0) [
        | inr no_mem ↦ rw (no_mem, node_set) (inl refl)
        | inl ok ↦
            let (p, vc, same) = before.1 ok in
            elim (Bool-cases (i / 32 == 0)) [
              | inl leaf ↦
                  rw (ok, leaf, node_set)
                    (inr (
                      set_code-eq (value c)
                      ∙ ap set_code (ground (arith, node_get-found depth c i, same refl))))
              | inr deep ↦
                  rw (ok, deep, node_set)
                    (ground (
                      arith,
                      node_set-code depth mem c (i / 32 - 1) x vc,
                      node_get-found depth c i,
                      same refl,
                    ))
            ]
      ]

  pub ensure_place-mem : (n : Node A) (i : ℕ) → (ensure_place true n i).0 ≡ true
  unfolding ensure_place
  ensure_place-mem (node s k d ns) i = ground arith

  -- With memory, and levels for the id, it does not fail.
  pub node_set-succeeds :
      (depth : ℕ) (mem : ℕ → Bool) (n : Node A) (i : ℕ) (x : A)
      → ((d : ℕ) → mem d ≡ true)
      → i < reach depth
      → (node_set depth mem n i x).0 ≢ set_no_mem
  unfolding node_set
  node_set-succeeds zero mem n i x m h = elim h [ ]
  node_set-succeeds (suc depth) mem n i x m h =
      let c = unsafe_node (ensure_place true n (i % 32)).1 (i % 32) in
      rw (m depth, ensure_place-mem n (i % 32), node_set)
        (elim (Bool-cases (i / 32 == 0)) [
          | inl leaf ↦ rw leaf (ground arith)
          | inr deep ↦ rw deep (node_set-succeeds depth mem c (i / 32 - 1) x m (ground arith))
        ])
