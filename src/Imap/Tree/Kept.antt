-- ===== src/Imap/Tree/Kept.antt =====
-- The items below a node after `IMAP_set` and `IMAP_add`.
use mathlib.Core.List.{Perm}
use siridb_server.Base.{
  ℕ, zero, suc, ◌-◌, ◌/◌, ◌%◌, ◌≡◌, ◌≢◌, refl, ◌∙◌, inl, inr, Bool, some, ◌∷◌, ◌==◌, arith,
  Bool-cases,
}
use siridb_server.Imap.Tree.{
  Node, value, nodes, with_value, is_none, ensure_place, unsafe_node, node_set, node_add, added,
  add_ok, set_grown, add_grown,
}
use siridb_server.Imap.Tree.Arrays.{IsValid}
use siridb_server.Imap.Tree.Child.{ensure_place-found}
use siridb_server.Imap.Tree.Set.{node_set-value}
use siridb_server.Imap.Tree.Add.{node_add-value}
use siridb_server.Imap.Tree.Values.{
  values, ensure_place-values, own-perm, own-eq, own-with_value, set_child-perm,
  set_child-values_eq, perm_via,
}

module _ {A : Type 0} where
  -- What `IMAP_set` does to the items when it adds one.
  pub node_set-perm :
      (depth : ℕ) (mem : ℕ → Bool) (n : Node A) (i : ℕ) (x : A)
      → IsValid n
      → (node_set depth mem n i x).0 ≡ added
      → Perm (values (nodes (node_set depth mem n i x).1)) (x ∷ values (nodes n))
  unfolding node_set
  node_set-perm zero mem n i x v = λ h. absurd (ground arith)
  node_set-perm (suc depth) mem n i x v =
      let made = ensure_place (mem depth) n (i % 32) in
      let c = unsafe_node made.1 (i % 32) in
      let deeper = node_set depth mem c (i / 32 - 1) x in
      let same = ensure_place-values (mem depth) n (i % 32) v in
      elim (Bool-cases made.0) [
        | inr no_mem ↦ rw (no_mem, node_set) (λ h. absurd (ground arith))
        | inl ok ↦
            let (p, vc, _) = (ensure_place-found (mem depth) n i depth i v).1 ok in
            elim (Bool-cases (i / 32 == 0)) [
              | inl leaf ↦ elim (Bool-cases (is_none (value c))) [
                | inl fresh ↦
                    rw (ok, leaf, fresh, node_set)
                      (λ h. perm_via x same (
                        set_child-perm made.1 (with_value c (some x)) (i % 32) 1 x p (omega arith)
                          (own-with_value c x fresh)))
                | inr old ↦ rw (ok, leaf, old, node_set) (λ h. absurd (ground arith))
              ]
              | inr deep ↦
                  rw (ok, deep, node_set)
                    (λ h. perm_via x same (
                      set_child-perm made.1 deeper.1 (i % 32) (set_grown deeper.0) x p (omega arith)
                        (own-perm c deeper.1 x (node_set-value depth mem c (i / 32 - 1) x)
                          (node_set-perm depth mem c (i / 32 - 1) x vc h))))
            ]
      ]

  -- What `IMAP_add` does to the items when it adds one.
  pub node_add-perm :
      (depth : ℕ) (mem : ℕ → Bool) (n : Node A) (i : ℕ) (x : A)
      → IsValid n
      → (node_add depth mem n i x).0 ≡ add_ok
      → Perm (values (nodes (node_add depth mem n i x).1)) (x ∷ values (nodes n))
  unfolding node_add
  node_add-perm zero mem n i x v = λ h. absurd (ground arith)
  node_add-perm (suc depth) mem n i x v =
      let made = ensure_place (mem depth) n (i % 32) in
      let c = unsafe_node made.1 (i % 32) in
      let deeper = node_add depth mem c (i / 32 - 1) x in
      let same = ensure_place-values (mem depth) n (i % 32) v in
      elim (Bool-cases made.0) [
        | inr no_mem ↦ rw (no_mem, node_add) (λ h. absurd (ground arith))
        | inl ok ↦
            let (p, vc, _) = (ensure_place-found (mem depth) n i depth i v).1 ok in
            elim (Bool-cases (i / 32 == 0)) [
              | inl leaf ↦ elim (Bool-cases (is_none (value c))) [
                | inl fresh ↦
                    rw (ok, leaf, fresh, node_add)
                      (λ h. perm_via x same (
                        set_child-perm made.1 (with_value c (some x)) (i % 32) 1 x p (omega arith)
                          (own-with_value c x fresh)))
                | inr old ↦ rw (ok, leaf, old, node_add) (λ h. absurd (ground arith))
              ]
              | inr deep ↦
                  rw (ok, deep, node_add)
                    (λ h. perm_via x same (
                      set_child-perm made.1 deeper.1 (i % 32) (add_grown deeper.0) x p (omega arith)
                        (own-perm c deeper.1 x (node_add-value depth mem c (i / 32 - 1) x)
                          (node_add-perm depth mem c (i / 32 - 1) x vc h))))
            ]
      ]

  -- It leaves them as they were when it does not.
  pub node_add-values :
      (depth : ℕ) (mem : ℕ → Bool) (n : Node A) (i : ℕ) (x : A)
      → IsValid n
      → (node_add depth mem n i x).0 ≢ add_ok
      → values (nodes (node_add depth mem n i x).1) ≡ values (nodes n)
  unfolding node_add
  node_add-values zero mem n i x v = λ h. refl
  node_add-values (suc depth) mem n i x v =
      let made = ensure_place (mem depth) n (i % 32) in
      let c = unsafe_node made.1 (i % 32) in
      let deeper = node_add depth mem c (i / 32 - 1) x in
      let same = ensure_place-values (mem depth) n (i % 32) v in
      elim (Bool-cases made.0) [
        | inr no_mem ↦ rw (no_mem, node_add) (λ h. same)
        | inl ok ↦
            let (p, vc, _) = (ensure_place-found (mem depth) n i depth i v).1 ok in
            elim (Bool-cases (i / 32 == 0)) [
              | inl leaf ↦ elim (Bool-cases (is_none (value c))) [
                | inl fresh ↦ rw (ok, leaf, fresh, node_add) (λ h. absurd (h refl))
                | inr old ↦ rw (ok, leaf, old, node_add) (λ h. same)
              ]
              | inr deep ↦
                  rw (ok, deep, node_add)
                    (λ h.
                      set_child-values_eq made.1 deeper.1 (i % 32) (add_grown deeper.0) (
                        own-eq c deeper.1 (node_add-value depth mem c (i / 32 - 1) x)
                          (node_add-values depth mem c (i / 32 - 1) x vc h))
                      ∙ same)
            ]
      ]
