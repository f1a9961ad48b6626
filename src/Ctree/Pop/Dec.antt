-- ===== src/Ctree/Pop/Dec.antt =====
-- `CT_dec_node`: what is found from the node stays the same.
use mathlib.Core.List.{append-nil}
use siridb_server.Base.{
  ℕ, suc, ◌-◌, ◌≡◌, refl, sym, ◌∙◌, Bool, Option, none, some, List, [], arith, ◌==◌, inl, inr,
  Bool-cases,
}
use siridb_server.Ctree.{Nodes, node, nil}
use siridb_server.Ctree.Child.{HasShape}
use siridb_server.Ctree.Resize.{children, IsValid, AllValid, no_child}
use siridb_server.Ctree.Find.{get_from-same}
use siridb_server.Ctree.Pop.{merge_node, dec_node}
use siridb_server.Ctree.Pop.Merge.{slot-no_children, Kept, merge_node-Kept}

module _ {A : Type 0} (key : List ℕ) (s o n : ℕ) (ns : Nodes A) where
  -- Only the counter is another.
  resized-Kept :
      (v : Option A) (s' : ℕ)
      → IsValid (node key v s' o n ns)
      → Kept key (node key v s o n ns) (node key v s' o n ns)
  resized-Kept v s' valid = (
    [],
    sym (append-nil key),
    λ q. get_from-same (node key v s o n ns) (node key v s' o n ns) q [] refl (λ k. refl),
    valid,
  )

  emptied-Kept :
      (v : Option A) → children ns ≡ 0 → Kept key (node key v s o n ns) (node key v 0 o n nil)
  emptied-Kept v none_there = (
    [],
    sym (append-nil key),
    λ q. get_from-same (node key v s o n ns) (node key v 0 o n nil) q [] refl (λ k.
        no_child o n nil k (λ i. refl)
        ∙ sym (no_child o n ns k (λ i. slot-no_children ns i none_there))),
    (refl, inl refl, tt),
  )

  single-Kept :
      (m : Bool) (v : Option A) (s' : ℕ)
      → s' ≡ 1
      → IsValid (node key v s' o n ns)
      → Kept key (node key v s o n ns) (elim v [
        | none ↦ merge_node m (node key none s' o n ns)
        | some x ↦ node key (some x) s' o n ns
      ])
  single-Kept m (some x) s' one valid = resized-Kept (some x) s' valid
  single-Kept m none s' one valid =
      let (rest, k, same, v) = merge_node-Kept m key s' o n ns one valid in
      (
        rest,
        k,
        λ q.
            same q
            ∙ get_from-same (node key none s o n ns) (node key none s' o n ns) q [] refl
                (λ k. refl),
        v,
      )

  -- A child of the node is gone.
  pub dec_node-Kept :
      (m : Bool) (v : Option A)
      → s ≡ suc (children ns)
      → HasShape n ns
      → AllValid ns
      → Kept key (node key v s o n ns) (dec_node m (node key v s o n ns))
  dec_node-Kept m v counted shape valid = elim (Bool-cases (s - 1 == 0)) [
    | inl last ↦ rw last (emptied-Kept v (ground arith))
    | inr more ↦ elim (Bool-cases (s - 1 == 1)) [
      | inl one ↦
          rw (more, one)
            (single-Kept m v (s - 1) (ground arith) (omega (arith, counted), shape, valid))
      | inr many ↦ rw (more, many) (resized-Kept v (s - 1) (omega (arith, counted), shape, valid))
    ]
  ]
