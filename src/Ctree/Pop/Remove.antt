-- ===== src/Ctree/Pop/Remove.antt =====
-- `CT_pop`: what is found from a node afterwards.
use mathlib.Core.List.{append-nil}
use siridb_server.Base.{
  ℕ, ◌+◌, ◌-◌, ◌*◌, ◌/◌, ◌≤◌, ◌<◌, ◌≡◌, ◌≢◌, refl, ap, sym, ◌∙◌, Bool, ◌||◌, ltb, leb, Option, none,
  some, List, [], ◌∷◌, ◌++◌, arith, ◌==◌, inl, inr, Bool-cases,
}
use siridb_server.Ctree.{block_sz, Node, Nodes, node, key_of, slot, child, get_from}
use siridb_server.Ctree.Child.{slot-beyond, HasShape, InRange, child-here}
use siridb_server.Ctree.Resize.{children, IsValid, no_child}
use siridb_server.Ctree.Find.{get_from-nil, get_from-child, item_others}
use siridb_server.Ctree.Pop.{merge_node, pop_here}
use siridb_server.Ctree.Pop.Merge.{slot-no_children, Kept, merge_node-Kept}

module _ {A : Type 0} where
  -- What is left of a node: nothing, or a node whose key may be longer.
  abbrev pub Left : List ℕ → Node A → List ℕ → List ℕ → Option (Node A) → Type 0
  Left cs nd pre rest none = (q : List ℕ) → q ≢ cs → get_from q rest nd ≡ none
  Left cs nd pre rest (some nd') =
      (rest' : List ℕ) × (key_of nd' ≡ pre ++ rest')
      × (get_from cs rest' nd' ≡ none)
      × ((q : List ℕ) → q ≢ cs → get_from q rest' nd' ≡ get_from q rest nd)
      × IsValid nd'

  -- What `CT_pop` does, from the place `rest` in the key of `nd`, behind `pre`.
  abbrev pub Popped : List ℕ → Node A → List ℕ → List ℕ → Option A × Option (Node A) → Type 0
  Popped cs nd pre rest (x, p) = (x ≡ get_from cs rest nd) × Left cs nd pre rest p

  pub Kept-Left :
      (cs key pre : List ℕ) (nd nd₁ nd' : Node A)
      → key ≡ pre ++ []
      → get_from cs [] nd₁ ≡ none
      → ((q : List ℕ) → q ≢ cs → get_from q [] nd₁ ≡ get_from q [] nd)
      → Kept key nd₁ nd'
      → Left cs nd pre [] (some nd')
  Kept-Left cs key pre nd nd₁ nd' e gone others (rest, k, same, valid) = (
    rest,
    k ∙ ap (λ l. l ++ rest) (e ∙ append-nil pre),
    same cs ∙ gone,
    λ q other. same q ∙ others q other,
    valid,
  )

  pub self-Kept : (nd : Node A) → IsValid nd → Kept (key_of nd) nd nd
  self-Kept nd valid = ([], sym (append-nil (key_of nd)), λ q. refl, valid)

  leaf_nothing :
      (key : List ℕ) (v : Option A) (s o n : ℕ) (ns : Nodes A) (q : List ℕ)
      → children ns ≡ 0
      → q ≢ []
      → get_from q [] (node key v s o n ns) ≡ none
  leaf_nothing key v s o n ns [] h other = absurd (other refl)
  leaf_nothing key v s o n ns (d ∷ q) h other =
      get_from-child (node key v s o n ns) d q none
        (no_child o n ns d (λ i. slot-no_children ns i h))

  pub pop_here-Popped :
      (m : Bool) (nd : Node A) (pre : List ℕ)
      → key_of nd ≡ pre ++ []
      → IsValid nd
      → Popped [] nd pre [] (pop_here m nd)
  pop_here-Popped m (node key v s o n ns) pre e (counted, shape, valid) =
      let nd = node key v s o n ns in
      let bare = node key none s o n ns in
      elim (Bool-cases (s == 0)) [
        | inl leaf ↦
            rw leaf
              (sym (get_from-nil nd), λ q other. leaf_nothing key v s o n ns q (ground arith) other)
        | inr inner ↦ elim (Bool-cases (s == 1)) [
          | inl one ↦
              rw (inner, one)
                (
                  sym (get_from-nil nd),
                  Kept-Left [] key pre nd bare (merge_node m bare) e (get_from-nil bare)
                      (item_others key none v s o n ns)
                      (merge_node-Kept m key s o n ns (ground arith) (counted, shape, valid)),
                )
          | inr many ↦
              rw (inner, many)
                (
                  sym (get_from-nil nd),
                  Kept-Left [] key pre nd bare bare e (get_from-nil bare)
                      (item_others key none v s o n ns) (self-Kept bare (counted, shape, valid)),
                )
        ]
      ]

  -- A child that is there has a place in the array.
  pub child-InRange :
      (o n : ℕ) (ns : Nodes A) (c : ℕ) (ch : Node A)
      → HasShape n ns
      → child o n ns c ≡ some ch
      → InRange o n ns c × (slot ns (c - o * block_sz) ≡ some ch)
  child-InRange o n ns c ch shape there =
      elim (Bool-cases (ltb (c / block_sz) o || leb (o + n) (c / block_sz))) [
        | inl out ↦
            let nothing : child o n ns c ≡ none = rw out refl in absurd (cc (sym nothing ∙ there))
        | inr within ↦
            let lo : o ≤ c / block_sz = ground arith in
            let hi : c / block_sz < o + n = ground arith in
            let read : slot ns (c - o * block_sz) ≡ some ch =
              sym (child-here o n ns c lo hi) ∙ there in
            elim shape [
              | inl none_there ↦
                  absurd (
                    cc (sym (slot-beyond ns (c - o * block_sz) (omega (arith, none_there))) ∙ read))
              | inr whole ↦ ((lo, hi, whole), read)
            ]
      ]
