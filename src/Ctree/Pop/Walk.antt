-- ===== src/Ctree/Pop/Walk.antt =====
-- `CT_pop` from a node to its child.
use siridb_server.Base.{
  ℕ, ◌-◌, ◌*◌, ◌≡◌, ◌≢◌, refl, ap₂, sym, subst, ◌∙◌, Bool, Option, none, some, List, [], ◌∷◌, ◌++◌,
  inr, ℕ_discrete,
}
use siridb_server.Ctree.{
  block_sz, Node, Nodes, node, key_of, slot, put_slot, child, child_of, get_from, get_child,
}
use siridb_server.Ctree.Child.{slots-put_slot, InRange, child-put_self, child-put_ne}
use siridb_server.Ctree.Resize.{IsValid}
use siridb_server.Ctree.Count.{children-gone, clear-AllValid, old_child-IsValid}
use siridb_server.Ctree.Find.{value_of, get_from-nil, get_from-child}
use siridb_server.Ctree.Write.{at_other, at_child}
use siridb_server.Ctree.Pop.{dec_node, pop_child}
use siridb_server.Ctree.Pop.Dec.{dec_node-Kept}
use siridb_server.Ctree.Pop.Remove.{Left, Popped, Kept-Left, self-Kept}

module _ {A : Type 0} where
  -- Nothing is found at `cs` from the place `b`, and else what is found from the place `a`.
  pub record Removed (cs : List ℕ) (a b : Option (Node A)) : Type 0 where
    pub gone : get_child b cs ≡ none
    pub others : (q : List ℕ) → q ≢ cs → get_child b q ≡ get_child a q

  pub Left-Removed :
      (cs : List ℕ) (ch : Node A) (p : Option (Node A))
      → Left cs ch [] (key_of ch) p
      → Removed cs (some ch) p
  Left-Removed cs ch none h = record { gone = refl; others = λ q other. sym (h q other) }
  Left-Removed cs ch (some ch') (rest', k, gone, others, valid) = record {
    gone = subst (λ l. get_from cs l ch' ≡ none) (sym k) gone;
    others = λ q other.
        subst (λ l. get_from q l ch' ≡ get_from q (key_of ch) ch) (sym k) (others q other);
  }

  -- Two nodes with the same item, whose children differ at `c` alone.
  module _ (nd nd' : Node A) (c : ℕ) (a b : Option (Node A)) (item : value_of nd' ≡ value_of nd)
      (old : child_of nd c ≡ a) (new : child_of nd' c ≡ b)
      (elsewhere : (d : ℕ) → d ≢ c → child_of nd' d ≡ child_of nd d) where
    Removed-others :
        (cs q : List ℕ) → Removed cs a b → q ≢ c ∷ cs → get_from q [] nd' ≡ get_from q [] nd
    Removed-others cs [] h other = get_from-nil nd' ∙ item ∙ sym (get_from-nil nd)
    Removed-others cs (d ∷ q) h other = elim (ℕ_discrete d c) [
      | yes e ↦
          at_child nd nd' c a b item old new elsewhere d q e
            (h.others q (λ k. other (ap₂ (λ a b. a ∷ b) e k)))
      | no e ↦ at_other nd nd' c a b item old new elsewhere d q e
    ]

    Removed-gone : (cs : List ℕ) → Removed cs a b → get_from (c ∷ cs) [] nd' ≡ none
    Removed-gone cs h = get_from-child nd' c cs b new ∙ h.gone

  pub pop_child-Popped :
      (m : Bool) (key pre : List ℕ) (v : Option A) (s o n : ℕ) (ns : Nodes A) (c : ℕ) (cs : List ℕ)
      (ch : Node A) (x : Option A) (p : Option (Node A))
      → key ≡ pre ++ []
      → IsValid (node key v s o n ns)
      → InRange o n ns c
      → slot ns (c - o * block_sz) ≡ some ch
      → child o n ns c ≡ some ch
      → Popped cs ch [] (key_of ch) (x, p)
      → Popped (c ∷ cs) (node key v s o n ns) pre [] (pop_child m (node key v s o n ns) c (x, p))
  pop_child-Popped m key pre v s o n ns c cs ch x none e (counted, shape, valid) (lo, hi, whole)
        there old (found, left) =
      let nd = node key v s o n ns in
      let ns' = put_slot ns (c - o * block_sz) none in
      let nd' = node key v s o n ns' in
      let new : child o n ns' c ≡ none = child-put_self o n ns c none (lo, hi, whole) in
      let elsewhere : (d : ℕ) → d ≢ c → child o n ns' d ≡ child o n ns d =
        λ d h. child-put_ne o n ns c d none lo h in
      let removed = Left-Removed cs ch none left in
      (
        found ∙ sym (get_from-child nd c cs (some ch) old),
        Kept-Left (c ∷ cs) key pre nd nd' (dec_node m nd') e
            (Removed-gone nd nd' c (some ch) none refl old new elsewhere cs removed)
            (λ q other.
              Removed-others nd nd' c (some ch) none refl old new elsewhere cs q removed other)
            (dec_node-Kept key s o n ns' m v
              (counted ∙ sym (children-gone ns (c - o * block_sz) ch there))
              (inr (slots-put_slot ns (c - o * block_sz) none ∙ whole))
              (clear-AllValid ns (c - o * block_sz) valid)),
      )
  pop_child-Popped m key pre v s o n ns c cs ch x (some ch') e (counted, shape, valid)
        (lo, hi, whole) there old (found, left) =
      let nd = node key v s o n ns in
      let ns' = put_slot ns (c - o * block_sz) (some ch') in
      let nd' = node key v s o n ns' in
      let new : child o n ns' c ≡ some ch' = child-put_self o n ns c (some ch') (lo, hi, whole) in
      let elsewhere : (d : ℕ) → d ≢ c → child o n ns' d ≡ child o n ns d =
        λ d h. child-put_ne o n ns c d (some ch') lo h in
      let removed = Left-Removed cs ch (some ch') left in
      (
        found ∙ sym (get_from-child nd c cs (some ch) old),
        Kept-Left (c ∷ cs) key pre nd nd' nd' e
            (Removed-gone nd nd' c (some ch) (some ch') refl old new elsewhere cs removed)
            (λ q other.
              Removed-others nd nd' c (some ch) (some ch') refl old new elsewhere cs q removed
                other)
            (self-Kept nd' (
              old_child-IsValid key v s o n c ns ch' ch (lo, hi, whole) there counted valid
                left.4)),
      )
