-- ===== src/Ctree/Write.antt =====
-- `CT_add`, where the name goes on in a child, which is new or changed: what is found from the node afterwards.
use siridb_server.Base.{
  ℕ, suc, ◌+◌, ◌-◌, ◌*◌, ◌≡◌, ◌≢◌, refl, ap, ap₂, sym, subst, ◌∙◌, Bool, true, Option, none, some,
  List, [], ◌∷◌, ◌++◌, arith, if◌then◌else◌, ℕ_discrete,
}
use siridb_server.Ctree.{
  block_sz, Node, Nodes, node, nil, free, used, CtRc, ct_ok, ct_err, ct_exists, Resized, key_of,
  is_null, slot, put_slot, child, child_of, node_new, in_child, new_child, get_from, get_child,
}
use siridb_server.Ctree.Child.{child-here, child-put_self, child-put_ne}
use siridb_server.Ctree.Resize.{children, IsValid, Grown}
use siridb_server.Ctree.Count.{new_child-IsValid, old_child-IsValid, leaf-IsValid}
use siridb_server.Ctree.Find.{value_of, get_from-nil, get_from-child, Same, Change, Outcome}
use siridb_server.Ctree.Split.{get_from_self, leaf-others}

module _ {A : Type 0} where
  -- `x` is found at `cs` from the place `b` where there was nothing from the place `a`, and else the same.
  pub record Stored (x : A) (cs : List ℕ) (a b : Option (Node A)) : Type 0 where
    pub stored : get_child b cs ≡ some x
    pub absent : get_child a cs ≡ none
    pub others : (q : List ℕ) → q ≢ cs → get_child b q ≡ get_child a q

  pub leaf-Stored : (x : A) (cs : List ℕ) → Stored x cs none (some (node_new cs (some x)))
  leaf-Stored x cs = record {
    stored = get_from_self cs (node_new cs (some x));
    absent = refl;
    others = λ q other. leaf-others q cs cs (some x) other;
  }

  Change-Stored :
      (x : A) (cs : List ℕ) (ch ch' : Node A)
      → Change x cs ch (key_of ch) ch' (key_of ch')
      → Stored x cs (some ch) (some ch')
  Change-Stored x cs ch ch' h = record { stored = h.stored; absent = h.absent; others = h.others }

  pub Outcome-Stored :
      (x : A) (cs rest' : List ℕ) (ch ch' : Node A)
      → key_of ch' ≡ rest'
      → Change x cs ch (key_of ch) ch' rest'
      → Stored x cs (some ch) (some ch')
  Outcome-Stored x cs rest' ch ch' e h =
      Change-Stored x cs ch ch' (subst (λ k. Change x cs ch (key_of ch) ch' k) (sym e) h)

  pub kept_child :
      (ch ch' : Node A) (q : List ℕ)
      → key_of ch' ≡ key_of ch
      → Same ch (key_of ch) ch' (key_of ch)
      → get_child (some ch') q ≡ get_child (some ch) q
  kept_child ch ch' q e h = subst (λ k. get_from q k ch' ≡ get_from q (key_of ch) ch) (sym e) (h q)

  -- Two nodes with the same item, whose children differ at `c` alone.
  module _ (nd nd' : Node A) (c : ℕ) (a b : Option (Node A)) (item : value_of nd' ≡ value_of nd)
      (old : child_of nd c ≡ a) (new : child_of nd' c ≡ b)
      (elsewhere : (d : ℕ) → d ≢ c → child_of nd' d ≡ child_of nd d) where
    pub at_other : (d : ℕ) (q : List ℕ) → d ≢ c → get_from (d ∷ q) [] nd' ≡ get_from (d ∷ q) [] nd
    at_other d q h =
        get_from-child nd' d q (child_of nd d) (elsewhere d h)
        ∙ sym (get_from-child nd d q (child_of nd d) refl)

    pub at_child :
        (d : ℕ) (q : List ℕ)
        → d ≡ c
        → get_child b q ≡ get_child a q
        → get_from (d ∷ q) [] nd' ≡ get_from (d ∷ q) [] nd
    at_child d q e h =
        subst (λ k. get_from (k ∷ q) [] nd' ≡ get_from (k ∷ q) [] nd) (sym e)
          (get_from-child nd' c q b new ∙ h ∙ sym (get_from-child nd c q a old))

    Stored-Change : (x : A) (cs : List ℕ) → Stored x cs a b → Change x (c ∷ cs) nd [] nd' []
    Stored-Change x cs h = record {
      stored = get_from-child nd' c cs b new ∙ h.stored;
      absent = get_from-child nd c cs a old ∙ h.absent;
      others = others_of;
    }
      where
        others_of : (q : List ℕ) → q ≢ c ∷ cs → get_from q [] nd' ≡ get_from q [] nd
        others_of [] other = get_from-nil nd' ∙ item ∙ sym (get_from-nil nd)
        others_of (d ∷ q) other = elim (ℕ_discrete d c) [
          | yes e ↦ at_child d q e (h.others q (λ k. other (ap₂ (λ a b. a ∷ b) e k)))
          | no e ↦ at_other d q e
        ]

    kept-Same : ((q : List ℕ) → get_child b q ≡ get_child a q) → Same nd [] nd' []
    kept-Same h [] = get_from-nil nd' ∙ item ∙ sym (get_from-nil nd)
    kept-Same h (d ∷ q) = elim (ℕ_discrete d c) [
      | yes e ↦ at_child d q e (h q)
      | no e ↦ at_other d q e
    ]

  size_after :
      (s : ℕ) (ns : Nodes A)
      → s ≡ children ns
      → (if is_null ns then 1 else s + 1) ≡ suc (children ns)
  size_after s nil e = refl
  size_after s (free ns) e = omega (arith, e)
  size_after s (used c ns) e = omega (arith, e)

  -- The array `g` of the node has grown to have a place for `c`.
  module _ (key : List ℕ) (v : Option A) (s o n : ℕ) (ns : Nodes A) (c : ℕ) (g : Resized A)
      (grown : Grown o n ns c g) (valid : IsValid (node key v s o n ns)) where
    -- What is read at the place is the child.
    pub place-child : (p : Option (Node A)) → slot g.3 (c - g.1 * block_sz) ≡ p → child o n ns c ≡ p
    place-child p e =
        sym (grown.same c) ∙ child-here g.1 g.2 g.3 c grown.in_range.0 grown.in_range.1 ∙ e

    written :
        (ch : Node A) → child g.1 g.2 (put_slot g.3 (c - g.1 * block_sz) (some ch)) c ≡ some ch
    written ch = child-put_self g.1 g.2 g.3 c (some ch) grown.in_range

    unwritten :
        (ch : Node A) (d : ℕ)
        → d ≢ c
        → child g.1 g.2 (put_slot g.3 (c - g.1 * block_sz) (some ch)) d ≡ child o n ns d
    unwritten ch d h = child-put_ne g.1 g.2 g.3 c d (some ch) grown.in_range.0 h ∙ grown.same d

    pub new_child-Outcome :
        (a b : Bool) (x : A) (cs pre : List ℕ)
        → slot g.3 (c - g.1 * block_sz) ≡ none
        → key ≡ pre ++ []
        → Outcome x (c ∷ cs) (node key v s o n ns) pre [] (
            new_child
              (record { new_nodes = a; rest = b; resize = true; leaf = true })
              (node key v s o n ns)
              c
              cs
              x
              g)
    new_child-Outcome a b x cs pre there e =
        let ch = node_new cs (some x) in
        let nd' =
          node key v (if is_null ns then 1 else s + 1) g.1 g.2
            (put_slot g.3 (c - g.1 * block_sz) (some ch)) in
        (
          [],
          e,
          Stored-Change (node key v s o n ns) nd' c none (some ch) refl (place-child none there)
              (written ch) (unwritten ch) x cs (leaf-Stored x cs),
          new_child-IsValid key v (if is_null ns then 1 else s + 1) g.1 g.2 c g.3 ch grown.in_range
              there (size_after s ns valid.0 ∙ ap suc (sym grown.counted)) (grown.valid valid.2)
              (leaf-IsValid cs (some x)),
        )

    pub in_child-Outcome :
        (x : A) (cs pre : List ℕ) (ch : Node A) (r : CtRc × Node A)
        → slot g.3 (c - g.1 * block_sz) ≡ some ch
        → key ≡ pre ++ []
        → Outcome x cs ch [] (key_of ch) r
        → Outcome x (c ∷ cs) (node key v s o n ns) pre [] (in_child (node key v s o n ns) c g r)
    in_child-Outcome x cs pre ch (ct_ok, ch') there e (rest', k, change, vc) =
        let nd' = node key v s g.1 g.2 (put_slot g.3 (c - g.1 * block_sz) (some ch')) in
        (
          [],
          e,
          Stored-Change (node key v s o n ns) nd' c (some ch) (some ch') refl
              (place-child (some ch) there) (written ch') (unwritten ch') x cs
              (Outcome-Stored x cs rest' ch ch' k change),
          old_child-IsValid key v s g.1 g.2 c g.3 ch' ch grown.in_range there
              (valid.0 ∙ sym grown.counted) (grown.valid valid.2) vc,
        )
    in_child-Outcome x cs pre ch (ct_exists, ch') there e (y, k, found, same, vc) =
        let nd' = node key v s g.1 g.2 (put_slot g.3 (c - g.1 * block_sz) (some ch')) in
        (
          y,
          e,
          get_from-child (node key v s o n ns) c cs (some ch) (place-child (some ch) there) ∙ found,
          kept-Same (node key v s o n ns) nd' c (some ch) (some ch') refl
              (place-child (some ch) there) (written ch') (unwritten ch')
              (λ q. kept_child ch ch' q k same),
          old_child-IsValid key v s g.1 g.2 c g.3 ch' ch grown.in_range there
              (valid.0 ∙ sym grown.counted) (grown.valid valid.2) vc,
        )
    in_child-Outcome x cs pre ch (ct_err, ch') there e (k, same, vc) =
        let nd' = node key v s g.1 g.2 (put_slot g.3 (c - g.1 * block_sz) (some ch')) in
        (
          e,
          kept-Same (node key v s o n ns) nd' c (some ch) (some ch') refl
              (place-child (some ch) there) (written ch') (unwritten ch')
              (λ q. kept_child ch ch' q k same),
          old_child-IsValid key v s g.1 g.2 c g.3 ch' ch grown.in_range there
              (valid.0 ∙ sym grown.counted) (grown.valid valid.2) vc,
        )
