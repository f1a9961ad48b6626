-- ===== src/Ctree/Split.antt =====
-- `CT_add`, where the name ends or parts within the key of a node.

use siridb_server.Base.{
  ℕ, ◌-◌, ◌*◌, ◌/◌, ◌%◌, ◌≡◌, ◌≢◌, refl, ap₂, sym, subst, ◌∙◌, Option, none, some, List, [], ◌∷◌,
  arith, ℕ_discrete,
}
use siridb_server.Ctree.{
  block_sz, Node, Nodes, node, nil, put_slot, free_before, child, child_of, node_new, split_end,
  rest_of, get_from,
}
use siridb_server.Ctree.Child.{slots, slots-put_slot, child-put_self, child-put_ne, slot-all_free}
use siridb_server.Ctree.Resize.{children, IsValid, AllValid, no_child}
use siridb_server.Ctree.Count.{children-new, put-AllValid}
use siridb_server.Ctree.Find.{
  value_of, get_from-nil, get_from-child, get_from-step, get_from-part, get_from-short,
  get_from-same, Change,
}

char_place : (r : ℕ) → r - r / block_sz * block_sz ≡ r % block_sz
char_place r = omega arith

module _ {A : Type 0} where
  -- The whole key gives the item; a leaf gives nothing else.
  pub get_from_self : (cs : List ℕ) (nd : Node A) → get_from cs cs nd ≡ value_of nd
  get_from_self [] nd = get_from-nil nd
  get_from_self (c ∷ cs) nd = get_from-step nd c c cs cs refl ∙ get_from_self cs nd

  pub leaf-others :
      (q cs key : List ℕ) (v : Option A) → q ≢ cs → get_from q cs (node_new key v) ≡ none
  leaf-others [] [] key v other = absurd (other refl)
  leaf-others [] (c ∷ cs) key v other = get_from-short (node_new key v) c cs
  leaf-others (d ∷ q) [] key v other =
      get_from-child (node_new key v) d q none (no_child 255 0 nil d (λ i. refl))
  leaf-others (d ∷ q) (c ∷ cs) key v other = elim (ℕ_discrete d c) [
    | yes e ↦
        get_from-step (node_new key v) d c q cs e
        ∙ leaf-others q cs key v (λ k. other (ap₂ (λ a b. a ∷ b) e k))
    | no e ↦ get_from-part (node_new key v) d c q cs e
  ]

  -- The new array, with the rest of the node in it.
  abbrev pub one_child : ℕ → Node A → Nodes A
  one_child r rest = put_slot (free_before block_sz nil) (r % block_sz) (some rest)

  pub one_child_self :
      (r : ℕ) (rest : Node A) → child (r / block_sz) 1 (one_child r rest) r ≡ some rest
  one_child_self r rest =
      subst
        (λ i.
          child (r / block_sz) 1 (put_slot (free_before block_sz nil) i (some rest)) r ≡ some rest)
        (char_place r)
        (child-put_self (r / block_sz) 1 (free_before block_sz nil) r (some rest)
          (omega arith, omega arith, refl))

  pub one_child-ne :
      (r d : ℕ) (rest : Node A) → d ≢ r → child (r / block_sz) 1 (one_child r rest) d ≡ none
  one_child-ne r d rest h =
      subst
        (λ i. child (r / block_sz) 1 (put_slot (free_before block_sz nil) i (some rest)) d ≡ none)
        (char_place r)
        (child-put_ne (r / block_sz) 1 (free_before block_sz nil) r d (some rest) (omega arith) h
          ∙ no_child (r / block_sz) 1 (free_before block_sz nil) d (slot-all_free block_sz))

  pub slots-one_child : (r : ℕ) (rest : Node A) → slots (one_child r rest) ≡ block_sz * 1
  slots-one_child r rest = slots-put_slot (free_before block_sz nil) (r % block_sz) (some rest)

  pub children-one_child : (r : ℕ) (rest : Node A) → children (one_child r rest) ≡ 1
  children-one_child r rest =
      children-new (free_before block_sz nil) (r % block_sz) rest (omega arith)
        (slot-all_free block_sz (r % block_sz))

  pub one_child-AllValid : (r : ℕ) (rest : Node A) → IsValid rest → AllValid (one_child r rest)
  one_child-AllValid r rest v = put-AllValid (free_before block_sz nil) (r % block_sz) rest tt v

  -- What was found behind `r` in the key is found by way of the new child for `r`.
  pub from_rest :
      (nd nd' : Node A) (r : ℕ) (rs ds : List ℕ)
      → child_of nd' r ≡ some (rest_of rs nd)
      → get_from (r ∷ ds) [] nd' ≡ get_from (r ∷ ds) (r ∷ rs) nd
  from_rest (node key v s o n ns) nd' r rs ds e =
      let nd = node key v s o n ns in
      get_from-child nd' r ds (some (node rs v s o n ns)) e
      ∙ get_from-same nd (node rs v s o n ns) ds rs refl (λ k. refl)
      ∙ sym (get_from-step nd r r ds rs refl)

  pub split_end-Change :
      (x : A) (nd : Node A) (pre : List ℕ) (r : ℕ) (rs : List ℕ)
      → Change x [] nd (r ∷ rs) (split_end pre x r (rest_of rs nd)) []
  split_end-Change x nd pre r rs = record {
    stored = get_from-nil (split_end pre x r (rest_of rs nd));
    absent = get_from-short nd r rs;
    others = others_of;
  }
    where
      others_of :
          (q : List ℕ)
          → q ≢ []
          → get_from q [] (split_end pre x r (rest_of rs nd)) ≡ get_from q (r ∷ rs) nd
      others_of [] other = absurd (other refl)
      others_of (d ∷ q) other = elim (ℕ_discrete d r) [
        | yes e ↦
            subst
              (λ a.
                get_from (a ∷ q) [] (split_end pre x r (rest_of rs nd))
                ≡ get_from (a ∷ q) (r ∷ rs) nd)
              (sym e)
              (from_rest nd (split_end pre x r (rest_of rs nd)) r rs q
                (one_child_self r (rest_of rs nd)))
        | no e ↦
            get_from-child (split_end pre x r (rest_of rs nd)) d q none
              (one_child-ne r d (rest_of rs nd) e)
            ∙ sym (get_from-part nd d r q rs e)
      ]
