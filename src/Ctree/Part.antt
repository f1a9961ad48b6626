-- ===== src/Ctree/Part.antt =====
-- `CT_add`, where the name parts from the key of a node, and the whole of a split.
use mathlib.Core.List.{append-nil}
use siridb_server.Base.{
  ℕ, ◌-◌, ◌*◌, ◌/◌, ◌≡◌, ◌≢◌, refl, ap, ap₂, sym, subst, ◌∙◌, Bool, true, false, none, some, List,
  [], ◌∷◌, ◌++◌, arith, inr, ℕ_discrete,
}
use siridb_server.Ctree.{
  block_sz, Node, node, ct_ok, Resized, key_of, slot, put_slot, child, child_of, node_resize,
  node_new, split_new, rest_of, split_at, get_from,
}
use siridb_server.Ctree.Child.{child-here, child-put_self, child-put_ne}
use siridb_server.Ctree.Resize.{IsValid, Grown, node_resize_lem, node_resize-done}
use siridb_server.Ctree.Count.{new_child-IsValid, leaf-IsValid}
use siridb_server.Ctree.Find.{
  value_of, get_from-nil, get_from-child, get_from-part, get_from-short, Change, Outcome,
}
use siridb_server.Ctree.Split.{
  get_from_self, leaf-others, one_child, one_child_self, one_child-ne, slots-one_child,
  children-one_child, one_child-AllValid, from_rest, split_end-Change,
}

module _ {A : Type 0} where
  -- A node without an item, with a child for `r` and a leaf for `c`.
  module _ (x : A) (nd nd' : Node A) (c r : ℕ) (cs rs : List ℕ) (apart : c ≢ r)
      (item : value_of nd' ≡ none) (at_c : child_of nd' c ≡ some (node_new cs (some x)))
      (at_r : child_of nd' r ≡ some (rest_of rs nd))
      (elsewhere : (d : ℕ) → d ≢ c → d ≢ r → child_of nd' d ≡ none) where
    part_others : (q : List ℕ) → q ≢ c ∷ cs → get_from q [] nd' ≡ get_from q (r ∷ rs) nd
    part_others [] other = get_from-nil nd' ∙ item ∙ sym (get_from-short nd r rs)
    part_others (d ∷ q) other = elim (ℕ_discrete d c) [
      | yes e ↦
          ap (λ a. get_from (a ∷ q) [] nd') e
          ∙ get_from-child nd' c q (some (node_new cs (some x))) at_c
          ∙ leaf-others q cs cs (some x) (λ k. other (ap₂ (λ a b. a ∷ b) e k))
          ∙ sym (get_from-part nd d r q rs (λ k. apart (sym e ∙ k)))
      | no not_c ↦ elim (ℕ_discrete d r) [
        | yes e ↦
            subst (λ a. get_from (a ∷ q) [] nd' ≡ get_from (a ∷ q) (r ∷ rs) nd) (sym e)
              (from_rest nd nd' r rs q at_r)
        | no not_r ↦
            get_from-child nd' d q none (elsewhere d not_c not_r)
            ∙ sym (get_from-part nd d r q rs not_r)
      ]
    ]

    part-Change : Change x (c ∷ cs) nd (r ∷ rs) nd' []
    part-Change = record {
      stored =
          get_from-child nd' c cs (some (node_new cs (some x))) at_c
          ∙ get_from_self cs (node_new cs (some x));
      absent = get_from-part nd c r cs rs apart;
      others = part_others;
    }

  -- The array for both children.
  abbrev pub both : ℕ → ℕ → Node A → Resized A
  both r c rest = node_resize true (r / block_sz) 1 (one_child r rest) (c / block_sz)

  both-Grown :
      (r c : ℕ) (rest : Node A) → Grown (r / block_sz) 1 (one_child r rest) c (both r c rest)
  both-Grown r c rest =
      node_resize_lem (r / block_sz) 1 (one_child r rest) c (inr (slots-one_child r rest))

  abbrev parted : List ℕ → A → ℕ → ℕ → List ℕ → Node A → Node A
  parted pre x r c cs rest =
      let g = both r c rest in
      node pre none 2 g.1 g.2 (put_slot g.3 (c - g.1 * block_sz) (some (node_new cs (some x))))

  parted-Change :
      (x : A) (nd : Node A) (pre : List ℕ) (r : ℕ) (rs : List ℕ) (c : ℕ) (cs : List ℕ)
      → c ≢ r
      → Change x (c ∷ cs) nd (r ∷ rs) (parted pre x r c cs (rest_of rs nd)) []
  parted-Change x nd pre r rs c cs apart =
      let rest = rest_of rs nd in
      let g = both r c rest in
      let grown : Grown (r / block_sz) 1 (one_child r rest) c g = both-Grown r c rest in
      let leaf = node_new cs (some x) in
      let unchanged : (d : ℕ)
          → d ≢ c
          → child g.1 g.2 (put_slot g.3 (c - g.1 * block_sz) (some leaf)) d
            ≡ child (r / block_sz) 1 (one_child r rest) d =
        λ d h. child-put_ne g.1 g.2 g.3 c d (some leaf) grown.in_range.0 h ∙ grown.same d in
      part-Change x nd (parted pre x r c cs rest) c r cs rs apart refl
        (child-put_self g.1 g.2 g.3 c (some leaf) grown.in_range)
        (unchanged r (λ e. apart (sym e)) ∙ one_child_self r rest)
        (λ d not_c not_r. unchanged d not_c ∙ one_child-ne r d rest not_r)

  parted-IsValid :
      (x : A) (pre : List ℕ) (r c : ℕ) (cs : List ℕ) (rest : Node A)
      → c ≢ r
      → IsValid rest
      → IsValid (parted pre x r c cs rest)
  parted-IsValid x pre r c cs rest apart v =
      let g = both r c rest in
      let grown : Grown (r / block_sz) 1 (one_child r rest) c g = both-Grown r c rest in
      let (lo, hi, whole) = grown.in_range in
      let free_there : slot g.3 (c - g.1 * block_sz) ≡ none =
        sym (child-here g.1 g.2 g.3 c lo hi) ∙ grown.same c ∙ one_child-ne r c rest apart in
      new_child-IsValid pre none 2 g.1 g.2 c g.3 (node_new cs (some x)) grown.in_range free_there
        (omega (arith, grown.counted, children-one_child r rest))
        (grown.valid (one_child-AllValid r rest v)) (leaf-IsValid cs (some x))

  rest_of-IsValid : (rs : List ℕ) (nd : Node A) → IsValid nd → IsValid (rest_of rs nd)
  rest_of-IsValid rs (node key v s o n ns) h = h

  pub split_new-done :
      (nd : Node A) (pre : List ℕ) (x : A) (c : ℕ) (cs : List ℕ) (g : Resized A)
      → g.0 ≡ true
      → split_new
          (record { new_nodes = true; rest = true; resize = true; leaf = true })
          nd
          pre
          x
          c
          cs
          g
        ≡ (
          ct_ok,
          node pre none 2 g.1 g.2 (put_slot g.3 (c - g.1 * block_sz) (some (node_new cs (some x)))),
        )
  split_new-done (node key v s o n ns) pre x c cs (true, o', n', ns') e = refl
  split_new-done nd pre x c cs (false, o', n', ns') e = absurd (ground arith)

  -- A split, where memory is there for the array and the leaf.
  pub split_at-Outcome :
      (a b : Bool) (x : A) (nd : Node A) (pre : List ℕ) (r : ℕ) (rs cs : List ℕ)
      → key_of nd ≡ pre ++ r ∷ rs
      → IsValid nd
      → ((c : ℕ) (ds : List ℕ) → cs ≡ c ∷ ds → c ≢ r)
      → Outcome x cs nd pre (r ∷ rs) (
          split_at
            (record { new_nodes = a; rest = b; resize = true; leaf = true })
            nd
            pre
            r
            rs
            cs
            x)
  split_at-Outcome false b x nd pre r rs cs key v apart = (key, λ q. refl, v)
  split_at-Outcome true false x nd pre r rs cs key v apart = (key, λ q. refl, v)
  split_at-Outcome true true x nd pre r rs [] key v apart = (
    [],
    sym (append-nil pre),
    split_end-Change x nd pre r rs,
    (
      sym (children-one_child r (rest_of rs nd)),
      inr (slots-one_child r (rest_of rs nd)),
      one_child-AllValid r (rest_of rs nd) (rest_of-IsValid rs nd v),
    ),
  )
  split_at-Outcome true true x nd pre r rs (c ∷ cs) e valid apart =
      let rest = rest_of rs nd in
      subst (Outcome x (c ∷ cs) nd pre (r ∷ rs))
        (sym (
          split_new-done nd pre x c cs (both r c rest)
            (node_resize-done (r / block_sz) 1 (one_child r rest) (c / block_sz))))
        (
          [],
          sym (append-nil pre),
          parted-Change x nd pre r rs c cs (apart c cs refl),
          parted-IsValid x pre r c cs rest (apart c cs refl) (rest_of-IsValid rs nd valid),
        )
