-- ===== src/Ctree/Pop/Merge.antt =====
-- `CT_merge_node`: what is found from the node stays the same.
use mathlib.Core.List.{append-nil}
use siridb_server.Base.{
  ℕ, zero, suc, ◌+◌, ◌-◌, ◌*◌, ◌/◌, ◌≤◌, ◌<◌, ◌≡◌, ◌≢◌, refl, ap, sym, subst, ◌∙◌, Bool, true,
  false, ◌||◌, ltb, leb, none, some, List, [], ◌∷◌, ◌++◌, arith, inl, inr, ℕ_discrete, Bool-cases,
}
use siridb_server.Ctree.{
  block_sz, Node, Nodes, node, nil, free, used, key_of, slot, child, child_of, get_from,
}
use siridb_server.Ctree.Child.{slots, child-here}
use siridb_server.Ctree.Resize.{children, IsValid, AllValid}
use siridb_server.Ctree.Find.{
  value_of, get_from-nil, get_from-child, get_from-step, get_from-part, get_from-short,
  get_from-same,
}
use siridb_server.Ctree.Pop.{first_child, merged, merge_first, merge_node}

module _ {A : Type 0} where
  pub slot-no_children : (ns : Nodes A) (i : ℕ) → children ns ≡ 0 → slot ns i ≡ none
  slot-no_children nil i h = refl
  slot-no_children (free ns) zero h = refl
  slot-no_children (free ns) (suc i) h = slot-no_children ns i h
  slot-no_children (used ch ns) i h = absurd (omega arith)

  -- The only child of an array with one.
  record Only (base : ℕ) (ns : Nodes A) (i : ℕ) (ch : Node A) : Type 0 where
    pub first : first_child base ns ≡ some (base + i, ch)
    pub there : slot ns i ≡ some ch
    pub inside : i < slots ns
    pub alone : (j : ℕ) → j ≢ i → slot ns j ≡ none
    pub valid : AllValid ns → IsValid ch

  first_child-Only :
      (base : ℕ) (ns : Nodes A) → children ns ≡ 1 → (i : ℕ) × (ch : Node A) × Only base ns i ch
  first_child-Only base nil h = absurd (omega arith)
  first_child-Only base (used ch ns) h = (
    0,
    ch,
    record {
      first = ap (λ k. some (k, ch)) {x = base} (omega arith);
      there = refl;
      inside = omega arith;
      alone = alone_of;
      valid = λ v. v.0;
    },
  )
    where
      alone_of : (j : ℕ) → j ≢ 0 → slot (used ch ns) j ≡ none
      alone_of zero other = absurd (other refl)
      alone_of (suc j) other = slot-no_children ns j (omega arith)
  first_child-Only base (free ns) h =
      let (i, ch, only) = first_child-Only (suc base) ns h in
      (
        suc i,
        ch,
        record {
          first = only.first ∙ ap (λ k. some (k, ch)) {x = suc base + i} (omega arith);
          there = only.there;
          inside = omega (arith, only.inside);
          alone = alone_of i ch only;
          valid = only.valid;
        },
      )
    where
      alone_of :
          (i : ℕ) (ch : Node A)
          → Only (suc base) ns i ch
          → (j : ℕ) → j ≢ suc i
          → slot (free ns) j ≡ none
      alone_of i ch only zero other = refl
      alone_of i ch only (suc j) other = only.alone j (λ e. other (ap suc e))

  -- A node without an item, whose only child is `ch` for the character `k`.
  module _ (nd ch : Node A) (key : List ℕ) (k : ℕ) (item : value_of nd ≡ none)
      (there : child_of nd k ≡ some ch) (alone : (d : ℕ) → d ≢ k → child_of nd d ≡ none) where
    child_merged :
        (q : List ℕ) → get_from q (key_of ch) (merged key k ch) ≡ get_from q (key_of ch) ch
    child_merged q = merged_same ch
      where
        merged_same :
            (c : Node A) → get_from q (key_of ch) (merged key k c) ≡ get_from q (key_of ch) c
        merged_same (node key' v s o n ns) =
            get_from-same (node key' v s o n ns) (node (key ++ k ∷ key') v s o n ns) q (key_of ch)
              refl (λ d. refl)

    merged-same : (q : List ℕ) → get_from q (k ∷ key_of ch) (merged key k ch) ≡ get_from q [] nd
    merged-same [] = get_from-short (merged key k ch) k (key_of ch) ∙ sym (get_from-nil nd ∙ item)
    merged-same (d ∷ q) = elim (ℕ_discrete d k) [
      | yes e ↦
          get_from-step (merged key k ch) d k q (key_of ch) e
          ∙ child_merged q
          ∙ sym (get_from-child nd d q (some ch) (ap (child_of nd) e ∙ there))
      | no e ↦
          get_from-part (merged key k ch) d k q (key_of ch) e
          ∙ sym (get_from-child nd d q none (alone d e))
    ]

  -- `nd'` is found behind `key` as `nd` is, with a key that may be longer.
  abbrev pub Kept : List ℕ → Node A → Node A → Type 0
  Kept key nd nd' =
      (rest : List ℕ) × (key_of nd' ≡ key ++ rest)
      × ((q : List ℕ) → get_from q rest nd' ≡ get_from q [] nd)
      × IsValid nd'

  key_of-merged :
      (key : List ℕ) (k : ℕ) (ch : Node A) → key_of (merged key k ch) ≡ key ++ k ∷ key_of ch
  key_of-merged key k (node key' v s o n ns) = refl

  merged-IsValid : (key : List ℕ) (k : ℕ) (ch : Node A) → IsValid ch → IsValid (merged key k ch)
  merged-IsValid key k (node key' v s o n ns) h = h

  alone_in :
      (o n i : ℕ) (ns : Nodes A) (ch : Node A) (d : ℕ)
      → Only 0 ns i ch
      → d ≢ 0 + i + o * block_sz
      → child o n ns d ≡ none
  alone_in o n i ns ch d only h =
      elim (Bool-cases (ltb (d / block_sz) o || leb (o + n) (d / block_sz))) [
        | inl out ↦ rw out refl
        | inr within ↦
            let at : o ≤ d / block_sz = ground arith in
            rw within (only.alone (d - o * block_sz) (λ e. h (omega (arith, e, at))))
      ]

  pub merge_node-Kept :
      (m : Bool) (key : List ℕ) (s o n : ℕ) (ns : Nodes A)
      → s ≡ 1
      → IsValid (node key none s o n ns)
      → Kept key (node key none s o n ns) (merge_node m (node key none s o n ns))
  merge_node-Kept false key s o n ns one valid = ([], sym (append-nil key), λ q. refl, valid)
  merge_node-Kept true key s o n ns one (counted, shape, valid) =
      let nd = node key none s o n ns in
      let (i, ch, only) = first_child-Only 0 ns (sym counted ∙ one) in
      let k = 0 + i + o * block_sz in
      let whole : slots ns ≡ block_sz * n = elim shape [
        | inl none_there ↦ absurd (omega (arith, none_there, only.inside))
        | inr w ↦ w
      ] in
      let inside : i < slots ns = only.inside in
      let lo : o ≤ k / block_sz = omega (arith, inside, whole) in
      let hi : k / block_sz < o + n = omega (arith, inside, whole) in
      let there : child o n ns k ≡ some ch =
        child-here o n ns k lo hi
        ∙ ap (slot ns) {x = k - o * block_sz} {y = i} (omega arith)
        ∙ only.there in
      subst (Kept key nd) (sym (ap (merge_first nd) only.first)) (
        k ∷ key_of ch,
        key_of-merged key k ch,
        merged-same nd ch key k refl there (λ d h. alone_in o n i ns ch d only h),
        merged-IsValid key k ch (only.valid valid),
      )
