-- ===== src/Ctree/Pop/Tree.antt =====
-- `CT_pop` and `ct_pop`: a name is removed, and no other name changes.
use mathlib.Core.List.{append_assoc}
use siridb_server.Base.{
  ℕ, ◌+◌, ◌-◌, ◌*◌, ◌%◌, ◌^◌, ◌≡◌, ◌≢◌, refl, ap, ap₂, sym, subst, ◌∙◌, Bool, true, false, Option,
  none, some, List, [], ◌∷◌, ◌++◌, arith, ◌==◌, if◌then◌else◌, inl, inr, ℕ_discrete, Option-cases,
}
use siridb_server.Ctree.{
  block_sz, Node, Nodes, node, Ct, key_of, put_slot, child, child_of, get_from, get_child, ct_get,
}
use siridb_server.Ctree.Child.{slots-put_slot, child-put_self, child-put_ne}
use siridb_server.Ctree.Resize.{IsValid, AllValid}
use siridb_server.Ctree.Count.{slot-IsValid, clear-AllValid, put-AllValid}
use siridb_server.Ctree.Find.{get_from-child, get_from-step, get_from-part, get_from-short}
use siridb_server.Ctree.Tree.{IsTree, get_nil, get_cons, get_others}
use siridb_server.Ctree.Pop.{has_item, pop_child, pop_from, with_popped, ct_pop}
use siridb_server.Ctree.Pop.Remove.{Left, Popped, pop_here-Popped, child-InRange}
use siridb_server.Ctree.Pop.Walk.{Left-Removed, pop_child-Popped}

module _ {A : Type 0} where
  Popped-step :
      (c : ℕ) (cs : List ℕ) (nd : Node A) (pre rest : List ℕ) (x : Option A) (p : Option (Node A))
      → Popped cs nd (pre ++ c ∷ []) rest (x, p)
      → Popped (c ∷ cs) nd pre (c ∷ rest) (x, p)
  Popped-step c cs nd pre rest x none (found, left) =
      (found ∙ sym (get_from-step nd c c cs rest refl), others_of)
    where
      others_of : (q : List ℕ) → q ≢ c ∷ cs → get_from q (c ∷ rest) nd ≡ none
      others_of [] other = get_from-short nd c rest
      others_of (d ∷ q) other = elim (ℕ_discrete d c) [
        | yes e ↦ get_from-step nd d c q rest e ∙ left q (λ k. other (ap₂ (λ a b. a ∷ b) e k))
        | no e ↦ get_from-part nd d c q rest e
      ]
  Popped-step c cs nd pre rest x (some nd') (found, (rest', k, gone, others, valid)) = (
    found ∙ sym (get_from-step nd c c cs rest refl),
    (
      c ∷ rest',
      k ∙ append_assoc pre (c ∷ []) rest',
      get_from-step nd' c c cs rest' refl ∙ gone,
      others_of,
      valid,
    ),
  )
    where
      others_of : (q : List ℕ) → q ≢ c ∷ cs → get_from q (c ∷ rest') nd' ≡ get_from q (c ∷ rest) nd
      others_of [] other = get_from-short nd' c rest' ∙ sym (get_from-short nd c rest)
      others_of (d ∷ q) other = elim (ℕ_discrete d c) [
        | yes e ↦
            get_from-step nd' d c q rest' e
            ∙ others q (λ k. other (ap₂ (λ a b. a ∷ b) e k))
            ∙ sym (get_from-step nd d c q rest e)
        | no e ↦ get_from-part nd' d c q rest' e ∙ sym (get_from-part nd d c q rest e)
      ]

  -- The name is not there: nothing is changed.
  nothing-Popped :
      (cs pre rest : List ℕ) (nd : Node A)
      → key_of nd ≡ pre ++ rest
      → IsValid nd
      → get_from cs rest nd ≡ none
      → Popped cs nd pre rest (none, some nd)
  nothing-Popped cs pre rest nd e valid nothing =
      (sym nothing, (rest, e, nothing, λ q other. refl, valid))

  pop_key :
      (m : Bool) (c r : ℕ) (cs rs : List ℕ) (nd : Node A)
      → c ≡ r
      → pop_from m (c ∷ cs) (r ∷ rs) nd ≡ pop_from m cs rs nd
  unfolding pop_from
  pop_key m c r cs rs nd e = let same : (c == r) ≡ true = ground arith in rw (same, pop_from) refl

  pop_parts :
      (m : Bool) (c r : ℕ) (cs rs : List ℕ) (nd : Node A)
      → c ≢ r
      → pop_from m (c ∷ cs) (r ∷ rs) nd ≡ (none, some nd)
  unfolding pop_from
  pop_parts m c r cs rs nd e =
      let other : (c == r) ≡ false = ground arith in rw (other, pop_from) refl

  pop_down :
      (m : Bool) (c : ℕ) (cs : List ℕ) (nd : Node A) (p : Option (Node A))
      → child_of nd c ≡ p
      → pop_from m (c ∷ cs) [] nd ≡ elim p [
        | none ↦ (none, some nd)
        | some ch ↦ pop_child m nd c (pop_from m cs (key_of ch) ch)
      ]
  unfolding pop_from
  pop_down m c cs nd none there = rw (there, pop_from) refl
  pop_down m c cs nd (some ch) there = rw (there, pop_from) refl

  pop_from-Popped :
      (m : Bool) (cs pre rest : List ℕ) (nd : Node A)
      → key_of nd ≡ pre ++ rest
      → IsValid nd
      → Popped cs nd pre rest (pop_from m cs rest nd)
  unfolding pop_from
  pop_from-Popped m [] pre [] nd e valid = pop_here-Popped m nd pre e valid
  pop_from-Popped m [] pre (r ∷ rs) nd e valid =
      nothing-Popped [] pre (r ∷ rs) nd e valid (get_from-short nd r rs)
  pop_from-Popped m (c ∷ cs) pre (r ∷ rs) nd e valid = elim (ℕ_discrete c r) [
    | yes k ↦ subst (Popped (c ∷ cs) nd pre (r ∷ rs)) (sym (pop_key m c r cs rs nd k)) (
        subst (λ d. Popped (c ∷ cs) nd pre (d ∷ rs) (pop_from m cs rs nd)) k
          (Popped-step c cs nd pre rs (pop_from m cs rs nd).0 (pop_from m cs rs nd).1 (
            pop_from-Popped m cs (pre ++ c ∷ []) rs nd
              (e ∙ ap (λ d. pre ++ d ∷ rs) (sym k) ∙ sym (append_assoc pre (c ∷ []) rs)) valid)))
    | no k ↦
        subst (Popped (c ∷ cs) nd pre (r ∷ rs)) (sym (pop_parts m c r cs rs nd k))
          (nothing-Popped (c ∷ cs) pre (r ∷ rs) nd e valid (get_from-part nd c r cs rs k))
  ]
  pop_from-Popped m (c ∷ cs) pre [] (node key v s o n ns) e valid =
      let nd = node key v s o n ns in
      elim (Option-cases (child o n ns c)) [
        | inl there ↦
            subst (Popped (c ∷ cs) nd pre []) (sym (pop_down m c cs nd none there))
              (nothing-Popped (c ∷ cs) pre [] nd e valid (get_from-child nd c cs none there))
        | inr (ch, there) ↦
            let (range, read) = child-InRange o n ns c ch valid.1 there in
            let r = pop_from m cs (key_of ch) ch in
            subst (Popped (c ∷ cs) nd pre []) (sym (pop_down m c cs nd (some ch) there)) (
              pop_child-Popped m key pre v s o n ns c cs ch r.0 r.1 e valid range read there (
                pop_from-Popped m cs [] (key_of ch) ch refl
                  (slot-IsValid ns (c - o * block_sz) ch valid.2 read)))
      ]

  -- What `ct_pop` does.
  abbrev pub Taken : List ℕ → Ct A → Option A × Ct A → Type 0
  Taken key t (x, t') =
      (x ≡ ct_get t key)
      × (t'.len ≡ (if has_item x then (t.len + 2 ^ 32 - 1) % 2 ^ 32 else t.len))
      × (ct_get t' key ≡ none)
      × ((q : List ℕ) → q ≢ key → ct_get t' q ≡ ct_get t q)
      × IsTree t'

  top_pop :
      (m : Bool) (c : ℕ) (cs : List ℕ) (t : Ct A) (p : Option (Node A))
      → child t.offset t.n t.nodes c ≡ p
      → ct_pop m t (c ∷ cs)
        ≡ elim p [ none ↦ (none, t) | some nd ↦ with_popped t c (pop_from m cs (key_of nd) nd) ]
  unfolding ct_pop
  top_pop m c cs t none there = rw (there, ct_pop) refl
  top_pop m c cs t (some nd) there = rw (there, ct_pop) refl

  Left-AllValid :
      (cs : List ℕ) (nd : Node A) (ns : Nodes A) (i : ℕ) (p : Option (Node A))
      → AllValid ns
      → Left cs nd [] (key_of nd) p
      → AllValid (put_slot ns i p)
  Left-AllValid cs nd ns i none v left = clear-AllValid ns i v
  Left-AllValid cs nd ns i (some ch) v left = put-AllValid ns i ch v left.4

  with_popped-Taken :
      (c : ℕ) (cs : List ℕ) (t : Ct A) (nd : Node A) (x : Option A) (p : Option (Node A))
      → IsTree t
      → child t.offset t.n t.nodes c ≡ some nd
      → Popped cs nd [] (key_of nd) (x, p)
      → Taken (c ∷ cs) t (with_popped t c (x, p))
  with_popped-Taken c cs t nd x p (shape, valid) there (found, left) =
      let ((lo, hi, whole), read) = child-InRange t.offset t.n t.nodes c nd shape there in
      let i = c - t.offset * block_sz in
      let t' = (with_popped t c (x, p)).1 in
      let new : child t.offset t.n (put_slot t.nodes i p) c ≡ p =
        child-put_self t.offset t.n t.nodes c p (lo, hi, whole) in
      let removed = Left-Removed cs nd p left in
      (
        found ∙ sym (get_cons t c cs ∙ ap (λ k. get_child k cs) there),
        refl,
        get_cons t' c cs ∙ ap (λ k. get_child k cs) new ∙ removed.gone,
        λ q other.
            get_others t t' c (some nd) p there new
              (λ d h. child-put_ne t.offset t.n t.nodes c d p lo h) q
              (λ ds e. removed.others ds (λ k. other (e ∙ ap (λ j. c ∷ j) k))),
        (inr (slots-put_slot t.nodes i p ∙ whole), Left-AllValid cs nd t.nodes i p valid left),
      )

  -- `ct_pop` of a tree, whether memory is given for a merge or not: the item of the name is returned, or NULL
  -- where there is none, and `len`, a 32-bit word, is one less for an item. The name is not there any more, and every other name
  -- is found as before. The arrays and the counters of all nodes stay right.
  pub ct_pop_lem : (m : Bool) (t : Ct A) (key : List ℕ) → IsTree t → Taken key t (ct_pop m t key)
  unfolding ct_pop
  ct_pop_lem m t [] valid = (sym (get_nil t), refl, get_nil t, λ q other. refl, valid)
  ct_pop_lem m t (c ∷ cs) valid = elim (Option-cases (child t.offset t.n t.nodes c)) [
    | inl there ↦
        let nothing : ct_get t (c ∷ cs) ≡ none = get_cons t c cs ∙ ap (λ p. get_child p cs) there in
        subst (Taken (c ∷ cs) t) (sym (top_pop m c cs t none there))
          (sym nothing, refl, nothing, λ q other. refl, valid)
    | inr (nd, there) ↦
        let (range, read) = child-InRange t.offset t.n t.nodes c nd valid.0 there in
        let r = pop_from m cs (key_of nd) nd in
        subst (Taken (c ∷ cs) t) (sym (top_pop m c cs t (some nd) there)) (
          with_popped-Taken c cs t nd r.0 r.1 valid there (
            pop_from-Popped m cs [] (key_of nd) nd refl
              (slot-IsValid t.nodes (c - t.offset * block_sz) nd valid.1 read)))
  ]
