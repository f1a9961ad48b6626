-- ===== src/Ctree/Add.antt =====
-- `CT_add` where memory is there for arrays and leaves: what is found from the node afterwards.
use mathlib.Core.List.{append_assoc}
use siridb_server.Base.{
  ℕ, ◌-◌, ◌*◌, ◌/◌, ◌≡◌, ◌≢◌, refl, ap, sym, subst, ◌∙◌, Bool, true, false, Option, none, some,
  List, [], ◌∷◌, ◌++◌, arith, ◌==◌, inl, inr, ℕ_discrete, Option-cases,
}
use siridb_server.Ctree.{
  block_sz, Node, node, Mem, CtRc, ct_err, Resized, key_of, slot, rest_of, split_at, add_here,
  in_child, new_child, resize_for, add_from,
}
use siridb_server.Ctree.Resize.{IsValid, Grown, node_resize_lem, node_resize-done}
use siridb_server.Ctree.Count.{slot-IsValid}
use siridb_server.Ctree.Find.{get_from-nil, item_others, Outcome, Outcome-step}
use siridb_server.Ctree.Part.{split_at-Outcome, split_new-done, both}
use siridb_server.Ctree.Split.{one_child}
use siridb_server.Ctree.Write.{new_child-Outcome, in_child-Outcome}

-- Memory may be missing where a node is split, before anything is changed.
abbrev pub enough : Bool → Bool → Mem
enough a b = record { new_nodes = a; rest = b; resize = true; leaf = true }

module _ {A : Type 0} where
  add_here-Outcome :
      (x : A) (nd : Node A) (pre : List ℕ)
      → key_of nd ≡ pre ++ []
      → IsValid nd
      → Outcome x [] nd pre [] (add_here x nd)
  add_here-Outcome x (node key (some y) s o n ns) pre e valid =
      (y, e, get_from-nil (node key (some y) s o n ns), λ q. refl, valid)
  add_here-Outcome x (node key none s o n ns) pre e valid = (
    [],
    e,
    record {
      stored = get_from-nil (node key (some x) s o n ns);
      absent = get_from-nil (node key none s o n ns);
      others = item_others key (some x) none s o n ns;
    },
    valid,
  )

  -- The name goes on behind the key.
  child_case :
      (m : Mem) (x : A) (c : ℕ) (cs pre : List ℕ) (nd : Node A) (p : Option (Node A))
      → (resize_for m nd c).0 ≡ true
      → slot (resize_for m nd c).3 (c - (resize_for m nd c).1 * block_sz) ≡ p
      → add_from m x (c ∷ cs) pre [] nd ≡ elim p [
        | none ↦ new_child m nd c cs x (resize_for m nd c)
        | some ch ↦ in_child nd c (resize_for m nd c) (add_from m x cs [] (key_of ch) ch)
      ]
  unfolding add_from
  child_case m x c cs pre nd none done there = rw (done, there, add_from) refl
  child_case m x c cs pre nd (some ch) done there = rw (done, there, add_from) refl

  key_case :
      (m : Mem) (x : A) (c r : ℕ) (cs pre rs : List ℕ) (nd : Node A)
      → c ≡ r
      → add_from m x (c ∷ cs) pre (r ∷ rs) nd ≡ add_from m x cs (pre ++ c ∷ []) rs nd
  unfolding add_from
  key_case m x c r cs pre rs nd e =
      let same : (c == r) ≡ true = ground arith in
      rw (same, add_from) (ap (λ k. add_from m x cs (pre ++ k ∷ []) rs nd) (sym e))

  part_case :
      (m : Mem) (x : A) (c r : ℕ) (cs pre rs : List ℕ) (nd : Node A)
      → c ≢ r
      → add_from m x (c ∷ cs) pre (r ∷ rs) nd ≡ split_at m nd pre r rs (c ∷ cs) x
  unfolding add_from
  part_case m x c r cs pre rs nd e =
      let other : (c == r) ≡ false = ground arith in rw (other, add_from) refl

  -- `CT_add` where memory is there for arrays and leaves.
  pub add_from-Outcome :
      (a b : Bool) (x : A) (cs pre rest : List ℕ) (nd : Node A)
      → key_of nd ≡ pre ++ rest
      → IsValid nd
      → Outcome x cs nd pre rest (add_from (enough a b) x cs pre rest nd)
  unfolding add_from
  add_from-Outcome a b x [] pre [] nd e valid = add_here-Outcome x nd pre e valid
  add_from-Outcome a b x [] pre (r ∷ rs) nd e valid =
      split_at-Outcome a b x nd pre r rs [] e valid (λ c ds k. absurd (ground arith))
  add_from-Outcome a b x (c ∷ cs) pre (r ∷ rs) nd e valid = elim (ℕ_discrete c r) [
    | yes k ↦
        subst (Outcome x (c ∷ cs) nd pre (r ∷ rs))
          (sym (key_case (enough a b) x c r cs pre rs nd k))
          (subst
            (λ d.
              Outcome x (c ∷ cs) nd pre (d ∷ rs) (add_from (enough a b) x cs (pre ++ c ∷ []) rs nd))
            k
            (Outcome-step x c cs nd pre rs (add_from (enough a b) x cs (pre ++ c ∷ []) rs nd) (
              add_from-Outcome a b x cs (pre ++ c ∷ []) rs nd
                (e ∙ ap (λ d. pre ++ d ∷ rs) (sym k) ∙ sym (append_assoc pre (c ∷ []) rs)) valid)))
    | no k ↦
        subst (Outcome x (c ∷ cs) nd pre (r ∷ rs))
          (sym (part_case (enough a b) x c r cs pre rs nd k))
          (split_at-Outcome a b x nd pre r rs (c ∷ cs) e valid
            (λ d ds h. subst (λ i. i ≢ r) (head_eq c d cs ds h) k))
  ]
    where
      head_eq : (c d : ℕ) (cs ds : List ℕ) → c ∷ cs ≡ d ∷ ds → c ≡ d
      head_eq c d cs ds h = ground arith
  add_from-Outcome a b x (c ∷ cs) pre [] (node key v s o n ns) e valid =
      let m = enough a b in
      let nd = node key v s o n ns in
      let g = resize_for m nd c in
      let done : g.0 ≡ true = node_resize-done o n ns (c / block_sz) in
      let grown : Grown o n ns c g = node_resize_lem o n ns c valid.1 in
      elim (Option-cases (slot g.3 (c - g.1 * block_sz))) [
        | inl there ↦
            subst (Outcome x (c ∷ cs) nd pre []) (sym (child_case m x c cs pre nd none done there))
              (new_child-Outcome key v s o n ns c g grown valid a b x cs pre there e)
        | inr (ch, there) ↦
            subst (Outcome x (c ∷ cs) nd pre [])
              (sym (child_case m x c cs pre nd (some ch) done there))
              (in_child-Outcome key v s o n ns c g grown valid x cs pre ch
                (add_from m x cs [] (key_of ch) ch) there e
                (add_from-Outcome a b x cs [] (key_of ch) ch refl
                  (slot-IsValid g.3 (c - g.1 * block_sz) ch (grown.valid valid.2) there)))
      ]

  add_here-rc : (x : A) (nd : Node A) → (add_here x nd).0 ≢ ct_err
  add_here-rc x (node key (some y) s o n ns) e = absurd (ground arith)
  add_here-rc x (node key none s o n ns) e = absurd (ground arith)

  split_at-rc :
      (nd : Node A) (pre : List ℕ) (r : ℕ) (rs cs : List ℕ) (x : A)
      → (split_at (enough true true) nd pre r rs cs x).0 ≢ ct_err
  split_at-rc nd pre r rs [] x = λ e. absurd (ground arith)
  split_at-rc nd pre r rs (c ∷ cs) x =
      subst (λ k. k.0 ≢ ct_err)
        (sym (
          split_new-done nd pre x c cs (both r c (rest_of rs nd))
            (node_resize-done (r / block_sz) 1 (one_child r (rest_of rs nd)) (c / block_sz))))
        (λ e. absurd (ground arith))

  new_child-rc :
      (nd : Node A) (c : ℕ) (cs : List ℕ) (x : A) (g : Resized A)
      → (new_child (enough true true) nd c cs x g).0 ≢ ct_err
  new_child-rc (node key v s o n ns) c cs x (done, o', n', ns') e = absurd (ground arith)

  in_child-rc :
      (nd : Node A) (c : ℕ) (g : Resized A) (r : CtRc × Node A)
      → r.0 ≢ ct_err
      → (in_child nd c g r).0 ≢ ct_err
  in_child-rc (node key v s o n ns) c (done, o', n', ns') (rc, ch) h = h

  resize_for-done : (a b : Bool) (nd : Node A) (c : ℕ) → (resize_for (enough a b) nd c).0 ≡ true
  resize_for-done a b (node key v s o n ns) c = node_resize-done o n ns (c / block_sz)

  -- With memory for all there is no error.
  pub add_from-completes :
      (x : A) (cs pre rest : List ℕ) (nd : Node A)
      → (add_from (enough true true) x cs pre rest nd).0 ≢ ct_err
  unfolding add_from
  add_from-completes x [] pre [] nd = add_here-rc x nd
  add_from-completes x [] pre (r ∷ rs) nd = split_at-rc nd pre r rs [] x
  add_from-completes x (c ∷ cs) pre (r ∷ rs) nd = elim (ℕ_discrete c r) [
    | yes k ↦
        subst (λ r. r.0 ≢ ct_err) (sym (key_case (enough true true) x c r cs pre rs nd k))
          (add_from-completes x cs (pre ++ c ∷ []) rs nd)
    | no k ↦
        subst (λ r. r.0 ≢ ct_err) (sym (part_case (enough true true) x c r cs pre rs nd k))
          (split_at-rc nd pre r rs (c ∷ cs) x)
  ]
  add_from-completes x (c ∷ cs) pre [] nd =
      let m = enough true true in
      let g = resize_for m nd c in
      let done : g.0 ≡ true = resize_for-done true true nd c in
      elim (Option-cases (slot g.3 (c - g.1 * block_sz))) [
        | inl there ↦
            subst (λ r. r.0 ≢ ct_err) (sym (child_case m x c cs pre nd none done there))
              (new_child-rc nd c cs x g)
        | inr (ch, there) ↦
            subst (λ r. r.0 ≢ ct_err) (sym (child_case m x c cs pre nd (some ch) done there))
              (in_child-rc nd c g (add_from m x cs [] (key_of ch) ch)
                (add_from-completes x cs [] (key_of ch) ch))
      ]
