-- ===== src/Ctree/Listed.antt =====
-- Each name that `ct_get` finds is listed once, with its item, and no other name is.
use mathlib.Core.List.{append-nil}
use siridb_server.Base.{
  ℕ, zero, suc, ◌+◌, ◌-◌, ◌*◌, ◌/◌, ◌≤◌, ◌<◌, ◌≡◌, refl, ap, ap₂, sym, ◌∙◌, ltb, Option, none, some,
  List, [], ◌∷◌, ◌++◌, arith, inl, inr, Bool-cases,
}
use siridb_server.Ctree.{
  block_sz, Node, Nodes, node, nil, free, used, Ct, key_of, slot, child, get_from, get_child,
  ct_get,
}
use siridb_server.Ctree.Child.{HasShape, child-here, child-out, child-slot, slot-beyond}
use siridb_server.Ctree.Resize.{IsValid, AllValid}
use siridb_server.Ctree.Find.{get_from-nil, get_from-child}
use siridb_server.Ctree.Tree.{IsTree, get_nil, get_cons}
use siridb_server.Ctree.Getn.{strip, behind, strip-get}
use siridb_server.Ctree.Names.{
  cons_all, own, names, names_in, all_names, items_at, item_list, at_rest, items_at-append,
  items_at-prefixed, at_other_char, at_same_char, names_in-empty, names_in-before, own-cons,
  own-empty,
}

module _ {A : Type 0} where
  -- The children from the character `32 * o` on are listed.
  abbrev InListed : ℕ → Nodes A → Type 0
  InListed k ns =
      (i : ℕ) (cs : List ℕ)
      → items_at ((k + i) ∷ cs) (names_in k ns) ≡ item_list (get_child (slot ns i) cs)

  shaped_slot :
      (o n : ℕ) (ns : Nodes A) (c : ℕ)
      → HasShape n ns
      → o ≤ c / block_sz
      → child o n ns c ≡ slot ns (c - o * block_sz)
  shaped_slot o n ns c (inr whole) lo = child-slot o n ns c whole lo
  shaped_slot o n ns c (inl none_there) lo =
      let nothing : slot ns (c - o * block_sz) ≡ none =
        slot-beyond ns (c - o * block_sz) (omega (arith, none_there)) in
      elim (Bool-cases (ltb (c / block_sz) (o + n))) [
        | inl within ↦ child_within nothing (ground arith)
        | inr out ↦ child-out o n ns c (inr (ground arith)) ∙ sym nothing
      ]
    where
      child_within :
          slot ns (c - o * block_sz) ≡ none
          → c / block_sz < o + n
          → child o n ns c ≡ slot ns (c - o * block_sz)
      child_within nothing hi = child-here o n ns c lo hi

  char_case :
      (o n : ℕ) (ns : Nodes A) (c : ℕ) (cs : List ℕ)
      → HasShape n ns
      → InListed (o * block_sz) ns
      → items_at (c ∷ cs) (names_in (o * block_sz) ns) ≡ item_list (get_child (child o n ns c) cs)
  char_case o n ns c cs shape h = elim (Bool-cases (ltb c (o * block_sz))) [
    | inl low ↦
        names_in-before (o * block_sz) c cs ns (ground arith)
        ∙ ap (λ p. item_list (get_child p cs)) (sym (child-out o n ns c (inl (ground arith))))
    | inr high ↦
        let there : o * block_sz ≤ c = ground arith in
        ap (λ d. items_at (d ∷ cs) (names_in (o * block_sz) ns))
          {y = o * block_sz + (c - o * block_sz)} (omega (arith, there))
        ∙ h (c - o * block_sz) cs
        ∙ ap (λ p. item_list (get_child p cs))
            (sym (shaped_slot o n ns c shape (omega (arith, there))))
  ]

  node_case :
      (key : List ℕ) (v : Option A) (s o n : ℕ) (ns : Nodes A) (p : Option (List ℕ))
      → HasShape n ns
      → InListed (o * block_sz) ns
      → at_rest (own v ++ names_in (o * block_sz) ns) p ≡ item_list (behind (node key v s o n ns) p)
  node_case key v s o n ns none shape h = refl
  node_case key v s o n ns (some []) shape h =
      items_at-append [] (own v) (names_in (o * block_sz) ns)
      ∙ ap₂ (λ a b. a ++ b) (own-empty v) (names_in-empty (o * block_sz) ns)
      ∙ append-nil (item_list v)
      ∙ ap item_list (sym (get_from-nil (node key v s o n ns)))
  node_case key v s o n ns (some (c ∷ cs)) shape h =
      items_at-append (c ∷ cs) (own v) (names_in (o * block_sz) ns)
      ∙ ap (λ a. a ++ items_at (c ∷ cs) (names_in (o * block_sz) ns)) (own-cons c cs v)
      ∙ char_case o n ns c cs shape h
      ∙ ap item_list (sym (get_from-child (node key v s o n ns) c cs (child o n ns c) refl))

  mutual
    node_listed :
        (q : List ℕ) (nd : Node A)
        → IsValid nd
        → items_at q (names nd) ≡ item_list (get_from q (key_of nd) nd)
    node_listed q (node key v s o n ns) valid =
        items_at-prefixed key q (own v ++ names_in (o * block_sz) ns)
        ∙ node_case key v s o n ns (strip key q) valid.1 (in_listed (o * block_sz) ns valid.2)
        ∙ ap item_list (sym (strip-get key q (node key v s o n ns)))

    in_listed : (k : ℕ) (ns : Nodes A) → AllValid ns → InListed k ns
    in_listed k nil valid i cs = refl
    in_listed k (free ns) valid zero cs = names_in-before (suc k) (k + zero) cs ns (omega arith)
    in_listed k (free ns) valid (suc i) cs =
        ap (λ d. items_at (d ∷ cs) (names_in (suc k) ns)) {x = k + suc i} {y = suc k + i}
          (omega arith)
        ∙ in_listed (suc k) ns valid i cs
    in_listed k (used ch ns) valid zero cs =
        ap (λ d. items_at (d ∷ cs) (cons_all k (names ch) ++ names_in (suc k) ns)) {x = k + zero}
          {y = k} (omega arith)
        ∙ items_at-append (k ∷ cs) (cons_all k (names ch)) (names_in (suc k) ns)
        ∙ ap₂ (λ a b. a ++ b) (at_same_char k cs (names ch) ∙ node_listed cs ch valid.0)
            (names_in-before (suc k) k cs ns (omega arith))
        ∙ append-nil (item_list (get_from cs (key_of ch) ch))
    in_listed k (used ch ns) valid (suc i) cs =
        items_at-append ((k + suc i) ∷ cs) (cons_all k (names ch)) (names_in (suc k) ns)
        ∙ ap₂ (λ a b. a ++ b)
            (at_other_char k (k + suc i) cs (names ch) (λ e. absurd (omega (arith, e))))
            (ap (λ d. items_at (d ∷ cs) (names_in (suc k) ns)) {x = k + suc i} {y = suc k + i}
                (omega arith)
              ∙ in_listed (suc k) ns valid.1 i cs)

  pub all_names_lem :
      (t : Ct A) (q : List ℕ) → IsTree t → items_at q (all_names t) ≡ item_list (ct_get t q)
  all_names_lem t [] valid =
      names_in-empty (t.offset * block_sz) t.nodes ∙ ap item_list (sym (get_nil t))
  all_names_lem t (c ∷ cs) valid =
      char_case t.offset t.n t.nodes c cs valid.0 (in_listed (t.offset * block_sz) t.nodes valid.1)
      ∙ ap item_list (sym (get_cons t c cs))
