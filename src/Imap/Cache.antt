-- ===== src/Imap/Cache.antt =====
-- The vector that a map keeps holds the items of the map, through every operation.
use mathlib.Core.List.{Perm, append-nil, append_assoc, perm_append_singleton}
use mathlib.Core.List.Perm
use siridb_server.Base.{
  ℕ, ◌+◌, ◌-◌, ◌/◌, ◌^◌, ◌≤◌, ◌<◌, ◌≡◌, ◌≢◌, refl, ap, sym, subst, ◌∙◌, inl, inr, Bool, true, false,
  Option, none, some, List, [], ◌∷◌, ◌++◌, ◌==◌, arith, Bool-cases, Option-cases, length,
  length-append,
}
use siridb_server.Vec.{Vec, vec_new, vec_append_safe}
use siridb_server.Vec.Laws.{items-vec_append_safe, vec_append_safe-fits}
use siridb_server.Imap.{
  Imap, levels, imap_vec, fill_vec, root_set, root_add, push_node, push_nodes, cache_append,
}
use siridb_server.Imap.Tree.{
  Node, Nodes, node, nil, cons, value, is_none, added, add_ok, node_set, node_add,
}
use siridb_server.Imap.Tree.Arrays
use siridb_server.Imap.Tree.Arrays.{index-IsValid, total, count}
use siridb_server.Imap.Tree.Values.{
  own, values, length-values, own-perm, own-eq, own-with_value, values-total_zero,
}
use siridb_server.Imap.Tree.Set.{node_set-value}
use siridb_server.Imap.Tree.Add.{node_add-value}
use siridb_server.Imap.Tree.Kept.{node_set-perm, node_add-perm, node_add-values}
use siridb_server.Imap.Valid.{IsValid}

-- `IMAP_2vec` appends the items in the order of the walk.
mutual
  push_node-items : {A : Type 0} (n : Node A) (v : Vec A) → (push_node n v).items ≡ v.items ++ own n
  push_node-items (node s k none ns) v = push_nodes-items ns v
  push_node-items (node s k (some x) ns) v =
      push_nodes-items ns (record v { items = v.items ++ x ∷ [] })
      ∙ append_assoc v.items (x ∷ []) (values ns)

  push_nodes-items :
      {A : Type 0} (ns : Nodes A) (v : Vec A) → (push_nodes ns v).items ≡ v.items ++ values ns
  push_nodes-items nil v = sym (append-nil v.items)
  push_nodes-items (cons n ns) v =
      push_nodes-items ns (push_node n v)
      ∙ ap (λ l. l ++ values ns) (push_node-items n v)
      ∙ append_assoc v.items (own n) (values ns)

mutual
  push_node-size : {A : Type 0} (n : Node A) (v : Vec A) → (push_node n v).size ≡ v.size
  push_node-size (node s k none ns) v = push_nodes-size ns v
  push_node-size (node s k (some x) ns) v =
      push_nodes-size ns (record v { items = v.items ++ x ∷ [] })

  push_nodes-size : {A : Type 0} (ns : Nodes A) (v : Vec A) → (push_nodes ns v).size ≡ v.size
  push_nodes-size nil v = refl
  push_nodes-size (cons n ns) v = push_nodes-size ns (push_node n v) ∙ push_node-size n v

module _ {A : Type 0} where
  -- The vector is not there, or holds the items of the map, within its allocation.
  abbrev pub Caches : Option (Vec A) → Nodes A → Type 0
  Caches none roots = Unit
  Caches (some v) roots =
      Perm v.items (values roots) × (length v.items ≡ total roots) × (length v.items ≤ v.size)

  pub cache_append-Caches :
      (vmem : Bool) (c : Option (Vec A)) (roots roots' : Nodes A) (x : A)
      → Caches c roots
      → total roots < 2 ^ 32
      → total roots' ≡ total roots + 1
      → Perm (values roots') (x ∷ values roots)
      → Caches (cache_append vmem c x) roots'
  cache_append-Caches vmem none roots roots' x h few more p = tt
  cache_append-Caches vmem (some v) roots roots' x h few more p =
      elim (Bool-cases (vec_append_safe vmem v x).0) [
        | inr failed ↦ rw failed tt
        | inl done ↦
            let e = items-vec_append_safe vmem v x done in
            rw done (
              subst (λ l. Perm l (values roots')) (sym e)
                  (Perm.trans (perm_append_singleton x v.items)
                    (Perm.trans (Perm.cons x h.0) (Perm.symm p))),
              omega (
                arith,
                ap (λ (l : List A). length l) e,
                length-append v.items (x ∷ []),
                h.1,
                more,
              ),
              vec_append_safe-fits vmem v x h.2 (omega (arith, h.1, few)),
            )
      ]

  fill_vec-Caches :
      (vmem : Bool) (m : Imap A)
      → IsValid m
      → Caches (fill_vec vmem m) m.roots × (vmem ≡ true → fill_vec vmem m ≢ none)
  unfolding fill_vec vec_new
  fill_vec-Caches false m v = (tt, λ h. absurd (ground arith))
  fill_vec-Caches true m v = elim (Bool-cases (m.len == 0)) [
    | inl empty ↦
        let z : total m.roots ≡ 0 = ground (arith, v.len_counts) in
        let e = values-total_zero m.roots z in
        rw empty ((subst (λ l. Perm [] l) (sym e) Perm.nil, sym z, omega arith), λ h. ground arith)
    | inr full ↦
        let new : Vec A = record { size = m.len; items = [] } in
        let e = push_nodes-items m.roots new in
        let n : length (push_nodes m.roots new).items ≡ total m.roots =
          ap (λ (l : List A). length l) e ∙ length-values m.roots in
        rw full (
          (
            subst (λ l. Perm l (values m.roots)) (sym e) Perm.rfl,
            n,
            omega (arith, n, push_nodes-size m.roots new, v.len_counts),
          ),
          λ h. ground arith,
        )
  ]

  -- `imap_vec` of a valid map: with memory it returns a vector, and any vector that it returns holds
  -- the items of the map, within its allocation; the map keeps that vector, and is otherwise as
  -- before.
  pub imap_vec_lem :
      (vmem : Bool) (m : Imap A)
      → IsValid m
      → Caches m.vec m.roots
      → let (r, m') = imap_vec vmem m in
        Caches r m.roots
        × (vmem ≡ true → r ≢ none)
        × (m'.vec ≡ r)
        × (m'.roots ≡ m.roots)
        × (m'.len ≡ m.len)
  unfolding imap_vec
  imap_vec_lem vmem m v h = elim (Option-cases m.vec) [
    | inl e ↦
        let (c, some_vec) = fill_vec-Caches vmem m v in
        rw (e, imap_vec) (c, some_vec, refl, refl, refl)
    | inr (w, e) ↦
        rw (e, imap_vec)
          (subst (λ c. Caches c m.roots) e h, (λ _ k. absurd (ground arith)), refl, refl, refl)
  ]

  pub root_set-perm :
      (mem : ℕ → Bool) (n : Node A) (i : ℕ) (x : A)
      → Arrays.IsValid n
      → (root_set mem n i x).0 ≡ added
      → Perm (own (root_set mem n i x).1) (x ∷ own n)
  unfolding root_set
  root_set-perm mem n i x v = elim (Bool-cases (i / 32 == 0)) [
    | inl leaf ↦ elim (Bool-cases (is_none (value n))) [
      | inl fresh ↦ rw (leaf, fresh, root_set) (λ h. own-with_value n x fresh)
      | inr old ↦ rw (leaf, old, root_set) (λ h. absurd (ground arith))
    ]
    | inr deep ↦
        rw (deep, root_set)
          (λ h.
            own-perm n (node_set levels mem n (i / 32 - 1) x).1 x
              (node_set-value levels mem n (i / 32 - 1) x)
              (node_set-perm levels mem n (i / 32 - 1) x v h))
  ]

  pub root_add-perm :
      (mem : ℕ → Bool) (n : Node A) (i : ℕ) (x : A)
      → Arrays.IsValid n
      → ((root_add mem n i x).0 ≡ add_ok → Perm (own (root_add mem n i x).1) (x ∷ own n))
        × ((root_add mem n i x).0 ≢ add_ok → own (root_add mem n i x).1 ≡ own n)
  unfolding root_add
  root_add-perm mem n i x v = elim (Bool-cases (i / 32 == 0)) [
    | inl leaf ↦ elim (Bool-cases (is_none (value n))) [
      | inl fresh ↦
          rw (leaf, fresh, root_add) ((λ h. own-with_value n x fresh), (λ h. absurd (h refl)))
      | inr old ↦ rw (leaf, old, root_add) ((λ h. absurd (ground arith)), (λ h. refl))
    ]
    | inr deep ↦
        rw (deep, root_add)
          (
            (λ h.
                own-perm n (node_add levels mem n (i / 32 - 1) x).1 x
                  (node_add-value levels mem n (i / 32 - 1) x)
                  (node_add-perm levels mem n (i / 32 - 1) x v h)),
            (λ h.
                own-eq n (node_add levels mem n (i / 32 - 1) x).1
                  (node_add-value levels mem n (i / 32 - 1) x)
                  (node_add-values levels mem n (i / 32 - 1) x v h)),
          )
  ]
