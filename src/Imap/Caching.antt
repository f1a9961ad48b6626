-- ===== src/Imap/Caching.antt =====
-- Every operation keeps the vector of a map in step with its items.
use mathlib.Core.List.{Perm}
use siridb_server.Base.{
  ℕ, ◌+◌, ◌%◌, ◌^◌, ◌<◌, ◌≡◌, ◌≢◌, refl, subst, sym, ◌∙◌, Bool, Option, none, some, ◌∷◌, arith,
  Bool-cases, ap, ◌-◌, ◌/◌, ◌==◌, if◌then◌else◌, inl, inr,
}
use siridb_server.Vec.{Vec}
use siridb_server.Imap.{
  Imap, imap_set, imap_add, imap_pop, root_set, root_add, set_cache, add_cache, root_pop, levels,
}
use siridb_server.Imap.Tree.{
  Node, Nodes, index, put, SetRc, added, overwritten, set_no_mem, AddRc, add_ok, add_exists,
  add_no_mem, set_grown, add_grown, is_none, is_null, node, value, nodes, with_value,
}
use siridb_server.Imap.Tree.Arrays.{index-IsValid, total}
use siridb_server.Imap.Tree.Values.{values, own, values-put_perm, values-put_eq}
use siridb_server.Imap.Valid.{IsValid}
use siridb_server.Imap.Cache.{Caches, cache_append-Caches, root_set-perm, root_add-perm}
use siridb_server.Imap.Set.{imap_set_lem}
use siridb_server.Imap.Add.{imap_add_lem}
use siridb_server.Imap.Pop.{imap_pop_lem}
use siridb_server.Imap.Tree.Pop.{node_pop-none}

module _ {A : Type 0} where
  set_cache-Caches :
      (rc : SetRc) (vmem : Bool) (c : Option (Vec A)) (roots roots' : Nodes A) (x : A)
      → Caches c roots
      → total roots < 2 ^ 32
      → total roots' ≡ total roots + set_grown rc
      → (rc ≡ added → Perm (values roots') (x ∷ values roots))
      → Caches (set_cache vmem rc c x) roots'
  set_cache-Caches added vmem c roots roots' x h few more p =
      cache_append-Caches vmem c roots roots' x h few more (p refl)
  set_cache-Caches overwritten vmem c roots roots' x h few more p = tt
  set_cache-Caches set_no_mem vmem c roots roots' x h few more p = tt

  -- `imap_set` keeps the vector of a valid map with less than 2 ^ 32 - 1 items right: whatever the
  -- code and the memory, a vector that is still there holds the items of the new map.
  pub imap_set-Caches :
      (mem : ℕ → Bool) (vmem : Bool) (m : Imap A) (i : ℕ) (x : A)
      → IsValid m
      → m.len + 1 < 2 ^ 32
      → i < 2 ^ 64
      → Caches m.vec m.roots
      → let m' = (imap_set mem vmem m i x).1 in Caches m'.vec m'.roots
  imap_set-Caches mem vmem m i x v small wide h =
      let (_, _, _, v', len) = imap_set_lem mem vmem m i x v small wide in
      let n = index m.roots (i % 32) in
      let r = root_set mem n i x in
      unfold imap_set in
      set_cache-Caches r.0 vmem m.vec m.roots (put m.roots (i % 32) r.1) x h
        (omega (arith, v.len_counts)) (omega (arith, len, v'.len_counts, v.len_counts))
        (λ e.
          values-put_perm m.roots (i % 32) r.1 x (omega (arith, v.roots_there))
            (root_set-perm mem n i x (index-IsValid m.roots (i % 32) v.nodes_valid) e))

  Caches-same :
      (c : Option (Vec A)) (roots roots' : Nodes A)
      → Caches c roots
      → total roots' ≡ total roots
      → values roots' ≡ values roots
      → Caches c roots'
  Caches-same none roots roots' h t e = tt
  Caches-same (some w) roots roots' h t e =
      (subst (λ l. Perm w.items l) (sym e) h.0, h.1 ∙ sym t, h.2)

  add_cache-Caches :
      (rc : AddRc) (vmem : Bool) (c : Option (Vec A)) (roots roots' : Nodes A) (x : A)
      → Caches c roots
      → total roots < 2 ^ 32
      → total roots' ≡ total roots + add_grown rc
      → (rc ≡ add_ok → Perm (values roots') (x ∷ values roots))
      → (rc ≢ add_ok → values roots' ≡ values roots)
      → Caches (add_cache vmem rc c x) roots'
  add_cache-Caches add_ok vmem c roots roots' x h few more p q =
      cache_append-Caches vmem c roots roots' x h few more (p refl)
  add_cache-Caches add_exists vmem c roots roots' x h few more p q =
      Caches-same c roots roots' h (omega (arith, more)) (q (λ e. ground arith))
  add_cache-Caches add_no_mem vmem c roots roots' x h few more p q =
      Caches-same c roots roots' h (omega (arith, more)) (q (λ e. ground arith))

  -- `imap_add` keeps the vector of a valid map with less than 2 ^ 32 - 1 items right: whatever the
  -- code and the memory, a vector that is still there holds the items of the new map.
  pub imap_add-Caches :
      (mem : ℕ → Bool) (vmem : Bool) (m : Imap A) (i : ℕ) (x : A)
      → IsValid m
      → m.len + 1 < 2 ^ 32
      → i < 2 ^ 64
      → Caches m.vec m.roots
      → let m' = (imap_add mem vmem m i x).1 in Caches m'.vec m'.roots
  imap_add-Caches mem vmem m i x v small wide h =
      let (_, _, _, v', len) = imap_add_lem mem vmem m i x v small wide in
      let n = index m.roots (i % 32) in
      let r = root_add mem n i x in
      let (more, same) = root_add-perm mem n i x (index-IsValid m.roots (i % 32) v.nodes_valid) in
      unfold imap_add in
      add_cache-Caches r.0 vmem m.vec m.roots (put m.roots (i % 32) r.1) x h
        (omega (arith, v.len_counts)) (omega (arith, len, v'.len_counts, v.len_counts))
        (λ e. values-put_perm m.roots (i % 32) r.1 x (omega (arith, v.roots_there)) (more e))
        (λ e. values-put_eq m.roots (i % 32) r.1 (same e))

  value-none-own : (n : Node A) → value n ≡ none → own (with_value n none) ≡ own n
  value-none-own (node s k none ns) h = refl
  value-none-own (node s k (some x) ns) h = absurd (ground arith)

  root_pop-own : (n : Node A) (i : ℕ) → (root_pop n i).0 ≡ none → own (root_pop n i).1 ≡ own n
  unfolding root_pop
  root_pop-own n i = elim (Bool-cases (i / 32 == 0)) [
    | inl leaf ↦ rw (leaf, root_pop) (value-none-own n)
    | inr deep ↦ elim (Bool-cases (is_null (nodes n))) [
      | inl null ↦ rw (deep, null, root_pop) (λ h. refl)
      | inr there ↦ rw (deep, there, root_pop) (λ h. ap own (node_pop-none levels n (i / 32 - 1) h))
    ]
  ]

  pop_cache-Caches :
      (r : Option A) (c : Option (Vec A)) (roots roots' : Nodes A)
      → Caches c roots
      → total roots' + (if is_none r then 0 else 1) ≡ total roots
      → (r ≡ none → values roots' ≡ values roots)
      → Caches (if is_none r then c else none) roots'
  pop_cache-Caches none c roots roots' h t e =
      Caches-same c roots roots' h (omega (arith, t)) (e refl)
  pop_cache-Caches (some x) c roots roots' h t e = tt

  -- `imap_pop` keeps the vector of a valid map with less than 2 ^ 32 items right: it drops the
  -- vector with the first item that goes.
  pub imap_pop-Caches :
      (m : Imap A) (i : ℕ)
      → IsValid m
      → m.len < 2 ^ 32
      → Caches m.vec m.roots
      → let m' = (imap_pop m i).1 in Caches m'.vec m'.roots
  imap_pop-Caches m i v small h =
      let (_, _, v', len) = imap_pop_lem m i v small in
      let n = index m.roots (i % 32) in
      let r = root_pop n i in
      unfold imap_pop in
      pop_cache-Caches r.0 m.vec m.roots (put m.roots (i % 32) r.1) h
        (omega (arith, len, v'.len_counts, v.len_counts))
        (λ e. values-put_eq m.roots (i % 32) r.1 (root_pop-own n i e))
