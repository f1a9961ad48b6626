-- ===== src/Imap/Tree/Drop.antt =====
-- A node whose child lost its item: `--node->size`, and freeing the array with the last one.
use siridb_server.Base.{
  ℕ, ◌+◌, ◌-◌, ◌%◌, ◌^◌, ◌<◌, ◌≡◌, ◌≢◌, refl, sym, subst, ◌∙◌, ◌⊎◌, inl, inr, Option, none, some,
  ◌==◌, if◌then◌else◌, arith, Bool-cases,
}
use siridb_server.Imap.Tree.{
  Node, node, nil, cons, size, key, value, nodes, put, place, get_node, drop_child, set_child,
  unsafe_node, node_get, empty_node,
}
use siridb_server.Imap.Tree.Arrays.{
  IsValid, total, items, count, put-AllValid, total-put, count-put,
}
use siridb_server.Imap.Tree.Find.{child, found}
use siridb_server.Imap.Tree.Place.{IsPlaced, child-none}
use siridb_server.Imap.Tree.Child.{found-set_child}

module _ {A : Type 0} where
  -- `IMAP_get_node` gives the child, or NULL for one that is not kept.
  pub get_node-cases :
      (n : Node A) (i : ℕ)
      → ((get_node n i ≡ none) × (child n i ≡ empty_node))
        ⊎ ((get_node n i ≡ some (child n i)) × (child n i ≡ unsafe_node n i))
  unfolding child
  get_node-cases (node s k d ns) i = ground arith

  pub get_node-IsPlaced :
      (n : Node A) (i : ℕ)
      → IsValid n
      → items (unsafe_node n i) ≢ 0
      → get_node n i ≡ some (child n i)
      → IsPlaced n i
  unfolding child
  get_node-IsPlaced (node s k d nil) i v h e = absurd (h refl)
  get_node-IsPlaced (node s k d (cons c cs)) i v h e = ground arith

  -- The node before its array is freed with the last item.
  lessened : Node A → ℕ → Node A → Node A
  lessened n i c = set_child n i c (2 ^ 32 - 1)

  drop_child-lessened :
      (n c : Node A) (i : ℕ)
      → drop_child n i c ≡ (
          if size (lessened n i c) == 0
          then node (size (lessened n i c)) (key n) (value n) nil
          else lessened n i c)
  unfolding lessened
  drop_child-lessened (node s k d ns) c i =
      let e : (s + 2 ^ 32 - 1) % 2 ^ 32 ≡ (s + (2 ^ 32 - 1)) % 2 ^ 32 = omega arith in
      rw e (ground arith)

  lessened-IsValid :
      (n c : Node A) (i : ℕ)
      → IsPlaced n i
      → i < 32
      → IsValid n
      → IsValid c
      → items c + 1 ≡ items (unsafe_node n i)
      → total (nodes n) < 2 ^ 32
      → IsValid (lessened n i c) × (total (nodes (lessened n i c)) + 1 ≡ total (nodes n))
  unfolding lessened
  lessened-IsValid (node s k d ns) c i p hi v vc e small =
      let there : place k i < count ns = ground arith in
      let less : total (put ns (place k i) c) + 1 ≡ total ns =
        omega (arith, total-put ns (place k i) c there) in
      let len = count-put ns (place k i) c in
      (
        (
          (let h : (s + (2 ^ 32 - 1)) % 2 ^ 32 ≡ total (put ns (place k i) c) =
                omega (arith, v.0, less) in
              h),
          subst (λ m. (m ≡ 0) ⊎ ((k < 32) × (m ≡ 1)) ⊎ ((k ≡ 32) × (m ≡ 32))) (sym len) v.1,
          put-AllValid ns (place k i) c v.2 vc,
        ),
        less,
      )

  lessened-found :
      (n c : Node A) (i : ℕ)
      → IsPlaced n (i % 32)
      → (depth j : ℕ)
      → found depth (lessened n (i % 32) c) j
        ≡ (if i % 32 == j % 32 then node_get depth c j else found depth n j)
  unfolding lessened
  lessened-found n c i p depth j = found-set_child depth n c i j (2 ^ 32 - 1) p

  null-IsValid :
      (n : Node A) (k : ℕ) (d : Option A)
      → IsValid n
      → size n ≡ 0
      → IsValid (node (size n) k d nil) × (total (nodes n) ≡ 0)
  null-IsValid (node s k' d' ns) k d v e = ((e, inl refl, tt), omega (arith, v.0))

  -- Freeing the empty array changes nothing that the children hold.
  pub drop_child_lem :
      (n c : Node A) (i : ℕ)
      → IsPlaced n (i % 32)
      → IsValid n
      → IsValid c
      → items c + 1 ≡ items (unsafe_node n (i % 32))
      → total (nodes n) < 2 ^ 32
      → let n' = drop_child n (i % 32) c in
        IsValid n'
        × (total (nodes n') + 1 ≡ total (nodes n))
        × ((depth j : ℕ)
            → found depth n' j ≡ (if i % 32 == j % 32 then node_get depth c j else found depth n j))
  drop_child_lem n c i p v vc e small =
      let m = lessened n (i % 32) c in
      let (vm, tm) = lessened-IsValid n c (i % 32) p (omega arith) v vc e small in
      let set_found = lessened-found n c i p in
      rw (drop_child-lessened n c (i % 32)) (elim (Bool-cases (size m == 0)) [
        | inr left ↦ rw left (vm, tm, set_found)
        | inl last ↦
            let (vz, tz) = null-IsValid m (key n) (value n) vm (ground arith) in
            rw last (
              vz,
              omega (arith, tm, tz),
              λ depth j.
                  child-none depth (node (size m) (key n) (value n) nil) (j % 32) j vz
                    (ground arith)
                  ∙ sym (child-none depth m (j % 32) j vm (ground arith))
                  ∙ set_found depth j,
            )
      ])
