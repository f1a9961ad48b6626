-- ===== src/Imap/Tree/Place.antt =====
-- The place for a child: `IMAP_node_grow`, and the start of `IMAP_set` and `IMAP_add`.
use siridb_server.Base.{
  ℕ, ◌<◌, ◌≡◌, refl, sym, ◌∙◌, ◌⊎◌, inl, inr, Bool, true, ◌||◌, Option, none, ◌==◌, arith,
  Bool-cases, ℕ_discrete,
}
use siridb_server.Imap.Tree.{
  Node, Nodes, node, nil, cons, empty_node, size, value, nodes, index, put, zeros, node_grow,
  ensure_place, node_get,
}
use siridb_server.Imap.Tree.Arrays.{
  count, IsValid, total, index-put_self, index-put_ne, index-zeros, index-IsValid, items-index-le,
  zeros-AllValid, put-AllValid, total-put, total-zeros, total-one, total-none, count-put,
  count-zeros,
}
use siridb_server.Imap.Tree.Find.{child, node_get-none}

module _ {A : Type 0} where
  -- The place for child `i` is there.
  abbrev pub IsPlaced : Node A → ℕ → Type 0
  IsPlaced (node s k d ns) i = ((k ≡ 32) × (count ns ≡ 32)) ⊎ ((k ≡ i) × (count ns ≡ 1))

  pub ensure_place-IsPlaced :
      (mem : Bool) (n : Node A) (i : ℕ)
      → i < 32
      → IsValid n
      → (ensure_place mem n i).0 ≡ true
      → IsPlaced (ensure_place mem n i).1 i
  unfolding ensure_place
  ensure_place-IsPlaced mem (node s k d nil) i h v ok = ground arith
  ensure_place-IsPlaced mem (node s k d (cons c cs)) i h v ok =
      ground (arith, count-put (zeros {A = A} 32) k c, count-zeros A 32)

  -- `IMAP_node_grow` leaves every child where it was.
  pub child-grow :
      (s k j : ℕ) (d : Option A) (ns : Nodes A)
      → k < 32
      → j < 32
      → child (node_grow (node s k d ns)) j ≡ child (node s k d ns) j
  unfolding child node_grow
  child-grow s k j d ns hk hj = elim (ℕ_discrete k j) [
    | yes e ↦
        ground (
          arith,
          index-put_self (zeros {A = A} 32) k (index ns 0) (omega (arith, count-zeros A 32)),
        )
    | no ne ↦
        ground
          (arith, index-put_ne (zeros {A = A} 32) k j (index ns 0) ne, index-zeros {A = A} 32 j)
  ]

  pub child-none :
      (depth : ℕ) (n : Node A) (j i : ℕ)
      → IsValid n
      → size n ≡ 0
      → node_get depth (child n j) i ≡ none
  child-none depth (node s k d ns) j i v h =
      node_get-none depth (child (node s k d ns) j) i
        (unfold child in ground (arith, items-index-le ns j, items-index-le ns 0))

  -- Making a place for a child changes nothing that the children hold, also when memory runs out.
  pub ensure_place-get :
      (mem : Bool) (n : Node A) (i depth j l : ℕ)
      → i < 32
      → j < 32
      → IsValid n
      → node_get depth (child (ensure_place mem n i).1 j) l ≡ node_get depth (child n j) l
  unfolding ensure_place
  ensure_place-get mem (node s k d ns) i depth j l hi h v = elim (ℕ_discrete s 0) [
    | yes e ↦ ground (
      arith,
      child-none depth (node s k d ns) j l v e,
      child-none depth (node s k d nil) j l (e, inl refl, tt) e,
      child-none depth (node s i d (cons empty_node nil)) j l
          (e, inr (inl (hi, refl)), ((refl, inl refl, tt), tt)) e,
    )
    | no ne ↦ ground (arith, child-grow s k j d ns, total-none ns)
  ]

  pub node_grow-IsValid :
      (s k : ℕ) (d : Option A) (ns : Nodes A)
      → k < 32
      → count ns ≡ 1
      → IsValid (node s k d ns)
      → IsValid (node_grow (node s k d ns)) × (total (nodes (node_grow (node s k d ns))) ≡ total ns)
  unfolding node_grow
  node_grow-IsValid s k d ns hk one v =
      let same : total (put (zeros {A = A} 32) k (index ns 0)) ≡ total ns = ground (
        arith,
        total-put (zeros {A = A} 32) k (index ns 0),
        count-zeros A 32,
        total-zeros A 32,
        index-zeros {A = A} 32 k,
        total-one ns one,
      ) in
      (
        (
          v.0 ∙ sym same,
          inr (inr (refl, count-put (zeros {A = A} 32) k (index ns 0) ∙ count-zeros A 32)),
          put-AllValid (zeros {A = A} 32) k (index ns 0) (zeros-AllValid A 32)
              (index-IsValid ns 0 v.2),
        ),
        same,
      )

  -- It keeps the counters and shapes right, the number of items and the node's own value.
  pub ensure_place-IsValid :
      (mem : Bool) (n : Node A) (i : ℕ)
      → i < 32
      → IsValid n
      → IsValid (ensure_place mem n i).1
        × (total (nodes (ensure_place mem n i).1) ≡ total (nodes n))
        × (value (ensure_place mem n i).1 ≡ value n)
  unfolding ensure_place
  ensure_place-IsValid mem (node s k d ns) i hi v = elim (Bool-cases (s == 0)) [
    | inl e ↦ elim (Bool-cases mem) [
      | inl m ↦
          rw (e, m, ensure_place)
            ((ground arith, inr (inl (hi, refl)), ((refl, inl refl, tt), tt)), ground arith, refl)
      | inr m ↦ rw (e, m, ensure_place) ((ground arith, inl refl, tt), ground arith, refl)
    ]
    | inr ne ↦ elim (Bool-cases (k == i || k == 32)) [
      | inl there ↦ rw (ne, there, ensure_place) (v, refl, refl)
      | inr away ↦ elim (Bool-cases mem) [
        | inl m ↦
            let grown =
              node_grow-IsValid s k d ns (ground (arith, total-none ns))
                (ground (arith, total-none ns)) v in
            rw (ne, away, m, ensure_place) (grown.0, grown.1, unfold node_grow in refl)
        | inr m ↦ rw (ne, away, m, ensure_place) (v, refl, refl)
      ]
    ]
  ]
