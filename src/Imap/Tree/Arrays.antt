-- ===== src/Imap/Tree/Arrays.antt =====
-- Arrays of nodes: reading behind a write, their size, and what holds of every node.
use siridb_server.Base.{
  ℕ, zero, suc, ◌+◌, ◌≤◌, ◌<◌, ◌≡◌, ◌≢◌, refl, ap, ◌⊎◌, inl, if◌then◌else◌, arith,
}
use siridb_server.Imap.Tree.{Node, Nodes, node, nil, cons, empty_node, index, put, zeros, is_none}

module _ {A : Type 0} where
  abbrev pub count : Nodes A → ℕ
  count nil = 0
  count (cons n ns) = suc (count ns)

  pub index-put_self : (ns : Nodes A) (i : ℕ) (c : Node A) → i < count ns → index (put ns i c) i ≡ c
  index-put_self nil i c h = elim h [ ]
  index-put_self (cons n ns) zero c h = refl
  index-put_self (cons n ns) (suc i) c h = index-put_self ns i c (omega arith)

  pub index-put_ne :
      (ns : Nodes A) (i j : ℕ) (c : Node A) → i ≢ j → index (put ns i c) j ≡ index ns j
  index-put_ne nil i j c h = refl
  index-put_ne (cons n ns) zero zero c h = absurd (h refl)
  index-put_ne (cons n ns) zero (suc j) c h = refl
  index-put_ne (cons n ns) (suc i) zero c h = refl
  index-put_ne (cons n ns) (suc i) (suc j) c h = index-put_ne ns i j c (λ e. h (ap suc e))

  pub count-put : (ns : Nodes A) (i : ℕ) (c : Node A) → count (put ns i c) ≡ count ns
  count-put nil i c = refl
  count-put (cons n ns) zero c = refl
  count-put (cons n ns) (suc i) c = ap suc (count-put ns i c)

  pub index-zeros : (n i : ℕ) → index (zeros {A = A} n) i ≡ empty_node
  index-zeros zero i = refl
  index-zeros (suc n) zero = refl
  index-zeros (suc n) (suc i) = index-zeros n i

  -- The items in an array of nodes and below it.
  abbrev mutual
    pub items : Node A → ℕ
    items (node s k d ns) = (if is_none d then 0 else 1) + total ns

    pub total : Nodes A → ℕ
    total nil = 0
    total (cons n ns) = items n + total ns

  -- The array is not there, or as long as `key` says.
  abbrev pub HasShape : ℕ → Nodes A → Type 0
  HasShape k ns = (count ns ≡ 0) ⊎ ((k < 32) × (count ns ≡ 1)) ⊎ ((k ≡ 32) × (count ns ≡ 32))

  -- The counters are right, and the arrays have their length, in the whole tree.
  abbrev mutual
    pub IsValid : Node A → Type 0
    IsValid (node s k d ns) = (s ≡ total ns) × HasShape k ns × AllValid ns

    pub AllValid : Nodes A → Type 0
    AllValid nil = Unit
    AllValid (cons n ns) = IsValid n × AllValid ns

  pub index-IsValid : (ns : Nodes A) (i : ℕ) → AllValid ns → IsValid (index ns i)
  index-IsValid nil i v = (refl, inl refl, tt)
  index-IsValid (cons n ns) zero v = v.0
  index-IsValid (cons n ns) (suc i) v = index-IsValid ns i v.1

  pub put-AllValid :
      (ns : Nodes A) (i : ℕ) (c : Node A) → AllValid ns → IsValid c → AllValid (put ns i c)
  put-AllValid nil i c v vc = tt
  put-AllValid (cons n ns) zero c v vc = (vc, v.1)
  put-AllValid (cons n ns) (suc i) c v vc = (v.0, put-AllValid ns i c v.1 vc)

  pub total-put :
      (ns : Nodes A) (i : ℕ) (c : Node A)
      → i < count ns
      → total (put ns i c) + items (index ns i) ≡ total ns + items c
  total-put nil i c h = elim h [ ]
  total-put (cons n ns) zero c h = omega arith
  total-put (cons n ns) (suc i) c h = omega (arith, total-put ns i c)

  pub items-index-le : (ns : Nodes A) (i : ℕ) → items (index ns i) ≤ total ns
  items-index-le nil i = omega arith
  items-index-le (cons n ns) zero = omega arith
  items-index-le (cons n ns) (suc i) = omega (arith, items-index-le ns i)

  pub total-none : (ns : Nodes A) → count ns ≡ 0 → total ns ≡ 0
  total-none nil h = refl
  total-none (cons n ns) h = absurd (omega arith)

  pub total-one : (ns : Nodes A) → count ns ≡ 1 → total ns ≡ items (index ns 0)
  total-one nil h = absurd (omega arith)
  total-one (cons n ns) h = omega (arith, total-none ns (omega arith))

module _ (A : Type 0) where
  pub zeros-AllValid : (n : ℕ) → AllValid (zeros {A = A} n)
  zeros-AllValid zero = tt
  zeros-AllValid (suc n) = ((refl, inl refl, tt), zeros-AllValid n)

  pub total-zeros : (n : ℕ) → total (zeros {A = A} n) ≡ 0
  total-zeros zero = refl
  total-zeros (suc n) = omega (arith, total-zeros n)

  pub count-zeros : (n : ℕ) → count (zeros {A = A} n) ≡ n
  count-zeros zero = refl
  count-zeros (suc n) = ap suc (count-zeros n)
