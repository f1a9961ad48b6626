-- ===== src/Imap/Tree/Values.antt =====
-- The items below a node in the order of a walk, and what `IMAP_set` and `IMAP_add` do to them.
use mathlib.Core.List.{Perm, perm_middle, append-nil}
use mathlib.Core.List.Perm
use siridb_server.Base.{
  ℕ, zero, suc, ◌<◌, ◌≡◌, refl, ap, ap₂, sym, subst, ◌∙◌, Bool, true, Option, none, some, List, [],
  ◌∷◌, ◌++◌, arith, length, length-append, ℕ_discrete,
}
use siridb_server.Imap.Tree.{
  Node, Nodes, node, nil, cons, value, nodes, with_value, index, put, zeros, is_none, place,
  node_grow, ensure_place, set_child, unsafe_node,
}
use siridb_server.Imap.Tree.Arrays.{IsValid, total, items, count, total-none}
use siridb_server.Imap.Tree.Place.{IsPlaced}

module _ {A : Type 0} where
  abbrev mutual
    pub own : Node A → List A
    own (node s k none ns) = values ns
    own (node s k (some x) ns) = x ∷ values ns

    pub values : Nodes A → List A
    values nil = []
    values (cons n ns) = own n ++ values ns

  mutual
    length-own : (n : Node A) → length (own n) ≡ items n
    length-own (node s k none ns) = omega (arith, length-values ns)
    length-own (node s k (some x) ns) = omega (arith, length-values ns)

    pub length-values : (ns : Nodes A) → length (values ns) ≡ total ns
    length-values nil = refl
    length-values (cons n ns) =
        omega (arith, length-append (own n) (values ns), length-own n, length-values ns)

  pub values-put_eq :
      (ns : Nodes A) (i : ℕ) (c : Node A)
      → own c ≡ own (index ns i)
      → values (put ns i c) ≡ values ns
  values-put_eq nil i c e = refl
  values-put_eq (cons n ns) zero c e = ap (λ l. l ++ values ns) e
  values-put_eq (cons n ns) (suc i) c e = ap (λ l. own n ++ l) (values-put_eq ns i c e)

  pub values-put_perm :
      (ns : Nodes A) (i : ℕ) (c : Node A) (x : A)
      → i < count ns
      → Perm (own c) (x ∷ own (index ns i))
      → Perm (values (put ns i c)) (x ∷ values ns)
  values-put_perm nil i c x h p = elim h [ ]
  values-put_perm (cons n ns) zero c x h p = Perm.append_right (values ns) p
  values-put_perm (cons n ns) (suc i) c x h p =
      Perm.trans (Perm.append_left (own n) (values-put_perm ns i c x (omega arith) p))
        (perm_middle (own n) (values ns))

  nil_of_length : (l : List A) → length l ≡ 0 → l ≡ []
  nil_of_length [] h = refl
  nil_of_length (x ∷ l) h = absurd (omega arith)

  pub values-total_zero : (ns : Nodes A) → total ns ≡ 0 → values ns ≡ []
  values-total_zero ns h = nil_of_length (values ns) (length-values ns ∙ h)

  values-zeros : (k : ℕ) → values (zeros {A = A} k) ≡ []
  values-zeros zero = refl
  values-zeros (suc k) = values-zeros k

  values-put-zeros : (m k : ℕ) (c : Node A) → k < m → values (put (zeros {A = A} m) k c) ≡ own c
  values-put-zeros zero k c h = elim h [ ]
  values-put-zeros (suc m) zero c h = ap (λ l. own c ++ l) (values-zeros m) ∙ append-nil (own c)
  values-put-zeros (suc m) (suc k) c h = values-put-zeros m k c (omega arith)

  values-one : (ns : Nodes A) → count ns ≡ 1 → own (index ns 0) ≡ values ns
  values-one nil h = absurd (omega arith)
  values-one (cons n nil) h = sym (append-nil (own n))
  values-one (cons n (cons m ns)) h = absurd (omega arith)

  -- Making a place for a child loses no item.
  pub ensure_place-values :
      (mem : Bool) (n : Node A) (i : ℕ)
      → IsValid n
      → values (nodes (ensure_place mem n i).1) ≡ values (nodes n)
  unfolding ensure_place node_grow
  ensure_place-values mem (node s k d ns) i v = elim (ℕ_discrete s 0) [
    | yes e ↦ ground (arith, values-total_zero ns (sym v.0 ∙ e))
    | no ne ↦ ground (arith, total-none ns, values-put-zeros 32 k (index ns 0), values-one ns)
  ]

  -- The node's own item, as a list of at most one.
  abbrev own_value : Option A → List A
  own_value none = []
  own_value (some x) = x ∷ []

  own-node : (n : Node A) → own n ≡ own_value (value n) ++ values (nodes n)
  own-node (node s k none ns) = refl
  own-node (node s k (some x) ns) = refl

  pub own-perm :
      (n n' : Node A) (x : A)
      → value n' ≡ value n
      → Perm (values (nodes n')) (x ∷ values (nodes n))
      → Perm (own n') (x ∷ own n)
  own-perm n n' x e p =
      subst (λ l. Perm l (x ∷ own n))
        (sym (own-node n' ∙ ap (λ o. own_value o ++ values (nodes n')) e))
        (subst (λ l. Perm (own_value (value n) ++ values (nodes n')) (x ∷ l)) (sym (own-node n))
          (Perm.trans (Perm.append_left (own_value (value n)) p)
            (perm_middle (own_value (value n)) (values (nodes n)))))

  pub own-eq :
      (n n' : Node A) → value n' ≡ value n → values (nodes n') ≡ values (nodes n) → own n' ≡ own n
  own-eq n n' e p = own-node n' ∙ ap₂ (λ o l. own_value o ++ l) e p ∙ sym (own-node n)

  pub own-with_value :
      (n : Node A) (x : A)
      → is_none (value n) ≡ true
      → Perm (own (with_value n (some x))) (x ∷ own n)
  own-with_value (node s k none ns) x h = Perm.rfl
  own-with_value (node s k (some y) ns) x h = absurd (ground arith)

  pub set_child-perm :
      (n c : Node A) (i g : ℕ) (x : A)
      → IsPlaced n i
      → i < 32
      → Perm (own c) (x ∷ own (unsafe_node n i))
      → Perm (values (nodes (set_child n i c g))) (x ∷ values (nodes n))
  set_child-perm (node s k d ns) c i g x p h q = values-put_perm ns (place k i) c x (ground arith) q

  pub set_child-values_eq :
      (n c : Node A) (i g : ℕ)
      → own c ≡ own (unsafe_node n i)
      → values (nodes (set_child n i c g)) ≡ values (nodes n)
  set_child-values_eq (node s k d ns) c i g e = values-put_eq ns (place k i) c e

  pub perm_via : {l l' r : List A} (x : A) → l ≡ l' → Perm r (x ∷ l) → Perm r (x ∷ l')
  perm_via {r = r} x e p = subst (λ k. Perm r (x ∷ k)) e p
