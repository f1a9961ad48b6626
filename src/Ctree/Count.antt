-- ===== src/Ctree/Count.antt =====
-- The counters of a node when a place of its array is written.
use mathlib.Core.Option.{some-injective}
use siridb_server.Base.{
  ℕ, zero, suc, ◌-◌, ◌*◌, ◌<◌, ◌≡◌, refl, ap, sym, subst, ◌∙◌, Option, none, some, List, arith, inl,
  inr,
}
use siridb_server.Ctree.{block_sz, Node, Nodes, node, nil, free, used, slot, put_slot, node_new}
use siridb_server.Ctree.Child.{slots, slots-put_slot, InRange}
use siridb_server.Ctree.Resize.{children, IsValid, AllValid}

module _ {A : Type 0} where
  pub children-new :
      (ns : Nodes A) (i : ℕ) (c : Node A)
      → i < slots ns
      → slot ns i ≡ none
      → children (put_slot ns i (some c)) ≡ suc (children ns)
  children-new nil i c h e = absurd (omega arith)
  children-new (free ns) zero c h e = refl
  children-new (free ns) (suc i) c h e = children-new ns i c (omega arith) e
  children-new (used d ns) zero c h e = absurd (ground arith)
  children-new (used d ns) (suc i) c h e = ap suc (children-new ns i c (omega arith) e)

  pub children-old :
      (ns : Nodes A) (i : ℕ) (c d : Node A)
      → slot ns i ≡ some d
      → children (put_slot ns i (some c)) ≡ children ns
  children-old nil i c d e = absurd (ground arith)
  children-old (free ns) zero c d e = absurd (ground arith)
  children-old (free ns) (suc i) c d e = children-old ns i c d e
  children-old (used b ns) zero c d e = refl
  children-old (used b ns) (suc i) c d e = ap suc (children-old ns i c d e)

  pub children-gone :
      (ns : Nodes A) (i : ℕ) (d : Node A)
      → slot ns i ≡ some d
      → suc (children (put_slot ns i none)) ≡ children ns
  children-gone nil i d e = absurd (ground arith)
  children-gone (free ns) zero d e = absurd (ground arith)
  children-gone (free ns) (suc i) d e = children-gone ns i d e
  children-gone (used b ns) zero d e = refl
  children-gone (used b ns) (suc i) d e = ap suc (children-gone ns i d e)

  pub put-AllValid :
      (ns : Nodes A) (i : ℕ) (c : Node A)
      → AllValid ns
      → IsValid c
      → AllValid (put_slot ns i (some c))
  put-AllValid nil i c v vc = tt
  put-AllValid (free ns) zero c v vc = (vc, v)
  put-AllValid (free ns) (suc i) c v vc = put-AllValid ns i c v vc
  put-AllValid (used b ns) zero c v vc = (vc, v.1)
  put-AllValid (used b ns) (suc i) c v vc = (v.0, put-AllValid ns i c v.1 vc)

  pub clear-AllValid : (ns : Nodes A) (i : ℕ) → AllValid ns → AllValid (put_slot ns i none)
  clear-AllValid nil i v = tt
  clear-AllValid (free ns) zero v = v
  clear-AllValid (free ns) (suc i) v = clear-AllValid ns i v
  clear-AllValid (used b ns) zero v = v.1
  clear-AllValid (used b ns) (suc i) v = (v.0, clear-AllValid ns i v.1)

  pub slot-IsValid :
      (ns : Nodes A) (i : ℕ) (c : Node A) → AllValid ns → slot ns i ≡ some c → IsValid c
  slot-IsValid nil i c v e = absurd (ground arith)
  slot-IsValid (free ns) zero c v e = absurd (ground arith)
  slot-IsValid (free ns) (suc i) c v e = slot-IsValid ns i c v e
  slot-IsValid (used b ns) zero c v e = subst IsValid (some-injective b c e) v.0
  slot-IsValid (used b ns) (suc i) c v e = slot-IsValid ns i c v.1 e

  -- A node with a new child, or with a child that is changed, in an array that has a place for it.
  pub new_child-IsValid :
      (key : List ℕ) (v : Option A) (s o n c : ℕ) (ns : Nodes A) (ch : Node A)
      → InRange o n ns c
      → slot ns (c - o * block_sz) ≡ none
      → s ≡ suc (children ns)
      → AllValid ns
      → IsValid ch
      → IsValid (node key v s o n (put_slot ns (c - o * block_sz) (some ch)))
  new_child-IsValid key v s o n c ns ch (lo, hi, whole) free_there counted valid vc =
      let i = c - o * block_sz in
      (
        counted ∙ sym (children-new ns i ch (omega (arith, whole, lo, hi)) free_there),
        inr (slots-put_slot ns i (some ch) ∙ whole),
        put-AllValid ns i ch valid vc,
      )

  pub old_child-IsValid :
      (key : List ℕ) (v : Option A) (s o n c : ℕ) (ns : Nodes A) (ch d : Node A)
      → InRange o n ns c
      → slot ns (c - o * block_sz) ≡ some d
      → s ≡ children ns
      → AllValid ns
      → IsValid ch
      → IsValid (node key v s o n (put_slot ns (c - o * block_sz) (some ch)))
  old_child-IsValid key v s o n c ns ch d (lo, hi, whole) there counted valid vc =
      let i = c - o * block_sz in
      (
        counted ∙ sym (children-old ns i ch d there),
        inr (slots-put_slot ns i (some ch) ∙ whole),
        put-AllValid ns i ch valid vc,
      )

  pub leaf-IsValid : (key : List ℕ) (v : Option A) → IsValid (node_new key v)
  leaf-IsValid key v = (refl, inl refl, tt)
