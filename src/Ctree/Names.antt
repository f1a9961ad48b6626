-- ===== src/Ctree/Names.antt =====
-- The names of a tree in the order of its arrays, with their items: each name that `ct_get` finds is listed once.

use siridb_server.Base.{
  ℕ, suc, ◌*◌, ◌<◌, ◌≡◌, ◌≢◌, refl, ap, ap₂, ◌∙◌, Bool, true, false, Option, none, some, List, [],
  ◌∷◌, ◌++◌, arith, ◌==◌, if◌then◌else◌, inl, inr, ℕ_discrete, Bool-cases,
}
use siridb_server.Ctree.{block_sz, Node, Nodes, node, nil, free, used, Ct}
use siridb_server.Ctree.Getn.{strip}

abbrev pub same_name : List ℕ → List ℕ → Bool
same_name [] [] = true
same_name [] (c ∷ q) = false
same_name (c ∷ p) [] = false
same_name (c ∷ p) (d ∷ q) = if c == d then same_name p q else false

module _ {A : Type 0} where
  -- `k` before each name; `key` before each name.
  abbrev pub cons_all : ℕ → List (List ℕ × A) → List (List ℕ × A)
  cons_all k [] = []
  cons_all k ((p, x) ∷ l) = (k ∷ p, x) ∷ cons_all k l

  abbrev pub prefixed : List ℕ → List (List ℕ × A) → List (List ℕ × A)
  prefixed [] l = l
  prefixed (r ∷ rs) l = cons_all r (prefixed rs l)

  abbrev pub own : Option A → List (List ℕ × A)
  own none = []
  own (some x) = ([], x) ∷ []

  -- The names from a node on, and those from an array whose first place is that of the character `k`.
  abbrev mutual
    pub names : Node A → List (List ℕ × A)
    names (node key v s o n ns) = prefixed key (own v ++ names_in (o * block_sz) ns)

    pub names_in : ℕ → Nodes A → List (List ℕ × A)
    names_in k nil = []
    names_in k (free ns) = names_in (suc k) ns
    names_in k (used ch ns) = cons_all k (names ch) ++ names_in (suc k) ns

  abbrev pub all_names : Ct A → List (List ℕ × A)
  all_names t = names_in (t.offset * block_sz) t.nodes

  -- The items that stand beside a name.
  abbrev pub items_at : List ℕ → List (List ℕ × A) → List A
  items_at q [] = []
  items_at q ((p, x) ∷ l) = if same_name p q then x ∷ items_at q l else items_at q l

  abbrev pub item_list : Option A → List A
  item_list none = []
  item_list (some x) = x ∷ []

  pub items_at-append :
      (q : List ℕ) (l m : List (List ℕ × A)) → items_at q (l ++ m) ≡ items_at q l ++ items_at q m
  items_at-append q [] m = refl
  items_at-append q ((p, x) ∷ l) m = elim (Bool-cases (same_name p q)) [
    | inl e ↦ rw e (ap (λ k. x ∷ k) (items_at-append q l m))
    | inr e ↦ rw e (items_at-append q l m)
  ]

  at_empty : (k : ℕ) (l : List (List ℕ × A)) → items_at [] (cons_all k l) ≡ []
  at_empty k [] = refl
  at_empty k ((p, x) ∷ l) = at_empty k l

  pub at_other_char :
      (k c : ℕ) (cs : List ℕ) (l : List (List ℕ × A))
      → c ≢ k
      → items_at (c ∷ cs) (cons_all k l) ≡ []
  at_other_char k c cs [] h = refl
  at_other_char k c cs ((p, x) ∷ l) h =
      let other : (k == c) ≡ false = ground arith in rw other (at_other_char k c cs l h)

  pub at_same_char :
      (k : ℕ) (cs : List ℕ) (l : List (List ℕ × A))
      → items_at (k ∷ cs) (cons_all k l) ≡ items_at cs l
  at_same_char k cs [] = refl
  at_same_char k cs ((p, x) ∷ l) =
      let same : (k == k) ≡ true = ground arith in
      elim (Bool-cases (same_name p cs)) [
        | inl e ↦ rw (same, e) (ap (λ m. x ∷ m) (at_same_char k cs l))
        | inr e ↦ rw (same, e) (at_same_char k cs l)
      ]

  abbrev pub at_rest : List (List ℕ × A) → Option (List ℕ) → List A
  at_rest l none = []
  at_rest l (some q) = items_at q l

  pub items_at-prefixed :
      (key q : List ℕ) (l : List (List ℕ × A))
      → items_at q (prefixed key l) ≡ at_rest l (strip key q)
  items_at-prefixed [] q l = refl
  items_at-prefixed (r ∷ rs) [] l = at_empty r (prefixed rs l)
  items_at-prefixed (r ∷ rs) (c ∷ cs) l = elim (ℕ_discrete c r) [
    | yes e ↦
        let same : (c == r) ≡ true = ground arith in
        rw same (
          ap (λ k. items_at (k ∷ cs) (cons_all r (prefixed rs l))) e
          ∙ at_same_char r cs (prefixed rs l)
          ∙ items_at-prefixed rs cs l)
    | no e ↦
        let other : (c == r) ≡ false = ground arith in
        rw other (at_other_char r c cs (prefixed rs l) e)
  ]

  pub names_in-empty : (k : ℕ) (ns : Nodes A) → items_at [] (names_in k ns) ≡ []
  names_in-empty k nil = refl
  names_in-empty k (free ns) = names_in-empty (suc k) ns
  names_in-empty k (used ch ns) =
      items_at-append [] (cons_all k (names ch)) (names_in (suc k) ns)
      ∙ ap₂ (λ a b. a ++ b) (at_empty k (names ch)) (names_in-empty (suc k) ns)

  pub names_in-before :
      (k c : ℕ) (cs : List ℕ) (ns : Nodes A) → c < k → items_at (c ∷ cs) (names_in k ns) ≡ []
  names_in-before k c cs nil h = refl
  names_in-before k c cs (free ns) h = names_in-before (suc k) c cs ns (omega (arith, h))
  names_in-before k c cs (used ch ns) h =
      items_at-append (c ∷ cs) (cons_all k (names ch)) (names_in (suc k) ns)
      ∙ ap₂ (λ a b. a ++ b) (at_other_char k c cs (names ch) (λ e. absurd (omega (arith, e, h))))
          (names_in-before (suc k) c cs ns (omega (arith, h)))

  pub own-cons : (c : ℕ) (cs : List ℕ) (v : Option A) → items_at (c ∷ cs) (own v) ≡ []
  own-cons c cs none = refl
  own-cons c cs (some x) = refl

  pub own-empty : (v : Option A) → items_at [] (own v) ≡ item_list v
  own-empty none = refl
  own-empty (some x) = refl
