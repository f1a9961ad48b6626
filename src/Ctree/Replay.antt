-- ===== src/Ctree/Replay.antt =====
-- The tree of names as a map: any sequence of `ct_add` and `ct_pop` answers as a map from names to items does.
use siridb_server.Base.{
  ℕ, ◌≡◌, ◌≢◌, refl, ap, ap₂, sym, subst, ◌∙◌, true, false, Option, none, some, List, [], ◌∷◌,
  arith, ◌==◌, if◌then◌else◌, inl, inr, Bool-cases,
}
use siridb_server.Ctree.{CtRc, ct_ok, ct_err, ct_exists, Ct, nil, ct_new, ct_add, ct_get, get_child}
use siridb_server.Ctree.Add.{enough}
use siridb_server.Ctree.Tree.{IsTree, Added, get_nil, get_cons, ct_add_lem}
use siridb_server.Ctree.Resize.{no_child}
use siridb_server.Ctree.Names.{same_name}
use siridb_server.Ctree.Pop.{ct_pop}
use siridb_server.Ctree.Pop.Tree.{ct_pop_lem}

pub data Op (A : Type 0) : Type 0 where
  op_add : List ℕ → A → Op A
  op_pop : List ℕ → Op A

pub data Answer (A : Type 0) : Type 0 where
  answer_add : CtRc → Answer A
  answer_pop : Option A → Answer A

same_name_lem : (p q : List ℕ) → same_name p q ≡ true → p ≡ q
same_name_lem [] [] h = refl
same_name_lem [] (c ∷ q) h = absurd (ground arith)
same_name_lem (c ∷ p) [] h = absurd (ground arith)
same_name_lem (c ∷ p) (d ∷ q) h = elim (Bool-cases (c == d)) [
  | inl e ↦ ap₂ (λ a b. a ∷ b) (ground arith) (same_name_lem p q (rw e at h))
  | inr e ↦ absurd (ground (arith, rw e at h))
]

same_name_self : (p : List ℕ) → same_name p p ≡ true
same_name_self [] = refl
same_name_self (c ∷ p) = let same : (c == c) ≡ true = ground arith in rw same (same_name_self p)

abbrev pub NameMap : Type 0 → Type 0
NameMap A = List ℕ → Option A

module _ {A : Type 0} where
  -- `m` with another item, or none, for a name.
  abbrev pub write : NameMap A → List ℕ → Option A → NameMap A
  write m key v q = if same_name q key then v else m q

  abbrev pub add_beside : NameMap A → List ℕ → A → Option A → CtRc × NameMap A
  add_beside m key x (some y) = (ct_exists, m)
  add_beside m key x none = (ct_ok, write m key (some x))

  -- The same on a map: the empty name is always there.
  abbrev pub map_add : NameMap A → List ℕ → A → CtRc × NameMap A
  map_add m [] x = (ct_exists, m)
  map_add m (c ∷ cs) x = add_beside m (c ∷ cs) x (m (c ∷ cs))

  abbrev pub map_run : NameMap A → List (Op A) → List (Answer A)
  map_run m [] = []
  map_run m (op_add key x ∷ ops) = let r = map_add m key x in answer_add r.0 ∷ map_run r.1 ops
  map_run m (op_pop key ∷ ops) = answer_pop (m key) ∷ map_run (write m key none) ops

  abbrev pub tree_run : Ct A → List (Op A) → List (Answer A)
  tree_run t [] = []
  tree_run t (op_add key x ∷ ops) =
      let r = ct_add (enough true true) t key x in answer_add r.0 ∷ tree_run r.1 ops
  tree_run t (op_pop key ∷ ops) = let r = ct_pop true t key in answer_pop r.0 ∷ tree_run r.1 ops

  write_eq :
      (m m' : NameMap A) (key : List ℕ) (v : Option A)
      → m' key ≡ v
      → ((q : List ℕ) → q ≢ key → m' q ≡ m q)
      → (q : List ℕ) → m' q ≡ write m key v q
  write_eq m m' key v here others q = elim (Bool-cases (same_name q key)) [
    | inl e ↦ rw e (ap m' (same_name_lem q key e) ∙ here)
    | inr e ↦
        rw e (others q (λ k. differ (sym (ap (λ p. same_name p key) k ∙ same_name_self key) ∙ e)))
  ]
    where
      differ : true ≢ false
      differ k = absurd (ground arith)

  -- What `ct_add` leaves is what the map holds afterwards, and the answers are the same.
  abbrev Agree : CtRc × Ct A → CtRc × NameMap A → Type 0
  Agree (rc, t) (rc', m) = (rc ≡ rc') × ((q : List ℕ) → ct_get t q ≡ m q) × IsTree t

  Added-Agree :
      (t : Ct A) (m : NameMap A) (key : List ℕ) (x : A) (r : CtRc × Ct A)
      → ((q : List ℕ) → ct_get t q ≡ m q)
      → Added x key t r
      → r.0 ≢ ct_err
      → Agree r (add_beside m key x (m key))
  Added-Agree t m key x (ct_ok, t') same (counted, absent, stored, others, valid) none_wrong =
      subst (λ p. Agree (ct_ok, t') (add_beside m key x p)) (sym absent ∙ same key)
        (
          refl,
          write_eq m (ct_get t') key (some x) stored (λ q other. others q other ∙ same q),
          valid,
        )
  Added-Agree t m key x (ct_exists, t') same (counted, (y, there), kept, valid) none_wrong =
      subst (λ p. Agree (ct_exists, t') (add_beside m key x p)) (sym there ∙ same key)
        (refl, λ q. kept q ∙ same q, valid)
  Added-Agree t m key x (ct_err, t') same added none_wrong = absurd (none_wrong refl)

  add_empty : (t : Ct A) (x : A) → ct_add (enough true true) t [] x ≡ (ct_exists, t)
  unfolding ct_add
  add_empty t x = refl

  ct_add-Agree :
      (t : Ct A) (m : NameMap A) (c : ℕ) (cs : List ℕ) (x : A)
      → ((q : List ℕ) → ct_get t q ≡ m q)
      → IsTree t
      → Agree (ct_add (enough true true) t (c ∷ cs) x) (map_add m (c ∷ cs) x)
  ct_add-Agree t m c cs x same valid =
      let (added, sure) = ct_add_lem true true t (c ∷ cs) x (λ e. absurd (ground arith)) valid in
      Added-Agree t m (c ∷ cs) x (ct_add (enough true true) t (c ∷ cs) x) same added
        (elim sure [ inl e ↦ absurd (ground arith) | inr h ↦ h ])

  run_eq :
      (t : Ct A) (m : NameMap A) (ops : List (Op A))
      → ((q : List ℕ) → ct_get t q ≡ m q)
      → IsTree t
      → tree_run t ops ≡ map_run m ops
  run_eq t m [] same valid = refl
  run_eq t m (op_add [] x ∷ ops) same valid =
      ap (λ r. answer_add r.0 ∷ tree_run r.1 ops) (add_empty t x)
      ∙ ap (λ l. answer_add ct_exists ∷ l) (run_eq t m ops same valid)
  run_eq t m (op_add (c ∷ cs) x ∷ ops) same valid =
      let r = ct_add (enough true true) t (c ∷ cs) x in
      let (rc, same', valid') = ct_add-Agree t m c cs x same valid in
      ap₂ (λ a l. answer_add a ∷ l) rc (run_eq r.1 (map_add m (c ∷ cs) x).1 ops same' valid')
  run_eq t m (op_pop key ∷ ops) same valid =
      let r = ct_pop true t key in
      let (found, counted, gone, others, valid') = ct_pop_lem true t key valid in
      ap₂ (λ a l. answer_pop a ∷ l) (found ∙ same key)
        (run_eq r.1 (write m key none) ops
          (write_eq m (ct_get r.1) key none gone (λ q other. others q other ∙ same q)) valid')

  new_holds_nothing : (q : List ℕ) → ct_get (ct_new {A = A}) q ≡ none
  new_holds_nothing [] = get_nil ct_new
  new_holds_nothing (c ∷ cs) =
      get_cons ct_new c cs ∙ ap (λ p. get_child p cs) (no_child 255 0 nil c (λ i. refl))

  -- With memory, a new tree answers any sequence of additions and removals of names as a map from names to
  -- items, empty at first, does: what `ct_add` returns, and the item that `ct_pop` returns.
  pub ct_run_lem : (ops : List (Op A)) → tree_run ct_new ops ≡ map_run (λ q. none) ops
  ct_run_lem ops = run_eq ct_new (λ q. none) ops new_holds_nothing (inl refl, tt)
