-- ===== src/Ctree/Tree.antt =====
-- `ct_add`: a name is added where it was not there, and no other name changes.
use siridb_server.Base.{
  ℕ, ◌+◌, ◌-◌, ◌*◌, ◌/◌, ◌%◌, ◌^◌, ◌≡◌, ◌≢◌, refl, ap, sym, subst, ◌∙◌, Bool, true, false, ◌&&◌,
  Option, none, some, List, [], ◌∷◌, arith, ◌⊎◌, inl, inr, ℕ_discrete, Option-cases,
}
use siridb_server.Ctree.{
  block_sz, Node, CtRc, ct_ok, ct_err, ct_exists, Ct, Resized, key_of, slot, put_slot, child,
  node_resize, node_new, add_from, with_child, ct_add, get_child, ct_get,
}
use siridb_server.Ctree.Child.{HasShape, slots-put_slot, child-here, child-put_self, child-put_ne}
use siridb_server.Ctree.Resize.{IsValid, AllValid, Grown, node_resize_lem, node_resize-done}
use siridb_server.Ctree.Count.{slot-IsValid, put-AllValid, leaf-IsValid}
use siridb_server.Ctree.Find.{Outcome}
use siridb_server.Ctree.Write.{Stored, leaf-Stored, Outcome-Stored, kept_child}
use siridb_server.Ctree.Add.{enough, add_from-Outcome, add_from-completes}

module _ {A : Type 0} where
  -- Arrays have their length, and counters are right, in the whole tree.
  abbrev pub IsTree : Ct A → Type 0
  IsTree t = HasShape t.n t.nodes × AllValid t.nodes

  -- What `ct_add` may do.
  abbrev pub Added : A → List ℕ → Ct A → CtRc × Ct A → Type 0
  Added x key t (ct_ok, t') =
      (t'.len ≡ (t.len + 1) % 2 ^ 32)
      × (ct_get t key ≡ none)
      × (ct_get t' key ≡ some x)
      × ((q : List ℕ) → q ≢ key → ct_get t' q ≡ ct_get t q)
      × IsTree t'
  Added x key t (ct_exists, t') =
      (t'.len ≡ t.len)
      × ((y : A) × (ct_get t key ≡ some y))
      × ((q : List ℕ) → ct_get t' q ≡ ct_get t q)
      × IsTree t'
  Added x key t (ct_err, t') =
      (t'.len ≡ t.len) × ((q : List ℕ) → ct_get t' q ≡ ct_get t q) × IsTree t'

  pub get_nil : (t : Ct A) → ct_get t [] ≡ none
  unfolding ct_get
  get_nil t = refl

  pub get_cons :
      (t : Ct A) (c : ℕ) (cs : List ℕ)
      → ct_get t (c ∷ cs) ≡ get_child (child t.offset t.n t.nodes c) cs
  unfolding ct_get
  get_cons t c cs = refl

  -- Two trees whose nodes differ at `c` alone.
  module _ (t t' : Ct A) (c : ℕ) (a b : Option (Node A)) (old : child t.offset t.n t.nodes c ≡ a)
      (new : child t'.offset t'.n t'.nodes c ≡ b)
      (elsewhere : (d : ℕ)
        → d ≢ c
        → child t'.offset t'.n t'.nodes d ≡ child t.offset t.n t.nodes d) where
    get_old : (q : List ℕ) → ct_get t (c ∷ q) ≡ get_child a q
    get_old q = get_cons t c q ∙ ap (λ p. get_child p q) old

    get_new : (q : List ℕ) → ct_get t' (c ∷ q) ≡ get_child b q
    get_new q = get_cons t' c q ∙ ap (λ p. get_child p q) new

    pub get_others :
        (q : List ℕ)
        → ((ds : List ℕ) → q ≡ c ∷ ds → get_child b ds ≡ get_child a ds)
        → ct_get t' q ≡ ct_get t q
    get_others [] h = get_nil t' ∙ sym (get_nil t)
    get_others (d ∷ q) h = elim (ℕ_discrete d c) [
      | yes e ↦
          subst (λ k. ct_get t' (k ∷ q) ≡ ct_get t (k ∷ q)) (sym e)
            (get_new q ∙ h q (ap (λ k. k ∷ q) e) ∙ sym (get_old q))
      | no e ↦ get_cons t' d q ∙ ap (λ p. get_child p q) (elsewhere d e) ∙ sym (get_cons t d q)
    ]

  -- The array `g` of the tree has grown to have a place for `c`.
  module _ (t : Ct A) (c : ℕ) (g : Resized A) (grown : Grown t.offset t.n t.nodes c g)
      (valid : AllValid t.nodes) where
    put-IsTree :
        (l : ℕ) (ch : Node A)
        → IsValid ch
        → IsTree (record {
          len = l;
          offset = g.1;
          n = g.2;
          nodes = put_slot g.3 (c - g.1 * block_sz) (some ch);
        })
    put-IsTree l ch v = (
      inr (slots-put_slot g.3 (c - g.1 * block_sz) (some ch) ∙ grown.in_range.2),
      put-AllValid g.3 (c - g.1 * block_sz) ch (grown.valid valid) v,
    )

    -- The node for `c` becomes `ch`.
    put_others :
        (l : ℕ) (a : Option (Node A)) (ch : Node A) (q : List ℕ)
        → slot g.3 (c - g.1 * block_sz) ≡ a
        → ((ds : List ℕ) → q ≡ c ∷ ds → get_child (some ch) ds ≡ get_child a ds)
        → ct_get
            (record {
              len = l;
              offset = g.1;
              n = g.2;
              nodes = put_slot g.3 (c - g.1 * block_sz) (some ch);
            })
            q
          ≡ ct_get t q
    put_others l a ch q there h =
        get_others t
          (record {
            len = l;
            offset = g.1;
            n = g.2;
            nodes = put_slot g.3 (c - g.1 * block_sz) (some ch);
          })
          c a (some ch)
          (sym (grown.same c) ∙ child-here g.1 g.2 g.3 c grown.in_range.0 grown.in_range.1 ∙ there)
          (child-put_self g.1 g.2 g.3 c (some ch) grown.in_range)
          (λ d h. child-put_ne g.1 g.2 g.3 c d (some ch) grown.in_range.0 h ∙ grown.same d) q h

    here_before :
        (a : Option (Node A)) (q : List ℕ)
        → slot g.3 (c - g.1 * block_sz) ≡ a
        → ct_get t (c ∷ q) ≡ get_child a q
    here_before a q there =
        get_cons t c q
        ∙ ap (λ p. get_child p q)
            (sym (grown.same c)
              ∙ child-here g.1 g.2 g.3 c grown.in_range.0 grown.in_range.1
              ∙ there)

    here_after :
        (l : ℕ) (ch : Node A) (q : List ℕ)
        → ct_get
            (record {
              len = l;
              offset = g.1;
              n = g.2;
              nodes = put_slot g.3 (c - g.1 * block_sz) (some ch);
            })
            (c ∷ q)
          ≡ get_child (some ch) q
    unfolding ct_get
    here_after l ch q =
        ap (λ p. get_child p q) (child-put_self g.1 g.2 g.3 c (some ch) grown.in_range)

    Stored-Added :
        (x : A) (cs : List ℕ) (a : Option (Node A)) (ch : Node A)
        → slot g.3 (c - g.1 * block_sz) ≡ a
        → Stored x cs a (some ch)
        → IsValid ch
        → Added x (c ∷ cs) t (with_child t c g (ct_ok, ch))
    Stored-Added x cs a ch there h v = (
      refl,
      here_before a cs there ∙ h.absent,
      here_after ((t.len + 1) % 2 ^ 32) ch cs ∙ h.stored,
      λ q other.
          put_others ((t.len + 1) % 2 ^ 32) a ch q there
            (λ ds e. h.others ds (λ k. other (e ∙ ap (λ i. c ∷ i) k))),
      put-IsTree ((t.len + 1) % 2 ^ 32) ch v,
    )

    with_child-Added :
        (x : A) (cs : List ℕ) (nd : Node A) (r : CtRc × Node A)
        → slot g.3 (c - g.1 * block_sz) ≡ some nd
        → Outcome x cs nd [] (key_of nd) r
        → Added x (c ∷ cs) t (with_child t c g r)
    with_child-Added x cs nd (ct_ok, ch) there (rest', k, change, v) =
        Stored-Added x cs (some nd) ch there (Outcome-Stored x cs rest' nd ch k change) v
    with_child-Added x cs nd (ct_exists, ch) there (y, k, found, same, v) = (
      refl,
      (y, here_before (some nd) cs there ∙ found),
      λ q. put_others t.len (some nd) ch q there (λ ds e. kept_child nd ch ds k same),
      put-IsTree t.len ch v,
    )
    with_child-Added x cs nd (ct_err, ch) there (k, same, v) = (
      refl,
      λ q. put_others t.len (some nd) ch q there (λ ds e. kept_child nd ch ds k same),
      put-IsTree t.len ch v,
    )

  -- The array of the tree, with a place for `c`.
  abbrev top : Ct A → ℕ → Resized A
  top t c = node_resize true t.offset t.n t.nodes (c / block_sz)

  top_case :
      (a b : Bool) (x : A) (c : ℕ) (cs : List ℕ) (t : Ct A) (p : Option (Node A))
      → (top t c).0 ≡ true
      → slot (top t c).3 (c - (top t c).1 * block_sz) ≡ p
      → ct_add (enough a b) t (c ∷ cs) x ≡ elim p [
        | some nd ↦ with_child t c (top t c) (add_from (enough a b) x cs [] (key_of nd) nd)
        | none ↦ with_child t c (top t c) (ct_ok, node_new cs (some x))
      ]
  unfolding ct_add
  top_case a b x c cs t none done there = rw (done, there, ct_add) refl
  top_case a b x c cs t (some nd) done there = rw (done, there, ct_add) refl

  with_child-rc :
      (t : Ct A) (c : ℕ) (g : Resized A) (r : CtRc × Node A)
      → r.0 ≢ ct_err
      → (with_child t c g r).0 ≢ ct_err
  with_child-rc t c g (rc, ch) h = h

  ct_add-Added :
      (a b : Bool) (t : Ct A) (key : List ℕ) (x : A)
      → key ≢ []
      → IsTree t
      → Added x key t (ct_add (enough a b) t key x)
  ct_add-Added a b t [] x h valid = absurd (h refl)
  ct_add-Added a b t (c ∷ cs) x h (shape, valid) =
      let g = top t c in
      let done : g.0 ≡ true = node_resize-done t.offset t.n t.nodes (c / block_sz) in
      let grown : Grown t.offset t.n t.nodes c g = node_resize_lem t.offset t.n t.nodes c shape in
      elim (Option-cases (slot g.3 (c - g.1 * block_sz))) [
        | inl there ↦ subst (Added x (c ∷ cs) t) (sym (top_case a b x c cs t none done there)) (
            Stored-Added t c g grown valid x cs none (node_new cs (some x)) there (leaf-Stored x cs)
              (leaf-IsValid cs (some x)))
        | inr (nd, there) ↦
            subst (Added x (c ∷ cs) t) (sym (top_case a b x c cs t (some nd) done there)) (
              with_child-Added t c g grown valid x cs nd
                (add_from (enough a b) x cs [] (key_of nd) nd) there
                (add_from-Outcome a b x cs [] (key_of nd) nd refl
                  (slot-IsValid g.3 (c - g.1 * block_sz) nd (grown.valid valid) there)))
      ]

  ct_add-completes :
      (t : Ct A) (key : List ℕ) (x : A) → (ct_add (enough true true) t key x).0 ≢ ct_err
  unfolding ct_add
  ct_add-completes t [] x = λ e. absurd (ground arith)
  ct_add-completes t (c ∷ cs) x =
      let g = top t c in
      let done : g.0 ≡ true = node_resize-done t.offset t.n t.nodes (c / block_sz) in
      elim (Option-cases (slot g.3 (c - g.1 * block_sz))) [
        | inl there ↦
            subst (λ r. r.0 ≢ ct_err) (sym (top_case true true x c cs t none done there))
              (λ e. absurd (ground arith))
        | inr (nd, there) ↦
            subst (λ r. r.0 ≢ ct_err) (sym (top_case true true x c cs t (some nd) done there))
              (with_child-rc t c g (add_from (enough true true) x cs [] (key_of nd) nd)
                (add_from-completes x cs [] (key_of nd) nd))
      ]

  -- `ct_add` of a name to a tree, with memory for arrays and leaves. CT_OK: the name was not there, it is now
  -- there with the item, every other name is found as before, and `len`, a 32-bit word, counts
  -- one more. CT_EXISTS: the name was
  -- there, and every name is found as before. CT_ERR, only where memory for a split is missing: every name is found
  -- as before. The arrays and the counters of all nodes stay right.
  pub ct_add_lem :
      (a b : Bool) (t : Ct A) (key : List ℕ) (x : A)
      → key ≢ []
      → IsTree t
      → Added x key t (ct_add (enough a b) t key x)
        × (((a && b) ≡ false) ⊎ ((ct_add (enough a b) t key x).0 ≢ ct_err))
  ct_add_lem true true t key x h valid =
      (ct_add-Added true true t key x h valid, inr (ct_add-completes t key x))
  ct_add_lem true false t key x h valid = (ct_add-Added true false t key x h valid, inl refl)
  ct_add_lem false b t key x h valid = (ct_add-Added false b t key x h valid, inl refl)
