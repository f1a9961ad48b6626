-- ===== src/Ctree/Find.antt =====
-- How a change of a node shows in what is found from it.
use mathlib.Core.List.{append_assoc}
use siridb_server.Base.{
  ℕ, ◌≡◌, ◌≢◌, refl, ap₂, sym, ◌∙◌, true, false, Option, none, some, List, [], ◌∷◌, ◌++◌, arith,
  ◌==◌, ℕ_discrete,
}
use siridb_server.Ctree.{
  Node, Nodes, node, CtRc, ct_ok, ct_err, ct_exists, key_of, child, child_of, get_from, get_child,
}
use siridb_server.Ctree.Resize.{IsValid}

module _ {A : Type 0} where
  abbrev pub value_of : Node A → Option A
  value_of (node key v s o n ns) = v

  pub get_from-nil : (nd : Node A) → get_from [] [] nd ≡ value_of nd
  unfolding get_from
  get_from-nil (node key v s o n ns) = refl

  pub get_from-child :
      (nd : Node A) (c : ℕ) (cs : List ℕ) (r : Option (Node A))
      → child_of nd c ≡ r
      → get_from (c ∷ cs) [] nd ≡ get_child r cs
  unfolding get_from
  get_from-child nd c cs none e = rw (e, get_from) refl
  get_from-child nd c cs (some ch) e = rw (e, get_from) refl

  pub get_from-step :
      (nd : Node A) (c r : ℕ) (cs rs : List ℕ)
      → c ≡ r
      → get_from (c ∷ cs) (r ∷ rs) nd ≡ get_from cs rs nd
  unfolding get_from
  get_from-step nd c r cs rs e =
      let same : (c == r) ≡ true = ground arith in rw (same, get_from) refl

  pub get_from-part :
      (nd : Node A) (c r : ℕ) (cs rs : List ℕ) → c ≢ r → get_from (c ∷ cs) (r ∷ rs) nd ≡ none
  unfolding get_from
  get_from-part nd c r cs rs e =
      let other : (c == r) ≡ false = ground arith in rw (other, get_from) refl

  pub get_from-short : (nd : Node A) (r : ℕ) (rs : List ℕ) → get_from [] (r ∷ rs) nd ≡ none
  unfolding get_from
  get_from-short nd r rs = refl

  -- Only the item and the children of the node count.
  pub get_from-same :
      (nd nd' : Node A) (q rest : List ℕ)
      → value_of nd' ≡ value_of nd
      → ((k : ℕ) → child_of nd' k ≡ child_of nd k)
      → get_from q rest nd' ≡ get_from q rest nd
  get_from-same nd nd' [] [] v h = get_from-nil nd' ∙ v ∙ sym (get_from-nil nd)
  get_from-same nd nd' [] (r ∷ rest) v h =
      get_from-short nd' r rest ∙ sym (get_from-short nd r rest)
  get_from-same nd nd' (c ∷ q) [] v h =
      get_from-child nd' c q (child_of nd c) (h c)
      ∙ sym (get_from-child nd c q (child_of nd c) refl)
  get_from-same nd nd' (c ∷ q) (r ∷ rest) v h = elim (ℕ_discrete c r) [
    | yes e ↦
        get_from-step nd' c r q rest e
        ∙ get_from-same nd nd' q rest v h
        ∙ sym (get_from-step nd c r q rest e)
    | no e ↦ get_from-part nd' c r q rest e ∙ sym (get_from-part nd c r q rest e)
  ]

  -- The item counts at the end of the name only.
  pub item_others :
      (key : List ℕ) (v w : Option A) (s o n : ℕ) (ns : Nodes A) (q : List ℕ)
      → q ≢ []
      → get_from q [] (node key v s o n ns) ≡ get_from q [] (node key w s o n ns)
  item_others key v w s o n ns [] other = absurd (other refl)
  item_others key v w s o n ns (d ∷ q) other =
      get_from-child (node key v s o n ns) d q (child o n ns d) refl
      ∙ sym (get_from-child (node key w s o n ns) d q (child o n ns d) refl)

  -- The same is found, from `rest` in `nd` and from `rest'` in `nd'`.
  abbrev pub Same : Node A → List ℕ → Node A → List ℕ → Type 0
  Same nd rest nd' rest' = (q : List ℕ) → get_from q rest' nd' ≡ get_from q rest nd

  -- `x` is found at `cs` where there was nothing, and else the same.
  pub record Change (x : A) (cs : List ℕ) (nd : Node A) (rest : List ℕ) (nd' : Node A)
      (rest' : List ℕ) : Type 0 where
    pub stored : get_from cs rest' nd' ≡ some x
    pub absent : get_from cs rest nd ≡ none
    pub others : (q : List ℕ) → q ≢ cs → get_from q rest' nd' ≡ get_from q rest nd

  -- What `CT_add` does, from the place `rest` in the key of `nd`, behind `pre`.
  abbrev pub Outcome : A → List ℕ → Node A → List ℕ → List ℕ → CtRc × Node A → Type 0
  Outcome x cs nd pre rest (ct_ok, nd') =
      (rest' : List ℕ) × (key_of nd' ≡ pre ++ rest') × Change x cs nd rest nd' rest' × IsValid nd'
  Outcome x cs nd pre rest (ct_exists, nd') =
      (y : A) × (key_of nd' ≡ pre ++ rest)
      × (get_from cs rest nd ≡ some y)
      × Same nd rest nd' rest
      × IsValid nd'
  Outcome x cs nd pre rest (ct_err, nd') =
      (key_of nd' ≡ pre ++ rest) × Same nd rest nd' rest × IsValid nd'

  Same-step :
      (nd nd' : Node A) (r : ℕ) (rest rest' : List ℕ)
      → Same nd rest nd' rest'
      → Same nd (r ∷ rest) nd' (r ∷ rest')
  Same-step nd nd' r rest rest' h [] = get_from-short nd' r rest' ∙ sym (get_from-short nd r rest)
  Same-step nd nd' r rest rest' h (d ∷ q) = elim (ℕ_discrete d r) [
    | yes e ↦ get_from-step nd' d r q rest' e ∙ h q ∙ sym (get_from-step nd d r q rest e)
    | no e ↦ get_from-part nd' d r q rest' e ∙ sym (get_from-part nd d r q rest e)
  ]

  Change-step :
      (x : A) (c : ℕ) (cs : List ℕ) (nd nd' : Node A) (rest rest' : List ℕ)
      → Change x cs nd rest nd' rest'
      → Change x (c ∷ cs) nd (c ∷ rest) nd' (c ∷ rest')
  Change-step x c cs nd nd' rest rest' h = record {
    stored = get_from-step nd' c c cs rest' refl ∙ h.stored;
    absent = get_from-step nd c c cs rest refl ∙ h.absent;
    others = others_step;
  }
    where
      others_step :
          (q : List ℕ) → q ≢ c ∷ cs → get_from q (c ∷ rest') nd' ≡ get_from q (c ∷ rest) nd
      others_step [] other = get_from-short nd' c rest' ∙ sym (get_from-short nd c rest)
      others_step (d ∷ q) other = elim (ℕ_discrete d c) [
        | yes e ↦
            get_from-step nd' d c q rest' e
            ∙ h.others q (λ k. other (ap₂ (λ a b. a ∷ b) e k))
            ∙ sym (get_from-step nd d c q rest e)
        | no e ↦ get_from-part nd' d c q rest' e ∙ sym (get_from-part nd d c q rest e)
      ]

  -- The next character of the name is that of the key.
  pub Outcome-step :
      (x : A) (c : ℕ) (cs : List ℕ) (nd : Node A) (pre rest : List ℕ) (r : CtRc × Node A)
      → Outcome x cs nd (pre ++ c ∷ []) rest r
      → Outcome x (c ∷ cs) nd pre (c ∷ rest) r
  Outcome-step x c cs nd pre rest (ct_ok, nd') (rest', key, change, valid) = (
    c ∷ rest',
    key ∙ append_assoc pre (c ∷ []) rest',
    Change-step x c cs nd nd' rest rest' change,
    valid,
  )
  Outcome-step x c cs nd pre rest (ct_exists, nd') (y, key, there, same, valid) = (
    y,
    key ∙ append_assoc pre (c ∷ []) rest,
    get_from-step nd c c cs rest refl ∙ there,
    Same-step nd nd' c rest rest same,
    valid,
  )
  Outcome-step x c cs nd pre rest (ct_err, nd') (key, same, valid) =
      (key ∙ append_assoc pre (c ∷ []) rest, Same-step nd nd' c rest rest same, valid)
