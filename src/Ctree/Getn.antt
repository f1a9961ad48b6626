-- ===== src/Ctree/Getn.antt =====
-- `ct_getn` of src/ctree/ctree.c: a name is found by its characters and their number, as `ct_get` finds it.
use siridb_server.Base.{
  ℕ, zero, suc, ◌≤◌, ◌<◌, ◌≡◌, refl, ap, sym, ◌∙◌, true, false, Option, none, some, List, [], ◌∷◌,
  arith, length, ◌==◌, if◌then◌else◌, inl, inr, ℕ_discrete, Option-cases,
}
use siridb_server.Ctree.{Node, Ct, key_of, child, child_of, get_from, get_child, ct_get}
use siridb_server.Ctree.Find.{
  value_of, get_from-nil, get_from-child, get_from-step, get_from-part, get_from-short,
}
use siridb_server.Ctree.Tree.{get_nil, get_cons}

-- What follows the key: `n` is not below its length, and `strncmp` finds it.
abbrev pub strip : List ℕ → List ℕ → Option (List ℕ)
strip [] q = some q
strip (r ∷ rs) [] = none
strip (r ∷ rs) (c ∷ cs) = if c == r then strip rs cs else none

strip-length : (rest q l : List ℕ) → strip rest q ≡ some l → length l ≤ length q
strip-length [] q l e = ground arith
strip-length (r ∷ rs) [] l e = absurd (ground arith)
strip-length (r ∷ rs) (c ∷ cs) l e = elim (ℕ_discrete c r) [
  | yes k ↦
      let same : (c == r) ≡ true = ground arith in
      let below : length l ≤ length cs = strip-length rs cs l (rw same at e) in omega (arith, below)
  | no k ↦ let other : (c == r) ≡ false = ground arith in absurd (ground (arith, rw other at e))
]

module _ {A : Type 0} where
  -- The loop of `ct_getn`, which goes down one node in a round.
  unfoldable pub getn_loop : ℕ → List ℕ → Option (Node A) → Option A
  getn_loop zero q p = none
  getn_loop (suc f) q none = none
  getn_loop (suc f) q (some nd) = elim (strip (key_of nd) q) [
    | none ↦ none
    | some rest ↦ elim rest [ [] ↦ value_of nd | c ∷ cs ↦ getn_loop f cs (child_of nd c) ]
  ]

  -- `ct_getn`; the rounds are no more than the characters.
  unfoldable pub ct_getn : Ct A → List ℕ → Option A
  ct_getn t [] = none
  ct_getn t (c ∷ cs) = getn_loop (suc (length cs)) cs (child t.offset t.n t.nodes c)

  abbrev pub behind : Node A → Option (List ℕ) → Option A
  behind nd none = none
  behind nd (some l) = get_from l [] nd

  pub strip-get : (rest q : List ℕ) (nd : Node A) → get_from q rest nd ≡ behind nd (strip rest q)
  strip-get [] q nd = refl
  strip-get (r ∷ rs) [] nd = get_from-short nd r rs
  strip-get (r ∷ rs) (c ∷ cs) nd = elim (ℕ_discrete c r) [
    | yes e ↦
        let same : (c == r) ≡ true = ground arith in
        rw same (get_from-step nd c r cs rs e ∙ strip-get rs cs nd)
    | no e ↦ let other : (c == r) ≡ false = ground arith in rw other (get_from-part nd c r cs rs e)
  ]

  -- With more rounds than there are characters.
  getn_loop_lem :
      (f : ℕ) (q : List ℕ) (p : Option (Node A)) → length q < f → getn_loop f q p ≡ get_child p q
  unfolding getn_loop
  getn_loop_lem zero q p h = absurd (omega arith)
  getn_loop_lem (suc f) q none h = refl
  getn_loop_lem (suc f) q (some nd) h = elim (Option-cases (strip (key_of nd) q)) [
    | inl e ↦ rw (e, getn_loop) (sym (strip-get (key_of nd) q nd ∙ ap (behind nd) e))
    | inr ([], e) ↦
        rw (e, getn_loop)
          (sym (get_from-nil nd) ∙ sym (strip-get (key_of nd) q nd ∙ ap (behind nd) e))
    | inr (c ∷ cs, e) ↦
        rw (e, getn_loop)
          (getn_loop_lem f cs (child_of nd c)
              (omega (arith, h, strip-length (key_of nd) q (c ∷ cs) e))
            ∙ sym (get_from-child nd c cs (child_of nd c) refl)
            ∙ sym (strip-get (key_of nd) q nd ∙ ap (behind nd) e))
  ]

  -- `ct_getn` of the characters of a name finds what `ct_get` finds for the name.
  pub ct_getn_lem : (t : Ct A) (name : List ℕ) → ct_getn t name ≡ ct_get t name
  unfolding ct_getn
  ct_getn_lem t [] = sym (get_nil t)
  ct_getn_lem t (c ∷ cs) =
      getn_loop_lem (suc (length cs)) cs (child t.offset t.n t.nodes c) (omega arith)
      ∙ sym (get_cons t c cs)
