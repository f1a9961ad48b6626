-- ===== src/Cexpr/State.antt =====
-- What the builder has on the heap while it works on a condition without parentheses.
use siridb_server.Base.{
  ℕ, suc, ◌+◌, ◌≤◌, ◌<◌, ◌≡◌, ◌≢◌, refl, ap, sym, subst, ◌∙◌, Bool, true, false, ◌||◌, ◌&&◌, some,
  List, [], ◌∷◌, ◌++◌, arith, ◌==◌,
}
use siridb_server.Cexpr.{
  Via, via_null, via_cexpr, via_cond, Cexpr, Builder, set_node, run_via, cexpr_run,
}
use siridb_server.Cexpr.Heap.{Expr, leaf, single, both, holds, depth, Rep, Rep-agree, run-Rep}

-- What lies between the root and the node that is worked on.
pub data Frame (C : Type 0) : Type 0 where
  under_root : Frame C
  behind : Bool → Expr C → Frame C

module _ {C : Type 0} where
  abbrev pub plug : List (Frame C) → Expr C → Expr C
  plug [] e = e
  plug (under_root ∷ fs) e = single (plug fs e)
  plug (behind is_or a ∷ fs) e = both is_or a (plug fs e)

  pub plug-append : (fs gs : List (Frame C)) (e : Expr C) → plug (fs ++ gs) e ≡ plug fs (plug gs e)
  plug-append [] gs e = refl
  plug-append (under_root ∷ fs) gs e = ap single (plug-append fs gs e)
  plug-append (behind is_or a ∷ fs) gs e = ap (both is_or a) (plug-append fs gs e)

  -- The way from `via` to the node `p`, over nodes before it.
  abbrev pub Way : (ℕ → Cexpr C) → ℕ → Via C → List (Frame C) → Type 0
  Way nodes p via [] = via ≡ via_cexpr p
  Way nodes p via (under_root ∷ fs) =
      (id : ℕ) × (a : Via C) × (via ≡ via_cexpr id)
      × (id < p)
      × (nodes id ≡ record { is_or = false; via_a = a; via_b = via_null })
      × Way nodes p a fs
  Way nodes p via (behind is_or e ∷ fs) =
      (id : ℕ) × (a : Via C) × (b : Via C) × (via ≡ via_cexpr id)
      × (id < p)
      × (nodes id ≡ record { is_or = is_or; via_a = a; via_b = b })
      × Rep nodes p a e
      × Way nodes p b fs

  -- The expression, when the node at the end of the way holds one.
  pub Way-Rep :
      (nodes : ℕ → Cexpr C) (p : ℕ) (via : Via C) (fs : List (Frame C)) (e : Expr C)
      → Way nodes p via fs
      → Rep nodes (suc p) (via_cexpr p) e
      → Rep nodes (suc p) via (plug fs e)
  Way-Rep nodes p via [] e w r = subst (λ v. Rep nodes (suc p) v e) (sym w) r
  Way-Rep nodes p via (under_root ∷ fs) e (id, a, at, below, here, w) r =
      (id, a, at, omega arith, here, Way-Rep nodes p a fs e w r)
  Way-Rep nodes p via (behind is_or x ∷ fs) e (id, a, b, at, below, here, rx, w) r = (
    id,
    a,
    b,
    at,
    omega arith,
    here,
    Rep-agree nodes nodes p (suc p) a x (omega arith) (λ k h. refl) rx,
    Way-Rep nodes p b fs e w r,
  )

  -- The node at the end of the way gets a node behind it.
  pub Way-snoc :
      (nodes nodes' : ℕ → Cexpr C) (p q : ℕ) (via a : Via C) (fs : List (Frame C)) (is_or : Bool)
      (e : Expr C)
      → ((k : ℕ) → k < p → nodes' k ≡ nodes k)
      → p < q
      → nodes' p ≡ record { is_or = is_or; via_a = a; via_b = via_cexpr q }
      → Rep nodes p a e
      → Way nodes p via fs
      → Way nodes' q via (fs ++ behind is_or e ∷ [])
  Way-snoc nodes nodes' p q via a [] is_or e same lt here r w =
      (p, a, via_cexpr q, w, lt, here, Rep-agree nodes nodes' p q a e (omega arith) same r, refl)
  Way-snoc nodes nodes' p q via a (under_root ∷ fs) is_or e same lt here r
        (id, a', at, below, there, w) =
      (
        id,
        a',
        at,
        omega arith,
        same id below ∙ there,
        Way-snoc nodes nodes' p q a' a fs is_or e same lt here r w,
      )
  Way-snoc nodes nodes' p q via a (behind o x ∷ fs) is_or e same lt here r
        (id, a', b, at, below, there, rx, w) =
      (
        id,
        a',
        b,
        at,
        omega arith,
        same id below ∙ there,
        Rep-agree nodes nodes' p q a' x (omega arith) same rx,
        Way-snoc nodes nodes' p q b a fs is_or e same lt here r w,
      )

  -- The builder works on the node `p`, the newest, whose last condition is `x`; the whole holds when
  -- `d` does, or `k` and what stands at `x`.
  pub record State (cb : C → Bool) (t : Builder C) (p : ℕ) (x : C) (d k : Bool) : Type 0 where
    pub frames : List (Frame C)
    pub is_or : Bool
    pub first : Expr C
    pub root : ℕ
    pub a : Via C
    pub newest : t.count ≡ suc p
    pub listed : t.list ≡ root ∷ []
    pub way : Way t.nodes p (via_cexpr root) frames
    pub here : t.nodes p ≡ record { is_or = is_or; via_a = a; via_b = via_cond x }
    pub rep : Rep t.nodes p a first
    pub value :
        (y : Expr C) → holds cb (plug frames (both is_or first y)) ≡ (d || (k && holds cb y))
    pub small : (y : Expr C) → depth (plug frames (both is_or first y)) ≤ t.count + depth y

  pub State-Rep :
      (cb : C → Bool) (t : Builder C) (p : ℕ) (x : C) (d k : Bool) (s : State cb t p x d k)
      → Rep t.nodes (suc p) (via_cexpr s.root) (plug s.frames (both s.is_or s.first (leaf x)))
  State-Rep cb t p x d k s =
      Way-Rep t.nodes p (via_cexpr s.root) s.frames (both s.is_or s.first (leaf x)) s.way (
        p,
        s.a,
        via_cond x,
        refl,
        omega arith,
        s.here,
        Rep-agree t.nodes t.nodes p (suc p) s.a s.first (omega arith) (λ k h. refl) s.rep,
        refl,
      )

  -- What `cexpr_run` makes of it.
  pub State-run :
      (cb : C → Bool) (t : Builder C) (p : ℕ) (x : C) (d k : Bool) (s : State cb t p x d k)
      → cexpr_run t.count cb t.nodes s.root ≡ some (d || (k && cb x))
  unfolding run_via
  State-run cb t p x d k s =
      run-Rep t.count cb t.nodes (suc p) (via_cexpr s.root) _ (omega (arith, s.small (leaf x)))
        (State-Rep cb t p x d k s)
      ∙ ap some (s.value (leaf x))

  pub set_node_self : (id : ℕ) (v : Cexpr C) (nodes : ℕ → Cexpr C) → set_node id v nodes id ≡ v
  set_node_self id v nodes = let same : (id == id) ≡ true = ground arith in rw same refl

  pub set_node_ne :
      (id k : ℕ) (v : Cexpr C) (nodes : ℕ → Cexpr C) → k ≢ id → set_node id v nodes k ≡ nodes k
  set_node_ne id k v nodes h = let other : (k == id) ≡ false = ground arith in rw other refl
