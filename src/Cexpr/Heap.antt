-- ===== src/Cexpr/Heap.antt =====
-- Expressions on the heap.
use siridb_server.Base.{
  ℕ, zero, suc, ◌+◌, ◌≤◌, ◌<◌, ◌≡◌, refl, ap, ◌∙◌, Bool, true, false, ◌||◌, ◌&&◌, Option, some,
  arith, if◌then◌else◌,
}
use siridb_server.Cexpr.{
  Via, via_null, via_cexpr, via_cond, Cexpr, is_null, run_via, run_both, cexpr_run,
}

-- The expressions that a heap can hold; `single` is a node without `via_b`.
pub data Expr (C : Type 0) : Type 0 where
  leaf : C → Expr C
  single : Expr C → Expr C
  both : Bool → Expr C → Expr C → Expr C

module _ {C : Type 0} where
  -- Whether an expression holds.
  abbrev pub holds : (C → Bool) → Expr C → Bool
  holds cb (leaf c) = cb c
  holds cb (single e) = holds cb e
  holds cb (both is_or e f) = if is_or then holds cb e || holds cb f else holds cb e && holds cb f

  -- The depth of an expression.
  abbrev pub depth : Expr C → ℕ
  depth (leaf c) = 0
  depth (single e) = suc (depth e)
  depth (both is_or e f) = suc (depth e + depth f)

  -- The nodes before `m` hold the expression, at `via`.
  abbrev pub Rep : (ℕ → Cexpr C) → ℕ → Via C → Expr C → Type 0
  Rep nodes m via (leaf c) = via ≡ via_cond c
  Rep nodes m via (single e) =
      (id : ℕ) × (a : Via C) × (via ≡ via_cexpr id)
      × (id < m)
      × (nodes id ≡ record { is_or = false; via_a = a; via_b = via_null })
      × Rep nodes m a e
  Rep nodes m via (both is_or e f) =
      (id : ℕ) × (a : Via C) × (b : Via C) × (via ≡ via_cexpr id)
      × (id < m)
      × (nodes id ≡ record { is_or = is_or; via_a = a; via_b = b })
      × Rep nodes m a e
      × Rep nodes m b f

  pub Rep-agree :
      (nodes nodes' : ℕ → Cexpr C) (m m' : ℕ) (via : Via C) (e : Expr C)
      → m ≤ m'
      → ((k : ℕ) → k < m → nodes' k ≡ nodes k)
      → Rep nodes m via e
      → Rep nodes' m' via e
  Rep-agree nodes nodes' m m' via (leaf c) le same r = r
  Rep-agree nodes nodes' m m' via (single e) le same (id, a, at, below, here, r) =
      (id, a, at, omega arith, same id below ∙ here, Rep-agree nodes nodes' m m' a e le same r)
  Rep-agree nodes nodes' m m' via (both is_or e f) le same (id, a, b, at, below, here, r, s) = (
    id,
    a,
    b,
    at,
    omega arith,
    same id below ∙ here,
    Rep-agree nodes nodes' m m' a e le same r,
    Rep-agree nodes nodes' m m' b f le same s,
  )

  pub Rep-not_null :
      (nodes : ℕ → Cexpr C) (m : ℕ) (via : Via C) (e : Expr C)
      → Rep nodes m via e
      → is_null via ≡ false
  Rep-not_null nodes m via (leaf c) r = ap is_null r
  Rep-not_null nodes m via (single e) r = ap is_null r.2
  Rep-not_null nodes m via (both is_or e f) r = ap is_null r.3

  run_both-value :
      (run : Via C → Option Bool) (is_or : Bool) (b : Via C) (x y : Bool)
      → is_null b ≡ false
      → run b ≡ some y
      → run_both run is_or b (some x) ≡ some (if is_or then x || y else x && y)
  unfolding run_both
  run_both-value run true b true y filled e = rw filled refl
  run_both-value run true b false y filled e = rw filled e
  run_both-value run false b true y filled e = rw filled e
  run_both-value run false b false y filled e = refl

  run_both-single :
      (run : Via C → Option Bool) (x : Bool) → run_both run false via_null (some x) ≡ some x
  unfolding run_both
  run_both-single run true = refl
  run_both-single run false = refl

  -- `cexpr_run` of a node, given its contents.
  cexpr_run-node :
      (fuel : ℕ) (cb : C → Bool) (nodes : ℕ → Cexpr C) (id : ℕ) (v : Cexpr C)
      → nodes id ≡ v
      → cexpr_run (suc fuel) cb nodes id
        ≡ run_both
            (run_via (cexpr_run fuel cb nodes) cb)
            v.is_or
            v.via_b
            (run_via (cexpr_run fuel cb nodes) cb v.via_a)
  unfolding cexpr_run
  cexpr_run-node fuel cb nodes id v e =
      let run = run_via (cexpr_run fuel cb nodes) cb in
      ap (λ n. run_both run n.is_or n.via_b (run n.via_a)) e

  -- An expression on the heap is computed with its depth as fuel.
  pub run-Rep :
      (fuel : ℕ) (cb : C → Bool) (nodes : ℕ → Cexpr C) (m : ℕ) (via : Via C) (e : Expr C)
      → depth e ≤ fuel
      → Rep nodes m via e
      → run_via (cexpr_run fuel cb nodes) cb via ≡ some (holds cb e)
  unfolding run_via
  run-Rep fuel cb nodes m via (leaf c) le r = ap (run_via (cexpr_run fuel cb nodes) cb) r
  run-Rep zero cb nodes m via (single e) le r = absurd (omega arith)
  run-Rep (suc fuel) cb nodes m via (single e) le (id, a, at, below, here, r) =
      ap (run_via (cexpr_run (suc fuel) cb nodes) cb) at
      ∙ cexpr_run-node fuel cb nodes id _ here
      ∙ ap (run_both (run_via (cexpr_run fuel cb nodes) cb) false via_null)
          (run-Rep fuel cb nodes m a e (omega arith) r)
      ∙ run_both-single (run_via (cexpr_run fuel cb nodes) cb) (holds cb e)
  run-Rep zero cb nodes m via (both is_or e f) le r = absurd (omega arith)
  run-Rep (suc fuel) cb nodes m via (both is_or e f) le (id, a, b, at, below, here, r, s) =
      let run = run_via (cexpr_run fuel cb nodes) cb in
      ap (run_via (cexpr_run (suc fuel) cb nodes) cb) at
      ∙ cexpr_run-node fuel cb nodes id _ here
      ∙ ap (run_both run is_or b) (run-Rep fuel cb nodes m a e (omega arith) r)
      ∙ run_both-value run is_or b (holds cb e) (holds cb f) (Rep-not_null nodes m b f s)
          (run-Rep fuel cb nodes m b f (omega arith) s)
