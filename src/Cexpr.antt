-- ===== src/Cexpr.antt =====
-- src/cexpr/cexpr.c, include/cexpr/cexpr.h: the conditions of `where`. Nodes are on a heap, and a pointer
-- is the number of a node in the order of allocation. A condition is a value of a type parameter, and
-- the callback says whether it holds. The parse tree is the list of the tokens that CEXPR_walk_node
-- acts on. `mem` says whether memory is given; nothing stands for NULL or a failed assertion.
pub mod Heap
pub mod State
pub mod Precedence
pub mod Spec
pub mod Groups
mod Tests
use siridb_server.Base.{
  ℕ, zero, suc, ◌+◌, ◌-◌, ◌%◌, ◌^◌, Bool, true, false, not, ◌||◌, ◌&&◌, Option, none, some, List,
  [], ◌∷◌, ltb, leb, ◌==◌, if◌then◌else◌, length,
}

-- `cexpr_operator_t`
pub data Operator : Type 0 where
  cexpr_eq cexpr_ne cexpr_gt cexpr_lt cexpr_ge cexpr_le cexpr_in cexpr_ni cexpr_and cexpr_or :
      Operator

-- The order of int64_t, of words in two's complement.
abbrev pub signed : ℕ → ℕ
signed a = (a + 2 ^ 63) % 2 ^ 64

-- `cexpr_int_cmp`
unfoldable pub cexpr_int_cmp : Operator → ℕ → ℕ → Option Bool
cexpr_int_cmp cexpr_eq a b = some (a == b)
cexpr_int_cmp cexpr_ne a b = some (not (a == b))
cexpr_int_cmp cexpr_gt a b = some (ltb (signed b) (signed a))
cexpr_int_cmp cexpr_lt a b = some (ltb (signed a) (signed b))
cexpr_int_cmp cexpr_ge a b = some (leb (signed b) (signed a))
cexpr_int_cmp cexpr_le a b = some (leb (signed a) (signed b))
cexpr_int_cmp cexpr_in a b = none
cexpr_int_cmp cexpr_ni a b = none
cexpr_int_cmp cexpr_and a b = none
cexpr_int_cmp cexpr_or a b = none

-- `cexpr_bool_cmp`
unfoldable pub cexpr_bool_cmp : Operator → ℕ → ℕ → Option Bool
cexpr_bool_cmp op a b =
    if leb a 1 && leb b 1
    then (elim op as (λ x. Option Bool) [
      | cexpr_eq ↦ some (a == b)
      | cexpr_ne ↦ some (not (a == b))
      | cexpr_gt ↦ none
      | cexpr_lt ↦ none
      | cexpr_ge ↦ none
      | cexpr_le ↦ none
      | cexpr_in ↦ none
      | cexpr_ni ↦ none
      | cexpr_and ↦ none
      | cexpr_or ↦ none
    ])
    else none

-- CEXPR_MAX_CURLY_DEPTH
abbrev pub cexpr_max_curly_depth : ℕ
cexpr_max_curly_depth = 6

module _ (C : Type 0) where
  -- `tp_a` with `via_a`, or `tp_b` with `via_b`.
  pub data Via : Type 0 where
    via_null : Via
    via_cexpr : ℕ → Via
    via_cond : C → Via

  -- `cexpr_s`, where the operator can be AND and OR only.
  pub record Cexpr : Type 0 where
    pub is_or : Bool
    pub via_a : Via
    pub via_b : Via

  -- The heap, and `list`, the last entry first.
  pub record Builder : Type 0 where
    pub nodes : ℕ → Cexpr
    pub count : ℕ
    pub list : List ℕ

  -- What CEXPR_walk_node acts on.
  pub data Token : Type 0 where
    condition : C → Token
    and_token or_token open_curly close_curly : Token

  -- A builder, and the node that it works on.
  abbrev pub Built : Type 0
  Built = Option (Builder × ℕ)

module _ {C : Type 0} where
  abbrev pub is_null : Via C → Bool
  is_null via_null = true
  is_null (via_cexpr id) = false
  is_null (via_cond c) = false

  -- `CEXPR_new`
  abbrev pub new_cexpr : Cexpr C
  new_cexpr = record { is_or = false; via_a = via_null; via_b = via_null }

  abbrev pub set_node : ℕ → Cexpr C → (ℕ → Cexpr C) → ℕ → Cexpr C
  set_node id v nodes k = if k == id then v else nodes k

  abbrev pub put : Builder C → ℕ → Cexpr C → Builder C
  put t id v = record t { nodes = set_node id v t.nodes }

  -- A new node with the contents `v`.
  abbrev pub alloc : Builder C → Cexpr C → Builder C
  alloc t v = record t { nodes = set_node t.count v t.nodes; count = suc t.count }

  -- `CEXPR_push_and`, on a node with the contents `v`.
  unfoldable pub push_and_at : Bool → Builder C → ℕ → Cexpr C → Built C
  push_and_at mem t p v =
      let u = put t p (record v { via_b = via_cexpr t.count }) in
      if is_null v.via_b
      then some (t, p)
      else (if mem then some (alloc u (record new_cexpr { via_a = v.via_b }), t.count) else none)

  abbrev pub push_and : Bool → Builder C → ℕ → Built C
  push_and mem t p = push_and_at mem t p (t.nodes p)

  -- `CEXPR_push_or`, on the last entry of the list.
  unfoldable pub wrap_or : Builder C → List ℕ → Built C
  wrap_or t [] = none
  wrap_or t (top ∷ rest) =
      let u = record t { list = t.count ∷ rest } in
      some (alloc u (record new_cexpr { is_or = true; via_a = via_cexpr top }), t.count)

  unfoldable pub push_or_at : Bool → Builder C → ℕ → Cexpr C → Built C
  push_or_at mem t p v =
      if is_null v.via_b
      then some (put t p (record v { is_or = true }), p)
      else (if mem then wrap_or t t.list else none)

  abbrev pub push_or : Bool → Builder C → ℕ → Built C
  push_or mem t p = push_or_at mem t p (t.nodes p)

  -- A link from `p`: to `via_a` where that is free, else to `via_b`.
  abbrev pub with_link : Cexpr C → Via C → Option (Cexpr C)
  with_link v l =
      if is_null v.via_a
      then some (record v { via_a = l })
      else (if is_null v.via_b then some (record v { via_b = l }) else none)

  -- `CEXPR_push_condition`
  abbrev pub linked : Builder C → ℕ → Option (Cexpr C) → Built C
  linked t p none = none
  linked t p (some v) = some (put t p v, p)

  abbrev pub push_condition : Builder C → ℕ → C → Built C
  push_condition t p c = linked t p (with_link (t.nodes p) (via_cond c))

  -- `CEXPR_open_curly`
  unfoldable pub push_curly : Bool → Builder C → ℕ → Built C
  push_curly mem t p =
      if length t.list == cexpr_max_curly_depth || not mem
      then none
      else (elim (with_link (t.nodes p) (via_cexpr t.count)) [
        | none ↦ none
        | some v ↦
            let u = put (record t { list = p ∷ t.list }) p v in some (alloc u new_cexpr, t.count)
      ])

  -- `CEXPR_close_curly`
  unfoldable pub pop_curly : Builder C → List ℕ → Built C
  pop_curly t [] = none
  pop_curly t (top ∷ rest) = some (record t { list = rest }, top)

  -- One token in `CEXPR_walk_node`.
  unfoldable pub walk_token : Bool → Token C → Builder C → ℕ → Built C
  walk_token mem (condition c) t p = push_condition t p c
  walk_token mem and_token t p = push_and mem t p
  walk_token mem or_token t p = push_or mem t p
  walk_token mem open_curly t p = push_curly mem t p
  walk_token mem close_curly t p = pop_curly t t.list

  abbrev pub bind_built : Built C → (Builder C → ℕ → Built C) → Built C
  bind_built none k = none
  bind_built (some r) k = k r.0 r.1

  -- `CEXPR_walk_node`, on all tokens.
  unfoldable pub walk_tokens : Bool → List (Token C) → Builder C → ℕ → Built C
  walk_tokens mem [] t p = some (t, p)
  walk_tokens mem (token ∷ tokens) t p =
      bind_built (walk_token mem token t p) (walk_tokens mem tokens)

  -- The heap with one node.
  abbrev pub one_node : Builder C
  one_node = record { nodes = λ id. new_cexpr; count = 1; list = [] }

  -- `cexpr_from_node`
  unfoldable pub cexpr_from_node : Bool → List (Token C) → Built C
  cexpr_from_node mem tokens =
      if mem
      then bind_built (push_curly mem one_node 0)
          (λ t p. bind_built (walk_tokens mem tokens t p) (λ u q. pop_curly u u.list))
      else none

  -- A condition or an expression; `run` is `cexpr_run`.
  unfoldable pub run_via : (ℕ → Option Bool) → (C → Bool) → Via C → Option Bool
  run_via run cb via_null = none
  run_via run cb (via_cexpr id) = run id
  run_via run cb (via_cond c) = some (cb c)

  -- What follows `via_a`.
  unfoldable pub run_both : (Via C → Option Bool) → Bool → Via C → Option Bool → Option Bool
  run_both run is_or b none = none
  run_both run is_or b (some x) =
      if is_or
      then (if is_null b then none else (if x then some true else run b))
      else (if x then (if is_null b then some true else run b) else some false)

  -- `cexpr_run`; nothing when the depth `fuel` is not enough or an assertion fails.
  unfoldable pub cexpr_run : ℕ → (C → Bool) → (ℕ → Cexpr C) → ℕ → Option Bool
  cexpr_run zero cb nodes id = none
  cexpr_run (suc fuel) cb nodes id =
      let v = nodes id in
      let run = run_via (cexpr_run fuel cb nodes) cb in run_both run v.is_or v.via_b (run v.via_a)
