-- ===== src/Cexpr/Tests.antt =====
-- Conditions at work, two with parentheses that lose a part, and the theorem at a concrete input.
use siridb_server.Base.{
  ℕ, ◌^◌, ◌-◌, ◌≡◌, refl, Bool, true, false, Option, none, some, List, [], ◌∷◌, ◌==◌, not,
}
use siridb_server.Cexpr.{
  Builder, Token, condition, and_token, or_token, open_curly, close_curly, Built, push_and_at,
  push_or_at, wrap_or, push_curly, pop_curly, walk_token, walk_tokens, cexpr_from_node, run_via,
  run_both, cexpr_run, cexpr_int_cmp, cexpr_gt,
}
use siridb_server.Cexpr.Spec.{tokens_behind}
use siridb_server.Cexpr.Groups.{cexpr_from_node_lem}

-- -1 > 1 is false, 1 > -1 is true.
signs :
    (cexpr_int_cmp cexpr_gt (2 ^ 64 - 1) 1 ≡ some false)
    × (cexpr_int_cmp cexpr_gt 1 (2 ^ 64 - 1) ≡ some true)
unfolding cexpr_int_cmp
signs = (refl, refl)

abbrev result : (ℕ → Bool) → Built ℕ → Option Bool
result cb none = none
result cb (some (t, root)) = cexpr_run t.count cb t.nodes root

-- (1 or 2 or 3), where only 3 holds: the third condition is lost.
abbrev three : List (Token ℕ)
three =
    open_curly ∷ condition 1 ∷ or_token ∷ condition 2 ∷ or_token ∷ condition 3 ∷ close_curly ∷ []

third_lost : result (λ c. c == 3) (cexpr_from_node true three) ≡ some false
unfolding cexpr_from_node walk_tokens walk_token push_and_at push_or_at wrap_or push_curly pop_curly
    cexpr_run run_via run_both
third_lost = refl

-- 1 and (2 and 3 or 4), where all but 3 hold.
abbrev nested : List (Token ℕ)
nested =
    condition 1
    ∷ and_token
    ∷ open_curly
    ∷ condition 2
    ∷ and_token
    ∷ condition 3
    ∷ or_token
    ∷ condition 4
    ∷ close_curly
    ∷ []

alternative_lost : result (λ c. not (c == 3)) (cexpr_from_node true nested) ≡ some false
unfolding cexpr_from_node walk_tokens walk_token push_and_at push_or_at wrap_or push_curly pop_curly
    cexpr_run run_via run_both
alternative_lost = refl

-- 1 and 2 or 3 and 4 or 5
abbrev behind_one : List (Bool × ℕ)
behind_one = (false, 2) ∷ (true, 3) ∷ (false, 4) ∷ (true, 5) ∷ []

cexpr_from_node_lem_example :
    (t : Builder ℕ) × (root : ℕ) × (cexpr_from_node true (condition 1 ∷ tokens_behind behind_one)
      ≡ some (t, root))
    × (cexpr_run t.count (λ c. not (c == 2)) t.nodes root ≡ some true)
cexpr_from_node_lem_example = cexpr_from_node_lem (λ c. not (c == 2)) 1 behind_one
