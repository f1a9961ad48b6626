-- ===== src/Base/Range.antt =====
-- Tests of all numbers of a small range.
use Prim.Native.Nat.{ℕ, zero, suc, ◌+◌, ◌<◌, ◌≤◌}
use mathlib.Core.Path.{◌≡◌, subst}
use mathlib.Core.Bool.{Bool, true, ◌&&◌}
use native.Mathlib.Omega.{arith}
use native.Mathlib.Decide.{ℕ_discrete}

-- The test passes for `count` numbers from `low` on.
abbrev pub every : (ℕ → Bool) → ℕ → ℕ → Bool
every test low zero = true
every test low (suc count) = test low && every test (low + 1) count

pub every_lem :
    (test : ℕ → Bool) (low count v : ℕ)
    → every test low count ≡ true
    → low ≤ v
    → v < low + count
    → test v ≡ true
every_lem test low zero v e lo hi = absurd (omega arith)
every_lem test low (suc count) v e lo hi = elim (ℕ_discrete low v) [
  | yes same ↦ subst (λ u. test u ≡ true) same (ground arith)
  | no other ↦ every_lem test (low + 1) count v (ground arith) (omega arith) (omega arith)
]
