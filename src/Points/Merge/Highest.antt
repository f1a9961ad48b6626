-- ===== src/Points/Merge/Highest.antt =====
-- The series that `POINTS_sort_while_merge` picks.
use siridb_server.Base.{
  ℕ, suc, ◌+◌, ◌≤◌, ◌<◌, ◌≡◌, refl, true, false, List, [], ◌∷◌, arith, All, ◌∙◌, ap, subst, ltb,
  length, inl, inr, Bool-cases, get_or,
}
use siridb_server.Points.{Point, last_ts, highest_from, highest}

module _ {V : Type 0} where
  abbrev pub AtMost : ℕ → List (List (Point V)) → Type 0
  AtMost t plist = All (λ s. last_ts s ≤ t) plist

  AtMost-mono : (t u : ℕ) (plist : List (List (Point V))) → t ≤ u → AtMost t plist → AtMost u plist
  AtMost-mono t u [] h a = tt
  AtMost-mono t u (s ∷ rest) h a = (omega arith, AtMost-mono t u rest h a.1)

  entry : (plist : List (List (Point V))) (i j : ℕ) → i ≡ j → get_or plist i [] ≡ get_or plist j []
  entry plist i j e = ap (λ k. get_or plist k []) e

  -- `h` is a place where no series of `rest`, nor a time-stamp `ts`, is later.
  abbrev pub IsHighest : List (List (Point V)) → ℕ → List (List (Point V)) → ℕ → Type 0
  IsHighest full ts rest h =
      (h < length full)
      × (ts ≤ last_ts (get_or full h []))
      × AtMost (last_ts (get_or full h [])) rest

  highest_from_yes :
      (best ts i : ℕ) (s : List (Point V)) (rest : List (List (Point V)))
      → ltb ts (last_ts s) ≡ true
      → highest_from i (last_ts s) (i + 1) rest ≡ highest_from best ts i (s ∷ rest)
  unfolding highest_from
  highest_from_yes best ts i s rest e = rw e refl

  highest_from_no :
      (best ts i : ℕ) (s : List (Point V)) (rest : List (List (Point V)))
      → ltb ts (last_ts s) ≡ false
      → highest_from best ts (i + 1) rest ≡ highest_from best ts i (s ∷ rest)
  unfolding highest_from
  highest_from_no best ts i s rest e = rw e refl

  highest_from_lem :
      (full : List (List (Point V))) (best ts i : ℕ) (rest : List (List (Point V)))
      → ((j : ℕ) → get_or rest j [] ≡ get_or full (i + j) [])
      → ts ≡ last_ts (get_or full best [])
      → i + length rest ≡ length full
      → best < i
      → IsHighest full ts rest (highest_from best ts i rest)
  unfolding highest_from
  highest_from_lem full best ts i [] g e n b = (omega arith, omega arith, tt)
  highest_from_lem full best ts i (s ∷ rest) g e n b =
      let first : s ≡ get_or full i [] = g 0 ∙ entry full (i + 0) i (omega arith) in
      let later : (j : ℕ) → get_or rest j [] ≡ get_or full (i + 1 + j) [] =
        λ j. g (suc j) ∙ entry full (i + suc j) (i + 1 + j) (omega arith) in
      elim (Bool-cases (ltb ts (last_ts s))) [
        | inl less ↦
            let (k, l, m) =
              highest_from_lem full i (last_ts s) (i + 1) rest later (ap last_ts first)
                (omega arith) (omega arith) in
            subst (IsHighest full ts (s ∷ rest)) (highest_from_yes best ts i s rest less)
              (k, ground arith, (l, m))
        | inr more ↦
            let (k, l, m) =
              highest_from_lem full best ts (i + 1) rest later e (omega arith) (omega arith) in
            subst (IsHighest full ts (s ∷ rest)) (highest_from_no best ts i s rest more)
              (k, l, (ground arith, m))
      ]

  highest-cons :
      (s : List (Point V)) (rest : List (List (Point V)))
      → highest_from 0 (last_ts s) 1 rest ≡ highest (s ∷ rest)
  unfolding highest
  highest-cons s rest = refl

  pub highest_lem :
      (plist : List (List (Point V))) → 0 < length plist → IsHighest plist 0 plist (highest plist)
  highest_lem [] h = absurd (omega arith)
  highest_lem (s ∷ rest) h =
      let (k, l, m) =
        highest_from_lem (s ∷ rest) 0 (last_ts s) 1 rest
          (λ j. entry (s ∷ rest) (suc j) (1 + j) (omega arith)) refl (omega arith) (omega arith) in
      subst (IsHighest (s ∷ rest) 0 (s ∷ rest)) (highest-cons s rest) (k, omega arith, (l, m))
