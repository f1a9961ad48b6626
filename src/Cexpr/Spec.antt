-- ===== src/Cexpr/Spec.antt =====
-- The groups between two `or` of a condition without parentheses.
use siridb_server.Base.{◌≡◌, refl, ap, sym, ◌∙◌, Bool, true, false, ◌||◌, ◌&&◌, List, [], ◌∷◌}
use siridb_server.Cexpr.{Token, condition, and_token, or_token}

pub last_true : (b : Bool) → ((b && true) || false) ≡ b
last_true true = refl
last_true false = refl

first_group : (d k b : Bool) (g : Bool) → ((d || (k && b)) || g) ≡ (d || ((k && (b && true)) || g))
first_group true k b g = refl
first_group false false b g = refl
first_group false true true g = refl
first_group false true false g = refl

pub one_group : (d k b : Bool) → (d || (k && b)) ≡ (d || ((k && (b && true)) || false))
one_group true k b = refl
one_group false false b = refl
one_group false true b = sym (last_true b)

pub alone_group : (b g : Bool) → (b || g) ≡ ((b && true) || g)
alone_group true g = refl
alone_group false g = refl

module _ {C : Type 0} where
  -- A first condition, and others behind an `or` (true) or an `and` (false): the groups between the `or`.
  abbrev pub onto : C → List (List C) → List (List C)
  onto c [] = (c ∷ []) ∷ []
  onto c (g ∷ gs) = (c ∷ g) ∷ gs

  abbrev pub groups : C → List (Bool × C) → List (List C)
  groups c [] = (c ∷ []) ∷ []
  groups c ((true, y) ∷ rest) = (c ∷ []) ∷ groups y rest
  groups c ((false, y) ∷ rest) = onto c (groups y rest)

  abbrev pub all_hold : (C → Bool) → List C → Bool
  all_hold cb [] = true
  all_hold cb (c ∷ cs) = cb c && all_hold cb cs

  abbrev pub any_group : (C → Bool) → List (List C) → Bool
  any_group cb [] = false
  any_group cb (g ∷ gs) = all_hold cb g || any_group cb gs

  -- The tokens of such a condition.
  abbrev pub tokens_behind : List (Bool × C) → List (Token C)
  tokens_behind [] = []
  tokens_behind ((true, y) ∷ rest) = or_token ∷ condition y ∷ tokens_behind rest
  tokens_behind ((false, y) ∷ rest) = and_token ∷ condition y ∷ tokens_behind rest

  -- The groups, where `k` stands for what is before the first one.
  abbrev pub with_first : (C → Bool) → Bool → List (List C) → Bool
  with_first cb k [] = k
  with_first cb k (g ∷ gs) = (k && all_hold cb g) || any_group cb gs

  pub with_first-onto :
      (cb : C → Bool) (k : Bool) (x : C) (gs : List (List C))
      → with_first cb k (onto x gs) ≡ with_first cb (k && cb x) gs
  with_first-onto cb true x [] = last_true (cb x)
  with_first-onto cb false x [] = refl
  with_first-onto cb true x (g ∷ gs) = refl
  with_first-onto cb false x (g ∷ gs) = refl

  pub first_true-onto :
      (cb : C → Bool) (c : C) (gs : List (List C))
      → with_first cb true (onto c gs) ≡ any_group cb (onto c gs)
  first_true-onto cb c [] = refl
  first_true-onto cb c (g ∷ gs) = refl

  pub first_true-groups :
      (cb : C → Bool) (c : C) (rest : List (Bool × C))
      → with_first cb true (groups c rest) ≡ any_group cb (groups c rest)
  first_true-groups cb c [] = refl
  first_true-groups cb c ((true, y) ∷ rest) = refl
  first_true-groups cb c ((false, y) ∷ rest) = first_true-onto cb c (groups y rest)

  pub with_first-or :
      (cb : C → Bool) (d k : Bool) (x y : C) (rest : List (Bool × C))
      → ((d || (k && cb x)) || with_first cb true (groups y rest))
        ≡ (d || with_first cb k ((x ∷ []) ∷ groups y rest))
  with_first-or cb d k x y rest =
      ap (λ b. (d || (k && cb x)) || b) (first_true-groups cb y rest)
      ∙ first_group d k (cb x) (any_group cb (groups y rest))
