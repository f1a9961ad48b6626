-- ===== src/Omap.antt =====
-- src/omap/omap.c: a map from 64-bit ids to pointers, as a linked list in the order of the ids.
-- The head node and its chain of `next_` pointers are the list of entries; no node is shared.
-- A stored pointer is never NULL. `mem` says whether `omap__new` gets memory.
pub mod Laws
mod Tests
use siridb_server.Base.{
  ℕ, ◌+◌, ◌-◌, Bool, true, false, Option, none, some, List, [], ◌∷◌, ltb, ◌==◌, if◌then◌else◌,
}

-- The return codes of omap.h.
pub data OmapRc : Type 0 where
  success err_exist err_alloc : OmapRc

pub record Omap {ℓ} (A : Type ℓ) : Type ℓ where
  pub n : ℕ
  pub entries : List (ℕ × A)

module _ {ℓ} {A : Type ℓ} where
  -- Each of the four walks is the loop `for (; cur->next_ && cur->next_->id_ < id; …)` and then what
  -- its function does behind `cur`.
  pub add_from : Bool → ℕ → A → List (ℕ × A) → OmapRc × List (ℕ × A)
  add_from mem id x [] = if mem then (success, (id, x) ∷ []) else (err_alloc, [])
  add_from mem id x ((j, y) ∷ rest) =
      let (rc, rest') = add_from mem id x rest in
      if ltb j id
      then (rc, (j, y) ∷ rest')
      else (if j == id
          then (err_exist, (j, y) ∷ rest)
          else (if mem then (success, (id, x) ∷ (j, y) ∷ rest) else (err_alloc, (j, y) ∷ rest)))

  -- The pointer that is returned, whether a node was added, and the entries.
  pub set_from : Bool → ℕ → A → List (ℕ × A) → Option A × Bool × List (ℕ × A)
  set_from mem id x [] = if mem then (some x, true, (id, x) ∷ []) else (none, false, [])
  set_from mem id x ((j, y) ∷ rest) =
      let (r, added, rest') = set_from mem id x rest in
      if ltb j id
      then (r, added, (j, y) ∷ rest')
      else (if j == id
          then (some y, false, (j, x) ∷ rest)
          else (if mem
              then (some x, true, (id, x) ∷ (j, y) ∷ rest)
              else (none, false, (j, y) ∷ rest)))

  pub get_from : ℕ → List (ℕ × A) → Option A
  get_from id [] = none
  get_from id ((j, y) ∷ rest) =
      let later = get_from id rest in if ltb j id then later else (if j == id then some y else none)

  pub rm_from : ℕ → List (ℕ × A) → Option A × List (ℕ × A)
  rm_from id [] = (none, [])
  rm_from id ((j, y) ∷ rest) =
      let (r, rest') = rm_from id rest in
      if ltb j id
      then (r, (j, y) ∷ rest')
      else (if j == id then (some y, rest) else (none, (j, y) ∷ rest))

  -- `omap_add`
  pub omap_add : Bool → Omap A → ℕ → A → OmapRc × Omap A
  omap_add mem m id x =
      let (rc, entries) = add_from mem id x m.entries in
      (rc, record { n = elim rc [ success ↦ m.n + 1 | _ ↦ m.n ]; entries = entries })

  -- `omap_set`
  pub omap_set : Bool → Omap A → ℕ → A → Option A × Omap A
  omap_set mem m id x =
      let (r, added, entries) = set_from mem id x m.entries in
      (r, record { n = (if added then m.n + 1 else m.n); entries = entries })

  -- `omap_get`
  pub omap_get : Omap A → ℕ → Option A
  omap_get m id = get_from id m.entries

  -- `omap_rm` with `omap__rm`
  pub omap_rm : Omap A → ℕ → Option A × Omap A
  omap_rm m id =
      let (r, entries) = rm_from id m.entries in
      (r, record { n = elim r [ some _ ↦ m.n - 1 | none ↦ m.n ]; entries = entries })
