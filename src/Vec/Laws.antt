-- ===== src/Vec/Laws.antt =====
-- The array stays within its allocation, and appends keep what it holds.
use siridb_server.Base.{
  ◌+◌, ◌^◌, ◌≤◌, ◌<◌, ◌≡◌, Bool, true, false, [], ◌∷◌, ◌++◌, arith, length, length-append,
}
use siridb_server.Vec.{Vec, vec_append_safe, vec_compact}

module _ {ℓ} {A : Type ℓ} where
  -- The items fit in the slots, and the size is far from the end of the address space.
  pub record IsValid (vec : Vec A) : Type 0 where
    pub fits : length vec.items ≤ vec.size
    pub small : vec.size < 2 ^ 63

  -- `vec_append_safe` on an array within its allocation fails only when memory runs out, and then
  -- changes nothing; else it puts the item at the end, and the array still fits.
  pub vec_append_safe_lem :
      (mem : Bool) (vec : Vec A) (x : A)
      → IsValid vec
      → let (done, vec') = vec_append_safe mem vec x in
        (length vec'.items ≤ vec'.size)
        × (done ≡ true → vec'.items ≡ vec.items ++ x ∷ [])
        × (done ≡ false → (mem ≡ false) × (length vec.items ≡ vec.size) × (vec' ≡ vec))
        × (mem ≡ true → done ≡ true)
  unfolding vec_append_safe
  vec_append_safe_lem mem vec x v = ground (arith, length-append vec.items (x ∷ []))

  -- `vec_compact` keeps the items and the bound; when memory can be moved, at most the default
  -- number of slots is left free.
  pub vec_compact_lem :
      (mem : Bool) (vec : Vec A)
      → IsValid vec
      → let vec' = vec_compact mem vec in
        (vec'.items ≡ vec.items)
        × (length vec'.items ≤ vec'.size)
        × (vec'.size ≤ vec.size)
        × (mem ≡ true → vec'.size ≤ length vec'.items + 8)
  unfolding vec_compact
  vec_compact_lem mem vec v = ground arith

  -- An append that succeeds adds the item at the end.
  pub items-vec_append_safe :
      (mem : Bool) (vec : Vec A) (x : A)
      → (vec_append_safe mem vec x).0 ≡ true
      → (vec_append_safe mem vec x).1.items ≡ vec.items ++ x ∷ []
  unfolding vec_append_safe
  items-vec_append_safe mem vec x h = ground arith

  -- With fewer than 2 ^ 32 items the array fits after an append.
  pub vec_append_safe-fits :
      (mem : Bool) (vec : Vec A) (x : A)
      → length vec.items ≤ vec.size
      → length vec.items < 2 ^ 32
      → length (vec_append_safe mem vec x).1.items ≤ (vec_append_safe mem vec x).1.size
  unfolding vec_append_safe
  vec_append_safe-fits mem vec x fits few = ground (arith, length-append vec.items (x ∷ []))
