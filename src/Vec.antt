-- ===== src/Vec.antt =====
-- src/vec/vec.c and include/vec/vec.h: a growing array of pointers.
-- `size` is the number of slots allocated; `items` are the first `len` of them, so that `len` is
-- the length of `items`. Memory is an argument: `mem` says whether the next allocation succeeds.
pub mod Laws
mod Tests
use siridb_server.Base.{
  ℕ, ◌+◌, ◌-◌, ◌*◌, ◌%◌, ◌^◌, Bool, true, false, Option, none, some, List, [], ◌∷◌, ◌++◌, ltb, leb,
  ◌==◌, if◌then◌else◌, length,
}

-- `VEC_DEFAULT_SIZE`
abbrev pub vec_default_size : ℕ
vec_default_size = 8

-- `VEC_MAX_SZ`
abbrev pub vec_max_sz : ℕ
vec_max_sz = 512

pub record Vec {ℓ} (A : Type ℓ) : Type ℓ where
  pub size : ℕ
  pub items : List A

-- The new size of a full array: double, or 512 more, or the default (`size_t` arithmetic).
abbrev pub grown_size : ℕ → ℕ
grown_size sz =
    if leb vec_default_size sz
    then (if leb sz vec_max_sz then sz * 2 else (sz + vec_max_sz) % 2 ^ 64)
    else vec_default_size

module _ {ℓ} {A : Type ℓ} where
  -- `vec_new`
  unfoldable pub vec_new : Bool → ℕ → Option (Vec A)
  vec_new mem size = if mem then some (record { size = size; items = [] }) else none

  -- `vec_copy`
  unfoldable pub vec_copy : Bool → Vec A → Option (Vec A)
  vec_copy mem source =
      if mem then some (record { size = source.size; items = source.items }) else none

  -- `vec_append`, which does not look at the size.
  abbrev pub vec_append : Vec A → A → Vec A
  vec_append vec x = record vec { items = vec.items ++ x ∷ [] }

  -- `vec_append_safe`: `true` stands for 0 and `false` for -1.
  pub vec_append_safe : Bool → Vec A → A → Bool × Vec A
  vec_append_safe mem vec x =
      if length vec.items == vec.size
      then (if mem
          then (true, vec_append (record vec { size = grown_size vec.size }) x)
          else (false, vec))
      else (true, vec_append vec x)

  -- `vec_compact`
  pub vec_compact : Bool → Vec A → Vec A
  vec_compact mem vec =
      if ltb vec_default_size ((vec.size + 2 ^ 64 - length vec.items) % 2 ^ 64)
      then (if mem then record vec { size = length vec.items + vec_default_size } else vec)
      else vec
