-- ===== src/PointsZip/Size.antt =====
-- The size of a chunk, as it is written into `cinfo` and read back.
use siridb_server.Base.{
  ℕ, ◌+◌, ◌*◌, ◌/◌, ◌%◌, ◌^◌, ◌≤◌, ◌<◌, ◌≡◌, refl, sym, subst, none, some, arith, ltb, ◌==◌,
  if◌then◌else◌, Bool-cases, inl, inr,
}
use siridb_server.PointsZip.{set_cinfo_size, get_size_log, with_bit}

-- The number of blocks of 1024 bytes that hold `size` bytes.
abbrev pub blocks : ℕ → ℕ
blocks size = (if size % 1024 == 0 then 0 else 1) + size / 1024

set_cinfo_size-big :
    (size : ℕ)
    → 0x8000 ≤ size
    → size ≤ 0x2000000
    → set_cinfo_size size ≡ some (with_bit (blocks size) % 2 ^ 16, blocks size * 1024)
unfolding set_cinfo_size
set_cinfo_size-big size lo hi = ground arith

blocks-bounds : (size : ℕ) → (size ≤ blocks size * 1024) × (blocks size * 1024 < size + 1024)
blocks-bounds size = ground arith

get_size_log-small : (size : ℕ) → size < 2 ^ 15 → get_size_log (size % 2 ^ 16) ≡ size
unfolding get_size_log
get_size_log-small size h = ground arith

get_size_log-with_bit :
    (k : ℕ)
    → k < 2 ^ 15
    → (with_bit k % 2 ^ 16 < 2 ^ 16) × (get_size_log (with_bit k % 2 ^ 16) ≡ k * 1024)
unfolding get_size_log
get_size_log-with_bit k h = ground arith

-- A size up to 0x1fffc00 is taken, rounded up by less than 1024 where it is 0x8000 or more, and the
-- `cinfo`, which fits in 16 bits, gives the rounded size back; a size above 0x2000000 is refused.
pub set_cinfo_size_lem :
    (size : ℕ)
    → (size ≤ 0x1fffc00
        → (c : ℕ) × (s : ℕ) × (set_cinfo_size size ≡ some (c, s))
          × (c < 2 ^ 16)
          × (get_size_log c ≡ s)
          × (size ≤ s)
          × (s < size + 1024))
      × (0x2000000 < size → set_cinfo_size size ≡ none)
unfolding set_cinfo_size
set_cinfo_size_lem size = (
  λ h. elim (Bool-cases (ltb size 0x8000)) [
    | inl small ↦ (
      size % 2 ^ 16,
      size,
      rw small refl,
      omega arith,
      get_size_log-small size (ground arith),
      omega arith,
      omega arith,
    )
    | inr big ↦
        let (fits, back) =
          get_size_log-with_bit (blocks size) (omega (arith, blocks-bounds size)) in
        let (above, close) = blocks-bounds size in
        (
          with_bit (blocks size) % 2 ^ 16,
          blocks size * 1024,
          set_cinfo_size-big size (ground arith) (omega arith),
          fits,
          back,
          above,
          close,
        )
  ],
  λ h. ground arith,
)

-- A size above 0x1fffc00 and up to 0x2000000 is taken too, but its `cinfo` gives 0 back.
pub get_size_log-set_cinfo_size :
    (size : ℕ)
    → 0x1fffc00 < size
    → size ≤ 0x2000000
    → (c : ℕ) × (s : ℕ) × (set_cinfo_size size ≡ some (c, s))
      × (s ≡ 0x2000000)
      × (get_size_log c ≡ 0)
unfolding set_cinfo_size get_size_log
get_size_log-set_cinfo_size size lo hi =
    let full : blocks size ≡ 2 ^ 15 = omega (arith, blocks-bounds size) in
    (
      with_bit (blocks size) % 2 ^ 16,
      blocks size * 1024,
      set_cinfo_size-big size (omega arith) hi,
      omega (arith, full),
      subst (λ k. get_size_log (with_bit k % 2 ^ 16) ≡ 0) (sym full) refl,
    )
