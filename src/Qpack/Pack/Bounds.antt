-- ===== src/Qpack/Pack/Bounds.antt =====
-- The packer writes within its buffer.
use native.Mathlib.Nat.{lt-div-mul-add}
use siridb_server.Base.{
  ℕ, ◌+◌, ◌≤◌, ◌<◌, ◌≡◌, refl, Bool, true, List, ◌++◌, arith, ltb, if◌then◌else◌, length,
  length-append, length-to_bytes, Bool-cases, inl, inr,
}
use siridb_server.Qpack.Pack.{
  Packer, rounded, write, raw_head, int64_bytes, int64_room, double_bytes, qp_add_raw, qp_add_int64,
  qp_add_double,
}

-- The bytes lie in the buffer.
pub record IsValid (p : Packer) : Type 0 where
  pub within : length p.bytes ≤ p.buffer_size
  pub allocates : 0 < p.alloc_size

length-raw_head : (len : ℕ) → length (raw_head len) ≤ 9
length-raw_head len = ground (
  arith,
  length-to_bytes 1 len,
  length-to_bytes 2 len,
  length-to_bytes 4 len,
  length-to_bytes 8 len,
)

length-int64_bytes : (x : ℕ) → length (int64_bytes x) ≤ int64_room x
length-int64_bytes x =
    ground
      (arith, length-to_bytes 1 x, length-to_bytes 2 x, length-to_bytes 4 x, length-to_bytes 8 x)

length-double_bytes : (x : ℕ) → length (double_bytes x) ≤ 9
length-double_bytes x = ground (arith, length-to_bytes 8 x)

rounded-lt : (a n : ℕ) → 0 < a → n < rounded a n
rounded-lt a n h = omega (arith, lt-div-mul-add {a = n} {b = a} h)

-- A write of at most the bytes that room was made for: it fails only without memory, and then
-- nothing is written; else the bytes come behind the others. They lie in the buffer either way.
pub write_lem :
    (mem : Bool) (p : Packer) (n : ℕ) (bs : List ℕ)
    → IsValid p
    → length bs ≤ n
    → let (done, p') = write mem p n bs in
      IsValid p'
      × (p'.bytes ≡ (if done then p.bytes ++ bs else p.bytes))
      × (mem ≡ true → done ≡ true)
unfolding write
write_lem mem p n bs v h = elim (Bool-cases (ltb p.buffer_size (length p.bytes + n))) [
  | inl full ↦ elim (Bool-cases mem) [
    | inl m ↦
        rw (full, m, write)
          (
            record {
              within = omega (
                arith,
                length-append p.bytes bs,
                rounded-lt p.alloc_size (length p.bytes + n) v.allocates,
              );
              allocates = v.allocates;
            },
            refl,
            λ e. refl,
          )
    | inr m ↦
        rw (full, m, write) (record { within = omega arith; allocates = v.allocates }, refl, λ e. e)
  ]
  | inr room ↦
      rw (room, write)
        (
          record { within = ground (arith, length-append p.bytes bs); allocates = v.allocates },
          refl,
          λ e. refl,
        )
]

-- `qp_add_raw`, `qp_add_int64` and `qp_add_double` write within the buffer of a valid packer, and leave a
-- valid one, with or without memory.
pub qp_add-IsValid :
    (mem : Bool) (p : Packer) (raw : List ℕ) (x : ℕ)
    → IsValid p
    → IsValid (qp_add_raw mem p raw).1
      × IsValid (qp_add_int64 mem p x).1
      × IsValid (qp_add_double mem p x).1
unfolding qp_add_raw qp_add_int64 qp_add_double
qp_add-IsValid mem p raw x v = (
  (write_lem mem p (9 + length raw) (raw_head (length raw) ++ raw) v
      (omega (arith, length-append (raw_head (length raw)) raw, length-raw_head (length raw)))).0,
  (write_lem mem p (int64_room x) (int64_bytes x) v (length-int64_bytes x)).0,
  (write_lem mem p 9 (double_bytes x) v (length-double_bytes x)).0,
)
