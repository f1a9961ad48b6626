-- ===== src/Qpack/Scalars.antt =====
-- `qp_next` reads what `qp_add_int64`, `qp_add_double` and `qp_add_raw` write.
use mathlib.Core.List.{append_assoc}
use siridb_server.Base.{
  ℕ, ◌+◌, ◌-◌, ◌*◌, ◌^◌, ◌≤◌, ◌<◌, ◌≡◌, refl, ap, ap₂, ◌∙◌, true, false, ◌||◌, List, [], ◌∷◌, ◌++◌,
  arith, ltb, leb, ◌==◌, if◌then◌else◌, length, take-append, drop-append, length-append,
  length-to_bytes, to_bytes, of_bytes, drop-to_bytes, of_bytes-to_bytes, Bool-cases, inl, inr,
  lt→ltb, leb→le,
}
use siridb_server.Qpack.{
  Obj, obj_int64, obj_double, obj_raw, obj_type, unpack_bytes, unpack_raw, unpack_int, sign_extend,
  next_sized, qp_next,
}
use siridb_server.Qpack.Codes.{qp_int64, qp_double, qp_raw, qp_true, qp_null}
use siridb_server.Qpack.Pack.{raw_head, fits, int64_bytes, double_bytes}

ge→ltb : (a b : ℕ) → b ≤ a → ltb a b ≡ false
ge→ltb a b h = ground arith

enough : (k x : ℕ) (rest : List ℕ) → ltb (length (to_bytes k x ++ rest)) k ≡ false
enough k x rest = ge→ltb _ _ (omega (arith, length-append (to_bytes k x) rest, length-to_bytes k x))

unpack_int-to_bytes :
    (top k x y : ℕ) (rest : List ℕ)
    → sign_extend (8 * k) (of_bytes k (to_bytes k x ++ rest)) ≡ y
    → unpack_int top k (to_bytes k x ++ rest) ≡ (qp_int64, obj_int64 y, rest)
unpack_int-to_bytes top k x y rest h =
    rw (enough k x rest) (ap₂ (λ v r. (qp_int64, obj_int64 v, r)) h (drop-to_bytes k x rest))

sign_extend-whole : (v x : ℕ) → v ≡ x → sign_extend 64 v ≡ x
sign_extend-whole v x e = ground arith

sign_extend-fits :
    (x : ℕ) (rest : List ℕ)
    → x < 2 ^ 64
    → (fits 8 x ≡ true → sign_extend 8 (of_bytes 1 (to_bytes 1 x ++ rest)) ≡ x)
      × (fits 16 x ≡ true → sign_extend 16 (of_bytes 2 (to_bytes 2 x ++ rest)) ≡ x)
      × (fits 32 x ≡ true → sign_extend 32 (of_bytes 4 (to_bytes 4 x ++ rest)) ≡ x)
      × (sign_extend 64 (of_bytes 8 (to_bytes 8 x ++ rest)) ≡ x)
sign_extend-fits x rest h = (
  λ f. ground arith,
  λ f. ground arith,
  λ f. ground arith,
  sign_extend-whole _ x (of_bytes-to_bytes 8 x rest h),
)

fixed_negative :
    (top x : ℕ) (rest : List ℕ)
    → x < 2 ^ 64
    → 2 ^ 64 - 60 ≤ x
    → qp_next top ((2 ^ 64 + 63 - x) ∷ rest) ≡ (qp_int64, obj_int64 x, rest)
unfolding qp_next
fixed_negative top x rest h lo =
    let low : ltb (2 ^ 64 + 63 - x) 64 ≡ false = ge→ltb _ _ (omega arith) in
    let high : ltb (2 ^ 64 + 63 - x) 124 ≡ true = ground arith in
    rw (low, high) (ap (λ v. (qp_int64, obj_int64 v, rest)) (omega arith))

qp_next-int64_bytes :
    (top x : ℕ) (rest : List ℕ)
    → x < 2 ^ 64
    → qp_next top (int64_bytes x ++ rest) ≡ (qp_int64, obj_int64 x, rest)
unfolding qp_next next_sized
qp_next-int64_bytes top x rest h =
    let (f8, f16, f32, f64) = sign_extend-fits x rest h in
    elim (Bool-cases (fits 8 x)) [
      | inl e ↦ elim (Bool-cases (ltb x 64)) [
        | inl small ↦ rw (e, small) (rw small refl)
        | inr large ↦ elim (Bool-cases (leb (2 ^ 64 - 60) x)) [
          | inl neg ↦ rw (e, large, neg) (fixed_negative top x rest h (ground arith))
          | inr other ↦ rw (e, large, other) (unpack_int-to_bytes top 1 x x rest (f8 e))
        ]
      ]
      | inr e ↦ elim (Bool-cases (fits 16 x)) [
        | inl e' ↦ rw (e, e') (unpack_int-to_bytes top 2 x x rest (f16 e'))
        | inr e' ↦ elim (Bool-cases (fits 32 x)) [
          | inl e'' ↦ rw (e, e', e'') (unpack_int-to_bytes top 4 x x rest (f32 e''))
          | inr e'' ↦ rw (e, e', e'') (unpack_int-to_bytes top 8 x x rest f64)
        ]
      ]
    ]

-- A double comes back as its word, but -0.0 as 0.0.
abbrev pub plain_zero : ℕ → ℕ
plain_zero x = if x == 2 ^ 63 then 0 else x

qp_next-double_bytes :
    (top x : ℕ) (rest : List ℕ)
    → x < 2 ^ 64
    → qp_next top (double_bytes x ++ rest) ≡ (qp_double, obj_double (plain_zero x), rest)
unfolding qp_next next_sized
qp_next-double_bytes top x rest h = elim (Bool-cases (x == 0 || x == 2 ^ 63)) [
  | inl z ↦ rw z (ap (λ v. (qp_double, obj_double v, rest)) (ground arith))
  | inr nz ↦ elim (Bool-cases (x == 0x3ff0000000000000)) [
    | inl one ↦ rw (nz, one) (ap (λ v. (qp_double, obj_double v, rest)) (ground arith))
    | inr no_one ↦ elim (Bool-cases (x == 0xbff0000000000000)) [
      | inl neg ↦ rw (nz, no_one, neg) (ap (λ v. (qp_double, obj_double v, rest)) (ground arith))
      | inr other ↦
          rw (nz, no_one, other, enough 8 x rest)
            (ap₂ (λ v r. (qp_double, obj_double v, r)) (of_bytes-to_bytes 8 x rest h ∙ ground arith)
              (drop-to_bytes 8 x rest))
    ]
  ]
]

unpack_bytes-append :
    (top : ℕ) (raw rest : List ℕ)
    → unpack_bytes top (length raw) (raw ++ rest) ≡ (qp_raw, obj_raw raw, rest)
unpack_bytes-append top raw rest =
    rw (ge→ltb (length (raw ++ rest)) (length raw) (omega (arith, length-append raw rest)))
      (ap₂ (λ a b. (qp_raw, obj_raw a, b)) (take-append raw rest) (drop-append raw rest))

unpack_raw-append :
    (top k : ℕ) (raw rest : List ℕ)
    → of_bytes k (to_bytes k (length raw) ++ (raw ++ rest)) ≡ length raw
    → unpack_raw top k (to_bytes k (length raw) ++ (raw ++ rest)) ≡ (qp_raw, obj_raw raw, rest)
unpack_raw-append top k raw rest h = rw (enough k (length raw) (raw ++ rest)) (
    ap₂ (unpack_bytes top) h (drop-to_bytes k (length raw) (raw ++ rest))
    ∙ unpack_bytes-append top raw rest)

qp_next-fixed_raw :
    (top len : ℕ) (bs : List ℕ)
    → len < 100
    → qp_next top ((128 + len) ∷ bs) ≡ unpack_bytes top len bs
unfolding qp_next
qp_next-fixed_raw top len bs h =
    let not_int : ltb (128 + len) 64 ≡ false = ge→ltb _ 64 (omega arith) in
    let not_neg : ltb (128 + len) 124 ≡ false = ge→ltb _ 124 (omega arith) in
    let not_hook : (128 + len == 124) ≡ false = ground arith in
    let not_double : ltb (128 + len) 128 ≡ false = ge→ltb _ 128 (omega arith) in
    let fixed : ltb (128 + len) 228 ≡ true = lt→ltb _ 228 (omega arith) in
    rw (not_int, not_neg, not_hook, not_double, fixed)
      (ap (λ n. unpack_bytes top n bs) (omega arith))

qp_next-raw_head :
    (top : ℕ) (raw rest : List ℕ)
    → length raw < 2 ^ 64
    → qp_next top (raw_head (length raw) ++ (raw ++ rest)) ≡ (qp_raw, obj_raw raw, rest)
unfolding qp_next next_sized
qp_next-raw_head top raw rest h =
    let len = length raw in
    elim (Bool-cases (ltb len 100)) [
      | inl tiny ↦ rw tiny (
          qp_next-fixed_raw top len (raw ++ rest) (ground arith) ∙ unpack_bytes-append top raw rest)
      | inr e ↦ elim (Bool-cases (leb len 0xff)) [
        | inl f ↦
            rw (e, f)
              (unpack_raw-append top 1 raw rest
                (of_bytes-to_bytes 1 len (raw ++ rest) (omega (arith, leb→le _ _ f))))
        | inr f ↦ elim (Bool-cases (leb len 0xffff)) [
          | inl g ↦
              rw (e, f, g)
                (unpack_raw-append top 2 raw rest
                  (of_bytes-to_bytes 2 len (raw ++ rest) (omega (arith, leb→le _ _ g))))
          | inr g ↦ elim (Bool-cases (leb len 0xffffffff)) [
            | inl k ↦
                rw (e, f, g, k)
                  (unpack_raw-append top 4 raw rest
                    (of_bytes-to_bytes 4 len (raw ++ rest) (omega (arith, leb→le _ _ k))))
            | inr k ↦
                rw (e, f, g, k)
                  (unpack_raw-append top 8 raw rest (of_bytes-to_bytes 8 len (raw ++ rest) h))
          ]
        ]
      ]
    ]

-- What the packer writes without brackets.
pub data Scalar : Type 0 where
  integer double : ℕ → Scalar
  string : List ℕ → Scalar
  yes_no_null : ℕ → Scalar

abbrev pub IsScalar : Scalar → Type 0
IsScalar (integer x) = x < 2 ^ 64
IsScalar (double x) = x < 2 ^ 64
IsScalar (string raw) = length raw < 2 ^ 64
IsScalar (yes_no_null tp) = (qp_true ≤ tp) × (tp ≤ qp_null)

-- The bytes that `qp_add_int64`, `qp_add_double`, `qp_add_raw`, and `qp_add_true`, `qp_add_false` and
-- `qp_add_null` add.
abbrev pub scalar_bytes : Scalar → List ℕ
scalar_bytes (integer x) = int64_bytes x
scalar_bytes (double x) = double_bytes x
scalar_bytes (string raw) = raw_head (length raw) ++ raw
scalar_bytes (yes_no_null tp) = tp ∷ []

abbrev pub scalar_type : Scalar → ℕ
scalar_type (integer x) = qp_int64
scalar_type (double x) = qp_double
scalar_type (string raw) = qp_raw
scalar_type (yes_no_null tp) = tp

abbrev pub scalar_obj : Scalar → Obj
scalar_obj (integer x) = obj_int64 x
scalar_obj (double x) = obj_double (plain_zero x)
scalar_obj (string raw) = obj_raw raw
scalar_obj (yes_no_null tp) = obj_type tp

qp_next-plain :
    (top tp : ℕ) (rest : List ℕ) → 237 ≤ tp → qp_next top (tp ∷ rest) ≡ (tp, obj_type tp, rest)
unfolding qp_next next_sized
qp_next-plain top tp rest lo = ground arith

-- A 64-bit integer, a double, a string of less than 2 ^ 64 bytes, true, false or null that the packer
-- wrote is read by `qp_next` with its type and value, and the reader stops behind it, whatever
-- follows. Only -0.0 comes back as 0.0.
pub qp_next-scalar :
    (top : ℕ) (s : Scalar) (rest : List ℕ)
    → IsScalar s
    → qp_next top (scalar_bytes s ++ rest) ≡ (scalar_type s, scalar_obj s, rest)
qp_next-scalar top (integer x) rest h = qp_next-int64_bytes top x rest h
qp_next-scalar top (double x) rest h = qp_next-double_bytes top x rest h
qp_next-scalar top (string raw) rest h =
    ap (qp_next top) (append_assoc (raw_head (length raw)) raw rest)
    ∙ qp_next-raw_head top raw rest h
qp_next-scalar top (yes_no_null tp) rest h = qp_next-plain top tp rest (omega (arith, h.0))
