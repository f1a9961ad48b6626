-- ===== src/Qpack.antt =====
-- src/qpack/qpack.c and include/qpack/qpack.h: the packer and the unpacker of the binary format.
-- A type code is its number. An int64_t and a double are their 64-bit words (two's complement, IEEE
-- 754). The unpacker is the list of the bytes from `pt` to `end`, and the address `top` of `end`, so that
-- `pt` is `top` less the number of the bytes. `mem` says whether `realloc` gives memory.
pub mod Codes
pub mod Pack
pub mod File
pub mod Scalars
pub mod Skip
mod Tests
use siridb_server.Base.{
  ℕ, zero, suc, ◌+◌, ◌-◌, ◌*◌, ◌/◌, ◌%◌, ◌^◌, Bool, true, false, ◌&&◌, ◌||◌, Option, none, some,
  List, [], ◌∷◌, ◌++◌, ltb, leb, ◌==◌, if◌then◌else◌, length, take, drop, to_bytes, of_bytes,
}
use Codes.{
  qp_end, qp_err, qp_raw, qp_int64, qp_double, qp_array0, qp_array5, qp_map0, qp_map5,
  qp_array_open, qp_map_open, qp_array_close, qp_map_close,
}

-- What an unpacker leaves in a `qp_obj_t`: an integer, a double, a string, or the type alone; or
-- `pt + size` overflows: C leaves it undefined what follows, and commonly the test of the size passes and `pt`
-- goes back.
pub data Obj : Type 0 where
  obj_int64 obj_double : ℕ → Obj
  obj_raw : List ℕ → Obj
  obj_type : ℕ → Obj
  obj_overflow : Obj

-- The type that is returned, the object, and the bytes that are left.
abbrev pub Next : Type 0
Next = ℕ × Obj × List ℕ

-- `QP_UNPACK_CHECK_SZ`, where the size does not fit.
abbrev pub unpack_err : List ℕ → Next
unpack_err bs = (qp_err, obj_type qp_err, bs)

-- `QP_UNPACK_CHECK_SZ` of a size above the number of the bytes.
abbrev pub unpack_fail : ℕ → ℕ → List ℕ → Next
unpack_fail top size bs =
    if ltb (top - length bs + size) (2 ^ 64) then unpack_err bs else (qp_raw, obj_overflow, bs)

-- A string of `size` bytes.
abbrev pub unpack_bytes : ℕ → ℕ → List ℕ → Next
unpack_bytes top size bs =
    if ltb (length bs) size
    then unpack_fail top size bs
    else (qp_raw, obj_raw (take size bs), drop size bs)

-- `QP_UNPACK_RAW`, with a size of `k` bytes.
abbrev pub unpack_raw : ℕ → ℕ → List ℕ → Next
unpack_raw top k bs =
    if ltb (length bs) k then unpack_fail top k bs else unpack_bytes top (of_bytes k bs) (drop k bs)

-- `(int64_t) *((intx_t *) pt)`: the sign is bit `w - 1` of the `w` bits.
abbrev pub sign_extend : ℕ → ℕ → ℕ
sign_extend w x = if ltb x (2 ^ (w - 1)) then x else 2 ^ 64 - 2 ^ w + x

-- `QP_UNPACK_INT`, with an integer of `k` bytes.
abbrev pub unpack_int : ℕ → ℕ → List ℕ → Next
unpack_int top k bs =
    if ltb (length bs) k
    then unpack_fail top k bs
    else (qp_int64, obj_int64 (sign_extend (8 * k) (of_bytes k bs)), drop k bs)

-- The case of a double.
abbrev pub unpack_double : ℕ → List ℕ → Next
unpack_double top bs =
    if ltb (length bs) 8
    then unpack_fail top 8 bs
    else (qp_double, obj_double (of_bytes 8 bs), drop 8 bs)

-- The words of -1.0, 0.0 and 1.0: `(double) (tp - 126)`.
abbrev pub fixed_double : ℕ → ℕ
fixed_double tp =
    if tp == 125 then 0xbff0000000000000 else (if tp == 126 then 0 else 0x3ff0000000000000)

-- The cases of the switch of `qp_next` from 228 on.
unfoldable pub next_sized : ℕ → ℕ → List ℕ → Next
next_sized top tp bs =
    if tp == 228
    then unpack_raw top 1 bs
    else (if tp == 229
        then unpack_raw top 2 bs
        else (if tp == 230
            then unpack_raw top 4 bs
            else (if tp == 231
                then unpack_raw top 8 bs
                else (if tp == 232
                    then unpack_int top 1 bs
                    else (if tp == 233
                        then unpack_int top 2 bs
                        else (if tp == 234
                            then unpack_int top 4 bs
                            else (if tp == 235
                                then unpack_int top 8 bs
                                else (if tp == 236
                                    then unpack_double top bs
                                    else (tp, obj_type tp, bs)))))))))

-- `qp_next`
unfoldable pub qp_next : ℕ → List ℕ → Next
qp_next top [] = (qp_end, obj_type qp_end, [])
qp_next top (tp ∷ bs) =
    if ltb tp 64
    then (qp_int64, obj_int64 tp, bs)
    else (if ltb tp 124
        then (qp_int64, obj_int64 (2 ^ 64 + 63 - tp), bs)
        else (if tp == 124
            then (124, obj_type 124, bs)
            else (if ltb tp 128
                then (qp_double, obj_double (fixed_double tp), bs)
                else (if ltb tp 228
                    then unpack_bytes top (tp - 128) bs
                    else next_sized top tp bs))))

-- `qp_current`
unfoldable pub qp_current : List ℕ → ℕ
qp_current [] = qp_end
qp_current (tp ∷ bs) =
    if ltb tp 124
    then qp_int64
    else (if tp == 124
        then 124
        else (if ltb tp 128
            then qp_double
            else (if ltb tp 232 then qp_raw else (if ltb tp 236 then qp_int64 else tp))))

-- What a call of `qp_skip_next` gives: the type and the bytes that are left; nothing when the fuel,
-- a bound on the depth of the recursion, runs out, or a size overflows.
abbrev pub Skip : Type 0
Skip = Option (ℕ × List ℕ)

-- `while (count--) qp_skip_next(unpacker)`
unfoldable pub skip_count : (List ℕ → Skip) → ℕ → List ℕ → Option (List ℕ)
skip_count step zero bs = some bs
skip_count step (suc n) bs = elim (step bs) [ none ↦ none | some r ↦ skip_count step n r.1 ]

-- `while (tp && tp != QP_ARRAY_CLOSE) tp = qp_skip_next(unpacker)`, at most `g` times.
unfoldable pub skip_array : (List ℕ → Skip) → ℕ → ℕ → List ℕ → Option (List ℕ)
skip_array step zero tp bs = none
skip_array step (suc g) tp bs =
    if tp == qp_end || tp == qp_array_close
    then some bs
    else (elim (step bs) [ none ↦ none | some r ↦ skip_array step g r.0 r.1 ])

-- The loop of an open map: a value, and the next key.
unfoldable pub skip_map : (List ℕ → Skip) → ℕ → ℕ → List ℕ → Option (List ℕ)
skip_map step zero tp bs = none
skip_map step (suc g) tp bs =
    if tp == qp_end || tp == qp_map_close then some bs else (elim (step bs) [
      | none ↦ none
      | some v ↦ elim (step v.1) [ none ↦ none | some k ↦ skip_map step g k.0 k.1 ]
    ])

abbrev pub with_type : ℕ → Option (List ℕ) → Skip
with_type tp none = none
with_type tp (some bs) = some (tp, bs)

-- The switch of `qp_skip_next`, on the type that `qp_next` returned.
unfoldable pub skip_rest : (List ℕ → Skip) → ℕ → ℕ → List ℕ → Skip
skip_rest step g tp bs =
    if leb qp_array0 tp && leb tp qp_array5
    then with_type tp (skip_count step (tp - qp_array0) bs)
    else (if leb qp_map0 tp && leb tp qp_map5
        then with_type tp (skip_count step ((tp - qp_map0) * 2) bs)
        else (if tp == qp_array_open
            then with_type tp (skip_array step g tp bs)
            else (if tp == qp_map_open
                then (elim (step bs) [
                  | none ↦ none
                  | some k ↦ with_type tp (skip_map step g k.0 k.1)
                ])
                else some (tp, bs))))

abbrev pub overflowed : Obj → Bool
overflowed (obj_int64 x) = false
overflowed (obj_double x) = false
overflowed (obj_raw l) = false
overflowed (obj_type tp) = false
overflowed obj_overflow = true

-- `qp_skip_next`; where a size overflows it is not followed further.
unfoldable pub qp_skip_next : ℕ → ℕ → List ℕ → Skip
qp_skip_next top zero bs = none
qp_skip_next top (suc fuel) bs =
    let (tp, obj, rest) = qp_next top bs in
    let skipped = skip_rest (qp_skip_next top fuel) (suc fuel) tp rest in
    if overflowed obj then none else skipped
