-- ===== src/Qpack/Pack.antt =====
-- src/qpack/qpack.c: the packer. Its buffer has `buffer_size` bytes, and the first `len` of them are
-- `bytes`, so that `len` is their number. A result `false` stands for -1.
pub mod Bounds
use siridb_server.Base.{
  ℕ, ◌+◌, ◌-◌, ◌*◌, ◌/◌, ◌%◌, ◌^◌, Bool, true, false, ◌||◌, ◌&&◌, Option, none, some, List, [], ◌∷◌,
  ◌++◌, ltb, leb, ◌==◌, if◌then◌else◌, length, take, to_bytes,
}
use siridb_server.Qpack.{qp_skip_next}
use siridb_server.Qpack.Codes.{qp_true, qp_false, qp_null}

pub record Packer : Type 0 where
  pub buffer_size : ℕ
  pub alloc_size : ℕ
  pub bytes : List ℕ

-- `qp_packer_new`
unfoldable pub qp_packer_new : Bool → ℕ → Option Packer
qp_packer_new mem alloc_size =
    if mem
    then some (record { buffer_size = alloc_size; alloc_size = alloc_size; bytes = [] })
    else none

-- The buffer size for `n` bytes.
abbrev pub rounded : ℕ → ℕ → ℕ
rounded alloc_size n = (n / alloc_size + 1) * alloc_size

-- `QP_RESIZE`
abbrev pub resize : Bool → Packer → ℕ → Bool × Packer
resize mem p n =
    if ltb p.buffer_size (length p.bytes + n)
    then (if mem
        then (true, record p { buffer_size = rounded p.alloc_size (length p.bytes + n) })
        else (false, record p { buffer_size = length p.bytes }))
    else (true, p)

-- Make room for `n` bytes, and write some.
unfoldable pub write : Bool → Packer → ℕ → List ℕ → Bool × Packer
write mem p n bs =
    let (done, p') = resize mem p n in
    if done then (true, record p' { bytes = p'.bytes ++ bs }) else (false, p')

-- What `QP_PREPARE_RAW` writes before a string of `len` bytes.
abbrev pub raw_head : ℕ → List ℕ
raw_head len =
    if ltb len 100
    then (128 + len) ∷ []
    else (if leb len 0xff
        then 228 ∷ to_bytes 1 len
        else (if leb len 0xffff
            then 229 ∷ to_bytes 2 len
            else (if leb len 0xffffffff then 230 ∷ to_bytes 4 len else 231 ∷ to_bytes 8 len)))

-- `qp_add_raw`
unfoldable pub qp_add_raw : Bool → Packer → List ℕ → Bool × Packer
qp_add_raw mem p raw = write mem p (9 + length raw) (raw_head (length raw) ++ raw)

-- `qp_add_raw_term`
unfoldable pub qp_add_raw_term : Bool → Packer → List ℕ → Bool × Packer
qp_add_raw_term mem p raw =
    write mem p (9 + (length raw + 1)) (raw_head (length raw + 1) ++ (raw ++ 0 ∷ []))

-- The word of an integer that the cast to `w` bits keeps.
abbrev pub fits : ℕ → ℕ → Bool
fits w x = ltb x (2 ^ (w - 1)) || leb (2 ^ 64 - 2 ^ (w - 1)) x

-- The bytes of an integer: 63 - i8 is 2 ^ 64 + 63 - x for the word x of a negative i8.
abbrev pub int64_bytes : ℕ → List ℕ
int64_bytes x =
    if fits 8 x
    then (if ltb x 64
        then x ∷ []
        else (if leb (2 ^ 64 - 60) x then (2 ^ 64 + 63 - x) ∷ [] else 232 ∷ to_bytes 1 x))
    else (if fits 16 x
        then 233 ∷ to_bytes 2 x
        else (if fits 32 x then 234 ∷ to_bytes 4 x else 235 ∷ to_bytes 8 x))

-- The room that is made for it.
abbrev pub int64_room : ℕ → ℕ
int64_room x = if fits 8 x then 2 else (if fits 16 x then 3 else (if fits 32 x then 5 else 9))

-- `qp_add_int64`
unfoldable pub qp_add_int64 : Bool → Packer → ℕ → Bool × Packer
qp_add_int64 mem p x = write mem p (int64_room x) (int64_bytes x)

-- The bytes of a double: 0.0 == -0.0.
abbrev pub double_bytes : ℕ → List ℕ
double_bytes x =
    if x == 0 || x == 2 ^ 63
    then 126 ∷ []
    else (if x == 0x3ff0000000000000
        then 127 ∷ []
        else (if x == 0xbff0000000000000 then 125 ∷ [] else 236 ∷ to_bytes 8 x))

-- `qp_add_double`
unfoldable pub qp_add_double : Bool → Packer → ℕ → Bool × Packer
qp_add_double mem p x = write mem p 9 (double_bytes x)

-- `qp_add_type`, and `QP_PLAIN_OBJ` in `qp_add_true`, `qp_add_false` and `qp_add_null`.
unfoldable pub qp_add_type : Bool → Packer → ℕ → Bool × Packer
qp_add_type mem p tp = write mem p 1 (tp ∷ [])

unfoldable pub qp_add_true : Bool → Packer → Bool × Packer
qp_add_true mem p = write mem p 1 (qp_true ∷ [])

unfoldable pub qp_add_false : Bool → Packer → Bool × Packer
qp_add_false mem p = write mem p 1 (qp_false ∷ [])

unfoldable pub qp_add_null : Bool → Packer → Bool × Packer
qp_add_null mem p = write mem p 1 (qp_null ∷ [])

-- `qp_packer_extend`
unfoldable pub qp_packer_extend : Bool → Packer → Packer → Bool × Packer
qp_packer_extend mem p source = write mem p (length source.bytes) source.bytes

-- `qp_packer_extend_fu`: the bytes of the next object. With them, those that the unpacker has left;
-- nothing when the fuel runs out or a size overflows. `top` is the address of the end of the bytes.
unfoldable pub qp_packer_extend_fu :
    Bool → ℕ → ℕ → Packer → List ℕ → Option (Bool × Packer × List ℕ)
qp_packer_extend_fu mem top fuel p bs = elim (qp_skip_next top fuel bs) [
  | none ↦ none
  | some r ↦
      let size = length bs - length r.1 in
      let (done, p') = write mem p size (take size bs) in some (done, p', r.1)
]
