-- ===== src/Qpack/Tests.antt =====
-- Objects written and read, broken bytes, and the theorems at concrete inputs.
use siridb_server.Base.{
  ℕ, suc, ◌-◌, ◌%◌, ◌^◌, ◌<◌, ◌≡◌, refl, true, some, List, [], ◌∷◌, ◌++◌, arith, length, ◌⊎◌,
}
use siridb_server.Qpack.{
  obj_int64, obj_raw, obj_overflow, unpack_err, next_sized, qp_next, skip_count, skip_array,
  skip_map, skip_rest, qp_skip_next,
}
use siridb_server.Qpack.Codes.{qp_raw, qp_map_open}
use siridb_server.Qpack.Pack.{
  Packer, int64_bytes, double_bytes, qp_add_raw, qp_add_int64, qp_add_double,
}
use siridb_server.Qpack.Pack.Bounds.{IsValid, qp_add-IsValid}
use siridb_server.Qpack.Scalars.{string, scalar_bytes, qp_next-scalar}
use siridb_server.Qpack.Skip.{SizesFit, qp_skip_next_lem}
use siridb_server.Qpack.File.{Stream, qp_fadd_raw, qp_fadd_int64, qp_fadd_double}
use siridb_server.Qpack.File.Same.{Appends, qp_fadd_lem}

-- -61, the first integer below those of one byte.
minus_61 :
    (int64_bytes (2 ^ 64 - 61) ≡ 232 ∷ 195 ∷ [])
    × (qp_next 1000 (232 ∷ 195 ∷ 7 ∷ []) ≡ (235, obj_int64 (2 ^ 64 - 61), 7 ∷ []))
unfolding qp_next next_sized
minus_61 = (refl, refl)

-- A string of 3 bytes of which 2 are there.
cut_off : qp_next 1000 (131 ∷ 97 ∷ 98 ∷ []) ≡ unpack_err (97 ∷ 98 ∷ [])
unfolding qp_next
cut_off = refl

-- {"a": [1, 2], "b": 3} as an open map with an array of two, and a byte behind it.
abbrev nested : List ℕ
nested = 253 ∷ 129 ∷ 97 ∷ 239 ∷ 1 ∷ 2 ∷ 129 ∷ 98 ∷ 3 ∷ 255 ∷ 9 ∷ []

skip_nested : qp_skip_next 1000 (suc (length nested)) nested ≡ some (qp_map_open, 9 ∷ [])
unfolding qp_skip_next skip_rest skip_map skip_array skip_count qp_next next_sized
skip_nested = refl

-- An array that is never closed ends with the bytes.
skip_open : qp_skip_next 1000 4 (252 ∷ 1 ∷ 2 ∷ []) ≡ some (252, [])
unfolding qp_skip_next skip_rest skip_map skip_array skip_count qp_next next_sized
skip_open = refl

qp_next-scalar_example :
    qp_next 1000 (scalar_bytes (string (104 ∷ 105 ∷ [])) ++ 5 ∷ [])
    ≡ (qp_raw, obj_raw (104 ∷ 105 ∷ []), 5 ∷ [])
qp_next-scalar_example = qp_next-scalar 1000 (string (104 ∷ 105 ∷ [])) (5 ∷ []) (omega arith)

nested-SizesFit : SizesFit 1000 nested
nested-SizesFit = ground arith

-- Bytes on which the code may not come to an end: the size 2 ^ 64 - 9 leads back to the 231.
size_overflows :
    (qp_next 1000 (231 ∷ 247 ∷ 255 ∷ 255 ∷ 255 ∷ 255 ∷ 255 ∷ 255 ∷ 255 ∷ [])).1 ≡ obj_overflow
unfolding qp_next next_sized
size_overflows = refl

qp_skip_next_lem_example :
    (tp : ℕ) × (rest : List ℕ) × (qp_skip_next 1000 (suc (length nested)) nested ≡ some (tp, rest))
    × ((length rest < length nested) ⊎ ((nested ≡ []) × (rest ≡ [])))
qp_skip_next_lem_example = qp_skip_next_lem 1000 nested (omega arith) nested-SizesFit

abbrev small : Packer
small = record { buffer_size = 4; alloc_size = 4; bytes = 1 ∷ 2 ∷ 3 ∷ [] }

small-IsValid : IsValid small
small-IsValid = record { within = omega arith; allocates = omega arith }

qp_add-IsValid_example :
    IsValid (qp_add_raw true small (7 ∷ 8 ∷ [])).1
    × IsValid (qp_add_int64 true small 300).1
    × IsValid (qp_add_double true small 300).1
qp_add-IsValid_example = qp_add-IsValid true small (7 ∷ 8 ∷ []) 300 small-IsValid

-- A file without end.
abbrev memory_file : Stream
memory_file = record {
  File = List ℕ;
  fputc = λ c f. (true, f ++ (c % 256) ∷ []);
  fwrite = λ bs f. (true, f ++ bs);
}

memory_file-Appends : Appends memory_file (λ f. f)
memory_file-Appends = record { put = λ c f e. refl; write = λ bs f e. refl }

qp_fadd_lem_example :
    ((qp_fadd_raw memory_file (7 ∷ 8 ∷ []) (1 ∷ [])).0 ≡ true
      → (qp_fadd_raw memory_file (7 ∷ 8 ∷ []) (1 ∷ [])).1 ≡ 1 ∷ 130 ∷ 7 ∷ 8 ∷ [])
    × ((qp_fadd_int64 memory_file 300 (1 ∷ [])).0 ≡ true
        → (qp_fadd_int64 memory_file 300 (1 ∷ [])).1 ≡ (1 ∷ []) ++ int64_bytes 300)
    × ((qp_fadd_double memory_file 300 (1 ∷ [])).0 ≡ true
        → (qp_fadd_double memory_file 300 (1 ∷ [])).1 ≡ (1 ∷ []) ++ double_bytes 300)
qp_fadd_lem_example =
    qp_fadd_lem memory_file (λ f. f) memory_file-Appends (7 ∷ 8 ∷ []) 300 (1 ∷ []) (omega arith)
