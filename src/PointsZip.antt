-- ===== src/PointsZip.antt =====
-- src/siri/db/points.c and include/siri/db/points.h: the sizes that are kept in a chunk's `cinfo`, the
-- raw form of a chunk of points, and the interval of a series.
-- A value is the 64-bit word of the union `qp_via_t`; memory is given.
pub mod Size
pub mod Raw
pub mod Interval
mod Tests
use siridb_server.Base.{
  to_bytes, of_bytes, ℕ, zero, suc, ◌+◌, ◌-◌, ◌*◌, ◌/◌, ◌%◌, ◌^◌, Bool, true, false, ◌&&◌, ◌||◌,
  Option, none, some, List, [], ◌∷◌, ◌++◌, ltb, leb, ◌==◌, if◌then◌else◌, length, get_or, take,
  drop,
}
use siridb_server.Points.{Point, add_point}

-- `c | 0x8000` and `c ^ 0x8000`: set and flip bit 15.
abbrev pub with_bit : ℕ → ℕ
with_bit c = if c / 2 ^ 15 % 2 == 0 then c + 2 ^ 15 else c

abbrev pub flip_bit : ℕ → ℕ
flip_bit c = if c / 2 ^ 15 % 2 == 0 then c + 2 ^ 15 else c - 2 ^ 15

-- `POINTS_set_cinfo_size`: `cinfo` (a uint16_t) and the new size, or NULL for -1.
unfoldable pub set_cinfo_size : ℕ → Option (ℕ × ℕ)
set_cinfo_size size =
    if ltb size 0x8000
    then some (size % 2 ^ 16, size)
    else (if ltb 0x2000000 size
        then none
        else (let sz = (if size % 1024 == 0 then 0 else 1) + size / 1024 in
            some (with_bit sz % 2 ^ 16, sz * 1024)))

-- `siridb_points_get_size_log`
unfoldable pub get_size_log : ℕ → ℕ
get_size_log cinfo = if cinfo / 2 ^ 15 % 2 == 0 then cinfo else flip_bit cinfo * 1024

-- The loop of `POINTS_zip_raw`.
unfoldable pub zip_points : List (Point ℕ) → List ℕ
zip_points [] = []
zip_points (p ∷ rest) = to_bytes 8 p.ts ++ (to_bytes 8 p.val ++ zip_points rest)

-- `POINTS_zip_raw`: the bytes, `cinfo` and the size.
unfoldable pub zip_raw : List (Point ℕ) → ℕ → ℕ → List ℕ × ℕ × ℕ
zip_raw points start end =
    (zip_points (take (end - start) (drop start points)), 0xffff, (end - start) * 16)

-- `start_ts == NULL || p.ts >= *start_ts` and `end_ts == NULL || p.ts < *end_ts`.
abbrev pub in_range : Option ℕ → Option ℕ → ℕ → Bool
in_range start_ts end_ts ts =
    (elim start_ts [ none ↦ true | some s ↦ leb s ts ])
    && (elim end_ts [ none ↦ true | some e ↦ ltb ts e ])

-- The loop of `POINTS_unzip_raw`, with `len` rounds to go.
unfoldable pub unzip_loop :
    List (Point ℕ) → List ℕ → ℕ → Option ℕ → Option ℕ → Bool → List (Point ℕ)
unzip_loop points bits zero start_ts end_ts has_overlap = points
unzip_loop points bits (suc len) start_ts end_ts has_overlap =
    let p : Point ℕ = record { ts = of_bytes 8 bits; val = of_bytes 8 (drop 8 bits) } in
    let points' =
      if in_range start_ts end_ts p.ts
      then (if has_overlap then add_point points p else points ++ p ∷ [])
      else points in
    unzip_loop points' (drop 16 bits) len start_ts end_ts has_overlap

-- `POINTS_unzip_raw`; `len` is a uint16_t.
abbrev pub unzip_raw : List (Point ℕ) → List ℕ → ℕ → Option ℕ → Option ℕ → Bool → List (Point ℕ)
unzip_raw points bits len start_ts end_ts has_overlap =
    unzip_loop points bits (len % 2 ^ 16) start_ts end_ts has_overlap

-- One round of the loop of `siridb_points_get_interval`: `x` goes in front of what is larger, in an
-- array that is listed from its end.
unfoldable pub insert_interval : ℕ → List ℕ → List ℕ
insert_interval x [] = x ∷ []
insert_interval x (y ∷ down) =
    let rest = insert_interval x down in if ltb x y then y ∷ rest else x ∷ y ∷ down

-- The loop with `n` rounds to go: the differences of the time-stamps, in order, the largest first.
unfoldable pub intervals : ℕ → List (Point ℕ) → List ℕ → List ℕ
intervals zero points arr = arr
intervals (suc n) [] arr = arr
intervals (suc n) (p ∷ []) arr = arr
intervals (suc n) (p ∷ q ∷ rest) arr =
    intervals n (q ∷ rest) (insert_interval ((q.ts + 2 ^ 64 - p.ts) % 2 ^ 64) arr)

-- `arr[i]` where `arr` is listed from its end.
abbrev pub at_place : List ℕ → ℕ → ℕ
at_place arr i = get_or arr (length arr - 1 - i) 0

-- The three quartiles and what follows them; `TOLERANCE_INTERVAL_DETECT` is 10.
abbrev pub steady_or_zero : ℕ → ℕ → ℕ → ℕ
steady_or_zero a b c =
    let x = b / (100 / 10) in
    if ltb ((a + x) % 2 ^ 64) b || ltb b ((c + 2 ^ 64 - x) % 2 ^ 64) then 0 else b

-- `siridb_points_get_interval`
unfoldable pub get_interval : List (Point ℕ) → ℕ
get_interval points =
    if ltb (length points) 8
    then 0
    else (let n = if ltb 63 (length points - 1) then 63 else length points - 1 in
        let arr = intervals n points [] in
        steady_or_zero (at_place arr (n / 4)) (at_place arr (n / 2))
          (at_place arr (n / 2 * 2 - n / 4)))
