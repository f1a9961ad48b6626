-- ===== src/Base64.antt =====
-- src/base64/base64.c: encoding and decoding. A byte is a number below 256. Shifts and masks are
-- written as `/`, `%` and `*`, and an `|` of numbers without a common bit as `+`. `mem` says whether
-- the output is allocated. The final zero of the output, behind `*size`, is left out.
pub mod Inverse
mod Tests
use siridb_server.Base.{
  ℕ, zero, suc, ◌+◌, ◌-◌, ◌*◌, ◌/◌, ◌%◌, ◌^◌, Bool, true, false, not, ◌&&◌, ◌||◌, Option, none,
  some, List, [], ◌∷◌, ◌++◌, ltb, ◌==◌, if◌then◌else◌, length, get_or, drop,
}

-- `base64__idx`: what is not listed is 0.
abbrev pub base64_idx : List ℕ
base64_idx =
    0 ∷ 0 ∷ 0 ∷ 0 ∷ 0 ∷ 0 ∷ 0 ∷ 0 ∷ 0 ∷ 0 ∷ 0 ∷ 0 ∷ 0 ∷ 0 ∷ 0 ∷ 0 ∷ 0 ∷ 0 ∷ 0 ∷ 0 ∷ 0 ∷ 0 ∷ 0 ∷ 0
    ∷ 0 ∷ 0 ∷ 0 ∷ 0 ∷ 0 ∷ 0 ∷ 0 ∷ 0 ∷ 0 ∷ 0 ∷ 0 ∷ 0 ∷ 0 ∷ 0 ∷ 0 ∷ 0 ∷ 0 ∷ 0 ∷ 0 ∷ 62 ∷ 63 ∷ 62 ∷ 62
    ∷ 63 ∷ 52 ∷ 53 ∷ 54 ∷ 55 ∷ 56 ∷ 57 ∷ 58 ∷ 59 ∷ 60 ∷ 61 ∷ 0 ∷ 0 ∷ 0 ∷ 0 ∷ 0 ∷ 0 ∷ 0 ∷ 0 ∷ 1 ∷ 2
    ∷ 3 ∷ 4 ∷ 5 ∷ 6 ∷ 7 ∷ 8 ∷ 9 ∷ 10 ∷ 11 ∷ 12 ∷ 13 ∷ 14 ∷ 15 ∷ 16 ∷ 17 ∷ 18 ∷ 19 ∷ 20 ∷ 21 ∷ 22
    ∷ 23 ∷ 24 ∷ 25 ∷ 0 ∷ 0 ∷ 0 ∷ 0 ∷ 63 ∷ 0 ∷ 26 ∷ 27 ∷ 28 ∷ 29 ∷ 30 ∷ 31 ∷ 32 ∷ 33 ∷ 34 ∷ 35 ∷ 36
    ∷ 37 ∷ 38 ∷ 39 ∷ 40 ∷ 41 ∷ 42 ∷ 43 ∷ 44 ∷ 45 ∷ 46 ∷ 47 ∷ 48 ∷ 49 ∷ 50 ∷ 51 ∷ []

-- `base64__table`
abbrev pub base64_table : List ℕ
base64_table =
    65 ∷ 66 ∷ 67 ∷ 68 ∷ 69 ∷ 70 ∷ 71 ∷ 72 ∷ 73 ∷ 74 ∷ 75 ∷ 76 ∷ 77 ∷ 78 ∷ 79 ∷ 80 ∷ 81 ∷ 82 ∷ 83
    ∷ 84 ∷ 85 ∷ 86 ∷ 87 ∷ 88 ∷ 89 ∷ 90 ∷ 97 ∷ 98 ∷ 99 ∷ 100 ∷ 101 ∷ 102 ∷ 103 ∷ 104 ∷ 105 ∷ 106
    ∷ 107 ∷ 108 ∷ 109 ∷ 110 ∷ 111 ∷ 112 ∷ 113 ∷ 114 ∷ 115 ∷ 116 ∷ 117 ∷ 118 ∷ 119 ∷ 120 ∷ 121 ∷ 122
    ∷ 48 ∷ 49 ∷ 50 ∷ 51 ∷ 52 ∷ 53 ∷ 54 ∷ 55 ∷ 56 ∷ 57 ∷ 43 ∷ 47 ∷ []

abbrev pub idx : ℕ → ℕ
idx c = get_or base64_idx c 0

abbrev pub table : ℕ → ℕ
table i = get_or base64_table i 0

-- The loop of `base64_encode` and what follows it; 61 is '='.
unfoldable pub encode_bytes : List ℕ → List ℕ
encode_bytes [] = []
encode_bytes (x ∷ []) = table (x / 4) ∷ table (x % 4 * 16) ∷ 61 ∷ 61 ∷ []
encode_bytes (x ∷ y ∷ []) =
    table (x / 4) ∷ table (x % 4 * 16 + y / 16) ∷ table (y % 16 * 4) ∷ 61 ∷ []
encode_bytes (x ∷ y ∷ z ∷ rest) =
    table (x / 4)
    ∷ table (x % 4 * 16 + y / 16)
    ∷ table (y % 16 * 4 + z / 64)
    ∷ table (z % 64)
    ∷ encode_bytes rest

-- `base64_encode`: nothing where the length of the output overflows or memory is missing.
unfoldable pub base64_encode : Bool → List ℕ → Option (List ℕ)
base64_encode mem bytes =
    let olen = 4 * ((length bytes + 2) % 2 ^ 64 / 3) % 2 ^ 64 in
    if ltb olen (length bytes) then none else (if mem then some (encode_bytes bytes) else none)

-- `nn`, of the codes of four characters.
abbrev pub join_codes : ℕ → ℕ → ℕ → ℕ → ℕ
join_codes a b c d = a * 2 ^ 18 + b * 2 ^ 12 + c * 2 ^ 6 + d

-- The loop of `base64_decode` over `k` blocks of four characters. A read behind the end gives 0.
unfoldable pub decode_blocks : ℕ → List ℕ → List ℕ
decode_blocks zero p = []
decode_blocks (suc k) p =
    let nn =
      join_codes (idx (get_or p 0 0)) (idx (get_or p 1 0)) (idx (get_or p 2 0))
        (idx (get_or p 3 0)) in
    nn / 2 ^ 16 % 256 ∷ nn / 2 ^ 8 % 256 ∷ nn % 256 ∷ decode_blocks k (drop 4 p)

-- The last block, where it is not whole: `p` starts at `L`, and has `n - L` characters.
unfoldable pub decode_last : List ℕ → List ℕ
decode_last p =
    let nn = join_codes (idx (get_or p 0 0)) (idx (get_or p 1 0)) 0 0 in
    let nn' = join_codes (idx (get_or p 0 0)) (idx (get_or p 1 0)) (idx (get_or p 2 0)) 0 in
    nn / 2 ^ 16 % 256
    ∷ (if ltb 2 (length p) && not (get_or p 2 0 == 61) then nn' / 2 ^ 8 % 256 ∷ [] else [])

-- `pad`
unfoldable pub has_pad : List ℕ → Bool
has_pad p = ltb 0 (length p) && (not (length p % 4 == 0) || get_or p (length p - 1) 0 == 61)

-- The output of `base64_decode` for `blocks` whole blocks.
unfoldable pub decode_with : ℕ → Bool → List ℕ → List ℕ
decode_with blocks pad p =
    decode_blocks blocks p ++ (if pad then decode_last (drop (blocks * 4) p) else [])

-- `base64_decode`
unfoldable pub base64_decode : Bool → List ℕ → Option (List ℕ)
base64_decode mem p =
    if mem
    then some (decode_with ((length p + 3) / 4 - (if has_pad p then 1 else 0)) (has_pad p) p)
    else none
