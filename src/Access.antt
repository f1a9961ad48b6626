-- ===== src/Access.antt =====
-- src/siri/db/access.c, include/siri/db/access.h: the access rights of a user, a mask of bits, and their
-- names. A string is the list of its bytes without the final zero.
pub mod Masks
mod Tests
use siridb_server.Base.{
  ℕ, zero, suc, ◌+◌, ◌-◌, Bool, true, false, not, ◌&&◌, List, [], ◌∷◌, ◌++◌, ◌==◌, if◌then◌else◌,
}
use Prim.Native.Nat.{bit_and, bit_or}

-- `access_map`
abbrev pub access_map : List (List ℕ × ℕ)
access_map =
    (102 ∷ 117 ∷ 108 ∷ 108 ∷ [], 1023)
    ∷ (109 ∷ 111 ∷ 100 ∷ 105 ∷ 102 ∷ 121 ∷ [], 255)
    ∷ (119 ∷ 114 ∷ 105 ∷ 116 ∷ 101 ∷ [], 63)
    ∷ (114 ∷ 101 ∷ 97 ∷ 100 ∷ [], 15)
    ∷ (97 ∷ 108 ∷ 116 ∷ 101 ∷ 114 ∷ [], 64)
    ∷ (99 ∷ 111 ∷ 117 ∷ 110 ∷ 116 ∷ [], 2)
    ∷ (99 ∷ 114 ∷ 101 ∷ 97 ∷ 116 ∷ 101 ∷ [], 32)
    ∷ (100 ∷ 114 ∷ 111 ∷ 112 ∷ [], 128)
    ∷ (103 ∷ 114 ∷ 97 ∷ 110 ∷ 116 ∷ [], 256)
    ∷ (105 ∷ 110 ∷ 115 ∷ 101 ∷ 114 ∷ 116 ∷ [], 16)
    ∷ (108 ∷ 105 ∷ 115 ∷ 116 ∷ [], 4)
    ∷ (114 ∷ 101 ∷ 118 ∷ 111 ∷ 107 ∷ 101 ∷ [], 512)
    ∷ (115 ∷ 101 ∷ 108 ∷ 101 ∷ 99 ∷ 116 ∷ [], 8)
    ∷ (115 ∷ 104 ∷ 111 ∷ 119 ∷ [], 1)
    ∷ []

-- The bytes of `", "` and of `" and "`.
abbrev pub comma : List ℕ
comma = 44 ∷ 32 ∷ []

abbrev pub last_and : List ℕ
last_and = 32 ∷ 97 ∷ 110 ∷ 100 ∷ 32 ∷ []

-- `strncmp(repr, str, n) == 0`, for the `n` bytes of `str`.
abbrev pub same_start : List ℕ → List ℕ → Bool
same_start repr [] = true
same_start [] (c ∷ str) = c == 0
same_start (r ∷ repr) (c ∷ str) = r == c && same_start repr str

-- The loop of `siridb_access_from_strn`.
abbrev pub first_bit : List (List ℕ × ℕ) → List ℕ → ℕ
first_bit [] str = 0
first_bit ((repr, bit) ∷ entries) str =
    let later = first_bit entries str in if same_start repr str then bit else later

-- `siridb_access_from_strn`
unfoldable pub access_from_strn : List ℕ → ℕ
access_from_strn str = first_bit access_map str

-- `siridb_access_from_children`, on the strings of the children that are not separators.
unfoldable pub access_from_children : ℕ → List (List ℕ) → ℕ
access_from_children bits [] = bits
access_from_children bits (str ∷ strs) =
    access_from_children (bit_or bits (access_from_strn str)) strs

-- What goes before a name.
abbrev pub separator : List ℕ → ℕ → List ℕ
separator [] bits = []
separator (c ∷ str) bits = if bits == 0 then last_and else comma

-- One round of the loop of `siridb_access_to_str`: the string so far, and the bits that are left.
abbrev pub add_name : List ℕ × ℕ → List ℕ × ℕ → List ℕ × ℕ
add_name (repr, bit) (str, bits) =
    if not (bits == 0) && bit_and bits bit == bit
    then (str ++ (separator str (bits - bit) ++ repr), bits - bit)
    else (str, bits)

abbrev pub add_names : List (List ℕ × ℕ) → List ℕ × ℕ → List ℕ × ℕ
add_names [] r = r
add_names (entry ∷ entries) r = add_names entries (add_name entry r)

-- `no access`
abbrev pub no_access : List ℕ
no_access = 110 ∷ 111 ∷ 32 ∷ 97 ∷ 99 ∷ 99 ∷ 101 ∷ 115 ∷ 115 ∷ []

abbrev pub or_no_access : List ℕ → List ℕ
or_no_access [] = no_access
or_no_access (c ∷ str) = c ∷ str

-- `siridb_access_to_str`
unfoldable pub access_to_str : ℕ → List ℕ
access_to_str bits = or_no_access (add_names access_map ([], bits)).0
