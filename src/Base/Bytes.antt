-- ===== src/Base/Bytes.antt =====
-- Words in memory: `memcpy` between an unsigned integer and its bytes, the lowest first.
use Prim.Native.Nat.{ℕ, zero, suc, ◌+◌, ◌*◌, ◌/◌, ◌%◌, ◌<◌}
use mathlib.Core.Path.{◌≡◌, refl}
use mathlib.Core.List.{List, [], ◌∷◌, ◌++◌}
use native.Mathlib.Omega.{arith}
use siridb_server.Base.Lists.{length, drop}

-- `memcpy` of an integer to `n` bytes.
abbrev pub to_bytes : ℕ → ℕ → List ℕ
to_bytes zero x = []
to_bytes (suc n) x = x % 256 ∷ to_bytes n (x / 256)

-- `memcpy` from `n` bytes to an integer.
abbrev pub of_bytes : ℕ → List ℕ → ℕ
of_bytes zero bits = 0
of_bytes (suc n) [] = 0
of_bytes (suc n) (b ∷ bits) = b + 256 * of_bytes n bits

abbrev pub pow256 : ℕ → ℕ
pow256 zero = 1
pow256 (suc n) = 256 * pow256 n

pub of_bytes-to_bytes :
    (n x : ℕ) (rest : List ℕ) → x < pow256 n → of_bytes n (to_bytes n x ++ rest) ≡ x
of_bytes-to_bytes zero x rest h = omega arith
of_bytes-to_bytes (suc n) x rest h = omega (arith, of_bytes-to_bytes n (x / 256) rest (omega arith))

pub drop-to_bytes : (n x : ℕ) (rest : List ℕ) → drop n (to_bytes n x ++ rest) ≡ rest
drop-to_bytes zero x rest = refl
drop-to_bytes (suc n) x rest = drop-to_bytes n (x / 256) rest

pub length-to_bytes : (n x : ℕ) → length (to_bytes n x) ≡ n
length-to_bytes zero x = refl
length-to_bytes (suc n) x = omega (arith, length-to_bytes n (x / 256))
