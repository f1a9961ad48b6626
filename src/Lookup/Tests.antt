-- ===== src/Lookup/Tests.antt =====
-- Concrete runs of the lookup table, and the theorems at concrete inputs.
use siridb_server.Base.{ℕ, ◌+◌, ◌/◌, ◌<◌, ◌≡◌, refl, ◌⊎◌, List, [], ◌∷◌, arith, length, All}
use siridb_server.Lookup.{
  lookup_sz, lookup_sn, lookup_sn_raw, hash_sn, pass, init_counters, grow_from, lookup_new,
}
use siridb_server.Lookup.Hash.{lookup_sn-eq-raw}
use siridb_server.Lookup.Grow.{lookup_new-IsValid, lookup_sn-stable}
use siridb_server.Lookup.Balance.{count, count-lookup_new}

-- The bytes of "cpu", and of a name with a byte above 127.
abbrev cpu : List ℕ
cpu = b'c' ∷ b'p' ∷ b'u' ∷ []

abbrev accented : List ℕ
accented = b'c' ∷ 195 ∷ 169 ∷ []

hash_accented : hash_sn 0 accented ≡ 4_294_967_247
unfolding hash_sn
hash_accented = refl

-- Six slots over three pools.
grow_three : grow_from 1 2 (0 ∷ 0 ∷ 0 ∷ 0 ∷ 0 ∷ 0 ∷ []) ≡ 0 ∷ 1 ∷ 0 ∷ 2 ∷ 2 ∷ 1 ∷ []
unfolding grow_from pass init_counters
grow_three = refl

lookup_sn-eq-raw_example :
    lookup_sn (lookup_new 3) accented ≡ lookup_sn_raw (lookup_new 3) accented 3
lookup_sn-eq-raw_example = lookup_sn-eq-raw (lookup_new 3) accented (omega arith)

lookup_new-IsValid_example : (length (lookup_new 3) ≡ lookup_sz) × All (λ p. p < 3) (lookup_new 3)
lookup_new-IsValid_example = lookup_new-IsValid 3 (omega arith)

lookup_sn-stable_example :
    (lookup_sn (lookup_new 3) cpu ≡ lookup_sn (lookup_new 2) cpu)
    ⊎ (lookup_sn (lookup_new 3) cpu ≡ 2)
lookup_sn-stable_example = lookup_sn-stable 2 cpu (omega arith) (omega arith)

count-lookup_new_example :
    count 1 (lookup_new 3) + (1 + count 1 (lookup_new 2)) / (2 + 1) ≡ count 1 (lookup_new 2)
count-lookup_new_example = count-lookup_new 2 1 (omega arith)
