-- ===== src/Lookup.antt =====
-- src/siri/db/lookup.c: the table of 8192 slots that assigns a series name to a pool.
-- `uint_fast16_t` has 64 bits on the supported platforms, and a counter of `siridb_lookup_new`
-- grows to at most num_pools + 8192: it cannot wrap, and is a plain number.
pub mod Hash
pub mod Grow
pub mod Balance
mod Tests
use siridb_server.Base.{
  ℕ, zero, suc, ◌+◌, ◌-◌, ◌%◌, ◌^◌, List, [], ◌∷◌, ltb, ◌==◌, if◌then◌else◌, get_or, set, replicate,
}

-- `SIRIDB_LOOKUP_SZ`
abbrev pub lookup_sz : ℕ
lookup_sz = 8192

-- A `siridb_lookup_t`: the pool of each slot.
abbrev pub Lookup : Type 0
Lookup = List ℕ

-- `n += c` for a `uint32_t n` and a (signed) `char c`, given as its byte.
abbrev pub add_char : ℕ → ℕ → ℕ
add_char n c = (n + (if ltb c 128 then c else 2 ^ 32 - 256 + c)) % 2 ^ 32

-- `for (; *sn; sn++) n += *sn`; the end of the list stands for the terminator too.
pub hash_sn : ℕ → List ℕ → ℕ
hash_sn n [] = n
hash_sn n (c ∷ cs) = let rest = hash_sn (add_char n c) cs in if c == 0 then n else rest

-- `while (len--) n += sn[len]`
pub hash_raw : List ℕ → ℕ → ℕ → ℕ
hash_raw s zero n = n
hash_raw s (suc len) n = hash_raw s len (add_char n (get_or s len 0))

-- The slot's pool, returned as a `uint16_t`.
abbrev pub slot : Lookup → ℕ → ℕ
slot l n = get_or l (n % lookup_sz) 0 % 2 ^ 16

-- `siridb_lookup_sn`
pub lookup_sn : Lookup → List ℕ → ℕ
lookup_sn l s = slot l (hash_sn 0 s)

-- `siridb_lookup_sn_raw`
pub lookup_sn_raw : Lookup → List ℕ → ℕ → ℕ
lookup_sn_raw l s len = slot l (hash_raw s len 0)

-- `counters[i] = i` for `i < n`, from `i` on.
pub init_counters : ℕ → ℕ → List ℕ
init_counters i zero = []
init_counters i (suc k) = i ∷ init_counters (i + 1) k

-- The inner loop: every (n + 1)th slot of a pool goes to pool `n`, counted from the pool's offset.
pub pass : ℕ → List ℕ → Lookup → Lookup
pass n counters [] = []
pass n counters (p ∷ ps) =
    let c = get_or counters p 0 + 1 in
    (if c % (n + 1) == 0 then n else p) ∷ pass n (set counters p c) ps

-- The outer loop with `k` rounds to go.
pub grow_from : ℕ → ℕ → Lookup → Lookup
grow_from n zero l = l
grow_from n (suc k) l = grow_from (n + 1) k (pass n (init_counters 0 n) l)

-- `siridb_lookup_new`, where `calloc` gives memory.
pub lookup_new : ℕ → Lookup
lookup_new num_pools = grow_from 1 (num_pools - 1) (replicate lookup_sz 0)
