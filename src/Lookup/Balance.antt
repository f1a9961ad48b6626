-- ===== src/Lookup/Balance.antt =====
-- How many slots each pool hands over to a new pool.
use siridb_server.Base.{
  ℕ, zero, suc, ◌+◌, ◌/◌, ◌%◌, ◌<◌, ◌≡◌, refl, List, [], ◌∷◌, arith, length, get_or, set, All,
  length-set, get_or-set_self, get_or-set_ne, ◌==◌, if◌then◌else◌, ℕ_discrete, ap,
}
use siridb_server.Lookup.{Lookup, init_counters, pass, lookup_new}
use siridb_server.Lookup.Grow.{lookup_new-suc, lookup_new-IsValid}

-- The number of slots of pool `p`.
abbrev pub count : ℕ → Lookup → ℕ
count p [] = 0
count p (x ∷ xs) = (if x == p then 1 else 0) + count p xs

div-suc : (c m : ℕ) → 0 < m → (c + 1) / m ≡ c / m + (if (c + 1) % m == 0 then 1 else 0)
div-suc c m h = grind arith

get_or-init_counters : (i k p : ℕ) → p < k → get_or (init_counters i k) p 0 ≡ i + p
unfolding init_counters
get_or-init_counters i zero p h = elim h [ ]
get_or-init_counters i (suc k) zero h = omega arith
get_or-init_counters i (suc k) (suc p) h = omega (arith, get_or-init_counters (i + 1) k p)

length-init_counters : (i k : ℕ) → length (init_counters i k) ≡ k
unfolding init_counters
length-init_counters i zero = refl
length-init_counters i (suc k) = ap suc (length-init_counters (i + 1) k)

count-pass :
    (n p : ℕ) (cs : List ℕ) (l : Lookup)
    → p < n
    → length cs ≡ n
    → All (λ q. q < n) l
    → count p (pass n cs l) + (get_or cs p 0 + count p l) / (n + 1)
      ≡ count p l + get_or cs p 0 / (n + 1)
unfolding pass
count-pass n p cs [] hp hc hl = grind arith
count-pass n p cs (q ∷ qs) hp hc hl = elim (ℕ_discrete q p) [
  | yes e ↦ ground (
    arith,
    count-pass n p (set cs q (get_or cs q 0 + 1)) qs hp,
    length-set cs q (get_or cs q 0 + 1),
    get_or-set_self cs q (get_or cs q 0 + 1) 0,
    div-suc (get_or cs q 0) (n + 1) (omega arith),
  )
  | no ne ↦ ground (
    arith,
    count-pass n p (set cs q (get_or cs q 0 + 1)) qs hp,
    length-set cs q (get_or cs q 0 + 1),
    get_or-set_ne cs {i = q} {j = p} (get_or cs q 0 + 1) 0 ne,
  )
]

-- When pool `k` is added, each old pool `p` hands over one in k + 1 of its slots, counted from its
-- own offset: exactly (p + c) / (k + 1) of its c slots, and keeps the rest.
pub count-lookup_new :
    (k p : ℕ)
    → p < k
    → count p (lookup_new (k + 1)) + (p + count p (lookup_new k)) / (k + 1) ≡ count p (lookup_new k)
count-lookup_new k p h =
    let e : get_or (init_counters 0 k) p 0 ≡ p = omega (arith, get_or-init_counters 0 k p h) in
    let none_yet : p / (k + 1) ≡ 0 = grind arith in
    let moved =
      count-pass k p (init_counters 0 k) (lookup_new k) h (length-init_counters 0 k)
        (lookup_new-IsValid k (omega arith)).1 in
    rw (lookup_new-suc k (omega arith)) (omega (arith, rw e at moved, none_yet))
