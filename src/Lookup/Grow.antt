-- ===== src/Lookup/Grow.antt =====
-- The table for one more pool: entries stay in range, and names move to the new pool only.
use siridb_server.Base.{
  ℕ, zero, suc, ◌+◌, ◌-◌, ◌%◌, ◌^◌, ◌<◌, ◌≡◌, refl, ap, subst, ◌⊎◌, inl, List, [], ◌∷◌, arith,
  length, get_or, set, replicate, All, length-replicate,
}
use siridb_server.Lookup.{
  Lookup, lookup_sz, init_counters, pass, grow_from, lookup_new, hash_sn, lookup_sn,
}

pass-All :
    (n : ℕ) (cs : List ℕ) (l : Lookup) → All (λ p. p < n) l → All (λ p. p < n + 1) (pass n cs l)
unfolding pass
pass-All n cs [] h = tt
pass-All n cs (p ∷ ps) h = (ground arith, pass-All n (set cs p (get_or cs p 0 + 1)) ps h.1)

length-pass : (n : ℕ) (cs : List ℕ) (l : Lookup) → length (pass n cs l) ≡ length l
unfolding pass
length-pass n cs [] = refl
length-pass n cs (p ∷ ps) = ap suc (length-pass n (set cs p (get_or cs p 0 + 1)) ps)

grow_from-All : (n k : ℕ) (l : Lookup) → All (λ p. p < n) l → All (λ p. p < n + k) (grow_from n k l)
unfolding grow_from
grow_from-All n zero l h = let e : n ≡ n + 0 = omega arith in subst (λ b. All (λ p. p < b) l) e h
grow_from-All n (suc k) l h =
    let e : n + 1 + k ≡ n + suc k = omega arith in
    let next = pass n (init_counters 0 n) l in
    subst (λ b. All (λ p. p < b) (grow_from (n + 1) k next)) e
      (grow_from-All (n + 1) k next (pass-All n (init_counters 0 n) l h))

length-grow_from : (n k : ℕ) (l : Lookup) → length (grow_from n k l) ≡ length l
unfolding grow_from
length-grow_from n zero l = refl
length-grow_from n (suc k) l = omega (
  arith,
  length-grow_from (n + 1) k (pass n (init_counters 0 n) l),
  length-pass n (init_counters 0 n) l,
)

All-replicate : (k : ℕ) → All (λ p. p < 1) (replicate k 0)
All-replicate zero = tt
All-replicate (suc k) = (omega arith, All-replicate k)

-- For at least one pool, the table has 8192 slots and each holds a pool below `num_pools`.
pub lookup_new-IsValid :
    (num_pools : ℕ)
    → 0 < num_pools
    → (length (lookup_new num_pools) ≡ lookup_sz) × All (λ p. p < num_pools) (lookup_new num_pools)
unfolding lookup_new
lookup_new-IsValid n h = (
  omega (
    arith,
    length-grow_from 1 (n - 1) (replicate lookup_sz 0),
    length-replicate lookup_sz (0 + 0),
  ),
  (let e : 1 + (n - 1) ≡ n = omega arith in
      subst (λ b. All (λ p. p < b) (grow_from 1 (n - 1) (replicate lookup_sz 0))) e
        (grow_from-All 1 (n - 1) (replicate lookup_sz 0) (All-replicate lookup_sz))),
)

-- One more pool is one more pass, over the table of the pools before.
grow_from-suc :
    (n k : ℕ) (l : Lookup)
    → grow_from n (suc k) l ≡ pass (n + k) (init_counters 0 (n + k)) (grow_from n k l)
unfolding grow_from
grow_from-suc n zero l = let e : n ≡ n + 0 = omega arith in ap (λ m. pass m (init_counters 0 m) l) e
grow_from-suc n (suc k) l =
    let e : n + 1 + k ≡ n + suc k = omega arith in
    let next = pass n (init_counters 0 n) l in
    subst
      (λ m. grow_from (n + 1) (suc k) next ≡ pass m (init_counters 0 m) (grow_from (n + 1) k next))
      e (grow_from-suc (n + 1) k next)

pub lookup_new-suc :
    (k : ℕ) → 0 < k → lookup_new (k + 1) ≡ pass k (init_counters 0 k) (lookup_new k)
unfolding lookup_new
lookup_new-suc zero h = elim h [ ]
lookup_new-suc (suc k) h =
    let e : suc k + 1 - 1 ≡ suc k = omega arith in
    let e' : suc k - 1 ≡ k = omega arith in
    let e'' : 1 + k ≡ suc k = omega arith in
    let l = replicate lookup_sz 0 in
    rw (e, e')
      (subst (λ m. grow_from 1 (suc k) l ≡ pass m (init_counters 0 m) (grow_from 1 k l)) e''
        (grow_from-suc 1 k l))

pass-moves :
    (n : ℕ) (cs : List ℕ) (l : Lookup) (i : ℕ)
    → (get_or (pass n cs l) i 0 ≡ get_or l i 0) ⊎ (get_or (pass n cs l) i 0 ≡ n)
unfolding pass
pass-moves n cs [] i = inl refl
pass-moves n cs (p ∷ ps) zero = ground arith
pass-moves n cs (p ∷ ps) (suc i) = pass-moves n (set cs p (get_or cs p 0 + 1)) ps i

-- When pool `k` is added to the pools 0 … k - 1, every series name keeps its pool or moves to the
-- new pool `k`: none moves between old pools.
pub lookup_sn-stable :
    (k : ℕ) (s : List ℕ)
    → 0 < k
    → k < 2 ^ 16
    → (lookup_sn (lookup_new (k + 1)) s ≡ lookup_sn (lookup_new k) s)
      ⊎ (lookup_sn (lookup_new (k + 1)) s ≡ k)
unfolding lookup_sn
lookup_sn-stable k s h small =
    rw (lookup_new-suc k h)
      (ground (arith, pass-moves k (init_counters 0 k) (lookup_new k) (hash_sn 0 s % lookup_sz)))
