-- ===== src/Lookup/Hash.antt =====
-- The two ways to look a series name up: `siridb_lookup_sn` and `siridb_lookup_sn_raw`.
use siridb_server.Base.{
  ℕ, zero, suc, ◌≡◌, ◌≢◌, refl, sym, ap, ◌∙◌, List, [], ◌∷◌, arith, length, get_or, All,
}
use siridb_server.Lookup.{Lookup, add_char, slot, hash_sn, hash_raw, lookup_sn, lookup_sn_raw}

add_char_comm : (n a b : ℕ) → add_char (add_char n a) b ≡ add_char (add_char n b) a
add_char_comm n a b = omega arith

hash_sn-cons : (n x : ℕ) (s : List ℕ) → x ≢ 0 → hash_sn n (x ∷ s) ≡ hash_sn (add_char n x) s
unfolding hash_sn
hash_sn-cons n x s h = ground arith

hash_sn-add_char :
    (n c : ℕ) (s : List ℕ)
    → All (λ x. x ≢ 0) s
    → hash_sn (add_char n c) s ≡ add_char (hash_sn n s) c
hash_sn-add_char n c [] h = unfold hash_sn in refl
hash_sn-add_char n c (x ∷ s) h =
    hash_sn-cons (add_char n c) x s h.0
    ∙ ap (λ k. hash_sn k s) (add_char_comm n c x)
    ∙ hash_sn-add_char (add_char n x) c s h.1
    ∙ ap (λ k. add_char k c) (sym (hash_sn-cons n x s h.0))

hash_raw-cons :
    (x : ℕ) (s : List ℕ) (k n : ℕ) → hash_raw (x ∷ s) (suc k) n ≡ add_char (hash_raw s k n) x
unfolding hash_raw
hash_raw-cons x s zero n = refl
hash_raw-cons x s (suc k) n = hash_raw-cons x s k (add_char n (get_or s k 0))

hash_sn-hash_raw : (s : List ℕ) (n : ℕ) → All (λ x. x ≢ 0) s → hash_sn n s ≡ hash_raw s (length s) n
hash_sn-hash_raw [] n h = unfold hash_sn hash_raw in refl
hash_sn-hash_raw (x ∷ s) n h =
    hash_sn-cons n x s h.0
    ∙ hash_sn-add_char n x s h.1
    ∙ ap (λ k. add_char k x) (hash_sn-hash_raw s n h.1)
    ∙ sym (hash_raw-cons x s (length s) n)

-- For a name without a zero byte, `siridb_lookup_sn` (forwards to the terminator) and
-- `siridb_lookup_sn_raw` (backwards over the given length) return the same pool, on any table.
pub lookup_sn-eq-raw :
    (l : Lookup) (s : List ℕ) → All (λ x. x ≢ 0) s → lookup_sn l s ≡ lookup_sn_raw l s (length s)
unfolding lookup_sn lookup_sn_raw
lookup_sn-eq-raw l s h = ap (slot l) (hash_sn-hash_raw s 0 h)
