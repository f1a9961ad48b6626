-- ===== src/Qpack/Skip.antt =====
-- `qp_skip_next` comes to an end on any bytes of which no size overflows.
use siridb_server.Base.{
  ℕ, suc, zero, ◌+◌, ◌-◌, ◌*◌, ◌≤◌, ◌<◌, ◌≡◌, refl, ap, Bool, true, false, ◌||◌, ◌&&◌, Option, none,
  some, List, [], ◌∷◌, arith, ltb, leb, ◌==◌, if◌then◌else◌, length, drop, of_bytes, pow256,
  Bool-cases, lt→ltb, ◌≢◌, ◌^◌, inl, inr, ◌⊎◌,
}
use siridb_server.Qpack.{
  Next, Skip, overflowed, unpack_fail, unpack_bytes, unpack_raw, unpack_int, unpack_double,
  next_sized, qp_next, skip_count, skip_array, skip_map, with_type, skip_rest, qp_skip_next,
}
use siridb_server.Qpack.Codes.{
  qp_end, qp_array0, qp_array5, qp_map0, qp_map5, qp_array_open, qp_map_open, qp_array_close,
  qp_map_close,
}

length-drop : (n : ℕ) (xs : List ℕ) → length (drop n xs) ≤ length xs
length-drop zero xs = omega arith
length-drop (suc n) [] = omega arith
length-drop (suc n) (x ∷ xs) = omega (arith, length-drop n xs)

-- The bytes are bytes, and no size of eight bytes overflows where the bytes end at the address `top`.
abbrev pub SizesFit : ℕ → List ℕ → Type 0
SizesFit top [] = Unit
SizesFit top (b ∷ bs) = (b < 256) × ((b ≢ 231) ⊎ (top + of_bytes 8 bs < 2 ^ 64)) × SizesFit top bs

drop-SizesFit : (top n : ℕ) (bs : List ℕ) → SizesFit top bs → SizesFit top (drop n bs)
drop-SizesFit top zero bs h = h
drop-SizesFit top (suc n) [] h = tt
drop-SizesFit top (suc n) (b ∷ bs) h = drop-SizesFit top n bs h.2

of_bytes_bound : (top k : ℕ) (bs : List ℕ) → SizesFit top bs → of_bytes k bs < pow256 k
of_bytes_bound top zero bs h = omega arith
of_bytes_bound top (suc k) [] h = omega (arith, of_bytes_bound top k [] tt)
of_bytes_bound top (suc k) (b ∷ bs) h = omega (arith, h.0, of_bytes_bound top k bs h.2)

-- What an unpacker leaves is no longer than the bytes that it had, and nothing overflowed.
abbrev Leaves : ℕ → List ℕ → Next → Type 0
Leaves top bs r = (length r.2 ≤ length bs) × SizesFit top r.2 × (overflowed r.1 ≡ false)

unpack_fail-Leaves :
    (top size : ℕ) (bs : List ℕ)
    → SizesFit top bs
    → top + size < 2 ^ 64
    → Leaves top bs (unpack_fail top size bs)
unpack_fail-Leaves top size bs h small =
    let whole : ltb (top - length bs + size) (2 ^ 64) ≡ true = lt→ltb _ _ (omega (arith, small)) in
    rw whole (omega arith, h, refl)

unpack_bytes-Leaves :
    (top size : ℕ) (bs : List ℕ)
    → SizesFit top bs
    → top + size < 2 ^ 64
    → Leaves top bs (unpack_bytes top size bs)
unpack_bytes-Leaves top size bs h small = elim (Bool-cases (ltb (length bs) size)) [
  | inl e ↦ rw e (unpack_fail-Leaves top size bs h small)
  | inr e ↦ rw e (length-drop size bs, drop-SizesFit top size bs h, refl)
]

unpack_raw-Leaves :
    (top k : ℕ) (bs : List ℕ)
    → SizesFit top bs
    → top + k < 2 ^ 64
    → top + of_bytes k bs < 2 ^ 64
    → Leaves top bs (unpack_raw top k bs)
unpack_raw-Leaves top k bs h small fits = elim (Bool-cases (ltb (length bs) k)) [
  | inl e ↦ rw e (unpack_fail-Leaves top k bs h small)
  | inr e ↦
      let r = unpack_bytes-Leaves top (of_bytes k bs) (drop k bs) (drop-SizesFit top k bs h) fits in
      rw e (omega (arith, length-drop k bs, r.0), r.1, r.2)
]

unpack_int-Leaves :
    (top k : ℕ) (bs : List ℕ)
    → SizesFit top bs
    → top + k < 2 ^ 64
    → Leaves top bs (unpack_int top k bs)
unpack_int-Leaves top k bs h small = elim (Bool-cases (ltb (length bs) k)) [
  | inl e ↦ rw e (unpack_fail-Leaves top k bs h small)
  | inr e ↦ rw e (length-drop k bs, drop-SizesFit top k bs h, refl)
]

unpack_double-Leaves :
    (top : ℕ) (bs : List ℕ)
    → SizesFit top bs
    → top + 8 < 2 ^ 64
    → Leaves top bs (unpack_double top bs)
unpack_double-Leaves top bs h small = elim (Bool-cases (ltb (length bs) 8)) [
  | inl e ↦ rw e (unpack_fail-Leaves top 8 bs h small)
  | inr e ↦ rw e (length-drop 8 bs, drop-SizesFit top 8 bs h, refl)
]

if-both {ℓ} :
    {A : Type ℓ} (P : A → Type 0) (b : Bool) (x y : A) → P x → P y → P (if b then x else y)
if-both P true x y px py = px
if-both P false x y px py = py

if-when {ℓ} :
    {A : Type ℓ} (P : A → Type 0) (b : Bool) (x y : A)
    → (b ≡ true → P x)
    → P y
    → P (if b then x else y)
if-when P true x y px py = px refl
if-when P false x y px py = py

next_sized-Leaves :
    (top tp : ℕ) (bs : List ℕ)
    → SizesFit top (tp ∷ bs)
    → top + 2 ^ 32 ≤ 2 ^ 64
    → Leaves top bs (next_sized top tp bs)
unfolding next_sized
next_sized-Leaves top tp bs (byte, large, h) low =
    let both = if-both (Leaves top bs) in
    let raw = λ (k : ℕ) (small : k ≤ 4) (bound : of_bytes k bs < 2 ^ 32).
      unpack_raw-Leaves top k bs h (omega (arith, low, small)) (omega (arith, low, bound)) in
    let fits : (tp == 231) ≡ true → top + of_bytes 8 bs < 2 ^ 64 =
      λ e. elim large [ inl other ↦ absurd (other (ground (arith, e))) | inr f ↦ f ] in
    both (tp == 228) _ _ (raw 1 (omega arith) (omega (arith, of_bytes_bound top 1 bs h))) (
      both (tp == 229) _ _ (raw 2 (omega arith) (omega (arith, of_bytes_bound top 2 bs h))) (
        both (tp == 230) _ _ (raw 4 (omega arith) (omega (arith, of_bytes_bound top 4 bs h))) (
          if-when (Leaves top bs) (tp == 231) _ _
            (λ e. unpack_raw-Leaves top 8 bs h (omega (arith, low)) (fits e))
            (both (tp == 232) _ _ (unpack_int-Leaves top 1 bs h (omega (arith, low))) (
              both (tp == 233) _ _ (unpack_int-Leaves top 2 bs h (omega (arith, low))) (
                both (tp == 234) _ _ (unpack_int-Leaves top 4 bs h (omega (arith, low))) (
                  both (tp == 235) _ _ (unpack_int-Leaves top 8 bs h (omega (arith, low))) (
                    both (tp == 236) _ _ (unpack_double-Leaves top bs h (omega (arith, low)))
                      (omega arith, h, refl)))))))))

qp_next-Leaves :
    (top tp : ℕ) (bs : List ℕ)
    → SizesFit top (tp ∷ bs)
    → top + 2 ^ 32 ≤ 2 ^ 64
    → Leaves top bs (qp_next top (tp ∷ bs))
unfolding qp_next
qp_next-Leaves top tp bs h low =
    let both = if-both (Leaves top bs) in
    let plain : (length bs ≤ length bs) × SizesFit top bs × (false ≡ false) =
      (omega arith, h.2, refl) in
    both (ltb tp 64) _ _ plain (
      both (ltb tp 124) _ _ plain (
        both (tp == 124) _ _ plain (
          both (ltb tp 128) _ _ plain (
            both (ltb tp 228) _ _
              (unpack_bytes-Leaves top (tp - 128) bs h.2 (omega (arith, low, h.0)))
              (next_sized-Leaves top tp bs h low)))))

-- A reader that ends on less than `n` bytes that satisfy `P`, and takes some unless it is at the end. What is
-- left satisfies `P`.
abbrev Ends : (List ℕ → Type 0) → ℕ → (List ℕ → Skip) → Type 0
Ends P n step =
    (bs : List ℕ)
    → length bs < n
    → P bs
    → (tp : ℕ) × (rest : List ℕ) × (step bs ≡ some (tp, rest))
      × P rest
      × ((length rest < length bs) ⊎ ((tp ≡ qp_end) × (length rest ≤ length bs)))

-- A loop that ends, and leaves no more than there was.
abbrev Stops : (List ℕ → Type 0) → ℕ → Option (List ℕ) → Type 0
Stops P n r = (rest : List ℕ) × (r ≡ some rest) × P rest × (length rest ≤ n)

skip_count-Stops :
    (P : List ℕ → Type 0) (n : ℕ) (step : List ℕ → Skip) (count : ℕ) (bs : List ℕ)
    → Ends P n step
    → length bs < n
    → P bs
    → Stops P (length bs) (skip_count step count bs)
unfolding skip_count
skip_count-Stops P n step zero bs e h ok = (bs, refl, ok, omega arith)
skip_count-Stops P n step (suc count) bs e h ok =
    let (tp, rest, eq, ok', shorter) = e bs h ok in
    let less : length rest ≤ length bs = ground arith in
    let (rest', eq', ok'', less') = skip_count-Stops P n step count rest e (omega arith) ok' in
    (rest', rw (eq, skip_count) eq', ok'', omega arith)

skip_array-Stops :
    (P : List ℕ → Type 0) (n : ℕ) (step : List ℕ → Skip) (g tp : ℕ) (bs : List ℕ)
    → Ends P n step
    → length bs < n
    → P bs
    → (length bs + 1 < g) ⊎ ((tp ≡ qp_end) × (0 < g))
    → Stops P (length bs) (skip_array step g tp bs)
unfolding skip_array
skip_array-Stops P n step zero tp bs e h ok left = absurd (ground arith)
skip_array-Stops P n step (suc g) tp bs e h ok left =
    elim (Bool-cases (tp == qp_end || tp == qp_array_close)) [
      | inl end ↦ rw end (bs, refl, ok, omega arith)
      | inr more ↦
          let (tp', rest, eq, ok', shorter) = e bs h ok in
          let less : length rest ≤ length bs = ground arith in
          let (rest', eq', ok'', less') =
            skip_array-Stops P n step g tp' rest e (omega arith) ok' (ground arith) in
          rw more (rest', rw eq eq', ok'', omega arith)
    ]

skip_map-Stops :
    (P : List ℕ → Type 0) (n : ℕ) (step : List ℕ → Skip) (g tp : ℕ) (bs : List ℕ)
    → Ends P n step
    → length bs < n
    → P bs
    → (length bs + 1 < g) ⊎ ((tp ≡ qp_end) × (0 < g))
    → Stops P (length bs) (skip_map step g tp bs)
unfolding skip_map
skip_map-Stops P n step zero tp bs e h ok left = absurd (ground arith)
skip_map-Stops P n step (suc g) tp bs e h ok left =
    elim (Bool-cases (tp == qp_end || tp == qp_map_close)) [
      | inl end ↦ rw end (bs, refl, ok, omega arith)
      | inr more ↦
          let (tp', rest, eq, ok', shorter) = e bs h ok in
          let less : length rest ≤ length bs = ground arith in
          let (tp2, rest2, eq2, ok2, shorter2) = e rest (omega arith) ok' in
          let less2 : length rest2 ≤ length rest = ground arith in
          let (rest', eq', ok'', less') =
            skip_map-Stops P n step g tp2 rest2 e (omega arith) ok2 (ground arith) in
          rw more (rest', rw eq (rw eq2 eq'), ok'', omega arith)
    ]

-- A result with a type, that leaves no more than `n` bytes.
abbrev Returns : (List ℕ → Type 0) → ℕ → Skip → Type 0
Returns P n r = (tp : ℕ) × (rest : List ℕ) × (r ≡ some (tp, rest)) × P rest × (length rest ≤ n)

with_type-Returns :
    (P : List ℕ → Type 0) (n tp : ℕ) (r : Option (List ℕ))
    → Stops P n r
    → Returns P n (with_type tp r)
with_type-Returns P n tp r (rest, e, ok, l) = (tp, rest, ap (with_type tp) e, ok, l)

skip_open_map-Returns :
    (P : List ℕ → Type 0) (n : ℕ) (step : List ℕ → Skip) (g tp : ℕ) (bs : List ℕ)
    → Ends P n step
    → length bs < n
    → P bs
    → length bs + 1 < g
    → Returns P
        (length bs)
        (elim (step bs) [ none ↦ none | some k ↦ with_type tp (skip_map step g k.0 k.1) ])
skip_open_map-Returns P n step g tp bs e h ok room =
    let (tp', rest, eq, ok', shorter) = e bs h ok in
    let less : length rest ≤ length bs = ground arith in
    let (rest', eq', ok'', less') =
      skip_map-Stops P n step g tp' rest e (omega arith) ok' (ground arith) in
    (tp, rest', rw eq (ap (with_type tp) eq'), ok'', omega arith)

skip_rest-Returns :
    (P : List ℕ → Type 0) (n : ℕ) (step : List ℕ → Skip) (g tp : ℕ) (bs : List ℕ)
    → Ends P n step
    → length bs < n
    → P bs
    → length bs + 1 < g
    → Returns P (length bs) (skip_rest step g tp bs)
unfolding skip_rest
skip_rest-Returns P n step g tp bs e h ok room =
    let both = if-both (Returns P (length bs)) in
    both (leb qp_array0 tp && leb tp qp_array5) _ _
      (with_type-Returns P (length bs) tp _ (skip_count-Stops P n step (tp - qp_array0) bs e h ok))
      (both (leb qp_map0 tp && leb tp qp_map5) _ _
        (with_type-Returns P (length bs) tp _
          (skip_count-Stops P n step ((tp - qp_map0) * 2) bs e h ok))
        (both (tp == qp_array_open) _ _
          (with_type-Returns P (length bs) tp _
            (skip_array-Stops P n step g tp bs e h ok (inl room)))
          (both (tp == qp_map_open) _ _ (skip_open_map-Returns P n step g tp bs e h ok room)
            (tp, bs, refl, ok, omega arith))))

-- The bytes end at an address that is not within 2 ^ 32 of the last one.
module _ (top : ℕ) (low : top + 2 ^ 32 ≤ 2 ^ 64) where
  qp_skip_next-less :
      (fuel b : ℕ) (bs : List ℕ)
      → length bs < fuel
      → SizesFit top (b ∷ bs)
      → Ends (SizesFit top) fuel (qp_skip_next top fuel)
      → Returns (SizesFit top) (length bs) (qp_skip_next top (suc fuel) (b ∷ bs))
  unfolding qp_skip_next
  qp_skip_next-less fuel b bs h ok e =
      let left = (qp_next top (b ∷ bs)).2 in
      let leaves = qp_next-Leaves top b bs ok low in
      let (tp, rest, eq, ok', l) =
        skip_rest-Returns (SizesFit top) fuel (qp_skip_next top fuel) (suc fuel)
          (qp_next top (b ∷ bs)).0 left e (omega (arith, leaves.0, h)) leaves.1
          (omega (arith, leaves.0, h)) in
      (tp, rest, rw (leaves.2) eq, ok', omega (arith, l, leaves.0))

  qp_skip_next-nil : (fuel : ℕ) → qp_skip_next top (suc fuel) [] ≡ some (qp_end, [])
  unfolding qp_skip_next qp_next skip_rest
  qp_skip_next-nil fuel = refl

  qp_skip_next-Ends : (fuel : ℕ) → Ends (SizesFit top) fuel (qp_skip_next top fuel)
  qp_skip_next-Ends zero bs h ok = absurd (omega arith)
  qp_skip_next-Ends (suc fuel) [] h ok =
      (qp_end, [], qp_skip_next-nil fuel, tt, inr (refl, omega arith))
  qp_skip_next-Ends (suc fuel) (b ∷ bs) h ok =
      let (tp, rest, e, ok', l) =
        qp_skip_next-less fuel b bs (omega arith) ok (qp_skip_next-Ends fuel) in
      (tp, rest, e, ok', inl (omega arith))

-- On bytes, however broken, of which no size overflows where they end at the address `top`, `qp_skip_next`
-- comes to an end: a depth of recursion, and rounds of its loops, of one more than the number of bytes are
-- enough. What is left is no longer than what there was, and shorter unless there was nothing.
pub qp_skip_next_lem :
    (top : ℕ) (bs : List ℕ)
    → top + 2 ^ 32 ≤ 2 ^ 64
    → SizesFit top bs
    → (tp : ℕ) × (rest : List ℕ) × (qp_skip_next top (suc (length bs)) bs ≡ some (tp, rest))
      × ((length rest < length bs) ⊎ ((bs ≡ []) × (rest ≡ [])))
qp_skip_next_lem top [] low ok = (qp_end, [], qp_skip_next-nil top low 0, inr (refl, refl))
qp_skip_next_lem top (b ∷ bs) low ok =
    let (tp, rest, e, ok', l) =
      qp_skip_next-less top low (suc (length bs)) b bs (omega arith) ok
        (qp_skip_next-Ends top low (suc (length bs))) in
    (tp, rest, e, inl (omega arith))
