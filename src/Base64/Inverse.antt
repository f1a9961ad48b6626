-- ===== src/Base64/Inverse.antt =====
-- Decoding gives back what was encoded.
use siridb_server.Base.{
  ℕ, suc, ◌+◌, ◌-◌, ◌*◌, ◌/◌, ◌%◌, ◌^◌, ◌<◌, ◌≤◌, every, every_lem, ◌≤◌, ◌≡◌, ◌≢◌, refl, ap, ap₂,
  ◌∙◌, Bool, true, false, not, ◌&&◌, some, List, [], ◌∷◌, ◌++◌, arith, ltb, ◌==◌, if◌then◌else◌,
  All, length, get_or, drop,
}
use siridb_server.Base64.{
  idx, table, join_codes, encode_bytes, base64_encode, decode_with, decode_blocks, decode_last,
  has_pad, base64_decode,
}

abbrev IsByte : ℕ → Type 0
IsByte x = x < 256

-- A code comes back from its character, which is not '='.
comes_back : ℕ → Bool
comes_back v = idx (table v) == v && not (table v == 61)

all_come_back : every comes_back 0 64 ≡ true
unfolding comes_back
all_come_back = refl

idx-table : (v : ℕ) → v < 64 → (idx (table v) ≡ v) × (table v ≢ 61)
unfolding comes_back
idx-table v h =
    ground (arith, every_lem comes_back 0 64 v all_come_back (omega arith) (omega arith))

-- The three bytes of a block.
block_bytes :
    (x y z : ℕ)
    → IsByte x
    → IsByte y
    → IsByte z
    → let nn = join_codes (x / 4) (x % 4 * 16 + y / 16) (y % 16 * 4 + z / 64) (z % 64) in
      (nn / 2 ^ 16 % 256 ≡ x) × (nn / 2 ^ 8 % 256 ≡ y) × (nn % 256 ≡ z)
block_bytes x y z hx hy hz = (omega arith, omega arith, omega arith)

-- How many whole blocks there are, and whether some bytes are left.
abbrev whole : List ℕ → ℕ
whole [] = 0
whole (x ∷ []) = 0
whole (x ∷ y ∷ []) = 0
whole (x ∷ y ∷ z ∷ rest) = suc (whole rest)

abbrev left_over : List ℕ → Bool
left_over [] = false
left_over (x ∷ []) = true
left_over (x ∷ y ∷ []) = true
left_over (x ∷ y ∷ z ∷ rest) = left_over rest

length-encode_bytes :
    (xs : List ℕ) → length (encode_bytes xs) ≡ (whole xs + (if left_over xs then 1 else 0)) * 4
unfolding encode_bytes
length-encode_bytes [] = refl
length-encode_bytes (x ∷ []) = refl
length-encode_bytes (x ∷ y ∷ []) = refl
length-encode_bytes (x ∷ y ∷ z ∷ rest) = omega (arith, length-encode_bytes rest)

-- The last character.
abbrev last_char : ℕ → List ℕ → ℕ
last_char d [] = d
last_char d (c ∷ cs) = last_char c cs

get_or-last : (c : ℕ) (cs : List ℕ) → get_or (c ∷ cs) (length cs) 0 ≡ last_char c cs
get_or-last c [] = refl
get_or-last c (d ∷ cs) = get_or-last d cs

last_char-encode_bytes :
    (d : ℕ) (xs : List ℕ)
    → All IsByte xs
    → d ≢ 61
    → (last_char d (encode_bytes xs) == 61) ≡ left_over xs
unfolding encode_bytes
last_char-encode_bytes d [] b h = ground arith
last_char-encode_bytes d (x ∷ []) b h = refl
last_char-encode_bytes d (x ∷ y ∷ []) b h = refl
last_char-encode_bytes d (x ∷ y ∷ z ∷ rest) b h =
    last_char-encode_bytes (table (z % 64)) rest b.1.1.1 ((idx-table (z % 64) (omega arith)).1)

has_pad-last :
    (c : ℕ) (cs : List ℕ) → length (c ∷ cs) % 4 ≡ 0 → has_pad (c ∷ cs) ≡ (last_char c cs == 61)
unfolding has_pad
has_pad-last c cs h =
    let same : get_or (c ∷ cs) (suc (length cs) - 1) 0 ≡ last_char c cs =
      ap (λ i. get_or (c ∷ cs) i 0) (omega arith) ∙ get_or-last c cs in
    ground (arith, same)

has_pad-encode_bytes : (xs : List ℕ) → All IsByte xs → has_pad (encode_bytes xs) ≡ left_over xs
unfolding encode_bytes has_pad
has_pad-encode_bytes [] b = refl
has_pad-encode_bytes (x ∷ []) b = refl
has_pad-encode_bytes (x ∷ y ∷ []) b = refl
has_pad-encode_bytes (x ∷ y ∷ z ∷ rest) b =
    has_pad-last (table (x / 4))
      (table (x % 4 * 16 + y / 16)
        ∷ table (y % 16 * 4 + z / 64)
        ∷ table (z % 64)
        ∷ encode_bytes rest)
      (omega (arith, length-encode_bytes rest))
    ∙ last_char-encode_bytes 0 (x ∷ y ∷ z ∷ rest) b (omega arith)

cons₃ :
    {a b c x y z : ℕ} {l r : List ℕ} → a ≡ x → b ≡ y → c ≡ z → l ≡ r → a ∷ b ∷ c ∷ l ≡ x ∷ y ∷ z ∷ r
cons₃ e f g h = cc (e, f, g, h)

join_codes-table :
    (a b c d : ℕ)
    → a < 64
    → b < 64
    → c < 64
    → d < 64
    → join_codes (idx (table a)) (idx (table b)) (idx (table c)) (idx (table d))
      ≡ join_codes a b c d
join_codes-table a b c d ha hb hc hd =
    omega (arith, (idx-table a ha).0, (idx-table b hb).0, (idx-table c hc).0, (idx-table d hd).0)

decode_last-two :
    (a b c : ℕ)
    → a < 64
    → b < 64
    → c < 64
    → decode_last (table a ∷ table b ∷ table c ∷ 61 ∷ [])
      ≡ join_codes a b 0 0 / 2 ^ 16 % 256 ∷ join_codes a b c 0 / 2 ^ 8 % 256 ∷ []
unfolding decode_last
decode_last-two a b c ha hb hc =
    let (ea, na) = idx-table a ha in
    let (eb, nb) = idx-table b hb in
    let (ec, nc) = idx-table c hc in
    let there : (table c == 61) ≡ false = ground arith in rw (there, ea, eb, ec) refl

decode_with-encode_bytes :
    (xs : List ℕ) → All IsByte xs → decode_with (whole xs) (left_over xs) (encode_bytes xs) ≡ xs
unfolding decode_with decode_blocks decode_last encode_bytes
decode_with-encode_bytes [] b = refl
decode_with-encode_bytes (x ∷ []) b =
    rw (idx-table (x / 4) (omega arith)).0
      (rw (idx-table (x % 4 * 16) (omega arith)).0 (ap (λ v. v ∷ []) (omega arith)))
decode_with-encode_bytes (x ∷ y ∷ []) b =
    decode_last-two (x / 4) (x % 4 * 16 + y / 16) (y % 16 * 4) (omega arith) (omega arith)
      (omega arith)
    ∙ ap₂ (λ v w. v ∷ w ∷ []) (omega arith) (omega arith)
decode_with-encode_bytes (x ∷ y ∷ z ∷ rest) b =
    let nn =
      join_codes-table (x / 4) (x % 4 * 16 + y / 16) (y % 16 * 4 + z / 64) (z % 64) (omega arith)
        (omega arith) (omega arith) (omega arith) in
    let (ex, ey, ez) = block_bytes x y z b.0 b.1.0 b.1.1.0 in
    let four_more : suc (whole rest) * 4 ≡ suc (suc (suc (suc (whole rest * 4)))) = omega arith in
    cons₃ (ap (λ v. v / 2 ^ 16 % 256) nn ∙ ex) (ap (λ v. v / 2 ^ 8 % 256) nn ∙ ey)
      (ap (λ v. v % 256) nn ∙ ez)
      (ap
          (λ k.
            decode_blocks (whole rest) (encode_bytes rest)
            ++ (if left_over rest
                then decode_last (drop k (encode_bytes (x ∷ y ∷ z ∷ rest)))
                else []))
          four_more
        ∙ decode_with-encode_bytes rest b.1.1.1)

ge→ltb : (a b : ℕ) → b ≤ a → ltb a b ≡ false
ge→ltb a b h = ground arith

-- What `base64_encode` makes of less than 2 ^ 62 bytes, when memory is given, `base64_decode` turns
-- back into those bytes, whatever their number and values.
pub base64_decode-encode :
    (bytes : List ℕ)
    → length bytes < 2 ^ 62
    → All (λ x. x < 256) bytes
    → (text : List ℕ) × (base64_encode true bytes ≡ some text)
      × (base64_decode true text ≡ some bytes)
unfolding base64_encode base64_decode
base64_decode-encode bytes h b =
    let text = encode_bytes bytes in
    let pad = has_pad-encode_bytes bytes b in
    let blocks : (length text + 3) / 4 - (if left_over bytes then 1 else 0) ≡ whole bytes =
      ground (arith, length-encode_bytes bytes) in
    let fits : ltb (4 * ((length bytes + 2) % 2 ^ 64 / 3) % 2 ^ 64) (length bytes) ≡ false =
      ge→ltb _ _ (omega arith) in
    (text, rw fits refl, rw (pad, blocks) (ap some (decode_with-encode_bytes bytes b)))
