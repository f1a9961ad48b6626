-- ===== src/Base64/Tests.antt =====
-- Texts encoded and decoded, and the theorem at a concrete input.
use siridb_server.Base.{ℕ, ◌≡◌, refl, true, some, List, [], ◌∷◌, arith}
use siridb_server.Base64.{
  base64_encode, encode_bytes, base64_decode, decode_blocks, decode_last, decode_with, has_pad,
}
use siridb_server.Base64.Inverse.{base64_decode-encode}

-- "Ma" and "Man".
padding :
    (base64_encode true (77 ∷ 97 ∷ []) ≡ some (84 ∷ 87 ∷ 69 ∷ 61 ∷ []))
    × (base64_encode true (77 ∷ 97 ∷ 110 ∷ []) ≡ some (84 ∷ 87 ∷ 70 ∷ 117 ∷ []))
    × (base64_decode true (84 ∷ 87 ∷ 69 ∷ 61 ∷ []) ≡ some (77 ∷ 97 ∷ []))
unfolding base64_encode encode_bytes base64_decode decode_blocks decode_last decode_with has_pad
padding = (refl, refl, refl)

base64_decode-encode_example :
    (text : List ℕ) × (base64_encode true (255 ∷ 0 ∷ 7 ∷ 61 ∷ []) ≡ some text)
    × (base64_decode true text ≡ some (255 ∷ 0 ∷ 7 ∷ 61 ∷ []))
base64_decode-encode_example =
    base64_decode-encode (255 ∷ 0 ∷ 7 ∷ 61 ∷ []) (omega arith)
      (omega arith, (omega arith, (omega arith, (omega arith, tt))))
