-- ===== src/Ffile/Bytes.antt =====
-- The ends of the bytes of a file.
use mathlib.Core.List.{append_assoc}
use siridb_server.Base.{
  ℕ, ◌+◌, ◌-◌, ◌≤◌, ◌≡◌, ap, ap₂, sym, subst, ◌∙◌, List, [], ◌∷◌, ◌++◌, arith, length, drop,
  to_bytes, of_bytes, length-append, length-replicate, length-to_bytes, of_bytes-to_bytes,
  drop-append, All,
}
use siridb_server.Ffile.{Pkg}
use siridb_server.Ffile.Layout.{
  IsPkg, packed, pack_all, first_size, zeros, length-packed, drop-zeros_less,
}

pub drop_end :
    (n : ℕ) (xs ys : List ℕ) → length ys ≡ n → drop (length (xs ++ ys) - n) (xs ++ ys) ≡ ys
drop_end n xs ys e =
    subst (λ k. drop k (xs ++ ys) ≡ ys) {x = length xs} (omega (arith, length-append xs ys))
      (drop-append xs ys)

pub length-pack_all :
    (p : Pkg) (ps : List Pkg) → length (pack_all (p ∷ ps)) ≡ length (pack_all ps) + (length p + 4)
length-pack_all p ps = omega (arith, length-append (pack_all ps) (packed p), length-packed p)

pub length-disk :
    (gap : ℕ) (ps : List Pkg) → length (zeros gap ++ pack_all ps) ≡ gap + length (pack_all ps)
length-disk gap ps =
    omega (arith, length-append (zeros gap) (pack_all ps), length-replicate {A = ℕ} gap 0)

-- The last four bytes are the size of the oldest package, whatever follows.
pub last_four :
    (gap : ℕ) (ps : List Pkg) (rest : List ℕ)
    → 4 ≤ gap
    → All IsPkg ps
    → let bits = zeros gap ++ pack_all ps in
      of_bytes 4 (drop (length bits - 4) (bits ++ rest)) ≡ first_size ps
last_four gap [] rest room h =
    let k : length (zeros gap ++ []) - 4 ≡ gap - 4 =
      omega (arith, length-append (zeros gap) [], length-replicate {A = ℕ} gap 0) in
    let whole : gap - 4 + 4 ≡ gap = omega arith in
    ap₂ (λ n l. of_bytes 4 (drop n l)) k (append_assoc (zeros gap) [] rest)
    ∙ ap (λ m. of_bytes 4 (drop (gap - 4) (zeros m ++ rest))) (sym whole)
    ∙ ap (of_bytes 4) (drop-zeros_less (gap - 4) 4 rest)
last_four gap (p ∷ ps) rest room h =
    let front = (zeros gap ++ pack_all ps) ++ p in
    let size = to_bytes 4 (length p) in
    let split : zeros gap ++ pack_all (p ∷ ps) ≡ front ++ size =
      sym (append_assoc (zeros gap) (pack_all ps) (packed p))
      ∙ sym (append_assoc (zeros gap ++ pack_all ps) p size) in
    let start : length (front ++ size) - 4 ≡ length front =
      omega (arith, length-append front size, length-to_bytes 4 (length p)) in
    ap (λ l. of_bytes 4 (drop (length l - 4) (l ++ rest))) split
    ∙ ap₂ (λ n l. of_bytes 4 (drop n l)) start (append_assoc front size rest)
    ∙ ap (of_bytes 4) (drop-append front (size ++ rest))
    ∙ of_bytes-to_bytes 4 (length p) rest (omega (arith, h.0.2))
