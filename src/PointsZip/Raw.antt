-- ===== src/PointsZip/Raw.antt =====
-- A chunk in raw form, written and read back.
use mathlib.Core.List.{append-nil, append_assoc}
use siridb_server.Base.{
  to_bytes, of_bytes, of_bytes-to_bytes, none, some, ap, ltb, leb, ◌&&◌, ℕ, zero, suc, ◌-◌, ◌*◌,
  ◌%◌, ◌^◌, ◌≤◌, ◌<◌, ◌≡◌, refl, ap₂, sym, subst, ◌∙◌, Bool, true, false, Option, List, [], ◌∷◌,
  ◌++◌, arith, if◌then◌else◌, All, length, take, drop,
}
use siridb_server.Points.{Point}
use siridb_server.PointsZip.{zip_points, zip_raw, unzip_loop, unzip_raw, in_range}

-- Both words of a point fit in 64 bits.
abbrev pub IsWords : Point ℕ → Type 0
IsWords p = (p.ts < 2 ^ 64) × (p.val < 2 ^ 64)

-- The points in a range of time: from `s` on, or all, and before `e`, or all.
abbrev pub from : Option ℕ → ℕ
from none = 0
from (some s) = s

abbrev pub until : Option ℕ → ℕ
until none = 2 ^ 64
until (some e) = e

abbrev pub keep : Option ℕ → Option ℕ → List (Point ℕ) → List (Point ℕ)
keep s e [] = []
keep s e (p ∷ rest) =
    if leb (from s) p.ts && ltb p.ts (until e) then p ∷ keep s e rest else keep s e rest

in_range-eq :
    (s e : Option ℕ) (ts : ℕ) → ts < 2 ^ 64 → in_range s e ts ≡ leb (from s) ts && ltb ts (until e)
in_range-eq none none ts h = ground arith
in_range-eq none (some e) ts h = ground arith
in_range-eq (some s) none ts h = ground arith
in_range-eq (some s) (some e) ts h = ground arith

unzip_loop-suc :
    (out : List (Point ℕ)) (bits tail : List ℕ) (len : ℕ) (p : Point ℕ) (s e : Option ℕ)
    → of_bytes 8 bits ≡ p.ts
    → of_bytes 8 (drop 8 bits) ≡ p.val
    → drop 16 bits ≡ tail
    → unzip_loop out bits (suc len) s e false
      ≡ unzip_loop (if in_range s e p.ts then out ++ p ∷ [] else out) tail len s e false
unfolding unzip_loop
unzip_loop-suc out bits tail len p s e t v r =
    ap₂
      (λ (q : Point ℕ) b.
        unzip_loop (if in_range s e q.ts then out ++ q ∷ [] else out) b len s e false)
      (ap₂ (λ a b. record { ts = a; val = b }) t v) r

keep-cons :
    (out rest : List (Point ℕ)) (p : Point ℕ) (b : Bool)
    → (if b then out ++ p ∷ [] else out) ++ rest ≡ out ++ (if b then p ∷ rest else rest)
keep-cons out rest p true = append_assoc out (p ∷ []) rest
keep-cons out rest p false = refl

unzip_loop-zip_points :
    (out points : List (Point ℕ)) (s e : Option ℕ)
    → All IsWords points
    → unzip_loop out (zip_points points) (length points) s e false ≡ out ++ keep s e points
unfolding unzip_loop zip_points
unzip_loop-zip_points out [] s e w = sym (append-nil out)
unzip_loop-zip_points out (p ∷ rest) s e w =
    unzip_loop-suc out (zip_points (p ∷ rest)) (zip_points rest) (length rest) p s e
      (of_bytes-to_bytes 8 p.ts (to_bytes 8 p.val ++ zip_points rest) w.0.0)
      (of_bytes-to_bytes 8 p.val (zip_points rest) w.0.1) refl
    ∙ unzip_loop-zip_points (if in_range s e p.ts then out ++ p ∷ [] else out) rest s e w.1
    ∙ keep-cons out (keep s e rest) p (in_range s e p.ts)
    ∙ ap (λ b. out ++ (if b then p ∷ keep s e rest else keep s e rest)) (in_range-eq s e p.ts w.0.0)

All-take : (P : Point ℕ → Type 0) (n : ℕ) (xs : List (Point ℕ)) → All P xs → All P (take n xs)
All-take P zero xs a = tt
All-take P (suc n) [] a = tt
All-take P (suc n) (x ∷ xs) a = (a.0, All-take P n xs a.1)

All-drop : (P : Point ℕ → Type 0) (n : ℕ) (xs : List (Point ℕ)) → All P xs → All P (drop n xs)
All-drop P zero xs a = a
All-drop P (suc n) [] a = tt
All-drop P (suc n) (x ∷ xs) a = All-drop P n xs a.1

length-drop : (n : ℕ) (xs : List (Point ℕ)) → length (drop n xs) ≡ length xs - n
length-drop zero xs = omega arith
length-drop (suc n) [] = omega arith
length-drop (suc n) (x ∷ xs) = omega (arith, length-drop n xs)

length-take : (n : ℕ) (xs : List (Point ℕ)) → n ≤ length xs → length (take n xs) ≡ n
length-take zero xs h = refl
length-take (suc n) [] h = absurd (omega arith)
length-take (suc n) (x ∷ xs) h = omega (arith, length-take n xs (omega arith))

length-zip_points : (points : List (Point ℕ)) → length (zip_points points) ≡ length points * 16
unfolding zip_points
length-zip_points [] = refl
length-zip_points (p ∷ rest) = omega (arith, length-zip_points rest)

-- Points from `start` to `end` of a series, less than 2 ^ 16 and 64-bit words all, are written by `POINTS_zip_raw` into as
-- many bytes as it says, and `POINTS_unzip_raw` reads back, behind those that it has, exactly those
-- that lie in the range asked for.
pub unzip_raw-zip_raw :
    (out points : List (Point ℕ)) (start end : ℕ) (s e : Option ℕ)
    → start ≤ end
    → end ≤ length points
    → end - start < 2 ^ 16
    → All IsWords points
    → let (bits, cinfo, size) = zip_raw points start end in
      (length bits ≡ size)
      × (unzip_raw out bits (end - start) s e false
          ≡ out ++ keep s e (take (end - start) (drop start points)))
unfolding zip_raw
unzip_raw-zip_raw out points start end s e h h' small w =
    let chunk = take (end - start) (drop start points) in
    let n : length chunk ≡ end - start =
      length-take (end - start) (drop start points) (omega (arith, length-drop start points)) in
    (
      omega (arith, length-zip_points chunk, n),
      subst (λ k. unzip_loop out (zip_points chunk) k s e false ≡ out ++ keep s e chunk)
          {y = (end - start) % 2 ^ 16} (omega (arith, n, small))
          (unzip_loop-zip_points out chunk s e
            (All-take IsWords (end - start) (drop start points) (All-drop IsWords start points w))),
    )
