-- ===== src/Ffile/Layout.antt =====
-- The bytes of a file that holds packages.
use mathlib.Core.List.{append_assoc, append-nil}
use siridb_server.Base.{
  ℕ, zero, suc, ◌+◌, ◌^◌, ◌≤◌, ◌<◌, ◌≡◌, refl, ap, sym, subst, ◌∙◌, ◌⊎◌, List, [], ◌∷◌, ◌++◌, arith,
  length, drop, replicate, to_bytes, of_bytes, length-append, length-to_bytes, All,
}
use siridb_server.Ffile.{Pkg, Ffile, take_pad, write_at}

-- A package says how long it is, and fits in a file.
abbrev pub IsPkg : Pkg → Type 0
IsPkg pkg = (8 ≤ length pkg) × (of_bytes 4 pkg + 8 ≡ length pkg) × (length pkg + 8 < 2 ^ 32)

abbrev pub packed : Pkg → List ℕ
packed pkg = pkg ++ to_bytes 4 (length pkg)

-- The bytes of packages, the oldest of which is the first here and the last in the file.
abbrev pub pack_all : List Pkg → List ℕ
pack_all [] = []
pack_all (p ∷ ps) = pack_all ps ++ packed p

abbrev pub first_size : List Pkg → ℕ
first_size [] = 0
first_size (p ∷ ps) = length p

abbrev pub zeros : ℕ → List ℕ
zeros n = replicate n 0

-- `f` holds the packages `ps`, the oldest first, behind at least four zeros. In a fresh file none of
-- them is written yet.
pub record Holds (f : Ffile) (ps : List Pkg) : Type 0 where
  pub pkgs : All IsPkg ps
  pub next : f.next_size ≡ first_size ps
  pub gap : ℕ
  pub room : 4 ≤ gap
  pub sized : f.size ≡ gap + length (pack_all ps)
  pub free : (f.free_space ≡ 0) ⊎ (f.free_space ≡ gap)
  pub on_disk : (f.bytes ≡ zeros gap ++ pack_all ps) ⊎ ((f.bytes ≡ []) × (ps ≡ []))

pub length-packed : (p : Pkg) → length (packed p) ≡ length p + 4
length-packed p =
    omega (arith, length-append p (to_bytes 4 (length p)), length-to_bytes 4 (length p))

pub pack_all-snoc : (ps : List Pkg) (q : Pkg) → pack_all (ps ++ q ∷ []) ≡ packed q ++ pack_all ps
pack_all-snoc [] q = sym (append-nil (packed q))
pack_all-snoc (p ∷ ps) q =
    ap (λ l. l ++ packed p) (pack_all-snoc ps q) ∙ append_assoc (packed q) (pack_all ps) (packed p)

pub take_pad-zeros : (n k : ℕ) (c : List ℕ) → take_pad n (zeros (n + k) ++ c) ≡ zeros n
take_pad-zeros zero k c = refl
take_pad-zeros (suc n) k c =
    subst (λ m. take_pad (suc n) (zeros m ++ c) ≡ zeros (suc n)) {x = suc (n + k)} (omega arith)
      (ap (λ l. 0 ∷ l) (take_pad-zeros n k c))

pub take_pad-nil : (n : ℕ) → take_pad n [] ≡ zeros n
take_pad-nil zero = refl
take_pad-nil (suc n) = ap (λ l. 0 ∷ l) (take_pad-nil n)

pub drop-zeros : (n : ℕ) (c : List ℕ) → drop n (zeros n ++ c) ≡ c
drop-zeros zero c = refl
drop-zeros (suc n) c = drop-zeros n c

pub drop-zeros_less : (n k : ℕ) (c : List ℕ) → drop n (zeros (n + k) ++ c) ≡ zeros k ++ c
drop-zeros_less zero k c = ap (λ m. zeros m ++ c) {x = 0 + k} {y = k} (omega arith)
drop-zeros_less (suc n) k c =
    subst (λ m. drop (suc n) (zeros m ++ c) ≡ zeros k ++ c) {x = suc (n + k)} (omega arith)
      (drop-zeros_less n k c)

pub drop-nil : (n : ℕ) → drop {A = ℕ} n [] ≡ []
drop-nil zero = refl
drop-nil (suc n) = refl

-- A write that fills the gap's end.
pub write_at-zeros :
    (off z : ℕ) (new c : List ℕ)
    → off + length new ≡ z
    → write_at off new (zeros z ++ c) ≡ zeros off ++ (new ++ c)
write_at-zeros off z new c e =
    subst (λ m. write_at off new (zeros m ++ c) ≡ zeros off ++ (new ++ c)) e
      (ap (λ l. l ++ (new ++ drop (off + length new) (zeros (off + length new) ++ c)))
          (take_pad-zeros off (length new) c)
        ∙ ap (λ l. zeros off ++ (new ++ l)) (drop-zeros (off + length new) c))

pub write_at-fresh : (off : ℕ) (new : List ℕ) → write_at off new [] ≡ zeros off ++ (new ++ [])
write_at-fresh off new =
    ap (λ l. l ++ (new ++ drop (off + length new) [])) (take_pad-nil off)
    ∙ ap (λ l. zeros off ++ (new ++ l)) (drop-nil (off + length new))
