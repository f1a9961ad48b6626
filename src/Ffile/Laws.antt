-- ===== src/Ffile/Laws.antt =====
-- Packages are taken from a file, and found again in one that was left.
use mathlib.Core.List.{append_assoc, append-nil}
use siridb_server.Base.{
  ℕ, ◌+◌, ◌-◌, ◌≤◌, ◌≡◌, ◌≢◌, refl, ap, ap₂, sym, subst, ◌∙◌, true, false, inl, inr, Option, none,
  some, List, [], ◌∷◌, ◌++◌, arith, length, take, drop, to_bytes, of_bytes, length-append,
  take-append, All, ltb, leb, ◌==◌, if◌then◌else◌,
}
use siridb_server.Ffile.{Pkg, Ffile, ffile_existing, ffile_new, ffile_pop, ffile_pop_commit}
use siridb_server.Ffile.Layout.{IsPkg, packed, pack_all, first_size, zeros, Holds, length-packed}
use siridb_server.Ffile.Bytes.{drop_end, length-pack_all, length-disk, last_four}

disk :
    (f : Ffile) (p : Pkg) (ps : List Pkg) (v : Holds f (p ∷ ps))
    → f.bytes ≡ (zeros v.gap ++ pack_all ps) ++ packed p
disk f p ps v = elim v.on_disk [
  | inl e ↦ e ∙ sym (append_assoc (zeros v.gap) (pack_all ps) (packed p))
  | inr (e, none_yet) ↦ absurd (ground arith)
]

-- `ffile_pop` of a file that holds packages gives the oldest.
pub ffile_pop_lem :
    (f : Ffile) (p : Pkg) (ps : List Pkg) → Holds f (p ∷ ps) → ffile_pop true f ≡ some p
unfolding ffile_pop
ffile_pop_lem f p ps v =
    let front = zeros v.gap ++ pack_all ps in
    let long : ltb (length (front ++ packed p)) (length p + 4) ≡ false =
      ground (arith, length-append front (packed p), length-packed p) in
    let last : drop (length (front ++ packed p) - (length p + 4)) (front ++ packed p) ≡ packed p =
      drop_end (length p + 4) front (packed p) (length-packed p) in
    let whole : take (length p) (packed p) ≡ p = take-append p (to_bytes 4 (length p)) in
    let big : ltb (length p) 8 ≡ false = ground (arith, v.pkgs.0.0) in
    let says : (of_bytes 4 p == length p - 8) ≡ true = ground (arith, v.pkgs.0.1) in
    rw (disk f p ps v, v.next, long, last, whole, big, says) refl

-- `ffile_pop_commit` then removes it, and leaves the others.
pub ffile_pop_commit_lem :
    (f : Ffile) (p : Pkg) (ps : List Pkg)
    → Holds f (p ∷ ps)
    → (g : Ffile) × (ffile_pop_commit true f ≡ (true, g)) × Holds g ps
unfolding ffile_pop_commit
ffile_pop_commit_lem f p ps v =
    let front = zeros v.gap ++ pack_all ps in
    let bits = front ++ packed p in
    let sized : f.size ≡ length front + (length p + 4) =
      omega (arith, v.sized, length-pack_all p ps, length-disk v.gap ps) in
    let left : f.size - (f.next_size + 4) ≡ length front = omega (arith, sized, v.next) in
    let enough : leb (f.next_size + 8) f.size ≡ true =
      ground (arith, sized, v.next, length-disk v.gap ps, v.room) in
    let there : leb (f.size - (f.next_size + 4)) (length f.bytes) ≡ true =
      ground (arith, left, ap length (disk f p ps v), length-append front (packed p)) in
    (
      record f {
        next_size = of_bytes 4 (drop (f.size - (f.next_size + 4) - 4) f.bytes);
        size = f.size - (f.next_size + 4);
        bytes = take (f.size - (f.next_size + 4)) f.bytes;
      },
      rw (enough, there) refl,
      record {
        pkgs = v.pkgs.1;
        next =
            ap₂ (λ n l. of_bytes 4 (drop (n - 4) l)) left (disk f p ps v)
            ∙ last_four v.gap ps (packed p) v.room v.pkgs.1;
        gap = v.gap;
        room = v.room;
        sized = left ∙ length-disk v.gap ps;
        free = v.free;
        on_disk = inl (ap₂ take left (disk f p ps v) ∙ take-append front (packed p));
      },
    )

-- What is found of packages that were on disk: no file where there were none.
abbrev pub Found : List Pkg → Option Ffile → Type 0
Found ps none = ps ≡ []
Found ps (some g) = Holds g ps × (ps ≢ [])

found_first :
    (ps : List Pkg) (g : Ffile)
    → All IsPkg ps
    → (ps ≢ [] → Holds g ps)
    → Found ps (if first_size ps == 0 then none else some g)
found_first [] g h holds = refl
found_first (p ∷ ps) g h holds =
    let filled : (length p == 0) ≡ false = ground (arith, h.0.0) in
    rw filled (holds (λ e. absurd (ground arith)), λ e. absurd (ground arith))

found :
    (gap : ℕ) (ps : List Pkg)
    → 4 ≤ gap
    → All IsPkg ps
    → Found ps (ffile_existing true (zeros gap ++ pack_all ps))
unfolding ffile_existing
found gap ps room h =
    let bits = zeros gap ++ pack_all ps in
    let long : ltb (length bits) 4 ≡ false = ground (arith, length-disk gap ps) in
    let last : of_bytes 4 (drop (length bits - 4) bits) ≡ first_size ps =
      ap (λ l. of_bytes 4 (drop (length bits - 4) l)) (sym (append-nil bits))
      ∙ last_four gap ps [] room h in
    rw (long, last)
      (found_first ps
        (record { free_space = 0; next_size = first_size ps; size = length bits; bytes = bits }) h
        (λ filled. record {
          pkgs = h;
          next = refl;
          gap = gap;
          room = room;
          sized = length-disk gap ps;
          free = inl refl;
          on_disk = inl refl;
        }))

-- What a file leaves on disk, `ffile_new` finds again: the same packages, or none and no file.
pub ffile_new-existing :
    (f : Ffile) (default_size : ℕ) (pkg : Option Pkg) (ps : List Pkg)
    → Holds f ps
    → Found ps (ffile_new true true default_size pkg (some f.bytes))
unfolding ffile_new
ffile_new-existing f default_size pkg ps v = elim v.on_disk [
  | inl e ↦ subst (λ l. Found ps (ffile_existing true l)) (sym e) (found v.gap ps v.room v.pkgs)
  | inr (e, none_yet) ↦
      subst (λ l. Found ps (ffile_existing true l)) (sym e) (unfold ffile_existing in none_yet)
]
