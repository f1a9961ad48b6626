-- ===== src/Ffile/Append.antt =====
-- Packages are stored in a file, old or new.
use mathlib.Core.List.{append-nil}
use siridb_server.Base.{
  ℕ, ◌+◌, ◌-◌, ◌%◌, ◌^◌, ◌≤◌, ◌<◌, ◌≡◌, refl, ap, sym, subst, ◌∙◌, true, false, ◌⊎◌, inl, inr, none,
  some, List, [], ◌∷◌, ◌++◌, arith, length, take, to_bytes, length-append, take-append, All,
  All-append, ltb, ◌==◌, if◌then◌else◌, Bool-cases,
}
use siridb_server.Ffile.{
  Pkg, Ffile, FfileRc, ffile_success, ffile_error, no_free_space, write_at, ffile_append,
  ffile_created, ffile_new, empty_file, new_size, appended,
}
use siridb_server.Ffile.Layout.{
  IsPkg, packed, pack_all, first_size, zeros, Holds, length-packed, pack_all-snoc, write_at-zeros,
  write_at-fresh,
}

take_whole : (xs : List ℕ) → take (length xs) xs ≡ xs
take_whole xs = subst (λ l. take (length xs) l ≡ xs) (append-nil xs) (take-append xs [])

-- What `ffile_append` writes, where the size of the package is not cut off.
append_bytes :
    (q : Pkg) → IsPkg q → take (length q % 2 ^ 32) q ++ to_bytes 4 (length q % 2 ^ 32) ≡ packed q
append_bytes q h =
    ap (λ n. take n q ++ to_bytes 4 n) {x = length q % 2 ^ 32} {y = length q} (omega (arith, h.2))
    ∙ ap (λ l. l ++ to_bytes 4 (length q)) (take_whole q)

first_size-snoc :
    (ps : List Pkg) (q : Pkg) (n : ℕ)
    → All IsPkg ps
    → n ≡ first_size ps
    → (if n == 0 then length q else n) ≡ first_size (ps ++ q ∷ [])
first_size-snoc [] q n h e = ground arith
first_size-snoc (p ∷ ps) q n h e = let eight : 8 ≤ length p = h.0.0 in ground arith

written :
    (off gap : ℕ) (q : Pkg) (ps : List Pkg) (bits : List ℕ)
    → IsPkg q
    → off + (length q + 4) ≡ gap
    → (bits ≡ zeros gap ++ pack_all ps) ⊎ ((bits ≡ []) × (ps ≡ []))
    → write_at off (packed q) bits ≡ zeros off ++ pack_all (ps ++ q ∷ [])
written off gap q ps bits h fit (inl e) =
    ap (write_at off (packed q)) e
    ∙ write_at-zeros off gap (packed q) (pack_all ps) (omega (arith, length-packed q))
    ∙ ap (λ l. zeros off ++ l) (sym (pack_all-snoc ps q))
written off gap q ps bits h fit (inr (e, none_yet)) =
    ap (write_at off (packed q)) e
    ∙ write_at-fresh off (packed q)
    ∙ ap (λ l. zeros off ++ (packed q ++ pack_all l)) (sym none_yet)
    ∙ ap (λ l. zeros off ++ l) (sym (pack_all-snoc ps q))

-- What an append makes of a file that holds `ps`: the package is there as the newest, or there was
-- not enough space, and the file holds what it did.
abbrev pub Appended : Ffile → List Pkg → Pkg → FfileRc × Ffile → Type 0
Appended f ps q (ffile_success, g) = Holds g (ps ++ q ∷ [])
Appended f ps q (no_free_space, g) = Holds g ps × (f.free_space < length q + 8)
Appended f ps q (ffile_error, g) = (ffile_error ≡ ffile_success)

append_room :
    (f : Ffile) (ps : List Pkg) (q : Pkg)
    → Holds f ps
    → IsPkg q
    → length q + 8 ≤ f.free_space
    → Holds
        (record f {
          free_space = f.free_space - (length q + 4);
          next_size = if f.next_size == 0 then length q else f.next_size;
          bytes = write_at (f.free_space - (length q + 4)) (packed q) f.bytes;
        })
        (ps ++ q ∷ [])
append_room f ps q v h room =
    let off = f.free_space - (length q + 4) in
    let whole : f.free_space ≡ v.gap = ground (arith, v.free) in
    let longer : length (pack_all (ps ++ q ∷ [])) ≡ (length q + 4) + length (pack_all ps) =
      ap length (pack_all-snoc ps q)
      ∙ omega (arith, length-append (packed q) (pack_all ps), length-packed q) in
    record {
      pkgs = All-append IsPkg ps (q ∷ []) v.pkgs (h, tt);
      next = first_size-snoc ps q f.next_size v.pkgs v.next;
      gap = off;
      room = omega arith;
      sized = v.sized ∙ omega (arith, longer, whole);
      free = inr refl;
      on_disk = inl (written off v.gap q ps f.bytes h (omega (arith, whole)) v.on_disk);
    }

abbrev stored_in : Ffile → ℕ → List ℕ → Ffile
stored_in f n new = record f {
  free_space = f.free_space - (n + 4);
  next_size = if f.next_size == 0 then n else f.next_size;
  bytes = write_at (f.free_space - (n + 4)) new f.bytes;
}

-- There is room for the package.
append-success :
    (f : Ffile) (ps : List Pkg) (q : Pkg)
    → Holds f ps
    → IsPkg q
    → length q + 8 ≤ f.free_space
    → (g : Ffile) × (ffile_append true f q ≡ (ffile_success, g)) × Holds g (ps ++ q ∷ [])
unfolding ffile_append
append-success f ps q v h fit =
    let n = length q % 2 ^ 32 in
    let short : length q % 2 ^ 32 ≡ length q = omega (arith, h.2) in
    let room : ltb f.free_space (length q % 2 ^ 32 + 8) ≡ false = ground (arith, short) in
    (
      stored_in f n (take n q ++ to_bytes 4 n),
      rw room refl,
      subst (λ w. Holds (stored_in f n w) (ps ++ q ∷ [])) (sym (append_bytes q h))
          (subst (λ k. Holds (stored_in f k (packed q)) (ps ++ q ∷ [])) (sym short)
            (append_room f ps q v h fit)),
    )

-- `ffile_append` on a file that holds packages, when writing succeeds, stores the package behind the
-- others; without free space it answers so and changes none of them.
pub ffile_append_lem :
    (f : Ffile) (ps : List Pkg) (q : Pkg)
    → Holds f ps
    → IsPkg q
    → Appended f ps q (ffile_append true f q)
unfolding ffile_append
ffile_append_lem f ps q v h =
    let short : length q % 2 ^ 32 ≡ length q = omega (arith, h.2) in
    elim (Bool-cases (ltb f.free_space (length q % 2 ^ 32 + 8))) [
      | inl no_room ↦ rw no_room (
        record {
          pkgs = v.pkgs;
          next = v.next;
          gap = v.gap;
          room = v.room;
          sized = v.sized;
          free = inl refl;
          on_disk = v.on_disk;
        },
        ground (arith, short),
      )
      | inr room ↦
          let (g, e, holds) = append-success f ps q v h (ground (arith, short)) in
          subst (Appended f ps q) (sym e) holds
    ]

pub empty_file-Holds : (n : ℕ) → 4 ≤ n → n % 2 ^ 32 ≡ n → Holds (empty_file n) []
empty_file-Holds n room fits = record {
  pkgs = tt;
  next = refl;
  gap = n;
  room = room;
  sized = omega arith;
  free = inr fits;
  on_disk = inr (refl, refl);
}

-- `ffile_new` of a file that is not there yet makes one that holds the package it is for.
pub ffile_new-created :
    (default_size : ℕ) (q : Pkg)
    → 4 ≤ default_size
    → default_size < 2 ^ 32
    → IsPkg q
    → (g : Ffile) × (ffile_new true true default_size (some q) none ≡ some g) × Holds g (q ∷ [])
unfolding ffile_new ffile_created
ffile_new-created default_size q lo hi h =
    let n = new_size default_size (some q) in
    let fits : n % 2 ^ 32 ≡ n = ground (arith, h.2) in
    let at_least : length q + 8 ≤ n = ground arith in
    let empty = empty_file-Holds n (omega (arith, at_least)) fits in
    let (g, e, holds) =
      append-success (empty_file n) [] q empty h (omega (arith, fits, at_least)) in
    (g, ap appended e, holds)
