-- ===== src/Fifo/Restart.antt =====
-- After a restart the queue holds the packages that its files hold.
use mathlib.Core.List.{append-nil}
use siridb_server.Base.{
  ℕ, suc, ◌%◌, ◌^◌, ◌≤◌, ◌<◌, ◌≡◌, refl, ap, sym, subst, ◌∙◌, true, Option, none, some, List, [],
  ◌∷◌, ◌++◌, arith,
}
use siridb_server.Ffile.{Pkg, Ffile, ffile_new, ffile_created, empty_file}
use siridb_server.Ffile.Layout.{Holds}
use siridb_server.Ffile.Append.{empty_file-Holds}
use siridb_server.Ffile.Laws.{Found, ffile_new-existing}
use siridb_server.Fifo.{Fifo, set_file, keep_found, init_files, next_after, with_out, fifo_new}
use siridb_server.Fifo.Chain.{
  Files, HasRoom, Waiting, Chain, Represents, set_file_self, set_file_ne,
}

-- The bytes of a file, where it is there.
abbrev pub entry : ℕ → Option Ffile → List (ℕ × List ℕ)
entry id none = []
entry id (some f) = (id, f.bytes) ∷ []

-- The files of the list, as they are on disk.
abbrev pub on_disk : Files → List ℕ → List (ℕ × List ℕ)
on_disk files [] = []
on_disk files (id ∷ ids) = entry id (files id) ++ on_disk files ids

-- Files with packages, the first of which is `low` or later.
abbrev Listed : ℕ → Files → List ℕ → List Pkg → Type 0
Listed low files [] qs = qs ≡ []
Listed low files (id ∷ ids) qs =
    (low ≤ id)
    × (f : Ffile) × (p : Pkg) × (ps : List Pkg) × (rest : List Pkg) × (files id ≡ some f)
    × Holds f (p ∷ ps)
    × (qs ≡ (p ∷ ps) ++ rest)
    × Listed (suc id) files ids rest

Listed-agree :
    (low low' : ℕ) (files files' : Files) (ids : List ℕ) (qs : List Pkg)
    → low' ≤ low
    → ((k : ℕ) → low ≤ k → files' k ≡ files k)
    → Listed low files ids qs
    → Listed low' files' ids qs
Listed-agree low low' files files' [] qs le same l = l
Listed-agree low low' files files' (id ∷ ids) qs le same
      (at, f, p, ps, rest, here, holds, all, more) =
    (
      omega arith,
      f,
      p,
      ps,
      rest,
      same id at ∙ here,
      holds,
      all,
      Listed-agree (suc id) (suc id) files files' ids rest (omega arith)
          (λ k h. same k (omega arith)) more,
    )

-- A file that was found, before others.
keep_found-Listed :
    (id : ℕ) (ps rest : List Pkg) (r : Option Ffile) (files : Files) (ids : List ℕ)
    → Found ps r
    → Listed (suc id) files ids rest
    → let kept = keep_found id r (files, ids) in Listed id kept.0 kept.1 (ps ++ rest)
keep_found-Listed id ps rest none files ids e l =
    subst (λ qs. Listed id files ids (qs ++ rest)) (sym e)
      (Listed-agree (suc id) id files files ids rest (omega arith) (λ k h. refl) l)
keep_found-Listed id [] rest (some g) files ids (holds, filled) l = absurd (filled refl)
keep_found-Listed id (p ∷ ps) rest (some g) files ids (holds, filled) l = (
  omega arith,
  g,
  p,
  ps,
  rest,
  set_file_self id (some g) files,
  holds,
  refl,
  Listed-agree (suc id) (suc id) files (set_file id (some g) files) ids rest (omega arith)
      (λ k h. set_file_ne id k (some g) files (λ e. absurd (omega (arith, e)))) l,
)

module _ (d : ℕ) where
  -- What `FIFO_init` finds.
  abbrev Finds : ℕ → List (ℕ × List ℕ) → List Pkg → Type 0
  Finds low found qs = let r = init_files true true d found in Listed low r.0 r.1 qs

  init_step :
      (id : ℕ) (f : Ffile) (ps rest : List Pkg) (found : List (ℕ × List ℕ))
      → Holds f ps
      → Listed (suc id) (init_files true true d found).0 (init_files true true d found).1 rest
      → let r = init_files true true d ((id, f.bytes) ∷ found) in Listed id r.0 r.1 (ps ++ rest)
  unfolding init_files
  init_step id f ps rest found v l =
      keep_found-Listed id ps rest (ffile_new true true d none (some f.bytes)) _ _
        (ffile_new-existing f d none ps v) l

  init_last : (id : ℕ) (f : Ffile) (qs : List Pkg) → Holds f qs → Finds id ((id, f.bytes) ∷ []) qs
  init_last id f qs v =
      let r = init_files true true d ((id, f.bytes) ∷ []) in
      subst (Listed id r.0 r.1) (append-nil qs)
        (init_step id f qs [] [] v (unfold init_files in refl))

  -- `FIFO_init` finds the packages of files that wait.
  init-Waiting :
      (files : Files) (last n id : ℕ) (ks : List ℕ) (qs : List Pkg)
      → Waiting d files last n id ks qs
      → Finds id (on_disk files (id ∷ ks)) qs
  init-Waiting files last n id [] qs (is_last, below, f, here, holds, room) =
      subst (λ v. Finds id (entry id v ++ []) qs) (sym here) (init_last id f qs holds)
  init-Waiting files last n id (k ∷ ks) qs (less, f, p, ps, rest, here, holds, all, more) =
      let found = on_disk files (k ∷ ks) in
      let r = init_files true true d found in
      let later : Listed (suc id) r.0 r.1 rest =
        Listed-agree k (suc id) r.0 r.0 r.1 rest less (λ j h. refl)
          (init-Waiting files last n k ks rest more) in
      let whole = init_files true true d ((id, f.bytes) ∷ found) in
      subst (λ v. Finds id (entry id v ++ found) qs) (sym here)
        (subst (Listed id whole.0 whole.1) (sym all)
          (init_step id f (p ∷ ps) rest found holds later))

  init-Chain :
      (files : Files) (last n id : ℕ) (ks : List ℕ) (qs : List Pkg)
      → Chain d files last n id ks qs
      → Finds id (on_disk files (id ∷ ks)) qs
  init-Chain files last n id [] qs (is_last, below, f, here, holds) =
      subst (λ v. Finds id (entry id v ++ []) qs) (sym here) (init_last id f qs holds)
  init-Chain files last n id (k ∷ ks) qs w = init-Waiting files last n id (k ∷ ks) qs w

  -- The files that were found, and a new one behind them.
  Listed-Waiting :
      (files : Files) (n : ℕ) (x : Ffile) (low id : ℕ) (ids : List ℕ) (qs : List Pkg)
      → n ≡ next_after (id ∷ ids)
      → Holds x []
      → HasRoom d x []
      → Listed low files (id ∷ ids) qs
      → (id < n) × Waiting d (set_file n (some x) files) n (suc n) id (ids ++ n ∷ []) qs
  Listed-Waiting files n x low id [] qs e hx rx (at, f, p, ps, rest, here, holds, all, more) =
      let others = set_file_ne n id (some x) files (λ k. absurd (omega (arith, k, e))) in
      (
        omega arith,
        (
          omega arith,
          f,
          p,
          ps,
          [],
          others ∙ here,
          holds,
          all ∙ ap (λ l. (p ∷ ps) ++ l) more,
          (refl, omega arith, x, set_file_self n (some x) files, hx, rx),
        ),
      )
  Listed-Waiting files n x low id (k ∷ ids) qs e hx rx
        (at, f, p, ps, rest, here, holds, all, more) =
      let (below, w) = Listed-Waiting files n x (suc id) k ids rest e hx rx more in
      let less : suc id ≤ k = more.0 in
      let others = set_file_ne n id (some x) files (λ j. absurd (omega (arith, j, below, less))) in
      (
        omega (arith, below, less),
        (omega (arith, less), f, p, ps, rest, others ∙ here, holds, all, w),
      )

  Chain-of :
      (files : Files) (n id : ℕ) (ids : List ℕ) (qs : List Pkg)
      → Waiting d files n (suc n) id (ids ++ n ∷ []) qs
      → Chain d files n (suc n) id (ids ++ n ∷ []) qs
  Chain-of files n id [] qs w = w
  Chain-of files n id (k ∷ ids) qs w = w

  fresh_queue :
      (files : Files) (ids : List ℕ) (x : Ffile) (low : ℕ) (qs : List Pkg)
      → Holds x []
      → HasRoom d x []
      → Listed low files ids qs
      → let n = next_after ids in
        (t : Fifo) × (with_out (set_file n (some x) files) n (ids ++ n ∷ []) ≡ some t)
        × Represents d t qs
  fresh_queue files [] x low qs hx rx l = (
    _,
    refl,
    record {
      chain = (refl, omega arith, x, set_file_self 0 (some x) files, subst (Holds x) (sym l) hx);
    },
  )
  fresh_queue files (id ∷ ids) x low qs hx rx l =
      let n = next_after (id ∷ ids) in
      let (below, w) = Listed-Waiting files n x low id ids qs refl hx rx l in
      (_, refl, record { chain = Chain-of (set_file n (some x) files) n id ids qs w })

  new_file : ffile_new true true d none none ≡ some (empty_file d)
  unfolding ffile_new ffile_created
  new_file = refl

-- When a queue that holds packages is left, whatever the state of its files, and `siridb_fifo_new` makes a
-- queue from the files that are on disk, that queue holds the same packages.
pub fifo_new_lem :
    (d : ℕ) (t : Fifo) (qs : List Pkg)
    → 4 ≤ d
    → d < 2 ^ 32
    → Represents d t qs
    → (u : Fifo) × (fifo_new true true d (on_disk t.files (t.out_file ∷ t.fifos)) ≡ some u)
      × Represents d u qs
unfolding fifo_new
fifo_new_lem d t qs lo hi v =
    let found = on_disk t.files (t.out_file ∷ t.fifos) in
    let r = init_files true true d found in
    let listed : Listed t.out_file r.0 r.1 qs =
      init-Chain d t.files t.in_file t.next_id t.out_file t.fifos qs v.chain in
    let whole : d % 2 ^ 32 ≡ d = omega arith in
    let (u, e, becomes) =
      fresh_queue d r.0 r.1 (empty_file d) t.out_file qs (empty_file-Holds d lo whole)
        (λ e. omega (arith, whole)) listed in
    (u, rw (new_file d, fifo_new) e, becomes)
