-- ===== src/Fifo.antt =====
-- src/siri/db/fifo.c, include/siri/db/fifo.h: the queue of packages for the replica, over several files
-- (Ffile). New packages go to the file `in`, the oldest are taken from `out`; `fifos` lists the files
-- behind `out`, the last of which is `in` unless both are one file. The files that a pointer can
-- refer to are `files`, and a pointer is the id of the file. `io` and `mem` say whether the C library
-- succeeds on files and gives memory.
pub mod Chain
pub mod Place
pub mod NewFile
pub mod Queue
pub mod Pop
pub mod Restart
pub mod Replay
mod Tests
use siridb_server.Base.{
  ℕ, zero, suc, ◌+◌, Bool, true, false, not, ◌&&◌, Option, none, some, List, [], ◌∷◌, ◌++◌, ◌==◌,
  if◌then◌else◌, length,
}
use siridb_server.Ffile.{
  Pkg, FfileRc, Ffile, ffile_success, ffile_error, no_free_space, ffile_append, ffile_new, can_seek,
  ffile_pop, ffile_pop_commit,
}

-- `next_id` is `max_id + 1`.
pub record Fifo : Type 0 where
  pub files : ℕ → Option Ffile
  pub fifos : List ℕ
  pub in_file : ℕ
  pub out_file : ℕ
  pub next_id : ℕ

abbrev pub set_file : ℕ → Option Ffile → (ℕ → Option Ffile) → ℕ → Option Ffile
set_file id v files k = if k == id then v else files k

abbrev pub put : Fifo → ℕ → Ffile → Fifo
put t id f = record t { files = set_file id (some f) t.files }

-- `siridb_fifo_has_data`
unfoldable pub fifo_has_data : Fifo → Bool
fifo_has_data t = elim (t.files t.out_file) [ none ↦ false | some f ↦ not (f.next_size == 0) ]

-- `siridb_fifo_size`
unfoldable pub fifo_size : Fifo → ℕ
fifo_size t = length t.fifos + 1

-- What `siridb_fifo_append` does with the new file `in`, given `out`. The result says whether there
-- was no error; nothing stands for the use of a pointer to no file.
unfoldable pub place_file : Bool → Fifo → Option Ffile → Option (Bool × Fifo)
place_file mem t none = none
place_file mem t (some out) =
    if out.next_size == 0
    then some (true, record t { files = set_file t.out_file none t.files; out_file = t.in_file })
    else (if mem
        then some (true, record t { fifos = t.fifos ++ t.in_file ∷ [] })
        else some (false, t))

-- What follows the creation of the file `new` in `siridb_fifo_append`.
unfoldable pub use_file : Bool → Fifo → Ffile → Option (Bool × Fifo)
use_file mem t new =
    let files = set_file t.next_id (some new) t.files in
    let u = record t { files = files; in_file = t.next_id; next_id = suc t.next_id } in
    place_file mem u (files t.out_file)

-- The switch of `siridb_fifo_append`; `siridb_ffile_new` must not return NULL.
unfoldable pub after_append : Bool → Bool → ℕ → Fifo → Pkg → FfileRc × Ffile → Option (Bool × Fifo)
after_append mem io default_size t pkg (ffile_success, f) = some (true, put t t.in_file f)
after_append mem io default_size t pkg (ffile_error, f) = some (false, put t t.in_file f)
after_append mem io default_size t pkg (no_free_space, f) =
    elim (ffile_new mem io default_size (some pkg) none) [
      | none ↦ none
      | some new ↦ use_file mem (put t t.in_file f) new
    ]

-- `siridb_fifo_append`
unfoldable pub fifo_append : Bool → Bool → ℕ → Fifo → Pkg → Option (Bool × Fifo)
fifo_append mem io default_size t pkg = elim (t.files t.in_file) [
  | none ↦ none
  | some f ↦ after_append mem io default_size t pkg (ffile_append io f pkg)
]

-- The `out` file is empty: the next file of the list takes its place.
unfoldable pub shift_out : Fifo → List ℕ → Option Fifo
shift_out t [] = none
shift_out t (id ∷ ids) =
    some (record t { files = set_file t.out_file none t.files; fifos = ids; out_file = id })

-- What follows `siridb_ffile_pop_commit` in `siridb_fifo_commit`.
unfoldable pub after_commit : Fifo → Bool × Ffile → Option (Bool × Fifo)
after_commit t (done, f) =
    let alone = t.in_file == t.out_file in
    let g = if not done && not alone then record f { next_size = 0 } else f in
    let u = put t t.out_file g in
    if g.next_size == 0 && not alone
    then (elim (shift_out u u.fifos) [ none ↦ none | some v ↦ some (true, v) ])
    else some (done, u)

-- `siridb_fifo_commit`
unfoldable pub fifo_commit : Bool → Fifo → Option (Bool × Fifo)
fifo_commit io t = elim (t.files t.out_file) [
  | none ↦ none
  | some f ↦ after_commit t (ffile_pop_commit io f)
]

-- `siridb_fifo_pop`: without memory, NULL and no more; when the package cannot be read, NULL, and it
-- is committed.
unfoldable pub fifo_pop : Bool → Bool → Bool → Fifo → Option (Option Pkg × Fifo)
fifo_pop mem io commit_io t = elim (t.files t.out_file) [
  | none ↦ none
  | some f ↦ if not mem && can_seek io f then some (none, t) else (elim (ffile_pop io f) [
    | some pkg ↦ some (some pkg, t)
    | none ↦ elim (fifo_commit commit_io t) [ none ↦ none | some r ↦ some (none, r.1) ]
  ])
]

-- A file that `FIFO_init` makes, and what comes of the files behind it.
abbrev pub keep_found : ℕ → Option Ffile → (ℕ → Option Ffile) × List ℕ → (ℕ → Option Ffile) × List ℕ
keep_found id none r = r
keep_found id (some f) r = (set_file id (some f) r.0, id ∷ r.1)

-- The loop of `FIFO_init` over the files that it finds, with their ids and bytes, in the order of their
-- names: the files that are kept, and the list of them.
unfoldable pub init_files : Bool → Bool → ℕ → List (ℕ × List ℕ) → (ℕ → Option Ffile) × List ℕ
init_files mem io default_size [] = (λ id. none, [])
init_files mem io default_size ((id, bits) ∷ found) =
    keep_found id (ffile_new mem io default_size none (some bits))
      (init_files mem io default_size found)

-- The id behind the last one of the list.
abbrev pub next_after : List ℕ → ℕ
next_after [] = 0
next_after (id ∷ []) = suc id
next_after (id ∷ id2 ∷ ids) = next_after (id2 ∷ ids)

-- The first file of the list becomes `out`.
abbrev pub with_out : (ℕ → Option Ffile) → ℕ → List ℕ → Option Fifo
with_out files n [] = none
with_out files n (id ∷ ids) =
    some (record { files = files; fifos = ids; in_file = n; out_file = id; next_id = suc n })

-- `siridb_fifo_new`, with the files that are on disk; nothing where it returns NULL.
unfoldable pub fifo_new : Bool → Bool → ℕ → List (ℕ × List ℕ) → Option Fifo
fifo_new mem io default_size found =
    let (files, ids) = init_files mem io default_size found in
    let n = next_after ids in
    elim (ffile_new mem io default_size none none) [
      | none ↦ none
      | some f ↦ with_out (set_file n (some f) files) n (ids ++ n ∷ [])
    ]
