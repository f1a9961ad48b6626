-- ===== src/Fifo/Tests.antt =====
-- A queue at work, one that loses sight of a package, and the theorems at concrete inputs.
use siridb_server.Base.{
  ℕ, ◌≡◌, refl, true, Option, none, some, List, [], ◌∷◌, ◌++◌, arith, replicate, if◌then◌else◌,
  ◌==◌, inl, inr,
}
use siridb_server.Ffile.{
  Pkg, Ffile, empty_file, ffile_append, ffile_new, ffile_created, ffile_existing, ffile_pop,
  ffile_pop_commit,
}
use siridb_server.Ffile.Layout.{IsPkg}
use siridb_server.Ffile.Append.{empty_file-Holds}
use siridb_server.Fifo.{
  Fifo, fifo_has_data, place_file, use_file, after_append, fifo_append, shift_out, after_commit,
  fifo_commit, fifo_pop, init_files, fifo_new,
}
use siridb_server.Fifo.Chain.{Represents}
use siridb_server.Fifo.Place.{Becomes}
use siridb_server.Fifo.Queue.{fifo_append_lem}
use siridb_server.Fifo.Pop.{fifo_pop_lem}
use siridb_server.Fifo.Restart.{on_disk, fifo_new_lem}
use siridb_server.Fifo.Replay.{
  Op, send, handle, restart, committed, step, run, list_run, Agrees, run-list_run,
}

abbrev pkg : ℕ → Pkg
pkg b = 1 ∷ 0 ∷ 0 ∷ 0 ∷ 5 ∷ 0 ∷ 3 ∷ 252 ∷ b ∷ []

-- A new queue over files of 40 bytes.
abbrev start : Fifo
start = record {
  files = λ id. if id == 0 then some (empty_file 40) else none;
  fifos = [];
  in_file = 0;
  out_file = 0;
  next_id = 1;
}

-- Two packages fit in a file.
abbrev ops : List Op
ops =
    send (pkg 1)
    ∷ send (pkg 2)
    ∷ send (pkg 3)
    ∷ handle
    ∷ restart
    ∷ send (pkg 4)
    ∷ handle
    ∷ handle
    ∷ handle
    ∷ handle
    ∷ []

abbrev handed_over : Option (List Pkg × Fifo) → List Pkg
handed_over none = []
handed_over (some r) = r.0

in_order : handed_over (run 40 ops start) ≡ pkg 1 ∷ pkg 2 ∷ pkg 3 ∷ pkg 4 ∷ []
unfolding run step committed fifo_has_data fifo_append after_append use_file place_file fifo_pop
    fifo_commit after_commit shift_out fifo_new init_files ffile_append ffile_new ffile_created
    ffile_existing ffile_pop ffile_pop_commit
in_order = refl

-- A package that does not fit in a file of the default size, after a restart: the empty file that the
-- restart made stays in front of it.
abbrev large : Pkg
large = 33 ∷ 0 ∷ 0 ∷ 0 ∷ 5 ∷ 0 ∷ 3 ∷ 252 ∷ replicate 33 7

hidden :
    handed_over (run 40 (send (pkg 1) ∷ restart ∷ send large ∷ handle ∷ handle ∷ []) start)
    ≡ pkg 1 ∷ []
unfolding run step committed fifo_has_data fifo_append after_append use_file place_file fifo_pop
    fifo_commit after_commit shift_out fifo_new init_files ffile_append ffile_new ffile_created
    ffile_existing ffile_pop ffile_pop_commit
hidden = refl

pkg-IsPkg : (b : ℕ) → IsPkg (pkg b)
pkg-IsPkg b = (omega arith, refl, omega arith)

start-Represents : Represents 40 start []
start-Represents = record {
  chain = (refl, omega arith, empty_file 40, refl, empty_file-Holds 40 (omega arith) refl);
}

fifo_append_lem_example : Becomes 40 (pkg 1 ∷ []) (fifo_append true true 40 start (pkg 1))
fifo_append_lem_example =
    fifo_append_lem 40 start [] (pkg 1) (omega arith) (omega arith) (pkg-IsPkg 1) (omega arith)
      start-Represents

run-list_run_example : Agrees 40 (list_run ops []) (run 40 ops start)
run-list_run_example =
    run-list_run 40 ops start [] (omega arith) (omega arith)
      (
        (pkg-IsPkg 1, omega arith),
        (
          (pkg-IsPkg 2, omega arith),
          (
            (pkg-IsPkg 3, omega arith),
            (tt, (tt, ((pkg-IsPkg 4, omega arith), (tt, (tt, (tt, (tt, tt))))))),
          ),
        ),
      )
      start-Represents

-- The queue with one package in it.
abbrev one_file : Ffile
one_file = record {
  free_space = 27;
  next_size = 9;
  size = 40;
  bytes = replicate 27 0 ++ (pkg 1 ++ 9 ∷ 0 ∷ 0 ∷ 0 ∷ []);
}

abbrev one : Fifo
one = record {
  files = λ id. if id == 0 then some one_file else none;
  fifos = [];
  in_file = 0;
  out_file = 0;
  next_id = 1;
}

one-Represents : Represents 40 one (pkg 1 ∷ [])
one-Represents = record {
  chain = (
    refl,
    omega arith,
    one_file,
    refl,
    record {
      pkgs = (pkg-IsPkg 1, tt);
      next = refl;
      gap = 27;
      room = omega arith;
      sized = refl;
      free = inr refl;
      on_disk = inl refl;
    },
  );
}

fifo_pop_lem_example :
    (fifo_has_data one ≡ true) × (fifo_pop true true true one ≡ some (some (pkg 1), one))
fifo_pop_lem_example = fifo_pop_lem 40 one (pkg 1) [] true one-Represents

fifo_new_lem_example :
    (u : Fifo) × (fifo_new true true 40 (on_disk one.files (0 ∷ [])) ≡ some u)
    × Represents 40 u (pkg 1 ∷ [])
fifo_new_lem_example = fifo_new_lem 40 one (pkg 1 ∷ []) (omega arith) (omega arith) one-Represents
