-- ===== src/Fifo/Queue.antt =====
-- The queue over files behaves as a list of packages.

use siridb_server.Base.{
  ℕ, ◌+◌, ◌≤◌, ◌<◌, ◌≡◌, refl, true, some, List, [], ◌∷◌, ◌++◌, arith, ◌^◌, length,
}
use siridb_server.Ffile.{
  Pkg, Ffile, FfileRc, ffile_success, ffile_error, no_free_space, ffile_append,
}
use siridb_server.Ffile.Layout.{IsPkg, Holds}
use siridb_server.Ffile.Append.{Appended, ffile_append_lem, ffile_new-created}
use siridb_server.Fifo.{Fifo, after_append, fifo_append}
use siridb_server.Fifo.Chain.{Chain, Represents}
use siridb_server.Fifo.Place.{Becomes}
use siridb_server.Fifo.NewFile.{Chain-in, Chain-stored, new_file}

module _ (d : ℕ) (t : Fifo) where
  -- What follows `ffile_append`.
  after_append-Becomes :
      (f : Ffile) (q : Pkg) (qs : List Pkg) (r : FfileRc × Ffile)
      → 4 ≤ d
      → d < 2 ^ 32
      → IsPkg q
      → length q + 8 ≤ d
      → t.files t.in_file ≡ some f
      → ((ps : List Pkg) → Holds f ps → Appended f ps q r)
      → (ps : List Pkg) → Holds f ps
      → Chain d t.files t.in_file t.next_id t.out_file t.fifos qs
      → Becomes d (qs ++ q ∷ []) (after_append true true d t q r)
  unfolding after_append
  after_append-Becomes f q qs (ffile_success, g) lo hi is_pkg fits old step ps v chain =
      (_, refl, record { chain = Chain-stored d t f g q t.fifos qs old step chain })
  after_append-Becomes f q qs (ffile_error, g) lo hi is_pkg fits old step ps v chain =
      absurd (ground (arith, step ps v))
  after_append-Becomes f q qs (no_free_space, g) lo hi is_pkg fits old step ps v chain =
      let (x, created, new) = ffile_new-created d q lo hi is_pkg in
      let (u, e, becomes) = new_file d t f g x q old step fits new qs t.fifos refl chain in
      (u, rw (created, after_append) e, becomes)

-- `siridb_fifo_append`, when files can be written and memory is there: a queue that holds packages then
-- holds the new one behind them, in whichever file.
pub fifo_append_lem :
    (d : ℕ) (t : Fifo) (qs : List Pkg) (q : Pkg)
    → 4 ≤ d
    → d < 2 ^ 32
    → IsPkg q
    → length q + 8 ≤ d
    → Represents d t qs
    → Becomes d (qs ++ q ∷ []) (fifo_append true true d t q)
unfolding fifo_append
fifo_append_lem d t qs q lo hi is_pkg fits v =
    let (f, ps, here, holds) = Chain-in d t t.fifos qs v.chain in
    rw (here, fifo_append)
      (after_append-Becomes d t f q qs (ffile_append true f q) lo hi is_pkg fits here
        (λ ps w. ffile_append_lem f ps q w is_pkg) ps holds v.chain)
