-- ===== src/Fifo/Place.antt =====
-- What `siridb_fifo_append` does with a new file.

use siridb_server.Base.{
  ℕ, suc, ◌≡◌, ◌≢◌, refl, ap, ◌∙◌, Bool, true, false, Option, none, some, List, [], ◌∷◌, ◌++◌,
  arith, ◌==◌,
}
use siridb_server.Ffile.{Pkg, Ffile}
use siridb_server.Ffile.Layout.{Holds}
use siridb_server.Fifo.{Fifo, set_file, place_file, use_file}
use siridb_server.Fifo.Chain.{Represents}

-- A call that ends well, with a queue that holds `qs`.
abbrev pub Becomes : ℕ → List Pkg → Option (Bool × Fifo) → Type 0
Becomes d qs r = (t : Fifo) × (r ≡ some (true, t)) × Represents d t qs

-- A file that holds packages, and its next size.
pub empty-next : (f : Ffile) (qs : List Pkg) → Holds f qs → (f.next_size == 0) ≡ true → qs ≡ []
empty-next f [] v e = refl
empty-next f (p ∷ ps) v e = absurd (ground (arith, v.next, v.pkgs.0.0))

pub filled-next :
    (f : Ffile) (p : Pkg) (ps : List Pkg) → Holds f (p ∷ ps) → (f.next_size == 0) ≡ false
filled-next f p ps v = ground (arith, v.next, v.pkgs.0.0)

pub append-not_nil : (ps : List Pkg) (q : Pkg) → ps ++ q ∷ [] ≢ []
append-not_nil [] q e = absurd (ground arith)
append-not_nil (p ∷ ps) q e = absurd (ground arith)

-- The new file takes the place of an empty `out`.
pub use_file-empty :
    (u : Fifo) (x out : Ffile)
    → set_file u.next_id (some x) u.files u.out_file ≡ some out
    → (out.next_size == 0) ≡ true
    → use_file true u x
      ≡ some (
        true,
        record u {
          files = set_file u.out_file none (set_file u.next_id (some x) u.files);
          in_file = u.next_id;
          out_file = u.next_id;
          next_id = suc u.next_id;
        },
      )
unfolding use_file place_file
use_file-empty u x out here empty = ap (place_file true _) here ∙ rw empty refl

-- The new file comes behind the others.
pub use_file-listed :
    (u : Fifo) (x out : Ffile)
    → set_file u.next_id (some x) u.files u.out_file ≡ some out
    → (out.next_size == 0) ≡ false
    → use_file true u x
      ≡ some (
        true,
        record u {
          files = set_file u.next_id (some x) u.files;
          fifos = u.fifos ++ u.next_id ∷ [];
          in_file = u.next_id;
          next_id = suc u.next_id;
        },
      )
unfolding use_file place_file
use_file-listed u x out here filled = ap (place_file true _) here ∙ rw filled refl
