-- ===== src/Fifo/Replay.antt =====
-- Any use of the queue over files is the same use of a list.
use siridb_server.Base.{
  ℕ, ◌+◌, ◌^◌, ◌≤◌, ◌<◌, ◌≡◌, refl, ap, ◌∙◌, true, false, Option, none, some, List, [], ◌∷◌, ◌++◌,
  arith, ◌==◌, if◌then◌else◌, length, All,
}
use siridb_server.Ffile.{Pkg}
use siridb_server.Ffile.Layout.{IsPkg}
use siridb_server.Fifo.{Fifo, fifo_has_data, fifo_append, fifo_commit, fifo_pop, fifo_new}
use siridb_server.Fifo.Chain.{Chain, Represents}
use siridb_server.Fifo.Queue.{fifo_append_lem}
use siridb_server.Fifo.Pop.{fifo_commit_lem, fifo_pop_lem}
use siridb_server.Fifo.Restart.{on_disk, fifo_new_lem}

-- A package comes, one is handled if there is any, or the server starts again.
pub data Op : Type 0 where
  send : Pkg → Op
  handle restart : Op

abbrev pub IsOp : ℕ → Op → Type 0
IsOp d (send pkg) = IsPkg pkg × (length pkg + 8 ≤ d)
IsOp d handle = Unit
IsOp d restart = Unit

-- A package that was popped is committed.
unfoldable pub committed : Option (Option Pkg × Fifo) → Option (List Pkg × Fifo)
committed none = none
committed (some (none, t)) = some ([], t)
committed (some (some pkg, t)) = elim (fifo_commit true t) [
  | none ↦ none
  | some r ↦ some (pkg ∷ [], r.1)
]

-- The package that an operation hands over, and the queue afterwards.
unfoldable pub step : ℕ → Op → Fifo → Option (List Pkg × Fifo)
step d (send pkg) t = elim (fifo_append true true d t pkg) [ none ↦ none | some r ↦ some ([], r.1) ]
step d handle t = if fifo_has_data t then committed (fifo_pop true true true t) else some ([], t)
step d restart t = elim (fifo_new true true d (on_disk t.files (t.out_file ∷ t.fifos))) [
  | none ↦ none
  | some u ↦ some ([], u)
]

unfoldable pub run : ℕ → List Op → Fifo → Option (List Pkg × Fifo)
run d [] t = some ([], t)
run d (op ∷ ops) t = elim (step d op t) [
  | none ↦ none
  | some r ↦ elim (run d ops r.1) [ none ↦ none | some s ↦ some (r.0 ++ s.0, s.1) ]
]

-- The same on a list of packages.
abbrev pub list_step : Op → List Pkg → List Pkg × List Pkg
list_step (send pkg) qs = ([], qs ++ pkg ∷ [])
list_step handle [] = ([], [])
list_step handle (p ∷ qs) = (p ∷ [], qs)
list_step restart qs = ([], qs)

abbrev pub list_run : List Op → List Pkg → List Pkg × List Pkg
list_run [] qs = ([], qs)
list_run (op ∷ ops) qs =
    let (out, qs') = list_step op qs in let (outs, qs'') = list_run ops qs' in (out ++ outs, qs'')

-- A result with the packages `r.0` handed over and the packages `r.1` in the queue.
abbrev pub Agrees : ℕ → List Pkg × List Pkg → Option (List Pkg × Fifo) → Type 0
Agrees d r s = (t : Fifo) × (s ≡ some (r.0, t)) × Represents d t r.1

no_data :
    (d : ℕ) (t : Fifo) (ks : List ℕ)
    → Chain d t.files t.in_file t.next_id t.out_file ks []
    → fifo_has_data t ≡ false
unfolding fifo_has_data
no_data d t [] (is_last, below, f, here, holds) =
    let empty : (f.next_size == 0) ≡ true = ground (arith, holds.next) in
    rw (here, fifo_has_data) (rw empty refl)
no_data d t (k ∷ ks) (less, f, p, ps, rest, here, holds, all, more) = absurd (ground arith)

step-Agrees :
    (d : ℕ) (op : Op) (t : Fifo) (qs : List Pkg)
    → 4 ≤ d
    → d < 2 ^ 32
    → IsOp d op
    → Represents d t qs
    → Agrees d (list_step op qs) (step d op t)
unfolding step committed
step-Agrees d (send pkg) t qs lo hi (is_pkg, fits) v =
    let (u, e, becomes) = fifo_append_lem d t qs pkg lo hi is_pkg fits v in
    (u, rw (e, step) refl, becomes)
step-Agrees d handle t [] lo hi ok v =
    let none_there = no_data d t t.fifos v.chain in (t, rw (none_there, step) refl, v)
step-Agrees d handle t (p ∷ qs) lo hi ok v =
    let (some_there, popped) = fifo_pop_lem d t p qs true v in
    let (u, e, becomes) = fifo_commit_lem d t p qs v in
    (u, rw (some_there, step) (ap committed popped ∙ rw (e, committed) refl), becomes)
step-Agrees d restart t qs lo hi ok v =
    let (u, e, becomes) = fifo_new_lem d t qs lo hi v in (u, rw (e, step) refl, becomes)

-- Whatever packages come (each fits in a file of the default size), are handled and committed, in
-- whatever order, with the server started again in between or not: as long as files and memory are
-- there, the queue hands over the packages that a list would, in that order, and holds what the list
-- holds. No pointer to a missing file is used on the way.
pub run-list_run :
    (d : ℕ) (ops : List Op) (t : Fifo) (qs : List Pkg)
    → 4 ≤ d
    → d < 2 ^ 32
    → All (IsOp d) ops
    → Represents d t qs
    → Agrees d (list_run ops qs) (run d ops t)
unfolding run
run-list_run d [] t qs lo hi ok v = (t, refl, v)
run-list_run d (op ∷ ops) t qs lo hi ok v =
    let (u, e, after_op) = step-Agrees d op t qs lo hi ok.0 v in
    let (w, e', after_all) = run-list_run d ops u (list_step op qs).1 lo hi ok.1 after_op in
    (w, rw (e, run) (rw (e', run) refl), after_all)
