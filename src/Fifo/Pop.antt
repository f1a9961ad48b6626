-- ===== src/Fifo/Pop.antt =====
-- Packages leave the queue in the order in which they came.
use mathlib.Core.Option.{some-injective}
use siridb_server.Base.{
  ℕ, ◌≤◌, ◌≡◌, refl, ap, sym, subst, ◌∙◌, Bool, true, false, not, ◌&&◌, none, some, List, [], ◌∷◌,
  ◌++◌, arith, ◌==◌,
}
use siridb_server.Ffile.{Pkg, Ffile}
use siridb_server.Ffile.Layout.{Holds}
use siridb_server.Ffile.Laws.{ffile_pop_lem, ffile_pop_commit_lem}
use siridb_server.Fifo.{
  Fifo, set_file, put, fifo_has_data, shift_out, after_commit, fifo_commit, fifo_pop,
}
use siridb_server.Fifo.Chain.{
  Files, Waiting, Chain, Represents, set_file_self, set_file_ne, Waiting-le, Waiting-agree,
}
use siridb_server.Fifo.Place.{Becomes, filled-next}

-- A file and those behind it are a queue.
Waiting-Chain :
    (d : ℕ) (files : Files) (last n id : ℕ) (ks : List ℕ) (qs : List Pkg)
    → Waiting d files last n id ks qs
    → Chain d files last n id ks qs
Waiting-Chain d files last n id [] qs (is_last, below, f, here, holds, room) =
    (is_last, below, f, here, holds)
Waiting-Chain d files last n id (k ∷ ks) qs w = w

first_or : Pkg → List Pkg → Pkg
first_or d [] = d
first_or d (p ∷ ps) = p

behind_first : List Pkg → List Pkg
behind_first [] = []
behind_first (p ∷ ps) = ps

same_head : (p q : Pkg) (ps qs : List Pkg) → p ∷ ps ≡ q ∷ qs → p ≡ q
unfolding first_or
same_head p q ps qs e = ap (first_or p) e

same_tail : (p q : Pkg) (ps qs : List Pkg) → p ∷ ps ≡ q ∷ qs → ps ≡ qs
unfolding behind_first
same_tail p q ps qs e = ap behind_first e

-- The file `out` stays, and is moved away.
after_commit-stays :
    (t : Fifo) (g : Ffile)
    → ((g.next_size == 0) && not (t.in_file == t.out_file)) ≡ false
    → after_commit t (true, g) ≡ some (true, put t t.out_file g)
unfolding after_commit
after_commit-stays t g e = rw e refl

after_commit-moves :
    (t : Fifo) (g : Ffile) (k : ℕ) (ks : List ℕ)
    → ((g.next_size == 0) && not (t.in_file == t.out_file)) ≡ true
    → t.fifos ≡ k ∷ ks
    → after_commit t (true, g)
      ≡ some (
        true,
        record t {
          files = set_file t.out_file none (set_file t.out_file (some g) t.files);
          fifos = ks;
          out_file = k;
        },
      )
unfolding after_commit shift_out
after_commit-moves t g k ks e more = rw e (rw (more, shift_out) refl)

-- The file `out` holds the oldest packages.
Chain-out :
    (d : ℕ) (files : Files) (last n id : ℕ) (ks : List ℕ) (p : Pkg) (qs : List Pkg)
    → Chain d files last n id ks (p ∷ qs)
    → (f : Ffile) × (ps : List Pkg) × (files id ≡ some f) × Holds f (p ∷ ps)
Chain-out d files last n id [] p qs (is_last, below, f, here, holds) = (f, qs, here, holds)
Chain-out d files last n id (k ∷ ks) p qs (less, f, p', ps, rest, here, holds, all, more) =
    (f, ps, here, subst (λ x. Holds f (x ∷ ps)) (sym (same_head p p' qs (ps ++ rest) all)) holds)

module _ (d : ℕ) (t : Fifo) (f g : Ffile) (p : Pkg) (old : t.files t.out_file ≡ some f)
    (step : (ps : List Pkg) → Holds f (p ∷ ps) → Holds g ps) where
  abbrev left : Files
  left = set_file t.out_file (some g) t.files

  after_commit-Becomes :
      (ks : List ℕ) (qs : List Pkg)
      → t.fifos ≡ ks
      → Chain d t.files t.in_file t.next_id t.out_file ks (p ∷ qs)
      → Becomes d qs (after_commit t (true, g))
  after_commit-Becomes [] qs none_more (is_last, below, f', here, holds) =
      let same_file : f' ≡ f = some-injective f' f (sym here ∙ old) in
      let alone : ((g.next_size == 0) && not (t.in_file == t.out_file)) ≡ false =
        ground (arith, is_last) in
      (
        _,
        after_commit-stays t g alone,
        record {
          chain =
              subst (λ ks. Chain d left t.in_file t.next_id t.out_file ks qs) (sym none_more)
                (
                  is_last,
                  below,
                  g,
                  set_file_self t.out_file (some g) t.files,
                  step qs (subst (λ x. Holds x (p ∷ qs)) same_file holds),
                );
        },
      )
  after_commit-Becomes (k ∷ ks) qs more (less, f', p', [], rest, here, holds, all, behind) =
      let same_file : f' ≡ f = some-injective f' f (sym here ∙ old) in
      let first : p' ≡ p = sym (same_head p p' qs rest all) in
      let holds' : Holds g [] =
        step []
          (subst (λ x. Holds x (p ∷ [])) same_file (subst (λ x. Holds f' (x ∷ [])) first holds)) in
      let (le, lt) = Waiting-le d t.files t.in_file t.next_id k ks rest behind in
      let empty : ((g.next_size == 0) && not (t.in_file == t.out_file)) ≡ true =
        ground (arith, holds'.next) in
      let moved = set_file t.out_file none left in
      let same : (j : ℕ) → k ≤ j → moved j ≡ t.files j = λ j h.
        set_file_ne t.out_file j none left (λ e. absurd (omega (arith, e)))
        ∙ set_file_ne t.out_file j (some g) t.files (λ e. absurd (omega (arith, e))) in
      (
        _,
        after_commit-moves t g k ks empty more,
        record {
          chain = Waiting-Chain d moved t.in_file t.next_id k ks qs (
              subst (Waiting d moved t.in_file t.next_id k ks) (sym (same_tail p p' qs rest all))
                (Waiting-agree d t.files t.in_file t.next_id moved k ks rest same behind));
        },
      )
  after_commit-Becomes (k ∷ ks) qs more (less, f', p', p2 ∷ ps, rest, here, holds, all, behind) =
      let same_file : f' ≡ f = some-injective f' f (sym here ∙ old) in
      let first : p' ≡ p = sym (same_head p p' qs (p2 ∷ (ps ++ rest)) all) in
      let holds' : Holds g (p2 ∷ ps) = step (p2 ∷ ps) (
        subst (λ x. Holds x (p ∷ p2 ∷ ps)) same_file
          (subst (λ x. Holds f' (x ∷ p2 ∷ ps)) first holds)) in
      let filled : (g.next_size == 0) ≡ false = filled-next g p2 ps holds' in
      let same : (j : ℕ) → k ≤ j → left j ≡ t.files j =
        λ j h. set_file_ne t.out_file j (some g) t.files (λ e. absurd (omega (arith, e))) in
      (
        _,
        after_commit-stays t g (rw filled refl),
        record {
          chain =
              subst (λ l. Chain d left t.in_file t.next_id t.out_file l qs) (sym more)
                (
                  less,
                  g,
                  p2,
                  ps,
                  rest,
                  set_file_self t.out_file (some g) t.files,
                  holds',
                  same_tail p p' qs (p2 ∷ (ps ++ rest)) all,
                  Waiting-agree d t.files t.in_file t.next_id left k ks rest same behind,
                );
        },
      )

-- `siridb_fifo_commit`, when the file can be cut: the oldest package is gone, and the others are there.
pub fifo_commit_lem :
    (d : ℕ) (t : Fifo) (p : Pkg) (qs : List Pkg)
    → Represents d t (p ∷ qs)
    → Becomes d qs (fifo_commit true t)
unfolding fifo_commit
fifo_commit_lem d t p qs v =
    let (f, ps, here, holds) =
      Chain-out d t.files t.in_file t.next_id t.out_file t.fifos p qs v.chain in
    let (g, cut, rest) = ffile_pop_commit_lem f p ps holds in
    let step : (ps : List Pkg) → Holds f (p ∷ ps) → Holds g ps = λ ps w.
      let (g', cut', rest') = ffile_pop_commit_lem f p ps w in
      subst (λ x. Holds x ps) (ap (λ r. r.1) (sym cut' ∙ cut)) rest' in
    let (u, e, becomes) = after_commit-Becomes d t f g p here step t.fifos qs refl v.chain in
    (u, rw (here, fifo_commit) (ap (after_commit t) cut ∙ e), becomes)

-- `siridb_fifo_pop`, when the file can be read and memory is there, returns the oldest package of a queue
-- that holds one, for which `siridb_fifo_has_data` is true, and changes nothing.
pub fifo_pop_lem :
    (d : ℕ) (t : Fifo) (p : Pkg) (qs : List Pkg) (commit_io : Bool)
    → Represents d t (p ∷ qs)
    → (fifo_has_data t ≡ true) × (fifo_pop true true commit_io t ≡ some (some p, t))
unfolding fifo_has_data fifo_pop
fifo_pop_lem d t p qs commit_io v =
    let (f, ps, here, holds) =
      Chain-out d t.files t.in_file t.next_id t.out_file t.fifos p qs v.chain in
    (
      rw (here, fifo_has_data) (rw (filled-next f p ps holds) refl),
      rw (here, fifo_pop) (rw (ffile_pop_lem f p ps holds) refl),
    )
