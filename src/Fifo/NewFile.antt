-- ===== src/Fifo/NewFile.antt =====
-- The packages of a queue after an append to its file `in`, or to a new file.

use mathlib.Core.Option.{some-injective}
use siridb_server.Base.{
  ℕ, suc, ◌+◌, ◌≤◌, ◌<◌, ◌≡◌, refl, ap, sym, subst, ◌∙◌, true, Option, none, some, List, [], ◌∷◌,
  ◌++◌, arith, ◌==◌, length,
}
use siridb_server.Ffile.{Pkg, Ffile}
use siridb_server.Ffile.Layout.{Holds}
use siridb_server.Fifo.{Fifo, set_file, put, use_file}
use siridb_server.Fifo.Chain.{
  Files, Chain, set_file_self, set_file_ne, Waiting-le, Waiting-last, Waiting-update,
  Waiting-extend,
}
use siridb_server.Fifo.Place.{Becomes, filled-next, append-not_nil, use_file-empty, use_file-listed}

module _ (d : ℕ) (t : Fifo) where
  -- The file `in` is there.
  pub Chain-in :
      (ks : List ℕ) (qs : List Pkg)
      → Chain d t.files t.in_file t.next_id t.out_file ks qs
      → (f : Ffile) × (ps : List Pkg) × (t.files t.in_file ≡ some f) × Holds f ps
  Chain-in [] qs (is_last, below, f, here, holds) = (f, qs, ap t.files (sym is_last) ∙ here, holds)
  Chain-in (k ∷ ks) qs w =
      let (f, ps, here, holds, room) =
        Waiting-last d t.files t.in_file t.next_id t.out_file (k ∷ ks) qs w in
      (f, ps, here, holds)

  same_before :
      (v : Option Ffile) (k : ℕ) → k < t.in_file → set_file t.in_file v t.files k ≡ t.files k
  same_before v k h = set_file_ne t.in_file k v t.files (λ e. absurd (omega (arith, e)))

  -- A package was stored in the file `in`.
  pub Chain-stored :
      (f g : Ffile) (q : Pkg) (ks : List ℕ) (qs : List Pkg)
      → t.files t.in_file ≡ some f
      → ((ps : List Pkg) → Holds f ps → Holds g (ps ++ q ∷ []))
      → Chain d t.files t.in_file t.next_id t.out_file ks qs
      → Chain d
          (set_file t.in_file (some g) t.files)
          t.in_file
          t.next_id
          t.out_file
          ks
          (qs ++ q ∷ [])
  Chain-stored f g q [] qs old step (is_last, below, f', here, holds) =
      let same_file : f' ≡ f = some-injective f' f (sym here ∙ ap t.files is_last ∙ old) in
      (
        is_last,
        below,
        g,
        ap (set_file t.in_file (some g) t.files) is_last ∙ set_file_self t.in_file (some g) t.files,
        step qs (subst (λ x. Holds x qs) same_file holds),
      )
  Chain-stored f g q (k ∷ ks) qs old step w =
      Waiting-update d t.files t.in_file t.next_id (set_file t.in_file (some g) t.files) (q ∷ []) f
        g (same_before (some g)) old (set_file_self t.in_file (some g) t.files) t.out_file (k ∷ ks)
        qs (λ ps v room. (step ps v, λ e. absurd (append-not_nil ps q e))) w

  module _ (f g x : Ffile) (q : Pkg) (old : t.files t.in_file ≡ some f)
      (kept : (ps : List Pkg) → Holds f ps → Holds g ps × (f.free_space < length q + 8))
      (fits : length q + 8 ≤ d) (new : Holds x (q ∷ [])) where
    abbrev files1 : Files
    files1 = set_file t.in_file (some g) t.files

    abbrev files2 : Files
    files2 = set_file t.next_id (some x) files1

    files2_new : files2 t.next_id ≡ some x
    files2_new = set_file_self t.next_id (some x) files1

    files2_in : t.in_file < t.next_id → files2 t.in_file ≡ some g
    files2_in below =
        set_file_ne t.next_id t.in_file (some x) files1 (λ e. absurd (omega (arith, e)))
        ∙ set_file_self t.in_file (some g) t.files

    files2_before : t.in_file < t.next_id → (k : ℕ) → k < t.in_file → files2 k ≡ t.files k
    files2_before below k h =
        set_file_ne t.next_id k (some x) files1 (λ e. absurd (omega (arith, e)))
        ∙ same_before (some g) k h

    -- The file `in` has not enough space, and is the only one.
    alone-new :
        (qs : List Pkg)
        → t.fifos ≡ []
        → Chain d t.files t.in_file t.next_id t.out_file [] qs
        → Becomes d (qs ++ q ∷ []) (use_file true (put t t.in_file g) x)
    alone-new [] none_more (is_last, below, f', here, holds) =
        let same_file : f' ≡ f = some-injective f' f (sym here ∙ ap t.files is_last ∙ old) in
        let holds' = kept [] (subst (λ x. Holds x []) same_file holds) in
        let out : files2 t.out_file ≡ some g =
          ap files2 is_last ∙ files2_in (omega (arith, is_last)) in
        let empty : (g.next_size == 0) ≡ true = ground (arith, holds'.0.next) in
        (
          _,
          use_file-empty (put t t.in_file g) x g out empty,
          record {
            chain =
                subst
                  (λ ks.
                    Chain d (set_file t.out_file none files2) t.next_id (suc t.next_id) t.next_id ks
                      (q ∷ []))
                  (sym none_more)
                  (
                    refl,
                    omega arith,
                    x,
                    set_file_ne t.out_file t.next_id none files2 (λ e. absurd (omega (arith, e)))
                        ∙ files2_new,
                    new,
                  );
          },
        )
    alone-new (p ∷ ps) none_more (is_last, below, f', here, holds) =
        let same_file : f' ≡ f = some-injective f' f (sym here ∙ ap t.files is_last ∙ old) in
        let holds' = kept (p ∷ ps) (subst (λ x. Holds x (p ∷ ps)) same_file holds) in
        let out : files2 t.out_file ≡ some g =
          ap files2 is_last ∙ files2_in (omega (arith, is_last)) in
        (
          _,
          use_file-listed (put t t.in_file g) x g out (filled-next g p ps holds'.0),
          record {
            chain =
                subst
                  (λ ks.
                    Chain d files2 t.next_id (suc t.next_id) t.out_file (ks ++ t.next_id ∷ [])
                      ((p ∷ ps) ++ q ∷ []))
                  (sym none_more)
                  (
                    below,
                    g,
                    p,
                    ps,
                    q ∷ [],
                    out,
                    holds'.0,
                    refl,
                    (refl, omega arith, x, files2_new, new, λ e. absurd (ground arith)),
                  );
          },
        )

    -- The file `in` has not enough space, and is the last of several.
    behind-new :
        (k : ℕ) (ks : List ℕ) (qs : List Pkg)
        → t.fifos ≡ k ∷ ks
        → Chain d t.files t.in_file t.next_id t.out_file (k ∷ ks) qs
        → Becomes d (qs ++ q ∷ []) (use_file true (put t t.in_file g) x)
    behind-new k ks qs more (less, f', p, ps, rest, here, holds, all, behind) =
        let (le, lt) = Waiting-le d t.files t.in_file t.next_id k ks rest behind in
        let out : files2 t.out_file ≡ some f' = files2_before lt t.out_file (omega arith) ∙ here in
        let extended =
          Waiting-extend d t.files t.in_file t.next_id files2 (q ∷ []) f g (files2_before lt) old
            (files2_in lt) x t.out_file (k ∷ ks) qs
            (λ ps v room. ((kept ps v).0, λ e. absurd (omega (arith, room e, (kept ps v).1, fits))))
            files2_new new (λ e. absurd (ground arith))
            (less, f', p, ps, rest, here, holds, all, behind) in
        (
          _,
          use_file-listed (put t t.in_file g) x f' out (filled-next f' p ps holds),
          record {
            chain =
                subst
                  (λ ks.
                    Chain d files2 t.next_id (suc t.next_id) t.out_file (ks ++ t.next_id ∷ [])
                      (qs ++ q ∷ []))
                  (sym more) extended;
          },
        )

    pub new_file :
        (qs : List Pkg) (ks : List ℕ)
        → t.fifos ≡ ks
        → Chain d t.files t.in_file t.next_id t.out_file ks qs
        → Becomes d (qs ++ q ∷ []) (use_file true (put t t.in_file g) x)
    new_file qs [] e chain = alone-new qs e chain
    new_file qs (k ∷ ks) e chain = behind-new k ks qs e chain
