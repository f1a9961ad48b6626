-- ===== src/Fifo/Chain.antt =====
-- The files of a queue, from the oldest to the newest, and the packages in them.
use mathlib.Core.List.{append_assoc}
use mathlib.Core.Option.{some-injective}
use siridb_server.Base.{
  ℕ, suc, ◌≤◌, ◌<◌, ◌≡◌, ◌≢◌, refl, ap, sym, subst, ◌∙◌, true, false, Option, some, List, [], ◌∷◌,
  ◌++◌, arith, ◌==◌,
}
use siridb_server.Ffile.{Pkg, Ffile}
use siridb_server.Ffile.Layout.{Holds}
use siridb_server.Fifo.{Fifo, set_file}

-- `files`, as a pointer `id` sees them.
abbrev pub Files : Type 0
Files = ℕ → Option Ffile

-- A file that is empty has room for packages of `d` bytes with what goes with them.
abbrev pub HasRoom : ℕ → Ffile → List Pkg → Type 0
HasRoom d f ps = ps ≡ [] → d ≤ f.free_space

-- From `id` on: files with packages, the last of which is `last`, below `n`. Only the last can be
-- empty.
abbrev pub Waiting : ℕ → Files → ℕ → ℕ → ℕ → List ℕ → List Pkg → Type 0
Waiting d files last n id [] qs =
    (id ≡ last) × (id < n) × (f : Ffile) × (files id ≡ some f) × Holds f qs × HasRoom d f qs
Waiting d files last n id (k ∷ ks) qs =
    (id < k)
    × (f : Ffile) × (p : Pkg) × (ps : List Pkg) × (rest : List Pkg) × (files id ≡ some f)
    × Holds f (p ∷ ps)
    × (qs ≡ (p ∷ ps) ++ rest)
    × Waiting d files last n k ks rest

-- The file `out` and those behind it.
abbrev pub Chain : ℕ → Files → ℕ → ℕ → ℕ → List ℕ → List Pkg → Type 0
Chain d files last n id [] qs =
    (id ≡ last) × (id < n) × (f : Ffile) × (files id ≡ some f) × Holds f qs
Chain d files last n id (k ∷ ks) qs = Waiting d files last n id (k ∷ ks) qs

-- The queue `t` holds the packages `qs`, the oldest first.
pub record Represents (d : ℕ) (t : Fifo) (qs : List Pkg) : Type 0 where
  pub chain : Chain d t.files t.in_file t.next_id t.out_file t.fifos qs

pub set_file_self : (id : ℕ) (v : Option Ffile) (files : Files) → set_file id v files id ≡ v
set_file_self id v files = let same : (id == id) ≡ true = ground arith in rw same refl

pub set_file_ne :
    (id k : ℕ) (v : Option Ffile) (files : Files) → k ≢ id → set_file id v files k ≡ files k
set_file_ne id k v files h = let other : (k == id) ≡ false = ground arith in rw other refl

module _ (d : ℕ) (files : Files) (last n : ℕ) where
  pub Waiting-le :
      (id : ℕ) (ks : List ℕ) (qs : List Pkg)
      → Waiting d files last n id ks qs
      → (id ≤ last) × (last < n)
  Waiting-le id [] qs w = (omega (arith, w.0), omega (arith, w.0, w.1))
  Waiting-le id (k ∷ ks) qs (less, f, p, ps, rest, here, holds, all, more) =
      let (le, lt) = Waiting-le k ks rest more in (omega arith, lt)

  -- The last file, and something about it.
  pub Waiting-last :
      (id : ℕ) (ks : List ℕ) (qs : List Pkg)
      → Waiting d files last n id ks qs
      → (f : Ffile) × (ps : List Pkg) × (files last ≡ some f) × Holds f ps × HasRoom d f ps
  Waiting-last id [] qs (is_last, below, f, here, holds, room) =
      (f, qs, ap files (sym is_last) ∙ here, holds, room)
  Waiting-last id (k ∷ ks) qs (less, f, p, ps, rest, here, holds, all, more) =
      Waiting-last k ks rest more

  -- Files before `id` do not count.
  pub Waiting-agree :
      (files' : Files) (id : ℕ) (ks : List ℕ) (qs : List Pkg)
      → ((k : ℕ) → id ≤ k → files' k ≡ files k)
      → Waiting d files last n id ks qs
      → Waiting d files' last n id ks qs
  Waiting-agree files' id [] qs same (is_last, below, f, here, holds, room) =
      (is_last, below, f, same id (omega arith) ∙ here, holds, room)
  Waiting-agree files' id (k ∷ ks) qs same (less, f, p, ps, rest, here, holds, all, more) = (
    less,
    f,
    p,
    ps,
    rest,
    same id (omega arith) ∙ here,
    holds,
    all,
    Waiting-agree files' k ks rest (λ j h. same j (omega arith)) more,
  )

  module _ (files' : Files) (new : List Pkg) (f g : Ffile)
      (same : (k : ℕ) → k < last → files' k ≡ files k) (old : files last ≡ some f)
      (now : files' last ≡ some g) where
    -- The last file is replaced by one that holds the packages `new` as well.
    pub Waiting-update :
        (id : ℕ) (ks : List ℕ) (qs : List Pkg)
        → ((ps : List Pkg)
            → Holds f ps
            → HasRoom d f ps
            → Holds g (ps ++ new) × HasRoom d g (ps ++ new))
        → Waiting d files last n id ks qs
        → Waiting d files' last n id ks (qs ++ new)
    Waiting-update id [] qs step (is_last, below, f', here, holds, room) =
        let same_file : f' ≡ f = some-injective f' f (sym here ∙ ap files is_last ∙ old) in
        let (holds', room') =
          step qs (subst (λ x. Holds x qs) same_file holds)
            (subst (λ x. HasRoom d x qs) same_file room) in
        (is_last, below, g, ap files' is_last ∙ now, holds', room')
    Waiting-update id (k ∷ ks) qs step (less, f', p, ps, rest, here, holds, all, more) =
        let (le, lt) = Waiting-le k ks rest more in
        (
          less,
          f',
          p,
          ps,
          rest ++ new,
          same id (omega arith) ∙ here,
          holds,
          ap (λ l. l ++ new) all ∙ append_assoc (p ∷ ps) rest new,
          Waiting-update k ks rest step more,
        )

    -- A new file comes behind the last, which is not empty.
    pub Waiting-extend :
        (x : Ffile) (id : ℕ) (ks : List ℕ) (qs : List Pkg)
        → ((ps : List Pkg) → Holds f ps → HasRoom d f ps → Holds g ps × (ps ≢ []))
        → files' n ≡ some x
        → Holds x new
        → HasRoom d x new
        → Waiting d files last n id ks qs
        → Waiting d files' n (suc n) id (ks ++ n ∷ []) (qs ++ new)
    Waiting-extend x id [] [] step there hx rx (is_last, below, f', here, holds, room) =
        let same_file : f' ≡ f = some-injective f' f (sym here ∙ ap files is_last ∙ old) in
        let (holds', filled) =
          step [] (subst (λ x. Holds x []) same_file holds)
            (subst (λ x. HasRoom d x []) same_file room) in
        absurd (filled refl)
    Waiting-extend x id [] (p ∷ ps) step there hx rx (is_last, below, f', here, holds, room) =
        let same_file : f' ≡ f = some-injective f' f (sym here ∙ ap files is_last ∙ old) in
        let (holds', filled) =
          step (p ∷ ps) (subst (λ x. Holds x (p ∷ ps)) same_file holds)
            (subst (λ x. HasRoom d x (p ∷ ps)) same_file room) in
        (
          below,
          g,
          p,
          ps,
          new,
          ap files' is_last ∙ now,
          holds',
          refl,
          (refl, omega arith, x, there, hx, rx),
        )
    Waiting-extend x id (k ∷ ks) qs step there hx rx
          (less, f', p, ps, rest, here, holds, all, more) =
        let (le, lt) = Waiting-le k ks rest more in
        (
          less,
          f',
          p,
          ps,
          rest ++ new,
          same id (omega arith) ∙ here,
          holds,
          ap (λ l. l ++ new) all ∙ append_assoc (p ∷ ps) rest new,
          Waiting-extend x k ks rest step there hx rx more,
        )
