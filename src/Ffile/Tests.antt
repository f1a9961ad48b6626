-- ===== src/Ffile/Tests.antt =====
-- A file at work.
use siridb_server.Base.{◌≡◌, refl, true, none, some, [], ◌∷◌, ◌++◌, replicate}
use siridb_server.Ffile.{Pkg, ffile_append, ffile_new, ffile_created, ffile_existing, ffile_pop}

abbrev one_byte : Pkg
one_byte = 1 ∷ 0 ∷ 0 ∷ 0 ∷ 5 ∷ 0 ∷ 3 ∷ 252 ∷ 77 ∷ []

-- A package of 9 bytes stands at the end of a file of 30, in front of its size.
created :
    ffile_new true true 30 (some one_byte) none
    ≡ some (record {
      free_space = 17;
      next_size = 9;
      size = 30;
      bytes = replicate 17 0 ++ (one_byte ++ 9 ∷ 0 ∷ 0 ∷ 0 ∷ []);
    })
unfolding ffile_new ffile_created ffile_append
created = refl

popped :
    ffile_pop true (record {
      free_space = 0;
      next_size = 9;
      size = 17;
      bytes = replicate 4 0 ++ (one_byte ++ 9 ∷ 0 ∷ 0 ∷ 0 ∷ []);
    })
    ≡ some one_byte
unfolding ffile_pop
popped = refl

-- Four zeros are a file without packages.
removed : ffile_new true true 30 none (some (replicate 4 0)) ≡ none
unfolding ffile_new ffile_existing
removed = refl
