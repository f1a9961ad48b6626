-- ===== src/Access/Tests.antt =====
-- Masks and their texts.
use siridb_server.Base.{◌<◌, ◌≡◌, refl, [], ◌∷◌, arith, length}
use siridb_server.Access.{access_from_strn, access_from_children, access_to_str}
use siridb_server.Access.Masks.{names_in, access_from_children-access_to_str}

-- write, drop and grant
three_names :
    access_to_str 447
    ≡ 119 ∷ 114 ∷ 105 ∷ 116 ∷ 101 ∷ 44 ∷ 32 ∷ 100 ∷ 114 ∷ 111 ∷ 112 ∷ 32 ∷ 97 ∷ 110 ∷ 100 ∷ 32 ∷ 103
      ∷ 114 ∷ 97 ∷ 110 ∷ 116 ∷ []
unfolding access_to_str
three_names = refl

-- A start of a name is taken for the first such name: "s" for select, and nothing for full.
starts : (access_from_strn (115 ∷ []) ≡ 8) × (access_from_strn [] ≡ 1023)
unfolding access_from_strn
starts = (refl, refl)

access_from_children-access_to_str_example :
    (length (access_to_str 447) < 128)
    × (access_from_children 0 (names_in [] (access_to_str 447)) ≡ 447)
access_from_children-access_to_str_example = access_from_children-access_to_str 447 (omega arith)
