-- ===== src/Access/Masks.antt =====
-- Every mask and its text.
use siridb_server.Base.{
  ℕ, ◌<◌, ◌≡◌, refl, Bool, true, ◌&&◌, ◌||◌, List, [], ◌∷◌, ◌++◌, arith, ◌==◌, ltb, if◌then◌else◌,
  length, every, every_lem,
}
use siridb_server.Access.{same_start, access_from_strn, access_from_children, access_to_str}

-- A word that is no name: empty or "and".
abbrev is_filler : List ℕ → Bool
is_filler word = length word == 0 || (length word == 3 && same_start word (97 ∷ 110 ∷ 100 ∷ []))

abbrev word_or_none : List ℕ → List (List ℕ)
word_or_none word = if is_filler word then [] else word ∷ []

-- What a character does to the word so far: the word that it ends, and the next one.
abbrev cut : ℕ → List ℕ → List (List ℕ) × List ℕ
cut c word = if c == 32 || c == 44 then (word_or_none word, []) else ([], word ++ c ∷ [])

-- The names in a text, which spaces and commas separate; `word` is the word so far.
abbrev pub names_in : List ℕ → List ℕ → List (List ℕ)
names_in word [] = word_or_none word
names_in word (c ∷ text) = (cut c word).0 ++ names_in (cut c word).1 text

comes_back : ℕ → Bool
comes_back bits =
    let text = access_to_str bits in
    ltb (length text) 128 && access_from_children 0 (names_in [] text) == bits

all_come_back : every comes_back 0 1024 ≡ true
unfolding comes_back access_from_strn access_from_children access_to_str
all_come_back = refl

-- The text that `siridb_access_to_str` writes for a mask of access bits fits in SIRIDB_ACCESS_STR_MAX (128)
-- bytes with its final zero, and `siridb_access_from_children` reads the mask back from the names in it.
pub access_from_children-access_to_str :
    (bits : ℕ)
    → bits < 1024
    → (length (access_to_str bits) < 128)
      × (access_from_children 0 (names_in [] (access_to_str bits)) ≡ bits)
unfolding comes_back
access_from_children-access_to_str bits h =
    ground (arith, every_lem comes_back 0 1024 bits all_come_back (omega arith) (omega arith))
