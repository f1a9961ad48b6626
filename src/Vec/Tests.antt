-- ===== src/Vec/Tests.antt =====
-- Concrete arrays, and the theorems at concrete inputs.
use siridb_server.Base.{ℕ, ◌≤◌, ◌≡◌, refl, Bool, true, false, [], ◌∷◌, arith, length}
use siridb_server.Vec.{Vec, vec_append_safe}
use siridb_server.Vec.Laws.{IsValid, vec_append_safe_lem}

abbrev full : Vec ℕ
full = record { size = 2; items = 4 ∷ 5 ∷ [] }

abbrev roomy : Vec ℕ
roomy = record { size = 64; items = 4 ∷ 5 ∷ [] }

full-IsValid : IsValid full
full-IsValid = omega arith

append_grows : vec_append_safe true full 6 ≡ (true, record { size = 8; items = 4 ∷ 5 ∷ 6 ∷ [] })
unfolding vec_append_safe
append_grows = refl

vec_append_safe_lem_example :
    let (done, vec') = vec_append_safe true full 6 in
    (length vec'.items ≤ vec'.size)
    × (done ≡ true → vec'.items ≡ 4 ∷ 5 ∷ 6 ∷ [])
    × (done ≡ false → (◌≡◌ {A = Bool} true false) × (length full.items ≡ full.size) × (vec' ≡ full))
    × (◌≡◌ {A = Bool} true true → done ≡ true)
vec_append_safe_lem_example = vec_append_safe_lem true full 6 full-IsValid
