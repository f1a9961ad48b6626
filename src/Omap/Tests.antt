-- ===== src/Omap/Tests.antt =====
-- A concrete map, and the theorems at concrete inputs.
use siridb_server.Base.{ℕ, ◌≡◌, refl, true, none, some, [], ◌∷◌, arith, ◌==◌, if◌then◌else◌}
use siridb_server.Omap.{Omap, success, err_exist, err_alloc, omap_add, omap_get, omap_rm, add_from}
use siridb_server.Omap.Laws.{IsValid, omap_add_lem, omap_rm_lem}

abbrev pair : Omap ℕ
pair = record { n = 2; entries = (3, 30) ∷ (8, 80) ∷ [] }

pair-IsValid : IsValid pair
pair-IsValid = omega arith

add_between :
    omap_add true pair 5 50
    ≡ (success, record { n = 3; entries = (3, 30) ∷ (5, 50) ∷ (8, 80) ∷ [] })
unfolding omap_add add_from
add_between = refl

omap_add_lem_example :
    let (rc, m') = omap_add true pair 5 50 in
    (rc ≡ (elim (omap_get pair 5) [
      | some _ ↦ err_exist
      | none ↦ if true then success else err_alloc
    ]))
    × ((i : ℕ)
        → omap_get m' i ≡ (elim rc [
          | success ↦ (if 5 == i then some 50 else omap_get pair i)
          | _ ↦ omap_get pair i
        ]))
    × IsValid m'
omap_add_lem_example = omap_add_lem true pair 5 50 pair-IsValid

omap_rm_lem_example :
    let (r, m') = omap_rm pair 3 in
    (r ≡ omap_get pair 3)
    × ((i : ℕ) → omap_get m' i ≡ (if 3 == i then none else omap_get pair i))
    × IsValid m'
omap_rm_lem_example = omap_rm_lem pair 3 pair-IsValid
