-- ===== src/PointsZip/Tests.antt =====
-- Concrete sizes, chunks and series, and the theorems at concrete inputs.
use siridb_server.Base.{
  ℕ, ◌+◌, ◌≤◌, ◌<◌, ◌^◌, ◌≡◌, refl, false, none, some, List, [], ◌∷◌, ◌++◌, arith, length, take,
  drop,
}
use siridb_server.Points.{Point}
use siridb_server.PointsZip.{set_cinfo_size, get_size_log, zip_raw, unzip_raw, get_interval}
use siridb_server.PointsZip.Size.{set_cinfo_size_lem, get_size_log-set_cinfo_size}
use siridb_server.PointsZip.Raw.{keep, unzip_raw-zip_raw}
use siridb_server.PointsZip.Interval.{get_interval-InSteps}

sizes :
    (set_cinfo_size 40000 ≡ some (0x8028, 40960))
    × (get_size_log 0x8028 ≡ 40960)
    × (set_cinfo_size 0x2000001 ≡ none)
unfolding set_cinfo_size get_size_log
sizes = (refl, refl, refl)

set_cinfo_size_lem_example :
    (40000 ≤ 0x1fffc00
      → (c : ℕ) × (s : ℕ) × (set_cinfo_size 40000 ≡ some (c, s))
        × (c < 2 ^ 16)
        × (get_size_log c ≡ s)
        × (40000 ≤ s)
        × (s < 40000 + 1024))
    × (0x2000000 < 40000 → set_cinfo_size 40000 ≡ none)
set_cinfo_size_lem_example = set_cinfo_size_lem 40000

get_size_log-set_cinfo_size_example :
    (c : ℕ) × (s : ℕ) × (set_cinfo_size 0x1fffc01 ≡ some (c, s))
    × (s ≡ 0x2000000)
    × (get_size_log c ≡ 0)
get_size_log-set_cinfo_size_example =
    get_size_log-set_cinfo_size 0x1fffc01 (omega arith) (omega arith)

abbrev three_points : List (Point ℕ)
three_points =
    record { ts = 100; val = 7 } ∷ record { ts = 300; val = 8 } ∷ record { ts = 500; val = 9 } ∷ []

unzip_raw-zip_raw_example :
    let (bits, cinfo, size) = zip_raw three_points 1 3 in
    (length bits ≡ size)
    × (unzip_raw [] bits 2 none (some 400) false
        ≡ [] ++ keep none (some 400) (take 2 (drop 1 three_points)))
unzip_raw-zip_raw_example =
    unzip_raw-zip_raw [] three_points 1 3 none (some 400) (omega arith) (omega arith) (omega arith)
      (omega arith)

abbrev eight_points : List (Point ℕ)
eight_points =
    record { ts = 10; val = 0 }
    ∷ record { ts = 20; val = 0 }
    ∷ record { ts = 30; val = 0 }
    ∷ record { ts = 40; val = 0 }
    ∷ record { ts = 50; val = 0 }
    ∷ record { ts = 60; val = 0 }
    ∷ record { ts = 70; val = 0 }
    ∷ record { ts = 80; val = 0 }
    ∷ []

get_interval-InSteps_example : get_interval eight_points ≡ 10
get_interval-InSteps_example =
    get_interval-InSteps 10 eight_points (omega arith) (omega arith) (omega arith)
