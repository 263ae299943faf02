-- ===== src/Ladder/Boundaries.antt =====
-- ladder.go: the loop of Boundaries, and the list that it makes.
use arca_go_sdk.Prelude.{ℕ, zero, suc, ◌*◌, ◌/◌, List, [], ◌∷◌, if◌then◌else◌}
use arca_go_sdk.Prelude.Int.{ℤ, pos, pos_part, ◌-ℤ◌, ltb_ℤ}
use arca_go_sdk.Ladder.{Resolution, bucket_ms, steps}

-- So many numbers from `p` on.
unfoldable pub range : ℕ → ℕ → List ℕ
range p zero = []
range p (suc n) = p ∷ range (suc p) n

abbrev pub boundary : Resolution → ℕ → ℤ
boundary r k = pos (k * bucket_ms r)

-- The list between two aligned times.
abbrev listed : Resolution → ℤ → ℤ → List ℤ
listed r start end_ =
    if ltb_ℤ end_ start
    then []
    else steps (suc (pos_part (end_ -ℤ start) / bucket_ms r)) start end_ (bucket_ms r)
