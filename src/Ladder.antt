-- ===== src/Ladder.antt =====
-- ladder.go: chart resolutions, their buckets, and the boundaries of buckets. Timestamps are int64
-- milliseconds; no sum here leaves their range for a time before the year 292 million.
pub mod Align
pub mod Boundaries
use arca_go_sdk.Prelude.{
  ℕ, zero, suc, ◌+◌, ◌*◌, ◌/◌, String, List, [], ◌∷◌, Option, none, some, Bool, true, false,
  if◌then◌else◌,
}
use arca_go_sdk.Prelude.Int.{ℤ, pos, negsuc, pos_part, neg_part, ◌+ℤ◌, ◌-ℤ◌, leb_ℤ, ltb_ℤ}

-- `unknown` is any other text.
pub data Resolution : Type 0 where
  res_1m res_5m res_15m res_30m res_1h res_4h res_1d unknown : Resolution

unfoldable pub bucket_ms : Resolution → ℕ
bucket_ms res_1m = 60000
bucket_ms res_5m = 300000
bucket_ms res_15m = 900000
bucket_ms res_30m = 1800000
bucket_ms res_1h = 3600000
bucket_ms res_4h = 14400000
bucket_ms res_1d = 86400000
bucket_ms unknown = 60000

unfoldable pub retention_ms : Resolution → ℕ
retention_ms res_1m = 604800000
retention_ms res_5m = 2592000000
retention_ms res_15m = 3888000000
retention_ms res_30m = 5184000000
retention_ms res_1h = 7776000000
retention_ms res_4h = 15552000000
retention_ms res_1d = 315360000000
retention_ms unknown = 604800000

-- -n. Go's division rounds to 0.
abbrev pub negated : ℕ → ℤ
negated zero = pos zero
negated (suc n) = negsuc n

unfoldable pub align_down : ℤ → Resolution → ℤ
unfolding bucket_ms
align_down (pos n) r = pos (n / bucket_ms r * bucket_ms r)
align_down (negsuc n) r = negated (suc n / bucket_ms r * bucket_ms r)

abbrev pub eqb_ℤ : ℤ → ℤ → Bool
eqb_ℤ a b = if leb_ℤ a b then leb_ℤ b a else false

unfoldable pub align_up : ℤ → Resolution → ℤ
unfolding align_down bucket_ms
align_up ts r =
    let down = align_down ts r in if eqb_ℤ down ts then down else down +ℤ pos (bucket_ms r)

-- `for cur := start; cur <= end; cur += b`, with fuel for the turns.
unfoldable pub steps : ℕ → ℤ → ℤ → ℕ → List ℤ
steps zero cur end_ b = []
steps (suc fuel) cur end_ b =
    let rest = steps fuel (cur +ℤ pos b) end_ b in if leb_ℤ cur end_ then cur ∷ rest else []

unfoldable pub boundaries : ℤ → ℤ → Resolution → List ℤ
unfolding align_up align_down steps bucket_ms
boundaries from to r =
    if leb_ℤ to from
    then []
    else let start = align_up from r in
      let end_ = align_down to r in
      if ltb_ℤ end_ start
      then []
      else steps (suc (pos_part (end_ -ℤ start) / bucket_ms r)) start end_ (bucket_ms r)

unfoldable pub promotion_target : Resolution → Option Resolution
promotion_target res_1m = some res_5m
promotion_target res_5m = some res_15m
promotion_target res_15m = some res_30m
promotion_target res_30m = some res_1h
promotion_target res_1h = some res_4h
promotion_target res_4h = some res_1d
promotion_target res_1d = none
promotion_target unknown = none
