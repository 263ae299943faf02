-- ===== src/Ladder/Align.antt =====
-- ladder.go: where AlignDown and AlignUp put a timestamp.
use arca_go_sdk.Prelude.{
  ℕ, suc, ◌==◌, Bool-cases, inl, inr, sym, ap, ◌∙◌, ◌+◌, ◌*◌, ◌/◌, ◌≤◌, ◌<◌, ◌≡◌, refl, arith,
  if◌then◌else◌,
}
use arca_go_sdk.Prelude.Int.{pos, ◌+ℤ◌}
use arca_go_sdk.Ladder.{
  Resolution, res_1m, res_5m, res_15m, res_30m, res_1h, res_4h, res_1d, unknown, bucket_ms,
  align_down, align_up,
}

pub down_lem :
    (r : Resolution) (n : ℕ)
    → (n / bucket_ms r * bucket_ms r ≤ n) × (n < n / bucket_ms r * bucket_ms r + bucket_ms r)
unfolding bucket_ms
down_lem res_1m n = omega arith
down_lem res_5m n = omega arith
down_lem res_15m n = omega arith
down_lem res_30m n = omega arith
down_lem res_1h n = omega arith
down_lem res_4h n = omega arith
down_lem res_1d n = omega arith
down_lem unknown n = omega arith

pub suc_mul : (r : Resolution) (q : ℕ) → suc q * bucket_ms r ≡ q * bucket_ms r + bucket_ms r
unfolding bucket_ms
suc_mul res_1m q = omega arith
suc_mul res_5m q = omega arith
suc_mul res_15m q = omega arith
suc_mul res_30m q = omega arith
suc_mul res_1h q = omega arith
suc_mul res_4h q = omega arith
suc_mul res_1d q = omega arith
suc_mul unknown q = omega arith

pub align_up_pos :
    (r : Resolution) (n : ℕ)
    → let d = n / bucket_ms r * bucket_ms r in
      align_up (pos n) r ≡ (if d == n then pos d else pos (d + bucket_ms r))
unfolding align_up align_down ◌+ℤ◌
align_up_pos r n = ground (arith, down_lem r n)

-- For a time from 1970 on, AlignDown and AlignUp give multiples of the bucket that are at most, and
-- at least, the time, each less than a bucket away; and both give the time itself if it is one.
pub align_lem :
    (r : Resolution) (n : ℕ)
    → (q : ℕ) × (p : ℕ) × (align_down (pos n) r ≡ pos (q * bucket_ms r))
      × (q * bucket_ms r ≤ n)
      × (n < q * bucket_ms r + bucket_ms r)
      × (align_up (pos n) r ≡ pos (p * bucket_ms r))
      × (n ≤ p * bucket_ms r)
      × (p * bucket_ms r < n + bucket_ms r)
      × (q * bucket_ms r ≡ n → p ≡ q)
unfolding align_down
align_lem r n =
    let q = n / bucket_ms r in
    let (low, high) = down_lem r n in
    elim (Bool-cases (q * bucket_ms r == n)) [
      | inl e ↦ (
        q,
        q,
        refl,
        low,
        high,
        align_up_pos r n ∙ rw e refl,
        ground (arith, e),
        omega (arith, low, high),
        λ f. refl,
      )
      | inr e ↦ (
        q,
        suc q,
        refl,
        low,
        high,
        align_up_pos r n ∙ rw e (ap pos (sym (suc_mul r q))),
        ground (arith, suc_mul r q, high),
        ground (arith, suc_mul r q, low, e),
        λ f. absurd (ground (arith, e, f)),
      )
    ]
