-- ===== src/Backoff/Schedule.antt =====
-- enhancements/0001-zigbee-ember/src/backoff.mts: the sequence of retry delays.
use native.Mathlib.Nat.{pow-suc}
use homey_shs_enhanced.Prelude.{min, ◌≤◌, ℕ, refl, zero, ◌^◌, ◌*◌, suc, arith, ◌≡◌}
use homey_shs_enhanced.Backoff.{
  Doubles, next_backoff_ms, jitter_backoff_ms, retry_initial_ms, retry_max_ms,
}

-- The delay after `k` failed attempts.
unfoldable pub backoff_after : ℕ → ℕ
backoff_after zero = retry_initial_ms
backoff_after (suc k) = next_backoff_ms (backoff_after k)

one-le-pow : (k : ℕ) → 1 ≤ 2 ^ k
one-le-pow zero = omega arith
one-le-pow (suc k) = rw pow-suc (omega (arith, one-le-pow k))

-- The delay after k failures is 2 s doubled k times, up to 60 s.
pub backoff_after-eq : (k : ℕ) → backoff_after k ≡ min (retry_initial_ms * 2 ^ k) retry_max_ms
unfolding backoff_after next_backoff_ms
backoff_after-eq zero = refl
backoff_after-eq (suc k) = rw (backoff_after-eq k, pow-suc) (omega (arith, one-le-pow k))

module _ (d : Doubles) where
  open d use {Double, plus_mono, times_mono_left, times_mono_right, round_mono, Le}

  -- A larger random draw never shortens the delay, which the cap bounds whatever the draw.
  pub jitter_mono :
      (delay_ms : ℕ) (low high : Double)
      → Le low high
      → (jitter_backoff_ms d delay_ms low ≤ jitter_backoff_ms d delay_ms high)
        × (jitter_backoff_ms d delay_ms high ≤ retry_max_ms)
  unfolding jitter_backoff_ms
  jitter_mono delay_ms low high h =
      let factor =
        plus_mono d.zero_point_eight _ _ (times_mono_left low high d.zero_point_four h) in
      let r = round_mono _ _ (times_mono_right (d.from_int delay_ms) _ _ factor) in
      (omega (arith, r), omega arith)
