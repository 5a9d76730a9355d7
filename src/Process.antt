-- ===== src/Process.antt =====
-- cmd/main.go: the rate limits of the API client at start-up (bootstrapRateLimits, rateLimitsFrom). A
-- float32 that is the conversion of an int32 is an integer, and stands here as that.
mod Tests
use kube_headroom.Prelude.{
  ℕ, zero, suc, ◌*◌, ◌^◌, ◌<◌, ◌≡◌, refl, Bool, true, false, if◌then◌else◌, Option, none, some, ltb,
  arith, inl, inr,
}
use kube_headroom.Prelude.Int.{ℤ, pos, pos_part, ltb_ℤ, ◌<ℤ◌}
use kube_headroom.Float.{nearest_even}
use kube_headroom.Kube.{HeadroomConfigSpec, Read, found, not_found, failed}

-- The first j, from j on, at which n has at most 24 bits after j are dropped; an int32 drops 8 at most.
unfoldable pub dropped_bits : ℕ → ℕ → ℕ → ℕ
dropped_bits zero n j = j
dropped_bits (suc rounds) n j =
    let more = dropped_bits rounds n (suc j) in if ltb n (2 ^ 24 * 2 ^ j) then j else more

-- The conversion float32(v) of a positive int32: to the nearest value of 24 bits, ties to even.
unfoldable pub float32 : ℤ → ℤ
float32 v = let j = dropped_bits 8 (pos_part v) 0 in pos (nearest_even (pos_part v) (2 ^ j) * 2 ^ j)

abbrev pub default_client_qps : ℤ
default_client_qps = pos 50

abbrev pub default_client_burst : ℤ
default_client_burst = pos 100

module _ {Q S : Type 0} where
  -- rateLimitsFrom: the queries per second, and the burst.
  unfoldable pub rate_limits_from : Option (HeadroomConfigSpec Q S) → ℤ × ℤ
  rate_limits_from none = (default_client_qps, default_client_burst)
  rate_limits_from (some spec) = (
    if ltb_ℤ (pos 0) spec.rate_limits.client_qps
        then float32 spec.rate_limits.client_qps
        else default_client_qps,
    if ltb_ℤ (pos 0) spec.rate_limits.client_burst
        then spec.rate_limits.client_burst
        else default_client_burst,
  )

  -- bootstrapRateLimits, from whether the client is built and its read of the singleton.
  unfoldable pub bootstrap_rate_limits : Bool → Read (HeadroomConfigSpec Q S) → ℤ × ℤ
  bootstrap_rate_limits false r = (default_client_qps, default_client_burst)
  bootstrap_rate_limits true not_found = (default_client_qps, default_client_burst)
  bootstrap_rate_limits true failed = (default_client_qps, default_client_burst)
  bootstrap_rate_limits true (found spec) = rate_limits_from (some spec)
