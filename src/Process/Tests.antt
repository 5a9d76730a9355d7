-- ===== src/Process/Tests.antt =====
-- Rate limits at start-up.
use kube_headroom.Prelude.{◌≡◌, refl, true}
use kube_headroom.Prelude.Int.{pos}
use kube_headroom.Float
use kube_headroom.Kube.{found}
use kube_headroom.Process.{dropped_bits, float32, rate_limits_from, bootstrap_rate_limits}
use kube_headroom.Samples.{spec}

-- The sample asks for 20 and 30; above 2^24 a float32 skips odd numbers.
limits :
    (bootstrap_rate_limits true (found spec) ≡ (pos 20, pos 30))
    × (float32 (pos 16777217) ≡ pos 16777216)
    × (float32 (pos 16777219) ≡ pos 16777220)
unfolding bootstrap_rate_limits rate_limits_from float32 dropped_bits Float.evaluation
limits = (refl, refl, refl)
