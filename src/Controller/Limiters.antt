-- ===== src/Controller/Limiters.antt =====
-- internal/controller/node_controller.go: limiterFor, the table of the nodes' patch limiters. The limiters
-- (golang.org/x/time/rate) are the values of L; what the code calls of them on a change of
-- settings is an instance argument.
use kube_headroom.Prelude.{Option, none, some, if◌then◌else◌, String}
use kube_headroom.Prelude.Int.{ℤ}
use kube_headroom.Prelude.Text.{lookup, insert}
use kube_headroom.Float
use kube_headroom.Float.{Float64}
use kube_headroom.Kube.{GoMap}

-- rate.NewLimiter, Limit, SetLimit and SetBurst.
pub record RateLimiters (L : Type 0) : Type 0 where
  pub new_limiter : Float64 → ℤ → L
  pub limit : L → Float64
  pub set_limit : Float64 → L → L
  pub set_burst : ℤ → L → L

module _ {L : Type 0} ⦃rate : RateLimiters L⦄ where
  -- The limiter of a node: a new one, or the one at hand with the rate that it should have.
  unfoldable pub limiter_at : Float64 → Option L → L
  limiter_at pps none = rate.new_limiter pps (Float.to_int pps)
  limiter_at pps (some limiter) =
      if Float.eq (rate.limit limiter) pps
      then limiter
      else rate.set_burst (Float.to_int pps) (rate.set_limit pps limiter)

  -- limiterFor: the limiter, and the table that holds it.
  unfoldable pub limiter_for : String → Float64 → GoMap L → L × GoMap L
  limiter_for node pps limiters =
      let limiter = limiter_at pps (lookup node limiters) in (limiter, insert node limiter limiters)
