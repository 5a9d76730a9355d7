-- ===== src/Policy.antt =====
-- internal/policy/policy.go: from a node's allocatable CPU and the pods bound to it, each managed
-- pod's target CPU limit. Quantities are int64 milli-cores; a Go int is an int64 too.
mod Tests
pub mod Quantize
pub mod Caps
pub mod Bounds
pub mod Exact
pub mod Monotone
pub mod Churn
pub mod Booked
pub mod Compute
use kube_headroom.Prelude.{
  ℕ, ◌≡◌, refl, Bool, true, false, ◌&&◌, ◌||◌, if◌then◌else◌, List, [], ◌∷◌, String,
}
use kube_headroom.Prelude.Int.{ℤ, pos, quot, min, max, ltb_ℤ, leb_ℤ, eqb_ℤ}
use kube_headroom.Prelude.Int64
use kube_headroom.Float
use kube_headroom.Float.{Float64, rounded}

pub record PodInput : Type 0 where
  pub key : String
  pub request_milli : ℤ
  pub booked_delta_milli : ℤ
  pub current_limit_milli : ℤ
  pub managed : Bool
  pub holds_share : Bool
  pub user_cap_milli : ℤ
  pub limit_range_cap : ℤ
  pub above_request : Bool

-- The tighter of the pod's two ceilings; 0 = none.
unfoldable pub cap_milli : PodInput → ℤ
cap_milli p =
    if leb_ℤ p.user_cap_milli (pos 0)
      || (ltb_ℤ (pos 0) p.limit_range_cap && ltb_ℤ p.limit_range_cap p.user_cap_milli)
    then p.limit_range_cap
    else p.user_cap_milli

pub record Config : Type 0 where
  pub min_burst_floor_milli : ℤ
  pub max_multiplier : Float64
  pub deadband_grow : Float64
  pub deadband_shrink : Float64
  pub quantum_milli : ℤ

unfoldable pub default_config : Config
default_config = record {
  min_burst_floor_milli = pos 1000;
  max_multiplier = rounded false 10 1;
  deadband_grow = rounded false 10 100;
  deadband_shrink = rounded false 5 100;
  quantum_milli = pos 10;
}

pub record Decision : Type 0 where
  pub key : String
  pub target_limit_milli : ℤ
  pub apply : Bool
  pub reason : String

pub record NodeStats : Type 0 where
  pub allocatable_milli : ℤ
  pub total_requests_milli : ℤ
  pub managed_requests_milli : ℤ
  pub slack_milli : ℤ
  pub managed_pods : ℤ
  pub factor : Float64

-- hi of clampAndQuantize: the least of the caps in force, and never below the request.
unfoldable pub ceiling : ℤ → ℤ → ℤ → Config → ℤ
ceiling req allocatable pod_cap cfg =
    let hi =
      (if Float.lt (Float.of_int (pos 0)) cfg.max_multiplier
        then min allocatable
            (Float.to_int (Float.round (Float.mul (Float.of_int req) cfg.max_multiplier)))
        else allocatable) in
    let hi' = (if ltb_ℤ (pos 0) pod_cap then min hi pod_cap else hi) in
    if ltb_ℤ hi' req then req else hi'

-- The rounding of clampAndQuantize to the quantum q, kept within [req, hi].
unfoldable pub quantize : ℤ → ℤ → ℤ → ℤ → ℤ
quantize raw req hi q =
    if leb_ℤ q (pos 0)
    then raw
    else (let target = Int64.mul (quot (Int64.add raw (quot q (pos 2))) q) q in
        let stepped = (if ltb_ℤ hi target then Int64.sub target q else target) in
        if ltb_ℤ stepped req then req else stepped)

unfoldable pub clamp_and_quantize : ℤ → ℤ → ℤ → ℤ → Config → ℤ
clamp_and_quantize raw req allocatable pod_cap cfg =
    let hi = ceiling req allocatable pod_cap cfg in
    quantize (min (max raw req) hi) req hi cfg.quantum_milli

-- The target that finalize puts in place of one the apiserver would refuse.
unfoldable pub lifted : PodInput → Config → ℤ
lifted p cfg =
    let q = max cfg.quantum_milli (pos 1) in
    let target = Int64.mul (Int64.add (quot p.request_milli q) (pos 1)) q in
    if ltb_ℤ p.request_milli p.limit_range_cap then min target p.limit_range_cap else target

-- The deadband rule of finalize: whether to apply the target, and the reason if that replaces it.
unfoldable pub verdict : ℤ → ℤ → String → Config → Bool × String
verdict target cur reason cfg =
    if eqb_ℤ target cur
    then (false, "unchanged")
    else (if leb_ℤ cur (pos 0)
        then (true, reason)
        else (let band = (if ltb_ℤ target cur then cfg.deadband_shrink else cfg.deadband_grow) in
            let frac =
              Float.div (Float.abs (Float.of_int (Int64.sub target cur))) (Float.of_int cur) in
            if Float.le band frac then (true, reason) else (false, "within-deadband")))

abbrev is_lifted : PodInput → ℤ → Bool
is_lifted p target = p.above_request && leb_ℤ target p.request_milli

unfoldable pub finalize : PodInput → ℤ → String → Config → Decision
finalize p target reason cfg =
    let target' = (if is_lifted p target then lifted p cfg else target) in
    let reason' =
      (if is_lifted p target then "limit=request would make the pod Guaranteed" else reason) in
    let (apply', why) = verdict target' p.current_limit_milli reason' cfg in
    record { key = p.key; target_limit_milli = target'; apply = apply'; reason = why }

unfoldable pub reason_for : ℤ → ℤ → String
reason_for target current =
    if leb_ℤ current (pos 0)
    then "set"
    else (if ltb_ℤ current target
        then "grow"
        else (if ltb_ℤ target current then "shrink" else "unchanged"))

-- The burst of decide: the proportional share of the slack, or the slack-aware floor if that is more.
unfoldable pub burst : ℤ → NodeStats → Config → Float64
burst req s cfg =
    let proportional =
      Float.div (Float.mul (Float.of_int s.slack_milli) (Float.of_int req))
        (Float.of_int s.managed_requests_milli) in
    let equal_share = Float.div (Float.of_int s.slack_milli) (Float.of_int s.managed_pods) in
    let floor = Float.math_min (Float.of_int cfg.min_burst_floor_milli) equal_share in
    Float.math_max proportional floor

-- The node is fully booked, or nothing managed has a request.
abbrev pub is_booked : NodeStats → Bool
is_booked s = leb_ℤ s.slack_milli (pos 0) || leb_ℤ s.managed_requests_milli (pos 0)

-- The target of decide, before finalize.
unfoldable pub target_of : PodInput → NodeStats → Config → ℤ
target_of p s cfg =
    let raw =
      (if is_booked s
        then p.request_milli
        else Int64.add p.request_milli
            (Float.to_int (Float.round (burst p.request_milli s cfg)))) in
    clamp_and_quantize raw p.request_milli s.allocatable_milli (cap_milli p) cfg

unfoldable pub decide : PodInput → NodeStats → Config → Decision
decide p s cfg =
    let target = target_of p s cfg in
    if is_booked s
    then finalize p target "slack<=0: limit=request" cfg
    else finalize p target (reason_for target p.current_limit_milli) cfg

-- The sums of the first loop of Compute.
pub record Totals : Type 0 where
  pub total_req : ℤ
  pub managed_req : ℤ
  pub managed_count : ℤ

abbrev pub in_basis : PodInput → Bool
in_basis p = p.managed || p.holds_share

unfoldable pub count_pod : PodInput → Totals → Totals
count_pod p t = record {
  total_req = Int64.add t.total_req (Int64.add p.request_milli p.booked_delta_milli);
  managed_req = if in_basis p then Int64.add t.managed_req p.request_milli else t.managed_req;
  managed_count = if in_basis p then Int64.add t.managed_count (pos 1) else t.managed_count;
}

unfoldable pub count_pods : List PodInput → Totals → Totals
count_pods [] t = t
count_pods (p ∷ pods) t = count_pods pods (count_pod p t)

abbrev pub no_pods : Totals
no_pods = record { total_req = pos 0; managed_req = pos 0; managed_count = pos 0 }

unfoldable pub stats_of : ℤ → Totals → NodeStats
stats_of allocatable t =
    let slack = Int64.sub allocatable t.total_req in
    record {
      allocatable_milli = allocatable;
      total_requests_milli = t.total_req;
      managed_requests_milli = t.managed_req;
      slack_milli = max slack (pos 0);
      managed_pods = t.managed_count;
      factor =
          if ltb_ℤ (pos 0) t.managed_req && ltb_ℤ (pos 0) slack
          then Float.add (Float.of_int (pos 1))
              (Float.div (Float.of_int slack) (Float.of_int t.managed_req))
          else Float.of_int (pos 1);
    }

-- The second loop of Compute.
unfoldable pub decide_all : List PodInput → NodeStats → Config → List Decision
decide_all [] s cfg = []
decide_all (p ∷ pods) s cfg =
    let rest = decide_all pods s cfg in if p.managed then decide p s cfg ∷ rest else rest

unfoldable pub compute : ℤ → List PodInput → Config → NodeStats × List Decision
compute allocatable pods cfg =
    let stats = stats_of allocatable (count_pods pods no_pods) in (stats, decide_all pods stats cfg)

unfoldable pub compute_node : ℤ → List PodInput → Config → List Decision
compute_node allocatable pods cfg = (compute allocatable pods cfg).1

-- To evaluate: what computes with the policy names this.
unfoldable pub evaluation : Unit {0}
unfolding cap_milli default_config ceiling quantize clamp_and_quantize lifted verdict finalize
    reason_for burst target_of decide count_pod count_pods stats_of decide_all compute compute_node
evaluation = tt
