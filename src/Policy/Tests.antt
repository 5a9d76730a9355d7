-- ===== src/Policy/Tests.antt =====
-- Runs of the policy on small nodes.
use kube_headroom.Prelude.{
  ◌≡◌, refl, true, false, List, [], ◌∷◌, ◌++◌, map, ℕ, ◌+◌, ◌/◌, ◌⊎◌, arith,
}
use kube_headroom.Prelude.Int.{ℤ, pos, min, max, quot, ◌≤ℤ◌, ◌<ℤ◌, ◌+ℤ◌, ◌-ℤ◌}
use kube_headroom.Prelude.Int64
use kube_headroom.Float
use kube_headroom.Policy

abbrev pod : ℕ → ℤ → Policy.PodInput
pod r cur = record {
  key = "ns/a";
  request_milli = pos r;
  booked_delta_milli = pos 0;
  current_limit_milli = cur;
  managed = true;
  holds_share = false;
  user_cap_milli = pos 0;
  limit_range_cap = pos 0;
  above_request = false;
}

abbrev targets : List Policy.Decision → List ℤ
targets = map λ d. d.target_limit_milli

-- 4000m allocatable, 500m and 1500m booked: 2000m of slack.
two_pods :
    targets (
      Policy.compute_node
        (pos 4000)
        (pod 500 (pos 0) ∷ pod 1500 (pos 0) ∷ [])
        Policy.default_config)
    ≡ pos 1500 ∷ pos 3000 ∷ []
unfolding Policy.evaluation Float.evaluation Int64.evaluation min max quot
two_pods = refl

-- A node with 4000m allocatable and 2000m of slack, shared by two pods with 2000m of requests.
abbrev half_booked : Policy.NodeStats
half_booked = record {
  allocatable_milli = pos 4000;
  total_requests_milli = pos 2000;
  managed_requests_milli = pos 2000;
  slack_milli = pos 2000;
  managed_pods = pos 2;
  factor = Float.of_int (pos 2);
}

abbrev config : Policy.Config
config = record {
  min_burst_floor_milli = pos 1000;
  max_multiplier = Float.of_int (pos 10);
  deadband_grow = Float.rounded false 10 100;
  deadband_shrink = Float.rounded false 5 100;
  quantum_milli = pos 10;
}

-- The same node with 1000m more of slack.
abbrev less_booked : Policy.NodeStats
less_booked = record half_booked { total_requests_milli = pos 1000; slack_milli = pos 3000 }

-- The node with nothing left.
abbrev fully_booked : Policy.NodeStats
fully_booked = record half_booked { total_requests_milli = pos 4000; slack_milli = pos 0 }

half_booked-OnNode : Policy.Exact.OnNode half_booked config 2000 2000 2 1000
half_booked-OnNode = record {
  slack_eq = refl;
  managed_eq = refl;
  pods_eq = refl;
  floor_eq = refl;
  slack_pos = omega arith;
  managed_pos = omega arith;
  pods_pos = omega arith;
  slack_lt = omega arith;
  managed_lt = omega arith;
  pods_lt = omega arith;
  floor_lt = omega arith;
}

less_booked-OnNode : Policy.Exact.OnNode less_booked config 3000 2000 2 1000
less_booked-OnNode = record {
  slack_eq = refl;
  managed_eq = refl;
  pods_eq = refl;
  floor_eq = refl;
  slack_pos = omega arith;
  managed_pos = omega arith;
  pods_pos = omega arith;
  slack_lt = omega arith;
  managed_lt = omega arith;
  pods_lt = omega arith;
  floor_lt = omega arith;
}

abbrev web : Policy.PodInput
web = pod 500 (pos 0)

-- A pod that must stay above its request, in a namespace whose LimitRange admits 1200m.
abbrev pinned_web : Policy.PodInput
pinned_web = record web { above_request = true; limit_range_cap = pos 1200 }

decide_range_example :
    (pos 500 ≤ℤ (Policy.decide web half_booked config).target_limit_milli)
    × (((Policy.decide web half_booked config).target_limit_milli ≡ pos 500)
        ⊎ Policy.Caps.WithinAllCaps
            (Policy.decide web half_booked config).target_limit_milli
            (pos 500)
            (pos 4000)
            web
            config)
decide_range_example = Policy.Bounds.decide_range web half_booked config 500 refl (omega arith) refl

decide_above_example :
    (pos 500 <ℤ (Policy.decide pinned_web half_booked config).target_limit_milli)
    × (((Policy.decide pinned_web half_booked config).target_limit_milli
          ≤ℤ pos (500 + Policy.Bounds.grain config))
        ⊎ Policy.Caps.WithinAllCaps
            (Policy.decide pinned_web half_booked config).target_limit_milli
            (pos 500)
            (pos 4000)
            pinned_web
            config)
decide_above_example =
    Policy.Bounds.decide_above pinned_web half_booked config 500 refl (omega arith) refl

decide_limit_range_example :
    (Policy.decide pinned_web half_booked config).target_limit_milli ≤ℤ pos 1200
decide_limit_range_example =
    Policy.Bounds.decide_limit_range pinned_web half_booked config 500 refl (omega arith)
      (omega arith)

target_of-exact_example :
    Policy.target_of web half_booked config
    ≡ pos (
        Policy.Exact.exact_target 500
          (Policy.Exact.exact_burst 500 2000 2000 2 1000)
          (Policy.Exact.ceiling_of web half_booked config)
          10)
target_of-exact_example =
    Policy.Exact.target_of-exact web half_booked config 2000 2000 2 1000 half_booked-OnNode 500 10
      refl refl (omega arith) (omega arith) (omega arith)

target_of_mono_example :
    Policy.target_of web half_booked config ≤ℤ Policy.target_of web less_booked config
target_of_mono_example =
    Policy.Monotone.target_of_mono web half_booked less_booked config 2000 3000 2000 2 1000 500 10
      half_booked-OnNode less_booked-OnNode refl (omega arith) refl refl (omega arith) (omega arith)
      (omega arith)

decide_booked_example :
    (pos 505 ≤ℤ (Policy.decide (pod 505 (pos 0)) fully_booked config).target_limit_milli)
    × ((Policy.decide (pod 505 (pos 0)) fully_booked config).target_limit_milli
        ≤ℤ pos (505 + 10 / 2))
decide_booked_example =
    Policy.Booked.decide_booked (pod 505 (pos 0)) fully_booked config 505 10 refl refl refl refl
      (omega arith) (omega arith)

abbrev pods : List Policy.PodInput
pods = web ∷ pod 1500 (pos 1700) ∷ []

compute-settled_example : Policy.Churn.AtRest (
    Policy.compute_node
      (pos 4000)
      (map (Policy.Churn.settled (Policy.compute (pos 4000) pods config).0 config) pods)
      config)
compute-settled_example = Policy.Churn.compute-settled (pos 4000) pods config

compute-sums_example :
    let stats = (Policy.compute (pos 4000) pods config).0 in
    (stats.total_requests_milli ≡ Policy.Compute.booked_sum pods)
    × (stats.managed_requests_milli ≡ Policy.Compute.basis_sum pods)
    × (stats.slack_milli ≡ max (pos 4000 -ℤ Policy.Compute.booked_sum pods) (pos 0))
unfolding Policy.Compute.booked_sum Policy.Compute.basis_sum ◌+ℤ◌ ◌-ℤ◌
compute-sums_example =
    Policy.Compute.compute-sums (pos 4000) pods config (omega arith) (omega arith) (omega arith)

compute-held_example :
    let (stats, before) = Policy.compute (pos 4000) pods config in
    let (stats', after) =
      Policy.compute (pos 4000) (Policy.Compute.held web ∷ pod 1500 (pos 1700) ∷ []) config in
    (stats' ≡ stats)
    × (before
        ≡ Policy.decide_all [] stats config
          ++ Policy.decide web stats config
            ∷ Policy.decide_all (pod 1500 (pos 1700) ∷ []) stats config)
    × (after
        ≡ Policy.decide_all [] stats config
          ++ Policy.decide_all (pod 1500 (pos 1700) ∷ []) stats config)
compute-held_example =
    Policy.Compute.compute-held (pos 4000) [] (pod 1500 (pos 1700) ∷ []) web config refl
