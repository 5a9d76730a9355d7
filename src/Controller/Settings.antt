-- ===== src/Controller/Settings.antt =====
-- internal/controller/node_controller.go: the settings of a reconcile (loadConfig, resolveConfig) and the
-- debounce that they set (debouncePeriod, setDebounce, baseEnqueueDelay, enqueueDelay). A duration is in
-- nanoseconds; the reconciler's field DebouncePeriod and its stored debounce are arguments.
pub mod Consent
pub mod Jitter
pub mod Deadband
use kube_headroom.Prelude.{
  ◌≡◌, Bool, true, false, if◌then◌else◌, Option, none, some, List, [], String,
}
use kube_headroom.Prelude.Int.{ℤ, pos, ltb_ℤ, leb_ℤ}
use kube_headroom.Prelude.Int64
use kube_headroom.Float
use kube_headroom.Float.{Float64}
use kube_headroom.Kube.{Quantity, HeadroomConfigSpec, Read, found, not_found, failed}
use kube_headroom.Policy.{Config, default_config}

pub record ResolvedConfig (Q S : Type 0) : Type 0 where
  pub policy : Config
  pub spec : HeadroomConfigSpec Q S
  pub dry_run : Bool
  pub per_node_pps : Float64
  pub debounce_period : ℤ

unfoldable pub is_dry : Option Bool → Bool
is_dry none = true
is_dry (some b) = b

-- A percentage as a fraction.
abbrev pub percent : ℤ → Float64
percent n = Float.div (Float.of_int n) (Float.of_int (pos 100))

module _ {Q S : Type 0} ⦃q : Quantity Q⦄ where
  unfoldable pub resolve_config : HeadroomConfigSpec Q S → ℤ → ResolvedConfig Q S
  resolve_config s fallback_debounce =
      let pps = Float.of_int s.rate_limits.per_node_patches_per_second in
      record {
        policy = record {
          min_burst_floor_milli = q.milli_value s.min_burst_floor;
          max_multiplier = q.as_approximate_float64 s.max_multiplier;
          deadband_grow = percent s.deadband.grow_percent;
          deadband_shrink = percent s.deadband.shrink_percent;
          quantum_milli = q.milli_value s.quantum;
        };
        spec = s;
        dry_run = is_dry s.dry_run;
        per_node_pps = if Float.le pps (Float.of_int (pos 0)) then Float.of_int (pos 10) else pps;
        debounce_period =
            if leb_ℤ s.debounce_period (pos 0) then fallback_debounce else s.debounce_period;
      }

  -- The zero value of a spec.
  abbrev pub zero_spec : HeadroomConfigSpec Q S
  zero_spec = record {
    dry_run = none;
    min_burst_floor = q.zero_quantity;
    max_multiplier = q.zero_quantity;
    quantum = q.zero_quantity;
    deadband = record { grow_percent = pos 0; shrink_percent = pos 0 };
    debounce_period = pos 0;
    rate_limits = record {
      per_node_patches_per_second = pos 0;
      client_qps = pos 0;
      client_burst = pos 0;
    };
    webhook = record { enabled = none; initial_multiplier = q.zero_quantity };
    namespace_selector = none;
    excluded_namespaces = [];
    excluded_owners = [];
    excluded_node_selector = none;
  }

  -- loadConfig, from the read of the singleton; none is its error.
  unfoldable pub load_config : Read (HeadroomConfigSpec Q S) → ℤ → Option (ResolvedConfig Q S)
  load_config not_found fallback_debounce = some (record {
    policy = default_config;
    spec = zero_spec;
    dry_run = true;
    per_node_pps = Float.of_int (pos 10);
    debounce_period = fallback_debounce;
  })
  load_config failed fallback_debounce = none
  load_config (found s) fallback_debounce = some (resolve_config s fallback_debounce)

-- 2 * time.Second.
abbrev pub default_debounce_period : ℤ
default_debounce_period = pos 2000000000

unfoldable pub debounce_period_of : ℤ → ℤ
debounce_period_of override = if ltb_ℤ (pos 0) override then override else default_debounce_period

-- setDebounce on the stored debounce.
unfoldable pub set_debounce : ℤ → ℤ → ℤ
set_debounce d stored = if ltb_ℤ (pos 0) d then d else stored

unfoldable pub base_enqueue_delay : ℤ → ℤ → ℤ
base_enqueue_delay override stored =
    if ltb_ℤ (pos 0) override
    then override
    else (if ltb_ℤ (pos 0) stored then stored else default_debounce_period)

-- enqueueDelay, from the jitter fraction drawn.
unfoldable pub enqueue_delay : ℤ → Float64 → ℤ
enqueue_delay base fraction =
    Int64.add base
      (Float.to_int (Float.mul (Float.sub fraction (Float.rounded false 1 2)) (Float.of_int base)))
