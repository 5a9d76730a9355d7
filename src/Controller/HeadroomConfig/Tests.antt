-- ===== src/Controller/HeadroomConfig/Tests.antt =====
-- The status of a HeadroomConfig after a reconcile of its node.
use kube_headroom.Prelude.{
  ◌≡◌, refl, true, none, some, List, [], ◌∷◌, inl, inr, String, if◌then◌else◌, arith, Bool-cases,
}
use kube_headroom.Prelude.Int.{ℤ, pos}
use kube_headroom.Prelude.Text.{str_eq, str_eq_refl}
use kube_headroom.Kube.{found}
use kube_headroom.Controller.Reconcile.Kept.{begun}
use kube_headroom.Controller.HeadroomConfig.{
  Condition, HeadroomConfig, ConfigCluster, reconcile_config, requeues_after, status_resync_period,
  ready_message,
}
use kube_headroom.Controller.HeadroomConfig.Converge.{
  SetsOnce, stored, Agrees, reconcile_config-Agrees,
}
use kube_headroom.Prelude.Format
use kube_headroom.Controller.Settings.{is_dry}
use kube_headroom.Samples.{
  milli_quantity, label_selector, booked_600, token_limiter, spec, idle_reconciler,
}

-- A condition set at an instant: in place of the first of its type, whose instant it keeps with its
-- status, or at the end.
abbrev set_at : String → List Condition → Condition → List Condition
set_at now [] c = record c { last_transition_time = now } ∷ []
set_at now (d ∷ ds) c =
    let rest = set_at now ds c in
    if str_eq d.condition_type c.condition_type
    then record c {
      last_transition_time = if str_eq d.status c.status then d.last_transition_time else now;
    }
      ∷ ds
    else d ∷ rest

set_at-SetsOnce : (now later : String) → SetsOnce (set_at now) (set_at later)
set_at-SetsOnce now later [] c = simp (str_eq_refl c.condition_type, str_eq_refl c.status)
set_at-SetsOnce now later (d ∷ ds) c =
    elim (Bool-cases (str_eq d.condition_type c.condition_type)) [
      | inl same ↦ simp (same, str_eq_refl c.condition_type, str_eq_refl c.status)
      | inr other ↦ simp (other, set_at-SetsOnce now later ds c)
    ]

abbrev config : HeadroomConfig ℤ String
config = record {
  generation = pos 7;
  spec = spec;
  status = record {
    observed_generation = pos 6;
    managed_pods = pos 3;
    managed_nodes = pos 1;
    conditions = [];
  };
}

abbrev config_cluster : ConfigCluster ℤ String
config_cluster = record {
  get = found config;
  managed_state = some idle_reconciler.series;
  set_status_condition = set_at "09:00";
  update = λ hc. true;
}

reconcile_config-Agrees_example :
    let hc = stored config (reconcile_config config_cluster).written in
    let again =
      reconcile_config
        (record config_cluster { get = found hc; set_status_condition = set_at "09:01" }) in
    Agrees idle_reconciler.series hc
    × (again.written ≡ none)
    × (again.ending ≡ requeues_after status_resync_period)
reconcile_config-Agrees_example =
    reconcile_config-Agrees config_cluster config idle_reconciler (set_at "09:01")
      (begun idle_reconciler refl) (omega arith) (omega arith) refl refl
      (set_at-SetsOnce "09:00" "09:01")

ready : ready_message spec 12 3 ≡ "Reconciling in enforcing mode; managing 12 pods across 3 nodes"
unfolding ready_message is_dry Format.evaluation
ready = refl
