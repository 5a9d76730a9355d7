-- ===== src/Controller/Reconcile.antt =====
-- internal/controller/node_controller.go: Reconcile of the node controller, from its reads to its reply.
-- What it reads and calls is the record `Cluster`, and the fields of the reconciler that it changes the
-- record `Reconciler`; the four gauges of a node are one entry of `gauges`. The text of a failed call is
-- left out of an error, which keeps what the code puts before it. The logs and the histogram
-- reconcileDuration are left out too.
pub mod Consent
pub mod Failure
pub mod Kept
pub mod Complete
mod Tests
use Prim.Native.String.{◌++◌ as str_append}
use kube_headroom.Prelude.{
  ℕ, ◌≡◌, refl, Bool, true, false, not, ◌||◌, if◌then◌else◌, Option, none, some, List, [], ◌∷◌,
  ◌++◌, String, length, map, any,
}
use kube_headroom.Prelude.Int
use kube_headroom.Prelude.Int.{ℤ, pos}
use kube_headroom.Prelude.Text.{lookup, insert, text_contains}
use kube_headroom.Float
use kube_headroom.Float.{Float64}
use kube_headroom.Kube.{
  Quantity, GoMap, Pod, Node, ResourceHelper, Selectors, HeadroomConfigSpec, Read, found, not_found,
  failed, cpu,
}
use kube_headroom.Policy.{PodInput, Decision, NodeStats, compute}
use kube_headroom.Eligibility.{node_manageable}
use kube_headroom.Controller.Backoff.{
  delete, backoff_period, in_backoff_key, set_backoff_key, time_sub, nearer, next_end,
  backoff_requeue,
}
use kube_headroom.Controller.Settings.{
  ResolvedConfig, load_config, debounce_period_of, set_debounce, base_enqueue_delay, enqueue_delay,
  is_dry, resolve_config,
}
use kube_headroom.Controller.Inputs.{
  Reads, Judging, Result, gives, fails_with, build_inputs, count_deferred, has_pending,
  pod_resize_infeasible, pod_resize_deferred, is_deferred, cached_ranges, limit_ranges,
  note_vpa_skip, back_off_infeasible, enrolled_verdict, input_of, finish_input, read_namespace,
  cached_verdict, namespace_verdict, may_manage, judge, build_input,
}
use kube_headroom.Controller.Series.{
  PodSeriesRef, Series, same_series, sync_pod_metrics, forget_node, delete_label_values, series_of,
  delete_stale, total, refresh_pods_managed,
}
use kube_headroom.Controller.Limiters.{RateLimiters, limiter_for, limiter_at}
use kube_headroom.Controller.Resize.{
  Effect, Calls, Pass, resize_all, Reply, fails, requeue_after, second, reply, patch_entries,
  resize_patch, forbidden_outcome, idle, followed_by, after, classify_resize_error, answered,
  apply_resize, resize_one,
}
use kube_headroom.Controller.PodInput.{
  pod_key, pinned, all_pinned, init_pinned, guaranteed_at_request, build_pod_input, exact_share,
  base_share, rem_of, floor_step, floors, before, insert_rem, sort_rems, increment, give,
  distribute, split_limit,
}
use kube_headroom.Eligibility.LimitRange.{limit_range_cap_milli, apply_ranges, count_shares}

pub record NodeGauges : Type 0 where
  pub factor : Float64
  pub slack_cores : Float64
  pub managed_pods : Float64
  pub resizes_deferred : Float64

-- The state of the NodeReconciler.
pub record Reconciler (L : Type 0) : Type 0 where
  pub dynamic_debounce : ℤ
  pub limiters : GoMap L
  pub backoff : GoMap ℤ
  pub vpa_skipped : GoMap String
  pub series : Series
  pub gauges : GoMap NodeGauges

-- What a Reconcile reads and calls: the poller, the API server, the clock, the jitter drawn at its end.
pub record Cluster (Q S L : Type 0) : Type 0 where
  pub synced : Bool
  pub get_config : Read (HeadroomConfigSpec Q S)
  pub get_node : Read (Node Q)
  pub list_pods : Option (List (Pod Q))
  pub reads : Reads Q
  pub calls : Calls Q L
  pub judged_at : ℤ
  pub jitter : Float64
  pub debounce_period : ℤ

pub record Reconciled (Q L : Type 0) : Type 0 where
  pub state : Reconciler L
  pub effects : List (Effect Q)
  pub answer : Reply

module _ {Q L : Type 0} where
  abbrev pub ends : Reconciler L → Reply → Reconciled Q L
  ends st answer = record { state = st; effects = []; answer = answer }

  abbrev pub breaks : Reconciler L → String → Reconciled Q L
  breaks st e = ends st (fails (e ∷ []))

-- forgetNode, with the node's limiter and gauges.
unfoldable pub forget : {L : Type 0} → String → Reconciler L → Reconciler L
forget node st = record st {
  limiters = delete node st.limiters;
  series = forget_node node st.series;
  gauges = delete node st.gauges;
}

unfoldable pub node_gauges :
    {Q : Type 0} → NodeStats → List Decision → List PodInput → GoMap (Pod Q) → NodeGauges
node_gauges stats decisions inputs by_key = record {
  factor = stats.factor;
  slack_cores = Float.div (Float.of_int stats.slack_milli) (Float.of_int (pos 1000));
  managed_pods = Float.of_int (pos (length decisions));
  resizes_deferred = Float.of_int (pos (count_deferred inputs by_key));
}

-- WithLabelValues and Set of podLimitCores: the series is there afterwards.
unfoldable pub set_series : PodSeriesRef → List PodSeriesRef → List PodSeriesRef
set_series s gauges = if any (same_series s) gauges then gauges else s ∷ gauges

-- The first loop over the decisions: the series of their pods are set, and become the current ones.
module _ {Q : Type 0} where
  unfoldable pub export_one :
      String
      → Option (Pod Q)
      → GoMap PodSeriesRef × List PodSeriesRef
      → GoMap PodSeriesRef × List PodSeriesRef
  export_one key none acc = acc
  export_one key (some pod) (current, gauges) =
      let s : PodSeriesRef = record { namespace = pod.namespace; name = pod.name } in
      (insert key s current, set_series s gauges)

  unfoldable pub export_all :
      GoMap (Pod Q)
      → List Decision
      → GoMap PodSeriesRef × List PodSeriesRef
      → GoMap PodSeriesRef × List PodSeriesRef
  export_all by_key [] acc = acc
  export_all by_key (d ∷ decisions) acc =
      export_all by_key decisions (export_one d.key (lookup d.key by_key) acc)

module _ {Q L : Type 0} where
  -- The maps of the reconciler that buildInputs starts from, and its caches.
  unfoldable pub judging_of : Reconciler L → Judging Q
  judging_of st = record {
    backoff = st.backoff;
    vpa_skipped = st.vpa_skipped;
    ns_managed = [];
    ns_limit_ranges = [];
    effects = [];
    by_key = [];
  }

  -- The reconciler with the maps that buildInputs leaves.
  unfoldable pub keep : Judging Q → Reconciler L → Reconciler L
  keep j st = record st { backoff = j.backoff; vpa_skipped = j.vpa_skipped }

  -- The reconciler with the gauges and series that a reconcile sets.
  unfoldable pub publish :
      String
      → NodeStats
      → List Decision
      → List PodInput
      → GoMap (Pod Q)
      → Reconciler L
      → Reconciler L
  publish name stats decisions inputs by_key st =
      let (current, exported) = export_all by_key decisions ([], st.series.pod_limit_cores) in
      record st {
        gauges = insert name (node_gauges stats decisions inputs by_key) st.gauges;
        series = sync_pod_metrics name current (record st.series { pod_limit_cores = exported });
      }

module _ {Q S L : Type 0} ⦃q : Quantity Q⦄ ⦃rate : RateLimiters L⦄ where
  -- From the decisions to the reply.
  unfoldable pub apply_decisions :
      Cluster Q S L
      → String
      → ResolvedConfig Q S
      → List PodInput
      → Judging Q
      → NodeStats × List Decision
      → Reconciler L
      → Reconciled Q L
  apply_decisions env name cfg inputs j (stats, decisions) st =
      let st' = publish name stats decisions inputs j.by_key st in
      let (limiter, limiters) = limiter_for name cfg.per_node_pps st.limiters in
      let s = resize_all env.calls cfg.dry_run j.by_key decisions limiter st.backoff in
      record {
        state = record st' { limiters = insert name s.limiter limiters; backoff = s.backoff };
        effects = j.effects ++ s.effects;
        answer =
            reply s (map (λ (e : String × Pod Q). e.0) j.by_key) env.judged_at (
              enqueue_delay (base_enqueue_delay env.debounce_period st.dynamic_debounce)
                env.jitter);
      }

  unfoldable pub with_inputs :
      Cluster Q S L
      → String
      → ResolvedConfig Q S
      → Node Q
      → Result (List PodInput) × Judging Q
      → Reconciler L
      → Reconciled Q L
  with_inputs env name cfg node (fails_with e, j) st = record (breaks (keep j st) e) {
    effects = j.effects;
  }
  with_inputs env name cfg node (gives inputs, j) st =
      apply_decisions env name cfg inputs j
        (compute (q.milli_value (cpu node.allocatable)) inputs cfg.policy) (keep j st)

module _ {Q S L : Type 0} ⦃q : Quantity Q⦄ ⦃helper : ResourceHelper Q⦄ ⦃sel : Selectors S⦄
    ⦃rate : RateLimiters L⦄ where
  unfoldable pub with_pods :
      Cluster Q S L
      → String
      → ResolvedConfig Q S
      → Node Q
      → Option (List (Pod Q))
      → Reconciler L
      → Reconciled Q L
  with_pods env name cfg node none st = breaks st (str_append "list pods on node " name)
  with_pods env name cfg node (some pods) st =
      with_inputs env name cfg node
        (build_inputs env.reads cfg.spec (node_manageable node cfg.spec) pods (judging_of st)) st

  unfoldable pub with_node :
      Cluster Q S L → String → ResolvedConfig Q S → Read (Node Q) → Reconciler L → Reconciled Q L
  with_node env name cfg not_found st = ends (forget name st) (requeue_after (pos 0))
  with_node env name cfg failed st = breaks st (str_append "get node " name)
  with_node env name cfg (found node) st = with_pods env name cfg node env.list_pods st

  unfoldable pub with_config :
      Cluster Q S L → String → Option (ResolvedConfig Q S) → Reconciler L → Reconciled Q L
  with_config env name none st = breaks st "load config"
  with_config env name (some cfg) st =
      with_node env name cfg env.get_node
        (record st { dynamic_debounce = set_debounce cfg.debounce_period st.dynamic_debounce })

  -- Reconcile; a requeue after 0 is none.
  unfoldable pub reconcile : Cluster Q S L → String → Reconciler L → Reconciled Q L
  reconcile env name st =
      if not env.synced
      then ends st (requeue_after second)
      else with_config env name
          (load_config env.get_config (debounce_period_of env.debounce_period)) st

-- To evaluate: what computes with a reconcile names this.
unfoldable pub evaluation : Unit {0}
unfolding Int.min Int.max Int.quot pod_key pinned all_pinned init_pinned guaranteed_at_request
    build_pod_input exact_share base_share rem_of floor_step floors before insert_rem sort_rems
    increment give distribute split_limit backoff_period delete in_backoff_key set_backoff_key
    time_sub nearer next_end backoff_requeue patch_entries resize_patch forbidden_outcome idle
    followed_by after classify_resize_error answered apply_resize resize_one resize_all reply
    has_pending pod_resize_infeasible pod_resize_deferred is_deferred count_deferred cached_ranges
    limit_ranges note_vpa_skip back_off_infeasible enrolled_verdict input_of finish_input
    read_namespace cached_verdict namespace_verdict may_manage judge build_input build_inputs
    delete_label_values series_of delete_stale total refresh_pods_managed sync_pod_metrics
    forget_node is_dry resolve_config load_config debounce_period_of set_debounce base_enqueue_delay
    enqueue_delay limiter_at limiter_for forget node_gauges set_series export_one export_all
    judging_of keep publish apply_decisions with_inputs with_pods with_node with_config reconcile
    text_contains limit_range_cap_milli apply_ranges count_shares
evaluation = tt
