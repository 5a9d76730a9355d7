-- ===== src/Controller/Reconcile/Tests.antt =====
-- Reconcile of a node with one pod.
use kube_headroom.Prelude.{
  ◌≡◌, refl, true, false, some, [], List, ◌∷◌, ◌⊎◌, inl, inr, String, length, ℕ,
}
use kube_headroom.Prelude.Int.{ℤ, pos}
use kube_headroom.Policy.{PodInput, compute_node}
use kube_headroom.Controller.Inputs.{build_inputs, gives}
use kube_headroom.Controller.Reconcile.Complete.{Completes, reconcile-Completes}
use kube_headroom.Kube.{quantity_of, Node, HeadroomConfigSpec, found, failed}
use kube_headroom.Eligibility.{node_manageable}
use kube_headroom.Controller.Settings.{load_config, resolve_config, debounce_period_of, is_dry}
use kube_headroom.Controller.Series.{managed_counts}
use kube_headroom.Controller.Resize.Attempts.{patches, wanted}
use kube_headroom.Controller.Reconcile.{Reconciler, Cluster, judging_of, reconcile}
use kube_headroom.Controller.Reconcile
use kube_headroom.Policy
use kube_headroom.Eligibility
use kube_headroom.Eligibility.Vpa
use kube_headroom.Prelude.Int64
use kube_headroom.Float
use kube_headroom.Controller.Resize.{requeue_after}
use kube_headroom.Controller.Reconcile.Consent.{reconcile-consent}
use kube_headroom.Controller.Reconcile.Failure.{IsBroken, reconcile-IsBroken}
use kube_headroom.Controller.Reconcile.Kept.{begun, ran, managed_counts-Running}
use kube_headroom.Samples.{
  web, reads, calls, node, milli_quantity, label_selector, booked_600, token_limiter, spec, cluster,
  idle_reconciler,
}

reconcile-consent_example :
    (patches (reconcile cluster "node" idle_reconciler).effects ≡ [])
    ⊎ ((cluster.synced ≡ true)
        × (s : HeadroomConfigSpec ℤ String) × (cluster.get_config ≡ found s)
        × (s.dry_run ≡ some false)
        × (n : Node ℤ) × (cluster.get_node ≡ found n)
        × (node_manageable n s ≡ true))
reconcile-consent_example = reconcile-consent cluster "node" idle_reconciler

-- The same cluster where the node cannot be read.
abbrev unreadable : Cluster ℤ String ℕ
unreadable = record cluster { get_node = failed }

reconcile-IsBroken_example : IsBroken idle_reconciler (reconcile unreadable "node" idle_reconciler)
unfolding load_config
reconcile-IsBroken_example =
    reconcile-IsBroken unreadable "node" idle_reconciler refl
      (inr (resolve_config spec (debounce_period_of (pos 5)), refl, inl refl))

abbrev after_one : Reconciler ℕ
after_one = (reconcile cluster "node" idle_reconciler).state

managed_counts-Running_example :
    managed_counts after_one.series
    ≡ (after_one.series.pods_managed, length after_one.series.pod_series)
managed_counts-Running_example =
    managed_counts-Running after_one
      (ran cluster "node" idle_reconciler (begun idle_reconciler refl))

-- On a node of 4 cores the pod gets them all, in proportion to its requests of 500m and 100m.
grown :
    patches (reconcile cluster "node" idle_reconciler).effects
    ≡ (
      "shop/web",
      record { field = "containers"; name = "app"; cpu = pos 3333 }
          ∷ record { field = "containers"; name = "proxy"; cpu = pos 667 }
          ∷ [],
    )
      ∷ []
unfolding Reconcile.evaluation Policy.evaluation Eligibility.evaluation Vpa.evaluation
    Int64.evaluation Float.evaluation
grown = refl

-- The API server forbids it, and the node comes back once the window has ended.
refused :
    (after_one.backoff ≡ ("shop/web", pos 1060) ∷ [])
    × ((reconcile cluster "node" idle_reconciler).answer ≡ requeue_after (pos 75))
unfolding Reconcile.evaluation Policy.evaluation Eligibility.evaluation Vpa.evaluation
    Int64.evaluation Float.evaluation
refused = (refl, refl)

abbrev inputs : List PodInput
inputs =
    record {
      key = "shop/web";
      request_milli = pos 600;
      booked_delta_milli = pos 0;
      current_limit_milli = pos 0;
      managed = true;
      holds_share = false;
      user_cap_milli = pos 0;
      limit_range_cap = pos 0;
      above_request = false;
    }
    ∷ []

built :
    (build_inputs reads spec (node_manageable node spec) (web ∷ []) (judging_of idle_reconciler)).0
    ≡ gives inputs
unfolding Reconcile.evaluation Policy.evaluation Eligibility.evaluation Vpa.evaluation
    Int64.evaluation Float.evaluation
built = refl

reconcile-Completes_example :
    Completes
      (wanted calls
        (build_inputs reads spec
          (node_manageable node spec)
          (web ∷ [])
          (judging_of idle_reconciler)).1.by_key
        (compute_node (pos 4000) inputs (resolve_config spec (pos 5)).policy))
      (reconcile cluster "node" idle_reconciler)
unfolding load_config resolve_config debounce_period_of quantity_of is_dry
reconcile-Completes_example =
    reconcile-Completes cluster "node" idle_reconciler (resolve_config spec (pos 5)) node (web ∷ [])
      inputs refl refl refl refl refl built
