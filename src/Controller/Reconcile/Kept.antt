-- ===== src/Controller/Reconcile/Kept.antt =====
-- Reconcile over time: what holds of the reconciler after any reconciles.
use mathlib.Core.Path.{subst, sym}
use kube_headroom.Prelude.{
  inl, inr, ◌≡◌, refl, true, if◌then◌else◌, Option, none, some, List, [], String, length,
  Bool-cases,
}
use kube_headroom.Prelude.Int.{pos}
use kube_headroom.Prelude.Text.{lookup, str_eq}
use kube_headroom.Kube.{
  Quantity, Pod, Node, ResourceHelper, Selectors, Read, found, not_found, failed,
}
use kube_headroom.Policy.{PodInput}
use kube_headroom.Controller.Backoff.Window.{lookup-delete}
use kube_headroom.Controller.Settings.{ResolvedConfig, load_config, debounce_period_of}
use kube_headroom.Controller.Inputs.{Judging, Result, gives, fails_with}
use kube_headroom.Controller.Series.{
  Series, no_series, forget_node, refresh_pods_managed, managed_counts,
}
use kube_headroom.Controller.Series.Counts.{
  Reached, start, exported, synced, forgot, managed_counts_lem,
}
use kube_headroom.Controller.Limiters.{RateLimiters}
use kube_headroom.Controller.Resize.{requeue_after}
use kube_headroom.Controller.Reconcile.{
  Reconciler, Cluster, forget, keep, publish, apply_decisions, with_inputs, with_pods, with_node,
  with_config, reconcile,
}

-- The states of a reconciler that starts without series and runs reconciles, of any nodes and
-- whatever the cluster answers to each.
pub data Running (Q S : Type 0) {L : Type 0} ⦃q : Quantity Q⦄ ⦃helper : ResourceHelper Q⦄
    ⦃sel : Selectors S⦄ ⦃rate : RateLimiters L⦄ : Reconciler L → Type 0 where
  begun : (st : Reconciler L) → st.series ≡ no_series → Running Q S st
  ran :
      (env : Cluster Q S L) (name : String) (st : Reconciler L)
      → Running Q S st
      → Running Q S (reconcile env name st).state

module _ {Q S L : Type 0} ⦃q : Quantity Q⦄ ⦃helper : ResourceHelper Q⦄ ⦃sel : Selectors S⦄
    ⦃rate : RateLimiters L⦄ where
  module _ (env : Cluster Q S L) (name : String) where
    with_inputs-Reached :
        (cfg : ResolvedConfig Q S) (node : Node Q) (r : Result (List PodInput) × Judging Q)
        (st : Reconciler L)
        → Reached st.series
        → Reached (with_inputs env name cfg node r st).state.series
    unfolding with_inputs apply_decisions publish keep
    with_inputs-Reached cfg node (fails_with e, j) st h = h
    with_inputs-Reached cfg node (gives inputs, j) st h = synced _ name _ (exported st.series _ h)

    with_pods-Reached :
        (cfg : ResolvedConfig Q S) (node : Node Q) (pods : Option (List (Pod Q)))
        (st : Reconciler L)
        → Reached st.series
        → Reached (with_pods env name cfg node pods st).state.series
    unfolding with_pods
    with_pods-Reached cfg node none st h = h
    with_pods-Reached cfg node (some pods) st h = with_inputs-Reached cfg node _ st h

    with_node-Reached :
        (cfg : ResolvedConfig Q S) (r : Read (Node Q)) (st : Reconciler L)
        → Reached st.series
        → Reached (with_node env name cfg r st).state.series
    unfolding with_node forget
    with_node-Reached cfg not_found st h = forgot st.series name h
    with_node-Reached cfg failed st h = h
    with_node-Reached cfg (found node) st h = with_pods-Reached cfg node env.list_pods st h

    with_config-Reached :
        (c : Option (ResolvedConfig Q S)) (st : Reconciler L)
        → Reached st.series
        → Reached (with_config env name c st).state.series
    unfolding with_config
    with_config-Reached none st h = h
    with_config-Reached (some cfg) st h = with_node-Reached cfg env.get_node _ h

    reconcile-Reached :
        (st : Reconciler L) → Reached st.series → Reached (reconcile env name st).state.series
    unfolding reconcile
    reconcile-Reached st h = elim (Bool-cases env.synced) [
      | inl ready ↦ simp ready (with_config-Reached _ st h)
      | inr early ↦ simp early h
    ]

  Running-Reached : (st : Reconciler L) → Running Q S st → Reached st.series
  Running-Reached _ (begun st e) = subst (λ (s : Series). Reached s) (sym e) start
  Running-Reached _ (ran env name st r) = reconcile-Reached env name st (Running-Reached st r)

  -- After any reconciles from a start without series, of any nodes and whatever the cluster
  -- answers, ManagedCounts gives the value of the podsManaged gauge and the number of nodes with an
  -- entry.
  pub managed_counts-Running :
      (st : Reconciler L)
      → Running Q S st
      → managed_counts st.series ≡ (st.series.pods_managed, length st.series.pod_series)
  managed_counts-Running st r = managed_counts_lem st.series (Running-Reached st r)

  -- Where the node is gone, Reconcile ends without an effect or a requeue, keeps the backoff windows,
  -- and has no limiter, gauges or series of the node left, and those of every other node as they were.
  pub reconcile-forget :
      (env : Cluster Q S L) (name : String) (cfg : ResolvedConfig Q S) (st : Reconciler L)
      → env.synced ≡ true
      → load_config env.get_config (debounce_period_of env.debounce_period) ≡ some cfg
      → env.get_node ≡ not_found
      → let r = reconcile env name st in
        (r.answer ≡ requeue_after (pos 0))
        × (r.effects ≡ [])
        × (r.state.backoff ≡ st.backoff)
        × ((node : String)
            → (lookup node r.state.limiters
                ≡ (if str_eq name node then none else lookup node st.limiters))
              × (lookup node r.state.gauges
                  ≡ (if str_eq name node then none else lookup node st.gauges))
              × (lookup node r.state.series.pod_series
                  ≡ (if str_eq name node then none else lookup node st.series.pod_series)))
  unfolding reconcile with_config with_node forget forget_node refresh_pods_managed
  reconcile-forget env name cfg st ready loaded gone =
      simp (ready, loaded, gone)
        (
          refl,
          refl,
          refl,
          λ node. (
            lookup-delete name node st.limiters,
            lookup-delete name node st.gauges,
            lookup-delete name node st.series.pod_series,
          ),
        )
