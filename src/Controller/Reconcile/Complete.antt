-- ===== src/Controller/Reconcile/Complete.antt =====
-- Reconcile: the patches that the decisions call for.
use mathlib.Core.Path.{subst}
use kube_headroom.Prelude.{
  ◌≡◌, refl, ◌∙◌, true, false, ◌⊎◌, inl, inr, some, List, [], ◌∷◌, String, map,
}
use kube_headroom.Prelude.Text.{lookup}
use kube_headroom.Kube.{Quantity, Pod, Node, ResourceHelper, Selectors, found, cpu}
use kube_headroom.Policy.{PodInput, Decision, NodeStats, compute, compute_node}
use kube_headroom.Eligibility.{node_manageable}
use kube_headroom.Controller.Settings.{
  ResolvedConfig, load_config, debounce_period_of, set_debounce, base_enqueue_delay, enqueue_delay,
}
use kube_headroom.Controller.Inputs.{Judging, Result, gives, fails_with, build_inputs}
use kube_headroom.Controller.Inputs.Silent.{build_inputs-patches}
use kube_headroom.Controller.Limiters.{RateLimiters, limiter_at, limiter_for}
use kube_headroom.Controller.Resize.{fails, requeue_after, second}
use kube_headroom.Controller.Resize.Attempts.{Patch, patches, patches-append, wanted, reply-patches}
use kube_headroom.Controller.Reconcile.{
  Reconciler, Cluster, Reconciled, judging_of, keep, apply_decisions, with_inputs, with_pods,
  with_node, with_config, reconcile,
}

-- All patches of a list are sent, or the node comes back after a second or after an error.
abbrev pub Completes : {Q L : Type 0} → List (Patch Q) → Reconciled Q L → Type 0
Completes ps r =
    (patches r.effects ≡ ps)
    ⊎ ((r.answer ≡ requeue_after second)
        ⊎ ((e : String) × (es : List String) × (r.answer ≡ fails (e ∷ es))))

module _ {Q S L : Type 0} ⦃q : Quantity Q⦄ ⦃rate : RateLimiters L⦄ (env : Cluster Q S L)
    (name : String) (cfg : ResolvedConfig Q S) (live : cfg.dry_run ≡ false) where
  apply_decisions-Completes :
      (inputs : List PodInput) (j : Judging Q) (r : NodeStats × List Decision) (st : Reconciler L)
      → patches j.effects ≡ []
      → Completes (wanted env.calls j.by_key r.1) (apply_decisions env name cfg inputs j r st)
  unfolding apply_decisions limiter_for
  apply_decisions-Completes inputs j (stats, decisions) st silent =
      let limiter = limiter_at cfg.per_node_pps (lookup name st.limiters) in
      let keys = map (λ (e : String × Pod Q). e.0) j.by_key in
      let delay =
        enqueue_delay (base_enqueue_delay env.debounce_period st.dynamic_debounce) env.jitter in
      simp live
        (elim (reply-patches env.calls j.by_key decisions limiter st.backoff keys env.judged_at
          delay) [
            | inl sent ↦ inl (patches-append j.effects _ ∙ rw silent sent)
            | inr back ↦ inr back
          ])

  with_inputs-Completes :
      (node : Node Q) (r : Result (List PodInput) × Judging Q) (inputs : List PodInput)
      (st : Reconciler L)
      → r.0 ≡ gives inputs
      → patches r.1.effects ≡ []
      → Completes
          (wanted env.calls r.1.by_key
            (compute_node (q.milli_value (cpu node.allocatable)) inputs cfg.policy))
          (with_inputs env name cfg node r st)
  unfolding with_inputs compute_node
  with_inputs-Completes node (fails_with e, j) inputs st given silent = absurd (cc given)
  with_inputs-Completes node (gives inputs', j) inputs st given silent =
      subst
        (λ (ps : List PodInput).
          Completes
            (wanted env.calls j.by_key
              (compute (q.milli_value (cpu node.allocatable)) ps cfg.policy).1)
            (with_inputs env name cfg node (gives inputs', j) st))
        (gives-injective given)
        (apply_decisions-Completes inputs' j
          (compute (q.milli_value (cpu node.allocatable)) inputs' cfg.policy) (keep j st) silent)
    where
      gives-injective : {a a' : List PodInput} → gives a ≡ gives a' → a ≡ a'
      gives-injective {a} {a'} e = cc e

module _ {Q S L : Type 0} ⦃q : Quantity Q⦄ ⦃helper : ResourceHelper Q⦄ ⦃sel : Selectors S⦄
    ⦃rate : RateLimiters L⦄ where
  -- With a synced VPA poller, a config that loads and is live, a node that is found, pods that are
  -- listed and inputs that are built: Reconcile sends the patches that ComputeNode's decisions on
  -- these inputs call for, all of them and in order, or it asks to come back after a second, or it
  -- ends with an error.
  pub reconcile-Completes :
      (env : Cluster Q S L) (name : String) (st : Reconciler L) (cfg : ResolvedConfig Q S)
      (node : Node Q) (pods : List (Pod Q)) (inputs : List PodInput)
      → env.synced ≡ true
      → load_config env.get_config (debounce_period_of env.debounce_period) ≡ some cfg
      → cfg.dry_run ≡ false
      → env.get_node ≡ found node
      → env.list_pods ≡ some pods
      → (build_inputs env.reads cfg.spec (node_manageable node cfg.spec) pods (judging_of st)).0
        ≡ gives inputs
      → Completes
          (wanted env.calls
            (build_inputs env.reads cfg.spec
              (node_manageable node cfg.spec)
              pods
              (judging_of st)).1.by_key
            (compute_node (q.milli_value (cpu node.allocatable)) inputs cfg.policy))
          (reconcile env name st)
  unfolding reconcile with_config with_node with_pods judging_of
  reconcile-Completes env name st cfg node pods inputs ready loaded live read listed given =
      simp (ready, loaded, read, listed)
        (with_inputs-Completes env name cfg live node _ inputs
          (record st { dynamic_debounce = set_debounce cfg.debounce_period st.dynamic_debounce })
          given
          (build_inputs-patches [] env.reads cfg.spec (node_manageable node cfg.spec) pods
            (judging_of st) refl))
