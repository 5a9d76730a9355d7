-- ===== src/Controller/Reconcile/Consent.antt =====
-- Reconcile: what must hold before a patch is sent.
use mathlib.Core.Path.{subst}
use kube_headroom.Prelude.{
  ◌≡◌, refl, ap, ◌∙◌, Bool, true, false, not, ◌⊎◌, inl, inr, if◌then◌else◌, Option, none, some,
  List, [], String, Bool-cases,
}
use kube_headroom.Prelude.Int.{ℤ}
use kube_headroom.Prelude.Text.{lookup}
use kube_headroom.Kube.{
  Quantity, GoMap, Pod, Node, ResourceHelper, Selectors, HeadroomConfigSpec, Read, found, not_found,
  failed, cpu,
}
use kube_headroom.Policy.{PodInput, Decision, NodeStats, compute_node}
use kube_headroom.Eligibility.{node_manageable}
use kube_headroom.Controller.Settings.{
  ResolvedConfig, resolve_config, load_config, debounce_period_of,
}
use kube_headroom.Controller.Settings.Consent.{is_dry-false}
use kube_headroom.Controller.Inputs.{Judging, Result, gives, fails_with, build_inputs}
use kube_headroom.Controller.Inputs.Judged.{build_inputs-unmanaged}
use kube_headroom.Controller.Inputs.Silent.{build_inputs-patches}
use kube_headroom.Controller.Limiters.{RateLimiters, limiter_at, limiter_for}
use kube_headroom.Controller.Resize.{Calls, idle, resize_all, requeue_after, second}
use kube_headroom.Controller.Resize.Attempts.{patches, patches-append}
use kube_headroom.Controller.Resize.DryRun.{resize_all-dry_run}
use kube_headroom.Controller.Reconcile.{
  Reconciler, Cluster, ends, judging_of, keep, apply_decisions, with_inputs, with_pods, with_node,
  with_config, reconcile,
}

module _ {Q L : Type 0} ⦃q : Quantity Q⦄ (calls : Calls Q L) (by_key : GoMap (Pod Q)) (limiter : L)
    (backoff : GoMap ℤ) where
  -- A loop that is dry, or has no decision, sends nothing.
  resize_all-quiet :
      (dry_run : Bool) (decisions : List Decision)
      → (dry_run ≡ true) ⊎ (decisions ≡ [])
      → patches (resize_all calls dry_run by_key decisions limiter backoff).effects ≡ []
  unfolding resize_all idle
  resize_all-quiet true decisions h = (resize_all-dry_run calls by_key decisions limiter backoff).0
  resize_all-quiet false decisions (inl e) = cc e
  resize_all-quiet false decisions (inr e) =
      ap (λ ds. patches (resize_all calls false by_key ds limiter backoff).effects) e

module _ {Q S L : Type 0} ⦃q : Quantity Q⦄ ⦃rate : RateLimiters L⦄ (env : Cluster Q S L)
    (name : String) (cfg : ResolvedConfig Q S) where
  apply_decisions-quiet :
      (inputs : List PodInput) (j : Judging Q) (r : NodeStats × List Decision) (st : Reconciler L)
      → patches j.effects ≡ []
      → (cfg.dry_run ≡ true) ⊎ (r.1 ≡ [])
      → patches (apply_decisions env name cfg inputs j r st).effects ≡ []
  unfolding apply_decisions limiter_for
  apply_decisions-quiet inputs j (stats, decisions) st silent quiet =
      patches-append j.effects _
      ∙ rw
          (
            silent,
            resize_all-quiet env.calls j.by_key
                (limiter_at cfg.per_node_pps (lookup name st.limiters)) st.backoff cfg.dry_run
                decisions quiet,
          )
          refl

  -- No patch on the inputs of a dry run, or of a node without decisions.
  with_inputs-quiet :
      (node : Node Q) (r : Result (List PodInput) × Judging Q) (st : Reconciler L)
      → patches r.1.effects ≡ []
      → (cfg.dry_run ≡ true)
        ⊎ ((inputs : List PodInput)
            → r.0 ≡ gives inputs
            → compute_node (q.milli_value (cpu node.allocatable)) inputs cfg.policy ≡ [])
      → patches (with_inputs env name cfg node r st).effects ≡ []
  unfolding with_inputs compute_node
  with_inputs-quiet node (fails_with e, j) st silent h = silent
  with_inputs-quiet node (gives inputs, j) st silent (inl dry) =
      apply_decisions-quiet inputs j _ (keep j st) silent (inl dry)
  with_inputs-quiet node (gives inputs, j) st silent (inr h) =
      apply_decisions-quiet inputs j _ (keep j st) silent (inr (h inputs refl))

module _ {Q S L : Type 0} ⦃q : Quantity Q⦄ ⦃helper : ResourceHelper Q⦄ ⦃sel : Selectors S⦄
    ⦃rate : RateLimiters L⦄ (env : Cluster Q S L) (name : String) where
  with_pods-consent :
      (cfg : ResolvedConfig Q S) (node : Node Q) (pods : Option (List (Pod Q))) (st : Reconciler L)
      → (patches (with_pods env name cfg node pods st).effects ≡ [])
        ⊎ ((cfg.dry_run ≡ false) × (node_manageable node cfg.spec ≡ true))
  unfolding with_pods judging_of
  with_pods-consent cfg node none st = inl refl
  with_pods-consent cfg node (some pods) st =
      let silent =
        build_inputs-patches [] env.reads cfg.spec (node_manageable node cfg.spec) pods
          (judging_of st) refl in
      elim (Bool-cases cfg.dry_run) [
        | inl dry ↦ inl (with_inputs-quiet env name cfg node _ st silent (inl dry))
        | inr live ↦ elim (Bool-cases (node_manageable node cfg.spec)) [
          | inl managed ↦ inr (live, managed)
          | inr apart ↦ inl (
              with_inputs-quiet env name cfg node _ st silent (
                inr (λ inputs e. no_decision inputs (
                  subst
                    (λ b. (build_inputs env.reads cfg.spec b pods (judging_of st)).0 ≡ gives inputs)
                    apart e))))
        ]
      ]
    where
      no_decision :
          (inputs : List PodInput)
          → (build_inputs env.reads cfg.spec false pods (judging_of st)).0 ≡ gives inputs
          → compute_node (q.milli_value (cpu node.allocatable)) inputs cfg.policy ≡ []
      no_decision inputs e =
          elim (build_inputs-unmanaged env.reads cfg.spec pods (judging_of st)
            (q.milli_value (cpu node.allocatable)) cfg.policy) [
              | inl (t, broken, fails) ↦ absurd (cc (broken, e))
              | inr (ps, e', nothing) ↦ cc (e, e', nothing)
            ]

  with_node-consent :
      (cfg : ResolvedConfig Q S) (r : Read (Node Q)) (st : Reconciler L)
      → (patches (with_node env name cfg r st).effects ≡ [])
        ⊎ ((cfg.dry_run ≡ false)
            × (node : Node Q) × (r ≡ found node)
            × (node_manageable node cfg.spec ≡ true))
  unfolding with_node
  with_node-consent cfg not_found st = inl refl
  with_node-consent cfg failed st = inl refl
  with_node-consent cfg (found node) st = elim (with_pods-consent cfg node env.list_pods st) [
    | inl silent ↦ inl silent
    | inr (live, managed) ↦ inr (live, node, refl, managed)
  ]

  with_config-consent :
      (r : Read (HeadroomConfigSpec Q S)) (fallback : ℤ) (st : Reconciler L)
      → (patches (with_config env name (load_config r fallback) st).effects ≡ [])
        ⊎ ((s : HeadroomConfigSpec Q S) × (r ≡ found s)
            × (s.dry_run ≡ some false)
            × (node : Node Q) × (env.get_node ≡ found node)
            × (node_manageable node s ≡ true))
  unfolding with_config load_config resolve_config
  with_config-consent not_found fallback st = elim (with_node-consent _ env.get_node _) [
    | inl silent ↦ inl silent
    | inr (live, node, e, managed) ↦ absurd (cc live)
  ]
  with_config-consent failed fallback st = inl refl
  with_config-consent (found s) fallback st =
      elim (with_node-consent (resolve_config s fallback) env.get_node _) [
        | inl silent ↦ inl silent
        | inr (live, node, e, managed) ↦
            inr (s, refl, is_dry-false s.dry_run live, node, e, managed)
      ]

  -- Reconcile sends no resize patch, or the VPA poller is synced, the HeadroomConfig was read with
  -- dryRun explicitly false, the node was read, and it is manageable under that config.
  pub reconcile-consent :
      (st : Reconciler L)
      → (patches (reconcile env name st).effects ≡ [])
        ⊎ ((env.synced ≡ true)
            × (s : HeadroomConfigSpec Q S) × (env.get_config ≡ found s)
            × (s.dry_run ≡ some false)
            × (node : Node Q) × (env.get_node ≡ found node)
            × (node_manageable node s ≡ true))
  unfolding reconcile
  reconcile-consent st = after_sync env.synced refl
    where
      after_sync :
          (b : Bool)
          → env.synced ≡ b
          → (patches
                (if not b
                  then ends st (requeue_after second)
                  else with_config env name
                      (load_config env.get_config (debounce_period_of env.debounce_period))
                      st).effects
              ≡ [])
            ⊎ ((b ≡ true)
                × (s : HeadroomConfigSpec Q S) × (env.get_config ≡ found s)
                × (s.dry_run ≡ some false)
                × (node : Node Q) × (env.get_node ≡ found node)
                × (node_manageable node s ≡ true))
      after_sync false e = inl refl
      after_sync true e =
          elim (with_config-consent env.get_config (debounce_period_of env.debounce_period) st) [
            | inl silent ↦ inl silent
            | inr (s, e', explicit, node, e'', managed) ↦
                inr (refl, s, e', explicit, node, e'', managed)
          ]
