-- ===== src/Controller/Reconcile/Failure.antt =====
-- Reconcile: what a failed read leads to.
use mathlib.Core.Option.{some-injective}
use mathlib.Core.Path.{subst, sym}
use kube_headroom.Prelude.{
  ◌≡◌, refl, true, ◌⊎◌, inl, inr, Option, none, some, List, [], ◌∷◌, String,
}
use kube_headroom.Prelude.Int.{ℤ}
use kube_headroom.Kube.{
  Quantity, Pod, Node, ResourceHelper, Selectors, Read, found, not_found, failed,
}
use kube_headroom.Policy.{PodInput}
use kube_headroom.Eligibility.{node_manageable}
use kube_headroom.Controller.Settings.{ResolvedConfig, load_config, debounce_period_of}
use kube_headroom.Controller.Inputs.{Judging, Result, gives, fails_with, build_inputs}
use kube_headroom.Controller.Inputs.Silent.{build_inputs-patches}
use kube_headroom.Controller.Limiters.{RateLimiters}
use kube_headroom.Controller.Resize.{fails}
use kube_headroom.Controller.Resize.Attempts.{patches}
use kube_headroom.Controller.Reconcile.{
  Reconciler, Cluster, Reconciled, ends, judging_of, keep, with_inputs, with_pods, with_node,
  with_config, reconcile,
}

-- What is left of a reconcile that fails early: one error, no patch, and the limiters, the series and
-- the gauges as they were.
pub record IsBroken {Q L : Type 0} (st : Reconciler L) (r : Reconciled Q L) : Type 0 where
  pub error : (e : String) × (r.answer ≡ fails (e ∷ []))
  pub silent : patches r.effects ≡ []
  pub limiters : r.state.limiters ≡ st.limiters
  pub series : r.state.series ≡ st.series
  pub gauges : r.state.gauges ≡ st.gauges

module _ {Q S L : Type 0} ⦃q : Quantity Q⦄ ⦃helper : ResourceHelper Q⦄ ⦃sel : Selectors S⦄
    ⦃rate : RateLimiters L⦄ (env : Cluster Q S L) (name : String) (st : Reconciler L) where
  -- The inputs of a node's pods cannot be built.
  abbrev NoInputs : ResolvedConfig Q S → Node Q → List (Pod Q) → Type 0
  NoInputs cfg node pods =
      (e : String) × ((build_inputs env.reads cfg.spec (node_manageable node cfg.spec) pods
          (judging_of st)).0
        ≡ fails_with e)

  -- A read of the node, or of its pods, that fails.
  abbrev NoPods : ResolvedConfig Q S → Option (List (Pod Q)) → Node Q → Type 0
  NoPods cfg pods node =
      (pods ≡ none) ⊎ ((ps : List (Pod Q)) × (pods ≡ some ps) × NoInputs cfg node ps)

  abbrev NoNode : ResolvedConfig Q S → Read (Node Q) → Type 0
  NoNode cfg r = (r ≡ failed) ⊎ ((node : Node Q) × (r ≡ found node) × NoPods cfg env.list_pods node)

  -- Some read fails that the reconcile comes to.
  abbrev pub Breaks : Option (ResolvedConfig Q S) → Type 0
  Breaks c = (c ≡ none) ⊎ ((cfg : ResolvedConfig Q S) × (c ≡ some cfg) × NoNode cfg env.get_node)

  with_inputs-IsBroken :
      (cfg : ResolvedConfig Q S) (node : Node Q) (r : Result (List PodInput) × Judging Q) (d : ℤ)
      (e : String)
      → r.0 ≡ fails_with e
      → patches r.1.effects ≡ []
      → IsBroken st (with_inputs env name cfg node r (record st { dynamic_debounce = d }))
  unfolding with_inputs keep
  with_inputs-IsBroken cfg node (fails_with e', j) d e same silent = record {
    error = (e', refl);
    silent = silent;
    limiters = refl;
    series = refl;
    gauges = refl;
  }
  with_inputs-IsBroken cfg node (gives inputs, j) d e same silent = absurd (cc same)

  breaks_lem :
      (e : String) (d : ℤ)
      → IsBroken st (ends {Q = Q} (record st { dynamic_debounce = d }) (fails (e ∷ [])))
  breaks_lem e d = record {
    error = (e, refl);
    silent = refl;
    limiters = refl;
    series = refl;
    gauges = refl;
  }

  with_pods-IsBroken :
      (cfg : ResolvedConfig Q S) (node : Node Q) (pods : Option (List (Pod Q))) (d : ℤ)
      → NoPods cfg pods node
      → IsBroken st (with_pods env name cfg node pods (record st { dynamic_debounce = d }))
  unfolding with_pods judging_of
  with_pods-IsBroken cfg node none d h = breaks_lem _ d
  with_pods-IsBroken cfg node (some pods) d (inl e) = absurd (cc e)
  with_pods-IsBroken cfg node (some pods) d (inr (ps, same, h)) =
      let (e, broken) : NoInputs cfg node pods =
        subst (λ (l : List (Pod Q)). NoInputs cfg node l) (sym (some-injective pods ps same)) h in
      with_inputs-IsBroken cfg node _ d e broken (
        build_inputs-patches [] env.reads cfg.spec (node_manageable node cfg.spec) pods
          (judging_of st) refl)

  with_node-IsBroken :
      (cfg : ResolvedConfig Q S) (r : Read (Node Q)) (d : ℤ)
      → NoNode cfg r
      → IsBroken st (with_node env name cfg r (record st { dynamic_debounce = d }))
  unfolding with_node
  with_node-IsBroken cfg not_found d (inl e) = absurd (cc e)
  with_node-IsBroken cfg not_found d (inr (node, e, h)) = absurd (cc e)
  with_node-IsBroken cfg failed d h = breaks_lem _ d
  with_node-IsBroken cfg (found node) d (inl e) = absurd (cc e)
  with_node-IsBroken cfg (found node) d (inr (node', e, h)) =
      with_pods-IsBroken cfg node env.list_pods d
        (subst (λ (n : Node Q). NoPods cfg env.list_pods n) (sym (found-injective e)) h)
    where
      found-injective : {n m : Node Q} → found n ≡ found m → n ≡ m
      found-injective {n} {m} e = cc e

  with_config-IsBroken :
      (c : Option (ResolvedConfig Q S)) → Breaks c → IsBroken st (with_config env name c st)
  unfolding with_config
  with_config-IsBroken none h = breaks_lem _ st.dynamic_debounce
  with_config-IsBroken (some cfg) (inl e) = absurd (cc e)
  with_config-IsBroken (some cfg) (inr (cfg', e, h)) = with_node-IsBroken cfg env.get_node _ (
      subst (λ (c : ResolvedConfig Q S). NoNode c env.get_node) (sym (some-injective cfg cfg' e)) h)

  -- With a synced VPA poller, where the config cannot be loaded, or it can and the node's read
  -- fails, or the node is found and its pods cannot be listed or their inputs cannot be built,
  -- Reconcile replies with one error, sends no resize patch, and leaves the limiters, the series
  -- and the gauges as they were.
  pub reconcile-IsBroken :
      env.synced ≡ true
      → Breaks (load_config env.get_config (debounce_period_of env.debounce_period))
      → IsBroken st (reconcile env name st)
  unfolding reconcile
  reconcile-IsBroken synced h = simp synced (with_config-IsBroken _ h)
