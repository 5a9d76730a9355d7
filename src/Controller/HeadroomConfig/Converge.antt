-- ===== src/Controller/HeadroomConfig/Converge.antt =====
-- The status that the reconciler of the HeadroomConfig writes, and its next reconcile.
use mathlib.Core.Path.{subst, sym, ap₂}
use kube_headroom.Prelude.{
  ℕ, ◌^◌, ◌<◌, ◌≡◌, refl, ap, ◌∙◌, Bool, true, ◌&&◌, inl, inr, Option, none, some, List, [], ◌∷◌,
  length, arith, Bool-cases,
}
use kube_headroom.Prelude.Int.{pos, eqb_ℤ, eqb_ℤ-refl, eqb_ℤ-true}
use kube_headroom.Prelude.Text.{str_eq, str_eq_refl, str_eq-true}
use kube_headroom.Kube.{Quantity, ResourceHelper, Selectors, Read, found}
use kube_headroom.Controller.Series.{Series}
use kube_headroom.Controller.Limiters.{RateLimiters}
use kube_headroom.Controller.Reconcile.{Reconciler}
use kube_headroom.Controller.Reconcile.Kept.{Running, managed_counts-Running}
use kube_headroom.Controller.HeadroomConfig.{
  Condition, HeadroomConfigStatus, HeadroomConfig, int32, condition_equal, conditions_equal,
  status_equal, SetStatusCondition, ready_condition, refreshed, counts_of, requeues_after,
  ConfigCluster, status_resync_period, write_status, reconcile_found, reconcile_config,
}

int32_lem : (n : ℕ) → n < 2 ^ 31 → int32 n ≡ pos n
unfolding int32
int32_lem n h = ground arith

conditions_equal_refl : (cs : List Condition) → conditions_equal cs cs ≡ true
unfolding conditions_equal condition_equal
conditions_equal_refl [] = refl
conditions_equal_refl (c ∷ cs) = simp (str_eq_refl, eqb_ℤ-refl, conditions_equal_refl cs)

status_equal_refl : (s : HeadroomConfigStatus) → status_equal s s ≡ true
unfolding status_equal
status_equal_refl s = simp (eqb_ℤ-refl, conditions_equal_refl)

conj_4 :
    (a b c d : Bool) → (a && b && c && d) ≡ true → (a ≡ true) × (b ≡ true) × (c ≡ true) × (d ≡ true)
conj_4 a b c d h = ground arith

conj_6 :
    (a b c d e f : Bool)
    → (a && b && c && d && e && f) ≡ true
    → (a ≡ true) × (b ≡ true) × (c ≡ true) × (d ≡ true) × (e ≡ true) × (f ≡ true)
conj_6 a b c d e f h = ground arith

condition_equal-true : (c d : Condition) → condition_equal c d ≡ true → c ≡ d
unfolding condition_equal
condition_equal-true c d h =
    let (e1, e2, e3, e4, e5, e6) =
      conj_6 (str_eq c.condition_type d.condition_type) (str_eq c.status d.status)
        (eqb_ℤ c.observed_generation d.observed_generation)
        (str_eq c.last_transition_time d.last_transition_time) (str_eq c.reason d.reason)
        (str_eq c.message d.message) h in
    cc (
      str_eq-true c.condition_type d.condition_type e1,
      str_eq-true c.status d.status e2,
      eqb_ℤ-true c.observed_generation d.observed_generation e3,
      str_eq-true c.last_transition_time d.last_transition_time e4,
      str_eq-true c.reason d.reason e5,
      str_eq-true c.message d.message e6,
    )

conj_2 : (a b : Bool) → (a && b) ≡ true → (a ≡ true) × (b ≡ true)
conj_2 a b h = ground arith

conditions_equal-true : (cs ds : List Condition) → conditions_equal cs ds ≡ true → cs ≡ ds
unfolding conditions_equal
conditions_equal-true [] [] h = refl
conditions_equal-true [] (d ∷ ds) h = absurd (cc h)
conditions_equal-true (c ∷ cs) [] h = absurd (cc h)
conditions_equal-true (c ∷ cs) (d ∷ ds) h =
    let (e, es) = conj_2 (condition_equal c d) (conditions_equal cs ds) h in
    cc (condition_equal-true c d e, conditions_equal-true cs ds es)

status_equal-true : (s t : HeadroomConfigStatus) → status_equal s t ≡ true → s ≡ t
unfolding status_equal
status_equal-true s t h =
    let (g, p, n, c) =
      conj_4 (eqb_ℤ s.observed_generation t.observed_generation)
        (eqb_ℤ s.managed_pods t.managed_pods) (eqb_ℤ s.managed_nodes t.managed_nodes)
        (conditions_equal s.conditions t.conditions) h in
    cc (
      eqb_ℤ-true s.observed_generation t.observed_generation g,
      eqb_ℤ-true s.managed_pods t.managed_pods p,
      eqb_ℤ-true s.managed_nodes t.managed_nodes n,
      conditions_equal-true s.conditions t.conditions c,
    )

-- Setting a condition that has just been set changes nothing.
abbrev pub SetsOnce : SetStatusCondition → SetStatusCondition → Type 0
SetsOnce set later = (cs : List Condition) (c : Condition) → later (set cs c) c ≡ set cs c

-- The object in the API server after a reconcile whose update, if it sends one, goes through.
abbrev pub stored :
    {Q S : Type 0} → HeadroomConfig Q S → Option (HeadroomConfig Q S) → HeadroomConfig Q S
stored hc none = hc
stored hc (some written) = written

module _ {Q S : Type 0} (env : ConfigCluster Q S) where
  stored_lem :
      (hc : HeadroomConfig Q S) (pods nodes : ℕ)
      → stored hc (write_status env hc (refreshed env.set_status_condition hc pods nodes)).written
        ≡ refreshed env.set_status_condition hc pods nodes
  unfolding write_status refreshed
  stored_lem hc pods nodes =
      let hc' = refreshed env.set_status_condition hc pods nodes in
      elim (Bool-cases (status_equal hc.status hc'.status)) [
        | inl same ↦ rw same (
            ap (λ (s : HeadroomConfigStatus). record hc { status = s })
              (status_equal-true hc.status hc'.status same))
        | inr new ↦ rw new refl
      ]

  -- A refreshed object is refreshed to itself.
  refreshed_twice :
      (set later : SetStatusCondition) (hc : HeadroomConfig Q S) (pods nodes : ℕ)
      → SetsOnce set later
      → refreshed later (refreshed set hc pods nodes) pods nodes ≡ refreshed set hc pods nodes
  unfolding refreshed ready_condition
  refreshed_twice set later hc pods nodes once =
      let hc' = refreshed set hc pods nodes in
      ap (λ (cs : List Condition). record hc { status = record hc'.status { conditions = cs } })
        (once hc.status.conditions (ready_condition hc pods nodes))

  write_status-same :
      (hc hc' : HeadroomConfig Q S)
      → hc' ≡ hc
      → ((write_status env hc hc').written ≡ none)
        × ((write_status env hc hc').ending ≡ requeues_after status_resync_period)
  unfolding write_status
  write_status-same hc hc' e =
      let same : status_equal hc.status hc'.status ≡ true =
        ap (λ (c : HeadroomConfig Q S). status_equal hc.status c.status) e
        ∙ status_equal_refl hc.status in
      rw same (refl, refl)

-- What a stored status says of the reconciler's state.
abbrev pub Agrees : {Q S : Type 0} → Series → HeadroomConfig Q S → Type 0
Agrees st hc =
    (hc.status.managed_pods ≡ pos st.pods_managed)
    × (hc.status.managed_nodes ≡ pos (length st.pod_series))
    × (hc.status.observed_generation ≡ hc.generation)

refreshed-Agrees :
    {Q S : Type 0} (set : SetStatusCondition) (hc : HeadroomConfig Q S) (st : Series)
    → st.pods_managed < 2 ^ 31
    → length st.pod_series < 2 ^ 31
    → Agrees st (refreshed set hc st.pods_managed (length st.pod_series))
unfolding refreshed
refreshed-Agrees set hc st few_pods few_nodes =
    (int32_lem st.pods_managed few_pods, int32_lem (length st.pod_series) few_nodes, refl)

module _ {Q S L : Type 0} ⦃q : Quantity Q⦄ ⦃helper : ResourceHelper Q⦄ ⦃sel : Selectors S⦄
    ⦃rate : RateLimiters L⦄ where
  -- After any reconciles of nodes, with fewer than 2^31 managed pods and nodes, a Reconcile that
  -- finds the HeadroomConfig leaves, once its update is stored, a status with the podsManaged
  -- gauge, the number of nodes with an entry and the object's generation; and the next Reconcile
  -- under the same figures writes nothing and comes back after 30 seconds, where setting a
  -- condition that has just been set changes nothing.
  pub reconcile_config-Agrees :
      (env : ConfigCluster Q S) (hc : HeadroomConfig Q S) (st : Reconciler L)
      (later : SetStatusCondition)
      → Running Q S st
      → st.series.pods_managed < 2 ^ 31
      → length st.series.pod_series < 2 ^ 31
      → env.get ≡ found hc
      → env.managed_state ≡ some st.series
      → SetsOnce env.set_status_condition later
      → let hc' = stored hc (reconcile_config env).written in
        let again =
          reconcile_config (record env { get = found hc'; set_status_condition = later }) in
        Agrees st.series hc'
        × (again.written ≡ none)
        × (again.ending ≡ requeues_after status_resync_period)
  unfolding reconcile_config reconcile_found counts_of
  reconcile_config-Agrees env hc st later running few_pods few_nodes read counting once =
      let pods = st.series.pods_managed in
      let nodes = length st.series.pod_series in
      let hc' = refreshed env.set_status_condition hc pods nodes in
      let counted : counts_of env.managed_state ≡ (pods, nodes) =
        ap counts_of counting ∙ managed_counts-Running st running in
      let kept : stored hc (reconcile_config env).written ≡ hc' =
        ap₂
          (λ (r : Read (HeadroomConfig Q S)) (c : ℕ × ℕ).
            stored hc (reconcile_found env r c).written)
          read counted
        ∙ stored_lem env hc pods nodes in
      let again : refreshed later (stored hc (reconcile_config env).written)
            (counts_of env.managed_state).0 (counts_of env.managed_state).1
          ≡ stored hc (reconcile_config env).written =
        ap₂ (λ (x : HeadroomConfig Q S) (c : ℕ × ℕ). refreshed later x c.0 c.1) kept counted
        ∙ (refreshed_twice env env.set_status_condition later hc pods nodes once ∙ sym kept) in
      let env' = record env {
        get = found (stored hc (reconcile_config env).written);
        set_status_condition = later;
      } in
      let (silent, ending) = write_status-same env' _ _ again in
      (
        subst (λ (x : HeadroomConfig Q S). Agrees st.series x) (sym kept)
            (refreshed-Agrees env.set_status_condition hc st.series few_pods few_nodes),
        silent,
        ending,
      )
