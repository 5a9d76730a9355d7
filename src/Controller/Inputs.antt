-- ===== src/Controller/Inputs.antt =====
-- internal/controller/node_controller.go: buildInputs, which judges the pods of a node and turns them into
-- inputs of the policy, with noteVPASkip and the pods' resize conditions. The reads of the API server and
-- of the VPA poller, and the clock at each pod (when its window is checked,
-- and later when one is opened), are the parameters of Reads; none is an error, which ends the call and
-- leaves the reconciler's maps as they are then. An error keeps what the code puts before the call's own text.
pub mod Judged
pub mod Silent
pub mod Cached
pub mod Uncached
use Prim.Native.String.{◌++◌ as str_append}
use kube_headroom.Prelude.{
  ℕ, suc, ◌≡◌, refl, Bool, true, false, not, ◌&&◌, ◌||◌, if◌then◌else◌, Option, none, some, List,
  [], ◌∷◌, ◌++◌, String,
}
use kube_headroom.Prelude.Int.{ℤ, pos}
use kube_headroom.Prelude.Text.{lookup, insert, str_eq}
use kube_headroom.Kube.{
  Quantity, GoMap, OwnerReference, PodCondition, Pod, Namespace, LimitRange, ResourceHelper,
  Selectors, HeadroomConfigSpec, Read, found, not_found, failed,
}
use kube_headroom.Policy.{PodInput}
use kube_headroom.Eligibility.{
  ResizableContainer, resizable_containers, pod_terminal, eligible, owner_excluded,
  namespace_managed,
}
use kube_headroom.Eligibility.LimitRange.{limit_range_cap_milli}
use kube_headroom.Eligibility.Vpa.{Vpa, limit_managing_vpa}
use kube_headroom.Controller.PodInput.{pod_key, build_pod_input}
use kube_headroom.Controller.Backoff.{delete, in_backoff, set_backoff}
use kube_headroom.Controller.Resize.{Effect, metered, event}

-- A condition of a pending resize, with a reason.
unfoldable pub has_pending : String → List PodCondition → Bool
has_pending reason [] = false
has_pending reason (c ∷ conditions) =
    (str_eq c.condition_type "PodResizePending" && str_eq c.reason reason)
    || has_pending reason conditions

module _ {Q : Type 0} where
  unfoldable pub pod_resize_infeasible : Pod Q → Bool
  pod_resize_infeasible pod = has_pending "Infeasible" pod.conditions

  unfoldable pub pod_resize_deferred : Pod Q → Bool
  pod_resize_deferred pod = has_pending "Deferred" pod.conditions

  -- countDeferred: the managed inputs whose pod has a deferred resize.
  unfoldable pub is_deferred : Option (Pod Q) → Bool
  is_deferred none = false
  is_deferred (some pod) = pod_resize_deferred pod

  unfoldable pub count_deferred : List PodInput → GoMap (Pod Q) → ℕ
  count_deferred [] by_key = 0
  count_deferred (p ∷ inputs) by_key =
      let rest = count_deferred inputs by_key in
      if p.managed && is_deferred (lookup p.key by_key) then suc rest else rest

pub record Reads (Q : Type 0) : Type 0 where
  pub get_namespace : String → Read Namespace
  pub list_limit_ranges : String → Option (List (LimitRange Q))
  pub vpas_for_namespace : String → List Vpa
  pub controller_of : List OwnerReference → Option OwnerReference
  pub clock : String → ℤ
  pub later_clock : String → ℤ
  pub backoff_period : ℤ

-- The reconciler's maps, the caches of one call of buildInputs, the effects, and the map from keys to
-- pods.
pub record Judging (Q : Type 0) : Type 0 where
  pub backoff : GoMap ℤ
  pub vpa_skipped : GoMap String
  pub ns_managed : GoMap Bool
  pub ns_limit_ranges : GoMap (List (LimitRange Q))
  pub effects : List (Effect Q)
  pub by_key : GoMap (Pod Q)

-- Whether a pod is managed, or holds its share.
pub record Verdict : Type 0 where
  pub managed : Bool
  pub holds_share : Bool

abbrev pub left_alone : Verdict
left_alone = record { managed = false; holds_share = false }

-- A result, or the text of an error.
pub data Result (A : Type 0) : Type 0 where
  gives : A → Result A
  fails_with : String → Result A

-- A step that may fail with the state that it leaves, and the one after it.
abbrev pub and_then :
    {Q A B : Type 0}
    → Result A × Judging Q
    → (A → Judging Q → Result B × Judging Q)
    → Result B × Judging Q
and_then (fails_with e, st) f = (fails_with e, st)
and_then (gives a, st) f = f a st

-- A step that does not fail.
abbrev pub succeeds : {Q A : Type 0} → A × Judging Q → Result A × Judging Q
succeeds (a, st) = (gives a, st)

-- A call's answer, with the text of its error where it has none.
abbrev pub or_fail : {A : Type 0} → String → Option A → Result A
or_fail e none = fails_with e
or_fail e (some a) = gives a

abbrev pub seen_before : Option String → String → Bool
seen_before none name = false
seen_before (some previous) name = str_eq previous name

module _ {Q : Type 0} where
  -- The LimitRanges of the pod's namespace, by the cache or a read that the cache then holds.
  unfoldable pub cached_ranges :
      Reads Q
      → String
      → Option (List (LimitRange Q))
      → Judging Q
      → Result (List (LimitRange Q)) × Judging Q
  cached_ranges reads ns (some ranges) st = (gives ranges, st)
  cached_ranges reads ns none st =
      and_then (or_fail (str_append "list limitranges in " ns) (reads.list_limit_ranges ns), st)
        (λ ranges st'.
          (gives ranges, record st' { ns_limit_ranges = insert ns ranges st'.ns_limit_ranges }))

  unfoldable pub limit_ranges :
      Reads Q → String → Judging Q → Result (List (LimitRange Q)) × Judging Q
  limit_ranges reads ns st = cached_ranges reads ns (lookup ns st.ns_limit_ranges) st

  unfoldable pub note_vpa_skip : Pod Q → String → Judging Q → Judging Q
  note_vpa_skip pod name st =
      let swapped = record st { vpa_skipped = insert pod.uid name st.vpa_skipped } in
      if str_eq name ""
      then record st { vpa_skipped = delete pod.uid st.vpa_skipped }
      else (if seen_before (lookup pod.uid st.vpa_skipped) name then swapped else record swapped {
        effects = st.effects ++ event (pod_key pod) "Warning" "VPAManagesLimit" ∷ [];
      })

  -- A managed pod with an infeasible resize goes into backoff and holds its share.
  unfoldable pub back_off_infeasible : Reads Q → Pod Q → Verdict × Judging Q → Verdict × Judging Q
  back_off_infeasible reads pod (v, st) =
      if v.managed && pod_resize_infeasible pod
      then (
        record { managed = false; holds_share = true },
        record st {
          effects =
              st.effects
              ++ metered "infeasible" ∷ event (pod_key pod) "Warning" "ResizeInfeasible" ∷ [];
          backoff =
              set_backoff pod (reads.later_clock (pod_key pod)) reads.backoff_period st.backoff;
        },
      )
      else (v, st)

module _ {Q : Type 0} ⦃q : Quantity Q⦄ where
  -- The verdict on a pod whose namespace has been judged.
  unfoldable pub enrolled_verdict : Reads Q → Pod Q → Bool → Bool × Judging Q → Verdict × Judging Q
  enrolled_verdict reads pod backed_off (ok, st) =
      let name =
        limit_managing_vpa reads.controller_of pod (resizable_containers pod)
          (reads.vpas_for_namespace pod.namespace) in
      let free = str_eq name "" in
      if not ok then (left_alone, st) else (
        record { managed = free && not backed_off; holds_share = free && backed_off },
        note_vpa_skip pod name st,
      )

module _ {Q : Type 0} ⦃q : Quantity Q⦄ ⦃helper : ResourceHelper Q⦄ where
  -- The pod's input, and the entry of the pod under its key.
  unfoldable pub input_of : Pod Q → Verdict → List (LimitRange Q) → Judging Q → PodInput × Judging Q
  input_of pod v ranges st =
      let rcs = resizable_containers pod in
      let input = build_pod_input pod rcs v.managed in
      (
        record input {
          holds_share = v.holds_share;
          limit_range_cap =
              if v.managed then limit_range_cap_milli pod rcs ranges else input.limit_range_cap;
        },
        record st { by_key = insert (pod_key pod) pod st.by_key },
      )

  -- The input of a judged pod, which a managed pod's LimitRanges bound.
  unfoldable pub finish_input : Reads Q → Pod Q → Verdict × Judging Q → Result PodInput × Judging Q
  finish_input reads pod (v, st) =
      if v.managed
      then and_then (limit_ranges reads pod.namespace st)
          (λ ranges st'. succeeds (input_of pod v ranges st'))
      else succeeds (input_of pod v [] st)

module _ {Q S : Type 0} ⦃sel : Selectors S⦄ where
  -- The read of a namespace, without the cache.
  unfoldable pub read_namespace : String → Read Namespace → HeadroomConfigSpec Q S → Result Bool
  read_namespace name (found ns) spec = gives (namespace_managed ns spec)
  read_namespace name not_found spec = gives false
  read_namespace name failed spec = fails_with (str_append "get namespace " name)

  -- Whether the pod's namespace is managed, by the cache or a read that the cache then holds.
  unfoldable pub cached_verdict :
      Reads Q → HeadroomConfigSpec Q S → String → Option Bool → Judging Q → Result Bool × Judging Q
  cached_verdict reads spec ns (some ok) st = (gives ok, st)
  cached_verdict reads spec ns none st =
      and_then (read_namespace ns (reads.get_namespace ns) spec, st)
        (λ ok st'. (gives ok, record st' { ns_managed = insert ns ok st'.ns_managed }))

  unfoldable pub namespace_verdict :
      Reads Q → HeadroomConfigSpec Q S → String → Judging Q → Result Bool × Judging Q
  namespace_verdict reads spec ns st = cached_verdict reads spec ns (lookup ns st.ns_managed) st

module _ {Q S : Type 0} ⦃q : Quantity Q⦄ where
  -- The gates that need no read.
  unfoldable pub may_manage : Bool → HeadroomConfigSpec Q S → Pod Q → Bool
  may_manage node_managed spec pod =
      node_managed
      && eligible pod (resizable_containers pod)
      && not (owner_excluded pod spec.excluded_owners)

module _ {Q S : Type 0} ⦃q : Quantity Q⦄ ⦃sel : Selectors S⦄ where
  unfoldable pub judge :
      Reads Q → HeadroomConfigSpec Q S → Bool → Pod Q → Judging Q → Result Verdict × Judging Q
  judge reads spec node_managed pod st =
      let (backed_off, windows) = in_backoff pod (reads.clock (pod_key pod)) st.backoff in
      if not (may_manage node_managed spec pod)
      then (gives left_alone, st)
      else and_then (namespace_verdict reads spec pod.namespace (record st { backoff = windows }))
          (λ ok st'. succeeds (enrolled_verdict reads pod backed_off (ok, st')))

module _ {Q S : Type 0} ⦃q : Quantity Q⦄ ⦃helper : ResourceHelper Q⦄ ⦃sel : Selectors S⦄ where
  -- The body of the loop for a pod that is not terminal.
  unfoldable pub build_input :
      Reads Q → HeadroomConfigSpec Q S → Bool → Pod Q → Judging Q → Result PodInput × Judging Q
  build_input reads spec node_managed pod st =
      and_then (judge reads spec node_managed pod st)
        (λ v st'. finish_input reads pod (back_off_infeasible reads pod (v, st')))

  unfoldable pub build_inputs :
      Reads Q
      → HeadroomConfigSpec Q S
      → Bool
      → List (Pod Q)
      → Judging Q
      → Result (List PodInput) × Judging Q
  build_inputs reads spec node_managed [] st = (gives [], st)
  build_inputs reads spec node_managed (pod ∷ pods) st =
      let skip = build_inputs reads spec node_managed pods st in
      let rest = λ (p : PodInput) (s : Judging Q).
        and_then (build_inputs reads spec node_managed pods s) (λ ps s'. (gives (p ∷ ps), s')) in
      if pod_terminal pod then skip else and_then (build_input reads spec node_managed pod st) rest
