-- ===== src/Eligibility.antt =====
-- internal/eligibility/eligibility.go: which pods may be managed, and how their CPU requests and
-- limits are counted. Its children model the LimitRange cap and internal/eligibility/vpa.go.
pub mod LimitRange
pub mod Vpa
pub mod Limits
pub mod Blocking
pub mod Targets
pub mod Gates
pub mod Governs
mod Tests
use kube_headroom.Prelude.{
  ℕ, ◌≡◌, refl, Bool, true, false, not, ◌&&◌, ◌||◌, if◌then◌else◌, Option, none, some, List, [],
  ◌∷◌, ◌++◌, String, length, ltb,
}
use kube_headroom.Prelude.Int.{ℤ, pos, ltb_ℤ, leb_ℤ}
use kube_headroom.Prelude.Int64
use kube_headroom.Prelude.Text.{lookup, contains, cut, str_eq}
use kube_headroom.Kube.{
  Quantity, GoMap, ResizePolicy, Container, OwnerReference, PodResources, Pod, Namespace, Node,
  PodResourcesOptions, ResourceHelper, Selectors, ExcludedOwner, HeadroomConfigSpec, quantity_of,
  cpu, text_of, label_mode, annotation_max_cpu, mode_managed, mode_unmanaged,
}

pub record ResizableContainer : Type 0 where
  pub name : String
  pub request_milli : ℤ
  pub limit_milli : ℤ
  pub restart_on_resize : Bool

-- cpuRestartOnResize: the first policy for CPU decides.
unfoldable pub policy_restarts : List ResizePolicy → Bool
policy_restarts [] = false
policy_restarts (p ∷ policies) =
    let rest = policy_restarts policies in
    if str_eq p.resource_name "cpu" then str_eq p.restart_policy "RestartContainer" else rest

-- A restartable init container.
unfoldable pub is_always : Option String → Bool
is_always none = false
is_always (some policy) = str_eq policy "Always"

module _ {Q : Type 0} where
  abbrev pub cpu_restart_on_resize : Container Q → Bool
  cpu_restart_on_resize c = policy_restarts c.resize_policy

  abbrev pub is_sidecar : Container Q → Bool
  is_sidecar c = is_always c.restart_policy

  unfoldable pub pod_terminal : Pod Q → Bool
  pod_terminal pod = str_eq pod.phase "Succeeded" || str_eq pod.phase "Failed"

  unfoldable pub opted_out : Pod Q → Bool
  opted_out pod = str_eq (text_of label_mode pod.labels) mode_unmanaged

  unfoldable pub has_resources : Option (PodResources Q) → Bool
  has_resources none = false
  has_resources (some r) = ltb 0 (length r.requests) || ltb 0 (length r.limits)

  abbrev pub has_pod_level_resources : Pod Q → Bool
  has_pod_level_resources pod = has_resources pod.resources

module _ {Q : Type 0} ⦃q : Quantity Q⦄ where
  unfoldable pub resizable : Container Q → ResizableContainer
  resizable c = record {
    name = c.name;
    request_milli = q.milli_value (cpu c.requests);
    limit_milli = q.milli_value (cpu c.limits);
    restart_on_resize = cpu_restart_on_resize c;
  }

  -- The two loops of ResizableContainers.
  unfoldable pub app_containers : List (Container Q) → List ResizableContainer
  app_containers [] = []
  app_containers (c ∷ cs) = resizable c ∷ app_containers cs

  unfoldable pub sidecar_containers : List (Container Q) → List ResizableContainer
  sidecar_containers [] = []
  sidecar_containers (c ∷ cs) =
      let rest = sidecar_containers cs in if is_sidecar c then resizable c ∷ rest else rest

  unfoldable pub resizable_containers : Pod Q → List ResizableContainer
  resizable_containers pod = app_containers pod.containers ++ sidecar_containers pod.init_containers

  -- UserCapMilli; 0 = none.
  unfoldable pub user_cap_milli : Pod Q → ℤ
  user_cap_milli pod = elim (lookup annotation_max_cpu pod.annotations) [
    | none ↦ pos 0
    | some v ↦ elim (q.parse_quantity v) [
      | none ↦ pos 0
      | some amount ↦ if leb_ℤ (q.milli_value amount) (pos 0) then pos 0 else q.milli_value amount
    ]
  ]

abbrev pub scheduler_options : PodResourcesOptions
scheduler_options = record {
  use_status_resources = true;
  in_place_pod_level_resources = true;
  exclude_overhead = false;
}

unfoldable pub sum_requests : ℤ → List ResizableContainer → ℤ
sum_requests sum [] = sum
sum_requests sum (c ∷ rcs) = sum_requests (Int64.add sum c.request_milli) rcs

unfoldable pub pod_cpu_request_milli : List ResizableContainer → ℤ
pod_cpu_request_milli = sum_requests (pos 0)

-- The loop of PodCurrentLimitMilli: containers without a request are skipped, and one without a
-- limit makes the pod count as unlimited.
unfoldable pub sum_limits : ℤ → List ResizableContainer → ℤ
sum_limits sum [] = sum
sum_limits sum (c ∷ rcs) =
    let skip = sum_limits sum rcs in
    let count = sum_limits (Int64.add sum c.limit_milli) rcs in
    if leb_ℤ c.request_milli (pos 0)
    then skip
    else (if leb_ℤ c.limit_milli (pos 0) then pos 0 else count)

unfoldable pub pod_current_limit_milli : List ResizableContainer → ℤ
pod_current_limit_milli = sum_limits (pos 0)

unfoldable pub has_restart_on_resize : List ResizableContainer → Bool
has_restart_on_resize [] = false
has_restart_on_resize (c ∷ rcs) = c.restart_on_resize || has_restart_on_resize rcs

-- Eligible: the gates in the code's order.
module _ {Q : Type 0} where
  unfoldable pub eligible : Pod Q → List ResizableContainer → Bool
  eligible pod rcs =
      if pod_terminal pod
      then false
      else (if opted_out pod
          then false
          else (if has_pod_level_resources pod
              then false
              else (if not (str_eq pod.qos_class "Burstable")
                  then false
                  else (if leb_ℤ (pod_cpu_request_milli rcs) (pos 0)
                      then false
                      else not (has_restart_on_resize rcs)))))

-- PodBookedCPUMilli: what the scheduler books.
module _ {Q : Type 0} ⦃q : Quantity Q⦄ ⦃helper : ResourceHelper Q⦄ where
  unfoldable pub pod_booked_cpu_milli : Pod Q → ℤ
  pod_booked_cpu_milli pod = q.milli_value (cpu (helper.pod_requests pod scheduler_options))

module _ {Q S : Type 0} ⦃sel : Selectors S⦄ where
  -- NamespaceManaged: a selector that does not parse selects nothing.
  unfoldable pub namespace_managed : Namespace → HeadroomConfigSpec Q S → Bool
  namespace_managed ns spec =
      if contains ns.name spec.excluded_namespaces then false else elim spec.namespace_selector [
        | none ↦ str_eq (text_of label_mode ns.labels) mode_managed
        | some selector ↦ elim (sel.label_selector_as_selector selector) [
          | none ↦ false
          | some matches ↦ matches ns.labels
        ]
      ]

  -- NodeManageable: a selector that does not parse excludes every node.
  unfoldable pub node_manageable : Node Q → HeadroomConfigSpec Q S → Bool
  node_manageable node spec =
      if str_eq node.operating_system "windows"
        || str_eq (text_of "kubernetes.io/os" node.labels) "windows"
      then false
      else elim spec.excluded_node_selector [
        | none ↦ true
        | some selector ↦ elim (sel.label_selector_as_selector selector) [
          | none ↦ false
          | some matches ↦ not (matches node.labels)
        ]
      ]

-- The inner test of OwnerExcluded.
unfoldable pub owner_matches : OwnerReference → ExcludedOwner → Bool
owner_matches ref e =
    let group = cut b'/' ref.api_version in
    if not (str_eq e.kind ref.kind)
    then false
    else (if not (str_eq e.api_group "") && not (str_eq e.api_group group)
        then false
        else (if not (str_eq e.name "") && not (str_eq e.name ref.name) then false else true))

unfoldable pub matches_any : OwnerReference → List ExcludedOwner → Bool
matches_any ref [] = false
matches_any ref (e ∷ excluded) = owner_matches ref e || matches_any ref excluded

unfoldable pub any_excluded : List OwnerReference → List ExcludedOwner → Bool
any_excluded [] excluded = false
any_excluded (ref ∷ refs) excluded = matches_any ref excluded || any_excluded refs excluded

abbrev pub owner_excluded : {Q : Type 0} → Pod Q → List ExcludedOwner → Bool
owner_excluded pod excluded = any_excluded pod.owner_references excluded

-- To evaluate: what computes with the eligibility rules names this.
unfoldable pub evaluation : Unit {0}
unfolding policy_restarts is_always pod_terminal opted_out has_resources resizable app_containers
    sidecar_containers resizable_containers user_cap_milli sum_requests pod_cpu_request_milli
    sum_limits pod_current_limit_milli has_restart_on_resize eligible pod_booked_cpu_milli
    namespace_managed node_manageable owner_matches matches_any any_excluded text_of quantity_of
evaluation = tt
