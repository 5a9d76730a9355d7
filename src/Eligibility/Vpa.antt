-- ===== src/Eligibility/Vpa.antt =====
-- internal/eligibility/vpa.go: the VerticalPodAutoscalers that can write a pod's CPU limit. The call
-- of metav1.GetControllerOf is a parameter, controller_of.
use kube_headroom.Prelude.{
  Bool, true, false, not, ◌&&◌, ◌||◌, if◌then◌else◌, Option, none, some, List, [], ◌∷◌, String,
}
use kube_headroom.Prelude.Text.{contains, before_last, str_eq}
use kube_headroom.Kube.{OwnerReference, Pod}
use kube_headroom.Eligibility.{ResizableContainer}

pub record VpaContainerPolicy : Type 0 where
  pub container_name : String
  pub mode : String
  pub controlled_resources : Option (List String)
  pub controlled_values : String

pub record Vpa : Type 0 where
  pub name : String
  pub target_kind : String
  pub target_name : String
  pub update_mode : String
  pub policies : List VpaContainerPolicy

-- The loop of policyFor, from the fallback found so far: the first policy that names the container
-- is taken at once, and the last one for all names is the fallback.
unfoldable pub find_policy :
    String → List VpaContainerPolicy → Option VpaContainerPolicy → Option VpaContainerPolicy
find_policy container [] fallback = fallback
find_policy container (p ∷ policies) fallback =
    let rest =
      find_policy container policies (if str_eq p.container_name "*" then some p else fallback) in
    if str_eq p.container_name container then some p else rest

unfoldable pub policy_for : Vpa → String → Option VpaContainerPolicy
policy_for v container = find_policy container v.policies none

unfoldable pub controls_cpu : Option (List String) → Bool
controls_cpu none = true
controls_cpu (some resources) = contains "cpu" resources

unfoldable pub policy_writes : Option VpaContainerPolicy → Bool
policy_writes none = true
policy_writes (some p) =
    if str_eq p.mode "Off" || str_eq p.controlled_values "RequestsOnly"
    then false
    else controls_cpu p.controlled_resources

unfoldable pub writes_cpu_limit : Vpa → String → Bool
writes_cpu_limit v container =
    if str_eq v.update_mode "Off" then false else policy_writes (policy_for v container)

-- podUnderTarget, from the pod's controller.
unfoldable pub owner_under_target : Option OwnerReference → String → String → Bool
owner_under_target none kind name = false
owner_under_target (some owner) kind name =
    let parent = before_last b'-' owner.name in
    if str_eq owner.kind kind && str_eq owner.name name
    then true
    else (if str_eq owner.kind "ReplicaSet"
        then not (str_eq kind "ReplicaSet") && str_eq parent name
        else (if str_eq owner.kind "Job"
            then str_eq kind "CronJob" && str_eq parent name
            else false))

unfoldable pub writes_any : Vpa → List ResizableContainer → Bool
writes_any v [] = false
writes_any v (c ∷ rcs) = writes_cpu_limit v c.name || writes_any v rcs

module _ (controller_of : List OwnerReference → Option OwnerReference) where
  unfoldable pub pod_under_target : {Q : Type 0} → Pod Q → String → String → Bool
  pod_under_target pod kind name = owner_under_target (controller_of pod.owner_references) kind name

  -- The name of the first VPA that can write the pod's limit, or the empty text.
  unfoldable pub limit_managing_vpa :
      {Q : Type 0} → Pod Q → List ResizableContainer → List Vpa → String
  limit_managing_vpa pod rcs [] = ""
  limit_managing_vpa pod rcs (v ∷ vpas) =
      let rest = limit_managing_vpa pod rcs vpas in
      if pod_under_target pod v.target_kind v.target_name && writes_any v rcs then v.name else rest

-- To evaluate: what computes with the VPA rules names this.
unfoldable pub evaluation : Unit {0}
unfolding find_policy policy_for controls_cpu policy_writes writes_cpu_limit owner_under_target
    writes_any pod_under_target limit_managing_vpa
evaluation = tt
