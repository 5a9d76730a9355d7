-- ===== src/Eligibility/Governs.antt =====
-- LimitManagingVPA against what it decides: a VPA governs a pod where it targets the pod's controller and
-- can write the limit of one of the pod's containers.
use mathlib.Core.Path.{subst}
use kube_headroom.Prelude.{
  ◌≡◌, ◌≢◌, refl, sym, Bool, true, false, ◌||◌, ◌⊎◌, inl, inr, if◌then◌else◌, Option, none, some,
  List, [], ◌∷◌, String, Bool-cases, All, OneOf, OneOf-map, arith,
}
use kube_headroom.Kube.{OwnerReference, Pod}
use kube_headroom.Eligibility.{ResizableContainer}
use kube_headroom.Eligibility.Vpa.{
  VpaContainerPolicy, Vpa, policy_for, controls_cpu, policy_writes, writes_cpu_limit, writes_any,
  owner_under_target, pod_under_target, limit_managing_vpa,
}
use kube_headroom.Eligibility.Targets.{
  Targets, str_eq-not, owner_under_target-Targets, Targets-owner_under_target,
}
use kube_headroom.Eligibility.Blocking.{
  first, last, or_else, names, policy_for_lem, Blocks, limit_managing_vpa-Blocks,
}
use kube_headroom.Prelude.Text.{str_eq, str_eq-false, contains}

-- What decides a container leaves VPA free to write its limit.
abbrev pub AllowsLimits : Option VpaContainerPolicy → Type 0
AllowsLimits none = Unit
AllowsLimits (some p) =
    (p.mode ≢ "Off")
    × (p.controlled_values ≢ "RequestsOnly")
    × ((p.controlled_resources ≡ none)
        ⊎ ((resources : List String) × (p.controlled_resources ≡ some resources)
            × (contains "cpu" resources ≡ true)))

-- VPA can write the container's limit: it is not off, and the first policy that names the container, or without
-- one the last policy for all names, allows it, or there is neither.
abbrev pub Writes : Vpa → String → Type 0
Writes v container =
    (v.update_mode ≢ "Off")
    × AllowsLimits (or_else (first (names container) v.policies) (last (names "*") v.policies))

controls_cpu-cases :
    (o : Option (List String))
    → controls_cpu o ≡ true
    → (o ≡ none)
      ⊎ ((resources : List String) × (o ≡ some resources) × (contains "cpu" resources ≡ true))
unfolding controls_cpu
controls_cpu-cases none h = inl refl
controls_cpu-cases (some resources) h = inr (resources, refl, h)

passed :
    (a b c : Bool) → (if a || b then false else c) ≡ true → (a ≡ false) × (b ≡ false) × (c ≡ true)
passed a b c h = ground arith

policy_writes-AllowsLimits :
    (o : Option VpaContainerPolicy) → policy_writes o ≡ true → AllowsLimits o
unfolding policy_writes
policy_writes-AllowsLimits none h = tt
policy_writes-AllowsLimits (some p) h =
    let (mode, values, cpu) =
      passed (str_eq p.mode "Off") (str_eq p.controlled_values "RequestsOnly")
        (controls_cpu p.controlled_resources) h in
    (
      str_eq-false p.mode "Off" mode,
      str_eq-false p.controlled_values "RequestsOnly" values,
      controls_cpu-cases p.controlled_resources cpu,
    )

AllowsLimits-policy_writes :
    (o : Option VpaContainerPolicy) → AllowsLimits o → policy_writes o ≡ true
unfolding policy_writes controls_cpu
AllowsLimits-policy_writes none h = refl
AllowsLimits-policy_writes (some p) (m, v, r) =
    rw (str_eq-not p.mode "Off" m, str_eq-not p.controlled_values "RequestsOnly" v)
      (elim r [ inl e ↦ rw e refl | inr (resources, e, f) ↦ rw e f ])

writes_cpu_limit-Writes :
    (v : Vpa) (container : String) → writes_cpu_limit v container ≡ true → Writes v container
unfolding writes_cpu_limit
writes_cpu_limit-Writes v container h = elim (Bool-cases (str_eq v.update_mode "Off")) [
  | inl off ↦ cc (rw off at h)
  | inr on ↦ (
    str_eq-false v.update_mode "Off" on,
    subst AllowsLimits (policy_for_lem v container)
        (policy_writes-AllowsLimits (policy_for v container) (rw on at h)),
  )
]

Writes-writes_cpu_limit :
    (v : Vpa) (container : String) → Writes v container → writes_cpu_limit v container ≡ true
unfolding writes_cpu_limit
Writes-writes_cpu_limit v container (on, allows) = rw (str_eq-not v.update_mode "Off" on) (
    AllowsLimits-policy_writes (policy_for v container)
      (subst AllowsLimits (sym (policy_for_lem v container)) allows))

-- One of the containers has its limit written.
abbrev pub WritesOne : Vpa → List ResizableContainer → Type 0
WritesOne v = OneOf λ c. Writes v c.name

writes_any-WritesOne :
    (v : Vpa) (rcs : List ResizableContainer) → writes_any v rcs ≡ true → WritesOne v rcs
unfolding writes_any
writes_any-WritesOne v [] h = cc h
writes_any-WritesOne v (c ∷ rcs) h = elim (Bool-cases (writes_cpu_limit v c.name)) [
  | inl writes ↦ inl (writes_cpu_limit-Writes v c.name writes)
  | inr reads ↦ inr (writes_any-WritesOne v rcs (rw reads at h))
]

WritesOne-writes_any :
    (v : Vpa) (rcs : List ResizableContainer) → WritesOne v rcs → writes_any v rcs ≡ true
unfolding writes_any
WritesOne-writes_any v [] h = absurd h
WritesOne-writes_any v (c ∷ rcs) (inl h) = rw (Writes-writes_cpu_limit v c.name h) refl
WritesOne-writes_any v (c ∷ rcs) (inr h) = rw (WritesOne-writes_any v rcs h) (ground arith)

module _ {Q : Type 0} (controller_of : List OwnerReference → Option OwnerReference) (pod : Pod Q)
    (rcs : List ResizableContainer) where
  -- A VPA governs the pod: its target is that of the pod's controller, and it can write a limit.
  abbrev pub Governs : Vpa → Type 0
  Governs v =
      ((owner : OwnerReference) × (controller_of pod.owner_references ≡ some owner)
        × Targets owner v.target_kind v.target_name)
      × WritesOne v rcs

  under-Targets :
      (o : Option OwnerReference) (v : Vpa)
      → owner_under_target o v.target_kind v.target_name ≡ true
      → (owner : OwnerReference) × (o ≡ some owner) × Targets owner v.target_kind v.target_name
  unfolding owner_under_target
  under-Targets none v h = cc h
  under-Targets (some owner) v h =
      (owner, refl, owner_under_target-Targets owner v.target_kind v.target_name h)

  Blocks-Governs : (v : Vpa) → Blocks controller_of pod rcs v → Governs v
  unfolding pod_under_target
  Blocks-Governs v (under, writes) = (
    under-Targets (controller_of pod.owner_references) v under,
    writes_any-WritesOne v rcs writes,
  )

  Governs-Blocks : (v : Vpa) → Governs v → Blocks controller_of pod rcs v
  unfolding pod_under_target
  Governs-Blocks v ((owner, e, targets), writes) = (
    rw e (Targets-owner_under_target owner v.target_kind v.target_name targets),
    WritesOne-writes_any v rcs writes,
  )

  free_lem :
      (vpas : List Vpa)
      → All (λ v. ¬ Blocks controller_of pod rcs v) vpas
      → All (λ v. ¬ Governs v) vpas
  free_lem [] h = tt
  free_lem (v ∷ vpas) (h, hs) = ((λ g. h (Governs-Blocks v g)), free_lem vpas hs)

  -- Where each VPA has a name, LimitManagingVPA gives the empty text and no VPA of the list governs
  -- the pod, or it gives the name of one that does. A VPA governs the pod if its target is the
  -- pod's controller, or has the name before the last dash of the controller's name (empty without
  -- a dash) and is a CronJob where the controller is a Job, or is no ReplicaSet where that is one;
  -- and if it is not off and for one of the containers there is no policy, or that in force, the
  -- first of its name or else the last one for all names, is not off, is not for requests only and
  -- does not leave CPU out.
  pub limit_managing_vpa_lem :
      (vpas : List Vpa)
      → All (λ v. v.name ≢ "") vpas
      → let name = limit_managing_vpa controller_of pod rcs vpas in
        ((name ≡ "") × All (λ v. ¬ Governs v) vpas)
        ⊎ ((name ≢ "") × OneOf (λ v. (name ≡ v.name) × Governs v) vpas)
  limit_managing_vpa_lem vpas all =
      elim (limit_managing_vpa-Blocks controller_of pod rcs vpas all) [
        | inl (e, free) ↦ inl (e, free_lem vpas free)
        | inr (n, one) ↦ inr (n, OneOf-map _ _ vpas (λ v h. (h.0, Blocks-Governs v h.1)) one)
      ]
