-- ===== src/Webhook/Default.antt =====
-- Default of the webhook: its gates.
use kube_headroom.Prelude.{
  ◌≡◌, ◌≢◌, refl, ap, ◌∙◌, Bool, true, false, not, ◌||◌, ◌⊎◌, inl, inr, if◌then◌else◌, Option, none,
  some, List, [], String, arith, Bool-cases, All,
}
use kube_headroom.Prelude.Text.{lookup, str_eq, str_eq-true, str_eq-false}
use kube_headroom.Kube.{
  Read, found, not_found, failed, Quantity, Pod, Namespace, Selectors, HeadroomConfigSpec,
  label_mode, mode_unmanaged,
}
use kube_headroom.Eligibility.{
  resizable_containers, opted_out, has_pod_level_resources, owner_excluded, has_restart_on_resize,
  namespace_managed,
}
use kube_headroom.Eligibility.Vpa.{limit_managing_vpa}
use kube_headroom.Eligibility.Governs.{Governs, limit_managing_vpa_lem}
use kube_headroom.Eligibility.Gates.{
  NoResources, Excludes, IsOptedIn, opted_out-false, has_resources-false,
  has_restart_on_resize-false, any_excluded-false, namespace_managed-IsOptedIn,
}
use kube_headroom.Webhook.{
  seed_birth_limits, or_true, load_config, absent_config, webhook_config, Environment,
  admission_namespace, webhook_namespace_managed, passes_gates, default_with, default,
}

or_true-true : (o : Option Bool) → or_true o ≡ true → o ≢ some false
unfolding or_true
or_true-true none e f = cc f
or_true-true (some b) e f = cc (f, e)

or_true-false : (o : Option Bool) → or_true o ≡ false → o ≡ some false
unfolding or_true
or_true-false none e = cc e
or_true-false (some b) e = ap some e

-- The gates passed, one by one.
gates_lem :
    (a b c d e f : Bool)
    → (if a || b
        then false
        else (if not c then false else (if d then false else (if e then false else f))))
      ≡ true
    → (a ≡ false) × (b ≡ false) × (c ≡ true) × (d ≡ false) × (e ≡ false) × (f ≡ true)
gates_lem a b c d e f h = ground arith

-- The namespace of an admission: the pod's own, and where it has none, that of the request.
abbrev pub IsNamespaceOf : {Q S : Type 0} → Environment Q S → Pod Q → String → Type 0
IsNamespaceOf env pod name =
    (name ≢ "")
    × (((pod.namespace ≢ "") × (name ≡ pod.namespace))
        ⊎ ((pod.namespace ≡ "") × (env.request_namespace ≡ some name)))

request_lem :
    (own : String) (o : Option String)
    → own ≡ ""
    → elim o [ none ↦ own | some name ↦ name ] ≢ ""
    → o ≡ some (elim o [ none ↦ own | some name ↦ name ])
request_lem own none e h = absurd (h e)
request_lem own (some name) e h = refl

admission_namespace-IsNamespaceOf :
    {Q S : Type 0} (env : Environment Q S) (pod : Pod Q)
    → admission_namespace env pod ≢ ""
    → IsNamespaceOf env pod (admission_namespace env pod)
unfolding admission_namespace
admission_namespace-IsNamespaceOf env pod h = elim (Bool-cases (str_eq pod.namespace "")) [
  | inl none_own ↦
      let e = str_eq-true pod.namespace "" none_own in
      (
        h,
        inr (e, rw none_own (request_lem pod.namespace env.request_namespace e (rw none_own at h))),
      )
  | inr own ↦ (h, inl (str_eq-false pod.namespace "" own, rw own refl))
]

module _ {Q S : Type 0} ⦃sel : Selectors S⦄ where
  -- The namespace of the admission was read, and is opted in.
  abbrev pub InManagedNamespace : Environment Q S → Pod Q → HeadroomConfigSpec Q S → Type 0
  InManagedNamespace env pod spec =
      (name : String) × (ns : Namespace) × (env.get_namespace name ≡ found ns)
      × IsNamespaceOf env pod name
      × IsOptedIn ns spec

  read_lem :
      (spec : HeadroomConfigSpec Q S) (r : Read Namespace)
      → elim r [ found ns ↦ namespace_managed ns spec | not_found ↦ false | failed ↦ false ] ≡ true
      → (ns : Namespace) × (r ≡ found ns) × (namespace_managed ns spec ≡ true)
  read_lem spec not_found h = cc h
  read_lem spec failed h = cc h
  read_lem spec (found ns) h = (ns, refl, h)

  webhook_namespace_managed_lem :
      (env : Environment Q S) (pod : Pod Q) (spec : HeadroomConfigSpec Q S)
      → webhook_namespace_managed env pod spec ≡ true
      → InManagedNamespace env pod spec
  unfolding webhook_namespace_managed
  webhook_namespace_managed_lem env pod spec h =
      let name = admission_namespace env pod in
      elim (Bool-cases (str_eq name "")) [
        | inl empty ↦ cc (rw empty at h)
        | inr named ↦
            let (ns, e, managed) = read_lem spec (env.get_namespace name) (rw named at h) in
            (
              name,
              ns,
              e,
              admission_namespace-IsNamespaceOf env pod (str_eq-false name "" named),
              namespace_managed-IsOptedIn ns spec managed,
            )
      ]

module _ {Q S : Type 0} ⦃q : Quantity Q⦄ ⦃sel : Selectors S⦄ where
  -- The webhook may act on the pod, under this spec.
  pub record MayAct (env : Environment Q S) (pod : Pod Q) (spec : HeadroomConfigSpec Q S)
      : Type 0 where
    pub config : env.get_config ≡ found spec
    pub enabled : spec.webhook.enabled ≢ some false
    pub live : spec.dry_run ≡ some false
    pub not_opted_out : lookup label_mode pod.labels ≢ some mode_unmanaged
    pub no_pod_resources : NoResources pod.resources
    pub in_namespace : InManagedNamespace env pod spec
    pub not_excluded :
        All (λ ref. All (λ e. ¬ Excludes e ref) spec.excluded_owners) pod.owner_references
    pub no_restart : All (λ c. c.restart_on_resize ≡ false) (resizable_containers pod)
    pub no_vpa :
        All
          (λ v. ¬ Governs env.controller_of pod (resizable_containers pod) v)
          (env.vpas_for_namespace pod.namespace)

  -- The VPAs that are listed for the pod's own namespace have names.
  abbrev pub ListsNamed : Environment Q S → Pod Q → Type 0
  ListsNamed env pod = All (λ v. v.name ≢ "") (env.vpas_for_namespace pod.namespace)

  passes_gates_lem :
      (env : Environment Q S) (pod : Pod Q) (spec : HeadroomConfigSpec Q S)
      → ListsNamed env pod
      → env.get_config ≡ found spec
      → or_true spec.webhook.enabled ≡ true
      → or_true spec.dry_run ≡ false
      → passes_gates env pod spec ≡ true
      → MayAct env pod spec
  unfolding passes_gates
  passes_gates_lem env pod spec named e on live passes =
      let rcs = resizable_containers pod in
      let vpas = env.vpas_for_namespace pod.namespace in
      let vpa = limit_managing_vpa env.controller_of pod rcs vpas in
      let (a, b, c, d, r, v) =
        gates_lem (opted_out pod) (has_pod_level_resources pod)
          (webhook_namespace_managed env pod spec) (owner_excluded pod spec.excluded_owners)
          (has_restart_on_resize rcs) (str_eq vpa "") passes in
      record {
        config = e;
        enabled = or_true-true spec.webhook.enabled on;
        live = or_true-false spec.dry_run live;
        not_opted_out = opted_out-false pod a;
        no_pod_resources = has_resources-false pod.resources b;
        in_namespace = webhook_namespace_managed_lem env pod spec c;
        not_excluded = any_excluded-false pod.owner_references spec.excluded_owners d;
        no_restart = has_restart_on_resize-false rcs r;
        no_vpa = elim (limit_managing_vpa_lem env.controller_of pod rcs vpas named) [
          | inl (_, free) ↦ free
          | inr (n, _) ↦ absurd (n (str_eq-true vpa "" v))
        ];
      }

  -- The seeds that a spec asks for.
  abbrev pub seeds : Pod Q → HeadroomConfigSpec Q S → Pod Q × List String
  seeds pod spec =
      seed_birth_limits pod (resizable_containers pod)
        (q.as_approximate_float64 spec.webhook.initial_multiplier)
        (q.as_approximate_float64 spec.max_multiplier) (q.milli_value spec.quantum)

  default_read :
      (env : Environment Q S) (pod : Pod Q) (r : Read (HeadroomConfigSpec Q S))
      → env.get_config ≡ r
      → default env pod
        ≡ elim (load_config r) [ none ↦ (pod, []) | some cfg ↦ default_with env pod cfg ]
  unfolding default
  default_read env pod r e =
      ap (λ x. elim (load_config x) [ none ↦ (pod, []) | some cfg ↦ default_with env pod cfg ]) e

  default_found :
      (env : Environment Q S) (pod : Pod Q) (spec : HeadroomConfigSpec Q S)
      → default_with env pod (webhook_config spec) ≡ (
          if not (or_true spec.webhook.enabled) || or_true spec.dry_run
          then (pod, [])
          else (if passes_gates env pod spec then seeds pod spec else (pod, [])))
  unfolding default_with webhook_config
  default_found env pod spec = refl

  absent_lem :
      (env : Environment Q S) (pod : Pod Q) → default_with env pod absent_config ≡ (pod, [])
  unfolding default_with
  absent_lem env pod = refl

  -- Where the VPAs listed for the pod's namespace field have names, the webhook admits a pod as it
  -- is, and names no container, or it read a config that does not switch it off and has dryRun
  -- false, and the pod's mode label is not unmanaged, it has no requests and limits of its own, its
  -- namespace (that of the request where its own is empty) was read, is not excluded and is
  -- selected, or has the managed label where there is no selector, no excluded owner covers one of
  -- its owners, no resizable container restarts on a resize, and no VPA listed for the namespace
  -- field governs it; then the result is what seedBirthLimits makes with the config's multipliers
  -- and quantum.
  pub default_gated :
      (env : Environment Q S) (pod : Pod Q)
      → ListsNamed env pod
      → (default env pod ≡ (pod, []))
        ⊎ ((spec : HeadroomConfigSpec Q S) × MayAct env pod spec
            × (default env pod ≡ seeds pod spec))
  unfolding load_config
  default_gated env pod named = config_lem env.get_config refl
    where
      config_lem :
          (r : Read (HeadroomConfigSpec Q S))
          → env.get_config ≡ r
          → (default env pod ≡ (pod, []))
            ⊎ ((spec : HeadroomConfigSpec Q S) × MayAct env pod spec
                × (default env pod ≡ seeds pod spec))
      config_lem not_found e = inl (default_read env pod not_found e ∙ absent_lem env pod)
      config_lem failed e = inl (default_read env pod failed e)
      config_lem (found spec) e =
          let result = default_read env pod (found spec) e ∙ default_found env pod spec in
          elim (Bool-cases (or_true spec.webhook.enabled)) [
            | inr off ↦ inl (result ∙ rw off refl)
            | inl on ↦ elim (Bool-cases (or_true spec.dry_run)) [
              | inl dry ↦ inl (result ∙ rw (on, dry) refl)
              | inr live ↦ elim (Bool-cases (passes_gates env pod spec)) [
                | inl passes ↦ inr (
                  spec,
                  passes_gates_lem env pod spec named e on live passes,
                  result ∙ rw (on, live, passes) refl,
                )
                | inr stops ↦ inl (result ∙ rw (on, live, stops) refl)
              ]
            ]
          ]
