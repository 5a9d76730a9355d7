-- ===== src/Webhook.antt =====
-- internal/webhook/v1/pod_webhook.go: the birth CPU limits that the webhook seeds at pod creation. The
-- reads of the API server and of the VPA poller are parameters: their results are arguments.
pub mod Seed
pub mod Birth
pub mod Default
mod Tests
use kube_headroom.Prelude.{
  ℕ, zero, suc, ◌≡◌, refl, Bool, true, false, not, ◌&&◌, ◌||◌, if◌then◌else◌, Option, none, some,
  List, [], ◌∷◌, String,
}
use kube_headroom.Prelude.Int.{ℤ, pos, quot, ltb_ℤ, leb_ℤ}
use kube_headroom.Prelude.Int64
use kube_headroom.Prelude.Text.{lookup, insert, str_eq}
use kube_headroom.Float
use kube_headroom.Float.{Float64}
use kube_headroom.Kube.{
  Quantity, GoMap, Container, OwnerReference, Pod, Read, found, not_found, failed, Namespace,
  Selectors, HeadroomConfigSpec,
}
use kube_headroom.Eligibility.{
  ResizableContainer, resizable_containers, opted_out, has_pod_level_resources, owner_excluded,
  has_restart_on_resize, namespace_managed,
}
use kube_headroom.Eligibility.Vpa.{Vpa, limit_managing_vpa}

-- A pointer to a container of the pod: its list and its index.
pub data Place : Type 0 where
  app : ℕ → Place
  init : ℕ → Place

module _ {Q : Type 0} where
  abbrev pub get_elem? : List (Container Q) → ℕ → Option (Container Q)
  get_elem? [] i = none
  get_elem? (c ∷ cs) zero = some c
  get_elem? (c ∷ cs) (suc i) = get_elem? cs i

  -- A write through a pointer into a list.
  abbrev pub modify : List (Container Q) → ℕ → (Container Q → Container Q) → List (Container Q)
  modify [] i f = []
  modify (c ∷ cs) zero f = f c ∷ cs
  modify (c ∷ cs) (suc i) f = c ∷ modify cs i f

  -- The container that a pointer reads, and a write through the pointer.
  abbrev pub read : Pod Q → Place → Option (Container Q)
  read pod (app i) = get_elem? pod.containers i
  read pod (init i) = get_elem? pod.init_containers i

  abbrev pub write : Pod Q → Place → (Container Q → Container Q) → Pod Q
  write pod (app i) f = record pod { containers = modify pod.containers i f }
  write pod (init i) f = record pod { init_containers = modify pod.init_containers i f }

  -- A loop of containerPtrsByName, from index i on.
  unfoldable pub index_names : (ℕ → Place) → ℕ → List (Container Q) → GoMap Place → GoMap Place
  index_names place i [] m = m
  index_names place i (c ∷ cs) m = index_names place (suc i) cs (insert c.name (place i) m)

  unfoldable pub container_ptrs_by_name : Pod Q → GoMap Place
  container_ptrs_by_name pod =
      index_names init 0 pod.init_containers (index_names app 0 pod.containers [])

unfoldable pub quantize_milli : ℤ → ℤ → ℤ
quantize_milli v q =
    if leb_ℤ q (pos 0) then v else Int64.mul (quot (Int64.add v (quot q (pos 2))) q) q

-- The multiplier in force: never above the policy's cap, where there is one.
unfoldable pub clamp_multiplier : Float64 → Float64 → Float64
clamp_multiplier multiplier max_multiplier =
    if Float.lt (Float.of_int (pos 0)) max_multiplier && Float.lt max_multiplier multiplier
    then max_multiplier
    else multiplier

-- The limit of a container with this request.
unfoldable pub birth_limit : Float64 → ℤ → ℤ → ℤ
birth_limit multiplier quantum request =
    quantize_milli (Float.to_int (Float.round (Float.mul (Float.of_int request) multiplier)))
      quantum

-- The tests of the loop of seedBirthLimits before it looks for the container.
unfoldable pub wants_seed : Float64 → ℤ → ResizableContainer → Bool
wants_seed multiplier quantum rc =
    if leb_ℤ rc.request_milli (pos 0) || ltb_ℤ (pos 0) rc.limit_milli
    then false
    else ltb_ℤ rc.request_milli (birth_limit multiplier quantum rc.request_milli)

module _ {Q : Type 0} ⦃q : Quantity Q⦄ where
  -- c.Resources.Limits[cpu] = a milli-quantity.
  unfoldable pub set_cpu_limit : ℤ → Container Q → Container Q
  set_cpu_limit target c = record c { limits = insert "cpu" (q.new_milli_quantity target) c.limits }

  -- The write of one pass, if the name has a container; and whether it was done.
  unfoldable pub seed_at : Option Place → ℤ → Pod Q → Pod Q × Bool
  seed_at none target pod = (pod, false)
  seed_at (some p) target pod = (write pod p (set_cpu_limit target), true)

  -- The loop of seedBirthLimits: the pod, and the names seeded.
  unfoldable pub seed_loop :
      GoMap Place → Float64 → ℤ → List ResizableContainer → Pod Q → Pod Q × List String
  seed_loop by_name multiplier quantum [] pod = (pod, [])
  seed_loop by_name multiplier quantum (rc ∷ rcs) pod =
      let skip = seed_loop by_name multiplier quantum rcs pod in
      let (pod', written) =
        seed_at (lookup rc.name by_name) (birth_limit multiplier quantum rc.request_milli) pod in
      let (pod'', names) = seed_loop by_name multiplier quantum rcs pod' in
      if wants_seed multiplier quantum rc
      then (pod'', (if written then rc.name ∷ names else names))
      else skip

  unfoldable pub seed_birth_limits :
      Pod Q → List ResizableContainer → Float64 → Float64 → ℤ → Pod Q × List String
  seed_birth_limits pod rcs multiplier max_multiplier quantum =
      let m = clamp_multiplier multiplier max_multiplier in
      if Float.le m (Float.of_int (pos 1))
      then (pod, [])
      else seed_loop (container_ptrs_by_name pod) m quantum rcs pod

pub record WebhookConfig (Q S : Type 0) : Type 0 where
  pub enabled : Bool
  pub dry_run : Bool
  pub multiplier : Float64
  pub max_multiplier : Float64
  pub quantum_milli : ℤ
  pub spec : Option (HeadroomConfigSpec Q S)

unfoldable pub or_true : Option Bool → Bool
or_true none = true
or_true (some b) = b

module _ {Q S : Type 0} ⦃q : Quantity Q⦄ where
  abbrev pub absent_config : WebhookConfig Q S
  absent_config = record {
    enabled = false;
    dry_run = true;
    multiplier = Float.of_int (pos 0);
    max_multiplier = Float.of_int (pos 0);
    quantum_milli = pos 0;
    spec = none;
  }

  unfoldable pub webhook_config : HeadroomConfigSpec Q S → WebhookConfig Q S
  webhook_config s = record {
    enabled = or_true s.webhook.enabled;
    dry_run = or_true s.dry_run;
    multiplier = q.as_approximate_float64 s.webhook.initial_multiplier;
    max_multiplier = q.as_approximate_float64 s.max_multiplier;
    quantum_milli = q.milli_value s.quantum;
    spec = some s;
  }

  -- loadConfig, from the read of the singleton; none is a false second result.
  unfoldable pub load_config : Read (HeadroomConfigSpec Q S) → Option (WebhookConfig Q S)
  load_config not_found = some absent_config
  load_config failed = none
  load_config (found s) = some (webhook_config s)

-- What a webhook call reads: the request of its context, and the caches.
pub record Environment (Q S : Type 0) : Type 0 where
  pub request_namespace : Option String
  pub get_config : Read (HeadroomConfigSpec Q S)
  pub get_namespace : String → Read Namespace
  pub vpas_for_namespace : String → List Vpa
  pub controller_of : List OwnerReference → Option OwnerReference

-- The namespace of a pod at admission.
unfoldable pub admission_namespace : {Q S : Type 0} → Environment Q S → Pod Q → String
admission_namespace env pod =
    if str_eq pod.namespace ""
    then elim env.request_namespace [ none ↦ pod.namespace | some name ↦ name ]
    else pod.namespace

module _ {Q S : Type 0} ⦃sel : Selectors S⦄ where
  unfoldable pub webhook_namespace_managed : Environment Q S → Pod Q → HeadroomConfigSpec Q S → Bool
  webhook_namespace_managed env pod spec =
      let name = admission_namespace env pod in
      if str_eq name "" then false else elim (env.get_namespace name) [
        | found ns ↦ namespace_managed ns spec
        | not_found ↦ false
        | failed ↦ false
      ]

module _ {Q S : Type 0} ⦃q : Quantity Q⦄ ⦃sel : Selectors S⦄ where
  -- The gates of Default after the config's, in the code's order.
  unfoldable pub passes_gates : Environment Q S → Pod Q → HeadroomConfigSpec Q S → Bool
  passes_gates env pod spec =
      let rcs = resizable_containers pod in
      if opted_out pod || has_pod_level_resources pod
      then false
      else (if not (webhook_namespace_managed env pod spec)
          then false
          else (if owner_excluded pod spec.excluded_owners
              then false
              else (if has_restart_on_resize rcs
                  then false
                  else str_eq
                      (limit_managing_vpa env.controller_of pod rcs
                        (env.vpas_for_namespace pod.namespace))
                      "")))

  unfoldable pub default_with : Environment Q S → Pod Q → WebhookConfig Q S → Pod Q × List String
  default_with env pod cfg =
      let seeded =
        seed_birth_limits pod (resizable_containers pod) cfg.multiplier cfg.max_multiplier
          cfg.quantum_milli in
      if not cfg.enabled || cfg.dry_run then (pod, []) else elim cfg.spec [
        | none ↦ (pod, [])
        | some spec ↦ if passes_gates env pod spec then seeded else (pod, [])
      ]

  -- Default: the pod admitted, and the names of the containers seeded.
  unfoldable pub default : Environment Q S → Pod Q → Pod Q × List String
  default env pod = elim (load_config env.get_config) [
    | none ↦ (pod, [])
    | some cfg ↦ default_with env pod cfg
  ]

-- To evaluate: what computes with the webhook names this.
unfoldable pub evaluation : Unit {0}
unfolding index_names container_ptrs_by_name quantize_milli clamp_multiplier birth_limit wants_seed
    set_cpu_limit seed_at seed_loop seed_birth_limits or_true webhook_config load_config
    admission_namespace webhook_namespace_managed passes_gates default_with default
evaluation = tt
