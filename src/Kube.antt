-- ===== src/Kube.antt =====
-- The Kubernetes objects that the code reads, with the fields that it reads (k8s.io/api), the calls
-- of other libraries that it makes on them as parameters, and the HeadroomConfig spec
-- (api/v1alpha1). A ResourceList, the labels and the annotations are Go maps.
use kube_headroom.Prelude.{Bool, Option, none, some, List, String}
use kube_headroom.Prelude.Int.{ℤ}
use kube_headroom.Prelude.Text.{lookup}
use kube_headroom.Float.{Float64}

-- resource.Quantity, whose values are those of Q.
pub record Quantity (Q : Type 0) : Type 0 where
  pub milli_value : Q → ℤ
  pub sign : Q → ℤ
  pub cmp : Q → Q → ℤ
  pub zero_quantity : Q
  pub new_milli_quantity : ℤ → Q
  pub parse_quantity : String → Option Q
  pub as_approximate_float64 : Q → Float64

abbrev pub GoMap : Type 0 → Type 0
GoMap V = List (String × V)

pub record ResizePolicy : Type 0 where
  pub resource_name : String
  pub restart_policy : String

pub record Container (Q : Type 0) : Type 0 where
  pub name : String
  pub requests : GoMap Q
  pub limits : GoMap Q
  pub resize_policy : List ResizePolicy
  pub restart_policy : Option String

pub record OwnerReference : Type 0 where
  pub api_version : String
  pub kind : String
  pub name : String
  pub controller : Option Bool

pub record PodResources (Q : Type 0) : Type 0 where
  pub requests : GoMap Q
  pub limits : GoMap Q

pub record PodCondition : Type 0 where
  pub condition_type : String
  pub reason : String

pub record Pod (Q : Type 0) : Type 0 where
  pub namespace : String
  pub name : String
  pub uid : String
  pub labels : GoMap String
  pub annotations : GoMap String
  pub owner_references : List OwnerReference
  pub node_name : String
  pub containers : List (Container Q)
  pub init_containers : List (Container Q)
  pub resources : Option (PodResources Q)
  pub phase : String
  pub qos_class : String
  pub conditions : List PodCondition

pub record Namespace : Type 0 where
  pub name : String
  pub labels : GoMap String

pub record Node (Q : Type 0) : Type 0 where
  pub name : String
  pub labels : GoMap String
  pub allocatable : GoMap Q
  pub operating_system : String

pub record LimitRangeItem (Q : Type 0) : Type 0 where
  pub item_type : String
  pub max_limit : GoMap Q
  pub max_limit_request_ratio : GoMap Q

-- spec.limits of a LimitRange.
abbrev pub LimitRange : Type 0 → Type 0
LimitRange Q = List (LimitRangeItem Q)

-- resourcehelper.PodRequests of k8s.io/component-helpers, with the options that the code sets.
pub record PodResourcesOptions : Type 0 where
  pub use_status_resources : Bool
  pub in_place_pod_level_resources : Bool
  pub exclude_overhead : Bool

pub record ResourceHelper (Q : Type 0) : Type 0 where
  pub pod_requests : Pod Q → PodResourcesOptions → GoMap Q

-- metav1.LabelSelector, whose values are those of S; none is the error of LabelSelectorAsSelector.
pub record Selectors (S : Type 0) : Type 0 where
  pub label_selector_as_selector : S → Option (GoMap String → Bool)

pub record ExcludedOwner : Type 0 where
  pub kind : String
  pub api_group : String
  pub name : String

pub record Deadband : Type 0 where
  pub grow_percent : ℤ
  pub shrink_percent : ℤ

pub record WebhookSpec (Q : Type 0) : Type 0 where
  pub enabled : Option Bool
  pub initial_multiplier : Q

pub record RateLimits : Type 0 where
  pub per_node_patches_per_second : ℤ
  pub client_qps : ℤ
  pub client_burst : ℤ

pub record HeadroomConfigSpec (Q S : Type 0) : Type 0 where
  pub dry_run : Option Bool
  pub min_burst_floor : Q
  pub max_multiplier : Q
  pub quantum : Q
  pub deadband : Deadband
  pub debounce_period : ℤ
  pub rate_limits : RateLimits
  pub webhook : WebhookSpec Q
  pub namespace_selector : Option S
  pub excluded_namespaces : List String
  pub excluded_owners : List ExcludedOwner
  pub excluded_node_selector : Option S

-- The result of client.Reader.Get: the object, NotFound, or another error.
pub data Read (A : Type 0) : Type 0 where
  found : A → Read A
  not_found : Read A
  failed : Read A

-- ResourceList.Cpu and Memory: the entry, or the zero quantity.
module _ {Q : Type 0} ⦃q : Quantity Q⦄ where
  unfoldable pub quantity_of : String → GoMap Q → Q
  quantity_of name m = elim (lookup name m) [ some v ↦ v | none ↦ q.zero_quantity ]

  abbrev pub cpu : GoMap Q → Q
  cpu = quantity_of "cpu"

  abbrev pub memory : GoMap Q → Q
  memory = quantity_of "memory"

-- The text of a map under a key: Go's zero value, the empty text, where it has none.
unfoldable pub text_of : String → GoMap String → String
text_of key m = elim (lookup key m) [ some v ↦ v | none ↦ "" ]

abbrev pub label_mode : String
label_mode = "kube-headroom.dev/mode"

abbrev pub annotation_max_cpu : String
annotation_max_cpu = "kube-headroom.dev/max-cpu"

abbrev pub mode_managed : String
mode_managed = "managed"

abbrev pub mode_unmanaged : String
mode_unmanaged = "unmanaged"
