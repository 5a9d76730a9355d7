-- ===== src/Samples.antt =====
-- Small objects that the tests run on. A quantity is a number of milli-units, and a selector a label
-- whose value must be "true".
use kube_headroom.Prelude.{ℕ, zero, suc, true, false, none, some, [], ◌∷◌, String, if◌then◌else◌}
use kube_headroom.Prelude.Int.{ℤ, pos, negsuc, pos_part, ltb_ℤ}
use kube_headroom.Prelude.Text.{str_eq}
use kube_headroom.Float
use kube_headroom.Kube.{
  ResourceHelper, Quantity, Selectors, GoMap, Container, Pod, HeadroomConfigSpec, text_of, Node,
  found,
}
use kube_headroom.Policy.{Decision}
use kube_headroom.Eligibility.{ResizableContainer}
use kube_headroom.Controller.Resize.{forbidden, Calls}
use kube_headroom.Controller.Inputs.{Reads}
use kube_headroom.Controller.Series.{no_series}
use kube_headroom.Controller.Limiters.{RateLimiters}
use kube_headroom.Controller.Reconcile.{Reconciler, Cluster}

instance abbrev pub milli_quantity : Quantity ℤ
milli_quantity = record {
  milli_value = λ v. v;
  sign = λ v. if ltb_ℤ v (pos 0) then negsuc 0 else (if ltb_ℤ (pos 0) v then pos 1 else pos 0);
  cmp = λ v w. if ltb_ℤ v w then negsuc 0 else (if ltb_ℤ w v then pos 1 else pos 0);
  zero_quantity = pos 0;
  new_milli_quantity = λ v. v;
  parse_quantity = λ text. none;
  as_approximate_float64 = λ v. Float.div (Float.of_int v) (Float.of_int (pos 1000));
}

instance abbrev pub label_selector : Selectors String
label_selector = record {
  label_selector_as_selector = λ label. some (λ labels. str_eq (text_of label labels) "true");
}

-- Every pod books 600m.
instance abbrev pub booked_600 : ResourceHelper ℤ
booked_600 = record { pod_requests = λ pod options. ("cpu", pos 600) ∷ [] }

-- A container with a request and a limit for CPU; a limit of 0 is none.
abbrev pub container : String → ℤ → GoMap ℤ → Container ℤ
container name request limits = record {
  name = name;
  requests = ("cpu", request) ∷ [];
  limits = limits;
  resize_policy = [];
  restart_policy = none;
}

-- A pod with an app of 500m and a proxy of 100m that has a limit of 200m.
abbrev pub web : Pod ℤ
web = record {
  namespace = "shop";
  name = "web";
  uid = "1";
  labels = [];
  annotations = [];
  owner_references = [];
  node_name = "node";
  containers =
      container "app" (pos 500) [] ∷ container "proxy" (pos 100) (("cpu", pos 200) ∷ []) ∷ [];
  init_containers = [];
  resources = none;
  phase = "Running";
  qos_class = "Burstable";
  conditions = [];
}

abbrev pub resizable_of : String → ℤ → ℤ → ResizableContainer
resizable_of name request limit = record {
  name = name;
  request_milli = request;
  limit_milli = limit;
  restart_on_resize = false;
}

abbrev pub decision : String → ℤ → Decision
decision key target = record {
  key = key;
  target_limit_milli = target;
  apply = true;
  reason = "grow";
}

-- A live config with birth limits of one and a half times the request.
abbrev pub spec : HeadroomConfigSpec ℤ String
spec = record {
  dry_run = some false;
  min_burst_floor = pos 1000;
  max_multiplier = pos 10000;
  quantum = pos 10;
  deadband = record { grow_percent = pos 10; shrink_percent = pos 5 };
  debounce_period = pos 2000000000;
  rate_limits = record {
    per_node_patches_per_second = pos 10;
    client_qps = pos 20;
    client_burst = pos 30;
  };
  webhook = record { enabled = none; initial_multiplier = pos 1500 };
  namespace_selector = none;
  excluded_namespaces = [];
  excluded_owners = [];
  excluded_node_selector = none;
}

-- An API server that refuses every resize, and a limiter with a number of tokens.
abbrev pub calls : Calls ℤ ℕ
calls = record {
  allow = λ t tokens. elim tokens [ zero ↦ (false, 0) | suc n ↦ (true, n) ];
  allow_at = λ key. 0;
  patch = λ pod entries. some (forbidden "exceeded quota");
  clock = λ key. pos 1000;
  backoff_period = pos 60;
}

abbrev pub reads : Reads ℤ
reads = record {
  get_namespace =
      λ name. found (record { name = name; labels = ("kube-headroom.dev/mode", "managed") ∷ [] });
  list_limit_ranges = λ name. some [];
  vpas_for_namespace = λ name. [];
  controller_of = λ refs. none;
  clock = λ key. pos 1000;
  later_clock = λ key. pos 1001;
  backoff_period = pos 60;
}

abbrev pub node : Node ℤ
node = record {
  name = "node";
  labels = [];
  allocatable = ("cpu", pos 4000) ∷ [];
  operating_system = "linux";
}

-- A limiter of tokens at ten a second.
instance abbrev pub token_limiter : RateLimiters ℕ
token_limiter = record {
  new_limiter = λ pps burst. pos_part burst;
  limit = λ tokens. Float.of_int (pos 10);
  set_limit = λ pps tokens. tokens;
  set_burst = λ burst tokens. pos_part burst;
}

-- A cluster with one node, and the reconciler at its start.
abbrev pub cluster : Cluster ℤ String ℕ
cluster = record {
  synced = true;
  get_config = found spec;
  get_node = found node;
  list_pods = some (web ∷ []);
  reads = reads;
  calls = calls;
  judged_at = pos 990;
  jitter = Float.rounded false 1 2;
  debounce_period = pos 5;
}

abbrev pub idle_reconciler : Reconciler ℕ
idle_reconciler = record {
  dynamic_debounce = pos 0;
  limiters = [];
  backoff = [];
  vpa_skipped = [];
  series = no_series;
  gauges = [];
}
