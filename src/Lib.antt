-- ===== src/Lib.antt =====
-- A verification library for Headroom, a Kubernetes controller that sets the CPU limits of pods from
-- the slack of their nodes. The program is Go; paths below are from the repository's root.
--
-- The parts and how they interact. The node controller (internal/controller) reads a node and its pods
-- and judges each pod with the eligibility rules (internal/eligibility). It hands one PodInput for each
-- pod to the policy core (internal/policy), which is pure and gives one Decision for each managed pod;
-- it splits each target over the pod's containers and patches them. A refused pod goes into backoff and
-- holds its share of the slack. The webhook (internal/webhook/v1) uses the same eligibility rules when a
-- pod is created, to seed a limit before the controller sees the pod. Both ask the VPA poller (internal/vpa)
-- which pods a VerticalPodAutoscaler manages. The HeadroomConfig reconciler reports the node controller's
-- counts in the config's status.
--
-- Prelude: the names all files share; Prelude/Int has integers over the native numbers with Go's
--   truncated quotient, Prelude/Int64 the int64 operations with their wrap-around, and Prelude/Text
--   texts, Go maps as association lists (`lookup`, `insert`), strings.Cut, strings.LastIndex and
--   strings.Contains; Prelude/Format prints numbers as fmt's %d and %.2f do.
-- Float: Go's float64 as the IEEE 754 binary64 values, with rounding to nearest, ties to even, and the
--   operations of the code. A number is a sign, m and k for m / 2^k. Float/Round, Float/Quotient,
--   Float/Laws, Float/Half, Float/Close and Float/Compare relate an operation's result to exact fractions.
-- Kube: the Kubernetes objects with the fields that the code reads, and the HeadroomConfig spec of
--   api/v1alpha1. Calls of resource.Quantity, of label selectors and of the scheduler's resource helper
--   are instance arguments (Quantity, Selectors, ResourceHelper).
-- Policy: internal/policy/policy.go. `compute` is Compute, `decide` is decide, `clamp_and_quantize` is
--   clampAndQuantize in two parts, `ceiling` and `quantize`; `finalize` is finalize with its deadband rule
--   in `verdict` and its lift in `lifted`. Its children are named for what they prove: Caps, Bounds, Exact,
--   Monotone, Churn, Booked, Compute.
-- Eligibility: internal/eligibility/eligibility.go, one function for each Go function; its child
--   LimitRange models LimitRangeCapMilli and Vpa internal/eligibility/vpa.go; Limits, Blocking, Targets, Governs,
--   Gates and LimitRange/Ratio hold proofs. `Governs` says what a VPA must be to keep a pod unmanaged, and Gates what
--   an excluded owner and an opted-in namespace are. `refuses` of LimitRange/Ratio is the comparison by which LimitRanger
--   refuses a limit, as the comment of ratioLimitMilli states it.
-- Controller/PodInput: internal/controller/podinput.go. The first loop of splitLimit is `floors`, its sort
--   `sort_rems` and its last loop `distribute`; the children Amounts, Shares, Deal, First, Split, Counts, Near,
--   Fair, Written and ReadBack hold the proofs about it.
-- Controller/Backoff: the backoff windows of internal/controller/node_controller.go as a Go map from pod
--   keys to instants.
-- Controller/Resize: the loop of Reconcile over the decisions, with applyResize, classifyResizeError and
--   forbiddenOutcome. The loop's effects are a list, its state (windows, limiter, rate-limit flag, errors)
--   is passed on explicitly, and the answers of the API server, the limiter and the clock are the
--   parameters of `Calls`; the limiter answers at an instant of its own for each pod. `stopped` is the
--   loop's break.
-- Controller/Inputs: buildInputs. Its caches and the reconciler's maps are the record `Judging`, which one
--   pod's step passes on to the next; its reads and the clock are the parameters of `Reads`. An error of a
--   read ends the call, and the maps stay as they are then.
--   Inputs/Cached and Inputs/Uncached relate it to `build_inputs_uncached`, a reference that reads for every pod.
-- Controller/Limiters: limiterFor, with golang.org/x/time/rate as an instance argument.
-- Controller/Reconcile: Reconcile as one function from the reconciler's state (`Reconciler`) and what the
--   cluster answers (`Cluster`) to the state after it, the effects and the reply; each early return is a
--   clause of `with_config`, `with_node`, `with_pods` or `with_inputs`. Its loop is that of Controller/Resize,
--   whose effect `annotated` stands for the call of writePodStatus.
-- Controller/Status: internal/controller/observability.go. `write_pod_status` is writePodStatus with the
--   pod's annotations, JSON and the instant as arguments.
-- Controller/HeadroomConfig: internal/controller/headroomconfig_controller.go, `reconcile_config` for Reconcile.
-- Controller/Watches: the handlers that turn an event into the delayed keys of nodes.
-- Controller/Series: which pods export a series (syncPodMetrics, forgetNode, ManagedCounts), with the
--   states that the reconciler reaches as an indexed data type.
-- Controller/Settings: loadConfig, resolveConfig and the debounce.
-- Controller/Filters: podUpdateRelevant and nodeUpdateRelevant.
-- Webhook: internal/webhook/v1/pod_webhook.go. The pointers of containerPtrsByName are places in the
--   pod's two lists of containers, and the caches it reads are the parameters of `Environment`.
-- Poller: internal/vpa/poller.go, Refresh and notify over the outcomes of listing; what Refresh offers to
--   the channel of changes is its second result. Its child Lister models list and parse over the API
--   server's pages, and Synced and Start.
-- Process: bootstrapRateLimits and rateLimitsFrom of cmd/main.go.
-- Samples: small objects that the tests run on; each Tests module holds runs and examples.
--
-- Bounds. Every function is structural: Go's loops are over slices or, in splitLimit, over a counted leftover.
-- The loop of list runs on a number of rounds; one more than the pages of the API server is enough, and
-- a list whose pages never end is stopped by the end of its context, as `unfinished`. Printing a number
-- takes 310 rounds, enough for the digits of every float64. Where a theorem bounds figures, it is for int64
-- arithmetic not to wrap (2^62), for float64 products to be exact (2^52, 2^53) or for float64 quotients to
-- tell neighbouring limits apart (2^50). A node's milli-cores are far below these, and 2^53 nanoseconds of
-- debounce are a hundred days.
--
-- Not modelled: logs and the latency histogram, the ticker of the VPA poller and the timeout of its pages,
-- the registration of metrics, watches and the webhook with their libraries, the generated deep copies, and
-- of cmd/main.go all but the rate limits. An event of the loop keeps its type and reason and loses its text;
-- what a pod's object takes over from the answer to its annotation's patch is left out.
pub mod Prelude
pub mod Float
pub mod Policy
pub mod Kube
pub mod Eligibility
pub mod Controller
pub mod Webhook
pub mod Samples
pub mod Poller
pub mod Process
