-- ===== src/Controller/Tests.antt =====
-- The node controller on a pod with two containers.
use kube_headroom.Prelude.{
  ◌≡◌, ◌+◌, ◌≤◌, refl, true, false, none, some, List, [], ◌∷◌, ◌⊎◌, String, All, arith, map, length,
  ℕ, ◌*◌, not, ◌&&◌, ◌==◌, ◌^◌, ◌-◌, leb, Bool, Bool-cases, leb→le, if◌then◌else◌, inl, inr,
}
use kube_headroom.Prelude.Int.{ℤ, pos, ◌≤ℤ◌, ◌<ℤ◌}
use kube_headroom.Prelude.Int64
use kube_headroom.Prelude.Text.{lookup, contains}
use kube_headroom.Kube.{GoMap, Pod, HeadroomConfigSpec, found}
use kube_headroom.Policy.{Decision, PodInput, verdict}
use kube_headroom.Eligibility.{ResizableContainer}
use kube_headroom.Controller.PodInput.{split_limit}
use kube_headroom.Controller.PodInput.Split.{IsSplit, split_limit_lem}
use kube_headroom.Controller.PodInput.Fair.{Fair, split_limit-Fair}
use kube_headroom.Controller.PodInput.ReadBack.{limited, pod_current_limit_milli-split_limit}
use kube_headroom.Controller.Backoff.{
  delete, in_backoff_key, set_backoff_key, backoff_requeue, time_sub,
}
use kube_headroom.Controller.Backoff.Window.{window_end, in_backoff_key-set_backoff_key}
use kube_headroom.Controller.Backoff.Requeue.{IsFree, Runs, NotBefore, backoff_requeue_lem}
use kube_headroom.Controller.Resize.{Calls, forbidden, resize_all}
use kube_headroom.Controller.Resize.Attempts.{patches, Sends, wanted, resize_all-patches}
use kube_headroom.Controller.Resize.DryRun.{IsInert, resize_all-dry_run}
use kube_headroom.Controller.Resize.Outcome.{refused, window_of, resize_all-backoff}
use kube_headroom.Eligibility.{
  resizable_containers, pod_terminal, opted_out, user_cap_milli, pod_booked_cpu_milli,
  pod_cpu_request_milli, pod_current_limit_milli,
}
use kube_headroom.Controller.Filters.{pod_update_relevant}
use kube_headroom.Controller.Filters.Status.{
  annotate, pod_update_relevant-annotate, pod_update_relevant-false,
}
use kube_headroom.Controller.Settings.{
  load_config, resolve_config, debounce_period_of, set_debounce, base_enqueue_delay, enqueue_delay,
}
use kube_headroom.Controller.Settings.Consent.{load_config-consent, load_config-debounce}
use kube_headroom.Float
use kube_headroom.Float.{fin}
use kube_headroom.Controller.Settings.Deadband.{moves, verdict-resolve_config}
use kube_headroom.Controller.Settings.Jitter.{enqueue_delay_bounds}
use kube_headroom.Controller.Inputs.{Judging, build_inputs, pod_resize_infeasible}
use kube_headroom.Controller.Inputs.Cached.{cleared}
use kube_headroom.Controller.Inputs.Uncached.{
  build_inputs_uncached, build_inputs-build_inputs_uncached,
}
use kube_headroom.Controller.Resize.Budget.{spent, held, IsTokenBucket, resize_all-tokens}
use kube_headroom.Controller.Inputs.Judged.{Inputs}
use kube_headroom.Controller.Series.{
  PodSeriesRef, Series, no_series, sync_pod_metrics, delete_stale, delete_label_values, series_of,
  refresh_pods_managed, total,
}
use kube_headroom.Samples.{
  calls, reads, milli_quantity, label_selector, booked_600, spec, web, resizable_of, decision,
}

abbrev two : List ResizableContainer
two = resizable_of "app" (pos 500) (pos 0) ∷ resizable_of "proxy" (pos 100) (pos 0) ∷ []

split_limit-Fair_example : Fair 1000 600 (split_limit (pos 1000) two) two
split_limit-Fair_example =
    split_limit-Fair 1000 two ((refl, tt), (tt, tt)) (refl, (refl, tt)) (omega arith) (omega arith)
      (omega arith) (omega arith)

split_limit_lem_example : IsSplit 1000 two (split_limit (pos 1000) two)
split_limit_lem_example =
    split_limit_lem 1000 two ((refl, tt), (tt, tt)) (refl, (refl, tt)) (omega arith) (omega arith)
      (omega arith) (omega arith)

pod_current_limit_milli-split_limit_example :
    pod_current_limit_milli (map (limited (split_limit (pos 1000) two)) two) ≡ pos 1000
pod_current_limit_milli-split_limit_example =
    pod_current_limit_milli-split_limit 1000 two ((refl, tt), (tt, tt)) (refl, (refl, tt))
      (omega arith) (omega arith) (omega arith) (omega arith)

-- One window open at instant 1000, of 60 nanoseconds.
abbrev windows : GoMap ℤ
windows = ("shop/web", pos 1060) ∷ []

in_backoff_key-set_backoff_key_example :
    let opened = set_backoff_key "shop/web" (pos 1000) (pos 60) [] in
    ((pos 1030 ≤ℤ window_end "shop/web" (pos 1000) (pos 1030) (pos 60) [])
      × (in_backoff_key "shop/web" (pos 1030) opened ≡ (true, opened)))
    ⊎ ((window_end "shop/web" (pos 1000) (pos 1030) (pos 60) [] <ℤ pos 1030)
        × ((in_backoff_key "shop/web" (pos 1030) opened).0 ≡ false)
        × (lookup "shop/web" (in_backoff_key "shop/web" (pos 1030) opened).1 ≡ none))
in_backoff_key-set_backoff_key_example =
    in_backoff_key-set_backoff_key "shop/web" (pos 1000) (pos 1030) (pos 60) []

backoff_requeue_lem_example :
    ((backoff_requeue windows ("shop/web" ∷ []) (pos 1030) (pos 5) ≡ pos 0)
      × All (IsFree windows (pos 1030)) ("shop/web" ∷ []))
    ⊎ ((key : String) × (until : ℤ) × (contains key ("shop/web" ∷ []) ≡ true)
        × Runs windows (pos 1030) key until
        × All (NotBefore windows (pos 1030) until) ("shop/web" ∷ [])
        × (backoff_requeue windows ("shop/web" ∷ []) (pos 1030) (pos 5)
            ≡ Int64.add (time_sub until (pos 1030)) (pos 5)))
backoff_requeue_lem_example =
    backoff_requeue_lem windows (pos 1030) ("shop/web" ∷ []) (pos 5) (omega arith, tt)

abbrev pods : GoMap (Pod ℤ)
pods = ("shop/web", web) ∷ []

abbrev raise : List Decision
raise = decision "shop/web" (pos 1000) ∷ []

resize_all-patches_example :
    Sends calls (wanted calls pods raise) (resize_all calls false pods raise 3 [])
resize_all-patches_example = resize_all-patches calls pods raise 3 []

resize_all-backoff_example :
    let s = resize_all calls false pods raise 3 [] in
    All
      (λ p. (refused calls pods p ≡ false) ⊎ (lookup p.0 s.backoff ≡ some (window_of calls p.0)))
      (patches s.effects)
resize_all-backoff_example = resize_all-backoff calls pods raise 3 []

resize_all-dry_run_example : IsInert (resize_all calls true pods raise 3 []) 3 []
resize_all-dry_run_example = resize_all-dry_run calls pods raise 3 []

load_config-consent_example :
    ((s : HeadroomConfigSpec ℤ String) × (found spec ≡ found s) × (s.dry_run ≡ some false))
    ⊎ IsInert (resize_all calls (resolve_config spec (pos 5)).dry_run pods raise 3 []) 3 []
unfolding load_config
load_config-consent_example =
    load_config-consent calls (found spec) (pos 5) (resolve_config spec (pos 5)) pods raise 3 []
      refl

load_config-debounce_example :
    let c = resolve_config spec (debounce_period_of (pos 0)) in
    let delay = base_enqueue_delay (pos 0) (set_debounce c.debounce_period (pos 0)) in
    (pos 0 <ℤ delay) × (((pos 0 <ℤ pos 0) × (delay ≡ pos 0)) ⊎ (delay ≡ c.debounce_period))
unfolding load_config
load_config-debounce_example =
    load_config-debounce (found spec) (pos 0) (pos 0)
      (resolve_config spec (debounce_period_of (pos 0))) refl

-- A limit of 1000 and a target of 1150, with a percentage to grow of 10 and to shrink of 5.
verdict-resolve_config_example :
    (verdict (pos 1150) (pos 1000) "grow" (resolve_config spec (pos 5)).policy).0
    ≡ (not (1150 == 1000) && moves 10 5 1150 1000)
verdict-resolve_config_example =
    verdict-resolve_config spec (pos 5) 10 5 1150 1000 "grow" refl refl (omega arith) (omega arith)
      (omega arith) (omega arith) (omega arith)

abbrev judging : Judging ℤ
judging = record {
  backoff = [];
  vpa_skipped = [];
  ns_managed = [];
  ns_limit_ranges = [];
  effects = [];
  by_key = [];
}

abbrev on_node : GoMap PodSeriesRef
on_node = ("shop/web", record { namespace = "shop"; name = "web" }) ∷ []

abbrev annotated_web : Pod ℤ
annotated_web = annotate "kube-headroom.dev/status" "{}" web

pod_update_relevant-annotate_example :
    pod_update_relevant (λ old new. true) web annotated_web ≡ false
pod_update_relevant-annotate_example =
    pod_update_relevant-annotate (λ old new. true) "kube-headroom.dev/status" "{}" web refl refl
      refl

pod_update_relevant-false_example :
    (web.node_name ≡ annotated_web.node_name)
    × (pod_booked_cpu_milli web ≡ pod_booked_cpu_milli annotated_web)
    × (pod_terminal web ≡ pod_terminal annotated_web)
    × (pod_resize_infeasible web ≡ pod_resize_infeasible annotated_web)
    × (opted_out web ≡ opted_out annotated_web)
    × (user_cap_milli web ≡ user_cap_milli annotated_web)
    × (pod_cpu_request_milli (resizable_containers web)
        ≡ pod_cpu_request_milli (resizable_containers annotated_web))
pod_update_relevant-false_example =
    pod_update_relevant-false (λ old new. true) web annotated_web
      (pod_update_relevant-annotate (λ old new. true) "kube-headroom.dev/status" "{}" web refl refl
        refl)

-- A pod that moved from node a to node b, which has reconciled first: the sync of a deletes the series
-- that b has set, while the pod still counts.
abbrev moved : Series
moved = record (sync_pod_metrics "b" on_node (sync_pod_metrics "a" on_node no_series)) {
  pod_limit_cores = record { namespace = "shop"; name = "web" } ∷ [];
}

lost_series :
    ((sync_pod_metrics "a" [] moved).pod_limit_cores ≡ [])
    × ((sync_pod_metrics "a" [] moved).pods_managed ≡ 1)
unfolding sync_pod_metrics delete_stale delete_label_values series_of refresh_pods_managed total
    delete
lost_series = (refl, refl)

build_inputs-build_inputs_uncached_example :
    let m = build_inputs reads spec true (web ∷ web ∷ []) judging in
    let m' = build_inputs_uncached reads spec true (web ∷ web ∷ []) judging in
    (m.0 ≡ m'.0) × (cleared m.1 ≡ cleared m'.1)
build_inputs-build_inputs_uncached_example =
    build_inputs-build_inputs_uncached reads spec true (web ∷ web ∷ []) judging

-- A token bucket of ten tokens, refilled at ten a second: what it held at its last call, and when.
record Bucket : Type 0 where
  stock : ℕ
  at : ℕ

abbrev stock_at : Bucket → ℕ → ℕ
stock_at = held 10 10 (λ b. b.stock) (λ b. b.at)

abbrev take : ℕ → Bucket → Bool × Bucket
take t b =
    let held_now = stock_at b t in
    if leb (10 ^ 9) held_now
    then (true, record { stock = held_now - 10 ^ 9; at = t })
    else (false, record { stock = held_now; at = t })

-- An API server that refuses every resize, and that bucket.
abbrev bucket_calls : Calls ℤ Bucket
bucket_calls = record {
  allow = take;
  allow_at = λ key. 1500000000;
  patch = λ pod entries. some (forbidden "exceeded quota");
  clock = λ key. pos 1000;
  backoff_period = pos 60;
}

take-spent : (l : Bucket) (t : ℕ) → spent (take t l).0 * 10 ^ 9 + (take t l).1.stock ≤ stock_at l t
take-spent l t = elim (Bool-cases (leb (10 ^ 9) (stock_at l t))) [
  | inl e ↦ rw e (omega (arith, leb→le (10 ^ 9) (stock_at l t) e))
  | inr e ↦ rw e (omega arith)
]

take-at : (l : Bucket) (t : ℕ) → (take t l).1.at ≡ t
take-at l t = elim (Bool-cases (leb (10 ^ 9) (stock_at l t))) [
  | inl e ↦ rw e refl
  | inr e ↦ rw e refl
]

is_bucket : IsTokenBucket bucket_calls 10 10 (λ b. b.stock) (λ b. b.at)
is_bucket = record { taken = λ l t h. take-spent l t; moved = λ l t h. take-at l t }

abbrev half : Bucket
half = record { stock = 500000000; at = 1000000000 }

-- A bucket with half a token at one second, and a pass from there to two seconds.
resize_all-tokens_example :
    length (patches (resize_all bucket_calls false pods raise half []).effects) * 10 ^ 9
    ≤ stock_at half 1000000000 + 10 * (2000000000 - 1000000000)
resize_all-tokens_example =
    resize_all-tokens bucket_calls 10 10 (λ b. b.stock) (λ b. b.at) is_bucket false pods raise half
      [] 1000000000 2000000000 (omega arith) (omega arith, omega arith)

-- A fraction of 1/4 on the default base of two seconds.
enqueue_delay_bounds_example :
    (n : ℕ) × (enqueue_delay (pos 2000000000) (fin false 1 2) ≡ pos n)
    × (2000000000 ≤ 2 * n)
    × (2 * n ≤ 3 * 2000000000)
enqueue_delay_bounds_example = enqueue_delay_bounds 1 2 2000000000 (omega arith) (omega arith)

quarter_jitter : enqueue_delay (pos 2000000000) (fin false 1 2) ≡ pos 1500000000
unfolding enqueue_delay Float.evaluation Int64.evaluation
quarter_jitter = refl
