-- ===== src/Controller/Resize.antt =====
-- internal/controller/node_controller.go: the loop of Reconcile over the decisions of the policy, with
-- applyResize, classifyResizeError and forbiddenOutcome. The answers of the API server, of the rate
-- limiter (golang.org/x/time/rate) and of the clock are parameters; what the loop does to the outside is
-- a list of effects. An event keeps its pod, type and reason, not its note.
pub mod DryRun
pub mod Outcome
pub mod Attempts
pub mod Budget
use Prim.Native.String.{◌++◌ as str_append}
use kube_headroom.Prelude.{
  ℕ, zero, suc, ◌≡◌, refl, Bool, true, false, not, ◌&&◌, ◌||◌, if◌then◌else◌, ◌==◌, Option, none,
  some, List, [], ◌∷◌, ◌++◌, String, length, any,
}
use kube_headroom.Prelude.Int.{ℤ, pos}
use kube_headroom.Prelude.Text.{lookup, str_eq, text_contains}
use kube_headroom.Kube.{Quantity, GoMap, Container, Pod}
use kube_headroom.Policy.{Decision}
use kube_headroom.Eligibility.{ResizableContainer, resizable_containers}
use kube_headroom.Controller.PodInput.{split_limit}
use kube_headroom.Controller.Backoff.{set_backoff_key, backoff_requeue}

-- An error of the resize subresource, as the apierrors predicates sort it, with its text.
pub data PatchError : Type 0 where
  not_found : PatchError
  conflict : PatchError
  forbidden : String → PatchError
  other : String → PatchError

-- The entry of one container in the body of the apply patch.
pub record PatchEntry (Q : Type 0) : Type 0 where
  pub field : String
  pub name : String
  pub cpu : Q

pub data Effect (Q : Type 0) : Type 0 where
  annotated : String → Effect Q
  metered : String → Effect Q
  event : String → String → String → Effect Q
  patched : String → List (PatchEntry Q) → Effect Q

abbrev pub names_container : {Q : Type 0} → String → Container Q → Bool
names_container name c = str_eq c.name name

module _ {Q : Type 0} ⦃q : Quantity Q⦄ where
  -- The loop of applyResize over the resizable containers.
  unfoldable pub patch_entries : Pod Q → List ResizableContainer → GoMap ℤ → List (PatchEntry Q)
  patch_entries pod [] amounts = []
  patch_entries pod (c ∷ rcs) amounts =
      let rest = patch_entries pod rcs amounts in
      elim (lookup c.name amounts) [
        | none ↦ rest
        | some m ↦
            record {
              field =
                  if any (names_container c.name) pod.init_containers
                  then "initContainers"
                  else "containers";
              name = c.name;
              cpu = q.new_milli_quantity m;
            }
            ∷ rest
      ]

  -- The body of the patch that applyResize sends, or none where it has nothing to send.
  unfoldable pub resize_patch : Pod Q → ℤ → Option (List (PatchEntry Q))
  resize_patch pod target =
      let rcs = resizable_containers pod in
      let amounts = split_limit target rcs in
      if length amounts == 0 then none else some (patch_entries pod rcs amounts)

-- Who refused a resize: the result label and the reason of the event.
unfoldable pub forbidden_outcome : String → String × String
forbidden_outcome msg =
    if text_contains " usage per " msg
      || text_contains " max limit to request ratio per " msg
      || text_contains "error enforcing limit ranges" msg
    then ("limitrange-denied", "ResizeLimitRangeDenied")
    else (if text_contains "exceeded quota" msg
          || text_contains "failed quota" msg
          || text_contains "status unknown for quota" msg
          || text_contains "insufficient quota" msg
          || text_contains "quota usage is negative" msg
        then ("quota-denied", "ResizeForbidden")
        else ("forbidden", "ResizeForbidden"))

-- What the loop calls: the limiter, which answers at an instant of the monotonic clock in nanoseconds, that
-- instant for a pod's key, the API server, and the clock at a pod's refusal.
pub record Calls (Q L : Type 0) : Type 0 where
  pub allow : ℕ → L → Bool × L
  pub allow_at : String → ℕ
  pub patch : Pod Q → List (PatchEntry Q) → Option PatchError
  pub clock : String → ℤ
  pub backoff_period : ℤ

-- What one pass of the loop, or all of it, leaves.
pub record Pass (Q L : Type 0) : Type 0 where
  pub effects : List (Effect Q)
  pub backoff : GoMap ℤ
  pub limiter : L
  pub rate_limited : Bool
  pub stopped : Bool
  pub errors : List String

module _ {Q L : Type 0} where
  unfoldable pub idle : L → GoMap ℤ → Pass Q L
  idle limiter backoff = record {
    effects = [];
    backoff = backoff;
    limiter = limiter;
    rate_limited = false;
    stopped = false;
    errors = [];
  }

  -- A pass followed by the rest of the loop, which starts from the state it leaves.
  unfoldable pub followed_by : Pass Q L → Pass Q L → Pass Q L
  followed_by s rest = record {
    effects = s.effects ++ rest.effects;
    backoff = rest.backoff;
    limiter = rest.limiter;
    rate_limited = s.rate_limited || rest.rate_limited;
    stopped = rest.stopped;
    errors = s.errors ++ rest.errors;
  }

  -- Effects before those of a pass.
  unfoldable pub after : List (Effect Q) → Pass Q L → Pass Q L
  after effects s = record s { effects = effects ++ s.effects }

  -- classifyResizeError, and what the loop does with its verdict.
  unfoldable pub classify_resize_error : Calls Q L → String → PatchError → L → GoMap ℤ → Pass Q L
  classify_resize_error calls key not_found limiter backoff = idle limiter backoff
  classify_resize_error calls key conflict limiter backoff = record (idle limiter backoff) {
    effects = metered "conflict" ∷ [];
    rate_limited = true;
  }
  classify_resize_error calls key (forbidden msg) limiter backoff =
      let (result, reason) = forbidden_outcome msg in
      record (idle limiter backoff) {
        effects = metered result ∷ event key "Warning" reason ∷ [];
        backoff = set_backoff_key key (calls.clock key) calls.backoff_period backoff;
      }
  classify_resize_error calls key (other msg) limiter backoff = record (idle limiter backoff) {
    effects = metered "error" ∷ [];
    errors = str_append "resize " (str_append key (str_append ": " msg)) ∷ [];
  }

  unfoldable pub answered : Calls Q L → String → Option PatchError → L → GoMap ℤ → Pass Q L
  answered calls key none limiter backoff = record (idle limiter backoff) {
    effects = metered "applied" ∷ event key "Normal" "CPULimitAdjusted" ∷ [];
  }
  answered calls key (some e) limiter backoff = classify_resize_error calls key e limiter backoff

module _ {Q L : Type 0} ⦃q : Quantity Q⦄ where
  -- The patch of a pod that the limiter has let through.
  unfoldable pub apply_resize :
      Calls Q L → String → Pod Q → Option (List (PatchEntry Q)) → L → GoMap ℤ → Pass Q L
  apply_resize calls key pod none limiter backoff = answered calls key none limiter backoff
  apply_resize calls key pod (some entries) limiter backoff =
      after (patched key entries ∷ [])
        (answered calls key (calls.patch pod entries) limiter backoff)

  -- The body of the loop, for the decision's pod if it is at hand; it stops the loop where the
  -- limiter refuses.
  unfoldable pub resize_one : Calls Q L → Bool → Decision → Option (Pod Q) → L → GoMap ℤ → Pass Q L
  resize_one calls dry_run d none limiter backoff = idle limiter backoff
  resize_one calls dry_run d (some pod) limiter backoff =
      let (allowed, limiter') = calls.allow (calls.allow_at d.key) limiter in
      if not d.apply
      then after (annotated d.key ∷ []) (idle limiter backoff)
      else (if dry_run
          then after
              (annotated d.key ∷ metered "dry-run" ∷ event d.key "Normal" "CPULimitAdjusted" ∷ [])
              (idle limiter backoff)
          else (if not allowed
              then record (after (annotated d.key ∷ []) (idle limiter' backoff)) {
                rate_limited = true;
                stopped = true;
              }
              else after (annotated d.key ∷ []) (
                  apply_resize calls d.key pod (resize_patch pod d.target_limit_milli) limiter'
                    backoff)))

  -- The loop over the decisions.
  unfoldable pub resize_all :
      Calls Q L → Bool → GoMap (Pod Q) → List Decision → L → GoMap ℤ → Pass Q L
  resize_all calls dry_run by_key [] limiter backoff = idle limiter backoff
  resize_all calls dry_run by_key (d ∷ decisions) limiter backoff =
      let s = resize_one calls dry_run d (lookup d.key by_key) limiter backoff in
      let rest = resize_all calls dry_run by_key decisions s.limiter s.backoff in
      if s.stopped then s else followed_by s rest

-- How Reconcile ends: the errors joined, or the time after which the node comes back.
pub data Reply : Type 0 where
  fails : List String → Reply
  requeue_after : ℤ → Reply

-- time.Second.
abbrev pub second : ℤ
second = pos 1000000000

unfoldable pub reply : {Q L : Type 0} → Pass Q L → List String → ℤ → ℤ → Reply
reply s keys judged_at delay = elim s.errors [
  | [] ↦
      if s.rate_limited
      then requeue_after second
      else requeue_after (backoff_requeue s.backoff keys judged_at delay)
  | e ∷ errors ↦ fails (e ∷ errors)
]
