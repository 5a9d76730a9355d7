-- ===== src/Controller/Backoff.antt =====
-- internal/controller/node_controller.go: the backoff windows of the node controller. An instant is in
-- nanoseconds from Go's zero time, which is the instant 0; the sync.Map is a Go map.
pub mod Window
pub mod Requeue
use kube_headroom.Prelude.{
  ℕ, ◌^◌, ◌-◌, ◌≡◌, refl, Bool, true, false, not, ◌&&◌, ◌||◌, if◌then◌else◌, Option, none, some,
  List, [], ◌∷◌, String,
}
use kube_headroom.Prelude.Int.{ℤ, pos, negsuc, ◌+ℤ◌, ◌-ℤ◌, min, max, ltb_ℤ, eqb_ℤ}
use kube_headroom.Prelude.Int64
use kube_headroom.Prelude.Text.{lookup, insert, str_eq}
use kube_headroom.Kube.{GoMap, Pod}
use kube_headroom.Controller.PodInput.{pod_key}

-- 60 * time.Second.
abbrev pub default_backoff_period : ℤ
default_backoff_period = pos 60000000000

unfoldable pub backoff_period : ℤ → ℤ
backoff_period period = if ltb_ℤ (pos 0) period then period else default_backoff_period

-- sync.Map.Delete.
unfoldable pub delete : {V : Type 0} → String → GoMap V → GoMap V
delete k [] = []
delete k ((j, v) ∷ m) = let rest = delete k m in if str_eq j k then rest else (j, v) ∷ rest

-- inBackoff at an instant: the verdict, and the windows left. An expired window is dropped.
unfoldable pub in_backoff_key : String → ℤ → GoMap ℤ → Bool × GoMap ℤ
in_backoff_key key now backoff = elim (lookup key backoff) [
  | none ↦ (false, backoff)
  | some until ↦ if ltb_ℤ until now then (false, delete key backoff) else (true, backoff)
]

abbrev pub in_backoff : {Q : Type 0} → Pod Q → ℤ → GoMap ℤ → Bool × GoMap ℤ
in_backoff pod now backoff = in_backoff_key (pod_key pod) now backoff

unfoldable pub set_backoff_key : String → ℤ → ℤ → GoMap ℤ → GoMap ℤ
set_backoff_key key now period backoff = insert key (now +ℤ backoff_period period) backoff

abbrev pub set_backoff : {Q : Type 0} → Pod Q → ℤ → ℤ → GoMap ℤ → GoMap ℤ
set_backoff pod now period backoff = set_backoff_key (pod_key pod) now period backoff

-- Time.Sub: the difference, held within a Duration.
unfoldable pub time_sub : ℤ → ℤ → ℤ
time_sub t u = max (negsuc 9223372036854775807) (min (t -ℤ u) (pos 9223372036854775807))

-- The body of the loop of backoffRequeue, from the next end found so far; 0 is Go's zero time.
unfoldable pub nearer : ℤ → ℤ → ℤ → ℤ
nearer now until next =
    if not (ltb_ℤ until now) && (eqb_ℤ next (pos 0) || ltb_ℤ until next) then until else next

unfoldable pub next_end : GoMap ℤ → ℤ → List String → ℤ → ℤ
next_end backoff now [] next = next
next_end backoff now (key ∷ keys) next =
    next_end backoff now keys
      (elim (lookup key backoff) [ none ↦ next | some until ↦ nearer now until next ])

-- backoffRequeue over the keys of the node's pods, in the order the map yields them, with the
-- debounce that enqueueDelay draws.
unfoldable pub backoff_requeue : GoMap ℤ → List String → ℤ → ℤ → ℤ
backoff_requeue backoff keys now delay =
    let next = next_end backoff now keys (pos 0) in
    if eqb_ℤ next (pos 0) then pos 0 else Int64.add (time_sub next now) delay
