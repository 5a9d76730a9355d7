-- ===== src/Controller/PodInput.antt =====
-- internal/controller/podinput.go: a pod as input of the policy, and the split of a pod's target over
-- its containers.
pub mod Amounts
pub mod Shares
pub mod Deal
pub mod First
pub mod Counts
pub mod Split
pub mod Near
pub mod Fair
pub mod Written
pub mod ReadBack
use Prim.Native.String.{◌++◌ as str_append}
use kube_headroom.Prelude.{
  ℕ, zero, suc, ◌+◌, ◌%◌, ◌≡◌, refl, Bool, true, false, not, ◌&&◌, ◌||◌, if◌then◌else◌, ◌==◌,
  Option, none, some, List, [], ◌∷◌, String, length, ltb,
}
use kube_headroom.Prelude.Int.{ℤ, pos, pos_part, max, ltb_ℤ, leb_ℤ, eqb_ℤ}
use kube_headroom.Prelude.Int64
use kube_headroom.Prelude.Text.{lookup, insert, str_eq}
use kube_headroom.Float
use kube_headroom.Float.{Float64}
use kube_headroom.Kube.{Quantity, GoMap, Container, Pod, ResourceHelper, cpu, memory}
use kube_headroom.Policy.{PodInput}
use kube_headroom.Eligibility.{
  ResizableContainer, pod_cpu_request_milli, pod_current_limit_milli, pod_booked_cpu_milli,
  user_cap_milli, has_pod_level_resources, is_sidecar,
}

-- pod.Namespace + "/" + pod.Name.
unfoldable pub pod_key : {Q : Type 0} → Pod Q → String
pod_key pod = str_append pod.namespace (str_append "/" pod.name)

module _ {Q : Type 0} ⦃q : Quantity Q⦄ where
  unfoldable pub pinned : Container Q → Bool
  pinned c =
      ltb_ℤ (pos 0) (q.sign (cpu c.requests))
      && ltb_ℤ (pos 0) (q.sign (memory c.requests))
      && eqb_ℤ (q.cmp (memory c.requests) (memory c.limits)) (pos 0)

  unfoldable pub all_pinned : List (Container Q) → Bool
  all_pinned [] = true
  all_pinned (c ∷ cs) = let rest = all_pinned cs in if not (pinned c) then false else rest

  -- The loop over the init containers: the limit of one that is no sidecar is never resized.
  unfoldable pub init_pinned : List (Container Q) → Bool
  init_pinned [] = true
  init_pinned (c ∷ cs) =
      let rest = init_pinned cs in
      if not (pinned c)
      then false
      else (if not (is_sidecar c) && not (eqb_ℤ (q.cmp (cpu c.requests) (cpu c.limits)) (pos 0))
          then false
          else rest)

  unfoldable pub guaranteed_at_request : Pod Q → Bool
  guaranteed_at_request pod =
      if has_pod_level_resources pod
      then false
      else (if not (all_pinned pod.containers) then false else init_pinned pod.init_containers)

module _ {Q : Type 0} ⦃q : Quantity Q⦄ ⦃helper : ResourceHelper Q⦄ where
  unfoldable pub build_pod_input : Pod Q → List ResizableContainer → Bool → PodInput
  build_pod_input pod rcs managed =
      let request = pod_cpu_request_milli rcs in
      record {
        key = pod_key pod;
        request_milli = request;
        booked_delta_milli = Int64.sub (pod_booked_cpu_milli pod) request;
        current_limit_milli = pod_current_limit_milli rcs;
        managed = managed;
        holds_share = false;
        user_cap_milli = user_cap_milli pod;
        limit_range_cap = pos 0;
        above_request = guaranteed_at_request pod;
      }

-- The local type rem of splitLimit.
pub record Rem : Type 0 where
  pub name : String
  pub frac : Float64
  pub idx : ℕ

-- A container's exact share of the target, in float64.
unfoldable pub exact_share : ℤ → ℤ → ℤ → Float64
exact_share target request total =
    Float.div (Float.mul (Float.of_int target) (Float.of_int request)) (Float.of_int total)

unfoldable pub base_share : ℤ → ℤ → ℤ → ℤ
base_share target request total = max (Float.to_int (exact_share target request total)) request

unfoldable pub rem_of : ℤ → ℤ → ℕ → ResizableContainer → Rem
rem_of target total i c =
    let exact = exact_share target c.request_milli total in
    record { name = c.name; frac = Float.sub exact (Float.of_int (Float.to_int exact)); idx = i }

-- What the first loop of splitLimit has built.
pub record Floors : Type 0 where
  pub out : GoMap ℤ
  pub assigned : ℤ
  pub rems : List Rem

abbrev pub no_floors : Floors
no_floors = record { out = []; assigned = pos 0; rems = [] }

abbrev push : {A : Type 0} → List A → A → List A
push [] a = a ∷ []
push (x ∷ xs) a = x ∷ push xs a

unfoldable pub floor_step : ℤ → ℤ → ℕ → ResizableContainer → Floors → Floors
floor_step target total i c f = if leb_ℤ c.request_milli (pos 0) then f else record {
  out = insert c.name (base_share target c.request_milli total) f.out;
  assigned = Int64.add f.assigned (base_share target c.request_milli total);
  rems = push f.rems (rem_of target total i c);
}

unfoldable pub floors : ℤ → ℤ → ℕ → List ResizableContainer → Floors → Floors
floors target total i [] f = f
floors target total i (c ∷ rcs) f = floors target total (suc i) rcs (floor_step target total i c f)

-- The order of the remainders: the larger fraction first, then the earlier container.
unfoldable pub before : Rem → Rem → Bool
before a b = if not (Float.eq a.frac b.frac) then Float.lt b.frac a.frac else ltb a.idx b.idx

-- slices.SortStableFunc with that order.
unfoldable pub insert_rem : Rem → List Rem → List Rem
insert_rem a [] = a ∷ []
insert_rem a (b ∷ rems) =
    let rest = insert_rem a rems in if before b a then b ∷ rest else a ∷ b ∷ rems

unfoldable pub sort_rems : List Rem → List Rem
sort_rems [] = []
sort_rems (a ∷ rems) = insert_rem a (sort_rems rems)

abbrev pub get_elem? : List Rem → ℕ → Option Rem
get_elem? [] i = none
get_elem? (a ∷ rems) zero = some a
get_elem? (a ∷ rems) (suc i) = get_elem? rems i

-- m[key]++.
unfoldable pub increment : String → GoMap ℤ → GoMap ℤ
increment key m =
    insert key (Int64.add (elim (lookup key m) [ none ↦ pos 0 | some v ↦ v ]) (pos 1)) m

unfoldable pub give : Option Rem → GoMap ℤ → GoMap ℤ
give none m = m
give (some r) m = increment r.name m

-- The last loop of splitLimit, with the rounds left and the index.
unfoldable pub distribute : ℕ → ℕ → List Rem → GoMap ℤ → GoMap ℤ
distribute zero i rems out = out
distribute (suc n) i rems out =
    distribute n (suc i) rems (give (get_elem? rems (i % length rems)) out)

unfoldable pub split_limit : ℤ → List ResizableContainer → GoMap ℤ
split_limit target rcs =
    let total = pod_cpu_request_milli rcs in
    if leb_ℤ total (pos 0) || length rcs == 0
    then []
    else (let f = floors target total 0 rcs no_floors in
        let leftover = Int64.sub target f.assigned in
        if leb_ℤ leftover (pos 0)
        then f.out
        else distribute (pos_part leftover) 0 (sort_rems f.rems) f.out)
