-- ===== src/Controller/PodInput/ReadBack.antt =====
-- splitLimit and PodCurrentLimitMilli: a split that is written, and what is then read.
use native.Mathlib.Decide.{dec_lt}
use native.Mathlib.Nat.{le_of_mul-le-mul_right}
use kube_headroom.Prelude.{
  ℕ, ◌-◌, ◌*◌, ◌^◌, ◌≤◌, ◌<◌, ◌≡◌, refl, ap, ◌∙◌, true, false, if◌then◌else◌, none, some, List, [],
  ◌∷◌, arith, inl, inr, length, any, map,
}
use kube_headroom.Prelude.Int.{ℤ, pos, pos_part, leb_ℤ}
use kube_headroom.Prelude.Int64
use kube_headroom.Prelude.Text.{lookup}
use kube_headroom.Kube.{GoMap}
use kube_headroom.Policy.Quantize.{sub_pos}
use kube_headroom.Eligibility.{ResizableContainer, pod_current_limit_milli}
use kube_headroom.Eligibility.Limits.{is_unlimited, limits_sum, pod_current_limit_milli_lem}
use kube_headroom.Controller.PodInput.{
  Floors, no_floors, floors, sort_rems, distribute, split_limit,
}
use kube_headroom.Controller.PodInput.Amounts.{sum_values}
use kube_headroom.Controller.PodInput.Shares.{requests_sum, AreRequests, shares_sum, shares_sum-le}
use kube_headroom.Controller.PodInput.Deal.{sort_rems_lem}
use kube_headroom.Controller.PodInput.First.{
  UniqueNames, Covered, no_floors-IsBuilt, IsBuilt, Built, floors_lem,
}
use kube_headroom.Controller.PodInput.Split.{
  Absent-nil, shares_sum-ge, length-pos, total_lem, split_limit_lem,
}
use kube_headroom.Controller.PodInput.Written.{
  sum_at, Kept, UniqueNames-AllOnce, Named-sort_rems, sum_at-distribute, floors-Kept,
}

-- Nothing is read of an empty map.
sum_at-nil : (rcs : List ResizableContainer) → sum_at [] rcs ≡ 0
sum_at-nil [] = refl
sum_at-nil (c ∷ rcs) = omega (arith, sum_at-nil rcs)

dealt-sum_at :
    (target : ℕ) (rcs : List ResizableContainer) (f : Floors)
    → IsBuilt f
    → Kept rcs f
    → 0 < sum_values f.out
    → sum_values f.out ≤ target
    → target < 2 ^ 63
    → sum_at
        (if leb_ℤ (Int64.sub (pos target) f.assigned) (pos 0)
          then f.out
          else distribute (pos_part (Int64.sub (pos target) f.assigned)) 0 (sort_rems f.rems) f.out)
        rcs
      ≡ target
dealt-sum_at target rcs f built kept some_sum le fits =
    let left : Int64.sub (pos target) f.assigned ≡ pos (target - sum_values f.out) =
      ap (Int64.sub (pos target)) built.assigned_eq ∙ sub_pos target (sum_values f.out) le fits in
    rw left (elim (dec_lt 0 (target - sum_values f.out)) [
      | yes h ↦
          let more : leb_ℤ (pos (target - sum_values f.out)) (pos 0) ≡ false = ground arith in
          let (named, len) = sort_rems_lem f.out f.rems built.named in
          let dealing : 0 < length f.rems = elim built.some_rem [
            | inl e ↦ omega arith
            | inr p ↦ p
          ] in
          let dealt =
            sum_at-distribute rcs (target - sum_values f.out) 0 (sort_rems f.rems) f.out
              (omega (arith, len)) (Named-sort_rems rcs f.rems kept.named) named built.amounts
              (omega arith) in
          rw more (omega (arith, dealt, kept.sums))
      | no h ↦
          let done : leb_ℤ (pos (target - sum_values f.out)) (pos 0) ≡ true = ground arith in
          rw done (omega (arith, kept.sums))
    ])

-- The containers with the amounts as their limits.
abbrev pub limited : GoMap ℤ → ResizableContainer → ResizableContainer
limited m c = elim (lookup c.name m) [ none ↦ c | some v ↦ record c { limit_milli = v } ]

module _ (target : ℕ) (rcs : List ResizableContainer) (u : UniqueNames rcs) (q : AreRequests rcs)
    (pt : 0 < requests_sum rcs) (le : requests_sum rcs ≤ target) (ht : target < 2 ^ 52)
    (hx : target * requests_sum rcs < 2 ^ 53) where
  sum_at-split_limit : sum_at (split_limit (pos target) rcs) rcs ≡ target
  unfolding split_limit
  sum_at-split_limit =
      let total = requests_sum rcs in
      let shared : shares_sum target total rcs ≤ target =
        le_of_mul-le-mul_right {k = total} (shares_sum-le target total rcs) pt in
      let f = floors (pos target) (pos total) 0 rcs no_floors in
      let b : Built target total le pt ht hx rcs no_floors f =
        floors_lem target total le pt ht hx 0 rcs no_floors no_floors-IsBuilt (Absent-nil rcs) u q
          (omega arith) (omega arith) in
      let kept : Kept rcs f =
        floors-Kept target total le pt ht hx rcs 0 rcs no_floors no_floors-IsBuilt (Absent-nil rcs)
          u (UniqueNames-AllOnce rcs u) q (omega arith) (omega arith)
          (record { sums = sum_at-nil rcs; named = tt }) in
      let positive : leb_ℤ (pos total) (pos 0) ≡ false = ground arith in
      rw (total_lem rcs q (omega arith), positive, length-pos rcs pt)
        (dealt-sum_at target rcs f b.built kept
          (omega (arith, b.sum_eq, shares_sum-ge target total rcs pt le)) (omega (arith, b.sum_eq))
          (omega arith))

limits_sum-limited :
    (m : GoMap ℤ) (rcs : List ResizableContainer)
    → Covered m rcs
    → AreRequests rcs
    → (limits_sum (map (limited m) rcs) ≡ sum_at m rcs)
      × (any is_unlimited (map (limited m) rcs) ≡ false)
limits_sum-limited m [] cs qs = (refl, refl)
limits_sum-limited m (c ∷ rcs) (inl (z, e), cs) (q, qs) =
    let (sums, limits) = limits_sum-limited m rcs cs qs in
    rw e ((ground (arith, sums), ground (arith, limits)))
limits_sum-limited m (c ∷ rcs) (inr (p, (v, e, covers)), cs) (q, qs) =
    let (sums, limits) = limits_sum-limited m rcs cs qs in
    rw e ((ground (arith, sums), ground (arith, limits)))

-- For containers with distinct names and requests that are not negative and not all 0, and a target
-- that is at least the sum of the requests and below 2^52, with target times sum below 2^53: once
-- each amount of splitLimit is its container's limit, PodCurrentLimitMilli reads the target.
pub pod_current_limit_milli-split_limit :
    (target : ℕ) (rcs : List ResizableContainer)
    → UniqueNames rcs
    → AreRequests rcs
    → 0 < requests_sum rcs
    → requests_sum rcs ≤ target
    → target < 2 ^ 52
    → target * requests_sum rcs < 2 ^ 53
    → pod_current_limit_milli (map (limited (split_limit (pos target) rcs)) rcs) ≡ pos target
pod_current_limit_milli-split_limit target rcs u q pt le ht hx =
    let m = split_limit (pos target) rcs in
    let split = split_limit_lem target rcs u q pt le ht hx in
    let (sums, limits) = limits_sum-limited m rcs split.covered q in
    let whole : limits_sum (map (limited m) rcs) ≡ target =
      sums ∙ sum_at-split_limit target rcs u q pt le ht hx in
    pod_current_limit_milli_lem (map (limited m) rcs) (omega arith) ∙ rw (limits, whole) refl
