-- ===== src/Controller/PodInput/Split.antt =====
-- splitLimit: the shares against the pod's target and the containers' requests.
use native.Mathlib.Decide.{dec_lt}
use native.Mathlib.Nat.{le_of_mul-le-mul_right, mul-le-mul_right, le-div_iff_mul-le}
use kube_headroom.Prelude.{
  ℕ, ◌+◌, ◌-◌, ◌*◌, ◌^◌, ◌==◌, ◌≤◌, ◌<◌, ◌≡◌, refl, ap, ◌∙◌, true, false, if◌then◌else◌, List, [],
  ◌∷◌, arith, inl, inr, length,
}
use kube_headroom.Prelude.Int.{ℤ, pos, pos_part, leb_ℤ}
use kube_headroom.Prelude.Int64
use kube_headroom.Kube.{GoMap}
use kube_headroom.Policy.Quantize.{sub_pos}
use kube_headroom.Eligibility.{ResizableContainer, pod_cpu_request_milli}
use kube_headroom.Controller.PodInput.{
  Floors, no_floors, floors, sort_rems, distribute, split_limit,
}
use kube_headroom.Controller.PodInput.Amounts.{sum_values, AllAmounts}
use kube_headroom.Controller.PodInput.Shares.{
  request_of, requests_sum, AreRequests, sum_requests_lem, shares_sum, shares_sum-le,
}
use kube_headroom.Controller.PodInput.Deal.{Dealt, sort_rems_lem, distribute_lem}
use kube_headroom.Controller.PodInput.First.{
  UniqueNames, Absent, Covered, no_floors-IsBuilt, IsBuilt, Built, floors_lem,
}

pub Absent-nil : (rcs : List ResizableContainer) → Absent [] rcs
Absent-nil [] = tt
Absent-nil (c ∷ rcs) = (refl, Absent-nil rcs)

Covered-Dealt :
    (m m' : GoMap ℤ) (n : ℕ) (rcs : List ResizableContainer)
    → Dealt m m' n
    → Covered m rcs
    → Covered m' rcs
Covered-Dealt m m' n [] d cs = tt
Covered-Dealt m m' n (c ∷ rcs) d (inl (z, e), cs) =
    (inl (z, d.absent c.name e), Covered-Dealt m m' n rcs d cs)
Covered-Dealt m m' n (c ∷ rcs) d (inr (h, covers), cs) =
    (inr (h, d.keeps c.name (request_of c) covers), Covered-Dealt m m' n rcs d cs)

-- What splitLimit promises: amounts that add up to the target, each container with a request at
-- least at its request, and no entry for a container without one.
pub record IsSplit (target : ℕ) (rcs : List ResizableContainer) (m : GoMap ℤ) : Type 0 where
  pub amounts : AllAmounts m
  pub sum_eq : sum_values m ≡ target
  pub covered : Covered m rcs

module _ (target : ℕ) (rcs : List ResizableContainer) (m m' : GoMap ℤ) where
  IsSplit-Dealt :
      (n : ℕ) → sum_values m + n ≡ target → Covered m rcs → Dealt m m' n → IsSplit target rcs m'
  IsSplit-Dealt n e c d = record {
    amounts = d.amounts;
    sum_eq = omega (arith, d.sum_eq);
    covered = Covered-Dealt m m' n rcs d c;
  }

pub shares_sum-ge :
    (target total : ℕ) (rcs : List ResizableContainer)
    → 0 < total
    → total ≤ target
    → requests_sum rcs ≤ shares_sum target total rcs
shares_sum-ge target total [] pt le = omega arith
shares_sum-ge target total (c ∷ rcs) pt le =
    let r = request_of c in
    omega (
      arith,
      shares_sum-ge target total rcs pt le,
      (le-div_iff_mul-le {k = total} {x = r} {y = target * r} pt).1
          (omega (arith, mul-le-mul_right r le)),
    )

pub length-pos : (rcs : List ResizableContainer) → 0 < requests_sum rcs → (length rcs == 0) ≡ false
length-pos [] h = elim h [ ]
length-pos (c ∷ rcs) h = ground arith

pub total_lem :
    (rcs : List ResizableContainer)
    → AreRequests rcs
    → requests_sum rcs < 2 ^ 63
    → pod_cpu_request_milli rcs ≡ pos (requests_sum rcs)
unfolding pod_cpu_request_milli
total_lem rcs q fits = sum_requests_lem rcs 0 q (omega arith) ∙ ap pos (omega arith)

-- The code's last step: the leftover dealt out over the remainders, if there is any.
dealt_lem :
    (target : ℕ) (rcs : List ResizableContainer) (f : Floors)
    → IsBuilt f
    → Covered f.out rcs
    → 0 < sum_values f.out
    → sum_values f.out ≤ target
    → target < 2 ^ 63
    → IsSplit target rcs (
        if leb_ℤ (Int64.sub (pos target) f.assigned) (pos 0)
        then f.out
        else distribute (pos_part (Int64.sub (pos target) f.assigned)) 0 (sort_rems f.rems) f.out)
dealt_lem target rcs f built covered some_sum le fits =
    let left : Int64.sub (pos target) f.assigned ≡ pos (target - sum_values f.out) =
      ap (Int64.sub (pos target)) built.assigned_eq ∙ sub_pos target (sum_values f.out) le fits in
    rw left (elim (dec_lt 0 (target - sum_values f.out)) [
      | yes h ↦
          let more : leb_ℤ (pos (target - sum_values f.out)) (pos 0) ≡ false = ground arith in
          let (named, len) = sort_rems_lem f.out f.rems built.named in
          let dealing : 0 < length f.rems = elim built.some_rem [
            | inl e ↦ omega arith
            | inr p ↦ p
          ] in
          rw more (
            IsSplit-Dealt target rcs f.out
              (distribute (target - sum_values f.out) 0 (sort_rems f.rems) f.out)
              (target - sum_values f.out) (omega arith) covered
              (distribute_lem (target - sum_values f.out) 0 (sort_rems f.rems) f.out
                (omega (arith, len)) named built.amounts (omega arith)))
      | no h ↦
          let done : leb_ℤ (pos (target - sum_values f.out)) (pos 0) ≡ true = ground arith in
          rw done (record { amounts = built.amounts; sum_eq = omega arith; covered = covered })
    ])

-- For containers with distinct names and requests that are not negative and not all 0, and a target
-- that is at least the sum of the requests and below 2^52, with target times sum below 2^53,
-- splitLimit gives amounts that add up to the target, each container with a request at least its
-- request, and each container without one no entry.
pub split_limit_lem :
    (target : ℕ) (rcs : List ResizableContainer)
    → UniqueNames rcs
    → AreRequests rcs
    → 0 < requests_sum rcs
    → requests_sum rcs ≤ target
    → target < 2 ^ 52
    → target * requests_sum rcs < 2 ^ 53
    → IsSplit target rcs (split_limit (pos target) rcs)
unfolding split_limit
split_limit_lem target rcs u q pt tt' ht hx =
    let total = requests_sum rcs in
    let shared : shares_sum target total rcs ≤ target =
      le_of_mul-le-mul_right {k = total} (shares_sum-le target total rcs) pt in
    let f = floors (pos target) (pos total) 0 rcs no_floors in
    let b : Built target total tt' pt ht hx rcs no_floors f =
      floors_lem target total tt' pt ht hx 0 rcs no_floors no_floors-IsBuilt (Absent-nil rcs) u q
        (omega arith) (omega arith) in
    let positive : leb_ℤ (pos total) (pos 0) ≡ false = ground arith in
    rw (total_lem rcs q (omega arith), positive, length-pos rcs pt)
      (dealt_lem target rcs f b.built b.covered
        (omega (arith, b.sum_eq, shares_sum-ge target total rcs pt tt')) (omega (arith, b.sum_eq))
        (omega arith))
