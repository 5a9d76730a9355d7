-- ===== src/Controller/PodInput/Fair.antt =====
-- splitLimit: each container's amount against its exact share.
use native.Mathlib.Nat.{mul-le-mul_left, le_of_mul-le-mul_right}
use mathlib.Core.Path.{subst}
use native.Mathlib.Decide.{dec_lt}
use kube_headroom.Prelude.{
  ℕ, ◌+◌, ◌-◌, ◌*◌, ◌^◌, ◌≤◌, ◌<◌, ◌≡◌, refl, ap, sym, ◌∙◌, true, false, if◌then◌else◌, ◌⊎◌, some,
  List, [], ◌∷◌, String, arith, inl, inr, All, length,
}
use kube_headroom.Prelude.Int.{ℤ, pos, pos_part, leb_ℤ}
use kube_headroom.Prelude.Int64
use kube_headroom.Prelude.Text.{lookup}
use kube_headroom.Kube.{GoMap}
use kube_headroom.Policy.Quantize.{sub_pos}
use kube_headroom.Eligibility.{ResizableContainer}
use kube_headroom.Controller.PodInput.{
  Rem, Floors, no_floors, base_share, floors, sort_rems, distribute, split_limit,
}
use kube_headroom.Controller.PodInput.Amounts.{sum_values, amount_eq, lookup-IsAmount}
use kube_headroom.Controller.PodInput.Shares.{
  request_of, requests_sum, AreRequests, share, base_share_lem, shares_sum, shares_sum-le,
}
use kube_headroom.Controller.PodInput.Deal.{Dealt, sort_rems_lem, distribute_lem}
use kube_headroom.Controller.PodInput.First.{
  UniqueNames, no_floors-IsBuilt, IsBuilt, Built, floors_lem,
}
use kube_headroom.Controller.PodInput.Split.{Absent-nil, length-pos, total_lem}
use kube_headroom.Controller.PodInput.Counts.{
  count, amount_of, value, count-sort_rems, distribute-value,
}
use kube_headroom.Controller.PodInput.Near.{
  requested_sum, mentions-UniqueNames, floors-rems, floors-base_share, shares_sum-near,
}

-- Key k holds x or x + 1.
abbrev pub HoldsNear : String → ℕ → GoMap ℤ → Type 0
HoldsNear k x m = (v : ℕ) × (lookup k m ≡ some (pos v)) × (x ≤ v) × (v ≤ x + 1)

-- A single turn of the last loop gives a key at most one.
distribute-HoldsNear :
    (k : String) (x n : ℕ) (rems : List Rem) (m : GoMap ℤ)
    → n ≤ length rems
    → count k rems ≤ 1
    → Dealt m (distribute n 0 rems m) n
    → value k (distribute n 0 rems m) ≤ value k m + count k rems
    → lookup k m ≡ some (pos x)
    → HoldsNear k x (distribute n 0 rems m)
distribute-HoldsNear k x n rems m le once dealt most e =
    let (w, e', low) = dealt.keeps k x (pos x, e, omega arith) in
    let (amount, _) = lookup-IsAmount k w (distribute n 0 rems m) e' dealt.amounts in
    let got : value k (distribute n 0 rems m) ≡ pos_part w = ap amount_of e' in
    let had : value k m ≡ x = ap amount_of e in
    (pos_part w, e' ∙ ap some (amount_eq w amount), low, omega (arith, most, got, had, once))

-- The code's last step, over what the first loop has built.
abbrev last_step : ℕ → Floors → GoMap ℤ
last_step target f =
    if leb_ℤ (Int64.sub (pos target) f.assigned) (pos 0)
    then f.out
    else distribute (pos_part (Int64.sub (pos target) f.assigned)) 0 (sort_rems f.rems) f.out

last_step-HoldsNear :
    (target : ℕ) (f : Floors) (k : String) (x : ℕ)
    → IsBuilt f
    → sum_values f.out ≤ target
    → target < 2 ^ 63
    → target ≤ sum_values f.out + length f.rems
    → count k f.rems ≤ 1
    → lookup k f.out ≡ some (pos x)
    → HoldsNear k x (last_step target f)
last_step-HoldsNear target f k x built le fits near once e =
    let n = target - sum_values f.out in
    let left : Int64.sub (pos target) f.assigned ≡ pos n =
      ap (Int64.sub (pos target)) built.assigned_eq ∙ sub_pos target (sum_values f.out) le fits in
    rw left (elim (dec_lt 0 n) [
      | yes h ↦
          let more : leb_ℤ (pos n) (pos 0) ≡ false = ground arith in
          let (named, len) = sort_rems_lem f.out f.rems built.named in
          let dealt : Dealt f.out (distribute n 0 (sort_rems f.rems) f.out) n =
            distribute_lem n 0 (sort_rems f.rems) f.out (omega (arith, len)) named built.amounts
              (omega arith) in
          let most =
            distribute-value k n 0 (sort_rems f.rems) f.out (omega (arith, len)) named built.amounts
              (omega arith) in
          rw more (
            distribute-HoldsNear k x n (sort_rems f.rems) f.out (omega (arith, len))
              (omega (arith, count-sort_rems k f.rems, once)) dealt (omega (arith, most)) e)
      | no h ↦
          let done : leb_ℤ (pos n) (pos 0) ≡ true = ground arith in
          rw done (x, e, omega arith, omega arith)
    ])

-- Each container with a request holds its exact share or one more.
abbrev pub Fair : ℕ → ℕ → GoMap ℤ → List ResizableContainer → Type 0
Fair target total m = All λ c.
    (leb_ℤ c.request_milli (pos 0) ≡ true) ⊎ HoldsNear c.name (share target total (request_of c)) m

module _ (target total : ℕ) (tt' : total ≤ target) (pt : 0 < total) (ht : target < 2 ^ 52)
    (hx : target * total < 2 ^ 53) (m m' : GoMap ℤ)
    (step : (k : String) (x : ℕ) → lookup k m ≡ some (pos x) → HoldsNear k x m') where
  Fair-shares :
      (rcs : List ResizableContainer)
      → AreRequests rcs
      → requests_sum rcs ≤ total
      → All
          (λ c.
            (leb_ℤ c.request_milli (pos 0) ≡ true)
            ⊎ (lookup c.name m ≡ some (base_share (pos target) c.request_milli (pos total))))
          rcs
      → Fair target total m' rcs
  Fair-shares [] q le hs = tt
  Fair-shares (c ∷ rcs) (q, qs) le (inl z, hs) = (inl z, Fair-shares rcs qs (omega arith) hs)
  Fair-shares (c ∷ rcs) (q, qs) le (inr e, hs) =
      let exact : base_share (pos target) c.request_milli (pos total)
          ≡ pos (share target total (request_of c)) =
        ap (λ x. base_share (pos target) x (pos total)) (amount_eq c.request_milli q)
        ∙ base_share_lem target total (request_of c) tt' pt ht (omega arith)
            (grind (arith, mul-le-mul_left)) in
      (
        inr (step c.name (share target total (request_of c)) (e ∙ ap some exact)),
        Fair-shares rcs qs (omega arith) hs,
      )

-- For containers with distinct names and requests that are not negative and not all 0, and a target
-- that is at least the sum of the requests and below 2^52, with target times sum below 2^53,
-- splitLimit gives each container with a request its exact share of the target without the
-- fraction, or one milli-core more.
pub split_limit-Fair :
    (target : ℕ) (rcs : List ResizableContainer)
    → UniqueNames rcs
    → AreRequests rcs
    → 0 < requests_sum rcs
    → requests_sum rcs ≤ target
    → target < 2 ^ 52
    → target * requests_sum rcs < 2 ^ 53
    → Fair target (requests_sum rcs) (split_limit (pos target) rcs) rcs
unfolding split_limit
split_limit-Fair target rcs u q pt tt' ht hx =
    let total = requests_sum rcs in
    let shared : shares_sum target total rcs ≤ target =
      le_of_mul-le-mul_right {k = total} (shares_sum-le target total rcs) pt in
    let f = floors (pos target) (pos total) 0 rcs no_floors in
    let b : Built target total tt' pt ht hx rcs no_floors f =
      floors_lem target total tt' pt ht hx 0 rcs no_floors no_floors-IsBuilt (Absent-nil rcs) u q
        (omega arith) (omega arith) in
    let near : target ≤ shares_sum target total rcs + requested_sum rcs =
      le_of_mul-le-mul_right {k = total} (shares_sum-near target total rcs pt q) pt in
    let positive : leb_ℤ (pos total) (pos 0) ≡ false = ground arith in
    let same : split_limit (pos target) rcs ≡ last_step target f =
      rw (total_lem rcs q (omega arith), positive, length-pos rcs pt) refl in
    subst (λ m. Fair target total m rcs) (sym same)
      (Fair-shares target total tt' pt ht hx f.out (last_step target f)
        (λ k x e.
          let (len, cnt) = floors-rems (pos target) (pos total) k 0 rcs no_floors in
          last_step-HoldsNear target f k x b.built (omega (arith, b.sum_eq)) (omega arith)
            (omega (arith, b.sum_eq, len, near)) (omega (arith, cnt, mentions-UniqueNames k rcs u))
            e)
        rcs q (omega arith) (floors-base_share (pos target) (pos total) 0 rcs no_floors u))
