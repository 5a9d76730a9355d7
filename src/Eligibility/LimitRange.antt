-- ===== src/Eligibility/LimitRange.antt =====
-- LimitRangeCapMilli of internal/eligibility/eligibility.go: the largest target that a namespace's
-- LimitRanges admit.
pub mod Ratio
use kube_headroom.Prelude.{
  true, false, ◌||◌, if◌then◌else◌, Option, none, some, List, [], ◌∷◌, length, ◌==◌,
}
use kube_headroom.Prelude.Int.{ℤ, pos, quot, max, ltb_ℤ, leb_ℤ}
use kube_headroom.Prelude.Int64
use kube_headroom.Prelude.Text.{lookup, str_eq}
use kube_headroom.Float
use kube_headroom.Float.{Float64, inf}
use kube_headroom.Kube.{
  Quantity, GoMap, Pod, LimitRangeItem, LimitRange, PodResourcesOptions, ResourceHelper, cpu,
}
use kube_headroom.Eligibility.{ResizableContainer}

-- math.MaxInt64, and the float64 that it converts to.
abbrev pub max_int64 : ℤ
max_int64 = pos 9223372036854775807

abbrev pub max_int64_float : Float64
max_int64_float = Float.of_int max_int64

unfoldable pub ratio_limit_milli : ℤ → ℤ → ℤ
ratio_limit_milli ratio_milli request_milli =
    if Float.le max_int64_float (Float.mul (Float.of_int ratio_milli) (Float.of_int request_milli))
    then max_int64
    else (let limit = quot (Int64.mul ratio_milli request_milli) (pos 1000) in
        let reached =
          Float.mul (Float.div (Float.of_int limit) (Float.of_int request_milli))
            (Float.of_int (pos 1000)) in
        if Float.lt (Float.of_int ratio_milli) reached then Int64.sub limit (pos 1) else limit)

-- The loop of containerRatioCapMilli.
unfoldable pub ratio_cap : List ResizableContainer → ℤ → Float64 → Float64 → Float64
ratio_cap [] ratio_milli total limit = limit
ratio_cap (c ∷ rcs) ratio_milli total limit = ratio_cap rcs ratio_milli total (
    if ltb_ℤ (pos 0) c.request_milli
    then Float.min limit (
        Float.div (Float.mul (Float.of_int (ratio_limit_milli ratio_milli c.request_milli)) total)
          (Float.of_int c.request_milli))
    else limit)

unfoldable pub container_ratio_cap_milli : List ResizableContainer → ℤ → Float64 → Float64
container_ratio_cap_milli rcs ratio_milli total = ratio_cap rcs ratio_milli total (inf false)

-- The figures of the first loop of LimitRangeCapMilli.
pub record Shares : Type 0 where
  pub total : Float64
  pub largest : Float64
  pub untouched : Float64

unfoldable pub count_shares : List ResizableContainer → Shares → Shares
count_shares [] s = s
count_shares (c ∷ rcs) s = count_shares rcs (record {
  total = Float.add s.total (Float.of_int c.request_milli);
  largest = Float.max s.largest (Float.of_int c.request_milli);
  untouched =
      if leb_ℤ c.request_milli (pos 0)
      then Float.add s.untouched (Float.of_int c.limit_milli)
      else s.untouched;
})

abbrev pub no_shares : Shares
no_shares = record {
  total = Float.of_int (pos 0);
  largest = Float.of_int (pos 0);
  untouched = Float.of_int (pos 0);
}

abbrev lower_to : Option Float64 → Float64 → Float64
lower_to none limit = limit
lower_to (some cap) limit = Float.min limit cap

module _ {Q : Type 0} ⦃q : Quantity Q⦄ where
  -- MilliValue of a map's entry for CPU, where it has one.
  unfoldable pub milli_of : GoMap Q → Option ℤ
  milli_of m = elim (lookup "cpu" m) [ none ↦ none | some v ↦ some (q.milli_value v) ]

  -- What one item of a LimitRange admits, by its type.
  unfoldable pub apply_item :
      List ResizableContainer → Shares → ℤ → LimitRangeItem Q → Float64 → Float64
  apply_item rcs s pod_request item limit =
      let max_milli = milli_of item.max_limit in
      let ratio_milli = milli_of item.max_limit_request_ratio in
      if str_eq item.item_type "Container"
      then lower_to
          (elim ratio_milli [
            | none ↦ none
            | some ratio ↦ some (container_ratio_cap_milli rcs ratio s.total)
          ])
          (lower_to
            (elim max_milli [
              | none ↦ none
              | some most ↦ some (Float.div (Float.mul (Float.of_int most) s.total) s.largest)
            ])
            limit)
      else (if str_eq item.item_type "Pod"
          then lower_to
              (elim ratio_milli [
                | none ↦ none
                | some ratio ↦
                    some
                      (Float.sub (Float.of_int (ratio_limit_milli ratio pod_request)) s.untouched)
              ])
              (lower_to
                (elim max_milli [
                  | none ↦ none
                  | some most ↦ some (Float.sub (Float.of_int most) s.untouched)
                ])
                limit)
          else limit)

  unfoldable pub apply_items :
      List ResizableContainer → Shares → ℤ → List (LimitRangeItem Q) → Float64 → Float64
  apply_items rcs s pod_request [] limit = limit
  apply_items rcs s pod_request (item ∷ items) limit =
      apply_items rcs s pod_request items (apply_item rcs s pod_request item limit)

  unfoldable pub apply_ranges :
      List ResizableContainer → Shares → ℤ → List (LimitRange Q) → Float64 → Float64
  apply_ranges rcs s pod_request [] limit = limit
  apply_ranges rcs s pod_request (range ∷ ranges) limit =
      apply_ranges rcs s pod_request ranges (apply_items rcs s pod_request range limit)

abbrev pub request_options : PodResourcesOptions
request_options = record {
  use_status_resources = false;
  in_place_pod_level_resources = false;
  exclude_overhead = true;
}

-- The end of LimitRangeCapMilli: 0 means that no rule bounds CPU.
unfoldable pub cap_of_limit : Float64 → ℤ
cap_of_limit limit =
    if Float.le max_int64_float limit then pos 0 else max (Float.to_int limit) (pos 1)

module _ {Q : Type 0} ⦃q : Quantity Q⦄ ⦃helper : ResourceHelper Q⦄ where
  unfoldable pub limit_range_cap_milli : Pod Q → List ResizableContainer → List (LimitRange Q) → ℤ
  limit_range_cap_milli pod rcs limit_ranges =
      let s = count_shares rcs no_shares in
      if Float.le s.total (Float.of_int (pos 0)) || length limit_ranges == 0
      then pos 0
      else (let pod_request = q.milli_value (cpu (helper.pod_requests pod request_options)) in
          cap_of_limit (apply_ranges rcs s pod_request limit_ranges (inf false)))
