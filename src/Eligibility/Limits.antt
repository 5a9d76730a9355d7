-- ===== src/Eligibility/Limits.antt =====
-- PodCurrentLimitMilli against a description: the sum of the limits, unless one is missing.
use kube_headroom.Prelude.{
  ℕ, ◌+◌, ◌^◌, ◌<◌, ◌≡◌, refl, ap, ◌∙◌, Bool, true, false, ◌&&◌, if◌then◌else◌, List, [], ◌∷◌,
  arith, Bool-cases, inl, inr, any,
}
use kube_headroom.Prelude.Int.{ℤ, pos, pos_part, leb_ℤ, ltb_ℤ}
use kube_headroom.Prelude.Int64
use kube_headroom.Policy.Quantize.{add_pos}
use kube_headroom.Eligibility.{ResizableContainer, sum_limits, pod_current_limit_milli}

-- A container with a CPU request and no CPU limit.
abbrev pub is_unlimited : ResizableContainer → Bool
is_unlimited c = ltb_ℤ (pos 0) c.request_milli && leb_ℤ c.limit_milli (pos 0)

-- The sum of the limits of the containers with a request.
abbrev pub limits_sum : List ResizableContainer → ℕ
limits_sum [] = 0
limits_sum (c ∷ rcs) =
    (if ltb_ℤ (pos 0) c.request_milli then pos_part c.limit_milli else 0) + limits_sum rcs

skip_lem : (r : ℤ) → leb_ℤ r (pos 0) ≡ true → ltb_ℤ (pos 0) r ≡ false
skip_lem r e = ground arith

count_lem : (r : ℤ) → leb_ℤ r (pos 0) ≡ false → ltb_ℤ (pos 0) r ≡ true
count_lem r e = ground arith

amount_lem : (v : ℤ) → leb_ℤ v (pos 0) ≡ false → v ≡ pos (pos_part v)
amount_lem v e = ground arith

abbrev answer : List ResizableContainer → ℕ → ℤ
answer rcs n = if any is_unlimited rcs then pos 0 else pos n

sum_limits_lem :
    (rcs : List ResizableContainer) (s : ℕ)
    → s + limits_sum rcs < 2 ^ 63
    → sum_limits (pos s) rcs ≡ answer rcs (s + limits_sum rcs)
unfolding sum_limits
sum_limits_lem [] s fits = ap pos (omega arith)
sum_limits_lem (c ∷ rcs) s fits = elim (Bool-cases (leb_ℤ c.request_milli (pos 0))) [
  | inl none_left ↦
      let skipped = skip_lem c.request_milli none_left in
      let fits' : s + (0 + limits_sum rcs) < 2 ^ 63 = rw skipped at fits in
      rw (none_left, skipped) (sum_limits_lem rcs s (omega arith) ∙ ap (answer rcs) (omega arith))
  | inr requests ↦
      let counted = count_lem c.request_milli requests in
      let fits' : s + (pos_part c.limit_milli + limits_sum rcs) < 2 ^ 63 = rw counted at fits in
      elim (Bool-cases (leb_ℤ c.limit_milli (pos 0))) [
        | inl missing ↦ rw (requests, counted, missing) refl
        | inr limited ↦
            let more : Int64.add (pos s) c.limit_milli ≡ pos (s + pos_part c.limit_milli) =
              ap (Int64.add (pos s)) (amount_lem c.limit_milli limited)
              ∙ add_pos s (pos_part c.limit_milli) (omega arith) in
            rw (requests, counted, limited, more)
              (sum_limits_lem rcs (s + pos_part c.limit_milli) (omega arith)
                ∙ ap (answer rcs) (omega arith))
      ]
]

-- Where the sum of the limits of the containers with a request is below 2^63, PodCurrentLimitMilli
-- is 0 if some container with a request has no limit, and that sum otherwise.
pub pod_current_limit_milli_lem :
    (rcs : List ResizableContainer)
    → limits_sum rcs < 2 ^ 63
    → pod_current_limit_milli rcs ≡ (if any is_unlimited rcs then pos 0 else pos (limits_sum rcs))
unfolding pod_current_limit_milli
pod_current_limit_milli_lem rcs fits =
    sum_limits_lem rcs 0 (omega arith) ∙ ap (answer rcs) (omega arith)
