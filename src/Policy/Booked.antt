-- ===== src/Policy/Booked.antt =====
-- The target on a fully booked node.
use mathlib.Core.Path.{ap₂}
use native.Mathlib.Nat.{div-eq_of_lt-le, div-add-mod}
use kube_headroom.Prelude.{
  ℕ, ◌+◌, ◌*◌, ◌/◌, ◌%◌, ◌<◌, ◌≤◌, ◌≡◌, ap, sym, ◌∙◌, true, false, inl, inr, arith,
}
use kube_headroom.Prelude.Int.{ℤ, pos, pos_part, ◌≤ℤ◌, min, max}
use kube_headroom.Policy.{
  Config, PodInput, NodeStats, decide, target_of, is_booked, cap_milli, clamp_and_quantize,
}
use kube_headroom.Policy.Quantize.{quantized, quantize-pos, quantized_range, quantized_near}
use kube_headroom.Policy.Caps.{HasRoom, ceiling-pos}
use kube_headroom.Policy.Bounds.{decide-cases}

clipped_self : (r h : ℕ) → r ≤ h → min (max (pos r) (pos r)) (pos h) ≡ pos r
unfolding min max
clipped_self r h rh = ground arith

clamp-request :
    (r q : ℕ) (a c : ℤ) (cfg : Config)
    → 0 < q
    → cfg.quantum_milli ≡ pos q
    → HasRoom r a cfg
    → (h : ℕ) × (r ≤ h) × (clamp_and_quantize (pos r) (pos r) a c cfg ≡ pos (quantized r r h q))
unfolding clamp_and_quantize
clamp-request r q a c cfg pq eq room =
    let (h, e, rh, ha) = ceiling-pos r a c cfg in
    (
      h,
      rh,
      simp (e, clipped_self r h rh, eq)
          (quantize-pos r r h q pq rh (omega (arith, ap pos_part eq))),
    )

div-on_grid : (r q : ℕ) → 0 < q → r % q ≡ 0 → r / q ≡ (r + q / 2) / q
div-on_grid r q pq on_grid =
    sym (div-eq_of_lt-le q (omega (arith, div-add-mod r q)) (omega (arith, div-add-mod r q)))

quantized_self : (r h q : ℕ) → 0 < q → r ≤ h → r % q ≡ 0 → quantized r r h q ≡ r
unfolding quantized
quantized_self r h q pq rh on_grid =
    let e : r / q ≡ (r + q / 2) / q = div-on_grid r q pq on_grid in
    let e' : r / q * q ≡ r = omega (arith, div-add-mod r q) in rw (← e, e') (ground arith)

module _ (p : PodInput) (s : NodeStats) (cfg : Config) (r q : ℕ) (booked : is_booked s ≡ true)
    (plain : p.above_request ≡ false) (er : p.request_milli ≡ pos r)
    (eq : cfg.quantum_milli ≡ pos q) (pq : 0 < q) (room : HasRoom r s.allocatable_milli cfg) where
  target-request :
      (h : ℕ) × (r ≤ h) × ((decide p s cfg).target_limit_milli ≡ pos (quantized r r h q))
  unfolding target_of
  target-request =
      let a = s.allocatable_milli in
      let c = cap_milli p in
      let (h, rh, e) = clamp-request r q a c cfg pq eq room in
      elim (decide-cases p s cfg) [
        | inr (_, lift) ↦ cc
        | inl (t, _) ↦
            (h, rh, t ∙ (rw booked (ap₂ (λ (x y : ℤ). clamp_and_quantize x y a c cfg) er er ∙ e)))
      ]

  -- On a fully booked node, for a pod whose limit may equal its request, with a request that is not
  -- negative, a positive quantum and request, allocatable CPU and quantum below 2^62 together, the
  -- target that decide gives is at least the request and at most half a quantum above it.
  pub decide_booked :
      (pos r ≤ℤ (decide p s cfg).target_limit_milli)
      × ((decide p s cfg).target_limit_milli ≤ℤ pos (r + q / 2))
  decide_booked =
      let (h, rh, e) = target-request in
      rw e (
        omega (
          arith,
          quantized_range r r h q pq (omega arith) rh,
          quantized_near r r h q pq (omega arith) rh,
        ))

  -- On a fully booked node, for a pod whose limit may equal its request, with a positive quantum, a
  -- request that is a multiple of the quantum and request, allocatable CPU and quantum below 2^62
  -- together, the target that decide gives is the request.
  pub decide_booked_on_grid : r % q ≡ 0 → (decide p s cfg).target_limit_milli ≡ pos r
  decide_booked_on_grid on_grid =
      let (h, rh, e) = target-request in e ∙ ap pos (quantized_self r h q pq rh on_grid)
