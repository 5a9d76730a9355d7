-- ===== src/Policy/Exact.antt =====
-- The float64 arithmetic of decide against exact arithmetic on integers.
use mathlib.Core.Path.{ap₂}
use Prim.Native.Nat.{min as nat_min, max as nat_max}
use kube_headroom.Prelude.{ℕ, zero, suc, ◌+◌, ◌*◌, ◌^◌, ◌≤◌, ◌<◌, ◌≡◌, ap, ◌∙◌, false, arith}
use kube_headroom.Prelude.Int.{ℤ, pos, pos_part, min, max}
use kube_headroom.Prelude.Int64
use kube_headroom.Float
use kube_headroom.Float.Quotient.{nearest, nearest-le}
use kube_headroom.Float.Laws.{
  Rounds, max-Rounds, min-Rounds, share-Rounds, quotient-Rounds, of_int-Rounds,
}
use kube_headroom.Policy.{
  Config, PodInput, NodeStats, cap_milli, ceiling, quantize, clamp_and_quantize, burst, target_of,
  is_booked,
}
use kube_headroom.Policy.Quantize.{add_pos, quantized, quantize-pos}
use kube_headroom.Policy.Caps.{HasRoom, ceiling-pos, quantize-off}

-- The burst in exact arithmetic: the share slack * r / managed of the slack, or the floor if that is
-- more, each to the nearest milli-core.
unfoldable pub exact_burst : ℕ → ℕ → ℕ → ℕ → ℕ → ℕ
exact_burst r slack managed pods floor =
    nat_max (nearest (slack * r) managed) (nat_min floor (nearest slack pods))

-- A node with slack, in natural numbers below 2^52.
pub record OnNode (s : NodeStats) (cfg : Config) (slack managed pods floor : ℕ) : Type 0 where
  pub slack_eq : s.slack_milli ≡ pos slack
  pub managed_eq : s.managed_requests_milli ≡ pos managed
  pub pods_eq : s.managed_pods ≡ pos pods
  pub floor_eq : cfg.min_burst_floor_milli ≡ pos floor
  pub slack_pos : 0 < slack
  pub managed_pos : 0 < managed
  pub pods_pos : 0 < pods
  pub slack_lt : slack < 2 ^ 52
  pub managed_lt : managed < 2 ^ 52
  pub pods_lt : pods < 2 ^ 52
  pub floor_lt : floor < 2 ^ 52

module _ (s : NodeStats) (cfg : Config) (slack managed pods floor : ℕ)
    (node : OnNode s cfg slack managed pods floor) (r : ℕ) (small : r < 2 ^ 52)
    (exact : slack * r < 2 ^ 52) where
  burst-Rounds : Rounds (burst (pos r) s cfg) (exact_burst r slack managed pods floor)
  unfolding burst exact_burst
  burst-Rounds =
      let n = node in
      rw (n.slack_eq, n.managed_eq, n.pods_eq, n.floor_eq)
        (max-Rounds
          (share-Rounds slack r managed (omega arith) (omega arith) exact n.managed_pos
            (omega arith))
          (min-Rounds (of_int-Rounds floor n.floor_lt)
            (quotient-Rounds slack pods n.slack_lt n.pods_pos (omega arith))))

  -- The float64 code computes the exactly rounded burst.
  pub to_int-burst :
      Float.to_int (Float.round (burst (pos r) s cfg))
      ≡ pos (exact_burst r slack managed pods floor)
  to_int-burst = let (m, k, e, h) = burst-Rounds in rw e h

  exact_burst-lt : exact_burst r slack managed pods floor < 2 ^ 53
  unfolding exact_burst
  exact_burst-lt =
      let n = node in
      omega (
        arith,
        nearest-le (slack * r) managed n.managed_pos,
        nearest-le slack pods n.pods_pos,
        n.slack_lt,
        exact,
      )

-- The target in exact arithmetic, from the request r, the burst b, the ceiling h and the quantum q.
unfoldable pub exact_target : ℕ → ℕ → ℕ → ℕ → ℕ
exact_target r b h zero = nat_min (r + b) h
exact_target r b h (suc q) = quantized (nat_min (r + b) h) r h (suc q)

quantize-exact :
    (r b h q : ℕ)
    → r ≤ h
    → h + q < 2 ^ 63
    → quantize (pos (nat_min (r + b) h)) (pos r) (pos h) (pos q) ≡ pos (exact_target r b h q)
unfolding exact_target
quantize-exact r b h zero rh fits = quantize-off _ (pos r) (pos h) (pos 0) (omega arith)
quantize-exact r b h (suc q) rh fits =
    quantize-pos (nat_min (r + b) h) r h (suc q) (omega arith) (omega arith) fits

clipped-exact :
    (r b h : ℕ) → r ≤ h → min (max (pos (r + b)) (pos r)) (pos h) ≡ pos (nat_min (r + b) h)
unfolding min max
clipped-exact r b h rh = ground arith

clamp-exact :
    (r b h q : ℕ) (a c : ℤ) (cfg : Config)
    → ceiling (pos r) a c cfg ≡ pos h
    → cfg.quantum_milli ≡ pos q
    → r ≤ h
    → h + q < 2 ^ 63
    → clamp_and_quantize (pos (r + b)) (pos r) a c cfg ≡ pos (exact_target r b h q)
unfolding clamp_and_quantize
clamp-exact r b h q a c cfg e eq rh fits =
    simp (e, clipped-exact r b h rh, eq) (quantize-exact r b h q rh fits)

not_booked :
    (s : NodeStats) (slack managed : ℕ)
    → s.slack_milli ≡ pos slack
    → s.managed_requests_milli ≡ pos managed
    → 0 < slack
    → 0 < managed
    → is_booked s ≡ false
not_booked s slack managed e e' h h' = rw (e, e') (ground arith)

-- The ceiling of decide, as a natural number.
abbrev pub ceiling_of : PodInput → NodeStats → Config → ℕ
ceiling_of p s cfg = pos_part (ceiling p.request_milli s.allocatable_milli (cap_milli p) cfg)

module _ (p : PodInput) (s : NodeStats) (cfg : Config) (slack managed pods floor : ℕ)
    (node : OnNode s cfg slack managed pods floor) (r q : ℕ) (er : p.request_milli ≡ pos r)
    (eq : cfg.quantum_milli ≡ pos q) (exact : slack * r < 2 ^ 52)
    (room : HasRoom r s.allocatable_milli cfg) (small : r < 2 ^ 52) where
  -- On a node with slack and managed requests, all figures and the product of slack and request
  -- below 2^52, and request, allocatable CPU and quantum below 2^62 together, the target that the
  -- float64 code computes before finalize is the one of an integer description: the request plus
  -- the burst rounded to the nearest milli-core, halves up, clamped to the ceiling and quantized.
  pub target_of-exact :
      target_of p s cfg
      ≡ pos (exact_target r (exact_burst r slack managed pods floor) (ceiling_of p s cfg) q)
  unfolding target_of
  target_of-exact =
      let b = exact_burst r slack managed pods floor in
      let a = s.allocatable_milli in
      let c = cap_milli p in
      let (h, e, rh, ha) = ceiling-pos r a c cfg in
      let fits : h + q < 2 ^ 63 = omega (arith, ap pos_part eq) in
      let h_eq : ceiling_of p s cfg ≡ h =
        ap (λ (x : ℤ). pos_part (ceiling x a c cfg)) er ∙ ap pos_part e in
      let burst_eq : Float.to_int (Float.round (burst p.request_milli s cfg)) ≡ pos b =
        ap (λ (x : ℤ). Float.to_int (Float.round (burst x s cfg))) er
        ∙ to_int-burst s cfg slack managed pods floor node r small exact in
      let raw_eq : Int64.add p.request_milli
            (Float.to_int (Float.round (burst p.request_milli s cfg)))
          ≡ pos (r + b) =
        ap₂ Int64.add er burst_eq
        ∙ add_pos r b
            (omega (arith, exact_burst-lt s cfg slack managed pods floor node r small exact)) in
      rw
        (
          not_booked s slack managed node.slack_eq node.managed_eq node.slack_pos node.managed_pos,
          raw_eq,
          h_eq,
        )
        (ap (λ (x : ℤ). clamp_and_quantize (pos (r + b)) x a c cfg) er
          ∙ clamp-exact r b h q a c cfg e eq rh fits)
