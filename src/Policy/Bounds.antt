-- ===== src/Policy/Bounds.antt =====
-- The range of a target: the request, the caps, and the cap of the namespace's LimitRanges.
use native.Mathlib.Nat.{div-le_self, div-mul-le_self, lt-div-mul-add}
use kube_headroom.Prelude.{
  ℕ, ◌+◌, ◌*◌, ◌/◌, ◌^◌, ◌≤◌, ◌<◌, ◌≡◌, ap, true, false, ◌⊎◌, inl, inr, if◌then◌else◌, arith,
}
use kube_headroom.Prelude.Int.{
  ℤ, pos, pos_part, neg_part, ◌≤ℤ◌, ◌<ℤ◌, min, max, ltb_ℤ, min_le, min-cases,
}
use kube_headroom.Policy.{
  Config, PodInput, NodeStats, ceiling, cap_milli, lifted, finalize, decide, target_of,
}
use kube_headroom.Policy.Quantize.{quot_pos, add_pos, mul_pos}
use kube_headroom.Policy.Caps.{
  WithinCaps, WithinAllCaps, within_all, ceiling-cases, equal_of, WithinCaps-mono, HasRoom,
  clamp_range,
}

module _ (p : PodInput) (s : NodeStats) (cfg : Config) where
  -- Which target a decision carries.
  pub decide-cases :
      (((decide p s cfg).target_limit_milli ≡ target_of p s cfg)
        × ((p.above_request ≡ false) ⊎ (p.request_milli <ℤ target_of p s cfg)))
      ⊎ (((decide p s cfg).target_limit_milli ≡ lifted p cfg) × (p.above_request ≡ true))
  unfolding decide finalize
  decide-cases = ground arith

  pub decide_key : (decide p s cfg).key ≡ p.key
  unfolding decide finalize
  decide_key = ground arith

-- The quantum, at least one milli-core.
abbrev pub grain : Config → ℕ
grain cfg = pos_part (max cfg.quantum_milli (pos 1))

grain_lem :
    (cfg : Config)
    → (max cfg.quantum_milli (pos 1) ≡ pos (grain cfg))
      × (0 < grain cfg)
      × (grain cfg ≤ pos_part cfg.quantum_milli + 1)
unfolding max
grain_lem cfg = ground arith

-- The multiple of the quantum next above the request.
abbrev pub next_multiple : ℕ → ℕ → ℕ
next_multiple r q = (r / q + 1) * q

next_multiple_bounds : (r q : ℕ) → 0 < q → (r < next_multiple r q) × (next_multiple r q ≤ r + q)
next_multiple_bounds r q h = omega (arith, lt-div-mul-add {a = r} h, div-mul-le_self r q)

module _ (p : PodInput) (cfg : Config) (r : ℕ) (er : p.request_milli ≡ pos r)
    (room : r + pos_part cfg.quantum_milli < 2 ^ 62) where
  lifted_lem :
      let t = pos (next_multiple r (grain cfg)) in
      lifted p cfg ≡ (if ltb_ℤ (pos r) p.limit_range_cap then min t p.limit_range_cap else t)
  unfolding lifted
  lifted_lem =
      let q = grain cfg in
      let (e, h, b) = grain_lem cfg in
      let (above, near) = next_multiple_bounds r q h in
      let small : r / q ≤ r = div-le_self r q in
      rw (er, e, quot_pos r q, add_pos (r / q) 1 (omega arith), mul_pos (r / q + 1) q (omega arith))

  pub lifted_range :
      (pos r <ℤ lifted p cfg)
      × (lifted p cfg ≤ℤ pos (r + grain cfg))
      × ((p.limit_range_cap ≤ℤ pos r) ⊎ (lifted p cfg ≤ℤ p.limit_range_cap))
  lifted_range =
      let (above, near) = next_multiple_bounds r (grain cfg) (grain_lem cfg).1 in
      rw lifted_lem (
        ground (
          arith,
          min_le (pos (next_multiple r (grain cfg))) p.limit_range_cap,
          min-cases (pos (next_multiple r (grain cfg))) p.limit_range_cap,
        ))

cap_milli-le :
    (p : PodInput)
    → pos 0 <ℤ p.limit_range_cap
    → (pos 0 <ℤ cap_milli p) × (cap_milli p ≤ℤ p.limit_range_cap)
unfolding cap_milli
cap_milli-le p h = ground arith

raised :
    (t : ℤ) (r b : ℕ) (a c : ℤ) (cfg : Config)
    → pos r <ℤ t
    → (t ≡ pos r) ⊎ WithinCaps t (pos r) a c cfg
    → (t ≤ℤ pos b) ⊎ WithinCaps t (pos r) a c cfg
raised t r b a c cfg h (inl e) = let h' = rw e at h in absurd (omega arith)
raised t r b a c cfg h (inr w) = inr w

module _ (p : PodInput) (s : NodeStats) (cfg : Config) (r : ℕ) (er : p.request_milli ≡ pos r)
    (room : HasRoom r s.allocatable_milli cfg) where
  target_range :
      (pos r ≤ℤ target_of p s cfg)
      × (target_of p s cfg ≤ℤ ceiling (pos r) s.allocatable_milli (cap_milli p) cfg)
  unfolding target_of
  target_range = simp er (clamp_range _ r s.allocatable_milli (cap_milli p) cfg room)

  target-cases :
      (target_of p s cfg ≡ pos r)
      ⊎ WithinCaps (target_of p s cfg) (pos r) s.allocatable_milli (cap_milli p) cfg
  target-cases =
      let (low, high) = target_range in
      elim (ceiling-cases (pos r) s.allocatable_milli (cap_milli p) cfg) [
        | inl e ↦ inl (equal_of _ _ low (rw e at high))
        | inr w ↦ inr (WithinCaps-mono _ _ (pos r) s.allocatable_milli (cap_milli p) cfg high w)
      ]

  -- For a pod whose limit may equal its request (above_request is false), with a request that is
  -- not negative and request, allocatable CPU and quantum below 2^62 together, the target that
  -- decide gives is at least the request, and it is the request or within the allocatable CPU, the
  -- multiple of the request, the user's cap and the cap of the LimitRanges, each where it is in
  -- force.
  pub decide_range :
      p.above_request ≡ false
      → (pos r ≤ℤ (decide p s cfg).target_limit_milli)
        × (((decide p s cfg).target_limit_milli ≡ pos r)
            ⊎ WithinAllCaps (decide p s cfg).target_limit_milli (pos r) s.allocatable_milli p cfg)
  decide_range plain = elim (decide-cases p s cfg) [
    | inl (e, _) ↦
        rw e (target_range.0, within_all _ (pos r) s.allocatable_milli p cfg target-cases)
    | inr (_, lift) ↦ cc
  ]

  -- For a pod whose limit must stay above its request (above_request is true), with a request that
  -- is not negative and request, allocatable CPU and quantum below 2^62 together, the target that
  -- decide gives is above the request, and it is at most a quantum above the request or within the
  -- allocatable CPU, the multiple of the request, the user's cap and the cap of the LimitRanges,
  -- each where it is in force.
  pub decide_above :
      p.above_request ≡ true
      → (pos r <ℤ (decide p s cfg).target_limit_milli)
        × (((decide p s cfg).target_limit_milli ≤ℤ pos (r + grain cfg))
            ⊎ WithinAllCaps (decide p s cfg).target_limit_milli (pos r) s.allocatable_milli p cfg)
  decide_above lift =
      let (over, near, _) = lifted_range p cfg r er (omega arith) in
      elim (decide-cases p s cfg) [
        | inr (e, _) ↦ rw e (over, inl near)
        | inl (e, inl plain) ↦ cc
        | inl (e, inr above) ↦
            let over' : pos r <ℤ target_of p s cfg =
              omega (arith, ap pos_part er, ap neg_part er, above) in
            rw e (
              over',
              within_all _ (pos r) s.allocatable_milli p cfg
                  (raised _ r _ s.allocatable_milli (cap_milli p) cfg over' target-cases),
            )
      ]

  -- For a pod whose request is not negative and below what the namespace's LimitRanges admit, with
  -- request, allocatable CPU and quantum below 2^62 together, the target that decide gives is at
  -- most what they admit.
  pub decide_limit_range :
      pos r <ℤ p.limit_range_cap → (decide p s cfg).target_limit_milli ≤ℤ p.limit_range_cap
  decide_limit_range h =
      let (_, _, admitted) = lifted_range p cfg r er (omega arith) in
      let (some_cap, under) = cap_milli-le p (omega arith) in
      elim (decide-cases p s cfg) [
        | inr (e, _) ↦ rw e (omega arith)
        | inl (e, _) ↦ rw e (elim target-cases [
          | inl e' ↦ rw e' (omega arith)
          | inr w ↦ let c = w.2 in omega arith
        ])
      ]
