-- ===== src/Policy/Monotone.antt =====
-- Targets under more slack.
use native.Mathlib.Nat.{mul-le-mul_right, le-div_iff_mul-le, div-mul-le_self}
use native.Mathlib.Decide.{dec_lt}
use Prim.Native.Nat.{min as nat_min}
use kube_headroom.Prelude.{
  ℕ, zero, suc, ◌+◌, ◌*◌, ◌/◌, ◌^◌, ◌≤◌, ◌<◌, ◌≡◌, ap, sym, arith, ◌⊎◌, inl, inr,
}
use kube_headroom.Prelude.Int.{ℤ, pos, pos_part, ◌≤ℤ◌}
use kube_headroom.Float.Quotient.{nearest}
use kube_headroom.Policy.{Config, PodInput, NodeStats, cap_milli, ceiling, target_of}
use kube_headroom.Policy.Quantize.{quantized}
use kube_headroom.Policy.Caps.{HasRoom}
use kube_headroom.Policy.Exact.{OnNode, exact_burst, exact_target, ceiling_of, target_of-exact}

div_mono : (a b k : ℕ) → 0 < k → a ≤ b → a / k ≤ b / k
div_mono a b k h le =
    (le-div_iff_mul-le {k = k} {x = a / k} {y = b} h).1 (omega (arith, div-mul-le_self a k))

-- Two multiples of q are equal, or the larger is at least q more.
apart : (a b q : ℕ) → a ≤ b → (a * q ≡ b * q) ⊎ (a * q + q ≤ b * q)
apart a b q h = elim (dec_lt a b) [
  | yes p ↦ inr (omega (arith, mul-le-mul_right q p))
  | no p ↦ let e : a ≡ b = omega arith in inl (ap (λ (x : ℕ). x * q) e)
]

quantized_mono : (x y r h q : ℕ) → 0 < q → x ≤ y → quantized x r h q ≤ quantized y r h q
unfolding quantized
quantized_mono x y r h q pq le =
    let i = (x + q / 2) / q in
    let j = (y + q / 2) / q in
    let ij : i ≤ j = div_mono (x + q / 2) (y + q / 2) q pq (omega arith) in
    ground (arith, apart i j q ij)

exact_target_mono : (r b b' h q : ℕ) → b ≤ b' → exact_target r b h q ≤ exact_target r b' h q
unfolding exact_target
exact_target_mono r b b' h zero le = omega arith
exact_target_mono r b b' h (suc q) le =
    quantized_mono (nat_min (r + b) h) (nat_min (r + b') h) r h (suc q) (omega arith) (omega arith)

nearest_mono : (a b d : ℕ) → 0 < d → a ≤ b → nearest a d ≤ nearest b d
nearest_mono a b d h le = div_mono (2 * a + d) (2 * b + d) (2 * d) (omega arith) (omega arith)

exact_burst_mono :
    (r s s' m n f : ℕ) → 0 < m → 0 < n → s ≤ s' → exact_burst r s m n f ≤ exact_burst r s' m n f
unfolding exact_burst
exact_burst_mono r s s' m n f pm pn le =
    omega
      (arith, nearest_mono (s * r) (s' * r) m pm (mul-le-mul_right r le), nearest_mono s s' n pn le)

-- On a node with slack and managed requests, all figures and the product of slack and request below
-- 2^52, and request, allocatable CPU and quantum below 2^62 together, more slack with the same
-- allocatable CPU, managed requests and managed pods never lowers a pod's target before finalize.
pub target_of_mono :
    (p : PodInput) (s s' : NodeStats) (cfg : Config) (slack slack' managed pods floor r q : ℕ)
    → OnNode s cfg slack managed pods floor
    → OnNode s' cfg slack' managed pods floor
    → s.allocatable_milli ≡ s'.allocatable_milli
    → slack ≤ slack'
    → p.request_milli ≡ pos r
    → cfg.quantum_milli ≡ pos q
    → slack' * r < 2 ^ 52
    → HasRoom r s.allocatable_milli cfg
    → r < 2 ^ 52
    → target_of p s cfg ≤ℤ target_of p s' cfg
target_of_mono p s s' cfg slack slack' managed pods floor r q node node' same le er eq exact room
      small =
    let h = ceiling_of p s cfg in
    let h_eq : ceiling_of p s' cfg ≡ h =
      ap (λ (x : ℤ). pos_part (ceiling p.request_milli x (cap_milli p) cfg)) (sym same) in
    let room' : HasRoom r s'.allocatable_milli cfg = omega (arith, ap pos_part same, room) in
    let less : slack * r < 2 ^ 52 = omega (arith, mul-le-mul_right r le, exact) in
    rw
      (
        target_of-exact p s cfg slack managed pods floor node r q er eq less room small,
        target_of-exact p s' cfg slack' managed pods floor node' r q er eq exact room' small,
        h_eq,
      )
      (omega (
        arith,
        exact_target_mono r (exact_burst r slack managed pods floor)
            (exact_burst r slack' managed pods floor) h q
            (exact_burst_mono r slack slack' managed pods floor node.managed_pos node.pods_pos le),
      ))
