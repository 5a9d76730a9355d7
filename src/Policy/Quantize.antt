-- ===== src/Policy/Quantize.antt =====
-- clampAndQuantize: the result against the quantum's grid, and its range.
use native.Mathlib.Nat.{div-mul-le_self, lt-div-mul-add, mul-mod_left}
use kube_headroom.Prelude.{
  ℕ, zero, suc, ◌+◌, ◌-◌, ◌*◌, ◌/◌, ◌%◌, ◌^◌, ◌≤◌, ◌<◌, ◌≡◌, refl, ◌∙◌, ◌⊎◌, inl, inr, ltb,
  if◌then◌else◌, arith,
}
use kube_headroom.Prelude.Int.{pos, ◌+ℤ◌, ◌-ℤ◌, ◌*ℤ◌, quot}
use kube_headroom.Prelude.Int64
use kube_headroom.Policy.{quantize}

-- The nearest multiple of q, halves up.
abbrev pub grid : ℕ → ℕ → ℕ
grid x q = (x + q / 2) / q * q

-- The reference: the nearest multiple of the quantum, one quantum less if that is above h, and the
-- request if that is below it.
unfoldable pub quantized : ℕ → ℕ → ℕ → ℕ → ℕ
quantized x r h q =
    let t = grid x q in
    let stepped = (if ltb h t then t - q else t) in if ltb stepped r then r else stepped

pub quot_pos : (a b : ℕ) → quot (pos a) (pos b) ≡ pos (a / b)
unfolding quot
quot_pos a b = refl

pub add_pos : (a b : ℕ) → a + b < 2 ^ 63 → Int64.add (pos a) (pos b) ≡ pos (a + b)
unfolding ◌+ℤ◌
add_pos a b h = Int64.add_exact (pos a) (pos b) (ground arith) ∙ ground arith

pub mul_pos : (a b : ℕ) → a * b < 2 ^ 63 → Int64.mul (pos a) (pos b) ≡ pos (a * b)
unfolding ◌*ℤ◌
mul_pos a b h = Int64.mul_exact (pos a) (pos b) (ground arith) ∙ ground arith

pub sub_pos : (a b : ℕ) → b ≤ a → a < 2 ^ 63 → Int64.sub (pos a) (pos b) ≡ pos (a - b)
unfolding ◌-ℤ◌
sub_pos a b h f = Int64.sub_exact (pos a) (pos b) (ground arith) ∙ ground arith

multiple-cases : (a q : ℕ) → (a * q ≡ 0) ⊎ ((q ≤ a * q) × ((a * q - q) % q ≡ 0))
multiple-cases zero q = inl (omega arith)
multiple-cases (suc a) q =
    let e : suc a * q - q ≡ a * q = omega arith in inr (omega arith, rw e (mul-mod_left a q))

pub quantize-pos :
    (x r h q : ℕ)
    → 0 < q
    → x ≤ h
    → h + q < 2 ^ 63
    → quantize (pos x) (pos r) (pos h) (pos q) ≡ pos (quantized x r h q)
unfolding quantize quantized
quantize-pos x r h q pq xh fits =
    let half : q / 2 ≤ q = omega arith in
    let t : grid x q ≤ x + q / 2 = div-mul-le_self (x + q / 2) q in
    rw
      (
        quot_pos q 2,
        add_pos x (q / 2) (omega arith),
        quot_pos (x + q / 2) q,
        mul_pos ((x + q / 2) / q) q (omega arith),
      )
      (ground (arith, multiple-cases ((x + q / 2) / q) q, sub_pos (grid x q) q))

-- What the rounding keeps: the range, the distance, and the grid (unless the result is the request).
module _ (x r h q : ℕ) (pq : 0 < q) (rx : r ≤ x) (xh : x ≤ h) where
  pub quantized_range : (r ≤ quantized x r h q) × (quantized x r h q ≤ h)
  unfolding quantized
  quantized_range =
      ground (arith, div-mul-le_self (x + q / 2) q, multiple-cases ((x + q / 2) / q) q)

  pub quantized_near : (quantized x r h q ≤ x + q / 2) × (x < quantized x r h q + q)
  unfolding quantized
  quantized_near = ground (
    arith,
    div-mul-le_self (x + q / 2) q,
    lt-div-mul-add {a = x + q / 2} pq,
    multiple-cases ((x + q / 2) / q) q,
  )

  pub quantized_grid : (quantized x r h q ≡ r) ⊎ (quantized x r h q % q ≡ 0)
  unfolding quantized
  quantized_grid =
      ground (arith, mul-mod_left ((x + q / 2) / q) q, multiple-cases ((x + q / 2) / q) q)
