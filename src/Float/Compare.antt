-- ===== src/Float/Compare.antt =====
-- Comparing two rounded quotients of integers: the same as comparing the exact quotients, where the
-- cross products are below 2^52.
use mathlib.Core.Path.{ap₂}
use native.Mathlib.Nat.{mul-le-mul_right}
use native.Mathlib.Decide.{dec_lt}
use kube_headroom.Prelude.{
  ◌==◌, refl, ℕ, zero, suc, ◌+◌, ◌-◌, ◌*◌, ◌^◌, ◌≤◌, ◌<◌, ◌≡◌, sym, ◌∙◌, true, false, leb, arith,
  lt→leb, le→leb,
}
use kube_headroom.Prelude.Int.{pos, negsuc}
use kube_headroom.Float.{fin, rounded, rounded_small, le, abs, of_int}
use kube_headroom.Float.Round.{rounded-scale}
use kube_headroom.Float.Quotient.{rounded-zero, lt_of_mul-lt}
use kube_headroom.Float.Laws.{rounded_fin, of_int_fin}
use kube_headroom.Float.Close.{Close, rounded-Close}

-- m/P is a/b and M/Q is n/d, each to 53 bits.
module _ (a b m P n d M Q : ℕ) (pb : 0 < b) (pd : 0 < d)
    (q : (2 ^ 52 * b ≤ a * P) × (2 * (m * b) ≤ 2 * (a * P) + b) × (2 * (a * P) ≤ 2 * (m * b) + b))
    (q' : (2 ^ 52 * d ≤ n * Q) × (2 * (M * d) ≤ 2 * (n * Q) + d) × (2 * (n * Q) ≤ 2 * (M * d) + d))
    (fits : n * b < 2 ^ 52) (small : a * d < 2 ^ 52) where
  -- Quotients that differ stay apart.
  apart : a * d < n * b → m * Q < M * P
  apart h =
      let left : 2 ^ 52 * b * d ≤ a * P * d = mul-le-mul_right d q.0 in
      let left' : a * d * P ≤ (2 ^ 52 - 1) * P = mul-le-mul_right P (omega arith) in
      let right : 2 ^ 52 * d * b ≤ n * Q * b = mul-le-mul_right b q'.0 in
      let right' : n * b * Q ≤ (2 ^ 52 - 1) * Q = mul-le-mul_right Q (omega arith) in
      let some_bd : 1 * d ≤ b * d = mul-le-mul_right d pb in
      let far : b * d + 1 ≤ P = omega arith in
      let far' : b * d + 1 ≤ Q = omega arith in
      let far_Q : (b * d + 1) * Q ≤ P * Q = mul-le-mul_right Q far in
      let far_P : (b * d + 1) * P ≤ Q * P = mul-le-mul_right P far' in
      let up : 2 * (m * b) * (Q * d) ≤ (2 * (a * P) + b) * (Q * d) = mul-le-mul_right (Q * d) q.1 in
      let down : 2 * (n * Q) * (b * P) ≤ (2 * (M * d) + d) * (b * P) =
        mul-le-mul_right (b * P) q'.2 in
      let gap : (a * d + 1) * (P * Q) ≤ n * b * (P * Q) =
        mul-le-mul_right (P * Q) (omega (arith, h)) in
      lt_of_mul-lt (m * Q) (M * P) (b * d) (omega arith)

le_fin : (m k M j : ℕ) → le (fin false m k) (fin false M j) ≡ leb (m * 2 ^ j) (M * 2 ^ k)
unfolding le
le_fin m k M j = ground arith

le_refl : (m k : ℕ) → le (fin false m k) (fin false m k) ≡ true
le_refl m k = le_fin m k m k ∙ le→leb _ _ (omega arith)

-- A positive quotient below 2^52, to 53 bits.
positive_form :
    (n d : ℕ)
    → 0 < n
    → 0 < d
    → n < 2 ^ 52
    → d < 2 ^ 53
    → (m : ℕ) × (k : ℕ) × (rounded false n d ≡ fin false m k) × (2 ^ 52 ≤ m) × Close n d m k
positive_form n d pn p hn hd =
    let (m, k, e, _, big, q) =
      rounded-Close n d pn p (omega (arith, mul-le-mul_right (2 ^ 53) p))
        (omega (arith, mul-le-mul_right (2 ^ 1074) pn)) in
    (m, k, e, big, q)

factor_small : (a d : ℕ) → 0 < d → a * d < 2 ^ 52 → a < 2 ^ 52
factor_small a d p h = omega (arith, mul-le-mul_right a p)

pub le-rounded :
    (a b n d : ℕ)
    → 0 < b
    → 0 < d
    → a * d < 2 ^ 52
    → n * b < 2 ^ 52
    → b < 2 ^ 53
    → d < 2 ^ 53
    → le (rounded false a b) (rounded false n d) ≡ leb (a * d) (n * b)
le-rounded zero b n d pb pd ha hn hb hd =
    let (m, k, e) = rounded_fin n d pd (omega (arith, factor_small n b pb hn)) in
    rw (rounded-zero false b, e, le_fin 0 0 m k) (ground arith)
le-rounded (suc a) b zero d pb pd ha hn hb hd =
    let (m, k, e, big, _) =
      positive_form (suc a) b (omega arith) pb (factor_small (suc a) d pd ha) hb in
    let some_left : leb (suc a * d) (0 * b) ≡ false = lt→leb _ _ (omega (arith, pd)) in
    rw (rounded-zero false d, e, le_fin m k 0 0, some_left) (lt→leb _ _ (omega (arith, big)))
le-rounded (suc a) b (suc n) d pb pd ha hn hb hd =
    let (m, k, e, _, q) =
      positive_form (suc a) b (omega arith) pb (factor_small (suc a) d pd ha) hb in
    let (M, j, e', _, q') =
      positive_form (suc n) d (omega arith) pd (factor_small (suc n) b pb hn) hd in
    elim (dec_lt (suc a * d) (suc n * b)) [
      | yes t ↦
          rw (e, e', le_fin m k M j)
            (le→leb _ _
                (omega (arith, apart (suc a) b m (2 ^ k) (suc n) d M (2 ^ j) pb pd q q' hn ha t))
              ∙ sym (le→leb _ _ (omega (arith, t))))
      | no f ↦ elim (dec_lt (suc n * b) (suc a * d)) [
        | yes t ↦
            rw (e, e', le_fin m k M j)
              (lt→leb _ _ (apart (suc n) d M (2 ^ j) (suc a) b m (2 ^ k) pd pb q' q ha hn t)
                ∙ sym (lt→leb _ _ t))
        | no f' ↦
            let equal : suc a * d ≡ suc n * b = omega arith in
            let scaled : rounded false (suc a * d) (b * d) ≡ rounded false (suc n * b) (d * b) =
              ap₂ (rounded false) equal (omega arith) in
            let same : rounded false (suc a) b ≡ rounded false (suc n) d =
              sym (rounded-scale false (suc a) b d pd)
              ∙ scaled
              ∙ rounded-scale false (suc n) d b pb in
            rw (same, e') (le_refl M j ∙ sym (le→leb _ _ (omega (arith, equal))))
      ]
    ]

-- The magnitude of an integer.
abs-rounded : (n d : ℕ) → 0 < n → n < 2 ^ 53 * d → abs (rounded true n d) ≡ rounded false n d
unfolding abs rounded rounded_small
abs-rounded n d pn h =
    let e : (n == 0) ≡ false = ground arith in
    let e' : leb (2 ^ 53 * d) n ≡ false = lt→leb _ _ h in rw (e, e') refl

pub abs-of_int : (n : ℕ) → n < 2 ^ 53 → abs (of_int (pos n)) ≡ of_int (pos n)
unfolding abs
abs-of_int n h = let (k, e) = of_int_fin n h in rw e refl

pub abs-of_int_neg : (n : ℕ) → suc n < 2 ^ 53 → abs (of_int (negsuc n)) ≡ of_int (pos (suc n))
unfolding of_int
abs-of_int_neg n h = abs-rounded (suc n) 1 (omega arith) (omega arith)
