-- ===== src/Float/Laws.antt =====
-- What the float code of the policy computes, in integers: products and quotients of int64 values
-- below 2^53, and math.Max and math.Min under math.Round.
use mathlib.Core.Path.{ap₂}
use native.Mathlib.Nat.{
  mul-le-mul_right, le_of_mul-le-mul_right, le-div_iff_mul-le, div-mul-le_self, div-one,
}
use kube_headroom.Prelude.{
  ℕ, zero, suc, ◌+◌, ◌*◌, ◌^◌, ◌≤◌, ◌<◌, ◌≡◌, refl, ap, ◌∙◌, false, ltb, ◌==◌, ◌&&◌, ◌⊎◌, arith,
  Bool-cases, inl, inr,
}
use Prim.Native.Nat.{min as nat_min, max as nat_max}
use kube_headroom.Prelude.Int.{pos}
use kube_headroom.Float.{
  Float64, fin, places, nearest_even, rounded, to_int, round, of_int, mul, div, math_max, math_min,
  max, min, lt, is_nan, is_zero, sign_bit,
}
use kube_headroom.Float.Round.{pow_pos, rounded-scale}
use kube_headroom.Float.Quotient.{to_int-round-rounded, nearest, rounded_lem, rounded-zero}

of_int_pos : (n : ℕ) → of_int (pos n) ≡ rounded false n 1
unfolding of_int
of_int_pos n = refl

positive : (n : ℕ) → 0 < n → (n == 0) ≡ false
positive n h = ground arith

nearest_even-one : (x : ℕ) → nearest_even x 1 ≡ x
unfolding nearest_even
nearest_even-one x = ground (arith, div-one x)

-- An integer below 2^53 is exact.
pub of_int_fin : (n : ℕ) → n < 2 ^ 53 → (k : ℕ) × (of_int (pos n) ≡ fin false (n * 2 ^ k) k)
unfolding of_int
of_int_fin zero h = (0, rounded-zero false 1)
of_int_fin (suc n) h =
    let k = places 1074 (suc n) 1 0 in
    (
      k,
      rounded_lem (suc n) 1 (omega arith) (omega arith) h
          ∙ ap (λ x. fin false x k) (nearest_even-one (suc n * 2 ^ k)),
    )

-- The product of two integers below 2^53 is their exact product, rounded once.
pub mul-of_int :
    (a b : ℕ)
    → a < 2 ^ 53
    → b < 2 ^ 53
    → mul (of_int (pos a)) (of_int (pos b)) ≡ of_int (pos (a * b))
unfolding mul
mul-of_int a b ha hb =
    let (k, e) = of_int_fin a ha in
    let (l, e') = of_int_fin b hb in
    let c = 2 ^ k * 2 ^ l in
    let p : a * 2 ^ k * (b * 2 ^ l) ≡ a * b * c = omega arith in
    let q : c ≡ 1 * c = omega arith in
    rw (e, e', of_int_pos (a * b))
      (ap₂ (rounded false) p q ∙ rounded-scale false (a * b) 1 c (grind (arith, pow_pos)))

-- The quotient of two integers below 2^53 is their exact quotient, rounded once.
pub div-of_int :
    (a b : ℕ)
    → a < 2 ^ 53
    → 0 < b
    → b < 2 ^ 53
    → div (of_int (pos a)) (of_int (pos b)) ≡ rounded false a b
unfolding div
div-of_int a b ha p hb =
    let (k, e) = of_int_fin a ha in
    let (l, e') = of_int_fin b hb in
    let c = 2 ^ k * 2 ^ l in
    let x : a * 2 ^ k * 2 ^ l ≡ a * c = omega arith in
    let y : b * 2 ^ l * 2 ^ k ≡ b * c = omega arith in
    let z : (b * 2 ^ l == 0) ≡ false = positive (b * 2 ^ l) (grind (arith, pow_pos)) in
    rw (e, e', z) (ap₂ (rounded false) x y ∙ rounded-scale false a b c (grind (arith, pow_pos)))

nearest_mono : (m k n l : ℕ) → m * 2 ^ l ≤ n * 2 ^ k → nearest m (2 ^ k) ≤ nearest n (2 ^ l)
nearest_mono m k n l h =
    let x = nearest m (2 ^ k) in
    let below : x * (2 * 2 ^ k) * 2 ^ l ≤ (2 * m + 2 ^ k) * 2 ^ l =
      mul-le-mul_right (2 ^ l) (div-mul-le_self (2 * m + 2 ^ k) (2 * 2 ^ k)) in
    (le-div_iff_mul-le {k = 2 * 2 ^ l} {x = x} {y = 2 * n + 2 ^ l} (omega (arith, pow_pos l))).1
      (le_of_mul-le-mul_right {k = 2 ^ k} (omega arith) (pow_pos k))

to_int-eq : (m a : ℕ) → to_int (fin false m 0) ≡ pos a → a ≡ m
unfolding to_int
to_int-eq m a h = ground (arith, div-one m)

-- Which of two float64s math.Max and math.Min return.
module _ (m k n l : ℕ) where
  math_max-cases :
      let r = math_max (fin false m k) (fin false n l) in
      ((r ≡ fin false m k) × (n * 2 ^ k ≤ m * 2 ^ l))
      ⊎ ((r ≡ fin false n l) × (m * 2 ^ l ≤ n * 2 ^ k))
  unfolding math_max max lt is_nan is_zero sign_bit
  math_max-cases = elim (Bool-cases ((m == 0) && (n == 0))) [
    | inl e ↦
        let zeros : (m ≡ 0) × (n ≡ 0) = ground arith in
        inl (rw e, rw (zeros.0, zeros.1) (omega arith))
    | inr e ↦ elim (Bool-cases (ltb (n * 2 ^ k + 0) (m * 2 ^ l + 0))) [
      | inl t ↦ inl (rw (e, t), ground arith)
      | inr t ↦ inr (rw (e, t), ground arith)
    ]
  ]

  math_min-cases :
      let r = math_min (fin false m k) (fin false n l) in
      ((r ≡ fin false m k) × (m * 2 ^ l ≤ n * 2 ^ k))
      ⊎ ((r ≡ fin false n l) × (n * 2 ^ k ≤ m * 2 ^ l))
  unfolding math_min min lt is_nan is_zero sign_bit
  math_min-cases = elim (Bool-cases ((m == 0) && (n == 0))) [
    | inl e ↦
        let zeros : (m ≡ 0) × (n ≡ 0) = ground arith in
        inr (rw e, rw (zeros.0, zeros.1) (omega arith))
    | inr e ↦ elim (Bool-cases (ltb (m * 2 ^ l + 0) (n * 2 ^ k + 0))) [
      | inl t ↦ inl (rw (e, t), ground arith)
      | inr t ↦ inr (rw (e, t), ground arith)
    ]
  ]

round-eq : (m k a : ℕ) → to_int (round (fin false m k)) ≡ pos a → a ≡ nearest m (2 ^ k)
unfolding round
round-eq m k a e = to_int-eq (nearest m (2 ^ k)) a e

module _ (m k n l a b : ℕ) (ea : to_int (round (fin false m k)) ≡ pos a)
    (eb : to_int (round (fin false n l)) ≡ pos b) where
  -- Rounding the larger of two float64s gives the larger of the two rounded.
  pub round-math_max : to_int (round (math_max (fin false m k) (fin false n l))) ≡ pos (nat_max a b)
  round-math_max = elim (math_max-cases m k n l) [
    | inl (e, h) ↦
        rw (e, ea)
          (ap pos (omega (arith, nearest_mono n l m k h, round-eq m k a ea, round-eq n l b eb)))
    | inr (e, h) ↦
        rw (e, eb)
          (ap pos (omega (arith, nearest_mono m k n l h, round-eq m k a ea, round-eq n l b eb)))
  ]

  pub round-math_min : to_int (round (math_min (fin false m k) (fin false n l))) ≡ pos (nat_min a b)
  round-math_min = elim (math_min-cases m k n l) [
    | inl (e, h) ↦
        rw (e, ea)
          (ap pos (omega (arith, nearest_mono m k n l h, round-eq m k a ea, round-eq n l b eb)))
    | inr (e, h) ↦
        rw (e, eb)
          (ap pos (omega (arith, nearest_mono n l m k h, round-eq m k a ea, round-eq n l b eb)))
  ]

-- A finite float64 of no sign, and the integer that it rounds to.
abbrev pub Rounds : Float64 → ℕ → Type 0
Rounds x a = (m : ℕ) × (k : ℕ) × (x ≡ fin false m k) × (to_int (round (fin false m k)) ≡ pos a)

pub max-Rounds :
    {x y : Float64} {a b : ℕ} → Rounds x a → Rounds y b → Rounds (math_max x y) (nat_max a b)
max-Rounds {a} {b} (m, k, e, r) (n, l, e', r') = elim (math_max-cases m k n l) [
  | inl (f, _) ↦ (m, k, rw (e, e') f, rw (← f) (round-math_max m k n l a b r r'))
  | inr (f, _) ↦ (n, l, rw (e, e') f, rw (← f) (round-math_max m k n l a b r r'))
]

pub min-Rounds :
    {x y : Float64} {a b : ℕ} → Rounds x a → Rounds y b → Rounds (math_min x y) (nat_min a b)
min-Rounds {a} {b} (m, k, e, r) (n, l, e', r') = elim (math_min-cases m k n l) [
  | inl (f, _) ↦ (m, k, rw (e, e') f, rw (← f) (round-math_min m k n l a b r r'))
  | inr (f, _) ↦ (n, l, rw (e, e') f, rw (← f) (round-math_min m k n l a b r r'))
]

pub rounded_fin :
    (n d : ℕ) → 0 < d → n < 2 ^ 53 → (m : ℕ) × (k : ℕ) × (rounded false n d ≡ fin false m k)
rounded_fin zero d p h = (0, 0, rounded-zero false d)
rounded_fin (suc n) d p h =
    let k = places 1074 (suc n) d 0 in
    (nearest_even (suc n * 2 ^ k) d, k, rounded_lem (suc n) d (omega arith) p h)

pub rounded-Rounds :
    (n d : ℕ) → 0 < d → n < 2 ^ 52 → d < 2 ^ 53 → Rounds (rounded false n d) (nearest n d)
rounded-Rounds n d p hn hd =
    let (m, k, e) = rounded_fin n d p (omega arith) in
    (m, k, e, rw (← e) (to_int-round-rounded n d p hn hd))

pub of_int-Rounds : (n : ℕ) → n < 2 ^ 52 → Rounds (of_int (pos n)) n
of_int-Rounds n h =
    let e : nearest n 1 ≡ n = omega arith in
    rw (of_int_pos n) (rw e at (rounded-Rounds n 1 (omega arith) h (omega arith)))

-- The float64 quotient of a product of integers rounds to the integer nearest to the exact quotient.
pub share-Rounds :
    (a b c : ℕ)
    → a < 2 ^ 53
    → b < 2 ^ 53
    → a * b < 2 ^ 52
    → 0 < c
    → c < 2 ^ 53
    → Rounds (div (mul (of_int (pos a)) (of_int (pos b))) (of_int (pos c))) (nearest (a * b) c)
share-Rounds a b c ha hb hab p hc =
    rw (mul-of_int a b ha hb, div-of_int (a * b) c (omega arith) p hc)
      (rounded-Rounds (a * b) c p hab hc)

pub quotient-Rounds :
    (a c : ℕ)
    → a < 2 ^ 52
    → 0 < c
    → c < 2 ^ 53
    → Rounds (div (of_int (pos a)) (of_int (pos c))) (nearest a c)
quotient-Rounds a c ha p hc = rw (div-of_int a c (omega arith) p hc) (rounded-Rounds a c p ha hc)
