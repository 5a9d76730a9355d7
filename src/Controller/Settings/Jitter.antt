-- ===== src/Controller/Settings/Jitter.antt =====
-- The jitter of enqueueDelay.
use native.Mathlib.Nat.{mul-le-mul_right}
use kube_headroom.Prelude.{
  ℕ, suc, ◌+◌, ◌-◌, ◌*◌, ◌/◌, ◌^◌, ◌≤◌, ◌<◌, ◌≡◌, refl, ◌∙◌, Bool, true, false, ltb, ◌==◌, ◌&&◌,
  xor, arith, lt→ltb,
}
use kube_headroom.Prelude.Int.{
  ℤ, pos, negsuc, sub_ℕ, ◌+ℤ◌, pos_part, neg_part, +ℤ_parts, eq_of_parts,
}
use kube_headroom.Prelude.Int64
use kube_headroom.Float.{
  Float64, fin, evaluation, rounded, to_int, of_int, of_signed, mul, add, sub, neg,
}
use kube_headroom.Float.Round.{pow_pos}
use kube_headroom.Float.Laws.{of_int_fin}
use kube_headroom.Float.Half.{half-rounded, half-div}
use kube_headroom.Controller.Settings.{enqueue_delay}

-- 1/2 as a float64.
one_half : rounded false 1 2 ≡ fin false (2 ^ 52) 53
unfolding evaluation
one_half = refl

-- A float64 of magnitude at most b/2.
abbrev IsHalf : ℕ → Float64 → Type 0
IsHalf b x = (s : Bool) × (m : ℕ) × (k : ℕ) × (x ≡ fin s m k) × (2 * m ≤ b * 2 ^ k)

of_signed-IsHalf :
    (z : ℤ) (d : ℕ) → 0 < d → 2 * (pos_part z + neg_part z) ≤ 1 * d → IsHalf 1 (of_signed z d)
of_signed-IsHalf (pos n) d p h =
    let (m, k, e, le) = half-rounded false n d 1 p (omega arith) (omega (arith, h)) in
    (false, m, k, e, le)
of_signed-IsHalf (negsuc n) d p h =
    let (m, k, e, le) = half-rounded true (suc n) d 1 p (omega arith) (omega (arith, h)) in
    (true, m, k, e, le)

away : (a c : ℕ) → a ≤ 2 * c → let z = pos a +ℤ sub_ℕ 0 c in pos_part z + neg_part z ≤ c
unfolding ◌+ℤ◌
away a c h = ground arith

-- A fraction in [0, 1) is within 1/2 of 1/2.
sub-IsHalf : (m k : ℕ) → m < 2 ^ k → IsHalf 1 (sub (fin false m k) (rounded false 1 2))
unfolding sub neg add
sub-IsHalf m k h =
    let none_zero : ((m == 0) && (2 ^ 52 == 0)) ≡ false = ground arith in
    rw (one_half, none_zero)
      (of_signed-IsHalf _ (2 ^ k * 2 ^ 53) (omega (arith, pow_pos k))
        (omega (arith, away (m * 2 ^ 53) (2 ^ 52 * 2 ^ k) (omega arith))))

mul-IsHalf : (x : Float64) (b : ℕ) → b < 2 ^ 53 → IsHalf 1 x → IsHalf b (mul x (of_int (pos b)))
unfolding mul
mul-IsHalf x b hb (s, m, k, e, h) =
    let (l, e') = of_int_fin b hb in
    let (m', k', e'', h') =
      half-rounded (xor s false) (m * (b * 2 ^ l)) (2 ^ k * 2 ^ l) b (grind (arith, pow_pos)) hb
        (omega (arith, mul-le-mul_right (b * 2 ^ l) h)) in
    rw (e, e') (xor s false, m', k', e'', h')

-- A float64 of at most b/2 converts to an int64 of at most b/2.
to_int-half :
    (x : Float64) (b : ℕ)
    → b < 2 ^ 53
    → IsHalf b x
    → 2 * (pos_part (to_int x) + neg_part (to_int x)) ≤ b
unfolding to_int
to_int-half x b hb (s, m, k, e, h) =
    let half : 2 * (m / 2 ^ k) ≤ b = half-div m b k h in
    let fits : ltb (m / 2 ^ k) (2 ^ 63) ≡ true = lt→ltb _ _ (omega arith) in
    rw (e, fits) (ground arith)

add-half :
    (base : ℕ) (z : ℤ)
    → base < 2 ^ 53
    → 2 * (pos_part z + neg_part z) ≤ base
    → (n : ℕ) × (Int64.add (pos base) z ≡ pos n) × (base ≤ 2 * n) × (2 * n ≤ 3 * base)
add-half base z hb h =
    let n = base + pos_part z - neg_part z in
    let e : pos base +ℤ z ≡ pos n =
      eq_of_parts (pos base +ℤ z) (pos n) (omega (arith, +ℤ_parts (pos base) z)) in
    (n, Int64.add_exact (pos base) z (rw e (omega arith)) ∙ e, omega arith, omega arith)

-- For a jitter fraction in [0, 1), as a float64 of no sign, and a base delay below 2^53
-- nanoseconds, enqueueDelay is at least half the base delay and at most one and a half of it.
pub enqueue_delay_bounds :
    (m k base : ℕ)
    → m < 2 ^ k
    → base < 2 ^ 53
    → (n : ℕ) × (enqueue_delay (pos base) (fin false m k) ≡ pos n)
      × (base ≤ 2 * n)
      × (2 * n ≤ 3 * base)
unfolding enqueue_delay
enqueue_delay_bounds m k base h hb =
    let shift = mul (sub (fin false m k) (rounded false 1 2)) (of_int (pos base)) in
    add-half base (to_int shift) hb
      (to_int-half shift base hb (mul-IsHalf _ base hb (sub-IsHalf m k h)))
