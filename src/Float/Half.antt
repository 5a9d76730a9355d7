-- ===== src/Float/Half.antt =====
-- Rounding below half of an integer.
use native.Mathlib.Nat.{mul-le-mul_right, div-mul-le_self, div-add-mod, pow-suc}
use kube_headroom.Prelude.{
  ℕ, zero, suc, ◌+◌, ◌*◌, ◌/◌, ◌%◌, ◌^◌, ◌≤◌, ◌<◌, ◌≡◌, refl, Bool, false, leb, ◌==◌, arith,
  Bool-cases, inl, inr, lt→leb,
}
use kube_headroom.Float.{fin, places, nearest_even, rounded, rounded_small}
use kube_headroom.Float.Round.{pow_pos}
use kube_headroom.Float.Quotient.{rounded-zero, lt_of_mul-lt}

nearest_even-le : (x d y : ℕ) → 0 < d → x ≤ y * d → nearest_even x d ≤ y
unfolding nearest_even
nearest_even-le x d y p h =
    let q = x / d in
    let low : q < y + 1 = lt_of_mul-lt q (y + 1) d (omega (arith, div-mul-le_self x d)) in
    let up : 0 < x % d → q < y =
      λ (some_left : 0 < x % d). lt_of_mul-lt q y d (omega (arith, div-add-mod x d)) in
    ground arith

places-ge : (f n d k : ℕ) → k ≤ places f n d k
unfolding places
places-ge zero n d k = omega arith
places-ge (suc f) n d k = elim (Bool-cases (leb (2 ^ 52 * d) n)) [
  | inl e ↦ rw e (omega arith)
  | inr e ↦ rw e (omega (arith, places-ge f (n * 2) d (suc k)))
]

places-pos : (f n d : ℕ) → n < 2 ^ 52 * d → 0 < places (suc f) n d 0
unfolding places
places-pos f n d h =
    let e : leb (2 ^ 52 * d) n ≡ false = lt→leb _ _ h in
    rw e (omega (arith, places-ge f (n * 2) d 1))

half-pow :
    (n d b k : ℕ) → 0 < d → 0 < k → 2 * n ≤ b * d → 2 * nearest_even (n * 2 ^ k) d ≤ b * 2 ^ k
half-pow n d b zero p pk h = absurd (omega arith)
half-pow n d b (suc k) p pk h =
    let scaled : 2 * n * 2 ^ k ≤ b * d * 2 ^ k = mul-le-mul_right (2 ^ k) h in
    let e : 2 ^ suc k ≡ 2 ^ k * 2 = pow-suc 2 k in
    let le : nearest_even (n * 2 ^ suc k) d ≤ b * 2 ^ k =
      nearest_even-le (n * 2 ^ suc k) d (b * 2 ^ k) p (rw e (omega (arith, scaled))) in
    rw e (omega (arith, (rw e at le)))

-- A fraction of at most b/2 rounds to a value of at most b/2.
pub half-rounded :
    (s : Bool) (n d b : ℕ)
    → 0 < d
    → b < 2 ^ 53
    → 2 * n ≤ b * d
    → (m : ℕ) × (k : ℕ) × (rounded s n d ≡ fin s m k) × (2 * m ≤ b * 2 ^ k)
unfolding rounded rounded_small
half-rounded s zero d b p hb h = (0, 0, rounded-zero s d, omega arith)
half-rounded s (suc n) d b p hb h =
    let small : suc n < 2 ^ 52 * d = omega (arith, mul-le-mul_right d hb) in
    let k = places 1074 (suc n) d 0 in
    let e : (suc n == 0) ≡ false = ground arith in
    let e' : leb (2 ^ 53 * d) (suc n) ≡ false = lt→leb _ _ (omega arith) in
    (
      nearest_even (suc n * 2 ^ k) d,
      k,
      rw (e, e') refl,
      half-pow (suc n) d b k p (places-pos 1073 (suc n) d small) h,
    )

-- Dropping its fraction keeps it there.
pub half-div : (m b k : ℕ) → 2 * m ≤ b * 2 ^ k → 2 * (m / 2 ^ k) ≤ b
half-div m b k h =
    let q = m / 2 ^ k in
    let floor : q * 2 ^ k ≤ m = div-mul-le_self m (2 ^ k) in
    let double : 2 * q < b + 1 =
      lt_of_mul-lt (2 * q) (b + 1) (2 ^ k) (omega (arith, floor, h, pow_pos k)) in
    omega (arith, double)
