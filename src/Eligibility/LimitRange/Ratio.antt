-- ===== src/Eligibility/LimitRange/Ratio.antt =====
-- ratioLimitMilli against LimitRanger's float comparison of a limit over its request with the ratio.
use native.Mathlib.Nat.{
  mul-le-mul_right, mul-lt-mul_of_pos_right, le_of_mul-le-mul_right, pow-le-pow_right,
  div-mul-le_self, lt-div-mul-add,
}
use native.Mathlib.Decide.{dec_lt}
use kube_headroom.Prelude.{
  ℕ, zero, suc, ◌+◌, ◌-◌, ◌*◌, ◌/◌, ◌^◌, ◌≤◌, ◌<◌, ◌≡◌, refl, ◌∙◌, Bool, true, false, ltb, arith,
  Bool-cases, inl, inr, lt→ltb, le→ltb, if◌then◌else◌,
}
use kube_headroom.Prelude.Int.{pos, quot, ◌*ℤ◌, ◌-ℤ◌}
use kube_headroom.Prelude.Int64
use kube_headroom.Float
use kube_headroom.Float.{fin, rounded, of_int, mul, div}
use kube_headroom.Float.Round.{pow_pos, rounded-scale, ltb-scale}
use kube_headroom.Float.Laws.{of_int_fin, mul-of_int, div-of_int}
use kube_headroom.Float.Quotient.{rounded-zero}
use kube_headroom.Float.Quotient.{lt_of_mul-lt}
use kube_headroom.Float.Close.{Close, rounded-Close}
use kube_headroom.Eligibility.LimitRange.{ratio_limit_milli, max_int64_float}

-- LimitRanger refuses a limit whose float quotient by the request, in thousandths, is past the ratio.
abbrev pub refuses : ℕ → ℕ → ℕ → Bool
refuses ratio request limit =
    Float.lt (of_int (pos ratio))
      (mul (div (of_int (pos limit)) (of_int (pos request))) (of_int (pos 1000)))

-- A limit over its request is d/D to 53 bits, and a thousand times that is m/K.
module _ (ratio r l d D m K : ℕ) (p : 0 < r) (hl : l < 2 ^ 41)
    (q : (2 ^ 52 * r ≤ l * D)
      × (2 * (d * r) ≤ 2 * (l * D) + r)
      × (2 * (l * D) ≤ 2 * (d * r) + r)) where
  far : 2 ^ 11 * r ≤ D
  far = let h : l * D ≤ 2 ^ 41 * D = mul-le-mul_right D (omega arith) in omega (arith, h, q.0)

  thousands : 1000 * (d * r) ≤ 2 ^ 51 * D
  thousands =
      let h : l * D ≤ (2 ^ 41 - 1) * D = mul-le-mul_right D (omega arith) in
      omega (arith, h, far, q.1)

  small : d * 1000 ≤ 2 ^ 51 * D
  small = omega (arith, mul-le-mul_right (1000 * d) p, thousands)

  module _
      (q' : (2 ^ 52 * D ≤ d * 1000 * K)
        × (2 * (m * D) ≤ 2 * (d * 1000 * K) + D)
        × (2 * (d * 1000 * K) ≤ 2 * (m * D) + D)) where
    -- Well under the ratio, the float quotient is not past it.
    under : 1000 * l + 1000 ≤ ratio * r → m ≤ ratio * K
    under h =
        let scaled : (1000 * l + 1000) * D ≤ ratio * r * D = mul-le-mul_right D h in
        let exact : d * 1000 ≤ ratio * D =
          le_of_mul-le-mul_right {k = r} (omega (arith, scaled, far, q.1)) p in
        let step : d * 1000 * K ≤ ratio * D * K = mul-le-mul_right K exact in
        let pD : 0 < D = omega (arith, far) in
        let near : m < ratio * K + 1 =
          lt_of_mul-lt m (ratio * K + 1) D (omega (arith, step, pD, q'.1)) in
        omega (arith, near)

    -- Past the ratio, so is the float quotient.
    past : ratio * r < 1000 * l → ratio * K < m
    past h =
        let scaled : (ratio * r + 1) * D ≤ 1000 * l * D = mul-le-mul_right D (omega arith) in
        let beyond : 4 * (ratio * r * D) + 3 * D ≤ 4 * (d * 1000 * r) =
          omega (arith, scaled, far, q.2) in
        let beyond_K : (4 * (ratio * r * D) + 3 * D) * K ≤ 4 * (d * 1000 * r) * K =
          mul-le-mul_right K beyond in
        let thousands_K : 1000 * (d * r) * K ≤ 2 ^ 51 * D * K = mul-le-mul_right K thousands in
        let small_K : d * 1000 * K ≤ 2 ^ 51 * D * K = mul-le-mul_right K small in
        let places : 2 ^ 52 * D * r ≤ d * 1000 * K * r = mul-le-mul_right r q'.0 in
        let pD : 0 < D = omega (arith, far) in
        elim (dec_lt (ratio * K) m) [
          | yes t ↦ t
          | no f ↦
              let m_D : m * D ≤ ratio * K * D = mul-le-mul_right D (omega arith) in
              let m_r : 2 * (d * 1000 * K) * r ≤ (2 * (ratio * K * D) + D) * r =
                mul-le-mul_right r (omega (arith, q'.2)) in
              absurd (omega (arith, q'.0))
        ]

lt-of_int : (n m j : ℕ) → n < 2 ^ 53 → Float.lt (of_int (pos n)) (fin false m j) ≡ ltb (n * 2 ^ j) m
unfolding Float.lt
lt-of_int n m j h =
    let (a, e) = of_int_fin n h in
    let left : n * 2 ^ a * 2 ^ j + 0 ≡ n * 2 ^ j * 2 ^ a = omega arith in
    let right : m * 2 ^ a + 0 ≡ m * 2 ^ a = omega arith in
    rw (e, left, right) (ltb-scale (n * 2 ^ j) m (2 ^ a) (pow_pos a))

mul-of_int_fin :
    (d k n : ℕ) → n < 2 ^ 53 → mul (fin false d k) (of_int (pos n)) ≡ rounded false (d * n) (2 ^ k)
unfolding mul
mul-of_int_fin d k n h =
    let (a, e) = of_int_fin n h in
    let s : d * (n * 2 ^ a) ≡ d * n * 2 ^ a = omega arith in
    rw (e, s) (rounded-scale false (d * n) (2 ^ k) (2 ^ a) (pow_pos a))

module _ (r l : ℕ) (p : 0 < r) (hr : r < 2 ^ 53) (pl : 0 < l) (hl : l < 2 ^ 41) where
  -- The two roundings of the float quotient.
  quotient_form :
      (d : ℕ) × (k : ℕ) × (m : ℕ) × (j : ℕ) × (mul
          (div (of_int (pos l)) (of_int (pos r)))
          (of_int (pos 1000))
        ≡ fin false m j)
      × (Close l r d k)
      × (Close (d * 1000) (2 ^ k) m j)
  quotient_form =
      let (d, k, e, deep, big, q) =
        rounded-Close l r pl p (omega (arith, hl, p))
          (omega (arith, mul-le-mul_right (2 ^ 1074) pl)) in
      let top : 2 ^ k ≤ 2 ^ 1074 = pow-le-pow_right (omega arith) deep in
      let full : 2 ^ 52 * 2 ^ 1074 ≤ d * 2 ^ 1074 = mul-le-mul_right (2 ^ 1074) big in
      let (m, j, e', _, _, q') =
        rounded-Close (d * 1000) (2 ^ k) (omega (arith, big)) (pow_pos k)
          (omega (arith, small 0 r l d (2 ^ k) 0 0 p hl q, pow_pos k)) (omega (arith, top, full)) in
      (
        d,
        k,
        m,
        j,
        rw (div-of_int l r (omega arith) p hr, e) (mul-of_int_fin d k 1000 (omega arith) ∙ e'),
        q,
        q',
      )

  module _ (ratio : ℕ) (hq : ratio < 2 ^ 53) where
    refuses-under : 1000 * l + 1000 ≤ ratio * r → refuses ratio r l ≡ false
    refuses-under h =
        let (d, k, m, j, e, q, q') = quotient_form in
        rw e (lt-of_int ratio m j hq ∙ le→ltb _ _ (under ratio r l d (2 ^ k) m (2 ^ j) p hl q q' h))

    refuses-past : ratio * r < 1000 * l → refuses ratio r l ≡ true
    refuses-past h =
        let (d, k, m, j, e, q, q') = quotient_form in
        rw e (lt-of_int ratio m j hq ∙ lt→ltb _ _ (past ratio r l d (2 ^ k) m (2 ^ j) p hl q q' h))

refuses-zero : (ratio r : ℕ) → ratio < 2 ^ 53 → 0 < r → r < 2 ^ 53 → refuses ratio r 0 ≡ false
refuses-zero ratio r hq p hr =
    rw
      (
        div-of_int 0 r (omega arith) p hr,
        rounded-zero false r,
        mul-of_int_fin 0 0 1000 (omega arith),
        rounded-zero false 1,
        lt-of_int ratio 0 0 hq,
      )
      (ground arith)

max_int64_float_fin : max_int64_float ≡ fin false (2 ^ 63) 0
unfolding Float.evaluation
max_int64_float_fin = refl

le-max_int64 : (n : ℕ) → n < 2 ^ 50 → Float.le max_int64_float (of_int (pos n)) ≡ false
unfolding Float.le
le-max_int64 n h =
    let (a, e) = of_int_fin n (omega (arith, h)) in
    let small : n * 2 ^ a < 2 ^ 63 * 2 ^ a =
      mul-lt-mul_of_pos_right (omega (arith, h)) (pow_pos a) in
    rw (max_int64_float_fin, e) (ground (arith, small))

product_lem :
    (a b : ℕ) → a * b < 2 ^ 50 → quot (Int64.mul (pos a) (pos b)) (pos 1000) ≡ pos (a * b / 1000)
unfolding quot Int64.mul Int64.wrap ◌*ℤ◌
product_lem a b h = ground arith

minus_one : (n : ℕ) → n < 2 ^ 50 → Int64.sub (pos (suc n)) (pos 1) ≡ pos n
unfolding Int64.sub Int64.wrap ◌-ℤ◌
minus_one n h = ground arith

module _ (ratio r : ℕ) (p : 0 < r) (hr : r < 2 ^ 53) (h : ratio * r < 2 ^ 50) where
  ratio_fits : ratio < 2 ^ 53
  ratio_fits = omega (arith, mul-le-mul_right ratio p)

  refuses-well_under : (l : ℕ) → 1000 * l + 1000 ≤ ratio * r → refuses ratio r l ≡ false
  refuses-well_under zero g = refuses-zero ratio r ratio_fits p hr
  refuses-well_under (suc l) g =
      refuses-under r (suc l) p hr (omega arith) (omega (arith, h)) ratio ratio_fits g

  refuses-next :
      (q : ℕ) → q * 1000 ≤ ratio * r → ratio * r < q * 1000 + 1000 → refuses ratio r (suc q) ≡ true
  refuses-next q low high =
      refuses-past r (suc q) p hr (omega arith) (omega (arith, h)) ratio ratio_fits (omega arith)

  -- The correction of the quotient q of ratio * r by 1000.
  corrected :
      (q : ℕ)
      → q * 1000 ≤ ratio * r
      → ratio * r < q * 1000 + 1000
      → (l : ℕ) × ((if refuses ratio r q then Int64.sub (pos q) (pos 1) else pos q) ≡ pos l)
        × (refuses ratio r l ≡ false)
        × (refuses ratio r (suc l) ≡ true)
  corrected zero low high =
      let fits = refuses-zero ratio r ratio_fits p hr in
      (0, rw fits refl, fits, refuses-next 0 low high)
  corrected (suc q) low high = elim (Bool-cases (refuses ratio r (suc q))) [
    | inl t ↦
        (q, rw t (minus_one q (omega (arith, h))), refuses-well_under q (omega (arith, low)), t)
    | inr f ↦ (suc q, rw f refl, f, refuses-next (suc q) low high)
  ]

-- For a positive request below 2^53 whose product with a ratio is below 2^50, ratioLimitMilli gives
-- a limit L such that the float comparison of limit/request*1000 with the ratio admits L and
-- refuses L + 1.
pub ratio_limit_milli_lem :
    (ratio r : ℕ)
    → 0 < r
    → r < 2 ^ 53
    → ratio * r < 2 ^ 50
    → (l : ℕ) × (ratio_limit_milli (pos ratio) (pos r) ≡ pos l)
      × (refuses ratio r l ≡ false)
      × (refuses ratio r (suc l) ≡ true)
unfolding ratio_limit_milli
ratio_limit_milli_lem ratio r p hr h =
    let q = ratio * r / 1000 in
    let fits : ratio < 2 ^ 53 = ratio_fits ratio r p hr h in
    rw (mul-of_int ratio r fits hr, le-max_int64 (ratio * r) h, product_lem ratio r h)
      (corrected ratio r p hr h q (div-mul-le_self (ratio * r) 1000)
        (lt-div-mul-add {a = ratio * r} (omega arith)))
