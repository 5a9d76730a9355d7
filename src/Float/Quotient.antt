-- ===== src/Float/Quotient.antt =====
-- Where a quotient of two integers below 2^53 rounds to: close enough that dropping the fraction, or
-- rounding to an integer, gives what exact division gives.
use native.Mathlib.Nat.{
  mul-le-mul_right, le-div_iff_mul-le, div-lt_iff_lt-mul, div-add-mod, pow-suc, div-mul-le_self,
  lt-div-mul-add, div-one, div-eq_of_lt-le, div-le_self, zero-div, div-eq_of_lt,
}
use native.Mathlib.Decide.{dec_lt}
use kube_headroom.Prelude.{
  ℕ, zero, suc, ◌+◌, ◌-◌, ◌*◌, ◌/◌, ◌%◌, ◌^◌, ◌≤◌, ◌<◌, ◌≡◌, refl, sym, ap, Bool, true, false, ltb,
  leb, ◌==◌, arith, Bool-cases, inl, inr, lt→ltb, lt→leb, leb→le,
}
use kube_headroom.Prelude.Int.{pos}
use kube_headroom.Float.{fin, places, nearest_even, rounded, rounded_small, to_int, round}
use kube_headroom.Float.Round.{pow_pos}

pub places_lem :
    (f n d k top : ℕ)
    → n ≡ top * 2 ^ k
    → 2 ^ 52 * d ≤ n * 2 ^ f
    → 2 ^ 52 * d ≤ top * 2 ^ places f n d k
unfolding places
places_lem zero n d k top e h = rw (← e) (omega arith)
places_lem (suc f) n d k top e h = elim (Bool-cases (leb (2 ^ 52 * d) n)) [
  | inl t ↦ rw t (rw (← e) (leb→le _ _ t))
  | inr t ↦ rw t (
      places_lem f (n * 2) d (suc k) top
        (omega (arith, ap (λ (x : ℕ). x * 2) e, ap (λ (x : ℕ). top * x) (pow-suc 2 k)))
        (omega (arith, ap (λ (x : ℕ). n * x) (pow-suc 2 f), h)))
]

pub nearest_even_lower : (x d c : ℕ) → 0 < d → c * d ≤ x → c ≤ nearest_even x d
unfolding nearest_even
nearest_even_lower x d c p h = ground (arith, (le-div_iff_mul-le {k = d} {x = c} {y = x} p).1 h)

pub lt_of_mul-lt : (a b d : ℕ) → a * d < b * d → a < b
lt_of_mul-lt a b d h = elim (dec_lt a b) [
  | yes p ↦ p
  | no p ↦ absurd (omega (arith, mul-le-mul_right {m = b} {n = a} d (omega arith)))
]

nearest_even_upper : (x d c : ℕ) → 0 < d → 2 * x + d < 2 * (c * d) → nearest_even x d < c
unfolding nearest_even
nearest_even_upper x d c p h =
    let q = x / d in
    let floor : q < c = lt_of_mul-lt q c d (omega (arith, div-mul-le_self x d)) in
    let up : d ≤ 2 * (x % d) → q + 1 < c =
      λ (half : d ≤ 2 * (x % d)). lt_of_mul-lt (q + 1) c d (omega (arith, div-add-mod x d)) in
    ground arith

-- The rounded quotient, scaled by s = 2^k, lies in the same unit interval as n/d.
near-div :
    (n d s : ℕ)
    → 0 < d
    → 0 < s
    → n < 2 ^ 53
    → 2 ^ 52 * d ≤ n * s
    → nearest_even (n * s) d / s ≡ n / d
near-div n d s p ps hn hs =
    let q = n / d in
    let low : q * s * d ≤ n * s = omega (arith, mul-le-mul_right s (div-mul-le_self n d)) in
    let small : d < 2 * s = omega (arith, mul-le-mul_right s hn) in
    let high : n + 1 ≤ (q + 1) * d = omega (arith, lt-div-mul-add {a = n} p) in
    let scaled : (n + 1) * (2 * s) ≤ (q + 1) * d * (2 * s) = mul-le-mul_right (2 * s) high in
    let m = nearest_even (n * s) d in
    let under : m < (q + 1) * s = nearest_even_upper (n * s) d ((q + 1) * s) p (omega arith) in
    div-eq_of_lt-le s (nearest_even_lower (n * s) d (q * s) p low) under

-- The 53-bit scaling of a quotient of integers.
scaled : (n d : ℕ) → 0 < n → d < 2 ^ 53 → 2 ^ 52 * d ≤ n * 2 ^ places 1074 n d 0
scaled n d pn hd =
    places_lem 1074 n d 0 n (omega arith) (omega (arith, mul-le-mul_right (2 ^ 1074) pn))

pub rounded-zero : (s : Bool) (d : ℕ) → rounded s 0 d ≡ fin s 0 0
unfolding rounded
rounded-zero s d = refl

module _ (n d : ℕ) (pn : 0 < n) (p : 0 < d) (hn : n < 2 ^ 53) where
  pub rounded_lem :
      rounded false n d ≡ fin false (nearest_even (n * 2 ^ places 1074 n d 0) d) (places 1074 n d 0)
  unfolding rounded rounded_small
  rounded_lem =
      let e : (n == 0) ≡ false = ground arith in
      let e' : leb (2 ^ 53 * d) n ≡ false =
        lt→leb _ _ (omega (arith, mul-le-mul_right (2 ^ 53) p)) in
      rw (e, e')

-- A quotient of integers below 2^53 rounds to a float64 whose integer part is that of the quotient.
pub to_int-rounded :
    (n d : ℕ) → 0 < d → n < 2 ^ 53 → d < 2 ^ 53 → to_int (rounded false n d) ≡ pos (n / d)
unfolding to_int
to_int-rounded zero d p hn hd = rw (rounded-zero false d, zero-div d) refl
to_int-rounded (suc n) d p hn hd =
    let k = places 1074 (suc n) d 0 in
    let e : nearest_even (suc n * 2 ^ k) d / 2 ^ k ≡ suc n / d =
      near-div (suc n) d (2 ^ k) p (pow_pos k) hn (scaled (suc n) d (omega arith) hd) in
    let e' : ltb (suc n / d) (2 ^ 63) ≡ true = lt→ltb _ _ (omega (arith, div-le_self (suc n) d)) in
    rw (rounded_lem (suc n) d (omega arith) p hn, e, e')

-- The integer nearest to n/d, halves up.
abbrev pub nearest : ℕ → ℕ → ℕ
nearest n d = (2 * n + d) / (2 * d)

odd_down : (q n d : ℕ) → q * (2 * d) ≤ 2 * n + d → (2 * q - 1) * d ≤ 2 * n
odd_down zero n d h = omega arith
odd_down (suc q) n d h = let e : 2 * suc q - 1 ≡ 2 * q + 1 = omega arith in rw e (omega arith)

odd_up : (q h m : ℕ) → (2 * q - 1) * h ≤ m → q * (2 * (h * 2)) ≤ 2 * m + h * 2
odd_up zero h m l = omega arith
odd_up (suc q) h m l =
    let e : 2 * suc q - 1 ≡ 2 * q + 1 = omega arith in let l' = rw e at l in omega arith

-- With at least one binary place, rounding the rounded quotient is rounding the quotient.
near-round :
    (n d h : ℕ)
    → 0 < d
    → 0 < h
    → n < 2 ^ 52
    → 2 ^ 52 * d ≤ n * (h * 2)
    → nearest (nearest_even (n * (h * 2)) d) (h * 2) ≡ nearest n d
near-round n d h p ph hn hs =
    let q = nearest n d in
    let m = nearest_even (n * (h * 2)) d in
    let fits : d < h * 2 = omega (arith, mul-le-mul_right (h * 2) hn) in
    let below : q * (2 * d) ≤ 2 * n + d = div-mul-le_self (2 * n + d) (2 * d) in
    let above : 2 * n + d < q * (2 * d) + 2 * d = lt-div-mul-add {a = 2 * n + d} (omega arith) in
    let down : (2 * q - 1) * d * h ≤ 2 * n * h = mul-le-mul_right h (odd_down q n d below) in
    let up : (2 * n + 1) * (h * 2) ≤ (2 * q + 1) * d * (h * 2) =
      mul-le-mul_right (h * 2) (omega arith) in
    let low : (2 * q - 1) * h ≤ m = nearest_even_lower _ d _ p (omega arith) in
    let high : m < (2 * q + 1) * h = nearest_even_upper _ d _ p (omega arith) in
    div-eq_of_lt-le (2 * (h * 2)) (odd_up q h m low) (omega arith)

near-round-pow :
    (n d k : ℕ)
    → 0 < d
    → n < 2 ^ 52
    → 2 ^ 52 * d ≤ n * 2 ^ k
    → nearest (nearest_even (n * 2 ^ k) d) (2 ^ k) ≡ nearest n d
near-round-pow n d zero p hn hs = absurd (omega arith)
near-round-pow n d (suc k) p hn hs =
    rw (pow-suc 2 k) (near-round n d (2 ^ k) p (pow_pos k) hn (rw (pow-suc 2 k) at hs))

pub nearest-le : (n d : ℕ) → 0 < d → nearest n d ≤ n + 1
nearest-le n d p =
    let h : nearest n d < n + 2 =
      (div-lt_iff_lt-mul {k = 2 * d} {x = 2 * n + d} {y = n + 2} (omega arith)).1
        (omega (arith, mul-le-mul_right (2 * n) p)) in
    omega arith

nearest-zero : (d : ℕ) → 0 < d → nearest 0 d ≡ 0
nearest-zero d p = div-eq_of_lt {n = 2 * 0 + d} {m = 2 * d} (omega arith)

-- Rounding it to an integer gives the integer nearest to the quotient.
pub to_int-round-rounded :
    (n d : ℕ)
    → 0 < d
    → n < 2 ^ 52
    → d < 2 ^ 53
    → to_int (round (rounded false n d)) ≡ pos (nearest n d)
unfolding to_int round
to_int-round-rounded zero d p hn hd = rw (rounded-zero false d) (ap pos (sym (nearest-zero d p)))
to_int-round-rounded (suc n) d p hn hd =
    let k = places 1074 (suc n) d 0 in
    let e : nearest (nearest_even (suc n * 2 ^ k) d) (2 ^ k) ≡ nearest (suc n) d =
      near-round-pow (suc n) d k p hn (scaled (suc n) d (omega arith) hd) in
    let e' : ltb (nearest (suc n) d) (2 ^ 63) ≡ true =
      lt→ltb _ _ (omega (arith, nearest-le (suc n) d p)) in
    rw (rounded_lem (suc n) d (omega arith) p (omega arith), e, div-one (nearest (suc n) d), e')
