-- ===== src/Float/Round.antt =====
-- Rounding depends on a fraction's value alone, and where a quotient of integers below 2^53 rounds to.
use native.Mathlib.Nat.{mul-le-mul_right, mul-div-mul_right, mod_def, one-le-pow, div-add-mod}
use kube_headroom.Prelude.{
  ℕ, zero, suc, ◌*◌, ◌%◌, ◌^◌, ◌<◌, ◌≡◌, refl, ap, Bool, ltb, leb, ◌==◌, arith, Bool-cases, inl,
  inr, le→leb, lt→leb, leb→le,
}
use kube_headroom.Float.{places, excess, nearest_even, rounded, rounded_large, rounded_small}

pub pow_pos : (k : ℕ) → 0 < 2 ^ k
pow_pos k = one-le-pow k 2 (omega arith)

leb-scale : (a b c : ℕ) → 0 < c → leb (a * c) (b * c) ≡ leb a b
leb-scale a b c h = elim (Bool-cases (leb a b)) [
  | inl e ↦ rw e (le→leb (a * c) (b * c) (mul-le-mul_right c (leb→le a b e)))
  | inr e ↦
      let p : b < a = ground arith in
      rw e (lt→leb (a * c) (b * c) (grind (arith, mul-le-mul_right c p)))
]

pub ltb-scale : (a b c : ℕ) → 0 < c → ltb (a * c) (b * c) ≡ ltb a b
ltb-scale a b c h = ground (arith, leb-scale b a c h)

places-scale : (f n d k c : ℕ) → 0 < c → places f (n * c) (d * c) k ≡ places f n d k
unfolding places
places-scale zero n d k c h = refl
places-scale (suc f) n d k c h =
    let e : n * c * 2 ≡ n * 2 * c = omega arith in
    let e' : 2 ^ 52 * (d * c) ≡ 2 ^ 52 * d * c = omega arith in
    rw (e, e', leb-scale (2 ^ 52 * d) n c h, places-scale f (n * 2) d (suc k) c h)

excess-scale : (f n d k c : ℕ) → 0 < c → excess f (n * c) (d * c) k ≡ excess f n d k
unfolding excess
excess-scale zero n d k c h = refl
excess-scale (suc f) n d k c h =
    let e : d * c * 2 ≡ d * 2 * c = omega arith in
    let e' : 2 ^ 53 * (d * c) ≡ 2 ^ 53 * d * c = omega arith in
    rw (e, e', ltb-scale n (2 ^ 53 * d) c h, excess-scale f n (d * 2) (suc k) c h)

mod-scale : (n d c : ℕ) → 0 < c → n * c % (d * c) ≡ n % d * c
mod-scale n d c h =
    rw (mod_def (n * c) (d * c), mul-div-mul_right n d h)
      (omega (arith, ap (λ (t : ℕ). t * c) (div-add-mod n d)))

nearest_even-scale : (n d c : ℕ) → 0 < c → nearest_even (n * c) (d * c) ≡ nearest_even n d
unfolding nearest_even
nearest_even-scale n d c h =
    let e : 2 * (n % d * c) ≡ 2 * (n % d) * c = omega arith in
    rw (
      mod-scale n d c h,
      mul-div-mul_right n d h,
      e,
      ltb-scale (2 * (n % d)) d c h,
      ltb-scale d (2 * (n % d)) c h,
    )

rounded_small-scale :
    (s : Bool) (n d c : ℕ) → 0 < c → rounded_small s (n * c) (d * c) ≡ rounded_small s n d
unfolding rounded_small
rounded_small-scale s n d c h =
    let k = places 1074 n d 0 in
    let e : n * c * 2 ^ k ≡ n * 2 ^ k * c = omega arith in
    rw (places-scale 1074 n d 0 c h, e, nearest_even-scale (n * 2 ^ k) d c h)

rounded_large-scale :
    (s : Bool) (n d c : ℕ) → 0 < c → rounded_large s (n * c) (d * c) ≡ rounded_large s n d
unfolding rounded_large
rounded_large-scale s n d c h =
    let j = excess 1024 n d 0 in
    let e : d * c * 2 ^ j ≡ d * 2 ^ j * c = omega arith in
    rw (excess-scale 1024 n d 0 c h, e, nearest_even-scale n (d * 2 ^ j) c h)

zero-scale : (n c : ℕ) → 0 < c → (n * c == 0) ≡ (n == 0)
zero-scale zero c h = ground arith
zero-scale (suc n) c h = grind arith

-- Rounding n/d and (n*c)/(d*c) gives the same float64.
pub rounded-scale : (s : Bool) (n d c : ℕ) → 0 < c → rounded s (n * c) (d * c) ≡ rounded s n d
unfolding rounded
rounded-scale s n d c h =
    let e : 2 ^ 53 * (d * c) ≡ 2 ^ 53 * d * c = omega arith in
    rw (
      zero-scale n c h,
      e,
      leb-scale (2 ^ 53 * d) n c h,
      rounded_large-scale s n d c h,
      rounded_small-scale s n d c h,
    )
