-- ===== src/Float/Close.antt =====
-- How close rounding comes: within half a unit of the last of its 53 bits.
use native.Mathlib.Nat.{div-add-mod, mod-lt}
use kube_headroom.Prelude.{
  ℕ, zero, suc, ◌+◌, ◌*◌, ◌/◌, ◌%◌, ◌^◌, ◌≤◌, ◌<◌, ◌≡◌, refl, false, leb, ◌==◌, arith, Bool-cases,
  ◌⊎◌, inl, inr, lt→leb,
}
use kube_headroom.Float.{fin, places, nearest_even, rounded, rounded_small}
use kube_headroom.Float.Quotient.{places_lem, nearest_even_lower}

nearest_even-cases :
    (x d : ℕ)
    → ((nearest_even x d ≡ x / d) × (2 * (x % d) ≤ d))
      ⊎ ((nearest_even x d ≡ x / d + 1) × (d ≤ 2 * (x % d)))
unfolding nearest_even
nearest_even-cases x d = ground arith

nearest_even-near :
    (x d : ℕ)
    → 0 < d
    → (2 * (nearest_even x d * d) ≤ 2 * x + d) × (2 * x ≤ 2 * (nearest_even x d * d) + d)
nearest_even-near x d p = elim (nearest_even-cases x d) [
  | inl (e, h) ↦ rw e (omega (arith, div-add-mod x d), omega (arith, div-add-mod x d))
  | inr (e, h) ↦
      let small : x % d < d = mod-lt x p in
      rw e (omega (arith, div-add-mod x d), omega (arith, div-add-mod x d, small))
]

places-le : (f n d k : ℕ) → places f n d k ≤ k + f
unfolding places
places-le zero n d k = omega arith
places-le (suc f) n d k = elim (Bool-cases (leb (2 ^ 52 * d) n)) [
  | inl e ↦ rw e (omega arith)
  | inr e ↦ rw e (omega (arith, places-le f (n * 2) d (suc k)))
]

-- m/2^k is n/d to 53 bits.
abbrev pub Close : ℕ → ℕ → ℕ → ℕ → Type 0
Close n d m k =
    (2 ^ 52 * d ≤ n * 2 ^ k)
    × (2 * (m * d) ≤ 2 * (n * 2 ^ k) + d)
    × (2 * (n * 2 ^ k) ≤ 2 * (m * d) + d)

pub rounded-Close :
    (n d : ℕ)
    → 0 < n
    → 0 < d
    → n < 2 ^ 53 * d
    → 2 ^ 52 * d ≤ n * 2 ^ 1074
    → (m : ℕ) × (k : ℕ) × (rounded false n d ≡ fin false m k)
      × (k ≤ 1074)
      × (2 ^ 52 ≤ m)
      × Close n d m k
unfolding rounded rounded_small
rounded-Close n d pn p hn hs =
    let k = places 1074 n d 0 in
    let e : (n == 0) ≡ false = ground arith in
    let e' : leb (2 ^ 53 * d) n ≡ false = lt→leb _ _ hn in
    let enough : 2 ^ 52 * d ≤ n * 2 ^ k = places_lem 1074 n d 0 n (omega arith) hs in
    let near = nearest_even-near (n * 2 ^ k) d p in
    (
      nearest_even (n * 2 ^ k) d,
      k,
      rw (e, e') refl,
      places-le 1074 n d 0,
      nearest_even_lower (n * 2 ^ k) d (2 ^ 52) p enough,
      (enough, near.0, near.1),
    )
