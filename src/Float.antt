-- ===== src/Float.antt =====
-- Go's float64, as IEEE 754 binary64: a finite value is a sign, a number m and a number k of binary
-- places, for ±m/2^k, and each operation is the exact one followed by rounding to the nearest
-- value of 53 bits, ties to even. Below 2^-1022 the places stop at 1074 (subnormal numbers), and from
-- 2^1024 on the result is an infinity. Also the functions of the package math that the code calls.
pub mod Round
pub mod Quotient
pub mod Laws
pub mod Half
pub mod Close
pub mod Compare
use kube_headroom.Prelude.{
  ℕ, zero, suc, ◌+◌, ◌*◌, ◌/◌, ◌%◌, ◌^◌, ◌≡◌, refl, Bool, true, false, not, ◌&&◌, ◌||◌, xor, ltb,
  leb, ◌==◌, if◌then◌else◌,
}
use kube_headroom.Prelude.Int.{ℤ, pos, negsuc, sub_ℕ, ◌+ℤ◌, ltb_ℤ, leb_ℤ}

pub data Float64 : Type 0 where
  nan : Float64
  inf : Bool → Float64
  fin : Bool → ℕ → ℕ → Float64

-- The first k, from k on, at which n/d shifted by k places has 53 bits.
pub places : ℕ → ℕ → ℕ → ℕ → ℕ
places zero n d k = k
places (suc f) n d k =
    let rest = places f (n * 2) d (suc k) in if leb (2 ^ 52 * d) n then k else rest

-- The first j, from j on, at which n/d divided by 2^j has at most 53 bits.
pub excess : ℕ → ℕ → ℕ → ℕ → ℕ
excess zero n d j = j
excess (suc f) n d j =
    let rest = excess f n (d * 2) (suc j) in if ltb n (2 ^ 53 * d) then j else rest

-- n/d to the nearest integer, ties to even.
pub nearest_even : ℕ → ℕ → ℕ
nearest_even n d =
    if ltb (2 * (n % d)) d
    then n / d
    else (if ltb d (2 * (n % d)) || not (n / d % 2 == 0) then n / d + 1 else n / d)

-- n/d of 2^53 and more: an integer, or an infinity.
pub rounded_large : Bool → ℕ → ℕ → Float64
rounded_large s n d =
    let j = excess 1024 n d 0 in
    let m = nearest_even n (d * 2 ^ j) * 2 ^ j in if leb (2 ^ 1024) m then inf s else fin s m 0

-- n/d below 2^53, and not 0.
pub rounded_small : Bool → ℕ → ℕ → Float64
rounded_small s n d = let k = places 1074 n d 0 in fin s (nearest_even (n * 2 ^ k) d) k

-- n/d, for d > 0, as a float64.
unfoldable pub rounded : Bool → ℕ → ℕ → Float64
rounded s n d =
    if n == 0
    then fin s 0 0
    else (if leb (2 ^ 53 * d) n then rounded_large s n d else rounded_small s n d)

-- A float64 of a known sign and magnitude m/2^k.
abbrev pub signed : Bool → ℕ → ℤ
signed s m = if s then sub_ℕ 0 m else pos m

abbrev pub of_signed : ℤ → ℕ → Float64
of_signed z d = elim z [ pos n ↦ rounded false n d | negsuc n ↦ rounded true (suc n) d ]

-- The conversion float64(x) of an int64.
unfoldable pub of_int : ℤ → Float64
of_int (pos n) = rounded false n 1
of_int (negsuc n) = rounded true (suc n) 1

-- The conversion int64(x), which drops the fraction. Outside of int64 (and of NaN) Go leaves the
-- result to the machine: it is amd64's here, the least int64.
unfoldable pub to_int : Float64 → ℤ
to_int nan = negsuc 9223372036854775807
to_int (inf s) = negsuc 9223372036854775807
to_int (fin s m k) =
    if ltb (m / 2 ^ k) (2 ^ 63) then signed s (m / 2 ^ k) else negsuc 9223372036854775807

unfoldable pub mul : Float64 → Float64 → Float64
mul nan y = nan
mul (inf s) nan = nan
mul (inf s) (inf t) = inf (xor s t)
mul (inf s) (fin t n l) = if n == 0 then nan else inf (xor s t)
mul (fin s m k) nan = nan
mul (fin s m k) (inf t) = if m == 0 then nan else inf (xor s t)
mul (fin s m k) (fin t n l) = rounded (xor s t) (m * n) (2 ^ k * 2 ^ l)

unfoldable pub div : Float64 → Float64 → Float64
div nan y = nan
div (inf s) nan = nan
div (inf s) (inf t) = nan
div (inf s) (fin t n l) = inf (xor s t)
div (fin s m k) nan = nan
div (fin s m k) (inf t) = fin (xor s t) 0 0
div (fin s m k) (fin t n l) =
    if n == 0
    then (if m == 0 then nan else inf (xor s t))
    else rounded (xor s t) (m * 2 ^ l) (n * 2 ^ k)

-- A sum that is exactly zero is +0, unless both are -0.
unfoldable pub add : Float64 → Float64 → Float64
add nan y = nan
add (inf s) nan = nan
add (inf s) (inf t) = if xor s t then nan else inf s
add (inf s) (fin t n l) = inf s
add (fin s m k) nan = nan
add (fin s m k) (inf t) = inf t
add (fin s m k) (fin t n l) =
    if (m == 0) && (n == 0)
    then fin (s && t) 0 0
    else of_signed (signed s (m * 2 ^ l) +ℤ signed t (n * 2 ^ k)) (2 ^ k * 2 ^ l)

unfoldable pub neg : Float64 → Float64
neg nan = nan
neg (inf s) = inf (not s)
neg (fin s m k) = fin (not s) m k

unfoldable pub sub : Float64 → Float64 → Float64
sub x y = add x (neg y)

-- x < y, which is false at NaN.
unfoldable pub lt : Float64 → Float64 → Bool
lt nan y = false
lt (inf s) nan = false
lt (inf s) (inf t) = s && not t
lt (inf s) (fin t n l) = s
lt (fin s m k) nan = false
lt (fin s m k) (inf t) = not t
lt (fin s m k) (fin t n l) = ltb_ℤ (signed s (m * 2 ^ l)) (signed t (n * 2 ^ k))

-- x <= y.
unfoldable pub le : Float64 → Float64 → Bool
le nan y = false
le (inf s) nan = false
le (inf s) (inf t) = s || not t
le (inf s) (fin t n l) = s
le (fin s m k) nan = false
le (fin s m k) (inf t) = not t
le (fin s m k) (fin t n l) = leb_ℤ (signed s (m * 2 ^ l)) (signed t (n * 2 ^ k))

-- x == y.
unfoldable pub eq : Float64 → Float64 → Bool
eq x y = le x y && le y x

unfoldable pub is_nan : Float64 → Bool
is_nan nan = true
is_nan (inf s) = false
is_nan (fin s m k) = false

-- math.Signbit.
unfoldable pub sign_bit : Float64 → Bool
sign_bit nan = false
sign_bit (inf s) = s
sign_bit (fin s m k) = s

unfoldable pub is_zero : Float64 → Bool
is_zero nan = false
is_zero (inf s) = false
is_zero (fin s m k) = m == 0

-- The builtin max of two float64s: NaN if one is NaN, and -0 is below +0.
unfoldable pub max : Float64 → Float64 → Float64
max x y =
    if is_nan x || is_nan y
    then nan
    else (if is_zero x && is_zero y
        then (if sign_bit x then y else x)
        else (if lt y x then x else y))

-- The builtin min.
unfoldable pub min : Float64 → Float64 → Float64
min x y =
    if is_nan x || is_nan y
    then nan
    else (if is_zero x && is_zero y
        then (if sign_bit x then x else y)
        else (if lt x y then x else y))

-- math.Max, which differs from the builtin in that +Inf comes before NaN.
unfoldable pub math_max : Float64 → Float64 → Float64
math_max (inf false) y = inf false
math_max x (inf false) = inf false
math_max x y = max x y

-- math.Min, where -Inf comes before NaN.
unfoldable pub math_min : Float64 → Float64 → Float64
math_min (inf true) y = inf true
math_min x (inf true) = inf true
math_min x y = min x y

unfoldable pub abs : Float64 → Float64
abs nan = nan
abs (inf s) = inf false
abs (fin s m k) = fin false m k

-- math.Round: to the nearest integer, halves away from zero.
unfoldable pub round : Float64 → Float64
round nan = nan
round (inf s) = inf s
round (fin s m k) = fin s ((2 * m + 2 ^ k) / (2 * 2 ^ k)) 0

-- To evaluate: what computes with floats names this.
unfoldable pub evaluation : Unit {0}
unfolding places excess nearest_even rounded_large rounded_small rounded of_int to_int mul div add
    neg sub lt le eq is_nan sign_bit is_zero max min math_max math_min abs round
evaluation = tt

one_tenth : rounded false 1 10 ≡ fin false 7205759403792794 56
unfolding evaluation
one_tenth = refl

product_rounds :
    mul (of_int (pos 9007199254740993)) (of_int (pos 3)) ≡ fin false 27021597764222976 0
unfolding evaluation
product_rounds = refl

halves_round_away : to_int (round (div (of_int (negsuc 4)) (of_int (pos 2)))) ≡ negsuc 2
unfolding evaluation
halves_round_away = refl

tiny_is_zero : mul (rounded false 1 (2 ^ 600)) (rounded false 1 (2 ^ 600)) ≡ fin false 0 1074
unfolding evaluation
tiny_is_zero = refl
