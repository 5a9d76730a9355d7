-- ===== src/Prelude/Int64.antt =====
-- Go's int64: an integer in [-2^63, 2^63), with sums, differences and products that wrap around.
use Prim.Native.Nat.{ℕ, ◌+◌, ◌*◌, ◌/◌, ◌-◌, ◌%◌, ◌^◌, ◌<◌, ◌≤◌}
use mathlib.Core.Path.{◌≡◌, refl}
use native.Mathlib.Omega.{arith}
use kube_headroom.Prelude.Tests.{ltb, if◌then◌else◌}
use kube_headroom.Prelude.Int.{
  ℤ, pos, negsuc, pos_part, neg_part, sub_ℕ, ◌+ℤ◌, ◌-ℤ◌, ◌*ℤ◌, +ℤ_parts, eq_of_parts,
}

unfoldable pub wrap : ℤ → ℤ
wrap (pos n) = let r = n % 2 ^ 64 in if ltb r (2 ^ 63) then pos r else sub_ℕ r (2 ^ 64)
wrap (negsuc n) = let r = n % 2 ^ 64 in if ltb r (2 ^ 63) then negsuc r else pos (2 ^ 64 - 1 - r)

-- The values of an int64.
abbrev pub Fits : ℤ → Type 0
Fits a = (pos_part a < 2 ^ 63) × (neg_part a ≤ 2 ^ 63)

unfoldable pub add : ℤ → ℤ → ℤ
add a b = wrap (a +ℤ b)

unfoldable pub sub : ℤ → ℤ → ℤ
sub a b = wrap (a -ℤ b)

unfoldable pub mul : ℤ → ℤ → ℤ
mul a b = wrap (a *ℤ b)

-- To evaluate: what computes with an int64 names this.
unfoldable pub evaluation : Unit {0}
unfolding add sub mul wrap ◌+ℤ◌ ◌-ℤ◌ ◌*ℤ◌
evaluation = tt

pub wrap_id : (a : ℤ) → Fits a → wrap a ≡ a
unfolding wrap
wrap_id (pos n) h = ground arith
wrap_id (negsuc n) h = ground arith

pub wrap-Fits : (a : ℤ) → Fits (wrap a)
unfolding wrap
wrap-Fits (pos n) = ground arith
wrap-Fits (negsuc n) = ground arith

pub add_exact : (a b : ℤ) → Fits (a +ℤ b) → add a b ≡ a +ℤ b
unfolding add
add_exact a b h = wrap_id (a +ℤ b) h

pub sub_exact : (a b : ℤ) → Fits (a -ℤ b) → sub a b ≡ a -ℤ b
unfolding sub
sub_exact a b h = wrap_id (a -ℤ b) h

pub mul_exact : (a b : ℤ) → Fits (a *ℤ b) → mul a b ≡ a *ℤ b
unfolding mul
mul_exact a b h = wrap_id (a *ℤ b) h

-- How often 2^64 is taken off (or put on) to wrap an integer.
turns : ℕ → ℕ
turns n = (n + 2 ^ 63) / 2 ^ 64

abbrev CongruentBy : ℕ → ℕ → ℤ → ℤ → Type 0
CongruentBy u v a b = pos_part a + neg_part b + 2 ^ 64 * u ≡ pos_part b + neg_part a + 2 ^ 64 * v

wrap-CongruentBy : (a : ℤ) → CongruentBy (turns (pos_part a)) (turns (neg_part a - 1)) (wrap a) a
unfolding wrap turns
wrap-CongruentBy (pos n) = ground arith
wrap-CongruentBy (negsuc n) = ground arith

Fits-CongruentBy : (a b : ℤ) (u v : ℕ) → Fits a → Fits b → CongruentBy u v a b → a ≡ b
Fits-CongruentBy a b u v h k e = eq_of_parts a b (omega arith)

-- Wrapping early or late gives the same int64.
pub wrap-add : (a b : ℤ) → wrap (wrap a +ℤ b) ≡ wrap (a +ℤ b)
wrap-add a b =
    let x = wrap a +ℤ b in
    let y = a +ℤ b in
    Fits-CongruentBy (wrap x) (wrap y)
      (turns (pos_part x) + turns (pos_part a) + turns (neg_part y - 1))
      (turns (neg_part x - 1) + turns (neg_part a - 1) + turns (pos_part y)) (wrap-Fits x)
      (wrap-Fits y)
      (omega (
        arith,
        wrap-CongruentBy x,
        wrap-CongruentBy y,
        wrap-CongruentBy a,
        +ℤ_parts (wrap a) b,
        +ℤ_parts a b,
      ))

wraps_around : add (pos (2 ^ 63 - 1)) (pos 1) ≡ negsuc (2 ^ 63 - 1)
unfolding add wrap ◌+ℤ◌
wraps_around = refl
