-- ===== src/Prelude/Format.antt =====
-- Numbers as texts: the verbs %d and %.2f of fmt.
use Prim.Native.Nat.{ℕ, zero, suc, ◌/◌, ◌%◌, ◌^◌, ◌<◌}
use Prim.Native.String.{String, ◌++◌ as str_append}
use mathlib.Core.Path.{◌≡◌, refl}
use mathlib.Core.Bool.{true, false}
use mathlib.Core.List.{List, [], ◌∷◌}
use native.Mathlib.Omega.{arith}
use native.Mathlib.Decide.{dec_lt}
use kube_headroom.Prelude.Tests.{ltb, if◌then◌else◌}
use kube_headroom.Prelude.Int.{ℤ, pos, negsuc}

abbrev nth_digit : List String → ℕ → String
nth_digit [] n = ""
nth_digit (d ∷ ds) zero = d
nth_digit (d ∷ ds) (suc n) = nth_digit ds n

abbrev digit : ℕ → String
digit n = nth_digit ("0" ∷ "1" ∷ "2" ∷ "3" ∷ "4" ∷ "5" ∷ "6" ∷ "7" ∷ "8" ∷ "9" ∷ []) n

-- The digits of a number before a text, one in each round, until it is below ten.
unfoldable pub decimal_onto : ℕ → ℕ → String → String
decimal_onto zero n out = out
decimal_onto (suc rounds) n out =
    let more = decimal_onto rounds (n / 10) (str_append (digit (n % 10)) out) in
    if ltb n 10 then str_append (digit n) out else more

-- From as many rounds on as the number has digits, one more changes nothing.
decimal_onto_enough :
    (rounds n : ℕ) (out : String)
    → n < 10 ^ rounds
    → decimal_onto (suc rounds) n out ≡ decimal_onto (suc (suc rounds)) n out
unfolding decimal_onto
decimal_onto_enough zero n out h = let small : ltb n 10 ≡ true = ground arith in rw small refl
decimal_onto_enough (suc rounds) n out h = elim (dec_lt n 10) [
  | yes small ↦ let e : ltb n 10 ≡ true = ground arith in rw e refl
  | no large ↦
      let e : ltb n 10 ≡ false = ground arith in
      rw e (decimal_onto_enough rounds (n / 10) (str_append (digit (n % 10)) out) (omega arith))
]

-- A number in decimal: 310 rounds do for every float64, whose integer part is below 10^309.
unfoldable pub decimal : ℕ → String
decimal n = decimal_onto 310 n ""

unfoldable pub format_int : ℤ → String
format_int (pos n) = decimal n
format_int (negsuc n) = str_append "-" (decimal (suc n))

-- A number of hundredths, with two digits after the point.
unfoldable pub format_hundredths : ℕ → String
format_hundredths h =
    str_append (decimal (h / 100))
      (str_append "." (str_append (digit (h % 100 / 10)) (digit (h % 10))))

-- To evaluate: what computes with texts of numbers names this.
unfoldable pub evaluation : Unit {0}
unfolding decimal_onto decimal format_int format_hundredths
evaluation = tt

formats :
    (format_int (pos 8000) ≡ "8000")
    × (format_int (negsuc 41) ≡ "-42")
    × (format_hundredths 205 ≡ "2.05")
unfolding evaluation
formats = (refl, refl, refl)
