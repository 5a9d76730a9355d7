-- ===== src/Controller/PodInput/Amounts.antt =====
-- Maps of int64 amounts that are not negative: their sum, and what a write does to it.
use mathlib.Core.Option.{some-injective}
use kube_headroom.Prelude.{
  ℕ, ◌+◌, ◌^◌, ◌≤◌, ◌<◌, ◌≡◌, refl, ap, sym, ◌∙◌, none, some, [], ◌∷◌, String, arith, Bool-cases,
  inl, inr,
}
use kube_headroom.Prelude.Int.{ℤ, pos, pos_part, neg_part}
use kube_headroom.Prelude.Int64
use kube_headroom.Prelude.Text.{lookup, insert, str_eq, str_eq-true, lookup-insert}
use kube_headroom.Kube.{GoMap}
use kube_headroom.Controller.PodInput.{increment}
use kube_headroom.Policy.Quantize.{add_pos}

-- The sum of the amounts.
abbrev pub sum_values : GoMap ℤ → ℕ
sum_values [] = 0
sum_values ((k, v) ∷ m) = pos_part v + sum_values m

abbrev pub IsAmount : ℤ → Type 0
IsAmount v = neg_part v ≡ 0

abbrev pub AllAmounts : GoMap ℤ → Type 0
AllAmounts [] = Unit
AllAmounts ((k, v) ∷ m) = IsAmount v × AllAmounts m

pub amount_eq : (v : ℤ) → IsAmount v → v ≡ pos (pos_part v)
amount_eq v h = ground arith

-- A new key adds its amount.
pub insert-new :
    (k : String) (v : ℤ) (m : GoMap ℤ)
    → lookup k m ≡ none
    → IsAmount v
    → AllAmounts m
    → AllAmounts (insert k v m) × (sum_values (insert k v m) ≡ sum_values m + pos_part v)
insert-new k v [] e h a = ((h, tt), omega arith)
insert-new k v ((j, w) ∷ m) e h a = ground (arith, insert-new k v m)

-- A write to a present key exchanges its amount.
pub insert-old :
    (k : String) (v w : ℤ) (m : GoMap ℤ)
    → lookup k m ≡ some w
    → IsAmount v
    → AllAmounts m
    → AllAmounts (insert k v m)
      × (sum_values (insert k v m) + pos_part w ≡ sum_values m + pos_part v)
insert-old k v w [] e h a = cc
insert-old k v w ((j, u) ∷ m) e h a = ground (arith, insert-old k v w m)

pub lookup-IsAmount :
    (k : String) (v : ℤ) (m : GoMap ℤ)
    → lookup k m ≡ some v
    → AllAmounts m
    → IsAmount v × (pos_part v ≤ sum_values m)
lookup-IsAmount k v [] e a = cc
lookup-IsAmount k v ((j, u) ∷ m) e a = ground (arith, lookup-IsAmount k v m)

-- Key k holds at least n.
abbrev pub Holds : String → ℕ → GoMap ℤ → Type 0
Holds k n m = (v : ℤ) × (lookup k m ≡ some v) × (n ≤ pos_part v)

pub insert-Holds :
    (j k : String) (n : ℕ) (v : ℤ) (m : GoMap ℤ)
    → lookup j m ≡ none
    → Holds k n m
    → Holds k n (insert j v m)
insert-Holds j k n v m e (w, f, h) = elim (Bool-cases (str_eq j k)) [
  | inl same ↦ let x : j ≡ k = str_eq-true j k same in cc (rw x at e)
  | inr other ↦ (w, lookup-insert j k v m ∙ rw other f, h)
]

module _ (j : String) (w : ℤ) (m : GoMap ℤ) (e : lookup j m ≡ some w) (amounts : AllAmounts m)
    (fits : sum_values m + 1 < 2 ^ 63) where
  pub increment_value : increment j m ≡ insert j (pos (pos_part w + 1)) m
  unfolding increment
  increment_value =
      let (h, le) = lookup-IsAmount j w m e amounts in
      rw e (
        ap (λ x. insert j x m)
          (ap (λ x. Int64.add x (pos 1)) (amount_eq w h) ∙ add_pos (pos_part w) 1 (omega arith)))

  -- Adding one to a present key adds one to the sum,
  pub increment_sum : AllAmounts (increment j m) × (sum_values (increment j m) ≡ sum_values m + 1)
  increment_sum =
      let (a, s) = insert-old j (pos (pos_part w + 1)) w m e refl amounts in
      rw increment_value (a, omega arith)

  -- and leaves every key with at least what it had.
  pub increment-Holds : (k : String) (n : ℕ) → Holds k n m → Holds k n (increment j m)
  increment-Holds k n (v, f, h) = elim (Bool-cases (str_eq j k)) [
    | inl same ↦
        let x : j ≡ k = str_eq-true j k same in
        let vw : v ≡ w = some-injective v w (sym f ∙ ap (λ (y : String). lookup y m) (sym x) ∙ e) in
        (
          pos (pos_part w + 1),
          ap (lookup k) increment_value ∙ lookup-insert j k (pos (pos_part w + 1)) m ∙ rw same refl,
          omega (arith, ap pos_part vw),
        )
    | inr other ↦ (
      v,
      ap (lookup k) increment_value ∙ lookup-insert j k (pos (pos_part w + 1)) m ∙ rw other f,
      h,
    )
  ]

  -- An absent key stays absent.
  pub increment-absent : (k : String) → lookup k m ≡ none → lookup k (increment j m) ≡ none
  increment-absent k f = elim (Bool-cases (str_eq j k)) [
    | inl same ↦ let x : j ≡ k = str_eq-true j k same in cc (rw x at e)
    | inr other ↦
        ap (lookup k) increment_value ∙ lookup-insert j k (pos (pos_part w + 1)) m ∙ rw other f
  ]
