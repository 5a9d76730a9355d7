-- ===== src/Controller/PodInput/Counts.antt =====
-- splitLimit: how often the last loop gives to a container.
use native.Mathlib.Nat.{mod-eq_of_lt}
use mathlib.Core.Option.{some-injective}
use kube_headroom.Prelude.{
  ℕ, zero, suc, ◌+◌, ◌^◌, ◌≤◌, ◌<◌, ◌≡◌, refl, ap, ◌∙◌, Option, none, some, List, [], ◌∷◌, String,
  arith, Bool-cases, inl, inr, All, length, if◌then◌else◌,
}
use kube_headroom.Prelude.Int.{ℤ, pos, pos_part}
use kube_headroom.Prelude.Text.{lookup, str_eq, str_eq-true, lookup-insert}
use kube_headroom.Kube.{GoMap}
use kube_headroom.Controller.PodInput.{
  Rem, before, insert_rem, sort_rems, get_elem?, increment, give, distribute,
}
use kube_headroom.Controller.PodInput.Amounts.{
  sum_values, AllAmounts, increment_sum, increment_value,
}
use kube_headroom.Controller.PodInput.Deal.{InMap, get_elem?_lem, All-InMap-increment}

-- 1 where the name is k.
abbrev pub hit : String → String → ℕ
hit k name = if str_eq name k then 1 else 0

-- How many remainders have the name k, in all and among the first i.
abbrev pub count : String → List Rem → ℕ
count k [] = 0
count k (r ∷ rems) = hit k r.name + count k rems

abbrev count_first : String → ℕ → List Rem → ℕ
count_first k i [] = 0
count_first k zero (r ∷ rems) = 0
count_first k (suc i) (r ∷ rems) = hit k r.name + count_first k i rems

count-insert_rem :
    (k : String) (a : Rem) (rems : List Rem)
    → count k (insert_rem a rems) ≡ hit k a.name + count k rems
unfolding insert_rem
count-insert_rem k a [] = refl
count-insert_rem k a (b ∷ rems) = elim (Bool-cases (before b a)) [
  | inl e ↦ rw e (omega (arith, count-insert_rem k a rems))
  | inr e ↦ rw e refl
]

pub count-sort_rems : (k : String) (rems : List Rem) → count k (sort_rems rems) ≡ count k rems
unfolding sort_rems
count-sort_rems k [] = refl
count-sort_rems k (a ∷ rems) =
    count-insert_rem k a (sort_rems rems) ∙ ap (λ n. hit k a.name + n) (count-sort_rems k rems)

count_first-zero : (k : String) (rems : List Rem) → count_first k 0 rems ≡ 0
count_first-zero k [] = refl
count_first-zero k (r ∷ rems) = refl

count_first-suc :
    (k : String) (i : ℕ) (rems : List Rem) (r : Rem)
    → get_elem? rems i ≡ some r
    → count_first k (suc i) rems ≡ count_first k i rems + hit k r.name
count_first-suc k i [] r e = cc e
count_first-suc k zero (a ∷ rems) r e =
    rw (some-injective a r e) (omega (arith, count_first-zero k rems))
count_first-suc k (suc i) (a ∷ rems) r e = omega (arith, count_first-suc k i rems r e)

count_first-le : (k : String) (i : ℕ) (rems : List Rem) → count_first k i rems ≤ count k rems
count_first-le k i [] = omega arith
count_first-le k zero (r ∷ rems) = omega arith
count_first-le k (suc i) (r ∷ rems) = omega (arith, count_first-le k i rems)

-- The amount under k, 0 without one.
abbrev pub amount_of : Option ℤ → ℕ
amount_of none = 0
amount_of (some v) = pos_part v

abbrev pub value : String → GoMap ℤ → ℕ
value k m = amount_of (lookup k m)

increment-value :
    (j k : String) (w : ℤ) (m : GoMap ℤ)
    → lookup j m ≡ some w
    → AllAmounts m
    → sum_values m + 1 < 2 ^ 63
    → value k (increment j m) ≡ value k m + hit k j
increment-value j k w m e a fits =
    let step : value k (increment j m)
        ≡ amount_of (if str_eq j k then some (pos (pos_part w + 1)) else lookup k m) =
      ap (value k) (increment_value j w m e a fits)
      ∙ ap amount_of (lookup-insert j k (pos (pos_part w + 1)) m) in
    elim (Bool-cases (str_eq j k)) [
      | inl same ↦
          let here : lookup k m ≡ some w = rw (str_eq-true j k same) at e in
          step ∙ rw (same, here) refl
      | inr other ↦ step ∙ rw other (omega arith)
    ]

-- In a single turn through the remainders, k gets at most one for each of its remainders.
pub distribute-value :
    (k : String) (n i : ℕ) (rems : List Rem) (m : GoMap ℤ)
    → i + n ≤ length rems
    → All (InMap m) rems
    → AllAmounts m
    → sum_values m + n < 2 ^ 63
    → value k (distribute n i rems m) + count_first k i rems ≤ value k m + count k rems
unfolding distribute give
distribute-value k zero i rems m p hs a fits = omega (arith, count_first-le k i rems)
distribute-value k (suc n) i rems m p hs a fits =
    let inside : i < length rems = omega arith in
    let (r, e, (w, f, h)) = get_elem?_lem m rems i hs inside in
    let room : sum_values m + 1 < 2 ^ 63 = omega arith in
    let (a', s) = increment_sum r.name w m f a room in
    let rest =
      distribute-value k n (suc i) rems (increment r.name m) (omega arith)
        (All-InMap-increment m r.name w rems f a room hs) a' (omega arith) in
    rw (mod-eq_of_lt inside, e)
      (omega (arith, rest, count_first-suc k i rems r e, increment-value r.name k w m f a room))
