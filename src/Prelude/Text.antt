-- ===== src/Prelude/Text.antt =====
-- Texts as keys: the test for equality and what it says.
use mathlib.Core.Path.{◌≡◌, refl, ◌∙◌}
use mathlib.Core.Bool.{Bool, true, false, ◌||◌, ◌&&◌}
use mathlib.Core.Option.{Option, none, some}
use mathlib.Core.List.{List, [], ◌∷◌}
use native.Mathlib.Omega.{arith}
use Prim.Native.Nat.{ℕ}
use Prim.Native.Char.{code}
use kube_headroom.Prelude.Tests.{if◌then◌else◌, ◌==◌}
use Prim.Native.String.{String}
use text.Mathlib.Text.{◌==◌ as text_eq}
use text.Mathlib.TextEquality.{eq_iff}
use text.Mathlib.TextPositions.{eq_refl}

abbrev pub str_eq : String → String → Bool
str_eq a b = text_eq a b

pub str_eq_refl : (a : String) → str_eq a a ≡ true
str_eq_refl a = eq_refl a

pub str_eq-true : (a b : String) → str_eq a b ≡ true → a ≡ b
str_eq-true a b h = (eq_iff a b).0 h

pub str_eq-false : (a b : String) → str_eq a b ≡ false → ¬ (a ≡ b)
str_eq-false a b h e = cc (eq_refl b, rw e at h)

pub str_eq_sym_false : (a b : String) → str_eq a b ≡ false → str_eq b a ≡ false
str_eq_sym_false a b h = ground (arith, eq_iff a b, eq_iff b a)

pub str_eq_iff : (a b : String) → (str_eq a b ≡ true → a ≡ b) × (a ≡ b → str_eq a b ≡ true)
str_eq_iff a b = ((eq_iff a b).0, (eq_iff a b).1)

-- The first entry of a Go map under a key. A map is the list of its entries.
module _ {ℓ} {V : Type ℓ} where
  abbrev pub lookup : String → List (String × V) → Option V
  lookup k [] = none
  lookup k ((j, v) ∷ m) = let rest = lookup k m in if str_eq j k then some v else rest

  abbrev pub insert : String → V → List (String × V) → List (String × V)
  insert k v [] = (k, v) ∷ []
  insert k v ((j, w) ∷ m) =
      let rest = insert k v m in if str_eq j k then (k, v) ∷ m else (j, w) ∷ rest

  pub lookup-insert :
      (k j : String) (v : V) (m : List (String × V))
      → lookup j (insert k v m) ≡ (if str_eq k j then some v else lookup j m)
  lookup-insert k j v [] = refl
  lookup-insert k j v ((i, w) ∷ m) =
      ground (arith, str_eq_iff k j, str_eq_iff i k, str_eq_iff i j, lookup-insert k j v m)

pub lookup-insert_self {ℓ} :
    {V : Type ℓ} (k : String) (v : V) (m : List (String × V)) → lookup k (insert k v m) ≡ some v
lookup-insert_self k v m = lookup-insert k k v m ∙ rw (str_eq_refl k) refl

abbrev pub contains : String → List String → Bool
contains k [] = false
contains k (x ∷ xs) = str_eq x k || contains k xs

-- strings.Cut: the text before the first character c, and the whole text where there is none.
unfoldable pub cut : ℕ → String → String
cut c String.[] = String.[]
cut c (String.◌∷◌ x s) =
    let rest = String.◌∷◌ x (cut c s) in if code x == c then String.[] else rest

abbrev pub has_char : ℕ → String → Bool
has_char c String.[] = false
has_char c (String.◌∷◌ x s) = (code x == c) || has_char c s

-- s[:max(strings.LastIndex(s, c), 0)]: the text before the last character c, empty where there is none.
unfoldable pub before_last : ℕ → String → String
before_last c String.[] = String.[]
before_last c (String.◌∷◌ x s) =
    let rest = String.◌∷◌ x (before_last c s) in if has_char c s then rest else String.[]

group_of : (cut b'/' "apps/v1" ≡ "apps") × (cut b'/' "v1" ≡ "v1")
unfolding cut
group_of = (refl, refl)

parent_of : (before_last b'-' "web-5d9-abc" ≡ "web-5d9") × (before_last b'-' "web" ≡ "")
unfolding before_last
parent_of = (refl, refl)

abbrev pub has_prefix : String → String → Bool
has_prefix String.[] s = true
has_prefix (String.◌∷◌ x p) String.[] = false
has_prefix (String.◌∷◌ x p) (String.◌∷◌ y s) = (code x == code y) && has_prefix p s

-- strings.Contains: whether the pattern stands somewhere in the text.
unfoldable pub text_contains : String → String → Bool
text_contains pattern String.[] = has_prefix pattern String.[]
text_contains pattern (String.◌∷◌ x s) =
    has_prefix pattern (String.◌∷◌ x s) || text_contains pattern s
