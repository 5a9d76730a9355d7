-- ===== src/Controller/PodInput/Deal.antt =====
-- The last loop of splitLimit: each round adds one milli-core to one of the containers at hand.
use native.Mathlib.Nat.{mod-lt}
use kube_headroom.Prelude.{
  ℕ, zero, suc, ◌+◌, ◌%◌, ◌^◌, ◌<◌, ◌≡◌, refl, ap, ◌∙◌, none, some, List, [], ◌∷◌, String, arith,
  Bool-cases, inl, inr, All, length,
}
use kube_headroom.Prelude.Int.{ℤ}
use kube_headroom.Prelude.Text.{lookup}
use kube_headroom.Kube.{GoMap}
use kube_headroom.Controller.PodInput.{
  Rem, before, insert_rem, sort_rems, get_elem?, increment, give, distribute,
}
use kube_headroom.Controller.PodInput.Amounts.{
  sum_values, AllAmounts, Holds, increment_sum, increment-Holds, increment-absent,
}

-- The remainder's container has an entry.
abbrev pub InMap : GoMap ℤ → Rem → Type 0
InMap m r = Holds r.name 0 m

insert_rem_lem :
    (m : GoMap ℤ) (a : Rem) (rems : List Rem)
    → InMap m a
    → All (InMap m) rems
    → All (InMap m) (insert_rem a rems) × (length (insert_rem a rems) ≡ suc (length rems))
unfolding insert_rem
insert_rem_lem m a [] h hs = ((h, tt), refl)
insert_rem_lem m a (b ∷ rems) h (hb, hs) = elim (Bool-cases (before b a)) [
  | inl e ↦ let (all, len) = insert_rem_lem m a rems h hs in rw e ((hb, all), ap suc len)
  | inr e ↦ rw e ((h, (hb, hs)), refl)
]

pub sort_rems_lem :
    (m : GoMap ℤ) (rems : List Rem)
    → All (InMap m) rems
    → All (InMap m) (sort_rems rems) × (length (sort_rems rems) ≡ length rems)
unfolding sort_rems
sort_rems_lem m [] hs = (tt, refl)
sort_rems_lem m (a ∷ rems) (h, hs) =
    let (all, len) = sort_rems_lem m rems hs in
    let (all', len') = insert_rem_lem m a (sort_rems rems) h all in (all', len' ∙ ap suc len)

pub get_elem?_lem :
    (m : GoMap ℤ) (rems : List Rem) (i : ℕ)
    → All (InMap m) rems
    → i < length rems
    → (r : Rem) × (get_elem? rems i ≡ some r) × InMap m r
get_elem?_lem m [] i hs h = elim h [ ]
get_elem?_lem m (r ∷ rems) zero hs h = (r, refl, hs.0)
get_elem?_lem m (r ∷ rems) (suc i) hs h = get_elem?_lem m rems i hs.1 (omega arith)

pub All-InMap-increment :
    (m : GoMap ℤ) (j : String) (w : ℤ) (rems : List Rem)
    → lookup j m ≡ some w
    → AllAmounts m
    → sum_values m + 1 < 2 ^ 63
    → All (InMap m) rems
    → All (InMap (increment j m)) rems
All-InMap-increment m j w [] e a f hs = tt
All-InMap-increment m j w (r ∷ rems) e a f (h, hs) =
    (increment-Holds j w m e a f r.name 0 h, All-InMap-increment m j w rems e a f hs)

-- What the loop does to the amounts: n more in all, and no entry loses anything.
pub record Dealt (m m' : GoMap ℤ) (n : ℕ) : Type 0 where
  pub amounts : AllAmounts m'
  pub sum_eq : sum_values m' ≡ sum_values m + n
  pub absent : (k : String) → lookup k m ≡ none → lookup k m' ≡ none
  pub keeps : (k : String) (x : ℕ) → Holds k x m → Holds k x m'

pub distribute_lem :
    (n i : ℕ) (rems : List Rem) (m : GoMap ℤ)
    → 0 < length rems
    → All (InMap m) rems
    → AllAmounts m
    → sum_values m + n < 2 ^ 63
    → Dealt m (distribute n i rems m) n
unfolding distribute give
distribute_lem zero i rems m p hs a fits = record {
  amounts = a;
  sum_eq = omega arith;
  absent = λ k e. e;
  keeps = λ k x h. h;
}
distribute_lem (suc n) i rems m p hs a fits =
    let (r, e, (w, f, h)) = get_elem?_lem m rems (i % length rems) hs (mod-lt i p) in
    let room : sum_values m + 1 < 2 ^ 63 = omega arith in
    let (a', s) = increment_sum r.name w m f a room in
    let rest : Dealt (increment r.name m) (distribute n (suc i) rems (increment r.name m)) n =
      distribute_lem n (suc i) rems (increment r.name m) p
        (All-InMap-increment m r.name w rems f a room hs) a' (omega arith) in
    rw e (record {
      amounts = rest.amounts;
      sum_eq = omega (arith, rest.sum_eq);
      absent = λ k none_eq. rest.absent k (increment-absent r.name w m f a room k none_eq);
      keeps = λ k x hold. rest.keeps k x (increment-Holds r.name w m f a room k x hold);
    })
