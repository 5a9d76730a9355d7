-- ===== src/Controller/PodInput/Written.antt =====
-- splitLimit: what the entries of the containers add up to, through its two loops.
use mathlib.Core.Option.{some-injective}
use mathlib.Core.Path.{subst}
use native.Mathlib.Decide.{dec_lt}
use native.Mathlib.Nat.{mod-lt}
use kube_headroom.Prelude.{
  ℕ, zero, suc, ◌+◌, ◌*◌, ◌%◌, ◌^◌, ◌≤◌, ◌<◌, ◌≡◌, refl, ap, sym, ◌∙◌, true, false, ◌⊎◌, Option,
  none, some, List, [], ◌∷◌, String, arith, inl, inr, All, Bool-cases, length,
}
use kube_headroom.Prelude.Int.{ℤ, pos, pos_part}
use kube_headroom.Prelude.Text.{
  lookup, insert, lookup-insert, str_eq, str_eq-true, str_eq_refl, str_eq_sym_false,
}
use kube_headroom.Kube.{GoMap}
use kube_headroom.Eligibility.{ResizableContainer}
use kube_headroom.Controller.PodInput.{
  Rem, Floors, before, insert_rem, sort_rems, get_elem?, increment, give, push, rem_of, floors,
  distribute,
}
use kube_headroom.Controller.PodInput.Amounts.{
  sum_values, AllAmounts, increment_value, increment_sum,
}
use kube_headroom.Controller.PodInput.Shares.{
  request_of, requests_sum, AreRequests, share, shares_sum,
}
use kube_headroom.Controller.PodInput.Deal.{InMap, get_elem?_lem, All-InMap-increment}
use kube_headroom.Controller.PodInput.First.{
  Fresh, UniqueNames, Absent, IsBuilt, added, added-IsBuilt, Absent-insert, floor_step_lem,
  floor_step_skip, share-zero,
}

abbrev pub amount_of : Option ℤ → ℕ
amount_of none = 0
amount_of (some v) = pos_part v

-- What the entries of the containers add up to.
abbrev pub sum_at : GoMap ℤ → List ResizableContainer → ℕ
sum_at m [] = 0
sum_at m (c ∷ rcs) = amount_of (lookup c.name m) + sum_at m rcs

-- The name is that of one container of the list.
abbrev pub Once : String → List ResizableContainer → Type 0
Once k [] = ⊥
Once k (c ∷ rcs) =
    ((str_eq k c.name ≡ true) × Fresh k rcs) ⊎ ((str_eq k c.name ≡ false) × Once k rcs)

sum_at-insert-Fresh :
    (k : String) (v : ℤ) (m : GoMap ℤ) (rcs : List ResizableContainer)
    → Fresh k rcs
    → sum_at (insert k v m) rcs ≡ sum_at m rcs
sum_at-insert-Fresh k v m [] h = refl
sum_at-insert-Fresh k v m (c ∷ rcs) (h, hs) =
    let other : lookup c.name (insert k v m) ≡ lookup c.name m =
      lookup-insert k c.name v m ∙ rw h refl in
    rw (other, sum_at-insert-Fresh k v m rcs hs) refl

-- A write at a container's name exchanges its amount.
sum_at-insert :
    (k : String) (v : ℤ) (m : GoMap ℤ) (rcs : List ResizableContainer)
    → Once k rcs
    → sum_at (insert k v m) rcs + amount_of (lookup k m) ≡ sum_at m rcs + pos_part v
sum_at-insert k v m [] h = elim h [ ]
sum_at-insert k v m (c ∷ rcs) (inl (same, fresh)) =
    let new : lookup c.name (insert k v m) ≡ some v = lookup-insert k c.name v m ∙ rw same refl in
    let old : lookup c.name m ≡ lookup k m =
      ap (λ (n : String). lookup n m) (sym (str_eq-true k c.name same)) in
    rw (new, old) (omega (arith, sum_at-insert-Fresh k v m rcs fresh))
sum_at-insert k v m (c ∷ rcs) (inr (other, h)) =
    let same : lookup c.name (insert k v m) ≡ lookup c.name m =
      lookup-insert k c.name v m ∙ rw other refl in
    rw same (omega (arith, sum_at-insert k v m rcs h))

-- Each name is that of one container of the other list.
abbrev pub AllOnce : List ResizableContainer → List ResizableContainer → Type 0
AllOnce all = All λ c. Once c.name all

AllOnce-cons :
    (c : ResizableContainer) (all rcs : List ResizableContainer)
    → Fresh c.name rcs
    → AllOnce all rcs
    → AllOnce (c ∷ all) rcs
AllOnce-cons c all [] f h = tt
AllOnce-cons c all (d ∷ rcs) (f, fs) (h, hs) =
    (inr (str_eq_sym_false c.name d.name f, h), AllOnce-cons c all rcs fs hs)

pub UniqueNames-AllOnce : (rcs : List ResizableContainer) → UniqueNames rcs → AllOnce rcs rcs
UniqueNames-AllOnce [] u = tt
UniqueNames-AllOnce (c ∷ rcs) (fresh, u) =
    (inl (str_eq_refl c.name, fresh), AllOnce-cons c rcs rcs fresh (UniqueNames-AllOnce rcs u))

abbrev pub Named : List ResizableContainer → List Rem → Type 0
Named all = All λ r. Once r.name all

Named-push :
    (all : List ResizableContainer) (rems : List Rem) (r : Rem)
    → Named all rems
    → Once r.name all
    → Named all (push rems r)
Named-push all [] r hs h = (h, tt)
Named-push all (x ∷ rems) r (k, hs) h = (k, Named-push all rems r hs h)

Named-insert_rem :
    (all : List ResizableContainer) (a : Rem) (rems : List Rem)
    → Once a.name all
    → Named all rems
    → Named all (insert_rem a rems)
unfolding insert_rem
Named-insert_rem all a [] h hs = (h, tt)
Named-insert_rem all a (b ∷ rems) h (k, hs) = elim (Bool-cases (before b a)) [
  | inl e ↦ rw e ((k, Named-insert_rem all a rems h hs))
  | inr e ↦ rw e ((h, (k, hs)))
]

pub Named-sort_rems :
    (all : List ResizableContainer) (rems : List Rem) → Named all rems → Named all (sort_rems rems)
unfolding sort_rems
Named-sort_rems all [] hs = tt
Named-sort_rems all (a ∷ rems) (h, hs) =
    Named-insert_rem all a (sort_rems rems) h (Named-sort_rems all rems hs)

Named-get_elem? :
    (all : List ResizableContainer) (rems : List Rem) (i : ℕ) (r : Rem)
    → Named all rems
    → get_elem? rems i ≡ some r
    → Once r.name all
Named-get_elem? all [] i r hs e = absurd (cc e)
Named-get_elem? all (x ∷ rems) zero r (h, hs) e =
    subst (λ (y : Rem). Once y.name all) (some-injective x r e) h
Named-get_elem? all (x ∷ rems) (suc i) r (h, hs) e = Named-get_elem? all rems i r hs e

-- The last loop adds a milli-core to some container in each round.
pub sum_at-distribute :
    (all : List ResizableContainer) (n i : ℕ) (rems : List Rem) (m : GoMap ℤ)
    → 0 < length rems
    → Named all rems
    → All (InMap m) rems
    → AllAmounts m
    → sum_values m + n < 2 ^ 63
    → sum_at (distribute n i rems m) all ≡ sum_at m all + n
unfolding distribute give
sum_at-distribute all zero i rems m p ns hs a fits = omega arith
sum_at-distribute all (suc n) i rems m p ns hs a fits =
    let (r, e, (w, f, h)) = get_elem?_lem m rems (i % length rems) hs (mod-lt i p) in
    let room : sum_values m + 1 < 2 ^ 63 = omega arith in
    let (a', s) = increment_sum r.name w m f a room in
    let more : sum_at (increment r.name m) all + pos_part w ≡ sum_at m all + (pos_part w + 1) =
      ap (λ x. sum_at x all + pos_part w) (increment_value r.name w m f a room)
      ∙ (ap (λ (o : Option ℤ). sum_at (insert r.name (pos (pos_part w + 1)) m) all + amount_of o)
            (sym f)
          ∙ sum_at-insert r.name (pos (pos_part w + 1)) m all
              (Named-get_elem? all rems (i % length rems) r ns e)) in
    let rest =
      sum_at-distribute all n (suc i) rems (increment r.name m) p ns
        (All-InMap-increment m r.name w rems f a room hs) a' (omega arith) in
    rw e (omega (arith, rest, more))

-- The first loop keeps both sums equal, and names a container with each remainder.
pub record Kept (all : List ResizableContainer) (f : Floors) : Type 0 where
  pub sums : sum_at f.out all ≡ sum_values f.out
  pub named : Named all f.rems

module _ (target total : ℕ) (tt' : total ≤ target) (pt : 0 < total) (ht : target < 2 ^ 52)
    (hx : target * total < 2 ^ 53) (all : List ResizableContainer) where
  pub floors-Kept :
      (i : ℕ) (rcs : List ResizableContainer) (f : Floors)
      → IsBuilt f
      → Absent f.out rcs
      → UniqueNames rcs
      → AllOnce all rcs
      → AreRequests rcs
      → requests_sum rcs ≤ total
      → sum_values f.out + shares_sum target total rcs < 2 ^ 63
      → Kept all f
      → Kept all (floors (pos target) (pos total) i rcs f)
  unfolding floors rem_of
  floors-Kept i [] f built a u os q small fits kept = kept
  floors-Kept i (c ∷ rcs) f built (a, later) (fresh, u) (once, os) (q, qs) small fits kept =
      let r = request_of c in
      let s = share target total r in
      elim (dec_lt 0 r) [
        | yes pr ↦
            let rem = rem_of (pos target) (pos total) i c in
            let (built', sum') = added-IsBuilt c.name s rem f refl a built in
            let more : sum_at (insert c.name (pos s) f.out) all + 0 ≡ sum_at f.out all + s =
              ap (λ (o : Option ℤ). sum_at (insert c.name (pos s) f.out) all + amount_of o) (sym a)
              ∙ sum_at-insert c.name (pos s) f.out all once in
            rw
              (floor_step_lem target total tt' pt ht hx i c f built q pr (omega arith)
                (omega arith))
              (floors-Kept (suc i) rcs (added c.name s rem f) built'
                (Absent-insert f.out c.name (pos s) rcs fresh later) u os qs (omega arith)
                (omega arith)
                (record {
                  sums = omega (arith, more, sum', kept.sums);
                  named = Named-push all f.rems rem kept.named once;
                }))
        | no z ↦ rw (floor_step_skip target total tt' pt ht hx i c f (omega arith)) (
            floors-Kept (suc i) rcs f built later u os qs (omega arith)
              (omega (arith, share-zero target total tt' pt ht hx r (omega arith))) kept)
      ]
