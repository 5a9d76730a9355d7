-- ===== src/Controller/PodInput/First.antt =====
-- splitLimit: what the first loop builds, one container at a time.
use native.Mathlib.Decide.{dec_lt}
use native.Mathlib.Nat.{zero-div, mul-le-mul_left, mul-le-mul_right, le-div_iff_mul-le}
use kube_headroom.Prelude.{
  ℕ, suc, ◌+◌, ◌*◌, ◌^◌, ◌≤◌, ◌<◌, ◌≡◌, refl, ap, sym, ◌∙◌, true, false, ◌⊎◌, none, List, [], ◌∷◌,
  String, arith, inl, inr, All, length,
}
use kube_headroom.Prelude.Int.{ℤ, pos, leb_ℤ}
use kube_headroom.Prelude.Int64
use kube_headroom.Prelude.Text.{
  lookup, insert, str_eq, lookup-insert, lookup-insert_self, str_eq_sym_false,
}
use kube_headroom.Kube.{GoMap}
use kube_headroom.Policy.Quantize.{add_pos}
use kube_headroom.Eligibility.{ResizableContainer}
use kube_headroom.Controller.PodInput.{
  Rem, Floors, no_floors, push, base_share, rem_of, floors, floor_step,
}
use kube_headroom.Controller.PodInput.Amounts.{
  sum_values, AllAmounts, IsAmount, amount_eq, insert-new, Holds, insert-Holds,
}
use kube_headroom.Controller.PodInput.Shares.{
  request_of, requests_sum, AreRequests, share, base_share_lem, shares_sum,
}
use kube_headroom.Controller.PodInput.Deal.{InMap}

-- No container of the list has the name.
abbrev pub Fresh : String → List ResizableContainer → Type 0
Fresh name = All λ c. str_eq name c.name ≡ false

-- Container names are unique in a pod.
abbrev pub UniqueNames : List ResizableContainer → Type 0
UniqueNames [] = Unit
UniqueNames (c ∷ rcs) = Fresh c.name rcs × UniqueNames rcs

abbrev pub Absent : GoMap ℤ → List ResizableContainer → Type 0
Absent m = All λ c. lookup c.name m ≡ none

-- Each container holds at least its request, or has no request and no entry.
abbrev pub Covered : GoMap ℤ → List ResizableContainer → Type 0
Covered m = All λ c.
    ((request_of c ≡ 0) × (lookup c.name m ≡ none))
    ⊎ ((0 < request_of c) × Holds c.name (request_of c) m)

-- The invariant of the first loop.
pub record IsBuilt (f : Floors) : Type 0 where
  pub amounts : AllAmounts f.out
  pub assigned_eq : f.assigned ≡ pos (sum_values f.out)
  pub named : All (InMap f.out) f.rems
  pub some_rem : (sum_values f.out ≡ 0) ⊎ (0 < length f.rems)

pub no_floors-IsBuilt : IsBuilt no_floors
no_floors-IsBuilt = record { amounts = tt; assigned_eq = refl; named = tt; some_rem = inl refl }

All-push :
    (m : GoMap ℤ) (rems : List Rem) (r : Rem)
    → All (InMap m) rems
    → InMap m r
    → All (InMap m) (push rems r)
All-push m [] r hs h = (h, tt)
All-push m (x ∷ rems) r hs h = (hs.0, All-push m rems r hs.1 h)

length-push : (rems : List Rem) (r : Rem) → 0 < length (push rems r)
length-push [] r = omega arith
length-push (x ∷ rems) r = omega arith

All-InMap-insert :
    (m : GoMap ℤ) (j : String) (v : ℤ) (rems : List Rem)
    → lookup j m ≡ none
    → All (InMap m) rems
    → All (InMap (insert j v m)) rems
All-InMap-insert m j v [] e hs = tt
All-InMap-insert m j v (r ∷ rems) e hs =
    (insert-Holds j r.name 0 v m e hs.0, All-InMap-insert m j v rems e hs.1)

pub Absent-insert :
    (m : GoMap ℤ) (j : String) (v : ℤ) (rcs : List ResizableContainer)
    → Fresh j rcs
    → Absent m rcs
    → Absent (insert j v m) rcs
Absent-insert m j v [] f a = tt
Absent-insert m j v (c ∷ rcs) f a =
    (lookup-insert j c.name v m ∙ rw f.0 a.0, Absent-insert m j v rcs f.1 a.1)

-- The state of the first loop with an amount s added for a container.
abbrev pub added : String → ℕ → Rem → Floors → Floors
added name s r f = record {
  out = insert name (pos s) f.out;
  assigned = pos (sum_values f.out + s);
  rems = push f.rems r;
}

pub added-IsBuilt :
    (name : String) (s : ℕ) (r : Rem) (f : Floors)
    → r.name ≡ name
    → lookup name f.out ≡ none
    → IsBuilt f
    → IsBuilt (added name s r f) × (sum_values (insert name (pos s) f.out) ≡ sum_values f.out + s)
added-IsBuilt name s r f e absent built =
    let (amounts', sum') = insert-new name (pos s) f.out absent refl built.amounts in
    (
      record {
        amounts = amounts';
        assigned_eq = ap pos (sym sum');
        named =
            All-push (insert name (pos s) f.out) f.rems r
              (All-InMap-insert f.out name (pos s) f.rems absent built.named)
              (pos s, rw e (lookup-insert_self name (pos s) f.out), omega arith);
        some_rem = inr (length-push f.rems r);
      },
      sum',
    )

module _ (target total : ℕ) (tt' : total ≤ target) (pt : 0 < total) (ht : target < 2 ^ 52)
    (hx : target * total < 2 ^ 53) where
  -- One pass of the first loop, over a container with a request.
  pub floor_step_lem :
      (i : ℕ) (c : ResizableContainer) (f : Floors)
      → IsBuilt f
      → IsAmount c.request_milli
      → 0 < request_of c
      → request_of c ≤ total
      → sum_values f.out + share target total (request_of c) < 2 ^ 63
      → floor_step (pos target) (pos total) i c f
        ≡ added c.name (share target total (request_of c)) (rem_of (pos target) (pos total) i c) f
  unfolding floor_step
  floor_step_lem i c f built amount pr small fits =
      let r = request_of c in
      let s = share target total r in
      let requests : leb_ℤ c.request_milli (pos 0) ≡ false = ground arith in
      let shared : base_share (pos target) c.request_milli (pos total) ≡ pos s =
        ap (λ x. base_share (pos target) x (pos total)) (amount_eq c.request_milli amount)
        ∙ base_share_lem target total r tt' pt ht small (grind (arith, mul-le-mul_left)) in
      let sum' : Int64.add f.assigned (pos s) ≡ pos (sum_values f.out + s) =
        ap (λ x. Int64.add x (pos s)) built.assigned_eq ∙ add_pos (sum_values f.out) s fits in
      rw (requests, shared, sum')

  pub floor_step_skip :
      (i : ℕ) (c : ResizableContainer) (f : Floors)
      → request_of c ≡ 0
      → floor_step (pos target) (pos total) i c f ≡ f
  unfolding floor_step
  floor_step_skip i c f z =
      let none_left : leb_ℤ c.request_milli (pos 0) ≡ true = ground arith in rw none_left

  -- What the first loop has built from the containers.
  pub record Built (rcs : List ResizableContainer) (f f' : Floors) : Type 0 where
    pub built : IsBuilt f'
    pub sum_eq : sum_values f'.out ≡ sum_values f.out + shares_sum target total rcs
    pub covered : Covered f'.out rcs
    pub absent : (k : String) → Fresh k rcs → lookup k f.out ≡ none → lookup k f'.out ≡ none
    pub keeps : (k : String) (x : ℕ) → Holds k x f.out → Holds k x f'.out

  pub share-zero : (r : ℕ) → r ≡ 0 → share target total r ≡ 0
  share-zero r e = rw e (grind (arith, zero-div))

  pub floors_lem :
      (i : ℕ) (rcs : List ResizableContainer) (f : Floors)
      → IsBuilt f
      → Absent f.out rcs
      → UniqueNames rcs
      → AreRequests rcs
      → requests_sum rcs ≤ total
      → sum_values f.out + shares_sum target total rcs < 2 ^ 63
      → Built rcs f (floors (pos target) (pos total) i rcs f)
  unfolding floors rem_of
  floors_lem i [] f built a u q small fits = record {
    built = built;
    sum_eq = omega arith;
    covered = tt;
    absent = λ k h e. e;
    keeps = λ k x h. h;
  }
  floors_lem i (c ∷ rcs) f built (a, later) (fresh, u) (q, qs) small fits =
      let r = request_of c in
      let s = share target total r in
      elim (dec_lt 0 r) [
        | yes pr ↦
            let g = added c.name s (rem_of (pos target) (pos total) i c) f in
            let (built', sum') =
              added-IsBuilt c.name s (rem_of (pos target) (pos total) i c) f refl a built in
            let rest : Built rcs g (floors (pos target) (pos total) (suc i) rcs g) =
              floors_lem (suc i) rcs g built' (Absent-insert f.out c.name (pos s) rcs fresh later) u
                qs (omega arith) (omega arith) in
            let low : r ≤ s =
              (le-div_iff_mul-le {k = total} {x = r} {y = target * r} pt).1
                (omega (arith, mul-le-mul_right r tt')) in
            rw (floor_step_lem i c f built q pr (omega arith) (omega arith)) (record {
              built = rest.built;
              sum_eq = omega (arith, rest.sum_eq, sum');
              covered = (
                inr (pr, rest.keeps c.name r (pos s, lookup-insert_self c.name (pos s) f.out, low)),
                rest.covered,
              );
              absent = λ k h e.
                  rest.absent k h.1
                    (lookup-insert c.name k (pos s) f.out ∙ rw (str_eq_sym_false k c.name h.0) e);
              keeps = λ k x h. rest.keeps k x (insert-Holds c.name k x (pos s) f.out a h);
            })
        | no z ↦
            let zero_eq : r ≡ 0 = omega arith in
            let rest : Built rcs f (floors (pos target) (pos total) (suc i) rcs f) =
              floors_lem (suc i) rcs f built later u qs (omega arith) (omega arith) in
            rw (floor_step_skip i c f zero_eq) (record {
              built = rest.built;
              sum_eq = omega (arith, rest.sum_eq, share-zero r zero_eq);
              covered = (inl (zero_eq, rest.absent c.name fresh a), rest.covered);
              absent = λ k h e. rest.absent k h.1 e;
              keeps = rest.keeps;
            })
      ]
