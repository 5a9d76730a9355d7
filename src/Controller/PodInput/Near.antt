-- ===== src/Controller/PodInput/Near.antt =====
-- splitLimit: what the first loop gives, and how much of the target it leaves.
use native.Mathlib.Nat.{lt-div-mul-add}
use kube_headroom.Prelude.{
  ℕ, suc, ◌+◌, ◌*◌, ◌≤◌, ◌<◌, ◌≡◌, refl, ap, ◌∙◌, true, false, ◌⊎◌, some, List, [], ◌∷◌, String,
  arith, Bool-cases, inl, inr, All, length, if◌then◌else◌,
}
use kube_headroom.Prelude.Int.{ℤ, pos, leb_ℤ}
use kube_headroom.Prelude.Text.{
  lookup, str_eq, lookup-insert, lookup-insert_self, str_eq_sym_false, str_eq-true,
}
use kube_headroom.Eligibility.{ResizableContainer}
use kube_headroom.Controller.PodInput.{Rem, Floors, push, base_share, rem_of, floors, floor_step}
use kube_headroom.Controller.PodInput.Shares.{request_of, requests_sum, AreRequests, shares_sum}
use kube_headroom.Controller.PodInput.First.{Fresh, UniqueNames}
use kube_headroom.Controller.PodInput.Counts.{hit, count}

-- 1 for a container with a request.
abbrev pub requested : ResizableContainer → ℕ
requested c = if leb_ℤ c.request_milli (pos 0) then 0 else 1

abbrev pub requested_sum : List ResizableContainer → ℕ
requested_sum [] = 0
requested_sum (c ∷ rcs) = requested c + requested_sum rcs

-- How many containers with a request have the name k.
abbrev pub mentions : String → List ResizableContainer → ℕ
mentions k [] = 0
mentions k (c ∷ rcs) = requested c * hit k c.name + mentions k rcs

mentions-Fresh : (k : String) (rcs : List ResizableContainer) → Fresh k rcs → mentions k rcs ≡ 0
mentions-Fresh k [] f = refl
mentions-Fresh k (c ∷ rcs) f =
    rw (str_eq_sym_false k c.name f.0) (omega (arith, mentions-Fresh k rcs f.1))

requested-le : (c : ResizableContainer) → requested c ≤ 1
requested-le c = ground arith

pub mentions-UniqueNames :
    (k : String) (rcs : List ResizableContainer) → UniqueNames rcs → mentions k rcs ≤ 1
mentions-UniqueNames k [] u = omega arith
mentions-UniqueNames k (c ∷ rcs) (f, u) = elim (Bool-cases (str_eq c.name k)) [
  | inl same ↦
      let later : mentions k rcs ≡ 0 = mentions-Fresh k rcs (rw (str_eq-true c.name k same) at f) in
      rw same (omega (arith, later, requested-le c))
  | inr other ↦ rw other (omega (arith, mentions-UniqueNames k rcs u))
]

count-push :
    (k : String) (rems : List Rem) (r : Rem) → count k (push rems r) ≡ count k rems + hit k r.name
count-push k [] r = omega arith
count-push k (x ∷ rems) r = omega (arith, count-push k rems r)

length-push : (rems : List Rem) (r : Rem) → length (push rems r) ≡ suc (length rems)
length-push [] r = refl
length-push (x ∷ rems) r = ap suc (length-push rems r)

module _ (target total : ℤ) where
  floor_step-rems :
      (k : String) (i : ℕ) (c : ResizableContainer) (f : Floors)
      → let g = floor_step target total i c f in
        (length g.rems ≡ length f.rems + requested c)
        × (count k g.rems ≡ count k f.rems + requested c * hit k c.name)
  unfolding floor_step rem_of
  floor_step-rems k i c f = elim (Bool-cases (leb_ℤ c.request_milli (pos 0))) [
    | inl e ↦ rw e (omega arith, omega arith)
    | inr e ↦
        let r = rem_of target total i c in
        rw e (omega (arith, length-push f.rems r), omega (arith, count-push k f.rems r))
  ]

  -- The first loop keeps one remainder for each container with a request.
  pub floors-rems :
      (k : String) (i : ℕ) (rcs : List ResizableContainer) (f : Floors)
      → let g = floors target total i rcs f in
        (length g.rems ≡ length f.rems + requested_sum rcs)
        × (count k g.rems ≡ count k f.rems + mentions k rcs)
  unfolding floors
  floors-rems k i [] f = (omega arith, omega arith)
  floors-rems k i (c ∷ rcs) f =
      let (len, cnt) = floor_step-rems k i c f in
      let (len', cnt') = floors-rems k (suc i) rcs (floor_step target total i c f) in
      (omega (arith, len, len'), omega (arith, cnt, cnt'))

  floor_step-lookup :
      (k : String) (i : ℕ) (c : ResizableContainer) (f : Floors)
      → str_eq c.name k ≡ false
      → lookup k (floor_step target total i c f).out ≡ lookup k f.out
  unfolding floor_step
  floor_step-lookup k i c f other = elim (Bool-cases (leb_ℤ c.request_milli (pos 0))) [
    | inl e ↦ rw e refl
    | inr e ↦
        rw e
          (lookup-insert c.name k (base_share target c.request_milli total) f.out ∙ rw other refl)
  ]

  -- It leaves an entry alone that is no container's,
  floors-lookup :
      (k : String) (i : ℕ) (rcs : List ResizableContainer) (f : Floors)
      → Fresh k rcs
      → lookup k (floors target total i rcs f).out ≡ lookup k f.out
  unfolding floors
  floors-lookup k i [] f h = refl
  floors-lookup k i (c ∷ rcs) f h =
      floors-lookup k (suc i) rcs (floor_step target total i c f) h.1
      ∙ floor_step-lookup k i c f (str_eq_sym_false k c.name h.0)

  floor_step-base_share :
      (i : ℕ) (c : ResizableContainer) (f : Floors)
      → leb_ℤ c.request_milli (pos 0) ≡ false
      → lookup c.name (floor_step target total i c f).out
        ≡ some (base_share target c.request_milli total)
  unfolding floor_step
  floor_step-base_share i c f e =
      rw e (lookup-insert_self c.name (base_share target c.request_milli total) f.out)

  -- and gives each container with a request its share.
  pub floors-base_share :
      (i : ℕ) (rcs : List ResizableContainer) (f : Floors)
      → UniqueNames rcs
      → All
          (λ c.
            (leb_ℤ c.request_milli (pos 0) ≡ true)
            ⊎ (lookup c.name (floors target total i rcs f).out
                ≡ some (base_share target c.request_milli total)))
          rcs
  unfolding floors
  floors-base_share i [] f u = tt
  floors-base_share i (c ∷ rcs) f (h, u) =
      let rest = floors-base_share (suc i) rcs (floor_step target total i c f) u in
      elim (Bool-cases (leb_ℤ c.request_milli (pos 0))) [
        | inl e ↦ (inl e, rest)
        | inr e ↦ (
          inr (
              floors-lookup c.name (suc i) rcs (floor_step target total i c f) h
              ∙ floor_step-base_share i c f e),
          rest,
        )
      ]

-- The shares lose less than one milli-core for each container with a request.
pub shares_sum-near :
    (target total : ℕ) (rcs : List ResizableContainer)
    → 0 < total
    → AreRequests rcs
    → target * requests_sum rcs ≤ (shares_sum target total rcs + requested_sum rcs) * total
shares_sum-near target total [] pt q = omega arith
shares_sum-near target total (c ∷ rcs) pt (q, qs) =
    let rest = shares_sum-near target total rcs pt qs in
    elim (Bool-cases (leb_ℤ c.request_milli (pos 0))) [
      | inl e ↦ let z : request_of c ≡ 0 = ground arith in rw (e, z) (omega (arith, rest))
      | inr e ↦ rw e (omega (arith, rest, lt-div-mul-add {a = target * request_of c} pt))
    ]
