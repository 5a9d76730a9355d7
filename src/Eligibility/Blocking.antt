-- ===== src/Eligibility/Blocking.antt =====
-- LimitManagingVPA: the policies of a VPA, and the tests that it passes.
use mathlib.Core.Path.{subst}
use kube_headroom.Prelude.{
  ◌≡◌, ◌≢◌, refl, ap, ◌∙◌, sym, Bool, true, false, ◌||◌, ◌⊎◌, inl, inr, if◌then◌else◌, Option, none,
  some, List, [], ◌∷◌, String, Bool-cases, All, OneOf, any,
}
use kube_headroom.Prelude.Text.{str_eq}
use kube_headroom.Kube.{OwnerReference, Pod}
use kube_headroom.Eligibility.{ResizableContainer}
use kube_headroom.Eligibility.Vpa.{
  VpaContainerPolicy, Vpa, find_policy, policy_for, policy_writes, writes_cpu_limit, writes_any,
  pod_under_target, limit_managing_vpa,
}

-- The first policy that passes a test, and the last.
abbrev pub first : (VpaContainerPolicy → Bool) → List VpaContainerPolicy → Option VpaContainerPolicy
first test [] = none
first test (p ∷ policies) = let rest = first test policies in if test p then some p else rest

abbrev pub or_else :
    Option VpaContainerPolicy → Option VpaContainerPolicy → Option VpaContainerPolicy
or_else none other = other
or_else (some p) other = some p

abbrev pub last : (VpaContainerPolicy → Bool) → List VpaContainerPolicy → Option VpaContainerPolicy
last test [] = none
last test (p ∷ policies) = or_else (last test policies) (if test p then some p else none)

abbrev pub names : String → VpaContainerPolicy → Bool
names container p = str_eq p.container_name container

or_else_fall :
    (o : Option VpaContainerPolicy) (b : Bool) (p : VpaContainerPolicy)
    (fallback : Option VpaContainerPolicy)
    → or_else o (if b then some p else fallback)
      ≡ or_else (or_else o (if b then some p else none)) fallback
or_else_fall none true p fallback = refl
or_else_fall none false p fallback = refl
or_else_fall (some x) b p fallback = refl

or_else-none : (o : Option VpaContainerPolicy) → or_else o none ≡ o
or_else-none none = refl
or_else-none (some p) = refl

find_policy_lem :
    (container : String) (policies : List VpaContainerPolicy) (fallback : Option VpaContainerPolicy)
    → find_policy container policies fallback
      ≡ or_else (first (names container) policies) (or_else (last (names "*") policies) fallback)
unfolding find_policy
find_policy_lem container [] fallback = refl
find_policy_lem container (p ∷ policies) fallback = elim (Bool-cases (names container p)) [
  | inl here ↦ rw here refl
  | inr other ↦ rw other (
      find_policy_lem container policies (if names "*" p then some p else fallback)
      ∙ ap (or_else (first (names container) policies))
          (or_else_fall (last (names "*") policies) (names "*" p) p fallback))
]

-- policyFor gives the first policy that names the container, and where none does, the last policy
-- for all names.
pub policy_for_lem :
    (v : Vpa) (container : String)
    → policy_for v container
      ≡ or_else (first (names container) v.policies) (last (names "*") v.policies)
unfolding policy_for
policy_for_lem v container =
    find_policy_lem container v.policies none
    ∙ ap (or_else (first (names container) v.policies)) (or_else-none (last (names "*") v.policies))

-- A policy that leaves CPU limits alone.
abbrev pub leaves_limits : VpaContainerPolicy → Bool
leaves_limits p = str_eq p.mode "Off" || str_eq p.controlled_values "RequestsOnly"

-- A VPA that leaves the CPU limit of every container alone: it is off, or each of its policies leaves
-- limits alone and one of them is for all names.
abbrev pub LeavesLimits : Vpa → Type 0
LeavesLimits v =
    (v.update_mode ≡ "Off")
    ⊎ (All (λ p. leaves_limits p ≡ true) v.policies × (any (names "*") v.policies ≡ true))

-- What a lookup finds among policies that leave limits alone, with one for all names.
find_policy-leaves :
    (container : String) (policies : List VpaContainerPolicy) (fallback : Option VpaContainerPolicy)
    → All (λ p. leaves_limits p ≡ true) policies
    → (any (names "*") policies ≡ true)
      ⊎ ((p : VpaContainerPolicy) × (fallback ≡ some p) × (leaves_limits p ≡ true))
    → (p : VpaContainerPolicy) × (find_policy container policies fallback ≡ some p)
      × (leaves_limits p ≡ true)
unfolding find_policy
find_policy-leaves container [] fallback all (inl e) = cc e
find_policy-leaves container [] fallback all (inr (p, e, h)) = (p, e, h)
find_policy-leaves container (p ∷ policies) fallback (h, all) covers =
    elim (Bool-cases (names container p)) [
      | inl here ↦ rw here (p, refl, h)
      | inr other ↦ rw other (elim (Bool-cases (names "*" p)) [
        | inl wild ↦ rw wild (find_policy-leaves container policies (some p) all (inr (p, refl, h)))
        | inr tame ↦
            rw tame (find_policy-leaves container policies fallback all (rw tame at covers))
      ])
    ]

writes_cpu_limit-LeavesLimits :
    (v : Vpa) (container : String) → LeavesLimits v → writes_cpu_limit v container ≡ false
unfolding writes_cpu_limit policy_for policy_writes
writes_cpu_limit-LeavesLimits v container (inl off) = rw off refl
writes_cpu_limit-LeavesLimits v container (inr (all, covers)) =
    let (p, e, h) = find_policy-leaves container v.policies none all (inl covers) in
    elim (Bool-cases (str_eq v.update_mode "Off")) [
      | inl off ↦ rw off refl
      | inr on ↦ rw (on, e, h) refl
    ]

writes_any-LeavesLimits :
    (v : Vpa) (rcs : List ResizableContainer) → LeavesLimits v → writes_any v rcs ≡ false
unfolding writes_any
writes_any-LeavesLimits v [] h = refl
writes_any-LeavesLimits v (c ∷ rcs) h =
    rw (writes_cpu_limit-LeavesLimits v c.name h) (writes_any-LeavesLimits v rcs h)

module _ {Q : Type 0} (controller_of : List OwnerReference → Option OwnerReference) (pod : Pod Q)
    (rcs : List ResizableContainer) where
  -- LimitManagingVPA gives the empty text where each VPA is off, or has only policies in mode Off
  -- or with controlledValues RequestsOnly and one of these for all names.
  pub limit_managing_vpa-LeavesLimits :
      (vpas : List Vpa) → All LeavesLimits vpas → limit_managing_vpa controller_of pod rcs vpas ≡ ""
  unfolding limit_managing_vpa
  limit_managing_vpa-LeavesLimits [] all = refl
  limit_managing_vpa-LeavesLimits (v ∷ vpas) (h, all) =
      let reads = writes_any-LeavesLimits v rcs h in
      let rest = limit_managing_vpa-LeavesLimits vpas all in
      elim (Bool-cases (pod_under_target controller_of pod v.target_kind v.target_name)) [
        | inl under ↦ rw (under, reads) rest
        | inr away ↦ rw away rest
      ]

  -- A VPA of the list blocks the pod.
  abbrev pub Blocks : Vpa → Type 0
  Blocks v =
      (pod_under_target controller_of pod v.target_kind v.target_name ≡ true)
      × (writes_any v rcs ≡ true)

  -- The name is empty and no VPA of the list passes both tests, or it is that of one that does.
  abbrev pub IsVerdict : String → List Vpa → Type 0
  IsVerdict name vpas =
      ((name ≡ "") × All (λ v. ¬ Blocks v) vpas)
      ⊎ ((name ≢ "") × OneOf (λ v. (name ≡ v.name) × Blocks v) vpas)

  passed_over :
      (name : String) (v : Vpa) (vpas : List Vpa)
      → ¬ Blocks v
      → IsVerdict name vpas
      → IsVerdict name (v ∷ vpas)
  passed_over name v vpas free (inl (e, rest)) = inl (e, (free, rest))
  passed_over name v vpas free (inr (n, one)) = inr (n, inr one)

  -- Where each VPA has a name, LimitManagingVPA gives that of one that passes both tests, or no VPA does.
  pub limit_managing_vpa-Blocks :
      (vpas : List Vpa)
      → All (λ v. v.name ≢ "") vpas
      → IsVerdict (limit_managing_vpa controller_of pod rcs vpas) vpas
  unfolding limit_managing_vpa
  limit_managing_vpa-Blocks [] all = inl (refl, tt)
  limit_managing_vpa-Blocks (v ∷ vpas) (h, all) =
      let rest = limit_managing_vpa-Blocks vpas all in
      let name = limit_managing_vpa controller_of pod rcs vpas in
      elim (Bool-cases (pod_under_target controller_of pod v.target_kind v.target_name)) [
        | inr away ↦
            let skip : limit_managing_vpa controller_of pod rcs (v ∷ vpas) ≡ name = rw away refl in
            subst (λ x. IsVerdict x (v ∷ vpas)) (sym skip)
              (passed_over name v vpas (λ b. cc (b.0, away)) rest)
        | inl under ↦ elim (Bool-cases (writes_any v rcs)) [
          | inl writes ↦
              let found : limit_managing_vpa controller_of pod rcs (v ∷ vpas) ≡ v.name =
                rw (under, writes) refl in
              inr ((λ e. h (sym found ∙ e)), inl (found, (under, writes)))
          | inr reads ↦
              let skip : limit_managing_vpa controller_of pod rcs (v ∷ vpas) ≡ name =
                rw (under, reads) refl in
              subst (λ x. IsVerdict x (v ∷ vpas)) (sym skip)
                (passed_over name v vpas (λ b. cc (b.1, reads)) rest)
        ]
      ]
