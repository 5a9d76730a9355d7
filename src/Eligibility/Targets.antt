-- ===== src/Eligibility/Targets.antt =====
-- podUnderTarget and the chains of owners that it stands for.
use mathlib.Core.Path.{subst}
use Prim.Native.String.{◌++◌ as str_append}
use Prim.Native.String.append.{nil, cons}
use Prim.Native.Char.{Char, code}
use text.Mathlib.TextEquality.{Char-path}
use kube_headroom.Prelude.{
  ◌≡◌, ◌≢◌, refl, ap, sym, ◌∙◌, Bool, true, false, not, ◌&&◌, ◌⊎◌, inl, inr, if◌then◌else◌, some,
  String, Bool-cases, ◌==◌, arith,
}
use kube_headroom.Kube.{OwnerReference}
use kube_headroom.Eligibility.Vpa.{owner_under_target}
use kube_headroom.Prelude.Text.{
  str_eq, str_eq-true, str_eq-false, str_eq_iff, has_char, before_last,
}

abbrev dash : Char
dash = "-"

-- The text is the name, a dash and a suffix without a dash, or it has no dash and the name is empty.
abbrev pub IsChild : String → String → Type 0
IsChild name full =
    ((suffix : String) × (full ≡ str_append name (String.◌∷◌ dash suffix))
      × (has_char b'-' suffix ≡ false))
    ⊎ ((name ≡ "") × (has_char b'-' full ≡ false))

has_char-append : (s suffix : String) → has_char b'-' (str_append s (String.◌∷◌ dash suffix)) ≡ true
has_char-append String.[] suffix = rw (nil (String.◌∷◌ dash suffix)) refl
has_char-append (String.◌∷◌ x s) suffix =
    rw (cons x s (String.◌∷◌ dash suffix), has_char-append s suffix) (ground arith)

before_last-append :
    (name suffix : String)
    → has_char b'-' suffix ≡ false
    → before_last b'-' (str_append name (String.◌∷◌ dash suffix)) ≡ name
unfolding before_last
before_last-append String.[] suffix h = rw (nil (String.◌∷◌ dash suffix), h) refl
before_last-append (String.◌∷◌ x s) suffix h =
    rw (cons x s (String.◌∷◌ dash suffix), has_char-append s suffix, before_last-append s suffix h)
      refl

before_last-IsChild : (s : String) → IsChild (before_last b'-' s) s
unfolding before_last
before_last-IsChild String.[] = inr (refl, refl)
before_last-IsChild (String.◌∷◌ x s) = elim (Bool-cases (has_char b'-' s)) [
  | inl e ↦ rw e (elim (before_last-IsChild s) [
    | inl (suffix, f, h) ↦ inl (
      suffix,
      ap (String.◌∷◌ x) f ∙ sym (cons x (before_last b'-' s) (String.◌∷◌ dash suffix)),
      h,
    )
    | inr (z, h) ↦ cc
  ])
  | inr e ↦ rw e (elim (Bool-cases (code x == b'-')) [
    | inl here ↦ inl (
      s,
      ap (λ y. String.◌∷◌ y s) (Char-path x dash (ground arith)) ∙ sym (nil (String.◌∷◌ dash s)),
      e,
    )
    | inr away ↦ inr (refl, rw away refl)
  ])
]

before_last-none : (s : String) → has_char b'-' s ≡ false → before_last b'-' s ≡ ""
unfolding before_last
before_last-none String.[] h = refl
before_last-none (String.◌∷◌ x s) h =
    let later : has_char b'-' s ≡ false = ground arith in rw later refl

-- What stands before the last dash is the name whose child the text is.
before_last_iff :
    (name full : String)
    → (before_last b'-' full ≡ name → IsChild name full)
      × (IsChild name full → before_last b'-' full ≡ name)
before_last_iff name full = (
  (λ e. subst (λ x. IsChild x full) e (before_last-IsChild full)),
  λ h. elim h [
    | inl (suffix, f, g) ↦ ap (before_last b'-') f ∙ before_last-append name suffix g
    | inr (z, g) ↦ before_last-none full g ∙ sym z
  ],
)

-- The target of a VPA is a pod's controller, the Deployment (or what else makes ReplicaSets) of which that is
-- the ReplicaSet, or the CronJob of which it is the Job.
pub data Targets (owner : OwnerReference) (kind name : String) : Type 0 where
  controller : owner.kind ≡ kind → owner.name ≡ name → Targets owner kind name
  of_replica_set :
      owner.kind ≡ "ReplicaSet"
      → kind ≢ "ReplicaSet"
      → IsChild name owner.name
      → Targets owner kind name
  of_job : owner.kind ≡ "Job" → kind ≡ "CronJob" → IsChild name owner.name → Targets owner kind name

under_lem :
    (a b c d e f g : Bool)
    → (if a && b then true else (if c then not d && e else (if f then g && e else false))) ≡ true
    → ((a ≡ true) × (b ≡ true))
      ⊎ (((c ≡ true) × (d ≡ false) × (e ≡ true)) ⊎ ((f ≡ true) × (g ≡ true) × (e ≡ true)))
under_lem a b c d e f g h = ground arith

lem_under :
    (a b c d e f g : Bool)
    → ((a ≡ true) × (b ≡ true))
      ⊎ (((c ≡ true) × (d ≡ false) × (e ≡ true))
          ⊎ ((c ≡ false) × (f ≡ true) × (g ≡ true) × (e ≡ true)))
    → (if a && b then true else (if c then not d && e else (if f then g && e else false))) ≡ true
lem_under a b c d e f g h = ground arith

pub str_eq-of : (a b : String) → a ≡ b → str_eq a b ≡ true
str_eq-of a b e = (str_eq_iff a b).1 e

pub str_eq-not : (a b : String) → a ≢ b → str_eq a b ≡ false
str_eq-not a b h = elim (Bool-cases (str_eq a b)) [
  | inl e ↦ absurd (h (str_eq-true a b e))
  | inr e ↦ e
]

module _ (owner : OwnerReference) (kind name : String) where
  pub owner_under_target-Targets :
      owner_under_target (some owner) kind name ≡ true → Targets owner kind name
  unfolding owner_under_target
  owner_under_target-Targets h =
      let parent = before_last b'-' owner.name in
      let child : str_eq parent name ≡ true → IsChild name owner.name =
        λ (e : str_eq parent name ≡ true).
          (before_last_iff name owner.name).0 (str_eq-true parent name e) in
      elim (under_lem (str_eq owner.kind kind) (str_eq owner.name name)
        (str_eq owner.kind "ReplicaSet") (str_eq kind "ReplicaSet") (str_eq parent name)
        (str_eq owner.kind "Job") (str_eq kind "CronJob") h) [
          | inl (e, f) ↦ controller (str_eq-true owner.kind kind e) (str_eq-true owner.name name f)
          | inr (inl (e, f, g)) ↦
              of_replica_set (str_eq-true owner.kind "ReplicaSet" e)
                (str_eq-false kind "ReplicaSet" f) (child g)
          | inr (inr (e, f, g)) ↦
              of_job (str_eq-true owner.kind "Job" e) (str_eq-true kind "CronJob" f) (child g)
        ]

  pub Targets-owner_under_target :
      Targets owner kind name → owner_under_target (some owner) kind name ≡ true
  unfolding owner_under_target
  Targets-owner_under_target h =
      let parent = before_last b'-' owner.name in
      let child : IsChild name owner.name → str_eq parent name ≡ true =
        λ (g : IsChild name owner.name).
          str_eq-of parent name ((before_last_iff name owner.name).1 g) in
      lem_under (str_eq owner.kind kind) (str_eq owner.name name) (str_eq owner.kind "ReplicaSet")
        (str_eq kind "ReplicaSet") (str_eq parent name) (str_eq owner.kind "Job")
        (str_eq kind "CronJob")
        (elim h [
          | controller e f ↦ inl (str_eq-of owner.kind kind e, str_eq-of owner.name name f)
          | of_replica_set e f g ↦
              inr
                (inl (str_eq-of owner.kind "ReplicaSet" e, str_eq-not kind "ReplicaSet" f, child g))
          | of_job e f g ↦
              inr
                (inr (rw e refl, str_eq-of owner.kind "Job" e, str_eq-of kind "CronJob" f, child g))
        ])
