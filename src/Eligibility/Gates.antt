-- ===== src/Eligibility/Gates.antt =====
-- The gates of a pod, a namespace and an owner (OptedOut, HasPodLevelResources, NamespaceManaged,
-- OwnerExcluded): what their tests say of the objects.
use kube_headroom.Prelude.{
  ◌≡◌, ◌≢◌, refl, ap, sym, Bool, true, false, not, ◌&&◌, ◌||◌, ◌⊎◌, inl, inr, Option, none, some,
  List, [], ◌∷◌, String, Bool-cases, All, arith, length, ltb,
}
use kube_headroom.Prelude.Text.{
  lookup, str_eq, str_eq-true, str_eq-false, str_eq_iff, contains, cut,
}
use kube_headroom.Kube.{
  GoMap, OwnerReference, ExcludedOwner, PodResources, Pod, Namespace, Selectors, HeadroomConfigSpec,
  text_of, label_mode, mode_managed, mode_unmanaged,
}
use kube_headroom.Eligibility.{
  ResizableContainer, opted_out, has_resources, has_restart_on_resize, namespace_managed,
  owner_matches, matches_any, any_excluded,
}

neither : (a b : Bool) → (a || b) ≡ false → (a ≡ false) × (b ≡ false)
neither a b h = ground arith

text_of-some : (k v : String) (m : GoMap String) → v ≢ "" → text_of k m ≡ v → lookup k m ≡ some v
unfolding text_of
text_of-some k v m h = by_entry (lookup k m)
  where
    by_entry : (o : Option String) → elim o [ some w ↦ w | none ↦ "" ] ≡ v → o ≡ some v
    by_entry none e = absurd (h (sym e))
    by_entry (some w) e = ap some e

pub opted_out-false :
    {Q : Type 0} (pod : Pod Q)
    → opted_out pod ≡ false
    → lookup label_mode pod.labels ≢ some mode_unmanaged
unfolding opted_out text_of
opted_out-false pod e f =
    let marked : text_of label_mode pod.labels ≡ mode_unmanaged = rw (f, text_of) refl in
    str_eq-false (text_of label_mode pod.labels) mode_unmanaged e marked

-- The pod has no requests and no limits of its own.
abbrev pub NoResources : {Q : Type 0} → Option (PodResources Q) → Type 0
NoResources none = Unit
NoResources (some r) = (r.requests ≡ []) × (r.limits ≡ [])

no_entries : {A : Type 0} (xs : List A) → ltb 0 (length xs) ≡ false → xs ≡ []
no_entries [] e = refl
no_entries (x ∷ xs) e = absurd (ground arith)

pub has_resources-false :
    {Q : Type 0} (o : Option (PodResources Q)) → has_resources o ≡ false → NoResources o
unfolding has_resources
has_resources-false none e = tt
has_resources-false (some r) e =
    let (a, b) = neither (ltb 0 (length r.requests)) (ltb 0 (length r.limits)) e in
    (no_entries r.requests a, no_entries r.limits b)

pub has_restart_on_resize-false :
    (rcs : List ResizableContainer)
    → has_restart_on_resize rcs ≡ false
    → All (λ c. c.restart_on_resize ≡ false) rcs
unfolding has_restart_on_resize
has_restart_on_resize-false [] e = tt
has_restart_on_resize-false (c ∷ rcs) e =
    let (a, b) = neither c.restart_on_resize (has_restart_on_resize rcs) e in
    (a, has_restart_on_resize-false rcs b)

-- An entry of the list of exclusions covers the owner: the kind is the same, and so are the group
-- and the name, each where the entry gives it.
abbrev pub Excludes : ExcludedOwner → OwnerReference → Type 0
Excludes e ref =
    (e.kind ≡ ref.kind)
    × ((e.api_group ≡ "") ⊎ (e.api_group ≡ cut b'/' ref.api_version))
    × ((e.name ≡ "") ⊎ (e.name ≡ ref.name))

-- A text that an entry gives, or does not.
given : (a b : String) → (a ≡ "") ⊎ (a ≡ b) → (not (str_eq a "") && not (str_eq a b)) ≡ false
given a b (inl e) = rw ((str_eq_iff a "").1 e) refl
given a b (inr e) = rw ((str_eq_iff a b).1 e) (ground arith)

pub Excludes-owner_matches :
    (ref : OwnerReference) (e : ExcludedOwner) → Excludes e ref → owner_matches ref e ≡ true
unfolding owner_matches
Excludes-owner_matches ref e (k, g, n) =
    rw
      (
        (str_eq_iff e.kind ref.kind).1 k,
        given e.api_group (cut b'/' ref.api_version) g,
        given e.name ref.name n,
      )
      refl

matches_any-false :
    (ref : OwnerReference) (excluded : List ExcludedOwner)
    → matches_any ref excluded ≡ false
    → All (λ e. ¬ Excludes e ref) excluded
unfolding matches_any
matches_any-false ref [] h = tt
matches_any-false ref (e ∷ excluded) h =
    let (a, b) = neither (owner_matches ref e) (matches_any ref excluded) h in
    ((λ x. cc (Excludes-owner_matches ref e x, a)), matches_any-false ref excluded b)

pub any_excluded-false :
    (refs : List OwnerReference) (excluded : List ExcludedOwner)
    → any_excluded refs excluded ≡ false
    → All (λ ref. All (λ e. ¬ Excludes e ref) excluded) refs
unfolding any_excluded
any_excluded-false [] excluded h = tt
any_excluded-false (ref ∷ refs) excluded h =
    let (a, b) = neither (matches_any ref excluded) (any_excluded refs excluded) h in
    (matches_any-false ref excluded a, any_excluded-false refs excluded b)

contains-false : (k : String) (xs : List String) → contains k xs ≡ false → All (λ x. x ≢ k) xs
contains-false k [] h = tt
contains-false k (x ∷ xs) h =
    let (a, b) = neither (str_eq x k) (contains k xs) h in
    (str_eq-false x k a, contains-false k xs b)

parsed_lem :
    (labels : GoMap String) (o : Option (GoMap String → Bool))
    → elim o [ none ↦ false | some matches ↦ matches labels ] ≡ true
    → (matches : GoMap String → Bool) × (o ≡ some matches) × (matches labels ≡ true)
parsed_lem labels none h = cc h
parsed_lem labels (some matches) h = (matches, refl, h)

module _ {S : Type 0} ⦃sel : Selectors S⦄ (ns : Namespace) where
  -- The selector selects the namespace, or there is none and the namespace has the label that opts it
  -- in.
  abbrev pub IsSelected : Option S → Type 0
  IsSelected o =
      ((o ≡ none) × (lookup label_mode ns.labels ≡ some mode_managed))
      ⊎ ((selector : S) × (matches : GoMap String → Bool) × (o ≡ some selector)
          × (sel.label_selector_as_selector selector ≡ some matches)
          × (matches ns.labels ≡ true))

  selected_lem :
      (o : Option S)
      → elim o [
        | none ↦ str_eq (text_of label_mode ns.labels) mode_managed
        | some selector ↦ elim (sel.label_selector_as_selector selector) [
          | none ↦ false
          | some matches ↦ matches ns.labels
        ]
      ]
        ≡ true
      → IsSelected o
  selected_lem none h = inl (
    refl,
    text_of-some label_mode mode_managed ns.labels (λ e. cc e)
        (str_eq-true (text_of label_mode ns.labels) mode_managed h),
  )
  selected_lem (some selector) h =
      let (matches, e, f) = parsed_lem ns.labels (sel.label_selector_as_selector selector) h in
      inr (selector, matches, refl, e, f)

module _ {Q S : Type 0} ⦃sel : Selectors S⦄ where
  -- The namespace is not excluded, and selected.
  abbrev pub IsOptedIn : Namespace → HeadroomConfigSpec Q S → Type 0
  IsOptedIn ns spec =
      All (λ x. x ≢ ns.name) spec.excluded_namespaces × IsSelected ns spec.namespace_selector

  pub namespace_managed-IsOptedIn :
      (ns : Namespace) (spec : HeadroomConfigSpec Q S)
      → namespace_managed ns spec ≡ true
      → IsOptedIn ns spec
  unfolding namespace_managed
  namespace_managed-IsOptedIn ns spec h =
      elim (Bool-cases (contains ns.name spec.excluded_namespaces)) [
        | inl excluded ↦ cc (rw excluded at h)
        | inr free ↦ (
          contains-false ns.name spec.excluded_namespaces free,
          selected_lem ns spec.namespace_selector (rw free at h),
        )
      ]
