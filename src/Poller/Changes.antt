-- ===== src/Poller/Changes.antt =====
-- Refresh: the namespaces that it tells of.
use kube_headroom.Prelude.{
  ◌≡◌, refl, ap, sym, ◌∙◌, Bool, true, false, ◌&&◌, ◌||◌, ◌⊎◌, inl, inr, if◌then◌else◌, Option,
  none, some, List, [], ◌∷◌, ◌++◌, String, arith, Bool-cases, Option-cases,
}
use mathlib.Core.Path.{ap₂}
use kube_headroom.Prelude.Text.{lookup, contains, str_eq, str_eq-true}
use kube_headroom.Kube.{GoMap}
use kube_headroom.Eligibility.Vpa.{Vpa, VpaContainerPolicy}
use kube_headroom.Poller.{
  strings_equal, resources_equal, policy_equal, policies_equal, vpa_equal, vpas_equal, unchanged,
  is_present, changed, gone, notify, Listing, listed, absent, forbidden, failing, ended, Poller,
  refresh, for_namespace,
}

and_true : (a b : Bool) → (a && b) ≡ true → (a ≡ true) × (b ≡ true)
and_true a b e = ground arith

strings_equal-true : (ss ts : List String) → strings_equal ss ts ≡ true → ss ≡ ts
strings_equal-true [] [] e = refl
strings_equal-true [] (t ∷ ts) e = cc e
strings_equal-true (s ∷ ss) [] e = cc e
strings_equal-true (s ∷ ss) (t ∷ ts) e =
    let (h, hs) = and_true (str_eq s t) (strings_equal ss ts) e in
    ap₂ (λ (x : String) (xs : List String). x ∷ xs) (str_eq-true s t h)
      (strings_equal-true ss ts hs)

resources_equal-true : (a b : Option (List String)) → resources_equal a b ≡ true → a ≡ b
resources_equal-true none none e = refl
resources_equal-true none (some ts) e = cc e
resources_equal-true (some ss) none e = cc e
resources_equal-true (some ss) (some ts) e = ap some (strings_equal-true ss ts e)

conj_4 :
    (a b c d : Bool) → (a && b && c && d) ≡ true → (a ≡ true) × (b ≡ true) × (c ≡ true) × (d ≡ true)
conj_4 a b c d e = ground arith

conj_5 :
    (a b c d f : Bool)
    → (a && b && c && d && f) ≡ true
    → (a ≡ true) × (b ≡ true) × (c ≡ true) × (d ≡ true) × (f ≡ true)
conj_5 a b c d f e = ground arith

policy_equal-true : (p r : VpaContainerPolicy) → policy_equal p r ≡ true → p ≡ r
policy_equal-true p r e =
    let (n, m, c, v) =
      conj_4 (str_eq p.container_name r.container_name) (str_eq p.mode r.mode)
        (resources_equal p.controlled_resources r.controlled_resources)
        (str_eq p.controlled_values r.controlled_values) e in
    ap (λ x. record p { container_name = x }) (str_eq-true p.container_name r.container_name n)
    ∙ ap (λ x. record p { container_name = r.container_name; mode = x })
        (str_eq-true p.mode r.mode m)
    ∙ ap (λ x. record r { controlled_resources = x; controlled_values = p.controlled_values })
        (resources_equal-true p.controlled_resources r.controlled_resources c)
    ∙ ap (λ x. record r { controlled_values = x })
        (str_eq-true p.controlled_values r.controlled_values v)

policies_equal-true : (ps rs : List VpaContainerPolicy) → policies_equal ps rs ≡ true → ps ≡ rs
policies_equal-true [] [] e = refl
policies_equal-true [] (r ∷ rs) e = cc e
policies_equal-true (p ∷ ps) [] e = cc e
policies_equal-true (p ∷ ps) (r ∷ rs) e =
    let (h, hs) = and_true (policy_equal p r) (policies_equal ps rs) e in
    ap₂ (λ (x : VpaContainerPolicy) (xs : List VpaContainerPolicy). x ∷ xs)
      (policy_equal-true p r h) (policies_equal-true ps rs hs)

vpa_equal-true : (v w : Vpa) → vpa_equal v w ≡ true → v ≡ w
vpa_equal-true v w e =
    let (n, k, t, u, ps) =
      conj_5 (str_eq v.name w.name) (str_eq v.target_kind w.target_kind)
        (str_eq v.target_name w.target_name) (str_eq v.update_mode w.update_mode)
        (policies_equal v.policies w.policies) e in
    ap (λ x. record v { name = x }) (str_eq-true v.name w.name n)
    ∙ ap (λ x. record v { name = w.name; target_kind = x })
        (str_eq-true v.target_kind w.target_kind k)
    ∙ ap (λ x. record w { target_name = x; update_mode = v.update_mode; policies = v.policies })
        (str_eq-true v.target_name w.target_name t)
    ∙ ap (λ x. record w { update_mode = x; policies = v.policies })
        (str_eq-true v.update_mode w.update_mode u)
    ∙ ap (λ x. record w { policies = x }) (policies_equal-true v.policies w.policies ps)

vpas_equal-true : (vs ws : List Vpa) → vpas_equal vs ws ≡ true → vs ≡ ws
vpas_equal-true [] [] e = refl
vpas_equal-true [] (w ∷ ws) e = cc e
vpas_equal-true (v ∷ vs) [] e = cc e
vpas_equal-true (v ∷ vs) (w ∷ ws) e =
    let (h, hs) = and_true (vpa_equal v w) (vpas_equal vs ws) e in
    ap₂ (λ (x : Vpa) (xs : List Vpa). x ∷ xs) (vpa_equal-true v w h) (vpas_equal-true vs ws hs)

unchanged-true : (o : Option (List Vpa)) (vpas : List Vpa) → unchanged o vpas ≡ true → o ≡ some vpas
unchanged-true none vpas e = cc e
unchanged-true (some before) vpas e = ap some (vpas_equal-true before vpas e)

contains-append :
    (k : String) (xs ys : List String) → contains k (xs ++ ys) ≡ (contains k xs || contains k ys)
contains-append k [] ys = refl
contains-append k (x ∷ xs) ys = ground (arith, contains-append k xs ys)

head_lem : (k ns : String) (rest : List String) → str_eq k ns ≡ true → contains ns (k ∷ rest) ≡ true
head_lem k ns rest same = rw same refl

told_lem :
    (b : Bool) (k ns : String) (rest : List String)
    → contains ns rest ≡ true
    → contains ns (if b then rest else k ∷ rest) ≡ true
told_lem true k ns rest told = told
told_lem false k ns rest told = ground (arith, told)

-- A namespace of the current view is as before, or it is told of.
changed_lem :
    (previous current : GoMap (List Vpa)) (ns : String) (vpas : List Vpa)
    → lookup ns current ≡ some vpas
    → (lookup ns previous ≡ some vpas) ⊎ (contains ns (changed previous current) ≡ true)
unfolding changed
changed_lem previous [] ns vpas e = cc e
changed_lem previous ((k, v) ∷ current) ns vpas e =
    let rest = changed previous current in
    elim (Bool-cases (str_eq k ns)) [
      | inl same ↦
          let v_eq : some v ≡ some vpas = rw same at e in
          let k_eq : k ≡ ns = str_eq-true k ns same in
          elim (Bool-cases (unchanged (lookup k previous) v)) [
            | inl kept ↦ inl (
                ap (λ x. lookup x previous) (sym k_eq)
                ∙ unchanged-true (lookup k previous) v kept
                ∙ v_eq)
            | inr new ↦ inr (rw new (head_lem k ns rest same))
          ]
      | inr other ↦ elim (changed_lem previous current ns vpas (rw other at e)) [
        | inl kept ↦ inl kept
        | inr told ↦ inr (told_lem (unchanged (lookup k previous) v) k ns rest told)
      ]
    ]

-- A namespace of the view before is still there, or it is told of.
gone_lem :
    (previous current : GoMap (List Vpa)) (ns : String) (vpas : List Vpa)
    → lookup ns previous ≡ some vpas
    → (is_present (lookup ns current) ≡ true) ⊎ (contains ns (gone previous current) ≡ true)
unfolding gone
gone_lem [] current ns vpas e = cc e
gone_lem ((k, v) ∷ previous) current ns vpas e =
    let rest = gone previous current in
    elim (Bool-cases (str_eq k ns)) [
      | inl same ↦
          let k_eq : k ≡ ns = str_eq-true k ns same in
          elim (Bool-cases (is_present (lookup k current))) [
            | inl kept ↦ inl (ap (λ x. is_present (lookup x current)) (sym k_eq) ∙ kept)
            | inr new ↦ inr (rw new (head_lem k ns rest same))
          ]
      | inr other ↦ elim (gone_lem previous current ns vpas (rw other at e)) [
        | inl kept ↦ inl kept
        | inr told ↦ inr (told_lem (is_present (lookup k current)) k ns rest told)
      ]
    ]

-- A namespace that notify does not tell of has the same VPAs.
notify_lem :
    (previous current : GoMap (List Vpa)) (ns : String)
    → (lookup ns previous ≡ lookup ns current) ⊎ (contains ns (notify previous current) ≡ true)
unfolding notify
notify_lem previous current ns = elim (Option-cases (lookup ns current)) [
  | inr (vpas, e) ↦ elim (changed_lem previous current ns vpas e) [
    | inl same ↦ inl (same ∙ sym e)
    | inr told ↦
        inr (contains-append ns (changed previous current) (gone previous current) ∙ rw told refl)
  ]
  | inl e ↦ elim (Option-cases (lookup ns previous)) [
    | inl f ↦ inl (f ∙ sym e)
    | inr (vpas, f) ↦ elim (gone_lem previous current ns vpas f) [
      | inl there ↦ cc (rw e at there)
      | inr told ↦ inr (
          contains-append ns (changed previous current) (gone previous current)
          ∙ ground (arith, told))
    ]
  ]
]

abbrev vpas_of : Option (List Vpa) → List Vpa
vpas_of o = elim o [ none ↦ [] | some vpas ↦ vpas ]

same_lem :
    (previous current : GoMap (List Vpa)) (ns : String)
    → (lookup ns previous ≡ lookup ns current) ⊎ (contains ns (notify previous current) ≡ true)
    → (vpas_of (lookup ns current) ≡ vpas_of (lookup ns previous))
      ⊎ (contains ns (notify previous current) ≡ true)
same_lem previous current ns (inl e) = inl (ap vpas_of (sym e))
same_lem previous current ns (inr told) = inr told

-- After Refresh, whatever the listing comes to, ForNamespace gives for a namespace what it gave
-- before, or Refresh offers the namespace to the channel of changes.
pub refresh-for_namespace :
    (l : Listing) (p : Poller) (ns : String)
    → (for_namespace (refresh l p).0 ns ≡ for_namespace p ns) ⊎ (contains ns (refresh l p).1 ≡ true)
unfolding refresh for_namespace
refresh-for_namespace ended p ns = inl refl
refresh-for_namespace failing p ns = inl refl
refresh-for_namespace absent p ns = same_lem p.by_ns [] ns (notify_lem p.by_ns [] ns)
refresh-for_namespace forbidden p ns = same_lem p.by_ns [] ns (notify_lem p.by_ns [] ns)
refresh-for_namespace (listed by_ns) p ns = same_lem p.by_ns by_ns ns (notify_lem p.by_ns by_ns ns)
