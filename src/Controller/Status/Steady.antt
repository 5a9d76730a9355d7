-- ===== src/Controller/Status/Steady.antt =====
-- The status annotation: when writePodStatus writes it.
use mathlib.Core.Path.{subst, sym}
use kube_headroom.Prelude.{
  xor, ◌≡◌, refl, ap, ◌∙◌, Bool, true, false, not, ◌&&◌, ◌↔◌, if◌then◌else◌, Option, none, some,
  String, arith,
}
use kube_headroom.Prelude.Int.{eqb_ℤ, eqb_ℤ-refl, eqb_ℤ-true}
use kube_headroom.Prelude.Text.{
  insert, lookup-insert_self, str_eq, str_eq_refl, str_eq-true, str_eq_iff,
}
use kube_headroom.Kube.{GoMap, text_of}
use kube_headroom.Controller.Status.{
  annotation_status, PodStatus, Codec, same_status, undated, is_up_to_date, untouched, annotates,
  marshalled, write_pod_status,
}

-- What encoding/json promises of a status: its text is not empty, and is read back.
abbrev pub ReadsBack : Codec → PodStatus → Type 0
ReadsBack codec s =
    (text : String)
    → codec.marshal s ≡ some text
    → (¬ (text ≡ "")) × (codec.unmarshal text ≡ some s)

-- A chain of eight tests that holds.
conj_8 :
    (a b c d e f g h : Bool)
    → (a && b && c && d && e && f && g && h) ≡ true
    → (a ≡ true)
      × (b ≡ true)
      × (c ≡ true)
      × (d ≡ true)
      × (e ≡ true)
      × (f ≡ true)
      × (g ≡ true)
      × (h ≡ true)
conj_8 a b c d e f g h p = ground arith

text_of-insert :
    (text : String) (annotations : GoMap String)
    → text_of annotation_status (insert annotation_status text annotations) ≡ text
unfolding text_of
text_of-insert text annotations =
    ap (λ (o : Option String). elim o [ some v ↦ v | none ↦ "" ])
      (lookup-insert_self annotation_status text annotations)

same_bool : (a b : Bool) → not (xor a b) ≡ true → a ≡ b
same_bool a b h = ground arith

not-xor_self : (a : Bool) → not (xor a a) ≡ true
not-xor_self a = ground arith

same_status_refl : (s : PodStatus) → same_status s s ≡ true
unfolding same_status
same_status_refl s = simp (str_eq_refl, eqb_ℤ-refl, not-xor_self)

same_status-true : (s t : PodStatus) → same_status s t ≡ true → s ≡ t
unfolding same_status
same_status-true s t h =
    let (e1, e2, e3, e4, e5, e6, e7, e8) =
      conj_8 (str_eq s.factor t.factor) (str_eq s.slack t.slack)
        (str_eq s.managed_requests t.managed_requests) (eqb_ℤ s.node_pods t.node_pods)
        (str_eq s.target_limit t.target_limit) (str_eq s.policy t.policy)
        (not (xor s.dry_run t.dry_run)) (str_eq s.computed_at t.computed_at) h in
    cc (
      str_eq-true s.factor t.factor e1,
      str_eq-true s.slack t.slack e2,
      str_eq-true s.managed_requests t.managed_requests e3,
      eqb_ℤ-true s.node_pods t.node_pods e4,
      str_eq-true s.target_limit t.target_limit e5,
      str_eq-true s.policy t.policy e6,
      same_bool s.dry_run t.dry_run e7,
      str_eq-true s.computed_at t.computed_at e8,
    )

-- The test of a decoded annotation: it carries the desired status, whatever its instant.
is_up_to_date_lem :
    (prev desired : PodStatus)
    → (is_up_to_date (some prev) desired ≡ true) ↔ (undated prev ≡ undated desired)
unfolding is_up_to_date
is_up_to_date_lem prev desired = (
  same_status-true (undated prev) (undated desired),
  λ e.
      subst (λ (s : PodStatus). same_status (undated prev) s ≡ true) e
        (same_status_refl (undated prev)),
)

marshalled-untouched : (o : Option String) → ¬ (marshalled o ≡ untouched)
unfolding marshalled
marshalled-untouched none e = cc e
marshalled-untouched (some text) e = cc e

if_untouched :
    (b : Bool) (o : Option String)
    → ((if b then untouched else marshalled o) ≡ untouched) ↔ (b ≡ true)
if_untouched true o = (λ e. refl, λ e. refl)
if_untouched false o = (λ e. absurd (marshalled-untouched o e), λ e. absurd (cc e))

marshalled-annotates :
    (o : Option String) (text : String) → marshalled o ≡ annotates text → o ≡ some text
unfolding marshalled
marshalled-annotates none text e = absurd (cc e)
marshalled-annotates (some t) text e = cc e

if_annotates :
    (b : Bool) (o : Option String) (text : String)
    → (if b then untouched else marshalled o) ≡ annotates text
    → o ≡ some text
if_annotates true o text e = absurd (cc e)
if_annotates false o text e = marshalled-annotates o text e

module _ (codec : Codec) where
  -- An annotation whose text decodes is left as it is just where it carries the desired status.
  write_pod_status_lem :
      (now : String) (annotations : GoMap String) (prev desired : PodStatus)
      → ¬ (text_of annotation_status annotations ≡ "")
      → codec.unmarshal (text_of annotation_status annotations) ≡ some prev
      → (write_pod_status codec now annotations desired ≡ untouched)
        ↔ (undated prev ≡ undated desired)
  unfolding write_pod_status
  write_pod_status_lem now annotations prev desired some_text decodes =
      let present : str_eq (text_of annotation_status annotations) "" ≡ false =
        ground (arith, str_eq_iff (text_of annotation_status annotations) "") in
      let (sound, complete) = is_up_to_date_lem prev desired in
      let (stops, keeps) =
        if_untouched
          (not (str_eq (text_of annotation_status annotations) "")
            && is_up_to_date (codec.unmarshal (text_of annotation_status annotations)) desired)
          (codec.marshal (record desired { computed_at = now })) in
      let same : (not (str_eq (text_of annotation_status annotations) "")
            && is_up_to_date (codec.unmarshal (text_of annotation_status annotations)) desired)
          ≡ is_up_to_date (some prev) desired =
        rw (present, decodes) refl in
      (λ e. sound (sym same ∙ stops e), λ e. keeps (same ∙ complete e))

  -- Where JSON reads back the status that writePodStatus has written, a later write to the
  -- annotated pod is left out if and only if its status is the written one, the instants apart.
  pub write_pod_status-annotates :
      (now text : String) (annotations : GoMap String) (desired : PodStatus)
      → ReadsBack codec (record desired { computed_at = now })
      → write_pod_status codec now annotations desired ≡ annotates text
      → (later : String) (next : PodStatus)
      → (write_pod_status codec later (insert annotation_status text annotations) next ≡ untouched)
        ↔ (undated desired ≡ undated next)
  unfolding write_pod_status
  write_pod_status-annotates now text annotations desired back sent later next =
      let (some_text, decodes) = back text (if_annotates _ _ text sent) in
      let reads : text_of annotation_status (insert annotation_status text annotations) ≡ text =
        text_of-insert text annotations in
      write_pod_status_lem later (insert annotation_status text annotations)
        (record desired { computed_at = now }) next (λ e. some_text (sym reads ∙ e))
        (ap codec.unmarshal reads ∙ decodes)
