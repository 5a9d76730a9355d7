-- ===== src/Controller/Inputs/Silent.antt =====
-- buildInputs: which effects it has.
use kube_headroom.Prelude.{
  inl, inr, ◌≡◌, refl, ap, ◌∙◌, Bool, true, false, not, ◌&&◌, if◌then◌else◌, Option, none, some,
  List, [], ◌∷◌, ◌++◌, String, Bool-cases,
}
use Prim.Native.String.{◌++◌ as str_append}
use kube_headroom.Prelude.Text.{lookup, str_eq}
use kube_headroom.Kube.{Quantity, Pod, LimitRange, ResourceHelper, Selectors, HeadroomConfigSpec}
use kube_headroom.Eligibility.{pod_terminal}
use kube_headroom.Controller.PodInput.{pod_key}
use kube_headroom.Controller.Backoff.{in_backoff}
use kube_headroom.Controller.Resize.{Effect}
use kube_headroom.Controller.Resize.Attempts.{Patch, patches, patches-append}
use kube_headroom.Controller.Inputs.{
  or_fail, read_namespace, pod_resize_infeasible, Reads, Judging, Verdict, Result, gives,
  fails_with, and_then, cached_ranges, limit_ranges, seen_before, note_vpa_skip,
  back_off_infeasible, enrolled_verdict, input_of, finish_input, cached_verdict, namespace_verdict,
  may_manage, judge, build_input, build_inputs,
}

-- The patches sent so far.
record Sent {Q : Type 0} (ps : List (Patch Q)) (j : Judging Q) : Type 0 where
  sent : patches j.effects ≡ ps

append_nil : {A : Type 0} (zs : List A) → (zs ++ []) ≡ zs
append_nil [] = refl
append_nil (z ∷ zs) = ap (λ r. z ∷ r) (append_nil zs)

-- Events and counts after the effects are no patches.
patches-quiet :
    {Q : Type 0} (ps : List (Patch Q)) (xs ys : List (Effect Q))
    → patches xs ≡ ps
    → patches ys ≡ []
    → patches (xs ++ ys) ≡ ps
patches-quiet ps xs ys h quiet = patches-append xs ys ∙ (rw (quiet, h) (append_nil ps))

module _ {Q : Type 0} (ps : List (Patch Q)) where
  Sent-and_then :
      {A B : Type 0} (m : Result A × Judging Q) (f : A → Judging Q → Result B × Judging Q)
      → Sent ps m.1
      → ((a : A) (s : Judging Q) → Sent ps s → Sent ps (f a s).1)
      → Sent ps (and_then m f).1
  Sent-and_then (fails_with e, st) f sent h = sent
  Sent-and_then (gives a, st) f sent h = h a st sent

  Sent-if :
      {A : Type 0} (b : Bool) (m m' : A × Judging Q)
      → Sent ps m.1
      → Sent ps m'.1
      → Sent ps (if b then m else m').1
  Sent-if true m m' h h' = h
  Sent-if false m m' h h' = h'

  note_vpa_skip-Sent :
      (pod : Pod Q) (name : String) (st : Judging Q)
      → Sent ps st
      → Sent ps (note_vpa_skip pod name st)
  unfolding note_vpa_skip
  note_vpa_skip-Sent pod name st h = elim (Bool-cases (str_eq name "")) [
    | inl free ↦ rw free (record { sent = h.sent })
    | inr held ↦ elim (Bool-cases (seen_before (lookup pod.uid st.vpa_skipped) name)) [
      | inl seen ↦ rw (held, seen) (record { sent = h.sent })
      | inr new ↦ rw (held, new) (record { sent = patches-quiet ps st.effects _ h.sent refl })
    ]
  ]

  back_off_infeasible-Sent :
      (reads : Reads Q) (pod : Pod Q) (r : Verdict × Judging Q)
      → Sent ps r.1
      → Sent ps (back_off_infeasible reads pod r).1
  unfolding back_off_infeasible
  back_off_infeasible-Sent reads pod (v, st) h =
      Sent-if (v.managed && pod_resize_infeasible pod) _ (v, st)
        (record { sent = patches-quiet ps st.effects _ h.sent refl }) h

  cached_ranges-Sent :
      (reads : Reads Q) (ns : String) (o : Option (List (LimitRange Q))) (st : Judging Q)
      → Sent ps st
      → Sent ps (cached_ranges reads ns o st).1
  unfolding cached_ranges
  cached_ranges-Sent reads ns (some ranges) st h = h
  cached_ranges-Sent reads ns none st h =
      Sent-and_then
        (or_fail (str_append "list limitranges in " ns) (reads.list_limit_ranges ns), st) _ h
        (λ a s h'. record { sent = h'.sent })

module _ {Q S : Type 0} ⦃q : Quantity Q⦄ ⦃helper : ResourceHelper Q⦄ ⦃sel : Selectors S⦄
    (ps : List (Patch Q)) (reads : Reads Q) (spec : HeadroomConfigSpec Q S)
    (node_managed : Bool) where
  cached_verdict-Sent :
      (ns : String) (o : Option Bool) (st : Judging Q)
      → Sent ps st
      → Sent ps (cached_verdict reads spec ns o st).1
  unfolding cached_verdict
  cached_verdict-Sent ns (some ok) st h = h
  cached_verdict-Sent ns none st h =
      Sent-and_then ps (read_namespace ns (reads.get_namespace ns) spec, st) _ h
        (λ a s h'. record { sent = h'.sent })

  enrolled_verdict-Sent :
      (pod : Pod Q) (backed_off ok : Bool) (st : Judging Q)
      → Sent ps st
      → Sent ps (enrolled_verdict reads pod backed_off (ok, st)).1
  unfolding enrolled_verdict
  enrolled_verdict-Sent pod backed_off ok st h =
      Sent-if ps (not ok) _ _ h (note_vpa_skip-Sent ps pod _ st h)

  judge-Sent :
      (pod : Pod Q) (st : Judging Q) → Sent ps st → Sent ps (judge reads spec node_managed pod st).1
  unfolding judge namespace_verdict
  judge-Sent pod st h =
      let (backed_off, windows) = in_backoff pod (reads.clock (pod_key pod)) st.backoff in
      Sent-if ps (not (may_manage node_managed spec pod)) _ _ h (
        Sent-and_then ps
          (cached_verdict reads spec pod.namespace (lookup pod.namespace st.ns_managed)
            (record st { backoff = windows }))
          _
          (cached_verdict-Sent pod.namespace (lookup pod.namespace st.ns_managed)
            (record st { backoff = windows }) (record { sent = h.sent }))
          (λ ok s sent. enrolled_verdict-Sent pod backed_off ok s sent))

  finish_input-Sent :
      (pod : Pod Q) (r : Verdict × Judging Q) → Sent ps r.1 → Sent ps (finish_input reads pod r).1
  unfolding finish_input limit_ranges input_of
  finish_input-Sent pod (v, st) h =
      Sent-if ps v.managed _ _
        (Sent-and_then ps
          (cached_ranges reads pod.namespace (lookup pod.namespace st.ns_limit_ranges) st) _
          (cached_ranges-Sent ps reads pod.namespace (lookup pod.namespace st.ns_limit_ranges) st h)
          (λ ranges s h'. record { sent = h'.sent }))
        (record { sent = h.sent })

  build_inputs-Sent :
      (pods : List (Pod Q)) (st : Judging Q)
      → Sent ps st
      → Sent ps (build_inputs reads spec node_managed pods st).1
  unfolding build_inputs build_input
  build_inputs-Sent [] st h = h
  build_inputs-Sent (pod ∷ pods) st h =
      Sent-if ps (pod_terminal pod) _ _ (build_inputs-Sent pods st h) (
        Sent-and_then ps (build_input reads spec node_managed pod st) _
          (Sent-and_then ps (judge reads spec node_managed pod st) _ (judge-Sent pod st h)
            (λ v s h'.
              finish_input-Sent pod (back_off_infeasible reads pod (v, s))
                (back_off_infeasible-Sent ps reads pod (v, s) h')))
          (λ p s h'.
            Sent-and_then ps (build_inputs reads spec node_managed pods s) _
              (build_inputs-Sent pods s h') (λ qs s' h''. h'')))

  -- The patches among the effects are those of the start.
  pub build_inputs-patches :
      (pods : List (Pod Q)) (st : Judging Q)
      → patches st.effects ≡ ps
      → patches (build_inputs reads spec node_managed pods st).1.effects ≡ ps
  build_inputs-patches pods st h = (build_inputs-Sent pods st (record { sent = h })).sent
