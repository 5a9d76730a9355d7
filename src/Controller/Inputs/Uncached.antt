-- ===== src/Controller/Inputs/Uncached.antt =====
-- buildInputs against a reference that reads the API server for every pod.
use mathlib.Core.Path.{subst, sym}
use kube_headroom.Prelude.{
  ◌≡◌, refl, ap, Bool, true, false, not, ◌&&◌, if◌then◌else◌, List, [], ◌∷◌, String, inl, inr,
  Bool-cases,
}
use kube_headroom.Prelude.Text.{lookup, str_eq}
use kube_headroom.Kube.{Quantity, Pod, LimitRange, ResourceHelper, Selectors, HeadroomConfigSpec}
use kube_headroom.Policy.{PodInput}
use kube_headroom.Eligibility.{pod_terminal}
use kube_headroom.Controller.PodInput.{pod_key}
use kube_headroom.Controller.Backoff.{in_backoff}
use kube_headroom.Controller.Inputs.Cached.{
  Caches, cleared, holding, Consistent, Same, Same-Like, Alike, Blind, Same-and_then, Same-if,
  cached_verdict-Like, cached_ranges-Like,
}
use kube_headroom.Controller.Inputs.{
  pod_resize_infeasible, Reads, Judging, Verdict, Result, gives, and_then, succeeds, limit_ranges,
  seen_before, note_vpa_skip, back_off_infeasible, enrolled_verdict, input_of, finish_input,
  namespace_verdict, may_manage, judge, build_input, build_inputs,
}

module _ {Q S : Type 0} ⦃q : Quantity Q⦄ ⦃helper : ResourceHelper Q⦄ ⦃sel : Selectors S⦄
    (reads : Reads Q) (spec : HeadroomConfigSpec Q S) where
  -- buildInputs without caches.
  pub build_inputs_uncached : Bool → List (Pod Q) → Judging Q → Result (List PodInput) × Judging Q
  build_inputs_uncached node_managed [] st = (gives [], st)
  build_inputs_uncached node_managed (pod ∷ pods) st =
      let skip = build_inputs_uncached node_managed pods st in
      let rest = λ (p : PodInput) (s : Judging Q).
        and_then (build_inputs_uncached node_managed pods s) (λ ps s'. (gives (p ∷ ps), s')) in
      if pod_terminal pod
      then skip
      else and_then (build_input reads spec node_managed pod (cleared st)) rest

  namespace_verdict-Blind : (ns : String) → Blind reads spec (namespace_verdict reads spec ns)
  unfolding namespace_verdict
  namespace_verdict-Blind ns st c c' h h' =
      Same-Like reads spec _ (cleared st) _ _
        (cached_verdict-Like reads spec ns (holding c st) (lookup ns c.0) refl h)
        (cached_verdict-Like reads spec ns (holding c' st) (lookup ns c'.0) refl h')

  limit_ranges-Blind : (ns : String) → Blind reads spec (limit_ranges reads ns)
  unfolding limit_ranges
  limit_ranges-Blind ns st c c' h h' =
      Same-Like reads spec _ (cleared st) _ _
        (cached_ranges-Like reads spec ns (holding c st) (lookup ns c.1) refl h)
        (cached_ranges-Like reads spec ns (holding c' st) (lookup ns c'.1) refl h')

  -- A step that cannot fail and passes the caches on.
  abbrev Passes : {A : Type 0} → (Judging Q → A × Judging Q) → Type 0
  Passes f =
      (st : Judging Q) (c : Caches Q)
      → f (holding c st) ≡ ((f (cleared st)).0, holding c (f (cleared st)).1)

  Passes-Blind :
      {A : Type 0} (f : Judging Q → A × Judging Q)
      → Passes f
      → Blind reads spec (λ st. succeeds (f st))
  Passes-Blind f p st c c' h h' =
      subst (λ (m : _). Same reads spec (succeeds m) (succeeds (f (holding c' st)))) (sym (p st c))
        (subst
          (λ (m : _).
            Same reads spec (gives (f (cleared st)).0, holding c (f (cleared st)).1) (succeeds m))
          (sym (p st c')) (record { result = refl; state = refl; left = h; right = h' }))

  note_vpa_skip-holding :
      (pod : Pod Q) (name : String) (st : Judging Q) (c : Caches Q)
      → note_vpa_skip pod name (holding c st) ≡ holding c (note_vpa_skip pod name (cleared st))
  unfolding note_vpa_skip
  note_vpa_skip-holding pod name st c = elim (Bool-cases (str_eq name "")) [
    | inl free ↦ rw free refl
    | inr held ↦ elim (Bool-cases (seen_before (lookup pod.uid st.vpa_skipped) name)) [
      | inl seen ↦ rw (held, seen) refl
      | inr new ↦ rw (held, new) refl
    ]
  ]

  enrolled_verdict-Passes :
      (pod : Pod Q) (backed_off ok : Bool)
      → Passes (λ st. enrolled_verdict reads pod backed_off (ok, st))
  unfolding enrolled_verdict
  enrolled_verdict-Passes pod backed_off true st c =
      ap (λ (s : Judging Q). ((enrolled_verdict reads pod backed_off (true, cleared st)).0, s))
        (note_vpa_skip-holding pod _ st c)
  enrolled_verdict-Passes pod backed_off false st c = refl

  back_off_infeasible-Passes :
      (pod : Pod Q) (v : Verdict) → Passes (λ st. back_off_infeasible reads pod (v, st))
  unfolding back_off_infeasible
  back_off_infeasible-Passes pod v st c =
      elim (Bool-cases (v.managed && pod_resize_infeasible pod)) [
        | inl stuck ↦ rw stuck refl
        | inr fine ↦ rw fine refl
      ]

  input_of-Passes :
      (pod : Pod Q) (v : Verdict) (ranges : List (LimitRange Q))
      → Passes (λ st. input_of pod v ranges st)
  unfolding input_of
  input_of-Passes pod v ranges st c = refl

  judge-Blind :
      (node_managed : Bool) (pod : Pod Q) → Blind reads spec (judge reads spec node_managed pod)
  unfolding judge
  judge-Blind node_managed pod st c c' h h' =
      let (backed_off, windows) = in_backoff pod (reads.clock (pod_key pod)) st.backoff in
      Same-if reads spec (not (may_manage node_managed spec pod)) _ _ _ _
        (record { result = refl; state = refl; left = h; right = h' })
        (Same-and_then reads spec _ _
          (λ ok st'. succeeds (enrolled_verdict reads pod backed_off (ok, st'))) _
          (namespace_verdict-Blind pod.namespace (record st { backoff = windows }) c c' h h')
          (λ ok.
            Passes-Blind (λ s. enrolled_verdict reads pod backed_off (ok, s))
              (enrolled_verdict-Passes pod backed_off ok)))

  finish_input-Blind :
      (pod : Pod Q) (v : Verdict) → Blind reads spec (λ st. finish_input reads pod (v, st))
  unfolding finish_input
  finish_input-Blind pod v st c c' h h' =
      Same-if reads spec v.managed _ _ _ _
        (Same-and_then reads spec _ _ (λ ranges st'. succeeds (input_of pod v ranges st')) _
          (limit_ranges-Blind pod.namespace st c c' h h')
          (λ ranges. Passes-Blind (λ s. input_of pod v ranges s) (input_of-Passes pod v ranges)))
        (Passes-Blind (λ s. input_of pod v [] s) (input_of-Passes pod v []) st c c' h h')

  finish_after-Blind :
      (pod : Pod Q) (v : Verdict)
      → Blind reads spec (λ s. finish_input reads pod (back_off_infeasible reads pod (v, s)))
  finish_after-Blind pod v st c c' h h' =
      let (v', st') = back_off_infeasible reads pod (v, cleared st) in
      subst
        (λ (m : Verdict × Judging Q).
          Same reads spec (finish_input reads pod m)
            (finish_input reads pod (back_off_infeasible reads pod (v, holding c' st))))
        (sym (back_off_infeasible-Passes pod v st c))
        (subst
          (λ (m : Verdict × Judging Q).
            Same reads spec (finish_input reads pod (v', holding c st')) (finish_input reads pod m))
          (sym (back_off_infeasible-Passes pod v st c')) (finish_input-Blind pod v' st' c c' h h'))

  build_input-Blind :
      (node_managed : Bool) (pod : Pod Q)
      → Blind reads spec (build_input reads spec node_managed pod)
  unfolding build_input
  build_input-Blind node_managed pod st c c' h h' =
      Same-and_then reads spec _ _
        (λ v s. finish_input reads pod (back_off_infeasible reads pod (v, s))) _
        (judge-Blind node_managed pod st c c' h h') (finish_after-Blind pod)

  nothing_cached : Consistent reads spec ([], [])
  nothing_cached = ((λ ns v e. absurd (cc e)), (λ ns l e. absurd (cc e)))

  build_inputs-Alike :
      (node_managed : Bool) (pods : List (Pod Q))
      → Alike reads spec
          (build_inputs reads spec node_managed pods)
          (build_inputs_uncached node_managed pods)
  unfolding build_inputs build_inputs_uncached
  build_inputs-Alike node_managed [] st c c' h h' = record {
    result = refl;
    state = refl;
    left = h;
    right = h';
  }
  build_inputs-Alike node_managed (pod ∷ pods) st c c' h h' =
      Same-if reads spec (pod_terminal pod) _ _ _ _
        (build_inputs-Alike node_managed pods st c c' h h')
        (Same-and_then reads spec _ _
          (λ p s.
            and_then (build_inputs reads spec node_managed pods s) (λ ps s'. (gives (p ∷ ps), s')))
          (λ p s.
            and_then (build_inputs_uncached node_managed pods s) (λ ps s'. (gives (p ∷ ps), s')))
          (build_input-Blind node_managed pod st c ([], []) h nothing_cached)
          (λ p s k k' g g'.
            Same-and_then reads spec _ _ (λ ps s'. (gives (p ∷ ps), s')) _
              (build_inputs-Alike node_managed pods s k k' g g')
              (λ ps s' i i' j j'. record { result = refl; state = refl; left = j; right = j' })))

  -- From empty caches, buildInputs gives the inputs or the error, and leaves the backoff windows,
  -- the VPA warnings, the effects and the map of pods, that it would with a read of the namespace
  -- and of its LimitRanges for every pod.
  pub build_inputs-build_inputs_uncached :
      (node_managed : Bool) (pods : List (Pod Q)) (st : Judging Q)
      → let m = build_inputs reads spec node_managed pods (cleared st) in
        let m' = build_inputs_uncached node_managed pods (cleared st) in
        (m.0 ≡ m'.0) × (cleared m.1 ≡ cleared m'.1)
  build_inputs-build_inputs_uncached node_managed pods st =
      let same =
        build_inputs-Alike node_managed pods st ([], []) ([], []) nothing_cached nothing_cached in
      (same.result, same.state)
