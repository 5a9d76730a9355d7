-- ===== src/Controller/Resize/Outcome.antt =====
-- The resize loop: the backoff windows that it leaves.
use mathlib.Core.Path.{subst}
use kube_headroom.Prelude.{
  ◌≡◌, refl, ap, sym, ◌∙◌, Bool, true, false, ◌⊎◌, inl, inr, if◌then◌else◌, Option, none, some,
  List, [], ◌∷◌, String, Bool-cases, All, All-append,
}
use kube_headroom.Prelude.Int.{ℤ, ◌+ℤ◌}
use kube_headroom.Prelude.Text.{lookup, str_eq, str_eq-true, lookup-insert, lookup-insert_self}
use kube_headroom.Kube.{Quantity, GoMap, Pod}
use kube_headroom.Policy.{Decision}
use kube_headroom.Controller.Backoff.{backoff_period, set_backoff_key}
use kube_headroom.Controller.Resize.{
  PatchError, not_found, conflict, forbidden, other, PatchEntry, resize_patch, Calls, Pass, idle,
  followed_by, after, classify_resize_error, answered, apply_resize, resize_one, resize_all,
}
use kube_headroom.Controller.Resize.Attempts.{Patch, patches, patches-append, answered_lem}

module _ {Q L : Type 0} ⦃q : Quantity Q⦄ (calls : Calls Q L) where
  -- The end of the window that a refusal of the pod opens.
  abbrev pub window_of : String → ℤ
  window_of key = calls.clock key +ℤ backoff_period calls.backoff_period

  abbrev pub is_forbidden : Option PatchError → Bool
  is_forbidden none = false
  is_forbidden (some not_found) = false
  is_forbidden (some conflict) = false
  is_forbidden (some (forbidden msg)) = true
  is_forbidden (some (other msg)) = false

  -- A step keeps a window that is open.
  answered-keeps :
      (key k : String) (answer : Option PatchError) (limiter : L) (backoff : GoMap ℤ)
      → lookup k backoff ≡ some (window_of k)
      → lookup k (answered calls key answer limiter backoff).backoff ≡ some (window_of k)
  unfolding answered classify_resize_error idle set_backoff_key
  answered-keeps key k none limiter backoff e = e
  answered-keeps key k (some not_found) limiter backoff e = e
  answered-keeps key k (some conflict) limiter backoff e = e
  answered-keeps key k (some (other msg)) limiter backoff e = e
  answered-keeps key k (some (forbidden msg)) limiter backoff e =
      lookup-insert key k (window_of key) backoff ∙ elim (Bool-cases (str_eq key k)) [
        | inl same ↦ rw same (ap (λ x. some (window_of x)) (str_eq-true key k same))
        | inr differs ↦ rw differs e
      ]

  answered-opens :
      (key : String) (answer : Option PatchError) (limiter : L) (backoff : GoMap ℤ)
      → (is_forbidden answer ≡ false)
        ⊎ (lookup key (answered calls key answer limiter backoff).backoff ≡ some (window_of key))
  unfolding answered classify_resize_error idle set_backoff_key
  answered-opens key none limiter backoff = inl refl
  answered-opens key (some not_found) limiter backoff = inl refl
  answered-opens key (some conflict) limiter backoff = inl refl
  answered-opens key (some (other msg)) limiter backoff = inl refl
  answered-opens key (some (forbidden msg)) limiter backoff =
      inr (lookup-insert_self key (window_of key) backoff)

  -- The answer that the API server gives to a patch of the pod under its key.
  abbrev pub refused_at : Option (Pod Q) → List (PatchEntry Q) → Bool
  refused_at none entries = false
  refused_at (some pod) entries = is_forbidden (calls.patch pod entries)

  abbrev pub refused : GoMap (Pod Q) → Patch Q → Bool
  refused by_key p = refused_at (lookup p.0 by_key) p.1

  -- The patch was not refused, or its pod's window is open.
  abbrev pub IsAnswered : GoMap (Pod Q) → GoMap ℤ → Patch Q → Type 0
  IsAnswered by_key backoff p =
      (refused by_key p ≡ false) ⊎ (lookup p.0 backoff ≡ some (window_of p.0))

  apply_keeps :
      (d : Decision) (pod : Pod Q) (k : String) (entries : Option (List (PatchEntry Q)))
      (limiter : L) (backoff : GoMap ℤ)
      → lookup k backoff ≡ some (window_of k)
      → lookup k (apply_resize calls d.key pod entries limiter backoff).backoff ≡ some (window_of k)
  unfolding apply_resize after
  apply_keeps d pod k none limiter backoff e = answered-keeps d.key k none limiter backoff e
  apply_keeps d pod k (some entries) limiter backoff e =
      answered-keeps d.key k (calls.patch pod entries) limiter backoff e

  one_keeps :
      (d : Decision) (pod : Option (Pod Q)) (k : String) (limiter : L) (backoff : GoMap ℤ)
      → lookup k backoff ≡ some (window_of k)
      → lookup k (resize_one calls false d pod limiter backoff).backoff ≡ some (window_of k)
  unfolding resize_one idle after
  one_keeps d none k limiter backoff e = e
  one_keeps d (some pod) k limiter backoff e = elim (Bool-cases d.apply) [
    | inr skip ↦ rw skip e
    | inl apply ↦ elim (Bool-cases (calls.allow (calls.allow_at d.key) limiter).0) [
      | inr stop ↦ rw (apply, stop) e
      | inl go ↦
          rw (apply, go)
            (apply_keeps d pod k (resize_patch pod d.target_limit_milli)
              (calls.allow (calls.allow_at d.key) limiter).1 backoff e)
    ]
  ]

  module _ (by_key : GoMap (Pod Q)) (d : Decision) (decisions : List Decision) (limiter : L)
      (backoff : GoMap ℤ) where
    abbrev step : Pass Q L
    step = resize_one calls false d (lookup d.key by_key) limiter backoff

    abbrev rest : Pass Q L
    rest = resize_all calls false by_key decisions step.limiter step.backoff

    -- The loop after one step: over, or followed by the rest.
    resize_all-step :
        resize_all calls false by_key (d ∷ decisions) limiter backoff
        ≡ (if step.stopped then step else followed_by step rest)
    unfolding resize_all
    resize_all-step = refl

    step_cases :
        (resize_all calls false by_key (d ∷ decisions) limiter backoff ≡ step)
        ⊎ (resize_all calls false by_key (d ∷ decisions) limiter backoff ≡ followed_by step rest)
    step_cases = elim (Bool-cases step.stopped) [
      | inl stop ↦ inl (resize_all-step ∙ ap (λ b. if b then step else followed_by step rest) stop)
      | inr on ↦ inr (resize_all-step ∙ ap (λ b. if b then step else followed_by step rest) on)
    ]

  all_keeps :
      (by_key : GoMap (Pod Q)) (decisions : List Decision) (k : String) (limiter : L)
      (backoff : GoMap ℤ)
      → lookup k backoff ≡ some (window_of k)
      → lookup k (resize_all calls false by_key decisions limiter backoff).backoff
        ≡ some (window_of k)
  unfolding resize_all idle followed_by
  all_keeps by_key [] k limiter backoff e = e
  all_keeps by_key (d ∷ decisions) k limiter backoff e =
      let s = step by_key d decisions limiter backoff in
      let kept = one_keeps d (lookup d.key by_key) k limiter backoff e in
      elim (step_cases by_key d decisions limiter backoff) [
        | inl stop ↦ ap (λ (r : Pass Q L). lookup k r.backoff) stop ∙ kept
        | inr on ↦
            ap (λ (r : Pass Q L). lookup k r.backoff) on
            ∙ all_keeps by_key decisions k s.limiter s.backoff kept
      ]

  IsAnswered-resize_all :
      (by_key : GoMap (Pod Q)) (decisions : List Decision) (limiter : L) (backoff : GoMap ℤ)
      (ps : List (Patch Q))
      → All (IsAnswered by_key backoff) ps
      → All (IsAnswered by_key (resize_all calls false by_key decisions limiter backoff).backoff) ps
  IsAnswered-resize_all by_key decisions limiter backoff [] all = tt
  IsAnswered-resize_all by_key decisions limiter backoff (p ∷ ps) (inl accepted, all) =
      (inl accepted, IsAnswered-resize_all by_key decisions limiter backoff ps all)
  IsAnswered-resize_all by_key decisions limiter backoff (p ∷ ps) (inr waits, all) = (
    inr (all_keeps by_key decisions p.0 limiter backoff waits),
    IsAnswered-resize_all by_key decisions limiter backoff ps all,
  )

  apply_opens :
      (by_key : GoMap (Pod Q)) (key : String) (pod : Pod Q) (entries : Option (List (PatchEntry Q)))
      (limiter : L) (backoff : GoMap ℤ)
      → lookup key by_key ≡ some pod
      → All
          (IsAnswered by_key (apply_resize calls key pod entries limiter backoff).backoff)
          (patches (apply_resize calls key pod entries limiter backoff).effects)
  unfolding apply_resize after
  apply_opens by_key key pod none limiter backoff found =
      rw ((answered_lem calls key none limiter backoff).0) tt
  apply_opens by_key key pod (some entries) limiter backoff found =
      let answer = calls.patch pod entries in
      let s = answered calls key answer limiter backoff in
      subst (λ ps. All (IsAnswered by_key s.backoff) ((key, entries) ∷ ps))
        (sym (answered_lem calls key answer limiter backoff).0)
        (
          elim (answered-opens key answer limiter backoff) [
            | inl accepted ↦ inl (ap (λ x. refused_at x entries) found ∙ accepted)
            | inr waits ↦ inr waits
          ],
          tt,
        )

  one_opens :
      (by_key : GoMap (Pod Q)) (d : Decision) (pod : Option (Pod Q)) (limiter : L)
      (backoff : GoMap ℤ)
      → lookup d.key by_key ≡ pod
      → All
          (IsAnswered by_key (resize_one calls false d pod limiter backoff).backoff)
          (patches (resize_one calls false d pod limiter backoff).effects)
  unfolding resize_one idle after
  one_opens by_key d none limiter backoff found = tt
  one_opens by_key d (some pod) limiter backoff found = elim (Bool-cases d.apply) [
    | inr skip ↦ rw skip tt
    | inl apply ↦ elim (Bool-cases (calls.allow (calls.allow_at d.key) limiter).0) [
      | inr stop ↦ rw (apply, stop) tt
      | inl go ↦
          rw (apply, go)
            (apply_opens by_key d.key pod (resize_patch pod d.target_limit_milli)
              (calls.allow (calls.allow_at d.key) limiter).1 backoff found)
    ]
  ]

  -- After a live pass of the loop, for each patch sent, the API server's answer was not Forbidden,
  -- or the pod's window is open until the backoff period after the instant of its refusal.
  pub resize_all-backoff :
      (by_key : GoMap (Pod Q)) (decisions : List Decision) (limiter : L) (backoff : GoMap ℤ)
      → let s = resize_all calls false by_key decisions limiter backoff in
        All
          (λ p. (refused by_key p ≡ false) ⊎ (lookup p.0 s.backoff ≡ some (window_of p.0)))
          (patches s.effects)
  unfolding followed_by resize_all idle
  resize_all-backoff by_key [] limiter backoff = tt
  resize_all-backoff by_key (d ∷ decisions) limiter backoff =
      let s = step by_key d decisions limiter backoff in
      let r = rest by_key d decisions limiter backoff in
      let here = one_opens by_key d (lookup d.key by_key) limiter backoff refl in
      let result = λ (x : Pass Q L). All (IsAnswered by_key x.backoff) (patches x.effects) in
      elim (step_cases by_key d decisions limiter backoff) [
        | inl stop ↦ subst result (sym stop) here
        | inr on ↦ subst result (sym on) (
            subst (λ ps. All (IsAnswered by_key r.backoff) ps)
              (sym (patches-append s.effects r.effects))
              (All-append (IsAnswered by_key r.backoff) (patches s.effects) (patches r.effects)
                (IsAnswered-resize_all by_key decisions s.limiter s.backoff (patches s.effects)
                  here)
                (resize_all-backoff by_key decisions s.limiter s.backoff)))
      ]
