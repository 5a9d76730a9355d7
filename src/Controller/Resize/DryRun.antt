-- ===== src/Controller/Resize/DryRun.antt =====
-- The resize loop in a dry run.
use mathlib.Core.Path.{subst₂}
use kube_headroom.Prelude.{
  ◌≡◌, refl, sym, ◌∙◌, true, false, inl, inr, Option, none, some, List, [], ◌∷◌, Bool-cases,
}
use kube_headroom.Prelude.Int.{ℤ}
use kube_headroom.Prelude.Text.{lookup}
use kube_headroom.Kube.{Quantity, GoMap, Pod}
use kube_headroom.Policy.{Decision}
use kube_headroom.Controller.Resize.{Calls, Pass, idle, followed_by, after, resize_one, resize_all}
use kube_headroom.Controller.Resize.Attempts.{patches, patches-append}

-- What a pass leaves that sends nothing and changes no state.
abbrev pub IsInert : {Q L : Type 0} → Pass Q L → L → GoMap ℤ → Type 0
IsInert s limiter backoff =
    (patches s.effects ≡ [])
    × (s.backoff ≡ backoff)
    × (s.limiter ≡ limiter)
    × (s.rate_limited ≡ false)
    × (s.errors ≡ [])

module _ {Q L : Type 0} ⦃q : Quantity Q⦄ (calls : Calls Q L) where
  dry_one_lem :
      (d : Decision) (pod : Option (Pod Q)) (limiter : L) (backoff : GoMap ℤ)
      → IsInert (resize_one calls true d pod limiter backoff) limiter backoff
        × ((resize_one calls true d pod limiter backoff).stopped ≡ false)
  unfolding resize_one idle after
  dry_one_lem d none limiter backoff = ((refl, refl, refl, refl, refl), refl)
  dry_one_lem d (some pod) limiter backoff = elim (Bool-cases d.apply) [
    | inl apply ↦ rw apply ((refl, refl, refl, refl, refl), refl)
    | inr skip ↦ rw skip ((refl, refl, refl, refl, refl), refl)
  ]

  IsInert-followed_by :
      (s rest : Pass Q L) (limiter : L) (backoff : GoMap ℤ)
      → IsInert s limiter backoff
      → IsInert rest limiter backoff
      → IsInert (followed_by s rest) limiter backoff
  unfolding followed_by
  IsInert-followed_by s rest limiter backoff (p, b, l, r, e) (p', b', l', r', e') = (
    patches-append s.effects rest.effects ∙ rw (p, p') refl,
    b',
    l',
    rw (r, r') refl,
    rw (e, e') refl,
  )

  -- In a dry run the loop sends no resize patch, takes no token of the limiter, changes no backoff
  -- window, is not rate-limited and collects no error.
  pub resize_all-dry_run :
      (by_key : GoMap (Pod Q)) (decisions : List Decision) (limiter : L) (backoff : GoMap ℤ)
      → IsInert (resize_all calls true by_key decisions limiter backoff) limiter backoff
  unfolding resize_all idle resize_one
  resize_all-dry_run by_key [] limiter backoff = (refl, refl, refl, refl, refl)
  resize_all-dry_run by_key (d ∷ decisions) limiter backoff =
      let s = resize_one calls true d (lookup d.key by_key) limiter backoff in
      let (inert, on) = dry_one_lem d (lookup d.key by_key) limiter backoff in
      let (p, b, l, r, e) = inert in
      let rest : IsInert (resize_all calls true by_key decisions s.limiter s.backoff) limiter
          backoff =
        subst₂ (λ x y. IsInert (resize_all calls true by_key decisions x y) limiter backoff) (sym l)
          (sym b) (resize_all-dry_run by_key decisions limiter backoff) in
      rw on (
        IsInert-followed_by s (resize_all calls true by_key decisions s.limiter s.backoff) limiter
          backoff inert rest)
