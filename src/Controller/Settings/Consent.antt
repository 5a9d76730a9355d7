-- ===== src/Controller/Settings/Consent.antt =====
-- The settings of a reconcile: what makes it live, and the debounce that it sets.
use kube_headroom.Prelude.{
  ◌≡◌, refl, ap, sym, ◌∙◌, Bool, false, ◌⊎◌, inl, inr, Option, none, some, List, arith, Bool-cases,
}
use mathlib.Core.Option.{some-injective}
use mathlib.Core.Path.{subst}
use kube_headroom.Prelude.Int.{ℤ, pos, ◌<ℤ◌}
use kube_headroom.Kube.{Quantity, HeadroomConfigSpec, Read, found, not_found, failed, GoMap, Pod}
use kube_headroom.Policy.{Decision}
use kube_headroom.Controller.Resize.{Calls, resize_all}
use kube_headroom.Controller.Resize.DryRun.{IsInert, resize_all-dry_run}
use kube_headroom.Controller.Settings.{
  ResolvedConfig, is_dry, resolve_config, load_config, debounce_period_of, set_debounce,
  base_enqueue_delay,
}

pub is_dry-false : (o : Option Bool) → is_dry o ≡ false → o ≡ some false
unfolding is_dry
is_dry-false none e = cc e
is_dry-false (some b) e = ap some e

module _ {Q S L : Type 0} ⦃q : Quantity Q⦄ where
  -- Where loadConfig succeeds, it read a HeadroomConfig whose dryRun is explicitly false, or the
  -- loop of the reconcile that it sets sends no resize patch, takes no token of the limiter,
  -- changes no backoff window, is not rate-limited and collects no error.
  pub load_config-consent :
      (calls : Calls Q L) (r : Read (HeadroomConfigSpec Q S)) (fallback : ℤ)
      (c : ResolvedConfig Q S) (by_key : GoMap (Pod Q)) (decisions : List Decision) (limiter : L)
      (backoff : GoMap ℤ)
      → load_config r fallback ≡ some c
      → ((s : HeadroomConfigSpec Q S) × (r ≡ found s) × (s.dry_run ≡ some false))
        ⊎ IsInert (resize_all calls c.dry_run by_key decisions limiter backoff) limiter backoff
  unfolding load_config resolve_config
  load_config-consent calls r fallback c by_key decisions limiter backoff e =
      elim (Bool-cases c.dry_run) [
        | inl dry ↦ inr (
            subst
              (λ d. IsInert (resize_all calls d by_key decisions limiter backoff) limiter backoff)
              (sym dry) (resize_all-dry_run calls by_key decisions limiter backoff))
        | inr live ↦ inl (by_read r e live)
      ]
    where
      by_read :
          (x : Read (HeadroomConfigSpec Q S))
          → load_config x fallback ≡ some c
          → c.dry_run ≡ false
          → (s : HeadroomConfigSpec Q S) × (x ≡ found s) × (s.dry_run ≡ some false)
      by_read not_found f live =
          cc (ap (λ (y : ResolvedConfig Q S). y.dry_run) (some-injective _ c f), live)
      by_read failed f live = cc f
      by_read (found s) f live = (
        s,
        refl,
        is_dry-false s.dry_run
            (ap (λ (y : ResolvedConfig Q S). y.dry_run) (some-injective _ c f) ∙ live),
      )

fallback_pos : (override : ℤ) → pos 0 <ℤ debounce_period_of override
unfolding debounce_period_of
fallback_pos override = ground arith

-- The delay that a positive debounce sets.
delay_lem :
    (override stored d : ℤ)
    → pos 0 <ℤ d
    → (pos 0 <ℤ base_enqueue_delay override (set_debounce d stored))
      × (((pos 0 <ℤ override) × (base_enqueue_delay override (set_debounce d stored) ≡ override))
          ⊎ (base_enqueue_delay override (set_debounce d stored) ≡ d))
unfolding base_enqueue_delay set_debounce
delay_lem override stored d h = ground arith

module _ {Q S : Type 0} ⦃q : Quantity Q⦄ where
  resolve_config-debounce :
      (s : HeadroomConfigSpec Q S) (fallback : ℤ)
      → pos 0 <ℤ fallback
      → pos 0 <ℤ (resolve_config s fallback).debounce_period
  unfolding resolve_config
  resolve_config-debounce s fallback h = ground arith

  debounce_pos :
      (r : Read (HeadroomConfigSpec Q S)) (fallback : ℤ) (c : ResolvedConfig Q S)
      → pos 0 <ℤ fallback
      → load_config r fallback ≡ some c
      → pos 0 <ℤ c.debounce_period
  unfolding load_config
  debounce_pos not_found fallback c h e =
      subst (λ (y : ResolvedConfig Q S). pos 0 <ℤ y.debounce_period) (some-injective _ c e) h
  debounce_pos failed fallback c h e = cc e
  debounce_pos (found s) fallback c h e =
      subst (λ (y : ResolvedConfig Q S). pos 0 <ℤ y.debounce_period) (some-injective _ c e)
        (resolve_config-debounce s fallback h)

  -- Where loadConfig succeeds with the reconciler's fallback, the base of the enqueue delay after
  -- setDebounce is positive, and it is the reconciler's own positive DebouncePeriod or the debounce
  -- of the loaded config.
  pub load_config-debounce :
      (r : Read (HeadroomConfigSpec Q S)) (override stored : ℤ) (c : ResolvedConfig Q S)
      → load_config r (debounce_period_of override) ≡ some c
      → let delay = base_enqueue_delay override (set_debounce c.debounce_period stored) in
        (pos 0 <ℤ delay)
        × (((pos 0 <ℤ override) × (delay ≡ override)) ⊎ (delay ≡ c.debounce_period))
  load_config-debounce r override stored c e =
      delay_lem override stored c.debounce_period
        (debounce_pos r (debounce_period_of override) c (fallback_pos override) e)
