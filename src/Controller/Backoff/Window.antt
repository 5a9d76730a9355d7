-- ===== src/Controller/Backoff/Window.antt =====
-- A backoff window, from the refusal that opens it to the check that finds it over.
use kube_headroom.Prelude.{
  ◌≡◌, refl, ap, ◌∙◌, true, false, if◌then◌else◌, none, some, [], ◌∷◌, String, arith, Bool-cases,
  inl, inr, ◌⊎◌,
}
use kube_headroom.Prelude.Int.{ℤ, ◌+ℤ◌, ◌≤ℤ◌, ◌<ℤ◌, ltb_ℤ}
use kube_headroom.Prelude.Text.{lookup, str_eq, str_eq_refl, str_eq_iff, lookup-insert_self}
use kube_headroom.Kube.{GoMap}
use kube_headroom.Controller.Backoff.{backoff_period, delete, in_backoff_key, set_backoff_key}

pub lookup-delete :
    {V : Type 0} (k j : String) (m : GoMap V)
    → lookup j (delete k m) ≡ (if str_eq k j then none else lookup j m)
unfolding delete
lookup-delete k j [] = ground arith
lookup-delete k j ((i, v) ∷ m) =
    ground (arith, str_eq_iff k j, str_eq_iff i k, str_eq_iff i j, lookup-delete k j m)

-- The check of a key with a window.
check :
    (key : String) (until now : ℤ) (m : GoMap ℤ)
    → lookup key m ≡ some until
    → in_backoff_key key now m ≡ (if ltb_ℤ until now then (false, delete key m) else (true, m))
unfolding in_backoff_key
check key until now m e =
    ap
      (λ r. elim r [
        | none ↦ (false, m)
        | some u ↦ if ltb_ℤ u now then (false, delete key m) else (true, m)
      ])
      e

module _ (key : String) (opened now period : ℤ) (backoff : GoMap ℤ) where
  -- The instant at which the window ends.
  abbrev pub window_end : ℤ
  window_end = opened +ℤ backoff_period period

  opened_lem : lookup key (set_backoff_key key opened period backoff) ≡ some window_end
  unfolding set_backoff_key
  opened_lem = lookup-insert_self key window_end backoff

  -- After setBackoffKey opens a window, inBackoff finds the pod in backoff and keeps the windows up
  -- to and including the end of the window, and after that finds it free and drops its window.
  pub in_backoff_key-set_backoff_key :
      let windows = set_backoff_key key opened period backoff in
      ((now ≤ℤ window_end) × (in_backoff_key key now windows ≡ (true, windows)))
      ⊎ ((window_end <ℤ now)
          × ((in_backoff_key key now windows).0 ≡ false)
          × (lookup key (in_backoff_key key now windows).1 ≡ none))
  in_backoff_key-set_backoff_key =
      let windows = set_backoff_key key opened period backoff in
      let checked = check key window_end now windows opened_lem in
      elim (Bool-cases (ltb_ℤ window_end now)) [
        | inl over ↦
            let closed : in_backoff_key key now windows ≡ (false, delete key windows) =
              checked ∙ rw over refl in
            inr (
              ground (arith, over),
              ap (λ r. r.0) closed,
              ap (λ r. lookup key r.1) closed
                  ∙ lookup-delete key key windows
                  ∙ rw (str_eq_refl key) refl,
            )
        | inr going ↦ inl (ground (arith, going), checked ∙ rw going refl)
      ]
