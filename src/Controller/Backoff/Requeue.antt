-- ===== src/Controller/Backoff/Requeue.antt =====
-- backoffRequeue: the least of the windows that still run.
use kube_headroom.Prelude.{
  ◌≡◌, refl, ap, sym, ◌∙◌, true, false, ◌||◌, ◌⊎◌, inl, inr, none, some, List, [], ◌∷◌, String,
  arith, Bool-cases, Option-cases, All,
}
use kube_headroom.Prelude.Int.{ℤ, pos, ◌≤ℤ◌, ◌<ℤ◌, ltb_ℤ, eqb_ℤ, eqb_ℤ-true}
use kube_headroom.Prelude.Int64
use kube_headroom.Prelude.Text.{lookup, contains, str_eq_refl}
use kube_headroom.Kube.{GoMap}
use kube_headroom.Controller.Backoff.{nearer, next_end, time_sub, backoff_requeue}

-- Every window ends after Go's zero time.
abbrev pub AfterZero : GoMap ℤ → Type 0
AfterZero [] = Unit
AfterZero ((k, v) ∷ m) = (pos 0 <ℤ v) × AfterZero m

lookup-AfterZero :
    (key : String) (until : ℤ) (m : GoMap ℤ)
    → lookup key m ≡ some until
    → AfterZero m
    → pos 0 <ℤ until
lookup-AfterZero key until [] e h = cc e
lookup-AfterZero key until ((k, v) ∷ m) e h = ground (arith, lookup-AfterZero key until m)

module _ (backoff : GoMap ℤ) (now : ℤ) where
  -- The pod's window ends at an instant that is not past.
  abbrev pub Runs : String → ℤ → Type 0
  Runs key until = (lookup key backoff ≡ some until) × (now ≤ℤ until)

  -- The pod has no window, or its window is over.
  abbrev pub IsFree : String → Type 0
  IsFree key = (lookup key backoff ≡ none) ⊎ ((u : ℤ) × (lookup key backoff ≡ some u) × (u <ℤ now))

  -- No window of the pod ends before r.
  abbrev pub NotBefore : ℤ → String → Type 0
  NotBefore r key = IsFree key ⊎ ((u : ℤ) × (lookup key backoff ≡ some u) × (r ≤ℤ u))

  -- What the loop finds.
  data Found (keys : List String) (next r : ℤ) : Type 0 where
    nothing : r ≡ pos 0 → next ≡ pos 0 → All IsFree keys → Found keys next r
    earlier : r ≡ next → pos 0 <ℤ r → All (NotBefore r) keys → Found keys next r
    first :
        (key : String)
        → contains key keys ≡ true
        → Runs key r
        → pos 0 <ℤ r
        → (next ≡ pos 0) ⊎ (r ≤ℤ next)
        → All (NotBefore r) keys
        → Found keys next r

  NotBefore-le : (r s : ℤ) (key : String) → r ≤ℤ s → NotBefore s key → NotBefore r key
  NotBefore-le r s key h (inl free) = inl free
  NotBefore-le r s key h (inr (u, e, g)) = inr (u, e, ground arith)

  -- A pod without a running window does not matter.
  skip_free :
      (key : String) (keys : List String) (next r : ℤ)
      → IsFree key
      → Found keys next r
      → Found (key ∷ keys) next r
  skip_free key keys next r free (nothing z n all) = nothing z n (free, all)
  skip_free key keys next r free (earlier e p all) = earlier e p (inl free, all)
  skip_free key keys next r free (first k c run p n all) =
      first k (ground (arith, c)) run p n (inl free, all)

  -- A window that is the nearest so far.
  take_nearer :
      (key : String) (keys : List String) (until next r : ℤ)
      → Runs key until
      → pos 0 <ℤ until
      → (next ≡ pos 0) ⊎ (until <ℤ next)
      → Found keys until r
      → Found (key ∷ keys) next r
  take_nearer key keys until next r run p n (nothing z w all) = ground arith
  take_nearer key keys until next r run p n (earlier e q all) =
      first key (ground (arith, str_eq_refl key)) (run.0 ∙ ap some (sym e), ground arith) q
        (ground arith) (inr (until, run.0, ground arith), all)
  take_nearer key keys until next r run p n (first k c run' q m all) =
      let bound : r ≤ℤ until = ground arith in
      first k (ground (arith, c)) run' q (ground arith) (inr (until, run.0, bound), all)

  -- A window that ends no earlier than the nearest so far.
  keep_next :
      (key : String) (keys : List String) (until next r : ℤ)
      → Runs key until
      → pos 0 <ℤ next
      → next ≤ℤ until
      → Found keys next r
      → Found (key ∷ keys) next r
  keep_next key keys until next r run p n (nothing z w all) = ground arith
  keep_next key keys until next r run p n (earlier e q all) =
      earlier e q (inr (until, run.0, ground arith), all)
  keep_next key keys until next r run p n (first k c run' q m all) =
      let bound : r ≤ℤ until = ground arith in
      first k (ground (arith, c)) run' q m (inr (until, run.0, bound), all)

  next_end_lem :
      (keys : List String) (next : ℤ)
      → AfterZero backoff
      → (next ≡ pos 0) ⊎ (pos 0 <ℤ next)
      → Found keys next (next_end backoff now keys next)
  unfolding next_end nearer
  next_end_lem [] next after (inl z) = nothing z z tt
  next_end_lem [] next after (inr p) = earlier refl p tt
  next_end_lem (key ∷ keys) next after start = elim (Option-cases (lookup key backoff)) [
    | inl absent ↦ rw absent (
        skip_free key keys next (next_end backoff now keys next) (inl absent)
          (next_end_lem keys next after start))
    | inr (until, found) ↦
        let p = lookup-AfterZero key until backoff found after in
        elim (Bool-cases (ltb_ℤ until now)) [
          | inl over ↦
              rw (found, over)
                (skip_free key keys next (next_end backoff now keys next)
                  (inr (until, found, ground (arith, over))) (next_end_lem keys next after start))
          | inr running ↦
              let run : Runs key until = (found, ground (arith, running)) in
              elim (Bool-cases (eqb_ℤ next (pos 0) || ltb_ℤ until next)) [
                | inl near ↦
                    rw (found, running, near)
                      (take_nearer key keys until next (next_end backoff now keys until) run p
                        (ground (arith, near, eqb_ℤ-true next (pos 0)))
                        (next_end_lem keys until after (inr p)))
                | inr far ↦
                    rw (found, running, far)
                      (keep_next key keys until next (next_end backoff now keys next) run
                        (ground (arith, far)) (ground (arith, far))
                        (next_end_lem keys next after start))
              ]
        ]
  ]

  -- Where all windows end after Go's zero time, backoffRequeue is 0 and no pod of the node has a
  -- window running, or it is the time to the end of a running window of one of the pods plus the
  -- debounce, and no running window of these pods ends before that one, whatever the order of the
  -- pods.
  pub backoff_requeue_lem :
      (keys : List String) (delay : ℤ)
      → AfterZero backoff
      → ((backoff_requeue backoff keys now delay ≡ pos 0) × All IsFree keys)
        ⊎ ((key : String) × (until : ℤ) × (contains key keys ≡ true)
            × Runs key until
            × All (NotBefore until) keys
            × (backoff_requeue backoff keys now delay ≡ Int64.add (time_sub until now) delay))
  unfolding backoff_requeue
  backoff_requeue_lem keys delay after = elim (next_end_lem keys (pos 0) after (inl refl)) [
    | nothing z n all ↦ inl (rw z refl, all)
    | earlier e p all ↦ ground arith
    | first key c run p n all ↦
        let some_end : eqb_ℤ (next_end backoff now keys (pos 0)) (pos 0) ≡ false = ground arith in
        inr (key, next_end backoff now keys (pos 0), c, run, all, rw some_end refl)
  ]
