-- ===== src/Controller/Resize/Budget.antt =====
-- The resize loop against the tokens of the node's limiter.
use Prim.Native.Nat.{min}
use kube_headroom.Prelude.{
  ◌*◌, ◌-◌, ◌^◌, ◌⊎◌, ℕ, ◌+◌, ◌≤◌, ◌≡◌, refl, ap, Bool, true, false, inl, inr, Option, none, some,
  List, [], ◌∷◌, String, arith, Bool-cases, length, length-append,
}
use kube_headroom.Prelude.Int.{ℤ}
use kube_headroom.Prelude.Text.{lookup}
use kube_headroom.Kube.{Quantity, GoMap, Pod}
use kube_headroom.Policy.{Decision}
use kube_headroom.Controller.Resize.{
  PatchError, not_found, conflict, forbidden, other, PatchEntry, resize_patch, Calls, Pass, idle,
  followed_by, after, classify_resize_error, answered, apply_resize, resize_one, resize_all,
}
use kube_headroom.Controller.Resize.Attempts.{patches, patches-append, add_patch, apply_resize_lem}

-- One for a token that is given.
abbrev pub spent : Bool → ℕ
spent true = 1
spent false = 0

-- What a token bucket holds at an instant, in billionths of a token: it is refilled since the last call
-- at a rate of tokens per second, which are billionths per nanosecond, up to the burst.
abbrev pub held : {L : Type 0} → ℕ → ℕ → (L → ℕ) → (L → ℕ) → L → ℕ → ℕ
held rate burst level last l t = min (burst * 10 ^ 9) (level l + rate * (t - last l))

-- The documented behaviour of Allow: a call at an instant that is not before the last one's takes a
-- token of those that the bucket then holds where it lets the event through, and takes none otherwise.
pub record IsTokenBucket {Q L : Type 0} (calls : Calls Q L) (rate burst : ℕ) (level last : L → ℕ)
    : Type 0 where
  pub taken :
      (l : L) (t : ℕ)
      → last l ≤ t
      → spent (calls.allow t l).0 * 10 ^ 9 + level (calls.allow t l).1
        ≤ held rate burst level last l t
  pub moved : (l : L) (t : ℕ) → last l ≤ t → last (calls.allow t l).1 ≡ t

module _ {Q L : Type 0} (calls : Calls Q L) where
  -- The calls of Allow are in order of time, between two instants.
  abbrev pub InOrder : ℕ → List Decision → ℕ → Type 0
  InOrder from [] until = from ≤ until
  InOrder from (d ∷ decisions) until =
      (from ≤ calls.allow_at d.key) × InOrder (calls.allow_at d.key) decisions until

refill-add : (rate a b c : ℕ) → a ≤ b → b ≤ c → rate * (c - a) ≡ rate * (b - a) + rate * (c - b)
refill-add rate a b c h k =
    let e : c - a ≡ b - a + (c - b) = omega arith in omega (arith, ap (λ x. rate * x) e)

module _ {Q L : Type 0} ⦃q : Quantity Q⦄ (calls : Calls Q L) where
  answered-limiter :
      (key : String) (answer : Option PatchError) (limiter : L) (backoff : GoMap ℤ)
      → (answered calls key answer limiter backoff).limiter ≡ limiter
  unfolding answered classify_resize_error idle
  answered-limiter key none limiter backoff = refl
  answered-limiter key (some not_found) limiter backoff = refl
  answered-limiter key (some conflict) limiter backoff = refl
  answered-limiter key (some (forbidden msg)) limiter backoff = refl
  answered-limiter key (some (other msg)) limiter backoff = refl

  apply_resize-limiter :
      (key : String) (pod : Pod Q) (entries : Option (List (PatchEntry Q))) (limiter : L)
      (backoff : GoMap ℤ)
      → (apply_resize calls key pod entries limiter backoff).limiter ≡ limiter
  unfolding apply_resize after
  apply_resize-limiter key pod none limiter backoff = answered-limiter key none limiter backoff
  apply_resize-limiter key pod (some entries) limiter backoff =
      answered-limiter key (calls.patch pod entries) limiter backoff

  length-add_patch :
      (key : String) (entries : Option (List (PatchEntry Q)))
      → length (add_patch calls key entries []) ≤ 1
  length-add_patch key none = omega arith
  length-add_patch key (some entries) = omega arith

  -- A pass for one pod asks the limiter nothing and sends nothing, or it sends at most one patch, and
  -- that only where the limiter lets it through.
  Spends : Pass Q L → L → ℕ → Type 0
  Spends s limiter t =
      ((length (patches s.effects) ≡ 0) × (s.limiter ≡ limiter))
      ⊎ ((length (patches s.effects) ≤ spent (calls.allow t limiter).0)
          × (s.limiter ≡ (calls.allow t limiter).1))

  resize_one-Spends :
      (dry_run : Bool) (d : Decision) (pod : Option (Pod Q)) (limiter : L) (backoff : GoMap ℤ)
      → Spends (resize_one calls dry_run d pod limiter backoff) limiter (calls.allow_at d.key)
  unfolding Spends resize_one idle after
  resize_one-Spends dry_run d none limiter backoff = inl (refl, refl)
  resize_one-Spends dry_run d (some pod) limiter backoff = elim (Bool-cases d.apply) [
    | inr skip ↦ rw skip (inl (refl, refl))
    | inl apply ↦ elim (Bool-cases dry_run) [
      | inl dry ↦ rw (apply, dry) (inl (refl, refl))
      | inr live ↦ elim (Bool-cases (calls.allow (calls.allow_at d.key) limiter).0) [
        | inr stop ↦ rw (apply, live, stop) (inr (omega arith, refl))
        | inl go ↦
            let entries = resize_patch pod d.target_limit_milli in
            let limiter' = (calls.allow (calls.allow_at d.key) limiter).1 in
            let (sent, on) = apply_resize_lem calls d.key pod entries limiter' backoff in
            let same = apply_resize-limiter d.key pod entries limiter' backoff in
            rw (apply, live, go)
              (inr (omega (arith, ap length sent, length-add_patch d.key entries), same))
      ]
    ]
  ]

  module _ (rate burst : ℕ) (level last : L → ℕ)
      (bucket : IsTokenBucket calls rate burst level last) where
    -- What the bucket holds at a later instant.
    held-later :
        (l : L) (from t : ℕ)
        → last l ≤ from
        → from ≤ t
        → held rate burst level last l t ≤ held rate burst level last l from + rate * (t - from)
    held-later l from t h k = omega (arith, refill-add rate (last l) from t h k)

    held-level : (l : L) (t : ℕ) → last l ≡ t → held rate burst level last l t ≤ level l
    held-level l t e =
        let z : t - last l ≡ 0 = omega (arith, e) in
        let z' : rate * (t - last l) ≡ 0 = rw z (omega arith) in omega (arith, z')

    -- A pass for one pod leaves a bucket from which the rest can take what is left.
    step :
        (s : Pass Q L) (l : L) (from t until n : ℕ)
        → Spends s l t
        → last l ≤ from
        → from ≤ t
        → t ≤ until
        → (last s.limiter ≤ t
            → n * 10 ^ 9 ≤ held rate burst level last s.limiter t + rate * (until - t))
        → (length (patches s.effects) + n) * 10 ^ 9
          ≤ held rate burst level last l from + rate * (until - from)
    unfolding Spends
    step s l from t until n (inl (z, e)) h k u rest =
        let rest' = rw e at rest in
        let some_left = rest' (omega arith) in
        omega (arith, z, some_left, held-later l from t h k, refill-add rate from t until k u)
    step s l from t until n (inr (le, e)) h k u rest =
        let rest' = rw e at rest in
        let some_left = rest' (omega (arith, bucket.moved l t (omega arith))) in
        omega (
          arith,
          le,
          some_left,
          held-level (calls.allow t l).1 t (bucket.moved l t (omega arith)),
          bucket.taken l t (omega arith),
          held-later l from t h k,
          refill-add rate from t until k u,
        )

    InOrder-le :
        (from : ℕ) (decisions : List Decision) (until : ℕ)
        → InOrder calls from decisions until
        → from ≤ until
    InOrder-le from [] until h = h
    InOrder-le from (d ∷ decisions) until (h, hs) =
        omega (arith, h, InOrder-le (calls.allow_at d.key) decisions until hs)

    -- Where Allow behaves as a token bucket of a rate and a burst, as documented, and its calls are
    -- in order of time between two instants, of which the first is not before the bucket's last
    -- call, the resize patches of a pass are at most the tokens that the bucket holds at the first
    -- instant, which are at most the burst, and the tokens refilled at the rate until the second.
    pub resize_all-tokens :
        (dry_run : Bool) (by_key : GoMap (Pod Q)) (decisions : List Decision) (limiter : L)
        (backoff : GoMap ℤ) (from until : ℕ)
        → last limiter ≤ from
        → InOrder calls from decisions until
        → length (patches (resize_all calls dry_run by_key decisions limiter backoff).effects)
            * 10 ^ 9
          ≤ held rate burst level last limiter from + rate * (until - from)
    unfolding resize_all idle followed_by
    resize_all-tokens dry_run by_key [] limiter backoff from until h k = omega arith
    resize_all-tokens dry_run by_key (d ∷ decisions) limiter backoff from until h (k, ks) =
        let t = calls.allow_at d.key in
        let s = resize_one calls dry_run d (lookup d.key by_key) limiter backoff in
        let r = resize_all calls dry_run by_key decisions s.limiter s.backoff in
        let one = resize_one-Spends dry_run d (lookup d.key by_key) limiter backoff in
        let until_le = InOrder-le t decisions until ks in
        elim (Bool-cases s.stopped) [
          | inl stop ↦
              simp stop
                (omega (arith, step s limiter from t until 0 one h k until_le (λ l. omega arith)))
          | inr on ↦ simp on (
              omega (
                arith,
                step s limiter from t until (length (patches r.effects)) one h k until_le (λ l.
                    resize_all-tokens dry_run by_key decisions s.limiter s.backoff t until l ks),
                ap length (patches-append s.effects r.effects),
                length-append (patches s.effects) (patches r.effects),
              ))
        ]
