-- ===== src/Controller/Resize/Attempts.antt =====
-- The resize loop: which patches it sends.
use kube_headroom.Prelude.{
  ℕ, zero, suc, ◌≡◌, refl, ap, ◌∙◌, true, false, ◌⊎◌, inl, inr, if◌then◌else◌, Option, none, some,
  List, [], ◌∷◌, ◌++◌, String, arith, Bool-cases,
}
use kube_headroom.Prelude.Int.{ℤ}
use kube_headroom.Prelude.Text.{lookup}
use kube_headroom.Kube.{Quantity, GoMap, Pod}
use kube_headroom.Policy.{Decision}
use kube_headroom.Controller.Resize.{
  PatchError, not_found, conflict, forbidden, other, PatchEntry, Effect, annotated, metered, event,
  patched, resize_patch, Calls, Pass, idle, followed_by, after, classify_resize_error, answered,
  apply_resize, resize_one, resize_all, fails, requeue_after, second, reply,
}

abbrev pub Patch : Type 0 → Type 0
Patch Q = String × List (PatchEntry Q)

module _ {Q : Type 0} where
  -- The patches among the effects, in order.
  abbrev pub patches : List (Effect Q) → List (Patch Q)
  patches [] = []
  patches (annotated k ∷ es) = patches es
  patches (metered r ∷ es) = patches es
  patches (event k t r ∷ es) = patches es
  patches (patched k entries ∷ es) = (k, entries) ∷ patches es

  pub patches-append : (xs ys : List (Effect Q)) → patches (xs ++ ys) ≡ patches xs ++ patches ys
  patches-append [] ys = refl
  patches-append (annotated k ∷ xs) ys = patches-append xs ys
  patches-append (metered r ∷ xs) ys = patches-append xs ys
  patches-append (event k t r ∷ xs) ys = patches-append xs ys
  patches-append (patched k entries ∷ xs) ys = ap (λ r. (k, entries) ∷ r) (patches-append xs ys)

  abbrev pub take : ℕ → List (Patch Q) → List (Patch Q)
  take zero ps = []
  take (suc n) [] = []
  take (suc n) (p ∷ ps) = p ∷ take n ps

reply_limited :
    {Q L : Type 0} (s : Pass Q L) (keys : List String) (judged_at delay : ℤ)
    → s.rate_limited ≡ true
    → (reply s keys judged_at delay ≡ requeue_after second)
      ⊎ ((e : String) × (es : List String) × (reply s keys judged_at delay ≡ fails (e ∷ es)))
unfolding reply
reply_limited s keys judged_at delay limited = by_errors s.errors
  where
    by_errors :
        (errors : List String)
        → (reply (record s { errors = errors }) keys judged_at delay ≡ requeue_after second)
          ⊎ ((e : String) × (es : List String) × (reply
                  (record s { errors = errors })
                  keys
                  judged_at
                  delay
                ≡ fails (e ∷ es)))
    by_errors [] = inl (rw limited refl)
    by_errors (e ∷ es) = inr (e, es, refl)

module _ {Q L : Type 0} ⦃q : Quantity Q⦄ (calls : Calls Q L) where
  -- The patch that a decision calls for: its pod is at hand, it is to be applied, and the split
  -- gives some container a limit.
  abbrev pub patch_of : Decision → Option (Pod Q) → Option (List (PatchEntry Q))
  patch_of d none = none
  patch_of d (some pod) = if d.apply then resize_patch pod d.target_limit_milli else none

  abbrev pub add_patch : String → Option (List (PatchEntry Q)) → List (Patch Q) → List (Patch Q)
  add_patch k none ps = ps
  add_patch k (some entries) ps = (k, entries) ∷ ps

  abbrev pub wanted : GoMap (Pod Q) → List Decision → List (Patch Q)
  wanted by_key [] = []
  wanted by_key (d ∷ decisions) =
      add_patch d.key (patch_of d (lookup d.key by_key)) (wanted by_key decisions)

  -- The loop sends the patches that it should, in order; or it stops at the limiter, and says so.
  abbrev pub Sends : List (Patch Q) → Pass Q L → Type 0
  Sends ps s =
      (patches s.effects ≡ ps)
      ⊎ ((s.rate_limited ≡ true) × (n : ℕ) × (patches s.effects ≡ take n ps))

  pub answered_lem :
      (key : String) (answer : Option PatchError) (limiter : L) (backoff : GoMap ℤ)
      → (patches (answered calls key answer limiter backoff).effects ≡ [])
        × ((answered calls key answer limiter backoff).stopped ≡ false)
  unfolding answered classify_resize_error idle
  answered_lem key none limiter backoff = (refl, refl)
  answered_lem key (some not_found) limiter backoff = (refl, refl)
  answered_lem key (some conflict) limiter backoff = (refl, refl)
  answered_lem key (some (forbidden msg)) limiter backoff = (refl, refl)
  answered_lem key (some (other msg)) limiter backoff = (refl, refl)

  pub apply_resize_lem :
      (key : String) (pod : Pod Q) (entries : Option (List (PatchEntry Q))) (limiter : L)
      (backoff : GoMap ℤ)
      → (patches (apply_resize calls key pod entries limiter backoff).effects
          ≡ add_patch key entries [])
        × ((apply_resize calls key pod entries limiter backoff).stopped ≡ false)
  unfolding apply_resize after
  apply_resize_lem key pod none limiter backoff = answered_lem key none limiter backoff
  apply_resize_lem key pod (some entries) limiter backoff =
      let (sent, on) = answered_lem key (calls.patch pod entries) limiter backoff in
      (ap (λ r. (key, entries) ∷ r) sent, on)

  -- The body of the loop sends its decision's patch, or stops at the limiter.
  pub resize_one_lem :
      (d : Decision) (pod : Option (Pod Q)) (limiter : L) (backoff : GoMap ℤ)
      → (((resize_one calls false d pod limiter backoff).stopped ≡ false)
          × (patches (resize_one calls false d pod limiter backoff).effects
              ≡ add_patch d.key (patch_of d pod) []))
        ⊎ (((resize_one calls false d pod limiter backoff).stopped ≡ true)
            × ((resize_one calls false d pod limiter backoff).rate_limited ≡ true)
            × (patches (resize_one calls false d pod limiter backoff).effects ≡ []))
  unfolding resize_one idle after
  resize_one_lem d none limiter backoff = inl (refl, refl)
  resize_one_lem d (some pod) limiter backoff = elim (Bool-cases d.apply) [
    | inr skip ↦ inl (rw skip (refl, refl))
    | inl apply ↦ elim (Bool-cases (calls.allow (calls.allow_at d.key) limiter).0) [
      | inr stop ↦ inr (rw (apply, stop) (refl, refl, refl))
      | inl go ↦
          let (sent, on) =
            apply_resize_lem d.key pod (resize_patch pod d.target_limit_milli)
              (calls.allow (calls.allow_at d.key) limiter).1 backoff in
          inl (rw (apply, go) (on, sent))
    ]
  ]

  Sends-followed_by :
      (key : String) (entries : Option (List (PatchEntry Q))) (ps : List (Patch Q))
      (s rest : Pass Q L)
      → patches s.effects ≡ add_patch key entries []
      → Sends ps rest
      → Sends (add_patch key entries ps) (followed_by s rest)
  unfolding followed_by
  Sends-followed_by key none ps s rest e (inl h) =
      inl (patches-append s.effects rest.effects ∙ rw e h)
  Sends-followed_by key none ps s rest e (inr (limited, n, h)) =
      inr (ground (arith, limited), n, patches-append s.effects rest.effects ∙ rw e h)
  Sends-followed_by key (some entries) ps s rest e (inl h) =
      inl (patches-append s.effects rest.effects ∙ rw e (ap (λ r. (key, entries) ∷ r) h))
  Sends-followed_by key (some entries) ps s rest e (inr (limited, n, h)) = inr (
    ground (arith, limited),
    suc n,
    patches-append s.effects rest.effects ∙ rw e (ap (λ r. (key, entries) ∷ r) h),
  )

  module _ (by_key : GoMap (Pod Q)) where
    -- A live pass of the loop sends the patches that the decisions call for (pod at hand, decision
    -- to be applied, split not empty), in their order and whatever the API server answers to each,
    -- or it sends a first part of them and is rate-limited.
    pub resize_all-patches :
        (decisions : List Decision) (limiter : L) (backoff : GoMap ℤ)
        → Sends (wanted by_key decisions) (resize_all calls false by_key decisions limiter backoff)
    unfolding resize_all idle resize_one
    resize_all-patches [] limiter backoff = inl refl
    resize_all-patches (d ∷ decisions) limiter backoff =
        let s = resize_one calls false d (lookup d.key by_key) limiter backoff in
        elim (resize_one_lem d (lookup d.key by_key) limiter backoff) [
          | inl (on, sent) ↦ rw on (
              Sends-followed_by d.key (patch_of d (lookup d.key by_key)) (wanted by_key decisions) s
                (resize_all calls false by_key decisions s.limiter s.backoff) sent
                (resize_all-patches decisions s.limiter s.backoff))
          | inr (stop, limited, sent) ↦ rw stop (inr (limited, 0, sent))
        ]

    -- After a live pass of the loop every patch that the decisions call for has been sent, or
    -- Reconcile asks to come back after a second or ends with an error.
    pub reply-patches :
        (decisions : List Decision) (limiter : L) (backoff : GoMap ℤ) (keys : List String)
        (judged_at delay : ℤ)
        → let s = resize_all calls false by_key decisions limiter backoff in
          (patches s.effects ≡ wanted by_key decisions)
          ⊎ ((reply s keys judged_at delay ≡ requeue_after second)
              ⊎ ((e : String) × (es : List String) × (reply s keys judged_at delay
                    ≡ fails (e ∷ es))))
    unfolding reply
    reply-patches decisions limiter backoff keys judged_at delay =
        let s = resize_all calls false by_key decisions limiter backoff in
        elim (resize_all-patches decisions limiter backoff) [
          | inl all ↦ inl all
          | inr (limited, n, sent) ↦ inr (reply_limited s keys judged_at delay limited)
        ]
