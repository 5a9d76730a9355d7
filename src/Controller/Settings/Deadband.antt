-- ===== src/Controller/Settings/Deadband.antt =====
-- The deadband of a resolved config: the policy's float64 comparison and the percentages.
use native.Mathlib.Nat.{mul-le-mul_right}
use native.Mathlib.Decide.{dec_lt}
use kube_headroom.Prelude.{
  ℕ, suc, ◌-◌, ◌*◌, ◌^◌, ◌<◌, ◌≡◌, refl, ap, ◌∙◌, Bool, true, false, ltb, leb, ◌==◌, ◌&&◌, not,
  if◌then◌else◌, String, arith, Bool-cases, inl, inr, lt→ltb, le→ltb,
}
use kube_headroom.Prelude.Int.{ℤ, pos, negsuc, ◌-ℤ◌, eqb_ℤ, leb_ℤ, ltb_ℤ, -ℤ_parts, eq_of_parts}
use kube_headroom.Prelude.Int64
use kube_headroom.Float
use kube_headroom.Float.{Float64, fin, of_int, div}
use kube_headroom.Float.Laws.{div-of_int}
use kube_headroom.Float.Compare.{le-rounded, abs-of_int, abs-of_int_neg}
use kube_headroom.Kube.{Quantity, HeadroomConfigSpec}
use kube_headroom.Policy.{Config, verdict}
use kube_headroom.Policy.Quantize.{sub_pos}
use kube_headroom.Controller.Settings.{percent, resolve_config}

-- How far a target is from the current limit.
abbrev pub distance : ℕ → ℕ → ℕ
distance t c = if ltb t c then c - t else t - c

change_lem :
    (t c : ℕ)
    → t < 2 ^ 45
    → c < 2 ^ 45
    → Float.abs (of_int (Int64.sub (pos t) (pos c))) ≡ of_int (pos (distance t c))
change_lem t c ht hc = elim (dec_lt t c) [
  | yes p ↦
      let e : pos t -ℤ pos c ≡ negsuc (c - t - 1) =
        eq_of_parts (pos t -ℤ pos c) (negsuc (c - t - 1))
          (omega (arith, -ℤ_parts (pos t) (pos c))) in
      let sub : Int64.sub (pos t) (pos c) ≡ negsuc (c - t - 1) =
        Int64.sub_exact (pos t) (pos c) (rw e (omega arith, omega arith)) ∙ e in
      let size : suc (c - t - 1) ≡ c - t = omega arith in
      rw (sub, lt→ltb t c p)
        (abs-of_int_neg (c - t - 1) (omega arith) ∙ ap (λ n. of_int (pos n)) size)
  | no p ↦
      rw (sub_pos t c (omega arith) (omega arith), le→ltb t c (omega arith))
        (abs-of_int (t - c) (omega arith))
]

-- The change is at least the percentage of the current limit, in the direction taken.
abbrev pub moves : ℕ → ℕ → ℕ → ℕ → Bool
moves grow shrink t c = leb ((if ltb t c then shrink else grow) * c) (distance t c * 100)

band_lem :
    (p c n : ℕ)
    → 0 < c
    → c < 2 ^ 45
    → n < 2 ^ 45
    → p * c < 2 ^ 52
    → Float.le (percent (pos p)) (div (of_int (pos n)) (of_int (pos c))) ≡ leb (p * c) (n * 100)
band_lem p c n pc hc hn h =
    rw
      (
        div-of_int p 100 (omega (arith, mul-le-mul_right p pc)) (omega arith) (omega arith),
        div-of_int n c (omega arith) pc (omega arith),
      )
      (le-rounded p 100 n c (omega arith) pc h (omega arith) (omega arith) (omega arith))

applied :
    (b : Bool) (reason other : String)
    → (if◌then◌else◌ {A = Bool × String} b (true, reason) (false, other)).0 ≡ b
applied true reason other = refl
applied false reason other = refl

-- The verdict of the policy, for a config with these percentages.
verdict_lem :
    (cfg : Config) (grow shrink t c : ℕ) (reason : String)
    → cfg.deadband_grow ≡ percent (pos grow)
    → cfg.deadband_shrink ≡ percent (pos shrink)
    → 0 < c
    → t < 2 ^ 45
    → c < 2 ^ 45
    → grow * c < 2 ^ 52
    → shrink * c < 2 ^ 52
    → (verdict (pos t) (pos c) reason cfg).0 ≡ (not (t == c) && moves grow shrink t c)
unfolding verdict
verdict_lem cfg grow shrink t c reason eg es pc ht hc hg hs =
    let same : eqb_ℤ (pos t) (pos c) ≡ (t == c) = ground arith in
    let below : ltb_ℤ (pos t) (pos c) ≡ ltb t c = ground arith in
    let some_left : leb_ℤ (pos c) (pos 0) ≡ false = ground arith in
    elim (Bool-cases (t == c)) [
      | inl e ↦ rw (same, e) refl
      | inr e ↦
          rw (same, e, some_left, below, change_lem t c ht hc)
            (elim (Bool-cases (ltb t c)) [
              | inl f ↦
                  rw (f, es)
                    (applied _ reason "within-deadband"
                      ∙ band_lem shrink c (c - t) pc hc (omega arith) hs)
              | inr f ↦
                  rw (f, eg)
                    (applied _ reason "within-deadband"
                      ∙ band_lem grow c (t - c) pc hc (omega arith) hg)
            ])
    ]

module _ {Q S : Type 0} ⦃q : Quantity Q⦄ where
  -- Under the config that resolveConfig makes of a spec with deadband percentages that are not
  -- negative, for a positive current limit c and a target t below 2^45, with each percentage times
  -- c below 2^52, the deadband rule of finalize applies t if and only if t is not c and 100 times
  -- their distance is at least the percentage for its direction times c.
  pub verdict-resolve_config :
      (s : HeadroomConfigSpec Q S) (fallback : ℤ) (grow shrink t c : ℕ) (reason : String)
      → s.deadband.grow_percent ≡ pos grow
      → s.deadband.shrink_percent ≡ pos shrink
      → 0 < c
      → t < 2 ^ 45
      → c < 2 ^ 45
      → grow * c < 2 ^ 52
      → shrink * c < 2 ^ 52
      → (verdict (pos t) (pos c) reason (resolve_config s fallback).policy).0
        ≡ (not (t == c) && moves grow shrink t c)
  unfolding resolve_config
  verdict-resolve_config s fallback grow shrink t c reason eg es pc ht hc hg hs =
      verdict_lem (resolve_config s fallback).policy grow shrink t c reason (ap percent eg)
        (ap percent es) pc ht hc hg hs
