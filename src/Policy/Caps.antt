-- ===== src/Policy/Caps.antt =====
-- clampAndQuantize and capMilli: the caps of a target.
use kube_headroom.Prelude.{ℕ, zero, suc, ◌+◌, ◌^◌, ◌≤◌, ◌<◌, ◌≡◌, refl, false, ◌⊎◌, inl, inr, arith}
use kube_headroom.Prelude.Int.{ℤ, pos, negsuc, pos_part, ◌≤ℤ◌, min, max, min_le, eq_of_parts}
use kube_headroom.Float
use kube_headroom.Policy.{Config, PodInput, ceiling, quantize, clamp_and_quantize, cap_milli}
use kube_headroom.Policy.Quantize.{quantize-pos, quantized_range}

-- The largest limit that the cap on the multiple of the request admits.
abbrev pub multiple_cap : ℤ → Config → ℤ
multiple_cap req cfg = Float.to_int (Float.round (Float.mul (Float.of_int req) cfg.max_multiplier))

-- The hard caps, each where it is in force.
abbrev pub WithinCaps : ℤ → ℤ → ℤ → ℤ → Config → Type 0
WithinCaps t req allocatable pod_cap cfg =
    (t ≤ℤ allocatable)
    × ((Float.lt (Float.of_int (pos 0)) cfg.max_multiplier ≡ false) ⊎ (t ≤ℤ multiple_cap req cfg))
    × ((pod_cap ≤ℤ pos 0) ⊎ (t ≤ℤ pod_cap))

ceiling-ge : (req a c : ℤ) (cfg : Config) → req ≤ℤ ceiling req a c cfg
unfolding ceiling
ceiling-ge req a c cfg = ground arith

pub ceiling-cases :
    (req a c : ℤ) (cfg : Config)
    → (ceiling req a c cfg ≡ req) ⊎ WithinCaps (ceiling req a c cfg) req a c cfg
unfolding ceiling
ceiling-cases req a c cfg =
    let m = multiple_cap req cfg in ground (arith, min_le a m, min_le (min a m) c, min_le a c)

-- The user's cap and the LimitRanges' cap of a pod, each where it is in force.
abbrev pub WithinPodCaps : ℤ → PodInput → Type 0
WithinPodCaps t p =
    ((p.user_cap_milli ≤ℤ pos 0) ⊎ (t ≤ℤ p.user_cap_milli))
    × ((p.limit_range_cap ≤ℤ pos 0) ⊎ (t ≤ℤ p.limit_range_cap))

-- All the caps of a pod on a node, each where it is in force.
abbrev pub WithinAllCaps : ℤ → ℤ → ℤ → PodInput → Config → Type 0
WithinAllCaps t req allocatable p cfg =
    (t ≤ℤ allocatable)
    × ((Float.lt (Float.of_int (pos 0)) cfg.max_multiplier ≡ false) ⊎ (t ≤ℤ multiple_cap req cfg))
    × WithinPodCaps t p

cap_milli-WithinPodCaps :
    (t : ℤ) (p : PodInput) → (cap_milli p ≤ℤ pos 0) ⊎ (t ≤ℤ cap_milli p) → WithinPodCaps t p
unfolding cap_milli
cap_milli-WithinPodCaps t p h = ground arith

WithinCaps-all :
    (t req a : ℤ) (p : PodInput) (cfg : Config)
    → WithinCaps t req a (cap_milli p) cfg
    → WithinAllCaps t req a p cfg
WithinCaps-all t req a p cfg (w, x, y) = (w, x, cap_milli-WithinPodCaps t p y)

pub within_all {ℓ} :
    {A : Type ℓ} (t req a : ℤ) (p : PodInput) (cfg : Config)
    → A ⊎ WithinCaps t req a (cap_milli p) cfg
    → A ⊎ WithinAllCaps t req a p cfg
within_all t req a p cfg (inl h) = inl h
within_all t req a p cfg (inr w) = inr (WithinCaps-all t req a p cfg w)

pub equal_of : (a b : ℤ) → a ≤ℤ b → b ≤ℤ a → b ≡ a
equal_of a b h k = eq_of_parts b a (omega arith)

pub WithinCaps-mono :
    (t h req a c : ℤ) (cfg : Config) → t ≤ℤ h → WithinCaps h req a c cfg → WithinCaps t req a c cfg
WithinCaps-mono t h req a c cfg le (w, x, y) = (omega arith, ground arith, ground arith)

-- An integer between two natural numbers is one.
between : (z : ℤ) (a b : ℕ) → pos a ≤ℤ z → z ≤ℤ pos b → (n : ℕ) × (z ≡ pos n) × (a ≤ n) × (n ≤ b)
between (pos n) a b l u = (n, refl, omega arith, omega arith)
between (negsuc n) a b l u = absurd (omega arith)

ceiling-le : (r : ℕ) (a c : ℤ) (cfg : Config) → ceiling (pos r) a c cfg ≤ℤ pos (r + pos_part a)
ceiling-le r a c cfg = elim (ceiling-cases (pos r) a c cfg) [
  | inl e ↦ rw e (omega arith)
  | inr w ↦ let below = w.0 in omega arith
]

-- A ceiling over a request that is not negative is a natural number.
pub ceiling-pos :
    (r : ℕ) (a c : ℤ) (cfg : Config)
    → (h : ℕ) × (ceiling (pos r) a c cfg ≡ pos h) × (r ≤ h) × (h ≤ r + pos_part a)
ceiling-pos r a c cfg =
    between (ceiling (pos r) a c cfg) r (r + pos_part a) (ceiling-ge (pos r) a c cfg)
      (ceiling-le r a c cfg)

clipped-ge : (raw : ℤ) (r h : ℕ) → r ≤ h → pos r ≤ℤ min (max raw (pos r)) (pos h)
unfolding min max
clipped-ge raw r h rh = ground arith

pub clipped-pos :
    (raw : ℤ) (r h : ℕ)
    → r ≤ h
    → (x : ℕ) × (min (max raw (pos r)) (pos h) ≡ pos x) × (r ≤ x) × (x ≤ h)
clipped-pos raw r h rh =
    between (min (max raw (pos r)) (pos h)) r h (clipped-ge raw r h rh)
      (min_le (max raw (pos r)) (pos h)).1

-- A quantum that is not positive turns the rounding off.
pub quantize-off : (x r h q : ℤ) → q ≤ℤ pos 0 → quantize x r h q ≡ x
unfolding quantize
quantize-off x r h q off = ground arith

quantize_range :
    (x r h : ℕ) (q : ℤ)
    → r ≤ x
    → x ≤ h
    → h + pos_part q < 2 ^ 63
    → (pos r ≤ℤ quantize (pos x) (pos r) (pos h) q) × (quantize (pos x) (pos r) (pos h) q ≤ℤ pos h)
quantize_range x r h (pos zero) rx xh fits =
    rw (quantize-off (pos x) (pos r) (pos h) (pos 0) (omega arith)) (omega arith)
quantize_range x r h (pos (suc q)) rx xh fits =
    rw (quantize-pos x r h (suc q) (omega arith) xh fits)
      (omega (arith, quantized_range x r h (suc q) (omega arith) rx xh))
quantize_range x r h (negsuc q) rx xh fits =
    rw (quantize-off (pos x) (pos r) (pos h) (negsuc q) (omega arith)) (omega arith)

-- No arithmetic on the request and the allocatable CPU leaves int64.
abbrev pub HasRoom : ℕ → ℤ → Config → Type 0
HasRoom r allocatable cfg = r + pos_part allocatable + pos_part cfg.quantum_milli < 2 ^ 62

pub clamp_range :
    (raw : ℤ) (r : ℕ) (a c : ℤ) (cfg : Config)
    → HasRoom r a cfg
    → (pos r ≤ℤ clamp_and_quantize raw (pos r) a c cfg)
      × (clamp_and_quantize raw (pos r) a c cfg ≤ℤ ceiling (pos r) a c cfg)
unfolding clamp_and_quantize
clamp_range raw r a c cfg room =
    let (h, e, rh, ha) = ceiling-pos r a c cfg in
    let (x, e', rx, xh) = clipped-pos raw r h rh in
    rw (e, e') (quantize_range x r h cfg.quantum_milli rx xh (omega arith))
