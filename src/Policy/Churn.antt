-- ===== src/Policy/Churn.antt =====
-- A node whose targets are enforced, and its next pass.
use kube_headroom.Prelude.{
  ◌≡◌, refl, ap, sym, ◌∙◌, Bool, true, false, if◌then◌else◌, arith, List, [], ◌∷◌, map, All,
  Bool-cases, inl, inr, String,
}
use kube_headroom.Prelude.Int.{ℤ, eqb_ℤ, eqb_ℤ-refl}
use kube_headroom.Policy.{
  Config, PodInput, NodeStats, Decision, Totals, decide, finalize, verdict, target_of, lifted,
  cap_milli, count_pod, count_pods, no_pods, stats_of, decide_all, compute, compute_node, is_booked,
  is_lifted,
}

-- The pod once its target is its enforced limit.
unfoldable pub settled : NodeStats → Config → PodInput → PodInput
settled s cfg p =
    if p.managed then record p { current_limit_milli = (decide p s cfg).target_limit_milli } else p

verdict_rest :
    (t cur : ℤ) (why : String) (cfg : Config) → cur ≡ t → (verdict t cur why cfg).0 ≡ false
unfolding verdict
verdict_rest t cur why cfg e = let same : eqb_ℤ t cur ≡ true = rw e (eqb_ℤ-refl t) in rw same

abbrev final_target : PodInput → ℤ → Config → ℤ
final_target p target cfg = if is_lifted p target then lifted p cfg else target

finalize_rest :
    (p : PodInput) (target : ℤ) (why : String) (cfg : Config)
    → p.current_limit_milli ≡ final_target p target cfg
    → (finalize p target why cfg).apply ≡ false
unfolding finalize
finalize_rest p target why cfg e =
    verdict_rest (final_target p target cfg) p.current_limit_milli _ cfg e

decide_final :
    (p : PodInput) (s : NodeStats) (cfg : Config)
    → (decide p s cfg).target_limit_milli ≡ final_target p (target_of p s cfg) cfg
unfolding decide finalize
decide_final p s cfg = ground arith

decide_rest :
    (p : PodInput) (s : NodeStats) (cfg : Config)
    → p.current_limit_milli ≡ final_target p (target_of p s cfg) cfg
    → (decide p s cfg).apply ≡ false
unfolding decide
decide_rest p s cfg e = elim (Bool-cases (is_booked s)) [
  | inl b ↦ rw b (finalize_rest p (target_of p s cfg) _ cfg e)
  | inr b ↦ rw b (finalize_rest p (target_of p s cfg) _ cfg e)
]

-- The pod whose enforced limit is t.
abbrev pub enforced : PodInput → ℤ → PodInput
enforced p t = record p { current_limit_milli = t }

final_target-enforced :
    (p : PodInput) (t : ℤ) (s : NodeStats) (cfg : Config)
    → final_target (enforced p t) (target_of (enforced p t) s cfg) cfg
      ≡ final_target p (target_of p s cfg) cfg
unfolding target_of cap_milli lifted
final_target-enforced p t s cfg = refl

-- A pod whose current limit is the target that decide gave it keeps that target under the same
-- figures, and the decision is not to be applied.
pub decide-enforced :
    (p : PodInput) (s : NodeStats) (cfg : Config)
    → let t = (decide p s cfg).target_limit_milli in
      ((decide (enforced p t) s cfg).target_limit_milli ≡ t)
      × ((decide (enforced p t) s cfg).apply ≡ false)
decide-enforced p s cfg =
    let t = (decide p s cfg).target_limit_milli in
    let same = final_target-enforced p t s cfg in
    (
      decide_final (enforced p t) s cfg ∙ same ∙ sym (decide_final p s cfg),
      decide_rest (enforced p t) s cfg (decide_final p s cfg ∙ sym same),
    )

count_pod-settled :
    (p : PodInput) (s : NodeStats) (cfg : Config) (t : Totals)
    → count_pod (settled s cfg p) t ≡ count_pod p t
unfolding count_pod settled
count_pod-settled p s cfg t = ground arith

count_pods-settled :
    (pods : List PodInput) (s : NodeStats) (cfg : Config) (t : Totals)
    → count_pods (map (settled s cfg) pods) t ≡ count_pods pods t
unfolding count_pods
count_pods-settled [] s cfg t = refl
count_pods-settled (p ∷ pods) s cfg t =
    count_pods-settled pods s cfg (count_pod (settled s cfg p) t)
    ∙ ap (count_pods pods) (count_pod-settled p s cfg t)

-- Nothing to patch.
abbrev pub AtRest : List Decision → Type 0
AtRest = All λ d. d.apply ≡ false

settled-managed :
    (p : PodInput) (s : NodeStats) (cfg : Config)
    → p.managed ≡ true
    → settled s cfg p ≡ enforced p (decide p s cfg).target_limit_milli
unfolding settled
settled-managed p s cfg e = ground arith

settled-unmanaged :
    (p : PodInput) (s : NodeStats) (cfg : Config) → p.managed ≡ false → settled s cfg p ≡ p
unfolding settled
settled-unmanaged p s cfg e = ground arith

settled-apply :
    (p : PodInput) (s : NodeStats) (cfg : Config)
    → (settled s cfg p).managed ≡ true
    → (decide (settled s cfg p) s cfg).apply ≡ false
settled-apply p s cfg h = elim (Bool-cases p.managed) [
  | inl e ↦ rw (settled-managed p s cfg e) (decide-enforced p s cfg).1
  | inr e ↦ cc (ap (λ (q : PodInput). q.managed) (settled-unmanaged p s cfg e))
]

AtRest-if :
    (b : Bool) (d : Decision) (rest : List Decision)
    → (b ≡ true → d.apply ≡ false)
    → AtRest rest
    → AtRest (if b then d ∷ rest else rest)
AtRest-if true d rest h r = (h refl, r)
AtRest-if false d rest h r = r

decide_all-settled :
    (pods : List PodInput) (s : NodeStats) (cfg : Config)
    → AtRest (decide_all (map (settled s cfg) pods) s cfg)
unfolding decide_all
decide_all-settled [] s cfg = tt
decide_all-settled (p ∷ pods) s cfg =
    let q = settled s cfg p in
    AtRest-if q.managed (decide q s cfg) (decide_all (map (settled s cfg) pods) s cfg)
      (settled-apply p s cfg) (decide_all-settled pods s cfg)

-- If every managed pod's current limit is the target of a pass, the next pass on the same node and
-- pods has no decision to apply.
pub compute-settled :
    (allocatable : ℤ) (pods : List PodInput) (cfg : Config)
    → AtRest
        (compute_node allocatable (map (settled (compute allocatable pods cfg).0 cfg) pods) cfg)
unfolding compute compute_node
compute-settled allocatable pods cfg =
    let s = stats_of allocatable (count_pods pods no_pods) in
    rw (count_pods-settled pods s cfg no_pods) (decide_all-settled pods s cfg)
