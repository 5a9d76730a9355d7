-- ===== src/Policy/Compute.antt =====
-- Compute as a whole: its decisions, its sums, and a pod that only holds its share.
use kube_headroom.Prelude.{
  ◌≡◌, refl, ap, sym, ◌∙◌, true, false, if◌then◌else◌, arith, List, [], ◌∷◌, ◌++◌, map, select,
  Bool-cases, inl, inr,
}
use kube_headroom.Prelude.Int.{ℤ, pos, ◌+ℤ◌, ◌-ℤ◌, max, int_laws}
use kube_headroom.Prelude.Int64
use kube_headroom.Policy.{
  Config, PodInput, NodeStats, Totals, decide, count_pod, count_pods, no_pods, stats_of, decide_all,
  compute, compute_node, in_basis,
}
use kube_headroom.Policy.Bounds.{decide_key}

decide_all-keys :
    (pods : List PodInput) (s : NodeStats) (cfg : Config)
    → map (λ d. d.key) (decide_all pods s cfg) ≡ map (λ p. p.key) (select (λ p. p.managed) pods)
unfolding decide_all
decide_all-keys [] s cfg = refl
decide_all-keys (p ∷ pods) s cfg = elim (Bool-cases p.managed) [
  | inl e ↦ ground (arith, decide_key p s cfg, decide_all-keys pods s cfg)
  | inr e ↦ ground (arith, decide_all-keys pods s cfg)
]

-- ComputeNode gives one decision for each managed pod, under the pod's key and in the order of the
-- input.
pub compute_node-keys :
    (allocatable : ℤ) (pods : List PodInput) (cfg : Config)
    → map (λ d. d.key) (compute_node allocatable pods cfg)
      ≡ map (λ p. p.key) (select (λ p. p.managed) pods)
unfolding compute_node compute
compute_node-keys allocatable pods cfg =
    decide_all-keys pods (stats_of allocatable (count_pods pods no_pods)) cfg

-- The sums that Compute means, with no bound on their size.
unfoldable pub booked_sum : List PodInput → ℤ
booked_sum [] = pos 0
booked_sum (p ∷ pods) = p.request_milli +ℤ p.booked_delta_milli +ℤ booked_sum pods

unfoldable pub basis_sum : List PodInput → ℤ
basis_sum [] = pos 0
basis_sum (p ∷ pods) = (if in_basis p then p.request_milli else pos 0) +ℤ basis_sum pods

wrap_right : (a b : ℤ) → Int64.wrap (a +ℤ Int64.wrap b) ≡ Int64.wrap (a +ℤ b)
wrap_right a b =
    let e : a +ℤ Int64.wrap b ≡ Int64.wrap b +ℤ a = omega int_laws in
    let e' : b +ℤ a ≡ a +ℤ b = omega int_laws in
    ap Int64.wrap e ∙ Int64.wrap-add b a ∙ ap Int64.wrap e'

wrap_sum : (a b c : ℤ) → Int64.wrap (Int64.wrap (a +ℤ b) +ℤ c) ≡ Int64.wrap (a +ℤ (b +ℤ c))
wrap_sum a b c = Int64.wrap-add (a +ℤ b) c ∙ ap Int64.wrap (omega int_laws)

wrap_zero : (a : ℤ) → Int64.Fits a → a ≡ Int64.wrap (a +ℤ pos 0)
wrap_zero a h = let e : a ≡ a +ℤ pos 0 = omega int_laws in sym (Int64.wrap_id a h) ∙ ap Int64.wrap e

zero_sum : (a : ℤ) → Int64.Fits a → Int64.wrap (pos 0 +ℤ a) ≡ a
zero_sum a h = let e : pos 0 +ℤ a ≡ a = omega int_laws in ap Int64.wrap e ∙ Int64.wrap_id a h

-- Each sum of the loop is the exact sum, wrapped once.
count_pods-total_req :
    (pods : List PodInput) (t : Totals)
    → Int64.Fits t.total_req
    → (count_pods pods t).total_req ≡ Int64.wrap (t.total_req +ℤ booked_sum pods)
unfolding count_pods count_pod booked_sum Int64.add
count_pods-total_req [] t h = wrap_zero t.total_req h
count_pods-total_req (p ∷ pods) t h =
    let x = p.request_milli +ℤ p.booked_delta_milli in
    count_pods-total_req pods (count_pod p t) (Int64.wrap-Fits _)
    ∙ ap (λ z. Int64.wrap (z +ℤ booked_sum pods)) (wrap_right t.total_req x)
    ∙ wrap_sum t.total_req x (booked_sum pods)

count_pods-managed_req :
    (pods : List PodInput) (t : Totals)
    → Int64.Fits t.managed_req
    → (count_pods pods t).managed_req ≡ Int64.wrap (t.managed_req +ℤ basis_sum pods)
unfolding count_pods count_pod basis_sum Int64.add
count_pods-managed_req [] t h = wrap_zero t.managed_req h
count_pods-managed_req (p ∷ pods) t h = elim (Bool-cases (in_basis p)) [
  | inl e ↦
      rw (count_pods-managed_req pods (count_pod p t) (rw e (Int64.wrap-Fits _)), e)
        (wrap_sum t.managed_req p.request_milli (basis_sum pods))
  | inr e ↦
      let zero_left : t.managed_req +ℤ basis_sum pods ≡ t.managed_req +ℤ (pos 0 +ℤ basis_sum pods) =
        omega int_laws in
      rw (count_pods-managed_req pods (count_pod p t) (rw e h), e) (ap Int64.wrap zero_left)
]

-- Where the exact sum of the booked CPU, the exact sum of the requests in the basis and the exact
-- difference of the allocatable CPU and the first are int64 values, the node's total, its managed
-- requests and its slack are these sums and that difference, not below 0.
pub compute-sums :
    (allocatable : ℤ) (pods : List PodInput) (cfg : Config)
    → Int64.Fits (booked_sum pods)
    → Int64.Fits (basis_sum pods)
    → Int64.Fits (allocatable -ℤ booked_sum pods)
    → let stats = (compute allocatable pods cfg).0 in
      (stats.total_requests_milli ≡ booked_sum pods)
      × (stats.managed_requests_milli ≡ basis_sum pods)
      × (stats.slack_milli ≡ max (allocatable -ℤ booked_sum pods) (pos 0))
unfolding compute stats_of
compute-sums allocatable pods cfg hb hm hs =
    let total = count_pods-total_req pods no_pods (omega arith) ∙ zero_sum (booked_sum pods) hb in
    let basis = count_pods-managed_req pods no_pods (omega arith) ∙ zero_sum (basis_sum pods) hm in
    (
      total,
      basis,
      ap (λ z. max (Int64.sub allocatable z) (pos 0)) total
          ∙ ap (λ z. max z (pos 0)) (Int64.sub_exact allocatable (booked_sum pods) hs),
    )

-- A pod that goes into backoff: it keeps its place in the distribution and gets no decision.
abbrev pub held : PodInput → PodInput
held p = record p { managed = false; holds_share = true }

count_pod-held :
    (p : PodInput) (t : Totals) → p.managed ≡ true → count_pod (held p) t ≡ count_pod p t
unfolding count_pod
count_pod-held p t e = ground arith

count_pods-held :
    (xs ys : List PodInput) (p : PodInput) (t : Totals)
    → p.managed ≡ true
    → count_pods (xs ++ held p ∷ ys) t ≡ count_pods (xs ++ p ∷ ys) t
unfolding count_pods
count_pods-held [] ys p t e = ap (count_pods ys) (count_pod-held p t e)
count_pods-held (x ∷ xs) ys p t e = count_pods-held xs ys p (count_pod x t) e

decide_all-append :
    (xs ys : List PodInput) (s : NodeStats) (cfg : Config)
    → decide_all (xs ++ ys) s cfg ≡ decide_all xs s cfg ++ decide_all ys s cfg
unfolding decide_all
decide_all-append [] ys s cfg = refl
decide_all-append (x ∷ xs) ys s cfg = ground (arith, decide_all-append xs ys s cfg)

decide_all-managed :
    (p : PodInput) (ys : List PodInput) (s : NodeStats) (cfg : Config)
    → p.managed ≡ true
    → decide_all (p ∷ ys) s cfg ≡ decide p s cfg ∷ decide_all ys s cfg
unfolding decide_all
decide_all-managed p ys s cfg e = ground arith

decide_all-held :
    (p : PodInput) (ys : List PodInput) (s : NodeStats) (cfg : Config)
    → decide_all (held p ∷ ys) s cfg ≡ decide_all ys s cfg
unfolding decide_all
decide_all-held p ys s cfg = refl

-- When a managed pod goes into backoff and holds its share instead, Compute gives the node the same
-- figures and the other pods the same decisions, and only that pod's decision goes.
pub compute-held :
    (allocatable : ℤ) (xs ys : List PodInput) (p : PodInput) (cfg : Config)
    → p.managed ≡ true
    → let (stats, before) = compute allocatable (xs ++ p ∷ ys) cfg in
      let (stats', after) = compute allocatable (xs ++ held p ∷ ys) cfg in
      (stats' ≡ stats)
      × (before ≡ decide_all xs stats cfg ++ decide p stats cfg ∷ decide_all ys stats cfg)
      × (after ≡ decide_all xs stats cfg ++ decide_all ys stats cfg)
unfolding compute decide_all
compute-held allocatable xs ys p cfg e =
    let stats = stats_of allocatable (count_pods (xs ++ p ∷ ys) no_pods) in
    rw (count_pods-held xs ys p no_pods e) (
      refl,
      decide_all-append xs (p ∷ ys) stats cfg
          ∙ ap (λ l. decide_all xs stats cfg ++ l) (decide_all-managed p ys stats cfg e),
      decide_all-append xs (held p ∷ ys) stats cfg,
    )
