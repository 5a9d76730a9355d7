-- ===== src/Eligibility/Tests.antt =====
-- The eligibility rules on small pods and VPAs.
use kube_headroom.Prelude.{
  ◌≡◌, ◌≢◌, refl, true, false, ℕ, suc, arith, none, some, List, [], ◌∷◌, ◌⊎◌, String, All, OneOf,
  inr,
}
use kube_headroom.Prelude.Int.{pos, quot}
use kube_headroom.Prelude.Text.{cut}
use kube_headroom.Kube.{OwnerReference}
use kube_headroom.Eligibility
use kube_headroom.Eligibility.{ResizableContainer}
use kube_headroom.Eligibility.Vpa.{Vpa, VpaContainerPolicy, limit_managing_vpa}
use kube_headroom.Eligibility.Blocking.{limit_managing_vpa-LeavesLimits}
use kube_headroom.Eligibility.Governs.{Governs, limit_managing_vpa_lem}
use kube_headroom.Eligibility.LimitRange.{ratio_limit_milli}
use kube_headroom.Eligibility.LimitRange.Ratio.{refuses, ratio_limit_milli_lem}
use kube_headroom.Float
use kube_headroom.Prelude.Int64
use kube_headroom.Samples.{web, resizable_of}

abbrev two : List ResizableContainer
two = resizable_of "app" (pos 500) (pos 900) ∷ resizable_of "proxy" (pos 100) (pos 200) ∷ []

abbrev policy : String → String → VpaContainerPolicy
policy name values = record {
  container_name = name;
  mode = "Auto";
  controlled_resources = none;
  controlled_values = values;
}

abbrev vpa : List VpaContainerPolicy → Vpa
vpa policies = record {
  name = "web";
  target_kind = "Deployment";
  target_name = "web";
  update_mode = "Recreate";
  policies = policies;
}

abbrev both : Vpa
both = vpa (policy "*" "RequestsOnly" ∷ policy "app" "RequestsAndLimits" ∷ [])

abbrev owner : OwnerReference
owner = record {
  api_version = "apps/v1";
  kind = "ReplicaSet";
  name = "web-5d9";
  controller = some true;
}

abbrev requests_only : Vpa
requests_only = vpa (policy "*" "RequestsOnly" ∷ [])

limit_managing_vpa-LeavesLimits_example :
    limit_managing_vpa (λ refs. some owner) web two (requests_only ∷ []) ≡ ""
limit_managing_vpa-LeavesLimits_example =
    limit_managing_vpa-LeavesLimits (λ refs. some owner) web two (requests_only ∷ [])
      (inr ((refl, tt), refl), tt)

both-named : both.name ≢ ""
both-named e = cc e

limit_managing_vpa_lem_example :
    let name = limit_managing_vpa (λ refs. some owner) web two (both ∷ []) in
    ((name ≡ "") × All (λ v. ¬ Governs (λ refs. some owner) web two v) (both ∷ []))
    ⊎ ((name ≢ "")
        × OneOf (λ v. (name ≡ v.name) × Governs (λ refs. some owner) web two v) (both ∷ []))
limit_managing_vpa_lem_example =
    limit_managing_vpa_lem (λ refs. some owner) web two (both ∷ []) (both-named, tt)

-- An owner of the core group has the group "v1".
core_group :
    Eligibility.owner_matches
      (record {
        api_version = "v1";
        kind = "ReplicationController";
        name = "web";
        controller = some true;
      })
      (record { kind = "ReplicationController"; api_group = "v1"; name = "" })
    ≡ true
unfolding Eligibility.evaluation cut
core_group = refl

-- 161m over a 20m request reads as past a ratio of 8.05.
ratio_limit_milli_lem_example :
    (l : ℕ) × (ratio_limit_milli (pos 8050) (pos 20) ≡ pos l)
    × (refuses 8050 20 l ≡ false)
    × (refuses 8050 20 (suc l) ≡ true)
ratio_limit_milli_lem_example =
    ratio_limit_milli_lem 8050 20 (omega arith) (omega arith) (omega arith)

below_the_ratio : ratio_limit_milli (pos 8050) (pos 20) ≡ pos 160
unfolding ratio_limit_milli quot Float.evaluation Int64.evaluation
below_the_ratio = refl
