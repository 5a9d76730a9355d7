-- ===== src/Webhook/Tests.antt =====
-- The webhook on a pod with an app of 500m and a proxy that has a limit.
use kube_headroom.Prelude.{◌≡◌, ◌≢◌, refl, false, none, [], ◌∷◌, ◌⊎◌, String}
use kube_headroom.Prelude.Int.{ℤ, pos, quot, min}
use kube_headroom.Prelude.Int64
use kube_headroom.Float
use kube_headroom.Policy
use kube_headroom.Kube.{Namespace, found}
use kube_headroom.Eligibility
use kube_headroom.Eligibility.Vpa
use kube_headroom.Eligibility.{resizable_containers, resizable}
use kube_headroom.Samples.{milli_quantity, label_selector, container, web, spec}
use kube_headroom.Webhook
use kube_headroom.Webhook.{app, Environment}
use kube_headroom.Webhook.Birth.{Birth, seed_birth_limits_lem}
use kube_headroom.Webhook.Default.{MayAct, seeds, default_gated}

abbrev shop : Namespace
shop = record { name = "shop"; labels = ("kube-headroom.dev/mode", "managed") ∷ [] }

-- A VPA that is off.
abbrev off : Vpa.Vpa
off = record {
  name = "web";
  target_kind = "Deployment";
  target_name = "web";
  update_mode = "Off";
  policies = [];
}

off-named : off.name ≢ ""
off-named e = cc e

abbrev environment : Environment ℤ String
environment = record {
  request_namespace = none;
  get_config = found spec;
  get_namespace = λ name. found shop;
  vpas_for_namespace = λ name. off ∷ [];
  controller_of = λ refs. none;
}

-- The app gets 750m; the proxy keeps its limit.
seeded_web : (Webhook.default environment web).1 ≡ "app" ∷ []
unfolding Webhook.evaluation Eligibility.evaluation Vpa.evaluation Float.evaluation Int64.evaluation
    quot
seeded_web = refl

seed_birth_limits_lem_example :
    Birth
      (Webhook.clamp_multiplier (Float.of_int (pos 2)) (Float.of_int (pos 10)))
      (pos 10)
      (container "app" (pos 500) [])
      (Webhook.read
        (Webhook.seed_birth_limits web
          (resizable_containers web)
          (Float.of_int (pos 2))
          (Float.of_int (pos 10))
          (pos 10)).0
        (app 0))
seed_birth_limits_lem_example =
    seed_birth_limits_lem web (Float.of_int (pos 2)) (Float.of_int (pos 10)) (pos 10) (app 0)
      (container "app" (pos 500) []) refl refl

default_gated_example :
    (Webhook.default environment web ≡ (web, []))
    ⊎ ((s : _) × MayAct environment web s × (Webhook.default environment web ≡ seeds web s))
default_gated_example = default_gated environment web (off-named, tt)

abbrev half_more : Policy.Config
half_more = record {
  min_burst_floor_milli = pos 1000;
  max_multiplier = Float.rounded false 3 2;
  deadband_grow = Float.rounded false 10 100;
  deadband_shrink = Float.rounded false 5 100;
  quantum_milli = pos 10;
}

-- A request of 17m at one and a half times: the webhook seeds more than the policy's ceiling.
rounded_past_ceiling :
    (Webhook.birth_limit (Float.rounded false 3 2) (pos 10) (pos 17) ≡ pos 30)
    × (Policy.ceiling (pos 17) (pos 4000) (pos 0) half_more ≡ pos 26)
unfolding Webhook.evaluation Policy.evaluation Float.evaluation Int64.evaluation quot min
rounded_past_ceiling = (refl, refl)
