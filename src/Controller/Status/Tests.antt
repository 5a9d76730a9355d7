-- ===== src/Controller/Status/Tests.antt =====
-- The status annotation of one pod.
use mathlib.Core.Option.{some-injective}
use kube_headroom.Prelude.{◌≡◌, refl, ◌∙◌, ◌↔◌, true, false, some, []}
use kube_headroom.Prelude.Int.{pos}
use kube_headroom.Prelude.Text.{insert, str_eq-false}
use kube_headroom.Prelude.Format
use kube_headroom.Float
use kube_headroom.Float.{rounded}
use kube_headroom.Policy.{NodeStats}
use kube_headroom.Controller.Status.{
  annotation_status, PodStatus, Codec, undated, build_pod_status, adjust_message, write_pod_status,
  untouched, evaluation,
}
use kube_headroom.Controller.Status.Steady.{ReadsBack, write_pod_status-annotates}

abbrev stats : NodeStats
stats = record {
  allocatable_milli = pos 16000;
  total_requests_milli = pos 8000;
  managed_requests_milli = pos 8000;
  slack_milli = pos 8000;
  managed_pods = pos 4;
  factor = rounded false 2 1;
}

abbrev desired : PodStatus
desired = build_pod_status stats (pos 4) (pos 8000) false

abbrev dated : PodStatus
dated = record desired { computed_at = "2026-01-01T00:00:00Z" }

-- A codec at that status.
abbrev codec : Codec
codec = record { marshal = λ s. some "{}"; unmarshal = λ text. some dated }

codec-ReadsBack : ReadsBack codec dated
codec-ReadsBack text e =
    (λ empty. str_eq-false "{}" "" refl (some-injective "{}" text e ∙ empty), refl)

write_pod_status-annotates_example :
    (write_pod_status codec "2026-01-01T00:00:30Z" (insert annotation_status "{}" []) desired
      ≡ untouched)
    ↔ (undated desired ≡ undated desired)
unfolding evaluation
write_pod_status-annotates_example =
    write_pod_status-annotates codec "2026-01-01T00:00:00Z" "{}" [] desired codec-ReadsBack refl
      "2026-01-01T00:00:30Z" desired

texts :
    (desired.factor ≡ "2.00")
    × (desired.slack ≡ "8000m")
    × (adjust_message (pos 4000) (pos 8000) stats true
        ≡ "(dry-run) would adjust CPU limit 4000m → 8000m (node factor 2.00, slack 8000m/16000m)")
unfolding evaluation Format.evaluation Float.evaluation
texts = (refl, refl, refl)
