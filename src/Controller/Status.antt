-- ===== src/Controller/Status.antt =====
-- internal/controller/observability.go: the status annotation of a managed pod and the events of the
-- reconciler. The JSON of encoding/json is the parameter `Codec`; the instant that stamps a status is its
-- RFC 3339 text.
pub mod Steady
mod Tests
use Prim.Native.String.{◌++◌ as str_append, len, slice}
use kube_headroom.Prelude.{
  ℕ, ◌*◌, ◌^◌, ◌≡◌, refl, Bool, true, false, not, ◌&&◌, ◌||◌, xor, if◌then◌else◌, Option, none,
  some, List, [], ◌∷◌, String, leb,
}
use kube_headroom.Prelude.Int.{ℤ, eqb_ℤ}
use kube_headroom.Prelude.Text.{str_eq}
use kube_headroom.Prelude.Format.{format_int, format_hundredths}
use kube_headroom.Float
use kube_headroom.Float.{Float64, nan, inf, fin, nearest_even}
use kube_headroom.Kube.{GoMap, text_of}
use kube_headroom.Policy.{NodeStats}

-- AnnotationStatus.
abbrev pub annotation_status : String
annotation_status = "kube-headroom.dev/status"

pub record PodStatus : Type 0 where
  pub factor : String
  pub slack : String
  pub managed_requests : String
  pub node_pods : ℤ
  pub target_limit : String
  pub policy : String
  pub dry_run : Bool
  pub computed_at : String

unfoldable pub milli_string : ℤ → String
milli_string m = str_append (format_int m) "m"

-- The verb %.2f: the exact value to the nearest hundredth, ties to even.
unfoldable pub factor_string : Float64 → String
factor_string nan = "NaN"
factor_string (inf s) = if s then "-Inf" else "+Inf"
factor_string (fin s m k) =
    str_append (if s then "-" else "") (format_hundredths (nearest_even (m * 100) (2 ^ k)))

unfoldable pub build_pod_status : NodeStats → ℤ → ℤ → Bool → PodStatus
build_pod_status stats node_pods target dry_run = record {
  factor = factor_string stats.factor;
  slack = milli_string stats.slack_milli;
  managed_requests = milli_string stats.managed_requests_milli;
  node_pods = node_pods;
  target_limit = milli_string target;
  policy = "proportional-v1";
  dry_run = dry_run;
  computed_at = "";
}

-- json.Marshal and json.Unmarshal at a PodStatus; none is an error.
pub record Codec : Type 0 where
  pub marshal : PodStatus → Option String
  pub unmarshal : String → Option PodStatus

-- The == of the struct.
unfoldable pub same_status : PodStatus → PodStatus → Bool
same_status s t =
    str_eq s.factor t.factor
    && str_eq s.slack t.slack
    && str_eq s.managed_requests t.managed_requests
    && eqb_ℤ s.node_pods t.node_pods
    && str_eq s.target_limit t.target_limit
    && str_eq s.policy t.policy
    && not (xor s.dry_run t.dry_run)
    && str_eq s.computed_at t.computed_at

-- The status without its instant, which the comparison leaves out.
abbrev pub undated : PodStatus → PodStatus
undated s = record s { computed_at = "" }

unfoldable pub is_up_to_date : Option PodStatus → PodStatus → Bool
is_up_to_date none desired = false
is_up_to_date (some prev) desired = same_status (undated prev) (undated desired)

-- What writePodStatus does: nothing, an error, or the patch that sets the annotation to a text.
pub data Write : Type 0 where
  untouched : Write
  broken : Write
  annotates : String → Write

unfoldable pub marshalled : Option String → Write
marshalled none = broken
marshalled (some text) = annotates text

unfoldable pub write_pod_status : Codec → String → GoMap String → PodStatus → Write
write_pod_status codec now annotations desired =
    let previous = text_of annotation_status annotations in
    if not (str_eq previous "") && is_up_to_date (codec.unmarshal previous) desired
    then untouched
    else marshalled (codec.marshal (record desired { computed_at = now }))

-- An event of the events/v1 API on a pod, with its note.
pub record Event : Type 0 where
  pub event_type : String
  pub reason : String
  pub action : String
  pub note : String

abbrev pub event_note_limit : ℕ
event_note_limit = 1024

-- recordEvent, whether there is a recorder. The note is cut at a number of bytes; of a character that the
-- cut falls into, Go keeps the first bytes, and a String here none.
unfoldable pub record_event : Bool → String → String → String → Option Event
record_event has_recorder event_type reason msg =
    if has_recorder
    then some (record {
      event_type = event_type;
      reason = reason;
      action = "Resizing";
      note = slice msg 0 (if leb (len msg) event_note_limit then len msg else event_note_limit);
    })
    else none

unfoldable pub adjust_message : ℤ → ℤ → NodeStats → Bool → String
adjust_message current target stats dry_run =
    let texts =
      (if dry_run then "(dry-run) would adjust " else "")
      ∷ "CPU limit "
      ∷ milli_string current
      ∷ " → "
      ∷ milli_string target
      ∷ " (node factor "
      ∷ factor_string stats.factor
      ∷ ", slack "
      ∷ milli_string stats.slack_milli
      ∷ "/"
      ∷ milli_string stats.allocatable_milli
      ∷ ")"
      ∷ [] in
    joined texts
  where
    joined : List String → String
    joined [] = ""
    joined (t ∷ ts) = str_append t (joined ts)

-- To evaluate: what computes with the annotation names this.
unfoldable pub evaluation : Unit {0}
unfolding milli_string factor_string build_pod_status same_status is_up_to_date marshalled
    write_pod_status record_event adjust_message text_of
evaluation = tt
