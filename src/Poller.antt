-- ===== src/Poller.antt =====
-- internal/vpa/poller.go: the poller that serves the VerticalPodAutoscalers from memory. The outcome of
-- listing them is an argument of `refresh`; the timer and the decoding of pages are left out. reflect's
-- DeepEqual is the equality of the VPAs' fields; a nil and an empty slice are one list.
pub mod Changes
pub mod Lister
mod Tests
use kube_headroom.Prelude.{
  ℕ, ◌≡◌, Bool, true, false, not, ◌&&◌, ◌||◌, if◌then◌else◌, Option, none, some, List, [], ◌∷◌,
  ◌++◌, String, length, ltb,
}
use kube_headroom.Prelude.Text.{lookup, str_eq}
use kube_headroom.Kube.{GoMap}
use kube_headroom.Eligibility.Vpa.{Vpa, VpaContainerPolicy}

abbrev pub strings_equal : List String → List String → Bool
strings_equal [] [] = true
strings_equal [] (t ∷ ts) = false
strings_equal (s ∷ ss) [] = false
strings_equal (s ∷ ss) (t ∷ ts) = str_eq s t && strings_equal ss ts

abbrev pub resources_equal : Option (List String) → Option (List String) → Bool
resources_equal none none = true
resources_equal none (some ts) = false
resources_equal (some ss) none = false
resources_equal (some ss) (some ts) = strings_equal ss ts

abbrev pub policy_equal : VpaContainerPolicy → VpaContainerPolicy → Bool
policy_equal p r =
    str_eq p.container_name r.container_name
    && str_eq p.mode r.mode
    && resources_equal p.controlled_resources r.controlled_resources
    && str_eq p.controlled_values r.controlled_values

abbrev pub policies_equal : List VpaContainerPolicy → List VpaContainerPolicy → Bool
policies_equal [] [] = true
policies_equal [] (r ∷ rs) = false
policies_equal (p ∷ ps) [] = false
policies_equal (p ∷ ps) (r ∷ rs) = policy_equal p r && policies_equal ps rs

abbrev pub vpa_equal : Vpa → Vpa → Bool
vpa_equal v w =
    str_eq v.name w.name
    && str_eq v.target_kind w.target_kind
    && str_eq v.target_name w.target_name
    && str_eq v.update_mode w.update_mode
    && policies_equal v.policies w.policies

abbrev pub vpas_equal : List Vpa → List Vpa → Bool
vpas_equal [] [] = true
vpas_equal [] (w ∷ ws) = false
vpas_equal (v ∷ vs) [] = false
vpas_equal (v ∷ vs) (w ∷ ws) = vpa_equal v w && vpas_equal vs ws

-- reflect.DeepEqual with the read of a key: a missing key reads as the nil slice, which is no list.
abbrev pub unchanged : Option (List Vpa) → List Vpa → Bool
unchanged none vpas = false
unchanged (some before) vpas = vpas_equal before vpas

abbrev pub is_present : Option (List Vpa) → Bool
is_present none = false
is_present (some vpas) = true

-- The first loop of notify: the namespaces whose VPAs differ from before.
unfoldable pub changed : GoMap (List Vpa) → GoMap (List Vpa) → List String
changed previous [] = []
changed previous ((ns, vpas) ∷ current) =
    let rest = changed previous current in
    if unchanged (lookup ns previous) vpas then rest else ns ∷ rest

-- The second loop: the namespaces that are gone.
unfoldable pub gone : GoMap (List Vpa) → GoMap (List Vpa) → List String
gone [] current = []
gone ((ns, vpas) ∷ previous) current =
    let rest = gone previous current in if is_present (lookup ns current) then rest else ns ∷ rest

unfoldable pub notify : GoMap (List Vpa) → GoMap (List Vpa) → List String
notify previous current = changed previous current ++ gone previous current

-- What listing comes to: a whole list, or an error by its kind, or the end of the context.
pub data Listing : Type 0 where
  listed : GoMap (List Vpa) → Listing
  absent : Listing
  forbidden : Listing
  failing : Listing
  ended : Listing

pub record Poller : Type 0 where
  pub by_ns : GoMap (List Vpa)
  pub synced : Bool
  pub state : String

abbrev pub new_poller : Poller
new_poller = record { by_ns = []; synced = false; state = "" }

abbrev served : String → GoMap (List Vpa) → Poller
served state by_ns = record { by_ns = by_ns; synced = true; state = state }

-- Refresh: the poller after it, and the namespaces that it offers to the channel of changes.
unfoldable pub refresh : Listing → Poller → Poller × List String
refresh (listed by_ns) p = (served "served" by_ns, notify p.by_ns by_ns)
refresh absent p = (served "absent" [], notify p.by_ns [])
refresh forbidden p = (served "forbidden" [], notify p.by_ns [])
refresh failing p = (served "failing" p.by_ns, [])
refresh ended p = (p, [])

unfoldable pub for_namespace : Poller → String → List Vpa
for_namespace p ns = elim (lookup ns p.by_ns) [ none ↦ [] | some vpas ↦ vpas ]
