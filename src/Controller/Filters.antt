-- ===== src/Controller/Filters.antt =====
-- internal/controller/node_controller.go: the filters of update events, podUpdateRelevant and
-- nodeUpdateRelevant. The semantic equality of owner references (apiequality) is a parameter.
pub mod Status
use kube_headroom.Prelude.{
  ◌≡◌, Bool, true, false, not, ◌&&◌, ◌||◌, if◌then◌else◌, ◌==◌, Option, none, some, List, [], ◌∷◌,
  String, length, xor,
}
use kube_headroom.Prelude.Int.{ℤ, eqb_ℤ}
use kube_headroom.Prelude.Text.{lookup, str_eq}
use kube_headroom.Kube.{Quantity, GoMap, OwnerReference, Pod, Node, ResourceHelper, cpu}
use kube_headroom.Eligibility.{
  resizable_containers, pod_terminal, opted_out, user_cap_milli, pod_booked_cpu_milli,
  pod_cpu_request_milli,
}
use kube_headroom.Controller.Inputs.{pod_resize_infeasible, pod_resize_deferred}

module _ {Q : Type 0} ⦃q : Quantity Q⦄ ⦃helper : ResourceHelper Q⦄
    (deep_equal : List OwnerReference → List OwnerReference → Bool) where
  -- The tests of podUpdateRelevant after the node and the booking, in the code's order.
  unfoldable pub pod_settings_differ : Pod Q → Pod Q → Bool
  pod_settings_differ old new =
      if xor (pod_terminal old) (pod_terminal new)
      then true
      else (if xor (pod_resize_deferred old) (pod_resize_deferred new)
          then true
          else (if xor (pod_resize_infeasible old) (pod_resize_infeasible new)
              then true
              else (if xor (opted_out old) (opted_out new)
                    || not (eqb_ℤ (user_cap_milli old) (user_cap_milli new))
                    || not (deep_equal old.owner_references new.owner_references)
                  then true
                  else not (
                      eqb_ℤ (pod_cpu_request_milli (resizable_containers old))
                        (pod_cpu_request_milli (resizable_containers new))))))

  unfoldable pub pod_update_relevant : Pod Q → Pod Q → Bool
  pod_update_relevant old new =
      if not (str_eq old.node_name new.node_name)
      then true
      else (if not (eqb_ℤ (pod_booked_cpu_milli old) (pod_booked_cpu_milli new))
          then true
          else pod_settings_differ old new)

-- maps.Equal on labels.
abbrev is_value : String → Option String → Bool
is_value v none = false
is_value v (some w) = str_eq v w

unfoldable pub all_in : GoMap String → GoMap String → Bool
all_in [] m = true
all_in ((k, v) ∷ l) m = is_value v (lookup k m) && all_in l m

unfoldable pub maps_equal : GoMap String → GoMap String → Bool
maps_equal l m = (length l == length m) && all_in l m

unfoldable pub node_update_relevant : {Q : Type 0} → ⦃q : Quantity Q⦄ → Node Q → Node Q → Bool
node_update_relevant ⦃q⦄ old new =
    not (eqb_ℤ (q.milli_value (cpu old.allocatable)) (q.milli_value (cpu new.allocatable)))
    || not (maps_equal old.labels new.labels)
