-- ===== src/Controller/Filters/Status.antt =====
-- podUpdateRelevant: the updates of a status annotation, and those that it drops.
use kube_headroom.Prelude.{
  ◌≡◌, refl, ap, sym, ◌∙◌, Bool, true, false, not, ◌||◌, if◌then◌else◌, none, some, List, String,
  arith, xor,
}
use kube_headroom.Prelude.Int.{pos, leb_ℤ, eqb_ℤ, eqb_ℤ-refl, eqb_ℤ-true}
use kube_headroom.Prelude.Text.{insert, lookup-insert, str_eq, str_eq_refl, str_eq-true}
use kube_headroom.Kube.{Quantity, OwnerReference, Pod, ResourceHelper, annotation_max_cpu, cpu}
use kube_headroom.Eligibility.{
  resizable_containers, pod_terminal, opted_out, user_cap_milli, pod_booked_cpu_milli,
  pod_cpu_request_milli, scheduler_options,
}
use kube_headroom.Controller.Inputs.{pod_resize_infeasible, pod_resize_deferred}
use kube_headroom.Controller.Filters.{pod_settings_differ, pod_update_relevant}

xor_self : (b : Bool) → xor b b ≡ false
xor_self true = refl
xor_self false = refl

xor-false : (a b : Bool) → xor a b ≡ false → a ≡ b
xor-false a b e = ground arith

-- The chain of tests of the filter: equal nodes and bookings; differing terminal, deferred,
-- infeasible and opted-out states; equal caps, owners and requests.
abbrev chain : (node booked terminal deferred infeasible opted cap owners request : Bool) → Bool
chain node booked terminal deferred infeasible opted cap owners request =
    if not node
    then true
    else (if not booked
        then true
        else (if terminal
            then true
            else (if deferred
                then true
                else (if infeasible
                    then true
                    else (if opted || not cap || not owners then true else not request)))))

chain-false :
    (n b t d i o c w r : Bool)
    → chain n b t d i o c w r ≡ false
    → (n ≡ true) × (b ≡ true) × (t ≡ false) × (i ≡ false) × (o ≡ false) × (c ≡ true) × (r ≡ true)
chain-false n b t d i o c w r e = ground arith

chain_quiet :
    (n b t d i o c w r : Bool)
    → n ≡ true
    → b ≡ true
    → t ≡ false
    → d ≡ false
    → i ≡ false
    → o ≡ false
    → c ≡ true
    → w ≡ true
    → r ≡ true
    → chain n b t d i o c w r ≡ false
chain_quiet n b t d i o c w r n' b' t' d' i' o' c' w' r' = ground arith

-- The pod with an annotation written.
abbrev pub annotate : {Q : Type 0} → String → String → Pod Q → Pod Q
annotate key value pod = record pod { annotations = insert key value pod.annotations }

module _ {Q : Type 0} ⦃q : Quantity Q⦄ ⦃helper : ResourceHelper Q⦄
    (deep_equal : List OwnerReference → List OwnerReference → Bool) where
  user_cap_milli-annotate :
      (key value : String) (pod : Pod Q)
      → str_eq key annotation_max_cpu ≡ false
      → user_cap_milli (annotate key value pod) ≡ user_cap_milli pod
  unfolding user_cap_milli
  user_cap_milli-annotate key value pod e =
      ap
        (λ o. elim o [
          | none ↦ pos 0
          | some v ↦ elim (q.parse_quantity v) [
            | none ↦ pos 0
            | some amount ↦
                if leb_ℤ (q.milli_value amount) (pos 0) then pos 0 else q.milli_value amount
          ]
        ])
        (lookup-insert key annotation_max_cpu value pod.annotations ∙ rw e refl)

  -- An update that only writes an annotation under a key other than the max-cpu annotation's is
  -- dropped by podUpdateRelevant, where the resource helper books the same for the pod with and
  -- without it, and the pod's owner references are equal to themselves.
  pub pod_update_relevant-annotate :
      (key value : String) (pod : Pod Q)
      → str_eq key annotation_max_cpu ≡ false
      → helper.pod_requests (annotate key value pod) scheduler_options
        ≡ helper.pod_requests pod scheduler_options
      → deep_equal pod.owner_references pod.owner_references ≡ true
      → pod_update_relevant deep_equal pod (annotate key value pod) ≡ false
  unfolding pod_update_relevant pod_settings_differ pod_booked_cpu_milli resizable_containers
      pod_terminal pod_resize_deferred pod_resize_infeasible opted_out
  pod_update_relevant-annotate key value pod e same owners =
      let new = annotate key value pod in
      let booked : pod_booked_cpu_milli pod ≡ pod_booked_cpu_milli new =
        ap (λ r. q.milli_value (cpu r)) (sym same) in
      let cap : user_cap_milli pod ≡ user_cap_milli new =
        sym (user_cap_milli-annotate key value pod e) in
      chain_quiet (str_eq pod.node_name pod.node_name)
        (eqb_ℤ (pod_booked_cpu_milli pod) (pod_booked_cpu_milli new))
        (xor (pod_terminal pod) (pod_terminal pod))
        (xor (pod_resize_deferred pod) (pod_resize_deferred pod))
        (xor (pod_resize_infeasible pod) (pod_resize_infeasible pod))
        (xor (opted_out pod) (opted_out pod)) (eqb_ℤ (user_cap_milli pod) (user_cap_milli new))
        (deep_equal pod.owner_references pod.owner_references)
        (eqb_ℤ (pod_cpu_request_milli (resizable_containers pod))
          (pod_cpu_request_milli (resizable_containers pod)))
        (str_eq_refl pod.node_name)
        (ap (eqb_ℤ (pod_booked_cpu_milli pod)) (sym booked) ∙ eqb_ℤ-refl (pod_booked_cpu_milli pod))
        (xor_self (pod_terminal pod)) (xor_self (pod_resize_deferred pod))
        (xor_self (pod_resize_infeasible pod)) (xor_self (opted_out pod))
        (ap (eqb_ℤ (user_cap_milli pod)) (sym cap) ∙ eqb_ℤ-refl (user_cap_milli pod)) owners
        (eqb_ℤ-refl (pod_cpu_request_milli (resizable_containers pod)))

  -- An update that podUpdateRelevant drops leaves the pod's node, booked CPU, terminal state,
  -- infeasible resize, opt-out, own cap and CPU request as they were.
  pub pod_update_relevant-false :
      (old new : Pod Q)
      → pod_update_relevant deep_equal old new ≡ false
      → (old.node_name ≡ new.node_name)
        × (pod_booked_cpu_milli old ≡ pod_booked_cpu_milli new)
        × (pod_terminal old ≡ pod_terminal new)
        × (pod_resize_infeasible old ≡ pod_resize_infeasible new)
        × (opted_out old ≡ opted_out new)
        × (user_cap_milli old ≡ user_cap_milli new)
        × (pod_cpu_request_milli (resizable_containers old)
            ≡ pod_cpu_request_milli (resizable_containers new))
  unfolding pod_update_relevant pod_settings_differ
  pod_update_relevant-false old new h =
      let (n, b, t, i, o, c, r) =
        chain-false (str_eq old.node_name new.node_name)
          (eqb_ℤ (pod_booked_cpu_milli old) (pod_booked_cpu_milli new))
          (xor (pod_terminal old) (pod_terminal new))
          (xor (pod_resize_deferred old) (pod_resize_deferred new))
          (xor (pod_resize_infeasible old) (pod_resize_infeasible new))
          (xor (opted_out old) (opted_out new)) (eqb_ℤ (user_cap_milli old) (user_cap_milli new))
          (deep_equal old.owner_references new.owner_references)
          (eqb_ℤ (pod_cpu_request_milli (resizable_containers old))
            (pod_cpu_request_milli (resizable_containers new)))
          h in
      (
        str_eq-true old.node_name new.node_name n,
        eqb_ℤ-true (pod_booked_cpu_milli old) (pod_booked_cpu_milli new) b,
        xor-false (pod_terminal old) (pod_terminal new) t,
        xor-false (pod_resize_infeasible old) (pod_resize_infeasible new) i,
        xor-false (opted_out old) (opted_out new) o,
        eqb_ℤ-true (user_cap_milli old) (user_cap_milli new) c,
        eqb_ℤ-true (pod_cpu_request_milli (resizable_containers old))
            (pod_cpu_request_milli (resizable_containers new)) r,
      )
