-- ===== src/Controller/Inputs/Judged.antt =====
-- buildInputs: what each pod becomes, and when the call fails.
use kube_headroom.Prelude.{
  ◌≡◌, refl, ap, Bool, true, false, not, ◌&&◌, ◌||◌, ◌⊎◌, inl, inr, if◌then◌else◌, Option, none,
  some, List, [], ◌∷◌, String, arith, Bool-cases, Option-cases,
}
use Prim.Native.String.{◌++◌ as str_append}
use kube_headroom.Prelude.Int.{ℤ}
use kube_headroom.Prelude.Text.{lookup}
use kube_headroom.Kube.{
  Quantity, Pod, Namespace, LimitRange, ResourceHelper, Selectors, HeadroomConfigSpec, Read, found,
  not_found, failed,
}
use kube_headroom.Policy.{PodInput, Config, in_basis, NodeStats, decide_all, compute, compute_node}
use kube_headroom.Eligibility.{pod_terminal}
use kube_headroom.Controller.PodInput.{pod_key, build_pod_input}
use kube_headroom.Controller.Backoff.{in_backoff}
use kube_headroom.Controller.Inputs.{
  pod_resize_infeasible, Reads, Judging, Verdict, left_alone, Result, gives, fails_with, and_then,
  or_fail, cached_ranges, limit_ranges, back_off_infeasible, enrolled_verdict, input_of,
  finish_input, read_namespace, cached_verdict, namespace_verdict, may_manage, judge, build_input,
  build_inputs,
}

-- Some read fails.
abbrev pub Fails : {Q : Type 0} → Reads Q → Type 0
Fails reads =
    (ns : String) × ((reads.get_namespace ns ≡ failed) ⊎ (reads.list_limit_ranges ns ≡ none))

-- A step fails by a failed read, or it gives a result of which P holds.
abbrev pub Gives : {Q A : Type 0} → Reads Q → Result A → (A → Type 0) → Type 0
Gives reads o P =
    ((e : String) × (o ≡ fails_with e) × Fails reads) ⊎ ((a : _) × (o ≡ gives a) × P a)

gives-injective : {A : Type 0} {a a' : A} → gives a ≡ gives a' → a ≡ a'
gives-injective {A} {a} {a'} e = cc e

Gives-and_then :
    {Q A B : Type 0} (reads : Reads Q) (m : Result A × Judging Q)
    (f : A → Judging Q → Result B × Judging Q) (P : A → Type 0) (R : B → Type 0)
    → Gives reads m.0 P
    → ((a : A) (st : Judging Q) → P a → Gives reads (f a st).0 R)
    → Gives reads (and_then m f).0 R
Gives-and_then reads (fails_with e, st) f P R (inl (e', same, fails)) h = inl (e, refl, fails)
Gives-and_then reads (fails_with e, st) f P R (inr (a, same, p)) h = absurd (cc same)
Gives-and_then reads (gives a, st) f P R (inl (e, same, fails)) h = absurd (cc same)
Gives-and_then reads (gives a, st) f P R (inr (a', same, p)) h =
    h a st (rw (gives-injective same) p)

Gives-if :
    {Q A : Type 0} (reads : Reads Q) (b : Bool) (o o' : Result A × Judging Q) (P : A → Type 0)
    → Gives reads o.0 P
    → Gives reads o'.0 P
    → Gives reads (if b then o else o').0 P
Gives-if reads true o o' P h h' = h
Gives-if reads false o o' P h h' = h'

module _ {Q : Type 0} (reads : Reads Q) where
  cached_ranges_lem :
      (ns : String) (o : Option (List (LimitRange Q))) (st : Judging Q)
      → Gives reads (cached_ranges reads ns o st).0 (λ r. Unit {0})
  unfolding cached_ranges
  cached_ranges_lem ns (some ranges) st = inr (ranges, refl, tt)
  cached_ranges_lem ns none st =
      let text = str_append "list limitranges in " ns in
      Gives-and_then reads (or_fail text (reads.list_limit_ranges ns), st) _ (λ r. Unit {0})
        (λ r. Unit {0})
        (elim (Option-cases (reads.list_limit_ranges ns)) [
          | inl e ↦ inl (text, ap (or_fail text) e, (ns, inr e))
          | inr (a, e) ↦ inr (a, ap (or_fail text) e, tt)
        ])
        (λ a st' u. inr (_, refl, tt))

-- A verdict gives at most one role, and one only to a pod that passes the gates g.
abbrev pub IsFair : Bool → Verdict → Type 0
IsFair g v =
    ((v.managed && v.holds_share) ≡ false) × (((v.managed || v.holds_share) ≡ false) ⊎ (g ≡ true))

-- The verdict does not manage a pod whose resize the kubelet calls infeasible.
abbrev pub IsFeasible : {Q : Type 0} → Pod Q → Verdict → Type 0
IsFeasible pod v = (v.managed ≡ false) ⊎ (pod_resize_infeasible pod ≡ false)

module _ {Q : Type 0} ⦃q : Quantity Q⦄ (reads : Reads Q) (pod : Pod Q) (g : Bool) where
  enrolled_verdict_lem :
      (backed_off : Bool) (r : Bool × Judging Q)
      → g ≡ true
      → IsFair g (enrolled_verdict reads pod backed_off r).0
  unfolding enrolled_verdict
  enrolled_verdict_lem backed_off (ok, st) passes = elim (Bool-cases ok) [
    | inr apart ↦ rw apart (refl, inr passes)
    | inl enrolled ↦ rw enrolled (role_lem _ backed_off, inr passes)
  ]
    where
      role_lem : (free b : Bool) → ((free && not b) && (free && b)) ≡ false
      role_lem free b = ground arith

  back_off_infeasible_lem :
      (r : Verdict × Judging Q)
      → IsFair g r.0
      → IsFair g (back_off_infeasible reads pod r).0
        × IsFeasible pod (back_off_infeasible reads pod r).0
  unfolding back_off_infeasible
  back_off_infeasible_lem (v, st) (one, gated) =
      elim (Bool-cases (v.managed && pod_resize_infeasible pod)) [
        | inl stuck ↦ rw stuck ((refl, inr (ground (arith, stuck, gated))), inl refl)
        | inr fine ↦ rw fine ((one, gated), ground (arith, fine))
      ]

-- What an input says of its pod, on a node and under a spec.
pub record Judged {Q S : Type 0} ⦃q : Quantity Q⦄ (node_managed : Bool)
    (spec : HeadroomConfigSpec Q S) (pod : Pod Q) (p : PodInput) : Type 0 where
  pub key_eq : p.key ≡ pod_key pod
  pub one_role : (p.managed && p.holds_share) ≡ false
  pub gated : (in_basis p ≡ false) ⊎ (may_manage node_managed spec pod ≡ true)
  pub feasible : (p.managed ≡ false) ⊎ (pod_resize_infeasible pod ≡ false)

-- The inputs of a list of pods: none for a terminal pod, and a judged one for each other, in order.
pub data Inputs {Q S : Type 0} ⦃q : Quantity Q⦄ (node_managed : Bool)
    (spec : HeadroomConfigSpec Q S) : List (Pod Q) → List PodInput → Type 0 where
  done : Inputs node_managed spec [] []
  skipped :
      {pod : Pod Q} {pods : List (Pod Q)} {ps : List PodInput}
      → pod_terminal pod ≡ true
      → Inputs node_managed spec pods ps
      → Inputs node_managed spec (pod ∷ pods) ps
  judged :
      {pod : Pod Q} {pods : List (Pod Q)} {p : PodInput} {ps : List PodInput}
      → pod_terminal pod ≡ false
      → Judged node_managed spec pod p
      → Inputs node_managed spec pods ps
      → Inputs node_managed spec (pod ∷ pods) (p ∷ ps)

module _ {Q S : Type 0} ⦃q : Quantity Q⦄ ⦃helper : ResourceHelper Q⦄ ⦃sel : Selectors S⦄
    (reads : Reads Q) (spec : HeadroomConfigSpec Q S) (node_managed : Bool) where
  read_namespace_lem :
      (ns : String) → Gives reads (read_namespace ns (reads.get_namespace ns) spec) (λ ok. Unit {0})
  unfolding read_namespace
  read_namespace_lem ns = by_read (reads.get_namespace ns) refl
    where
      by_read :
          (r : Read Namespace)
          → reads.get_namespace ns ≡ r
          → Gives reads (read_namespace ns r spec) (λ ok. Unit {0})
      by_read (found x) e = inr (_, refl, tt)
      by_read not_found e = inr (_, refl, tt)
      by_read failed e = inl (_, refl, (ns, inl e))

  cached_verdict_lem :
      (ns : String) (o : Option Bool) (st : Judging Q)
      → Gives reads (cached_verdict reads spec ns o st).0 (λ r. Unit {0})
  unfolding cached_verdict
  cached_verdict_lem ns (some ok) st = inr (ok, refl, tt)
  cached_verdict_lem ns none st =
      Gives-and_then reads (read_namespace ns (reads.get_namespace ns) spec, st) _ (λ r. Unit {0})
        (λ r. Unit {0}) (read_namespace_lem ns) (λ a st' u. inr (_, refl, tt))

  judge_lem :
      (pod : Pod Q) (st : Judging Q)
      → Gives reads
          (judge reads spec node_managed pod st).0
          (λ v. IsFair (may_manage node_managed spec pod) v)
  unfolding judge namespace_verdict
  judge_lem pod st = elim (Bool-cases (may_manage node_managed spec pod)) [
    | inr stop ↦ rw stop (inr (left_alone, refl, (refl, inl refl)))
    | inl passes ↦
        let (backed_off, windows) = in_backoff pod (reads.clock (pod_key pod)) st.backoff in
        let st' = record st { backoff = windows } in
        rw passes (
          Gives-and_then reads
            (cached_verdict reads spec pod.namespace (lookup pod.namespace st.ns_managed) st') _
            (λ r. Unit {0}) (λ v. IsFair true v)
            (cached_verdict_lem pod.namespace (lookup pod.namespace st.ns_managed) st')
            (λ r s u. inr (_, refl, enrolled_verdict_lem reads pod true backed_off (r, s) refl)))
  ]

  input_of_lem :
      (pod : Pod Q) (v : Verdict) (ranges : List (LimitRange Q)) (st : Judging Q)
      → IsFair (may_manage node_managed spec pod) v
      → IsFeasible pod v
      → Judged node_managed spec pod (input_of pod v ranges st).0
  unfolding input_of build_pod_input
  input_of_lem pod v ranges st (one, gated) feasible = record {
    key_eq = refl;
    one_role = one;
    gated = gated;
    feasible = feasible;
  }

  finish_input_lem :
      (pod : Pod Q) (r : Verdict × Judging Q)
      → IsFair (may_manage node_managed spec pod) r.0
      → IsFeasible pod r.0
      → Gives reads (finish_input reads pod r).0 (λ p. Judged node_managed spec pod p)
  unfolding finish_input limit_ranges
  finish_input_lem pod (v, st) fair feasible =
      Gives-if reads v.managed _ _ (λ p. Judged node_managed spec pod p)
        (Gives-and_then reads
          (cached_ranges reads pod.namespace (lookup pod.namespace st.ns_limit_ranges) st) _
          (λ r. Unit {0}) (λ p. Judged node_managed spec pod p)
          (cached_ranges_lem reads pod.namespace (lookup pod.namespace st.ns_limit_ranges) st)
          (λ r s u. inr (_, refl, input_of_lem pod v r s fair feasible)))
        (inr (_, refl, input_of_lem pod v [] st fair feasible))

  build_input_lem :
      (pod : Pod Q) (st : Judging Q)
      → Gives reads
          (build_input reads spec node_managed pod st).0
          (λ p. Judged node_managed spec pod p)
  unfolding build_input
  build_input_lem pod st =
      Gives-and_then reads (judge reads spec node_managed pod st) _
        (λ v. IsFair (may_manage node_managed spec pod) v) (λ p. Judged node_managed spec pod p)
        (judge_lem pod st)
        (λ v s fair.
          let (fair', feasible) =
            back_off_infeasible_lem reads pod (may_manage node_managed spec pod) (v, s) fair in
          finish_input_lem pod (back_off_infeasible reads pod (v, s)) fair' feasible)

  pub build_inputs_lem :
      (pods : List (Pod Q)) (st : Judging Q)
      → ((e : String) × ((build_inputs reads spec node_managed pods st).0 ≡ fails_with e)
          × Fails reads)
        ⊎ ((ps : List PodInput) × ((build_inputs reads spec node_managed pods st).0 ≡ gives ps)
            × Inputs node_managed spec pods ps)
  unfolding build_inputs
  build_inputs_lem [] st = inr ([], refl, done)
  build_inputs_lem (pod ∷ pods) st = elim (Bool-cases (pod_terminal pod)) [
    | inl terminal ↦ rw terminal (elim (build_inputs_lem pods st) [
      | inl fails ↦ inl fails
      | inr (ps, e, inputs) ↦ inr (ps, e, skipped terminal inputs)
    ])
    | inr live ↦ rw live (
        Gives-and_then reads (build_input reads spec node_managed pod st) _
          (λ p. Judged node_managed spec pod p) (λ ps. Inputs node_managed spec (pod ∷ pods) ps)
          (build_input_lem pod st)
          (λ p s ok.
            Gives-and_then reads (build_inputs reads spec node_managed pods s) _
              (λ ps. Inputs node_managed spec pods ps)
              (λ ps. Inputs node_managed spec (pod ∷ pods) ps) (build_inputs_lem pods s)
              (λ ps s' inputs. inr (_, refl, judged live ok inputs))))
  ]

-- The inputs of an unmanaged node have no pod in the distribution.
Inputs-unmanaged :
    {Q S : Type 0} ⦃q : Quantity Q⦄ (spec : HeadroomConfigSpec Q S) (pods : List (Pod Q))
    (ps : List PodInput) (s : NodeStats) (cfg : Config)
    → Inputs false spec pods ps
    → decide_all ps s cfg ≡ []
unfolding decide_all may_manage
Inputs-unmanaged spec pods ps s cfg done = refl
Inputs-unmanaged spec (pod ∷ pods) ps s cfg (skipped terminal rest) =
    Inputs-unmanaged spec pods ps s cfg rest
Inputs-unmanaged spec (pod ∷ pods) (p ∷ ps) s cfg (judged live j rest) =
    let unmanaged : p.managed ≡ false = ground (arith, j.gated) in
    rw unmanaged (Inputs-unmanaged spec pods ps s cfg rest)

module _ {Q S : Type 0} ⦃q : Quantity Q⦄ ⦃helper : ResourceHelper Q⦄ ⦃sel : Selectors S⦄
    (reads : Reads Q) (spec : HeadroomConfigSpec Q S) where
  -- For a node that is not managed, buildInputs fails, and some read fails, or ComputeNode gives no
  -- decision on its inputs.
  pub build_inputs-unmanaged :
      (pods : List (Pod Q)) (st : Judging Q) (allocatable : ℤ) (cfg : Config)
      → ((e : String) × ((build_inputs reads spec false pods st).0 ≡ fails_with e) × Fails reads)
        ⊎ ((ps : List PodInput) × ((build_inputs reads spec false pods st).0 ≡ gives ps)
            × (compute_node allocatable ps cfg ≡ []))
  unfolding compute_node compute
  build_inputs-unmanaged pods st allocatable cfg =
      elim (build_inputs_lem reads spec false pods st) [
        | inl fails ↦ inl fails
        | inr (ps, e, inputs) ↦ inr (ps, e, Inputs-unmanaged spec pods ps _ cfg inputs)
      ]
