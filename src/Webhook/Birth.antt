-- ===== src/Webhook/Birth.antt =====
-- seedBirthLimits on a pod with unique container names.
use mathlib.Core.Option.{some-injective}
use kube_headroom.Prelude.{
  ℕ, zero, suc, ◌≡◌, refl, ap, sym, ◌∙◌, Bool, true, false, not, ◌&&◌, ◌||◌, inl, inr, Option, some,
  List, [], ◌∷◌, ◌++◌, String, arith, Bool-cases, All, All-append,
}
use kube_headroom.Prelude.Int.{ℤ, pos, ◌<ℤ◌, ◌≤ℤ◌}
use kube_headroom.Prelude.Text.{str_eq, str_eq_refl}
use kube_headroom.Float
use kube_headroom.Float.{Float64}
use kube_headroom.Kube.{Quantity, Container, Pod}
use kube_headroom.Eligibility.{
  ResizableContainer, resizable, resizable_containers, app_containers, sidecar_containers,
  is_sidecar,
}
use kube_headroom.Webhook.{
  Place, app, init, get_elem?, read, birth_limit, wants_seed, clamp_multiplier, set_cpu_limit,
  container_ptrs_by_name, seed_birth_limits, seed_loop,
}
use kube_headroom.Webhook.Seed.{
  Outcome, kept, seeded, seed_loop_lem, container_ptrs_by_name_lem, wants_seed_lem,
}

module _ {Q : Type 0} where
  abbrev named : String → List (Container Q) → Bool
  named k [] = false
  named k (c ∷ cs) = str_eq c.name k || named k cs

  abbrev distinct : List (Container Q) → Bool
  distinct [] = true
  distinct (c ∷ cs) = not (named c.name cs) && distinct cs

  -- Container names are unique in a pod.
  abbrev pub UniqueNames : Pod Q → Type 0
  UniqueNames pod = distinct (pod.containers ++ pod.init_containers) ≡ true

  named_lem :
      (cs : List (Container Q)) (i : ℕ) (c : Container Q)
      → get_elem? cs i ≡ some c
      → named c.name cs ≡ true
  named_lem [] i c e = cc e
  named_lem (x ∷ cs) zero c e =
      let h : str_eq x.name c.name ≡ true =
        ap (λ (y : Container Q). str_eq y.name c.name) (some-injective x c e)
        ∙ str_eq_refl c.name in
      rw h refl
  named_lem (x ∷ cs) (suc i) c e = ground (arith, named_lem cs i c e)

  distinct_lem :
      (cs : List (Container Q)) (i j : ℕ) (c d : Container Q)
      → distinct cs ≡ true
      → get_elem? cs i ≡ some c
      → get_elem? cs j ≡ some d
      → c.name ≡ d.name
      → c ≡ d
  distinct_lem [] i j c d u e f n = cc e
  distinct_lem (x ∷ cs) zero zero c d u e f n = some-injective c d (sym e ∙ f)
  distinct_lem (x ∷ cs) zero (suc j) c d u e f n =
      let x_eq : x ≡ c = some-injective x c e in
      let found : named x.name cs ≡ true =
        ap (λ (y : Container Q). named y.name cs) x_eq
        ∙ ap (λ k. named k cs) n
        ∙ named_lem cs j d f in
      ground (arith, found)
  distinct_lem (x ∷ cs) (suc i) zero c d u e f n =
      let x_eq : x ≡ d = some-injective x d f in
      let found : named x.name cs ≡ true =
        ap (λ (y : Container Q). named y.name cs) x_eq
        ∙ ap (λ k. named k cs) (sym n)
        ∙ named_lem cs i c e in
      ground (arith, found)
  distinct_lem (x ∷ cs) (suc i) (suc j) c d u e f n =
      let later : distinct cs ≡ true = ground arith in distinct_lem cs i j c d later e f n

  get_elem?-append_left :
      (cs ds : List (Container Q)) (i : ℕ) (c : Container Q)
      → get_elem? cs i ≡ some c
      → get_elem? (cs ++ ds) i ≡ some c
  get_elem?-append_left [] ds i c e = cc e
  get_elem?-append_left (x ∷ cs) ds zero c e = e
  get_elem?-append_left (x ∷ cs) ds (suc i) c e = get_elem?-append_left cs ds i c e

  get_elem?-append_right :
      (cs ds : List (Container Q)) (i : ℕ) (c : Container Q)
      → get_elem? ds i ≡ some c
      → (j : ℕ) × (get_elem? (cs ++ ds) j ≡ some c)
  get_elem?-append_right [] ds i c e = (i, e)
  get_elem?-append_right (x ∷ cs) ds i c e =
      let (j, h) = get_elem?-append_right cs ds i c e in (suc j, h)

  position :
      (pod : Pod Q) (p : Place) (c : Container Q)
      → read pod p ≡ some c
      → (i : ℕ) × (get_elem? (pod.containers ++ pod.init_containers) i ≡ some c)
  position pod (app i) c e = (i, get_elem?-append_left pod.containers pod.init_containers i c e)
  position pod (init i) c e = get_elem?-append_right pod.containers pod.init_containers i c e

module _ {Q : Type 0} ⦃q : Quantity Q⦄ where
  -- The resizable container rc is one of the pod's.
  abbrev IsOf : Pod Q → ResizableContainer → Type 0
  IsOf pod rc = (p : Place) × (c : Container Q) × (read pod p ≡ some c) × (rc ≡ resizable c)

  app_containers_lem :
      (pod : Pod Q) (cs : List (Container Q))
      → ((i : ℕ) (c : Container Q) → get_elem? cs i ≡ some c → (p : Place) × (read pod p ≡ some c))
      → All (IsOf pod) (app_containers cs)
  unfolding app_containers
  app_containers_lem pod [] h = tt
  app_containers_lem pod (c ∷ cs) h =
      let (p, e) = h 0 c refl in
      ((p, c, e, refl), app_containers_lem pod cs (λ i d f. h (suc i) d f))

  sidecar_containers_lem :
      (pod : Pod Q) (cs : List (Container Q))
      → ((i : ℕ) (c : Container Q) → get_elem? cs i ≡ some c → (p : Place) × (read pod p ≡ some c))
      → All (IsOf pod) (sidecar_containers cs)
  unfolding sidecar_containers
  sidecar_containers_lem pod [] h = tt
  sidecar_containers_lem pod (c ∷ cs) h =
      let (p, e) = h 0 c refl in
      let rest = sidecar_containers_lem pod cs (λ i d f. h (suc i) d f) in
      elim (Bool-cases (is_sidecar c)) [
        | inl sidecar ↦ rw sidecar ((p, c, e, refl), rest)
        | inr other ↦ rw other rest
      ]

  resizable_containers_lem : (pod : Pod Q) → All (IsOf pod) (resizable_containers pod)
  unfolding resizable_containers
  resizable_containers_lem pod =
      All-append (IsOf pod) (app_containers pod.containers) (sidecar_containers pod.init_containers)
        (app_containers_lem pod pod.containers (λ i c e. (app i, e)))
        (sidecar_containers_lem pod pod.init_containers (λ i c e. (init i, e)))

  -- What seeding makes of a container c: it is unchanged, or it had a request and no limit, and its
  -- new limit is the birth limit of its own request, which is above the request.
  pub data Birth (m : Float64) (quantum : ℤ) (c : Container Q) (r : Option (Container Q))
      : Type 0 where
    unseeded : r ≡ some c → Birth m quantum c r
    born :
        pos 0 <ℤ (resizable c).request_milli
        → (resizable c).limit_milli ≤ℤ pos 0
        → (resizable c).request_milli <ℤ birth_limit m quantum (resizable c).request_milli
        → r ≡ some (set_cpu_limit (birth_limit m quantum (resizable c).request_milli) c)
        → Birth m quantum c r

  resizable-name : (c : Container Q) → (resizable c).name ≡ c.name
  unfolding resizable
  resizable-name c = refl

  Outcome-Birth :
      (pod : Pod Q) (m : Float64) (quantum : ℤ) (p : Place) (c : Container Q)
      (r : Option (Container Q))
      → UniqueNames pod
      → read pod p ≡ some c
      → Outcome (IsOf pod) m quantum c r
      → Birth m quantum c r
  Outcome-Birth pod m quantum p c r u e (kept same) = unseeded same
  Outcome-Birth pod m quantum p c r u e (seeded rc (p', c', e', of) name_eq wants written) =
      let (i, at) = position pod p c e in
      let (j, at') = position pod p' c' e' in
      let same : c' ≡ c =
        distinct_lem (pod.containers ++ pod.init_containers) j i c' c u at' at
          (sym (resizable-name c') ∙ ap (λ (x : ResizableContainer). x.name) (sym of) ∙ name_eq) in
      let rc_eq : resizable c ≡ rc = ap (λ x. resizable x) (sym same) ∙ sym of in
      let (request, limit, above) =
        wants_seed_lem m quantum (resizable c) (ap (wants_seed m quantum) rc_eq ∙ wants) in
      born request limit above (
        written
        ∙ ap
            (λ (x : ResizableContainer).
              some (set_cpu_limit (birth_limit m quantum x.request_milli) c))
            (sym rc_eq))

  -- In a pod with distinct container names, seedBirthLimits leaves each container as it is, or the
  -- container had a CPU request and no CPU limit, and its new limit is the birth limit of its own
  -- request and above that request, and nothing else of it changes.
  pub seed_birth_limits_lem :
      (pod : Pod Q) (multiplier max_multiplier : Float64) (quantum : ℤ) (p : Place)
      (c : Container Q)
      → UniqueNames pod
      → read pod p ≡ some c
      → Birth (clamp_multiplier multiplier max_multiplier) quantum c (
          read
            (seed_birth_limits pod (resizable_containers pod) multiplier max_multiplier quantum).0
            p)
  unfolding seed_birth_limits
  seed_birth_limits_lem pod multiplier max_multiplier quantum p c u e =
      let m = clamp_multiplier multiplier max_multiplier in
      elim (Bool-cases (Float.le m (Float.of_int (pos 1)))) [
        | inl none_wanted ↦ rw none_wanted (unseeded e)
        | inr wanted ↦ rw wanted (
            Outcome-Birth pod m quantum p c
              (read
                (seed_loop (container_ptrs_by_name pod) m quantum (resizable_containers pod) pod).0
                p)
              u e
              (seed_loop_lem (IsOf pod) (container_ptrs_by_name pod) m quantum
                (resizable_containers pod) pod p c (resizable_containers_lem pod)
                (container_ptrs_by_name_lem pod) e))
      ]
