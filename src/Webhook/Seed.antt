-- ===== src/Webhook/Seed.antt =====
-- seedBirthLimits: which containers get a birth limit.
use mathlib.Core.Option.{some-injective}
use kube_headroom.Prelude.{
  ℕ, zero, suc, ◌+◌, ◌≡◌, refl, ap, sym, ◌∙◌, true, ◌⊎◌, inl, inr, Option, some, List, [], ◌∷◌,
  String, arith, Bool-cases, Option-cases, All,
}
use kube_headroom.Prelude.Int.{ℤ, pos, ◌<ℤ◌, ◌≤ℤ◌}
use kube_headroom.Prelude.Text.{lookup, insert, str_eq, str_eq_refl, str_eq-true, lookup-insert}
use kube_headroom.Float.{Float64}
use kube_headroom.Kube.{Quantity, GoMap, Container, Pod}
use kube_headroom.Eligibility.{ResizableContainer}
use kube_headroom.Webhook.{
  Place, app, init, get_elem?, modify, read, write, index_names, container_ptrs_by_name,
  birth_limit, wants_seed, set_cpu_limit, seed_at, seed_loop,
}

insert-insert :
    {V : Type 0} (k : String) (v w : V) (m : GoMap V) → insert k w (insert k v m) ≡ insert k w m
insert-insert k v w [] = rw (str_eq_refl k) refl
insert-insert k v w ((j, x) ∷ m) = elim (Bool-cases (str_eq j k)) [
  | inl e ↦ rw e (rw (str_eq_refl k) refl)
  | inr e ↦ rw e (rw e (ap (λ r. (j, x) ∷ r) (insert-insert k v w m)))
]

module _ {Q : Type 0} where
  get_elem?-modify :
      (cs : List (Container Q)) (i j : ℕ) (f : Container Q → Container Q) (c : Container Q)
      → get_elem? cs j ≡ some c
      → (get_elem? (modify cs i f) j ≡ some c)
        ⊎ ((i ≡ j) × (get_elem? (modify cs i f) j ≡ some (f c)))
  get_elem?-modify [] i j f c e = inl e
  get_elem?-modify (x ∷ cs) zero zero f c e = inr (refl, ap some (ap f (some-injective x c e)))
  get_elem?-modify (x ∷ cs) zero (suc j) f c e = inl e
  get_elem?-modify (x ∷ cs) (suc i) zero f c e = inl e
  get_elem?-modify (x ∷ cs) (suc i) (suc j) f c e = elim (get_elem?-modify cs i j f c e) [
    | inl h ↦ inl h
    | inr (h, k) ↦ inr (ap suc h, k)
  ]

  -- What a pointer reads after a write through another pointer, or the same one.
  read-write :
      (pod : Pod Q) (p p' : Place) (f : Container Q → Container Q) (c : Container Q)
      → read pod p' ≡ some c
      → (read (write pod p f) p' ≡ some c) ⊎ ((p ≡ p') × (read (write pod p f) p' ≡ some (f c)))
  read-write pod (app i) (app j) f c e = elim (get_elem?-modify pod.containers i j f c e) [
    | inl h ↦ inl h
    | inr (h, k) ↦ inr (ap app h, k)
  ]
  read-write pod (app i) (init j) f c e = inl e
  read-write pod (init i) (app j) f c e = inl e
  read-write pod (init i) (init j) f c e = elim (get_elem?-modify pod.init_containers i j f c e) [
    | inl h ↦ inl h
    | inr (h, k) ↦ inr (ap init h, k)
  ]

  -- Every pointer of the map reads a container of the name it is under.
  abbrev pub Points : Pod Q → GoMap Place → Type 0
  Points pod m =
      (k : String) (p : Place)
      → lookup k m ≡ some p
      → (c : Container Q) × (read pod p ≡ some c) × (c.name ≡ k)

  index_names_lem :
      (pod : Pod Q) (place : ℕ → Place) (i : ℕ) (cs : List (Container Q)) (m : GoMap Place)
      → ((j : ℕ) (c : Container Q) → get_elem? cs j ≡ some c → read pod (place (i + j)) ≡ some c)
      → Points pod m
      → Points pod (index_names place i cs m)
  unfolding index_names
  index_names_lem pod place i [] m h points = points
  index_names_lem pod place i (c ∷ cs) m h points =
      index_names_lem pod place (suc i) cs (insert c.name (place i) m)
        (λ j c' e.
          let shift : i + suc j ≡ suc i + j = omega arith in
          ap (λ n. read pod (place n)) (sym shift) ∙ h (suc j) c' e)
        (λ k p e. elim (Bool-cases (str_eq c.name k)) [
          | inl same ↦
              let at : some (place i) ≡ some p =
                sym (lookup-insert c.name k (place i) m ∙ rw same refl) ∙ e in
              let first : i + 0 ≡ i = omega arith in
              (
                c,
                ap (read pod) (sym (some-injective (place i) p at))
                    ∙ ap (λ n. read pod (place n)) (sym first)
                    ∙ h 0 c refl,
                str_eq-true c.name k same,
              )
          | inr other ↦ points k p (sym (lookup-insert c.name k (place i) m ∙ rw other refl) ∙ e)
        ])

  pub container_ptrs_by_name_lem : (pod : Pod Q) → Points pod (container_ptrs_by_name pod)
  unfolding container_ptrs_by_name
  container_ptrs_by_name_lem pod =
      index_names_lem pod init 0 pod.init_containers (index_names app 0 pod.containers [])
        (λ j c e. ap (get_elem? pod.init_containers) (omega arith) ∙ e)
        (index_names_lem pod app 0 pod.containers []
          (λ j c e. ap (get_elem? pod.containers) (omega arith) ∙ e) (λ k p e. cc e))

-- A container with a request and without a limit, whose birth limit is above its request.
pub wants_seed_lem :
    (m : Float64) (quantum : ℤ) (rc : ResizableContainer)
    → wants_seed m quantum rc ≡ true
    → (pos 0 <ℤ rc.request_milli)
      × (rc.limit_milli ≤ℤ pos 0)
      × (rc.request_milli <ℤ birth_limit m quantum rc.request_milli)
unfolding wants_seed
wants_seed_lem m quantum rc e = ground arith

module _ {Q : Type 0} ⦃q : Quantity Q⦄ where
  -- What becomes of a container c: nothing, or a birth limit by way of a listed container rc.
  pub data Outcome (P : ResizableContainer → Type 0) (m : Float64) (quantum : ℤ) (c : Container Q)
      (r : Option (Container Q)) : Type 0 where
    kept : r ≡ some c → Outcome P m quantum c r
    seeded :
        (rc : ResizableContainer)
        → P rc
        → rc.name ≡ c.name
        → wants_seed m quantum rc ≡ true
        → r ≡ some (set_cpu_limit (birth_limit m quantum rc.request_milli) c)
        → Outcome P m quantum c r

  set-set : (t u : ℤ) (c : Container Q) → set_cpu_limit t (set_cpu_limit u c) ≡ set_cpu_limit t c
  unfolding set_cpu_limit
  set-set t u c =
      ap (λ x. record c { limits = x })
        (insert-insert "cpu" (q.new_milli_quantity u) (q.new_milli_quantity t) c.limits)

  set-name : (t : ℤ) (c : Container Q) → (set_cpu_limit t c).name ≡ c.name
  unfolding set_cpu_limit
  set-name t c = refl

  Points-write :
      (pod : Pod Q) (p : Place) (t : ℤ) (m : GoMap Place)
      → Points pod m
      → Points (write pod p (set_cpu_limit t)) m
  Points-write pod p t m points k p' e =
      let (c, reads, named) = points k p' e in
      elim (read-write pod p p' (set_cpu_limit t) c reads) [
        | inl h ↦ (c, h, named)
        | inr (h, reads') ↦ (set_cpu_limit t c, reads', set-name t c ∙ named)
      ]

  again :
      (P : ResizableContainer → Type 0) (m : Float64) (quantum : ℤ) (rc : ResizableContainer)
      (c : Container Q) (r : Option (Container Q))
      → P rc
      → rc.name ≡ c.name
      → wants_seed m quantum rc ≡ true
      → Outcome P m quantum (set_cpu_limit (birth_limit m quantum rc.request_milli) c) r
      → Outcome P m quantum c r
  again P m quantum rc c r h named wants (kept e) = seeded rc h named wants e
  again P m quantum rc c r h named wants (seeded rc' h' named' wants' e) =
      let t = birth_limit m quantum rc.request_milli in
      seeded rc' h' (named' ∙ set-name t c) wants'
        (e ∙ ap some (set-set (birth_limit m quantum rc'.request_milli) t c))

  pub seed_loop_lem :
      (P : ResizableContainer → Type 0) (by_name : GoMap Place) (m : Float64) (quantum : ℤ)
      (rcs : List ResizableContainer) (pod : Pod Q) (p : Place) (c : Container Q)
      → All P rcs
      → Points pod by_name
      → read pod p ≡ some c
      → Outcome P m quantum c (read (seed_loop by_name m quantum rcs pod).0 p)
  unfolding seed_loop seed_at
  seed_loop_lem P by_name m quantum [] pod p c all points e = kept e
  seed_loop_lem P by_name m quantum (rc ∷ rcs) pod p c (h, all) points e =
      elim (Bool-cases (wants_seed m quantum rc)) [
        | inr skip ↦ rw skip (seed_loop_lem P by_name m quantum rcs pod p c all points e)
        | inl wants ↦ elim (Option-cases (lookup rc.name by_name)) [
          | inl absent ↦
              rw (wants, absent) (seed_loop_lem P by_name m quantum rcs pod p c all points e)
          | inr (p', found) ↦
              let t = birth_limit m quantum rc.request_milli in
              let (c', reads, named) = points rc.name p' found in
              let rest = seed_loop_lem P by_name m quantum rcs (write pod p' (set_cpu_limit t)) p in
              let points' = Points-write pod p' t by_name points in
              rw (wants, found)
                (elim (read-write pod p' p (set_cpu_limit t) c e) [
                  | inl other ↦ rest c all points' other
                  | inr (same, written) ↦
                      again P m quantum rc c
                        (read (seed_loop by_name m quantum rcs (write pod p' (set_cpu_limit t))).0
                          p)
                        h
                        (sym named
                          ∙ ap (λ (x : Container Q). x.name)
                              (some-injective c' c (sym reads ∙ ap (read pod) same ∙ e)))
                        wants (rest (set_cpu_limit t c) all points' written)
                ])
        ]
      ]
