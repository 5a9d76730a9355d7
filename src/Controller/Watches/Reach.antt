-- ===== src/Controller/Watches/Reach.antt =====
-- The nodes that hold a namespace's pods.
use kube_headroom.Prelude.{
  ◌≡◌, refl, ap, ◌∙◌, Bool, true, false, not, ◌&&◌, ◌||◌, if◌then◌else◌, some, List, [], ◌∷◌,
  String, inl, inr, arith, any, Bool-cases,
}
use kube_headroom.Prelude.Text.{str_eq, str_eq-true, contains}
use kube_headroom.Kube.{Pod}
use kube_headroom.Controller.Watches.{node_names, nodes_holding_pods_in}

-- The pod is bound to the node.
abbrev pub is_on : {Q : Type 0} → String → Pod Q → Bool
is_on name pod = not (str_eq pod.node_name "") && str_eq pod.node_name name

abbrev pub Distinct : List String → Type 0
Distinct [] = Unit
Distinct (x ∷ xs) = (contains x xs ≡ false) × Distinct xs

-- One more name, unless it is empty or at hand.
abbrev pub with_name : String → List String → List String
with_name name names = if str_eq name "" || contains name names then names else name ∷ names

conditional :
    (e c s k : Bool) → (s ≡ true → c ≡ k) → ((if e || c then k else (s || k)) ≡ (k || (not e && s)))
conditional e c s k h = ground arith

contains-if :
    (k : String) (b : Bool) (xs ys : List String)
    → contains k (if b then xs else ys) ≡ (if b then contains k xs else contains k ys)
contains-if k true xs ys = refl
contains-if k false xs ys = refl

contains-with_name :
    (k name : String) (names : List String)
    → contains k (with_name name names)
      ≡ (contains k names || (not (str_eq name "") && str_eq name k))
contains-with_name k name names =
    contains-if k (str_eq name "" || contains name names) names (name ∷ names)
    ∙ conditional (str_eq name "") (contains name names) (str_eq name k) (contains k names)
        (λ e. ap (λ (n : String). contains n names) (str_eq-true name k e))

Distinct-with_name :
    (name : String) (names : List String) → Distinct names → Distinct (with_name name names)
Distinct-with_name name names d = elim (Bool-cases (str_eq name "")) [
  | inl empty ↦ rw empty d
  | inr some_name ↦ elim (Bool-cases (contains name names)) [
    | inl there ↦ rw (some_name, there) d
    | inr new ↦ rw (some_name, new) ((new, d))
  ]
]

or_assoc : (a b c : Bool) → ((a || b) || c) ≡ (a || (b || c))
or_assoc a b c = ground arith

module _ {Q : Type 0} where
  node_names_lem :
      (k : String) (pods : List (Pod Q)) (names : List String)
      → contains k (node_names pods names) ≡ (contains k names || any (is_on k) pods)
  unfolding node_names
  node_names_lem k [] names = ground arith
  node_names_lem k (pod ∷ pods) names =
      node_names_lem k pods (with_name pod.node_name names)
      ∙ (ap (λ b. b || any (is_on k) pods) (contains-with_name k pod.node_name names)
          ∙ or_assoc (contains k names) (is_on k pod) (any (is_on k) pods))

  node_names-Distinct :
      (pods : List (Pod Q)) (names : List String)
      → Distinct names
      → Distinct (node_names pods names)
  unfolding node_names
  node_names-Distinct [] names d = d
  node_names-Distinct (pod ∷ pods) names d =
      node_names-Distinct pods (with_name pod.node_name names)
        (Distinct-with_name pod.node_name names d)

  -- Where the namespace's pods are listed, nodesHoldingPodsIn gives exactly the nodes that some of
  -- them is bound to, the empty name left out, and each once.
  pub nodes_holding_pods_in_lem :
      (pods : List (Pod Q)) (name : String)
      → (contains name (nodes_holding_pods_in (some pods)) ≡ any (is_on name) pods)
        × Distinct (nodes_holding_pods_in (some pods))
  unfolding nodes_holding_pods_in
  nodes_holding_pods_in_lem pods name =
      (node_names_lem name pods [], node_names-Distinct pods [] tt)
