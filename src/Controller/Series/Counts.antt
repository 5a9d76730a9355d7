-- ===== src/Controller/Series/Counts.antt =====
-- ManagedCounts and the podsManaged gauge, in the states that the reconciler reaches.
use kube_headroom.Prelude.{
  ℕ, suc, ◌+◌, ◌≡◌, refl, ◌∙◌, false, inl, inr, ◌==◌, List, [], ◌∷◌, String, length, arith,
  Bool-cases,
}
use mathlib.Core.Path.{ap₂}
use kube_headroom.Prelude.Text.{insert, str_eq}
use kube_headroom.Kube.{GoMap}
use kube_headroom.Controller.Backoff.{delete}
use kube_headroom.Controller.Series.{
  PodSeriesRef, Series, no_series, total, refresh_pods_managed, sync_pod_metrics, forget_node,
  count_managed, managed_counts,
}

-- A state that the reconciler reaches from its start by syncs and by forgetting nodes; in between a
-- reconcile sets gauges.
pub data Reached : Series → Type 0 where
  start : Reached no_series
  exported :
      (st : Series) (gauges : List PodSeriesRef)
      → Reached st
      → Reached (record st { pod_limit_cores = gauges })
  synced :
      (st : Series) (node : String) (current : GoMap PodSeriesRef)
      → Reached st
      → Reached (sync_pod_metrics node current st)
  forgot : (st : Series) (node : String) → Reached st → Reached (forget_node node st)

-- No node has an entry without pods.
abbrev NonEmpty : GoMap (GoMap PodSeriesRef) → Type 0
NonEmpty [] = Unit
NonEmpty ((node, s) ∷ m) = ((length s == 0) ≡ false) × NonEmpty m

NonEmpty-delete : (k : String) (m : GoMap (GoMap PodSeriesRef)) → NonEmpty m → NonEmpty (delete k m)
unfolding delete
NonEmpty-delete k [] h = tt
NonEmpty-delete k ((j, s) ∷ m) (p, h) = elim (Bool-cases (str_eq j k)) [
  | inl e ↦ rw e (NonEmpty-delete k m h)
  | inr e ↦ rw e ((p, NonEmpty-delete k m h))
]

NonEmpty-insert :
    (k : String) (s : GoMap PodSeriesRef) (m : GoMap (GoMap PodSeriesRef))
    → (length s == 0) ≡ false
    → NonEmpty m
    → NonEmpty (insert k s m)
NonEmpty-insert k s [] q h = (q, tt)
NonEmpty-insert k s ((j, t) ∷ m) q (p, h) = elim (Bool-cases (str_eq j k)) [
  | inl e ↦ rw e ((q, h))
  | inr e ↦ rw e ((p, NonEmpty-insert k s m q h))
]

count_managed_lem :
    (m : GoMap (GoMap PodSeriesRef)) (pods nodes : ℕ)
    → NonEmpty m
    → count_managed m pods nodes ≡ (pods + total m, nodes + length m)
unfolding count_managed total
count_managed_lem [] pods nodes h = ap₂ (λ (x y : ℕ). (x, y)) (omega arith) (omega arith)
count_managed_lem ((node, s) ∷ m) pods nodes (p, h) = rw p (
    count_managed_lem m (pods + length s) (suc nodes) h
    ∙ ap₂ (λ (x y : ℕ). (x, y)) (omega arith) (omega arith))

-- The invariant of the reconciler's record.
record IsKept (st : Series) : Type 0 where
  non_empty : NonEmpty st.pod_series
  gauge : st.pods_managed ≡ total st.pod_series

Reached-IsKept : (st : Series) → Reached st → IsKept st
unfolding sync_pod_metrics forget_node refresh_pods_managed total
Reached-IsKept _ start = record { non_empty = tt; gauge = refl }
Reached-IsKept _ (exported st gauges r) =
    let k = Reached-IsKept st r in record { non_empty = k.non_empty; gauge = k.gauge }
Reached-IsKept _ (synced st node current r) =
    let k = Reached-IsKept st r in
    record {
      non_empty = elim (Bool-cases (length current == 0)) [
        | inl e ↦ rw e (NonEmpty-delete node st.pod_series k.non_empty)
        | inr e ↦ rw e (NonEmpty-insert node current st.pod_series e k.non_empty)
      ];
      gauge = refl;
    }
Reached-IsKept _ (forgot st node r) =
    let k = Reached-IsKept st r in
    record { non_empty = NonEmpty-delete node st.pod_series k.non_empty; gauge = refl }

-- In every state that syncs, forgotten nodes and set gauges reach from the start, ManagedCounts
-- gives the value of the podsManaged gauge and the number of nodes with an entry.
pub managed_counts_lem :
    (st : Series) → Reached st → managed_counts st ≡ (st.pods_managed, length st.pod_series)
unfolding managed_counts
managed_counts_lem st r =
    let k = Reached-IsKept st r in
    count_managed_lem st.pod_series 0 0 k.non_empty
    ∙ ap₂ (λ (x y : ℕ). (x, y)) (omega (arith, k.gauge)) (omega arith)
