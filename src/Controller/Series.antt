-- ===== src/Controller/Series.antt =====
-- internal/controller/node_controller.go: the record of the pods that export a podLimitCores series, with
-- syncPodMetrics, forgetNode, refreshPodsManagedLocked and ManagedCounts. Of a gauge vector it keeps the
-- label values, and of the podsManaged gauge its value; the node gauges and limiters are left out.
pub mod Counts
use kube_headroom.Prelude.{
  ℕ, suc, ◌+◌, ◌≡◌, refl, Bool, true, false, not, ◌&&◌, if◌then◌else◌, ◌==◌, Option, none, some,
  List, [], ◌∷◌, String, length,
}
use kube_headroom.Prelude.Text.{lookup, insert, str_eq}
use kube_headroom.Kube.{GoMap}
use kube_headroom.Controller.Backoff.{delete}

pub record PodSeriesRef : Type 0 where
  pub namespace : String
  pub name : String

pub record Series : Type 0 where
  pub pod_series : GoMap (GoMap PodSeriesRef)
  pub pod_limit_cores : List PodSeriesRef
  pub pods_managed : ℕ

abbrev pub no_series : Series
no_series = record { pod_series = []; pod_limit_cores = []; pods_managed = 0 }

abbrev pub same_series : PodSeriesRef → PodSeriesRef → Bool
same_series s t = str_eq s.namespace t.namespace && str_eq s.name t.name

-- DeleteLabelValues of a series.
unfoldable pub delete_label_values : PodSeriesRef → List PodSeriesRef → List PodSeriesRef
delete_label_values s [] = []
delete_label_values s (t ∷ gauges) =
    let rest = delete_label_values s gauges in if same_series t s then rest else t ∷ rest

-- Go's read of a missing key of a map of maps: the empty map.
unfoldable pub series_of : Option (GoMap PodSeriesRef) → GoMap PodSeriesRef
series_of none = []
series_of (some m) = m

abbrev is_current : Option PodSeriesRef → Bool
is_current none = false
is_current (some s) = true

-- The loop of syncPodMetrics: the series of pods that are not current are deleted.
unfoldable pub delete_stale :
    GoMap PodSeriesRef → GoMap PodSeriesRef → List PodSeriesRef → List PodSeriesRef
delete_stale [] current gauges = gauges
delete_stale ((key, s) ∷ previous) current gauges =
    delete_stale previous current
      (if is_current (lookup key current) then gauges else delete_label_values s gauges)

-- The loop of refreshPodsManagedLocked.
unfoldable pub total : GoMap (GoMap PodSeriesRef) → ℕ
total [] = 0
total ((node, s) ∷ m) = length s + total m

unfoldable pub refresh_pods_managed : Series → Series
refresh_pods_managed st = record st { pods_managed = total st.pod_series }

unfoldable pub sync_pod_metrics : String → GoMap PodSeriesRef → Series → Series
sync_pod_metrics node current st = refresh_pods_managed (record st {
  pod_limit_cores = delete_stale (series_of (lookup node st.pod_series)) current st.pod_limit_cores;
  pod_series =
      if length current == 0 then delete node st.pod_series else insert node current st.pod_series;
})

unfoldable pub forget_node : String → Series → Series
forget_node node st = refresh_pods_managed (record st {
  pod_limit_cores = delete_stale (series_of (lookup node st.pod_series)) [] st.pod_limit_cores;
  pod_series = delete node st.pod_series;
})

-- ManagedCounts: the pods and the nodes.
unfoldable pub count_managed : GoMap (GoMap PodSeriesRef) → ℕ → ℕ → ℕ × ℕ
count_managed [] pods nodes = (pods, nodes)
count_managed ((node, s) ∷ m) pods nodes =
    if length s == 0
    then count_managed m pods nodes
    else count_managed m (pods + length s) (suc nodes)

unfoldable pub managed_counts : Series → ℕ × ℕ
managed_counts st = count_managed st.pod_series 0 0
