-- ===== src/Controller/HeadroomConfig.antt =====
-- internal/controller/headroomconfig_controller.go: the reconciler of the HeadroomConfig's status.
-- meta.SetStatusCondition of apimachinery is a parameter, at the instant of the call. An error of the read
-- is the read's own; one of the update keeps what the code puts before it.
pub mod Converge
mod Tests
use Prim.Native.String.{◌++◌ as str_append}
use kube_headroom.Prelude.{
  ℕ, ◌%◌, ◌^◌, ◌-◌, ◌≡◌, refl, Bool, true, false, not, ◌&&◌, ◌||◌, if◌then◌else◌, Option, none,
  some, List, [], ◌∷◌, String, ltb,
}
use kube_headroom.Prelude.Int.{ℤ, pos, negsuc, eqb_ℤ}
use kube_headroom.Prelude.Text.{str_eq}
use kube_headroom.Prelude.Format.{format_int}
use kube_headroom.Kube.{HeadroomConfigSpec, Read, found, not_found, failed}
use kube_headroom.Controller.Settings.{is_dry}
use kube_headroom.Controller.Series.{Series, managed_counts}

-- metav1.Condition; its instant is a text.
pub record Condition : Type 0 where
  pub condition_type : String
  pub status : String
  pub observed_generation : ℤ
  pub last_transition_time : String
  pub reason : String
  pub message : String

pub record HeadroomConfigStatus : Type 0 where
  pub observed_generation : ℤ
  pub managed_pods : ℤ
  pub managed_nodes : ℤ
  pub conditions : List Condition

pub record HeadroomConfig (Q S : Type 0) : Type 0 where
  pub generation : ℤ
  pub spec : HeadroomConfigSpec Q S
  pub status : HeadroomConfigStatus

-- The conversion int32(x) of an int that is not negative: its low 32 bits.
unfoldable pub int32 : ℕ → ℤ
int32 n = let low = n % 2 ^ 32 in if ltb low (2 ^ 31) then pos low else negsuc (2 ^ 32 - 1 - low)

unfoldable pub ready_message : {Q S : Type 0} → HeadroomConfigSpec Q S → ℕ → ℕ → String
ready_message spec pods nodes = str_append "Reconciling in " (
    str_append (if is_dry spec.dry_run then "dry-run" else "enforcing") (
      str_append " mode; managing " (
        str_append (format_int (pos pods))
          (str_append " pods across " (str_append (format_int (pos nodes)) " nodes")))))

-- apiequality's Semantic.DeepEqual at a status.
unfoldable pub condition_equal : Condition → Condition → Bool
condition_equal c d =
    str_eq c.condition_type d.condition_type
    && str_eq c.status d.status
    && eqb_ℤ c.observed_generation d.observed_generation
    && str_eq c.last_transition_time d.last_transition_time
    && str_eq c.reason d.reason
    && str_eq c.message d.message

unfoldable pub conditions_equal : List Condition → List Condition → Bool
conditions_equal [] [] = true
conditions_equal [] (d ∷ ds) = false
conditions_equal (c ∷ cs) [] = false
conditions_equal (c ∷ cs) (d ∷ ds) = condition_equal c d && conditions_equal cs ds

unfoldable pub status_equal : HeadroomConfigStatus → HeadroomConfigStatus → Bool
status_equal s t =
    eqb_ℤ s.observed_generation t.observed_generation
    && eqb_ℤ s.managed_pods t.managed_pods
    && eqb_ℤ s.managed_nodes t.managed_nodes
    && conditions_equal s.conditions t.conditions

abbrev pub SetStatusCondition : Type 0
SetStatusCondition = List Condition → Condition → List Condition

module _ {Q S : Type 0} where
  unfoldable pub ready_condition : HeadroomConfig Q S → ℕ → ℕ → Condition
  ready_condition hc pods nodes = record {
    condition_type = "Ready";
    status = "True";
    observed_generation = hc.generation;
    last_transition_time = "";
    reason = "Reconciled";
    message = ready_message hc.spec pods nodes;
  }

  -- The object with the status that Reconcile gives it.
  unfoldable pub refreshed : SetStatusCondition → HeadroomConfig Q S → ℕ → ℕ → HeadroomConfig Q S
  refreshed set_status_condition hc pods nodes = record hc {
    status = record {
      observed_generation = hc.generation;
      managed_pods = int32 pods;
      managed_nodes = int32 nodes;
      conditions = set_status_condition hc.status.conditions (ready_condition hc pods nodes);
    };
  }

-- A nil ManagedState counts nothing.
unfoldable pub counts_of : Option Series → ℕ × ℕ
counts_of none = (0, 0)
counts_of (some st) = managed_counts st

pub data Ending : Type 0 where
  requeues_after : ℤ → Ending
  read_error : Ending
  error : String → Ending

-- What this Reconcile reads and calls.
pub record ConfigCluster (Q S : Type 0) : Type 0 where
  pub get : Read (HeadroomConfig Q S)
  pub managed_state : Option Series
  pub set_status_condition : SetStatusCondition
  pub update : HeadroomConfig Q S → Bool

-- The update that it sends, and its end.
pub record ConfigReconciled (Q S : Type 0) : Type 0 where
  pub written : Option (HeadroomConfig Q S)
  pub ending : Ending

-- 30 * time.Second.
abbrev pub status_resync_period : ℤ
status_resync_period = pos 30000000000

module _ {Q S : Type 0} where
  unfoldable pub write_status :
      ConfigCluster Q S → HeadroomConfig Q S → HeadroomConfig Q S → ConfigReconciled Q S
  write_status env orig hc =
      if status_equal orig.status hc.status
      then record { written = none; ending = requeues_after status_resync_period }
      else record {
        written = some hc;
        ending =
            if env.update hc
            then requeues_after status_resync_period
            else error "update HeadroomConfig status";
      }

  unfoldable pub reconcile_found :
      ConfigCluster Q S → Read (HeadroomConfig Q S) → ℕ × ℕ → ConfigReconciled Q S
  reconcile_found env not_found counts = record { written = none; ending = requeues_after (pos 0) }
  reconcile_found env failed counts = record { written = none; ending = read_error }
  reconcile_found env (found hc) (pods, nodes) =
      write_status env hc (refreshed env.set_status_condition hc pods nodes)

  -- HeadroomConfigReconciler.Reconcile.
  unfoldable pub reconcile_config : ConfigCluster Q S → ConfigReconciled Q S
  reconcile_config env = reconcile_found env env.get (counts_of env.managed_state)
