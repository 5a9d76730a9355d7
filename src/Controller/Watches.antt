-- ===== src/Controller/Watches.antt =====
-- internal/controller/node_controller.go: which nodes an event enqueues (podEventHandler, nodesEventHandler,
-- allNodes, nodesHoldingPodsIn, nodeToRequests). The queue is the list of the calls of AddAfter, in order;
-- the n-th delay drawn is `delays n`. A list that fails gives no nodes.
pub mod Reach
mod Tests
use kube_headroom.Prelude.{
  ℕ, zero, suc, ◌+◌, ◌≡◌, refl, Bool, true, false, not, ◌&&◌, ◌||◌, if◌then◌else◌, Option, none,
  some, List, [], ◌∷◌, ◌++◌, String, length, map,
}
use kube_headroom.Prelude.Int.{ℤ}
use kube_headroom.Prelude.Text.{str_eq, contains}
use kube_headroom.Kube.{GoMap, Pod, Node}
use kube_headroom.Controller.Backoff.{delete}

-- q.AddAfter of a node's key.
pub record Request : Type 0 where
  pub name : String
  pub delay : ℤ

pub data PodEvent (Q : Type 0) : Type 0 where
  created : Pod Q → PodEvent Q
  updated : Pod Q → Pod Q → PodEvent Q
  deleted : Pod Q → PodEvent Q

-- The loop of the enqueue of nodesEventHandler: each name after a delay of its own.
unfoldable pub enqueue_all : (ℕ → ℤ) → ℕ → List String → List Request
enqueue_all delays n [] = []
enqueue_all delays n (name ∷ names) =
    record { name = name; delay = delays n } ∷ enqueue_all delays (suc n) names

-- The enqueue of podEventHandler: nothing for a pod that is bound to no node.
unfoldable pub bound : String → List String
bound name = if str_eq name "" then [] else name ∷ []

module _ {Q : Type 0} where
  -- The nodes that a pod's event enqueues, in order.
  unfoldable pub nodes_of_event : PodEvent Q → List String
  nodes_of_event (created pod) = bound pod.node_name
  nodes_of_event (updated old new) =
      bound new.node_name
      ++ (if not (str_eq old.node_name "") && not (str_eq old.node_name new.node_name)
          then bound old.node_name
          else [])
  nodes_of_event (deleted pod) = bound pod.node_name

  -- The VPA warnings that are remembered after the event.
  unfoldable pub skips_after : PodEvent Q → GoMap String → GoMap String
  skips_after (created pod) skipped = skipped
  skips_after (updated old new) skipped = skipped
  skips_after (deleted pod) skipped = delete pod.uid skipped

  unfoldable pub pod_event_handler :
      (ℕ → ℤ) → PodEvent Q → GoMap String → List Request × GoMap String
  pod_event_handler delays e skipped =
      (enqueue_all delays 0 (nodes_of_event e), skips_after e skipped)

  -- allNodes, from the listed nodes.
  unfoldable pub all_nodes : Option (List (Node Q)) → List String
  all_nodes none = []
  all_nodes (some nodes) = map (λ (n : Node Q). n.name) nodes

  -- The loop of nodesHoldingPodsIn: the names as a set.
  unfoldable pub node_names : List (Pod Q) → List String → List String
  node_names [] names = names
  node_names (pod ∷ pods) names = node_names pods (
      if str_eq pod.node_name "" || contains pod.node_name names
      then names
      else pod.node_name ∷ names)

  -- nodesHoldingPodsIn, from the pods listed in the namespace; its order is the map's, any.
  unfoldable pub nodes_holding_pods_in : Option (List (Pod Q)) → List String
  nodes_holding_pods_in none = []
  nodes_holding_pods_in (some pods) = node_names pods []

  -- nodeToRequests.
  unfoldable pub node_to_requests : Node Q → List String
  node_to_requests node = node.name ∷ []

-- nodesEventHandler.
unfoldable pub nodes_event_handler : (ℕ → ℤ) → List String → List Request
nodes_event_handler delays names = enqueue_all delays 0 names
