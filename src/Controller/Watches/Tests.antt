-- ===== src/Controller/Watches/Tests.antt =====
-- The nodes that events enqueue.
use kube_headroom.Prelude.{◌≡◌, refl, some, [], ◌∷◌, any}
use kube_headroom.Prelude.Text.{contains}
use kube_headroom.Controller.Watches.{updated, nodes_of_event, bound, nodes_holding_pods_in}
use kube_headroom.Controller.Watches.Reach.{is_on, Distinct, nodes_holding_pods_in_lem}
use kube_headroom.Samples.{web}

-- A pod that is bound anew brings both nodes back.
rebind : nodes_of_event (updated web (record web { node_name = "other" })) ≡ "other" ∷ "node" ∷ []
unfolding nodes_of_event bound
rebind = refl

nodes_holding_pods_in_lem_example :
    (contains "node" (nodes_holding_pods_in (some (web ∷ web ∷ [])))
      ≡ any (is_on "node") (web ∷ web ∷ []))
    × Distinct (nodes_holding_pods_in (some (web ∷ web ∷ [])))
nodes_holding_pods_in_lem_example = nodes_holding_pods_in_lem (web ∷ web ∷ []) "node"
