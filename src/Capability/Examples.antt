-- ===== src/Capability/Examples.antt =====
-- internal/capability/registry.go: runs of the registry, and its theorems at concrete inputs.
use mathlib.Core.List.{Perm}
use mathlib.Core.List.Perm
use loqa_core.Base.{
  ◌≡◌, ◌≢◌, refl, arith, ◌*◌, millisecond, true, false, not, ◌&&◌, some, List, [], ◌∷◌, pos, lookup,
  insert, update_all, scale, time_sub, if◌then◌else◌,
}
use loqa_core.Config.{NodeConfig}
use loqa_core.Capability.{
  Capability, NodeInfo, Nodes, Registry, Action, beat, tick, heartbeat, healthy, query,
  with_capability_filter, with_tier_filter, update_node, created, not_subscribed, panicked,
  is_ticking, new_registry, publish_heartbeat, handle_heartbeat, evaluate_health,
  convert_capabilities, step, run,
}
use loqa_core.Capability.Nodes.{observe_all, lookup-run}
use loqa_core.Capability.Health.{all_within, silent_node, map_created, new_registry_lem}
use loqa_core.Capability.Queries.{IsTold, Offers, query-filters}

abbrev settings : NodeConfig
settings = record {
  id = "hub";
  role = "runtime";
  heartbeat_interval = pos 2000;
  heartbeat_timeout = pos 6000;
  capabilities = record { name = "runtime.core"; tier = "balanced"; attributes = [] } ∷ [];
}

abbrev speech : Capability
speech = record { name = "stt"; tier = "fast"; attributes = [] }

abbrev edge : NodeInfo
edge = record {
  id = "edge";
  role = "stt";
  capabilities = speech ∷ [];
  last_seen = 1000000000;
  healthy = true;
}

abbrev hub : NodeInfo
hub = record {
  id = "hub";
  role = "runtime";
  capabilities = convert_capabilities settings.capabilities;
  last_seen = 1000000000;
  healthy = true;
}

abbrev known_nodes : Nodes
known_nodes = ("hub", hub) ∷ ("edge", edge) ∷ []

abbrev registry : Registry
registry = record {
  cfg = settings;
  nodes = known_nodes;
  subs = "ctrl.node.announce" ∷ "ctrl.node.heartbeat.*" ∷ [];
  cancelled = false;
  sent = [];
}

-- The hub is heard of, the edge node is not, and checks come after 3, 6 and 8 seconds.
abbrev quiet_edge : List Action
quiet_edge =
    tick 4000000000
    ∷ beat (some (record { node_id = "hub"; timestamp = 6000000000 })) 6000000001
    ∷ tick 7000000000
    ∷ tick 9000000000
    ∷ []

edge_lost : lookup "edge" (run quiet_edge registry).nodes ≡ some (record edge { healthy = false })
unfolding run step evaluate_health handle_heartbeat update_node lookup insert update_all scale
    time_sub
edge_lost = refl

own_heartbeat :
    (publish_heartbeat true 5 registry).0.sent
    ≡ heartbeat "ctrl.node.heartbeat.hub" (record { node_id = "hub"; timestamp = 5 }) ∷ []
unfolding publish_heartbeat
own_heartbeat = refl

lookup-run_example :
    lookup "edge" (run quiet_edge registry).nodes
    ≡ observe_all settings "edge" quiet_edge (lookup "edge" known_nodes)
lookup-run_example = lookup-run "edge" quiet_edge registry

silent_node_example :
    lookup "edge" (run quiet_edge registry).nodes
    ≡ some (record edge { healthy = all_within 1000000000 (millisecond * 6000) quiet_edge })
unfolding lookup
silent_node_example =
    silent_node registry "edge" quiet_edge edge 6000 refl refl refl refl (omega arith) (
      (omega arith, omega arith),
      (tt, ((omega arith, omega arith), ((omega arith, omega arith), tt))),
    )

new_registry_lem_example :
    let r = new_registry settings true false true 5 in
    (map_created healthy r.0 ≡ (
      if not (true && false)
      then not_subscribed
      else if is_ticking settings
      then created true
      else panicked))
    × (true ≡ true → false ≡ false → r.1 ≢ [])
new_registry_lem_example = new_registry_lem settings true false true 5

query-filters_example :
    IsTold
      (with_capability_filter "stt")
      (λ n. Offers (λ cap. cap.name ≡ "stt") n.capabilities)
      known_nodes
      edge
    × IsTold
        (with_tier_filter "stt")
        (λ n. Offers (λ cap. cap.tier ≡ "stt") n.capabilities)
        known_nodes
        edge
    × Perm
        (query (some (with_capability_filter "stt")) known_nodes)
        (query (some (with_capability_filter "stt")) (("edge", edge) ∷ ("hub", hub) ∷ []))
query-filters_example = query-filters "stt" edge (Perm.swap ("edge", edge) ("hub", hub) [])
