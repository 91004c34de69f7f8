-- ===== src/Capability/Nodes.antt =====
-- internal/capability/registry.go: what the registry knows of a node.
use mathlib.Core.Path.{ap₂}
use loqa_core.Base.{
  ◌≡◌, refl, ◌∙◌, String, ◌==◌, eq_iff, Bool, true, false, Option, none, some, List, [], ◌∷◌,
  lookup, lookup-insert, lookup-update_all, AllEntries, insert-AllEntries, update_all-AllEntries,
  lookup-AllEntries, Time, arith, if◌then◌else◌, Option-cases, inl, inr,
}
use loqa_core.Config.{NodeConfig}
use loqa_core.Capability.{
  Capability, NodeInfo, Nodes, Registry, Action, announced, beat, tick, pulse, or_new, updated,
  update_node, handle_announce, handle_heartbeat, publish_heartbeat, evaluate_health, is_overdue,
  step, run, or_now,
}

-- Each node is kept under its own ID.
abbrev pub IsKeyed : Nodes → Type 0
IsKeyed nodes = AllEntries (λ key node. node.id ≡ key) nodes

update_node-IsKeyed :
    (node_id role : String) (caps : List Capability) (timestamp : Time) (healthy : Bool)
    (nodes : Nodes)
    → IsKeyed nodes
    → IsKeyed (update_node node_id role caps timestamp healthy nodes)
unfolding update_node
update_node-IsKeyed node_id role caps timestamp healthy nodes h =
    insert-AllEntries (λ key node. node.id ≡ key) node_id _ nodes own h
  where
    own : (or_new node_id (lookup node_id nodes)).id ≡ node_id
    own = elim (Option-cases (lookup node_id nodes)) [
      | inl e ↦ ground (arith, e)
      | inr (node, e) ↦
          ground (arith, e, lookup-AllEntries (λ key node. node.id ≡ key) node_id nodes e h)
    ]

pub step-IsKeyed : (a : Action) (r : Registry) → IsKeyed r.nodes → IsKeyed (step a r).nodes
unfolding step handle_announce handle_heartbeat evaluate_health publish_heartbeat
step-IsKeyed (announced none now) r h = h
step-IsKeyed (announced (some msg) now) r h =
    update_node-IsKeyed msg.node_id msg.role msg.capabilities _ true r.nodes h
step-IsKeyed (beat none now) r h = h
step-IsKeyed (beat (some hb) now) r h = update_node-IsKeyed hb.node_id "" [] _ true r.nodes h
step-IsKeyed (tick now) r h =
    update_all-AllEntries (λ key node. node.id ≡ key) _ r.nodes (λ k node e. ground arith) h
step-IsKeyed (pulse true now) r h = h
step-IsKeyed (pulse false now) r h = h

-- The registry seen from one node: what an action does to what is known of it.
abbrev judged : NodeConfig → Time → Option NodeInfo → Option NodeInfo
judged cfg now none = none
judged cfg now (some node) =
    some (if is_overdue cfg now node then record node { healthy = false } else node)

unfoldable pub observe : NodeConfig → String → Action → Option NodeInfo → Option NodeInfo
observe cfg k (announced none now) o = o
observe cfg k (announced (some msg) now) o =
    if msg.node_id == k
    then some (updated (or_new k o) msg.role msg.capabilities (or_now msg.timestamp now) true)
    else o
observe cfg k (beat none now) o = o
observe cfg k (beat (some hb) now) o =
    if hb.node_id == k then some (updated (or_new k o) "" [] (or_now hb.timestamp now) true) else o
observe cfg k (tick now) o = judged cfg now o
observe cfg k (pulse accepted now) o = o

unfoldable pub observe_all : NodeConfig → String → List Action → Option NodeInfo → Option NodeInfo
observe_all cfg k [] o = o
observe_all cfg k (a ∷ actions) o = observe_all cfg k actions (observe cfg k a o)

lookup-update_node :
    (k node_id role : String) (caps : List Capability) (timestamp : Time) (healthy : Bool)
    (nodes : Nodes)
    → lookup k (update_node node_id role caps timestamp healthy nodes) ≡ (
        if node_id == k
        then some (updated (or_new k (lookup k nodes)) role caps timestamp healthy)
        else lookup k nodes)
unfolding update_node
lookup-update_node k node_id role caps timestamp healthy nodes =
    rw lookup-insert (ground (arith, eq_iff node_id k))

lookup-step :
    (k : String) (a : Action) (r : Registry)
    → lookup k (step a r).nodes ≡ observe r.cfg k a (lookup k r.nodes)
unfolding step observe handle_announce handle_heartbeat evaluate_health publish_heartbeat
lookup-step k (announced none now) r = refl
lookup-step k (announced (some msg) now) r =
    lookup-update_node k msg.node_id msg.role msg.capabilities _ true r.nodes
lookup-step k (beat none now) r = refl
lookup-step k (beat (some hb) now) r = lookup-update_node k hb.node_id "" [] _ true r.nodes
lookup-step k (tick now) r = elim (Option-cases (lookup k r.nodes)) [
  | inl e ↦ lookup-update_all k _ r.nodes ∙ (ground (arith, e))
  | inr (node, e) ↦ lookup-update_all k _ r.nodes ∙ (ground (arith, e))
]
lookup-step k (pulse true now) r = refl
lookup-step k (pulse false now) r = refl

step-cfg : (a : Action) (r : Registry) → (step a r).cfg ≡ r.cfg
unfolding step handle_announce handle_heartbeat evaluate_health publish_heartbeat
step-cfg (announced none now) r = refl
step-cfg (announced (some msg) now) r = refl
step-cfg (beat none now) r = refl
step-cfg (beat (some hb) now) r = refl
step-cfg (tick now) r = refl
step-cfg (pulse true now) r = refl
step-cfg (pulse false now) r = refl

-- After any history of messages and health checks, what the registry knows of a node is what the
-- node's own history makes of it: the announcements and heartbeats that name it, and the checks.
-- No other node's messages bear on it, and no node is ever forgotten.
pub lookup-run :
    (k : String) (actions : List Action) (r : Registry)
    → lookup k (run actions r).nodes ≡ observe_all r.cfg k actions (lookup k r.nodes)
unfolding run observe_all
lookup-run k [] r = refl
lookup-run k (a ∷ actions) r =
    lookup-run k actions (step a r)
    ∙ ap₂ (λ cfg o. observe_all cfg k actions o) (step-cfg a r) (lookup-step k a r)

run-IsKeyed :
    (actions : List Action) (r : Registry) → IsKeyed r.nodes → IsKeyed (run actions r).nodes
unfolding run
run-IsKeyed [] r h = h
run-IsKeyed (a ∷ actions) r h = run-IsKeyed actions (step a r) (step-IsKeyed a r h)

-- Starting from a registry whose nodes are kept under their IDs, every node that is looked up has
-- the ID that it was looked up by, whatever happened.
pub run-id :
    (actions : List Action) (r : Registry) (k : String) (node : NodeInfo)
    → IsKeyed r.nodes
    → lookup k (run actions r).nodes ≡ some node
    → node.id ≡ k
run-id actions r k node h e =
    lookup-AllEntries (λ key node. node.id ≡ key) k (run actions r).nodes e
      (run-IsKeyed actions r h)
