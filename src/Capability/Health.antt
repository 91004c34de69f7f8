-- ===== src/Capability/Health.antt =====
-- internal/capability/registry.go: when a node counts as healthy.
use mathlib.Core.Path.{ap₂}
use loqa_core.Base.{
  ℕ, ◌+◌, ◌-◌, ◌*◌, ◌^◌, leb, All, ◌≤◌, ◌<◌, ◌≡◌, ◌↔◌, refl, ap, ◌∙◌, String, ◌==◌, Bool, true,
  false, not, ◌&&◌, none, some, List, [], ◌∷◌, lookup, Bool-cases, inl, inr, Time, time_sub_past,
  scale_fits, millisecond, pos, lookup-insert_self, arith, if◌then◌else◌, ◌≢◌,
}
use loqa_core.Config.{NodeConfig}
use loqa_core.Capability.{
  NodeInfo, HeartbeatMessage, Registry, Action, announced, beat, tick, pulse, update_node,
  handle_heartbeat, is_overdue, healthy, announce, subscribe, Construction, created, not_subscribed,
  panicked, is_ticking, new_registry, run,
}
use loqa_core.Capability.Nodes.{observe, observe_all, lookup-run}

-- An action that carries no message of the node.
abbrev pub is_quiet : String → Action → Bool
is_quiet k (announced none now) = true
is_quiet k (announced (some msg) now) = not (msg.node_id == k)
is_quiet k (beat none now) = true
is_quiet k (beat (some hb) now) = not (hb.node_id == k)
is_quiet k (tick now) = true
is_quiet k (pulse accepted now) = true

abbrev pub all_quiet : String → List Action → Bool
all_quiet k [] = true
all_quiet k (a ∷ actions) = is_quiet k a && all_quiet k actions

-- Whether a health check, if this is one, finds the node in time.
abbrev pub is_timely : NodeConfig → NodeInfo → Action → Bool
is_timely cfg node (tick now) = not (is_overdue cfg now node)
is_timely cfg node _ = true

abbrev pub all_timely : NodeConfig → NodeInfo → List Action → Bool
all_timely cfg node [] = true
all_timely cfg node (a ∷ actions) = is_timely cfg node a && all_timely cfg node actions

observe-quiet :
    (cfg : NodeConfig) (k : String) (a : Action) (node : NodeInfo) (up : Bool)
    → is_quiet k a ≡ true
    → observe cfg k a (some (record node { healthy = up }))
      ≡ some (record node { healthy = up && is_timely cfg node a })
unfolding observe
observe-quiet cfg k (announced none now) node up h = ground arith
observe-quiet cfg k (announced (some msg) now) node up h = ground arith
observe-quiet cfg k (beat none now) node up h = ground arith
observe-quiet cfg k (beat (some hb) now) node up h = ground arith
observe-quiet cfg k (tick now) node up h = ground arith
observe-quiet cfg k (pulse accepted now) node up h = ground arith

observe_all-quiet :
    (cfg : NodeConfig) (k : String) (actions : List Action) (node : NodeInfo) (up : Bool)
    → all_quiet k actions ≡ true
    → observe_all cfg k actions (some (record node { healthy = up }))
      ≡ some (record node { healthy = up && all_timely cfg node actions })
unfolding observe_all
observe_all-quiet cfg k [] node up h = ground arith
observe_all-quiet cfg k (a ∷ actions) node up h =
    ap (observe_all cfg k actions) (observe-quiet cfg k a node up (ground arith))
    ∙ observe_all-quiet cfg k actions node (up && is_timely cfg node a) (ground arith)
    ∙ ground arith

-- For a timeout that fits a time.Duration, and a node last seen at most 292 years ago and not in
-- the future, a node is overdue exactly if more than the timeout has passed.
pub is_overdue_iff :
    (cfg : NodeConfig) (timeout_ms : ℕ) (now : Time) (node : NodeInfo)
    → cfg.heartbeat_timeout ≡ pos timeout_ms
    → millisecond * timeout_ms < 2 ^ 63
    → node.last_seen ≤ now
    → now - node.last_seen < 2 ^ 63
    → (is_overdue cfg now node ≡ true) ↔ (node.last_seen + millisecond * timeout_ms < now)
is_overdue_iff cfg timeout_ms now node e fits past recent =
    rw (e, scale_fits millisecond timeout_ms fits, time_sub_past now node.last_seen past recent)
      (ground arith)

-- A check that comes since a time, and less than 292 years later.
abbrev pub IsLater : Time → Action → Type 0
IsLater seen (tick now) = (seen ≤ now) × (now - seen < 2 ^ 63)
IsLater seen _ = Unit

-- Whether a check, if this is one, comes at most so many nanoseconds after a time.
abbrev pub is_within : Time → ℕ → Action → Bool
is_within seen timeout (tick now) = leb now (seen + timeout)
is_within seen timeout _ = true

is_timely-is_within :
    (cfg : NodeConfig) (timeout_ms : ℕ) (node : NodeInfo) (a : Action)
    → cfg.heartbeat_timeout ≡ pos timeout_ms
    → millisecond * timeout_ms < 2 ^ 63
    → IsLater node.last_seen a
    → is_timely cfg node a ≡ is_within node.last_seen (millisecond * timeout_ms) a
is_timely-is_within cfg timeout_ms node (tick now) e fits h =
    let overdue = is_overdue_iff cfg timeout_ms now node e fits h.0 h.1 in ground (arith, overdue)
is_timely-is_within cfg timeout_ms node (announced msg now) e fits h = refl
is_timely-is_within cfg timeout_ms node (beat hb now) e fits h = refl
is_timely-is_within cfg timeout_ms node (pulse accepted now) e fits h = refl

-- The times of the health checks since a node was seen, none of them 292 years later.
abbrev pub IsChecked : Time → List Action → Type 0
IsChecked seen actions = All (λ a. IsLater seen a) actions

-- Whether every check comes at most so many nanoseconds after a time.
abbrev pub all_within : Time → ℕ → List Action → Bool
all_within seen timeout [] = true
all_within seen timeout (a ∷ actions) = is_within seen timeout a && all_within seen timeout actions

all_timely-all_within :
    (cfg : NodeConfig) (timeout_ms : ℕ) (node : NodeInfo) (actions : List Action)
    → cfg.heartbeat_timeout ≡ pos timeout_ms
    → millisecond * timeout_ms < 2 ^ 63
    → IsChecked node.last_seen actions
    → all_timely cfg node actions ≡ all_within node.last_seen (millisecond * timeout_ms) actions
all_timely-all_within cfg timeout_ms node [] e fits h = refl
all_timely-all_within cfg timeout_ms node (a ∷ actions) e fits h =
    ap₂ ◌&&◌ (is_timely-is_within cfg timeout_ms node a e fits h.0)
      (all_timely-all_within cfg timeout_ms node actions e fits h.1)

-- A healthy node of which nothing more is heard stays healthy exactly as long as every health check
-- comes at most the timeout's milliseconds after the node was last seen; after one that comes later it
-- stays unhealthy. All else that is known of it is kept. The timeout fits a Duration, and no check comes
-- before the node was seen or 292 years later.
pub silent_node :
    (r : Registry) (k : String) (actions : List Action) (node : NodeInfo) (timeout_ms : ℕ)
    → lookup k r.nodes ≡ some node
    → node.healthy ≡ true
    → all_quiet k actions ≡ true
    → r.cfg.heartbeat_timeout ≡ pos timeout_ms
    → millisecond * timeout_ms < 2 ^ 63
    → IsChecked node.last_seen actions
    → lookup k (run actions r).nodes
      ≡ some
          (record node { healthy = all_within node.last_seen (millisecond * timeout_ms) actions })
silent_node r k actions node timeout_ms e up quiet timeout fits checked =
    lookup-run k actions r
    ∙ ap (observe_all r.cfg k actions) (e ∙ ground arith)
    ∙ observe_all-quiet r.cfg k actions node true quiet
    ∙ ap (λ b. some (record node { healthy = b }))
        (all_timely-all_within r.cfg timeout_ms node actions timeout fits checked)

-- A heartbeat of a known node revives it and changes nothing else but the time it was seen.
pub heartbeat_revives :
    (r : Registry) (hb : HeartbeatMessage) (now : Time) (node : NodeInfo)
    → lookup hb.node_id r.nodes ≡ some node
    → hb.timestamp ≢ 0
    → lookup hb.node_id (handle_heartbeat (some hb) now r).nodes
      ≡ some (record node { last_seen = hb.timestamp; healthy = true })
unfolding handle_heartbeat update_node
heartbeat_revives r hb now node e dated = rw (lookup-insert_self, e) (ground arith)

announce-healthy :
    (accepted : Bool) (now : Time) (r : Registry)
    → r.nodes ≡ []
    → healthy (announce accepted now r).0 ≡ accepted
unfolding announce healthy update_node lookup
announce-healthy true now r e = rw (lookup-insert_self r.cfg.id, healthy) refl
announce-healthy false now r e = rw (e, healthy) refl

abbrev pub map_created {ℓ κ} : {A : Type ℓ} {B : Type κ} → (A → B) → Construction A → Construction B
map_created f (created value) = created (f value)
map_created f not_subscribed = not_subscribed
map_created f panicked = panicked

-- Where the bus refuses a subscription there is an error, and else a new registry exactly if the
-- heartbeat interval is positive as a Duration, and a panic if it is not; the registry is healthy from
-- the start exactly if its first announcement goes out. If only the second subscription is refused, the
-- first stays in use although there is no registry.
pub new_registry_lem :
    (cfg : NodeConfig) (announces heartbeats accepted : Bool) (now : Time)
    → let r = new_registry cfg announces heartbeats accepted now in
      (map_created healthy r.0 ≡ (
        if not (announces && heartbeats)
        then not_subscribed
        else if is_ticking cfg
        then created accepted
        else panicked))
      × (announces ≡ true → heartbeats ≡ false → r.1 ≢ [])
unfolding new_registry subscribe
new_registry_lem cfg true true accepted now = elim (Bool-cases (is_ticking cfg)) [
  | inl ticking ↦ rw ticking (ap created (announce-healthy accepted now _ refl), λ a h. cc)
  | inr still ↦ rw still (refl, λ a h. cc)
]
new_registry_lem cfg true false accepted now = (refl, λ a h e. cc)
new_registry_lem cfg false heartbeats accepted now = (refl, λ a h. cc)
