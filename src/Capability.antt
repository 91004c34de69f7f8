-- ===== src/Capability.antt =====
-- internal/capability/registry.go: the registry of nodes. Its methods hold one lock from start to end,
-- so each is one function here; the two subscriptions' callbacks, the ticker loops and the callers
-- interleave whole methods. The loop over the Go map takes the entries in any order.
pub mod Nodes
pub mod Health
pub mod Queries
mod Examples
use mathlib.Core.List.{List, [], ◌∷◌, ◌++◌, map}
use loqa_core.Base.{
  ℕ, ◌+◌, String, append_text, ◌==◌, Bool, true, false, not, Option, none, some, Map, lookup,
  insert, update_all, Time, zero_time, time_sub, scale, millisecond, int_ltb, ℤ, pos, length, eqb,
  is_empty, if◌then◌else◌,
}
use loqa_core.Config.{NodeConfig, NodeCapability}

pub record Capability : Type 0 where
  pub name : String
  pub tier : String
  pub attributes : Map String

pub record NodeInfo : Type 0 where
  pub id : String
  pub role : String
  pub capabilities : List Capability
  pub last_seen : Time
  pub healthy : Bool

pub record AnnounceMessage : Type 0 where
  pub node_id : String
  pub role : String
  pub capabilities : List Capability
  pub timestamp : Time

pub record HeartbeatMessage : Type 0 where
  pub node_id : String
  pub timestamp : Time

abbrev pub Nodes : Type 0
Nodes = Map NodeInfo

-- What is handed to the bus: an announcement, or a heartbeat with its subject.
pub data Outgoing : Type 0 where
  announcement : AnnounceMessage → Outgoing
  heartbeat : String → HeartbeatMessage → Outgoing

pub record Registry : Type 0 where
  pub cfg : NodeConfig
  pub nodes : Nodes
  pub subs : List String
  pub cancelled : Bool
  pub sent : List Outgoing

unfoldable pub convert_capabilities : List NodeCapability → List Capability
convert_capabilities [] = []
convert_capabilities (cap ∷ source) =
    record { name = cap.name; tier = cap.tier; attributes = cap.attributes }
    ∷ convert_capabilities source

abbrev pub new_node : String → NodeInfo
new_node id = record {
  id = id;
  role = "";
  capabilities = [];
  last_seen = zero_time;
  healthy = false;
}

abbrev pub or_new : String → Option NodeInfo → NodeInfo
or_new id none = new_node id
or_new id (some node) = node

-- What a message says of a node; an empty role or list of capabilities says nothing.
abbrev pub updated : NodeInfo → String → List Capability → Time → Bool → NodeInfo
updated node role capabilities timestamp healthy = record {
  id = node.id;
  role = if role == "" then node.role else role;
  capabilities = if is_empty capabilities then node.capabilities else capabilities;
  last_seen = timestamp;
  healthy = healthy;
}

unfoldable pub update_node : String → String → List Capability → Time → Bool → Nodes → Nodes
update_node node_id role capabilities timestamp healthy nodes =
    insert node_id
      (updated (or_new node_id (lookup node_id nodes)) role capabilities timestamp healthy) nodes

abbrev pub or_now : Time → Time → Time
or_now timestamp now = if eqb timestamp zero_time then now else timestamp

-- A handler takes the decoded message, `none` for one that does not decode.
unfoldable pub handle_announce : Option AnnounceMessage → Time → Registry → Registry
handle_announce none now r = r
handle_announce (some msg) now r = record r {
  nodes = update_node msg.node_id msg.role msg.capabilities (or_now msg.timestamp now) true r.nodes;
}

unfoldable pub handle_heartbeat : Option HeartbeatMessage → Time → Registry → Registry
handle_heartbeat none now r = r
handle_heartbeat (some hb) now r = record r {
  nodes = update_node hb.node_id "" [] (or_now hb.timestamp now) true r.nodes;
}

abbrev pub announcement_of : NodeConfig → Time → AnnounceMessage
announcement_of cfg now = record {
  node_id = cfg.id;
  role = cfg.role;
  capabilities = convert_capabilities cfg.capabilities;
  timestamp = now;
}

-- The flag says whether the bus takes the message; the result is whether there was no error.
unfoldable pub announce : Bool → Time → Registry → Registry × Bool
announce accepted now r =
    if accepted
    then (
      record r {
        sent = announcement msg ∷ r.sent;
        nodes = update_node msg.node_id msg.role msg.capabilities msg.timestamp true r.nodes;
      },
      true,
    )
    else (r, false)
  where
    msg : AnnounceMessage
    msg = announcement_of r.cfg now

unfoldable pub publish_heartbeat : Bool → Time → Registry → Registry × Bool
publish_heartbeat accepted now r =
    if accepted
    then (
      record r {
        sent =
            heartbeat (append_text "ctrl.node.heartbeat." r.cfg.id)
              (record { node_id = r.cfg.id; timestamp = now })
            ∷ r.sent;
      },
      true,
    )
    else (r, false)

-- now.Sub(node.LastSeen) > timeout
abbrev pub is_overdue : NodeConfig → Time → NodeInfo → Bool
is_overdue cfg now node =
    int_ltb (scale millisecond cfg.heartbeat_timeout) (time_sub now node.last_seen)

unfoldable pub evaluate_health : Time → Registry → Registry
evaluate_health now r = record r {
  nodes =
      update_all
        (λ node. if is_overdue r.cfg now node then record node { healthy = false } else node)
        r.nodes;
}

unfoldable pub healthy : Registry → Bool
healthy r = elim (lookup r.cfg.id r.nodes) [ none ↦ false | some node ↦ node.healthy ]

-- The filter, `none` for nil.
abbrev pub accepts : Option (NodeInfo → Bool) → NodeInfo → Bool
accepts none node = true
accepts (some filter) node = filter node

unfoldable pub query : Option (NodeInfo → Bool) → Nodes → List NodeInfo
query filter [] = []
query filter ((id, node) ∷ nodes) =
    if accepts filter node then node ∷ query filter nodes else query filter nodes

-- The counts are int64, and a map has fewer entries than that.
unfoldable pub snapshot_counts : Nodes → ℕ × ℕ
snapshot_counts [] = (0, 0)
snapshot_counts ((id, node) ∷ nodes) =
    let (count, caps) = snapshot_counts nodes in (count + 1, caps + length node.capabilities)

unfoldable pub local_capabilities : Registry → List Capability
local_capabilities r = elim (lookup r.cfg.id r.nodes) [ none ↦ [] | some node ↦ node.capabilities ]

unfoldable pub any_capability : (Capability → Bool) → List Capability → Bool
any_capability test [] = false
any_capability test (cap ∷ caps) = if test cap then true else any_capability test caps

unfoldable pub with_capability_filter : String → NodeInfo → Bool
unfolding any_capability
with_capability_filter name node = any_capability (λ cap. cap.name == name) node.capabilities

unfoldable pub with_tier_filter : String → NodeInfo → Bool
unfolding any_capability
with_tier_filter tier node = any_capability (λ cap. cap.tier == tier) node.capabilities

-- `subscribe`: the subscriptions made, and whether there was no error.
unfoldable pub subscribe : Bool → Bool → List String × Bool
subscribe announces heartbeats =
    if not announces
    then ([], false)
    else if not heartbeats
    then ("ctrl.node.announce" ∷ [], false)
    else ("ctrl.node.announce" ∷ "ctrl.node.heartbeat.*" ∷ [], true)

-- Whether time.NewTicker takes the interval, as a Duration, instead of a panic.
abbrev pub is_ticking : NodeConfig → Bool
is_ticking cfg = int_ltb (pos 0) (scale millisecond cfg.heartbeat_interval)

-- What `NewRegistry` ends with: a registry, an error, or a panic.
pub data Construction {ℓ} (A : Type ℓ) : Type ℓ where
  created : A → Construction A
  not_subscribed panicked : Construction A

-- `NewRegistry`, where the flags say what the bus accepts. The subscriptions are also given where
-- there is no registry.
unfoldable pub new_registry :
    NodeConfig → Bool → Bool → Bool → Time → Construction Registry × List String
unfolding announce
new_registry cfg announces heartbeats accepted now =
    let (subs, subscribed) = subscribe announces heartbeats in
    if not subscribed
    then (not_subscribed, subs)
    else if is_ticking cfg
    then (
      created (
          (announce accepted now
            (record { cfg = cfg; nodes = []; subs = subs; cancelled = false; sent = [] })).0),
      subs,
    )
    else (panicked, subs)

-- `Close` drains the subscriptions.
unfoldable pub close : Registry → Registry
close r = record r { cancelled = true; subs = [] }

-- What the bus, the tickers and time can do to the registry.
pub data Action : Type 0 where
  announced : Option AnnounceMessage → Time → Action
  beat : Option HeartbeatMessage → Time → Action
  tick : Time → Action
  pulse : Bool → Time → Action

unfoldable pub step : Action → Registry → Registry
step (announced payload now) r = handle_announce payload now r
step (beat payload now) r = handle_heartbeat payload now r
step (tick now) r = evaluate_health now r
step (pulse accepted now) r = (publish_heartbeat accepted now r).0

unfoldable pub run : List Action → Registry → Registry
run [] r = r
run (a ∷ actions) r = run actions (step a r)
