-- ===== src/Bus.antt =====
-- What the services keep of their subscriptions to the bus: the fields *nats.Subscription of
-- internal/router/service.go, internal/tts/service.go and internal/llm/service.go.
pub mod Client
pub mod Server
use loqa_core.Base.{Bool, true, false}

-- A subscription field: nil, in use, or drained.
pub data Subscription : Type 0 where
  absent live drained : Subscription

-- `Drain` on a field that is not nil.
abbrev pub drain : Subscription → Subscription
drain absent = absent
drain _ = drained

abbrev pub is_set : Subscription → Bool
is_set absent = false
is_set _ = true
