-- ===== src/Bus/Server.antt =====
-- internal/natsserver/embedded.go. The NATS server library answers whether it makes a server and whether
-- that is ready in five seconds; a server is the log of what was done to it.
use loqa_core.Base.{
  String, append_text, Bool, true, false, Option, none, some, List, [], ◌∷◌, ◌++◌, ℤ, if◌then◌else◌,
}
use loqa_core.Config.{BusConfig}

pub data ServerEvent : Type 0 where
  started : ℤ → ServerEvent
  shut_down : ServerEvent
  awaited : ServerEvent

-- server.NewServer's error, and ReadyForConnections.
pub record Launch : Type 0 where
  pub create_error : Option String
  pub ready : Bool

-- No server where none is wanted, a server, or the error.
pub data Launched : Type 0 where
  not_wanted : Launched
  serving : List ServerEvent → Launched
  failed : List ServerEvent → String → Launched

abbrev pub await_ready : ℤ → Bool → Launched
await_ready port true = serving (started port ∷ [])
await_ready port false =
    failed (started port ∷ shut_down ∷ []) "embedded NATS server failed to start within 5 seconds"

abbrev pub create : ℤ → Bool → Option String → Launched
create port ready none = await_ready port ready
create port ready (some message) = failed [] (append_text "create embedded NATS server: " message)

unfoldable pub start : BusConfig → Launch → Launched
start cfg launch =
    if cfg.embedded then create cfg.port launch.ready launch.create_error else not_wanted

-- Shutdown, on the pointer that Start gave.
unfoldable pub shutdown : Launched → List ServerEvent
shutdown not_wanted = []
shutdown (serving events) = events ++ shut_down ∷ awaited ∷ []
shutdown (failed events message) = events

abbrev is_running_from : Bool → List ServerEvent → Bool
is_running_from running [] = running
is_running_from running (started port ∷ events) = is_running_from true events
is_running_from running (shut_down ∷ events) = is_running_from false events
is_running_from running (awaited ∷ events) = is_running_from running events

-- Started, and not shut down since. The end of the process is no event.
abbrev pub is_running : List ServerEvent → Bool
is_running events = is_running_from false events
