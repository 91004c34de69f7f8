-- ===== src/Bus/Client.antt =====
-- internal/bus/client.go. The NATS library answers whether it connects and gives a JetStream context; a
-- client is the log of what was done to its connection.
use loqa_core.Base.{
  String, append_text, ◌==◌, Bool, true, false, not, ◌||◌, Option, none, some, List, [], ◌∷◌, ◌++◌,
  ℤ, is_empty, scale, millisecond, if◌then◌else◌,
}
use loqa_core.Config.{BusConfig}

-- nats.Option.
pub data ConnectOption : Type 0 where
  name : String → ConnectOption
  timeout : ℤ → ConnectOption
  user_info : String → String → ConnectOption
  token : String → ConnectOption
  insecure_tls : ConnectOption

abbrev pub when : Bool → ConnectOption → List ConnectOption
when true item = item ∷ []
when false item = []

unfoldable pub connect_options : BusConfig → List ConnectOption
unfolding scale
connect_options cfg =
    name "loqa-runtime"
    ∷ timeout (scale millisecond cfg.connect_timeout)
    ∷ (when (not (cfg.username == "") || not (cfg.password == ""))
          (user_info cfg.username cfg.password)
        ++ when (not (cfg.token == "")) (token cfg.token)
        ++ when cfg.tls_insecure insecure_tls)

abbrev pub server_url : List String → String
server_url [] = ""
server_url (server ∷ []) = server
server_url (server ∷ other ∷ servers) =
    append_text server (append_text "," (server_url (other ∷ servers)))

-- What happens to a connection.
pub data ConnectionEvent : Type 0 where
  connected : String → List ConnectOption → ConnectionEvent
  drained : ConnectionEvent
  closed : ConnectionEvent

-- What the NATS library answers.
pub record Nats : Type 0 where
  pub connect_error : Option String
  pub jetstream_error : Option String

pub record Client : Type 0 where
  pub events : List ConnectionEvent

-- The events of the call, and the client or the error.
pub data Connected : Type 0 where
  client : Client → Connected
  refused : List ConnectionEvent → String → Connected

abbrev pub with_jetstream : ConnectionEvent → Option String → Connected
with_jetstream opening none = client (record { events = opening ∷ [] })
with_jetstream opening (some message) =
    refused (opening ∷ closed ∷ []) (append_text "create jetstream context: " message)

unfoldable pub connect : BusConfig → Nats → Connected
connect cfg nats =
    if is_empty cfg.servers
    then refused [] "no NATS servers configured"
    else elim nats.connect_error [
      | none ↦
          with_jetstream (connected (server_url cfg.servers) (connect_options cfg))
            nats.jetstream_error
      | some message ↦ refused [] (append_text "connect to nats: " message)
    ]

unfoldable pub close : Client → Client
close c = record c { events = c.events ++ drained ∷ closed ∷ [] }

-- The connection's status is CONNECTED, as long as nothing breaks it.
abbrev pub is_connected : Bool → List ConnectionEvent → Bool
is_connected status [] = status
is_connected status (connected url options ∷ events) = is_connected true events
is_connected status (drained ∷ events) = is_connected false events
is_connected status (closed ∷ events) = is_connected false events

unfoldable pub healthy : Client → Bool
healthy c = is_connected false c.events
