-- ===== src/Runtime/Starting.antt =====
-- internal/runtime/runtime.go, Start, for configurations that internal/config/config.go, validate, accepts.
use loqa_core.Base.{◌≡◌, ◌≢◌, refl, true, arith, []}
use loqa_core.Config.{Config, BusConfig}
use loqa_core.Config.Accepted.{IsAccepted}
use loqa_core.Bus.Client.{connect}
use loqa_core.Capability.{is_ticking}
use loqa_core.Runtime.{
  gives, Outside, Runtime, setup_telemetry, connect_bus, start_registry, start_store, start_skills,
  start_speech_to_text, start_language_model, start_text_to_speech, start_voice_router, start,
}
use loqa_core.Bus.Client.{Client}
use loqa_core.Runtime.Answers.{IsOk, bind-IsOk, IsReachable, IsOpenBus, IsGoodDisk, HasWords}
use loqa_core.Runtime.Stages.{telemetry-IsOk, bus-IsOk, registry-IsOk, store-IsOk, skills-IsOk}
use loqa_core.Runtime.Services.{IsKnownMode, stt-IsOk, llm-IsOk, tts-IsOk, router-IsOk}
use loqa_core.Runtime.Started.{start-IsStarted}

-- A configuration that passes the checks, names a server of the bus, has a heartbeat interval that is
-- positive as a Duration and, where speech to text is enabled, a mode that the runtime knows, starts: if the exporters can be made, NATS connects and gives
-- its context, the bus takes every subscription, the database opens and the skills' directory can be
-- walked, and each command of a mode that runs one has a first word.
pub start-IsOk :
    (cfg : Config) (o : Outside)
    → IsAccepted cfg
    → cfg.bus.servers ≢ []
    → IsKnownMode cfg.stt
    → HasWords o cfg.stt.mode cfg.stt.command
    → HasWords o cfg.llm.mode cfg.llm.command
    → HasWords o cfg.tts.mode cfg.tts.command
    → IsReachable o
    → IsOpenBus o
    → is_ticking cfg.node ≡ true
    → IsGoodDisk o
    → IsOk (start cfg o)
unfolding start
start-IsOk cfg o accepted server known stt_words llm_words tts_words reach open_bus ticking disk =
    let (_, (_, (_, (_, (_, (_, (skills, (_, (llm, tts))))))))) = accepted in
    bind-IsOk (setup_telemetry cfg o.library) _ (telemetry-IsOk cfg o reach) λ telemetry.
      bind-IsOk (connect_bus cfg.bus o) _ (bus-IsOk cfg.bus o reach server) λ client.
        bind-IsOk (start_registry cfg.node o) _ (registry-IsOk cfg.node o open_bus ticking)
          λ registry.
            bind-IsOk (start_store cfg.event_store o) _ (store-IsOk cfg.event_store o disk) λ store.
              bind-IsOk (start_skills cfg.skills store o) _
                (skills-IsOk cfg.skills store o skills disk open_bus)
                λ skills_service.
                  bind-IsOk (start_speech_to_text cfg.stt o) _
                    (stt-IsOk cfg.stt o known stt_words open_bus)
                    λ stt.
                      bind-IsOk (start_language_model cfg.llm o) _
                        (llm-IsOk cfg.llm o llm llm_words open_bus)
                        λ llm_service.
                          bind-IsOk (start_text_to_speech cfg.tts o) _
                            (tts-IsOk cfg.tts o tts tts_words open_bus)
                            λ tts_service.
                              bind-IsOk (start_voice_router cfg.router o) _
                                (router-IsOk cfg.router o open_bus) λ router. (_, refl)

abbrev pub without_servers : Config → Config
without_servers cfg = record cfg { bus = record cfg.bus { servers = [] } }

no_client :
    (cfg : BusConfig) (o : Outside) (c : Client) → cfg.servers ≡ [] → connect_bus cfg o ≢ gives c
unfolding connect_bus connect
no_client cfg o c none_named e = ground (arith, none_named, e)

-- With the embedded bus, a configuration that passes the checks also does without servers of the bus,
-- as only its port is checked; but it never starts, whatever the answers from outside, since the
-- client needs a server there too.
pub without_servers-IsAccepted :
    (cfg : Config) (o : Outside) (r : Runtime)
    → IsAccepted cfg
    → cfg.bus.embedded ≡ true
    → IsAccepted (without_servers cfg) × (start (without_servers cfg) o ≢ gives r)
without_servers-IsAccepted cfg o r accepted embedded =
    let (name, (port, (bus, rest))) = accepted in
    (
      (name, (port, ((bus.0, λ off. absurd (ground (arith, off, embedded))), rest))),
      λ e.
          no_client (without_servers cfg).bus o r.bus_client refl
            (start-IsStarted (without_servers cfg) o r e).1,
    )
