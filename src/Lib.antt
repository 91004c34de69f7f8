-- ===== src/Lib.antt =====
-- A model of the Loqa runtime (Go). Loqa is a local voice assistant: devices send audio frames over a
-- NATS bus; the speech to text service turns the frames of a session into transcripts; the router
-- turns a final transcript into a prompt, and a final response into a request for speech; the
-- language model service answers prompts, and the speech synthesis service sends audio and a status
-- when it is done, which ends the router's session. Beside them stand the registry of nodes and their
-- capabilities, the host of WebAssembly skills, and the event store, in which the skills' audit trail
-- is kept.
--
-- Which file models what (paths from the repository's root):
--
--   Base        Go's notions: numbers, maps as association lists, float64, int64, time.
--   Protocol    internal/protocol/messages.go: the messages on the bus and their subjects.
--   Bus         what a service keeps of a subscription; Bus.Client is internal/bus/client.go, and
--               Bus.Server internal/natsserver/embedded.go.
--   Config      internal/config/config.go: Types (the structs), Defaults (Default), Values (the texts
--               of the environment), Loading (the overrides, applyEnvOverrides and Load), Validate
--               (validate). Accepted says which configurations pass, Settings names the variables,
--               Overrides says what each makes of its setting, Precedence what Load gives,
--               Decimal and Servers what the overrides read back.
--   Stt         internal/stt/service.go: the operations on a session under the mutex; Stt.World puts
--               handlers and goroutines together as a machine whose steps are the critical sections.
--               Stt.Recognizers is mock_recognizer.go and exec_recognizer.go.
--   Router      internal/router/service.go: handleTranscript, handleLLMResponse, handleTTSDone and
--               finishSession, Start and Close; its spans and latencies are logs of the state.
--   Llm         internal/llm/service.go, types.go and ollama.go: OptionsFromConfig, publishChunk,
--               and, in Llm.Ollama, modelForTier and the loop of Generate over the server's lines.
--               Llm.Local is mock.go and exec.go.
--   Tts         internal/tts/service.go, types.go and mock.go: the goroutine of a request as rounds of
--               its select, and publishChunk. Tts.Exec is exec.go.
--   Capability  internal/capability/registry.go: updateNode, evaluateHealth, Query, NewRegistry and
--               the handlers.
--   EventStore  internal/eventstore/store.go: Sql has the SQL statements as functions on two tables,
--               EventStore the methods of Store on them.
--   Skills      internal/skills: Package is manifest/manifest.go; addSkill, loadSkills, invoke and
--               appendAudit are service/service.go; host_publish and host_log are in
--               runtime/runtime.go, whose New, Load and Close are Skills.Modules. Skills.World puts
--               New, the handlers of the subscriptions and their goroutines together as a machine.
--               Skills.Guests is skills/examples, the timer and the smart home bridge.
--   Pipeline    a voice turn: the router, the language model service and the speech synthesis service
--               over the bus, each message handled by the subscriber of its subject.
--   Runtime     internal/runtime/runtime.go and telemetry.go: Start as a chain of the services' own
--               starts that ends with a value, an error or a panic, handleReady, and, in
--               Runtime.Shutdown, the order of the closes.
--   Command     cmd/loqad/main.go and cmd/loqa-skill/main.go: how the programs end.
--
-- How it is modelled. A service is a record of its fields, and of what it has handed to the bus. An
-- operation is a function on the record, a handler from its first line to its last; where goroutines
-- share state under a mutex, a step of the machine is one critical section, the scheduler's choice is
-- an argument of the step, and a run is a list of steps. What a library, a process, the network, the
-- disk or the clock do is an argument: a flag for whether a call works, a time for a reading of the
-- clock, the list of lines or channel events that arrive, the calls that a skill makes. No function
-- runs on fuel: every loop is over a list that is given, or is one step of a machine.
--
-- An int is a whole number, kept within 64 bits where the code computes with it (time.Duration of a
-- number of days or milliseconds, a chunk's sequence number); time.Time is a count of nanoseconds
-- since the zero time; a float64 is its bit pattern. A map is an association list without repeated
-- keys, and what the code does in the map's order is stated without regard to it.
--
-- What is not modelled: JSON and YAML (a message is what it decodes to, or none; the decoder of the
-- configuration is an argument), logging, the exporters of OpenTelemetry and Prometheus, HTTP beyond
-- the answer about readiness, the NATS library and its server (what they answer is an argument),
-- SQLite's storage of times (stored times compare as the times do), file paths, the processes of the
-- recognizer, the generator and the synthesizer that run a command (what they write is an argument),
-- wazero and the code that it runs, flags and signals of the commands, and strconv.ParseFloat.
pub mod Base
pub mod Protocol
pub mod Config
pub mod Bus
pub mod Capability
pub mod EventStore
pub mod Stt
pub mod Tts
pub mod Llm
pub mod Skills
pub mod Router
pub mod Pipeline
pub mod Runtime
pub mod Command
