-- ===== src/Command.antt =====
-- cmd/loqad/main.go and cmd/loqa-skill/main.go: how the two programs end. What the flag library makes of
-- the arguments is an argument, and what is printed is left out.
pub mod Ending
mod Examples
use loqa_core.Base.{
  ℕ, String, ◌==◌, Bool, true, false, Option, none, some, List, [], ◌∷◌, ◌⊎◌, inl, inr,
  if◌then◌else◌,
}
use loqa_core.Config.{Config}
use loqa_core.Config.Loading.{Loaded}
use loqa_core.Bus.Server.{
  ServerEvent, Launch, Launched, not_wanted, serving, failed, start as start_server,
  shutdown as shut_server_down,
}
use loqa_core.Runtime.{Outside, Runtime, Outcome, gives, fails, panics, start as start_runtime}
use loqa_core.Skills.Package.{Manifest, validate}

-- The exit code, and what was done to the embedded server.
pub record Exit : Type 0 where
  pub code : ℕ
  pub server : List ServerEvent

-- The events of the server so far: os.Exit runs no deferred call. A panic does, and then ends with 2.
abbrev pub server_events : Launched → List ServerEvent
server_events not_wanted = []
server_events (serving events) = events
server_events (failed events message) = events

abbrev pub run_runtime : Launched → Outcome Runtime → Exit
run_runtime server (gives r) = record { code = 0; server = shut_server_down server }
run_runtime server (fails message) = record { code = 1; server = server_events server }
run_runtime server panics = record { code = 2; server = shut_server_down server }

abbrev pub after_launch : Config → Outside → Launched → Exit
after_launch cfg o (failed events message) = record { code = 1; server = events }
after_launch cfg o server = run_runtime server (start_runtime cfg o)

abbrev pub after_load : Launch → Outside → Loaded → Exit
after_load launch o (cfg, some message) = record { code = 1; server = [] }
after_load launch o (cfg, none) = after_launch cfg o (start_server cfg.bus launch)

-- main of loqad, whose runtime serves until a signal ends its context.
unfoldable pub loqad : Bool → Loaded → Launch → Outside → Exit
loqad shows_version loaded launch o =
    if shows_version then record { code = 0; server = [] } else after_load launch o loaded

-- What the file of a manifest decodes to, or the error.
abbrev pub Manifests : Type 0
Manifests = String → String ⊎ Manifest

abbrev pub validated : String ⊎ Manifest → Option String
validated (inl message) = some message
validated (inr m) = validate m

unfoldable pub run_validate : Manifests → String → Option String
run_validate load path = validated (load path)

abbrev pub exit_code : Option String → ℕ
exit_code none = 0
exit_code (some message) = 1

-- The path that `validate`'s own arguments name; none where they do not parse, which ends the program.
abbrev pub run_parsed : Manifests → Option String → ℕ
run_parsed load none = 2
run_parsed load (some path) = exit_code (run_validate load path)

-- main of loqa-skill, on the arguments behind the program's name.
unfoldable pub loqa_skill : Manifests → (List String → Option String) → List String → ℕ
loqa_skill load parse [] = 2
loqa_skill load parse (command ∷ rest) =
    if command == "validate"
    then run_parsed load (parse rest)
    else if command == "version"
    then 0
    else 2
