-- ===== src/Command/Ending.antt =====
-- cmd/loqad/main.go and cmd/loqa-skill/main.go: the exit codes, and what is left of the server.
use loqa_core.Base.{
  ℕ, ◌≡◌, ◌↔◌, ◌⊎◌, refl, sym, subst, ◌∙◌, inl, inr, arith, String, ◌==◌, eq_iff, Bool, true, false,
  ◌&&◌, Option, none, some, some-eq, List, ◌∷◌, Bool-cases, if_all, if◌then◌else◌,
}
use loqa_core.Config.{Config, BusConfig}
use loqa_core.Bus.Server.{
  Launch, Launched, not_wanted, serving, failed, start as start_server,
  shutdown as shut_server_down, is_running, create, await_ready,
}
use loqa_core.Runtime.{Outside, Runtime, Outcome, gives, fails, panics, start as start_runtime}
use loqa_core.Skills.Package.{Manifest, validate}
use loqa_core.Command.{
  Exit, loqad, after_launch, run_runtime, run_validate, loqa_skill, Manifests, exit_code,
  run_parsed, validated,
}

-- The server of a launch that worked, and what happened to it.
abbrev IsServing : Launched → Type 0
IsServing not_wanted = Unit
IsServing (serving events) =
    (is_running events ≡ true) × (is_running (shut_server_down (serving events)) ≡ false)
IsServing (failed events message) = is_running events ≡ false

start_server-IsServing : (cfg : BusConfig) (launch : Launch) → IsServing (start_server cfg launch)
unfolding start_server shut_server_down
start_server-IsServing cfg launch =
    if_all IsServing cfg.embedded (λ on. created launch.create_error) λ off. tt
  where
    awaited_ready : (ready : Bool) → IsServing (await_ready cfg.port ready)
    awaited_ready true = (refl, refl)
    awaited_ready false = refl

    created : (error : Option String) → IsServing (create cfg.port launch.ready error)
    created none = awaited_ready launch.ready
    created (some message) = refl

-- Whether a launch gave a server.
abbrev pub has_server : Launched → Bool
has_server (serving events) = true
has_server other = false

abbrev pub is_failed : Launched → Bool
is_failed (failed events message) = true
is_failed other = false

abbrev pub is_err {ℓ} : {A : Type ℓ} → Outcome A → Bool
is_err (gives a) = false
is_err (fails message) = true
is_err panics = false

-- The exit code for what Start ends with.
abbrev pub code_of {ℓ} : {A : Type ℓ} → Outcome A → ℕ
code_of (gives a) = 0
code_of (fails message) = 1
code_of panics = 2

-- How a program ends: with an exit code, and with its server running or not.
abbrev pub Ends : Exit → ℕ → Bool → Type 0
Ends x code running = (x.code ≡ code) × (is_running x.server ≡ running)

run_runtime-Ends :
    (server : Launched) (begun : Outcome Runtime)
    → IsServing server
    → Ends (run_runtime server begun) (code_of begun) (has_server server && is_err begun)
unfolding shut_server_down
run_runtime-Ends not_wanted (gives r) h = (refl, refl)
run_runtime-Ends not_wanted (fails message) h = (refl, refl)
run_runtime-Ends not_wanted panics h = (refl, refl)
run_runtime-Ends (serving events) panics h = (refl, h.1)
run_runtime-Ends (failed events message) panics h = (refl, h)
run_runtime-Ends (serving events) (gives r) h = (refl, h.1)
run_runtime-Ends (serving events) (fails message) h = (refl, h.0)
run_runtime-Ends (failed events message) (gives r) h = (refl, h)
run_runtime-Ends (failed events message) (fails other) h = (refl, h)

after_launch-Ends :
    (cfg : Config) (o : Outside) (server : Launched)
    → IsServing server
    → Ends
        (after_launch cfg o server)
        (if is_failed server then 1 else code_of (start_runtime cfg o))
        (has_server server && is_err (start_runtime cfg o))
after_launch-Ends cfg o not_wanted h = run_runtime-Ends not_wanted (start_runtime cfg o) h
after_launch-Ends cfg o (serving events) h =
    run_runtime-Ends (serving events) (start_runtime cfg o) h
after_launch-Ends cfg o (failed events message) h = (refl, h)

-- Once its configuration is loaded, loqad ends with code 1 if the embedded server cannot be launched or
-- the runtime's start gives an error, with 2 if the start panics, and else with 0. It ends without the
-- shutdown of a started server exactly if that serves and the start gives an error, as os.Exit runs no
-- deferred call.
pub loqad_lem :
    (cfg : Config) (launch : Launch) (o : Outside)
    → let server = start_server cfg.bus launch in
      let begun = start_runtime cfg o in
      Ends
        (loqad false (cfg, none) launch o)
        (if is_failed server then 1 else code_of begun)
        (has_server server && is_err begun)
unfolding loqad
loqad_lem cfg launch o =
    after_launch-Ends cfg o (start_server cfg.bus launch) (start_server-IsServing cfg.bus launch)

abbrev pub IsValidated : Manifests → Option String → Type 0
IsValidated load parsed =
    (path : String) × (m : Manifest) × (parsed ≡ some path)
    × (load path ≡ inr m)
    × (validate m ≡ none)

exit_code_lem : (error : Option String) → exit_code error ≡ 0 → error ≡ none
exit_code_lem none h = refl
exit_code_lem (some message) h = absurd (omega (arith, h))

validated_lem :
    (read : String ⊎ Manifest)
    → exit_code (validated read) ≡ 0
    → (m : Manifest) × (read ≡ inr m) × (validate m ≡ none)
validated_lem (inr m) h = (m, refl, exit_code_lem (validate m) h)
validated_lem (inl message) h = absurd (omega (arith, h))

run_parsed_lem :
    (load : Manifests) (parsed : Option String)
    → (run_parsed load parsed ≡ 0) ↔ IsValidated load parsed
unfolding run_validate
run_parsed_lem load none =
    (λ h. absurd (omega (arith, h)), λ (path, m, e, read, valid). absurd (ground (arith, e)))
run_parsed_lem load (some path) = (
  λ h. let (m, e, valid) = validated_lem (load path) h in (path, m, refl, e, valid),
  λ (other, m, same, e, valid).
      subst (λ p. exit_code (validated (load p)) ≡ 0) (sym (some-eq same)) (rw (e, valid) refl),
)

-- loqa-skill ends with code 0 exactly if it is asked for its version, or to validate a file whose
-- manifest is read and passes the checks.
pub loqa_skill_lem :
    (load : Manifests) (parse : List String → Option String) (command : String) (rest : List String)
    → (loqa_skill load parse (command ∷ rest) ≡ 0)
      ↔ ((command ≡ "version") ⊎ ((command ≡ "validate") × IsValidated load (parse rest)))
unfolding loqa_skill
loqa_skill_lem load parse command rest = elim (Bool-cases (command == "validate")) [
  | inl is ↦
      let same = (eq_iff command "validate").0 is in
      rw is (
        λ h. inr (same, (run_parsed_lem load (parse rest)).0 h),
        λ h. elim h [
          | inl other ↦ absurd (ground (arith, sym same ∙ other, eq_iff "validate" "version"))
          | inr found ↦ (run_parsed_lem load (parse rest)).1 found.1
        ],
      )
  | inr differs ↦ rw differs (
    λ h. inl (ground (arith, h, eq_iff command "version")),
    λ h. elim h [
      | inl is ↦ ground (arith, is, eq_iff command "version")
      | inr found ↦ absurd (ground (arith, differs, found.0, eq_iff command "validate"))
    ],
  )
]
