-- ===== src/Skills/Allowed.antt =====
-- skills/examples under internal/skills/service/service.go, invoke: what the example skills publish.
use loqa_core.Base.{
  ◌≡◌, refl, String, append_text, ◌==◌, true, false, ◌||◌, Option, none, some, List, [], ◌∷◌, ◌++◌,
  All, All-append, pos, int_leb, if◌then◌else◌, if_all, inl, inr, Bool-cases,
}
use loqa_core.Skills.{binding_of, allow_publish}
use loqa_core.Skills.Package.{Manifest, validate}
use loqa_core.Skills.Guests.{
  TimerRequest, Intent, GuestCall, logs, publishes, GuestMessage, timer_status, speech_text,
  run_timer, label_or_timer, seconds_of, handle_start, timer_run, when_blank, forward,
  smart_home_run, timer_manifest, smart_home_manifest,
}

-- A call that the host does not refuse a skill with this manifest.
abbrev pub IsAllowed : Manifest → GuestCall → Type 0
IsAllowed m logs = Unit
IsAllowed m (publishes subject message) = allow_publish (binding_of m) subject ≡ true

handle_start-IsAllowed :
    (decode : String → Option TimerRequest) (payload : String)
    → All (IsAllowed timer_manifest) (handle_start decode payload)
unfolding handle_start allow_publish
handle_start-IsAllowed decode payload =
    if_all (All (IsAllowed timer_manifest)) (payload == "") (λ blank. (tt, tt))
      λ there. started (decode payload)
  where
    started :
        (read : Option TimerRequest)
        → All (IsAllowed timer_manifest) (elim read [
          | none ↦ logs ∷ []
          | some req ↦
              if int_leb req.duration_ms (pos 0)
              then logs ∷ []
              else run_timer (label_or_timer req.label) req.duration_ms
        ])
    started none = (tt, tt)
    started (some req) =
        if_all (All (IsAllowed timer_manifest)) (int_leb req.duration_ms (pos 0)) (λ f. (tt, tt))
          λ f. (refl, (tt, (refl, (tt, (refl, tt)))))

timer_run-IsAllowed :
    (decode : String → Option TimerRequest) (subject payload : String)
    → All (IsAllowed timer_manifest) (timer_run decode subject payload)
unfolding timer_run
timer_run-IsAllowed decode subject payload = (
  tt,
  if_all (All (IsAllowed timer_manifest)) (subject == "skill.timer.start")
      (λ is. handle_start-IsAllowed decode payload) (λ other. (tt, tt)),
)

when_blank-IsAllowed : (value : String) → All (IsAllowed smart_home_manifest) (when_blank value)
when_blank-IsAllowed value =
    if_all (All (IsAllowed smart_home_manifest)) (value == "") (λ e. (tt, tt)) (λ e. tt)

forward-IsAllowed : (read : Option Intent) → All (IsAllowed smart_home_manifest) (forward read)
unfolding forward allow_publish
forward-IsAllowed none = (tt, tt)
forward-IsAllowed (some cmd) =
    if_all (All (IsAllowed smart_home_manifest)) ((cmd.action == "") || (cmd.device == ""))
      (λ e. (tt, tt)) (λ e. (tt, (tt, (tt, (refl, tt)))))

payload-IsAllowed :
    (decode : String → Option Intent) (payload : String)
    → All
        (IsAllowed smart_home_manifest)
        (if payload == "" then logs ∷ [] else forward (decode payload))
payload-IsAllowed decode payload =
    if_all (All (IsAllowed smart_home_manifest)) (payload == "") (λ e. (tt, tt))
      λ e. forward-IsAllowed (decode payload)

smart_home_run-IsAllowed :
    (decode : String → Option Intent) (endpoint token payload : String)
    → All (IsAllowed smart_home_manifest) (smart_home_run decode endpoint token payload)
unfolding smart_home_run
smart_home_run-IsAllowed decode endpoint token payload = (
  tt,
  All-append (IsAllowed smart_home_manifest) (when_blank endpoint ++ when_blank token) _
      (All-append (IsAllowed smart_home_manifest) (when_blank endpoint) (when_blank token)
        (when_blank-IsAllowed endpoint) (when_blank-IsAllowed token))
      (payload-IsAllowed decode payload),
)

-- The manifests of the timer and of the smart home bridge pass the checks, and with them the host refuses
-- nothing that these skills publish, whatever their environment.
pub guests-IsAllowed :
    (decode : String → Option TimerRequest) (decode_intent : String → Option Intent)
    (subject endpoint token payload : String)
    → (validate timer_manifest ≡ none)
      × (validate smart_home_manifest ≡ none)
      × All (IsAllowed timer_manifest) (timer_run decode subject payload)
      × All (IsAllowed smart_home_manifest) (smart_home_run decode_intent endpoint token payload)
unfolding validate
guests-IsAllowed decode decode_intent subject endpoint token payload = (
  refl,
  refl,
  timer_run-IsAllowed decode subject payload,
  smart_home_run-IsAllowed decode_intent endpoint token payload,
)

abbrev pub published : List GuestCall → List (String × GuestMessage)
published [] = []
published (logs ∷ calls) = published calls
published (publishes subject message ∷ calls) = (subject, message) ∷ published calls

-- A timer whose request decodes, with a positive duration, reports its start with the whole seconds of the
-- duration, then its completion, and then asks for speech; and a timer without that publishes nothing.
pub timer_run_lem :
    (decode : String → Option TimerRequest) (req : TimerRequest) (payload : String)
    → (payload == "") ≡ false
    → decode payload ≡ some req
    → let label = label_or_timer req.label in
      published (timer_run decode "skill.timer.start" payload) ≡ (
        if int_leb req.duration_ms (pos 0)
        then []
        else ("skill.timer.status", timer_status label "started" (seconds_of req.duration_ms))
          ∷ ("skill.timer.status", timer_status label "completed" (pos 0))
          ∷ ("tts.request", speech_text (append_text label " timer complete"))
          ∷ [])
unfolding timer_run handle_start
timer_run_lem decode req payload there e = elim (Bool-cases (int_leb req.duration_ms (pos 0))) [
  | inl never ↦ rw (there, e, never) refl
  | inr fine ↦ rw (there, e, fine) refl
]
