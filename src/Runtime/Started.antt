-- ===== src/Runtime/Started.antt =====
-- internal/runtime/runtime.go, Start: what a start that succeeds has started.
use loqa_core.Base.{◌≡◌, ◌≢◌, refl, ap, subst, true, String}
use loqa_core.Config.{Config}
use loqa_core.Runtime.{
  Outcome, gives, fails, panics, ◌>>=◌, Outside, Runtime, setup_telemetry, connect_bus,
  start_registry, start_store, start_skills, start_speech_to_text, start_language_model,
  start_text_to_speech, start_voice_router, start,
}

abbrev pub value_of {ℓ} : {A : Type ℓ} → A → Outcome A → A
value_of other (gives a) = a
value_of other (fails message) = other
value_of other panics = other

pub gives-eq {ℓ} : {A : Type ℓ} {a b : A} → gives a ≡ gives b → a ≡ b
gives-eq {a} e = ap (value_of a) e

pub fails-ne-gives {ℓ} : {A : Type ℓ} {message : String} {a : A} → fails message ≢ gives a
fails-ne-gives e = cc

pub panics-ne-gives {ℓ} : {A : Type ℓ} {a : A} → panics ≢ gives a
panics-ne-gives e = cc

-- A chain that gives a value: its first step did, and so did the rest on that.
pub bind_ok {ℓ κ} :
    {A : Type ℓ} {B : Type κ} (m : Outcome A) (f : A → Outcome B) {b : B}
    → (m >>= f) ≡ gives b
    → (a : A) × (m ≡ gives a) × (f a ≡ gives b)
bind_ok (gives a) f e = (a, refl, e)
bind_ok (fails message) f e = absurd (fails-ne-gives e)
bind_ok panics f e = absurd (panics-ne-gives e)

-- What each part of a runtime comes from.
abbrev pub IsStarted : Config → Outside → Runtime → Type 0
IsStarted cfg o r =
    (setup_telemetry cfg o.library ≡ gives r.telemetry)
    × (connect_bus cfg.bus o ≡ gives r.bus_client)
    × (start_registry cfg.node o ≡ gives r.registry)
    × (start_store cfg.event_store o ≡ gives r.event_store)
    × (start_skills cfg.skills r.event_store o ≡ gives r.skills_service)
    × (start_speech_to_text cfg.stt o ≡ gives r.stt_service)
    × (start_language_model cfg.llm o ≡ gives r.llm_service)
    × (start_text_to_speech cfg.tts o ≡ gives r.tts_service)
    × (start_voice_router cfg.router o ≡ gives r.router_service)
    × (r.ready ≡ true)

pub start-IsStarted :
    (cfg : Config) (o : Outside) (r : Runtime) → start cfg o ≡ gives r → IsStarted cfg o r
unfolding start
start-IsStarted cfg o r e =
    let (a, ea, e1) = bind_ok _ _ e in
    let (b, eb, e2) = bind_ok _ _ e1 in
    let (c, ec, e3) = bind_ok _ _ e2 in
    let (d, ed, e4) = bind_ok _ _ e3 in
    let (f, ef, e5) = bind_ok _ _ e4 in
    let (g, eg, e6) = bind_ok _ _ e5 in
    let (h, eh, e7) = bind_ok _ _ e6 in
    let (k, ek, e8) = bind_ok _ _ e7 in
    let (l, el, e9) = bind_ok _ _ e8 in
    subst (IsStarted cfg o) (gives-eq e9) (ea, eb, ec, ed, ef, eg, eh, ek, el, refl)
