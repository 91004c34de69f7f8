-- ===== src/Runtime/Healthy.antt =====
-- internal/runtime/runtime.go, Start: each part is healthy when its start has succeeded.
use loqa_core.Base.{
  ◌≡◌, refl, sym, ap, subst, ◌∙◌, Bool, true, false, not, ◌&&◌, Bool-cases, inl, inr, Option, none,
  some, arith, if◌then◌else◌, String, ◌==◌, List, [], Map, Option-cases, if_all, if_true, if_false,
}
use loqa_core.Config.{
  NodeConfig, BusConfig, SkillsConfig, SttConfig, LlmConfig, TtsConfig, RouterConfig,
}
use loqa_core.Bus.Client.{Client, connect, healthy as client_healthy}
use loqa_core.Capability.{
  Registry, Construction, created, not_subscribed, panicked, is_ticking,
  healthy as registry_healthy,
}
use loqa_core.Capability.Health.{new_registry_lem, map_created}
use loqa_core.EventStore.{Store}
use loqa_core.Skills.World.{
  Service as SkillService, Started as SkillsStarted, service, disabled, failed,
  new_service as new_skills, subscribed, subjects, register_subscriptions,
}
use loqa_core.Skills.{Binding, Host, load_skills}
use loqa_core.Skills.Package.{Manifest}
use loqa_core.Stt.World.{Service as SttService, start as start_stt, healthy as stt_healthy}
use loqa_core.Llm.{Service as LlmService, start as start_llm, healthy as llm_healthy}
use loqa_core.Tts.{Service as TtsService, start as start_tts, healthy as tts_healthy}
use loqa_core.Router.{Service as RouterService, start as start_router, healthy as router_healthy}
use loqa_core.Runtime.{
  Outcome, gives, ◌>>=◌, Outside, Backend, connect_bus, start_registry, registry_result,
  start_skills, skills_result, start_speech_to_text, start_language_model, start_text_to_speech,
  start_voice_router, or_fail, nil_or, where_enabled, if_started,
}
use loqa_core.Runtime.Started.{gives-eq, fails-ne-gives, panics-ne-gives, bind_ok}

pub client-healthy :
    (cfg : BusConfig) (o : Outside) (c : Client)
    → connect_bus cfg o ≡ gives c
    → client_healthy c ≡ true
unfolding connect_bus connect client_healthy
client-healthy cfg o c e = ground (arith, e)

or_fail-gives {ℓ} :
    {A : Type ℓ} (message : String) (found : Option A) {a : A}
    → or_fail message found ≡ gives a
    → found ≡ some a
or_fail-gives message none e = absurd (fails-ne-gives e)
or_fail-gives message (some b) e = ap some (gives-eq e)

registry_result-gives :
    (made : Construction Registry) {g : Registry}
    → registry_result made ≡ gives g
    → made ≡ created g
registry_result-gives (created registry) e = ap created (gives-eq e)
registry_result-gives not_subscribed e = absurd (fails-ne-gives e)
registry_result-gives panicked e = absurd (panics-ne-gives e)

pub registry-healthy :
    (cfg : NodeConfig) (o : Outside) (g : Registry)
    → start_registry cfg o ≡ gives g
    → registry_healthy g ≡ o.takes_announcement
unfolding start_registry
registry-healthy cfg o g e =
    let told =
      (new_registry_lem cfg o.takes_announces o.takes_heartbeats o.takes_announcement o.now).0 in
    announced (o.takes_announces && o.takes_heartbeats) (is_ticking cfg)
      (sym (ap (map_created registry_healthy) (registry_result-gives _ e)) ∙ told)
  where
    announced :
        {a b : Bool} (both ticking : Bool)
        → created a ≡ (if not both then not_subscribed else if ticking then created b else panicked)
        → a ≡ b
    announced true true e = cc
    announced true false e = absurd (ground (arith, e))
    announced false ticking e = absurd (ground (arith, e))

-- A part that is there where it is enabled, and then passes a test.
abbrev pub IsSound {ℓ} : {A : Type ℓ} → Bool → (A → Bool) → Option A → Type 0
IsSound enabled test none = enabled ≡ false
IsSound enabled test (some value) = (enabled ≡ true) × (test value ≡ true)

pub sound-nil_or {ℓ} :
    {A : Type ℓ} (enabled : Bool) (test : A → Bool) (part : Option A)
    → IsSound enabled test part
    → nil_or test part ≡ true
sound-nil_or enabled test none h = refl
sound-nil_or enabled test (some value) h = h.1

where_enabled-IsSound {ℓ} :
    {A : Type ℓ} (enabled : Bool) (test : A → Bool) (made : Outcome A) (part : Option A)
    → ((a : A) → enabled ≡ true → made ≡ gives a → test a ≡ true)
    → where_enabled enabled made ≡ gives part
    → IsSound enabled test part
where_enabled-IsSound false test made part h e = subst (IsSound false test) (gives-eq e) refl
where_enabled-IsSound true test made part h e =
    let (a, ea, e1) = bind_ok made _ e in
    subst (IsSound true test) (gives-eq e1) (refl, h a refl ea)

if_started-gives {ℓ} :
    {A : Type ℓ} (message : String) (p : A × Bool) {a : A}
    → if_started message p ≡ gives a
    → (p.1 ≡ true) × (p.0 ≡ a)
if_started-gives message (b, true) e = (refl, gives-eq e)
if_started-gives message (b, false) e = absurd (fails-ne-gives e)

stt-started :
    (accepted : Bool) (s : SttService)
    → (start_stt accepted s).1 ≡ true
    → stt_healthy (start_stt accepted s).0 ≡ true
unfolding start_stt stt_healthy
stt-started accepted s e = ground (arith, e)

llm-started :
    (accepted : Bool) (s : LlmService)
    → (start_llm accepted s).1 ≡ true
    → llm_healthy (start_llm accepted s).0 ≡ true
unfolding start_llm llm_healthy
llm-started accepted s e = ground (arith, e)

tts-started :
    (accepted : Bool) (s : TtsService)
    → (start_tts accepted s).1 ≡ true
    → tts_healthy (start_tts accepted s).0 ≡ true
unfolding start_tts tts_healthy
tts-started accepted s e = ground (arith, e)

router-started :
    (transcripts responses status : Bool) (s : RouterService)
    → (start_router transcripts responses status s).1 ≡ true
    → router_healthy (start_router transcripts responses status s).0 ≡ true
unfolding start_router router_healthy
router-started transcripts responses status s e = ground (arith, e)

-- A service behind its backend.
backed-IsSound {ℓ} :
    {A : Type ℓ} (enabled : Bool) (test : A → Bool) (message : String) (backend : Outcome Backend)
    (begun : A × Bool) (part : Option (Backend × A))
    → (begun.1 ≡ true → test begun.0 ≡ true)
    → where_enabled enabled (backend >>= λ b. if_started message begun >>= λ s. gives (b, s))
      ≡ gives part
    → IsSound enabled (λ s. test s.1) part
backed-IsSound enabled test message backend begun part h =
    where_enabled-IsSound enabled _ _ part λ s on made.
      let (b, eb, e1) = bind_ok backend _ made in
      let (t, et, e2) = bind_ok (if_started message begun) _ e1 in
      let (good, same) = if_started-gives message begun et in
      subst (λ v. test v.1 ≡ true) (gives-eq e2) (subst (λ v. test v ≡ true) same (h good))

pub stt-IsSound :
    (cfg : SttConfig) (o : Outside) (part : Option (Backend × SttService))
    → start_speech_to_text cfg o ≡ gives part
    → IsSound cfg.enabled (λ s. stt_healthy s.1) part
unfolding start_speech_to_text
stt-IsSound cfg o part =
    backed-IsSound cfg.enabled stt_healthy _ _ _ part (stt-started o.takes_frames _)

pub llm-IsSound :
    (cfg : LlmConfig) (o : Outside) (part : Option (Backend × LlmService))
    → start_language_model cfg o ≡ gives part
    → IsSound cfg.enabled (λ s. llm_healthy s.1) part
unfolding start_language_model
llm-IsSound cfg o part =
    backed-IsSound cfg.enabled llm_healthy _ _ _ part (llm-started o.takes_requests _)

pub tts-IsSound :
    (cfg : TtsConfig) (o : Outside) (part : Option (Backend × TtsService))
    → start_text_to_speech cfg o ≡ gives part
    → IsSound cfg.enabled (λ s. tts_healthy s.1) part
unfolding start_text_to_speech
tts-IsSound cfg o part =
    backed-IsSound cfg.enabled tts_healthy _ _ _ part (tts-started o.takes_speech _)

pub router-IsSound :
    (cfg : RouterConfig) (o : Outside) (part : Option RouterService)
    → start_voice_router cfg o ≡ gives part
    → IsSound cfg.enabled router_healthy part
unfolding start_voice_router
router-IsSound cfg o part = where_enabled-IsSound cfg.enabled router_healthy _ part λ s on made.
    let (good, same) = if_started-gives _ _ made in
    subst (λ v. router_healthy v ≡ true) same
      (router-started o.takes_transcripts o.takes_responses o.takes_status _ good)

abbrev IsSoundStart : Bool → SkillsStarted → Type 0
IsSoundStart enabled (service s) = s.healthy ≡ true
IsSoundStart enabled disabled = enabled ≡ false
IsSoundStart enabled failed = Unit

subscribed-IsSoundStart :
    (enabled : Bool) (cfg : SkillsConfig) (accepts : String → Bool) (host : Host)
    (skills : Map Binding)
    → IsSoundStart enabled (subscribed cfg accepts host skills)
unfolding subscribed
subscribed-IsSoundStart enabled cfg accepts host skills =
    elim (Option-cases (register_subscriptions accepts (subjects skills))) [
      | inl e ↦ rw (IsSoundStart, e) tt
      | inr (subs, e) ↦ rw (IsSoundStart, e) refl
    ]

new_skills-IsSoundStart :
    (cfg : SkillsConfig) (walk : Option (List (Option Manifest))) (accepts : String → Bool)
    (host : Host)
    → IsSoundStart cfg.enabled (new_skills cfg true walk accepts host)
unfolding new_skills
new_skills-IsSoundStart cfg walk accepts host =
    if_all (IsSoundStart cfg.enabled) (not cfg.enabled) (λ off. ground (arith, off))
      λ on.
        if_all (IsSoundStart cfg.enabled) (cfg.directory == "") (λ blank. tt)
          λ there. elim (Option-cases walk) [
            | inl e ↦ rw (IsSoundStart, e) tt
            | inr (files, e) ↦
                subst
                  (λ w. IsSoundStart cfg.enabled (elim w [
                    | none ↦ failed
                    | some files ↦ subscribed cfg accepts host (load_skills files [])
                  ]))
                  (sym e)
                  (subscribed-IsSoundStart cfg.enabled cfg accepts host (load_skills files []))
          ]

skills_result-IsSound :
    (enabled : Bool) (begun : SkillsStarted) (part : Option SkillService)
    → enabled ≡ true
    → IsSoundStart enabled begun
    → skills_result begun ≡ gives part
    → IsSound enabled (λ s. s.healthy) part
skills_result-IsSound enabled (service s) part on h e =
    subst (IsSound enabled (λ s. s.healthy)) (gives-eq e) (on, h)
skills_result-IsSound enabled disabled part on h e =
    subst (IsSound enabled (λ s. s.healthy)) (gives-eq e) h
skills_result-IsSound enabled failed part on h e = absurd (fails-ne-gives e)

pub skills-IsSound :
    (cfg : SkillsConfig) (store : Store) (o : Outside) (part : Option SkillService)
    → start_skills cfg store o ≡ gives part
    → IsSound cfg.enabled (λ s. s.healthy) part
unfolding start_skills
skills-IsSound cfg store o part e = elim (Bool-cases cfg.enabled) [
  | inl on ↦
      skills_result-IsSound cfg.enabled _ part on
        (new_skills-IsSoundStart cfg o.walk o.takes_skill _) (sym (if_true cfg.enabled _ _ on) ∙ e)
  | inr off ↦
      subst (IsSound cfg.enabled (λ s. s.healthy))
        (gives-eq (sym (if_false cfg.enabled _ _ off) ∙ e)) off
]
