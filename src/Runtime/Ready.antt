-- ===== src/Runtime/Ready.antt =====
-- internal/runtime/runtime.go, handleReady, after Start.
use loqa_core.Base.{◌≡◌, arith, if◌then◌else◌}
use loqa_core.Config.{Config}
use loqa_core.Stt.World.{healthy as stt_healthy}
use loqa_core.Llm.{healthy as llm_healthy}
use loqa_core.Tts.{healthy as tts_healthy}
use loqa_core.Router.{healthy as router_healthy}
use loqa_core.Runtime.{gives, Outside, Runtime, start, handle_ready}
use loqa_core.Runtime.Started.{start-IsStarted}
use loqa_core.Runtime.Healthy.{
  IsSound, client-healthy, registry-healthy, skills-IsSound, stt-IsSound, llm-IsSound, tts-IsSound,
  router-IsSound, sound-nil_or,
}

-- Which of the services a runtime has.
abbrev pub HasParts : Config → Runtime → Type 0
HasParts cfg r =
    IsSound cfg.skills.enabled (λ s. s.healthy) r.skills_service
    × IsSound cfg.stt.enabled (λ s. stt_healthy s.1) r.stt_service
    × IsSound cfg.llm.enabled (λ s. llm_healthy s.1) r.llm_service
    × IsSound cfg.tts.enabled (λ s. tts_healthy s.1) r.tts_service
    × IsSound cfg.router.enabled router_healthy r.router_service

-- A runtime that has started has each service exactly if the settings enable it, with each healthy
-- and its bus connected; and it answers that it is ready exactly if the node's first announcement
-- went out, as the registry is healthy only then.
pub start-handle_ready :
    (cfg : Config) (o : Outside) (r : Runtime)
    → start cfg o ≡ gives r
    → HasParts cfg r
      × (handle_ready r ≡ (if o.takes_announcement then (200, "ready") else (503, "not ready")))
unfolding handle_ready
start-handle_ready cfg o r e =
    let (_, bus, reg, _, skills, stt, llm, tts, router, ready) = start-IsStarted cfg o r e in
    let a = skills-IsSound cfg.skills _ o _ skills in
    let b = stt-IsSound cfg.stt o _ stt in
    let c = llm-IsSound cfg.llm o _ llm in
    let d = tts-IsSound cfg.tts o _ tts in
    let f = router-IsSound cfg.router o _ router in
    (
      (a, b, c, d, f),
      rw
          (
            ready,
            client-healthy cfg.bus o _ bus,
            registry-healthy cfg.node o _ reg,
            sound-nil_or _ _ _ a,
            sound-nil_or _ _ _ b,
            sound-nil_or _ _ _ c,
            sound-nil_or _ _ _ d,
            sound-nil_or _ _ _ f,
          )
          (ground arith),
    )
