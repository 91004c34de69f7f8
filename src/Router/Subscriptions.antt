-- ===== src/Router/Subscriptions.antt =====
-- internal/router/service.go: the three subscriptions.
use loqa_core.Base.{◌≡◌, ◌↔◌, ◌≢◌, Bool, true, false, arith}
use loqa_core.Bus.{absent, live}
use loqa_core.Router.{Service, start, healthy}

-- No subscription of the service hands over messages.
abbrev pub IsSilent : Service → Type 0
IsSilent s = (s.sub_transcripts ≢ live) × (s.sub_llm ≢ live) × (s.sub_tts_done ≢ live)

-- The service before `Start`.
abbrev pub IsUnstarted : Service → Type 0
IsUnstarted s = (s.sub_transcripts ≡ absent) × (s.sub_llm ≡ absent) × (s.sub_tts_done ≡ absent)

-- Starting an enabled service succeeds exactly if the bus accepts the three subscriptions, and
-- exactly then the service is healthy; if it fails, no subscription is left that hands over
-- messages. A service that is not enabled starts and is healthy without any.
pub start_all_or_none :
    (transcripts llm_final tts_done : Bool) (s : Service)
    → IsUnstarted s
    → let r = start transcripts llm_final tts_done s in
      (s.cfg.enabled ≡ true
        → ((r.1 ≡ true) ↔ ((transcripts ≡ true) × (llm_final ≡ true) × (tts_done ≡ true)))
          × (healthy r.0 ≡ r.1)
          × (r.1 ≡ false → IsSilent r.0))
      × (s.cfg.enabled ≡ false → (r.1 ≡ true) × (healthy r.0 ≡ true) × IsSilent r.0)
unfolding start healthy
start_all_or_none transcripts llm_final tts_done s fresh =
    (λ e. (ground arith, ground arith, ground arith), λ e. ground arith)
