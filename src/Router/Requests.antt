-- ===== src/Router/Requests.antt =====
-- internal/router/service.go: what the service asks of the speech service and of the language model.
use loqa_core.Base.{
  ◌≡◌, refl, String, ◌==◌, Bool, false, Option, none, some, List, lookup, All, All-take_at,
  AllEntries, insert-AllEntries, delete-AllEntries, lookup-AllEntries, Option-cases, inl, inr, Time,
  arith, Bool-cases,
}
use loqa_core.Config.{RouterConfig}
use loqa_core.Protocol.{Transcript, LlmResponse, LlmRequest, TtsRequest}
use loqa_core.Router.{
  SessionState, Outgoing, llm, tts, Service, Action, transcript, llm_response, tts_done, publish,
  new_service, opened, speech_of, handle_transcript, handle_llm_response, step, run, run_inv,
  handle_tts_done_cases, publish_speech_cases,
}

-- Every session is opened with the configured voice and tier, for a transcript with a text.
pub record IsDefault (cfg : RouterConfig) (key : String) (state : SessionState) : Type 0 where
  pub voice : state.voice ≡ cfg.default_voice
  pub tier : state.tier ≡ cfg.default_tier
  pub has_prompt : state.last_prompt == "" ≡ false

pub record IsSpeech (cfg : RouterConfig) (req : TtsRequest) : Type 0 where
  pub has_text : req.text == "" ≡ false
  pub voice : req.voice ≡ cfg.default_voice
  pub target : req.target ≡ cfg.target

pub record IsPrompt (cfg : RouterConfig) (req : LlmRequest) : Type 0 where
  pub has_prompt : req.prompt == "" ≡ false
  pub tier : req.tier ≡ cfg.default_tier

abbrev pub IsOutgoing : RouterConfig → Outgoing → Type 0
IsOutgoing cfg (llm req) = IsPrompt cfg req
IsOutgoing cfg (tts req) = IsSpeech cfg req

record IsDefaulted (cfg : RouterConfig) (s : Service) : Type 0 where
  settings : s.cfg ≡ cfg
  opened_so : AllEntries (IsDefault cfg) s.sessions
  queued_so : All (IsSpeech cfg) s.publishing
  sent_so : All (IsOutgoing cfg) s.sent

opened-IsDefault :
    (cfg : RouterConfig) (s : Service) (t : Transcript) (now : Time)
    → s.cfg ≡ cfg
    → t.text == "" ≡ false
    → IsDefault cfg t.session_id (opened s t now)
opened-IsDefault cfg s t now e text = ground arith

handle_transcript-IsDefaulted :
    (cfg : RouterConfig) (payload : Option Transcript) (now stamp : Time) (s : Service)
    → IsDefaulted cfg s
    → IsDefaulted cfg (handle_transcript payload now stamp s)
unfolding handle_transcript
handle_transcript-IsDefaulted cfg none now stamp s h = h
handle_transcript-IsDefaulted cfg (some t) now stamp s h = elim (Bool-cases (t.text == "")) [
  | inl e ↦ rw e h
  | inr text ↦ rw text (record {
    settings = h.settings;
    opened_so =
        insert-AllEntries (IsDefault cfg) t.session_id (opened s t now) s.sessions
          (opened-IsDefault cfg s t now h.settings text) h.opened_so;
    queued_so = h.queued_so;
    sent_so = (ground (arith, h.settings), h.sent_so);
  })
]

speech_of-IsSpeech :
    (cfg : RouterConfig) (s : Service) (resp : LlmResponse)
    → resp.content == "" ≡ false
    → IsDefaulted cfg s
    → IsSpeech cfg (speech_of s resp)
speech_of-IsSpeech cfg s resp text h = record {
  has_text = text;
  voice = elim (Option-cases (lookup resp.session_id s.sessions)) [
    | inl e ↦ ground (arith, e, h.settings)
    | inr (state, e) ↦ ground (
      arith,
      e,
      h.settings,
      (lookup-AllEntries (IsDefault cfg) resp.session_id s.sessions e h.opened_so).voice,
    )
  ];
  target = ground (arith, h.settings);
}

handle_llm_response-IsDefaulted :
    (cfg : RouterConfig) (payload : Option LlmResponse) (s : Service)
    → IsDefaulted cfg s
    → IsDefaulted cfg (handle_llm_response payload s)
unfolding handle_llm_response
handle_llm_response-IsDefaulted cfg none s h = h
handle_llm_response-IsDefaulted cfg (some resp) s h = elim (Bool-cases (resp.content == "")) [
  | inl e ↦ rw e h
  | inr text ↦ rw text (record {
    settings = h.settings;
    opened_so = h.opened_so;
    queued_so = (speech_of-IsSpeech cfg s resp text h, h.queued_so);
    sent_so = h.sent_so;
  })
]

step-IsDefaulted :
    (cfg : RouterConfig) (a : Action) (s : Service) → IsDefaulted cfg s → IsDefaulted cfg (step a s)
unfolding step
step-IsDefaulted cfg (transcript payload now stamp) s h =
    handle_transcript-IsDefaulted cfg payload now stamp s h
step-IsDefaulted cfg (llm_response payload) s h = handle_llm_response-IsDefaulted cfg payload s h
step-IsDefaulted cfg (tts_done payload now) s h =
    handle_tts_done_cases (IsDefaulted cfg) payload now s h λ session_id state e. record {
      settings = h.settings;
      opened_so = delete-AllEntries (IsDefault cfg) session_id s.sessions h.opened_so;
      queued_so = h.queued_so;
      sent_so = h.sent_so;
    }
step-IsDefaulted cfg (publish n) s h = publish_speech_cases (IsDefaulted cfg) n s h λ req others e.
    let both = All-take_at (IsSpeech cfg) n s.publishing e h.queued_so in
    record {
      settings = h.settings;
      opened_so = h.opened_so;
      queued_so = both.1;
      sent_so = (both.0, h.sent_so);
    }

new_service-IsDefaulted :
    (cfg : RouterConfig) (has_histogram : Bool) → IsDefaulted cfg (new_service cfg has_histogram)
unfolding new_service
new_service-IsDefaulted cfg has_histogram = record {
  settings = refl;
  opened_so = tt;
  queued_so = tt;
  sent_so = tt;
}

-- Whatever messages come in, and however its goroutines are interleaved with them, all that the
-- service sends is a prompt with a text for the configured tier, or a speech request with a text,
-- for the configured target, in the configured voice: a session never changes the voice.
pub reached_requests :
    (cfg : RouterConfig) (has_histogram : Bool) (actions : List Action)
    → let s = run actions (new_service cfg has_histogram) in
      All (IsOutgoing cfg) s.sent × All (IsSpeech cfg) s.publishing
reached_requests cfg has_histogram actions =
    let h =
      run_inv (IsDefaulted cfg) (step-IsDefaulted cfg) actions _
        (new_service-IsDefaulted cfg has_histogram) in
    (h.sent_so, h.queued_so)
