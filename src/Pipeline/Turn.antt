-- ===== src/Pipeline/Turn.antt =====
-- A whole voice turn over the bus, from a final transcript to the end of the playback.
use loqa_core.Base.{
  suc, ◌≡◌, refl, ap, ◌∙◌, String, ◌==◌, true, false, none, some, List, [], ◌∷◌, ◌++◌, lookup,
  insert, lookup-insert_self, lookup-delete, Time, take_at, if◌then◌else◌, if-same,
}
use loqa_core.Protocol.{Transcript, LlmRequest, LlmResponse, TtsRequest, AudioChunk, TtsStatus}
use loqa_core.Router.{
  Service as RouterService, opened, prompt_of, latency_of, handle_transcript, handle_llm_response,
  publish_speech, handle_tts_done, SessionState, begun, finish_session, note_response, speech_of,
}
use loqa_core.Router.Sessions.{answer, after_delete}
use loqa_core.Llm.{handle_request, Service as LlmService}
use loqa_core.Tts.{new_worker, rounds}
use loqa_core.Pipeline.{
  BusMessage, final_transcript, prompt, final_response, speech, packet, status, Backends, System,
  final_responses, worker_messages, handle, Action, deliver, publish, step, run,
}

-- The first half of a turn, up to the speech on the bus.
abbrev pub answering : Time → Time → List Action
answering now stamp = deliver now stamp ∷ deliver now stamp ∷ deliver now stamp ∷ publish 0 ∷ []

-- The deliveries of a turn: the transcript, the prompt, the response, whose speech a goroutine publishes,
-- the speech, the packet and the status.
abbrev pub turn_actions : Time → Time → Time → List Action
turn_actions now stamp later =
    answering now stamp ++ deliver now stamp ∷ deliver now stamp ∷ deliver later later ∷ []

abbrev pub at : RouterService → LlmService → List BusMessage → List AudioChunk → System
at router language_model bus played = record {
  router = router;
  language_model = language_model;
  bus = bus;
  played = played;
}

-- The router after a transcript, a response and the publication of its speech, with what it sent taken.
abbrev pub after_transcript : RouterService → Transcript → Time → RouterService
after_transcript r t now = record r {
  sessions = insert t.session_id (opened r t now) r.sessions;
  next_span = suc r.next_span;
  trace = begun r.next_span t.session_id r.cfg.default_voice r.cfg.default_tier ∷ r.trace;
  sent = [];
}

abbrev after_response : RouterService → LlmResponse → TtsRequest → RouterService
after_response r resp req = record r {
  trace = note_response (lookup resp.session_id r.sessions) resp r.trace;
  publishing = req ∷ r.publishing;
  sent = [];
}

abbrev after_end : RouterService → String → SessionState → Time → RouterService
after_end r session_id state later = record (finish_session session_id state later r) { sent = [] }

pub step-final_transcript :
    (b : Backends) (r : RouterService) (m : LlmService) (played : List AudioChunk) (t : Transcript)
    (now stamp : Time)
    → t.text == "" ≡ false
    → r.sent ≡ []
    → step b (deliver now stamp) (at r m (final_transcript t ∷ []) played)
      ≡ at (after_transcript r t now) m (prompt (prompt_of r t stamp) ∷ []) played
unfolding step handle handle_transcript
step-final_transcript b r m played t now stamp said quiet = simp (said, quiet)

step-prompt :
    (b : Backends) (r : RouterService) (m : LlmService) (played : List AudioChunk)
    (req : LlmRequest) (resp : LlmResponse) (now stamp : Time)
    → final_responses (handle_request b.generate (some req) m) ≡ final_response resp ∷ []
    → step b (deliver now stamp) (at r m (prompt req ∷ []) played)
      ≡ at r m (final_response resp ∷ []) played
unfolding step handle
step-prompt b r m played req resp now stamp answers = simp answers

step-final_response :
    (b : Backends) (r : RouterService) (m : LlmService) (played : List AudioChunk)
    (resp : LlmResponse) (req : TtsRequest) (now stamp : Time)
    → resp.content == "" ≡ false
    → r.sent ≡ []
    → speech_of r resp ≡ req
    → step b (deliver now stamp) (at r m (final_response resp ∷ []) played)
      ≡ at (after_response r resp req) m [] played
unfolding step handle handle_llm_response
step-final_response b r m played resp req now stamp answered quiet voiced =
    simp (answered, quiet) (ap (λ q. at (after_response r resp q) m [] played) voiced)

step-publish :
    (b : Backends) (r : RouterService) (m : LlmService) (played : List AudioChunk)
    (resp : LlmResponse) (req : TtsRequest)
    → step b (publish 0) (at (after_response r resp req) m [] played)
      ≡ at
          (record (after_response r resp req) { publishing = r.publishing })
          m
          (speech req ∷ [])
          played
unfolding step publish_speech take_at
step-publish b r m played resp req = refl

step-speech :
    (b : Backends) (r : RouterService) (m : LlmService) (played : List AudioChunk)
    (req : TtsRequest) (chunk : AudioChunk) (end : TtsStatus) (now stamp : Time)
    → worker_messages (rounds (b.synthesize req) (new_worker req)) ≡ packet chunk ∷ status end ∷ []
    → step b (deliver now stamp) (at r m (speech req ∷ []) played)
      ≡ at r m (packet chunk ∷ status end ∷ []) played
unfolding step handle
step-speech b r m played req chunk end now stamp plays = simp plays

step-packet :
    (b : Backends) (r : RouterService) (m : LlmService) (played : List AudioChunk)
    (chunk : AudioChunk) (end : TtsStatus) (now stamp : Time)
    → step b (deliver now stamp) (at r m (packet chunk ∷ status end ∷ []) played)
      ≡ at r m (status end ∷ []) (played ++ chunk ∷ [])
unfolding step handle
step-packet b r m played chunk end now stamp = refl

step-status :
    (b : Backends) (r : RouterService) (m : LlmService) (played : List AudioChunk) (end : TtsStatus)
    (state : SessionState) (later : Time)
    → end.completed ≡ true
    → lookup end.session_id r.sessions ≡ some state
    → r.sent ≡ []
    → step b (deliver later later) (at r m (status end ∷ []) played)
      ≡ at (after_end r end.session_id state later) m [] played
unfolding step handle handle_tts_done
step-status b r m played end state later ends there quiet = simp (ends, there, quiet)

-- The router at the end of a turn.
abbrev finished : RouterService → Transcript → LlmResponse → TtsStatus → Time → Time → RouterService
finished r t resp end now later =
    let answering = after_response (after_transcript r t now) resp (answer r.cfg resp) in
    after_end (record answering { publishing = r.publishing }) end.session_id (opened r t now) later

-- A run is its first step and the others.
pub next :
    (b : Backends) (a : Action) (actions : List Action) (y z w : System)
    → step b a y ≡ z
    → run b actions z ≡ w
    → run b (a ∷ actions) y ≡ w
unfolding run
next b a actions y z w e rest = ap (run b actions) e ∙ rest

pub last : (b : Backends) (y : System) → run b [] y ≡ y
unfolding run
last b y = refl

voice_of_session :
    (r : RouterService) (t : Transcript) (resp : LlmResponse) (now : Time)
    → resp.session_id ≡ t.session_id
    → speech_of (after_transcript r t now) resp ≡ answer r.cfg resp
voice_of_session r t resp now same =
    simp (same, lookup-insert_self t.session_id (opened r t now) r.sessions, if-same)

-- Half way through a turn the router's speech is on the bus, in the default voice.
pub run-answering :
    (b : Backends) (r : RouterService) (m : LlmService) (played : List AudioChunk) (t : Transcript)
    (resp : LlmResponse) (now stamp : Time)
    → t.text == "" ≡ false
    → final_responses (handle_request b.generate (some (prompt_of r t stamp)) m)
      ≡ final_response resp ∷ []
    → resp.content == "" ≡ false
    → resp.session_id ≡ t.session_id
    → r.sent ≡ []
    → run b (answering now stamp) (at r m (final_transcript t ∷ []) played)
      ≡ at
          (record (after_response (after_transcript r t now) resp (answer r.cfg resp)) {
            publishing = r.publishing;
          })
          m
          (speech (answer r.cfg resp) ∷ [])
          played
run-answering b r m played t resp now stamp said answers answered same quiet =
    let req = answer r.cfg resp in
    let r1 = after_transcript r t now in
    next b _ _ _ _ _ (step-final_transcript b r m played t now stamp said quiet) (
      next b _ _ _ _ _ (step-prompt b r1 m played (prompt_of r t stamp) resp now stamp answers) (
        next b _ _ _ _ _
          (step-final_response b r1 m played resp req now stamp answered refl
            (voice_of_session r t resp now same))
          (next b _ _ _ _ _ (step-publish b r1 m played resp req) (last b _))))

run-append :
    (b : Backends) (actions others : List Action) (y : System)
    → run b (actions ++ others) y ≡ run b others (run b actions y)
unfolding run
run-append b [] others y = refl
run-append b (a ∷ actions) others y = run-append b actions others (step b a y)

turn_run :
    (b : Backends) (r : RouterService) (m : LlmService) (played : List AudioChunk) (t : Transcript)
    (resp : LlmResponse) (chunk : AudioChunk) (end : TtsStatus) (now stamp later : Time)
    → t.text == "" ≡ false
    → final_responses (handle_request b.generate (some (prompt_of r t stamp)) m)
      ≡ final_response resp ∷ []
    → resp.content == "" ≡ false
    → resp.session_id ≡ t.session_id
    → worker_messages (rounds (b.synthesize (answer r.cfg resp)) (new_worker (answer r.cfg resp)))
      ≡ packet chunk ∷ status end ∷ []
    → end.completed ≡ true
    → end.session_id ≡ t.session_id
    → r.sent ≡ []
    → run b (turn_actions now stamp later) (at r m (final_transcript t ∷ []) played)
      ≡ at (finished r t resp end now later) m [] (played ++ chunk ∷ [])
turn_run b r m played t resp chunk end now stamp later said answers answered same plays ends same'
      quiet =
    let req = answer r.cfg resp in
    let r1 = after_transcript r t now in
    let r2 = record (after_response r1 resp req) { publishing = r.publishing } in
    let rest = deliver now stamp ∷ deliver now stamp ∷ deliver later later ∷ [] in
    run-append b (answering now stamp) rest (at r m (final_transcript t ∷ []) played)
    ∙ ap (run b rest) (run-answering b r m played t resp now stamp said answers answered same quiet)
    ∙ next b _ _ _ _ _ (step-speech b r2 m played req chunk end now stamp plays) (
        next b _ _ _ _ _ (step-packet b r2 m played chunk end now stamp) (
          next b _ _ _ _ _
            (step-status b r2 m (played ++ chunk ∷ []) end (opened r t now) later ends
              (ap (λ k. lookup k r2.sessions) same'
                ∙ lookup-insert_self t.session_id (opened r t now) r.sessions)
              refl)
            (last b _)))

-- When the generator answers a final transcript's prompt with one final response of the session that has
-- a text, and the synthesizer its speech with one packet and a completed status of the session, then the
-- turn leaves the bus empty, the device has the packet, and the router has no session and no publication
-- left of it, has recorded the latency from the transcript to the end of the playback, and keeps its other
-- sessions.
pub voice_turn :
    (b : Backends) (r : RouterService) (m : LlmService) (played : List AudioChunk) (t : Transcript)
    (resp : LlmResponse) (chunk : AudioChunk) (end : TtsStatus) (now stamp later : Time)
    → t.text == "" ≡ false
    → final_responses (handle_request b.generate (some (prompt_of r t stamp)) m)
      ≡ final_response resp ∷ []
    → resp.content == "" ≡ false
    → resp.session_id ≡ t.session_id
    → worker_messages (rounds (b.synthesize (answer r.cfg resp)) (new_worker (answer r.cfg resp)))
      ≡ packet chunk ∷ status end ∷ []
    → end.completed ≡ true
    → end.session_id ≡ t.session_id
    → r.sent ≡ []
    → let z = run b (turn_actions now stamp later) (at r m (final_transcript t ∷ []) played) in
      (z.bus ≡ [])
      × (z.played ≡ played ++ chunk ∷ [])
      × (z.router.publishing ≡ r.publishing)
      × (z.router.latencies ≡ (
          if r.latency_enabled
          then latency_of (opened r t now) later ∷ r.latencies
          else r.latencies))
      × ((k : String)
          → lookup k z.router.sessions ≡ (if t.session_id == k then none else lookup k r.sessions))
voice_turn b r m played t resp chunk end now stamp later said answers answered same plays ends same'
      quiet =
    let e =
      turn_run b r m played t resp chunk end now stamp later said answers answered same plays ends
        same' quiet in
    (
      ap (λ z. z.bus) e,
      ap (λ z. z.played) e,
      ap (λ z. z.router.publishing) e,
      ap (λ z. z.router.latencies) e,
      λ k.
          ap (λ z. lookup k z.router.sessions) e
          ∙ lookup-delete end.session_id k _
          ∙ ap
              (λ id.
                if id == k
                then none
                else lookup k (insert t.session_id (opened r t now) r.sessions))
              same'
          ∙ after_delete t.session_id k (opened r t now) r.sessions,
    )
