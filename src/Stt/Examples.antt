-- ===== src/Stt/Examples.antt =====
-- internal/stt/service.go: runs of the service, and its theorems at concrete inputs.
use loqa_core.Stt.Samples.{IsInt16, pcm_of, write_pcm_to_wav_lem}
use loqa_core.Stt.Recognizers.{Wav, write_pcm_to_wav}
use loqa_core.Base.{
  ℕ, ◌≡◌, ◌≤◌, ◌+◌, refl, Bool, true, false, none, some, List, [], ◌∷◌, pos, All, lookup, insert,
  delete, take_at, map, ◌++◌, is_finite, length, negsuc, arith, ◌*◌,
}
use loqa_core.Config.{SttConfig}
use loqa_core.Protocol.{AudioFrame, subject_transcript_final, subject_transcript_partial}
use loqa_core.Stt.{
  SessionState, Sessions, Task, TranscriptResult, should_schedule_partial, append_frame,
  schedule_transcription, finish_transcription, publish_transcript,
}
use loqa_core.Stt.World.{
  Service, Action, deliver, handle, proceed, transcribing, reached, run, start, new_service, step,
  advance, resume, receive,
}
use loqa_core.Stt.Exclusion.{active, inflight_of, reached_exclusion, reached-IsExclusive}
use loqa_core.Stt.Finals.{pending_of, rescheduled, reached-IsServed}
use loqa_core.Stt.Snapshot.{IsSnapshot, reached_snapshots}
use loqa_core.Stt.Transcripts.{IsTranscript, reached_messages}
use loqa_core.Stt.LateFrame.{late_frame_lost}

abbrev settings : SttConfig
settings = record {
  enabled = true;
  mode = "mock";
  command = "";
  model_path = "";
  language = "";
  sample_rate = pos 16000;
  channels = pos 1;
  frame_duration_ms = pos 20;
  partial_every_ms = pos 800;
  publish_interim = true;
}

abbrev frame : List ℕ → Bool → AudioFrame
frame pcm final = record {
  session_id = "kitchen";
  sequence = pos 0;
  sample_rate = pos 16000;
  channels = pos 1;
  pcm = pcm;
  final = final;
}

abbrev heard : TranscriptResult
heard = record { text = "lights on"; confidence = 0 }

-- A partial transcription is under way when the final frame comes.
abbrev interrupted : List Action
interrupted =
    deliver (some (frame (1 ∷ 2 ∷ []) false))
    ∷ handle 5000000 5000000
    ∷ handle 5000000 5000000
    ∷ deliver (some (frame (3 ∷ 4 ∷ []) true))
    ∷ handle 6000000 6000000
    ∷ []

-- The partial transcript, then the final one.
abbrev finished : List Action
finished =
    proceed 0 (some heard) 7000000
    ∷ proceed 0 none 7000001
    ∷ proceed 0 none 7000002
    ∷ proceed 0 (some heard) 8000000
    ∷ proceed 0 none 8000001
    ∷ []

interrupted_goroutines :
    (reached settings true interrupted).running
    ≡ transcribing (record { session_id = "kitchen"; pcm = 1 ∷ 2 ∷ []; final = false }) ∷ []
unfolding run step advance resume start new_service receive should_schedule_partial lookup
    append_frame insert schedule_transcription
interrupted_goroutines = refl

interrupted_pending : pending_of "kitchen" (reached settings true interrupted).sessions ≡ 1
unfolding run step advance resume start new_service receive should_schedule_partial lookup
    append_frame insert schedule_transcription
interrupted_pending = refl

-- Both transcripts go out, the newest first, the final one for all four bytes; the session is gone.
finished_sent :
    let s = run finished (reached settings true interrupted) in
    (map (λ m. m.subject) s.sent ≡ subject_transcript_final ∷ subject_transcript_partial ∷ [])
    × (s.running ≡ [])
    × (s.sessions ≡ [])
unfolding run step advance resume start new_service receive should_schedule_partial lookup
    append_frame insert schedule_transcription finish_transcription publish_transcript delete
    take_at is_finite
finished_sent = (refl, refl, refl)

reached_exclusion_example :
    let s = reached settings true interrupted in
    (active "kitchen" s.running ≤ 1)
    × (active "kitchen" s.running ≡ inflight_of "kitchen" s.sessions)
reached_exclusion_example = reached_exclusion settings true interrupted "kitchen"

reached-IsServed_example :
    let s = reached settings true interrupted in
    pending_of "kitchen" s.sessions ≤ active "kitchen" s.running + rescheduled "kitchen" s.running
reached-IsServed_example = reached-IsServed settings true interrupted "kitchen"

all_done : (reached settings true (interrupted ++ finished)).running ≡ []
unfolding run step advance resume start new_service receive should_schedule_partial lookup
    append_frame insert schedule_transcription finish_transcription publish_transcript delete
    take_at is_finite
all_done = refl

reached_snapshots_example :
    let s = reached settings true interrupted in All (IsSnapshot s.sessions) s.running
reached_snapshots_example = reached_snapshots settings true interrupted

reached_messages_example : All IsTranscript (reached settings true (interrupted ++ finished)).sent
reached_messages_example = reached_messages settings true (interrupted ++ finished)

-- A session whose last partial transcript is 0.8 s old.
abbrev waiting : SessionState
waiting = record {
  buffer = 1 ∷ 2 ∷ [];
  last_partial = 5000000;
  inflight = false;
  pending_final = false;
}

abbrev one_waiting : Sessions
one_waiting = ("kitchen", waiting) ∷ []

abbrev listening : Service
listening = reached settings true []

abbrev last_words : Task
last_words = record { session_id = "kitchen"; pcm = 3 ∷ 4 ∷ []; final = true }

-- The service with one goroutine, for the final transcript.
abbrev concluding : Service
concluding = record listening {
  sessions = ("kitchen", record waiting { inflight = true }) ∷ [];
  running = transcribing last_words ∷ [];
}

-- The same service when the message is out and the last section is still to come.
abbrev ending : Service
ending =
    reached settings true
      (deliver (some (frame (3 ∷ 4 ∷ []) true)) ∷ handle 1 2 ∷ proceed 0 (some heard) 3 ∷ [])

late_frame_lost_example :
    let t =
      run (deliver (some (frame (5 ∷ 6 ∷ []) true)) ∷ handle 4 4 ∷ proceed 0 none 5 ∷ []) ending in
    (lookup "kitchen" t.sessions ≡ none)
    × (t.running ≡ [])
    × (active "kitchen" t.running ≡ 0)
    × (t.sent ≡ ending.sent)
unfolding run step advance resume start new_service receive should_schedule_partial lookup
    append_frame insert schedule_transcription finish_transcription publish_transcript delete
    take_at is_finite
late_frame_lost_example =
    late_frame_lost ending last_words 0 [] (frame (5 ∷ 6 ∷ []) true) 4 4 5
      (reached-IsExclusive settings true
        (deliver (some (frame (3 ∷ 4 ∷ []) true)) ∷ handle 1 2 ∷ proceed 0 (some heard) 3 ∷ []))
      refl refl refl refl refl refl

abbrev payload : List ℕ
payload = 1 ∷ 0 ∷ 255 ∷ 255 ∷ []

abbrev written : Wav
written = record { sample_rate = pos 16000; channels = pos 1; samples = pos 1 ∷ negsuc 0 ∷ [] }

write_pcm_to_wav_lem_example :
    All IsInt16 written.samples
    × (pcm_of written.samples ≡ payload)
    × (length payload ≡ 2 * length written.samples)
    × (written.sample_rate ≡ pos 16000)
    × (written.channels ≡ pos 1)
unfolding write_pcm_to_wav
write_pcm_to_wav_lem_example =
    write_pcm_to_wav_lem true true payload (pos 16000) (pos 1) written (omega arith) refl
