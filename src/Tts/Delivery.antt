-- ===== src/Tts/Delivery.antt =====
-- internal/tts/service.go, handleRequest and publishChunk: what a request's goroutine sends.
use loqa_core.Base.{◌≡◌, some, List}
use loqa_core.Tts.{Worker, new_worker, Received, rounds, request}

-- The goroutine has come from its request by rounds.
abbrev pub IsReached : Worker → Type 0
IsReached w = (rs : List Received) × (rounds rs (new_worker w.request) ≡ some w)
