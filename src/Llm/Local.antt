-- ===== src/Llm/Local.antt =====
-- internal/llm/mock.go and internal/llm/exec.go: the generators beside Ollama's. Each gives at most one
-- chunk, to the consumer that is handed to it. What the process of exec.go writes is an argument.
use loqa_core.Base.{
  String, append_text, Bool, false, Option, none, some, List, [], ℤ, pos, is_finite, if◌then◌else◌,
}
use loqa_core.Config.Values.{trim_space}
use loqa_core.Llm.{Request, Chunk, Outgoing}

-- What a consumer sends, and whether there was no error.
abbrev pub Consumer : Type 0
Consumer = Chunk → List Outgoing × Bool

abbrev pub mock_content : String → String
mock_content prompt = append_text "[mock completion for " (append_text (trim_space prompt) "]")

abbrev pub mock_chunk : Request → Chunk
mock_chunk req = record {
  session_id = req.session_id;
  content = mock_content req.prompt;
  partial = false;
  prompt_tokens = pos 0;
  completion_tokens = pos 0;
  latency = pos 20000000;
  trace_id = "";
}

-- The flag says whether the context was done before the 20 ms had passed.
unfoldable pub mock_generate : Bool → Consumer → Request → List Outgoing × Bool
mock_generate cancelled consumer req = if cancelled then ([], false) else consumer (mock_chunk req)

pub record ExecResponse : Type 0 where
  pub content : String
  pub prompt_tokens : ℤ
  pub completion_tokens : ℤ

abbrev pub exec_chunk : Request → ExecResponse → Chunk
exec_chunk req resp = record {
  session_id = req.session_id;
  content = resp.content;
  partial = false;
  prompt_tokens = resp.prompt_tokens;
  completion_tokens = resp.completion_tokens;
  latency = pos 0;
  trace_id = req.trace_id;
}

-- The output of the command, if it does not fail, and what that decodes to. JSON has no form for a
-- temperature that is no number.
unfoldable pub exec_generate :
    (Request → Option String)
    → (String → Option ExecResponse)
    → Consumer
    → Request
    → List Outgoing × Bool
exec_generate output decode consumer req =
    if is_finite req.temperature
    then elim (output req) [
      | none ↦ ([], false)
      | some text ↦ elim (decode text) [
        | none ↦ ([], false)
        | some resp ↦ consumer (exec_chunk req resp)
      ]
    ]
    else ([], false)
