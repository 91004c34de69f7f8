-- ===== src/Llm/Options.antt =====
-- internal/llm/types.go, service.go and ollama.go: what is asked of the server for a request.
use loqa_core.Base.{
  ◌≡◌, refl, ap, ◌∙◌, String, ◌==◌, true, false, ◌||◌, List, [], ◌∷◌, ℤ, pos, int_ltb, arith,
  if◌then◌else◌, Bool-cases, inl, inr,
}
use loqa_core.Config.{LlmConfig}
use loqa_core.Protocol.{LlmRequest}
use loqa_core.Llm.{options_of, coalesce_int}
use loqa_core.Llm.Ollama.{OllamaGenerator, model_for_tier, payload_of}

-- The first text that is not empty; the last stands for the others.
abbrev pub first_set : String → List String → String
first_set last [] = last
first_set last (name ∷ names) = if name == "" then first_set last names else name

-- The models in the order in which a tier would have them.
abbrev pub preferences : OllamaGenerator → String → List String
preferences g tier =
    if tier == "fast"
    then g.model_fast ∷ g.model_balanced ∷ []
    else g.model_balanced ∷ g.model_fast ∷ []

-- The tier that is asked for, or the settings' where none is.
abbrev pub wanted_tier : LlmConfig → LlmRequest → String
wanted_tier cfg req = first_set cfg.default_tier (req.tier ∷ [])

model_for_tier-first_set :
    (g : OllamaGenerator) (tier : String)
    → model_for_tier g tier ≡ first_set "llama3.2:latest" (preferences g tier)
unfolding model_for_tier
model_for_tier-first_set g tier = ground arith

first_set_lem :
    (last : String) (names : List String)
    → (last == "") ≡ false
    → (first_set last names == "") ≡ false
first_set_lem last [] h = h
first_set_lem last (name ∷ names) h = elim (Bool-cases (name == "")) [
  | inl e ↦ rw e (first_set_lem last names h)
  | inr e ↦ rw e e
]

coalesce_int_lem :
    (value fallback : ℤ)
    → (int_ltb (pos 0) (coalesce_int value fallback)
        ≡ (int_ltb (pos 0) value || int_ltb (pos 0) fallback))
      × (int_ltb (pos 0) value ≡ true → coalesce_int value fallback ≡ value)
coalesce_int_lem value fallback = elim (Bool-cases (int_ltb (pos 0) value)) [
  | inl e ↦ rw e (e, λ h. refl)
  | inr e ↦ rw e (refl, λ h. absurd (ground (arith, h)))
]

-- The server is asked for the first model that is set, in the order of the request's tier or, where
-- it names none, of the settings'; the fast model comes first for the tier "fast", the balanced one
-- for every other, and a built-in name last. The number of tokens is the request's if that is
-- positive, and is positive if that or the settings' is.
pub payload_of-options_of :
    (g : OllamaGenerator) (cfg : LlmConfig) (req : LlmRequest)
    → let payload = payload_of g (options_of cfg req) in
      (payload.model ≡ first_set "llama3.2:latest" (preferences g (wanted_tier cfg req)))
      × ((payload.model == "") ≡ false)
      × (int_ltb (pos 0) payload.num_predict
          ≡ (int_ltb (pos 0) req.max_tokens || int_ltb (pos 0) cfg.max_tokens))
      × (int_ltb (pos 0) req.max_tokens ≡ true → payload.num_predict ≡ req.max_tokens)
unfolding options_of
payload_of-options_of g cfg req =
    let model = model_for_tier-first_set g (wanted_tier cfg req) in
    let tokens = coalesce_int_lem req.max_tokens cfg.max_tokens in
    (
      model,
      ap (λ name. name == "") model
          ∙ first_set_lem "llama3.2:latest" (preferences g (wanted_tier cfg req)) refl,
      tokens.0,
      tokens.1,
    )
