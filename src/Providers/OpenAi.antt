-- ===== src/Providers/OpenAi.antt =====
-- src/wapp_planner/providers/openai_provider.py. The client and the arithmetic of floats are
-- parameters; a float counts units of 2^-1074.
use whatsapp_automatic_plann.Prelude.{
  ℕ, String, ◌<>◌, Option, none, some, List, [], ◌∷◌, or_text, get_or, ◌==◌, if◌then◌else◌,
}
use whatsapp_automatic_plann.Prelude.Texts.{Text}
use whatsapp_automatic_plann.Errors.{Action, Result, ok, err, index_error, pure, lift, ◌>>=◌}
use whatsapp_automatic_plann.Providers.{Bytes, LlmResult, TranscriptionResult}

-- `(input_tokens / 1000) * input_price + (output_tokens / 1000) * output_price` in floats, for the
-- literals of the two prices.
abbrev pub CostOf : Type 0
CostOf = String → String → ℕ → ℕ → ℕ

-- `PRICE_PER_1K_USD`, with the literals of its floats.
unfoldable pub price_per_1k_usd : String → Option (String × String)
price_per_1k_usd model =
    if model == "gpt-4o"
    then some ("0.0025", "0.01")
    else if model == "gpt-4o-mini"
    then some ("0.00015", "0.0006")
    else none

unfoldable pub estimate_cost : CostOf → String → ℕ → ℕ → ℕ
unfolding price_per_1k_usd
estimate_cost cost_of model input_tokens output_tokens = elim (price_per_1k_usd model) [
  | none ↦ 0
  | some (input_price, output_price) ↦ cost_of input_price output_price input_tokens output_tokens
]

-- A part of a message with an image, and the content of a message.
pub data Part : Type 0 where
  text : String → Part
  image_url : String → Part

pub data ChatContent : Type 0 where
  plain : String → ChatContent
  parts : List Part → ChatContent

pub record ChatMessage : Type 0 where
  pub role : String
  pub content : ChatContent

-- A completion: the contents of its choices, and the tokens that were used.
pub record Completion : Type 0 where
  pub choices : List (Option Text)
  pub prompt_tokens : ℕ
  pub completion_tokens : ℕ

-- The client: the model, the temperature in tenths and the maximum of tokens, where they are given.
pub record OpenAiClient (W : Type 0) : Type 0 where
  pub create_completion : String → Option ℕ → Option ℕ → List ChatMessage → Action W Completion
  pub create_transcription : String → String × Bytes × String → Action W String
  pub base64 : Bytes → String

-- `response.choices[0].message.content or ""`
unfoldable pub first_content : Completion → Result Text
first_content response = elim response.choices [
  | [] ↦ err index_error
  | content ∷ _ ↦ ok (get_or content [])
]

module _ {W : Type 0} (client : OpenAiClient W) where
  -- `OpenAILLMProvider.complete`
  unfoldable pub complete_chat :
      CostOf → String → String → String → ℕ → Option ℕ → Action W LlmResult
  unfolding first_content estimate_cost
  complete_chat cost_of system user model temperature max_tokens = do
    response ← client.create_completion model (some temperature) max_tokens (
        record { role = "system"; content = plain system }
        ∷ record { role = "user"; content = plain user }
        ∷ [])
    content ← lift (first_content response)
    pure (record {
      text = content;
      model = model;
      input_tokens = response.prompt_tokens;
      output_tokens = response.completion_tokens;
      cost_usd = estimate_cost cost_of model response.prompt_tokens response.completion_tokens;
    })

  -- `OpenAITranscriptionProvider.transcribe`
  unfoldable pub transcribe_audio : Bytes → String → Option String → Action W TranscriptionResult
  transcribe_audio audio model mime_type =
      client.create_transcription model
        ("audio", audio, or_text mime_type "application/octet-stream")
      >>= λ text. pure (record { text = text; model = model; language = none; cost_usd = 0 })

  -- `OpenAIVisionProvider.describe`
  unfoldable pub describe_image : Bytes → String → String → String → Action W Text
  unfolding first_content
  describe_image image model mime_type prompt =
      let data_url = "data:" <> mime_type <> ";base64," <> client.base64 image in
      client.create_completion model none none
        (record { role = "user"; content = parts (text prompt ∷ image_url data_url ∷ []) } ∷ [])
      >>= λ response. lift (first_content response)
