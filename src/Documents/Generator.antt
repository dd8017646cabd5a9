-- ===== src/Documents/Generator.antt =====
-- src/wapp_planner/documents/generator.py
pub mod Attempts
use whatsapp_automatic_plann.Prelude.{
  ℕ, zero, suc, ◌+◌, ◌*◌, ◌^◌, String, ◌<>◌, Option, none, some, List, [], ◌∷◌, ◌++◌, ltb,
  if◌then◌else◌,
}
use whatsapp_automatic_plann.Prelude.Texts.{Text}
use whatsapp_automatic_plann.Json.{Json}
use whatsapp_automatic_plann.Workflow.Enums.{Intent, quote, execution_plan}
use whatsapp_automatic_plann.Errors.{
  Action, Result, ok, err, generation_error, key_error, value_error, pure, raise, lift, modify,
  ◌>>=◌, ◌>>◌, and_then, or_raise,
}
use whatsapp_automatic_plann.Util.JsonIo.{extract_json_object}
use whatsapp_automatic_plann.Providers.{Llm, LlmResult}
use whatsapp_automatic_plann.Documents.Content.{
  QuoteContent, ExecutionPlanContent, DocumentContent, quote_content, plan_content,
}
use whatsapp_automatic_plann.Nlp.Prompts.{generation_system_prompt}

pub record GeneratedDocument : Type 0 where
  pub content : DocumentContent
  pub model : String
  pub input_tokens : ℕ
  pub output_tokens : ℕ
  pub cost_usd : ℕ
  pub attempts : ℕ

-- `_SCHEMA_HINT[Intent.QUOTE]`
abbrev quote_hint : String
quote_hint =
    "JSON schema: {\"title\": str, \"prepared_for\": str, \"scope_summary\": str, "
    <> "\"line_items\": [{\"description\": str, \"quantity\": number, \"unit\": str, "
    <> "\"unit_price\": number, \"total\": number}], \"subtotal\": number, "
    <> "\"tax\": str|null, \"total\": number, \"assumptions\": [str], "
    <> "\"exclusions\": [str], \"validity\": str|null, \"notes\": str|null}"

-- `_SCHEMA_HINT[Intent.EXECUTION_PLAN]`
abbrev plan_hint : String
plan_hint =
    "JSON schema: {\"title\": str, \"overview\": str, \"materials\": [str], "
    <> "\"phases\": [{\"name\": str, \"objective\": str, \"steps\": [str], "
    <> "\"safety_notes\": str|null, \"dependencies\": [str], "
    <> "\"estimated_duration\": str|null}], \"quality_checkpoints\": [str], "
    <> "\"cleanup\": str|null, \"notes\": str|null}"

unfoldable pub schema_hint : Option Intent → Result String
schema_hint (some quote) = ok quote_hint
schema_hint (some execution_plan) = ok plan_hint
schema_hint _ = err key_error

-- What the generator takes from the standard library and from pydantic: `json.loads`, `json.dumps`
-- and the validation of the two kinds of content.
pub record ContentCodec : Type 0 where
  pub loads : Text → Option Json
  pub dumps : DocumentContent → String
  pub read_quote : Json → Option QuoteContent
  pub read_plan : Json → Option ExecutionPlanContent

-- `"\n\n".join(parts)`
unfoldable pub join_paragraphs : List String → String
join_paragraphs [] = ""
join_paragraphs (p ∷ []) = p
join_paragraphs (p ∷ q ∷ ps) = p <> "\n\n" <> join_paragraphs (q ∷ ps)

module _ (codec : ContentCodec) where
  -- The part of the prompt that asks for a revision, if there are a document and feedback.
  unfoldable pub revision_part : Option String → Option DocumentContent → List String
  revision_part (some feedback) (some previous) =
      ("You previously produced this document:\n"
        <> codec.dumps previous
        <> "\n\n"
        <> "The owner requested this revision: "
        <> feedback
        <> "\n"
        <> "Improve the existing document accordingly; do not start over.")
      ∷ []
  revision_part _ _ = []

  -- `Generator._build_user_prompt`
  unfoldable pub build_user_prompt :
      Option Intent → String → String → Option String → Option DocumentContent → Result String
  unfolding schema_hint join_paragraphs revision_part
  build_user_prompt intent transcript client_name feedback previous =
      and_then (schema_hint intent) λ hint. ok (
        join_paragraphs (
          ("Client: " <> client_name)
          ∷ ("Request transcript:\n" <> transcript)
          ∷ (revision_part feedback previous ++ hint ∷ [])))

  -- `model(**data)` for the content model of the intent.
  unfoldable pub read_content : Option Intent → Json → Result DocumentContent
  read_content (some quote) json =
      and_then (or_raise (codec.read_quote json) value_error) λ c. ok (quote_content c)
  read_content (some execution_plan) json =
      and_then (or_raise (codec.read_plan json) value_error) λ c. ok (plan_content c)
  read_content _ json = err key_error

  -- `Generator._parse`
  unfoldable pub parse_content : Text → Option Intent → Result DocumentContent
  unfolding read_content
  parse_content text intent = and_then (extract_json_object text) λ snippet.
      and_then (or_raise (codec.loads snippet) value_error) λ json. read_content intent json

  -- `sleep` is the injected function of that name, on a float in units of 2^-1074.
  module _ {W : Type 0} (llm : Llm W) (model : String) (sleep : ℕ → W → W) where
    -- The body of the `try`, in the attempt of this number, counted from 0.
    unfoldable pub attempt : String → String → Option Intent → ℕ → Action W GeneratedDocument
    unfolding parse_content
    attempt system user intent number = llm system user model 2 >>= λ result.
        lift (parse_content result.text intent) >>= λ content. pure (record {
          content = content;
          model = result.model;
          input_tokens = result.input_tokens;
          output_tokens = result.output_tokens;
          cost_usd = result.cost_usd;
          attempts = number + 1;
        })

    -- `for attempt in range(max_attempts)`: the attempts left, and the number of the next one.
    -- After a failure that is not the last, the loop sleeps.
    unfoldable pub attempt_loop :
        ℕ → String → String → Option Intent → ℕ → ℕ → ℕ → Action W GeneratedDocument
    attempt_loop backoff_base system user intent max_attempts zero number w =
        raise generation_error w
    attempt_loop backoff_base system user intent max_attempts (suc left) number w =
        let (r, w') = attempt system user intent number w in
        let rest =
          attempt_loop backoff_base system user intent max_attempts left (number + 1)
            (if ltb (number + 1) max_attempts then sleep (backoff_base * 2 ^ number) w' else w') in
        elim r [ ok doc ↦ (ok doc, w') | err _ ↦ rest ]

    unfoldable pub generate :
        String
        → ℕ
        → ℕ
        → Option Intent
        → String
        → String
        → Option String
        → Option DocumentContent
        → Action W GeneratedDocument
    unfolding attempt_loop
    generate prompt_version max_attempts backoff_base intent transcript client_name feedback
          previous =
        lift (generation_system_prompt intent prompt_version) >>= λ system.
        lift (build_user_prompt intent transcript client_name feedback previous) >>= λ user.
        attempt_loop backoff_base system user intent max_attempts max_attempts 0
