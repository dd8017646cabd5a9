-- ===== src/Nlp/Classifier.antt =====
-- src/wapp_planner/nlp/classifier.py. A confidence counts units of 2^-1074.
pub mod Laws
use whatsapp_automatic_plann.Prelude.{
  ℕ, ◌^◌, Bool, true, false, String, ◌<>◌, Option, ltb, leb, if◌then◌else◌,
}
use whatsapp_automatic_plann.Prelude.Texts.{Text}
use whatsapp_automatic_plann.Json.{Json}
use whatsapp_automatic_plann.Workflow.Enums.{Intent}
use whatsapp_automatic_plann.Errors.{
  Error, Action, Result, ok, err, classification_error, value_error, json_decode_error, lift, ◌>>=◌,
  and_then, or_raise,
}
use whatsapp_automatic_plann.Util.JsonIo.{extract_json_object}
use whatsapp_automatic_plann.Providers.{Llm, LlmResult}
use whatsapp_automatic_plann.Nlp.Prompts.{classification_system_prompt}

-- 1.0
unfoldable pub one : ℕ
one = 2 ^ 1074

pub record ClassificationResult : Type 0 where
  pub intent : Intent
  pub confidence : ℕ
  pub rationale : String

unfoldable pub is_actionable_intent : Intent → Bool
is_actionable_intent Intent.none = false
is_actionable_intent _ = true

-- `ClassificationResult.is_actionable`: `self.intent is not Intent.NONE`
unfoldable pub is_actionable : ClassificationResult → Bool
unfolding is_actionable_intent
is_actionable r = is_actionable_intent r.intent

unfoldable pub is_low_confidence : ClassificationResult → ℕ → Bool
is_low_confidence result threshold = ltb result.confidence threshold

-- A float as it comes from outside.
pub data Float : Type 0 where
  at_least_zero : ℕ → Float
  below_zero not_a_number : Float

-- The fields that pydantic has read, before `Field(ge=0.0, le=1.0)` is checked.
pub record ReadFields : Type 0 where
  pub intent : Intent
  pub confidence : Float
  pub rationale : String

unfoldable pub check_range : ReadFields → Float → Result ClassificationResult
unfolding one
check_range f (at_least_zero c) =
    if leb c one
    then ok (record { intent = f.intent; confidence = c; rationale = f.rationale })
    else err classification_error
check_range f below_zero = err classification_error
check_range f not_a_number = err classification_error

-- The `except` clauses of `_parse`: `ValueError` around `extract_json_object`, `JSONDecodeError`
-- around `json.loads`, and `ValidationError` around the constructor become a `ClassificationError`;
-- any other exception passes.
unfoldable pub except_value : Result Text → Result Text
except_value (ok a) = ok a
except_value (err value_error) = err classification_error
except_value (err json_decode_error) = err classification_error
except_value (err e) = err e

unfoldable pub except_decode : Result Json → Result Json
except_decode (ok a) = ok a
except_decode (err json_decode_error) = err classification_error
except_decode (err e) = err e

-- `_USER_TEMPLATE.format(transcript=transcript)`
unfoldable pub user_prompt : String → String
user_prompt transcript =
    "Classify the following request transcript.\n\n" <> "Transcript:\n" <> transcript <> "\n\n"
    <> "Respond ONLY with JSON: {\"intent\": \"quote\"|\"execution_plan\"|\"none\", "
    <> "\"confidence\": 0.0-1.0, \"rationale\": \"...\"}"

-- `loads` is `json.loads`, with what it raises, and `read_fields` the reading of the fields by
-- pydantic, which gives nothing for a `ValidationError`.
module _ (loads : Text → Result Json) (read_fields : Json → Option ReadFields) where
  -- `Classifier._parse`
  unfoldable pub parse_reply : Text → Result ClassificationResult
  unfolding check_range except_value except_decode
  parse_reply text = and_then (except_value (extract_json_object text)) λ snippet.
      and_then (except_decode (loads snippet)) λ json.
        and_then (or_raise (read_fields json) classification_error)
          λ fields. check_range fields fields.confidence

  module _ {W : Type 0} (llm : Llm W) (model prompt_version : String) where
    unfoldable pub classify : String → Action W ClassificationResult
    unfolding parse_reply
    classify transcript = lift (classification_system_prompt prompt_version) >>= λ system.
        llm system (user_prompt transcript) model 0 >>= λ result. lift (parse_reply result.text)
