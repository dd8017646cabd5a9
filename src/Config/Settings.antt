-- ===== src/Config/Settings.antt =====
-- src/wapp_planner/config/settings.py. The reading of the environment is pydantic's: a model starts
-- from the values that it has read. A float counts units of 2^-1074; seconds and bytes are integers.
pub mod Bounds
pub mod Samples
mod Tests
use whatsapp_automatic_plann.Prelude.{
  ℕ, ◌*◌, ◌^◌, Bool, true, false, not, ◌&&◌, ◌||◌, String, Option, none, some, ltb, leb, ◌==◌,
  if◌then◌else◌,
}
use whatsapp_automatic_plann.Domain.Enums.{Channel, email, whatsapp, includes}
use whatsapp_automatic_plann.Errors.{Result, ok, err, validation_error, and_then}
use whatsapp_automatic_plann.Nlp.Classifier.{Float, at_least_zero, below_zero, not_a_number, one}

-- `negsuc n` is -(n + 1).
pub data ℤ : Type 0 where
  pos negsuc : ℕ → ℤ

-- The values of `Settings`, before the constraints of its fields are checked.
pub record ReadSettings : Type 0 where
  pub aggregation_inactivity_seconds : ℤ
  pub aggregation_max_duration_seconds : ℤ
  pub classification_confidence_threshold : Float
  pub notify_on_none : Bool
  pub notify_channel : Channel
  pub deliver_channel : Channel
  pub owner_email : Option String
  pub owner_whatsapp : Option String
  pub llm_model : String
  pub transcription_model : String
  pub vision_model : String
  pub prompt_version : String
  pub per_request_cost_cap_usd : Option Float
  pub daily_cost_cap_usd : Option Float
  pub max_media_bytes : ℤ
  pub retention_days : ℤ
  pub aws_region : String
  pub public_base_url : String
  pub s3_bucket : String
  pub aggregation_id_prefix : String

pub record Settings : Type 0 where
  pub aggregation_inactivity_seconds : ℕ
  pub aggregation_max_duration_seconds : ℕ
  pub classification_confidence_threshold : ℕ
  pub notify_on_none : Bool
  pub notify_channel : Channel
  pub deliver_channel : Channel
  pub owner_email : Option String
  pub owner_whatsapp : Option String
  pub llm_model : String
  pub transcription_model : String
  pub vision_model : String
  pub prompt_version : String
  pub per_request_cost_cap_usd : Option ℕ
  pub daily_cost_cap_usd : Option ℕ
  pub max_media_bytes : ℕ
  pub retention_days : ℕ
  pub aws_region : String
  pub public_base_url : String
  pub s3_bucket : String
  pub aggregation_id_prefix : String

pub record Secrets : Type 0 where
  pub openai_api_key : String
  pub whatsapp_access_token : String
  pub whatsapp_phone_number_id : String
  pub whatsapp_verify_token : String
  pub whatsapp_app_secret : String
  pub smtp_host : String
  pub smtp_port : ℤ
  pub smtp_username : String
  pub smtp_password : String

-- The defaults of the fields; the float 0.6 is 5404319552844595 units of 2^-53.
unfoldable pub default_settings : ReadSettings
default_settings = record {
  aggregation_inactivity_seconds = pos 90;
  aggregation_max_duration_seconds = pos 600;
  classification_confidence_threshold = at_least_zero (5404319552844595 * 2 ^ 1021);
  notify_on_none = false;
  notify_channel = email;
  deliver_channel = email;
  owner_email = none;
  owner_whatsapp = none;
  llm_model = "gpt-4o";
  transcription_model = "gpt-4o-transcribe";
  vision_model = "gpt-4o";
  prompt_version = "v1";
  per_request_cost_cap_usd = none;
  daily_cost_cap_usd = none;
  max_media_bytes = pos (50 * 1024 * 1024);
  retention_days = pos 90;
  aws_region = "us-east-1";
  public_base_url = "http://localhost:8000";
  s3_bucket = "wapp-planner-artifacts";
  aggregation_id_prefix = "req";
}

-- `Field(gt=0)` on an integer.
unfoldable pub positive : ℤ → Result ℕ
positive (pos n) = if ltb 0 n then ok n else err validation_error
positive (negsuc _) = err validation_error

-- `Field(default=None, gt=0)` on a float.
unfoldable pub positive_or_none : Option Float → Result (Option ℕ)
positive_or_none none = ok none
positive_or_none (some (at_least_zero c)) = if ltb 0 c then ok (some c) else err validation_error
positive_or_none (some below_zero) = err validation_error
positive_or_none (some not_a_number) = err validation_error

-- `Field(ge=0.0, le=1.0)`
unfoldable pub fraction : Float → Result ℕ
unfolding one
fraction (at_least_zero c) = if leb c one then ok c else err validation_error
fraction below_zero = err validation_error
fraction not_a_number = err validation_error

-- `not text` is false of a text that is there and not empty.
abbrev pub given : Option String → Bool
given none = false
given (some s) = not (s == "")

-- The contact of a concrete channel that the channel includes is missing.
unfoldable pub lacks_contact : Settings → Channel → Bool
unfolding includes
lacks_contact s channel =
    (includes channel email && not (given s.owner_email))
    || (includes channel whatsapp && not (given s.owner_whatsapp))

-- `Settings._validate_windows_and_contacts`
unfoldable pub validate_windows_and_contacts : Settings → Result Settings
unfolding lacks_contact
validate_windows_and_contacts s =
    if ltb s.aggregation_max_duration_seconds s.aggregation_inactivity_seconds
    then err validation_error
    else if lacks_contact s s.notify_channel
    then err validation_error
    else if lacks_contact s s.deliver_channel
    then err validation_error
    else ok s

-- The construction of `Settings`: every constraint, and then the validator of the model.
unfoldable pub settings_of : ReadSettings → Result Settings
unfolding positive positive_or_none fraction validate_windows_and_contacts
settings_of r = and_then (positive r.aggregation_inactivity_seconds) λ inactivity.
    and_then (positive r.aggregation_max_duration_seconds) λ max_duration.
      and_then (fraction r.classification_confidence_threshold) λ threshold.
        and_then (positive_or_none r.per_request_cost_cap_usd) λ per_request.
          and_then (positive_or_none r.daily_cost_cap_usd) λ daily.
            and_then (positive r.max_media_bytes) λ max_media_bytes.
              and_then (positive r.retention_days) λ retention_days.
                validate_windows_and_contacts (record {
                  aggregation_inactivity_seconds = inactivity;
                  aggregation_max_duration_seconds = max_duration;
                  classification_confidence_threshold = threshold;
                  notify_on_none = r.notify_on_none;
                  notify_channel = r.notify_channel;
                  deliver_channel = r.deliver_channel;
                  owner_email = r.owner_email;
                  owner_whatsapp = r.owner_whatsapp;
                  llm_model = r.llm_model;
                  transcription_model = r.transcription_model;
                  vision_model = r.vision_model;
                  prompt_version = r.prompt_version;
                  per_request_cost_cap_usd = per_request;
                  daily_cost_cap_usd = daily;
                  max_media_bytes = max_media_bytes;
                  retention_days = retention_days;
                  aws_region = r.aws_region;
                  public_base_url = r.public_base_url;
                  s3_bucket = r.s3_bucket;
                  aggregation_id_prefix = r.aggregation_id_prefix;
                })
