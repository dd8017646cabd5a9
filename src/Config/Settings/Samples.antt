-- ===== src/Config/Settings/Samples.antt =====
-- The defaults of the settings, with the contact that they need.
use whatsapp_automatic_plann.Prelude.{◌≡◌, refl, false, ◌*◌, ◌^◌, some, none, String-discrete}
use whatsapp_automatic_plann.Domain.Enums.{includes, email}
use whatsapp_automatic_plann.Nlp.Classifier.{one}
use whatsapp_automatic_plann.Errors.{ok}
use whatsapp_automatic_plann.Config.Settings.{
  ReadSettings, Settings, default_settings, positive, positive_or_none, fraction, lacks_contact,
  validate_windows_and_contacts, settings_of,
}

abbrev pub read : ReadSettings
read = record default_settings { owner_email = some "owner@example.com" }

abbrev pub expected : Settings
expected = record {
  aggregation_inactivity_seconds = 90;
  aggregation_max_duration_seconds = 600;
  classification_confidence_threshold = 5404319552844595 * 2 ^ 1021;
  notify_on_none = false;
  notify_channel = email;
  deliver_channel = email;
  owner_email = some "owner@example.com";
  owner_whatsapp = none;
  llm_model = "gpt-4o";
  transcription_model = "gpt-4o-transcribe";
  vision_model = "gpt-4o";
  prompt_version = "v1";
  per_request_cost_cap_usd = none;
  daily_cost_cap_usd = none;
  max_media_bytes = 50 * 1024 * 1024;
  retention_days = 90;
  aws_region = "us-east-1";
  public_base_url = "http://localhost:8000";
  s3_bucket = "wapp-planner-artifacts";
  aggregation_id_prefix = "req";
}

pub accepted : settings_of read ≡ ok expected
unfolding settings_of default_settings positive positive_or_none fraction
    validate_windows_and_contacts lacks_contact includes one String-discrete
accepted = refl
