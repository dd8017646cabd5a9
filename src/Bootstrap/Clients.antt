-- ===== src/Bootstrap/Clients.antt =====
-- The real adapters of src/wapp_planner/bootstrap.py, and the start of the process in
-- src/wapp_planner/__main__.py, up to the thread of the flush worker and the server. The clients of
-- third-party packages are parameters.
use whatsapp_automatic_plann.Prelude.{ℕ, String, Option, none, some, List, [], ltb, if◌then◌else◌}
use whatsapp_automatic_plann.Prelude.Texts.{Text}
use whatsapp_automatic_plann.Json.{Json, to_str}
use whatsapp_automatic_plann.Domain.Enums.{Channel, email, whatsapp, both}
use whatsapp_automatic_plann.Errors.{Action, Result, ok, and_then, lift, pure, ◌>>=◌}
use whatsapp_automatic_plann.Config.Settings.{ReadSettings, Settings, Secrets, settings_of}
use whatsapp_automatic_plann.Providers.{Bytes, OutboundMessage, MediaServices}
use whatsapp_automatic_plann.Providers.OpenAi.{
  CostOf, OpenAiClient, complete_chat, transcribe_audio, describe_image,
}
use whatsapp_automatic_plann.Providers.Whatsapp.{
  HttpClient, media_client_of, download, whatsapp_notifier_of, send_text, default_api_base,
}
use whatsapp_automatic_plann.Providers.EmailNotifier.{
  EmailNotifier, SmtpLibrary, send_email, build_smtp_connect,
}
use whatsapp_automatic_plann.Providers.S3Storage.{S3Client, s3_storage}
use whatsapp_automatic_plann.Media.Adapters.{
  extract_audio, sample_frames, extract_text, subprocess_runner, default_timeout,
}
use whatsapp_automatic_plann.Orchestrator.Wiring.{Libraries}
use whatsapp_automatic_plann.Ingestion.Service.{IngestionState}
use whatsapp_automatic_plann.Api.{AppContext}
use whatsapp_automatic_plann.Bootstrap.{Adapters, WebhookLibraries, build_app}

-- `OpenAI(api_key=…)`, `httpx.Client(timeout=30.0)`, `boto3.client("s3", region_name=…)`, `smtplib`,
-- `subprocess.run`, the decoding of UTF-8, what the `email` package does with headers and message
-- ids, and `str` of JSON that is no text. `as_string` joins code points.
pub record ThirdParty (W : Type 0) : Type 0 where
  pub openai : String → OpenAiClient W
  pub cost_of : CostOf
  pub http : HttpClient W
  pub s3 : String → S3Client W
  pub smtplib : SmtpLibrary W
  pub header : String → Result (Unit {0})
  pub make_msgid : W → String × W
  pub run : List String → Bytes → ℕ → Action W Bytes
  pub decode : Bytes → String
  pub repr : Json → String
  pub as_string : Text → String

module _ {W : Type 0} (lib : ThirdParty W) where
  unfoldable pub email_notifier_of : Secrets → EmailNotifier W
  unfolding build_smtp_connect
  email_notifier_of secrets = record {
    header = lib.header;
    make_msgid = lib.make_msgid;
    send_message = λ mime.
        build_smtp_connect lib.smtplib secrets.smtp_host secrets.smtp_port secrets.smtp_username
          secrets.smtp_password (lib.smtplib.send_mime mime);
    sender = secrets.smtp_username;
  }

  -- The notifiers by channel. An id in the reply of WhatsApp that is no text is passed on as such
  -- by the source, and as `str` of it here; nothing reads it.
  unfoldable pub notifier_for : Secrets → Channel → Option (OutboundMessage → Action W String)
  unfolding email_notifier_of send_email whatsapp_notifier_of send_text
  notifier_for secrets email = some (send_email (email_notifier_of secrets))
  notifier_for secrets whatsapp = some λ message.
      send_text
        (whatsapp_notifier_of lib.http secrets.whatsapp_access_token
          secrets.whatsapp_phone_number_id default_api_base)
        message
      >>= λ id. pure (to_str lib.repr id)
  notifier_for secrets both = none

  -- The services that handle media; the audio of a video is made an mp3.
  unfoldable pub media_services_of : Secrets → MediaServices W
  unfolding transcribe_audio describe_image extract_audio sample_frames extract_text
      subprocess_runner
  media_services_of secrets =
      let client = lib.openai secrets.openai_api_key in
      let runner = subprocess_runner lib.run default_timeout in
      record {
        transcribe = transcribe_audio client;
        describe = λ image model mime_type prompt.
            describe_image client image model mime_type prompt >>= λ text.
            pure (lib.as_string text);
        extract_audio = extract_audio runner "mp3";
        sample_frames = sample_frames runner;
        extract = λ data_bytes mime_type. lift (extract_text lib.decode data_bytes mime_type);
      }

  -- `default_adapters`
  unfoldable pub default_adapters : Settings → Secrets → Adapters W
  unfolding complete_chat media_services_of notifier_for s3_storage media_client_of download
  default_adapters settings secrets = record {
    llm = λ system user model temperature.
        complete_chat (lib.openai secrets.openai_api_key) lib.cost_of system user model temperature
          none;
    media = media_services_of secrets;
    storage = s3_storage (lib.s3 settings.aws_region) settings.s3_bucket;
    download = download (media_client_of lib.http secrets.whatsapp_access_token default_api_base);
    notifiers = notifier_for secrets;
  }

  -- What `main` puts together from what was read of the environment: the application, its state,
  -- and the seconds between two rounds of the flush worker.
  unfoldable pub main :
      Libraries W
      → WebhookLibraries
      → ReadSettings
      → Secrets
      → W
      → Result (AppContext W × IngestionState W × ℕ)
  unfolding settings_of default_adapters build_app
  main libraries web read secrets world = and_then (settings_of read) λ settings.
      and_then
        (build_app libraries web settings secrets (default_adapters settings secrets) [] world)
        λ app.
          let seconds = settings.aggregation_inactivity_seconds in
          ok (app.0, app.1, if ltb 30 seconds then 30 else seconds)
