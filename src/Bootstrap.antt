-- ===== src/Bootstrap.antt =====
-- src/wapp_planner/bootstrap.py: the program from its settings and the adapters of the services.
pub mod Reach
pub mod Runs
pub mod History
pub mod Completion
pub mod Custody
pub mod Clients
mod Samples
mod Tests
mod HistoryTests
mod CompletionTests
use whatsapp_automatic_plann.Prelude.{
  ℕ, ◌*◌, ◌^◌, String, Option, none, some, List, [], ◌∷◌, ◌==◌, if◌then◌else◌,
}
use whatsapp_automatic_plann.Prelude.Texts.{Text, codes}
use whatsapp_automatic_plann.Json.{Json}
use whatsapp_automatic_plann.Domain.Enums.{Channel, email, whatsapp, both}
use whatsapp_automatic_plann.Domain.Models.{Client}
use whatsapp_automatic_plann.Errors.{
  Action, Result, ok, err, key_error, and_then, or_raise, pure, ◌>>=◌, ◌>>◌,
}
use whatsapp_automatic_plann.Config.Settings.{Settings, Secrets}
use whatsapp_automatic_plann.Providers.{
  Bytes, DownloadedMedia, OutboundMessage, Llm, MediaServices, StorageProvider,
}
use whatsapp_automatic_plann.Media.Processor.{MediaConfig}
use whatsapp_automatic_plann.Documents.Content.{Branding}
use whatsapp_automatic_plann.Hitl.Tokens.{TokenSigner}
use whatsapp_automatic_plann.Hitl.Dispatcher.{ChannelTarget, Targets}
use whatsapp_automatic_plann.Hitl.Service.{NotificationService}
use whatsapp_automatic_plann.Aggregation.{Aggregator}
use whatsapp_automatic_plann.Ingestion.Registry.{registry_of}
use whatsapp_automatic_plann.Ingestion.Downloader.{MediaDownloader, default_allowed_mime_prefixes}
use whatsapp_automatic_plann.Ingestion.Parser.{ParserCodec}
use whatsapp_automatic_plann.Ingestion.Service.{
  IngestionService, IngestionState, flush_due, outside,
}
use whatsapp_automatic_plann.Api.{AppContext}
use whatsapp_automatic_plann.Orchestrator.Wiring.{Libraries, OrchestratorArgs, stages_of}

-- The concrete services that the program runs against; the notifiers are a dict by channel.
pub record Adapters (W : Type 0) : Type 0 where
  pub llm : Llm W
  pub media : MediaServices W
  pub storage : StorageProvider W
  pub download : String → Action W DownloadedMedia
  pub notifiers : Channel → Option (OutboundMessage → Action W String)

-- What the webhook takes from the standard library, and the id factory, by the number of the call.
pub record WebhookLibraries : Type 0 where
  pub hmac : Text → Bytes → Text
  pub loads : Bytes → Result Json
  pub parser : ParserCodec
  pub new_id : ℕ → String

abbrev pub default_vision_prompt : String
default_vision_prompt = "Describe this construction/renovation photo in detail for a contractor."

abbrev pub default_branding : Branding
default_branding = record {
  company_name = "[Company Name]";
  address = none;
  contact = none;
  quote_terms = none;
}

-- `TokenSigner(secrets.whatsapp_app_secret)`, whose links are valid for seven days.
unfoldable pub signer_of : Secrets → TokenSigner
signer_of secrets = record {
  secret = codes secrets.whatsapp_app_secret;
  ttl = 7 * 24 * 3600 * 10 ^ 6;
}

unfoldable pub aggregator_of : Settings → Aggregator
aggregator_of settings = record {
  inactivity = settings.aggregation_inactivity_seconds * 10 ^ 6;
  max_duration = settings.aggregation_max_duration_seconds * 10 ^ 6;
  opened = [];
  made = 0;
}

module _ {W : Type 0} where
  -- The target of a concrete channel, if its contact is set.
  unfoldable pub target_for :
      Option String → Option (OutboundMessage → Action W String) → Result (Option (ChannelTarget W))
  target_for none notifier = ok none
  target_for (some recipient) notifier =
      if recipient == ""
      then ok none
      else and_then (or_raise notifier key_error)
          λ send. ok (some (record { notifier = send; recipient = recipient }))

  -- `targets` in `build_app`
  unfoldable pub targets_of : Settings → Adapters W → Result (Targets W)
  unfolding target_for
  targets_of settings adapters =
      and_then (target_for settings.owner_email (adapters.notifiers email)) λ by_email.
        and_then (target_for settings.owner_whatsapp (adapters.notifiers whatsapp)) λ by_whatsapp.
          ok λ channel. elim channel [ email ↦ by_email | whatsapp ↦ by_whatsapp | both ↦ none ]

  unfoldable pub notifications_of : Settings → Secrets → Targets W → NotificationService W
  unfolding signer_of
  notifications_of settings secrets targets = record {
    signer = signer_of secrets;
    targets = targets;
    base_url = codes settings.public_base_url;
    confidence_threshold = settings.classification_confidence_threshold;
    notify_channel = settings.notify_channel;
    deliver_channel = settings.deliver_channel;
  }

  -- The defaults of `MediaProcessor` and `Generator` are 3 frames, 3 attempts and half a second.
  unfoldable pub orchestrator_of :
      Settings → Adapters W → NotificationService W → OrchestratorArgs W
  orchestrator_of settings adapters notifications = record {
    media = adapters.media;
    media_config = record {
      transcription_model = settings.transcription_model;
      vision_model = settings.vision_model;
      vision_prompt = default_vision_prompt;
      max_video_frames = 3;
    };
    llm = adapters.llm;
    classifier = record { model = settings.llm_model; prompt_version = settings.prompt_version };
    generator = record {
      model = settings.llm_model;
      prompt_version = settings.prompt_version;
      max_attempts = 3;
      backoff_base = 2 ^ 1073;
    };
    notifications = notifications;
    storage = adapters.storage;
    branding = default_branding;
    confidence_threshold = settings.classification_confidence_threshold;
    notify_on_none = settings.notify_on_none;
  }

  unfoldable pub downloader_of : Settings → Adapters W → MediaDownloader W
  downloader_of settings adapters = record {
    download = adapters.download;
    storage = adapters.storage;
    max_bytes = settings.max_media_bytes;
    allowed = default_allowed_mime_prefixes;
  }

  -- What `build_app` keeps: the services, and the state that they start from.
  unfoldable pub build_app :
      Libraries W
      → WebhookLibraries
      → Settings
      → Secrets
      → Adapters W
      → List Client
      → W
      → Result (AppContext W × IngestionState W)
  unfolding targets_of notifications_of orchestrator_of aggregator_of downloader_of registry_of
      stages_of
  build_app lib web settings secrets adapters clients world =
      and_then (targets_of settings adapters) λ targets.
        let notifications = notifications_of settings secrets targets in
        let stages = stages_of lib (orchestrator_of settings adapters notifications) in
        ok (
          record {
            ingestion = record {
              app_secret = codes secrets.whatsapp_app_secret;
              verify_token = codes secrets.whatsapp_verify_token;
              downloader = downloader_of settings adapters;
              storage = adapters.storage;
              stages = stages;
              registry = registry_of clients;
              new_id = web.new_id;
              hmac = web.hmac;
              loads = web.loads;
              parser = web.parser;
            };
            notifications = notifications;
            orchestrator = stages;
          },
          record {
            idempotency = [];
            names = [];
            known = [];
            aggregator = aggregator_of settings;
            system = record {
              repo = record { requests = []; messages = []; revisions = []; interactions = [] };
              world = world;
            };
          },
        )

  -- `FlushWorker.tick`, at the time that its clock gives.
  unfoldable pub tick : IngestionService W → ℕ → Action (IngestionState W) ℕ
  unfolding flush_due
  tick ingestion now = flush_due ingestion now

  -- `FlushWorker.run`, an endless loop, for the rounds that begin at these times: an exception of
  -- `tick`, which nothing catches, is its end.
  unfoldable pub run_rounds :
      IngestionService W → (ℕ → W → W) → ℕ → List ℕ → Action (IngestionState W) (Unit {0})
  unfolding tick
  run_rounds ingestion sleep interval [] = pure tt
  run_rounds ingestion sleep interval (now ∷ times) =
      tick ingestion now
      >> outside (λ w. (ok tt, sleep interval w))
      >> run_rounds ingestion sleep interval times
