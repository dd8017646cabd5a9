-- ===== src/Ingestion/Service/MediaTests.antt =====
-- A photo that is stored in memory and read back.
use whatsapp_automatic_plann.Prelude.{false, none, some, [], ◌∷◌}
use whatsapp_automatic_plann.Prelude.Dict.{Dict}
use whatsapp_automatic_plann.Prelude.Texts.{codes}
use whatsapp_automatic_plann.Json.{null, str}
use whatsapp_automatic_plann.Workflow.Enums.{MessageType, Intent}
use whatsapp_automatic_plann.Domain.Enums.{pending}
use whatsapp_automatic_plann.Domain.Models.{Message}
use whatsapp_automatic_plann.Errors.{ok, err, external}
use whatsapp_automatic_plann.Providers.{DownloadedMedia}
use whatsapp_automatic_plann.Providers.Fakes.{InMemoryStorage, in_memory_storage}
use whatsapp_automatic_plann.Ingestion.Registry.{registry_of}
use whatsapp_automatic_plann.Ingestion.Downloader.{default_allowed_mime_prefixes}
use whatsapp_automatic_plann.Ingestion.Parser.{ParsedMessage}
use whatsapp_automatic_plann.Ingestion.Service.{IngestionService, IngestionState}
use whatsapp_automatic_plann.Ingestion.Service.Samples.{codec, aggregator}
use whatsapp_automatic_plann.Orchestrator.Stages.{Stages}

abbrev media : DownloadedMedia
media = record { content = 1 ∷ 2 ∷ []; mime_type = "image/png" }

abbrev stages : Stages InMemoryStorage
stages = record {
  transcript = λ _ _ w. ("", w);
  classify = λ _ w. (ok (record { intent = Intent.none; confidence = 1; rationale = "" }), w);
  generate = λ _ _ _ _ _ w. (err (external "down"), w);
  render = λ _ _. ok [];
  put = in_memory_storage.put;
  notify_classification = λ _ _ _ _ w. (ok [], w);
  deliver_document = λ _ _ _ _ w. (ok [], w);
  confidence_threshold = 1;
  notify_on_none = false;
}

abbrev service : IngestionService InMemoryStorage
service = record {
  app_secret = codes "key";
  verify_token = codes "token";
  downloader = record {
    download = λ _ w. (ok media, w);
    storage = in_memory_storage;
    max_bytes = 10;
    allowed = default_allowed_mime_prefixes;
  };
  storage = in_memory_storage;
  stages = stages;
  registry = registry_of [];
  new_id = λ n. "req";
  hmac = λ _ _. codes "abc";
  loads = λ _. ok null;
  parser = codec;
}

abbrev fresh : IngestionState InMemoryStorage
fresh = record {
  idempotency = [];
  names = [];
  known = [];
  aggregator = aggregator;
  system = record {
    repo = record { requests = []; messages = []; revisions = []; interactions = [] };
    world = [];
  };
}

abbrev photo : ParsedMessage
photo = record {
  whatsapp_id = "m1";
  sender = "+551";
  sender_name = none;
  type = MessageType.image;
  timestamp = 42;
  text = null;
  caption = str "the wall";
  media_id = str "media-1";
  mime_type = str "image/png";
  filename = null;
}

abbrev message : Message
message = record {
  id = "m1";
  type = MessageType.image;
  order = 0;
  received_at = 42;
  text = none;
  caption = some "the wall";
  media_id = some "media-1";
  mime_type = some "image/png";
  filename = none;
  raw_ref = some "inbound/m1";
  transcript = none;
  processing_status = pending;
}

abbrev greeting : Message
greeting = record {
  id = "m0";
  type = MessageType.text;
  order = 0;
  received_at = 41;
  text = some "hello";
  caption = none;
  media_id = none;
  mime_type = none;
  filename = none;
  raw_ref = none;
  transcript = none;
  processing_status = pending;
}
