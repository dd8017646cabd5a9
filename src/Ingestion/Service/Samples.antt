-- ===== src/Ingestion/Service/Samples.antt =====
-- A service on which the tests run: it takes every body for the same webhook, with one text.
use whatsapp_automatic_plann.Prelude.{ℕ, ◌+◌, Bool, true, false, some, List, [], ◌∷◌}
use whatsapp_automatic_plann.Prelude.Texts.{codes}
use whatsapp_automatic_plann.Json.{str}
use whatsapp_automatic_plann.Workflow.Enums.{Intent}
use whatsapp_automatic_plann.Errors.{ok, err, external}
use whatsapp_automatic_plann.Providers.{StorageProvider}
use whatsapp_automatic_plann.Aggregation.{Aggregator}
use whatsapp_automatic_plann.Ingestion.Registry.{registry_of}
use whatsapp_automatic_plann.Ingestion.Downloader.{default_allowed_mime_prefixes}
use whatsapp_automatic_plann.Ingestion.Parser.{ParserCodec}
use whatsapp_automatic_plann.Ingestion.Parser.Webhook.{
  Inbound, Change, text, inbound, unsupported, carried, webhook_json,
}
use whatsapp_automatic_plann.Ingestion.Service.{IngestionService, IngestionState}
use whatsapp_automatic_plann.Orchestrator.Stages.{Stages}

abbrev pub codec : ParserCodec
codec = record { repr = λ _. "None"; fromtimestamp = λ _. ok 42; utc_now = 50 }

abbrev pub hello : Inbound
hello = record { id = "m1"; sender = "+551"; stamp = str "42"; at = 42; content = text "hello" }

abbrev pub entries : List (List Change)
entries =
    (carried (record { wa_id = "+551"; name = some "Ana" } ∷ [])
        (inbound hello ∷ unsupported "m2" "sticker" ∷ [])
      ∷ [])
    ∷ []

-- The world counts the calls; the classifier is down if `is_down`.
abbrev pub stages : Bool → Stages ℕ
stages is_down = record {
  transcript = λ _ _ w. ("hello", w + 1);
  classify = λ _ w. elim is_down [
    | true ↦ (err (external "down"), w + 1)
    | false ↦ (ok (record { intent = Intent.quote; confidence = 1; rationale = "" }), w + 1)
  ];
  generate = λ _ _ _ _ _ w. (err (external "down"), w + 1);
  render = λ _ _. ok [];
  put = λ _ _ _ w. (ok "ref", w + 1);
  notify_classification = λ _ _ _ _ w. (ok [], w + 1);
  deliver_document = λ _ _ _ _ w. (ok [], w + 1);
  confidence_threshold = 1;
  notify_on_none = false;
}

abbrev pub storage : StorageProvider ℕ
storage = record {
  put = λ key _ _ w. (ok key, w + 1);
  get = λ _ w. (ok [], w);
  exists = λ _ w. (ok true, w);
  delete = λ _ w. (ok tt, w);
}

abbrev pub service : Bool → IngestionService ℕ
service is_down = record {
  app_secret = codes "key";
  verify_token = codes "token";
  downloader = record {
    download = λ _ w. (ok (record { content = 1 ∷ []; mime_type = "image/png" }), w + 1);
    storage = storage;
    max_bytes = 10;
    allowed = default_allowed_mime_prefixes;
  };
  storage = storage;
  stages = stages is_down;
  registry = registry_of [];
  new_id = λ n. "req";
  hmac = λ _ _. codes "abc";
  loads = λ _. ok (webhook_json entries);
  parser = codec;
}

abbrev pub aggregator : Aggregator
aggregator = record { inactivity = 10; max_duration = 100; opened = []; made = 0 }

abbrev pub fresh : IngestionState ℕ
fresh = record {
  idempotency = [];
  names = [];
  known = [];
  aggregator = aggregator;
  system = record {
    repo = record { requests = []; messages = []; revisions = []; interactions = [] };
    world = 0;
  };
}
