-- ===== src/Bootstrap/Samples.antt =====
-- Adapters and libraries on which the tests run, and the program that is put together from them.
use whatsapp_automatic_plann.Prelude.{
  ℕ, zero, suc, ◌+◌, ◌≡◌, refl, ap, true, String-discrete, String, none, some, [], ◌∷◌, ◌%◌,
}
use whatsapp_automatic_plann.Prelude.Texts.{Text, codes}
use whatsapp_automatic_plann.Documents.Content.{QuoteContent, ExecutionPlanContent}
use whatsapp_automatic_plann.Json.{null}
use whatsapp_automatic_plann.Workflow.Enums.{Intent}
use whatsapp_automatic_plann.Domain.Enums.{email, whatsapp, both}
use whatsapp_automatic_plann.Errors.{ok, err, external, Action}
use whatsapp_automatic_plann.Providers.{OutboundMessage}
use whatsapp_automatic_plann.Config.Settings.{Secrets, pos}
use whatsapp_automatic_plann.Config.Settings.Samples.{expected}
use whatsapp_automatic_plann.Nlp.Classifier.{at_least_zero}
use whatsapp_automatic_plann.Hitl.Dispatcher.{Targets}
use whatsapp_automatic_plann.Hitl.Samples.{sample_codec}
use whatsapp_automatic_plann.Ingestion.Parser.Webhook.{webhook_json}
use whatsapp_automatic_plann.Ingestion.Registry.{registry_of}
use whatsapp_automatic_plann.Ingestion.Service.{IngestionState}
use whatsapp_automatic_plann.Ingestion.Service.Samples.{codec, entries}
use whatsapp_automatic_plann.Ingestion.Service.Soundness.{IsInjective}
use whatsapp_automatic_plann.Orchestrator.Wiring.{Libraries, stages_of}
use whatsapp_automatic_plann.Api.{AppContext}
use whatsapp_automatic_plann.Bootstrap.{
  Adapters, WebhookLibraries, targets_of, target_for, notifications_of, orchestrator_of,
  downloader_of, aggregator_of, build_app,
}

-- The world counts the messages.
abbrev pub notify : OutboundMessage → Action ℕ String
notify m w = (ok "id", w + 1)

-- The model answers with an object.
abbrev pub adapters : Adapters ℕ
adapters = record {
  llm = λ _ _ model _ w. (
    ok (record {
      text = codes "{}";
      model = model;
      input_tokens = 1;
      output_tokens = 1;
      cost_usd = 0;
    }),
    w,
  );
  media = record {
    transcribe = λ _ _ _ w. (err (external "down"), w);
    describe = λ _ _ _ _ w. (ok "", w);
    extract_audio = λ _ w. (ok [], w);
    sample_frames = λ _ _ w. (ok [], w);
    extract = λ _ _ w. (ok "", w);
  };
  storage = record {
    put = λ key _ _ w. (ok key, w);
    get = λ _ w. (ok [], w);
    exists = λ _ w. (ok true, w);
    delete = λ _ w. (ok tt, w);
  };
  download = λ _ w. (err (external "down"), w);
  notifiers = λ channel. elim channel [ email ↦ some notify | whatsapp ↦ none | both ↦ none ];
}

abbrev pub targets : Targets ℕ
targets = λ channel. elim channel [
  | email ↦ some (record { notifier = notify; recipient = "owner@example.com" })
  | whatsapp ↦ none
  | both ↦ none
]

-- An id for each call.
abbrev pub tally : ℕ → String
tally zero = ""
tally (suc n) = String.◌∷◌ "r" (tally n)

tail-eq : (s t : String) → String.◌∷◌ "r" s ≡ String.◌∷◌ "r" t → s ≡ t
tail-eq s t h = cc

pub tally-IsInjective : IsInjective tally
tally-IsInjective zero zero h = refl
tally-IsInjective zero (suc k) h = cc
tally-IsInjective (suc j) zero h = cc
tally-IsInjective (suc j) (suc k) h = ap suc (tally-IsInjective j k (tail-eq (tally j) (tally k) h))

abbrev total : Text → ℕ
total [] = 0
total (c ∷ text) = c + total text

abbrev pub digest : Text → String
digest text = tally (total text % 97)

abbrev pub quote : QuoteContent
quote = record {
  title = "Painting";
  prepared_for = "Ana";
  scope_summary = "Two rooms";
  line_items = [];
  subtotal = 0;
  tax = none;
  total = 0;
  assumptions = [];
  exclusions = [];
  validity = none;
  notes = none;
}

abbrev pub plan : ExecutionPlanContent
plan = record {
  title = "Bathroom";
  overview = "";
  materials = [];
  phases = [];
  quality_checkpoints = [];
  cleanup = none;
  notes = none;
}

-- The model finds this intent.
abbrev pub libraries : Intent → Libraries ℕ
libraries intent = record {
  isoformat = λ _. "";
  error_text = λ _. "";
  loads = λ _. ok null;
  read_fields =
      λ _. some (record { intent = intent; confidence = at_least_zero 0; rationale = "" });
  content = record {
    loads = λ _. some null;
    dumps = λ _. "{}";
    read_quote = λ _. some quote;
    read_plan = λ _. some plan;
  };
  sleep = λ _ w. w;
  rendering = record {
    formats = record { fixed = λ _. "0"; general = λ _. "0" };
    build_pdf = λ _. ok [];
    save_docx = λ _. ok [];
  };
  hitl = record { codec = sample_codec; sha256 = digest; percent = λ _. "0%" };
}

abbrev pub web : WebhookLibraries
web = record {
  hmac = λ _ _. codes "abc";
  loads = λ _. ok (webhook_json entries);
  parser = codec;
  new_id = tally;
}

abbrev pub secrets : Secrets
secrets = record {
  openai_api_key = "openai";
  whatsapp_access_token = "access";
  whatsapp_phone_number_id = "1";
  whatsapp_verify_token = "token";
  whatsapp_app_secret = "key";
  smtp_host = "localhost";
  smtp_port = pos 25;
  smtp_username = "planner";
  smtp_password = "";
}

abbrev pub ctx : Intent → AppContext ℕ
ctx intent =
    let notifications = notifications_of expected secrets targets in
    let stages = stages_of (libraries intent) (orchestrator_of expected adapters notifications) in
    record {
      ingestion = record {
        app_secret = codes "key";
        verify_token = codes "token";
        downloader = downloader_of expected adapters;
        storage = adapters.storage;
        stages = stages;
        registry = registry_of [];
        new_id = tally;
        hmac = web.hmac;
        loads = web.loads;
        parser = codec;
      };
      notifications = notifications;
      orchestrator = stages;
    }

abbrev pub at_start : IngestionState ℕ
at_start = record {
  idempotency = [];
  names = [];
  known = [];
  aggregator = aggregator_of expected;
  system = record {
    repo = record { requests = []; messages = []; revisions = []; interactions = [] };
    world = 0;
  };
}

pub built :
    (intent : Intent)
    → build_app (libraries intent) web expected secrets adapters [] 0 ≡ ok (ctx intent, at_start)
unfolding build_app targets_of target_for String-discrete
built intent = refl
