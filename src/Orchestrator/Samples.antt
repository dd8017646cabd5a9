-- ===== src/Orchestrator/Samples.antt =====
-- Services, a request and a click for the tests.
use whatsapp_automatic_plann.Prelude.{ℕ, ◌+◌, false, String, none, some, [], ◌∷◌}
use whatsapp_automatic_plann.Workflow.Enums.{Intent, RequestState}
use whatsapp_automatic_plann.Domain.Enums.{OwnerDecision, approval}
use whatsapp_automatic_plann.Domain.Models.{Request}
use whatsapp_automatic_plann.Errors.{ok, err, external}
use whatsapp_automatic_plann.Hitl.Service.{OwnerAction}
use whatsapp_automatic_plann.Orchestrator.Stages.{Stages}
use whatsapp_automatic_plann.Orchestrator.Base.{System}
use whatsapp_automatic_plann.Errors.{Result}
use whatsapp_automatic_plann.Documents.Content.{plan_content}
use whatsapp_automatic_plann.Documents.Generator.{GeneratedDocument}

abbrev pub document : GeneratedDocument
document = record {
  content = plan_content (record {
    title = "Bathroom";
    overview = "";
    materials = [];
    phases = [];
    quality_checkpoints = [];
    cleanup = none;
    notes = none;
  });
  model = "gpt-4o";
  input_tokens = 1;
  output_tokens = 1;
  cost_usd = 0;
  attempts = 1;
}

-- Services that answer, but for the generator, whose answer is given; the world counts the calls.
abbrev pub stages_with : Result GeneratedDocument → Stages ℕ
stages_with answer = record {
  transcript = λ _ _ w. ("hello", w + 1);
  classify = λ _ w. (ok (record { intent = Intent.quote; confidence = 1; rationale = "" }), w + 1);
  generate = λ _ _ _ _ _ w. (answer, w + 1);
  render = λ _ _. ok [];
  put = λ _ _ _ w. (ok "ref", w + 1);
  notify_classification = λ _ _ _ _ w. (ok [], w + 1);
  deliver_document = λ _ _ _ _ w. (ok [], w + 1);
  confidence_threshold = 1;
  notify_on_none = false;
}

-- The generator is down.
abbrev pub stages : Stages ℕ
stages = stages_with (err (external "down"))

abbrev pub request_in : RequestState → Request
request_in state = record {
  id = "req-0";
  client_id = "ana";
  client_name = some "Ana";
  state = state;
  intent = some Intent.quote;
  confidence = some 1;
  created_at = 0;
  updated_at = 0;
  normalized_transcript = some "hello";
  current_revision = 2;
  flags = [];
}

abbrev pub system_in : RequestState → System ℕ
system_in state = record {
  repo = record {
    requests = ("req-0", request_in state) ∷ [];
    messages = [];
    revisions = [];
    interactions = [];
  };
  world = 0;
}

abbrev pub click : String → OwnerDecision → OwnerAction
click request_id decision = record {
  request_id = request_id;
  gate = approval;
  decision = decision;
  action_id = "click-1";
  intent = none;
  revision_no = 2;
  feedback = some "cheaper";
}
