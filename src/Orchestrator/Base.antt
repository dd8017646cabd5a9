-- ===== src/Orchestrator/Base.antt =====
-- The state of `Orchestrator`, its helpers, and the records that its methods make.
use whatsapp_automatic_plann.Prelude.{ℕ, String, none, some, [], or_text}
use whatsapp_automatic_plann.Workflow.Enums.{Intent, received, Trigger}
use whatsapp_automatic_plann.Workflow.StateMachine.{next_state}
use whatsapp_automatic_plann.Domain.Models.{Request, OwnerInteraction, LlmMeta}
use whatsapp_automatic_plann.Errors.{Action, ok, pure, lift, ◌>>=◌, ◌>>◌}
use whatsapp_automatic_plann.Aggregation.{AggregatedRequest}
use whatsapp_automatic_plann.Documents.Generator.{GeneratedDocument}
use whatsapp_automatic_plann.Hitl.Service.{OwnerAction}
use whatsapp_automatic_plann.Persistence.Repository.{Repository, save_request}

-- The repository, and the state of everything outside.
pub record System (W : Type 0) : Type 0 where
  pub repo : Repository
  pub world : W

module _ {W : Type 0} where
  unfoldable pub in_world : {A : Type 0} → Action W A → Action (System W) A
  in_world m s = let (r, w) = m s.world in (r, record s { world = w })

  unfoldable pub on_repo : (Repository → Repository) → Action (System W) (Unit {0})
  on_repo f s = (ok tt, record s { repo = f s.repo })

  -- `_transition`
  unfoldable pub transition : Request → Trigger → ℕ → Action (System W) Request
  transition request trigger now = lift (next_state request.state trigger) >>= λ state.
      let updated : Request = record request { state = state; updated_at = now } in
      on_repo (save_request updated) >> pure updated

-- `_llm_meta`
unfoldable pub llm_meta : GeneratedDocument → LlmMeta
llm_meta doc = record {
  model = doc.model;
  input_tokens = doc.input_tokens;
  output_tokens = doc.output_tokens;
  cost_usd = doc.cost_usd;
  attempts = doc.attempts;
}

-- The request that `ingest` starts from.
unfoldable pub new_request : AggregatedRequest → String → ℕ → Request
new_request aggregated client_name now = record {
  id = aggregated.request_id;
  client_id = aggregated.client_id;
  client_name = some client_name;
  state = received;
  intent = some Intent.none;
  confidence = none;
  created_at = now;
  updated_at = now;
  normalized_transcript = none;
  current_revision = 0;
  flags = [];
}

unfoldable pub interaction_of : OwnerAction → ℕ → OwnerInteraction
interaction_of action received_at = record {
  id = action.action_id;
  request_id = action.request_id;
  kind = action.gate;
  decision = action.decision;
  channel = none;
  raw_response = none;
  received_at = received_at;
}

abbrev pub name_of : Request → String
name_of request = or_text request.client_name request.client_id
