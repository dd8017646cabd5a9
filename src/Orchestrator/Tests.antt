-- ===== src/Orchestrator/Tests.antt =====
-- Owner actions on one request that awaits the approval of its second revision.
use whatsapp_automatic_plann.Prelude.{◌≡◌, refl, String-discrete, some, []}
use whatsapp_automatic_plann.Prelude.Dict.{insert, lookup}
use whatsapp_automatic_plann.Workflow.Enums.{Intent, awaiting_approval, completed}
use whatsapp_automatic_plann.Workflow.StateMachine.{next_state, trigger_for}
use whatsapp_automatic_plann.Domain.Enums.{revise}
use whatsapp_automatic_plann.Errors.{ok, err, generation_error, illegal_transition}
use whatsapp_automatic_plann.Aggregation.{AggregatedRequest}
use whatsapp_automatic_plann.Nlp.Classifier.{is_actionable_intent}
use whatsapp_automatic_plann.Orchestrator.Classified.{IsFound}
use whatsapp_automatic_plann.Orchestrator.Ingest.{IsClassified, ingest-Ensures}
use whatsapp_automatic_plann.Orchestrator.Defs.{ingest, apply_owner_action}
use whatsapp_automatic_plann.Orchestrator.Evolution.{Ensures, Tracks}
use whatsapp_automatic_plann.Orchestrator.Recording.{recorded}
use whatsapp_automatic_plann.Orchestrator.Base.{interaction_of}
use whatsapp_automatic_plann.Orchestrator.OwnerActions.{apply_owner_action-Ensures}
use whatsapp_automatic_plann.Orchestrator.Clicks.{refused_spent}
use whatsapp_automatic_plann.Orchestrator.Samples.{
  stages, stages_with, document, request_in, system_in, click,
}
use whatsapp_automatic_plann.Orchestrator.Success.{Succeeds, AllReturn, IsDelivered}
use whatsapp_automatic_plann.Orchestrator.Asking.{revised, Generates, apply_owner_action-delivers}
use whatsapp_automatic_plann.Orchestrator.Failure.{failed_now, apply_owner_action-fails}
use whatsapp_automatic_plann.Documents.Generator.{GeneratedDocument}

apply_owner_action-Ensures_example :
    Ensures "req-0"
      (system_in awaiting_approval)
      (λ r s'. Tracks "req-0" r s')
      (apply_owner_action stages (click "req-0" revise) 7 8 (system_in awaiting_approval))
apply_owner_action-Ensures_example =
    apply_owner_action-Ensures stages (click "req-0" revise) 7 8 (system_in awaiting_approval)
      (refl, tt)

-- A click on `revise` that comes when the request is completed, and one more.
refused_spent_example :
    let s' = recorded (click "req-0" revise) 8 (system_in completed) in
    (apply_owner_action stages (click "req-0" revise) 7 8 (system_in completed)
      ≡ (err (illegal_transition completed (trigger_for revise)), s'))
    × (apply_owner_action stages (click "req-0" revise) 17 18 s' ≡ (ok (request_in completed), s'))
unfolding lookup String-discrete next_state trigger_for interaction_of insert
refused_spent_example =
    refused_spent stages (click "req-0" revise) (system_in completed) (request_in completed)
      (illegal_transition completed (trigger_for revise)) 7 8 17 18
      (recorded (click "req-0" revise) 8 (system_in completed)) (request_in completed) refl refl
      refl refl refl

abbrev batch : AggregatedRequest
batch = record {
  request_id = "req-1";
  client_id = "bo";
  started_at = 1;
  last_at = 2;
  messages = [];
}

ingest-Ensures_example :
    Ensures batch.request_id
      (system_in awaiting_approval)
      (λ r s'.
        (Tracks batch.request_id r s' × IsClassified r)
        × IsFound stages batch [] (system_in awaiting_approval) r)
      (ingest stages batch [] "Bo" 7 [] (system_in awaiting_approval))
unfolding lookup String-discrete
ingest-Ensures_example =
    ingest-Ensures stages batch [] "Bo" 7 [] (system_in awaiting_approval) (refl, tt) refl

all_return : AllReturn (stages_with (ok document))
all_return = record {
  generates = λ i text name f p w a. (document, refl);
  renders = λ c basename. ([], refl);
  puts = λ key bytes type w. ("ref", refl);
  delivers = λ r i n atts now w e. ([], refl);
}

apply_owner_action-delivers_example :
    (doc : GeneratedDocument) × Generates
      (stages_with (ok document))
      revise
      (click "req-0" revise)
      (request_in awaiting_approval)
      (system_in awaiting_approval)
      doc
    × Succeeds
        (λ r' s'. IsDelivered (request_in awaiting_approval) doc (some "cheaper") r' s')
        (apply_owner_action
          (stages_with (ok document))
          (click "req-0" revise)
          7
          8
          (system_in awaiting_approval))
unfolding lookup String-discrete is_actionable_intent
apply_owner_action-delivers_example =
    apply_owner_action-delivers (stages_with (ok document)) all_return (click "req-0" revise) 7 8
      (request_in awaiting_approval) Intent.quote (system_in awaiting_approval) refl refl revised
      refl refl

apply_owner_action-fails_example :
    let out =
      apply_owner_action
        (stages_with (err generation_error))
        (click "req-0" revise)
        7
        8
        (system_in awaiting_approval) in
    (out.0 ≡ err generation_error)
    × (lookup "req-0" out.1.repo.requests ≡ some (failed_now (request_in awaiting_approval) 7))
unfolding lookup String-discrete
apply_owner_action-fails_example =
    apply_owner_action-fails (stages_with (err generation_error)) (click "req-0" revise) 7 8
      (request_in awaiting_approval) (system_in awaiting_approval) 1 refl refl refl revised refl
