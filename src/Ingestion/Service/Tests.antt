-- ===== src/Ingestion/Service/Tests.antt =====
-- The same webhook twice, and a flush while the classifier is down.
use whatsapp_automatic_plann.Prelude.{
  ℕ, ◌≡◌, refl, true, arith, not, keep, String-discrete, String, [], ◌∷◌,
}
use whatsapp_automatic_plann.Prelude.Dict.{lookup}
use whatsapp_automatic_plann.Errors.{after, ok, err, external}
use whatsapp_automatic_plann.Aggregation.{AggregatedRequest, OpenBucket, active, closed}
use whatsapp_automatic_plann.Aggregation.Invariant.{IsWellFormed, IsValid}
use whatsapp_automatic_plann.Aggregation.Flush.{requests}
use whatsapp_automatic_plann.Workflow.StateMachine.{next_state}
use whatsapp_automatic_plann.Orchestrator.Base.{new_request, on_repo, transition, in_world}
use whatsapp_automatic_plann.Orchestrator.Defs.{ingest}
use whatsapp_automatic_plann.Ingestion.Service.{
  IngestionState, in_system, media_for, process, flush_due,
}
use whatsapp_automatic_plann.Ingestion.Service.Flush.{flushed, flush_due-raised}
use whatsapp_automatic_plann.Ingestion.Service.Samples.{service, aggregator, fresh}

abbrev bucket : String → String → OpenBucket
bucket request_id client_id = record {
  request_id = request_id;
  client_id = client_id;
  started_at = 0;
  last_at = 0;
  messages = [];
}

abbrev due : AggregatedRequest
due = record { request_id = "r1"; client_id = "ana"; started_at = 0; last_at = 0; messages = [] }

abbrev waiting : IngestionState ℕ
waiting = record fresh {
  aggregator = record aggregator {
    opened = ("ana", bucket "r1" "ana") ∷ ("bo", bucket "r2" "bo") ∷ [];
  };
}

abbrev left : IngestionState ℕ
left =
    (process (service true) due 20
      (record waiting { aggregator = flushed 20 waiting.aggregator })).1

bucket-IsWellFormed :
    (request_id client_id : String) → IsWellFormed 100 client_id (bucket request_id client_id)
bucket-IsWellFormed request_id client_id = record {
  owned = refl;
  numbered = tt;
  within = omega arith;
}

waiting-IsValid : IsValid waiting.aggregator
unfolding lookup String-discrete
waiting-IsValid = record {
  unique = (refl, (refl, tt));
  buckets = (bucket-IsWellFormed "r1" "ana", (bucket-IsWellFormed "r2" "bo", tt));
}

due_requests :
    requests (keep (λ (_, b). not (active waiting.aggregator 20 b)) waiting.aggregator.opened)
    ≡ due ∷ record due { request_id = "r2"; client_id = "bo" } ∷ []
unfolding active closed
due_requests = refl

classifier_down :
    process (service true) due 20 (record waiting { aggregator = flushed 20 waiting.aggregator })
    ≡ (err (external "down"), left)
unfolding process media_for after in_system ingest on_repo transition in_world next_state
    new_request
classifier_down = refl

flush_due-raised_example :
    (flush_due (service true) 20 waiting ≡ (err (external "down"), left))
    × (flush_due (service true) 20 left ≡ (ok 0, left))
flush_due-raised_example =
    flush_due-raised (service true) 20 waiting left due
      (record due { request_id = "r2"; client_id = "bo" } ∷ []) (external "down") waiting-IsValid
      due_requests classifier_down
