-- ===== src/Bootstrap/HistoryTests.antt =====
-- A day of a program: a webhook with one message, a round of the flush worker, which finds no
-- document to make, and a click.
use whatsapp_automatic_plann.Prelude.{
  true, ◌⊎◌, ℕ, ◌*◌, ◌^◌, ◌≡◌, refl, String-discrete, none, some, [], ◌∷◌, not, keep, length, All,
}
use mathlib.Core.List.{mem-cons_self}
use whatsapp_automatic_plann.Domain.Models.{Message}
use whatsapp_automatic_plann.Domain.Enums.{pending}
use whatsapp_automatic_plann.Workflow.Enums.{MessageType}
use whatsapp_automatic_plann.Ingestion.Service.Holding.{Holds}
use whatsapp_automatic_plann.Bootstrap.Custody.{run-Holds, inbound-IsHeld}
use whatsapp_automatic_plann.Prelude.Texts.{Text, codes, is_ascii, text_eq}
use whatsapp_automatic_plann.Prelude.Dict.{lookup, insert}
use whatsapp_automatic_plann.Workflow.Enums.{Intent, discarded}
use whatsapp_automatic_plann.Workflow.StateMachine.{is_terminal, next_state}
use whatsapp_automatic_plann.Domain.Enums.{email, approval, approve, includes}
use whatsapp_automatic_plann.Hitl.Samples.{sample_codec}
use whatsapp_automatic_plann.Hitl.Tokens.{
  issue, verify, split, payload_of, rstrip, open_payload, pad,
}
use whatsapp_automatic_plann.Hitl.Service.{OwnerAction, resolve_action, notify_classification}
use whatsapp_automatic_plann.Hitl.Dispatcher.{send}
use whatsapp_automatic_plann.Orchestrator.Evolution.{stored}
use whatsapp_automatic_plann.Config.Settings.Samples.{read, expected, accepted}
use whatsapp_automatic_plann.Ingestion.Service.{
  IngestionState, receive, opened_body, take_each, take_in, accept, build_message, outside,
  raw_ref_of, message_of, in_aggregator, in_system, handle_displaced, media_for, process,
  process_each, flush_due,
}
use whatsapp_automatic_plann.Ingestion.Service.Soundness.{Sound}
use whatsapp_automatic_plann.Ingestion.Service.Lifetime.{Follows}
use whatsapp_automatic_plann.Errors.{after, ok}
use whatsapp_automatic_plann.Domain.Models.{is_media}
use whatsapp_automatic_plann.Nlp.Prompts.{classification_system_prompt}
use whatsapp_automatic_plann.Nlp.Classifier.{is_actionable}
use whatsapp_automatic_plann.Util.JsonIo.{extract_json_object}
use whatsapp_automatic_plann.Persistence.Repository.{save_request, set_messages}
use whatsapp_automatic_plann.Ingestion.Registry.{resolve, registry_of, put_clients}
use whatsapp_automatic_plann.Aggregation
use whatsapp_automatic_plann.Orchestrator.Base.{new_request, on_repo, transition, in_world}
use whatsapp_automatic_plann.Orchestrator.Defs.{ingest, finish_ingest}
use whatsapp_automatic_plann.Orchestrator.Wiring.{stages_of}
use whatsapp_automatic_plann.Ingestion.Idempotency.{claim, seen}
use whatsapp_automatic_plann.Orchestrator.Arrival.{Replies}
use whatsapp_automatic_plann.Aggregation.{active}
use whatsapp_automatic_plann.Aggregation.Flush.{requests}
use whatsapp_automatic_plann.Aggregation.Ids.{request_ids}
use whatsapp_automatic_plann.Ingestion.Service.Flush
use whatsapp_automatic_plann.Ingestion.Service.Triage.{IsTriaged, SameBut, flush_due-Triages}
use whatsapp_automatic_plann.Ingestion.Service.Acceptance.{IsHeld}
use whatsapp_automatic_plann.Ingestion.Service.Redelivery.{clocked}
use whatsapp_automatic_plann.Ingestion.Parser.{ParsedMessage}
use whatsapp_automatic_plann.Json.{str, null}
use whatsapp_automatic_plann.Api.{returned, inbound, hitl_action}
use whatsapp_automatic_plann.Bootstrap.{
  notifications_of, signer_of, aggregator_of, tick, orchestrator_of,
}
use whatsapp_automatic_plann.Bootstrap.Runs.{Run, here, next, posted, ticked, shown}
use whatsapp_automatic_plann.Bootstrap.History.{
  run-Follows, run-is_terminal, inbound_once, hitl_action_once,
}
use whatsapp_automatic_plann.Bootstrap.Samples.{
  tally, digest, libraries, web, secrets, adapters, ctx, at_start, built, tally-IsInjective,
}

abbrev signature : Text
signature = codes "sha256=abc"

-- Behind the webhook, and behind the round that finds the window closed.
abbrev collected : IngestionState ℕ
collected =
    (inbound (shown (ctx Intent.none) (libraries Intent.none).hitl 50) (1 ∷ []) (some signature) 50
      at_start).1

abbrev flushed : IngestionState ℕ
flushed = (tick (ctx Intent.none).ingestion (100 * 10 ^ 6) collected).1

abbrev morning : Run (ctx Intent.none) (libraries Intent.none).hitl at_start collected
morning = next here (posted 50 (1 ∷ []) (some signature) 50 at_start)

abbrev evening : Run (ctx Intent.none) (libraries Intent.none).hitl collected flushed
evening = next here (ticked (100 * 10 ^ 6) collected)

run-Follows_example :
    Follows collected flushed × Sound tally [] flushed.aggregator flushed.system.repo
run-Follows_example =
    run-Follows (libraries Intent.none) web read expected secrets adapters [] 0 (ctx Intent.none)
      at_start collected accepted tally-IsInjective (built Intent.none) morning flushed evening

-- The webhook is accepted with one message.
received :
    (inbound
      (shown (ctx Intent.none) (libraries Intent.none).hitl 50)
      (1 ∷ [])
      (some signature)
      50
      at_start).0
    ≡ returned 1
unfolding inbound receive String-discrete after opened_body is_ascii text_eq lookup insert take_each
    take_in claim accept build_message outside message_of in_aggregator Aggregation.add
    handle_displaced aggregator_of
received = refl

inbound_once_example :
    inbound
      (shown (ctx Intent.none) (libraries Intent.none).hitl 99)
      (1 ∷ [])
      (some signature)
      200
      flushed
    ≡ (returned 0, flushed)
inbound_once_example =
    inbound_once (libraries Intent.none) web read expected secrets adapters [] 0 (ctx Intent.none)
      at_start at_start accepted tally-IsInjective (built Intent.none) here (1 ∷ [])
      (some signature) 50 99 50 200 flushed received evening

-- The request has no document to make.
was_discarded : stored "" flushed.system ≡ some discarded
unfolding tick inbound receive String-discrete after opened_body is_ascii text_eq lookup insert
    take_each take_in claim accept build_message outside message_of in_aggregator Aggregation.add
    handle_displaced process media_for in_system ingest new_request on_repo transition next_state
    in_world flush_due Aggregation.flush_due stages_of orchestrator_of process_each aggregator_of
    Aggregation.open_new Aggregation.emit resolve registry_of put_clients is_media
    classification_system_prompt extract_json_object finish_ingest is_actionable save_request
    set_messages
was_discarded = refl

run-is_terminal_example : stored "" flushed.system ≡ some discarded
unfolding is_terminal
run-is_terminal_example =
    run-is_terminal (libraries Intent.none) web read expected secrets adapters [] 0
      (ctx Intent.none) at_start flushed accepted tally-IsInjective (built Intent.none)
      (next morning (ticked (100 * 10 ^ 6) collected)) flushed "" discarded here was_discarded refl

-- A click on a link for that request, which comes too late.
abbrev late_link : Text
late_link = issue sample_codec (signer_of secrets) "" approval approve 40 none 1

abbrev late_action : OwnerAction
late_action = record {
  request_id = "";
  gate = approval;
  decision = approve;
  action_id = digest late_link;
  intent = none;
  revision_no = 1;
  feedback = none;
}

late_opens :
    resolve_action (libraries Intent.none).hitl (ctx Intent.none).notifications late_link 50 none
    ≡ ok late_action
unfolding resolve_action signer_of verify split issue payload_of rstrip is_ascii notifications_of
    text_eq open_payload pad
late_opens = refl

abbrev night : IngestionState ℕ
night =
    (hitl_action (ctx Intent.none) (libraries Intent.none).hitl late_link none 50 51 52 flushed).1

hitl_action_once_example :
    (hitl_action
      (ctx Intent.none)
      (libraries Intent.none).hitl
      late_link
      (some "why")
      60
      61
      62
      night).1
    ≡ night
hitl_action_once_example =
    hitl_action_once (libraries Intent.none) web read expected secrets adapters [] 0
      (ctx Intent.none) at_start flushed accepted tally-IsInjective (built Intent.none)
      (next morning (ticked (100 * 10 ^ 6) collected)) late_link none (some "why") 50 51 52 60 61 62
      night late_action discarded late_opens was_discarded here

replies : Replies (ctx Intent.none).ingestion.stages
unfolding stages_of orchestrator_of classification_system_prompt extract_json_object
    notifications_of after String-discrete notify_classification send includes
replies = record {
  classifies = λ text w. (record { intent = Intent.none; confidence = 0; rationale = "" }, refl);
  notifies = λ r name result now w. ((email, "id") ∷ [], refl);
}

flush_due-Triages_example :
    let due = requests (
      keep
        (λ (_, b). not (active collected.aggregator (100 * 10 ^ 6) b))
        collected.aggregator.opened) in
    (s' : IngestionState ℕ) × (flush_due (ctx Intent.none).ingestion (100 * 10 ^ 6) collected
      ≡ (ok (length due), s'))
    × (s'.aggregator ≡ Flush.flushed (100 * 10 ^ 6) collected.aggregator)
    × All (IsTriaged s'.system) due
    × SameBut (request_ids due) collected s'
flush_due-Triages_example =
    flush_due-Triages (ctx Intent.none).ingestion (λ key w. ([], refl)) replies (100 * 10 ^ 6)
      collected
      (run-Follows (libraries Intent.none) web read expected secrets adapters [] 0 (ctx Intent.none)
        at_start at_start accepted tally-IsInjective (built Intent.none) here collected morning).1

abbrev greeting : Message
greeting = record {
  id = "m1";
  type = MessageType.text;
  order = 0;
  received_at = 42;
  text = some "hello";
  caption = none;
  media_id = none;
  mime_type = none;
  filename = none;
  raw_ref = none;
  transcript = none;
  processing_status = pending;
}

-- The webhook's message is in the bucket of its sender.
greeting_collected : Holds greeting "" collected.aggregator.opened collected.system.repo
unfolding inbound receive String-discrete after opened_body is_ascii text_eq lookup insert take_each
    take_in claim accept build_message outside message_of in_aggregator Aggregation.add
    handle_displaced aggregator_of Aggregation.open_new Aggregation.put_message
    Aggregation.new_bucket resolve registry_of put_clients raw_ref_of
greeting_collected =
    Holds.collected "+551"
      (record {
        request_id = "";
        client_id = "+551";
        started_at = 50;
        last_at = 50;
        messages = greeting ∷ [];
      })
      refl refl mem-cons_self

run-Holds_example : Holds greeting "" flushed.aggregator.opened flushed.system.repo
run-Holds_example =
    run-Holds (libraries Intent.none) web read expected secrets adapters [] 0 (ctx Intent.none)
      at_start collected accepted tally-IsInjective (built Intent.none) morning greeting "" flushed
      (λ key w. ([], refl)) replies evening greeting_collected

abbrev parsed_greeting : ParsedMessage
parsed_greeting = record {
  whatsapp_id = "m1";
  sender = "+551";
  sender_name = some "Ana";
  type = MessageType.text;
  timestamp = 42;
  text = str "hello";
  caption = null;
  media_id = null;
  mime_type = null;
  filename = null;
}

greeting_opened :
    opened_body (clocked (ctx Intent.none).ingestion 50) (1 ∷ []) (some signature)
    ≡ ok (parsed_greeting ∷ [])
unfolding opened_body String-discrete is_ascii text_eq lookup insert
greeting_opened = refl

inbound-IsHeld_example :
    All
      (λ p. (seen p.whatsapp_id at_start.idempotency ≡ true) ⊎ IsHeld p.whatsapp_id flushed)
      (parsed_greeting ∷ [])
inbound-IsHeld_example =
    inbound-IsHeld (libraries Intent.none) web read expected secrets adapters [] 0 (ctx Intent.none)
      at_start at_start accepted tally-IsInjective (built Intent.none) here (1 ∷ [])
      (some signature) (parsed_greeting ∷ []) 50 50 flushed (λ key w. ([], refl)) replies
      greeting_opened received evening
