-- ===== src/Bootstrap/CompletionTests.antt =====
-- A quote, from the message to the approval.
use whatsapp_automatic_plann.Prelude.{
  ℕ, ◌*◌, ◌^◌, ◌≡◌, refl, true, String-discrete, String, Option, none, some, [], ◌∷◌,
}
use whatsapp_automatic_plann.Prelude.Texts.{Text, codes, is_ascii, text_eq}
use whatsapp_automatic_plann.Prelude.Dict.{lookup, insert}
use whatsapp_automatic_plann.Workflow.Enums.{
  Intent, awaiting_classification, awaiting_approval, completed,
}
use whatsapp_automatic_plann.Workflow.StateMachine.{next_state, trigger_for}
use whatsapp_automatic_plann.Domain.Enums.{
  OwnerInteractionKind, OwnerDecision, email, classification, approval, confirm, approve, includes,
}
use whatsapp_automatic_plann.Hitl.Samples.{sample_codec}
use whatsapp_automatic_plann.Hitl.Tokens.{
  issue, verify, split, payload_of, rstrip, open_payload, pad,
}
use whatsapp_automatic_plann.Hitl.Service.{
  OwnerAction, resolve_action, notify_classification, deliver_document,
}
use whatsapp_automatic_plann.Hitl.Dispatcher.{send}
use whatsapp_automatic_plann.Orchestrator.Success.{AllReturn}
use whatsapp_automatic_plann.Domain.Models.{Request}
use whatsapp_automatic_plann.Nlp.Classifier.{is_actionable_intent, is_low_confidence}
use whatsapp_automatic_plann.Documents.Content.{DocumentContent}
use whatsapp_automatic_plann.Documents.Generator.{GeneratedDocument, build_user_prompt, attempt}
use whatsapp_automatic_plann.Media.Processor.{transcript_loop, segments_or_note, segments_for}
use whatsapp_automatic_plann.Orchestrator.Evolution.{stored}
use whatsapp_automatic_plann.Config.Settings.Samples.{read, expected, accepted}
use whatsapp_automatic_plann.Ingestion.Service.{
  IngestionState, receive, opened_body, take_each, take_in, accept, build_message, outside,
  message_of, in_aggregator, in_system, handle_displaced, media_for, process, process_each,
  flush_due,
}
use whatsapp_automatic_plann.Errors.{after, ok}
use whatsapp_automatic_plann.Domain.Models.{is_media}
use whatsapp_automatic_plann.Nlp.Prompts.{classification_system_prompt, generation_system_prompt}
use whatsapp_automatic_plann.Nlp.Classifier.{is_actionable}
use whatsapp_automatic_plann.Util.JsonIo.{extract_json_object}
use whatsapp_automatic_plann.Persistence.Repository.{
  save_request, set_messages, get_request, record_interaction, add_revision, get_revisions,
}
use whatsapp_automatic_plann.Ingestion.Registry.{resolve, registry_of, put_clients}
use whatsapp_automatic_plann.Prelude.Decimal.{decimal}
use whatsapp_automatic_plann.Aggregation
use whatsapp_automatic_plann.Orchestrator.Base.{
  new_request, on_repo, transition, in_world, interaction_of, llm_meta,
}
use whatsapp_automatic_plann.Orchestrator.Defs.{
  ingest, finish_ingest, apply_owner_action, act, generate_render_deliver, render_deliver,
  store_each,
}
use whatsapp_automatic_plann.Orchestrator.Wiring.{stages_of}
use whatsapp_automatic_plann.Ingestion.Idempotency.{claim}
use whatsapp_automatic_plann.Aggregation.{active}
use whatsapp_automatic_plann.Api.{returned, inbound, hitl_action}
use whatsapp_automatic_plann.Bootstrap.{
  notifications_of, signer_of, aggregator_of, tick, orchestrator_of,
}
use whatsapp_automatic_plann.Bootstrap.Runs.{Run, here, next, posted, ticked, shown}
use whatsapp_automatic_plann.Bootstrap.Completion.{hitl_action_completes}
use whatsapp_automatic_plann.Bootstrap.Samples.{
  digest, libraries, web, secrets, adapters, ctx, at_start, built, tally-IsInjective,
}

abbrev asked : IngestionState ℕ
asked =
    (tick (ctx Intent.quote).ingestion (100 * 10 ^ 6)
      (inbound (shown (ctx Intent.quote) (libraries Intent.quote).hitl 50) (1 ∷ [])
        (some (codes "sha256=abc")) 50 at_start).1).1

abbrev asking : Run (ctx Intent.quote) (libraries Intent.quote).hitl at_start asked
asking =
    next (next here (posted 50 (1 ∷ []) (some (codes "sha256=abc")) 50 at_start))
      (ticked (100 * 10 ^ 6) _)

abbrev quoted : Request
quoted = record {
  id = "";
  client_id = "+551";
  client_name = some "+551";
  state = awaiting_classification;
  intent = some Intent.quote;
  confidence = some 0;
  created_at = 100 * 10 ^ 6;
  updated_at = 100 * 10 ^ 6;
  normalized_transcript = some "[text @ ] hello";
  current_revision = 0;
  flags = "unknown_client" ∷ "low_confidence" ∷ [];
}

asked_request : lookup "" asked.system.repo.requests ≡ some quoted
unfolding tick inbound receive String-discrete after opened_body is_ascii text_eq lookup insert
    take_each take_in claim accept build_message outside message_of in_aggregator Aggregation.add
    handle_displaced process media_for in_system ingest new_request on_repo transition next_state
    in_world flush_due Aggregation.flush_due stages_of orchestrator_of process_each aggregator_of
    Aggregation.open_new Aggregation.emit resolve registry_of put_clients is_media
    classification_system_prompt extract_json_object finish_ingest is_actionable save_request
    set_messages notify_classification send includes notifications_of transcript_loop
    is_low_confidence segments_or_note segments_for
asked_request = refl

generates :
    (i : Intent) (text name : String) (f : Option String) (p : Option DocumentContent) (w : ℕ)
    → is_actionable_intent i ≡ true
    → (doc : GeneratedDocument) × (((ctx Intent.quote).orchestrator.generate
          (some i)
          text
          name
          f
          p
          w).0
        ≡ ok doc)
unfolding stages_of orchestrator_of is_actionable_intent after generation_system_prompt
    String-discrete build_user_prompt attempt extract_json_object
generates Intent.quote text name f p w a = (_, refl)
generates Intent.execution_plan text name f p w a = (_, refl)
generates Intent.none text name f p w a = cc

all_return : AllReturn (ctx Intent.quote).orchestrator
unfolding stages_of orchestrator_of deliver_document after send includes notifications_of
    String-discrete
all_return = record {
  generates = generates;
  renders = λ c basename. (_, refl);
  puts = λ key bytes type w. (key, refl);
  delivers = λ r i n atts now w e. rw (e, deliver_document) ((email, "id") ∷ [], refl);
}

abbrev confirm_link : Text
confirm_link = issue sample_codec (signer_of secrets) "" classification confirm 40 none 0

abbrev approve_link : Text
approve_link = issue sample_codec (signer_of secrets) "" approval approve 4000 none 1

abbrev action_of : OwnerInteractionKind → OwnerDecision → ℕ → Text → OwnerAction
action_of gate decision revision_no link = record {
  request_id = "";
  gate = gate;
  decision = decision;
  action_id = digest link;
  intent = none;
  revision_no = revision_no;
  feedback = none;
}

confirm_opens :
    resolve_action
      (libraries Intent.quote).hitl
      (ctx Intent.quote).notifications
      confirm_link
      50
      none
    ≡ ok (action_of classification confirm 0 confirm_link)
unfolding resolve_action signer_of verify split issue payload_of rstrip is_ascii notifications_of
    text_eq open_payload pad
confirm_opens = refl

approve_opens :
    resolve_action
      (libraries Intent.quote).hitl
      (ctx Intent.quote).notifications
      approve_link
      60
      none
    ≡ ok (action_of approval approve 1 approve_link)
unfolding resolve_action signer_of verify split issue payload_of rstrip is_ascii notifications_of
    text_eq open_payload pad
approve_opens = refl

abbrev confirmed : IngestionState ℕ
confirmed =
    (hitl_action (ctx Intent.quote) (libraries Intent.quote).hitl confirm_link none 50 51 52
      asked).1

unclicked : lookup (digest confirm_link) asked.system.repo.interactions ≡ none
unfolding hitl_action in_system tick inbound receive String-discrete after opened_body is_ascii
    text_eq lookup insert take_each take_in claim accept build_message outside message_of
    in_aggregator Aggregation.add handle_displaced process media_for ingest new_request on_repo
    transition next_state in_world flush_due Aggregation.flush_due stages_of orchestrator_of
    process_each aggregator_of Aggregation.open_new Aggregation.emit resolve registry_of put_clients
    is_media classification_system_prompt extract_json_object finish_ingest is_actionable
    save_request set_messages notify_classification send includes notifications_of transcript_loop
    is_low_confidence segments_or_note segments_for
unclicked = refl

awaits : stored "" confirmed.system ≡ some awaiting_approval
unfolding hitl_action in_system tick inbound receive String-discrete after opened_body is_ascii
    text_eq lookup insert take_each take_in claim accept build_message outside message_of
    in_aggregator Aggregation.add handle_displaced process media_for ingest new_request on_repo
    transition next_state in_world flush_due Aggregation.flush_due stages_of orchestrator_of
    process_each aggregator_of Aggregation.open_new Aggregation.emit resolve registry_of put_clients
    is_media classification_system_prompt extract_json_object finish_ingest is_actionable
    save_request set_messages notify_classification send includes notifications_of transcript_loop
    is_low_confidence segments_or_note segments_for resolve_action verify split issue payload_of
    rstrip signer_of open_payload pad apply_owner_action get_request record_interaction
    interaction_of act generate_render_deliver render_deliver store_each add_revision get_revisions
    deliver_document trigger_for build_user_prompt attempt generation_system_prompt llm_meta decimal
awaits = refl

unapproved : lookup (digest approve_link) confirmed.system.repo.interactions ≡ none
unfolding hitl_action in_system tick inbound receive String-discrete after opened_body is_ascii
    text_eq lookup insert take_each take_in claim accept build_message outside message_of
    in_aggregator Aggregation.add handle_displaced process media_for ingest new_request on_repo
    transition next_state in_world flush_due Aggregation.flush_due stages_of orchestrator_of
    process_each aggregator_of Aggregation.open_new Aggregation.emit resolve registry_of put_clients
    is_media classification_system_prompt extract_json_object finish_ingest is_actionable
    save_request set_messages notify_classification send includes notifications_of transcript_loop
    is_low_confidence segments_or_note segments_for resolve_action verify split issue payload_of
    rstrip signer_of open_payload pad apply_owner_action get_request record_interaction
    interaction_of act generate_render_deliver render_deliver store_each add_revision get_revisions
    deliver_document trigger_for build_user_prompt attempt generation_system_prompt llm_meta decimal
unapproved = refl

hitl_action_completes_example :
    ((hitl_action
        (ctx Intent.quote)
        (libraries Intent.quote).hitl
        confirm_link
        none
        50
        51
        52
        asked).0
      ≡ returned ("", awaiting_approval))
    × ((hitl_action
          (ctx Intent.quote)
          (libraries Intent.quote).hitl
          approve_link
          none
          60
          61
          62
          confirmed).0
        ≡ returned ("", completed))
    × (stored ""
          (hitl_action
            (ctx Intent.quote)
            (libraries Intent.quote).hitl
            approve_link
            none
            60
            61
            62
            confirmed).1.system
        ≡ some completed)
unfolding is_actionable_intent
hitl_action_completes_example =
    hitl_action_completes (libraries Intent.quote) web read expected secrets adapters [] 0
      (ctx Intent.quote) at_start asked accepted tally-IsInjective (built Intent.quote) asking
      confirm_link approve_link none none 50 51 52 60 61 62
      (action_of classification confirm 0 confirm_link) (action_of approval approve 1 approve_link)
      quoted Intent.quote confirmed _ all_return confirm_opens refl unclicked asked_request refl
      refl refl here approve_opens refl refl unapproved awaits here
