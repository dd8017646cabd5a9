-- ===== src/Orchestrator/Defs.antt =====
-- The methods of `Orchestrator`. A call that raises leaves the repository as it was then.
use whatsapp_automatic_plann.Prelude.{
  ℕ, ◌+◌, String, ◌<>◌, Option, none, some, List, [], ◌∷◌, ◌++◌, get_or, if◌then◌else◌,
}
use whatsapp_automatic_plann.Prelude.Decimal.{decimal}
use whatsapp_automatic_plann.Prelude.Dict.{Dict, lookup, insert}
use whatsapp_automatic_plann.Workflow.Enums.{
  intent_value, start_aggregation, window_closed, media_processed, classified_actionable,
  classified_none, generated, rendered, fail,
}
use whatsapp_automatic_plann.Workflow.StateMachine.{trigger_for}
use whatsapp_automatic_plann.Domain.Enums.{OwnerDecision, confirm, correct, revise}
use whatsapp_automatic_plann.Domain.Models.{Request}
use whatsapp_automatic_plann.Errors.{
  Error, Action, ok, err, unknown_request, generation_error, attribute_error, validation_error,
  pure, raise, lift, ◌>>=◌, ◌>>◌, or_raise,
}
use whatsapp_automatic_plann.Providers.{Attachment, DownloadedMedia}
use whatsapp_automatic_plann.Aggregation.{AggregatedRequest}
use whatsapp_automatic_plann.Nlp.Classifier.{
  ClassificationResult, is_actionable, is_low_confidence, one,
}
use whatsapp_automatic_plann.Documents.Content.{DocumentContent}
use whatsapp_automatic_plann.Documents.Generator.{GeneratedDocument}
use whatsapp_automatic_plann.Documents.Renderer.{pdf_mime, docx_mime}
use whatsapp_automatic_plann.Hitl.Service.{OwnerAction}
use whatsapp_automatic_plann.Persistence.Repository.{
  save_request, get_request, set_messages, add_revision, latest_revision, record_interaction,
}
use whatsapp_automatic_plann.Orchestrator.Stages.{Stages}
use whatsapp_automatic_plann.Orchestrator.Base.{
  System, in_world, on_repo, transition, llm_meta, new_request, interaction_of, name_of,
}

module _ {W : Type 0} (stages : Stages W) where
  -- The end of `ingest`, on the result of the classifier.
  unfoldable pub finish_ingest :
      Request → ClassificationResult → String → ℕ → List String → Action (System W) Request
  finish_ingest request result client_name now extra_flags =
      let low = is_low_confidence result stages.confidence_threshold in
      let flags = if low then extra_flags ++ "low_confidence" ∷ [] else extra_flags in
      let classified : Request = record request {
        intent = some result.intent;
        confidence = some result.confidence;
        flags = flags;
      } in
      if is_actionable result
      then (do
        request' ← transition classified classified_actionable now
        in_world (stages.notify_classification request' client_name result now)
        pure request')
      else (do
        request' ← transition classified classified_none now
        (if stages.notify_on_none
            then in_world (stages.notify_classification request' client_name result now)
            else pure [])
        pure request')

  unfoldable pub ingest :
      AggregatedRequest
      → Dict DownloadedMedia
      → String
      → ℕ
      → List String
      → Action (System W) Request
  ingest aggregated media client_name now extra_flags = do
    on_repo (save_request (new_request aggregated client_name now))
    on_repo (set_messages aggregated.request_id aggregated.messages)
    r₁ ← transition (new_request aggregated client_name now) start_aggregation now
    r₂ ← transition r₁ window_closed now
    text ← in_world (λ w. let (t, w') = stages.transcript aggregated.messages media w in (ok t, w'))
    r₃ ← transition (record r₂ { normalized_transcript = some text }) media_processed now
    result ← in_world (stages.classify text)
    finish_ingest r₃ result client_name now extra_flags

  -- The loop of `_store_artifacts`; the references by content type.
  unfoldable pub store_each :
      String → ℕ → List Attachment → Dict String → Action (System W) (Dict String)
  store_each request_id revision_no [] refs = pure refs
  store_each request_id revision_no (att ∷ atts) refs = do
    ref ← in_world (
        stages.put (request_id <> "/r" <> decimal revision_no <> "/" <> att.filename) att.content
          att.content_type)
    store_each request_id revision_no atts (insert att.content_type ref refs)

  -- What `_generate_render_deliver` does once there is a document.
  unfoldable pub render_deliver :
      Request → GeneratedDocument → ℕ → Option String → Action (System W) Request
  render_deliver request doc now feedback =
      let revision_no = request.current_revision + 1 in
      do
        intent ← lift (or_raise request.intent attribute_error)
        attachments ← lift (
            stages.render doc.content
              (intent_value intent <> "-" <> request.id <> "-r" <> decimal revision_no))
        refs ← store_each request.id revision_no attachments []
        on_repo (
            add_revision (record {
              id = request.id <> "-rev-" <> decimal revision_no;
              request_id = request.id;
              revision_no = revision_no;
              structured_content = doc.content;
              feedback = feedback;
              pdf_ref = lookup pdf_mime refs;
              docx_ref = lookup docx_mime refs;
              llm_meta = llm_meta doc;
              created_at = now;
            }))
        r₁ ← transition (record request { current_revision = revision_no }) generated now
        r₂ ← transition r₁ rendered now
        in_world (stages.deliver_document r₂ revision_no attachments now)
        pure r₂

  -- The handler of `GenerationError`: the failure is recorded, and the error raised again.
  unfoldable pub fail_generation : Request → Error → ℕ → Action (System W) Request
  fail_generation request generation_error now =
      transition request fail now >> raise generation_error
  fail_generation request e now = raise e

  -- `_generate_render_deliver`
  unfoldable pub generate_render_deliver :
      Request → ℕ → Option String → Option DocumentContent → Action (System W) Request
  generate_render_deliver request now feedback previous s =
      let (r, w) =
        stages.generate request.intent (get_or request.normalized_transcript "") (name_of request)
          feedback previous s.world in
      let s' = record s { world = w } in
      elim r [
        | ok doc ↦ render_deliver request doc now feedback s'
        | err e ↦ fail_generation request e now s'
      ]

  -- `_renotify_classification`; a result with no intent is not valid.
  unfoldable pub renotify_classification : Request → ℕ → Action (System W) (Unit {0})
  renotify_classification request now = do
    intent ← lift (or_raise request.intent validation_error)
    in_world (
        stages.notify_classification request (name_of request)
          (record { intent = intent; confidence = one; rationale = "Corrected by owner." }) now)
    pure tt

  -- The content of the revision before, for a new one.
  unfoldable pub prior_content : Request → System W → Option DocumentContent
  prior_content request s = elim (latest_revision request.id s.repo) [
    | none ↦ none
    | some revision ↦ some revision.structured_content
  ]

  -- What each decision does behind its transition.
  unfoldable pub act : OwnerDecision → OwnerAction → Request → ℕ → Action (System W) Request
  act confirm action request now = generate_render_deliver request now none none
  act correct action request now = do
    let corrected : Request = record request { intent = action.intent }
    on_repo (save_request corrected)
    renotify_classification corrected now
    pure corrected
  act revise action request now =
      λ s. generate_render_deliver request now action.feedback (prior_content request s) s
  act _ action request now = pure request

  -- `apply_owner_action`; `received_at` is the time that the interaction's default reads.
  unfoldable pub apply_owner_action : OwnerAction → ℕ → ℕ → Action (System W) Request
  apply_owner_action action now received_at s = elim (get_request action.request_id s.repo) [
    | none ↦ raise (unknown_request action.request_id) s
    | some request ↦
        let (first, repo) = record_interaction (interaction_of action received_at) s.repo in
        if first
        then (transition request (trigger_for action.decision) now >>= λ moved.
              act action.decision action moved now)
            (record s { repo = repo })
        else pure request s
  ]
