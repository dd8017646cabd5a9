-- ===== src/Orchestrator/Ingest.antt =====
-- What the arrival of a batch of messages does to the stored requests.
use whatsapp_automatic_plann.Prelude.{
  ap, ℕ, ◌≡◌, refl, ◌∙◌, Bool, true, false, String, none, some, List, [], arith, inl, inr,
  Bool-cases, if◌then◌else◌,
}
use whatsapp_automatic_plann.Prelude.Dict.{Dict, lookup}
use whatsapp_automatic_plann.Workflow.Enums.{
  received, aggregating, processing_media, classifying, awaiting_classification, discarded, Intent,
  start_aggregation, window_closed, media_processed, classified_actionable, classified_none,
}
use whatsapp_automatic_plann.Workflow.Reaches.{here}
use whatsapp_automatic_plann.Workflow.StateMachine.{next_state}
use whatsapp_automatic_plann.Domain.Models.{Request}
use whatsapp_automatic_plann.Errors.{ok, Action, Result, pure}
use whatsapp_automatic_plann.Providers.{DownloadedMedia}
use whatsapp_automatic_plann.Aggregation.{AggregatedRequest}
use whatsapp_automatic_plann.Nlp.Classifier.{
  ClassificationResult, is_actionable, is_actionable_intent,
}
use whatsapp_automatic_plann.Persistence.Repository.{save_request, set_messages}
use whatsapp_automatic_plann.Orchestrator.Classified.{Gives, gives, IsFound, ingest-IsFound}
use whatsapp_automatic_plann.Orchestrator.Stages.{Stages}
use whatsapp_automatic_plann.Orchestrator.Base.{System, in_world, on_repo, new_request}
use whatsapp_automatic_plann.Orchestrator.Defs.{finish_ingest, ingest}
use whatsapp_automatic_plann.Orchestrator.Evolution.{
  Evolves, Evolves-refl, Ensures, IsKeyed, Tracks, after-Ensures, returned, raised, save-Evolves,
  save-Tracks, transition_moved, in_world-Ensures, on_repo-Ensures,
}

-- The intent is set, and the request awaits the owner if it is one that asks for a document, and
-- is discarded if not.
abbrev pub IsClassified : Request → Type 0
IsClassified r =
    (i : Intent) × (r.intent ≡ some i)
    × (r.state ≡ (if is_actionable_intent i then awaiting_classification else discarded))

pub from_classifying :
    (next_state classifying classified_actionable ≡ ok awaiting_classification)
    × (next_state classifying classified_none ≡ ok discarded)
unfolding next_state
from_classifying = (refl, refl)

pub to_classifying :
    (next_state received start_aggregation ≡ ok aggregating)
    × (next_state aggregating window_closed ≡ ok processing_media)
    × (next_state processing_media media_processed ≡ ok classifying)
unfolding next_state
to_classifying = (refl, refl, refl)

module _ {W : Type 0} (stages : Stages W) (about : String) (s₀ : System W) where
  -- A notification that the settings may turn off.
  notify_if-Ensures :
      {A : Type 0} (r : Request) (b : Bool) (m : Action W (List A)) (s : System W)
      → Evolves about s₀ s
      → Tracks about r s
      → Ensures about s₀ (λ _ s'. Tracks about r s') ((if b then in_world m else pure []) s)
  notify_if-Ensures r true m s h e = in_world-Ensures s₀ s r m h e
  notify_if-Ensures r false m s h e = returned h e

  finish_ingest-Ensures :
      (r : Request) (result : ClassificationResult) (client_name : String) (now : ℕ)
      (extra_flags : List String) (s : System W)
      → r.state ≡ classifying
      → Evolves about s₀ s
      → Tracks about r s
      → Ensures about s₀
          (λ r s'. Tracks about r s' × IsClassified r)
          (finish_ingest stages r result client_name now extra_flags s)
  unfolding finish_ingest is_actionable
  finish_ingest-Ensures r result client_name now extra_flags s c h e =
      elim (Bool-cases (is_actionable_intent result.intent)) [
        | inl a ↦
            rw (a, finish_ingest)
              (after-Ensures _ _
                (transition_moved s₀ s _ _ now
                  (ap (λ x. next_state x classified_actionable) c ∙ from_classifying.0) h e)
                λ r₁ s₁ h₁ q. after-Ensures _ _ (in_world-Ensures s₀ s₁ r₁ _ h₁ q.0) λ _ s₂ h₂ e₂.
                  returned h₂ (e₂, (result.intent, ground (arith, q.1), ground (arith, q.1))))
        | inr a ↦
            rw (a, finish_ingest)
              (after-Ensures _ _
                (transition_moved s₀ s _ _ now
                  (ap (λ x. next_state x classified_none) c ∙ from_classifying.1) h e)
                λ r₁ s₁ h₁ q.
                  after-Ensures _ _ (notify_if-Ensures r₁ stages.notify_on_none _ s₁ h₁ q.0)
                    λ _ s₂ h₂ e₂.
                      returned h₂ (e₂, (result.intent, ground (arith, q.1), ground (arith, q.1))))
      ]

-- To store the request that `ingest` starts from, under a new id.
new_save-Ensures :
    {W : Type 0} (aggregated : AggregatedRequest) (client_name : String) (now : ℕ) (s : System W)
    → IsKeyed s.repo
    → lookup aggregated.request_id s.repo.requests ≡ none
    → Ensures aggregated.request_id s
        (λ _ s'. Tracks aggregated.request_id (new_request aggregated client_name now) s')
        (on_repo (save_request (new_request aggregated client_name now)) s)
unfolding on_repo new_request
new_save-Ensures aggregated client_name now s keyed new =
    returned
      (save-Evolves s s (new_request aggregated client_name now) (Evolves-refl s keyed)
        (rw new here) refl)
      (save-Tracks _ s (new_request aggregated client_name now) refl)

-- The stored requests.
ingest-moves :
    {W : Type 0} (stages : Stages W) (aggregated : AggregatedRequest) (media : Dict DownloadedMedia)
    (client_name : String) (now : ℕ) (extra_flags : List String) (s : System W)
    → IsKeyed s.repo
    → lookup aggregated.request_id s.repo.requests ≡ none
    → Ensures aggregated.request_id s
        (λ r s'. Tracks aggregated.request_id r s' × IsClassified r)
        (ingest stages aggregated media client_name now extra_flags s)
unfolding ingest new_request set_messages
ingest-moves stages aggregated media client_name now extra_flags s keyed new =
    let r₀ = new_request aggregated client_name now in
    after-Ensures _ _ (new_save-Ensures aggregated client_name now s keyed new) λ _ s₁ h₁ e₁.
      after-Ensures _ _ (on_repo-Ensures s s₁ r₀ _ refl refl h₁ e₁) λ _ s₂ h₂ e₂.
        after-Ensures _ _ (transition_moved s s₂ r₀ _ now to_classifying.0 h₂ e₂) λ r₁ s₃ h₃ q₁.
          after-Ensures _ _
            (transition_moved s s₃ r₁ _ now
              (ap (λ r. next_state r.state window_closed) q₁.1 ∙ to_classifying.1) h₃ q₁.0)
            λ r₂ s₄ h₄ q₂. after-Ensures _ _ (in_world-Ensures s s₄ r₂ _ h₄ q₂.0) λ text s₅ h₅ e₅.
              after-Ensures _ _
                (transition_moved s s₅ (record r₂ { normalized_transcript = some text }) _ now
                  (ap (λ r. next_state r.state media_processed) q₂.1 ∙ to_classifying.2) h₅ e₅)
                λ r₃ s₆ h₆ q₃.
                  after-Ensures _ _ (in_world-Ensures s s₆ r₃ _ h₆ q₃.0) λ result s₇ h₇ e₇.
                    finish_ingest-Ensures stages aggregated.request_id s r₃ result client_name now
                      extra_flags s₇ (ap (λ r. r.state) q₃.1) h₇ e₇

-- What is ensured, with what is known of a result.
Ensures-and :
    {W : Type 0} {A : Type 0} {about : String} {s₀ : System W} {Q R : A → System W → Type 0}
    {x : Result A × System W}
    → Ensures about s₀ Q x
    → Gives R x
    → Ensures about s₀ (λ a s. Q a s × R a s) x
Ensures-and (returned h q) (gives r) = returned h (q, r)
Ensures-and (raised h) g = raised h

-- The arrival of a batch under a new id, however it ends, moves stored requests along edges of the
-- state machine only, a new one starting as received; it removes none, leaves every other request
-- than the one under that id as it was, and keeps each under its own id, when each was. If the call
-- returns, the request is the one under that id, in the state that is stored, with the intent and the
-- confidence that the classifier gives for the transcript of the batch's messages, and it awaits the
-- owner if that intent asks for a document, and is discarded if not.
pub ingest-Ensures :
    {W : Type 0} (stages : Stages W) (aggregated : AggregatedRequest) (media : Dict DownloadedMedia)
    (client_name : String) (now : ℕ) (extra_flags : List String) (s : System W)
    → IsKeyed s.repo
    → lookup aggregated.request_id s.repo.requests ≡ none
    → Ensures aggregated.request_id s
        (λ r s'.
          (Tracks aggregated.request_id r s' × IsClassified r)
          × IsFound stages aggregated media s r)
        (ingest stages aggregated media client_name now extra_flags s)
ingest-Ensures stages aggregated media client_name now extra_flags s keyed new =
    Ensures-and (ingest-moves stages aggregated media client_name now extra_flags s keyed new)
      (ingest-IsFound stages aggregated media client_name now extra_flags s)
