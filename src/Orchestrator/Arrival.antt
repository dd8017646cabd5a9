-- ===== src/Orchestrator/Arrival.antt =====
-- The arrival of a batch when the services answer.
use whatsapp_automatic_plann.Prelude.{
  ℕ, ◌≡◌, refl, ap, ◌∙◌, Bool, true, false, String, List, [], inl, inr, Bool-cases, if◌then◌else◌,
}
use whatsapp_automatic_plann.Prelude.Dict.{Dict}
use whatsapp_automatic_plann.Workflow.Enums.{
  aggregating, processing_media, classifying, awaiting_classification, discarded, window_closed,
  media_processed, classified_actionable, classified_none,
}
use whatsapp_automatic_plann.Workflow.StateMachine.{next_state}
use whatsapp_automatic_plann.Domain.Enums.{Channel}
use whatsapp_automatic_plann.Domain.Models.{Request}
use whatsapp_automatic_plann.Errors.{Result, ok, pure}
use whatsapp_automatic_plann.Providers.{DownloadedMedia}
use whatsapp_automatic_plann.Aggregation.{AggregatedRequest}
use whatsapp_automatic_plann.Nlp.Classifier.{
  ClassificationResult, is_actionable, is_actionable_intent,
}
use whatsapp_automatic_plann.Orchestrator.Stages.{Stages}
use whatsapp_automatic_plann.Orchestrator.Base.{System, in_world, new_request}
use whatsapp_automatic_plann.Orchestrator.Defs.{finish_ingest, ingest}
use whatsapp_automatic_plann.Orchestrator.Ingest.{from_classifying, to_classifying}
use whatsapp_automatic_plann.Orchestrator.Success.{
  Succeeds, succeeds, after-Succeeds, in_world-Succeeds, on_repo-Succeeds, transition-Succeeds,
}

module _ {W : Type 0} where
  -- The services that a batch needs return, whatever they are given.
  pub record Replies (stages : Stages W) : Type 0 where
    pub classifies :
        (text : String) (w : W)
        → (result : ClassificationResult) × ((stages.classify text w).0 ≡ ok result)
    pub notifies :
        (r : Request) (name : String) (result : ClassificationResult) (now : ℕ) (w : W)
        → (ids : List (Channel × String)) × ((stages.notify_classification r name result now w).0
            ≡ ok ids)

  -- The call returns.
  abbrev pub Returns : {A : Type 0} → Result A × System W → Type 0
  Returns = Succeeds (λ _ _. Unit {0})

  Succeeds-Returns :
      {A : Type 0} {Q : A → System W → Type 0} {x : Result A × System W} → Succeeds Q x → Returns x
  Succeeds-Returns (succeeds q) = succeeds tt

  pub Succeeds-ok :
      {A : Type 0} {Q : A → System W → Type 0} {x : Result A × System W}
      → Succeeds Q x
      → (a : A) × (x.0 ≡ ok a)
  Succeeds-ok (succeeds {a} q) = (a, refl)

module _ {W : Type 0} (stages : Stages W) (h : Replies stages) where
  notify_if-Returns :
      (b : Bool) (r : Request) (name : String) (result : ClassificationResult) (now : ℕ)
      (s : System W)
      → Succeeds
          (λ _ _. Unit {0})
          ((if b then in_world (stages.notify_classification r name result now) else pure []) s)
  notify_if-Returns true r name result now s =
      let (ids, e) = h.notifies r name result now s.world in
      Succeeds-Returns (in_world-Succeeds _ s ids e)
  notify_if-Returns false r name result now s = succeeds tt

  finish_ingest-Returns :
      (r : Request) (result : ClassificationResult) (name : String) (now : ℕ) (flags : List String)
      (s : System W)
      → r.state ≡ classifying
      → Returns (finish_ingest stages r result name now flags s)
  unfolding finish_ingest is_actionable
  finish_ingest-Returns r result name now flags s c =
      elim (Bool-cases (is_actionable_intent result.intent)) [
        | inl a ↦
            rw (a, finish_ingest)
              (after-Succeeds _ _
                (transition-Succeeds _ _ now awaiting_classification s
                  (ap (λ x. next_state x classified_actionable) c ∙ from_classifying.0))
                λ r₁ s₁ q.
                  let (ids, e) = h.notifies r₁ name result now s₁.world in
                  after-Succeeds _ _ (in_world-Succeeds _ s₁ ids e) λ _ s₂ q₂. succeeds tt)
        | inr a ↦
            rw (a, finish_ingest)
              (after-Succeeds _ _
                (transition-Succeeds _ _ now discarded s
                  (ap (λ x. next_state x classified_none) c ∙ from_classifying.1))
                λ r₁ s₁ q.
                  after-Succeeds _ _ (notify_if-Returns stages.notify_on_none r₁ name result now s₁)
                    λ _ s₂ q₂. succeeds tt)
      ]

  pub ingest-Returns :
      (aggregated : AggregatedRequest) (media : Dict DownloadedMedia) (name : String) (now : ℕ)
      (flags : List String) (s : System W)
      → Returns (ingest stages aggregated media name now flags s)
  unfolding ingest new_request
  ingest-Returns aggregated media name now flags s =
      after-Succeeds _ _ (on_repo-Succeeds _ s) λ _ s₁ _.
        after-Succeeds _ _ (on_repo-Succeeds _ s₁) λ _ s₂ _.
          after-Succeeds _ _
            (transition-Succeeds (new_request aggregated name now) _ now aggregating s₂
              to_classifying.0)
            λ r₁ s₃ q₁.
              after-Succeeds _ _
                (transition-Succeeds r₁ _ now processing_media s₃
                  (ap (λ r. next_state r.state window_closed) q₁.0 ∙ to_classifying.1))
                λ r₂ s₄ q₂. after-Succeeds _ _ (in_world-Succeeds _ s₄ _ refl) λ text s₅ _.
                  after-Succeeds _ _
                    (transition-Succeeds _ _ now classifying s₅
                      (ap (λ r. next_state r.state media_processed) q₂.0 ∙ to_classifying.2))
                    λ r₃ s₆ q₃.
                      let (result, e) = h.classifies text s₆.world in
                      after-Succeeds _ _ (in_world-Succeeds _ s₆ result e) λ result' s₇ _.
                        finish_ingest-Returns r₃ result' name now flags s₇ (ap (λ r. r.state) q₃.0)
