-- ===== src/Orchestrator/Filing.antt =====
-- Which messages are stored: those of a batch that arrives, and no call changes others.
use whatsapp_automatic_plann.Orchestrator.Recording.{record_new, record_old, recorded}
use whatsapp_automatic_plann.Orchestrator.Defs.{
  finish_ingest, ingest, store_each, render_deliver, fail_generation, generate_render_deliver,
  renotify_classification, prior_content, act, apply_owner_action,
}
use whatsapp_automatic_plann.Orchestrator.Base.{
  System, transition, in_world, on_repo, new_request, interaction_of, name_of,
}
use whatsapp_automatic_plann.Hitl.Service.{OwnerAction}
use whatsapp_automatic_plann.Documents.Generator.{GeneratedDocument}
use whatsapp_automatic_plann.Documents.Content.{DocumentContent}
use whatsapp_automatic_plann.Persistence.Repository.{
  save_request, set_messages, get_request, add_revision,
}
use whatsapp_automatic_plann.Providers.{DownloadedMedia, Attachment}
use whatsapp_automatic_plann.Errors.{
  Error, generation_error, Action, Result, ok, err, after, Result-cases, pure,
}
use whatsapp_automatic_plann.Domain.Enums.{OwnerDecision, confirm, correct, reject, approve, revise}
use whatsapp_automatic_plann.Workflow.StateMachine.{next_state, trigger_for}
use whatsapp_automatic_plann.Workflow.Enums.{
  Trigger, start_aggregation, window_closed, media_processed, classified_actionable,
  classified_none, generated, rendered, fail,
}
use whatsapp_automatic_plann.Prelude.Dict.{Dict, insert, lookup}
use whatsapp_automatic_plann.Prelude.{
  ℕ, ◌≡◌, refl, Bool, true, false, String, Option, none, List, [], ◌∷◌, get_or, Bool-cases,
  Option-cases, inl, inr, if◌then◌else◌,
}
use whatsapp_automatic_plann.Domain.Models.{Message, Request}
use whatsapp_automatic_plann.Nlp.Classifier.{ClassificationResult, is_actionable}
use whatsapp_automatic_plann.Aggregation.{AggregatedRequest}
use whatsapp_automatic_plann.Orchestrator.Stages.{Stages}

module _ {W : Type 0} where
  -- The call ends with these messages stored.
  record Files {A : Type 0} (ms : Dict (List Message)) (x : Result A × System W) : Type 0 where
    filed : x.1.repo.messages ≡ ms

  after-Files :
      {A B : Type 0} {ms : Dict (List Message)} (x : Result A × System W)
      (f : A → Action (System W) B)
      → Files ms x
      → ((a : A) (s : System W) → s.repo.messages ≡ ms → Files ms (f a s))
      → Files ms (after x f)
  unfolding after
  after-Files (ok a, s) f h k = k a s h.filed
  after-Files (err e, s) f h k = record { filed = h.filed }

  transition-Files :
      {ms : Dict (List Message)} (r : Request) (trigger : Trigger) (now : ℕ) (s : System W)
      → s.repo.messages ≡ ms
      → Files ms (transition r trigger now s)
  unfolding transition after on_repo save_request
  transition-Files r trigger now s h = elim (Result-cases (next_state r.state trigger)) [
    | inl (u, e) ↦ rw (e, transition) (record { filed = h })
    | inr (x, e) ↦ rw (e, transition) (record { filed = h })
  ]

module _ {W : Type 0} (stages : Stages W) where
  finish_ingest-Files :
      {ms : Dict (List Message)} (r : Request) (result : ClassificationResult) (name : String)
      (now : ℕ) (flags : List String) (s : System W)
      → s.repo.messages ≡ ms
      → Files ms (finish_ingest stages r result name now flags s)
  unfolding finish_ingest in_world
  finish_ingest-Files {ms = ms} r result name now flags s h =
      elim (Bool-cases (is_actionable result)) [
        | inl a ↦
            rw (a, finish_ingest)
              (after-Files _ _ (transition-Files _ classified_actionable now s h) λ r₁ s₁ h₁.
                after-Files _ _ (record { filed = h₁ }) λ _ s₂ h₂. record { filed = h₂ })
        | inr a ↦
            rw (a, finish_ingest)
              (after-Files _ _ (transition-Files _ classified_none now s h) λ r₁ s₁ h₁.
                after-Files _ _ (told r₁ stages.notify_on_none s₁ h₁)
                  λ _ s₂ h₂. record { filed = h₂ })
      ]
    where
      told :
          (r₁ : Request) (b : Bool) (s₁ : System W)
          → s₁.repo.messages ≡ ms
          → Files ms (
              (if b then in_world (stages.notify_classification r₁ name result now) else pure [])
                s₁)
      told r₁ true s₁ h₁ = record { filed = h₁ }
      told r₁ false s₁ h₁ = record { filed = h₁ }

  -- The messages of a batch are stored, whatever happens after.
  pub messages-ingest :
      (aggregated : AggregatedRequest) (media : Dict DownloadedMedia) (name : String) (now : ℕ)
      (flags : List String) (s : System W)
      → (ingest stages aggregated media name now flags s).1.repo.messages
        ≡ insert aggregated.request_id aggregated.messages s.repo.messages
  unfolding ingest after on_repo save_request set_messages in_world
  messages-ingest aggregated media name now flags s =
      (after-Files _ _
        (transition-Files (new_request aggregated name now) start_aggregation now _ refl)
        λ r₁ s₁ h₁. after-Files _ _ (transition-Files r₁ window_closed now s₁ h₁) λ r₂ s₂ h₂.
          after-Files _ _ (transition-Files _ media_processed now _ h₂) λ r₃ s₃ h₃.
            after-Files _ _ (record { filed = h₃ })
              λ result s₄ h₄. finish_ingest-Files r₃ result name now flags s₄ h₄).filed

  store_each-Files :
      {ms : Dict (List Message)} (id : String) (n : ℕ) (atts : List Attachment) (refs : Dict String)
      (s : System W)
      → s.repo.messages ≡ ms
      → Files ms (store_each stages id n atts refs s)
  unfolding store_each in_world
  store_each-Files id n [] refs s h = record { filed = h }
  store_each-Files id n (att ∷ atts) refs s h =
      after-Files _ _ (record { filed = h }) λ ref s₁ h₁. store_each-Files id n atts _ s₁ h₁

  render_deliver-Files :
      {ms : Dict (List Message)} (r : Request) (doc : GeneratedDocument) (now : ℕ)
      (feedback : Option String) (s : System W)
      → s.repo.messages ≡ ms
      → Files ms (render_deliver stages r doc now feedback s)
  unfolding render_deliver in_world on_repo add_revision
  render_deliver-Files r doc now feedback s h =
      after-Files _ _ (record { filed = h })
        λ intent s₁ h₁.
          after-Files _ _ (record { filed = h₁ })
            λ attachments s₂ h₂.
              after-Files _ _ (store_each-Files r.id _ attachments [] s₂ h₂) λ refs s₃ h₃.
                after-Files _ _ (record { filed = h₃ })
                  λ _ s₄ h₄. after-Files _ _ (transition-Files _ generated now s₄ h₄) λ r₁ s₅ h₅.
                    after-Files _ _ (transition-Files r₁ rendered now s₅ h₅) λ r₂ s₆ h₆.
                      after-Files _ _ (record { filed = h₆ }) λ _ s₇ h₇. record { filed = h₇ }

  fail_generation-Files :
      {ms : Dict (List Message)} (r : Request) (e : Error) (now : ℕ) (s : System W)
      → s.repo.messages ≡ ms
      → Files ms (fail_generation stages r e now s)
  unfolding fail_generation
  fail_generation-Files r generation_error now s h =
      after-Files _ _ (transition-Files r fail now s h) λ _ s₁ h₁. record { filed = h₁ }
  fail_generation-Files r e now s h = record { filed = h }

  generate_render_deliver-Files :
      {ms : Dict (List Message)} (r : Request) (now : ℕ) (feedback : Option String)
      (previous : Option DocumentContent) (s : System W)
      → s.repo.messages ≡ ms
      → Files ms (generate_render_deliver stages r now feedback previous s)
  unfolding generate_render_deliver
  generate_render_deliver-Files r now feedback previous s h =
      elim (Result-cases
        (stages.generate r.intent (get_or r.normalized_transcript "") (name_of r) feedback previous
          s.world).0) [
            | inl (doc, e) ↦
                rw (e, generate_render_deliver) (render_deliver-Files r doc now feedback _ h)
            | inr (x, e) ↦ rw (e, generate_render_deliver) (fail_generation-Files r x now _ h)
          ]

  act-Files :
      {ms : Dict (List Message)} (decision : OwnerDecision) (action : OwnerAction) (r : Request)
      (now : ℕ) (s : System W)
      → s.repo.messages ≡ ms
      → Files ms (act stages decision action r now s)
  unfolding act on_repo save_request renotify_classification in_world
  act-Files confirm action r now s h = generate_render_deliver-Files r now none none s h
  act-Files correct action r now s h =
      after-Files _ _ (record { filed = h })
        λ _ s₁ h₁.
          after-Files _ _
            (after-Files _ _ (record { filed = h₁ })
              λ intent s₂ h₂.
                after-Files _ _ (record { filed = h₂ }) λ _ s₃ h₃. record { filed = h₃ })
            λ _ s₄ h₄. record { filed = h₄ }
  act-Files reject action r now s h = record { filed = h }
  act-Files approve action r now s h = record { filed = h }
  act-Files revise action r now s h =
      generate_render_deliver-Files r now action.feedback (prior_content stages r s) s h

  -- No owner action changes the messages.
  pub messages-apply_owner_action :
      (action : OwnerAction) (now received_at : ℕ) (s : System W)
      → (apply_owner_action stages action now received_at s).1.repo.messages ≡ s.repo.messages
  unfolding apply_owner_action get_request interaction_of
  messages-apply_owner_action action now received_at s =
      elim (Option-cases (lookup action.request_id s.repo.requests)) [
        | inl e ↦ rw (e, apply_owner_action) refl
        | inr (r, e) ↦ elim (Option-cases (lookup action.action_id s.repo.interactions)) [
          | inr (i, c) ↦
              rw (e, record_old (interaction_of action received_at) i s.repo c, apply_owner_action)
                refl
          | inl c ↦
              rw (e, record_new (interaction_of action received_at) s.repo c, apply_owner_action)
                (after-Files _ _
                  (transition-Files r (trigger_for action.decision) now
                    (recorded action received_at s) refl)
                  λ moved s₁ h₁. act-Files action.decision action moved now s₁ h₁).filed
        ]
      ]
