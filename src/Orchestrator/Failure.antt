-- ===== src/Orchestrator/Failure.antt =====
-- What a decision of the owner that asks for a document leads to when the generator gives up.
use whatsapp_automatic_plann.Prelude.{
  ℕ, ◌≡◌, refl, ap, sym, ◌∙◌, String, Option, none, get_or, some,
}
use whatsapp_automatic_plann.Prelude.Dict.{lookup}
use whatsapp_automatic_plann.Workflow.Enums.{RequestState, generating, failed, fail}
use whatsapp_automatic_plann.Workflow.StateMachine.{is_terminal, next_state}
use whatsapp_automatic_plann.Domain.Enums.{OwnerDecision}
use whatsapp_automatic_plann.Domain.Models.{Request}
use whatsapp_automatic_plann.Errors.{ok, err, generation_error, after}
use whatsapp_automatic_plann.Documents.Content.{DocumentContent}
use whatsapp_automatic_plann.Hitl.Service.{OwnerAction}
use whatsapp_automatic_plann.Persistence.Repository.{save_request, get_request}
use whatsapp_automatic_plann.Orchestrator.Stages.{Stages}
use whatsapp_automatic_plann.Orchestrator.Base.{
  System, on_repo, transition, interaction_of, name_of,
}
use whatsapp_automatic_plann.Orchestrator.Recording.{record_new}
use whatsapp_automatic_plann.Orchestrator.Defs.{
  fail_generation, generate_render_deliver, act, apply_owner_action,
}
use whatsapp_automatic_plann.Orchestrator.Delivery.{lookup-saved}
use whatsapp_automatic_plann.Orchestrator.Asking.{
  AsksFor, confirmed, revised, asked, feedback_of, previous_of, previous_of-moved, moved,
  moved_system, transition-moved,
}

abbrev pub failed_now : Request → ℕ → Request
failed_now r now = record r { state = failed; updated_at = now }

-- The system in which the failure is recorded.
abbrev failed_system : {W : Type 0} → Request → ℕ → W → System W → System W
failed_system r now w s = record s { repo = save_request (failed_now r now) s.repo; world = w }

from_generating : next_state generating fail ≡ ok failed
unfolding next_state is_terminal
from_generating = refl

module _ {W : Type 0} (stages : Stages W) where
  generate_render_deliver-fails :
      (r : Request) (now : ℕ) (feedback : Option String) (previous : Option DocumentContent)
      (s : System W) (w : W)
      → r.state ≡ generating
      → stages.generate r.intent
          (get_or r.normalized_transcript "")
          (name_of r)
          feedback
          previous
          s.world
        ≡ (err generation_error, w)
      → generate_render_deliver stages r now feedback previous s
        ≡ (err generation_error, failed_system r now w s)
  unfolding generate_render_deliver fail_generation transition on_repo after
  generate_render_deliver-fails r now feedback previous s w g e =
      rw (e, generate_render_deliver)
        (rw (ap (λ u. next_state u fail) g ∙ from_generating, transition)
          (ap (λ x. (err generation_error, failed_system r now x.1 s)) e))

  act-fails :
      {d : OwnerDecision} {u : RequestState}
      → AsksFor d u
      → (action : OwnerAction) (r : Request) (now : ℕ) (s : System W) (w : W) → r.state ≡ generating
      → stages.generate r.intent
          (get_or r.normalized_transcript "")
          (name_of r)
          (feedback_of d action)
          (previous_of stages d r s)
          s.world
        ≡ (err generation_error, w)
      → act stages d action r now s ≡ (err generation_error, failed_system r now w s)
  unfolding act
  act-fails confirmed action r now s w g e = generate_render_deliver-fails r now _ _ s w g e
  act-fails revised action r now s w g e = generate_render_deliver-fails r now _ _ s w g e

  apply_owner_action-failing :
      (action : OwnerAction) (now received_at : ℕ) (r : Request) (s : System W) (w : W)
      → lookup action.request_id s.repo.requests ≡ some r
      → lookup action.action_id s.repo.interactions ≡ none
      → AsksFor action.decision r.state
      → stages.generate r.intent
          (get_or r.normalized_transcript "")
          (name_of r)
          (feedback_of action.decision action)
          (previous_of stages action.decision r s)
          s.world
        ≡ (err generation_error, w)
      → apply_owner_action stages action now received_at s ≡ (
        err generation_error,
        failed_system (moved r now) now w (moved_system r now action received_at s),
      )
  unfolding apply_owner_action get_request interaction_of after
  apply_owner_action-failing action now received_at r s w e new asks g =
      rw (e, record_new (interaction_of action received_at) s.repo new, apply_owner_action)
        (rw (transition-moved r now _ (asked asks) action received_at s, after)
          (act-fails asks action (moved r now) now (moved_system r now action received_at s) w refl
            (ap
                (λ p.
                  stages.generate r.intent (get_or r.normalized_transcript "") (name_of r)
                    (feedback_of action.decision action) p s.world)
                (previous_of-moved stages asks r now action received_at s)
              ∙ g)))

  -- When the owner confirms a request that awaits the classification, or asks for a revision of one
  -- that awaits the approval, with a link that is used for the first time, and the generator raises
  -- its error, the call raises it too, and the request, when it is stored under its own id, is
  -- stored as failed.
  pub apply_owner_action-fails :
      (action : OwnerAction) (now received_at : ℕ) (r : Request) (s : System W) (w : W)
      → lookup action.request_id s.repo.requests ≡ some r
      → r.id ≡ action.request_id
      → lookup action.action_id s.repo.interactions ≡ none
      → AsksFor action.decision r.state
      → stages.generate r.intent
          (get_or r.normalized_transcript "")
          (name_of r)
          (feedback_of action.decision action)
          (previous_of stages action.decision r s)
          s.world
        ≡ (err generation_error, w)
      → ((apply_owner_action stages action now received_at s).0 ≡ err generation_error)
        × (lookup action.request_id
              (apply_owner_action stages action now received_at s).1.repo.requests
            ≡ some (failed_now r now))
  apply_owner_action-fails action now received_at r s w e own new asks g =
      let failing = apply_owner_action-failing action now received_at r s w e new asks g in
      (
        ap (λ x. x.0) failing,
        ap (λ x. lookup action.request_id x.1.repo.requests) failing
            ∙ ap
                (λ id.
                  lookup id
                    (save_request (failed_now r now)
                      (moved_system r now action received_at s).repo).requests)
                (sym own)
            ∙ lookup-saved (failed_now r now) _,
      )
