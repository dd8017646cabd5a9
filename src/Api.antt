-- ===== src/Api.antt =====
-- src/wapp_planner/api/app.py: the handlers of the HTTP application. The framework answers an
-- exception that a handler does not catch; here the handler ends with it.
pub mod Answers
mod Tests
use whatsapp_automatic_plann.Prelude.{ℕ, String, Option, none, some}
use whatsapp_automatic_plann.Prelude.Texts.{Text}
use whatsapp_automatic_plann.Workflow.Enums.{RequestState}
use whatsapp_automatic_plann.Domain.Models.{Request}
use whatsapp_automatic_plann.Errors.{
  Error, Result, ok, err, webhook_verification, signature_error, invalid_payload, invalid_token,
  expired_token, unknown_request, illegal_transition,
}
use whatsapp_automatic_plann.Providers.{Bytes}
use whatsapp_automatic_plann.Hitl.Service.{
  HitlCodec, NotificationService, OwnerAction, resolve_action,
}
use whatsapp_automatic_plann.Ingestion.Service.{
  IngestionService, IngestionState, in_system, verify_subscription, receive,
}
use whatsapp_automatic_plann.Orchestrator.Stages.{Stages}
use whatsapp_automatic_plann.Orchestrator.Defs.{apply_owner_action}

-- The services that the application is given; the orchestrator's are its stages.
pub record AppContext (W : Type 0) : Type 0 where
  pub ingestion : IngestionService W
  pub notifications : NotificationService W
  pub orchestrator : Stages W

-- How a handler ends: it returns, raises an `HTTPException`, or passes on what was raised.
pub data Answer (A : Type 0) : Type 0 where
  returned : A → Answer A
  http_exception : ℕ → String → Answer A
  unhandled : Error → Answer A

-- The `except` clauses of `verify`.
unfoldable pub verify_answer : {A : Type 0} → Result A → Answer A
verify_answer (ok a) = returned a
verify_answer (err webhook_verification) = http_exception 403 "verification failed"
verify_answer (err e) = unhandled e

-- Those of `inbound`.
unfoldable pub inbound_answer : {A : Type 0} → Result A → Answer A
inbound_answer (ok accepted) = returned accepted
inbound_answer (err signature_error) = http_exception 403 "invalid signature"
inbound_answer (err invalid_payload) = http_exception 400 "invalid payload"
inbound_answer (err e) = unhandled e

-- Those of `hitl_action` for the token, and for the action.
unfoldable pub token_answer : {A : Type 0} → Error → Answer A
token_answer invalid_token = http_exception 400 "invalid or expired link"
token_answer expired_token = http_exception 400 "invalid or expired link"
token_answer e = unhandled e

unfoldable pub action_answer : Result Request → Answer (String × RequestState)
action_answer (ok request) = returned (request.id, request.state)
action_answer (err (unknown_request _)) = http_exception 404 "request not found"
action_answer (err (illegal_transition _ _)) = http_exception 409 "action not allowed now"
action_answer (err e) = unhandled e

-- `health`
unfoldable pub health : Answer (String × String)
health = returned ("status", "ok")

module _ {W : Type 0} (ctx : AppContext W) where
  unfoldable pub verify : Option Text → Option Text → Text → Answer Text
  unfolding verify_answer
  verify mode token challenge =
      verify_answer (verify_subscription ctx.ingestion mode token challenge)

  unfoldable pub inbound : Bytes → Option Text → ℕ → IngestionState W → Answer ℕ × IngestionState W
  unfolding inbound_answer
  inbound body signature now s =
      let (r, s') = receive ctx.ingestion body signature now s in (inbound_answer r, s')

  module _ (lib : HitlCodec) where
    -- The clock is read for the token, for the action, and for its record.
    unfoldable pub hitl_action :
        Text
        → Option String
        → ℕ
        → ℕ
        → ℕ
        → IngestionState W
        → Answer (String × RequestState) × IngestionState W
    unfolding token_answer action_answer
    hitl_action token feedback resolved_at now received_at s =
        elim (resolve_action lib ctx.notifications token resolved_at feedback) [
          | err e ↦ (token_answer e, s)
          | ok action ↦
              let (r, s') =
                in_system (apply_owner_action ctx.orchestrator action now received_at) s in
              (action_answer r, s')
        ]
