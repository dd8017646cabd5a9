-- ===== src/Api/Answers.antt =====
-- How the handlers answer, on every path.
use mathlib.Core.Path.{subst}
use whatsapp_automatic_plann.Prelude.{
  ℕ, ◌≡◌, refl, ap, sym, ◌∙◌, ◌⊎◌, inl, inr, true, false, String, Option, none, some, ◌++◌, arith,
  Option-cases,
}
use whatsapp_automatic_plann.Prelude.Texts.{Text, is_ascii, after_prefix}
use whatsapp_automatic_plann.Prelude.Dict.{lookup, lookup-insert}
use whatsapp_automatic_plann.Workflow.Enums.{RequestState, Trigger}
use whatsapp_automatic_plann.Workflow.StateMachine.{transitions, next_state, trigger_for}
use whatsapp_automatic_plann.Domain.Models.{Request, OwnerInteraction}
use whatsapp_automatic_plann.Errors.{
  Error, Result, ok, err, type_error, illegal_transition, after, Result-cases,
}
use whatsapp_automatic_plann.Providers.{Bytes}
use whatsapp_automatic_plann.Hitl.Tokens.{compare_digest}
use whatsapp_automatic_plann.Hitl.Service.{HitlCodec, OwnerAction, resolve_action}
use whatsapp_automatic_plann.Ingestion.Signature.{
  signature_prefix, is_valid_signature, is_valid_signature_lem,
}
use whatsapp_automatic_plann.Ingestion.Service.{IngestionState, in_system, opened_body, receive}
use whatsapp_automatic_plann.Orchestrator.Base.{System}
use whatsapp_automatic_plann.Orchestrator.Defs.{apply_owner_action}
use whatsapp_automatic_plann.Orchestrator.Recording.{recorded}
use whatsapp_automatic_plann.Orchestrator.Clicks.{unknown_refused, repeated_ignored, refused_spent}
use whatsapp_automatic_plann.Api.{
  AppContext, Answer, returned, http_exception, unhandled, token_answer, action_answer, inbound,
  hitl_action,
}

-- The state machine refuses with its own exception only.
next_state-refusal :
    (u : RequestState) (t : Trigger) {x : Error}
    → next_state u t ≡ err x
    → x ≡ illegal_transition u t
unfolding next_state
next_state-refusal u t h = ground (arith, Option-cases (transitions u t))

-- To check a signature can raise `TypeError` only.
is_valid_signature-raises :
    (hmac : Text → Bytes → Text) (body : Bytes) (header : Option Text) (app_secret : Text)
    {x : Error}
    → is_valid_signature hmac body header app_secret ≡ err x
    → x ≡ type_error
unfolding is_valid_signature compare_digest
is_valid_signature-raises hmac body none app_secret h = cc
is_valid_signature-raises hmac body (some header) app_secret h =
    ground (arith, Option-cases (after_prefix signature_prefix header))

module _ {W : Type 0} (ctx : AppContext W) where
  invalid_refused :
      (body : Bytes) (header : Option Text) (now : ℕ) (s : IngestionState W)
      → is_valid_signature ctx.ingestion.hmac body header ctx.ingestion.app_secret ≡ ok false
      → inbound ctx body header now s ≡ (http_exception 403 "invalid signature", s)
  unfolding inbound receive opened_body after
  invalid_refused body header now s e = rw (e, opened_body) refl

  unchecked_refused :
      (body : Bytes) (header : Option Text) (now : ℕ) (s : IngestionState W)
      → is_valid_signature ctx.ingestion.hmac body header ctx.ingestion.app_secret ≡ err type_error
      → inbound ctx body header now s ≡ (unhandled type_error, s)
  unfolding inbound receive opened_body after
  unchecked_refused body header now s e = rw (e, opened_body) refl

  -- A body whose header is not the prefix and the digest of the body under the application's
  -- secret, when that digest is in ASCII, is answered with 403, or ends the handler with a
  -- `TypeError`; and it changes nothing.
  pub inbound_unsigned :
      (body : Bytes) (header : Option Text) (now : ℕ) (s : IngestionState W)
      → is_ascii (ctx.ingestion.hmac ctx.ingestion.app_secret body) ≡ true
      → ¬ (header ≡ some (signature_prefix ++ ctx.ingestion.hmac ctx.ingestion.app_secret body))
      → (inbound ctx body header now s ≡ (http_exception 403 "invalid signature", s))
        ⊎ (inbound ctx body header now s ≡ (unhandled type_error, s))
  inbound_unsigned body header now s a h =
      let secret = ctx.ingestion.app_secret in
      elim (Result-cases (is_valid_signature ctx.ingestion.hmac body header secret)) [
        | inl (true, e) ↦
            absurd (h ((is_valid_signature_lem ctx.ingestion.hmac body header secret a).0 e))
        | inl (false, e) ↦ inl (invalid_refused body header now s e)
        | inr (x, e) ↦
            let type : x ≡ type_error =
              is_valid_signature-raises ctx.ingestion.hmac body header secret e in
            inr (unchecked_refused body header now s (e ∙ ap err type))
      ]

-- How a click is answered, with the state that it leaves.
module _ {W : Type 0} (ctx : AppContext W) (s : IngestionState W) where
  abbrev request_of : OwnerAction → Option Request
  request_of action = lookup action.request_id s.system.repo.requests

  abbrev click_of : OwnerAction → Option OwnerInteraction
  click_of action = lookup action.action_id s.system.repo.interactions

  pub data IsAnswered (now received_at : ℕ) (opens : Result OwnerAction)
      : Answer (String × RequestState) × IngestionState W → Type 0 where
    bad_link : {x : Error} → opens ≡ err x → IsAnswered now received_at opens (token_answer x, s)
    not_found :
        {action : OwnerAction}
        → opens ≡ ok action
        → request_of action ≡ none
        → IsAnswered now received_at opens (http_exception 404 "request not found", s)
    duplicate :
        {action : OwnerAction} {r : Request} {i : OwnerInteraction}
        → opens ≡ ok action
        → request_of action ≡ some r
        → click_of action ≡ some i
        → IsAnswered now received_at opens (returned (r.id, r.state), s)
    not_allowed :
        {action : OwnerAction} {r : Request} {x : Error}
        → opens ≡ ok action
        → request_of action ≡ some r
        → click_of action ≡ none
        → next_state r.state (trigger_for action.decision) ≡ err x
        → IsAnswered now received_at opens (
          http_exception 409 "action not allowed now",
          record s { system = recorded action received_at s.system },
        )
    allowed :
        {action : OwnerAction} {r : Request} {u : RequestState}
        → opens ≡ ok action
        → request_of action ≡ some r
        → click_of action ≡ none
        → next_state r.state (trigger_for action.decision) ≡ ok u
        → IsAnswered now received_at opens (
          action_answer (apply_owner_action ctx.orchestrator action now received_at s.system).0,
          record s {
            system = (apply_owner_action ctx.orchestrator action now received_at s.system).1;
          },
        )

module _ {W : Type 0} (ctx : AppContext W) (lib : HitlCodec) (token : Text)
    (feedback : Option String) (resolved_at now received_at : ℕ) (s : IngestionState W) where
  abbrev pub opens : Result OwnerAction
  opens = resolve_action lib ctx.notifications token resolved_at feedback

  abbrev Handled : Answer (String × RequestState) × IngestionState W → Type 0
  Handled = IsAnswered ctx s now received_at opens

  -- What the handler does with what the orchestrator gives.
  abbrev pub passed_on :
      Result Request × System W → Answer (String × RequestState) × IngestionState W
  passed_on (r, x) = (action_answer r, record s { system = x })

  pub hitl_action-opened :
      (action : OwnerAction)
      → opens ≡ ok action
      → hitl_action ctx lib token feedback resolved_at now received_at s
        ≡ passed_on (apply_owner_action ctx.orchestrator action now received_at s.system)
  unfolding hitl_action in_system
  hitl_action-opened action e = rw (e, hitl_action) refl

  hitl_action-bad :
      (x : Error)
      → opens ≡ err x
      → hitl_action ctx lib token feedback resolved_at now received_at s ≡ (token_answer x, s)
  unfolding hitl_action
  hitl_action-bad x e = rw (e, hitl_action) refl

  first_click :
      (action : OwnerAction) (r : Request)
      → opens ≡ ok action
      → request_of ctx s action ≡ some r
      → click_of ctx s action ≡ none
      → Handled (passed_on (apply_owner_action ctx.orchestrator action now received_at s.system))
  unfolding action_answer
  first_click action r e found new =
      elim (Result-cases (next_state r.state (trigger_for action.decision))) [
        | inl (u, edge) ↦ allowed e found new edge
        | inr (x, none_such) ↦
            let type = next_state-refusal r.state (trigger_for action.decision) none_such in
            rw
              (refused_spent ctx.orchestrator action s.system r x now received_at now received_at
                (recorded action received_at s.system) r found new none_such
                (rw lookup-insert (ground arith)) found).0
              (rw type (not_allowed e found new none_such))
      ]

  opened_click :
      (action : OwnerAction)
      → opens ≡ ok action
      → Handled (passed_on (apply_owner_action ctx.orchestrator action now received_at s.system))
  unfolding action_answer
  opened_click action e = elim (Option-cases (request_of ctx s action)) [
    | inl missing ↦
        rw (unknown_refused ctx.orchestrator action s.system now received_at missing)
          (not_found e missing)
    | inr (r, found) ↦ elim (Option-cases (click_of ctx s action)) [
      | inl new ↦ first_click action r e found new
      | inr (i, old) ↦
          rw (repeated_ignored ctx.orchestrator action s.system r i now received_at found old)
            (duplicate e found old)
    ]
  ]

  -- Every click is answered, by what its link opens to and what is stored: a link that does not
  -- open, by the answer to its error, and nothing changes; an action on a request that is not
  -- stored, with 404, and nothing changes; one that is recorded already, with the state of its
  -- request, and nothing changes; one that is new and that the state does not allow, with 409, and it
  -- is only recorded; and any other with what the orchestrator gives.
  pub hitl_action-IsAnswered :
      IsAnswered ctx s now received_at
        (resolve_action lib ctx.notifications token resolved_at feedback)
        (hitl_action ctx lib token feedback resolved_at now received_at s)
  hitl_action-IsAnswered = elim (Result-cases opens) [
    | inl (action, e) ↦ subst Handled (sym (hitl_action-opened action e)) (opened_click action e)
    | inr (x, e) ↦ subst Handled (sym (hitl_action-bad x e)) (bad_link e)
  ]
