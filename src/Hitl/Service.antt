-- ===== src/Hitl/Service.antt =====
-- src/wapp_planner/hitl/service.py
pub mod Links
use whatsapp_automatic_plann.Prelude.{ℕ, String, Option, none, some, List, []}
use whatsapp_automatic_plann.Prelude.Texts.{Text}
use whatsapp_automatic_plann.Workflow.Enums.{Intent, intent_value}
use whatsapp_automatic_plann.Domain.Enums.{Channel, OwnerInteractionKind, OwnerDecision}
use whatsapp_automatic_plann.Domain.Models.{Request}
use whatsapp_automatic_plann.Errors.{
  Action, Result, ok, attribute_error, lift, ◌>>=◌, and_then, or_raise,
}
use whatsapp_automatic_plann.Nlp.Classifier.{ClassificationResult, is_low_confidence}
use whatsapp_automatic_plann.Providers.{Attachment}
use whatsapp_automatic_plann.Hitl.Tokens.{TokenCodec, TokenSigner, ActionToken, verify}
use whatsapp_automatic_plann.Hitl.Dispatcher.{Targets, send}
use whatsapp_automatic_plann.Hitl.Messages.{
  classification_links, approval_links, compose_classification_notification,
  compose_delivery_notification,
}

pub record OwnerAction : Type 0 where
  pub request_id : String
  pub gate : OwnerInteractionKind
  pub decision : OwnerDecision
  pub action_id : String
  pub intent : Option Intent
  pub revision_no : ℕ
  pub feedback : Option String

pub record NotificationService (W : Type 0) : Type 0 where
  pub signer : TokenSigner
  pub targets : Targets W
  pub base_url : Text
  pub confidence_threshold : ℕ
  pub notify_channel : Channel
  pub deliver_channel : Channel

-- What the service takes from the standard library: `codec`, SHA-256 in hexadecimal digits, and
-- the format `:.0%` of a float.
pub record HitlCodec : Type 0 where
  pub codec : TokenCodec
  pub sha256 : Text → String
  pub percent : ℕ → String

module _ (lib : HitlCodec) {W : Type 0} (service : NotificationService W) where
  unfoldable pub notify_classification :
      Request → String → ClassificationResult → ℕ → Action W (List (Channel × String))
  notify_classification request client_name result now =
      let low = is_low_confidence result service.confidence_threshold in
      let links = classification_links lib.codec service.base_url service.signer request now in
      let (subject, body) =
        compose_classification_notification lib.percent request client_name result links low in
      send service.targets service.notify_channel body (some subject) []

  unfoldable pub deliver_document :
      Request → ℕ → List Attachment → ℕ → Action W (List (Channel × String))
  deliver_document request revision_no attachments now =
      let links =
        approval_links lib.codec service.base_url service.signer request now revision_no in
      lift (or_raise request.intent attribute_error) >>= λ intent.
      let (subject, body) =
        compose_delivery_notification request (intent_value intent) revision_no links in
      send service.targets service.deliver_channel body (some subject) attachments

  -- `_action_id` is `lib.sha256`.
  unfoldable pub resolve_action : Text → ℕ → Option String → Result OwnerAction
  resolve_action token_str now feedback =
      and_then (verify lib.codec service.signer token_str now) λ token. ok (record {
        request_id = token.request_id;
        gate = token.gate;
        decision = token.decision;
        action_id = lib.sha256 token_str;
        intent = token.intent;
        revision_no = token.revision_no;
        feedback = feedback;
      })
