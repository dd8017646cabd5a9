-- ===== src/Bootstrap/Tests.antt =====
-- A notification by email, from the default settings.
use mathlib.Core.Path.{subst}
use whatsapp_automatic_plann.Prelude.{ap, get_or, ℕ, ◌≡◌, refl, String-discrete, String, some, []}
use whatsapp_automatic_plann.Prelude.Texts.{codes}
use whatsapp_automatic_plann.Domain.Enums.{Channel, email, whatsapp, both}
use whatsapp_automatic_plann.Errors.{ok, Action}
use whatsapp_automatic_plann.Providers.{OutboundMessage}
use whatsapp_automatic_plann.Config.Settings.Samples.{read, expected, accepted}
use whatsapp_automatic_plann.Workflow.Enums.{Intent, intent_value, awaiting_classification}
use whatsapp_automatic_plann.Domain.Models.{Request}
use whatsapp_automatic_plann.Nlp.Classifier.{ClassificationResult, is_low_confidence}
use whatsapp_automatic_plann.Hitl.Messages.{
  classification_links, approval_links, compose_classification_notification,
  compose_delivery_notification,
}
use whatsapp_automatic_plann.Hitl.Service.{HitlCodec, notify_classification, deliver_document}
use whatsapp_automatic_plann.Bootstrap.{targets_of, signer_of, notifications_of}
use whatsapp_automatic_plann.Bootstrap.Samples.{adapters, targets, libraries, secrets}
use whatsapp_automatic_plann.Bootstrap.Reach.{Returns, IsSent, configured_channels-IsSent}

targets_made : targets_of expected adapters ≡ ok targets
unfolding targets_of String-discrete
targets_made = refl

notify-Returns :
    (c : Channel) (n : OutboundMessage → Action ℕ String)
    → adapters.notifiers c ≡ some n
    → Returns n
notify-Returns email n h m w = subst Returns (ap (λ o. get_or o n) h) (λ m w. ("id", refl)) m w
notify-Returns whatsapp n h m w = cc
notify-Returns both n h m w = cc

abbrev request : Request
request = record {
  id = "req-0";
  client_id = "ana";
  client_name = some "Ana";
  state = awaiting_classification;
  intent = some Intent.quote;
  confidence = some 7;
  created_at = 1;
  updated_at = 2;
  normalized_transcript = some "paint two rooms";
  current_revision = 0;
  flags = [];
}

abbrev result : ClassificationResult
result = record { intent = Intent.quote; confidence = 7; rationale = "prices" }

abbrev lib : HitlCodec
lib = (libraries Intent.quote).hitl

configured_channels-IsSent_example :
    let service = notifications_of expected secrets targets in
    let url = codes expected.public_base_url in
    let low = is_low_confidence result expected.classification_confidence_threshold in
    let notification =
      compose_classification_notification lib.percent request "Ana" result
        (classification_links lib.codec url (signer_of secrets) request 5)
        low in
    let delivery =
      compose_delivery_notification request
        (intent_value Intent.quote)
        1
        (approval_links lib.codec url (signer_of secrets) request 5 1) in
    IsSent expected adapters notification.1
      (some notification.0)
      []
      expected.notify_channel
      0
      (notify_classification lib service request "Ana" result 5 0)
    × IsSent expected adapters delivery.1
        (some delivery.0)
        []
        expected.deliver_channel
        0
        (deliver_document lib service request 1 [] 5 0)
configured_channels-IsSent_example =
    configured_channels-IsSent expected adapters read targets accepted targets_made notify-Returns
      lib secrets request Intent.quote "Ana" result 1 [] 5 0 refl
