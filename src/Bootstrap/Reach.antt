-- ===== src/Bootstrap/Reach.antt =====
-- Messages to the owner, from settings that were accepted.
use whatsapp_automatic_plann.Prelude.{
  ℕ, ◌≡◌, refl, ap, sym, ◌∙◌, All, true, false, String, Option, none, some, List, [], ◌∷◌, keep,
  inl, inr, arith, Bool-cases,
}
use whatsapp_automatic_plann.Prelude.Texts.{Text, codes}
use whatsapp_automatic_plann.Workflow.Enums.{Intent, intent_value}
use whatsapp_automatic_plann.Domain.Enums.{Channel, email, whatsapp, both, includes}
use whatsapp_automatic_plann.Domain.Models.{Request}
use whatsapp_automatic_plann.Errors.{Action, Result, ok, err, after, and_then-eq-ok}
use whatsapp_automatic_plann.Providers.{Attachment, OutboundMessage}
use whatsapp_automatic_plann.Nlp.Classifier.{ClassificationResult, is_low_confidence}
use whatsapp_automatic_plann.Config.Settings.{
  ReadSettings, Settings, Secrets, settings_of, given, lacks_contact,
}
use whatsapp_automatic_plann.Config.Settings.Bounds.{settings_of-IsInBounds}
use whatsapp_automatic_plann.Hitl.Messages.{
  classification_links, approval_links, compose_classification_notification,
  compose_delivery_notification,
}
use whatsapp_automatic_plann.Hitl.Dispatcher.{
  ChannelTarget, Targets, concrete_channels, send_one, send_each, send,
}
use whatsapp_automatic_plann.Hitl.Service.{HitlCodec, notify_classification, deliver_document}
use whatsapp_automatic_plann.Bootstrap.{
  Adapters, target_for, targets_of, signer_of, notifications_of,
}

-- The contact that the settings have for a channel.
abbrev pub contact_of : Settings → Channel → Option String
contact_of settings email = settings.owner_email
contact_of settings whatsapp = settings.owner_whatsapp
contact_of settings both = none

module _ {W : Type 0} (settings : Settings) (adapters : Adapters W) (body : Text)
    (subject : Option String) (files : List Attachment) where
  -- The adapters' notifiers of the channels are called, one after another, with the message for the
  -- owner's contact; the ids are what they give, and the outside what they leave.
  pub data GoesOut : List Channel → W → List (Channel × String) → W → Type 0 where
    all_sent : {w : W} → GoesOut [] w [] w
    sent :
        {c : Channel} {cs : List Channel} {w w' w'' : W} {id : String}
        {ids : List (Channel × String)} (notify : OutboundMessage → Action W String)
        (recipient : String)
        → adapters.notifiers c ≡ some notify
        → contact_of settings c ≡ some recipient
        → notify
            (record { recipient = recipient; body = body; subject = subject; attachments = files })
            w
          ≡ (ok id, w')
        → GoesOut cs w' ids w''
        → GoesOut (c ∷ cs) w ((c, id) ∷ ids) w''

  -- The call returns, and the message has gone out on each concrete channel that the channel
  -- includes, email first, and on no other.
  abbrev pub IsSent : Channel → W → Result (List (Channel × String)) × W → Type 0
  IsSent channel w x =
      (ids : List (Channel × String)) × (w' : W) × (x ≡ (ok ids, w'))
      × GoesOut (keep (includes channel) concrete_channels) w ids w'

module _ {W : Type 0} where
  -- The notifier returns whatever it is given.
  abbrev pub Returns : (OutboundMessage → Action W String) → Type 0
  Returns notifier = (m : OutboundMessage) (w : W) → (id : String) × ((notifier m w).0 ≡ ok id)

  -- A contact that is given has a target, with the notifier of its channel.
  target_for-given :
      (contact : Option String) (notifier : Option (OutboundMessage → Action W String))
      {target : Option (ChannelTarget W)}
      → given contact ≡ true
      → target_for contact notifier ≡ ok target
      → (notify : OutboundMessage → Action W String) × (recipient : String) × (target
          ≡ some (record { notifier = notify; recipient = recipient }))
        × (notifier ≡ some notify)
        × (contact ≡ some recipient)
  unfolding target_for
  target_for-given none notifier g h = cc
  target_for-given (some recipient) none g h = absurd (ground arith)
  target_for-given (some recipient) (some notify) {target} g h =
      (notify, recipient, ground arith, refl, refl)

lacks_contact-given :
    (s : Settings) (channel : Channel)
    → lacks_contact s channel ≡ false
    → (includes channel email ≡ true → given s.owner_email ≡ true)
      × (includes channel whatsapp ≡ true → given s.owner_whatsapp ≡ true)
unfolding lacks_contact
lacks_contact-given s channel h = (λ e. ground arith, λ e. ground arith)

module _ {W : Type 0} (settings : Settings) (adapters : Adapters W) where
  -- The channel has a target, from its contact and its notifier, which returns.
  abbrev IsServed : Targets W → Channel → Type 0
  IsServed targets c =
      (notify : OutboundMessage → Action W String) × (recipient : String) × (targets c
        ≡ some (record { notifier = notify; recipient = recipient }))
      × (adapters.notifiers c ≡ some notify)
      × (contact_of settings c ≡ some recipient)
      × Returns notify

  send_each-GoesOut :
      (targets : Targets W) (cs : List Channel) (channel : Channel)
      → All (λ c. includes channel c ≡ true → IsServed targets c) cs
      → (body : Text) (subject : Option String) (files : List Attachment) (w : W)
      → (ids : List (Channel × String)) × (w' : W) × (send_each targets cs channel body subject
            files w
          ≡ (ok ids, w'))
        × GoesOut settings adapters body subject files (keep (includes channel) cs) w ids w'
  unfolding send_each send_one after
  send_each-GoesOut targets [] channel h body subject files w = ([], w, refl, all_sent)
  send_each-GoesOut targets (c ∷ cs) channel h body subject files w =
      elim (Bool-cases (includes channel c)) [
        | inr out ↦
            rw (out, send_each, keep)
              (send_each-GoesOut targets cs channel h.1 body subject files w)
        | inl reached ↦
            let (notify, recipient, e, n, o, returns) = h.0 reached in
            let message : OutboundMessage = record {
              recipient = recipient;
              body = body;
              subject = subject;
              attachments = files;
            } in
            let (id, f) = returns message w in
            let (ids, w'', g, rest) =
              send_each-GoesOut targets cs channel h.1 body subject files (notify message w).1 in
            rw (reached, send_each, keep)
              (rw (e, send_one)
                (rw (f, after)
                  (rw (g, after)
                    (
                      (c, id) ∷ ids,
                      w'',
                      refl,
                      sent notify recipient n o (ap (λ x. (x, (notify message w).1)) f) rest,
                    ))))
      ]

  targets_of-IsServed :
      (targets : Targets W) (channel : Channel)
      → targets_of settings adapters ≡ ok targets
      → ((c : Channel) (n : OutboundMessage → Action W String)
          → adapters.notifiers c ≡ some n
          → Returns n)
      → lacks_contact settings channel ≡ false
      → All (λ c. includes channel c ≡ true → IsServed targets c) concrete_channels
  unfolding targets_of
  targets_of-IsServed targets channel h r l =
      let (by_email, e, k) =
        and_then-eq-ok (target_for settings.owner_email (adapters.notifiers email)) _ h in
      let (by_whatsapp, e', k') =
        and_then-eq-ok (target_for settings.owner_whatsapp (adapters.notifiers whatsapp)) _ k in
      let same = ap (λ x. elim x [ ok t ↦ t | err _ ↦ targets ]) k' in
      let contacts = lacks_contact-given settings channel l in
      (
        λ i.
            let (t, recipient, f, n, o) =
              target_for-given settings.owner_email (adapters.notifiers email) (contacts.0 i) e in
            (t, recipient, ap (λ x. x email) (sym same) ∙ f, n, o, r email t n),
        (
          λ i.
              let (t, recipient, f, n, o) =
                target_for-given settings.owner_whatsapp (adapters.notifiers whatsapp)
                  (contacts.1 i) e' in
              (t, recipient, ap (λ x. x whatsapp) (sym same) ∙ f, n, o, r whatsapp t n),
          tt,
        ),
      )

  -- From settings that could be constructed, and adapters for which the targets could be made and
  -- whose notifiers return, the notification of a classification and the delivery of a document, for
  -- a request with an intent, return, and each has gone out: on each concrete channel that the
  -- configured one includes, email first, the adapters' notifier was called once, with the composed
  -- message for the owner's contact, and nothing else was done outside.
  pub configured_channels-IsSent :
      (r : ReadSettings) (targets : Targets W)
      → settings_of r ≡ ok settings
      → targets_of settings adapters ≡ ok targets
      → ((c : Channel) (n : OutboundMessage → Action W String)
          → adapters.notifiers c ≡ some n
          → Returns n)
      → (lib : HitlCodec) (secrets : Secrets) (request : Request) (intent : Intent) (name : String)
        (result : ClassificationResult) (revision_no : ℕ) (files : List Attachment) (now : ℕ)
        (w : W)
      → request.intent ≡ some intent
      → let service = notifications_of settings secrets targets in
        let url = codes settings.public_base_url in
        let low = is_low_confidence result settings.classification_confidence_threshold in
        let notification =
          compose_classification_notification lib.percent request name result
            (classification_links lib.codec url (signer_of secrets) request now)
            low in
        let delivery =
          compose_delivery_notification request
            (intent_value intent)
            revision_no
            (approval_links lib.codec url (signer_of secrets) request now revision_no) in
        IsSent settings adapters notification.1
          (some notification.0)
          []
          settings.notify_channel
          w
          (notify_classification lib service request name result now w)
        × IsSent settings adapters delivery.1
            (some delivery.0)
            files
            settings.deliver_channel
            w
            (deliver_document lib service request revision_no files now w)
  unfolding send notify_classification deliver_document notifications_of after
  configured_channels-IsSent r targets h k n lib secrets request intent name result revision_no
        files now w i =
      let bounds = settings_of-IsInBounds r h in
      (
        send_each-GoesOut targets concrete_channels settings.notify_channel
            (targets_of-IsServed targets settings.notify_channel k n bounds.notify) _ _ [] w,
        rw (i, after)
            (send_each-GoesOut targets concrete_channels settings.deliver_channel
              (targets_of-IsServed targets settings.deliver_channel k n bounds.deliver) _ _ files
              w),
      )
