-- ===== src/Hitl/Dispatcher.antt =====
-- src/wapp_planner/hitl/dispatcher.py. A dict keyed by channels is a function.
use whatsapp_automatic_plann.Prelude.{String, true, false, Option, none, some, List, [], ◌∷◌}
use whatsapp_automatic_plann.Prelude.Texts.{Text}
use whatsapp_automatic_plann.Domain.Enums.{Channel, email, whatsapp, includes}
use whatsapp_automatic_plann.Errors.{Action, missing_notifier, pure, raise, ◌>>=◌}
use whatsapp_automatic_plann.Providers.{Attachment, OutboundMessage}

pub record ChannelTarget (W : Type 0) : Type 0 where
  pub notifier : OutboundMessage → Action W String
  pub recipient : String

abbrev pub Targets : Type 0 → Type 0
Targets W = Channel → Option (ChannelTarget W)

-- `_CONCRETE_CHANNELS`
abbrev pub concrete_channels : List Channel
concrete_channels = email ∷ whatsapp ∷ []

module _ {W : Type 0} (targets : Targets W) where
  -- One channel of the loop: the message to its target, if there is one.
  unfoldable pub send_one : Channel → Text → Option String → List Attachment → Action W String
  send_one concrete body subject attachments = elim (targets concrete) [
    | none ↦ raise (missing_notifier concrete)
    | some target ↦ target.notifier (record {
      recipient = target.recipient;
      body = body;
      subject = subject;
      attachments = attachments;
    })
  ]

  -- The loop over the channels that are left; the ids come in the order of sending.
  unfoldable pub send_each :
      List Channel
      → Channel
      → Text
      → Option String
      → List Attachment
      → Action W (List (Channel × String))
  send_each [] channel body subject attachments = pure []
  send_each (c ∷ cs) channel body subject attachments =
      let rest = send_each cs channel body subject attachments in
      elim (includes channel c) [
        | false ↦ rest
        | true ↦ send_one c body subject attachments >>= λ id. rest >>= λ ids. pure ((c, id) ∷ ids)
      ]

  -- `ChannelDispatcher.send`
  unfoldable pub send :
      Channel → Text → Option String → List Attachment → Action W (List (Channel × String))
  unfolding send_one send_each
  send channel body subject attachments =
      send_each concrete_channels channel body subject attachments
