-- ===== src/Domain/Enums.antt =====
-- src/wapp_planner/domain/enums.py
use whatsapp_automatic_plann.Prelude.{Bool, true, false, String}

pub data Channel : Type 0 where
  email whatsapp both : Channel

unfoldable pub channel_value : Channel → String
channel_value email = "email"
channel_value whatsapp = "whatsapp"
channel_value both = "both"

pub data ProcessingStatus : Type 0 where
  pending processed unprocessable : ProcessingStatus

pub data OwnerInteractionKind : Type 0 where
  classification approval : OwnerInteractionKind

pub data OwnerDecision : Type 0 where
  confirm correct reject approve revise : OwnerDecision

-- `Channel.includes`: whether sending on the first channel reaches the second.
unfoldable pub includes : Channel → Channel → Bool
includes both _ = true
includes email email = true
includes email _ = false
includes whatsapp whatsapp = true
includes whatsapp _ = false
