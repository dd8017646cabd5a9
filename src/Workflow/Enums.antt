-- ===== src/Workflow/Enums.antt =====
-- src/wapp_planner/workflow/enums.py
use whatsapp_automatic_plann.Prelude.{String}

pub data RequestState : Type 0 where
  received aggregating processing_media classifying awaiting_classification generating rendering :
      RequestState
  awaiting_approval completed discarded failed : RequestState

pub data Intent : Type 0 where
  quote execution_plan none : Intent

pub data MessageType : Type 0 where
  text audio voice video image document : MessageType

pub data Trigger : Type 0 where
  start_aggregation window_closed media_processed classified_actionable classified_none : Trigger
  owner_confirmed owner_corrected owner_rejected generated rendered owner_approved : Trigger
  owner_requested_revision fail : Trigger

pub RequestState-discrete : Discrete RequestState
RequestState-discrete = hlevel

-- `intent.value`
unfoldable pub intent_value : Intent → String
intent_value quote = "quote"
intent_value execution_plan = "execution_plan"
intent_value none = "none"

-- `message_type.value`
unfoldable pub type_value : MessageType → String
type_value text = "text"
type_value audio = "audio"
type_value voice = "voice"
type_value video = "video"
type_value image = "image"
type_value document = "document"

-- `state.value`
unfoldable pub state_value : RequestState → String
state_value received = "received"
state_value aggregating = "aggregating"
state_value processing_media = "processing_media"
state_value classifying = "classifying"
state_value awaiting_classification = "awaiting_classification"
state_value generating = "generating"
state_value rendering = "rendering"
state_value awaiting_approval = "awaiting_approval"
state_value completed = "completed"
state_value discarded = "discarded"
state_value failed = "failed"
