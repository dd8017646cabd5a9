-- ===== src/Domain/Models.antt =====
-- src/wapp_planner/domain/models.py. A `datetime` is a number of microseconds since the epoch; a
-- confidence, a float, counts units of 2^-1074, of which every finite float is a multiple.
use whatsapp_automatic_plann.Prelude.{
  ℕ, Bool, true, false, String, Option, none, some, List, [], ◌∷◌, ◌++◌, contains, if◌then◌else◌,
}
use whatsapp_automatic_plann.Prelude.Dict.{Dict}
use whatsapp_automatic_plann.Workflow.Enums.{Intent, MessageType, RequestState}
use whatsapp_automatic_plann.Domain.Enums.{
  Channel, ProcessingStatus, OwnerInteractionKind, OwnerDecision,
}

-- A customer; the phone numbers are a set, of which only membership and the items are used.
pub record Client : Type 0 where
  pub id : String
  pub name : String
  pub phone_numbers : List String
  pub metadata : Dict String
  pub branding_profile : Option String

unfoldable pub owns_number : Client → String → Bool
owns_number c phone_number = contains phone_number c.phone_numbers

pub record Message : Type 0 where
  pub id : String
  pub type : MessageType
  pub order : ℕ
  pub received_at : ℕ
  pub text : Option String
  pub caption : Option String
  pub media_id : Option String
  pub mime_type : Option String
  pub filename : Option String
  pub raw_ref : Option String
  pub transcript : Option String
  pub processing_status : ProcessingStatus

unfoldable pub is_media_type : MessageType → Bool
is_media_type MessageType.text = false
is_media_type _ = true

-- `Message.is_media`
unfoldable pub is_media : Message → Bool
unfolding is_media_type
is_media m = is_media_type m.type

-- `Message.resolved_text`
unfoldable pub resolved_text : Message → Option String
resolved_text m = elim m.transcript [ none ↦ m.text | some t ↦ some t ]

-- What `_llm_meta` keeps of a generated document; the cost, a float, counts units of 2^-1074.
pub record LlmMeta : Type 0 where
  pub model : String
  pub input_tokens : ℕ
  pub output_tokens : ℕ
  pub cost_usd : ℕ
  pub attempts : ℕ

-- The structured content is any dict; its type is a parameter here.
pub record DocumentRevision (Content : Type 0) : Type 0 where
  pub id : String
  pub request_id : String
  pub revision_no : ℕ
  pub structured_content : Content
  pub feedback : Option String
  pub pdf_ref : Option String
  pub docx_ref : Option String
  pub llm_meta : LlmMeta
  pub created_at : ℕ

pub record OwnerInteraction : Type 0 where
  pub id : String
  pub request_id : String
  pub kind : OwnerInteractionKind
  pub decision : OwnerDecision
  pub channel : Option Channel
  pub raw_response : Option String
  pub received_at : ℕ

-- The intent is `None` only after `model_copy` with the intent of an action that has none.
pub record Request : Type 0 where
  pub id : String
  pub client_id : String
  pub client_name : Option String
  pub state : RequestState
  pub intent : Option Intent
  pub confidence : Option ℕ
  pub created_at : ℕ
  pub updated_at : ℕ
  pub normalized_transcript : Option String
  pub current_revision : ℕ
  pub flags : List String

unfoldable pub has_flag : Request → String → Bool
has_flag r flag = contains flag r.flags

-- A copy with the flag added once.
unfoldable pub with_flag : Request → String → Request
with_flag r flag = if contains flag r.flags then r else record r { flags = r.flags ++ flag ∷ [] }
