-- ===== src/Ingestion/Parser/Webhook.antt =====
-- A webhook body as Meta documents it, for the messages and statuses that it carries.
use whatsapp_automatic_plann.Prelude.{
  ℕ, Bool, true, false, String, Option, none, some, List, [], ◌∷◌, ◌++◌, ◌==◌, if◌then◌else◌,
}
use whatsapp_automatic_plann.Json.{
  Json, null, bool, str, arr, obj, Fields, end, field, Items, nil, cons,
}
use whatsapp_automatic_plann.Workflow.Enums.{MessageType}
use whatsapp_automatic_plann.Ingestion.Parser.{ParsedMessage, ParseResult, joined}

pub data Kind : Type 0 where
  image video audio voice document : Kind

pub record Attached : Type 0 where
  pub kind : Kind
  pub caption : Option String
  pub media_id : Option String
  pub mime_type : Option String
  pub filename : Option String

pub data Content : Type 0 where
  text : String → Content
  attached : Attached → Content

-- A message of a client; `stamp` is the value that is sent for the time `at`.
pub record Inbound : Type 0 where
  pub id : String
  pub sender : String
  pub stamp : Json
  pub at : ℕ
  pub content : Content

-- A message that is listed: one that the parser knows, or one of another type.
pub data Notice : Type 0 where
  inbound : Inbound → Notice
  unsupported : String → String → Notice

pub record Contact : Type 0 where
  pub wa_id : String
  pub name : Option String

-- One change of an entry: contacts and messages, any number of each, or the statuses of deliveries.
pub data Change : Type 0 where
  carried : List Contact → List Notice → Change
  status : Json → Change

abbrev pub optional : Option String → Json
optional none = null
optional (some s) = str s

abbrev pub kind_type : Kind → MessageType
kind_type image = MessageType.image
kind_type video = MessageType.video
kind_type audio = MessageType.audio
kind_type voice = MessageType.voice
kind_type document = MessageType.document

abbrev pub kind_key : Kind → String
kind_key image = "image"
kind_key video = "video"
kind_key audio = "audio"
kind_key voice = "audio"
kind_key document = "document"

abbrev pub is_voice : Kind → Bool
is_voice voice = true
is_voice _ = false

abbrev pub attached_fields : Attached → Fields
attached_fields a = field "id" (optional a.media_id) (
    field "mime_type" (optional a.mime_type) (
      field "caption" (optional a.caption)
        (field "filename" (optional a.filename) (field "voice" (bool (is_voice a.kind)) end))))

abbrev pub content_fields : Content → Fields
content_fields (text body) =
    field "type" (str "text") (field "text" (obj (field "body" (str body) end)) end)
content_fields (attached a) =
    field "type" (str (kind_key a.kind)) (field (kind_key a.kind) (obj (attached_fields a)) end)

abbrev pub message_json : Inbound → Json
message_json m = obj (
    field "from" (str m.sender)
      (field "id" (str m.id) (field "timestamp" m.stamp (content_fields m.content))))

abbrev pub notice_json : Notice → Json
notice_json (inbound m) = message_json m
notice_json (unsupported id type) = obj (field "id" (str id) (field "type" (str type) end))

abbrev pub notices_json : List Notice → Items
notices_json [] = nil
notices_json (n ∷ ns) = cons (notice_json n) (notices_json ns)

abbrev pub contact_json : Contact → Json
contact_json c =
    obj
      (field "profile" (obj (field "name" (optional c.name) end)) (field "wa_id" (str c.wa_id) end))

abbrev pub contacts_json : List Contact → Items
contacts_json [] = nil
contacts_json (c ∷ cs) = cons (contact_json c) (contacts_json cs)

abbrev pub value_fields : Change → Fields
value_fields (carried cs ns) =
    field "messaging_product" (str "whatsapp")
      (field "contacts" (arr (contacts_json cs)) (field "messages" (arr (notices_json ns)) end))
value_fields (status j) = field "statuses" j end

abbrev pub changes_json : List Change → Items
changes_json [] = nil
changes_json (c ∷ cs) =
    cons (obj (field "value" (obj (value_fields c)) (field "field" (str "messages") end)))
      (changes_json cs)

abbrev pub entries_json : List (List Change) → Items
entries_json [] = nil
entries_json (cs ∷ entries) =
    cons (obj (field "id" (str "account") (field "changes" (arr (changes_json cs)) end)))
      (entries_json entries)

-- The body of a webhook with these entries.
abbrev pub webhook_json : List (List Change) → Json
webhook_json entries = obj (
    field "object" (str "whatsapp_business_account")
      (field "entry" (arr (entries_json entries)) end))

-- The name of the last contact with this number, if there is one; before them stands `found`.
abbrev pub name_among : Option String → String → List Contact → Option String
name_among found sender [] = found
name_among found sender (c ∷ cs) =
    name_among (if sender == c.wa_id then c.name else found) sender cs

-- The message that the parser is to give, with the name of its sender.
abbrev pub parsed_of : Option String → Inbound → ParsedMessage
parsed_of name m = elim m.content [
  | text body ↦ record {
    whatsapp_id = m.id;
    sender = m.sender;
    sender_name = name;
    type = MessageType.text;
    timestamp = m.at;
    text = str body;
    caption = null;
    media_id = null;
    mime_type = null;
    filename = null;
  }
  | attached a ↦ record {
    whatsapp_id = m.id;
    sender = m.sender;
    sender_name = name;
    type = kind_type a.kind;
    timestamp = m.at;
    text = null;
    caption = optional a.caption;
    media_id = optional a.media_id;
    mime_type = optional a.mime_type;
    filename = optional a.filename;
  }
]

abbrev pub inbounds_of : List Contact → List Notice → List ParsedMessage
inbounds_of cs [] = []
inbounds_of cs (inbound m ∷ ns) = parsed_of (name_among none m.sender cs) m ∷ inbounds_of cs ns
inbounds_of cs (unsupported id type ∷ ns) = inbounds_of cs ns

abbrev pub skipped_of : List Notice → List String
skipped_of [] = []
skipped_of (inbound m ∷ ns) = skipped_of ns
skipped_of (unsupported id type ∷ ns) = type ∷ skipped_of ns

abbrev pub result_of : Change → ParseResult
result_of (carried cs ns) = record { messages = inbounds_of cs ns; skipped_types = skipped_of ns }
result_of (status j) = record { messages = []; skipped_types = [] }

abbrev pub results_of : List Change → ParseResult
results_of [] = record { messages = []; skipped_types = [] }
results_of (c ∷ cs) = joined (result_of c) (results_of cs)

abbrev pub changes_of : List (List Change) → List Change
changes_of [] = []
changes_of (cs ∷ entries) = cs ++ changes_of entries
