-- ===== src/Ingestion/Parser.antt =====
-- src/wapp_planner/ingestion/parser.py, over the values that `json.loads` returns. Attributes that
-- are assigned to a pydantic model after its construction are not validated, so they hold any value.
pub mod Webhook
pub mod RoundTrip
pub mod Clock
mod Tests
use whatsapp_automatic_plann.Prelude.{
  ℕ, Bool, true, false, not, ◌||◌, ◌&&◌, String, Option, none, some, List, [], ◌∷◌, ◌++◌, ◌==◌,
  if◌then◌else◌,
}
use whatsapp_automatic_plann.Prelude.Dict.{Dict, lookup, insert}
use whatsapp_automatic_plann.Json.{
  Json, null, bool, number, str, arr, obj, Fields, Items, nil, iterate, get, get_default, has_key,
  get_of, or_empty, to_str,
}
use whatsapp_automatic_plann.Workflow.Enums.{MessageType, type_value}
use whatsapp_automatic_plann.Errors.{
  Error, Result, ok, err, type_error, value_error, validation_error, and_then,
}

pub record ParsedMessage : Type 0 where
  pub whatsapp_id : String
  pub sender : String
  pub sender_name : Option String
  pub type : MessageType
  pub timestamp : ℕ
  pub text : Json
  pub caption : Json
  pub media_id : Json
  pub mime_type : Json
  pub filename : Json

pub record ParseResult : Type 0 where
  pub messages : List ParsedMessage
  pub skipped_types : List String

-- What the parser takes from outside: `str` of a value that is no text,
-- `datetime.fromtimestamp(int(raw), tz=UTC)` with the exceptions of both calls, and the clock.
pub record ParserCodec : Type 0 where
  pub repr : Json → String
  pub fromtimestamp : Json → Result ℕ
  pub utc_now : ℕ

-- `_TYPE_MAP.get(raw_type)`
unfoldable pub type_map : String → Option MessageType
type_map raw_type =
    if raw_type == "text"
    then some MessageType.text
    else if raw_type == "audio"
    then some MessageType.audio
    else if raw_type == "image"
    then some MessageType.image
    else if raw_type == "video"
    then some MessageType.video
    else if raw_type == "document"
    then some MessageType.document
    else none

-- What `_timestamp` makes of an exception.
unfoldable pub or_now : ParserCodec → Result ℕ → Result ℕ
or_now codec (ok t) = ok t
or_now codec (err type_error) = ok codec.utc_now
or_now codec (err value_error) = ok codec.utc_now
or_now codec (err e) = err e

-- `_timestamp`
unfoldable pub timestamp_of : ParserCodec → Json → Result ℕ
unfolding or_now
timestamp_of codec raw = or_now codec (codec.fromtimestamp raw)

-- `x is True`
abbrev pub is_true : Json → Bool
is_true (bool b) = b
is_true _ = false

-- The audio of a message that says that it is one, if that is a dict.
abbrev pub audio_type : Json → MessageType
audio_type (obj audio) =
    if is_true (get "voice" audio) then MessageType.voice else MessageType.audio
audio_type _ = MessageType.audio

-- `_resolve_type`
unfoldable pub resolve_type : Fields → Option MessageType
unfolding type_map
resolve_type message = elim (get "type" message) [
  | str raw_type ↦
      if raw_type == "audio" then some (audio_type (get "audio" message)) else type_map raw_type
  | _ ↦ none
]

-- A value that the constructor of a pydantic model takes for `str | None`.
abbrev pub optional_text : Json → Result (Option String)
optional_text null = ok none
optional_text (str s) = ok (some s)
optional_text _ = err validation_error

-- `contacts.get(sender)`
abbrev pub contact_name : String → Dict Json → Json
contact_name sender contacts = elim (lookup sender contacts) [ none ↦ null | some j ↦ j ]

-- `"audio" if mtype is MessageType.VOICE else mtype.value`
abbrev pub media_key : MessageType → String
media_key MessageType.voice = "audio"
media_key t = type_value t

-- `messages.append(…)` and `skipped.append(…)`, for the results of two parts of the loop.
abbrev pub joined : ParseResult → ParseResult → ParseResult
joined r r' = record {
  messages = r.messages ++ r'.messages;
  skipped_types = r.skipped_types ++ r'.skipped_types;
}

-- The inner loop of `_iter_values`: the values of the changes of one entry.
unfoldable pub change_values : List Json → Result (List Fields)
change_values [] = ok []
change_values (change ∷ changes) = and_then (get_of "value" null change) λ value.
    and_then (change_values changes) λ rest. ok (elim value [ obj fs ↦ fs ∷ rest | _ ↦ rest ])

-- The outer loop of `_iter_values`.
unfoldable pub entry_values : List Json → Result (List Fields)
unfolding change_values
entry_values [] = ok []
entry_values (entry ∷ entries) = and_then (get_of "changes" (arr nil) entry) λ changes.
    and_then (iterate changes) λ listed.
      and_then (change_values listed)
        λ values. and_then (entry_values entries) λ rest. ok (values ++ rest)

-- `_iter_values`
unfoldable pub iter_values : Json → Result (List Fields)
unfolding entry_values
iter_values payload =
    and_then (get_of "entry" (arr nil) payload)
      λ entry. and_then (iterate entry) λ entries. entry_values entries

-- The comprehension of the names of the contacts.
unfoldable pub contact_names : (Json → String) → List Json → Dict Json → Result (Dict Json)
contact_names repr [] contacts = ok contacts
contact_names repr (obj c ∷ cs) contacts = elim (get "wa_id" c) [
  | null ↦ contact_names repr cs contacts
  | wa_id ↦
      and_then (get_of "name" null (or_empty (get "profile" c)))
        λ name. contact_names repr cs (insert (to_str repr wa_id) name contacts)
]
contact_names repr (_ ∷ cs) contacts = contact_names repr cs contacts

module _ (codec : ParserCodec) where
  -- `_build_message`: the rest of it, on the message that was constructed.
  unfoldable pub fill : MessageType → Fields → ParsedMessage → Result ParsedMessage
  unfolding type_value
  fill MessageType.text message parsed =
      and_then (get_of "body" null (or_empty (get "text" message)))
        λ body. ok (record parsed { text = body })
  fill mtype message parsed =
      let media = or_empty (get (media_key mtype) message) in
      and_then (get_of "caption" null media) λ caption.
        and_then (get_of "id" null media) λ media_id.
          and_then (get_of "mime_type" null media) λ mime_type.
            and_then (get_of "filename" null media) λ filename. ok (record parsed {
              caption = caption;
              media_id = media_id;
              mime_type = mime_type;
              filename = filename;
            })

  -- `_build_message`
  unfoldable pub build_message : Fields → MessageType → Dict Json → Result ParsedMessage
  unfolding timestamp_of fill
  build_message message mtype contacts =
      let sender = to_str codec.repr (get_default "from" (str "") message) in
      and_then (timestamp_of codec (get "timestamp" message)) λ timestamp.
        and_then (optional_text (contact_name sender contacts)) λ sender_name.
          fill mtype message (record {
            whatsapp_id = to_str codec.repr (get "id" message);
            sender = sender;
            sender_name = sender_name;
            type = mtype;
            timestamp = timestamp;
            text = null;
            caption = null;
            media_id = null;
            mime_type = null;
            filename = null;
          })

  -- One turn of the loop over the messages of a value: a message, or a type that is skipped.
  unfoldable pub parse_message : Json → Dict Json → Result ParseResult
  unfolding resolve_type build_message
  parse_message (obj message) contacts =
      let skipped : ParseResult = record {
        messages = [];
        skipped_types = to_str codec.repr (get "type" message) ∷ [];
      } in
      if not (has_key "id" message) then ok skipped else elim (resolve_type message) [
        | none ↦ ok skipped
        | some mtype ↦
            and_then (build_message message mtype contacts)
              λ parsed. ok (record { messages = parsed ∷ []; skipped_types = [] })
      ]
  parse_message message contacts =
      ok (record { messages = []; skipped_types = to_str codec.repr message ∷ [] })

  unfoldable pub parse_messages : List Json → Dict Json → Result ParseResult
  unfolding parse_message
  parse_messages [] contacts = ok (record { messages = []; skipped_types = [] })
  parse_messages (message ∷ messages) contacts =
      and_then (parse_message message contacts)
        λ first. and_then (parse_messages messages contacts) λ rest. ok (joined first rest)

  -- The loop of `parse_webhook` over the values.
  unfoldable pub parse_values : List Fields → Result ParseResult
  unfolding contact_names parse_messages
  parse_values [] = ok (record { messages = []; skipped_types = [] })
  parse_values (value ∷ values) =
      and_then (iterate (get_default "contacts" (arr nil) value)) λ listed.
        and_then (contact_names codec.repr listed []) λ contacts.
          and_then (iterate (get_default "messages" (arr nil) value)) λ messages.
            and_then (parse_messages messages contacts)
              λ first. and_then (parse_values values) λ rest. ok (joined first rest)

  unfoldable pub parse_webhook : Json → Result ParseResult
  unfolding iter_values parse_values
  parse_webhook payload = and_then (iter_values payload) parse_values
