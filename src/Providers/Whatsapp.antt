-- ===== src/Providers/Whatsapp.antt =====
-- src/wapp_planner/providers/whatsapp.py. The HTTP client is a parameter.
use Prim.Native.Char.{code}
use whatsapp_automatic_plann.Prelude.{
  ◌&&◌, String, ◌<>◌, List, [], ◌∷◌, ◌++◌, ◌==◌, ◌==ℕ◌, if◌then◌else◌,
}
use whatsapp_automatic_plann.Prelude.Texts.{Text, codes}
use whatsapp_automatic_plann.Json.{Json, null, str, arr, obj, nil, cons, get_default, has_key}
use whatsapp_automatic_plann.Errors.{
  Action, Result, ok, err, key_error, index_error, type_error, validation_error, lift, pure, ◌>>=◌,
  ◌>>◌, and_then,
}
use whatsapp_automatic_plann.Providers.{Bytes, DownloadedMedia, Attachment, OutboundMessage}

abbrev pub default_api_base : String
default_api_base = "https://graph.facebook.com/v20.0"

-- A response: what `raise_for_status` does, what `json` returns, and the content.
pub record Response : Type 0 where
  pub status : Result (Unit {0})
  pub json : Result Json
  pub content : Bytes

-- The dict that is posted, whose field `text` is a dict with the body.
pub record TextPayload : Type 0 where
  pub messaging_product : String
  pub to : String
  pub type : String
  pub body : Text

-- `httpx.Client`: the address may be any value of the reply before; the header is that of
-- `Authorization`.
pub record HttpClient (W : Type 0) : Type 0 where
  pub get : Json → String → Action W Response
  pub post : String → String → TextPayload → Action W Response

pub record WhatsAppGraphMediaClient (W : Type 0) : Type 0 where
  pub http : HttpClient W
  pub auth : String
  pub api_base : String

pub record WhatsAppNotifier (W : Type 0) : Type 0 where
  pub http : HttpClient W
  pub auth : String
  pub url : String

-- `text.rstrip("/")`
unfoldable pub rstrip_slash : String → String
rstrip_slash String.[] = ""
rstrip_slash (String.◌∷◌ c s) =
    let rest = rstrip_slash s in if rest == "" && code c ==ℕ b'/' then "" else String.◌∷◌ c rest

-- `value[key]`
unfoldable pub item_at : String → Json → Result Json
item_at key (obj fs) = if has_key key fs then ok (get_default key null fs) else err key_error
item_at key _ = err type_error

-- `value[0]`
unfoldable pub item_0 : Json → Result Json
item_0 (arr nil) = err index_error
item_0 (arr (cons j _)) = ok j
item_0 (obj fs) = err key_error
item_0 (str String.[]) = err index_error
item_0 (str (String.◌∷◌ c s)) = ok (str (String.◌∷◌ c ""))
item_0 _ = err type_error

-- A value that the constructor of a pydantic model takes for `str`.
unfoldable pub required_text : Json → Result String
required_text (str s) = ok s
required_text _ = err validation_error

-- `info.get("mime_type", "application/octet-stream")`, of what has the item `url`.
unfoldable pub mime_type_of : Json → Result String
unfolding required_text
mime_type_of (obj fs) = required_text (get_default "mime_type" (str "application/octet-stream") fs)
mime_type_of _ = err type_error

-- `", ".join(…)` of the names.
unfoldable pub join_names : List Attachment → String
join_names [] = ""
join_names (a ∷ []) = a.filename
join_names (a ∷ b ∷ rest) = a.filename <> ", " <> join_names (b ∷ rest)

-- The body, with a note on the attachments, if there are any.
unfoldable pub body_of : OutboundMessage → Text
unfolding join_names
body_of message = elim message.attachments [
  | [] ↦ message.body
  | _ ∷ _ ↦
      message.body
      ++ codes ("\n\n(Documents sent by email: " <> join_names message.attachments <> ")")
]

module _ {W : Type 0} where
  -- `WhatsAppGraphMediaClient.__init__`
  unfoldable pub media_client_of : HttpClient W → String → String → WhatsAppGraphMediaClient W
  unfolding rstrip_slash
  media_client_of http access_token api_base = record {
    http = http;
    auth = "Bearer " <> access_token;
    api_base = rstrip_slash api_base;
  }

  unfoldable pub download : WhatsAppGraphMediaClient W → String → Action W DownloadedMedia
  download client media_id = do
    meta ← client.http.get (str (client.api_base <> "/" <> media_id)) client.auth
    lift meta.status
    info ← lift meta.json
    url ← lift (item_at "url" info)
    media ← client.http.get url client.auth
    lift media.status
    mime_type ← lift (mime_type_of info)
    pure (record { content = media.content; mime_type = mime_type })

  -- `WhatsAppNotifier.__init__`
  unfoldable pub whatsapp_notifier_of : HttpClient W → String → String → String → WhatsAppNotifier W
  unfolding rstrip_slash
  whatsapp_notifier_of http access_token phone_number_id api_base = record {
    http = http;
    auth = "Bearer " <> access_token;
    url = rstrip_slash api_base <> "/" <> phone_number_id <> "/messages";
  }

  -- `WhatsAppNotifier.send`, which returns the id of the reply as it is.
  unfoldable pub send_text : WhatsAppNotifier W → OutboundMessage → Action W Json
  unfolding body_of
  send_text notifier message = do
    response ← notifier.http.post notifier.url notifier.auth (record {
      messaging_product = "whatsapp";
      to = message.recipient;
      type = "text";
      body = body_of message;
    })
    lift response.status
    reply ← lift response.json
    lift (and_then (item_at "messages" reply) λ messages. and_then (item_0 messages) (item_at "id"))
