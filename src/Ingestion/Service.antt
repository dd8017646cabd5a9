-- ===== src/Ingestion/Service.antt =====
-- src/wapp_planner/ingestion/service.py. The attributes that a service never assigns again are its
-- configuration; the others, with the orchestrator's repository and the outside, are its state.
pub mod Redelivery
pub mod Soundness
pub mod Lifetime
pub mod Triage
pub mod Holding
pub mod Retention
pub mod Acceptance
pub mod Flush
pub mod Media
pub mod Samples
mod Tests
mod MediaTests
use whatsapp_automatic_plann.Prelude.{
  ℕ, suc, ◌+◌, Bool, true, false, String, Option, none, some, List, [], ◌∷◌, length, get_or,
  or_text, if◌then◌else◌,
}
use whatsapp_automatic_plann.Prelude.Texts.{Text}
use whatsapp_automatic_plann.Prelude.Dict.{Dict, lookup, insert}
use whatsapp_automatic_plann.Json.{Json, null, str, to_str}
use whatsapp_automatic_plann.Workflow.Enums.{MessageType}
use whatsapp_automatic_plann.Domain.Enums.{pending}
use whatsapp_automatic_plann.Domain.Models.{Message, Request, is_media, is_media_type}
use whatsapp_automatic_plann.Errors.{
  Error, Action, Result, ok, err, json_decode_error, invalid_payload, signature_error, pure, raise,
  lift, after, and_then, ◌>>=◌, ◌>>◌,
}
use whatsapp_automatic_plann.Providers.{Bytes, DownloadedMedia, StorageProvider}
use whatsapp_automatic_plann.Aggregation
use whatsapp_automatic_plann.Aggregation.{AggregatedRequest, Aggregator}
use whatsapp_automatic_plann.Ingestion.Signature
use whatsapp_automatic_plann.Ingestion.Signature.{is_valid_signature}
use whatsapp_automatic_plann.Ingestion.Idempotency.{IdempotencyStore, claim}
use whatsapp_automatic_plann.Ingestion.Registry.{ClientRegistry, resolve}
use whatsapp_automatic_plann.Ingestion.Downloader.{MediaDownloader, StoredMedia, fetch_and_store}
use whatsapp_automatic_plann.Ingestion.Parser.{
  ParserCodec, ParsedMessage, ParseResult, optional_text, parse_webhook,
}
use whatsapp_automatic_plann.Orchestrator.Base.{System}
use whatsapp_automatic_plann.Orchestrator.Stages.{Stages}
use whatsapp_automatic_plann.Orchestrator.Defs.{ingest}

-- `hmac` is HMAC-SHA256 in hexadecimal digits, and `loads` is `json.loads` on bytes.
pub record IngestionService (W : Type 0) : Type 0 where
  pub app_secret : Text
  pub verify_token : Text
  pub downloader : MediaDownloader W
  pub storage : StorageProvider W
  pub stages : Stages W
  pub registry : ClientRegistry
  pub new_id : ℕ → String
  pub hmac : Text → Bytes → Text
  pub loads : Bytes → Result Json
  pub parser : ParserCodec

pub record IngestionState (W : Type 0) : Type 0 where
  pub idempotency : IdempotencyStore
  pub names : Dict String
  pub known : Dict Bool
  pub aggregator : Aggregator
  pub system : System W

abbrev pub unknown_client_flag : String
unknown_client_flag = "unknown_client"

abbrev pub default_mime : String
default_mime = "application/octet-stream"

module _ {W : Type 0} where
  unfoldable pub in_aggregator : {A : Type 0} → Action Aggregator A → Action (IngestionState W) A
  in_aggregator m s = let (r, a) = m s.aggregator in (r, record s { aggregator = a })

  unfoldable pub in_system : {A : Type 0} → Action (System W) A → Action (IngestionState W) A
  in_system m s = let (r, x) = m s.system in (r, record s { system = x })

  -- A call of a service outside.
  unfoldable pub outside : {A : Type 0} → Action W A → Action (IngestionState W) A
  outside m s =
      let (r, w) = m s.system.world in (r, record s { system = record s.system { world = w } })

-- What `json.loads` may raise, as `receive` passes it on.
unfoldable pub or_invalid : Result Json → Result Json
or_invalid (ok j) = ok j
or_invalid (err json_decode_error) = err invalid_payload
or_invalid (err e) = err e

module _ {W : Type 0} (service : IngestionService W) where
  -- `IngestionService.verify_subscription`
  unfoldable pub verify_subscription : Option Text → Option Text → Text → Result Text
  verify_subscription mode token challenge =
      Signature.verify_subscription mode token challenge service.verify_token

  -- The key of the stored media, and nothing if anything is raised.
  unfoldable pub fetched : ParsedMessage → Json → W → Option String × W
  fetched parsed media_id w =
      let (r, w') =
        fetch_and_store service.downloader "inbound" parsed.whatsapp_id
          (to_str service.parser.repr media_id) w in
      (elim r [ ok stored ↦ some stored.key | err _ ↦ none ], w')

  -- `raw_ref` in `_build_message`
  unfoldable pub raw_ref_of : ParsedMessage → W → Option String × W
  unfolding fetched is_media_type
  raw_ref_of parsed w = elim parsed.media_id [
    | null ↦ (none, w)
    | media_id ↦ if is_media_type parsed.type then fetched parsed media_id w else (none, w)
  ]

  -- The constructor of `Message`, which validates the texts.
  unfoldable pub message_of : ParsedMessage → Option String → Result Message
  message_of parsed raw_ref = and_then (optional_text parsed.text) λ text.
      and_then (optional_text parsed.caption) λ caption.
        and_then (optional_text parsed.media_id) λ media_id.
          and_then (optional_text parsed.mime_type) λ mime_type.
            and_then (optional_text parsed.filename) λ filename. ok (record {
              id = parsed.whatsapp_id;
              type = parsed.type;
              order = 0;
              received_at = parsed.timestamp;
              text = text;
              caption = caption;
              media_id = media_id;
              mime_type = mime_type;
              filename = filename;
              raw_ref = raw_ref;
              transcript = none;
              processing_status = pending;
            })

  -- `_build_message`
  unfoldable pub build_message : ParsedMessage → Action (IngestionState W) Message
  build_message parsed =
      outside (λ w. let (ref, w') = raw_ref_of parsed w in (ok ref, w')) >>= λ raw_ref.
      lift (message_of parsed raw_ref)

  -- `_media_for`, behind the media that the loop has already.
  unfoldable pub media_for :
      List Message → Dict DownloadedMedia → Action (IngestionState W) (Dict DownloadedMedia)
  media_for [] media = pure media
  media_for (message ∷ messages) media = elim (if is_media message then message.raw_ref else none) [
    | none ↦ media_for messages media
    | some ref ↦ outside (service.storage.get ref) >>= λ content. media_for messages (
        insert message.id
          (record { content = content; mime_type = or_text message.mime_type default_mime }) media)
  ]

  -- The flags of a request from a client that is known, and that is not.
  abbrev pub extra_flags : Bool → List String
  extra_flags true = []
  extra_flags false = unknown_client_flag ∷ []

  -- `_process`
  unfoldable pub process : AggregatedRequest → ℕ → Action (IngestionState W) Request
  process aggregated now =
      let client_id = aggregated.client_id in
      media_for aggregated.messages [] >>= λ media s.
      in_system
        (ingest service.stages aggregated media (get_or (lookup client_id s.names) client_id) now
          (extra_flags (get_or (lookup client_id s.known) true)))
        s

  -- `if displaced is not None: self._process(displaced, now)`
  unfoldable pub handle_displaced :
      Option AggregatedRequest → ℕ → Action (IngestionState W) (Unit {0})
  handle_displaced none now = pure tt
  handle_displaced (some aggregated) now = process aggregated now >> pure tt

  -- What `receive` does with a message that is no duplicate.
  unfoldable pub accept : ParsedMessage → ℕ → Action (IngestionState W) (Unit {0})
  accept parsed now s =
      let (client_id, client_name, is_known) = resolve parsed.sender service.registry in
      (build_message parsed >>= λ message.
      in_aggregator (Aggregation.add service.new_id client_id message now) >>= λ displaced.
      handle_displaced displaced now)
        (record s {
          names = insert client_id client_name s.names;
          known = insert client_id is_known s.known;
        })

  -- One turn of the loop of `receive`, with what it adds to the count.
  unfoldable pub take_in : ParsedMessage → ℕ → Action (IngestionState W) ℕ
  take_in parsed now s =
      let (first, store) = claim parsed.whatsapp_id s.idempotency in
      elim first [
        | false ↦ pure 0 s
        | true ↦ (accept parsed now >> pure 1) (record s { idempotency = store })
      ]

  -- The loop of `receive`.
  unfoldable pub take_each : List ParsedMessage → ℕ → Action (IngestionState W) ℕ
  take_each [] now = pure 0
  take_each (parsed ∷ messages) now =
      take_in parsed now >>= λ m. take_each messages now >>= λ n. pure (m + n)

  -- The messages of a body, if it is signed and valid.
  unfoldable pub opened_body : Bytes → Option Text → Result (List ParsedMessage)
  unfolding is_valid_signature or_invalid parse_webhook
  opened_body raw_body header =
      and_then (is_valid_signature service.hmac raw_body header service.app_secret) λ valid.
        and_then (if valid then or_invalid (service.loads raw_body) else err signature_error)
          λ payload. and_then (parse_webhook service.parser payload) λ parsed. ok parsed.messages

  unfoldable pub receive : Bytes → Option Text → ℕ → Action (IngestionState W) ℕ
  receive raw_body header now =
      lift (opened_body raw_body header) >>= λ messages. take_each messages now

  -- The loop of `flush_due`.
  unfoldable pub process_each : List AggregatedRequest → ℕ → Action (IngestionState W) (Unit {0})
  process_each [] now = pure tt
  process_each (aggregated ∷ due) now = process aggregated now >> process_each due now

  unfoldable pub flush_due : ℕ → Action (IngestionState W) ℕ
  flush_due now =
      in_aggregator (Aggregation.flush_due now) >>= λ due. process_each due now >> pure (length due)
