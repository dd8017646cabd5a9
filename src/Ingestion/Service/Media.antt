-- ===== src/Ingestion/Service/Media.antt =====
-- Media from its arrival to the orchestrator.
use whatsapp_automatic_plann.Prelude.{
  ◌≡◌, ap, sym, true, false, String, ◌<>◌, Option, none, some, ltb, or_text, if◌then◌else◌,
}
use whatsapp_automatic_plann.Prelude.Dict.{Dict}
use whatsapp_automatic_plann.Json.{str}
use whatsapp_automatic_plann.Domain.Models.{Message, is_media, is_media_type}
use whatsapp_automatic_plann.Errors.{ok, err, and_then-eq-ok}
use whatsapp_automatic_plann.Providers.{Bytes, DownloadedMedia, size}
use whatsapp_automatic_plann.Ingestion.Downloader.{StoredMedia, is_allowed}
use whatsapp_automatic_plann.Ingestion.Parser.{ParsedMessage, optional_text}
use whatsapp_automatic_plann.Ingestion.Service.{
  IngestionService, IngestionState, default_mime, message_of,
}

-- What the constructor of a message keeps.
pub message_of-keeps :
    {W : Type 0} (service : IngestionService W) (parsed : ParsedMessage) (raw_ref : Option String)
    {m : Message}
    → message_of service parsed raw_ref ≡ ok m
    → (m.raw_ref ≡ raw_ref) × (m.type ≡ parsed.type) × (m.id ≡ parsed.whatsapp_id)
unfolding message_of
message_of-keeps service parsed raw_ref {m} h =
    let (text, e₁, k₁) = and_then-eq-ok (optional_text parsed.text) _ h in
    let (caption, e₂, k₂) = and_then-eq-ok (optional_text parsed.caption) _ k₁ in
    let (media_id, e₃, k₃) = and_then-eq-ok (optional_text parsed.media_id) _ k₂ in
    let (mime_type, e₄, k₄) = and_then-eq-ok (optional_text parsed.mime_type) _ k₃ in
    let (filename, e₅, k₅) = and_then-eq-ok (optional_text parsed.filename) _ k₄ in
    let kept = ap (λ x. elim x [ ok a ↦ a | err _ ↦ m ]) (sym k₅) in
    (ap (λ x. x.raw_ref) kept, ap (λ x. x.type) kept, ap (λ x. x.id) kept)

module _ {W : Type 0} (service : IngestionService W) where
  -- The media of a message comes, is allowed and fits, and the storage takes it.
  pub record Arrives (parsed : ParsedMessage) (media_id : String) (media : DownloadedMedia) (w : W)
      : Type 0 where
    pub ref : String
    pub is_media : is_media_type parsed.type ≡ true
    pub named : parsed.media_id ≡ str media_id
    pub came : (service.downloader.download media_id w).0 ≡ ok media
    pub allowed : is_allowed service.downloader.allowed media.mime_type ≡ true
    pub fits : ltb service.downloader.max_bytes (size media) ≡ false
    pub taken :
        (service.downloader.storage.put
          ("inbound" <> "/" <> parsed.whatsapp_id)
          media.content
          media.mime_type
          (service.downloader.download media_id w).1).0
        ≡ ok ref

  -- The key of the media of a message.
  abbrev pub key_of : ParsedMessage → String
  key_of parsed = "inbound" <> "/" <> parsed.whatsapp_id

  -- The outside behind the download and the storing.
  abbrev after_storing : ParsedMessage → String → DownloadedMedia → W → W
  after_storing parsed media_id media w =
      (service.downloader.storage.put (key_of parsed) media.content media.mime_type
        (service.downloader.download media_id w).1).1

  stored_of : ParsedMessage → DownloadedMedia → String → StoredMedia
  stored_of parsed media ref = record {
    key = key_of parsed;
    ref = ref;
    mime_type = media.mime_type;
    size = size media;
  }

  -- The system behind the arrival.
  abbrev arrived : ParsedMessage → String → DownloadedMedia → IngestionState W → IngestionState W
  arrived parsed media_id media s = record s {
    system = record s.system { world = after_storing parsed media_id media s.system.world };
  }

  -- The media of a message, with the type that the message names.
  abbrev pub media_of : Message → DownloadedMedia → DownloadedMedia
  media_of m media = record {
    content = media.content;
    mime_type = or_text m.mime_type default_mime;
  }

  -- Where the media of a message is stored, if it has any.
  abbrev ref_of : Message → Option String
  ref_of m = if is_media m then m.raw_ref else none

  -- The media of the message can be read, if it has any.
  abbrev pub IsReadable : W → Message → Type 0
  IsReadable w m =
      (ref : String)
      → (if is_media m then m.raw_ref else none) ≡ some ref
      → (content : Bytes) × ((service.storage.get ref w).0 ≡ ok content)

  -- What can be read is as it was.
  abbrev SameData : W → W → Type 0
  SameData w w' = (key : String) → (service.storage.get key w').0 ≡ (service.storage.get key w).0
