-- ===== src/Ingestion/Downloader.antt =====
-- src/wapp_planner/ingestion/media_downloader.py
use whatsapp_automatic_plann.Prelude.{
  ℕ, ◌≤◌, ◌<◌, ◌≡◌, Bool, true, false, String, ◌<>◌, Option, none, some, List, [], ◌∷◌, arith, any,
  ltb, if◌then◌else◌,
}
use whatsapp_automatic_plann.Prelude.Texts.{Text, codes, after_prefix}
use whatsapp_automatic_plann.Errors.{
  Action, Result, ok, err, media_too_large, media_rejected, after, pure, raise, ◌>>=◌, ◌>>◌,
}
use whatsapp_automatic_plann.Providers.{DownloadedMedia, StorageProvider, size}

-- `DEFAULT_ALLOWED_MIME_PREFIXES`
abbrev pub default_allowed_mime_prefixes : List String
default_allowed_mime_prefixes = "audio/" ∷ "video/" ∷ "image/" ∷ "application/pdf" ∷ "text/" ∷ []

pub record StoredMedia : Type 0 where
  pub key : String
  pub ref : String
  pub mime_type : String
  pub size : ℕ

-- The client's `download` and the storage are parameters.
pub record MediaDownloader (W : Type 0) : Type 0 where
  pub download : String → Action W DownloadedMedia
  pub storage : StorageProvider W
  pub max_bytes : ℕ
  pub allowed : List String

abbrev is_some : Option Text → Bool
is_some none = false
is_some (some _) = true

unfoldable pub is_allowed : List String → String → Bool
is_allowed allowed mime_type =
    any (λ prefix. is_some (after_prefix (codes prefix) (codes mime_type))) allowed

module _ {W : Type 0} (downloader : MediaDownloader W) where
  -- `_check_mime`
  unfoldable pub check_mime : String → Action W (Unit {0})
  check_mime mime_type =
      if is_allowed downloader.allowed mime_type then pure tt else raise media_rejected

  unfoldable pub fetch_and_store : String → String → String → Action W StoredMedia
  unfolding check_mime size
  fetch_and_store request_id message_id media_id = do
    media ← downloader.download media_id
    check_mime media.mime_type
    if ltb downloader.max_bytes (size media) then raise media_too_large else pure tt
    let key : String = request_id <> "/" <> message_id
    ref ← downloader.storage.put key media.content media.mime_type
    pure (record { key = key; ref = ref; mime_type = media.mime_type; size = size media })

-- What the checks do with the media that came.
abbrev pub Guarded :
    {W : Type 0}
    → MediaDownloader W
    → String
    → DownloadedMedia
    → W
    → Result StoredMedia × W
    → Type 0
Guarded downloader key media w r =
    (is_allowed downloader.allowed media.mime_type ≡ false → r ≡ (err media_rejected, w))
    × (is_allowed downloader.allowed media.mime_type ≡ true
        → downloader.max_bytes < size media
        → r ≡ (err media_too_large, w))
    × ((stored : StoredMedia)
        → r.0 ≡ ok stored
        → (is_allowed downloader.allowed media.mime_type ≡ true)
          × (size media ≤ downloader.max_bytes)
          × (stored.key ≡ key)
          × (stored.mime_type ≡ media.mime_type)
          × (stored.size ≡ size media)
          × ((downloader.storage.put key media.content media.mime_type w).0 ≡ ok stored.ref))

-- Media that came is refused, with nothing stored, if its type is not allowed or it is too large;
-- and whatever is stored has an allowed type and at most the maximum size, and is stored under the
-- key of its message, as the reference that is returned.
pub fetch_and_store-Guarded :
    {W : Type 0} (downloader : MediaDownloader W) (request_id message_id media_id : String)
    (media : DownloadedMedia) (w : W)
    → (downloader.download media_id w).0 ≡ ok media
    → Guarded downloader
        (request_id <> "/" <> message_id)
        media
        (downloader.download media_id w).1
        (fetch_and_store downloader request_id message_id media_id w)
unfolding fetch_and_store check_mime after
fetch_and_store-Guarded downloader request_id message_id media_id media w h =
    (λ a. ground arith, λ a b. ground arith, λ stored e. ground arith)
