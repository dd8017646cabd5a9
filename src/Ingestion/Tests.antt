-- ===== src/Ingestion/Tests.antt =====
-- The checks at the door, on concrete requests.
use whatsapp_automatic_plann.Prelude.{
  ℕ, ◌+◌, ◌≡◌, refl, true, false, ◌<>◌, none, some, [], ◌∷◌, ◌++◌, contains, if◌then◌else◌,
}
use whatsapp_automatic_plann.Prelude.Texts.{Text, codes, is_ascii, text_eq}
use whatsapp_automatic_plann.Domain.Models.{Client}
use whatsapp_automatic_plann.Errors.{ok}
use whatsapp_automatic_plann.Providers.{Bytes, DownloadedMedia}
use whatsapp_automatic_plann.Hitl.Tokens.{compare_digest}
use whatsapp_automatic_plann.Ingestion.Signature.{
  signature_prefix, verify_subscription, is_valid_signature, is_valid_signature_lem,
}
use whatsapp_automatic_plann.Ingestion.Idempotency.{seen, granted, granted_once}
use whatsapp_automatic_plann.Ingestion.Registry.{
  resolve, name_for, registry_of, last_owner, last_with_id, resolve-registry_of,
}
use whatsapp_automatic_plann.Ingestion.Downloader.{
  MediaDownloader, Guarded, default_allowed_mime_prefixes, fetch_and_store, fetch_and_store-Guarded,
}

handshake :
    verify_subscription (some (codes "subscribe")) (some (codes "key")) (codes "42") (codes "key")
    ≡ ok (codes "42")
unfolding verify_subscription compare_digest text_eq is_ascii
handshake = refl

abbrev hmac : Text → Bytes → Text
hmac secret payload = codes "abc"

is_valid_signature_lem_example :
    (is_valid_signature hmac (1 ∷ []) (some (codes "sha256=abc")) (codes "key") ≡ ok true
      → some (codes "sha256=abc") ≡ some (signature_prefix ++ hmac (codes "key") (1 ∷ [])))
    × (some (codes "sha256=abc") ≡ some (signature_prefix ++ hmac (codes "key") (1 ∷ []))
        → is_valid_signature hmac (1 ∷ []) (some (codes "sha256=abc")) (codes "key") ≡ ok true)
unfolding is_ascii
is_valid_signature_lem_example =
    is_valid_signature_lem hmac (1 ∷ []) (some (codes "sha256=abc")) (codes "key") refl

granted_once_example :
    granted "m1" ("m1" ∷ "m2" ∷ "m1" ∷ []) []
    ≡ (if seen "m1" [] then 0 else if contains "m1" ("m1" ∷ "m2" ∷ "m1" ∷ []) then 1 else 0)
granted_once_example = granted_once "m1" ("m1" ∷ "m2" ∷ "m1" ∷ []) []

abbrev ana : Client
ana = record {
  id = "ana";
  name = "Ana";
  phone_numbers = "+551" ∷ "+552" ∷ [];
  metadata = [];
  branding_profile = none;
}

resolve-registry_of_example :
    (resolve "+552" (registry_of (ana ∷ [])) ≡ elim (last_owner "+552" (ana ∷ [])) [
      | some c ↦ (c.id, c.name, true)
      | none ↦ ("+552", "+552", false)
    ])
    × (name_for "+552" (registry_of (ana ∷ []))
        ≡ elim (last_with_id "+552" (ana ∷ [])) [ some c ↦ c.name | none ↦ "+552" ])
resolve-registry_of_example = resolve-registry_of "+552" (ana ∷ [])

abbrev photo : DownloadedMedia
photo = record { content = 1 ∷ 2 ∷ []; mime_type = "image/png" }

-- The world counts the objects that are stored.
abbrev downloader : MediaDownloader ℕ
downloader = record {
  download = λ _ w. (ok photo, w);
  storage = record {
    put = λ key _ _ w. (ok key, w + 1);
    get = λ _ w. (ok [], w);
    exists = λ _ w. (ok true, w);
    delete = λ _ w. (ok tt, w);
  };
  max_bytes = 10;
  allowed = default_allowed_mime_prefixes;
}

fetch_and_store-Guarded_example :
    Guarded downloader
      ("req-0" <> "/" <> "m1")
      photo
      0
      (fetch_and_store downloader "req-0" "m1" "media-1" 0)
fetch_and_store-Guarded_example =
    fetch_and_store-Guarded downloader "req-0" "m1" "media-1" photo 0 refl
