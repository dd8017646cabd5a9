-- ===== src/Ingestion/Parser/Tests.antt =====
-- A webhook with a change that carries two messages, one of them a photo, and a sticker, with two
-- contacts of one number, and a change with the status of a delivery.
use whatsapp_automatic_plann.Prelude.{◌≡◌, refl, none, some, List, [], ◌∷◌, String-discrete}
use whatsapp_automatic_plann.Json.{str, arr, nil}
use whatsapp_automatic_plann.Errors.{ok}
use whatsapp_automatic_plann.Ingestion.Parser.{ParserCodec, type_map, parse_webhook}
use whatsapp_automatic_plann.Ingestion.Parser.Webhook.{
  Inbound, Change, image, text, attached, inbound, unsupported, carried, status, webhook_json,
  results_of, changes_of,
}
use whatsapp_automatic_plann.Ingestion.Parser.RoundTrip.{parse_webhook-webhook_json}

abbrev codec : ParserCodec
codec = record { repr = λ _. "None"; fromtimestamp = λ _. ok 42; utc_now = 50 }

abbrev hello : Inbound
hello = record { id = "m1"; sender = "+551"; stamp = str "42"; at = 42; content = text "hello" }

abbrev photo : Inbound
photo = record {
  id = "m2";
  sender = "+552";
  stamp = str "42";
  at = 42;
  content = attached (record {
    kind = image;
    caption = some "the wall";
    media_id = some "media-1";
    mime_type = some "image/png";
    filename = none;
  });
}

abbrev entries : List (List Change)
entries =
    (carried
        (record { wa_id = "+551"; name = none } ∷ record { wa_id = "+551"; name = some "Ana" } ∷ [])
        (inbound hello ∷ unsupported "m3" "sticker" ∷ inbound photo ∷ [])
      ∷ [])
    ∷ (status (arr nil) ∷ carried [] [] ∷ [])
    ∷ []

parse_webhook-webhook_json_example :
    parse_webhook codec (webhook_json entries) ≡ ok (results_of (changes_of entries))
unfolding String-discrete type_map
parse_webhook-webhook_json_example =
    parse_webhook-webhook_json codec entries ((refl, ((refl, refl), (refl, tt))), (tt, (tt, tt)))
