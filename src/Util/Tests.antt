-- ===== src/Util/Tests.antt =====
-- Replies with and without an object.
use whatsapp_automatic_plann.Prelude.{◌≡◌, refl, [], ◌∷◌, ◌++◌}
use whatsapp_automatic_plann.Prelude.Texts.{Lacks, codes}
use whatsapp_automatic_plann.Errors.{ok, err, value_error}
use whatsapp_automatic_plann.Util.JsonIo.{extract_json_object}
use whatsapp_automatic_plann.Util.JsonIo.Laws.{extract_json_object_lem, extract_json_object_refuses}

fence_dropped :
    extract_json_object (codes "```json\n" ++ b'{' ∷ (codes "\"a\": {}" ++ b'}' ∷ codes "\n```"))
    ≡ ok (b'{' ∷ (codes "\"a\": {}" ++ b'}' ∷ []))
fence_dropped =
    extract_json_object_lem (codes "```json\n") (codes "\"a\": {}") (codes "\n```")
      (refl, (refl, (refl, (refl, (refl, (refl, (refl, (refl, tt))))))))
      (refl, (refl, (refl, (refl, tt))))

no_brace_refused :
    (extract_json_object (codes "no") ≡ err value_error)
    × (Lacks b'}' (codes "ne")
        → extract_json_object (codes "no" ++ b'{' ∷ codes "ne") ≡ err value_error)
no_brace_refused = extract_json_object_refuses (codes "no") (codes "ne") (refl, (refl, tt))
