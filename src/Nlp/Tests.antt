-- ===== src/Nlp/Tests.antt =====
-- Classifications of replies.
use whatsapp_automatic_plann.Prelude.{◌≡◌, refl, ◌≤◌, arith, Option, some, ◌∷◌, ◌++◌}
use whatsapp_automatic_plann.Prelude.Texts.{Text, codes}
use whatsapp_automatic_plann.Json.{Json, null}
use whatsapp_automatic_plann.Workflow.Enums.{Intent}
use whatsapp_automatic_plann.Errors.{Result, ok}
use whatsapp_automatic_plann.Nlp.Classifier.{
  ReadFields, at_least_zero, not_a_number, one, parse_reply,
}
use whatsapp_automatic_plann.Nlp.Classifier.Laws.{
  IsSettled, parse_reply-IsSettled, parse_reply_wrapped,
}

-- Readers that take any object for the same one.
abbrev loads : Text → Result Json
loads _ = ok null

abbrev fields : ReadFields
fields = record { intent = Intent.quote; confidence = at_least_zero 7; rationale = "prices" }

abbrev read_fields : Json → Option ReadFields
read_fields _ = some fields

parse_reply-IsSettled_example :
    IsSettled loads
      (codes "{}")
      (parse_reply loads (λ _. some (record fields { confidence = not_a_number })) (codes "{}"))
parse_reply-IsSettled_example =
    parse_reply-IsSettled loads (λ _. some (record fields { confidence = not_a_number }))
      (codes "{}")

small : 7 ≤ one
unfolding one
small = omega arith

parse_reply_wrapped_example :
    parse_reply loads read_fields (codes "ok " ++ b'{' ∷ (codes "\"i\"" ++ b'}' ∷ codes "."))
    ≡ ok (record { intent = Intent.quote; confidence = 7; rationale = "prices" })
parse_reply_wrapped_example =
    parse_reply_wrapped loads read_fields (codes "ok ") (codes "\"i\"") (codes ".")
      (refl, (refl, (refl, tt))) (refl, tt) refl refl refl small
