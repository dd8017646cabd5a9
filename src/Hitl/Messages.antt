-- ===== src/Hitl/Messages.antt =====
-- src/wapp_planner/hitl/messages.py. Links and bodies are lists of code points.
use whatsapp_automatic_plann.Prelude.{
  ℕ, Bool, String, ◌<>◌, Option, none, some, List, [], ◌∷◌, ◌++◌, map, if◌then◌else◌,
}
use whatsapp_automatic_plann.Prelude.Texts.{Text, codes}
use whatsapp_automatic_plann.Prelude.Decimal.{decimal}
use whatsapp_automatic_plann.Workflow.Enums.{Intent, quote, execution_plan, intent_value}
use whatsapp_automatic_plann.Domain.Enums.{
  classification, approval, OwnerDecision, confirm, correct, reject, approve, revise,
}
use whatsapp_automatic_plann.Domain.Models.{Request}
use whatsapp_automatic_plann.Nlp.Classifier.{ClassificationResult}
use whatsapp_automatic_plann.Hitl.Tokens.{TokenCodec, TokenSigner, rstrip, issue}

-- `_link` without the token
unfoldable pub address : Text → Text
address base_url = rstrip b'/' base_url ++ codes "/hitl/action?token="

-- `_link`
unfoldable pub link : Text → Text → Text
unfolding address
link base_url token = address base_url ++ token

-- The labels of the links at the first gate, with the decision and intent that each signs.
abbrev pub classification_choices : List (String × OwnerDecision × Option Intent)
classification_choices =
    ("Confirm", confirm, none)
    ∷ ("It's a quote", correct, some quote)
    ∷ ("It's an execution plan", correct, some execution_plan)
    ∷ ("Reject", reject, none)
    ∷ []

abbrev pub approval_choices : List (String × OwnerDecision)
approval_choices = ("Approve", approve) ∷ ("Request revision", revise) ∷ []

module _ (codec : TokenCodec) (base_url : Text) (signer : TokenSigner) (request : Request)
    (now : ℕ) where
  unfoldable pub classification_links : List (String × Text)
  unfolding link
  classification_links =
      map
        (λ (label, decision, intent). (
          label,
          link base_url (issue codec signer request.id classification decision now intent 0),
        ))
        classification_choices

  unfoldable pub approval_links : ℕ → List (String × Text)
  unfolding link
  approval_links revision_no =
      map
        (λ (label, decision). (
          label,
          link base_url (issue codec signer request.id approval decision now none revision_no),
        ))
        approval_choices

-- `_render_links`: the lines joined by line feeds.
unfoldable pub render_links : List (String × Text) → Text
render_links [] = []
render_links ((label, url) ∷ []) = codes ("- " <> label <> ": ") ++ url
render_links ((label, url) ∷ l ∷ ls) =
    codes ("- " <> label <> ": ") ++ (url ++ (codes "\n" ++ render_links (l ∷ ls)))

-- `percent` is the format `:.0%` of a float.
unfoldable pub compose_classification_notification :
    (ℕ → String)
    → Request
    → String
    → ClassificationResult
    → List (String × Text)
    → Bool
    → String × Text
unfolding render_links
compose_classification_notification percent request client_name result links low_confidence =
    let label = intent_value result.intent in
    let flag_note = if low_confidence then "  ⚠ low confidence" else "" in
    (
      "New " <> label <> " request from " <> client_name,
      codes (
            "A new request was detected and classified as: "
            <> label
            <> ".\n\n"
            <> "Client: "
            <> client_name
            <> "\n"
            <> "Request: "
            <> request.id
            <> "\n"
            <> "Confidence: "
            <> percent result.confidence
            <> flag_note
            <> "\n"
            <> "Why: "
            <> result.rationale
            <> "\n\n"
            <> "Please confirm the classification:\n")
          ++ render_links links,
    )

-- `label` is `request.intent.value`.
unfoldable pub compose_delivery_notification :
    Request → String → ℕ → List (String × Text) → String × Text
unfolding render_links
compose_delivery_notification request label revision_no links = (
  "Document ready for review — request " <> request.id <> " (rev " <> decimal revision_no <> ")",
  codes (
        "The "
        <> label
        <> " document for request "
        <> request.id
        <> " "
        <> "(revision "
        <> decimal revision_no
        <> ") is attached.\n\n"
        <> "Please review and choose:\n")
      ++ (render_links links
          ++ codes (
              "\n\n"
              <> "To request a revision, follow the revision link and include your feedback.")),
)
