-- ===== src/Orchestrator/Stages.antt =====
-- What the orchestrator asks of the services that it is built from.
use whatsapp_automatic_plann.Prelude.{ℕ, Bool, String, Option, List}
use whatsapp_automatic_plann.Prelude.Dict.{Dict}
use whatsapp_automatic_plann.Workflow.Enums.{Intent}
use whatsapp_automatic_plann.Domain.Enums.{Channel}
use whatsapp_automatic_plann.Domain.Models.{Message, Request}
use whatsapp_automatic_plann.Errors.{Action, Result}
use whatsapp_automatic_plann.Providers.{Attachment, Bytes, DownloadedMedia}
use whatsapp_automatic_plann.Nlp.Classifier.{ClassificationResult}
use whatsapp_automatic_plann.Documents.Content.{DocumentContent}
use whatsapp_automatic_plann.Documents.Generator.{GeneratedDocument}

-- `transcript` is `MediaProcessor.build_transcript(…).render()`, which never raises; `render` is
-- `render_document` with the branding.
pub record Stages (W : Type 0) : Type 0 where
  pub transcript : List Message → Dict DownloadedMedia → W → String × W
  pub classify : String → Action W ClassificationResult
  pub generate :
      Option Intent
      → String
      → String
      → Option String
      → Option DocumentContent
      → Action W GeneratedDocument
  pub render : DocumentContent → String → Result (List Attachment)
  pub put : String → Bytes → String → Action W String
  pub notify_classification :
      Request → String → ClassificationResult → ℕ → Action W (List (Channel × String))
  pub deliver_document : Request → ℕ → List Attachment → ℕ → Action W (List (Channel × String))
  pub confidence_threshold : ℕ
  pub notify_on_none : Bool
