-- ===== src/Orchestrator/Wiring.antt =====
-- The stages of src/wapp_planner/orchestrator/orchestrator.py, as its constructor takes the services.
use whatsapp_automatic_plann.Prelude.{ℕ, Bool, String, Option}
use whatsapp_automatic_plann.Prelude.Texts.{Text}
use whatsapp_automatic_plann.Json.{Json}
use whatsapp_automatic_plann.Errors.{Error, Result}
use whatsapp_automatic_plann.Providers.{Llm, MediaServices, StorageProvider}
use whatsapp_automatic_plann.Nlp.Classifier
use whatsapp_automatic_plann.Nlp.Classifier.{ReadFields}
use whatsapp_automatic_plann.Media.Processor.{MediaConfig, build_transcript, render}
use whatsapp_automatic_plann.Documents.Content.{Branding}
use whatsapp_automatic_plann.Documents.Generator
use whatsapp_automatic_plann.Documents.Generator.{ContentCodec}
use whatsapp_automatic_plann.Documents.Renderer.{RenderLibs, render_document}
use whatsapp_automatic_plann.Hitl.Service
use whatsapp_automatic_plann.Hitl.Service.{HitlCodec, NotificationService}
use whatsapp_automatic_plann.Orchestrator.Stages.{Stages}

-- What the services take from the standard library and from third-party packages.
pub record Libraries (W : Type 0) : Type 0 where
  pub isoformat : ℕ → String
  pub error_text : Error → String
  pub loads : Text → Result Json
  pub read_fields : Json → Option ReadFields
  pub content : ContentCodec
  pub sleep : ℕ → W → W
  pub rendering : RenderLibs
  pub hitl : HitlCodec

-- The configuration of a `Classifier`, and that of a `Generator`.
pub record ClassifierConfig : Type 0 where
  pub model : String
  pub prompt_version : String

pub record GeneratorConfig : Type 0 where
  pub model : String
  pub prompt_version : String
  pub max_attempts : ℕ
  pub backoff_base : ℕ

-- The arguments of `Orchestrator.__init__`; the language model is that of both its users.
pub record OrchestratorArgs (W : Type 0) : Type 0 where
  pub media : MediaServices W
  pub media_config : MediaConfig
  pub llm : Llm W
  pub classifier : ClassifierConfig
  pub generator : GeneratorConfig
  pub notifications : NotificationService W
  pub storage : StorageProvider W
  pub branding : Branding
  pub confidence_threshold : ℕ
  pub notify_on_none : Bool

unfoldable pub stages_of : {W : Type 0} → Libraries W → OrchestratorArgs W → Stages W
unfolding build_transcript render Classifier.classify Generator.generate render_document
stages_of lib args = record {
  transcript = λ messages media w.
      let (segments, w') =
        build_transcript args.media args.media_config lib.error_text messages media w in
      (render lib.isoformat segments, w');
  classify =
      Classifier.classify lib.loads lib.read_fields args.llm args.classifier.model
        args.classifier.prompt_version;
  generate =
      Generator.generate lib.content args.llm args.generator.model lib.sleep
        args.generator.prompt_version args.generator.max_attempts args.generator.backoff_base;
  render = λ content basename. render_document lib.rendering content args.branding basename;
  put = args.storage.put;
  notify_classification = Service.notify_classification lib.hitl args.notifications;
  deliver_document = Service.deliver_document lib.hitl args.notifications;
  confidence_threshold = args.confidence_threshold;
  notify_on_none = args.notify_on_none;
}
