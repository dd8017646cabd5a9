-- ===== src/Providers.antt =====
-- src/wapp_planner/providers/base.py: what goes to the external services and comes back, and the
-- services themselves, which are parameters. `W` is the state of everything outside the program.
-- A float, such as a cost, counts units of 2^-1074.
pub mod Fakes
pub mod Storage
pub mod Contract
pub mod Whatsapp
pub mod EmailNotifier
pub mod S3Storage
pub mod OpenAi
mod Tests
use whatsapp_automatic_plann.Prelude.{ℕ, Bool, String, Option, List, length}
use whatsapp_automatic_plann.Prelude.Texts.{Text}
use whatsapp_automatic_plann.Domain.Enums.{Channel}
use whatsapp_automatic_plann.Errors.{Action}

abbrev pub Bytes : Type 0
Bytes = List ℕ

pub record LlmResult : Type 0 where
  pub text : Text
  pub model : String
  pub input_tokens : ℕ
  pub output_tokens : ℕ
  pub cost_usd : ℕ

pub record TranscriptionResult : Type 0 where
  pub text : String
  pub model : String
  pub language : Option String
  pub cost_usd : ℕ

pub record DownloadedMedia : Type 0 where
  pub content : Bytes
  pub mime_type : String

-- `DownloadedMedia.size`
unfoldable pub size : DownloadedMedia → ℕ
size m = length m.content

pub record Attachment : Type 0 where
  pub filename : String
  pub content : Bytes
  pub content_type : String

pub record OutboundMessage : Type 0 where
  pub recipient : String
  pub body : Text
  pub subject : Option String
  pub attachments : List Attachment

-- `LLMProvider.complete`: system, user, model, and the temperature in tenths.
abbrev pub Llm : Type 0 → Type 0
Llm W = String → String → String → ℕ → Action W LlmResult

-- The services that handle media: `TranscriptionProvider`, `VisionProvider`, `VideoProcessor` and
-- `DocumentTextExtractor`.
pub record MediaServices (W : Type 0) : Type 0 where
  pub transcribe : Bytes → String → Option String → Action W TranscriptionResult
  pub describe : Bytes → String → String → String → Action W String
  pub extract_audio : Bytes → Action W Bytes
  pub sample_frames : Bytes → ℕ → Action W (List Bytes)
  pub extract : Bytes → String → Action W String

-- `StorageProvider`: the key, the data and its content type give a reference.
pub record StorageProvider (W : Type 0) : Type 0 where
  pub put : String → Bytes → String → Action W String
  pub get : String → Action W Bytes
  pub exists : String → Action W Bool
  pub delete : String → Action W (Unit {0})

-- `Notifier.send` of the notifier of a channel.
abbrev pub Notifiers : Type 0 → Type 0
Notifiers W = Channel → OutboundMessage → Action W String
