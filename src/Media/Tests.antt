-- ===== src/Media/Tests.antt =====
-- A transcript of two messages out of order, one without its media.
use mathlib.Core.List.{Perm}
use whatsapp_automatic_plann.Prelude.{ℕ, ◌+◌, none, some, List, [], ◌∷◌}
use whatsapp_automatic_plann.Workflow.Enums.{MessageType}
use whatsapp_automatic_plann.Domain.Enums.{pending}
use whatsapp_automatic_plann.Domain.Models.{Message}
use whatsapp_automatic_plann.Errors.{err, external}
use whatsapp_automatic_plann.Providers.{MediaServices}
use whatsapp_automatic_plann.Media.Processor.{MediaConfig, build_transcript}
use whatsapp_automatic_plann.Media.Processor.Coverage.{Covers, IsSorted, build_transcript-Covers}

-- Services that all fail; the world counts the calls.
abbrev services : MediaServices ℕ
services = record {
  transcribe = λ _ _ _ w. (err (external "down"), w + 1);
  describe = λ _ _ _ _ w. (err (external "down"), w + 1);
  extract_audio = λ _ w. (err (external "down"), w + 1);
  sample_frames = λ _ _ w. (err (external "down"), w + 1);
  extract = λ _ _ w. (err (external "down"), w + 1);
}

abbrev config : MediaConfig
config = record {
  transcription_model = "whisper";
  vision_model = "gpt";
  vision_prompt = "Describe";
  max_video_frames = 3;
}

abbrev note : MessageType → ℕ → Message
note type order = record {
  id = "m";
  type = type;
  order = order;
  received_at = 5;
  text = some "hello";
  caption = none;
  media_id = none;
  mime_type = none;
  filename = none;
  raw_ref = none;
  transcript = none;
  processing_status = pending;
}

abbrev inbox : List Message
inbox = note MessageType.voice 1 ∷ note MessageType.text 0 ∷ []

build_transcript-Covers_example :
    (ms : List Message) × Perm ms inbox
    × IsSorted ms
    × Covers ms (build_transcript services config (λ _. "error") inbox [] 0).0
build_transcript-Covers_example = build_transcript-Covers services config (λ _. "error") inbox [] 0
