-- ===== src/Media/Processor.antt =====
-- src/wapp_planner/media/processor.py
pub mod Coverage
use whatsapp_automatic_plann.Prelude.{
  ℕ, Bool, true, false, String, ◌<>◌, Option, none, some, List, [], ◌∷◌, ◌++◌, any, or_text, leb,
  ◌==◌, if◌then◌else◌,
}
use whatsapp_automatic_plann.Prelude.Dict.{Dict, lookup}
use whatsapp_automatic_plann.Workflow.Enums.{MessageType, type_value}
use whatsapp_automatic_plann.Domain.Enums.{ProcessingStatus, processed, unprocessable}
use whatsapp_automatic_plann.Domain.Models.{Message}
use whatsapp_automatic_plann.Errors.{
  Action, Result, ok, err, Error, lookup_error, pure, raise, ◌>>=◌,
}
use whatsapp_automatic_plann.Providers.{Bytes, DownloadedMedia, TranscriptionResult, MediaServices}

pub record TranscriptSegment : Type 0 where
  pub message_id : String
  pub source : String
  pub timestamp : ℕ
  pub content : String
  pub status : ProcessingStatus

unfoldable pub is_processed : ProcessingStatus → Bool
is_processed processed = true
is_processed _ = false

-- `NormalizedTranscript.has_content`
unfoldable pub has_content : List TranscriptSegment → Bool
unfolding is_processed
has_content = any (λ seg. is_processed seg.status)

-- `NormalizedTranscript.render`; `isoformat` is the text of a `datetime`.
unfoldable pub render : (ℕ → String) → List TranscriptSegment → String
render isoformat [] = ""
render isoformat (seg ∷ []) =
    "[" <> seg.source <> " @ " <> isoformat seg.timestamp <> "] " <> seg.content
render isoformat (seg ∷ next ∷ rest) =
    "["
    <> seg.source
    <> " @ "
    <> isoformat seg.timestamp
    <> "] "
    <> seg.content
    <> "\n"
    <> render isoformat (next ∷ rest)

-- `sorted(messages, key=lambda m: m.order)`, a stable sort.
unfoldable pub place : Message → List Message → List Message
place m [] = m ∷ []
place m (x ∷ xs) = if leb m.order x.order then m ∷ x ∷ xs else x ∷ place m xs

unfoldable pub sort : List Message → List Message
unfolding place
sort [] = []
sort (m ∷ ms) = place m (sort ms)

-- `MediaProcessor._segment`
unfoldable pub segment : Message → String → String → ProcessingStatus → TranscriptSegment
segment msg source content status = record {
  message_id = msg.id;
  source = source;
  timestamp = msg.received_at;
  content = content;
  status = status;
}

-- The settings of `MediaProcessor`.
pub record MediaConfig : Type 0 where
  pub transcription_model : String
  pub vision_model : String
  pub vision_prompt : String
  pub max_video_frames : ℕ

-- `f"{prefix}{separator}{text}" if prefix else text`
abbrev prefixed : Option String → String → String → String
prefixed none separator text = text
prefixed (some p) separator text = if p == "" then text else p <> separator <> text

module _ {W : Type 0} (services : MediaServices W) (config : MediaConfig) where
  -- `_transcribe`
  unfoldable pub transcribe : Bytes → Option String → Action W String
  transcribe audio mime_type =
      services.transcribe audio config.transcription_model mime_type >>= λ r. pure r.text

  -- The loop over the frames in `_video_segments`.
  unfoldable pub frame_segments : Message → List Bytes → Action W (List TranscriptSegment)
  unfolding segment
  frame_segments msg [] = pure []
  frame_segments msg (frame ∷ frames) =
      services.describe frame config.vision_model "image/jpeg" config.vision_prompt
      >>= λ description. frame_segments msg frames >>= λ rest.
          pure (segment msg "video-frame" description processed ∷ rest)

  unfoldable pub video_segments : Message → Bytes → Action W (List TranscriptSegment)
  unfolding transcribe segment
  video_segments msg content = services.extract_audio content >>= λ audio.
      transcribe audio none >>= λ text.
      services.sample_frames content config.max_video_frames >>= λ frames.
      frame_segments msg frames >>= λ rest. pure (segment msg "video-audio" text processed ∷ rest)

  -- The branches of `_segments_for` for a message whose media is at hand.
  unfoldable pub media_segments :
      MessageType → Message → DownloadedMedia → Action W (List TranscriptSegment)
  unfolding transcribe segment
  media_segments MessageType.image msg downloaded =
      services.describe downloaded.content config.vision_model downloaded.mime_type
        config.vision_prompt
      >>= λ description.
          pure (segment msg "image" (prefixed msg.caption " — " description) processed ∷ [])
  media_segments MessageType.video msg downloaded = video_segments msg downloaded.content
  media_segments MessageType.audio msg downloaded =
      transcribe downloaded.content (some downloaded.mime_type) >>= λ text.
      pure (segment msg "audio" text processed ∷ [])
  media_segments MessageType.voice msg downloaded =
      transcribe downloaded.content (some downloaded.mime_type) >>= λ text.
      pure (segment msg "audio" text processed ∷ [])
  media_segments _ msg downloaded =
      services.extract downloaded.content downloaded.mime_type >>= λ text.
      pure (segment msg "document" (prefixed msg.filename ": " text) processed ∷ [])

  -- `_segments_for`
  unfoldable pub segments_for : Message → Dict DownloadedMedia → Action W (List TranscriptSegment)
  unfolding segment
  segments_for msg media = elim msg.type [
    | MessageType.text ↦ pure (segment msg "text" (or_text msg.text "") processed ∷ [])
    | other ↦ elim (lookup msg.id media) [
      | none ↦ raise lookup_error
      | some downloaded ↦ media_segments other msg downloaded
    ]
  ]

  -- `str(exc)` is a parameter.
  module _ (error_text : Error → String) where
    -- One turn of the loop: whatever is raised becomes a segment.
    unfoldable pub segments_or_note :
        Message → Dict DownloadedMedia → W → List TranscriptSegment × W
    unfolding segment
    segments_or_note msg media w =
        let (r, w') = segments_for msg media w in
        elim r [
          | ok segs ↦ (segs, w')
          | err e ↦ (
            segment msg (type_value msg.type) ("[unprocessable: " <> error_text e <> "]")
                  unprocessable
                ∷ [],
            w',
          )
        ]

    unfoldable pub transcript_loop :
        List Message → Dict DownloadedMedia → W → List TranscriptSegment × W
    transcript_loop [] media w = ([], w)
    transcript_loop (msg ∷ msgs) media w =
        let (segs, w') = segments_or_note msg media w in
        let (rest, w'') = transcript_loop msgs media w' in (segs ++ rest, w'')

    unfoldable pub build_transcript :
        List Message → Dict DownloadedMedia → W → List TranscriptSegment × W
    unfolding sort
    build_transcript messages media w = transcript_loop (sort messages) media w
