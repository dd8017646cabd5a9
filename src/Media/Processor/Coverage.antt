-- ===== src/Media/Processor/Coverage.antt =====
-- Every message is in the transcript, in order, whatever the services do.
use whatsapp_automatic_plann.Prelude.{
  ℕ, ◌≤◌, ◌≡◌, ◌≢◌, refl, inl, inr, String, none, List, [], ◌∷◌, ◌++◌, All, arith, leb,
  Option-cases, Bool-cases,
}
use mathlib.Core.List.{Perm}
use mathlib.Core.List.Perm
use whatsapp_automatic_plann.Prelude.Dict.{Dict, lookup}
use whatsapp_automatic_plann.Workflow.Enums.{MessageType}
use whatsapp_automatic_plann.Domain.Models.{Message}
use whatsapp_automatic_plann.Errors.{after, Error, Result, ok, err, >>=-cases}
use whatsapp_automatic_plann.Providers.{Bytes, DownloadedMedia, MediaServices}
use whatsapp_automatic_plann.Media.Processor.{
  TranscriptSegment, MediaConfig, place, sort, segment, transcribe, frame_segments, video_segments,
  media_segments, segments_for, segments_or_note, transcript_loop, build_transcript,
}

-- A segment carries the id and the time of the message.
abbrev pub IsOf : Message → TranscriptSegment → Type 0
IsOf m seg = (seg.message_id ≡ m.id) × (seg.timestamp ≡ m.received_at)

-- The segments of one message: at least one, all of the message.
abbrev pub Chunk : Message → List TranscriptSegment → Type 0
Chunk m segs = (segs ≢ []) × All (IsOf m) segs

-- A result of `segments_for`, if it is one.
abbrev Good : Message → Result (List TranscriptSegment) → Type 0
Good m (ok segs) = Chunk m segs
Good m (err _) = Unit

abbrev AllOf : Message → Result (List TranscriptSegment) → Type 0
AllOf m (ok segs) = All (IsOf m) segs
AllOf m (err _) = Unit

module _ {W : Type 0} (services : MediaServices W) (config : MediaConfig) where
  abbrev described : Bytes → W → W
  described frame w =
      (services.describe frame config.vision_model "image/jpeg" config.vision_prompt w).1

  frame_segments-AllOf :
      (m : Message) (frames : List Bytes) (w : W)
      → AllOf m (frame_segments services config m frames w).0
  unfolding frame_segments after
  frame_segments-AllOf m [] w = tt
  frame_segments-AllOf m (frame ∷ frames) w =
      ground (arith, frame_segments-AllOf m frames (described frame w))

  video_segments-Good :
      (m : Message) (content : Bytes) (w : W)
      → Good m (video_segments services config m content w).0
  unfolding video_segments after
  video_segments-Good m content w =
      >>=-cases (Good m) (services.extract_audio content) _ w (λ e. tt)
        λ audio w₁ _.
          >>=-cases (Good m) (transcribe services config audio none) _ w₁ (λ e. tt)
            λ text w₂ _.
              >>=-cases (Good m) (services.sample_frames content config.max_video_frames) _ w₂
                (λ e. tt)
                λ frames w₃ _.
                  >>=-cases (Good m) (frame_segments services config m frames) _ w₃ (λ e. tt)
                    λ rest w₄ e.
                      (λ h. cc, ((refl, refl), ground (arith, frame_segments-AllOf m frames w₃)))

  media_segments-Good :
      (t : MessageType) (m : Message) (d : DownloadedMedia) (w : W)
      → Good m (media_segments services config t m d w).0
  unfolding media_segments segment after
  media_segments-Good MessageType.image m d w = ground arith
  media_segments-Good MessageType.video m d w = video_segments-Good m d.content w
  media_segments-Good _ m d w = ground arith

  segments_for-Good :
      (m : Message) (media : Dict DownloadedMedia) (w : W)
      → Good m (segments_for services config m media w).0
  unfolding segments_for after
  segments_for-Good m media w = elim (Option-cases (lookup m.id media)) [
    | inl e ↦ ground arith
    | inr (d, e) ↦ ground (arith, media_segments-Good m.type m d w)
  ]

  module _ (error_text : Error → String) where
    segments_or_note-Chunk :
        (m : Message) (media : Dict DownloadedMedia) (w : W)
        → Chunk m (segments_or_note services config error_text m media w).0
    unfolding segments_or_note after
    segments_or_note-Chunk m media w = ground (arith, segments_for-Good m media w)

-- The segments are those of the messages, message by message, in the order of the messages.
pub data Covers : List Message → List TranscriptSegment → Type 0 where
  done : Covers [] []
  next :
      {m : Message} {ms : List Message} {all : List TranscriptSegment}
      (segs rest : List TranscriptSegment)
      → Chunk m segs
      → Covers ms rest
      → all ≡ segs ++ rest
      → Covers (m ∷ ms) all

abbrev pub IsSorted : List Message → Type 0
IsSorted [] = Unit
IsSorted (m ∷ ms) = All (λ x. m.order ≤ x.order) ms × IsSorted ms

All-place :
    (n : ℕ) (m : Message) (ms : List Message)
    → n ≤ m.order
    → All (λ x. n ≤ x.order) ms
    → All (λ x. n ≤ x.order) (place m ms)
unfolding place
All-place n m [] h k = (h, tt)
All-place n m (x ∷ ms) h k = ground (arith, All-place n m ms h k.1)

All-le :
    (n k : ℕ) (ms : List Message) → n ≤ k → All (λ x. k ≤ x.order) ms → All (λ x. n ≤ x.order) ms
All-le n k [] h a = tt
All-le n k (x ∷ ms) h a = (omega arith, All-le n k ms h a.1)

place-IsSorted : (m : Message) (ms : List Message) → IsSorted ms → IsSorted (place m ms)
unfolding place
place-IsSorted m [] h = (tt, tt)
place-IsSorted m (x ∷ ms) h =
    ground (arith, place-IsSorted m ms h.1, All-place x.order m ms, All-le m.order x.order ms)

sort-IsSorted : (ms : List Message) → IsSorted (sort ms)
unfolding sort
sort-IsSorted [] = tt
sort-IsSorted (m ∷ ms) = place-IsSorted m (sort ms) (sort-IsSorted ms)

place-perm : (m : Message) (ms : List Message) → Perm (place m ms) (m ∷ ms)
unfolding place
place-perm m [] = Perm.refl _
place-perm m (x ∷ ms) = elim (Bool-cases (leb m.order x.order)) [
  | inl e ↦ rw e (Perm.refl _)
  | inr e ↦ rw e (Perm.trans (Perm.cons x (place-perm m ms)) (Perm.swap _ _ _))
]

sort-perm : (ms : List Message) → Perm (sort ms) ms
unfolding sort
sort-perm [] = Perm.refl _
sort-perm (m ∷ ms) = Perm.trans (place-perm m (sort ms)) (Perm.cons m (sort-perm ms))

module _ {W : Type 0} (services : MediaServices W) (config : MediaConfig)
    (error_text : Error → String) where
  transcript_loop-Covers :
      (ms : List Message) (media : Dict DownloadedMedia) (w : W)
      → Covers ms (transcript_loop services config error_text ms media w).0
  unfolding transcript_loop after
  transcript_loop-Covers [] media w = done
  transcript_loop-Covers (m ∷ ms) media w =
      next _ _ (segments_or_note-Chunk services config error_text m media w)
        (transcript_loop-Covers ms media _) refl

  -- The transcript is built whatever the services do or raise: it goes through all the messages,
  -- sorted by their order, and has for each of them at least one segment, with its id and time.
  pub build_transcript-Covers :
      (messages : List Message) (media : Dict DownloadedMedia) (w : W)
      → (ms : List Message) × Perm ms messages
        × IsSorted ms
        × Covers ms (build_transcript services config error_text messages media w).0
  unfolding build_transcript after
  build_transcript-Covers messages media w = (
    sort messages,
    sort-perm messages,
    sort-IsSorted messages,
    transcript_loop-Covers (sort messages) media w,
  )
