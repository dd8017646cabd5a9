-- ===== src/Media/Adapters.antt =====
-- src/wapp_planner/media/adapters.py. `subprocess.run` and the decoding of UTF-8 are parameters.
use whatsapp_automatic_plann.Prelude.{ℕ, zero, suc, ◌+◌, String, ◌<>◌, none, some, List, [], ◌∷◌}
use whatsapp_automatic_plann.Prelude.Texts.{codes, after_prefix}
use whatsapp_automatic_plann.Prelude.Decimal.{decimal}
use whatsapp_automatic_plann.Errors.{Action, Result, ok, err, value_error, pure, ◌>>=◌}
use whatsapp_automatic_plann.Providers.{Bytes}

-- What runs a command: its words, and its standard input.
abbrev pub CommandRunner : Type 0 → Type 0
CommandRunner W = List String → Bytes → Action W Bytes

-- The command for one frame.
unfoldable pub frame_command : ℕ → List String
frame_command index =
    "ffmpeg"
    ∷ "-hide_banner"
    ∷ "-i"
    ∷ "pipe:0"
    ∷ "-vf"
    ∷ ("select=eq(n\\," <> decimal index <> ")")
    ∷ "-frames:v"
    ∷ "1"
    ∷ "-f"
    ∷ "image2"
    ∷ "pipe:1"
    ∷ []

module _ {W : Type 0} (run : CommandRunner W) where
  -- `SubprocessVideoProcessor.extract_audio`
  unfoldable pub extract_audio : String → Bytes → Action W Bytes
  extract_audio audio_format video =
      run
        ("ffmpeg" ∷ "-hide_banner" ∷ "-i" ∷ "pipe:0" ∷ "-vn" ∷ "-f" ∷ audio_format ∷ "pipe:1" ∷ [])
        video

  -- The loop of `sample_frames`: the frames left, and the number of the next one.
  unfoldable pub frame_loop : Bytes → ℕ → ℕ → Action W (List Bytes)
  unfolding frame_command
  frame_loop video zero index = pure []
  frame_loop video (suc left) index = run (frame_command index) video >>= λ frame.
      frame_loop video left (index + 1) >>= λ frames. pure (frame ∷ frames)

  -- `SubprocessVideoProcessor.sample_frames`
  unfoldable pub sample_frames : Bytes → ℕ → Action W (List Bytes)
  unfolding frame_loop
  sample_frames video max_frames = frame_loop video max_frames 0

-- `SimpleDocumentTextExtractor.extract`; `decode` is `decode("utf-8", errors="replace")`.
unfoldable pub extract_text : (Bytes → String) → Bytes → String → Result String
extract_text decode bytes mime_type = elim (after_prefix (codes "text/") (codes mime_type)) [
  | none ↦ err value_error
  | some _ ↦ ok (decode bytes)
]

-- `subprocess_runner`; `run` is `subprocess.run` with its timeout in seconds, which raises if the
-- command fails, and gives what the command wrote.
unfoldable pub subprocess_runner :
    {W : Type 0} → (List String → Bytes → ℕ → Action W Bytes) → ℕ → CommandRunner W
subprocess_runner run timeout argv stdin = run argv stdin timeout >>= λ stdout. pure stdout

abbrev pub default_timeout : ℕ
default_timeout = 60
