-- ===== src/Providers/Fakes.antt =====
-- src/wapp_planner/providers/fakes.py and the fakes of src/wapp_planner/media/extractors.py. A call of
-- a fake acts on the fake's own attributes.
use whatsapp_automatic_plann.Prelude.{
  ℕ, zero, suc, ◌+◌, Bool, String, ◌<>◌, Option, none, some, List, [], ◌∷◌, ◌++◌, length, is_none,
  not,
}
use whatsapp_automatic_plann.Prelude.Texts.{Text}
use whatsapp_automatic_plann.Prelude.Decimal.{decimal}
use whatsapp_automatic_plann.Prelude.Dict.{Dict, lookup, insert, erase}
use whatsapp_automatic_plann.Domain.Enums.{Channel, channel_value}
use whatsapp_automatic_plann.Errors.{Error, Action, key_error, pure, raise, modify}
use whatsapp_automatic_plann.Providers.{
  Bytes, LlmResult, TranscriptionResult, DownloadedMedia, OutboundMessage, StorageProvider,
}

-- What `FakeLLMProvider` records of a call; the temperature is in tenths.
pub record LlmCall : Type 0 where
  pub system : String
  pub user : String
  pub model : String
  pub temperature : ℕ
  pub max_tokens : Option ℕ

pub record FakeLlmProvider : Type 0 where
  pub default_text : Text
  pub responses : List LlmResult
  pub cost_per_call : ℕ
  pub calls : List LlmCall

pub record TranscriptionCall : Type 0 where
  pub size : ℕ
  pub model : String
  pub mime_type : Option String

pub record FakeTranscriptionProvider : Type 0 where
  pub default_text : String
  pub results : List TranscriptionResult
  pub calls : List TranscriptionCall

pub record VisionCall : Type 0 where
  pub size : ℕ
  pub model : String
  pub mime_type : String
  pub prompt : String

pub record FakeVisionProvider : Type 0 where
  pub default : String
  pub descriptions : List String
  pub calls : List VisionCall

pub record RecordingNotifier : Type 0 where
  pub channel : Channel
  pub raise_on_send : Option Error
  pub sent : List OutboundMessage
  pub counter : ℕ

pub record FakeVideoProcessor : Type 0 where
  pub audio : Bytes
  pub frames : List Bytes

-- `FakeLLMProvider.complete`
unfoldable pub complete : String → String → String → ℕ → Option ℕ → Action FakeLlmProvider LlmResult
complete system user model temperature max_tokens s =
    let calls =
      s.calls
      ++ record {
        system = system;
        user = user;
        model = model;
        temperature = temperature;
        max_tokens = max_tokens;
      }
        ∷ [] in
    elim s.responses [
      | [] ↦
          pure
            (record {
              text = s.default_text;
              model = model;
              input_tokens = 0;
              output_tokens = 0;
              cost_usd = s.cost_per_call;
            })
            (record s { calls = calls })
      | r ∷ rs ↦ pure r (record s { calls = calls; responses = rs })
    ]

-- `FakeTranscriptionProvider.transcribe`
unfoldable pub transcribe :
    Bytes → String → Option String → Action FakeTranscriptionProvider TranscriptionResult
transcribe audio model mime_type s =
    let calls =
      s.calls ++ record { size = length audio; model = model; mime_type = mime_type } ∷ [] in
    elim s.results [
      | [] ↦
          pure (record { text = s.default_text; model = model; language = none; cost_usd = 0 })
            (record s { calls = calls })
      | r ∷ rs ↦ pure r (record s { calls = calls; results = rs })
    ]

-- `FakeVisionProvider.describe`
unfoldable pub describe : Bytes → String → String → String → Action FakeVisionProvider String
describe image model mime_type prompt s =
    let calls =
      s.calls
      ++ record { size = length image; model = model; mime_type = mime_type; prompt = prompt }
        ∷ [] in
    elim s.descriptions [
      | [] ↦ pure s.default (record s { calls = calls })
      | d ∷ ds ↦ pure d (record s { calls = calls; descriptions = ds })
    ]

-- The store of `InMemoryStorage`: the data and the content type of a key.
abbrev pub InMemoryStorage : Type 0
InMemoryStorage = Dict (Bytes × String)

unfoldable pub put : String → Bytes → String → Action InMemoryStorage String
put key content content_type = λ s. pure ("memory://" <> key) (insert key (content, content_type) s)

unfoldable pub get : String → Action InMemoryStorage Bytes
get key s = elim (lookup key s) [ none ↦ raise key_error s | some (content, _) ↦ pure content s ]

unfoldable pub content_type : String → Action InMemoryStorage String
content_type key s = elim (lookup key s) [ none ↦ raise key_error s | some (_, type) ↦ pure type s ]

unfoldable pub exists : String → Action InMemoryStorage Bool
exists key s = pure (not (is_none (lookup key s))) s

-- `self._store.pop(key, None)`
unfoldable pub delete : String → Action InMemoryStorage (Unit {0})
delete key = modify (erase key)

-- `InMemoryStorage` as a storage provider.
unfoldable pub in_memory_storage : StorageProvider InMemoryStorage
unfolding put get exists delete
in_memory_storage = record { put = put; get = get; exists = exists; delete = delete }

-- `RecordingNotifier.send`
unfoldable pub send : OutboundMessage → Action RecordingNotifier String
unfolding channel_value
send message s = elim s.raise_on_send [
  | some e ↦ raise e s
  | none ↦
      pure (channel_value s.channel <> "-msg-" <> decimal (s.counter + 1))
        (record s { sent = s.sent ++ message ∷ []; counter = s.counter + 1 })
]

-- `FakeWhatsAppMediaClient`, whose state is its media by id.
unfoldable pub add : String → Bytes → String → Action (Dict DownloadedMedia) (Unit {0})
add media_id content mime_type =
    modify (insert media_id (record { content = content; mime_type = mime_type }))

unfoldable pub download : String → Action (Dict DownloadedMedia) DownloadedMedia
download media_id s = elim (lookup media_id s) [ none ↦ raise key_error s | some m ↦ pure m s ]

-- `xs[:n]`
abbrev pub first : {A : Type 0} → ℕ → List A → List A
first n [] = []
first zero (x ∷ xs) = []
first (suc n) (x ∷ xs) = x ∷ first n xs

unfoldable pub extract_audio : FakeVideoProcessor → Bytes → Bytes
extract_audio s video = s.audio

unfoldable pub sample_frames : FakeVideoProcessor → Bytes → ℕ → List Bytes
sample_frames s video max_frames = first max_frames s.frames

-- `FakeDocumentTextExtractor.extract`, of the text that it was given.
unfoldable pub extract : String → Bytes → String → String
extract text content mime_type = text
