-- ===== src/Hitl/Tokens.antt =====
-- src/wapp_planner/hitl/tokens.py. Texts are walked, so they are lists of code points; times are
-- microseconds.
pub mod RoundTrip
pub mod Soundness
use whatsapp_automatic_plann.Prelude.{
  ℕ, zero, suc, ◌+◌, ◌-◌, ◌%◌, ◌≡◌, ◌<◌, Bool, true, false, ◌&&◌, Option, none, some, List, [], ◌∷◌,
  ◌++◌, length, String, leb, ◌==ℕ◌, if◌then◌else◌,
}
use whatsapp_automatic_plann.Prelude.Texts.{Text, Lacks, text_eq, is_ascii}
use whatsapp_automatic_plann.Workflow.Enums.{Intent}
use whatsapp_automatic_plann.Domain.Enums.{OwnerInteractionKind, OwnerDecision}
use whatsapp_automatic_plann.Errors.{
  Result, ok, err, invalid_token, expired_token, type_error, value_error, and_then, or_raise,
}

pub record ActionToken : Type 0 where
  pub request_id : String
  pub gate : OwnerInteractionKind
  pub decision : OwnerDecision
  pub expires_at : ℕ
  pub intent : Option Intent
  pub revision_no : ℕ

-- What the signer takes from the standard library and pydantic: HMAC-SHA256 in hexadecimal digits,
-- base64 for URLs with its padding, and the JSON of a token.
pub record TokenCodec : Type 0 where
  pub hmac : Text → Text → Text
  pub encode64 : Text → Text
  pub decode64 : Text → Option Text
  pub dump_token : ActionToken → Text
  pub load_token : Text → Option ActionToken

pub record TokenSigner : Type 0 where
  pub secret : Text
  pub ttl : ℕ

abbrev pub repeat : ℕ → ℕ → Text
repeat zero c = []
repeat (suc n) c = c ∷ repeat n c

-- `data.rstrip(b"=")`
unfoldable pub rstrip : ℕ → Text → Text
rstrip c [] = []
rstrip c (x ∷ xs) = elim (rstrip c xs) [ [] ↦ if x ==ℕ c then [] else x ∷ [] | y ∷ ys ↦ x ∷ y ∷ ys ]

-- What a character in front of a text does to its parts.
abbrev pub extend : ℕ → ℕ → List Text → List Text
extend c x parts =
    if x ==ℕ c then [] ∷ parts else elim parts [ [] ↦ (x ∷ []) ∷ [] | p ∷ ps ↦ (x ∷ p) ∷ ps ]

-- `raw.split(c)`
unfoldable pub split : ℕ → Text → List Text
split c [] = [] ∷ []
split c (x ∷ xs) = extend c x (split c xs)

-- `hmac.compare_digest` on two texts, which raises unless both are ASCII.
unfoldable pub compare_digest : Text → Text → Result Bool
compare_digest a b = if is_ascii a && is_ascii b then ok (text_eq a b) else err type_error

-- `payload_b64 + "=" * (-len(payload_b64) % 4)`
unfoldable pub pad : Text → Text
pad payload = payload ++ repeat ((4 - length payload % 4) % 4) b'='

module _ (codec : TokenCodec) (signer : TokenSigner) where
  -- `TokenSigner._sign`
  unfoldable pub sign : Text → Text
  sign payload = codec.hmac signer.secret payload

  -- The payload of a token, without the padding.
  unfoldable pub payload_of : ActionToken → Text
  payload_of token = rstrip b'=' (codec.encode64 (codec.dump_token token))

  -- `TokenSigner.issue`
  unfoldable pub issue :
      String → OwnerInteractionKind → OwnerDecision → ℕ → Option Intent → ℕ → Text
  unfolding sign
  issue request_id gate decision now intent revision_no =
      let payload = payload_of (record {
        request_id = request_id;
        gate = gate;
        decision = decision;
        expires_at = now + signer.ttl;
        intent = intent;
        revision_no = revision_no;
      }) in
      payload ++ b'.' ∷ sign payload

  -- The part of `verify` behind the check of the signature.
  unfoldable pub open_payload : Text → ℕ → Result ActionToken
  open_payload payload now = and_then (or_raise (codec.decode64 (pad payload)) value_error) λ bytes.
      and_then (or_raise (codec.load_token bytes) value_error)
        λ token. if leb token.expires_at now then err expired_token else ok token

  -- `verify` on the parts of the raw text.
  unfoldable pub verify_parts : List Text → ℕ → Result ActionToken
  unfolding sign compare_digest
  verify_parts (payload ∷ signature ∷ []) now =
      and_then (compare_digest (sign payload) signature)
        λ same. if same then open_payload payload now else err invalid_token
  verify_parts _ now = err invalid_token

  -- `TokenSigner.verify`
  unfoldable pub verify : Text → ℕ → Result ActionToken
  unfolding verify_parts
  verify raw now = verify_parts (split b'.' raw) now

-- RFC 4648: padding of at most three signs completes the text to a multiple of four, and neither
-- the sign of the padding nor the full stop is in the alphabet.
pub record IsPadded (encoded : Text) : Type 0 where
  pub unpadded : Text
  pub padding : ℕ
  pub parts : encoded ≡ unpadded ++ repeat padding b'='
  pub few : padding < 4
  pub complete : (length unpadded + padding) % 4 ≡ 0
  pub no_sign : Lacks b'=' unpadded
  pub no_stop : Lacks b'.' unpadded

-- What the signer relies on: decoding undoes encoding, a digest is in hexadecimal digits.
pub record IsLawful (codec : TokenCodec) : Type 0 where
  pub padded : (bytes : Text) → IsPadded (codec.encode64 bytes)
  pub decoded : (bytes : Text) → codec.decode64 (codec.encode64 bytes) ≡ some bytes
  pub loaded : (t : ActionToken) → codec.load_token (codec.dump_token t) ≡ some t
  pub digest_ascii : (secret payload : Text) → is_ascii (codec.hmac secret payload) ≡ true
  pub digest_no_stop : (secret payload : Text) → Lacks b'.' (codec.hmac secret payload)
