-- ===== src/Hitl/Tokens/Soundness.antt =====
-- Only what carries the signer's digest is accepted, and how anything else is refused.
use whatsapp_automatic_plann.Prelude.{
  ℕ, ◌≡◌, ◌≢◌, refl, ◌<◌, sym, ap, ◌∙◌, some, List, [], ◌∷◌, ◌++◌, inl, inr, arith, if◌then◌else◌,
  Option-cases,
}
use whatsapp_automatic_plann.Prelude.Texts.{Text, Lacks, text_eq_sound, is_ascii}
use whatsapp_automatic_plann.Errors.{ok, err, invalid_token, type_error}
use whatsapp_automatic_plann.Hitl.Tokens.{
  ActionToken, TokenCodec, TokenSigner, IsLawful, extend, split, compare_digest, pad, sign,
  open_payload, verify_parts, verify,
}
use whatsapp_automatic_plann.Hitl.Tokens.RoundTrip.{split-append}

abbrev join : ℕ → List Text → Text
join c [] = []
join c (p ∷ []) = p
join c (p ∷ q ∷ ps) = p ++ c ∷ join c (q ∷ ps)

join-extend :
    (c x : ℕ) (parts : List Text)
    → parts ≢ []
    → (extend c x parts ≢ []) × (join c (extend c x parts) ≡ x ∷ join c parts)
join-extend c x [] h = absurd (h refl)
join-extend c x (p ∷ []) h = ground arith
join-extend c x (p ∷ q ∷ ps) h = ground arith

join-split : (c : ℕ) (xs : Text) → (split c xs ≢ []) × (join c (split c xs) ≡ xs)
unfolding split
join-split c [] = (λ h. cc, refl)
join-split c (x ∷ xs) =
    let (ne, e) = join-split c xs in
    let (ne', e') = join-extend c x (split c xs) ne in (ne', e' ∙ ap (λ t. x ∷ t) e)

module _ (codec : TokenCodec) (signer : TokenSigner) where
  -- What the payload of an accepted token decodes to, and that it has not expired.
  open_payload-ok :
      (payload : Text) (now : ℕ) {t : ActionToken}
      → open_payload codec signer payload now ≡ ok t
      → (bytes : Text) × (codec.decode64 (pad payload) ≡ some bytes)
        × (codec.load_token bytes ≡ some t)
        × (now < t.expires_at)
  unfolding open_payload
  open_payload-ok payload now {t} h = elim (Option-cases (codec.decode64 (pad payload))) [
    | inl e ↦ absurd (ground arith)
    | inr (b, e) ↦ elim (Option-cases (codec.load_token b)) [
      | inl f ↦ absurd (ground arith)
      | inr (u, f) ↦ (b, e, ground arith, ground arith)
    ]
  ]

  verify_parts-ok :
      (parts : List Text) (now : ℕ) {t : ActionToken}
      → verify_parts codec signer parts now ≡ ok t
      → (payload : Text) × (parts ≡ payload ∷ sign codec signer payload ∷ [])
        × (open_payload codec signer payload now ≡ ok t)
  unfolding verify_parts
  verify_parts-ok (payload ∷ signature ∷ []) now h =
      let parted = text_eq_sound (sign codec signer payload) signature in
      (payload, ground (arith, parted), ground arith)
  verify_parts-ok _ now h = absurd (ground arith)

  -- An accepted text is a payload and the digest of exactly that payload under the signer's
  -- secret, the payload decodes to the token, and the token has not expired.
  pub verify-ok :
      (raw : Text) (now : ℕ) {t : ActionToken}
      → verify codec signer raw now ≡ ok t
      → (payload bytes : Text) × (raw ≡ payload ++ b'.' ∷ sign codec signer payload)
        × (codec.decode64 (pad payload) ≡ some bytes)
        × (codec.load_token bytes ≡ some t)
        × (now < t.expires_at)
  unfolding verify
  verify-ok raw now h =
      let (payload, e, opened) = verify_parts-ok (split b'.' raw) now h in
      let (bytes, decoded, loaded, fresh) = open_payload-ok payload now opened in
      (payload, bytes, sym (join-split b'.' raw).1 ∙ ap (join b'.') e, decoded, loaded, fresh)

  -- A text of two parts whose second is not the digest of the first is refused: as invalid if that
  -- part is ASCII, and by the `TypeError` of `compare_digest`, which nothing catches, if it is not.
  pub verify_tampered :
      (payload signature : Text) (now : ℕ)
      → IsLawful codec
      → Lacks b'.' payload
      → Lacks b'.' signature
      → signature ≢ sign codec signer payload
      → verify codec signer (payload ++ b'.' ∷ signature) now
        ≡ (if is_ascii signature then err invalid_token else err type_error)
  unfolding verify compare_digest sign
  verify_tampered payload signature now L h k differs = ground (
    arith,
    split-append b'.' payload signature h k,
    L.digest_ascii signer.secret payload,
    text_eq_sound (sign codec signer payload) signature,
  )
