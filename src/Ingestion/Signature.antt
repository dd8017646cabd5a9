-- ===== src/Ingestion/Signature.antt =====
-- src/wapp_planner/ingestion/signature.py, on texts as lists of code points.
use whatsapp_automatic_plann.Prelude.{
  ◌≡◌, refl, Bool, true, false, Option, none, some, [], ◌∷◌, ◌++◌, arith, inl, inr, Option-cases,
  if◌then◌else◌,
}
use whatsapp_automatic_plann.Prelude.Texts.{
  Text, codes, text_eq, text_eq_refl, text_eq_sound, is_ascii, after_prefix,
}
use whatsapp_automatic_plann.Errors.{Result, ok, err, webhook_verification, and_then}
use whatsapp_automatic_plann.Providers.{Bytes}
use whatsapp_automatic_plann.Hitl.Tokens.{compare_digest}

-- `_SIGNATURE_PREFIX`
abbrev pub signature_prefix : Text
signature_prefix = codes "sha256="

unfoldable pub verify_subscription : Option Text → Option Text → Text → Text → Result Text
unfolding compare_digest
verify_subscription (some mode) (some token) challenge expected_token =
    if text_eq mode (codes "subscribe")
    then (and_then (compare_digest token expected_token)
        λ same. if same then ok challenge else err webhook_verification)
    else err webhook_verification
verify_subscription _ _ challenge expected_token = err webhook_verification

-- HMAC-SHA256 in hexadecimal digits is a parameter.
module _ (hmac : Text → Bytes → Text) where
  -- An empty header has no prefix.
  unfoldable pub is_valid_signature : Bytes → Option Text → Text → Result Bool
  unfolding compare_digest
  is_valid_signature payload none app_secret = ok false
  is_valid_signature payload (some signature_header) app_secret =
      elim (after_prefix signature_prefix signature_header) [
        | none ↦ ok false
        | some provided ↦ compare_digest (hmac app_secret payload) provided
      ]

after_prefix-append : (p r : Text) → after_prefix p (p ++ r) ≡ some r
after_prefix-append [] r = refl
after_prefix-append (x ∷ p) r = ground (arith, after_prefix-append p r)

after_prefix_sound : (p t : Text) {r : Text} → after_prefix p t ≡ some r → t ≡ p ++ r
after_prefix_sound [] t h = ground arith
after_prefix_sound (x ∷ p) [] h = cc
after_prefix_sound (x ∷ p) (y ∷ t) {r} h = ground (arith, after_prefix_sound p t {r = r})

-- The handshake is answered, with the challenge, only for the mode `subscribe` and the token that
-- is expected.
pub verify_subscription-ok :
    (mode token : Option Text) (challenge expected_token : Text) {answer : Text}
    → verify_subscription mode token challenge expected_token ≡ ok answer
    → (mode ≡ some (codes "subscribe")) × (token ≡ some expected_token) × (answer ≡ challenge)
unfolding verify_subscription compare_digest
verify_subscription-ok (some mode) (some token) challenge expected_token h =
    ground (arith, text_eq_sound mode (codes "subscribe"), text_eq_sound token expected_token)
verify_subscription-ok none token challenge expected_token h = cc
verify_subscription-ok (some mode) none challenge expected_token h = cc

module _ (hmac : Text → Bytes → Text) where
  -- A body is taken as signed exactly when its header is the prefix and the digest of the body under
  -- the secret, when a digest is in ASCII.
  pub is_valid_signature_lem :
      (payload : Bytes) (header : Option Text) (app_secret : Text)
      → is_ascii (hmac app_secret payload) ≡ true
      → (is_valid_signature hmac payload header app_secret ≡ ok true
          → header ≡ some (signature_prefix ++ hmac app_secret payload))
        × (header ≡ some (signature_prefix ++ hmac app_secret payload)
            → is_valid_signature hmac payload header app_secret ≡ ok true)
  unfolding is_valid_signature compare_digest
  is_valid_signature_lem payload none app_secret a = (λ h. cc, λ h. cc)
  is_valid_signature_lem payload (some header) app_secret a = (
    λ h. elim (Option-cases (after_prefix signature_prefix header)) [
      | inl e ↦ absurd (ground arith)
      | inr (provided, e) ↦ ground (
        arith,
        after_prefix_sound signature_prefix header e,
        text_eq_sound (hmac app_secret payload) provided,
      )
    ],
    λ h. ground (
      arith,
      after_prefix-append signature_prefix (hmac app_secret payload),
      text_eq_refl (hmac app_secret payload),
    ),
  )
