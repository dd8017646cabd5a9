-- ===== src/Hitl/Tokens/RoundTrip.antt =====
-- A token that was issued is accepted until it expires, and then refused as expired.
use whatsapp_automatic_plann.Prelude.{
  ℕ, zero, suc, ◌+◌, ◌-◌, ◌%◌, ◌≡◌, refl, ◌<◌, sym, ap, ◌∙◌, Option, [], ◌∷◌, ◌++◌, length, String,
  arith, leb, if◌then◌else◌,
}
use mathlib.Core.Path.{subst}
use whatsapp_automatic_plann.Prelude.Texts.{Text, Lacks, text_eq_refl}
use whatsapp_automatic_plann.Workflow.Enums.{Intent}
use whatsapp_automatic_plann.Domain.Enums.{OwnerInteractionKind, OwnerDecision}
use whatsapp_automatic_plann.Errors.{ok, err, expired_token}
use whatsapp_automatic_plann.Hitl.Tokens.{
  ActionToken, TokenCodec, TokenSigner, IsPadded, IsLawful, repeat, rstrip, split, pad, sign,
  payload_of, issue, open_payload, verify,
}

rstrip-repeat : (c n : ℕ) → rstrip c (repeat n c) ≡ []
unfolding rstrip
rstrip-repeat c zero = refl
rstrip-repeat c (suc n) = ground (arith, rstrip-repeat c n)

rstrip-append : (c : ℕ) (u : Text) (n : ℕ) → Lacks c u → rstrip c (u ++ repeat n c) ≡ u
unfolding rstrip
rstrip-append c [] n h = rstrip-repeat c n
rstrip-append c (x ∷ []) n h = ground (arith, rstrip-repeat c n)
rstrip-append c (x ∷ y ∷ u) n h = ground (arith, rstrip-append c (y ∷ u) n h.1)

split-Lacks : (c : ℕ) (xs : Text) → Lacks c xs → split c xs ≡ xs ∷ []
unfolding split
split-Lacks c [] h = refl
split-Lacks c (x ∷ xs) h = ground (arith, split-Lacks c xs h.1)

pub split-append :
    (c : ℕ) (xs ys : Text) → Lacks c xs → Lacks c ys → split c (xs ++ c ∷ ys) ≡ xs ∷ ys ∷ []
unfolding split
split-append c [] ys h k = ground (arith, split-Lacks c ys k)
split-append c (x ∷ xs) ys h k = ground (arith, split-append c xs ys h.1 k)

rstrip-padded : (encoded : Text) (p : IsPadded encoded) → rstrip b'=' encoded ≡ p.unpadded
rstrip-padded encoded p =
    ap (rstrip b'=') p.parts ∙ rstrip-append b'=' p.unpadded p.padding p.no_sign

missing : (k n : ℕ) → n < 4 → (k + n) % 4 ≡ 0 → (4 - k % 4) % 4 ≡ n
missing k n h e = omega arith

-- The padding that `verify` puts back is the padding that `issue` took away.
pad-rstrip : (encoded : Text) → IsPadded encoded → pad (rstrip b'=' encoded) ≡ encoded
unfolding pad
pad-rstrip encoded p =
    ap pad (rstrip-padded encoded p)
    ∙ ap (λ k. p.unpadded ++ repeat k b'=') (missing (length p.unpadded) p.padding p.few p.complete)
    ∙ sym p.parts

module _ (codec : TokenCodec) (L : IsLawful codec) (signer : TokenSigner) where
  payload-no_stop : (t : ActionToken) → Lacks b'.' (payload_of codec signer t)
  unfolding payload_of
  payload-no_stop t =
      let p = L.padded (codec.dump_token t) in
      subst (Lacks b'.') (sym (rstrip-padded (codec.encode64 (codec.dump_token t)) p)) p.no_stop

  open_payload-payload_of :
      (t : ActionToken) (now : ℕ)
      → open_payload codec signer (payload_of codec signer t) now
        ≡ (if leb t.expires_at now then err expired_token else ok t)
  unfolding open_payload payload_of
  open_payload-payload_of t now = ground (
    arith,
    pad-rstrip (codec.encode64 (codec.dump_token t)) (L.padded (codec.dump_token t)),
    L.decoded (codec.dump_token t),
    L.loaded t,
  )

  -- A text that ends with the signer's own digest passes the check of the signature.
  pub verify-sign :
      (payload : Text) (now : ℕ)
      → Lacks b'.' payload
      → verify codec signer (payload ++ b'.' ∷ sign codec signer payload) now
        ≡ open_payload codec signer payload now
  unfolding verify sign
  verify-sign payload now h = ground (
    arith,
    split-append b'.' payload (sign codec signer payload) h
        (L.digest_no_stop signer.secret payload),
    L.digest_ascii signer.secret payload,
    text_eq_refl (sign codec signer payload),
  )

  -- A link that was issued opens to exactly what was signed, until its time to live is over, and
  -- from that moment on it is refused as expired.
  pub verify-issue :
      (request_id : String) (gate : OwnerInteractionKind) (decision : OwnerDecision) (now : ℕ)
      (intent : Option Intent) (revision_no later : ℕ)
      → let token : ActionToken = record {
        request_id = request_id;
        gate = gate;
        decision = decision;
        expires_at = now + signer.ttl;
        intent = intent;
        revision_no = revision_no;
      } in
        verify codec signer
          (issue codec signer request_id gate decision now intent revision_no)
          later
        ≡ (if leb (now + signer.ttl) later then err expired_token else ok token)
  unfolding issue
  verify-issue request_id gate decision now intent revision_no later =
      verify-sign _ later (payload-no_stop _) ∙ open_payload-payload_of _ later
