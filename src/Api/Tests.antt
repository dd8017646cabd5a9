-- ===== src/Api/Tests.antt =====
-- A body that is not signed, and a click on a link that was issued.
use whatsapp_automatic_plann.Prelude.{ℕ, ◌≡◌, ◌⊎◌, refl, false, none, [], ◌∷◌}
use whatsapp_automatic_plann.Prelude.Texts.{Text, codes, is_ascii}
use whatsapp_automatic_plann.Domain.Enums.{email, approval, approve}
use whatsapp_automatic_plann.Errors.{type_error}
use whatsapp_automatic_plann.Hitl.Samples.{sample_codec}
use whatsapp_automatic_plann.Hitl.Tokens.{TokenSigner, issue}
use whatsapp_automatic_plann.Hitl.Service.{HitlCodec, resolve_action}
use whatsapp_automatic_plann.Ingestion.Service.Samples.{service, stages, fresh}
use whatsapp_automatic_plann.Api.{AppContext, http_exception, unhandled, inbound, hitl_action}
use whatsapp_automatic_plann.Api.Answers.{IsAnswered, inbound_unsigned, hitl_action-IsAnswered}

abbrev lib : HitlCodec
lib = record { codec = sample_codec; sha256 = λ _. "digest"; percent = λ _. "0%" }

abbrev signer : TokenSigner
signer = record { secret = codes "key"; ttl = 1000 }

-- The link of an approval.
abbrev approval_link : Text
approval_link = issue sample_codec signer "req" approval approve 40 none 1

abbrev ctx : AppContext ℕ
ctx = record {
  ingestion = service false;
  notifications = record {
    signer = signer;
    targets = λ _. none;
    base_url = codes "http://localhost:8000";
    confidence_threshold = 1;
    notify_channel = email;
    deliver_channel = email;
  };
  orchestrator = stages false;
}

inbound_unsigned_example :
    (inbound ctx (1 ∷ []) none 50 fresh ≡ (http_exception 403 "invalid signature", fresh))
    ⊎ (inbound ctx (1 ∷ []) none 50 fresh ≡ (unhandled type_error, fresh))
unfolding is_ascii
inbound_unsigned_example = inbound_unsigned ctx (1 ∷ []) none 50 fresh refl (λ h. cc)

hitl_action-IsAnswered_example :
    IsAnswered ctx fresh 51 52
      (resolve_action lib ctx.notifications approval_link 50 none)
      (hitl_action ctx lib approval_link none 50 51 52 fresh)
hitl_action-IsAnswered_example = hitl_action-IsAnswered ctx lib approval_link none 50 51 52 fresh
