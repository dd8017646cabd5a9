-- ===== src/Hitl/Tests.antt =====
-- The links and their delivery, from end to end, for one request.
use whatsapp_automatic_plann.Prelude.{
  ◌+◌, ◌≡◌, ◌<◌, refl, String, none, some, List, [], ◌∷◌, ◌++◌, All, arith, leb, if◌then◌else◌,
}
use whatsapp_automatic_plann.Prelude.Texts.{Text, codes, is_ascii}
use whatsapp_automatic_plann.Workflow.Enums.{Intent, awaiting_approval, awaiting_classification}
use whatsapp_automatic_plann.Domain.Enums.{
  Channel, email, whatsapp, both, includes, classification, approval, approve,
}
use whatsapp_automatic_plann.Domain.Models.{Request}
use whatsapp_automatic_plann.Errors.{after, ok, err, expired_token, invalid_token, type_error}
use whatsapp_automatic_plann.Hitl.Samples.{sample_codec, sample_codec-IsLawful}
use whatsapp_automatic_plann.Hitl.Tokens.{ActionToken, TokenSigner, sign, issue, pad, verify}
use whatsapp_automatic_plann.Hitl.Tokens.RoundTrip.{verify-issue}
use whatsapp_automatic_plann.Hitl.Tokens.Soundness.{verify-ok, verify_tampered}
use whatsapp_automatic_plann.Hitl.Dispatcher.{ChannelTarget, Targets, send}
use whatsapp_automatic_plann.Hitl.Messages.{classification_links, approval_links}
use whatsapp_automatic_plann.Hitl.Service.{NotificationService, HitlCodec}
use whatsapp_automatic_plann.Hitl.Service.Links.{
  Opens, classification_links-Opens, approval_links-Opens,
}

abbrev signer : TokenSigner
signer = record { secret = codes "key"; ttl = 1000 }

abbrev approval_token : ActionToken
approval_token = record {
  request_id = "req-0";
  gate = approval;
  decision = approve;
  expires_at = 1100;
  intent = none;
  revision_no = 2;
}

abbrev approval_text : Text
approval_text = issue sample_codec signer "req-0" approval approve 100 none 2

approval_text_opens : verify sample_codec signer approval_text 500 ≡ ok approval_token
approval_text_opens =
    verify-issue sample_codec sample_codec-IsLawful signer "req-0" approval approve 100 none 2 500

verify-issue_example :
    verify sample_codec signer approval_text 1100
    ≡ (if leb (100 + 1000) 1100 then err expired_token else ok approval_token)
verify-issue_example =
    verify-issue sample_codec sample_codec-IsLawful signer "req-0" approval approve 100 none 2 1100

verify-ok_example :
    (payload bytes : Text) × (approval_text ≡ payload ++ b'.' ∷ sign sample_codec signer payload)
    × (sample_codec.decode64 (pad payload) ≡ some bytes)
    × (sample_codec.load_token bytes ≡ some approval_token)
    × (500 < 1100)
verify-ok_example = verify-ok sample_codec signer approval_text 500 approval_text_opens

-- The signature is one character that is not ASCII.
verify_tampered_example :
    verify sample_codec signer (b'A' ∷ b'.' ∷ 233 ∷ []) 500
    ≡ (if is_ascii (233 ∷ []) then err invalid_token else err type_error)
unfolding sign
verify_tampered_example =
    verify_tampered sample_codec signer (b'A' ∷ []) (233 ∷ []) 500 sample_codec-IsLawful (refl, tt)
      (refl, tt) (λ h. ground arith)

-- The world is a list of the recipients so far.
abbrev target : String → ChannelTarget (List String)
target name = record {
  notifier = λ message sent. (ok name, sent ++ message.recipient ∷ []);
  recipient = name;
}

abbrev targets : Targets (List String)
targets email = some (target "owner@example.com")
targets whatsapp = some (target "+5511")
targets both = none

abbrev sent_on : List (Channel × String)
sent_on = (email, "owner@example.com") ∷ (whatsapp, "+5511") ∷ []

both_sent : (send targets both (codes "hello") (some "Subject") [] []).0 ≡ ok sent_on
unfolding send includes after
both_sent = refl

abbrev service : NotificationService (List String)
service = record {
  signer = signer;
  targets = targets;
  base_url = codes "https://planner.example/";
  confidence_threshold = 1;
  notify_channel = both;
  deliver_channel = email;
}

abbrev lib : HitlCodec
lib = record { codec = sample_codec; sha256 = λ text. "digest"; percent = λ c. "75%" }

abbrev request : Request
request = record {
  id = "req-0";
  client_id = "ana";
  client_name = some "Ana";
  state = awaiting_classification;
  intent = some Intent.quote;
  confidence = some 1;
  created_at = 0;
  updated_at = 0;
  normalized_transcript = some "a quote, please";
  current_revision = 0;
  flags = [];
}

classification_links-Opens_example :
    All
      (Opens lib service classification awaiting_classification request 0 500 none)
      (classification_links sample_codec service.base_url signer request 100)
classification_links-Opens_example =
    classification_links-Opens lib service request 100 500 none sample_codec-IsLawful (omega arith)

approval_links-Opens_example :
    All
      (Opens lib service approval awaiting_approval request 2 500 (some "cheaper"))
      (approval_links sample_codec service.base_url signer request 100 2)
approval_links-Opens_example =
    approval_links-Opens lib service request 100 2 500 (some "cheaper") sample_codec-IsLawful
      (omega arith)
