-- ===== src/Providers/EmailNotifier.antt =====
-- src/wapp_planner/providers/email_notifier.py. The `email` package and `smtplib` are parameters.
use Prim.Native.Char.{code}
use whatsapp_automatic_plann.Prelude.{String, some, List, map, or_text, ◌==ℕ◌, if◌then◌else◌}
use whatsapp_automatic_plann.Prelude.Texts.{Text}
use whatsapp_automatic_plann.Config.Settings.{ℤ}
use whatsapp_automatic_plann.Errors.{Action, Result, ok, err, lift, pure, ◌>>=◌, ◌>>◌}
use whatsapp_automatic_plann.Providers.{Bytes, Attachment, OutboundMessage}

pub record MimePart : Type 0 where
  pub content : Bytes
  pub maintype : String
  pub subtype : String
  pub filename : String

-- The `EmailMessage` that is sent.
pub record MimeMessage : Type 0 where
  pub from : String
  pub to : String
  pub subject : String
  pub message_id : String
  pub content : Text
  pub attachments : List MimePart

-- `header` is what the assignment of a text to a header does, which refuses line breaks;
-- `send_message` opens a connection, sends on it, and closes it, however that ends.
pub record EmailNotifier (W : Type 0) : Type 0 where
  pub header : String → Result (Unit {0})
  pub make_msgid : W → String × W
  pub send_message : MimeMessage → Action W (Unit {0})
  pub sender : String

-- `text.partition("/")`, without the separator.
unfoldable pub partition_slash : String → String × String
partition_slash String.[] = ("", "")
partition_slash (String.◌∷◌ c s) =
    let (before, after) = partition_slash s in
    if code c ==ℕ b'/' then ("", s) else (String.◌∷◌ c before, after)

unfoldable pub part_of : Attachment → MimePart
unfolding partition_slash
part_of attachment =
    let (maintype, subtype) = partition_slash attachment.content_type in
    record {
      content = attachment.content;
      maintype = maintype;
      subtype = or_text (some subtype) "octet-stream";
      filename = attachment.filename;
    }

module _ {W : Type 0} (notifier : EmailNotifier W) where
  -- `EmailNotifier.send`
  unfoldable pub send_email : OutboundMessage → Action W String
  unfolding part_of
  send_email message = do
    let subject : String = or_text message.subject "(no subject)"
    lift (notifier.header notifier.sender)
    lift (notifier.header message.recipient)
    lift (notifier.header subject)
    message_id ← λ w. let (id, w') = notifier.make_msgid w in (ok id, w')
    lift (notifier.header message_id)
    notifier.send_message (record {
      from = notifier.sender;
      to = message.recipient;
      subject = subject;
      message_id = message_id;
      content = message.body;
      attachments = map part_of message.attachments;
    })
    pure message_id

-- `smtplib`: `SMTP(host, port)`, and the methods of the client that it gives.
pub record SmtpLibrary (W : Type 0) : Type 0 where
  pub open_client : String → ℤ → Action W (Unit {0})
  pub starttls : Action W (Unit {0})
  pub login : String → String → Action W (Unit {0})
  pub send_mime : MimeMessage → Action W (Unit {0})
  pub quit : Action W (Unit {0})

-- What `finally` makes of the block's end and of the cleanup's: an exception of the cleanup takes
-- the place of the block's.
unfoldable pub ended : {A : Type 0} → Result A → Result (Unit {0}) → Result A
ended r (ok _) = r
ended r (err e) = err e

module _ {W : Type 0} where
  -- `try: … finally: cleanup`
  unfoldable pub finally : {A : Type 0} → Action W A → Action W (Unit {0}) → Action W A
  unfolding ended
  finally block cleanup w = let (r, w₁) = block w in let (c, w₂) = cleanup w₁ in (ended r c, w₂)

  -- `build_smtp_connect`: what `with connect() as smtp:` does with its block.
  unfoldable pub build_smtp_connect :
      SmtpLibrary W → String → ℤ → String → String → {A : Type 0} → Action W A → Action W A
  unfolding finally
  build_smtp_connect smtplib host port username password block =
      smtplib.open_client host port
      >> finally (smtplib.starttls >> smtplib.login username password >> block) smtplib.quit
