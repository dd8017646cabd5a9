-- ===== src/Ingestion/Parser/Clock.antt =====
-- The clock of the parser has a part in the times of messages only.
use whatsapp_automatic_plann.Prelude.{
  ℕ, ◌≡◌, refl, ap, sym, ◌∙◌, not, String, List, [], ◌∷◌, ◌++◌, map, inl, inr, Bool-cases,
  Option-cases,
}
use mathlib.Core.List.{map-append}
use whatsapp_automatic_plann.Prelude.Dict.{Dict}
use whatsapp_automatic_plann.Json.{
  Json, get_of, or_empty, null, str, arr, obj, Fields, nil, get, has_key, get_default, iterate,
  to_str,
}
use whatsapp_automatic_plann.Workflow.Enums.{MessageType}
use whatsapp_automatic_plann.Errors.{Error, Result, ok, err, type_error, value_error, and_then}
use whatsapp_automatic_plann.Ingestion.Parser.{
  ParserCodec, ParsedMessage, ParseResult, joined, or_now, timestamp_of, optional_text,
  contact_name, media_key, resolve_type, fill, build_message, contact_names, iter_values,
  parse_message, parse_messages, parse_values, parse_webhook,
}

-- Two results of the same kind: the same exception, or values of which a view is the same.
pub data Alike {A X : Type 0} (view : A → X) : Result A → Result A → Type 0 where
  alike : {a b : A} → view a ≡ view b → Alike view (ok a) (ok b)
  raised : {e : Error} → Alike view (err e) (err e)

pub Alike-ok :
    {A X : Type 0} {f : A → X} {r r' : Result A} {a : A}
    → Alike f r r'
    → r ≡ ok a
    → (b : A) × (r' ≡ ok b) × (f a ≡ f b)
Alike-ok {f} {a} (alike {a = c} {b = b} e) h =
    (b, refl, ap f (sym (ap (λ x. elim x [ ok y ↦ y | err _ ↦ a ]) h)) ∙ e)
Alike-ok raised h = cc

pub and_then-Alike :
    {A B X Y : Type 0} {f : A → X} {g : B → Y} {r r' : Result A} {k k' : A → Result B}
    → Alike f r r'
    → ((a b : A) → f a ≡ f b → Alike g (k a) (k' b))
    → Alike g (and_then r k) (and_then r' k')
and_then-Alike (alike {a} {b} e) h = h a b e
and_then-Alike raised h = raised

pub and_then_same-Alike :
    {A B Y : Type 0} {g : B → Y} (r : Result A) {k k' : A → Result B}
    → ((a : A) → Alike g (k a) (k' a))
    → Alike g (and_then r k) (and_then r k')
and_then_same-Alike (ok a) h = h a
and_then_same-Alike (err e) h = raised

-- The ids of the messages that were parsed.
abbrev pub ids : ParseResult → List String
ids r = map (λ p. p.whatsapp_id) r.messages

joined-ids :
    (a b c d : ParseResult) → ids a ≡ ids b → ids c ≡ ids d → ids (joined a c) ≡ ids (joined b d)
joined-ids a b c d e f =
    map-append _ a.messages c.messages
    ∙ ap (λ xs. xs ++ ids c) e
    ∙ ap (λ xs. ids b ++ xs) f
    ∙ sym (map-append _ b.messages d.messages)

abbrev nothing : ℕ → Unit {0}
nothing t = tt

-- The codec with another clock.
abbrev pub at : ℕ → ParserCodec → ParserCodec
at t codec = record codec { utc_now = t }

module _ (codec : ParserCodec) (t : ℕ) where
  or_now-Alike : (r : Result ℕ) → Alike nothing (or_now codec r) (or_now (at t codec) r)
  unfolding or_now
  or_now-Alike (ok s) = alike refl
  or_now-Alike (err type_error) = alike refl
  or_now-Alike (err value_error) = alike refl
  or_now-Alike (err _) = raised

  fill-Alike :
      (type : MessageType) (message : Fields) (p q : ParsedMessage)
      → p.whatsapp_id ≡ q.whatsapp_id
      → Alike (λ p. p.whatsapp_id) (fill codec type message p) (fill (at t codec) type message q)
  unfolding fill
  fill-Alike MessageType.text message p q e =
      and_then_same-Alike (get_of "body" null (or_empty (get "text" message))) (λ body. alike e)
  fill-Alike type message p q e =
      let media = or_empty (get (media_key type) message) in
      and_then_same-Alike (get_of "caption" null media) λ caption.
        and_then_same-Alike (get_of "id" null media) λ media_id.
          and_then_same-Alike (get_of "mime_type" null media)
            λ mime_type. and_then_same-Alike (get_of "filename" null media) λ filename. alike e

  build_message-Alike :
      (message : Fields) (type : MessageType) (contacts : Dict Json)
      → Alike
          (λ p. p.whatsapp_id)
          (build_message codec message type contacts)
          (build_message (at t codec) message type contacts)
  unfolding build_message timestamp_of
  build_message-Alike message type contacts =
      and_then-Alike (or_now-Alike (codec.fromtimestamp (get "timestamp" message))) λ a b e.
        and_then_same-Alike
          (optional_text
            (contact_name (to_str codec.repr (get_default "from" (str "") message)) contacts))
          λ name. fill-Alike type message _ _ refl

  parse_obj-Alike :
      (message : Fields) (contacts : Dict Json)
      → Alike ids
          (parse_message codec (obj message) contacts)
          (parse_message (at t codec) (obj message) contacts)
  unfolding parse_message
  parse_obj-Alike message contacts = elim (Bool-cases (not (has_key "id" message))) [
    | inl e ↦ rw (e, parse_message) (alike refl)
    | inr e ↦
        rw (e, parse_message)
          (elim (Option-cases (resolve_type message)) [
            | inl f ↦ rw (f, parse_message) (alike refl)
            | inr (type, f) ↦
                rw (f, parse_message)
                  (and_then-Alike (build_message-Alike message type contacts)
                    λ p q g. alike (ap (λ id. id ∷ []) g))
          ])
  ]

  parse_message-Alike :
      (message : Json) (contacts : Dict Json)
      → Alike ids
          (parse_message codec message contacts)
          (parse_message (at t codec) message contacts)
  unfolding parse_message
  parse_message-Alike (obj message) contacts = parse_obj-Alike message contacts
  parse_message-Alike message contacts = alike refl

  parse_messages-Alike :
      (messages : List Json) (contacts : Dict Json)
      → Alike ids
          (parse_messages codec messages contacts)
          (parse_messages (at t codec) messages contacts)
  unfolding parse_messages
  parse_messages-Alike [] contacts = alike refl
  parse_messages-Alike (message ∷ messages) contacts =
      and_then-Alike (parse_message-Alike message contacts) λ a b e.
        and_then-Alike (parse_messages-Alike messages contacts)
          λ c d f. alike (joined-ids a b c d e f)

  parse_values-Alike :
      (values : List Fields)
      → Alike ids (parse_values codec values) (parse_values (at t codec) values)
  unfolding parse_values
  parse_values-Alike [] = alike refl
  parse_values-Alike (value ∷ values) =
      and_then_same-Alike (iterate (get_default "contacts" (arr nil) value)) λ listed.
        and_then_same-Alike (contact_names codec.repr listed []) λ contacts.
          and_then_same-Alike (iterate (get_default "messages" (arr nil) value)) λ messages.
            and_then-Alike (parse_messages-Alike messages contacts) λ a b e.
              and_then-Alike (parse_values-Alike values) λ c d f. alike (joined-ids a b c d e f)

  -- Another clock changes neither whether a webhook is parsed nor the ids of its messages.
  pub parse_webhook-Alike :
      (payload : Json)
      → Alike ids (parse_webhook codec payload) (parse_webhook (at t codec) payload)
  unfolding parse_webhook
  parse_webhook-Alike payload = and_then_same-Alike (iter_values payload) parse_values-Alike
