-- ===== src/Ingestion/Parser/RoundTrip.antt =====
-- What the parser makes of a webhook body.
use mathlib.Core.List.{map-append}
use whatsapp_automatic_plann.Prelude.{
  ℕ, ◌≡◌, refl, false, String, String-discrete, Option, none, some, List, [], ◌∷◌, arith, All, map,
  ◌==◌, if◌then◌else◌,
}
use whatsapp_automatic_plann.Prelude.Dict.{Dict, lookup, lookup-insert, insert}
use whatsapp_automatic_plann.Json.{Json, Fields, items}
use whatsapp_automatic_plann.Errors.{ok}
use whatsapp_automatic_plann.Ingestion.Parser.{
  ParseResult, ParserCodec, type_map, optional_text, contact_name, joined, timestamp_of,
  build_message, change_values, entry_values, contact_names, parse_message, parse_messages,
  parse_values, parse_webhook,
}
use whatsapp_automatic_plann.Ingestion.Parser.Webhook.{
  Kind, image, video, audio, voice, document, Attached, Content, text, attached, Inbound, Notice,
  inbound, unsupported, Contact, Change, carried, status, optional, message_json, notice_json,
  notices_json, contacts_json, value_fields, changes_json, entries_json, webhook_json, name_among,
  parsed_of, result_of, results_of, changes_of,
}

-- The dict of the contacts' names, onto one that stands before them.
abbrev names_of : List Contact → Dict Json → Dict Json
names_of [] d = d
names_of (c ∷ cs) d = names_of cs (insert c.wa_id (optional c.name) d)

-- A number is given the name of the last contact that has it.
name_found :
    (sender : String) (cs : List Contact) (d : Dict Json) (found : Option String)
    → optional_text (contact_name sender d) ≡ ok found
    → optional_text (contact_name sender (names_of cs d)) ≡ ok (name_among found sender cs)
name_found sender [] d found h = h
name_found sender (c ∷ cs) d found h =
    name_found sender cs (insert c.wa_id (optional c.name) d)
      (if sender == c.wa_id then c.name else found) (name_inserted c.wa_id c.name)
  where
    name_inserted :
        (wa_id : String) (name : Option String)
        → optional_text (contact_name sender (insert wa_id (optional name) d))
          ≡ ok (if sender == wa_id then name else found)
    name_inserted wa_id none = rw (lookup-insert, contact_name) (ground (arith, h))
    name_inserted wa_id (some n) = rw (lookup-insert, contact_name) (ground (arith, h))

module _ (codec : ParserCodec) where
  -- The time that is sent is read, and the other type is none that the parser knows.
  abbrev pub IsProper : Notice → Type 0
  IsProper (inbound m) = codec.fromtimestamp m.stamp ≡ ok m.at
  IsProper (unsupported id type) = (type_map type ≡ none) × ((type == "audio") ≡ false)

  abbrev pub IsProperChange : Change → Type 0
  IsProperChange (carried cs ns) = All IsProper ns
  IsProperChange (status j) = Unit

  contact_names-contacts_json :
      (cs : List Contact) (d : Dict Json)
      → contact_names codec.repr (items (contacts_json cs)) d ≡ ok (names_of cs d)
  unfolding contact_names String-discrete
  contact_names-contacts_json [] d = refl
  contact_names-contacts_json (c ∷ cs) d =
      contact_names-contacts_json cs (insert c.wa_id (optional c.name) d)

  timestamp_read :
      {stamp : Json} {at : ℕ} → codec.fromtimestamp stamp ≡ ok at → timestamp_of codec stamp ≡ ok at
  unfolding timestamp_of
  timestamp_read h = rw h refl

  -- The two kinds of content, field by field.
  module _ (id sender : String) (name : Option String) (stamp : Json) (at : ℕ) (names : Dict Json)
      (named : optional_text (contact_name sender names) ≡ ok name) where
    abbrev Builds : Content → Type 0
    Builds c =
        let m : Inbound = record {
          id = id;
          sender = sender;
          stamp = stamp;
          at = at;
          content = c;
        } in
        parse_message codec (message_json m) names
        ≡ ok (record { messages = parsed_of name m ∷ []; skipped_types = [] })

    build_text : (body : String) → codec.fromtimestamp stamp ≡ ok at → Builds (text body)
    unfolding parse_message build_message String-discrete
    build_text body h = rw (timestamp_read h, build_message) (rw (named, build_message) refl)

    abbrev of_kind : Kind → Option String → Option String → Option String → Option String → Attached
    of_kind k caption media_id mime_type filename = record {
      kind = k;
      caption = caption;
      media_id = media_id;
      mime_type = mime_type;
      filename = filename;
    }

    build_attached :
        (k : Kind) (caption media_id mime_type filename : Option String)
        → codec.fromtimestamp stamp ≡ ok at
        → Builds (attached (of_kind k caption media_id mime_type filename))
    unfolding parse_message build_message String-discrete
    build_attached image c i t f h =
        rw (timestamp_read h, build_message) (rw (named, build_message) refl)
    build_attached video c i t f h =
        rw (timestamp_read h, build_message) (rw (named, build_message) refl)
    build_attached audio c i t f h =
        rw (timestamp_read h, build_message) (rw (named, build_message) refl)
    build_attached voice c i t f h =
        rw (timestamp_read h, build_message) (rw (named, build_message) refl)
    build_attached document c i t f h =
        rw (timestamp_read h, build_message) (rw (named, build_message) refl)

    build_content : (c : Content) → codec.fromtimestamp stamp ≡ ok at → Builds c
    build_content (text body) h = build_text body h
    build_content (attached a) h =
        build_attached a.kind a.caption a.media_id a.mime_type a.filename h

  parse_unsupported :
      (id type : String) (names : Dict Json)
      → IsProper (unsupported id type)
      → parse_message codec (notice_json (unsupported id type)) names
        ≡ ok (record { messages = []; skipped_types = type ∷ [] })
  unfolding parse_message String-discrete
  parse_unsupported id type names h = rw (h.0, h.1) refl

  -- The messages of one value, with the contacts that it lists.
  parse_messages-notices_json :
      (cs : List Contact) (ns : List Notice)
      → All IsProper ns
      → parse_messages codec (items (notices_json ns)) (names_of cs [])
        ≡ ok (result_of (carried cs ns))
  unfolding parse_messages lookup
  parse_messages-notices_json cs [] h = refl
  parse_messages-notices_json cs (inbound m ∷ ns) h =
      let first =
        build_content m.id m.sender (name_among none m.sender cs) m.stamp m.at (names_of cs [])
          (name_found m.sender cs [] none refl) m.content h.0 in
      rw (first, parse_messages) (rw (parse_messages-notices_json cs ns h.1, parse_messages) refl)
  parse_messages-notices_json cs (unsupported id type ∷ ns) h =
      rw (parse_unsupported id type (names_of cs []) h.0, parse_messages)
        (rw (parse_messages-notices_json cs ns h.1, parse_messages) refl)

  parse_change :
      (c : Change)
      → IsProperChange c
      → (vs : List Fields) (r : ParseResult) → parse_values codec vs ≡ ok r
      → parse_values codec (value_fields c ∷ vs) ≡ ok (joined (result_of c) r)
  unfolding parse_values String-discrete
  parse_change (carried cs ns) h vs r e =
      rw (contact_names-contacts_json cs [], parse_values)
        (rw (parse_messages-notices_json cs ns h, parse_values) (rw (e, parse_values) refl))
  parse_change (status j) h vs r e = rw (e, parse_values) refl

  parse_changes :
      (cs : List Change)
      → All IsProperChange cs
      → parse_values codec (map value_fields cs) ≡ ok (results_of cs)
  unfolding parse_values
  parse_changes [] h = refl
  parse_changes (c ∷ cs) h =
      parse_change c h.0 (map value_fields cs) (results_of cs) (parse_changes cs h.1)

  change_values-changes_json :
      (ns : List Change) → change_values (items (changes_json ns)) ≡ ok (map value_fields ns)
  unfolding change_values String-discrete
  change_values-changes_json [] = refl
  change_values-changes_json (n ∷ ns) = rw (change_values-changes_json ns, change_values) refl

  entry_values-entries_json :
      (entries : List (List Change))
      → entry_values (items (entries_json entries)) ≡ ok (map value_fields (changes_of entries))
  unfolding entry_values String-discrete
  entry_values-entries_json [] = refl
  entry_values-entries_json (ns ∷ entries) =
      rw (change_values-changes_json ns, entry_values)
        (rw (entry_values-entries_json entries, entry_values) (rw map-append refl))

-- The body of a webhook, each change of which carries any number of contacts and messages or some
-- statuses, is parsed into exactly its messages, in order, with their times and their content and
-- with the name of the last contact of their change that has the sender's number, if one has it. The
-- types of the others are listed, and the statuses of deliveries are passed over. The codec is to
-- read the times that are sent, and the other types are to be none that the parser knows.
pub parse_webhook-webhook_json :
    (codec : ParserCodec) (entries : List (List Change))
    → All (IsProperChange codec) (changes_of entries)
    → parse_webhook codec (webhook_json entries) ≡ ok (results_of (changes_of entries))
unfolding parse_webhook String-discrete
parse_webhook-webhook_json codec entries h =
    rw (entry_values-entries_json codec entries, parse_webhook)
      (parse_changes codec (changes_of entries) h)
