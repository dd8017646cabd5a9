-- ===== src/Ingestion/Service/Redelivery.antt =====
-- What `receive` remembers of the messages that it has taken.
use mathlib.Core.Path.{subst}
use whatsapp_automatic_plann.Prelude.{
  ℕ, ◌≡◌, refl, sym, ◌∙◌, ap, true, false, String, String-discrete, Option, none, some, List, [],
  ◌∷◌, arith, inl, inr, Bool-cases, Option-cases, All, All-impl, map, if◌then◌else◌,
}
use whatsapp_automatic_plann.Prelude.Texts.{Text}
use whatsapp_automatic_plann.Prelude.Dict.{Dict}
use whatsapp_automatic_plann.Domain.Models.{Message, is_media}
use whatsapp_automatic_plann.Errors.{
  Error, signature_error, Action, Result, ok, err, Result-cases, after, after-eq-ok,
}
use whatsapp_automatic_plann.Providers.{Bytes, DownloadedMedia}
use whatsapp_automatic_plann.Aggregation.{AggregatedRequest, Aggregator}
use whatsapp_automatic_plann.Orchestrator.Base.{System}
use whatsapp_automatic_plann.Ingestion.Idempotency.{IdempotencyStore, seen, claim}
use whatsapp_automatic_plann.Ingestion.Parser.{ParsedMessage}
use whatsapp_automatic_plann.Ingestion.Signature.{is_valid_signature}
use whatsapp_automatic_plann.Ingestion.Parser.Clock.{
  Alike, alike, and_then-Alike, and_then_same-Alike, Alike-ok, at, parse_webhook-Alike,
}
use whatsapp_automatic_plann.Ingestion.Service.{
  or_invalid, IngestionService, IngestionState, in_aggregator, in_system, outside, build_message,
  media_for, process, accept, handle_displaced, take_in, take_each, opened_body, receive,
}

-- Everything that the first store has seen, the second has.
abbrev pub Remembers : IdempotencyStore → IdempotencyStore → Type 0
Remembers store store' = (k : String) → seen k store ≡ true → seen k store' ≡ true

pub claim-Remembers : (k : String) (store : IdempotencyStore) → Remembers store (claim k store).1
unfolding claim seen
claim-Remembers k store j h = ground arith

claim-seen : (k : String) (store : IdempotencyStore) → seen k (claim k store).1 ≡ true
unfolding claim seen
claim-seen k store = ground (arith, String-discrete k k)

pub refused :
    (k : String) (store : IdempotencyStore) → (claim k store).0 ≡ false → (claim k store).1 ≡ store
unfolding claim
refused k store h = ground arith

claim_again :
    (k : String) (store : IdempotencyStore) → seen k store ≡ true → claim k store ≡ (false, store)
unfolding claim seen
claim_again k store h = ground arith

module _ {W : Type 0} where
  -- What holds of the store when a call ends.
  pub data Ends {A : Type 0} (P : IdempotencyStore → Type 0)
      : Result A × IngestionState W → Type 0 where
    ends : {r : Result A} {s : IngestionState W} → P s.idempotency → Ends P (r, s)

  pub Ends-store :
      {A : Type 0} {P : IdempotencyStore → Type 0} {x : Result A × IngestionState W}
      → Ends P x
      → P x.1.idempotency
  Ends-store (ends e) = e

  resumed-Ends :
      {A B : Type 0} {P : IdempotencyStore → Type 0} (r : Result A) (s : IngestionState W)
      → P s.idempotency
      → (f : A → Action (IngestionState W) B)
      → ((a : A) (s : IngestionState W) → P s.idempotency → Ends P (f a s))
      → Ends P (after (r, s) f)
  unfolding after
  resumed-Ends (ok a) s e f k = k a s e
  resumed-Ends (err x) s e f k = ends e

  after-Ends :
      {A B : Type 0} {P : IdempotencyStore → Type 0} (x : Result A × IngestionState W)
      (f : A → Action (IngestionState W) B)
      → Ends P x
      → ((a : A) (s : IngestionState W) → P s.idempotency → Ends P (f a s))
      → Ends P (after x f)
  after-Ends x f (ends {r} {s} e) k = resumed-Ends r s e f k

  outside-Ends :
      {A : Type 0} {P : IdempotencyStore → Type 0} (m : Action W A) (s : IngestionState W)
      → P s.idempotency
      → Ends P (outside m s)
  unfolding outside
  outside-Ends m s e = ends e

  in_aggregator-Ends :
      {A : Type 0} {P : IdempotencyStore → Type 0} (m : Action Aggregator A) (s : IngestionState W)
      → P s.idempotency
      → Ends P (in_aggregator m s)
  unfolding in_aggregator
  in_aggregator-Ends m s e = ends e

  in_system-Ends :
      {A : Type 0} {P : IdempotencyStore → Type 0} (m : Action (System W) A) (s : IngestionState W)
      → P s.idempotency
      → Ends P (in_system m s)
  unfolding in_system
  in_system-Ends m s e = ends e

module _ {W : Type 0} (service : IngestionService W) {P : IdempotencyStore → Type 0} where
  build_message-Ends :
      (parsed : ParsedMessage) (s : IngestionState W)
      → P s.idempotency
      → Ends P (build_message service parsed s)
  unfolding build_message
  build_message-Ends parsed s e = after-Ends _ _ (outside-Ends _ s e) (λ raw_ref s' e'. ends e')

  media_for-Ends :
      (messages : List Message) (media : Dict DownloadedMedia) (s : IngestionState W)
      → P s.idempotency
      → Ends P (media_for service messages media s)
  unfolding media_for
  media_for-Ends [] media s h = ends h
  media_for-Ends (message ∷ messages) media s h =
      elim (Option-cases (if is_media message then message.raw_ref else none)) [
        | inl e ↦ rw (e, media_for) (media_for-Ends messages media s h)
        | inr (ref, e) ↦
            rw (e, media_for)
              (after-Ends _ _ (outside-Ends _ s h)
                (λ content s' h'. media_for-Ends messages _ s' h'))
      ]

  process-Ends :
      (a : AggregatedRequest) (now : ℕ) (s : IngestionState W)
      → P s.idempotency
      → Ends P (process service a now s)
  unfolding process
  process-Ends a now s h =
      after-Ends _ _ (media_for-Ends a.messages [] s h) (λ media s' h'. in_system-Ends _ s' h')

  handle_displaced-Ends :
      (displaced : Option AggregatedRequest) (now : ℕ) (s : IngestionState W)
      → P s.idempotency
      → Ends P (handle_displaced service displaced now s)
  unfolding handle_displaced
  handle_displaced-Ends none now s h = ends h
  handle_displaced-Ends (some a) now s h =
      after-Ends _ _ (process-Ends a now s h) (λ _ s' h'. ends h')

  accept-Ends :
      (parsed : ParsedMessage) (now : ℕ) (s : IngestionState W)
      → P s.idempotency
      → Ends P (accept service parsed now s)
  unfolding accept
  accept-Ends parsed now s h = after-Ends _ _ (build_message-Ends parsed _ h) λ message s' h'.
      after-Ends _ _ (in_aggregator-Ends _ s' h')
        (λ displaced s'' h''. handle_displaced-Ends displaced now s'' h'')

  -- What the store keeps when a key is claimed, it keeps in one turn of the loop.
  pub take_in-Ends :
      (parsed : ParsedMessage) (now : ℕ) (s : IngestionState W)
      → P (claim parsed.whatsapp_id s.idempotency).1
      → Ends P (take_in service parsed now s)
  unfolding take_in
  take_in-Ends parsed now s h = elim (Bool-cases (claim parsed.whatsapp_id s.idempotency).0) [
    | inl e ↦ rw (e, take_in) (after-Ends _ _ (accept-Ends parsed now _ h) (λ _ s' h'. ends h'))
    | inr e ↦ rw (e, take_in) (ends (subst P (refused parsed.whatsapp_id s.idempotency e) h))
  ]

  take_each-Ends :
      (messages : List ParsedMessage) (now : ℕ) (s : IngestionState W)
      → ((k : String) (store : IdempotencyStore) → P store → P (claim k store).1)
      → P s.idempotency
      → Ends P (take_each service messages now s)
  unfolding take_each
  take_each-Ends [] now s c h = ends h
  take_each-Ends (p ∷ ps) now s c h =
      after-Ends _ _ (take_in-Ends p now s (c p.whatsapp_id s.idempotency h))
        λ m s' h'. after-Ends _ _ (take_each-Ends ps now s' c h') (λ n s'' h''. ends h'')

module _ {W : Type 0} (service : IngestionService W) where
  abbrev IsTaken : IdempotencyStore → ParsedMessage → Type 0
  IsTaken store p = seen p.whatsapp_id store ≡ true

  -- If the loop returns, the rest of it did, and it ends where the rest does.
  pub take_each-eq-ok :
      (p : ParsedMessage) (ps : List ParsedMessage) (now : ℕ) (s : IngestionState W) {n : ℕ}
      → (take_each service (p ∷ ps) now s).0 ≡ ok n
      → (m : ℕ) × ((take_each service ps now (take_in service p now s).1).0 ≡ ok m)
        × ((take_each service (p ∷ ps) now s).1
            ≡ (take_each service ps now (take_in service p now s).1).1)
  unfolding take_each
  take_each-eq-ok p ps now s h =
      let (a, e, next) = after-eq-ok (take_in service p now s) _ h in
      let (m, e', last) =
        after-eq-ok (take_each service ps now (take_in service p now s).1) _
          (ap (λ x. x.0) (sym next) ∙ h) in
      (m, ap (λ x. x.0) e', ap (λ x. x.1) next ∙ ap (λ x. x.1) last)

  take_each-IsTaken :
      (messages : List ParsedMessage) (now : ℕ) (s : IngestionState W) {n : ℕ}
      → (take_each service messages now s).0 ≡ ok n
      → All (IsTaken (take_each service messages now s).1.idempotency) messages
  take_each-IsTaken [] now s h = tt
  take_each-IsTaken (p ∷ ps) now s h =
      let (m, e, last) = take_each-eq-ok p ps now s h in
      let s' = (take_in service p now s).1 in
      subst (λ x. All (IsTaken x.idempotency) (p ∷ ps)) (sym last)
        (
          Ends-store {P = λ store. IsTaken store p} (
              take_each-Ends service ps now s' (λ k store. claim-Remembers k store p.whatsapp_id)
                (Ends-store {P = λ store. IsTaken store p}
                  (take_in-Ends service p now s (claim-seen p.whatsapp_id s.idempotency)))),
          take_each-IsTaken ps now s' e,
        )

  take_each_again :
      (messages : List ParsedMessage) (now : ℕ) (s : IngestionState W)
      → All (IsTaken s.idempotency) messages
      → take_each service messages now s ≡ (ok 0, s)
  unfolding take_each take_in after
  take_each_again [] now s h = refl
  take_each_again (p ∷ ps) now s h =
      rw (claim_again p.whatsapp_id s.idempotency h.0, take_in)
        (rw (take_each_again ps now s h.1) refl)

  pub receive_opened :
      (raw_body : Bytes) (header : Option Text) (messages : List ParsedMessage) (now : ℕ)
      (s : IngestionState W)
      → opened_body service raw_body header ≡ ok messages
      → receive service raw_body header now s ≡ take_each service messages now s
  unfolding receive after
  receive_opened raw_body header messages now s e = rw (e, receive) refl

  receive_unopened :
      (raw_body : Bytes) (header : Option Text) (now : ℕ) (s : IngestionState W) {n : ℕ} {x : Error}
      → opened_body service raw_body header ≡ err x
      → (receive service raw_body header now s).0 ≡ ok n
      → ⊥
  unfolding receive after
  receive_unopened raw_body header now s e h = ground (arith, e)

-- The messages are taken if their ids are, and the other way round.
taken_ids :
    (store : IdempotencyStore) (ms : List ParsedMessage)
    → All (λ p. seen p.whatsapp_id store ≡ true) ms
    → All (λ k. seen k store ≡ true) (map (λ p. p.whatsapp_id) ms)
taken_ids store [] h = tt
taken_ids store (p ∷ ps) h = (h.0, taken_ids store ps h.1)

ids_taken :
    (store : IdempotencyStore) (ms : List ParsedMessage)
    → All (λ k. seen k store ≡ true) (map (λ p. p.whatsapp_id) ms)
    → All (λ p. seen p.whatsapp_id store ≡ true) ms
ids_taken store [] h = tt
ids_taken store (p ∷ ps) h = (h.0, ids_taken store ps h.1)

module _ {W : Type 0} (service : IngestionService W) (t : ℕ) where
  -- The service when the parser's clock shows `t`.
  abbrev pub clocked : IngestionService W
  clocked = record service { parser = at t service.parser }

  opened_body-Alike :
      (raw_body : Bytes) (header : Option Text)
      → Alike
          (map (λ p. p.whatsapp_id))
          (opened_body service raw_body header)
          (opened_body clocked raw_body header)
  unfolding opened_body
  opened_body-Alike raw_body header =
      and_then_same-Alike (is_valid_signature service.hmac raw_body header service.app_secret)
        λ valid.
          and_then_same-Alike
            (if valid then or_invalid (service.loads raw_body) else err signature_error)
            λ payload.
              and_then-Alike (parse_webhook-Alike service.parser t payload) λ a b e. alike e

  -- A body that was received to the end is not received again: at any later time, whatever the
  -- parser's clock shows and whatever has happened in between, if no message is forgotten, to receive
  -- it anew accepts nothing and changes nothing.
  pub receive_again :
      (raw_body : Bytes) (header : Option Text) (now later : ℕ) (s s' : IngestionState W) {n : ℕ}
      → (receive service raw_body header now s).0 ≡ ok n
      → Remembers (receive service raw_body header now s).1.idempotency s'.idempotency
      → receive clocked raw_body header later s' ≡ (ok 0, s')
  receive_again raw_body header now later s s' h k =
      elim (Result-cases (opened_body service raw_body header)) [
        | inl (messages, e) ↦
            let r = receive_opened service raw_body header messages now s e in
            let (again, e', same) = Alike-ok (opened_body-Alike raw_body header) e in
            let taken =
              All-impl
                (λ p. subst (λ x. Remembers x.1.idempotency s'.idempotency) r k p.whatsapp_id)
                messages (take_each-IsTaken service messages now s (ap (λ x. x.0) (sym r) ∙ h)) in
            receive_opened clocked raw_body header again later s' e'
            ∙ take_each_again clocked again later s' (
                ids_taken s'.idempotency again (
                  subst (All (λ k. seen k s'.idempotency ≡ true)) same
                    (taken_ids s'.idempotency messages taken)))
        | inr (x, e) ↦ absurd (receive_unopened service raw_body header now s e h)
      ]
