-- ===== src/Ingestion/Service/Acceptance.antt =====
-- What a webhook that is answered has done with its messages, when the services answer.
use mathlib.Core.List.{mem-cons_self, mem-append_right}
use mathlib.Core.Path.{subst}
use whatsapp_automatic_plann.Prelude.{
  String-discrete, ℕ, ◌≡◌, refl, sym, ap, ◌∙◌, ◌⊎◌, inl, inr, true, false, String, Option, some,
  List, [], ◌∷◌, All, All-impl, arith, Bool-cases, length,
}
use whatsapp_automatic_plann.Prelude.Texts.{Text}
use whatsapp_automatic_plann.Prelude.Dict.{lookup-insert, insert, erase}
use whatsapp_automatic_plann.Domain.Models.{Message}
use whatsapp_automatic_plann.Errors.{ok, after, after-eq-ok}
use whatsapp_automatic_plann.Providers.{Bytes}
use whatsapp_automatic_plann.Aggregation
use whatsapp_automatic_plann.Aggregation.{
  OpenBucket, Aggregator, closed, put_message, new_bucket, open_new,
}
use whatsapp_automatic_plann.Aggregation.Conservation.{branch, first, ongoing, late}
use whatsapp_automatic_plann.Aggregation.Branches.{add_first, add-active, add_late}
use whatsapp_automatic_plann.Ingestion.Registry.{resolve}
use whatsapp_automatic_plann.Orchestrator.Arrival.{Replies}
use whatsapp_automatic_plann.Ingestion.Idempotency.{IdempotencyStore, claim, seen}
use whatsapp_automatic_plann.Ingestion.Parser.{ParsedMessage}
use whatsapp_automatic_plann.Ingestion.Service.{
  IngestionService, IngestionState, in_aggregator, outside, build_message, accept, handle_displaced,
  take_in, take_each, opened_body, receive,
}
use whatsapp_automatic_plann.Ingestion.Service.Media.{message_of-keeps}
use whatsapp_automatic_plann.Ingestion.Service.Redelivery.{
  take_in-Ends, Ends-store, take_each-eq-ok, receive_opened,
}
use whatsapp_automatic_plann.Ingestion.Service.Soundness.{IsInjective}
use whatsapp_automatic_plann.Ingestion.Service.Triage.{Reads, process-Processed}
use whatsapp_automatic_plann.Ingestion.Service.Holding.{Holds, collected}
use whatsapp_automatic_plann.Ingestion.Service.Retention.{
  IsSafe, Safe-end, build_message-Safe, added-Sound, take_in-Safe, take_each-Safe,
}

-- A key that was seen after a claim was seen before it, or was claimed.
seen-claim :
    (k key : String) (store : IdempotencyStore)
    → seen k (claim key store).1 ≡ true
    → (seen k store ≡ true) ⊎ (k ≡ key)
unfolding seen claim
seen-claim k key store h = ground (arith, String-discrete k key)

unclaimed-seen :
    (key : String) (store : IdempotencyStore) → (claim key store).0 ≡ false → seen key store ≡ true
unfolding seen claim
unclaimed-seen key store h = ground arith

module _ {W : Type 0} where
  -- A message with the id is among those of some request.
  abbrev pub IsHeld : String → IngestionState W → Type 0
  IsHeld key s =
      (m : Message) × (id : String) × (m.id ≡ key) × Holds m id s.aggregator.opened s.system.repo

  -- The message was seen before, or is held.
  abbrev pub IsTakenIn : IngestionState W → IngestionState W → ParsedMessage → Type 0
  IsTakenIn s t p = (seen p.whatsapp_id s.idempotency ≡ true) ⊎ IsHeld p.whatsapp_id t

  -- What a message that was claimed in between has become.
  IsTakenIn-claimed :
      (p q : ParsedMessage) (s s₁ t : IngestionState W)
      → s₁.idempotency ≡ (claim p.whatsapp_id s.idempotency).1
      → IsTakenIn s t p
      → IsTakenIn s₁ t q
      → IsTakenIn s t q
  IsTakenIn-claimed p q s s₁ t store taken (inr h) = inr h
  IsTakenIn-claimed p q s s₁ t store taken (inl h) =
      elim (seen-claim q.whatsapp_id p.whatsapp_id s.idempotency
        (subst (λ l. seen q.whatsapp_id l ≡ true) store h)) [
          | inl k ↦ inl k
          | inr same ↦ subst (λ k. (seen k s.idempotency ≡ true) ⊎ IsHeld k t) (sym same) taken
        ]

module _ {W : Type 0} (service : IngestionService W) where
  build_message-id :
      (parsed : ParsedMessage) (s : IngestionState W) {m : Message}
      → (build_message service parsed s).0 ≡ ok m
      → m.id ≡ parsed.whatsapp_id
  unfolding build_message
  build_message-id parsed s h =
      let (raw_ref, e, e') = after-eq-ok (outside _ s) _ h in
      (message_of-keeps service parsed raw_ref (sym (ap (λ x. x.0) e') ∙ h)).2

module _ {W : Type 0} (service : IngestionService W) (reads : Reads service)
    (replies : Replies service.stages) (inj : IsInjective service.new_id) where
  -- A message that is added is held.
  added-IsHeld :
      {s₀ : IngestionState W} (key : String) (m : Message) (now : ℕ) (s : IngestionState W)
      → IsSafe service s₀ s
      → IsHeld m.id
          (after
            (in_aggregator (Aggregation.add service.new_id key m now) s)
            λ displaced. handle_displaced service displaced now).1
  unfolding in_aggregator after handle_displaced open_new put_message new_bucket
  added-IsHeld key m now s h = elim (branch key now s.aggregator) [
    | first e ↦
        rw (add_first service.new_id key m now s.aggregator e, in_aggregator)
          (
            record m { order = 0 },
            service.new_id s.aggregator.made,
            refl,
            collected key (put_message m now (new_bucket service.new_id key now s.aggregator))
                (rw lookup-insert (ground arith)) refl mem-cons_self,
          )
    | ongoing b e act ↦
        rw (add-active service.new_id key m now s.aggregator b e act, in_aggregator)
          (
            record m { order = length b.messages },
            b.request_id,
            refl,
            collected key (put_message m now b) (rw lookup-insert (ground arith)) refl
                (mem-append_right b.messages mem-cons_self),
          )
    | late b e act ↦
        let done = add_late service.new_id key m now s.aggregator b e act in
        let sound' = added-Sound service inj key m now (some (closed b)) h.sound done in
        let s₁ : IngestionState W = record s {
          aggregator =
              open_new service.new_id key m now
                (record s.aggregator { opened = erase key s.aggregator.opened });
        } in
        let (q, s', e', p) = process-Processed service reads replies (closed b) [] now s₁ sound' in
        rw (done, in_aggregator)
          (rw (e', after)
            (
              record m { order = 0 },
              service.new_id s.aggregator.made,
              refl,
              subst
                  (λ a.
                    Holds (record m { order = 0 }) (service.new_id s.aggregator.made) a.opened
                      s'.system.repo)
                  (sym p.3)
                  (collected key
                    (put_message m now (new_bucket service.new_id key now s.aggregator))
                    (rw lookup-insert (ground arith)) refl mem-cons_self),
            ))
  ]

  accept-IsHeld :
      {s₀ : IngestionState W} (parsed : ParsedMessage) (now : ℕ) (s : IngestionState W)
      → IsSafe service s₀ s
      → (accept service parsed now s).0 ≡ ok tt
      → IsHeld parsed.whatsapp_id (accept service parsed now s).1
  unfolding accept
  accept-IsHeld {s₀} parsed now s safe h =
      let (client_id, client_name, is_known) = resolve parsed.sender service.registry in
      let s₁ : IngestionState W = record s {
        names = insert client_id client_name s.names;
        known = insert client_id is_known s.known;
      } in
      let (m, e, e') = after-eq-ok (build_message service parsed s₁) _ h in
      let built = Safe-end service (
        build_message-Safe service {s₀ = s₀} parsed s₁
          (record { retains = safe.retains; sound = safe.sound; files = safe.files })) in
      subst (λ x. IsHeld parsed.whatsapp_id x.1) (sym e')
        (subst
          (λ k.
            IsHeld k
              (after
                (in_aggregator (Aggregation.add service.new_id client_id m now)
                  (build_message service parsed s₁).1)
                λ displaced. handle_displaced service displaced now).1)
          (build_message-id service parsed s₁ (ap (λ x. x.0) e))
          (added-IsHeld {s₀ = s₀} client_id m now (build_message service parsed s₁).1 built))

  take_in-IsHeld :
      {s₀ : IngestionState W} (p : ParsedMessage) (now : ℕ) (s : IngestionState W) {n : ℕ}
      → IsSafe service s₀ s
      → (take_in service p now s).0 ≡ ok n
      → (seen p.whatsapp_id s.idempotency ≡ true) ⊎ IsHeld p.whatsapp_id (take_in service p now s).1
  unfolding take_in
  take_in-IsHeld {s₀} p now s safe h = elim (Bool-cases (claim p.whatsapp_id s.idempotency).0) [
    | inr e ↦ inl (unclaimed-seen p.whatsapp_id s.idempotency e)
    | inl e ↦
        let s₁ : IngestionState W = record s {
          idempotency = (claim p.whatsapp_id s.idempotency).1;
        } in
        let (u, e₁, e₂) = after-eq-ok (accept service p now s₁) _ (rw (e, take_in) at h) in
        inr (
          rw (e, take_in)
            (subst (λ x. IsHeld p.whatsapp_id x.1) (sym e₂)
              (accept-IsHeld {s₀ = s₀} p now s₁
                (record { retains = safe.retains; sound = safe.sound; files = safe.files })
                (ap (λ x. x.0) e₁))))
  ]

  take_each-IsTakenIn :
      {s₀ : IngestionState W} (messages : List ParsedMessage) (now : ℕ) (s : IngestionState W)
      {n : ℕ}
      → IsSafe service s₀ s
      → (take_each service messages now s).0 ≡ ok n
      → All (IsTakenIn s (take_each service messages now s).1) messages
  unfolding take_each
  take_each-IsTakenIn [] now s safe h = tt
  take_each-IsTakenIn {s₀} (p ∷ ps) now s safe h =
      let s₁ = (take_in service p now s).1 in
      let (a, e, next) = after-eq-ok (take_in service p now s) _ h in
      let (m, e', last) = take_each-eq-ok service p ps now s h in
      let safe₁ =
        Safe-end service (take_in-Safe service reads replies inj {s₀ = s₀} p now s safe) in
      let rest = Safe-end service (
        take_each-Safe service reads replies inj {s₀ = s₁} ps now s₁
          (record { retains = λ n id x. x; sound = safe₁.sound; files = safe₁.files })) in
      let held = take_in-IsHeld {s₀ = s₀} p now s safe (ap (λ x. x.0) e) in
      let store =
        Ends-store (
          take_in-Ends service {P = λ t. t ≡ (claim p.whatsapp_id s.idempotency).1} p now s refl) in
      let taken : IsTakenIn s (take_each service ps now s₁).1 p = elim held [
        | inl k ↦ inl k
        | inr (w, id, k, x) ↦ inr (w, id, k, rest.retains w id x)
      ] in
      subst (λ x. All (IsTakenIn s x) (p ∷ ps)) (sym last)
        (
          taken,
          All-impl (λ q k. IsTakenIn-claimed p q s s₁ (take_each service ps now s₁).1 store taken k)
              ps (take_each-IsTakenIn {s₀ = s₀} ps now s₁ safe₁ e'),
        )

  -- When a body is received to the end, each of its messages is held, unless it was seen before.
  pub receive-IsTakenIn :
      {s₀ : IngestionState W} (raw_body : Bytes) (header : Option Text)
      (messages : List ParsedMessage) (now : ℕ) (s : IngestionState W) {n : ℕ}
      → IsSafe service s₀ s
      → opened_body service raw_body header ≡ ok messages
      → (receive service raw_body header now s).0 ≡ ok n
      → All (IsTakenIn s (receive service raw_body header now s).1) messages
  receive-IsTakenIn {s₀} raw_body header messages now s safe e h =
      rw (receive_opened service raw_body header messages now s e) (
        take_each-IsTakenIn {s₀ = s₀} messages now s safe
          (ap (λ x. x.0) (sym (receive_opened service raw_body header messages now s e)) ∙ h))
