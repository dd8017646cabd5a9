-- ===== src/Bootstrap/Custody.antt =====
-- Where the messages are in the life of the program, when the services answer.
use whatsapp_automatic_plann.Prelude.{
  true, All, All-impl, ◌⊎◌, ℕ, ◌≡◌, refl, ap, ◌∙◌, String, Option, none, some, List, inl, inr,
}
use mathlib.Core.Path.{subst}
use whatsapp_automatic_plann.Prelude.Texts.{Text}
use whatsapp_automatic_plann.Prelude.Dict.{lookup}
use whatsapp_automatic_plann.Workflow.Enums.{RequestState}
use whatsapp_automatic_plann.Domain.Models.{Client, Message, Request}
use whatsapp_automatic_plann.Errors.{Result, ok, err, Result-cases}
use whatsapp_automatic_plann.Config.Settings.{ReadSettings, Settings, Secrets, settings_of}
use whatsapp_automatic_plann.Hitl.Service.{HitlCodec, resolve_action}
use whatsapp_automatic_plann.Persistence.Repository.{get_messages}
use whatsapp_automatic_plann.Orchestrator.Arrival.{Replies}
use whatsapp_automatic_plann.Orchestrator.Evolution.{Later, state_in}
use whatsapp_automatic_plann.Orchestrator.Filing.{messages-apply_owner_action}
use whatsapp_automatic_plann.Orchestrator.Wiring.{Libraries}
use whatsapp_automatic_plann.Ingestion.Service.{IngestionState, in_system, opened_body, receive}
use whatsapp_automatic_plann.Ingestion.Service.Redelivery.{clocked}
use whatsapp_automatic_plann.Ingestion.Service.Soundness.{IsInjective}
use whatsapp_automatic_plann.Ingestion.Service.Lifetime.{Follows}
use whatsapp_automatic_plann.Ingestion.Service.Triage.{Reads}
use whatsapp_automatic_plann.Ingestion.Service.Holding.{Holds, collected, filed, IsFiled, Retains}
use whatsapp_automatic_plann.Ingestion.Service.Retention.{
  IsSafe, Safe-end, receive-Safe, flush_due-Safe,
}
use whatsapp_automatic_plann.Api.{AppContext, returned, inbound, hitl_action}
use whatsapp_automatic_plann.Ingestion.Service.Acceptance.{IsHeld, receive-IsTakenIn}
use whatsapp_automatic_plann.Ingestion.Idempotency.{seen}
use whatsapp_automatic_plann.Ingestion.Parser.{ParsedMessage}
use whatsapp_automatic_plann.Providers.{Bytes}
use whatsapp_automatic_plann.Bootstrap.History.{inbound_answer-returned}
use whatsapp_automatic_plann.Bootstrap.{Adapters, WebhookLibraries, targets_of, build_app, tick}
use whatsapp_automatic_plann.Bootstrap.Runs.{
  shown, Step, posted, clicked, ticked, elsewhere, Run, here, next, Step-Goes, starts, StartsSound,
}

vanished :
    (o : Option Request) {p : Option RequestState} → p ≡ none → Later (state_in o) p → o ≡ none
vanished none e h = refl
vanished (some q) {p = none} e h = absurd h
vanished (some q) {p = some u} e h = cc

module _ {W : Type 0} (ctx : AppContext W) (lib : HitlCodec) where
  -- A click changes neither the buckets nor the stored messages.
  hitl_action-unmoved :
      (token : Text) (feedback : Option String) (resolved_at now received_at : ℕ)
      (s : IngestionState W)
      → let t = (hitl_action ctx lib token feedback resolved_at now received_at s).1 in
        (t.aggregator ≡ s.aggregator) × (t.system.repo.messages ≡ s.system.repo.messages)
  unfolding hitl_action in_system
  hitl_action-unmoved token feedback resolved_at now received_at s =
      elim (Result-cases (resolve_action lib ctx.notifications token resolved_at feedback)) [
        | inl (action, e) ↦
            rw (e, hitl_action)
              (refl, messages-apply_owner_action ctx.orchestrator action now received_at s.system)
        | inr (x, e) ↦ rw (e, hitl_action) (refl, refl)
      ]

  unmoved-Retains :
      (s t : IngestionState W)
      → t.aggregator ≡ s.aggregator
      → t.system.repo.messages ≡ s.system.repo.messages
      → Retains s t
  unfolding get_messages
  unmoved-Retains s t a m n id (collected key b e o h) =
      collected key b (ap (λ x. lookup key x.opened) a ∙ e) o h
  unmoved-Retains s t a m n id (filed h) = filed (rw m h)

  unmoved-IsFiled :
      (s t : IngestionState W)
      → Follows s t
      → t.system.repo.messages ≡ s.system.repo.messages
      → IsFiled s.system.repo
      → IsFiled t.system.repo
  unfolding get_messages
  unmoved-IsFiled s t follows m f id e =
      rw m (f id (vanished (lookup id s.system.repo.requests) (ap state_in e) (follows.later id)))

  module _ (inj : IsInjective ctx.ingestion.new_id) (reads : Reads ctx.ingestion)
      (replies : Replies ctx.ingestion.stages) where
    Step-IsSafe :
        {s₀ s t : IngestionState W}
        → Step ctx lib s t
        → IsSafe ctx.ingestion s₀ s
        → IsSafe ctx.ingestion s₀ t
    unfolding inbound tick
    Step-IsSafe {s₀ = s₀} (posted c body signature now s) h =
        let k = Safe-end (clocked ctx.ingestion c) (
          receive-Safe (clocked ctx.ingestion c) reads replies inj {s₀ = s₀} body signature now s
            (record { retains = h.retains; sound = h.sound; files = h.files })) in
        record { retains = k.retains; sound = k.sound; files = k.files }
    Step-IsSafe (clicked token feedback resolved_at now received_at s) h =
        let (a, m) = hitl_action-unmoved token feedback resolved_at now received_at s in
        let t = (hitl_action ctx lib token feedback resolved_at now received_at s).1 in
        let goes =
          Step-Goes ctx lib inj (clicked token feedback resolved_at now received_at s) h.sound in
        record {
          retains = λ n id x. unmoved-Retains s t a m n id (h.retains n id x);
          sound = goes.1;
          files = unmoved-IsFiled s t goes.0 m h.files;
        }
    Step-IsSafe (ticked now s) h =
        Safe-end ctx.ingestion (flush_due-Safe ctx.ingestion reads replies inj now s h)
    Step-IsSafe (elsewhere w s) h = record { retains = h.retains; sound = h.sound; files = h.files }

    pub Run-IsSafe :
        {s₀ s t : IngestionState W}
        → Run ctx lib s t
        → IsSafe ctx.ingestion s₀ s
        → IsSafe ctx.ingestion s₀ t
    Run-IsSafe here h = h
    Run-IsSafe (next run step) h = Step-IsSafe step (Run-IsSafe run h)

module _ {W : Type 0} (lib : Libraries W) (web : WebhookLibraries) (settings : Settings)
    (secrets : Secrets) (adapters : Adapters W) (clients : List Client) (world : W) where
  abbrev StartsFiled : Result (AppContext W × IngestionState W) → Type 0
  StartsFiled (ok (ctx, s)) = IsFiled s.system.repo
  StartsFiled (err _) = Unit

  starts-IsFiled : StartsFiled (build_app lib web settings secrets adapters clients world)
  unfolding build_app get_messages lookup
  starts-IsFiled = elim (Result-cases (targets_of settings adapters)) [
    | inl (targets, e) ↦ rw (e, build_app) (λ id unstored. refl)
    | inr (x, e) ↦ rw (e, build_app) tt
  ]

-- A program that `build_app` put together from settings that could be constructed, with an id
-- factory that never gives an id twice; `s` is any moment of its life.
module _ {W : Type 0} (lib : Libraries W) (web : WebhookLibraries) (r : ReadSettings)
    (settings : Settings) (secrets : Secrets) (adapters : Adapters W) (clients : List Client)
    (world : W) (ctx : AppContext W) (s₀ : IngestionState W)
    (accepted : settings_of r ≡ ok settings) (inj : IsInjective web.new_id)
    (built : build_app lib web settings secrets adapters clients world ≡ ok (ctx, s₀)) where
  new_ids : IsInjective ctx.ingestion.new_id
  new_ids =
      (subst (StartsSound lib web r settings secrets adapters clients world) built
        (starts lib web r settings secrets adapters clients world accepted inj)).0

  always-IsSafe :
      (reads : Reads ctx.ingestion) (replies : Replies ctx.ingestion.stages) {s : IngestionState W}
      → Run ctx lib.hitl s₀ s
      → IsSafe ctx.ingestion s₀ s
  always-IsSafe reads replies life =
      let (inj', sound) =
        subst (StartsSound lib web r settings secrets adapters clients world) built
          (starts lib web r settings secrets adapters clients world accepted inj) in
      let files =
        subst (StartsFiled lib web settings secrets adapters clients world) built
          (starts-IsFiled lib web settings secrets adapters clients world) in
      Run-IsSafe ctx lib.hitl inj' reads replies {s₀ = s₀} life
        (record { retains = λ n i x. x; sound = sound; files = files })

  kept_on :
      (reads : Reads ctx.ingestion) (replies : Replies ctx.ingestion.stages)
      {s t : IngestionState W}
      → Run ctx lib.hitl s₀ s
      → Run ctx lib.hitl s t
      → Retains s t
  kept_on reads replies {s} life run =
      let safe = always-IsSafe reads replies life in
      (Run-IsSafe ctx lib.hitl new_ids reads replies {s₀ = s} run
        (record { retains = λ n i x. x; sound = safe.sound; files = safe.files })).retains

-- A program that `build_app` put together from settings that could be constructed, with an id
-- factory that never gives an id twice; `s` is any moment of its life.
module _ {W : Type 0} (lib : Libraries W) (web : WebhookLibraries) (r : ReadSettings)
    (settings : Settings) (secrets : Secrets) (adapters : Adapters W) (clients : List Client)
    (world : W) (ctx : AppContext W) (s₀ s : IngestionState W)
    (accepted : settings_of r ≡ ok settings) (inj : IsInjective web.new_id)
    (built : build_app lib web settings secrets adapters clients world ≡ ok (ctx, s₀))
    (life : Run ctx lib.hitl s₀ s) where
  -- In a program that was built from settings that could be constructed, with ids that never repeat,
  -- when reading from the storage, the classification and the notifications return, whatever they
  -- are given, a message that is among those of a request, in its open bucket or stored with it, is
  -- so at every later moment, whatever calls come in between and however they end.
  pub run-Holds :
      (m : Message) (id : String) (t : IngestionState W)
      → Reads ctx.ingestion
      → Replies ctx.ingestion.stages
      → Run ctx lib.hitl s t
      → Holds m id s.aggregator.opened s.system.repo
      → Holds m id t.aggregator.opened t.system.repo
  run-Holds m id t reads replies run held =
      kept_on lib web r settings secrets adapters clients world ctx s₀ accepted inj built reads
        replies life run m id held

  -- In a program that was built from settings that could be constructed, with ids that never repeat,
  -- when reading from the storage, the classification and the notifications return, whatever they
  -- are given, and a webhook is answered with a number of accepted messages, then at every later
  -- moment, whatever calls come in between and however they end, there is for each message of its
  -- body one with the same id among those of some request, in its open bucket or stored with it,
  -- unless that id was seen before.
  pub inbound-IsHeld :
      (body : Bytes) (signature : Option Text) (messages : List ParsedMessage) (c now : ℕ)
      (t : IngestionState W) {n : ℕ}
      → Reads ctx.ingestion
      → Replies ctx.ingestion.stages
      → opened_body (clocked ctx.ingestion c) body signature ≡ ok messages
      → (inbound (shown ctx lib.hitl c) body signature now s).0 ≡ returned n
      → Run ctx lib.hitl (inbound (shown ctx lib.hitl c) body signature now s).1 t
      → All (λ p. (seen p.whatsapp_id s.idempotency ≡ true) ⊎ IsHeld p.whatsapp_id t) messages
  unfolding inbound
  inbound-IsHeld body signature messages c now t reads replies opened h run =
      let safe =
        always-IsSafe lib web r settings secrets adapters clients world ctx s₀ accepted inj built
          reads replies life in
      let service = clocked ctx.ingestion c in
      let taken =
        receive-IsTakenIn service reads replies
          (new_ids lib web r settings secrets adapters clients world ctx s₀ accepted inj built)
          {s₀ = s₀} body signature messages now s
          (record { retains = safe.retains; sound = safe.sound; files = safe.files }) opened
          (inbound_answer-returned (receive service body signature now s).0 h) in
      let keeps =
        kept_on lib web r settings secrets adapters clients world ctx s₀ accepted inj built reads
          replies (next life (posted c body signature now s)) run in
      All-impl
        (λ p k. elim k [ inl was ↦ inl was | inr (m, id, e, x) ↦ inr (m, id, e, keeps m id x) ])
        messages taken
