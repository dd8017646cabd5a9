-- ===== src/Bootstrap/Runs.antt =====
-- The life of the program: which calls it answers, one after another, and what none of them undoes.
use whatsapp_automatic_plann.Prelude.{
  ℕ, ◌≡◌, String, Option, List, [], ◌∷◌, inl, inr, arith, Option-cases,
}
use whatsapp_automatic_plann.Prelude.Texts.{Text}
use whatsapp_automatic_plann.Prelude.Dict.{lookup, lookup-nil}
use whatsapp_automatic_plann.Domain.Models.{Client}
use whatsapp_automatic_plann.Errors.{Result, ok, err, after, Result-cases}
use whatsapp_automatic_plann.Providers.{Bytes}
use whatsapp_automatic_plann.Config.Settings.{ReadSettings, Settings, Secrets, settings_of}
use whatsapp_automatic_plann.Config.Settings.Bounds.{settings_of-IsInBounds}
use whatsapp_automatic_plann.Hitl.Service.{HitlCodec, OwnerAction, resolve_action}
use whatsapp_automatic_plann.Orchestrator.Defs.{apply_owner_action}
use whatsapp_automatic_plann.Orchestrator.Clicks.{unknown_refused}
use whatsapp_automatic_plann.Orchestrator.OwnerActions.{apply_owner_action-Ensures}
use whatsapp_automatic_plann.Orchestrator.Evolution.{Ensures-Evolves}
use whatsapp_automatic_plann.Orchestrator.Wiring.{Libraries}
use whatsapp_automatic_plann.Ingestion.Service.{IngestionState, in_system, outside}
use whatsapp_automatic_plann.Ingestion.Service.Redelivery.{clocked}
use whatsapp_automatic_plann.Ingestion.Service.Soundness.{IsInjective, Sound-evolved}
use whatsapp_automatic_plann.Ingestion.Service.Lifetime.{
  Follows, Follows-refl, Follows-trans, Follows-evolved, SoundAt, Keeps-ends, flush_due-Keeps,
  receive-Keeps,
}
use whatsapp_automatic_plann.Api.{AppContext, inbound, hitl_action}
use whatsapp_automatic_plann.Bootstrap.{
  Adapters, WebhookLibraries, targets_of, build_app, tick, run_rounds,
}

module _ {W : Type 0} (ctx : AppContext W) (lib : HitlCodec) where
  -- The application when the parser's clock shows `t`.
  abbrev pub shown : ℕ → AppContext W
  shown t = record ctx { ingestion = clocked ctx.ingestion t }

  -- What may happen next, in whatever order the calls come: a webhook, a click on a link, a round
  -- of the flush worker, with its own reading of the clock each, or anything outside the program.
  -- A call is over before the next one begins. The other two handlers change nothing.
  pub data Step : IngestionState W → IngestionState W → Type 0 where
    posted :
        (t : ℕ) (body : Bytes) (signature : Option Text) (now : ℕ) (s : IngestionState W)
        → Step s (inbound (shown t) body signature now s).1
    clicked :
        (token : Text) (feedback : Option String) (resolved_at now received_at : ℕ)
        (s : IngestionState W)
        → Step s (hitl_action ctx lib token feedback resolved_at now received_at s).1
    ticked : (now : ℕ) (s : IngestionState W) → Step s (tick ctx.ingestion now s).1
    elsewhere :
        (w : W) (s : IngestionState W)
        → Step s (record s { system = record s.system { world = w } })

  pub data Run (s : IngestionState W) : IngestionState W → Type 0 where
    here : Run s s
    next : {t u : IngestionState W} → Run s t → Step t u → Run s u

  pub Run-trans : {s t u : IngestionState W} → Run s t → Run t u → Run s u
  Run-trans p here = p
  Run-trans p (next q step) = next (Run-trans p q) step

  -- The rounds of the flush worker are steps, however its loop ends.
  pub run_rounds-Run :
      (sleep : ℕ → W → W) (interval : ℕ) (times : List ℕ) (s : IngestionState W)
      → Run s (run_rounds ctx.ingestion sleep interval times s).1
  unfolding run_rounds outside after
  run_rounds-Run sleep interval [] s = here
  run_rounds-Run sleep interval (now ∷ times) s =
      let tick_step : Run s (tick ctx.ingestion now s).1 = next here (ticked now s) in
      elim (Result-cases (tick ctx.ingestion now s).0) [
        | inr (x, e) ↦ rw (e, after) tick_step
        | inl (n, e) ↦
            rw (e, after)
              (Run-trans (next tick_step (elsewhere _ _)) (run_rounds-Run sleep interval times _))
      ]

  -- What follows a state and is sound.
  abbrev pub Goes : IngestionState W → IngestionState W → Type 0
  Goes s t = Follows s t × SoundAt ctx.ingestion [] t

  applied-Goes :
      (action : OwnerAction) (now received_at : ℕ) (s : IngestionState W)
      → SoundAt ctx.ingestion [] s
      → Goes s (record s {
        system = (apply_owner_action ctx.orchestrator action now received_at s.system).1;
      })
  applied-Goes action now received_at s h =
      elim (Option-cases (lookup action.request_id s.system.repo.requests)) [
        | inl e ↦
            rw (unknown_refused ctx.orchestrator action s.system now received_at e)
              (Follows-refl s, h)
        | inr (r, e) ↦
            let step = Ensures-Evolves (
              apply_owner_action-Ensures ctx.orchestrator action now received_at s.system
                h.keyed) in
            (Follows-evolved (Follows-refl s) step, Sound-evolved ctx.ingestion.new_id h e step)
      ]

  clicked-Goes :
      (token : Text) (feedback : Option String) (resolved_at now received_at : ℕ)
      (s : IngestionState W)
      → SoundAt ctx.ingestion [] s
      → Goes s (hitl_action ctx lib token feedback resolved_at now received_at s).1
  unfolding hitl_action in_system
  clicked-Goes token feedback resolved_at now received_at s h =
      elim (Result-cases (resolve_action lib ctx.notifications token resolved_at feedback)) [
        | inl (action, e) ↦ rw (e, hitl_action) (applied-Goes action now received_at s h)
        | inr (x, e) ↦ rw (e, hitl_action) (Follows-refl s, h)
      ]

  module _ (inj : IsInjective ctx.ingestion.new_id) where
    pub Step-Goes : {s t : IngestionState W} → Step s t → SoundAt ctx.ingestion [] s → Goes s t
    unfolding inbound tick
    Step-Goes (posted t body signature now s) h =
        Keeps-ends (clocked ctx.ingestion t)
          (receive-Keeps (clocked ctx.ingestion t) inj body signature now s h)
    Step-Goes (clicked token feedback resolved_at now received_at s) h =
        clicked-Goes token feedback resolved_at now received_at s h
    Step-Goes (ticked now s) h = Keeps-ends ctx.ingestion (flush_due-Keeps ctx.ingestion now s h)
    Step-Goes (elsewhere w s) h =
        (record { later = (Follows-refl s).later; clicks = λ id i e. e; remembers = λ k m. m }, h)

    pub Run-Goes : {s t : IngestionState W} → Run s t → SoundAt ctx.ingestion [] s → Goes s t
    Run-Goes {s} here h = (Follows-refl s, h)
    Run-Goes (next run step) h =
        let (f, k) = Run-Goes run h in let (g, l) = Step-Goes step k in (Follows-trans f g, l)

module _ {W : Type 0} (lib : Libraries W) (web : WebhookLibraries) (r : ReadSettings)
    (settings : Settings) (secrets : Secrets) (adapters : Adapters W) (clients : List Client)
    (world : W) where
  -- What `build_app` gives is sound, if it gives anything.
  abbrev pub StartsSound : Result (AppContext W × IngestionState W) → Type 0
  StartsSound (ok (ctx, s)) = IsInjective ctx.ingestion.new_id × SoundAt ctx.ingestion [] s
  StartsSound (err _) = Unit

  pub starts :
      settings_of r ≡ ok settings
      → IsInjective web.new_id
      → StartsSound (build_app lib web settings secrets adapters clients world)
  unfolding build_app
  starts accepted inj = elim (Result-cases (targets_of settings adapters)) [
    | inr (x, e) ↦ rw (e, build_app) tt
    | inl (targets, e) ↦
        let bounds = settings_of-IsInBounds r accepted in
        rw (e, build_app)
          (
            inj,
            record {
              valid = record { unique = tt; buckets = tt };
              lasting = omega (arith, bounds.inactivity, bounds.windows);
              keyed = tt;
              waiting = tt;
              unissued = λ k le. lookup-nil (web.new_id k);
            },
          )
  ]
