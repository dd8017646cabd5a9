-- ===== src/Bootstrap/History.antt =====
-- What holds over the whole life of a program that `build_app` has put together.
use mathlib.Core.Path.{subst}
use whatsapp_automatic_plann.Prelude.{ℕ, ◌≡◌, refl, sym, true, String, Option, none, some, List, []}
use whatsapp_automatic_plann.Prelude.Texts.{Text}
use whatsapp_automatic_plann.Prelude.Dict.{lookup}
use whatsapp_automatic_plann.Workflow.Enums.{RequestState}
use whatsapp_automatic_plann.Workflow.StateMachine.{is_terminal}
use whatsapp_automatic_plann.Workflow.Reaches.{Reaches-is_terminal}
use whatsapp_automatic_plann.Domain.Models.{Client, Request, OwnerInteraction}
use whatsapp_automatic_plann.Errors.{
  signature_error, invalid_payload, Result, ok, err, and_then-eq-ok,
}
use whatsapp_automatic_plann.Providers.{Bytes}
use whatsapp_automatic_plann.Config.Settings.{ReadSettings, Settings, Secrets, settings_of}
use whatsapp_automatic_plann.Hitl.Service.{HitlCodec, OwnerAction, resolve_action}
use whatsapp_automatic_plann.Hitl.Tokens.{verify}
use whatsapp_automatic_plann.Orchestrator.Evolution.{Later, stored, state_in}
use whatsapp_automatic_plann.Orchestrator.OwnerActions.{action_recorded}
use whatsapp_automatic_plann.Orchestrator.Wiring.{Libraries}
use whatsapp_automatic_plann.Ingestion.Service.{IngestionState, in_system, receive}
use whatsapp_automatic_plann.Ingestion.Service.Redelivery.{clocked, receive_again}
use whatsapp_automatic_plann.Ingestion.Service.Soundness.{IsInjective, Sound}
use whatsapp_automatic_plann.Ingestion.Service.Lifetime.{Follows, SoundAt}
use whatsapp_automatic_plann.Api.{
  AppContext, Answer, returned, inbound_answer, inbound, hitl_action,
}
use whatsapp_automatic_plann.Api.Answers.{
  IsAnswered, bad_link, not_found, duplicate, not_allowed, allowed, hitl_action-IsAnswered,
  hitl_action-opened,
}
use whatsapp_automatic_plann.Bootstrap.{Adapters, WebhookLibraries, build_app}
use whatsapp_automatic_plann.Bootstrap.Runs.{
  posted, clicked, Run, Run-Goes, Step-Goes, shown, starts, StartsSound,
}

pub stored_request :
    (o : Option Request) {u : RequestState} → state_in o ≡ some u → (q : Request) × (o ≡ some q)
stored_request none h = cc
stored_request (some q) h = (q, refl)

pub inbound_answer-returned :
    {A : Type 0} (r : Result A) {n : A} → inbound_answer r ≡ returned n → r ≡ ok n
unfolding inbound_answer
inbound_answer-returned (ok a) h = cc
inbound_answer-returned (err signature_error) h = cc
inbound_answer-returned (err invalid_payload) h = cc
inbound_answer-returned (err e) h = cc

module _ {W : Type 0} (ctx : AppContext W) (lib : HitlCodec) (token : Text) where
  -- An action that was opened is known by the digest of its link.
  action_id-of :
      (feedback : Option String) (at : ℕ) {action : OwnerAction}
      → resolve_action lib ctx.notifications token at feedback ≡ ok action
      → action.action_id ≡ lib.sha256 token
  unfolding resolve_action
  action_id-of feedback at h =
      let (opened, e, k) =
        and_then-eq-ok (verify lib.codec ctx.notifications.signer token at) _ h in
      cc

  -- A click on a link whose action is recorded changes nothing, however it is answered.
  recorded_unchanged :
      (feedback : Option String) (resolved_at now received_at : ℕ) (s : IngestionState W)
      (i : OwnerInteraction)
      → lookup (lib.sha256 token) s.system.repo.interactions ≡ some i
      → (hitl_action ctx lib token feedback resolved_at now received_at s).1 ≡ s
  recorded_unchanged feedback resolved_at now received_at s i e =
      unchanged (hitl_action-IsAnswered ctx lib token feedback resolved_at now received_at s)
    where
      unchanged :
          {x : Answer (String × RequestState) × IngestionState W}
          → IsAnswered ctx s now received_at
              (resolve_action lib ctx.notifications token resolved_at feedback)
              x
          → x.1 ≡ s
      unchanged (bad_link o) = refl
      unchanged (not_found o f) = refl
      unchanged (duplicate o f c) = refl
      unchanged (not_allowed o f c n) = let same = action_id-of feedback resolved_at o in cc
      unchanged (allowed o f c n) = let same = action_id-of feedback resolved_at o in cc

-- A program that `build_app` put together from settings that could be constructed, with an id
-- factory that never gives an id twice; `s` is any moment of its life.
module _ {W : Type 0} (lib : Libraries W) (web : WebhookLibraries) (r : ReadSettings)
    (settings : Settings) (secrets : Secrets) (adapters : Adapters W) (clients : List Client)
    (world : W) (ctx : AppContext W) (s₀ s : IngestionState W)
    (accepted : settings_of r ≡ ok settings) (inj : IsInjective web.new_id)
    (built : build_app lib web settings secrets adapters clients world ≡ ok (ctx, s₀))
    (life : Run ctx lib.hitl s₀ s) where
  started : IsInjective ctx.ingestion.new_id × SoundAt ctx.ingestion [] s₀
  started =
      subst (StartsSound lib web r settings secrets adapters clients world) built
        (starts lib web r settings secrets adapters clients world accepted inj)

  sound : SoundAt ctx.ingestion [] s
  sound = (Run-Goes ctx lib.hitl started.0 life started.1).1

  -- Between any moment of the life of a program that was built from settings that could be
  -- constructed, with ids that never repeat, and any later one, whatever calls come one after
  -- another and however they end, every stored request has moved along edges of the state machine
  -- only and none has vanished, no recorded action and no claimed message is forgotten; and at the
  -- later moment the buckets are valid, every request is stored under its own id, and the requests
  -- that are still collected have ids that differ from one another and from all that are stored.
  pub run-Follows :
      (t : IngestionState W)
      → Run ctx lib.hitl s t
      → Follows s t × Sound ctx.ingestion.new_id [] t.aggregator t.system.repo
  run-Follows t later = Run-Goes ctx lib.hitl started.0 later sound

  -- In a program that was built from settings that could be constructed, with ids that never repeat,
  -- a request that was stored in a terminal state is stored in that state at every later moment.
  pub run-is_terminal :
      (t : IngestionState W) (id : String) (u : RequestState)
      → Run ctx lib.hitl s t
      → stored id s.system ≡ some u
      → is_terminal u ≡ true
      → stored id t.system ≡ some u
  run-is_terminal t id u later e end =
      kept (stored id t.system)
        (subst (λ o. Later o (stored id t.system)) e ((run-Follows t later).0.later id))
    where
      kept : (o : Option RequestState) → Later (some u) o → o ≡ some u
      kept none h = absurd h
      kept (some v) h = rw (Reaches-is_terminal end h) refl

  -- In a program that was built from settings that could be constructed, with ids that never repeat,
  -- a webhook that was answered with a number of accepted messages is accepted once: at any later
  -- moment, whatever calls came in between and whatever the parser's clock shows, the same body is
  -- answered with no accepted message and changes nothing.
  pub inbound_once :
      (body : Bytes) (signature : Option Text) (c c' now later : ℕ) (t : IngestionState W) {n : ℕ}
      → (inbound (shown ctx lib.hitl c) body signature now s).0 ≡ returned n
      → Run ctx lib.hitl (inbound (shown ctx lib.hitl c) body signature now s).1 t
      → inbound (shown ctx lib.hitl c') body signature later t ≡ (returned 0, t)
  unfolding inbound inbound_answer
  inbound_once body signature c c' now later t {n} h run =
      let step = Step-Goes ctx lib.hitl started.0 (posted c body signature now s) sound in
      let f = Run-Goes ctx lib.hitl started.0 run step.1 in
      rw
        (receive_again (clocked ctx.ingestion c) c' body signature now later s t
          (inbound_answer-returned (receive (clocked ctx.ingestion c) body signature now s).0 h)
          f.0.remembers)
        refl

  -- In a program that was built from settings that could be constructed, with ids that never repeat,
  -- a link that opened at a click, to an action on a request that was stored, is spent: whatever the
  -- click did and whatever calls came in between, to click on it again changes nothing, neither the
  -- repository nor anything outside.
  pub hitl_action_once :
      (token : Text) (feedback feedback' : Option String)
      (resolved_at now received_at resolved_at' now' received_at' : ℕ) (t : IngestionState W)
      (action : OwnerAction) (u : RequestState)
      → resolve_action lib.hitl ctx.notifications token resolved_at feedback ≡ ok action
      → stored action.request_id s.system ≡ some u
      → Run ctx lib.hitl (hitl_action ctx lib.hitl token feedback resolved_at now received_at s).1 t
      → (hitl_action ctx lib.hitl token feedback' resolved_at' now' received_at' t).1 ≡ t
  unfolding hitl_action in_system
  hitl_action_once token feedback feedback' resolved_at now received_at resolved_at' now'
        received_at' t action u e found run =
      let step =
        Step-Goes ctx lib.hitl started.0 (clicked token feedback resolved_at now received_at s)
          sound in
      let f = Run-Goes ctx lib.hitl started.0 run step.1 in
      let (q, e₀) = stored_request (lookup action.request_id s.system.repo.requests) found in
      let (j, e') =
        action_recorded ctx.orchestrator action now received_at s.system q sound.keyed e₀ in
      let opened =
        hitl_action-opened ctx lib.hitl token feedback resolved_at now received_at s action e in
      let first =
        subst (λ x. lookup action.action_id x.1.system.repo.interactions ≡ some j) (sym opened)
          e' in
      recorded_unchanged ctx lib.hitl token feedback' resolved_at' now' received_at' t j (
        subst (λ k. lookup k t.system.repo.interactions ≡ some j)
          (action_id-of ctx lib.hitl token feedback resolved_at e)
          (f.0.clicks action.action_id j first))
