-- ===== src/Bootstrap/Completion.antt =====
-- From the owner's confirmation to the completed request.
use mathlib.Core.Path.{subst}
use whatsapp_automatic_plann.Prelude.{
  true, ℕ, ◌≡◌, refl, sym, ap, ◌∙◌, String, Option, none, some, List, [],
}
use whatsapp_automatic_plann.Prelude.Texts.{Text}
use whatsapp_automatic_plann.Prelude.Dict.{lookup, lookup-Each}
use whatsapp_automatic_plann.Workflow.Enums.{
  RequestState, Intent, awaiting_classification, awaiting_approval, completed,
}
use whatsapp_automatic_plann.Workflow.StateMachine.{is_terminal, next_state, trigger_for}
use whatsapp_automatic_plann.Domain.Enums.{confirm, approve}
use whatsapp_automatic_plann.Domain.Models.{Client, Request}
use whatsapp_automatic_plann.Errors.{Result, ok, after}
use whatsapp_automatic_plann.Persistence.Repository.{get_request}
use whatsapp_automatic_plann.Config.Settings.{ReadSettings, Settings, Secrets, settings_of}
use whatsapp_automatic_plann.Hitl.Service.{OwnerAction, resolve_action}
use whatsapp_automatic_plann.Nlp.Classifier.{is_actionable_intent}
use whatsapp_automatic_plann.Orchestrator.Base.{System, transition, on_repo, interaction_of}
use whatsapp_automatic_plann.Orchestrator.Stages.{Stages}
use whatsapp_automatic_plann.Orchestrator.Defs.{act, apply_owner_action}
use whatsapp_automatic_plann.Orchestrator.Evolution.{IsKeyed, stored, Ensures-ok}
use whatsapp_automatic_plann.Orchestrator.Recording.{record_new}
use whatsapp_automatic_plann.Orchestrator.OwnerActions.{apply_owner_action-Ensures}
use whatsapp_automatic_plann.Orchestrator.Success.{Succeeds, succeeds, AllReturn}
use whatsapp_automatic_plann.Orchestrator.Asking.{AsksFor, confirmed, apply_owner_action-delivers}
use whatsapp_automatic_plann.Orchestrator.Wiring.{Libraries}
use whatsapp_automatic_plann.Ingestion.Service.{IngestionState}
use whatsapp_automatic_plann.Ingestion.Service.Soundness.{IsInjective, Sound}
use whatsapp_automatic_plann.Api.{AppContext, Answer, returned, action_answer, hitl_action}
use whatsapp_automatic_plann.Api.Answers.{hitl_action-opened}
use whatsapp_automatic_plann.Bootstrap.{Adapters, WebhookLibraries, build_app}
use whatsapp_automatic_plann.Bootstrap.Runs.{Run, here, next, clicked, Run-trans}
use whatsapp_automatic_plann.Bootstrap.History.{run-Follows, run-is_terminal, stored_request}

to_completed :
    (next_state awaiting_approval (trigger_for approve) ≡ ok completed)
    × (is_terminal completed ≡ true)
unfolding next_state trigger_for is_terminal
to_completed = (refl, refl)

module _ {W : Type 0} (stages : Stages W) (action : OwnerAction) (now received_at : ℕ)
    (s : System W) where
  -- The approval of a request that awaits it, with a link that is used for the first time.
  approved :
      (r : Request)
      → IsKeyed s.repo
      → lookup action.request_id s.repo.requests ≡ some r
      → lookup action.action_id s.repo.interactions ≡ none
      → action.decision ≡ approve
      → r.state ≡ awaiting_approval
      → ((apply_owner_action stages action now received_at s).0
          ≡ ok (record r { state = completed; updated_at = now }))
        × (stored action.request_id (apply_owner_action stages action now received_at s).1
            ≡ some completed)
  unfolding apply_owner_action get_request interaction_of transition after act on_repo
  approved r keyed e new d a =
      let edge : next_state r.state (trigger_for action.decision) ≡ ok completed =
        ap (λ u. next_state u (trigger_for action.decision)) a
        ∙ ap (λ x. next_state awaiting_approval (trigger_for x)) d
        ∙ to_completed.0 in
      let returns : (apply_owner_action stages action now received_at s).0
          ≡ ok (record r { state = completed; updated_at = now }) =
        rw
          (
            e,
            record_new (interaction_of action received_at) s.repo new,
            apply_owner_action,
            edge,
            transition,
            d,
            act,
          )
          refl in
      let tracks =
        Ensures-ok (apply_owner_action-Ensures stages action now received_at s keyed) returns in
      (
        returns,
        subst
            (λ k. stored k (apply_owner_action stages action now received_at s).1 ≡ some completed)
            tracks.0 tracks.1,
      )

  -- The confirmation of a request that awaits the owner, with a link that is used for the first
  -- time.
  confirmed_once :
      (r : Request) (i : Intent)
      → AllReturn stages
      → IsKeyed s.repo
      → lookup action.request_id s.repo.requests ≡ some r
      → lookup action.action_id s.repo.interactions ≡ none
      → action.decision ≡ confirm
      → r.state ≡ awaiting_classification
      → r.intent ≡ some i
      → is_actionable_intent i ≡ true
      → (r' : Request) × ((apply_owner_action stages action now received_at s).0 ≡ ok r')
        × (r'.id ≡ action.request_id)
        × (r'.state ≡ awaiting_approval)
  confirmed_once r i h keyed e new d a k b =
      let asks : AsksFor action.decision r.state =
        subst (λ x. AsksFor x r.state) (sym d) (subst (λ u. AsksFor confirm u) (sym a) confirmed) in
      let (doc, g, q) =
        apply_owner_action-delivers stages h action now received_at r i s e new asks k b in
      let (r', f, p) = delivered q in
      (
        r',
        f,
        p.same_id ∙ lookup-Each (λ key q. q.id ≡ key) action.request_id r s.repo.requests keyed e,
        p.awaits,
      )
    where
      delivered :
          {A : Type 0} {Q : A → System W → Type 0} {x : Result A × System W}
          → Succeeds Q x
          → (a : A) × (x.0 ≡ ok a) × Q a x.1
      delivered (succeeds {a} q) = (a, refl, q)

action_answer-ok :
    (x : Result Request) (r : Request) → x ≡ ok r → action_answer x ≡ returned (r.id, r.state)
unfolding action_answer
action_answer-ok x r e = rw e refl

shown_as :
    (q : Request) (id : String) (u : RequestState)
    → q.id ≡ id
    → q.state ≡ u
    → ◌≡◌ {A = Answer (String × RequestState)} (returned (q.id, q.state)) (returned (id, u))
shown_as q id u e f = rw (e, f) refl

state_of : (q : Request) (u : RequestState) → some q.state ≡ some u → q.state ≡ u
state_of q u h = cc

-- A program that `build_app` put together from settings that could be constructed, with an id
-- factory that never gives an id twice; `s` is any moment of its life.
module _ {W : Type 0} (lib : Libraries W) (web : WebhookLibraries) (r : ReadSettings)
    (settings : Settings) (secrets : Secrets) (adapters : Adapters W) (clients : List Client)
    (world : W) (ctx : AppContext W) (s₀ s : IngestionState W)
    (accepted : settings_of r ≡ ok settings) (inj : IsInjective web.new_id)
    (built : build_app lib web settings secrets adapters clients world ≡ ok (ctx, s₀))
    (life : Run ctx lib.hitl s₀ s) where
  history :
      (s : IngestionState W)
      → Run ctx lib.hitl s₀ s
      → (t : IngestionState W) → Run ctx lib.hitl s t
      → Sound ctx.ingestion.new_id [] t.aggregator t.system.repo
  history s life t run =
      (run-Follows lib web r settings secrets adapters clients world ctx s₀ s accepted inj built
        life t run).1

  -- In a program that was built from settings that could be constructed, with ids that never repeat,
  -- when a request with an intent that asks for a document awaits the owner's classification and the
  -- services return whatever they are given, a click on a link that confirms it, used for the first
  -- time, is answered with the request awaiting the approval. At any later moment at which it still
  -- does, a click on a link that approves it, used for the first time, is answered with the request
  -- completed, and at every later moment it is stored as completed.
  pub hitl_action_completes :
      (confirm_link approve_link : Text) (f f' : Option String) (t₁ t₂ t₃ t₁' t₂' t₃' : ℕ)
      (confirms approves : OwnerAction) (q : Request) (i : Intent) (t u : IngestionState W)
      → AllReturn ctx.orchestrator
      → resolve_action lib.hitl ctx.notifications confirm_link t₁ f ≡ ok confirms
      → confirms.decision ≡ confirm
      → lookup confirms.action_id s.system.repo.interactions ≡ none
      → lookup confirms.request_id s.system.repo.requests ≡ some q
      → q.state ≡ awaiting_classification
      → q.intent ≡ some i
      → is_actionable_intent i ≡ true
      → Run ctx lib.hitl (hitl_action ctx lib.hitl confirm_link f t₁ t₂ t₃ s).1 t
      → resolve_action lib.hitl ctx.notifications approve_link t₁' f' ≡ ok approves
      → approves.decision ≡ approve
      → approves.request_id ≡ confirms.request_id
      → lookup approves.action_id t.system.repo.interactions ≡ none
      → stored confirms.request_id t.system ≡ some awaiting_approval
      → Run ctx lib.hitl (hitl_action ctx lib.hitl approve_link f' t₁' t₂' t₃' t).1 u
      → ((hitl_action ctx lib.hitl confirm_link f t₁ t₂ t₃ s).0
          ≡ returned (confirms.request_id, awaiting_approval))
        × ((hitl_action ctx lib.hitl approve_link f' t₁' t₂' t₃' t).0
            ≡ returned (confirms.request_id, completed))
        × (stored confirms.request_id u.system ≡ some completed)
  hitl_action_completes confirm_link approve_link f f' t₁ t₂ t₃ t₁' t₂' t₃' confirms approves q i t
        u h o c n e a k b run o' c' same n' e' run' =
      let first = clicked confirm_link f t₁ t₂ t₃ s in
      let until = Run-trans ctx lib.hitl (next here first) run in
      let keyed = (history s life s here).keyed in
      let (q', ok₁, id₁, state₁) =
        confirmed_once ctx.orchestrator confirms t₂ t₃ s.system q i h keyed e n c a k b in
      let opened = hitl_action-opened ctx lib.hitl confirm_link f t₁ t₂ t₃ s confirms o in
      let keyed' = (history s life t until).keyed in
      let (q'', found) = stored_request (lookup confirms.request_id t.system.repo.requests) e' in
      let own = lookup-Each (λ key x. x.id ≡ key) confirms.request_id q'' _ keyed' found in
      let opened' = hitl_action-opened ctx lib.hitl approve_link f' t₁' t₂' t₃' t approves o' in
      let (ok₂, kept) =
        approved ctx.orchestrator approves t₂' t₃' t.system q'' keyed'
          (subst (λ k. lookup k t.system.repo.requests ≡ some q'') (sym same) found) n' c'
          (state_of q'' _ (rw found at e')) in
      (
        ap (λ x. x.0) opened ∙ action_answer-ok _ q' ok₁ ∙ shown_as q' _ _ id₁ state₁,
        ap (λ x. x.0) opened'
            ∙ action_answer-ok _ _ ok₂
            ∙ shown_as (record q'' { state = completed; updated_at = t₂' }) _ _ own refl,
        run-is_terminal lib web r settings secrets adapters clients world ctx s₀ _ accepted inj
            built (next (Run-trans ctx lib.hitl life until) (clicked approve_link f' t₁' t₂' t₃' t))
            u confirms.request_id completed run'
            (subst
              (λ k.
                stored k (hitl_action ctx lib.hitl approve_link f' t₁' t₂' t₃' t).1.system
                ≡ some completed)
              same (ap (λ x. stored approves.request_id x.1.system) opened' ∙ kept))
            to_completed.1,
      )
