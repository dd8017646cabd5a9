-- ===== src/Orchestrator/Asking.antt =====
-- What a decision of the owner that asks for a document leads to.
use whatsapp_automatic_plann.Prelude.{
  true, ℕ, ◌≡◌, refl, ap, sym, ◌∙◌, String, Option, none, some, get_or,
}
use whatsapp_automatic_plann.Prelude.Dict.{lookup}
use whatsapp_automatic_plann.Workflow.Enums.{
  RequestState, Intent, Trigger, awaiting_classification, generating, awaiting_approval,
}
use whatsapp_automatic_plann.Workflow.StateMachine.{next_state, trigger_for}
use whatsapp_automatic_plann.Domain.Enums.{OwnerDecision, confirm, revise}
use whatsapp_automatic_plann.Domain.Models.{Request}
use whatsapp_automatic_plann.Errors.{Action, Result, ok, after}
use whatsapp_automatic_plann.Documents.Content.{DocumentContent}
use whatsapp_automatic_plann.Documents.Generator.{GeneratedDocument}
use whatsapp_automatic_plann.Hitl.Service.{OwnerAction}
use whatsapp_automatic_plann.Persistence.Repository.{
  save_request, get_request, get_revisions, latest_revision,
}
use whatsapp_automatic_plann.Nlp.Classifier.{is_actionable_intent}
use whatsapp_automatic_plann.Orchestrator.Stages.{Stages}
use whatsapp_automatic_plann.Orchestrator.Base.{
  System, on_repo, transition, interaction_of, name_of,
}
use whatsapp_automatic_plann.Orchestrator.Recording.{recorded, record_new}
use whatsapp_automatic_plann.Orchestrator.Defs.{prior_content, act, apply_owner_action}
use whatsapp_automatic_plann.Orchestrator.Success.{Succeeds, succeeds, AllReturn, IsDelivered}
use whatsapp_automatic_plann.Orchestrator.Delivery.{generate_render_deliver-Succeeds}

-- The decisions that ask for a document, with the states that allow them.
pub data AsksFor : OwnerDecision → RequestState → Type 0 where
  confirmed : AsksFor confirm awaiting_classification
  revised : AsksFor revise awaiting_approval

-- What the generator is given besides the request: feedback and the content before.
abbrev pub feedback_of : OwnerDecision → OwnerAction → Option String
feedback_of revise action = action.feedback
feedback_of _ action = none

pub asked :
    {d : OwnerDecision} {u : RequestState}
    → AsksFor d u
    → next_state u (trigger_for d) ≡ ok generating
unfolding next_state trigger_for
asked confirmed = refl
asked revised = refl

-- The request behind the transition, and the system.
abbrev pub moved : Request → ℕ → Request
moved r now = record r { state = generating; updated_at = now }

abbrev pub moved_system : {W : Type 0} → Request → ℕ → OwnerAction → ℕ → System W → System W
moved_system r now action received_at s = record s {
  repo = save_request (moved r now) (recorded action received_at s).repo;
}

moved-IsDelivered :
    {W : Type 0} {r r' : Request} {doc : GeneratedDocument} {feedback : Option String} {now : ℕ}
    {s' : System W}
    → IsDelivered (moved r now) doc feedback r' s'
    → IsDelivered r doc feedback r' s'
moved-IsDelivered h = record {
  awaits = h.awaits;
  same_id = h.same_id;
  next = h.next;
  stored = h.stored;
  latest = h.latest;
}

Succeeds-impl :
    {W A : Type 0} {Q R : A → System W → Type 0} {x : Result A × System W}
    → ((a : A) (s : System W) → Q a s → R a s)
    → Succeeds Q x
    → Succeeds R x
Succeeds-impl f (succeeds {a} {s} q) = succeeds (f a s q)

after_ok-Succeeds :
    {W A B : Type 0} {R : B → System W → Type 0} (x : Result A × System W)
    (f : A → Action (System W) B) {a : A} {s : System W}
    → x ≡ (ok a, s)
    → Succeeds R (f a s)
    → Succeeds R (after x f)
unfolding after
after_ok-Succeeds x f e h = rw (e, after) h

pub transition-moved :
    {W : Type 0} (r : Request) (now : ℕ) (t : Trigger)
    → next_state r.state t ≡ ok generating
    → (action : OwnerAction) (received_at : ℕ) (s : System W)
    → transition r t now (recorded action received_at s)
      ≡ (ok (moved r now), moved_system r now action received_at s)
unfolding transition on_repo after
transition-moved r now t edge action received_at s = rw (edge, transition) refl

module _ {W : Type 0} (stages : Stages W) where
  abbrev pub previous_of : OwnerDecision → Request → System W → Option DocumentContent
  previous_of revise r s = prior_content stages r s
  previous_of _ r s = none

  pub previous_of-moved :
      {d : OwnerDecision} {u : RequestState}
      → AsksFor d u
      → (r : Request) (now : ℕ) (action : OwnerAction) (received_at : ℕ) (s : System W)
      → previous_of d (moved r now) (moved_system r now action received_at s) ≡ previous_of d r s
  unfolding prior_content latest_revision get_revisions save_request
  previous_of-moved confirmed r now action received_at s = refl
  previous_of-moved revised r now action received_at s = refl

  -- The generator's answer, for a request with the given decision.
  abbrev pub Generates :
      OwnerDecision → OwnerAction → Request → System W → GeneratedDocument → Type 0
  Generates d action r s doc =
      (stages.generate r.intent (get_or r.normalized_transcript "") (name_of r)
        (feedback_of d action) (previous_of d r s) s.world).0
      ≡ ok doc

module _ {W : Type 0} (stages : Stages W) (h : AllReturn stages) where
  act-Succeeds :
      {d : OwnerDecision} {u : RequestState}
      → AsksFor d u
      → (action : OwnerAction) (r : Request) (now : ℕ) (i : Intent) (s : System W)
      → r.state ≡ generating
      → r.intent ≡ some i
      → is_actionable_intent i ≡ true
      → (doc : GeneratedDocument) × Generates stages d action r s doc
        × Succeeds
            (λ r' s'. IsDelivered r doc (feedback_of d action) r' s')
            (act stages d action r now s)
  unfolding act
  act-Succeeds confirmed action r now i s g e b =
      generate_render_deliver-Succeeds stages h r now none none i s g e b
  act-Succeeds revised action r now i s g e b =
      generate_render_deliver-Succeeds stages h r now action.feedback (prior_content stages r s) i s
        g e b

  -- When the owner confirms a request that awaits the classification, or asks for a revision of one
  -- that awaits the approval, with a link that is used for the first time, and its intent asks for
  -- a document, and the services return whatever they are given, the call returns: the document
  -- awaits the approval, as the next revision, stored as the latest one with the content that the
  -- generator gave and the feedback, if a revision was asked for; only then was the generator given
  -- the content before.
  pub apply_owner_action-delivers :
      (action : OwnerAction) (now received_at : ℕ) (r : Request) (i : Intent) (s : System W)
      → lookup action.request_id s.repo.requests ≡ some r
      → lookup action.action_id s.repo.interactions ≡ none
      → AsksFor action.decision r.state
      → r.intent ≡ some i
      → is_actionable_intent i ≡ true
      → (doc : GeneratedDocument) × Generates stages action.decision action r s doc
        × Succeeds
            (λ r' s'. IsDelivered r doc (feedback_of action.decision action) r' s')
            (apply_owner_action stages action now received_at s)
  unfolding apply_owner_action get_request interaction_of
  apply_owner_action-delivers action now received_at r i s e new asks k b =
      let s₂ = moved_system r now action received_at s in
      let (doc, f, q) = act-Succeeds asks action (moved r now) now i s₂ refl k b in
      (
        doc,
        ap
              (λ p.
                (stages.generate r.intent (get_or r.normalized_transcript "") (name_of r)
                  (feedback_of action.decision action) p s.world).0)
              (sym (previous_of-moved stages asks r now action received_at s))
            ∙ f,
        rw (e, record_new (interaction_of action received_at) s.repo new, apply_owner_action)
            (after_ok-Succeeds _ _ (transition-moved r now _ (asked asks) action received_at s)
              (Succeeds-impl (λ r' s'. moved-IsDelivered) q)),
      )
