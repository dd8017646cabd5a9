-- ===== src/Hitl/Service/Links.antt =====
-- What the links in the two prompts open to when the owner clicks them.
use whatsapp_automatic_plann.Prelude.{
  ℕ, ◌+◌, ◌≡◌, refl, ◌<◌, true, String, Option, none, some, ◌++◌, All, arith,
}
use whatsapp_automatic_plann.Prelude.Texts.{Text}
use whatsapp_automatic_plann.Workflow.Enums.{
  Intent, RequestState, awaiting_classification, awaiting_approval,
}
use whatsapp_automatic_plann.Workflow.StateMachine.{next_state, trigger_for}
use whatsapp_automatic_plann.Domain.Enums.{
  OwnerInteractionKind, classification, approval, OwnerDecision, correct, confirm, reject, approve,
  revise,
}
use whatsapp_automatic_plann.Domain.Models.{Request}
use whatsapp_automatic_plann.Errors.{ok, is_ok}
use whatsapp_automatic_plann.Nlp.Classifier.{is_actionable_intent}
use whatsapp_automatic_plann.Hitl.Tokens.{IsLawful, issue}
use whatsapp_automatic_plann.Hitl.Tokens.RoundTrip.{verify-issue}
use whatsapp_automatic_plann.Hitl.Messages.{address, link, classification_links, approval_links}
use whatsapp_automatic_plann.Hitl.Service.{
  OwnerAction, NotificationService, HitlCodec, resolve_action,
}

-- A correction names a kind of document.
abbrev pub NamesDocument : OwnerAction → Type 0
NamesDocument a =
    a.decision ≡ correct → (i : Intent) × (a.intent ≡ some i) × (is_actionable_intent i ≡ true)

module _ (lib : HitlCodec) {W : Type 0} (service : NotificationService W)
    (gate : OwnerInteractionKind) (state : RequestState) (request : Request) (revision_no later : ℕ)
    (feedback : Option String) where
  -- The link's token opens to an action on this request at this gate, for this revision, which the
  -- state machine accepts in the given state.
  abbrev pub Opens : String × Text → Type 0
  Opens (label, url) =
      (token : Text) × (a : OwnerAction) × (url ≡ address service.base_url ++ token)
      × (resolve_action lib service token later feedback ≡ ok a)
      × (a.request_id ≡ request.id)
      × (a.gate ≡ gate)
      × (a.revision_no ≡ revision_no)
      × (a.feedback ≡ feedback)
      × (is_ok (next_state state (trigger_for a.decision)) ≡ true)
      × NamesDocument a

  issued-Opens :
      IsLawful lib.codec
      → (label : String) (decision : OwnerDecision) (intent : Option Intent) (now : ℕ)
      → later < now + service.signer.ttl
      → is_ok (next_state state (trigger_for decision)) ≡ true
      → (decision ≡ correct → (i : Intent) × (intent ≡ some i) × (is_actionable_intent i ≡ true))
      → Opens (
        label,
        link service.base_url
            (issue lib.codec service.signer request.id gate decision now intent revision_no),
      )
  unfolding link resolve_action
  issued-Opens L label decision intent now fresh legal names =
      let token = issue lib.codec service.signer request.id gate decision now intent revision_no in
      (
        token,
        record {
          request_id = request.id;
          gate = gate;
          decision = decision;
          action_id = lib.sha256 token;
          intent = intent;
          revision_no = revision_no;
          feedback = feedback;
        },
        refl,
        ground (
          arith,
          verify-issue lib.codec L service.signer request.id gate decision now intent revision_no
              later,
        ),
        refl,
        refl,
        refl,
        refl,
        legal,
        names,
      )

module _ (lib : HitlCodec) {W : Type 0} (service : NotificationService W) where
  -- Every link of the first prompt, clicked in time, opens to an action on the request that it was
  -- sent for, which the state machine accepts while the classification awaits the owner; and the
  -- corrections name a kind of document.
  pub classification_links-Opens :
      (request : Request) (now later : ℕ) (feedback : Option String)
      → IsLawful lib.codec
      → later < now + service.signer.ttl
      → All
          (Opens lib service classification awaiting_classification request 0 later feedback)
          (classification_links lib.codec service.base_url service.signer request now)
  unfolding classification_links next_state trigger_for is_actionable_intent
  classification_links-Opens request now later feedback L fresh =
      let opens =
        issued-Opens lib service classification awaiting_classification request 0 later feedback
          L in
      (
        opens "Confirm" confirm none now fresh refl (λ h. absurd (ground arith)),
        (
          opens "It's a quote" correct (some Intent.quote) now fresh refl
              (λ _. (Intent.quote, refl, refl)),
          (
            opens "It's an execution plan" correct (some Intent.execution_plan) now fresh refl
                (λ _. (Intent.execution_plan, refl, refl)),
            (opens "Reject" reject none now fresh refl (λ h. absurd (ground arith)), tt),
          ),
        ),
      )

  -- Every link of the second prompt, clicked in time, opens to an action on the request and the
  -- revision that it was sent for, which the state machine accepts while the approval is awaited.
  pub approval_links-Opens :
      (request : Request) (now revision_no later : ℕ) (feedback : Option String)
      → IsLawful lib.codec
      → later < now + service.signer.ttl
      → All
          (Opens lib service approval awaiting_approval request revision_no later feedback)
          (approval_links lib.codec service.base_url service.signer request now revision_no)
  unfolding approval_links next_state trigger_for
  approval_links-Opens request now revision_no later feedback L fresh =
      let opens =
        issued-Opens lib service approval awaiting_approval request revision_no later feedback L in
      (
        opens "Approve" approve none now fresh refl (λ h. absurd (ground arith)),
        (opens "Request revision" revise none now fresh refl (λ h. absurd (ground arith)), tt),
      )
