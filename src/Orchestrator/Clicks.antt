-- ===== src/Orchestrator/Clicks.antt =====
-- What a click on an action link does: once, again, on a request that is unknown or done with.
use whatsapp_automatic_plann.Prelude.{
  inl, inr, ℕ, ◌≡◌, refl, true, String, Option, none, some, Option-cases,
}
use whatsapp_automatic_plann.Prelude.Dict.{lookup}
use whatsapp_automatic_plann.Workflow.Enums.{RequestState}
use whatsapp_automatic_plann.Workflow.StateMachine.{is_terminal, next_state, trigger_for}
use whatsapp_automatic_plann.Workflow.Reaches.{Reaches-is_terminal}
use whatsapp_automatic_plann.Domain.Models.{Request, OwnerInteraction}
use whatsapp_automatic_plann.Errors.{Error, unknown_request, ok, err, after}
use whatsapp_automatic_plann.Hitl.Service.{OwnerAction}
use whatsapp_automatic_plann.Persistence.Repository.{get_request}
use whatsapp_automatic_plann.Orchestrator.Stages.{Stages}
use whatsapp_automatic_plann.Orchestrator.Base.{System, transition, interaction_of}
use whatsapp_automatic_plann.Orchestrator.Defs.{apply_owner_action}
use whatsapp_automatic_plann.Orchestrator.Evolution.{Ensures-Evolves, IsKeyed, Later, stored}
use whatsapp_automatic_plann.Orchestrator.Recording.{recorded, record_new, record_old}
use whatsapp_automatic_plann.Orchestrator.OwnerActions.{action_recorded, apply_owner_action-Ensures}

module _ {W : Type 0} (stages : Stages W) (action : OwnerAction) (s : System W) where
  -- An action for a request that is not stored raises `KeyError` and changes nothing: it is not
  -- even recorded.
  pub unknown_refused :
      (now received_at : ℕ)
      → lookup action.request_id s.repo.requests ≡ none
      → apply_owner_action stages action now received_at s
        ≡ (err (unknown_request action.request_id), s)
  unfolding apply_owner_action get_request
  unknown_refused now received_at e = rw (e, apply_owner_action) refl

  -- An action whose id is recorded already gives the stored request and changes nothing: neither
  -- the repository nor anything outside.
  pub repeated_ignored :
      (r : Request) (j : OwnerInteraction) (now received_at : ℕ)
      → lookup action.request_id s.repo.requests ≡ some r
      → lookup action.action_id s.repo.interactions ≡ some j
      → apply_owner_action stages action now received_at s ≡ (ok r, s)
  unfolding apply_owner_action get_request interaction_of
  repeated_ignored r j now received_at e old =
      rw (e, record_old (interaction_of action received_at) j s.repo old, apply_owner_action) refl

  -- A first click whose decision the request's state does not allow raises the refusal, and only
  -- records the action. Any later click on the same link, in a state where that interaction and the
  -- request are stored, is not refused again: it gives the stored request and changes nothing.
  pub refused_spent :
      (r : Request) (x : Error) (now received_at now' received_at' : ℕ) (s' : System W)
      (r' : Request)
      → lookup action.request_id s.repo.requests ≡ some r
      → lookup action.action_id s.repo.interactions ≡ none
      → next_state r.state (trigger_for action.decision) ≡ err x
      → lookup action.action_id s'.repo.interactions ≡ some (interaction_of action received_at)
      → lookup action.request_id s'.repo.requests ≡ some r'
      → (apply_owner_action stages action now received_at s
          ≡ (err x, recorded action received_at s))
        × (apply_owner_action stages action now' received_at' s' ≡ (ok r', s'))
  unfolding apply_owner_action get_request interaction_of transition after
  refused_spent r x now received_at now' received_at' s' r' e new refused same e' = (
    rw
        (
          e,
          record_new (interaction_of action received_at) s.repo new,
          apply_owner_action,
          refused,
          transition,
        )
        refl,
    rw
        (
          e',
          record_old (interaction_of action received_at') (interaction_of action received_at)
              s'.repo same,
          apply_owner_action,
        )
        refl,
  )

-- A stored request is still stored later.
still_stored :
    {W : Type 0} (id : String) {r : Request} (s s' : System W)
    → lookup id s.repo.requests ≡ some r
    → Later (stored id s) (stored id s')
    → (r' : Request) × (lookup id s'.repo.requests ≡ some r')
still_stored id s s' e h = elim (Option-cases (lookup id s'.repo.requests)) [
  | inl gone ↦ absurd (rw (e, gone) at h)
  | inr (r', e') ↦ (r', e')
]

-- A second click on a link of a stored request gives the stored request and changes nothing,
-- neither the repository nor anything outside, whatever the first click did and however it ended,
-- when each request is stored under its own id.
pub clicked_twice :
    {W : Type 0} (stages : Stages W) (action : OwnerAction) (now received_at now' received_at' : ℕ)
    (s : System W) (r : Request)
    → IsKeyed s.repo
    → lookup action.request_id s.repo.requests ≡ some r
    → let s' = (apply_owner_action stages action now received_at s).1 in
      (r' : Request) × (lookup action.request_id s'.repo.requests ≡ some r')
      × (apply_owner_action stages action now' received_at' s' ≡ (ok r', s'))
clicked_twice stages action now received_at now' received_at' s r keyed e =
    let s' = (apply_owner_action stages action now received_at s).1 in
    let h = Ensures-Evolves (apply_owner_action-Ensures stages action now received_at s keyed) in
    let (r', e') = still_stored action.request_id s s' e (h.later action.request_id) in
    let (j, old) = action_recorded stages action now received_at s r keyed e in
    (r', e', repeated_ignored stages action s' r' j now' received_at' e' old)

-- A stored request in a terminal state stays in it, whatever owner action comes, when each request
-- is stored under its own id.
pub apply_owner_action-is_terminal :
    {W : Type 0} (stages : Stages W) (action : OwnerAction) (now received_at : ℕ) (s : System W)
    (id : String) (u : RequestState)
    → IsKeyed s.repo
    → stored id s ≡ some u
    → is_terminal u ≡ true
    → stored id (apply_owner_action stages action now received_at s).1 ≡ some u
apply_owner_action-is_terminal stages action now received_at s id u keyed e t =
    kept (stored id (apply_owner_action stages action now received_at s).1) (
      rw e at (
        (Ensures-Evolves (apply_owner_action-Ensures stages action now received_at s keyed)).later
          id))
  where
    kept : (o : Option RequestState) → Later (some u) o → o ≡ some u
    kept none h = absurd h
    kept (some v) h = rw (Reaches-is_terminal t h) refl
