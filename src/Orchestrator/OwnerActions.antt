-- ===== src/Orchestrator/OwnerActions.antt =====
-- An owner action, whatever it is and however it ends, moves requests along edges only.
use mathlib.Core.Path.{subst}
use whatsapp_automatic_plann.Prelude.{
  sym, ℕ, ◌≡◌, refl, String, none, some, inl, inr, arith, Option-cases,
}
use whatsapp_automatic_plann.Prelude.Dict.{lookup, lookup-Each, lookup-insert}
use whatsapp_automatic_plann.Domain.Models.{Request, OwnerInteraction}
use whatsapp_automatic_plann.Hitl.Service.{OwnerAction}
use whatsapp_automatic_plann.Persistence.Repository.{get_request}
use whatsapp_automatic_plann.Orchestrator.Stages.{Stages}
use whatsapp_automatic_plann.Orchestrator.Base.{System, interaction_of}
use whatsapp_automatic_plann.Orchestrator.Defs.{apply_owner_action}
use whatsapp_automatic_plann.Orchestrator.Evolution.{
  Evolves, Evolves-refl, Ensures, IsKeyed, Tracks, state_in, after-Ensures, returned, raised,
  Ensures-Evolves, transition-Ensures,
}
use whatsapp_automatic_plann.Orchestrator.Steps.{act-Done}
use whatsapp_automatic_plann.Orchestrator.Recording.{recorded, record_new, record_old}

module _ {W : Type 0} (stages : Stages W) where
  stored_own :
      (id : String) (r : Request) (s : System W)
      → IsKeyed s.repo
      → lookup id s.repo.requests ≡ some r
      → Tracks id r s
  stored_own id r s keyed e =
      let own = lookup-Each (λ key q. q.id ≡ key) id r s.repo.requests keyed e in
      (own, subst (λ k. state_in (lookup k s.repo.requests) ≡ some r.state) (sym own) (rw e refl))

  -- To record an action for the first time changes no request and no other action.
  recorded-Evolves :
      (action : OwnerAction) (received_at : ℕ) (s : System W)
      → IsKeyed s.repo
      → lookup action.action_id s.repo.interactions ≡ none
      → Evolves action.request_id s (recorded action received_at s)
  recorded-Evolves action received_at s keyed new = record {
    later = (Evolves-refl {about = action.request_id} s keyed).later;
    others = λ id n. refl;
    keyed = keyed;
    clicks = λ id i e. rw lookup-insert (ground arith);
  }

  -- A first click, seen from any system that precedes the record of it.
  first_click-Ensures :
      (s₀ : System W) (action : OwnerAction) (now received_at : ℕ) (s : System W) (r : Request)
      → IsKeyed s.repo
      → Evolves action.request_id s₀ (recorded action received_at s)
      → lookup action.request_id s.repo.requests ≡ some r
      → lookup action.action_id s.repo.interactions ≡ none
      → Ensures action.request_id s₀
          (λ r s'. Tracks action.request_id r s')
          (apply_owner_action stages action now received_at s)
  unfolding apply_owner_action get_request interaction_of
  first_click-Ensures s₀ action now received_at s r keyed h e new =
      rw (e, record_new (interaction_of action received_at) s.repo new, apply_owner_action)
        (after-Ensures _ _
          (transition-Ensures s₀ (recorded action received_at s) r _ now h
            (stored_own action.request_id r s keyed e))
          λ moved s' h' e'.
            act-Done stages action.request_id s₀ action.decision action moved now s' h' e')

  -- Whatever action comes and however the call ends, with a result or an exception half-way, every
  -- stored request has moved along edges of the state machine only and none has vanished; every
  -- request but the one that the action is about is as it was, and so is every missing one; each is
  -- still stored under its own id, and a request that is returned is the one that the action is
  -- about, in the state that is stored, when each was stored under its own id before. No recorded
  -- action is forgotten.
  pub apply_owner_action-Ensures :
      (action : OwnerAction) (now received_at : ℕ) (s : System W)
      → IsKeyed s.repo
      → Ensures action.request_id s
          (λ r s'. Tracks action.request_id r s')
          (apply_owner_action stages action now received_at s)
  unfolding apply_owner_action get_request interaction_of
  apply_owner_action-Ensures action now received_at s keyed =
      elim (Option-cases (lookup action.request_id s.repo.requests)) [
        | inl e ↦ rw (e, apply_owner_action) (raised (Evolves-refl s keyed))
        | inr (r, e) ↦ elim (Option-cases (lookup action.action_id s.repo.interactions)) [
          | inl new ↦
              first_click-Ensures s action now received_at s r keyed
                (recorded-Evolves action received_at s keyed new) e new
          | inr (j, old) ↦
              rw
                (e, record_old (interaction_of action received_at) j s.repo old, apply_owner_action)
                (returned (Evolves-refl s keyed) (stored_own action.request_id r s keyed e))
        ]
      ]

  -- After a click on a link of a stored request, however it ended, the action is recorded.
  pub action_recorded :
      (action : OwnerAction) (now received_at : ℕ) (s : System W) (r : Request)
      → IsKeyed s.repo
      → lookup action.request_id s.repo.requests ≡ some r
      → (j : OwnerInteraction) × (lookup action.action_id
            (apply_owner_action stages action now received_at s).1.repo.interactions
          ≡ some j)
  unfolding apply_owner_action get_request interaction_of
  action_recorded action now received_at s r keyed e =
      elim (Option-cases (lookup action.action_id s.repo.interactions)) [
        | inl new ↦
            let h =
              first_click-Ensures (recorded action received_at s) action now received_at s r keyed
                (Evolves-refl _ keyed) e new in
            (
              interaction_of action received_at,
              (Ensures-Evolves h).clicks action.action_id _ (rw lookup-insert (ground arith)),
            )
        | inr (j, old) ↦
            rw (e, record_old (interaction_of action received_at) j s.repo old, apply_owner_action)
              (j, old)
      ]
