-- ===== src/Orchestrator/Steps.antt =====
-- What each step behind an owner's decision keeps, however it ends.
use whatsapp_automatic_plann.Prelude.{ℕ, refl, String, Option, none, List, [], ◌∷◌, get_or}
use whatsapp_automatic_plann.Prelude.Dict.{Dict}
use whatsapp_automatic_plann.Workflow.Reaches.{here}
use whatsapp_automatic_plann.Domain.Enums.{OwnerDecision, confirm, correct, reject, approve, revise}
use whatsapp_automatic_plann.Domain.Models.{Request}
use whatsapp_automatic_plann.Errors.{Error, generation_error, Result, ok, err, lift}
use whatsapp_automatic_plann.Workflow.Enums.{fail}
use whatsapp_automatic_plann.Providers.{Attachment}
use whatsapp_automatic_plann.Documents.Content.{DocumentContent}
use whatsapp_automatic_plann.Documents.Generator.{GeneratedDocument}
use whatsapp_automatic_plann.Hitl.Service.{OwnerAction}
use whatsapp_automatic_plann.Persistence.Repository.{add_revision, save_request}
use whatsapp_automatic_plann.Orchestrator.Stages.{Stages}
use whatsapp_automatic_plann.Orchestrator.Base.{System, on_repo, name_of}
use whatsapp_automatic_plann.Orchestrator.Defs.{
  store_each, render_deliver, fail_generation, generate_render_deliver, renotify_classification,
  act, prior_content,
}
use whatsapp_automatic_plann.Orchestrator.Evolution.{
  Evolves, Ensures, Tracks, after-Ensures, returned, raised, save-Evolves, save-Tracks,
  transition-Ensures, in_world-Ensures, on_repo-Ensures,
}

module _ {W : Type 0} (stages : Stages W) (about : String) (s₀ : System W) where
  -- A pure step that may raise.
  lift-Ensures :
      {A : Type 0} (r : Request) (x : Result A) (s : System W)
      → Evolves about s₀ s
      → Tracks about r s
      → Ensures about s₀ (λ _ s'. Tracks about r s') (lift x s)
  lift-Ensures r (ok a) s h e = returned h e
  lift-Ensures r (err _) s h e = raised h

  store_each-Ensures :
      (r : Request) (id : String) (n : ℕ) (atts : List Attachment) (refs : Dict String)
      (s : System W)
      → Evolves about s₀ s
      → Tracks about r s
      → Ensures about s₀ (λ _ s'. Tracks about r s') (store_each stages id n atts refs s)
  unfolding store_each
  store_each-Ensures r id n [] refs s h e = returned h e
  store_each-Ensures r id n (att ∷ atts) refs s h e =
      after-Ensures _ _ (in_world-Ensures s₀ s r _ h e)
        λ ref s' h' e'. store_each-Ensures r id n atts _ s' h' e'

  -- The request that a method returns is in the state that is stored for it.
  abbrev Done : Result Request × System W → Type 0
  Done = Ensures about s₀ (λ r s. Tracks about r s)

  render_deliver-Done :
      (r : Request) (doc : GeneratedDocument) (now : ℕ) (feedback : Option String) (s : System W)
      → Evolves about s₀ s
      → Tracks about r s
      → Done (render_deliver stages r doc now feedback s)
  unfolding render_deliver add_revision
  render_deliver-Done r doc now feedback s h e =
      after-Ensures _ _ (lift-Ensures r _ s h e) λ intent s₁ h₁ e₁.
        after-Ensures _ _ (lift-Ensures r _ s₁ h₁ e₁) λ attachments s₂ h₂ e₂.
          after-Ensures _ _ (store_each-Ensures r _ _ attachments [] s₂ h₂ e₂) λ refs s₃ h₃ e₃.
            after-Ensures _ _ (on_repo-Ensures s₀ s₃ r _ refl refl h₃ e₃) λ _ s₄ h₄ e₄.
              after-Ensures _ _ (transition-Ensures s₀ s₄ _ _ now h₄ e₄) λ r₁ s₅ h₅ e₅.
                after-Ensures _ _ (transition-Ensures s₀ s₅ r₁ _ now h₅ e₅) λ r₂ s₆ h₆ e₆.
                  after-Ensures _ _ (in_world-Ensures s₀ s₆ r₂ _ h₆ e₆) λ _ s₇ h₇ e₇. returned h₇ e₇

  fail_generation-Done :
      (r : Request) (x : Error) (now : ℕ) (s : System W)
      → Evolves about s₀ s
      → Tracks about r s
      → Done (fail_generation stages r x now s)
  unfolding fail_generation
  fail_generation-Done r generation_error now s h e =
      after-Ensures _ _ (transition-Ensures s₀ s r fail now h e) λ _ s' h' _. raised h'
  fail_generation-Done r _ now s h e = raised h

  generate_render_deliver-Done :
      (r : Request) (now : ℕ) (feedback : Option String) (previous : Option DocumentContent)
      (s : System W)
      → Evolves about s₀ s
      → Tracks about r s
      → Done (generate_render_deliver stages r now feedback previous s)
  unfolding generate_render_deliver
  generate_render_deliver-Done r now feedback previous s h e =
      go
        (stages.generate r.intent (get_or r.normalized_transcript "") (name_of r) feedback previous
          s.world).0
    where
      w : W
      w =
          (stages.generate r.intent (get_or r.normalized_transcript "") (name_of r) feedback
            previous s.world).1

      s' : System W
      s' = record s { world = w }

      h' : Evolves about s₀ s'
      h' = record { later = h.later; others = h.others; keyed = h.keyed; clicks = h.clicks }

      go :
          (x : Result GeneratedDocument)
          → Done (elim x [
            | ok doc ↦ render_deliver stages r doc now feedback s'
            | err e ↦ fail_generation stages r e now s'
          ])
      go (ok doc) = render_deliver-Done r doc now feedback s' h' e
      go (err x) = fail_generation-Done r x now s' h' e

  renotify-Ensures :
      (r : Request) (now : ℕ) (s : System W)
      → Evolves about s₀ s
      → Tracks about r s
      → Ensures about s₀ (λ _ s'. Tracks about r s') (renotify_classification stages r now s)
  unfolding renotify_classification
  renotify-Ensures r now s h e = after-Ensures _ _ (lift-Ensures r _ s h e) λ intent s₁ h₁ e₁.
      after-Ensures _ _ (in_world-Ensures s₀ s₁ r _ h₁ e₁) λ _ s₂ h₂ e₂. returned h₂ e₂

  save-Ensures :
      (r : Request) (s : System W)
      → Evolves about s₀ s
      → Tracks about r s
      → Ensures about s₀ (λ _ s'. Tracks about r s') (on_repo (save_request r) s)
  unfolding on_repo
  save-Ensures r s h e = returned (save-Evolves s₀ s r h (rw e.1 here) e.0) (save-Tracks _ s r e.0)

  pub act-Done :
      (d : OwnerDecision) (a : OwnerAction) (r : Request) (now : ℕ) (s : System W)
      → Evolves about s₀ s
      → Tracks about r s
      → Done (act stages d a r now s)
  unfolding act
  act-Done confirm a r now s h e = generate_render_deliver-Done r now none none s h e
  act-Done correct a r now s h e =
      after-Ensures _ _ (save-Ensures (record r { intent = a.intent }) s h e) λ _ s₁ h₁ e₁.
        after-Ensures _ _ (renotify-Ensures _ now s₁ h₁ e₁) λ _ s₂ h₂ e₂. returned h₂ e₂
  act-Done revise a r now s h e =
      generate_render_deliver-Done r now a.feedback (prior_content stages r s) s h e
  act-Done reject a r now s h e = returned h e
  act-Done approve a r now s h e = returned h e
