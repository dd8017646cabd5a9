-- ===== src/Orchestrator/Success.antt =====
-- Calls of the orchestrator that return, and what a delivered document is.
use whatsapp_automatic_plann.Prelude.{ℕ, ◌+◌, ◌≡◌, refl, true, String, Option, some, List}
use whatsapp_automatic_plann.Prelude.Dict.{lookup}
use whatsapp_automatic_plann.Workflow.Enums.{RequestState, Intent, Trigger, awaiting_approval}
use whatsapp_automatic_plann.Workflow.StateMachine.{next_state}
use whatsapp_automatic_plann.Domain.Enums.{Channel}
use whatsapp_automatic_plann.Domain.Models.{Request}
use whatsapp_automatic_plann.Errors.{Action, Result, ok, after, lift}
use whatsapp_automatic_plann.Providers.{Attachment, Bytes}
use whatsapp_automatic_plann.Nlp.Classifier.{is_actionable_intent}
use whatsapp_automatic_plann.Documents.Content.{DocumentContent}
use whatsapp_automatic_plann.Documents.Generator.{GeneratedDocument}
use whatsapp_automatic_plann.Persistence.Repository.{
  Repository, Revision, save_request, latest_revision,
}
use whatsapp_automatic_plann.Orchestrator.Stages.{Stages}
use whatsapp_automatic_plann.Orchestrator.Base.{System, in_world, on_repo, transition}

module _ {W : Type 0} where
  -- The call returns, with `Q` of its result and of the state that it leaves.
  pub data Succeeds {A : Type 0} (Q : A → System W → Type 0) : Result A × System W → Type 0 where
    succeeds : {a : A} {s : System W} → Q a s → Succeeds Q (ok a, s)

  pub after-Succeeds :
      {A B : Type 0} {Q : A → System W → Type 0} {R : B → System W → Type 0}
      (x : Result A × System W) (f : A → Action (System W) B)
      → Succeeds Q x
      → ((a : A) (s : System W) → Q a s → Succeeds R (f a s))
      → Succeeds R (after x f)
  unfolding after
  after-Succeeds x f (succeeds {a} {s} q) k = k a s q

  pub lift-Succeeds :
      {A : Type 0} (r : Result A) (a : A) (s : System W)
      → r ≡ ok a
      → Succeeds (λ a' s'. (a' ≡ a) × (s' ≡ s)) (lift r s)
  lift-Succeeds r a s e = rw (e, lift) (succeeds (refl, refl))

  -- A call of a service that returns leaves the repository alone.
  pub in_world-Succeeds :
      {A : Type 0} (m : Action W A) (s : System W) (a : A)
      → (m s.world).0 ≡ ok a
      → Succeeds (λ a' s'. (a' ≡ a) × (s'.repo ≡ s.repo)) (in_world m s)
  unfolding in_world
  in_world-Succeeds m s a e = rw e (succeeds (refl, refl))

  pub on_repo-Succeeds :
      (f : Repository → Repository) (s : System W)
      → Succeeds (λ _ s'. s'.repo ≡ f s.repo) (on_repo f s)
  unfolding on_repo
  on_repo-Succeeds f s = succeeds refl

  pub transition-Succeeds :
      (r : Request) (t : Trigger) (now : ℕ) (u : RequestState) (s : System W)
      → next_state r.state t ≡ ok u
      → Succeeds
          (λ r' s'.
            (r' ≡ record r { state = u; updated_at = now })
            × (s'.repo ≡ save_request (record r { state = u; updated_at = now }) s.repo))
          (transition r t now s)
  unfolding transition on_repo after
  transition-Succeeds r t now u s e = rw (e, transition) (succeeds (refl, refl))

  -- The services that a document needs return, whatever they are given; the generator, for an intent
  -- that asks for a document, and the delivery, for a request that has an intent.
  pub record AllReturn (stages : Stages W) : Type 0 where
    pub generates :
        (i : Intent) (text name : String) (f : Option String) (p : Option DocumentContent) (w : W)
        → is_actionable_intent i ≡ true
        → (doc : GeneratedDocument) × ((stages.generate (some i) text name f p w).0 ≡ ok doc)
    pub renders :
        (c : DocumentContent) (basename : String)
        → (atts : List Attachment) × (stages.render c basename ≡ ok atts)
    pub puts :
        (key : String) (bytes : Bytes) (type : String) (w : W)
        → (ref : String) × ((stages.put key bytes type w).0 ≡ ok ref)
    pub delivers :
        (r : Request) (i : Intent) (n : ℕ) (atts : List Attachment) (now : ℕ) (w : W)
        → r.intent ≡ some i
        → (ids : List (Channel × String)) × ((stages.deliver_document r n atts now w).0 ≡ ok ids)

  -- The document awaits the owner's approval, as the revision after those of the request, and is
  -- stored as the latest, with the content that was generated and the feedback that asked for it.
  pub record IsDelivered (r : Request) (doc : GeneratedDocument) (feedback : Option String)
      (r' : Request) (s' : System W) : Type 0 where
    pub awaits : r'.state ≡ awaiting_approval
    pub same_id : r'.id ≡ r.id
    pub next : r'.current_revision ≡ r.current_revision + 1
    pub stored : lookup r.id s'.repo.requests ≡ some r'
    pub latest :
        (revision : Revision) × (latest_revision r.id s'.repo ≡ some revision)
        × (revision.revision_no ≡ r.current_revision + 1)
        × (revision.structured_content ≡ doc.content)
        × (revision.feedback ≡ feedback)
