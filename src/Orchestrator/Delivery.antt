-- ===== src/Orchestrator/Delivery.antt =====
-- The generation, rendering and delivery of a document when the services answer.
use whatsapp_automatic_plann.Prelude.{
  ℕ, ◌+◌, ◌≡◌, refl, ap, sym, ◌∙◌, true, String, String-discrete, Option, some, List, [], ◌∷◌, ◌++◌,
  arith, last?-append, get_or,
}
use whatsapp_automatic_plann.Prelude.Dict.{Dict, lookup, lookup-insert}
use whatsapp_automatic_plann.Workflow.Enums.{
  Intent, generating, rendering, awaiting_approval, generated, rendered,
}
use whatsapp_automatic_plann.Workflow.StateMachine.{next_state}
use whatsapp_automatic_plann.Domain.Models.{Request}
use whatsapp_automatic_plann.Errors.{ok, or_raise, attribute_error}
use whatsapp_automatic_plann.Providers.{Attachment}
use whatsapp_automatic_plann.Nlp.Classifier.{is_actionable_intent}
use whatsapp_automatic_plann.Documents.Content.{DocumentContent}
use whatsapp_automatic_plann.Documents.Generator.{GeneratedDocument}
use whatsapp_automatic_plann.Persistence.Repository.{
  Repository, Revision, save_request, add_revision, get_revisions, latest_revision,
}
use whatsapp_automatic_plann.Orchestrator.Stages.{Stages}
use whatsapp_automatic_plann.Orchestrator.Base.{System, name_of}
use whatsapp_automatic_plann.Orchestrator.Defs.{store_each, render_deliver, generate_render_deliver}
use whatsapp_automatic_plann.Orchestrator.Success.{
  Succeeds, succeeds, after-Succeeds, lift-Succeeds, in_world-Succeeds, on_repo-Succeeds,
  transition-Succeeds, AllReturn, IsDelivered,
}

module _ {W : Type 0} (stages : Stages W) (h : AllReturn stages) where
  store_each-Succeeds :
      (request_id : String) (revision_no : ℕ) (atts : List Attachment) (refs : Dict String)
      (repo : Repository) (s : System W)
      → s.repo ≡ repo
      → Succeeds (λ _ s'. s'.repo ≡ repo) (store_each stages request_id revision_no atts refs s)
  unfolding store_each
  store_each-Succeeds request_id revision_no [] refs repo s e = succeeds e
  store_each-Succeeds request_id revision_no (att ∷ atts) refs repo s e =
      after-Succeeds _ _ (in_world-Succeeds _ s _ (h.puts _ att.content att.content_type s.world).1)
        λ ref s' q. store_each-Succeeds request_id revision_no atts _ repo s' (q.1 ∙ e)

from_generating :
    (next_state generating generated ≡ ok rendering)
    × (next_state rendering rendered ≡ ok awaiting_approval)
unfolding next_state
from_generating = (refl, refl)

-- The revision that was added is the latest.
latest-add_revision :
    (v : Revision) (repo : Repository) → latest_revision v.request_id (add_revision v repo) ≡ some v
unfolding latest_revision add_revision get_revisions
latest-add_revision v repo = ground (
  arith,
  lookup-insert v.request_id v.request_id (get_revisions v.request_id repo ++ v ∷ [])
      repo.revisions,
  last?-append (get_revisions v.request_id repo) v,
  String-discrete v.request_id v.request_id,
)

pub lookup-saved :
    (r : Request) (repo : Repository) → lookup r.id (save_request r repo).requests ≡ some r
unfolding save_request
lookup-saved r repo =
    ground (arith, lookup-insert r.id r.id r repo.requests, String-discrete r.id r.id)

saved-latest :
    (id : String) (r : Request) (repo : Repository)
    → latest_revision id (save_request r repo) ≡ latest_revision id repo
unfolding latest_revision save_request get_revisions
saved-latest id r repo = refl

-- A request in the state that each of two transitions leaves it in.
abbrev rendered_one : Request → ℕ → Request
rendered_one r now = record r {
  current_revision = r.current_revision + 1;
  state = rendering;
  updated_at = now;
}

abbrev awaiting_now : ℕ → Request → Request
awaiting_now now r = record r { state = awaiting_approval; updated_at = now }

abbrev awaiting_one : Request → ℕ → Request
awaiting_one r now = awaiting_now now (rendered_one r now)

-- The repository behind the revision and the two transitions.
abbrev delivered_repo : Request → Revision → ℕ → Repository → Repository
delivered_repo r v now repo =
    save_request (awaiting_one r now) (save_request (rendered_one r now) (add_revision v repo))

awaiting_one-IsDelivered :
    {W : Type 0} (r r' : Request) (doc : GeneratedDocument) (feedback : Option String)
    (v : Revision) (now : ℕ) (repo : Repository) (s' : System W)
    → v.request_id ≡ r.id
    → v.revision_no ≡ r.current_revision + 1
    → v.structured_content ≡ doc.content
    → v.feedback ≡ feedback
    → r' ≡ awaiting_one r now
    → s'.repo ≡ delivered_repo r v now repo
    → IsDelivered r doc feedback r' s'
awaiting_one-IsDelivered r r' doc feedback v now repo s' k n c f e p = record {
  awaits = ap (λ x. x.state) e;
  same_id = ap (λ x. x.id) e;
  next = ap (λ x. x.current_revision) e;
  stored =
      ap (λ x. lookup r.id x.requests) p ∙ lookup-saved (awaiting_one r now) _ ∙ ap some (sym e);
  latest = (
    v,
    ap (latest_revision r.id) p
        ∙ saved-latest r.id (awaiting_one r now) _
        ∙ saved-latest r.id (rendered_one r now) _
        ∙ ap (λ id. latest_revision id (add_revision v repo)) (sym k)
        ∙ latest-add_revision v repo,
    n,
    c,
    f,
  );
}

module _ {W : Type 0} (stages : Stages W) (h : AllReturn stages) where
  render_deliver-Succeeds :
      (r : Request) (doc : GeneratedDocument) (now : ℕ) (feedback : Option String) (i : Intent)
      (s : System W)
      → r.state ≡ generating
      → r.intent ≡ some i
      → Succeeds
          (λ r' s'. IsDelivered r doc feedback r' s')
          (render_deliver stages r doc now feedback s)
  unfolding render_deliver
  render_deliver-Succeeds r doc now feedback i s g e =
      after-Succeeds _ _ (lift-Succeeds _ i s (ap (λ o. or_raise o attribute_error) e)) λ i' s₁ q₁.
        after-Succeeds _ _ (lift-Succeeds _ _ s₁ (h.renders doc.content _).1) λ atts s₂ q₂.
          after-Succeeds _ _ (store_each-Succeeds stages h r.id _ atts [] s₂.repo s₂ refl)
            λ refs s₃ q₃. after-Succeeds _ _ (on_repo-Succeeds _ s₃) λ _ s₄ q₄.
              after-Succeeds _ _
                (transition-Succeeds _ generated now rendering s₄
                  (ap (λ u. next_state u generated) g ∙ from_generating.0))
                λ r₁ s₅ q₅.
                  after-Succeeds _ _
                    (transition-Succeeds r₁ rendered now awaiting_approval s₅
                      (ap (λ r. next_state r.state rendered) q₅.0 ∙ from_generating.1))
                    λ r₂ s₆ q₆.
                      let same_intent = ap (λ x. x.intent) q₆.0 ∙ ap (λ x. x.intent) q₅.0 ∙ e in
                      after-Succeeds _ _
                        (in_world-Succeeds _ s₆ _
                          (h.delivers r₂ i _ atts now s₆.world same_intent).1)
                        λ ids s₇ q₇. succeeds (
                          awaiting_one-IsDelivered r r₂ doc feedback _ now s₃.repo s₇ refl refl refl
                            refl (q₆.0 ∙ ap (awaiting_now now) q₅.0)
                            (q₇.1
                              ∙ q₆.1
                              ∙ ap (λ x. save_request (awaiting_now now x) s₅.repo) q₅.0
                              ∙ ap (save_request (awaiting_one r now))
                                  (q₅.1 ∙ ap (save_request (rendered_one r now)) q₄)))

  pub generate_render_deliver-Succeeds :
      (r : Request) (now : ℕ) (feedback : Option String) (previous : Option DocumentContent)
      (i : Intent) (s : System W)
      → r.state ≡ generating
      → r.intent ≡ some i
      → is_actionable_intent i ≡ true
      → (doc : GeneratedDocument) × ((stages.generate r.intent
            (get_or r.normalized_transcript "")
            (name_of r)
            feedback
            previous
            s.world).0
          ≡ ok doc)
        × Succeeds
            (λ r' s'. IsDelivered r doc feedback r' s')
            (generate_render_deliver stages r now feedback previous s)
  unfolding generate_render_deliver
  generate_render_deliver-Succeeds r now feedback previous i s g e a =
      let (doc, f₀) =
        h.generates i (get_or r.normalized_transcript "") (name_of r) feedback previous s.world a in
      let f =
        ap
          (λ j.
            (stages.generate j (get_or r.normalized_transcript "") (name_of r) feedback previous
              s.world).0)
          e
        ∙ f₀ in
      (doc, f, rw (f, generate_render_deliver) (render_deliver-Succeeds r doc now feedback i _ g e))
