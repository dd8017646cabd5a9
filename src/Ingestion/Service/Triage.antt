-- ===== src/Ingestion/Service/Triage.antt =====
-- A flush when the services answer: no request that is due is lost.
use mathlib.Core.Path.{subst}
use whatsapp_automatic_plann.Prelude.{
  ℕ, ◌≡◌, refl, ap, ◌∙◌, ◌⊎◌, inl, inr, true, not, String, none, some, List, [], ◌∷◌, ◌++◌, length,
  keep, All, arith, get_or, Bool-cases, Option-cases, if◌then◌else◌,
}
use whatsapp_automatic_plann.Prelude.Dict.{Dict, lookup, lookup-insert, insert}
use whatsapp_automatic_plann.Persistence.Repository.{Repository, get_messages}
use whatsapp_automatic_plann.Orchestrator.Filing.{messages-ingest}
use whatsapp_automatic_plann.Workflow.Enums.{awaiting_classification, discarded}
use whatsapp_automatic_plann.Domain.Models.{Message, Request, is_media}
use whatsapp_automatic_plann.Errors.{Result, ok, after}
use whatsapp_automatic_plann.Providers.{Bytes, DownloadedMedia}
use whatsapp_automatic_plann.Nlp.Classifier.{is_actionable_intent}
use whatsapp_automatic_plann.Aggregation.{AggregatedRequest, active}
use whatsapp_automatic_plann.Aggregation.Flush.{requests, flush_due_lem}
use whatsapp_automatic_plann.Aggregation.Ids.{request_ids}
use whatsapp_automatic_plann.Orchestrator.Base.{System}
use whatsapp_automatic_plann.Orchestrator.Defs.{ingest}
use whatsapp_automatic_plann.Orchestrator.Ingest.{IsClassified, ingest-Ensures}
use whatsapp_automatic_plann.Orchestrator.Arrival.{Replies, Succeeds-ok, ingest-Returns}
use whatsapp_automatic_plann.Orchestrator.Evolution.{
  stored, state_in, Tracks, Ensures-ok, Ensures-Evolves,
}
use whatsapp_automatic_plann.Ingestion.Service.{
  IngestionService, IngestionState, in_aggregator, in_system, outside, media_for, process,
  extra_flags, process_each, flush_due,
}
use whatsapp_automatic_plann.Ingestion.Service.Flush.{flushed}
use whatsapp_automatic_plann.Ingestion.Service.Soundness.{Sound-processed, flushed-Sound}
use whatsapp_automatic_plann.Ingestion.Service.Lifetime.{SoundAt}

pub All-prefix : (Q : String → Type 0) (xs ys : List String) → All Q (xs ++ ys) → All Q xs
All-prefix Q [] ys h = tt
All-prefix Q (x ∷ xs) ys h = (h.0, All-prefix Q xs ys h.1)

module _ {W : Type 0} where
  -- The request is stored with the messages that were collected, and the owner is asked about it or
  -- it was discarded.
  abbrev pub IsTriaged : System W → AggregatedRequest → Type 0
  IsTriaged x a =
      ((stored a.request_id x ≡ some awaiting_classification)
        ⊎ (stored a.request_id x ≡ some discarded))
      × (get_messages a.request_id x.repo ≡ a.messages)

  -- The request is as it was, with its messages.
  abbrev pub IsSame : String → IngestionState W → IngestionState W → Type 0
  IsSame id s s' =
      (lookup id s'.system.repo.requests ≡ lookup id s.system.repo.requests)
      × (get_messages id s'.system.repo ≡ get_messages id s.system.repo)

  -- No request but those with the ids has changed.
  abbrev pub SameBut : List String → IngestionState W → IngestionState W → Type 0
  SameBut changed s s' = (id : String) → All (λ y. ¬ (id ≡ y)) changed → IsSame id s s'

  still-IsTriaged :
      (a : AggregatedRequest) (s s' : IngestionState W)
      → IsSame a.request_id s s'
      → IsTriaged s.system a
      → IsTriaged s'.system a
  still-IsTriaged a s s' (e, f) (inl t, m) = (inl (ap state_in e ∙ t), f ∙ m)
  still-IsTriaged a s s' (e, f) (inr t, m) = (inr (ap state_in e ∙ t), f ∙ m)

  classified-IsTriaged :
      (a : AggregatedRequest) (r : Request) (x : System W)
      → Tracks a.request_id r x
      → IsClassified r
      → get_messages a.request_id x.repo ≡ a.messages
      → IsTriaged x a
  classified-IsTriaged a r x (own, e) (i, _, c) m = elim (Bool-cases (is_actionable_intent i)) [
    | inl b ↦ (
      inl (subst (λ k. stored k x ≡ some awaiting_classification) own (e ∙ ap some (rw b at c))),
      m,
    )
    | inr b ↦ (inr (subst (λ k. stored k x ≡ some discarded) own (e ∙ ap some (rw b at c))), m)
  ]

module _ {W : Type 0} (service : IngestionService W) where
  -- Reading from the storage returns, whatever the key.
  abbrev pub Reads : Type 0
  Reads = (key : String) (w : W) → (content : Bytes) × ((service.storage.get key w).0 ≡ ok content)

module _ (a : AggregatedRequest) (repo repo' : Repository) where
  own_messages :
      repo'.messages ≡ insert a.request_id a.messages repo.messages
      → get_messages a.request_id repo' ≡ a.messages
  unfolding get_messages
  own_messages e = rw (e, lookup-insert) (ground arith)

  other_messages :
      (id : String)
      → ¬ (id ≡ a.request_id)
      → repo'.messages ≡ insert a.request_id a.messages repo.messages
      → get_messages id repo' ≡ get_messages id repo
  unfolding get_messages
  other_messages id o e = rw (e, lookup-insert) (ground arith)

module _ {W : Type 0} (service : IngestionService W) (reads : Reads service)
    (replies : Replies service.stages) where
  media_for-returns :
      (messages : List Message) (media : Dict DownloadedMedia) (s : IngestionState W)
      → (found : Dict DownloadedMedia) × (w : W) × (media_for service messages media s
          ≡ (ok found, record s { system = record s.system { world = w } }))
  unfolding media_for outside after
  media_for-returns [] media s = (media, s.system.world, refl)
  media_for-returns (message ∷ messages) media s =
      elim (Option-cases (if is_media message then message.raw_ref else none)) [
        | inl e ↦ rw (e, media_for) (media_for-returns messages media s)
        | inr (ref, e) ↦
            let (content, f) = reads ref s.system.world in
            rw (e, media_for) (rw (f, after) (media_for-returns messages _ _))
      ]

  -- `ingest` as `process` calls it.
  abbrev ingested :
      AggregatedRequest → ℕ → Dict DownloadedMedia → IngestionState W → Result Request × System W
  ingested a now media s =
      ingest service.stages a media (get_or (lookup a.client_id s.names) a.client_id) now
        (extra_flags service (get_or (lookup a.client_id s.known) true)) s.system

  -- What a request has become, and what else has changed.
  abbrev pub Processed :
      AggregatedRequest → List String → IngestionState W → IngestionState W → Type 0
  Processed a pending s s' =
      IsTriaged s'.system a
      × ((id : String) → ¬ (id ≡ a.request_id) → IsSame id s s')
      × SoundAt service pending s'
      × (s'.aggregator ≡ s.aggregator)

  ingested-Processed :
      (a : AggregatedRequest) (pending : List String) (now : ℕ) (media : Dict DownloadedMedia)
      (s : IngestionState W)
      → SoundAt service (a.request_id ∷ pending) s
      → (r : Request) × ((ingested a now media s).0 ≡ ok r)
        × Processed a pending s (record s { system = (ingested a now media s).1 })
  ingested-Processed a pending now media s h =
      let (r, e) = Succeeds-ok (ingest-Returns service.stages replies a media _ now _ s.system) in
      let g =
        ingest-Ensures service.stages a media (get_or (lookup a.client_id s.names) a.client_id) now
          (extra_flags service (get_or (lookup a.client_id s.known) true)) s.system h.keyed
          h.waiting.0.1 in
      let q = Ensures-ok g e in
      let moved = Ensures-Evolves g in
      let filed =
        messages-ingest service.stages a media (get_or (lookup a.client_id s.names) a.client_id) now
          (extra_flags service (get_or (lookup a.client_id s.known) true)) s.system in
      (
        r,
        e,
        (
          classified-IsTriaged a r (ingested a now media s).1 q.0.0 q.0.1
              (own_messages a s.system.repo (ingested a now media s).1.repo filed),
          (λ id o. (
            moved.others id o,
            other_messages a s.system.repo (ingested a now media s).1.repo id o filed,
          )),
          Sound-processed service.new_id h moved,
          refl,
        ),
      )

  -- One request that is pending is triaged, and no other changes.
  pub process-Processed :
      (a : AggregatedRequest) (pending : List String) (now : ℕ) (s : IngestionState W)
      → SoundAt service (a.request_id ∷ pending) s
      → (r : Request) × (s' : IngestionState W) × (process service a now s ≡ (ok r, s'))
        × Processed a pending s s'
  unfolding process in_system after
  process-Processed a pending now s h =
      let (media, w, e) = media_for-returns a.messages [] s in
      let s₁ : IngestionState W = record s { system = record s.system { world = w } } in
      let (r, f, p) = ingested-Processed a pending now media s₁ h in
      (
        r,
        record s₁ { system = (ingested a now media s₁).1 },
        rw (e, process) (ap (λ x. (x, record s₁ { system = (ingested a now media s₁).1 })) f),
        p,
      )

  process_each-Triages :
      (due : List AggregatedRequest) (now : ℕ) (s : IngestionState W)
      → SoundAt service (request_ids due) s
      → (s' : IngestionState W) × (process_each service due now s ≡ (ok tt, s'))
        × All (IsTriaged s'.system) due
        × SameBut (request_ids due) s s'
        × (s'.aggregator ≡ s.aggregator)
  unfolding process_each after
  process_each-Triages [] now s h = (s, refl, tt, (λ id o. (refl, refl)), refl)
  process_each-Triages (a ∷ due) now s h =
      let (r, s₁, e, p) = process-Processed a (request_ids due) now s h in
      let (s', e', all, same, kept) = process_each-Triages due now s₁ p.2 in
      let apart = All-prefix (λ y. ¬ (a.request_id ≡ y)) (request_ids due) _ h.waiting.1 in
      (
        s',
        rw (e, after) e',
        (still-IsTriaged a s₁ s' (same a.request_id apart) p.0, all),
        (λ id o. let (e₁, f₁) = same id o.1 in let (e₂, f₂) = p.1 id o.0 in (e₁ ∙ e₂, f₁ ∙ f₂)),
        kept ∙ p.3,
      )

  -- When reading from the storage, the classification and the notifications return, whatever they
  -- are given, a flush of a service between two calls returns the number of buckets that were due.
  -- Each of their requests is then stored with exactly the messages of its bucket, in order, and
  -- awaits the owner's classification or was discarded; no other request has changed, nor have its
  -- messages, and the buckets that were due are closed.
  pub flush_due-Triages :
      (now : ℕ) (s : IngestionState W)
      → SoundAt service [] s
      → let due = requests (keep (λ (_, b). not (active s.aggregator now b)) s.aggregator.opened) in
        (s' : IngestionState W) × (flush_due service now s ≡ (ok (length due), s'))
        × (s'.aggregator ≡ flushed now s.aggregator)
        × All (IsTriaged s'.system) due
        × SameBut (request_ids due) s s'
  unfolding flush_due in_aggregator after
  flush_due-Triages now s h =
      let due = requests (keep (λ (_, b). not (active s.aggregator now b)) s.aggregator.opened) in
      let (s', e, all, same, kept) =
        process_each-Triages due now (record s { aggregator = flushed now s.aggregator })
          (flushed-Sound service.new_id now h) in
      (s', rw (flush_due_lem now s.aggregator h.valid, after) (rw (e, after) refl), kept, all, same)
