-- ===== src/Orchestrator/Classified.antt =====
-- What the arrival of a batch keeps of the classifier's result.
use whatsapp_automatic_plann.Prelude.{
  ℕ, ◌≡◌, refl, sym, ap, ◌∙◌, Bool, true, false, String, some, List, [], inl, inr, Bool-cases,
  if◌then◌else◌,
}
use whatsapp_automatic_plann.Prelude.Dict.{Dict}
use whatsapp_automatic_plann.Workflow.Enums.{
  Trigger, start_aggregation, window_closed, media_processed, classified_actionable,
  classified_none,
}
use whatsapp_automatic_plann.Workflow.StateMachine.{next_state}
use whatsapp_automatic_plann.Domain.Models.{Request}
use whatsapp_automatic_plann.Errors.{Action, Result, Error, ok, err, after, pure, Result-cases}
use whatsapp_automatic_plann.Providers.{DownloadedMedia}
use whatsapp_automatic_plann.Aggregation.{AggregatedRequest}
use whatsapp_automatic_plann.Nlp.Classifier.{ClassificationResult, is_actionable}
use whatsapp_automatic_plann.Orchestrator.Stages.{Stages}
use whatsapp_automatic_plann.Orchestrator.Base.{System, transition, in_world, on_repo, new_request}
use whatsapp_automatic_plann.Orchestrator.Defs.{finish_ingest, ingest}

module _ {W : Type 0} where
  -- What holds of the result and the system when a call returns.
  pub data Gives {A : Type 0} (Q : A → System W → Type 0) : Result A × System W → Type 0 where
    gives : {a : A} {s : System W} → Q a s → Gives Q (ok a, s)
    raises : {e : Error} {s : System W} → Gives Q (err e, s)

  implied :
      {A : Type 0} {P Q : A → Type 0} {x : Result A × System W}
      → ((a : A) → P a → Q a)
      → Gives (λ a _. P a) x
      → Gives (λ a _. Q a) x
  implied f (gives p) = gives (f _ p)
  implied f raises = raises

  after-Gives :
      {A B : Type 0} {P : A → System W → Type 0} {Q : B → System W → Type 0}
      (x : Result A × System W) (f : A → Action (System W) B)
      → Gives P x
      → ((a : A) (s : System W) → P a s → Gives Q (f a s))
      → Gives Q (after x f)
  unfolding after
  after-Gives x f (gives p) k = k _ _ p
  after-Gives x f raises k = raises

  -- A call of a service, of which it is known what it gives.
  in_world-Gives :
      {A : Type 0} (m : Action W A) (s : System W) {w : W}
      → s.world ≡ w
      → Gives (λ a _. (m w).0 ≡ ok a) (in_world m s)
  unfolding in_world
  in_world-Gives {A} m s {w} e = told (m s.world).0 (ap (λ v. (m v).0) (sym e))
    where
      told :
          (r : Result A)
          → (m w).0 ≡ r
          → Gives (λ a _. (m w).0 ≡ ok a) (r, record s { world = (m s.world).1 })
      told (ok a) h = gives h
      told (err x) h = raises

  -- A transition keeps the outside, and what was found.
  transition-Gives :
      (r : Request) (trigger : Trigger) (now : ℕ) (s : System W)
      → Gives
          (λ r' s'. (s'.world ≡ s.world) × (r'.intent ≡ r.intent) × (r'.confidence ≡ r.confidence))
          (transition r trigger now s)
  unfolding transition after on_repo
  transition-Gives r trigger now s = elim (Result-cases (next_state r.state trigger)) [
    | inl (u, e) ↦ rw (e, transition) (gives (refl, refl, refl))
    | inr (x, e) ↦ rw (e, transition) raises
  ]

module _ {W : Type 0} (stages : Stages W) where
  -- The request has the intent and the confidence of the classifier's result.
  abbrev HasResult : ClassificationResult → Request → Type 0
  HasResult result r = (r.intent ≡ some result.intent) × (r.confidence ≡ some result.confidence)

  -- That result is what the classifier gives for the transcript of the batch's messages, which is
  -- made first.
  abbrev pub IsFound : AggregatedRequest → Dict DownloadedMedia → System W → Request → Type 0
  IsFound aggregated media s r =
      let transcribed = stages.transcript aggregated.messages media s.world in
      (result : ClassificationResult) × ((stages.classify transcribed.0 transcribed.1).0
        ≡ ok result)
      × HasResult result r

  notified-Gives :
      {A : Type 0} (b : Bool) (m : Action W (List A)) (s : System W)
      → Gives (λ _ _. Unit {0}) ((if b then in_world m else pure []) s)
  notified-Gives true m s = implied (λ _ _. tt) (in_world-Gives m s refl)
  notified-Gives false m s = gives tt

  finish_ingest-Gives :
      (r : Request) (result : ClassificationResult) (name : String) (now : ℕ) (flags : List String)
      (s : System W)
      → Gives (λ r' _. HasResult result r') (finish_ingest stages r result name now flags s)
  unfolding finish_ingest
  finish_ingest-Gives r result name now flags s = elim (Bool-cases (is_actionable result)) [
    | inl a ↦
        rw (a, finish_ingest)
          (after-Gives _ _ (transition-Gives _ classified_actionable now s)
            λ r₁ s₁ q. after-Gives _ _ (notified-Gives true _ s₁) λ _ s₂ _. gives (q.1, q.2))
    | inr a ↦
        rw (a, finish_ingest)
          (after-Gives _ _ (transition-Gives _ classified_none now s) λ r₁ s₁ q.
            after-Gives _ _ (notified-Gives stages.notify_on_none _ s₁) λ _ s₂ _. gives (q.1, q.2))
  ]

  -- What the arrival returns has the intent and the confidence that were found.
  pub ingest-IsFound :
      (aggregated : AggregatedRequest) (media : Dict DownloadedMedia) (name : String) (now : ℕ)
      (flags : List String) (s : System W)
      → Gives
          (λ r _. IsFound aggregated media s r)
          (ingest stages aggregated media name now flags s)
  unfolding ingest on_repo after in_world
  ingest-IsFound aggregated media name now flags s =
      after-Gives _ _ (transition-Gives (new_request aggregated name now) start_aggregation now _)
        λ r₁ s₁ q₁. after-Gives _ _ (transition-Gives r₁ window_closed now s₁) λ r₂ s₂ q₂.
          let same = q₂.0 ∙ q₁.0 in
          let transcribe = λ (w : W). stages.transcript aggregated.messages media w in
          after-Gives _ _ (transition-Gives _ media_processed now _) λ r₃ s₃ q₃.
            after-Gives _ _
              (in_world-Gives (stages.classify (transcribe s₂.world).0) s₃
                (q₃.0 ∙ ap (λ w. (transcribe w).1) same))
              λ result s₄ found.
                implied
                  (λ r₄ h. (
                    result,
                    ap (λ w. (stages.classify (transcribe w).0 (transcribe s.world).1).0) (sym same)
                        ∙ found,
                    h,
                  ))
                  (finish_ingest-Gives r₃ result name now flags s₄)
