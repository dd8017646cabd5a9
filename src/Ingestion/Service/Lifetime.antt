-- ===== src/Ingestion/Service/Lifetime.antt =====
-- What a call of the service keeps, however it ends.
use whatsapp_automatic_plann.Prelude.{
  ℕ, ◌≡◌, String, Option, none, some, List, [], ◌∷◌, inl, inr, Bool-cases, Option-cases,
  if◌then◌else◌,
}
use whatsapp_automatic_plann.Prelude.Texts.{Text}
use whatsapp_automatic_plann.Prelude.Dict.{Dict, lookup}
use whatsapp_automatic_plann.Domain.Models.{Message, OwnerInteraction, is_media}
use whatsapp_automatic_plann.Errors.{Error, Action, Result, ok, err, after}
use whatsapp_automatic_plann.Providers.{Bytes, DownloadedMedia}
use whatsapp_automatic_plann.Aggregation
use whatsapp_automatic_plann.Aggregation.{AggregatedRequest, Aggregator}
use whatsapp_automatic_plann.Aggregation.Flush.{flush_due_lem}
use whatsapp_automatic_plann.Aggregation.Ids.{displaced_ids, request_ids}
use whatsapp_automatic_plann.Orchestrator.Base.{System}
use whatsapp_automatic_plann.Orchestrator.Ingest.{ingest-Ensures}
use whatsapp_automatic_plann.Orchestrator.Evolution.{
  Later, Later-refl, Later-trans, stored, Evolves, Ensures-Evolves,
}
use whatsapp_automatic_plann.Ingestion.Idempotency.{claim}
use whatsapp_automatic_plann.Ingestion.Parser.{ParsedMessage}
use whatsapp_automatic_plann.Ingestion.Service.{
  IngestionService, IngestionState, in_aggregator, in_system, outside, build_message, media_for,
  process, accept, handle_displaced, take_in, take_each, receive, process_each, flush_due,
}
use whatsapp_automatic_plann.Ingestion.Service.Redelivery.{Remembers, claim-Remembers}
use whatsapp_automatic_plann.Ingestion.Service.Soundness.{
  IsInjective, Sound, Sound-none, Sound-processed, add-Sound, flushed-Sound,
}

module _ {W : Type 0} where
  -- What no call undoes: a stored request stays stored and moves along edges of the state machine
  -- only, a recorded action stays recorded, and a message that was claimed stays claimed.
  pub record Follows (s₀ s : IngestionState W) : Type 0 where
    pub later : (id : String) → Later (stored id s₀.system) (stored id s.system)
    pub clicks :
        (id : String) (i : OwnerInteraction)
        → lookup id s₀.system.repo.interactions ≡ some i
        → lookup id s.system.repo.interactions ≡ some i
    pub remembers : Remembers s₀.idempotency s.idempotency

  pub Follows-refl : (s : IngestionState W) → Follows s s
  Follows-refl s = record {
    later = λ id. Later-refl (stored id s.system);
    clicks = λ id i e. e;
    remembers = λ k h. h;
  }

  pub Follows-trans : {s t u : IngestionState W} → Follows s t → Follows t u → Follows s u
  Follows-trans {s} {t} {u} h k = record {
    later = λ id.
        Later-trans (stored id s.system) (stored id t.system) (stored id u.system) (h.later id)
          (k.later id);
    clicks = λ id i e. k.clicks id i (h.clicks id i e);
    remembers = λ j e. k.remembers j (h.remembers j e);
  }

  -- A call of the orchestrator.
  pub Follows-evolved :
      {about : String} {s₀ s : IngestionState W} {x : System W}
      → Follows s₀ s
      → Evolves about s.system x
      → Follows s₀ (record s { system = x })
  Follows-evolved {s} {x} h e =
      Follows-trans h (record { later = e.later; clicks = e.clicks; remembers = λ k m. m })

module _ {W : Type 0} (service : IngestionService W) where
  abbrev pub SoundAt : List String → IngestionState W → Type 0
  SoundAt pending s = Sound service.new_id pending s.aggregator s.system.repo

  -- A call that began behind `s₀` keeps this: what it ends with follows `s₀` and is sound, also
  -- when it raises; `pending` requests are left by a result.
  pub data Keeps {A : Type 0} (s₀ : IngestionState W) (pending : A → List String)
      : Result A × IngestionState W → Type 0 where
    kept :
        {a : A} {s : IngestionState W}
        → Follows s₀ s
        → SoundAt (pending a) s
        → Keeps s₀ pending (ok a, s)
    stopped :
        {e : Error} {s : IngestionState W}
        → Follows s₀ s
        → SoundAt [] s
        → Keeps s₀ pending (err e, s)

  pub Keeps-ends :
      {A : Type 0} {s₀ : IngestionState W} {pending : A → List String}
      {x : Result A × IngestionState W}
      → Keeps s₀ pending x
      → Follows s₀ x.1 × SoundAt [] x.1
  Keeps-ends {pending} (kept {a} f h) = (f, Sound-none _ (pending a) h)
  Keeps-ends (stopped f h) = (f, h)

  after-Keeps :
      {A B : Type 0} {s₀ : IngestionState W} {p : A → List String} {q : B → List String}
      (x : Result A × IngestionState W) (f : A → Action (IngestionState W) B)
      → Keeps s₀ p x
      → ((a : A) (s : IngestionState W) → Follows s₀ s → SoundAt (p a) s → Keeps s₀ q (f a s))
      → Keeps s₀ q (after x f)
  unfolding after
  after-Keeps x f (kept {a} {s} h k) g = g a s h k
  after-Keeps x f (stopped h k) g = stopped h k

  -- A result, of which it is known how it ended.
  ended-Keeps :
      {A : Type 0} {s₀ : IngestionState W} {pending : List String} (r : Result A)
      (s : IngestionState W)
      → Follows s₀ s
      → SoundAt pending s
      → Keeps s₀ (λ _. pending) (r, s)
  ended-Keeps (ok a) s f h = kept f h
  ended-Keeps {pending} (err e) s f h = stopped f (Sound-none _ pending h)

  outside-Keeps :
      {A : Type 0} {s₀ : IngestionState W} {pending : List String} (m : Action W A)
      (s : IngestionState W)
      → Follows s₀ s
      → SoundAt pending s
      → Keeps s₀ (λ _. pending) (outside m s)
  unfolding outside
  outside-Keeps m s f h =
      ended-Keeps _ _ (record { later = f.later; clicks = f.clicks; remembers = f.remembers }) h

  build_message-Keeps :
      {s₀ : IngestionState W} (parsed : ParsedMessage) (s : IngestionState W)
      → Follows s₀ s
      → SoundAt [] s
      → Keeps s₀ (λ _. []) (build_message service parsed s)
  unfolding build_message
  build_message-Keeps parsed s f h =
      after-Keeps _ _ (outside-Keeps _ s f h) λ raw_ref s' f' h'. ended-Keeps _ s' f' h'

  media_for-Keeps :
      {s₀ : IngestionState W} {pending : List String} (messages : List Message)
      (media : Dict DownloadedMedia) (s : IngestionState W)
      → Follows s₀ s
      → SoundAt pending s
      → Keeps s₀ (λ _. pending) (media_for service messages media s)
  unfolding media_for
  media_for-Keeps [] media s f h = kept f h
  media_for-Keeps (message ∷ messages) media s f h =
      elim (Option-cases (if is_media message then message.raw_ref else none)) [
        | inl e ↦ rw (e, media_for) (media_for-Keeps messages media s f h)
        | inr (ref, e) ↦
            rw (e, media_for)
              (after-Keeps _ _ (outside-Keeps _ s f h)
                λ content s' f' h'. media_for-Keeps messages _ s' f' h')
      ]

  -- The request is under a new id, whatever was processed before.
  process-Keeps :
      {s₀ : IngestionState W} {pending : List String} (a : AggregatedRequest) (now : ℕ)
      (s : IngestionState W)
      → Follows s₀ s
      → SoundAt (a.request_id ∷ pending) s
      → Keeps s₀ (λ _. pending) (process service a now s)
  unfolding process in_system
  process-Keeps a now s f h =
      after-Keeps _ _ (media_for-Keeps a.messages [] s f h) λ media s' f' h'.
        let e =
          Ensures-Evolves
            (ingest-Ensures service.stages a media _ now _ s'.system h'.keyed h'.waiting.0.1) in
        ended-Keeps _ _ (Follows-evolved f' e) (Sound-processed service.new_id h' e)

  process_each-Keeps :
      {s₀ : IngestionState W} (due : List AggregatedRequest) (now : ℕ) (s : IngestionState W)
      → Follows s₀ s
      → SoundAt (request_ids due) s
      → Keeps s₀ (λ _. []) (process_each service due now s)
  unfolding process_each
  process_each-Keeps [] now s f h = kept f h
  process_each-Keeps (a ∷ due) now s f h =
      after-Keeps _ _ (process-Keeps a now s f h) λ _ s' f' h'. process_each-Keeps due now s' f' h'

  pub flush_due-Keeps :
      (now : ℕ) (s : IngestionState W) → SoundAt [] s → Keeps s (λ _. []) (flush_due service now s)
  unfolding flush_due in_aggregator after
  flush_due-Keeps now s h =
      rw (flush_due_lem now s.aggregator h.valid, after)
        (after-Keeps _ _
          (process_each-Keeps _ now _
            (record { later = (Follows-refl s).later; clicks = λ id i c. c; remembers = λ k m. m })
            (flushed-Sound service.new_id now h))
          λ _ s' f' k'. kept f' k')

  handle_displaced-Keeps :
      {s₀ : IngestionState W} (displaced : Option AggregatedRequest) (now : ℕ)
      (s : IngestionState W)
      → Follows s₀ s
      → SoundAt (displaced_ids displaced) s
      → Keeps s₀ (λ _. []) (handle_displaced service displaced now s)
  unfolding handle_displaced
  handle_displaced-Keeps none now s f h = kept f h
  handle_displaced-Keeps (some a) now s f h =
      after-Keeps _ _ (process-Keeps a now s f h) λ _ s' f' h'. kept f' h'

  module _ (inj : IsInjective service.new_id) where
    add-Keeps :
        {s₀ : IngestionState W} (key : String) (m : Message) (now : ℕ) (s : IngestionState W)
        → Follows s₀ s
        → SoundAt [] s
        → Keeps s₀ displaced_ids (in_aggregator (Aggregation.add service.new_id key m now) s)
    unfolding in_aggregator
    add-Keeps {s₀} key m now s f h =
        let (r, e, h') = add-Sound service.new_id inj key m now h in
        rw e (kept (record { later = f.later; clicks = f.clicks; remembers = f.remembers }) h')

    accept-Keeps :
        {s₀ : IngestionState W} (parsed : ParsedMessage) (now : ℕ) (s : IngestionState W)
        → Follows s₀ s
        → SoundAt [] s
        → Keeps s₀ (λ _. []) (accept service parsed now s)
    unfolding accept
    accept-Keeps parsed now s f h =
        after-Keeps _ _
          (build_message-Keeps parsed _
            (record { later = f.later; clicks = f.clicks; remembers = f.remembers }) h)
          λ message s' f' h'.
            after-Keeps _ _ (add-Keeps _ message now s' f' h')
              λ displaced s'' f'' h''. handle_displaced-Keeps displaced now s'' f'' h''

    take_in-Keeps :
        {s₀ : IngestionState W} (parsed : ParsedMessage) (now : ℕ) (s : IngestionState W)
        → Follows s₀ s
        → SoundAt [] s
        → Keeps s₀ (λ _. []) (take_in service parsed now s)
    unfolding take_in
    take_in-Keeps parsed now s f h = elim (Bool-cases (claim parsed.whatsapp_id s.idempotency).0) [
      | inl e ↦
          rw (e, take_in)
            (after-Keeps _ _
              (accept-Keeps parsed now _
                (Follows-trans f (record {
                  later = (Follows-refl s).later;
                  clicks = λ id i c. c;
                  remembers = claim-Remembers parsed.whatsapp_id s.idempotency;
                }))
                h)
              λ _ s' f' h'. kept f' h')
      | inr e ↦ rw (e, take_in) (kept f h)
    ]

    take_each-Keeps :
        {s₀ : IngestionState W} (messages : List ParsedMessage) (now : ℕ) (s : IngestionState W)
        → Follows s₀ s
        → SoundAt [] s
        → Keeps s₀ (λ _. []) (take_each service messages now s)
    unfolding take_each
    take_each-Keeps [] now s f h = kept f h
    take_each-Keeps (p ∷ ps) now s f h = after-Keeps _ _ (take_in-Keeps p now s f h) λ m s' f' h'.
        after-Keeps _ _ (take_each-Keeps ps now s' f' h') λ n s'' f'' h''. kept f'' h''

    pub receive-Keeps :
        (raw_body : Bytes) (header : Option Text) (now : ℕ) (s : IngestionState W)
        → SoundAt [] s
        → Keeps s (λ _. []) (receive service raw_body header now s)
    unfolding receive
    receive-Keeps raw_body header now s h =
        after-Keeps _ _ (ended-Keeps _ s (Follows-refl s) h)
          λ messages s' f' h'. take_each-Keeps messages now s' f' h'
