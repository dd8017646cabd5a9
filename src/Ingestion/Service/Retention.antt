-- ===== src/Ingestion/Service/Retention.antt =====
-- No call of the service loses a message that was collected, when the services answer.
use mathlib.Core.List.{Mem, not-mem-nil, mem-append_left}
use mathlib.Core.Path.{subst}
use whatsapp_automatic_plann.Prelude.{
  ℕ, ◌≡◌, refl, sym, ap, ◌∙◌, inl, inr, not, String, Option, none, some, List, [], ◌∷◌, keep, All,
  arith, Bool-cases,
}
use whatsapp_automatic_plann.Prelude.Dict.{lookup, lookup-insert, lookup-erase_self, erase}
use whatsapp_automatic_plann.Domain.Models.{Message}
use whatsapp_automatic_plann.Aggregation
use whatsapp_automatic_plann.Aggregation.{
  OpenBucket, AggregatedRequest, Aggregator, active, closed, put_message, new_bucket, open_new,
}
use whatsapp_automatic_plann.Aggregation.Flush.{requests}
use whatsapp_automatic_plann.Persistence.Repository.{Repository, get_messages}
use whatsapp_automatic_plann.Errors.{Action, Result, ok, err, after}
use whatsapp_automatic_plann.Orchestrator.Arrival.{Replies}
use whatsapp_automatic_plann.Aggregation.Conservation.{branch, first, ongoing, late}
use whatsapp_automatic_plann.Aggregation.Branches.{add_first, add-active, add_late}
use whatsapp_automatic_plann.Aggregation.Ids.{displaced_ids, request_ids, AreDistinct-All}
use whatsapp_automatic_plann.Ingestion.Service.{
  IngestionService, IngestionState, in_aggregator, outside, build_message, accept, handle_displaced,
  take_in, take_each, receive, flush_due,
}
use whatsapp_automatic_plann.Ingestion.Parser.{ParsedMessage}
use whatsapp_automatic_plann.Ingestion.Idempotency.{claim}
use whatsapp_automatic_plann.Providers.{Bytes}
use whatsapp_automatic_plann.Prelude.Texts.{Text}
use whatsapp_automatic_plann.Ingestion.Service.Soundness.{
  IsInjective, Sound, add-Sound, flushed-Sound,
}
use whatsapp_automatic_plann.Ingestion.Service.Lifetime.{SoundAt, Keeps-ends, flush_due-Keeps}
use whatsapp_automatic_plann.Ingestion.Service.Flush.{flushed}
use whatsapp_automatic_plann.Ingestion.Service.Triage.{
  IsTriaged, SameBut, All-prefix, Reads, process-Processed, flush_due-Triages,
}
use whatsapp_automatic_plann.Ingestion.Service.Holding.{
  Holds, collected, filed, IsFiled, Retains, kept_open, was_closed, not_found, same_bucket,
  Holds-insert, Holds-erase, apart, Processed-IsFiled, Processed-KeepsFiled,
}

same_result : {A : Type 0} (a b : A) → ok a ≡ ok b → a ≡ b
same_result a b e = cc

module _ {W : Type 0} (service : IngestionService W) where
  -- Nothing is lost between the first state and the second, which is as between two calls.
  pub record IsSafe (s₀ s : IngestionState W) : Type 0 where
    pub retains : Retains s₀ s
    pub sound : SoundAt service [] s
    pub files : IsFiled s.system.repo

  -- A call that began behind `s₀`, however it ends.
  pub data Safe {A : Type 0} (s₀ : IngestionState W) : Result A × IngestionState W → Type 0 where
    ended : (r : Result A) (s : IngestionState W) → IsSafe s₀ s → Safe s₀ (r, s)

  pub Safe-end :
      {A : Type 0} {s₀ : IngestionState W} {x : Result A × IngestionState W}
      → Safe s₀ x
      → IsSafe s₀ x.1
  Safe-end (ended r s h) = h

  after-Safe :
      {A B : Type 0} {s₀ : IngestionState W} (x : Result A × IngestionState W)
      (f : A → Action (IngestionState W) B)
      → Safe s₀ x
      → ((a : A) (s : IngestionState W) → IsSafe s₀ s → Safe s₀ (f a s))
      → Safe s₀ (after x f)
  unfolding after
  after-Safe x f (ended (ok a) s h) g = g a s h
  after-Safe x f (ended (err e) s h) g = ended (err e) s h

  pub build_message-Safe :
      {s₀ : IngestionState W} (parsed : ParsedMessage) (s : IngestionState W)
      → IsSafe s₀ s
      → Safe s₀ (build_message service parsed s)
  unfolding build_message outside
  build_message-Safe parsed s h =
      after-Safe _ _ (ended _ _ (record { retains = h.retains; sound = h.sound; files = h.files }))
        λ raw_ref s' h'. ended _ s' h'

  -- What the aggregator leaves.
  pub added-Sound :
      IsInjective service.new_id
      → {a a' : Aggregator} {repo : Repository} (key : String) (m : Message) (now : ℕ)
        (r : Option AggregatedRequest)
      → Sound service.new_id [] a repo
      → Aggregation.add service.new_id key m now a ≡ (ok r, a')
      → Sound service.new_id (displaced_ids r) a' repo
  added-Sound inj {a} {a'} {repo} key m now r h e =
      let (r', e', h') = add-Sound service.new_id inj key m now h in
      subst (λ x. Sound service.new_id (displaced_ids x) a' repo)
        (same_result r' r (sym e' ∙ ap (λ x. x.0) e))
        (subst (λ x. Sound service.new_id (displaced_ids r') x.1 repo) e h')

module _ {W : Type 0} (service : IngestionService W) (reads : Reads service)
    (replies : Replies service.stages) (inj : IsInjective service.new_id) where
  displaced_filed :
      (c b : OpenBucket) (n : Message) (id : String) (s' : IngestionState W)
      → some b ≡ some c
      → c.request_id ≡ id
      → Mem n c.messages
      → get_messages b.request_id s'.system.repo ≡ b.messages
      → Mem n (get_messages id s'.system.repo)
  displaced_filed c b n id s' e o y f =
      let same = same_bucket b c e in
      subst (λ l. Mem n l)
        (sym (
          ap (λ k. get_messages k s'.system.repo) (sym o ∙ ap (λ d. d.request_id) same)
          ∙ f
          ∙ ap (λ d. d.messages) (sym same)))
        y

  -- A message that is added, and the request that it may displace.
  pub added-Safe :
      {s₀ : IngestionState W} (key : String) (m : Message) (now : ℕ) (s : IngestionState W)
      → IsSafe service s₀ s
      → Safe service s₀ (
          after
            (in_aggregator (Aggregation.add service.new_id key m now) s)
            λ displaced. handle_displaced service displaced now)
  unfolding in_aggregator after handle_displaced open_new put_message closed
  added-Safe {s₀} key m now s h = elim (branch key now s.aggregator) [
    | first e ↦
        let done = add_first service.new_id key m now s.aggregator e in
        let sound' = added-Sound service inj key m now none h.sound done in
        rw (done, in_aggregator)
          (ended _ _ (record {
            retains = λ n id x.
                Holds-insert key _ (λ y. y) (λ b f o y. absurd (not_found b (sym e ∙ f)))
                  (h.retains n id x);
            sound = sound';
            files = h.files;
          }))
    | ongoing b e act ↦
        let done = add-active service.new_id key m now s.aggregator b e act in
        let sound' = added-Sound service inj key m now none h.sound done in
        rw (done, in_aggregator)
          (ended _ _ (record {
            retains = λ n id x.
                Holds-insert key _ (λ y. y)
                  (λ c f o y.
                    let same = same_bucket b c (sym e ∙ f) in
                    collected key (put_message m now b) (rw lookup-insert (ground arith))
                      (ap (λ d. d.request_id) (sym same) ∙ o)
                      (mem-append_left _ (subst (λ d. Mem n d.messages) same y)))
                  (h.retains n id x);
            sound = sound';
            files = h.files;
          }))
    | late b e act ↦
        let done = add_late service.new_id key m now s.aggregator b e act in
        let sound' = added-Sound service inj key m now (some (closed b)) h.sound done in
        let s₁ : IngestionState W = record s {
          aggregator =
              open_new service.new_id key m now
                (record s.aggregator { opened = erase key s.aggregator.opened });
        } in
        let (q, s', e', p) = process-Processed service reads replies (closed b) [] now s₁ sound' in
        rw (done, in_aggregator)
          (rw (e', after)
            (ended _ s' (record {
              retains = λ n id x.
                  subst (λ a. Holds n id a.opened s'.system.repo) (sym p.3)
                    (Holds-insert key _ (λ y. y)
                      (λ c f o y. absurd (
                        not_found c (
                          sym (lookup-erase_self key s.aggregator.opened h.sound.valid.unique)
                          ∙ f)))
                      (Holds-erase key
                        (Processed-KeepsFiled service reads replies (closed b) [] s₁ s' p sound'
                          h.files n id)
                        (λ c f o y. displaced_filed c b n id s' (sym e ∙ f) o y p.0.1)
                        (h.retains n id x)));
              sound = p.2;
              files = Processed-IsFiled service reads replies (closed b) [] s₁ s' p h.files;
            })))
  ]

  accept-Safe :
      {s₀ : IngestionState W} (parsed : ParsedMessage) (now : ℕ) (s : IngestionState W)
      → IsSafe service s₀ s
      → Safe service s₀ (accept service parsed now s)
  unfolding accept
  accept-Safe parsed now s h =
      after-Safe service _ _
        (build_message-Safe service parsed _
          (record { retains = h.retains; sound = h.sound; files = h.files }))
        λ message s' h'. added-Safe _ message now s' h'

  pub take_in-Safe :
      {s₀ : IngestionState W} (parsed : ParsedMessage) (now : ℕ) (s : IngestionState W)
      → IsSafe service s₀ s
      → Safe service s₀ (take_in service parsed now s)
  unfolding take_in
  take_in-Safe parsed now s h = elim (Bool-cases (claim parsed.whatsapp_id s.idempotency).0) [
    | inl e ↦
        rw (e, take_in)
          (after-Safe service _ _
            (accept-Safe parsed now _
              (record { retains = h.retains; sound = h.sound; files = h.files }))
            λ _ s' h'. ended _ s' h')
    | inr e ↦ rw (e, take_in) (ended _ s h)
  ]

  pub take_each-Safe :
      {s₀ : IngestionState W} (messages : List ParsedMessage) (now : ℕ) (s : IngestionState W)
      → IsSafe service s₀ s
      → Safe service s₀ (take_each service messages now s)
  unfolding take_each
  take_each-Safe [] now s h = ended _ s h
  take_each-Safe (p ∷ ps) now s h =
      after-Safe service _ _ (take_in-Safe p now s h)
        λ m s' h'. after-Safe service _ _ (take_each-Safe ps now s' h') λ n s'' h''. ended _ s'' h''

  pub receive-Safe :
      {s₀ : IngestionState W} (raw_body : Bytes) (header : Option Text) (now : ℕ)
      (s : IngestionState W)
      → IsSafe service s₀ s
      → Safe service s₀ (receive service raw_body header now s)
  unfolding receive
  receive-Safe raw_body header now s h =
      after-Safe service _ _ (ended _ s h) λ messages s' h'. take_each-Safe messages now s' h'

  -- What a flush makes of what is held.
  flushed-Retains :
      (now : ℕ) (s s' : IngestionState W)
      → let due = requests (keep (λ (_, b). not (active s.aggregator now b)) s.aggregator.opened) in
        s'.aggregator ≡ flushed now s.aggregator
        → All (IsTriaged s'.system) due
        → SameBut (request_ids due) s s'
        → SoundAt service [] s
        → IsFiled s.system.repo
        → Retains s s'
  unfolding closed
  flushed-Retains now s s' a all same h f n id (filed mem) =
      let due = requests (keep (λ (_, b). not (active s.aggregator now b)) s.aggregator.opened) in
      let others =
        All-prefix (λ y. ¬ (id ≡ y)) (request_ids due) _
          (AreDistinct-All
            (λ y u this. absurd (
              not-mem-nil (
                subst (λ l. Mem n l)
                  (f id (subst (λ k. lookup k s.system.repo.requests ≡ none) (sym this) u.1)) mem)))
            _ (flushed-Sound service.new_id now h).waiting) in
      filed (subst (λ l. Mem n l) (sym (same id others).1) mem)
  flushed-Retains now s s' a all same h f n id (collected key b e o mem) =
      elim (Bool-cases (active s.aggregator now b)) [
        | inl act ↦
            collected key b
              (ap (λ x. lookup key x.opened) a
                ∙ kept_open (λ c. not (not (active s.aggregator now c))) key b s.aggregator.opened e
                    (ap (λ x. not (not x)) act))
              o mem
        | inr act ↦ filed (
            displaced_filed b b n id s' refl o mem
              (was_closed (λ c. not (active s.aggregator now c)) key b (IsTriaged s'.system)
                s.aggregator.opened e (ap not act) all).1)
      ]

  pub flush_due-Safe :
      {s₀ : IngestionState W} (now : ℕ) (s : IngestionState W)
      → IsSafe service s₀ s
      → Safe service s₀ (flush_due service now s)
  flush_due-Safe now s h =
      let (s', e, a, all, same) = flush_due-Triages service reads replies now s h.sound in
      let sound' =
        subst (λ x. SoundAt service [] x.1) e
          (Keeps-ends service (flush_due-Keeps service now s h.sound)).1 in
      rw e (
        ended _ s' (record {
          retains =
              λ n id x. flushed-Retains now s s' a all same h.sound h.files n id (h.retains n id x);
          sound = sound';
          files = λ id none_stored.
              let (q, g) = same id (apart s'.system id _ none_stored all) in
              g ∙ h.files id (sym q ∙ none_stored);
        }))
