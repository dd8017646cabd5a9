-- ===== src/Ingestion/Service/Flush.antt =====
-- What `flush_due` does when the processing of a request raises.
use mathlib.Core.Path.{subst}
use whatsapp_automatic_plann.Prelude.{
  ℕ, ◌≡◌, refl, sym, ◌∙◌, ap, Bool, not, none, List, [], ◌∷◌, inl, inr, Option-cases, Bool-cases,
  keep, if◌then◌else◌,
}
use whatsapp_automatic_plann.Prelude.Dict.{Dict}
use whatsapp_automatic_plann.Domain.Models.{Message, is_media}
use whatsapp_automatic_plann.Errors.{Error, ok, err, Result-cases, after}
use whatsapp_automatic_plann.Providers.{DownloadedMedia}
use whatsapp_automatic_plann.Aggregation
use whatsapp_automatic_plann.Aggregation.{OpenBucket, AggregatedRequest, Aggregator, active}
use whatsapp_automatic_plann.Aggregation.Invariant.{IsValid, emit_each-IsValid}
use whatsapp_automatic_plann.Aggregation.Flush.{requests, flush_due_lem}
use whatsapp_automatic_plann.Ingestion.Service.{
  IngestionService, IngestionState, in_aggregator, in_system, outside, media_for, process,
  process_each, flush_due,
}

module _ {W : Type 0} (service : IngestionService W) where
  media_for-aggregator :
      (messages : List Message) (media : Dict DownloadedMedia) (s : IngestionState W)
      → (media_for service messages media s).1.aggregator ≡ s.aggregator
  unfolding media_for after outside
  media_for-aggregator [] media s = refl
  media_for-aggregator (message ∷ messages) media s =
      elim (Option-cases (if is_media message then message.raw_ref else none)) [
        | inl e ↦ rw (e, media_for) (media_for-aggregator messages media s)
        | inr (ref, e) ↦ elim (Result-cases (service.storage.get ref s.system.world).0) [
          | inl (content, f) ↦ rw (e, media_for) (rw (f, after) (media_for-aggregator messages _ _))
          | inr (x, f) ↦ rw (e, media_for) (rw (f, after) refl)
        ]
      ]

  process-aggregator :
      (a : AggregatedRequest) (now : ℕ) (s : IngestionState W)
      → (process service a now s).1.aggregator ≡ s.aggregator
  unfolding process after in_system
  process-aggregator a now s = elim (Result-cases (media_for service a.messages [] s).0) [
    | inl (media, e) ↦ rw (e, process) (media_for-aggregator a.messages [] s)
    | inr (x, e) ↦ rw (e, process) (media_for-aggregator a.messages [] s)
  ]

keep-keep :
    (p : OpenBucket → Bool) (d : Dict OpenBucket)
    → keep (λ (_, b). not (p b)) (keep (λ (_, b). not (not (p b))) d) ≡ []
keep-keep p [] = refl
keep-keep p ((k, b) ∷ d) = elim (Bool-cases (p b)) [
  | inl e ↦ rw (e, keep) (rw (e, keep) (keep-keep p d))
  | inr e ↦ rw (e, keep) (keep-keep p d)
]

pub flush_due-IsValid :
    (now : ℕ) (s : Aggregator) → IsValid s → IsValid (Aggregation.flush_due now s).1
unfolding Aggregation.flush_due
flush_due-IsValid now s h = emit_each-IsValid _ s h

-- The aggregator behind a flush.
abbrev pub flushed : ℕ → Aggregator → Aggregator
flushed now s = record s { opened = keep (λ (_, b). not (not (active s now b))) s.opened }

keep_twice :
    (p : OpenBucket → Bool) (d : Dict OpenBucket)
    → keep (λ (_, b). p b) (keep (λ (_, b). p b) d) ≡ keep (λ (_, b). p b) d
keep_twice p [] = refl
keep_twice p ((k, b) ∷ d) = elim (Bool-cases (p b)) [
  | inl e ↦ rw (e, keep) (rw (e, keep) (ap (λ r. (k, b) ∷ r) (keep_twice p d)))
  | inr e ↦ rw (e, keep) (keep_twice p d)
]

-- A flush right behind a flush finds nothing.
nothing_due :
    (now : ℕ) (s : Aggregator)
    → IsValid s
    → Aggregation.flush_due now (flushed now s) ≡ (ok [], flushed now s)
unfolding active
nothing_due now s h =
    let v : IsValid (flushed now s) =
      subst IsValid (ap (λ x. x.1) (flush_due_lem now s h)) (flush_due-IsValid now s h) in
    flush_due_lem now (flushed now s) v
    ∙ ap (λ d. (ok (requests d), flushed now (flushed now s))) (keep-keep (active s now) s.opened)
    ∙ ap (λ d. (ok [], record s { opened = d }))
        (keep_twice (λ b. not (not (active s now b))) s.opened)

module _ {W : Type 0} (service : IngestionService W) where
  -- If the processing of the first request that is due raises, a flush raises the same. Every
  -- bucket that was due is closed nevertheless, so that a second flush at that time finds none, and
  -- the other requests that were due are not processed.
  pub flush_due-raised :
      (now : ℕ) (s s' : IngestionState W) (first : AggregatedRequest)
      (others : List AggregatedRequest) (e : Error)
      → IsValid s.aggregator
      → requests (keep (λ (_, b). not (active s.aggregator now b)) s.aggregator.opened)
        ≡ first ∷ others
      → process service first now (record s { aggregator = flushed now s.aggregator }) ≡ (err e, s')
      → (flush_due service now s ≡ (err e, s')) × (flush_due service now s' ≡ (ok 0, s'))
  unfolding flush_due after in_aggregator process_each
  flush_due-raised now s s' first others e h d p =
      let still : s'.aggregator ≡ flushed now s.aggregator =
        ap (λ x. x.1.aggregator) (sym p) ∙ process-aggregator service first now _ in
      (
        rw (flush_due_lem now s.aggregator h, after) (rw (d, after) (rw (p, after) refl)),
        rw
            (
              subst (λ a. Aggregation.flush_due now a ≡ (ok [], a)) (sym still)
                  (nothing_due now s.aggregator h),
              after,
            )
            refl,
      )
