-- ===== src/Ingestion/Service/Holding.antt =====
-- Where a message is that was collected for a request, when the services answer.
use mathlib.Core.List.{Mem, not-mem-nil}
use mathlib.Core.Path.{subst}
use whatsapp_automatic_plann.Prelude.{
  String-discrete, ◌≡◌, sym, ap, ◌∙◌, inl, inr, Bool, true, String, none, some, List, [], ◌∷◌, keep,
  All, arith,
}
use whatsapp_automatic_plann.Prelude.Dict.{
  Dict, lookup, lookup-insert, lookup-erase_ne, insert, erase,
}
use whatsapp_automatic_plann.Domain.Models.{Message}
use whatsapp_automatic_plann.Aggregation.{OpenBucket, AggregatedRequest, closed}
use whatsapp_automatic_plann.Aggregation.Flush.{requests}
use whatsapp_automatic_plann.Persistence.Repository.{Repository, get_messages}
use whatsapp_automatic_plann.Orchestrator.Base.{System}
use whatsapp_automatic_plann.Orchestrator.Arrival.{Replies}
use whatsapp_automatic_plann.Orchestrator.Evolution.{state_in}
use whatsapp_automatic_plann.Aggregation.Ids.{request_ids}
use whatsapp_automatic_plann.Ingestion.Service.{IngestionService, IngestionState}
use whatsapp_automatic_plann.Ingestion.Service.Lifetime.{SoundAt}
use whatsapp_automatic_plann.Ingestion.Service.Triage.{IsTriaged, Reads, Processed}

-- The message is among those of the request with the id: in its bucket, or stored with it.
pub data Holds (m : Message) (id : String) (opened : Dict OpenBucket) (repo : Repository)
    : Type 0 where
  collected :
      (key : String) (b : OpenBucket)
      → lookup key opened ≡ some b
      → b.request_id ≡ id
      → Mem m b.messages
      → Holds m id opened repo
  filed : Mem m (get_messages id repo) → Holds m id opened repo

-- What a flush does to a bucket.
module _ (p : OpenBucket → Bool) (key : String) (b : OpenBucket) where
  pub kept_open :
      (d : Dict OpenBucket)
      → lookup key d ≡ some b
      → p b ≡ true
      → lookup key (keep (λ (_, c). p c) d) ≡ some b
  unfolding lookup
  kept_open [] e h = cc
  kept_open ((j, c) ∷ d) e h = ground (arith, kept_open d)

  pub was_closed :
      (Q : AggregatedRequest → Type 0) (d : Dict OpenBucket)
      → lookup key d ≡ some b
      → p b ≡ true
      → All Q (requests (keep (λ (_, c). p c) d))
      → Q (closed b)
  unfolding lookup
  was_closed Q [] e h q = cc
  was_closed Q ((j, c) ∷ d) e h q = ground (arith, was_closed Q d)

-- A request that is not stored has no messages.
abbrev pub IsFiled : Repository → Type 0
IsFiled repo = (id : String) → lookup id repo.requests ≡ none → get_messages id repo ≡ []

pub same_bucket : (c b : OpenBucket) → some c ≡ some b → b ≡ c
same_bucket c b e = cc

pub not_found : (c : OpenBucket) → none ≡ some c → ⊥
not_found c e = cc

-- What is held behind a change of one bucket.
module _ {m : Message} {id : String} {opened : Dict OpenBucket} {repo repo' : Repository} where
  pub Holds-insert :
      (key : String) (b' : OpenBucket)
      → (Mem m (get_messages id repo) → Mem m (get_messages id repo'))
      → ((b : OpenBucket)
          → lookup key opened ≡ some b
          → b.request_id ≡ id
          → Mem m b.messages
          → Holds m id (insert key b' opened) repo')
      → Holds m id opened repo
      → Holds m id (insert key b' opened) repo'
  Holds-insert key b' f g (filed h) = filed (f h)
  Holds-insert key b' f g (collected k b e o h) = elim (String-discrete k key) [
    | yes p ↦ g b (subst (λ j. lookup j opened ≡ some b) p e) o h
    | no n ↦ collected k b (rw lookup-insert (ground arith)) o h
  ]

  pub Holds-erase :
      (key : String)
      → (Mem m (get_messages id repo) → Mem m (get_messages id repo'))
      → ((b : OpenBucket)
          → lookup key opened ≡ some b
          → b.request_id ≡ id
          → Mem m b.messages
          → Mem m (get_messages id repo'))
      → Holds m id opened repo
      → Holds m id (erase key opened) repo'
  Holds-erase key f g (filed h) = filed (f h)
  Holds-erase key f g (collected k b e o h) = elim (String-discrete k key) [
    | yes p ↦ filed (g b (subst (λ j. lookup j opened ≡ some b) p e) o h)
    | no n ↦ collected k b (lookup-erase_ne k key opened n ∙ e) o h
  ]

-- The messages that were stored still are.
abbrev pub KeepsFiled : Repository → Repository → Type 0
KeepsFiled repo repo' =
    (m : Message) (id : String) → Mem m (get_messages id repo) → Mem m (get_messages id repo')

module _ {W : Type 0} where
  -- Every message that was held is held still, for the same request.
  abbrev pub Retains : IngestionState W → IngestionState W → Type 0
  Retains s₀ s =
      (m : Message) (id : String)
      → Holds m id s₀.aggregator.opened s₀.system.repo
      → Holds m id s.aggregator.opened s.system.repo

module _ {W : Type 0} (x : System W) where
  IsTriaged-stored :
      (a : AggregatedRequest) → IsTriaged x a → lookup a.request_id x.repo.requests ≡ none → ⊥
  IsTriaged-stored a (inl t, _) e = let u = ap state_in e in cc
  IsTriaged-stored a (inr t, _) e = let u = ap state_in e in cc

  pub apart :
      (id : String) (due : List AggregatedRequest)
      → lookup id x.repo.requests ≡ none
      → All (IsTriaged x) due
      → All (λ y. ¬ (id ≡ y)) (request_ids due)
  apart id [] e h = tt
  apart id (a ∷ due) e h = (
    λ same. IsTriaged-stored a h.0 (subst (λ k. lookup k x.repo.requests ≡ none) same e),
    apart id due e h.1,
  )

module _ {W : Type 0} (service : IngestionService W) (reads : Reads service)
    (replies : Replies service.stages) (a : AggregatedRequest) (pending : List String)
    (s s' : IngestionState W) where
  pub Processed-IsFiled :
      Processed service reads replies a pending s s'
      → IsFiled s.system.repo
      → IsFiled s'.system.repo
  Processed-IsFiled p f id e = elim (String-discrete id a.request_id) [
    | yes same ↦ absurd (
        IsTriaged-stored s'.system a p.0
          (subst (λ k. lookup k s'.system.repo.requests ≡ none) same e))
    | no other ↦ let (q, g) = p.1 id other in g ∙ f id (sym q ∙ e)
  ]

  pub Processed-KeepsFiled :
      Processed service reads replies a pending s s'
      → SoundAt service (a.request_id ∷ pending) s
      → IsFiled s.system.repo
      → KeepsFiled s.system.repo s'.system.repo
  Processed-KeepsFiled p h f m id mem = elim (String-discrete id a.request_id) [
    | yes same ↦ absurd (
        not-mem-nil (
          subst (λ l. Mem m l)
            (f id (subst (λ k. lookup k s.system.repo.requests ≡ none) (sym same) h.waiting.0.1))
            mem))
    | no other ↦ subst (λ l. Mem m l) (sym (p.1 id other).1) mem
  ]
