-- ===== src/Ingestion/Service/Soundness.antt =====
-- What holds of the buckets and the repository between two calls of a service, and what no call
-- undoes. The id factory never gives an id twice.
use mathlib.Core.Path.{subst}
use mathlib.Core.List.{append_assoc}
use whatsapp_automatic_plann.Prelude.{
  ℕ, ◌≤◌, ◌<◌, ◌≡◌, refl, sym, ◌∙◌, ap, not, String, Option, none, some, List, [], ◌∷◌, ◌++◌, keep,
  arith,
}
use whatsapp_automatic_plann.Prelude.Dict.{
  lookup, lookup-erase_self, erase-NodupKeys, erase-Each, erase,
}
use whatsapp_automatic_plann.Domain.Models.{Message, Request}
use whatsapp_automatic_plann.Errors.{ok}
use whatsapp_automatic_plann.Persistence.Repository.{Repository}
use whatsapp_automatic_plann.Aggregation
use whatsapp_automatic_plann.Aggregation.{
  OpenBucket, AggregatedRequest, Aggregator, active, closed, put_message, new_bucket, open_new,
}
use whatsapp_automatic_plann.Aggregation.Invariant.{IsWellFormed, IsValid, add-IsValid}
use whatsapp_automatic_plann.Aggregation.Branches.{add_first, add-active, add_late}
use whatsapp_automatic_plann.Aggregation.Conservation.{branch, first, ongoing, late}
use whatsapp_automatic_plann.Aggregation.Flush.{requests, flush_due_lem}
use whatsapp_automatic_plann.Aggregation.Ids.{
  ids, displaced_ids, request_ids, request_ids-requests, AreDistinct, AreDistinct-impl,
  AreDistinct-other, AreDistinct-All, AreDistinct-drop, AreDistinct-last, AreDistinct-keep,
  AreDistinct-erase, ids-insert, ids-insert_new,
}
use whatsapp_automatic_plann.Orchestrator.Base.{System}
use whatsapp_automatic_plann.Orchestrator.Evolution.{IsKeyed, Evolves}
use whatsapp_automatic_plann.Ingestion.Service.Flush.{flushed, flush_due-IsValid}

-- No id is given twice.
abbrev pub IsInjective : (ℕ → String) → Type 0
IsInjective new_id = (j k : ℕ) → new_id j ≡ new_id k → j ≡ k

module _ (new_id : ℕ → String) where
  -- The id was given before the `n`-th call of the factory, and no request is stored under it.
  abbrev pub IsUnused : ℕ → Repository → String → Type 0
  IsUnused n repo id = ((k : ℕ) → n ≤ k → ¬ (id ≡ new_id k)) × (lookup id repo.requests ≡ none)

  -- `pending` are the ids of the requests that have left their buckets and are not processed yet.
  pub record Sound (pending : List String) (a : Aggregator) (repo : Repository) : Type 0 where
    pub valid : IsValid a
    pub lasting : 0 < a.max_duration
    pub keyed : IsKeyed repo
    pub waiting : AreDistinct (IsUnused a.made repo) (pending ++ ids a.opened)
    pub unissued : (k : ℕ) → a.made ≤ k → lookup (new_id k) repo.requests ≡ none

  pub Sound-none :
      {a : Aggregator} {repo : Repository} (pending : List String)
      → Sound pending a repo
      → Sound [] a repo
  Sound-none {a} pending h = record {
    valid = h.valid;
    lasting = h.lasting;
    keyed = h.keyed;
    waiting = AreDistinct-drop _ pending (ids a.opened) h.waiting;
    unissued = h.unissued;
  }

  module _ {W : Type 0} where
    still_none :
        {about : String} {x y : System W} (id : String)
        → Evolves about x y
        → ¬ (id ≡ about)
        → lookup id x.repo.requests ≡ none
        → lookup id y.repo.requests ≡ none
    still_none id h other e = h.others id other ∙ e

    -- A call of the orchestrator about a stored request.
    pub Sound-evolved :
        {pending : List String} {a : Aggregator} {about : String} {x y : System W} {r : Request}
        → Sound pending a x.repo
        → lookup about x.repo.requests ≡ some r
        → Evolves about x y
        → Sound pending a y.repo
    Sound-evolved {pending} {a} h found e = record {
      valid = h.valid;
      lasting = h.lasting;
      keyed = e.keyed;
      waiting =
          AreDistinct-impl (λ id u. (u.0, still_none id e (λ same. cc) u.1))
            (pending ++ ids a.opened) h.waiting;
      unissued = λ k le.
          still_none (new_id k) e (λ same. let free = h.unissued k le in cc) (h.unissued k le);
    }

    -- A call that adds the request that was to be processed next.
    pub Sound-processed :
        {id : String} {pending : List String} {a : Aggregator} {x y : System W}
        → Sound (id ∷ pending) a x.repo
        → Evolves id x y
        → Sound pending a y.repo
    Sound-processed {id} {pending} {a} h e = record {
      valid = h.valid;
      lasting = h.lasting;
      keyed = e.keyed;
      waiting =
          AreDistinct-other id (λ j ne u. (u.0, still_none j e (λ n. ne (sym n)) u.1))
            (pending ++ ids a.opened) h.waiting.1 h.waiting.2;
      unissued =
          λ k le. still_none (new_id k) e (λ n. h.waiting.0.0 k le (sym n)) (h.unissued k le);
    }

  -- A bucket with the next id of the factory, for a client that has none.
  Sound-opened :
      IsInjective new_id
      → {pending : List String} {a : Aggregator} {repo : Repository} (key : String) (m : Message)
        (now : ℕ)
      → lookup key a.opened ≡ none
      → IsValid (open_new new_id key m now a)
      → Sound pending a repo
      → Sound pending (open_new new_id key m now a) repo
  unfolding open_new
  Sound-opened inj {pending} {a} {repo} key m now e v h = record {
    valid = v;
    lasting = h.lasting;
    keyed = h.keyed;
    waiting =
        rw
          (
            ids-insert_new key (put_message m now (new_bucket new_id key now a)) a.opened e,
            ← append_assoc pending (ids a.opened) (new_id a.made ∷ []),
          )
          (AreDistinct-last _ (pending ++ ids a.opened) (new_id a.made)
            (
              λ k le same. absurd (ground (arith, inj a.made k same)),
              h.unissued a.made (omega arith),
            )
            (AreDistinct-All (λ y u same. u.0 a.made (omega arith) (sym same)) _ h.waiting)
            (AreDistinct-impl (λ y u. (λ k le. u.0 k (omega arith), u.1)) _ h.waiting));
    unissued = λ k le. h.unissued k (omega arith);
  }

  -- A bucket taken out.
  Sound-erased :
      {a : Aggregator} {repo : Repository} (key : String) (b : OpenBucket)
      → lookup key a.opened ≡ some b
      → Sound [] a repo
      → Sound (b.request_id ∷ []) (record a { opened = erase key a.opened }) repo
  Sound-erased {a} key b e h = record {
    valid = record {
      unique = erase-NodupKeys key a.opened h.valid.unique;
      buckets = erase-Each (IsWellFormed a.max_duration) key a.opened h.valid.buckets;
    };
    lasting = h.lasting;
    keyed = h.keyed;
    waiting = AreDistinct-erase _ key b a.opened e h.waiting;
    unissued = h.unissued;
  }

  pub add-Sound :
      IsInjective new_id
      → {a : Aggregator} {repo : Repository} (key : String) (m : Message) (now : ℕ)
      → Sound [] a repo
      → (r : Option AggregatedRequest) × ((Aggregation.add new_id key m now a).0 ≡ ok r)
        × Sound (displaced_ids r) (Aggregation.add new_id key m now a).1 repo
  unfolding put_message closed
  add-Sound inj {a} {repo} key m now h =
      let v = add-IsValid new_id key m now a h.lasting h.valid in
      elim (branch key now a) [
        | first e ↦
            let w = subst (λ x. IsValid x.1) (add_first new_id key m now a e) v in
            rw (add_first new_id key m now a e) (none, refl, Sound-opened inj key m now e w h)
        | ongoing b e act ↦
            let w = subst (λ x. IsValid x.1) (add-active new_id key m now a b e act) v in
            rw (add-active new_id key m now a b e act) (
              none,
              refl,
              record {
                valid = w;
                lasting = h.lasting;
                keyed = h.keyed;
                waiting = rw (ids-insert key (put_message m now b) b a.opened e refl) h.waiting;
                unissued = h.unissued;
              },
            )
        | late b e act ↦
            let w = subst (λ x. IsValid x.1) (add_late new_id key m now a b e act) v in
            rw (add_late new_id key m now a b e act) (
              some (closed b),
              refl,
              Sound-opened inj {pending = b.request_id ∷ []} key m now
                  (lookup-erase_self key a.opened h.valid.unique) w (Sound-erased key b e h),
            )
      ]

  -- A flush closes its buckets, whose requests are then pending.
  pub flushed-Sound :
      {a : Aggregator} {repo : Repository} (now : ℕ)
      → Sound [] a repo
      → Sound
          (request_ids (requests (keep (λ (_, b). not (active a now b)) a.opened)))
          (flushed now a)
          repo
  flushed-Sound {a} now h = record {
    valid =
        subst IsValid (ap (λ x. x.1) (flush_due_lem now a h.valid))
          (flush_due-IsValid now a h.valid);
    lasting = h.lasting;
    keyed = h.keyed;
    waiting =
        rw (request_ids-requests (keep (λ (_, b). not (active a now b)) a.opened))
          (AreDistinct-keep _ (λ b. not (active a now b)) a.opened h.waiting);
    unissued = h.unissued;
  }
