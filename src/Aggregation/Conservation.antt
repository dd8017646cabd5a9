-- ===== src/Aggregation/Conservation.antt =====
-- No message is lost or doubled on its way through the buckets, and clients do not interfere.
use whatsapp_automatic_plann.Prelude.{
  ℕ, ◌+◌, ◌≡◌, refl, ◌≢◌, Bool, true, false, not, inl, inr, String, Option, none, some, List, [],
  ◌∷◌, ◌++◌, keep, last?, last?-append, length, length-append, ◌∙◌, arith, ◌==◌, if◌then◌else◌,
  Bool-cases, Option-cases,
}
use whatsapp_automatic_plann.Prelude.Dict.{
  Dict, lookup, insert, erase, lookup-insert, lookup-erase_ne, lookup-erase_self,
}
use whatsapp_automatic_plann.Domain.Models.{Message}
use whatsapp_automatic_plann.Errors.{ok}
use whatsapp_automatic_plann.Aggregation.{
  OpenBucket, AggregatedRequest, Aggregator, active, closed, put_message, new_bucket, open_new, add,
  flush_due,
}
use whatsapp_automatic_plann.Aggregation.Invariant.{IsValid}
use whatsapp_automatic_plann.Aggregation.Branches.{add_first, add-active, add_late}
use whatsapp_automatic_plann.Aggregation.Flush.{requests, flush_due_lem}

module _ (k : String) where
  -- How often a message with the id `k` occurs.
  abbrev pub copies : List Message → ℕ
  copies [] = 0
  copies (m ∷ ms) = (if k == m.id then 1 else 0) + copies ms

  abbrev pub held : Dict OpenBucket → ℕ
  held [] = 0
  held ((_, b) ∷ d) = copies b.messages + held d

  abbrev pub carried : List AggregatedRequest → ℕ
  carried [] = 0
  carried (a ∷ rest) = copies a.messages + carried rest

  abbrev pub displaced : Option AggregatedRequest → ℕ
  displaced none = 0
  displaced (some a) = copies a.messages

  copies-append :
      (ms : List Message) (m : Message)
      → copies (ms ++ m ∷ []) ≡ copies ms + (if k == m.id then 1 else 0)
  copies-append [] m = omega arith
  copies-append (x ∷ ms) m = omega (arith, copies-append ms m)

  copies-put_message :
      (m : Message) (now : ℕ) (b : OpenBucket)
      → copies (put_message m now b).messages ≡ copies b.messages + (if k == m.id then 1 else 0)
  unfolding put_message
  copies-put_message m now b = copies-append b.messages _

  held-insert_new :
      (key : String) (b : OpenBucket) (d : Dict OpenBucket)
      → lookup key d ≡ none
      → held (insert key b d) ≡ copies b.messages + held d
  unfolding lookup insert
  held-insert_new key b [] h = omega arith
  held-insert_new key b ((j, c) ∷ d) h = ground (arith, held-insert_new key b d)

  held-insert :
      (key : String) (b old : OpenBucket) (d : Dict OpenBucket)
      → lookup key d ≡ some old
      → held (insert key b d) + copies old.messages ≡ copies b.messages + held d
  unfolding lookup insert
  held-insert key b old [] h = cc
  held-insert key b old ((j, c) ∷ d) h = ground (arith, held-insert key b old d)

  held-erase :
      (key : String) (old : OpenBucket) (d : Dict OpenBucket)
      → lookup key d ≡ some old
      → held (erase key d) + copies old.messages ≡ held d
  unfolding lookup erase
  held-erase key old [] h = cc
  held-erase key old ((j, c) ∷ d) h = ground (arith, held-erase key old d)

  held-keep :
      (p : OpenBucket → Bool) (d : Dict OpenBucket)
      → carried (requests (keep (λ (_, b). p b) d)) + held (keep (λ (_, b). not (p b)) d) ≡ held d
  unfolding closed
  held-keep p [] = omega arith
  held-keep p ((_, b) ∷ d) = ground (arith, held-keep p d)

  -- What a flush closes and what stays open are together what was open.
  pub flush_due_conserves :
      (now : ℕ) (s : Aggregator)
      → IsValid s
      → (rs : List AggregatedRequest) × ((flush_due now s).0 ≡ ok rs)
        × (carried rs + held (flush_due now s).1.opened ≡ held s.opened)
  flush_due_conserves now s h =
      rw (flush_due_lem now s h) (_, refl, held-keep (λ b. not (active s now b)) s.opened)

-- Which of the three branches a call takes.
pub data Branch (key : String) (now : ℕ) (s : Aggregator) : Type 0 where
  first : lookup key s.opened ≡ none → Branch key now s
  ongoing :
      (b : OpenBucket) → lookup key s.opened ≡ some b → active s now b ≡ true → Branch key now s
  late : (b : OpenBucket) → lookup key s.opened ≡ some b → active s now b ≡ false → Branch key now s

pub branch : (key : String) (now : ℕ) (s : Aggregator) → Branch key now s
branch key now s = elim (Option-cases (lookup key s.opened)) [
  | inl e ↦ first e
  | inr (b, e) ↦ elim (Bool-cases (active s now b)) [ inl a ↦ ongoing b e a | inr a ↦ late b e a ]
]

-- The bucket under a key ends with the message, under its number in the bucket.
abbrev pub Ends : String → Message → ℕ → Dict OpenBucket → Type 0
Ends key m now d =
    (b : OpenBucket) × (n : ℕ) × (lookup key d ≡ some b)
    × (b.last_at ≡ now)
    × (last? b.messages ≡ some (record m { order = n }))
    × (length b.messages ≡ n + 1)

insert-Ends :
    (key : String) (m : Message) (now : ℕ) (b : OpenBucket) (d : Dict OpenBucket)
    → Ends key m now (insert key (put_message m now b) d)
unfolding put_message
insert-Ends key m now b d = (
  put_message m now b,
  length b.messages,
  rw lookup-insert (ground arith),
  refl,
  last?-append b.messages _,
  length-append b.messages _ ∙ refl,
)

module _ (new_id : ℕ → String) where
  held-open_new :
      (k key : String) (m : Message) (now : ℕ) (s : Aggregator)
      → lookup key s.opened ≡ none
      → held k (open_new new_id key m now s).opened ≡ held k s.opened + (if k == m.id then 1 else 0)
  unfolding open_new
  held-open_new k key m now s e = omega (
    arith,
    held-insert_new k key (put_message m now (new_bucket new_id key now s)) s.opened e,
    copies-put_message k m now (new_bucket new_id key now s),
  )

  -- `add` never raises, and every message that was in a bucket is still in one or in the request
  -- that is returned, with the new message added once.
  pub add_conserves :
      (k key : String) (m : Message) (now : ℕ) (s : Aggregator)
      → IsValid s
      → (r : Option AggregatedRequest) × ((add new_id key m now s).0 ≡ ok r)
        × (displaced k r + held k (add new_id key m now s).1.opened
            ≡ held k s.opened + (if k == m.id then 1 else 0))
  unfolding closed
  add_conserves k key m now s h = elim (branch key now s) [
    | first e ↦
        rw (add_first new_id key m now s e)
          (none, refl, omega (arith, held-open_new k key m now s e))
    | ongoing b e a ↦ rw (add-active new_id key m now s b e a) (
      none,
      refl,
      omega (
        arith,
        held-insert k key (put_message m now b) b s.opened e,
        copies-put_message k m now b,
      ),
    )
    | late b e a ↦ rw (add_late new_id key m now s b e a) (
      some (closed b),
      refl,
      omega (
        arith,
        held-open_new k key m now (record s { opened = erase key s.opened })
            (lookup-erase_self key s.opened h.unique),
        held-erase k key b s.opened e,
      ),
    )
  ]

  -- After `add` the client's bucket ends with the message, under its number in the bucket, and
  -- the bucket of every other client is as it was.
  pub add_lands :
      (key j : String) (m : Message) (now : ℕ) (s : Aggregator)
      → Ends key m now (add new_id key m now s).1.opened
        × (j ≢ key → lookup j (add new_id key m now s).1.opened ≡ lookup j s.opened)
  unfolding open_new
  add_lands key j m now s = elim (branch key now s) [
    | first e ↦ rw (add_first new_id key m now s e) (
      insert-Ends key m now (new_bucket new_id key now s) s.opened,
      λ h. rw lookup-insert (ground arith),
    )
    | ongoing b e a ↦
        rw (add-active new_id key m now s b e a)
          (insert-Ends key m now b s.opened, λ h. rw lookup-insert (ground arith))
    | late b e a ↦ rw (add_late new_id key m now s b e a) (
      insert-Ends key m now (new_bucket new_id key now (record s { opened = erase key s.opened }))
          (erase key s.opened),
      λ h. rw lookup-insert (ground (arith, lookup-erase_ne j key s.opened h)),
    )
  ]
