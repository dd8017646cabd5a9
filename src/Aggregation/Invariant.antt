-- ===== src/Aggregation/Invariant.antt =====
-- What holds of an aggregator between two calls, and that every call keeps it.
use whatsapp_automatic_plann.Prelude.{
  ℕ, suc, ◌+◌, ◌<◌, ◌≡◌, refl, inl, inr, String, some, List, [], ◌∷◌, ◌++◌, length, arith,
  Option-cases, true,
}
use whatsapp_automatic_plann.Prelude.Dict.{
  NodupKeys, Each, lookup, insert, insert-NodupKeys, erase-NodupKeys, insert-Each, erase-Each,
  lookup-Each,
}
use whatsapp_automatic_plann.Domain.Models.{Message}
use whatsapp_automatic_plann.Errors.{Result, ok, err, pure, after, Result-cases}
use whatsapp_automatic_plann.Aggregation.{
  OpenBucket, Aggregator, emit, emit_each, put_message, new_bucket, open_new, add, active,
}

-- The messages carry the orders n, n + 1, ….
abbrev pub Numbered : ℕ → List Message → Type 0
Numbered n [] = Unit
Numbered n (m ∷ ms) = (m.order ≡ n) × Numbered (suc n) ms

Numbered-append :
    (n : ℕ) (ms : List Message) (m : Message)
    → Numbered n ms
    → m.order ≡ n + length ms
    → Numbered n (ms ++ m ∷ [])
Numbered-append n [] m h e = (omega arith, tt)
Numbered-append n (x ∷ ms) m h e = (h.0, Numbered-append (suc n) ms m h.1 (omega arith))

-- A bucket under a key: it is that client's, its messages are numbered in order of arrival, and
-- its last message came before the maximum duration was over.
pub record IsWellFormed (max_duration : ℕ) (key : String) (b : OpenBucket) : Type 0 where
  pub owned : b.client_id ≡ key
  pub numbered : Numbered 0 b.messages
  pub within : b.last_at < b.started_at + max_duration

pub record IsValid (s : Aggregator) : Type 0 where
  pub unique : NodupKeys s.opened
  pub buckets : Each (IsWellFormed s.max_duration) s.opened

put_message-IsWellFormed :
    (max : ℕ) (key : String) (m : Message) (now : ℕ) (b : OpenBucket)
    → IsWellFormed max key b
    → now < b.started_at + max
    → IsWellFormed max key (put_message m now b)
unfolding put_message
put_message-IsWellFormed max key m now b h lt = record {
  owned = h.owned;
  numbered = Numbered-append 0 b.messages _ h.numbered (omega arith);
  within = lt;
}

-- Closing a bucket keeps the invariant.
pub emit-IsValid : (key : String) (s : Aggregator) → IsValid s → IsValid (emit key s).1
unfolding emit
emit-IsValid key s h = ground (
  arith,
  erase-NodupKeys key s.opened h.unique,
  erase-Each (IsWellFormed s.max_duration) key s.opened h.buckets,
)

after-pure-IsValid :
    {A B : Type 0} (f : A → B) (x : Result A × Aggregator)
    → IsValid x.1
    → IsValid (after x (λ a. pure (f a))).1
unfolding after
after-pure-IsValid f (ok a, s) h = h
after-pure-IsValid f (err e, s) h = h

-- So does closing several.
pub emit_each-IsValid :
    (keys : List String) (s : Aggregator) → IsValid s → IsValid (emit_each keys s).1
unfolding emit_each after
emit_each-IsValid [] s h = h
emit_each-IsValid (k ∷ ks) s h = elim (Result-cases (emit k s).0) [
  | inl (a, e) ↦
      rw (e, after)
        (after-pure-IsValid (λ rest. a ∷ rest) (emit_each ks (emit k s).1)
          (emit_each-IsValid ks _ (emit-IsValid k s h)))
  | inr (x, e) ↦ rw (e, after) (emit-IsValid k s h)
]

emit-durations : (key : String) (s : Aggregator) → (emit key s).1.max_duration ≡ s.max_duration
unfolding emit
emit-durations key s = ground arith

keep_on :
    (key : String) (m : Message) (now : ℕ) (b : OpenBucket) (s : Aggregator)
    → IsValid s
    → lookup key s.opened ≡ some b
    → active s now b ≡ true
    → IsValid (record s { opened = insert key (put_message m now b) s.opened })
unfolding active
keep_on key m now b s h e a = record {
  unique = insert-NodupKeys key _ s.opened h.unique;
  buckets =
      insert-Each (IsWellFormed s.max_duration) key _ s.opened
        (put_message-IsWellFormed s.max_duration key m now b
          (lookup-Each (IsWellFormed s.max_duration) key b s.opened h.buckets e) (ground arith))
        h.buckets;
}

module _ (new_id : ℕ → String) where
  open_new-IsValid :
      (key : String) (m : Message) (now : ℕ) (s : Aggregator)
      → 0 < s.max_duration
      → IsValid s
      → IsValid (open_new new_id key m now s)
  unfolding open_new
  open_new-IsValid key m now s p h = record {
    unique = insert-NodupKeys key _ s.opened h.unique;
    buckets =
        insert-Each (IsWellFormed s.max_duration) key _ s.opened
          (put_message-IsWellFormed s.max_duration key m now (new_bucket new_id key now s)
            (record { owned = refl; numbered = tt; within = omega arith }) (omega arith))
          h.buckets;
  }

  -- Whatever `add` does, no client has two buckets, every bucket is its client's, its messages are
  -- numbered in order of arrival, and none came after the maximum duration.
  pub add-IsValid :
      (key : String) (m : Message) (now : ℕ) (s : Aggregator)
      → 0 < s.max_duration
      → IsValid s
      → IsValid (add new_id key m now s).1
  unfolding add after
  add-IsValid key m now s p h = elim (Option-cases (lookup key s.opened)) [
    | inl new ↦ rw (new, add) (open_new-IsValid key m now s p h)
    | inr (b, old) ↦ ground (
      arith,
      keep_on key m now b s h old,
      emit-IsValid key s h,
      open_new-IsValid key m now (emit key s).1,
      emit-durations key s,
    )
  ]
