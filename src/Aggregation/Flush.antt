-- ===== src/Aggregation/Flush.antt =====
-- Closing buckets by time, closing all of them, and saving and restoring them.
use whatsapp_automatic_plann.Prelude.{
  ℕ, ◌≡◌, refl, Bool, true, false, not, String, List, [], ◌∷◌, ◌++◌, map, keep, arith, Bool-cases,
  inl, inr, sym, ap, ◌∙◌,
}
use mathlib.Core.List.{append_assoc, append-nil}
use whatsapp_automatic_plann.Prelude.Dict.{Dict, NodupKeys, Each, insert}
use whatsapp_automatic_plann.Prelude.DictSplits.{
  lookup-middle, erase-middle, NodupKeys-middle, lookup-before, insert_new,
}
use whatsapp_automatic_plann.Errors.{after, ok}
use whatsapp_automatic_plann.Aggregation.{
  OpenBucket, AggregatedRequest, Aggregator, active, closed, emit, emit_each, flush_due, flush_all,
  export_state, by_client, load_state,
}
use whatsapp_automatic_plann.Aggregation.Invariant.{IsWellFormed, IsValid}

emit-middle :
    (s : Aggregator) (xs : Dict OpenBucket) (k : String) (b : OpenBucket) (ys : Dict OpenBucket)
    → NodupKeys (xs ++ (k, b) ∷ ys)
    → emit k (record s { opened = xs ++ (k, b) ∷ ys })
      ≡ (ok (closed b), record s { opened = xs ++ ys })
unfolding emit
emit-middle s xs k b ys h = ground (arith, lookup-middle xs k b ys h, erase-middle xs k b ys h)

abbrev names : Dict OpenBucket → List String
names = map (λ (cid, _). cid)

-- The requests that closing the entries makes.
abbrev pub requests : Dict OpenBucket → List AggregatedRequest
requests = map (λ (_, b). closed b)

module _ (p : OpenBucket → Bool) (s : Aggregator) where
  -- What closing the entries of `ys` that pass the test does, with `xs` in front of them.
  abbrev ClosesThose : Dict OpenBucket → Dict OpenBucket → Type 0
  ClosesThose xs ys =
      emit_each (names (keep (λ (_, b). p b) ys)) (record s { opened = xs ++ ys }) ≡ (
        ok (requests (keep (λ (_, b). p b) ys)),
        record s { opened = xs ++ keep (λ (_, b). not (p b)) ys },
      )

  close_first :
      (xs ys : Dict OpenBucket) (k : String) (b : OpenBucket)
      → NodupKeys (xs ++ (k, b) ∷ ys)
      → p b ≡ true
      → ClosesThose xs ys
      → ClosesThose xs ((k, b) ∷ ys)
  unfolding emit_each after
  close_first xs ys k b h e ih = rw e (ground (arith, emit-middle s xs k b ys h))

  keep_first :
      (xs ys : Dict OpenBucket) (k : String) (b : OpenBucket)
      → p b ≡ false
      → ClosesThose (xs ++ (k, b) ∷ []) ys
      → ClosesThose xs ((k, b) ∷ ys)
  keep_first xs ys k b e ih = rw (e, keep) (simp append_assoc at ih)

  emit_each-keep : (xs ys : Dict OpenBucket) → NodupKeys (xs ++ ys) → ClosesThose xs ys
  unfolding emit_each after
  emit_each-keep xs [] h = refl
  emit_each-keep xs ((k, b) ∷ ys) h = elim (Bool-cases (p b)) [
    | inl e ↦ close_first xs ys k b h e (emit_each-keep xs ys (NodupKeys-middle xs k b ys h))
    | inr e ↦ keep_first xs ys k b e (emit_each-keep (xs ++ (k, b) ∷ []) ys (simp append_assoc h))
  ]

-- A flush never raises. It closes exactly the buckets that are no longer active, in the order in
-- which they were opened, and leaves the others as they were.
pub flush_due_lem :
    (now : ℕ) (s : Aggregator)
    → IsValid s
    → flush_due now s ≡ (
      ok (requests (keep (λ (_, b). not (active s now b)) s.opened)),
      record s { opened = keep (λ (_, b). not (not (active s now b))) s.opened },
    )
unfolding flush_due after
flush_due_lem now s h = emit_each-keep (λ b. not (active s now b)) s [] s.opened h.unique

keep-true : (xs : Dict OpenBucket) → keep (λ _. true) xs ≡ xs
keep-true [] = refl
keep-true (x ∷ xs) = ap (λ r. x ∷ r) (keep-true xs)

keep-false : (xs : Dict OpenBucket) → keep (λ _. false) xs ≡ []
keep-false [] = refl
keep-false (_ ∷ xs) = keep-false xs

-- A graceful shutdown never raises: every open bucket is closed, in order, and none is left.
pub flush_all_lem :
    (s : Aggregator) → IsValid s → flush_all s ≡ (ok (requests s.opened), record s { opened = [] })
unfolding flush_all after
flush_all_lem s h =
    rw (keep-true, keep-false) at (emit_each-keep (λ _. true) s [] s.opened h.unique)

by_client-append :
    (max : ℕ) (xs ys : Dict OpenBucket)
    → NodupKeys (xs ++ ys)
    → Each (IsWellFormed max) ys
    → by_client (map (λ (_, b). b) ys) xs ≡ xs ++ ys
unfolding by_client
by_client-append max xs [] u e = sym (append-nil xs)
by_client-append max xs ((k, b) ∷ ys) u e =
    let placed : insert b.client_id b xs ≡ xs ++ (k, b) ∷ [] =
      ap (λ c. insert c b xs) e.0.owned ∙ insert_new k b xs (lookup-before xs k b ys u) in
    ap (by_client (map (λ (_, b). b) ys)) placed
    ∙ by_client-append max (xs ++ (k, b) ∷ []) ys (simp append_assoc u) e.1
    ∙ append_assoc xs _ ys

-- What is exported before a restart and loaded after it are the same open buckets, whatever the
-- new process had open.
pub load_state-export_state :
    (s fresh : Aggregator)
    → IsValid s
    → load_state (export_state s) fresh ≡ record fresh { opened = s.opened }
unfolding load_state export_state
load_state-export_state s fresh h =
    rw (by_client-append s.max_duration [] s.opened h.unique h.buckets)
