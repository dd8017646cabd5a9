-- ===== src/Ingestion/Idempotency.antt =====
-- src/wapp_planner/ingestion/idempotency.py. The set of keys is a list.
use whatsapp_automatic_plann.Prelude.{
  ℕ, ◌+◌, ◌≡◌, Bool, true, false, String, List, [], ◌∷◌, arith, contains, ◌==◌, if◌then◌else◌,
  String-discrete,
}

-- The store is its set of keys.
abbrev pub IdempotencyStore : Type 0
IdempotencyStore = List String

unfoldable pub seen : String → IdempotencyStore → Bool
seen key store = contains key store

unfoldable pub claim : String → IdempotencyStore → Bool × IdempotencyStore
claim key store = if contains key store then (false, store) else (true, key ∷ store)

-- How often `k` is granted when the keys are claimed one after another.
abbrev pub granted : String → List String → IdempotencyStore → ℕ
granted k [] store = 0
granted k (key ∷ keys) store =
    let (first, store') = claim key store in
    (if k == key then (if first then 1 else 0) else 0) + granted k keys store'

-- However often a key is claimed, and whatever is claimed in between, it is granted once, and not
-- at all if it was seen before.
pub granted_once :
    (k : String) (keys : List String) (store : IdempotencyStore)
    → granted k keys store ≡ (if seen k store then 0 else if contains k keys then 1 else 0)
unfolding claim seen
granted_once k [] store = ground arith
granted_once k (key ∷ keys) store =
    ground
      (arith, granted_once k keys store, granted_once k keys (key ∷ store), String-discrete k key)
