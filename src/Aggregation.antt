-- ===== src/Aggregation.antt =====
-- src/wapp_planner/aggregation/aggregator.py: a bucket of messages for each client. `datetime` and
-- `timedelta` are microseconds; `a - b < d` between times is written `a < b + d`.
pub mod Branches
pub mod Invariant
pub mod Flush
pub mod Conservation
pub mod Ids
mod Tests
use whatsapp_automatic_plann.Prelude.{
  ℕ, suc, ◌+◌, Bool, true, false, not, ◌&&◌, String, Option, none, some, List, [], ◌∷◌, ◌++◌, map,
  length, keep, ltb, if◌then◌else◌,
}
use whatsapp_automatic_plann.Prelude.Dict.{Dict, lookup, insert, erase}
use whatsapp_automatic_plann.Domain.Models.{Message}
use whatsapp_automatic_plann.Errors.{Action, ok, key_error, pure, raise, ◌>>=◌}

pub record OpenBucket : Type 0 where
  pub request_id : String
  pub client_id : String
  pub started_at : ℕ
  pub last_at : ℕ
  pub messages : List Message

pub record AggregatedRequest : Type 0 where
  pub request_id : String
  pub client_id : String
  pub started_at : ℕ
  pub last_at : ℕ
  pub messages : List Message

-- `made` counts the calls of the id factory so far.
pub record Aggregator : Type 0 where
  pub inactivity : ℕ
  pub max_duration : ℕ
  pub opened : Dict OpenBucket
  pub made : ℕ

-- `Aggregator.open_count`
unfoldable pub open_count : Aggregator → ℕ
open_count s = length s.opened

-- `Aggregator._active`
unfoldable pub active : Aggregator → ℕ → OpenBucket → Bool
active s now b = ltb now (b.last_at + s.inactivity) && ltb now (b.started_at + s.max_duration)

-- `AggregatedRequest(**bucket.model_dump())`
unfoldable pub closed : OpenBucket → AggregatedRequest
closed b = record {
  request_id = b.request_id;
  client_id = b.client_id;
  started_at = b.started_at;
  last_at = b.last_at;
  messages = b.messages;
}

-- `Aggregator._emit`; `dict.pop` raises when the key is missing.
unfoldable pub emit : String → Action Aggregator AggregatedRequest
unfolding closed
emit client_id s = elim (lookup client_id s.opened) [
  | none ↦ raise key_error s
  | some b ↦ pure (closed b) (record s { opened = erase client_id s.opened })
]

-- `bucket.messages.append(message.model_copy(...)); bucket.last_at = now`
unfoldable pub put_message : Message → ℕ → OpenBucket → OpenBucket
put_message message now b = record b {
  last_at = now;
  messages = b.messages ++ record message { order = length b.messages } ∷ [];
}

-- `[self._emit(cid) for cid in ids]`
unfoldable pub emit_each : List String → Action Aggregator (List AggregatedRequest)
emit_each [] = pure []
emit_each (cid ∷ ids) = emit cid >>= λ a. emit_each ids >>= λ rest. pure (a ∷ rest)

-- The ids of the buckets that are no longer active, in the order of the dict.
unfoldable pub due_ids : Aggregator → ℕ → List String
unfolding active
due_ids s now = map (λ (cid, _). cid) (keep (λ (_, b). not (active s now b)) s.opened)

unfoldable pub flush_due : ℕ → Action Aggregator (List AggregatedRequest)
unfolding due_ids emit_each
flush_due now s = emit_each (due_ids s now) s

unfoldable pub flush_all : Action Aggregator (List AggregatedRequest)
unfolding emit_each
flush_all s = emit_each (map (λ (cid, _). cid) s.opened) s

unfoldable pub export_state : Aggregator → List OpenBucket
export_state s = map (λ (_, b). b) s.opened

-- `{bucket.client_id: bucket for bucket in buckets}`: of two with one key the later stays.
unfoldable pub by_client : List OpenBucket → Dict OpenBucket → Dict OpenBucket
by_client [] d = d
by_client (b ∷ bs) d = by_client bs (insert b.client_id b d)

unfoldable pub load_state : List OpenBucket → Aggregator → Aggregator
unfolding by_client
load_state buckets s = record s { opened = by_client buckets [] }

-- The id factory is a parameter: its result at each call.
module _ (new_id : ℕ → String) where
  unfoldable pub new_bucket : String → ℕ → Aggregator → OpenBucket
  new_bucket client_id now s = record {
    request_id = new_id s.made;
    client_id = client_id;
    started_at = now;
    last_at = now;
    messages = [];
  }

  -- The message in a bucket of its own, once the old one is gone.
  unfoldable pub open_new : String → Message → ℕ → Aggregator → Aggregator
  unfolding new_bucket put_message
  open_new client_id message now s = record s {
    opened = insert client_id (put_message message now (new_bucket client_id now s)) s.opened;
    made = s.made + 1;
  }

  unfoldable pub add : String → Message → ℕ → Action Aggregator (Option AggregatedRequest)
  add client_id message now s = elim (lookup client_id s.opened) [
    | none ↦ pure none (open_new client_id message now s)
    | some b ↦
        if active s now b
        then pure none (record s { opened = insert client_id (put_message message now b) s.opened })
        else (emit client_id >>= λ displaced s'.
              pure (some displaced) (open_new client_id message now s'))
            s
  ]
