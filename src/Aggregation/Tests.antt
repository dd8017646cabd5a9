-- ===== src/Aggregation/Tests.antt =====
-- An aggregator with one open bucket, at three moments: in time, late, and at a shutdown.
use whatsapp_automatic_plann.Prelude.{
  ◌≡◌, ◌≢◌, ◌+◌, ℕ, refl, ◌<>◌, Option, none, some, [], ◌∷◌, List, arith, String, not, keep,
  if◌then◌else◌, ◌==◌,
}
use whatsapp_automatic_plann.Prelude.Decimal.{decimal}
use whatsapp_automatic_plann.Prelude.Dict.{lookup, lookup-nil}
use whatsapp_automatic_plann.Workflow.Enums.{MessageType}
use whatsapp_automatic_plann.Domain.Enums.{pending}
use whatsapp_automatic_plann.Domain.Models.{Message}
use whatsapp_automatic_plann.Errors.{ok}
use whatsapp_automatic_plann.Aggregation.{
  OpenBucket, AggregatedRequest, Aggregator, active, add, flush_due, load_state, export_state,
}
use whatsapp_automatic_plann.Aggregation.Invariant.{IsValid}
use whatsapp_automatic_plann.Aggregation.Flush.{requests, flush_due_lem, load_state-export_state}
use whatsapp_automatic_plann.Aggregation.Conservation.{
  held, carried, displaced, Ends, flush_due_conserves, add_conserves, add_lands,
}

abbrev new_id : ℕ → String
new_id n = "req-" <> decimal n

abbrev text_message : String → ℕ → Message
text_message id at = record {
  id = id;
  type = MessageType.text;
  order = 0;
  received_at = at;
  text = some "hello";
  caption = none;
  media_id = none;
  mime_type = none;
  filename = none;
  raw_ref = none;
  transcript = none;
  processing_status = pending;
}

abbrev ana_bucket : OpenBucket
ana_bucket = record {
  request_id = "req-0";
  client_id = "ana";
  started_at = 100;
  last_at = 100;
  messages = text_message "m1" 100 ∷ [];
}

abbrev one_open : Aggregator
one_open = record {
  inactivity = 30;
  max_duration = 200;
  opened = ("ana", ana_bucket) ∷ [];
  made = 1;
}

abbrev nothing_open : Aggregator
nothing_open = record { inactivity = 30; max_duration = 200; opened = []; made = 0 }

one_open-IsValid : IsValid one_open
one_open-IsValid = record {
  unique = (lookup-nil "ana", tt);
  buckets = (record { owned = refl; numbered = (refl, tt); within = omega arith }, tt);
}

add_conserves_example :
    (r : Option AggregatedRequest) × ((add new_id "ana" (text_message "m2" 140) 140 one_open).0
      ≡ ok r)
    × (displaced "m2" r + held "m2" (add new_id "ana" (text_message "m2" 140) 140 one_open).1.opened
        ≡ held "m2" one_open.opened + (if "m2" == "m2" then 1 else 0))
add_conserves_example =
    add_conserves new_id "m2" "ana" (text_message "m2" 140) 140 one_open one_open-IsValid

add_lands_example :
    Ends "ana"
      (text_message "m2" 140)
      140
      (add new_id "ana" (text_message "m2" 140) 140 one_open).1.opened
    × (◌≢◌ {A = String} "bo" "ana"
        → lookup "bo" (add new_id "ana" (text_message "m2" 140) 140 one_open).1.opened
          ≡ lookup "bo" one_open.opened)
add_lands_example = add_lands new_id "ana" "bo" (text_message "m2" 140) 140 one_open

flush_due_lem_example : flush_due 140 one_open ≡ (
  ok (requests (keep (λ (_, b). not (active one_open 140 b)) one_open.opened)),
  record one_open { opened = keep (λ (_, b). not (not (active one_open 140 b))) one_open.opened },
)
flush_due_lem_example = flush_due_lem 140 one_open one_open-IsValid

nothing_lost :
    (rs : List AggregatedRequest) × ((flush_due 140 one_open).0 ≡ ok rs)
    × (carried "m1" rs + held "m1" (flush_due 140 one_open).1.opened ≡ held "m1" one_open.opened)
nothing_lost = flush_due_conserves "m1" 140 one_open one_open-IsValid

load_state-export_state_example :
    load_state (export_state one_open) nothing_open
    ≡ record nothing_open { opened = one_open.opened }
load_state-export_state_example = load_state-export_state one_open nothing_open one_open-IsValid
