-- ===== src/Aggregation/Branches.antt =====
-- The three branches of `Aggregator.add`, for the proofs about it.
use whatsapp_automatic_plann.Prelude.{ℕ, ◌≡◌, true, false, String, none, some, arith}
use whatsapp_automatic_plann.Prelude.Dict.{lookup, insert, erase}
use whatsapp_automatic_plann.Domain.Models.{Message}
use whatsapp_automatic_plann.Errors.{after, ok}
use whatsapp_automatic_plann.Aggregation.{
  OpenBucket, Aggregator, active, closed, emit, put_message, open_new, add,
}

module _ (new_id : ℕ → String) (key : String) (m : Message) (now : ℕ) (s : Aggregator) where
  pub add_first :
      lookup key s.opened ≡ none → add new_id key m now s ≡ (ok none, open_new new_id key m now s)
  unfolding add
  add_first e = ground arith

  pub add-active :
      (b : OpenBucket)
      → lookup key s.opened ≡ some b
      → active s now b ≡ true
      → add new_id key m now s
        ≡ (ok none, record s { opened = insert key (put_message m now b) s.opened })
  unfolding add
  add-active b e a = ground arith

  pub add_late :
      (b : OpenBucket)
      → lookup key s.opened ≡ some b
      → active s now b ≡ false
      → add new_id key m now s ≡ (
        ok (some (closed b)),
        open_new new_id key m now (record s { opened = erase key s.opened }),
      )
  unfolding add emit after
  add_late b e a = ground arith
