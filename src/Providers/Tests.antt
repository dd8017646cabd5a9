-- ===== src/Providers/Tests.antt =====
-- The storage in memory, on a key that is put twice and deleted.
use whatsapp_automatic_plann.Prelude.{◌≡◌, List, [], ◌∷◌, none}
use whatsapp_automatic_plann.Providers.Storage.{
  Operation, put_op, get_op, exists_op, delete_op, run, run_promised, run-run_promised,
}

abbrev operations : List Operation
operations =
    put_op "a" (1 ∷ []) "text/plain"
    ∷ put_op "a" (2 ∷ []) "image/png"
    ∷ get_op "a"
    ∷ delete_op "a"
    ∷ exists_op "a"
    ∷ get_op "a"
    ∷ []

run-run_promised_example : run operations [] ≡ run_promised operations (λ _. none)
run-run_promised_example = run-run_promised operations
